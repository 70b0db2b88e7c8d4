-- ===== src/TransactionsSet/Costs.antt =====
-- What calcCost computes: for each sender the cost of the first of its transactions.
use likelib_utonhack.Prelude.{
  ◌+◌, ◌≤◌, ◌≡◌, refl, Option, none, some, [], ◌∷◌, ◌++◌, arith, if◌then◌else◌, All, nat_eq,
  bytes_eq, bytes_eq_iff, bytes_equality,
}
use likelib_utonhack.Outcome.{ok}
use likelib_utonhack.Map.{Map, find, insert, find-insert}
use likelib_utonhack.Amount.{add_amount, max_amount}
use likelib_utonhack.Address.{Address}
use likelib_utonhack.Transaction.{Transaction, Balance}
use likelib_utonhack.TransactionsSet.{TransactionsSet, calc_cost, calc_cost_from}

-- The cost of the first transaction of a sender.
abbrev pub first_cost : Address → TransactionsSet → Option Balance
first_cost a [] = none
first_cost a (t ∷ txs) = if bytes_eq t.from a then some (t.amount + t.fee) else first_cost a txs

pub first_cost-append_some :
    (a : Address) (p : Balance) (txs others : TransactionsSet)
    → first_cost a txs ≡ some p
    → first_cost a (txs ++ others) ≡ some p
first_cost-append_some a p [] others h = cc
first_cost-append_some a p (t ∷ txs) others h =
    ground (arith, first_cost-append_some a p txs others)

pub first_cost-append_none :
    (a : Address) (txs others : TransactionsSet)
    → first_cost a txs ≡ none
    → first_cost a (txs ++ others) ≡ first_cost a others
first_cost-append_none a [] others h = refl
first_cost-append_none a (t ∷ txs) others h = ground (arith, first_cost-append_none a txs others)

abbrev or_first : Option Balance → Option Balance → Option Balance
or_first none o = o
or_first (some n) o = some n

abbrev pub Affordable : TransactionsSet → Type 0
Affordable txs = All (λ (t : Transaction). t.amount + t.fee ≤ max_amount) txs

find-calc_cost_from :
    (m : Map Address Balance) (txs : TransactionsSet) (a : Address)
    → Affordable txs
    → (r : Map Address Balance) × (calc_cost_from m txs ≡ ok r)
      × (find a r ≡ or_first (find a m) (first_cost a txs))
unfolding calc_cost_from add_amount
find-calc_cost_from m [] a h = (m, refl, ground arith)
find-calc_cost_from m (t ∷ txs) a h =
    let (r, e, f) = find-calc_cost_from (insert t.from (t.amount + t.fee) m) txs a h.1 in
    (
      r,
      ground arith,
      ground (arith, find-insert t.from a (t.amount + t.fee) m, bytes_eq_iff t.from a),
    )

-- Where no cost overflows, an address's entry is the cost of its first transaction alone, and is
-- missing where it has none.
pub find-calc_cost :
    (txs : TransactionsSet) (a : Address)
    → Affordable txs
    → (r : Map Address Balance) × (calc_cost txs ≡ ok r) × (find a r ≡ first_cost a txs)
unfolding calc_cost find
find-calc_cost txs a h = find-calc_cost_from [] txs a h
