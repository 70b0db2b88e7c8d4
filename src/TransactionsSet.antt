-- ===== src/TransactionsSet.antt =====
-- core/transactions_set.hpp and core/transactions_set.cpp: a vector of transactions used as a set.
pub mod Members
pub mod Selection
pub mod Costs
use likelib_utonhack.Prelude.{
  ℕ, zero, suc, ◌+◌, ◌-◌, ◌*◌, ◌/◌, ◌%◌, ◌^◌, ◌≤◌, ◌<◌, min, max, ◌≡◌, refl, sym, ap, subst, ◌∙◌,
  ◌≡⟨◌⟩◌, ◌∎, ◌≢◌, ◌↔◌, ◌⊎◌, inl, inr, Bool, true, false, not, ◌&&◌, ◌||◌, Option, none, some, List,
  [], ◌∷◌, ◌++◌, map, append-nil, append_assoc, arith, ltb, leb, ◌==◌, if◌then◌else◌, lt→ltb,
  le→leb, ==_iff, Bool-cases, Option-cases, length, get_elem?, take, drop, replicate, length-append,
  length-take, length-replicate, drop-append, take-append, All, All-append, Eq, nat_eq, bytes_eq,
  bytes_eq_iff, bytes_equality, beq_refl,
}
use likelib_utonhack.Outcome.{Outcome, ok, raise, Error, ◌>>=◌}
use likelib_utonhack.Bytes.{Bytes}
use likelib_utonhack.Map.{Map, insert}
use likelib_utonhack.External.{External}
use likelib_utonhack.Address.{Address}
use likelib_utonhack.Transaction.{Transaction, Balance, tx_eq, hash_of_transaction}
use likelib_utonhack.Amount.{add_amount}

abbrev pub TransactionsSet : Type 0
TransactionsSet = List Transaction

-- TransactionsSet::find of a transaction
unfoldable pub contains : TransactionsSet → Transaction → Bool
contains [] tx = false
contains (t ∷ txs) tx = tx_eq t tx || contains txs tx

-- TransactionsSet::find of a hash
unfoldable pub find_hash : External → TransactionsSet → Bytes → Option Transaction
find_hash ext [] hash = none
find_hash ext (t ∷ txs) hash =
    if bytes_eq (hash_of_transaction ext t) hash then some t else find_hash ext txs hash

-- TransactionsSet::add
unfoldable pub add : TransactionsSet → Transaction → TransactionsSet
unfolding contains
add txs tx = if contains txs tx then txs else txs ++ tx ∷ []

abbrev last_or : Transaction → TransactionsSet → Transaction
last_or t [] = t
last_or t (u ∷ txs) = last_or u txs

-- pop_back
abbrev without_last : Transaction → TransactionsSet → TransactionsSet
without_last t [] = []
without_last t (u ∷ txs) = t ∷ without_last u txs

-- The element is overwritten with the last one, which is popped; the last itself is just popped.
abbrev swap_out : TransactionsSet → TransactionsSet
swap_out [] = []
swap_out (u ∷ rest) = last_or u rest ∷ without_last u rest

-- TransactionsSet::remove of a transaction
unfoldable pub remove : TransactionsSet → Transaction → TransactionsSet
remove [] tx = []
remove (t ∷ txs) tx = let rest = t ∷ remove txs tx in if tx_eq t tx then swap_out txs else rest

-- TransactionsSet::remove of another set
unfoldable pub remove_all : TransactionsSet → TransactionsSet → TransactionsSet
unfolding remove
remove_all txs [] = txs
remove_all txs (t ∷ other) = remove_all (remove txs t) other

-- TransactionsSet::operator==
unfoldable pub set_eq : TransactionsSet → TransactionsSet → Bool
set_eq [] [] = true
set_eq [] (u ∷ us) = false
set_eq (t ∷ ts) [] = false
set_eq (t ∷ ts) (u ∷ us) = tx_eq t u && set_eq ts us

-- std::nth_element: it takes a comparator and the place of the n-th element, and reorders the vector.
abbrev pub Comparator : Type 0
Comparator = Transaction → Transaction → Bool

abbrev pub NthElement : Type 0
NthElement = Comparator → ℕ → TransactionsSet → TransactionsSet

-- The comparator of selectBestByFee.
unfoldable pub pays_more : Comparator
pays_more a b = ltb b.fee a.fee

-- TransactionsSet::selectBestByFee
unfoldable pub select_best_by_fee : NthElement → ℕ → TransactionsSet → Outcome TransactionsSet
unfolding pays_more
select_best_by_fee nth_element n txs =
    if ltb (length txs) n
    then raise Error.invalid_argument
    else ok (take n (nth_element pays_more n txs))

-- calcCost: a sender's entry is the one that was inserted first.
unfoldable pub calc_cost_from :
    Map Address Balance → TransactionsSet → Outcome (Map Address Balance)
calc_cost_from result [] = ok result
calc_cost_from result (t ∷ txs) = do
  cost ← add_amount t.amount t.fee
  calc_cost_from (insert t.from cost result) txs

unfoldable pub calc_cost : TransactionsSet → Outcome (Map Address Balance)
unfolding calc_cost_from
calc_cost txs = calc_cost_from [] txs
