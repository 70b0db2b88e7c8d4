-- ===== src/Core/Spending.antt =====
-- addPendingTransaction for the transactions of one sender.
use likelib_utonhack.Prelude.{
  ◌+◌, ◌≤◌, ◌≡◌, refl, sym, ap, subst, ◌∙◌, ◌≢◌, inl, inr, Bool, true, false, none, some, List, [],
  ◌∷◌, ◌++◌, map, append-nil, arith, ltb, leb, if◌then◌else◌, le→leb, Bool-cases, All, nat_eq,
  bytes_eq_iff, bytes_equality,
}
use likelib_utonhack.Outcome.{Outcome, ok}
use likelib_utonhack.Amount.{add_amount, max_amount}
use likelib_utonhack.Address.{Address}
use likelib_utonhack.Transaction.{Transaction, TransactionStatus, Balance, tx_eq}
use likelib_utonhack.TransactionsSet.{TransactionsSet, contains}
use likelib_utonhack.TransactionsSet.Members.{IsDistinct}
use likelib_utonhack.TransactionsSet.Costs.{
  first_cost, first_cost-append_some, first_cost-append_none, Affordable,
}
use likelib_utonhack.States.{States, has_account, account_at}
use likelib_utonhack.Storage.{KeyValue}
use likelib_utonhack.Core.Answers.{cost_of, CanAdd, Funds, Joins, Answered, accepted, refused}
use likelib_utonhack.Core.Joins.{Joins-trans, Funds-Joins, All-CanAdd, contains-one, contains-none}
use likelib_utonhack.Core.{
  Core, World, new_pending_transaction, pending_status, poor_status, refuses_pending,
  add_pending_transaction,
}

-- No transaction of the sender.
abbrev pub HasNone : Address → TransactionsSet → Type 0
HasNone a txs = All (λ (t : Transaction). t.from ≢ a) txs

first_cost-HasNone : (a : Address) (txs : TransactionsSet) → HasNone a txs → first_cost a txs ≡ none
first_cost-HasNone a [] h = refl
first_cost-HasNone a (t ∷ txs) h =
    let other = h.0 in ground (arith, bytes_eq_iff t.from a, first_cost-HasNone a txs h.1)

module _ (balance p : Balance) where
  -- The transactions that cost, together with p, no less than the balance, and the answers to all.
  abbrev pub admitted : List Transaction → List Transaction
  admitted [] = []
  admitted (t ∷ ts) =
      let rest = admitted ts in if leb balance (p + cost_of t) then t ∷ rest else rest

  abbrev pub answers : List Transaction → List (Outcome TransactionStatus)
  answers [] = []
  answers (t ∷ ts) =
      ok (if leb balance (p + cost_of t) then pending_status t else poor_status) ∷ answers ts

module _ (kv : KeyValue) (world : World) where
  -- addPendingTransaction for one after another, with the answers.
  abbrev pub add_each : List Transaction → Core kv → List (Outcome TransactionStatus) × Core kv
  add_each [] c = ([], c)
  add_each (tx ∷ txs) c =
      let r = add_pending_transaction kv world tx c in
      let rest = add_each txs r.1 in (r.0 ∷ rest.0, rest.1)

  refuses_pending-some :
      (t : Transaction) (c : Core kv) (balance p : Balance)
      → Funds kv world t.from balance (some p) c
      → p + cost_of t ≤ max_amount
      → refuses_pending kv world (some p) (cost_of t) t c.ledger.states
        ≡ ok (ltb (p + cost_of t) balance)
  unfolding refuses_pending add_amount
  refuses_pending-some t c balance p funds fits =
      let sum = le→leb (p + cost_of t) max_amount fits in rw (funds.present, sum, funds.has)

  refuses_pending-none :
      (t : Transaction) (s : States) → refuses_pending kv world none (cost_of t) t s ≡ ok false
  unfolding refuses_pending
  refuses_pending-none t s = refl

  module _ (a : Address) (balance p : Balance) (small : balance + balance ≤ max_amount)
      (covered : p ≤ balance) where
    -- A call for a sender with a pending transaction that costs p.
    step :
        (t : Transaction) (c : Core kv)
        → Funds kv world a balance (some p) c
        → CanAdd kv world a balance c t
        → Answered kv world
            (if leb balance (p + cost_of t) then pending_status t else poor_status)
            (if leb balance (p + cost_of t) then t ∷ [] else [])
            t
            c
    step t c funds can =
        let own = subst (λ b. Funds kv world b balance (some p) c) (sym can.own) funds in
        let enough : t.amount + t.fee ≤ balance = can.enough in
        let e = refuses_pending-some t c balance p own (omega arith) in
        elim (Bool-cases (leb balance (p + cost_of t))) [
          | inl h ↦
              (let passes : ltb (p + cost_of t) balance ≡ false = ground arith in
                rw h (
                  accepted kv world t c balance (some p) own can.new can.enough (e ∙ ap ok passes)))
          | inr h ↦
              (let stops : ltb (p + cost_of t) balance ≡ true = ground arith in
                rw h (refused kv world t c balance (some p) own can.new (e ∙ ap ok stops)))
        ]

    one-contains :
        (b : Bool) (t u : Transaction)
        → tx_eq u t ≡ false
        → contains (if b then t ∷ [] else []) u ≡ false
    one-contains true t u h = contains-one kv world t u h
    one-contains false t u h = contains-none kv world u

    one-Affordable :
        (b : Bool) (t : Transaction)
        → cost_of t ≤ max_amount
        → Affordable (if b then t ∷ [] else [])
    one-Affordable true t h = (h, tt)
    one-Affordable false t h = tt

    admitted-one :
        (t : Transaction) (ts : List Transaction)
        → (if leb balance (p + cost_of t) then t ∷ [] else []) ++ admitted balance p ts
          ≡ admitted balance p (t ∷ ts)
    admitted-one t ts = elim (Bool-cases (leb balance (p + cost_of t))) [
      | inl h ↦ rw h refl
      | inr h ↦ rw h refl
    ]

    -- The calls for a sender with a pending transaction that costs p.
    add_each-answers :
        (txs : List Transaction) (c : Core kv)
        → Funds kv world a balance (some p) c
        → IsDistinct txs
        → All (CanAdd kv world a balance c) txs
        → ((add_each txs c).0 ≡ answers balance p txs)
          × Joins kv world (admitted balance p txs) c (add_each txs c).1
    add_each-answers [] c funds distinct can = (
      refl,
      record {
        pending = sym (append-nil c.pending_transactions);
        announced = sym (append-nil c.events);
        same_states = refl;
        same_chain = refl;
      },
    )
    add_each-answers (t ∷ txs) c funds distinct can =
        let c' = (add_pending_transaction kv world t c).1 in
        let now = step t c funds can.0 in
        let b = leb balance (p + cost_of t) in
        let joined : List Transaction = if b then t ∷ [] else [] in
        let funds' : Funds kv world a balance (some p) c' =
          Funds-Joins kv world a balance c c' (some p) (some p) joined funds
            (first_cost-append_some a p c.pending_transactions joined funds.first)
            (one-Affordable b t can.0.new.cost_fits) now.joins in
        let (values, rest) = add_each-answers txs c' funds' distinct.1 (
          All-CanAdd kv world a balance c c' t joined txs (λ u h. one-contains b t u h) distinct.0
            now.joins can.1) in
        (
          rw (now.value, values) refl,
          subst (λ l. Joins kv world l c (add_each (t ∷ txs) c).1) (admitted-one t txs)
              (Joins-trans kv world joined (admitted balance p txs) c c' (add_each txs c').1
                now.joins rest),
        )

  -- Let a sender with an account send some signed transactions, of which the node knows none, no two of them
  -- equal, while none of its transactions is pending, and let its balance cover each of them alone.
  -- Then the first becomes pending; of the others exactly those become pending that cost, together with
  -- the first, no less than the whole balance, and the others are told that the balance is too small.
  -- What becomes pending is announced; the accounts and the chain do not change. Where no cost of a
  -- pending transaction is above the largest Uint256, and twice the balance is not either.
  pub add_each-one_sender :
      (tx : Transaction) (txs : List Transaction) (c : Core kv) (balance : Balance)
      → has_account tx.from c.ledger.states ≡ true
      → (account_at tx.from c.ledger.states).balance ≡ balance
      → balance + balance ≤ max_amount
      → Affordable c.pending_transactions
      → HasNone tx.from c.pending_transactions
      → IsDistinct (tx ∷ txs)
      → All (CanAdd kv world tx.from balance c) (tx ∷ txs)
      → ((add_each (tx ∷ txs) c).0 ≡ ok (pending_status tx) ∷ answers balance (cost_of tx) txs)
        × ((add_each (tx ∷ txs) c).1.pending_transactions
            ≡ c.pending_transactions ++ tx ∷ admitted balance (cost_of tx) txs)
        × ((add_each (tx ∷ txs) c).1.events
            ≡ c.events ++ map new_pending_transaction (tx ∷ admitted balance (cost_of tx) txs))
        × ((add_each (tx ∷ txs) c).1.ledger.states ≡ c.ledger.states)
        × ((add_each (tx ∷ txs) c).1.blockchain ≡ c.blockchain)
  add_each-one_sender tx txs c balance present has small affordable none_yet distinct can =
      let c' = (add_pending_transaction kv world tx c).1 in
      let empty = first_cost-HasNone tx.from c.pending_transactions none_yet in
      let funds : Funds kv world tx.from balance none c = record {
        first = empty;
        affordable = affordable;
        present = present;
        has = has;
      } in
      let now =
        accepted kv world tx c balance none funds can.0.new can.0.enough
          (refuses_pending-none tx c.ledger.states) in
      let entry : first_cost tx.from (c.pending_transactions ++ tx ∷ []) ≡ some (cost_of tx) =
        first_cost-append_none tx.from c.pending_transactions (tx ∷ []) empty
        ∙ rw ((bytes_eq_iff tx.from tx.from).1 refl) refl in
      let funds' =
        Funds-Joins kv world tx.from balance c c' none (some (cost_of tx)) (tx ∷ []) funds entry
          (can.0.new.cost_fits, tt) now.joins in
      let (values, rest) =
        add_each-answers tx.from balance (cost_of tx) small can.0.enough txs c' funds' distinct.1 (
          All-CanAdd kv world tx.from balance c c' tx (tx ∷ []) txs (contains-one kv world tx)
            distinct.0 now.joins can.1) in
      let all =
        Joins-trans kv world (tx ∷ []) (admitted balance (cost_of tx) txs) c c' (add_each txs c').1
          now.joins rest in
      (rw (now.value, values) refl, all.pending, all.announced, all.same_states, all.same_chain)
