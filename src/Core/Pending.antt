-- ===== src/Core/Pending.antt =====
-- addPendingTransaction: what it may change.
use likelib_utonhack.Prelude.{
  ◌≡◌, refl, inl, inr, Bool, true, false, some, [], if◌then◌else◌, Bool-cases, Option-cases, nat_eq,
  bytes_equality,
}
use likelib_utonhack.Outcome.{Outcome, ok, raise}
use likelib_utonhack.Exec.{Exec, ◌>>=◌, lift}
use likelib_utonhack.Bytes.{Bytes}
use likelib_utonhack.Map.{find}
use likelib_utonhack.Amount.{add_amount}
use likelib_utonhack.Transaction.{
  Transaction, TransactionStatus, Balance, hash_of_transaction, check_sign,
}
use likelib_utonhack.TransactionsSet.{contains, calc_cost}
use likelib_utonhack.TransactionsSet.Members.{IsDistinct, add-IsDistinct}
use likelib_utonhack.States.{check_transaction}
use likelib_utonhack.Blockchain.{find_transaction}
use likelib_utonhack.Storage.{KeyValue}
use likelib_utonhack.Transaction.{failed, no_action}
use likelib_utonhack.Ledger.{Ledger, status_of, get_transaction_output}
use likelib_utonhack.Core.{
  Core, World, answer, pending_status, poor_status, accept_pending, refuses_pending, check_funds,
  known_status, check_pending, add_pending_transaction,
}

-- What every call keeps, whatever it answers: the accounts, the chain, the address, and that no two
-- pending transactions are equal.
pub record Keeps {kv : KeyValue} (c c' : Core kv) : Type 0 where
  pub same_states : c'.ledger.states ≡ c.ledger.states
  pub same_chain : c'.blockchain ≡ c.blockchain
  pub still_distinct : IsDistinct c.pending_transactions → IsDistinct c'.pending_transactions

module _ (kv : KeyValue) (world : World) where
  answer-Keeps :
      (hash : Bytes) (status : TransactionStatus) (c : Core kv)
      → Keeps c (answer kv world hash status c).1
  unfolding answer
  answer-Keeps hash status c = record {
    same_states = refl;
    same_chain = refl;
    still_distinct = λ d. d;
  }

  accept_pending-Keeps :
      (hash : Bytes) (tx : Transaction) (c : Core kv)
      → Keeps c (accept_pending kv world hash tx c).1
  unfolding accept_pending
  accept_pending-Keeps hash tx c = record {
    same_states = refl;
    same_chain = refl;
    still_distinct = add-IsDistinct c.pending_transactions tx;
  }

  Keeps-refl : (c : Core kv) → Keeps c c
  Keeps-refl c = record { same_states = refl; same_chain = refl; still_distinct = λ d. d }

  -- How a result that is computed without the object continues.
  lift-Keeps :
      {A : Type 0} (r : Outcome A) (f : A → Exec (Core kv) TransactionStatus) (c : Core kv)
      → ((a : A) → Keeps c (f a c).1)
      → Keeps c ((lift r >>= f) c).1
  lift-Keeps (ok a) f c h = h a
  lift-Keeps (raise e) f c h = Keeps-refl c

  if-Keeps :
      (b : Bool) (m n : Exec (Core kv) TransactionStatus) (c : Core kv)
      → Keeps c (m c).1
      → Keeps c (n c).1
      → Keeps c ((if b then m else n) c).1
  if-Keeps true m n c h k = h
  if-Keeps false m n c h k = k

  branch-Keeps :
      (b : Bool) (c : Core kv) (x y : Outcome TransactionStatus × Core kv)
      → Keeps c x.1
      → Keeps c y.1
      → Keeps c (if b then x else y).1
  branch-Keeps true c x y h k = h
  branch-Keeps false c x y h k = k

  check_funds-Keeps :
      (hash : Bytes) (cost : Balance) (tx : Transaction) (c : Core kv)
      → Keeps c (check_funds kv world hash cost tx c).1
  unfolding check_funds
  check_funds-Keeps hash cost tx c = lift-Keeps (calc_cost c.pending_transactions) _ c λ costs.
      lift-Keeps (refuses_pending kv world (find tx.from costs) cost tx c.ledger.states) _ c
        λ refuse. if-Keeps refuse _ _ c (answer-Keeps hash poor_status c) (
          lift-Keeps (check_transaction tx c.ledger.states) _ c λ enough.
            if-Keeps enough _ _ c (accept_pending-Keeps hash tx c)
              (answer-Keeps hash poor_status c))

  -- getTransactionOutput always has an answer, so a known transaction changes nothing.
  some_output :
      (hash : Bytes) (l : Ledger)
      → (status : TransactionStatus) × (get_transaction_output hash l ≡ some status)
  unfolding get_transaction_output
  some_output hash l = elim (Option-cases (find hash l.outputs)) [
    | inl e ↦ (status_of failed no_action 0 [], rw (get_transaction_output, e))
    | inr (status, e) ↦ (status, rw (get_transaction_output, e))
  ]

  known_status-Keeps :
      (hash : Bytes) (tx : Transaction) (c : Core kv) → Keeps c (known_status kv world hash tx c).1
  unfolding known_status
  known_status-Keeps hash tx c =
      let (status, e) = some_output hash c.ledger in rw (known_status, e) (Keeps-refl c)

  check_pending-Keeps :
      (hash : Bytes) (cost : Balance) (tx : Transaction) (c : Core kv)
      → Keeps c (check_pending kv world hash cost tx c).1
  unfolding check_pending
  check_pending-Keeps hash cost tx c = elim (Bool-cases (check_sign world.ext tx)) [
    | inl signed ↦
        rw signed (elim (Option-cases (find_transaction world.ext hash c.blockchain.chain)) [
          | inl e ↦ rw e (
              branch-Keeps (contains c.pending_transactions tx) c
                (answer kv world hash (pending_status tx) c) (check_funds kv world hash cost tx c)
                (answer-Keeps hash (pending_status tx) c) (check_funds-Keeps hash cost tx c))
          | inr (known, e) ↦ rw e (known_status-Keeps hash tx c)
        ])
    | inr forged ↦ rw forged (answer-Keeps hash _ c)
  ]

  -- Whatever the answer, also where it throws, a call leaves the accounts and the chain alone and
  -- puts no two equal transactions into the pending set.
  pub add_pending_transaction-Keeps :
      (tx : Transaction) (c : Core kv) → Keeps c (add_pending_transaction kv world tx c).1
  unfolding add_pending_transaction
  add_pending_transaction-Keeps tx c =
      lift-Keeps (add_amount tx.amount tx.fee) _ c
        λ cost. check_pending-Keeps (hash_of_transaction world.ext tx) cost tx c
