-- ===== src/Core/Answers.antt =====
-- One call of addPendingTransaction for a new transaction: the answer, and what it makes of the node.
use likelib_utonhack.Prelude.{
  ◌+◌, ◌≤◌, ◌≡◌, refl, sym, ap, subst, ◌∙◌, true, false, Option, none, List, [], ◌∷◌, ◌++◌, map,
  append-nil, arith, le→leb, nat_eq, bytes_equality,
}
use likelib_utonhack.Outcome.{ok}
use likelib_utonhack.Amount.{add_amount, max_amount}
use likelib_utonhack.Address.{Address}
use likelib_utonhack.Transaction.{
  Transaction, TransactionStatus, Balance, hash_of_transaction, check_sign,
}
use likelib_utonhack.TransactionsSet.{contains, add}
use likelib_utonhack.TransactionsSet.Costs.{first_cost, Affordable, find-calc_cost}
use likelib_utonhack.States.{States, has_account, account_at, check_transaction}
use likelib_utonhack.Blockchain.{find_transaction}
use likelib_utonhack.Storage.{KeyValue}
use likelib_utonhack.Core.{
  Core, World, new_pending_transaction, answer, pending_status, poor_status, accept_pending,
  refuses_pending, check_funds, check_pending, add_pending_transaction,
}

abbrev pub cost_of : Transaction → Balance
cost_of tx = tx.amount + tx.fee

check_transaction-enough :
    (tx : Transaction) (s : States)
    → tx.amount + tx.fee ≤ max_amount
    → has_account tx.from s ≡ true
    → tx.amount + tx.fee ≤ (account_at tx.from s).balance
    → check_transaction tx s ≡ ok true
unfolding check_transaction has_account account_at add_amount
check_transaction-enough tx s fits present rich = ground arith

module _ (kv : KeyValue) (world : World) where
  -- A signed transaction that is neither in the chain nor pending.
  pub record IsNew (tx : Transaction) (c : Core kv) : Type 0 where
    pub signed : check_sign world.ext tx ≡ true
    pub unknown :
        find_transaction world.ext (hash_of_transaction world.ext tx) c.blockchain.chain ≡ none
    pub not_pending : contains c.pending_transactions tx ≡ false
    pub cost_fits : tx.amount + tx.fee ≤ max_amount

  new_cost :
      (tx : Transaction) (c : Core kv)
      → IsNew tx c
      → add_pending_transaction kv world tx c
        ≡ check_funds kv world (hash_of_transaction world.ext tx) (tx.amount + tx.fee) tx c
  unfolding add_pending_transaction check_pending add_amount
  new_cost tx c new =
      let cost = le→leb (tx.amount + tx.fee) max_amount new.cost_fits in
      rw (cost, new.signed, new.unknown, new.not_pending)

  -- What one call makes of the node: txs join the pending transactions and are announced.
  pub record Joins (txs : List Transaction) (c c' : Core kv) : Type 0 where
    pub pending : c'.pending_transactions ≡ c.pending_transactions ++ txs
    pub announced : c'.events ≡ c.events ++ map new_pending_transaction txs
    pub same_states : c'.ledger.states ≡ c.ledger.states
    pub same_chain : c'.blockchain ≡ c.blockchain

  accept_pending-Joins :
      (tx : Transaction) (c : Core kv)
      → contains c.pending_transactions tx ≡ false
      → Joins (tx ∷ []) c (accept_pending kv world (hash_of_transaction world.ext tx) tx c).1
  unfolding accept_pending add
  accept_pending-Joins tx c fresh = record {
    pending = rw fresh refl;
    announced = refl;
    same_states = refl;
    same_chain = refl;
  }

  answer-Joins :
      (tx : Transaction) (c : Core kv)
      → Joins [] c (answer kv world (hash_of_transaction world.ext tx) poor_status c).1
  unfolding answer
  answer-Joins tx c = record {
    pending = sym (append-nil c.pending_transactions);
    announced = sym (append-nil c.events);
    same_states = refl;
    same_chain = refl;
  }

  accept_pending_answer :
      (tx : Transaction) (c : Core kv)
      → accept_pending kv world (hash_of_transaction world.ext tx) tx c ≡ (
        ok (pending_status tx),
        (accept_pending kv world (hash_of_transaction world.ext tx) tx c).1,
      )
  unfolding accept_pending
  accept_pending_answer tx c = refl

  poor_answer :
      (tx : Transaction) (c : Core kv)
      → answer kv world (hash_of_transaction world.ext tx) poor_status c
        ≡ (ok poor_status, (answer kv world (hash_of_transaction world.ext tx) poor_status c).1)
  unfolding answer
  poor_answer tx c = refl

  -- One call, with its answer.
  pub record Answered (status : TransactionStatus) (txs : List Transaction) (tx : Transaction)
      (c : Core kv) : Type 0 where
    pub value : (add_pending_transaction kv world tx c).0 ≡ ok status
    pub joins : Joins txs c (add_pending_transaction kv world tx c).1

  -- What the sender has, and what its entry of the pending costs is.
  pub record Funds (a : Address) (balance : Balance) (entry : Option Balance) (c : Core kv)
      : Type 0 where
    pub first : first_cost a c.pending_transactions ≡ entry
    pub affordable : Affordable c.pending_transactions
    pub present : has_account a c.ledger.states ≡ true
    pub has : (account_at a c.ledger.states).balance ≡ balance

  -- A new transaction of the sender, which could pay for it if it had no other.
  pub record CanAdd (a : Address) (balance : Balance) (c : Core kv) (tx : Transaction)
      : Type 0 where
    pub new : IsNew tx c
    pub own : tx.from ≡ a
    pub enough : cost_of tx ≤ balance

  module _ (tx : Transaction) (c : Core kv) (balance : Balance) (entry : Option Balance) where
    pub accepted :
        Funds tx.from balance entry c
        → IsNew tx c
        → cost_of tx ≤ balance
        → refuses_pending kv world entry (cost_of tx) tx c.ledger.states ≡ ok false
        → Answered (pending_status tx) (tx ∷ []) tx c
    unfolding check_funds
    accepted funds new enough passes =
        let (costs, known, found) =
          find-calc_cost c.pending_transactions tx.from funds.affordable in
        let there = found ∙ funds.first in
        let can =
          check_transaction-enough tx c.ledger.states new.cost_fits funds.present
            (omega (arith, funds.has)) in
        let e : add_pending_transaction kv world tx c ≡ (
          ok (pending_status tx),
          (accept_pending kv world (hash_of_transaction world.ext tx) tx c).1,
        ) =
          new_cost tx c new
          ∙ rw (check_funds, known, there, passes, can) (accept_pending_answer tx c) in
        record {
          value = ap (λ r. r.0) e;
          joins =
              subst (λ r. Joins (tx ∷ []) c r.1) (sym e)
                (accept_pending-Joins tx c new.not_pending);
        }

    pub refused :
        Funds tx.from balance entry c
        → IsNew tx c
        → refuses_pending kv world entry (cost_of tx) tx c.ledger.states ≡ ok true
        → Answered poor_status [] tx c
    unfolding check_funds
    refused funds new stops =
        let (costs, known, found) =
          find-calc_cost c.pending_transactions tx.from funds.affordable in
        let there = found ∙ funds.first in
        let e : add_pending_transaction kv world tx c ≡ (
          ok poor_status,
          (answer kv world (hash_of_transaction world.ext tx) poor_status c).1,
        ) =
          new_cost tx c new ∙ rw (check_funds, known, there, stops) (poor_answer tx c) in
        record {
          value = ap (λ r. r.0) e;
          joins = subst (λ r. Joins [] c r.1) (sym e) (answer-Joins tx c);
        }
