-- ===== src/Ledger/Transfers.antt =====
-- tryPerformTransaction for a transfer between clients: what happens to every balance.
use likelib_utonhack.Prelude.{
  ◌+◌, ◌-◌, ◌≤◌, ◌≡◌, refl, ap, ◌∙◌, true, false, [], arith, if◌then◌else◌, nat_eq, bytes_eq,
  bytes_eq_iff, bytes_equality, beq_refl,
}
use likelib_utonhack.Outcome.{ok}
use likelib_utonhack.Exec.{bind-ok}
use likelib_utonhack.Map.{put}
use likelib_utonhack.Amount.{max_amount}
use likelib_utonhack.Address.{Address, is_null}
use likelib_utonhack.Transaction.{
  Transaction, TransactionStatus, StatusCode, ActionType, hash_of_transaction,
}
use likelib_utonhack.External.{External}
use likelib_utonhack.Block.{Fields}
use likelib_utonhack.Account.{AccountState, client, sub_balance}
use likelib_utonhack.States.{States, touch, account_at, modify, has_account}
use likelib_utonhack.States.Supply.{
  total, balance_of, with_balance, balance_of-le-total, balance_of-with_balance, total-with_balance,
  total-touch, balance_of-touch, account_at-touch, modify-add_balance, modify-sub_balance,
  has_account-with_balance, has_account-touch, type-with_balance,
}
use likelib_utonhack.States.Transfer.{transfer_moves}
use likelib_utonhack.Ledger.{
  Ledger, Work, status_of, on_copy, on_states, transfer_body, perform_to, perform_work,
  try_perform_transaction, or_failed,
}
use likelib_utonhack.Ledger.Vm.{Machine}
use likelib_utonhack.Ledger.Steps.{
  on_copy-ok, on_states-ok, noted, modify-noted, balance_of-noted, type-noted, total-noted,
}

module _ (ext : External) (machine : Machine) (tx : Transaction) (block : Fields) where
  abbrev pub succeeded : TransactionStatus
  succeeded = status_of StatusCode.success ActionType.transfer 0 []

  -- The states that a successful transfer stores.
  abbrev IsPaid : States → States → Type 0
  IsPaid s s' =
      (total s' ≡ total s + tx.fee)
      × ((x : Address)
          → balance_of x s' + (if bytes_eq tx.from x then tx.amount else 0)
            ≡ balance_of x s
              + (if bytes_eq tx.to x then tx.amount else 0)
              + (if bytes_eq block.coinbase x then tx.fee else 0))
      × ((x : Address) → (account_at x s').type ≡ (account_at x s).type)

  transfer_body-ok :
      (w : Work)
      → has_account tx.from w.copy ≡ true
      → tx.amount ≤ balance_of tx.from w.copy
      → total w.copy + tx.fee ≤ max_amount
      → (s' : States) × (transfer_body ext machine tx block w ≡ (
        ok tt,
        record {
          ledger = record {
            states = s';
            outputs = put (hash_of_transaction ext tx) succeeded w.ledger.outputs;
          };
          copy = s';
        },
      ))
        × IsPaid w.copy s'
  unfolding transfer_body
  transfer_body-ok w present enough fits =
      let (s, e, same, moves, types) =
        transfer_moves tx.from tx.to tx.amount w.copy present enough (omega arith) in
      let room : balance_of block.coinbase s + tx.fee ≤ max_amount =
        omega (arith, balance_of-le-total block.coinbase s, same) in
      (
        with_balance block.coinbase (balance_of block.coinbase s + tx.fee) s,
        rw (e) (rw (modify-add_balance block.coinbase tx.fee s room)),
        (
          omega (
            arith,
            total-with_balance block.coinbase (balance_of block.coinbase s + tx.fee) s,
            same,
          ),
          λ x. ground (
            arith,
            moves x,
            balance_of-with_balance block.coinbase x (balance_of block.coinbase s + tx.fee) s,
            bytes_eq_iff block.coinbase x,
          ),
          λ x.
              type-with_balance block.coinbase x (balance_of block.coinbase s + tx.fee) s ∙ types x,
        ),
      )

  -- The states on which the transfer starts: the sender has the transaction's hash and has paid the
  -- fee.
  unfoldable pub charged : States → States
  charged s = with_balance tx.from (balance_of tx.from s - tx.fee) s

  abbrev pub before_transfer : Work → Work
  before_transfer w = record {
    ledger = record (w.ledger) { states = touch tx.to w.ledger.states };
    copy = touch tx.to (charged w.copy);
  }

  type-charged :
      (s : States)
      → (account_at tx.to s).type ≡ client
      → (account_at tx.to (touch tx.to (charged s))).type ≡ client
  unfolding charged
  type-charged s h =
      ap (λ (a : AccountState). a.type) (account_at-touch tx.to tx.to (charged s))
      ∙ type-with_balance tx.from tx.to (balance_of tx.from s - tx.fee) s
      ∙ h

  present-charged : (s : States) → has_account tx.from (touch tx.to (charged s)) ≡ true
  unfolding charged
  present-charged s =
      has_account-touch tx.from tx.to (charged s)
        (has_account-with_balance tx.from (balance_of tx.from s - tx.fee) s)

  balance_of-before :
      (s : States) (x : Address)
      → tx.fee ≤ balance_of tx.from s
      → balance_of x (touch tx.to (charged s)) + (if bytes_eq tx.from x then tx.fee else 0)
        ≡ balance_of x s
  unfolding charged
  balance_of-before s x h = ground (
    arith,
    balance_of-touch tx.to x (charged s),
    balance_of-with_balance tx.from x (balance_of tx.from s - tx.fee) s,
    bytes_eq_iff tx.from x,
  )

  total-before :
      (s : States)
      → tx.fee ≤ balance_of tx.from s
      → total (touch tx.to (charged s)) + tx.fee ≡ total s
  unfolding charged
  total-before s h = omega (
    arith,
    total-touch tx.to (charged s),
    total-with_balance tx.from (balance_of tx.from s - tx.fee) s,
  )

  pub type-touch :
      (a x : Address) (s : States) → (account_at x (touch a s)).type ≡ (account_at x s).type
  type-touch a x s = ap (λ (b : AccountState). b.type) (account_at-touch a x s)

  type-before :
      (s : States) (x : Address)
      → (account_at x (touch tx.to (charged s))).type ≡ (account_at x s).type
  unfolding charged
  type-before s x =
      type-touch tx.to x (charged s) ∙ type-with_balance tx.from x (balance_of tx.from s - tx.fee) s

  amount_left :
      (s : States)
      → tx.amount + tx.fee ≤ balance_of tx.from s
      → tx.amount ≤ balance_of tx.from (touch tx.to (charged s))
  unfolding charged
  amount_left s h = ground (
    arith,
    balance_of-touch tx.to tx.from (charged s),
    balance_of-with_balance tx.from tx.from (balance_of tx.from s - tx.fee) s,
    beq_refl tx.from,
    bytes_eq_iff tx.from tx.from,
  )

  still_fits :
      (s : States)
      → tx.fee ≤ balance_of tx.from s
      → total s ≤ max_amount
      → total (touch tx.to (charged s)) + tx.fee ≤ max_amount
  still_fits s h k = omega (arith, total-before s h)

  -- With the fee on its account the sender comes to the transfer.
  pub perform_to-client :
      (w : Work)
      → (account_at tx.to w.copy).type ≡ client
      → tx.fee ≤ balance_of tx.from w.copy
      → perform_to ext machine tx block w
        ≡ or_failed ext machine tx block ActionType.transfer
            (transfer_body ext machine tx block)
            (before_transfer w)
  unfolding perform_to charged
  perform_to-client w type rich =
      let touched : Work = record w {
        ledger = record (w.ledger) { states = touch tx.to w.ledger.states };
      } in
      bind-ok (on_states (λ s. (ok tt, touch tx.to s))) _
        (on_states-ok (λ s. (ok tt, touch tx.to s)) w tt (touch tx.to w.ledger.states) refl)
      ∙ bind-ok (on_copy (modify tx.from (sub_balance tx.fee))) _ (
          on_copy-ok (modify tx.from (sub_balance tx.fee)) touched tt (charged w.copy)
            (modify-sub_balance tx.from tx.fee w.copy rich))
      ∙ bind-ok (on_copy (λ s. (ok (account_at tx.to (touch tx.to s)).type, touch tx.to s))) _ (
          on_copy-ok (λ s. (ok (account_at tx.to (touch tx.to s)).type, touch tx.to s))
            (record touched { copy = charged w.copy }) client (touch tx.to (charged w.copy))
            (ap (λ t. (ok t, touch tx.to (charged w.copy))) (type-charged w.copy type)))

  -- A transaction to a client with enough money for the amount and the fee succeeds, where the
  -- receiver is not null and all accounts together have no more than the largest Uint256:
  -- its output says so, the sum of all balances is what it was, the amount and the fee leave the
  -- sender, the amount reaches the receiver and the fee the coinbase, and no other balance
  -- or type changes. The three may be one account or more.
  pub transfer_ok :
      (l : Ledger)
      → is_null tx.to ≡ false
      → (account_at tx.to l.states).type ≡ client
      → tx.amount + tx.fee ≤ balance_of tx.from l.states
      → total l.states ≤ max_amount
      → (s' : States) × (try_perform_transaction ext machine tx block l ≡ (
        ok tt,
        record { states = s'; outputs = put (hash_of_transaction ext tx) succeeded l.outputs },
      ))
        × (total s' ≡ total l.states)
        × ((x : Address)
            → balance_of x s' + (if bytes_eq tx.from x then tx.amount + tx.fee else 0)
              ≡ balance_of x l.states
                + (if bytes_eq tx.to x then tx.amount else 0)
                + (if bytes_eq block.coinbase x then tx.fee else 0))
        × ((x : Address) → (account_at x s').type ≡ (account_at x l.states).type)
  unfolding try_perform_transaction perform_work
  transfer_ok l receiver type rich fits =
      let hash = hash_of_transaction ext tx in
      let start = noted hash tx.from l.states in
      let w : Work = record { ledger = record l { states = start }; copy = start } in
      let same_total : total start ≡ total l.states = total-noted hash tx.from l.states in
      let same : balance_of tx.from start ≡ balance_of tx.from l.states =
        balance_of-noted hash tx.from tx.from l.states in
      let fee_there : tx.fee ≤ balance_of tx.from start = omega (arith, same) in
      let (s', e, paid) =
        transfer_body-ok (before_transfer w) (present-charged start)
          (amount_left start (omega (arith, same)))
          (still_fits start fee_there (omega (arith, same_total))) in
      (
        s',
        rw
            (
              modify-noted hash tx.from l.states,
              receiver,
              perform_to-client w (type-noted hash tx.from tx.to l.states ∙ type) fee_there,
            )
            (rw e),
        omega (arith, paid.0, same_total, total-before start fee_there),
        λ x. ground (
          arith,
          paid.1 x,
          balance_of-before start x fee_there,
          balance_of-noted hash tx.from x l.states,
        ),
        λ x. paid.2 x ∙ type-before start x ∙ type-noted hash tx.from x l.states,
      )
