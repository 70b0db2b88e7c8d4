-- ===== src/Ledger/Refusals.antt =====
-- tryPerformTransaction for a transfer that the sender cannot pay: what stays as it was.
use likelib_utonhack.Prelude.{
  ◌+◌, ◌-◌, ◌≤◌, ◌<◌, ◌≡◌, refl, ap, ◌∙◌, false, [], arith, nat_eq, bytes_equality, beq_refl,
}
use likelib_utonhack.Outcome.{ok, raise, Error}
use likelib_utonhack.Exec.{bind-ok, bind-raise}
use likelib_utonhack.Map.{put}
use likelib_utonhack.Address.{Address, is_null}
use likelib_utonhack.Transaction.{
  Transaction, TransactionStatus, StatusCode, ActionType, hash_of_transaction,
}
use likelib_utonhack.External.{External}
use likelib_utonhack.Block.{Fields}
use likelib_utonhack.Account.{client, sub_balance}
use likelib_utonhack.States.{States, touch, account_at, modify}
use likelib_utonhack.States.Supply.{
  total, balance_of, balance_of-with_balance, total-touch, balance_of-touch,
  modify-sub_balance_short,
}
use likelib_utonhack.States.Transfer.{try_transfer_money-refused}
use likelib_utonhack.Ledger.{
  Ledger, Work, status_of, on_copy, on_states, transfer_body, perform_to, perform_work,
  try_perform_transaction,
}
use likelib_utonhack.Ledger.Vm.{Machine}
use likelib_utonhack.Ledger.Steps.{
  on_copy-raise, on_states-ok, noted, modify-noted, balance_of-noted, type-noted, total-noted,
}
use likelib_utonhack.Ledger.Transfers.{charged, before_transfer, type-touch, perform_to-client}

module _ (ext : External) (machine : Machine) (tx : Transaction) (block : Fields) where
  abbrev pub refused : TransactionStatus
  refused = status_of StatusCode.not_enough_balance ActionType.transfer tx.fee []

  balance_of-charged :
      (s : States)
      → tx.fee ≤ balance_of tx.from s
      → balance_of tx.from s < tx.amount + tx.fee
      → balance_of tx.from (touch tx.to (charged ext machine tx block s)) < tx.amount
  unfolding charged
  balance_of-charged s h short = ground (
    arith,
    balance_of-touch tx.to tx.from (charged ext machine tx block s),
    balance_of-with_balance tx.from tx.from (balance_of tx.from s - tx.fee) s,
    beq_refl tx.from,
  )

  transfer_body-short :
      (w : Work)
      → balance_of tx.from w.copy < tx.amount
      → transfer_body ext machine tx block w ≡ (
        ok tt,
        record w {
          ledger = record (w.ledger) {
            outputs = put (hash_of_transaction ext tx) refused w.ledger.outputs;
          };
        },
      )
  unfolding transfer_body
  transfer_body-short w short = rw (try_transfer_money-refused tx.from tx.to tx.amount w.copy short)

  -- In a transaction to a client that is not null, with enough on the sender's account for the fee
  -- and not for the amount too, the output says so, the sender keeps the fee, and no balance or type
  -- changes.
  pub transfer_short :
      (l : Ledger)
      → is_null tx.to ≡ false
      → (account_at tx.to l.states).type ≡ client
      → tx.fee ≤ balance_of tx.from l.states
      → balance_of tx.from l.states < tx.amount + tx.fee
      → (s' : States) × (try_perform_transaction ext machine tx block l ≡ (
        ok tt,
        record { states = s'; outputs = put (hash_of_transaction ext tx) refused l.outputs },
      ))
        × (total s' ≡ total l.states)
        × ((x : Address) → balance_of x s' ≡ balance_of x l.states)
        × ((x : Address) → (account_at x s').type ≡ (account_at x l.states).type)
  unfolding try_perform_transaction perform_work
  transfer_short l receiver type fee_there short =
      let hash = hash_of_transaction ext tx in
      let start = noted hash tx.from l.states in
      let w : Work = record { ledger = record l { states = start }; copy = start } in
      let same : balance_of tx.from start ≡ balance_of tx.from l.states =
        balance_of-noted hash tx.from tx.from l.states in
      let fee_there' : tx.fee ≤ balance_of tx.from start = omega (arith, same) in
      (
        touch tx.to start,
        rw (
          modify-noted hash tx.from l.states,
          receiver,
          perform_to-client ext machine tx block w (type-noted hash tx.from tx.to l.states ∙ type)
              fee_there',
          transfer_body-short (before_transfer ext machine tx block w)
              (balance_of-charged start fee_there' (omega (arith, same))),
        ),
        total-touch tx.to start ∙ total-noted hash tx.from l.states,
        λ x. balance_of-touch tx.to x start ∙ balance_of-noted hash tx.from x l.states,
        λ x. type-touch ext machine tx block tx.to x start ∙ type-noted hash tx.from x l.states,
      )

  perform_to-throws :
      (w : Work)
      → balance_of tx.from w.copy < tx.fee
      → (w' : Work) × (perform_to ext machine tx block w ≡ (raise Error.logic_error, w'))
        × (w'.ledger ≡ record (w.ledger) { states = touch tx.to w.ledger.states })
  unfolding perform_to
  perform_to-throws w short =
      let touched : Work = record w {
        ledger = record (w.ledger) { states = touch tx.to w.ledger.states };
      } in
      (
        record touched { copy = touch tx.from w.copy },
        bind-ok (on_states (λ s. (ok tt, touch tx.to s))) _
              (on_states-ok (λ s. (ok tt, touch tx.to s)) w tt (touch tx.to w.ledger.states) refl)
            ∙ bind-raise (on_copy (modify tx.from (sub_balance tx.fee))) _ (
                on_copy-raise (modify tx.from (sub_balance tx.fee)) touched Error.logic_error
                  (touch tx.from w.copy) (modify-sub_balance_short tx.from tx.fee w.copy short)),
        refl,
      )

  -- In a transaction to a receiver that is not null, without enough on the sender's account for the
  -- fee, the method throws: no output is recorded, and no balance or type changes.
  pub transfer_throws :
      (l : Ledger)
      → is_null tx.to ≡ false
      → balance_of tx.from l.states < tx.fee
      → (s' : States) × (try_perform_transaction ext machine tx block l
          ≡ (raise Error.logic_error, record { states = s'; outputs = l.outputs }))
        × (total s' ≡ total l.states)
        × ((x : Address) → balance_of x s' ≡ balance_of x l.states)
        × ((x : Address) → (account_at x s').type ≡ (account_at x l.states).type)
  unfolding try_perform_transaction perform_work
  transfer_throws l receiver short =
      let hash = hash_of_transaction ext tx in
      let start = noted hash tx.from l.states in
      let w : Work = record { ledger = record l { states = start }; copy = start } in
      let (w', e, same) =
        perform_to-throws w (omega (arith, balance_of-noted hash tx.from tx.from l.states)) in
      (
        touch tx.to start,
        rw (modify-noted hash tx.from l.states, receiver, e)
            (ap (λ k. (raise Error.logic_error, k)) same),
        total-touch tx.to start ∙ total-noted hash tx.from l.states,
        λ x. balance_of-touch tx.to x start ∙ balance_of-noted hash tx.from x l.states,
        λ x. type-touch ext machine tx block tx.to x start ∙ type-noted hash tx.from x l.states,
      )
