-- ===== src/Ledger.antt =====
-- The part of lk::Core (core/core.hpp, core/core.cpp) that applies transactions: the accounts, the
-- outputs of transactions, and tryPerformTransaction over a virtual machine that is a parameter.
pub mod Vm
pub mod Steps
pub mod Transfers
pub mod Refusals
pub mod Blocks
pub mod Reverts
pub mod Replay
use likelib_utonhack.Prelude.{
  ℕ, zero, suc, ◌+◌, ◌-◌, ◌*◌, ◌/◌, ◌%◌, ◌^◌, ◌≤◌, ◌<◌, min, max, ◌≡◌, refl, sym, ap, subst, ◌∙◌,
  ◌≡⟨◌⟩◌, ◌∎, ◌≢◌, ◌↔◌, ◌⊎◌, inl, inr, Bool, true, false, not, ◌&&◌, ◌||◌, Option, none, some, List,
  [], ◌∷◌, ◌++◌, map, append-nil, append_assoc, arith, ltb, leb, ◌==◌, if◌then◌else◌, lt→ltb,
  le→leb, ==_iff, Bool-cases, Option-cases, length, get_elem?, take, drop, replicate, length-append,
  length-take, length-replicate, drop-append, take-append, All, All-append, Eq, nat_eq, bytes_eq,
  bytes_eq_iff, bytes_equality, beq_refl,
}
use likelib_utonhack.Outcome.{Outcome, ok, raise, Error}
use likelib_utonhack.Exec.{Exec, ◌>>=◌, ◌>>◌, pure, lift, try_catch}
use likelib_utonhack.Bytes.{Bytes, is_empty, take_part}
use likelib_utonhack.Map.{Map, find, put}
use likelib_utonhack.External.{External}
use likelib_utonhack.Base58.{base58_encode}
use likelib_utonhack.Address.{Address, is_null}
use likelib_utonhack.Transaction.{
  Transaction, TransactionStatus, StatusCode, ActionType, Fee, hash_of_transaction,
}
use likelib_utonhack.Account.{
  AccountState, AccountType, add_transaction_hash, add_balance, sub_balance, set_runtime_code,
}
use likelib_utonhack.States.{
  States, touch, account_at, modify, create_contract_account, try_transfer_money,
}
use likelib_utonhack.Block.{Fields}
use Vm.{Machine, EvalResult, EvmcStatus, Message}

pub record Ledger : Type 0 where
  pub states : States
  pub outputs : Map Bytes TransactionStatus

-- What tryPerformTransaction works on: the object's ledger and the copy tx_manager of its states.
pub record Work : Type 0 where
  pub ledger : Ledger
  pub copy : States

-- An operation on tx_manager.
unfoldable pub on_copy : {A : Type 0} → Exec States A → Exec Work A
on_copy m w = ((m w.copy).0, record w { copy = (m w.copy).1 })

-- An operation on _state_manager.
unfoldable pub on_states : {A : Type 0} → Exec States A → Exec Work A
on_states m w = (
  (m w.ledger.states).0,
  record w { ledger = record (w.ledger) { states = (m w.ledger.states).1 } },
)

-- Core::addTransactionOutput
unfoldable pub add_transaction_output : Bytes → TransactionStatus → Ledger → Ledger
add_transaction_output hash status l = record l { outputs = put hash status l.outputs }

-- Core::getTransactionOutput, which answers for a missing output too.
unfoldable pub get_transaction_output : Bytes → Ledger → Option TransactionStatus
get_transaction_output hash l = elim (find hash l.outputs) [
  | none ↦ some (record {
    status = StatusCode.failed;
    action = ActionType.no_action;
    message = [];
    fee_left = 0;
  })
  | some status ↦ some status
]

abbrev pub status_of : StatusCode → ActionType → Fee → Bytes → TransactionStatus
status_of code action fee_left message = record {
  status = code;
  action = action;
  message = message;
  fee_left = fee_left;
}

unfoldable pub output : Bytes → TransactionStatus → Exec Work (Unit {0})
unfolding add_transaction_output
output hash status w = (ok tt, record w { ledger = add_transaction_output hash status w.ledger })

-- _state_manager.applyChanges(std::move(tx_manager))
unfoldable pub apply_changes : Exec Work (Unit {0})
apply_changes w = (ok tt, record w { ledger = record (w.ledger) { states = w.copy } })

-- tx.getFee() - gas_left, between uint64_t values.
abbrev pub fee_used : Fee → ℕ → ℕ
fee_used fee gas_left = (fee + 2 ^ 64 - gas_left) % 2 ^ 64

module _ (ext : External) (machine : Machine) (tx : Transaction) (block : Fields) where
  abbrev pub tx_hash : Bytes
  tx_hash = hash_of_transaction ext tx

  -- callInitContractVm and callContractVm, through callVm: the machine runs on tx_manager.
  unfoldable pub call_vm : Address → Bytes → Bytes → Exec Work EvalResult
  unfolding on_copy
  call_vm destination code input = on_copy (λ s.
      let message : Message = record {
        sender = tx.from;
        destination = destination;
        gas = tx.fee;
        value = tx.amount;
        input = input;
      } in
      let r = machine.execute s block tx message code in (ok r.0, r.1))

  -- The end of a contract's run that neither succeeded nor was rolled into the states.
  unfoldable pub settle_failure : StatusCode → ActionType → ℕ → Exec Work (Unit {0})
  unfolding output on_states
  settle_failure code action gas_left = do
    output tx_hash (status_of code action gas_left [])
    on_states (modify tx.from (sub_balance gas_left))
    on_states (modify block.coinbase (add_balance (fee_used tx.fee gas_left)))

  -- The end of a successful run.
  unfoldable pub settle_success : ActionType → ℕ → Bytes → Exec Work (Unit {0})
  unfolding output on_copy apply_changes
  settle_success action gas_left message = do
    output tx_hash (status_of StatusCode.success action gas_left message)
    on_copy (modify block.coinbase (add_balance (fee_used tx.fee gas_left)))
    on_copy (modify tx.from (add_balance gas_left))
    apply_changes

  -- The status code of the run of an init code.
  unfoldable pub finish_creation : Address → EvalResult → Exec Work (Unit {0})
  unfolding settle_failure settle_success on_copy
  finish_creation contract r = elim r.status [
    | EvmcStatus.success ↦ (do
      on_copy (modify contract (λ a. ok (set_runtime_code r.output a)))
      settle_success ActionType.contract_creation r.gas_left (base58_encode contract))
    | EvmcStatus.revert ↦ settle_failure StatusCode.revert ActionType.contract_creation r.gas_left
    | EvmcStatus.other ↦
        settle_failure StatusCode.bad_query_form ActionType.contract_creation r.gas_left
  ]

  -- The try block for a transaction to the null address.
  unfoldable pub creation_body : Exec Work (Unit {0})
  unfolding finish_creation call_vm
  creation_body = do
    on_copy (modify tx.from (sub_balance tx.fee))
    contract ← on_copy (λ s.
        let r = create_contract_account ext tx.from (ext.sha256 tx.payload) s in (ok r.0, r.1))
    paid ← on_copy (try_transfer_money tx.from contract tx.amount)
    (if paid
        then (call_vm contract tx.payload [] >>= finish_creation contract)
        else output tx_hash
            (status_of StatusCode.not_enough_balance ActionType.contract_creation tx.fee []))

  -- The output of a call, behind the first 4 bytes of the query.
  unfoldable pub call_output : Bytes → Outcome Bytes
  call_output [] = ok []
  call_output (b ∷ bs) = elim (take_part tx.payload 0 4) [
    | ok selector ↦ ok (selector ++ b ∷ bs)
    | raise e ↦ raise e
  ]

  unfoldable pub finish_call : EvalResult → Exec Work (Unit {0})
  unfolding settle_failure settle_success call_output
  finish_call r = elim r.status [
    | EvmcStatus.success ↦ (do
      output_data ← lift (call_output r.output)
      settle_success ActionType.contract_call r.gas_left (ext.base64 output_data))
    | EvmcStatus.revert ↦ settle_failure StatusCode.revert ActionType.contract_call r.gas_left
    | EvmcStatus.other ↦
        settle_failure StatusCode.bad_query_form ActionType.contract_call r.gas_left
  ]

  -- tx.getAmount() > 0 && !tryTransferMoney(...), as the value of its negation.
  unfoldable pub pay_contract : Exec Work Bool
  unfolding on_copy
  pay_contract =
      if ltb 0 tx.amount then on_copy (try_transfer_money tx.from tx.to tx.amount) else pure true

  -- The try block for a call of a contract.
  unfoldable pub call_body : Exec Work (Unit {0})
  unfolding finish_call pay_contract call_vm output
  call_body =
      if is_empty tx.payload
      then output tx_hash (status_of StatusCode.bad_query_form ActionType.contract_call tx.fee [])
      else (do
        paid ← pay_contract
        (if paid
            then (do
              code ←
                  on_copy (λ s. (ok (account_at tx.to (touch tx.to s)).runtime_code, touch tx.to s))
              r ← call_vm tx.to code tx.payload
              finish_call r)
            else output tx_hash
                (status_of StatusCode.not_enough_balance ActionType.contract_call tx.fee [])))

  -- The try block for a transfer between clients.
  unfoldable pub transfer_body : Exec Work (Unit {0})
  unfolding output on_copy apply_changes
  transfer_body = do
    paid ← on_copy (try_transfer_money tx.from tx.to tx.amount)
    (if paid
        then (do
          output tx_hash (status_of StatusCode.success ActionType.transfer 0 [])
          on_copy (modify block.coinbase (add_balance tx.fee))
          apply_changes)
        else output tx_hash (status_of StatusCode.not_enough_balance ActionType.transfer tx.fee []))

  -- catch (const base::Error&)
  abbrev pub or_failed : ActionType → Exec Work (Unit {0}) → Exec Work (Unit {0})
  or_failed action body =
      try_catch body (output tx_hash (status_of StatusCode.failed action tx.fee []))

  abbrev pub is_contract : AccountType → Bool
  is_contract AccountType.client = false
  is_contract AccountType.contract = true

  -- The branch for a receiver that is not null; the fee is taken outside of the try blocks.
  unfoldable pub perform_to : Exec Work (Unit {0})
  perform_to = do
    on_states (λ s. (ok tt, touch tx.to s))
    on_copy (modify tx.from (sub_balance tx.fee))
    type ← on_copy (λ s. (ok (account_at tx.to (touch tx.to s)).type, touch tx.to s))
    (if is_contract type
        then or_failed ActionType.contract_call call_body
        else or_failed ActionType.transfer transfer_body)

  unfoldable pub perform_work : Exec Work (Unit {0})
  perform_work =
      if is_null tx.to then or_failed ActionType.contract_creation creation_body else perform_to

  -- Core::tryPerformTransaction
  unfoldable pub try_perform_transaction : Exec Ledger (Unit {0})
  try_perform_transaction l =
      let (r, states) = modify tx.from (λ a. ok (add_transaction_hash tx_hash a)) l.states in
      let started : Ledger = record l { states = states } in
      let (r', w) = perform_work (record { ledger = started; copy = states }) in (r', w.ledger)

-- base::config::BC_EMISSION_VALUE
abbrev pub emission_value : ℕ
emission_value = 1000

module _ (ext : External) (machine : Machine) (block : Fields) where
  -- The loop over a block's transactions.
  unfoldable pub perform_all : List Transaction → Exec Ledger (Unit {0})
  perform_all [] = pure tt
  perform_all (tx ∷ txs) = try_perform_transaction ext machine tx block >> perform_all txs

  -- Core::applyBlockTransactions
  unfoldable pub apply_block_transactions : Exec Ledger (Unit {0})
  apply_block_transactions =
      (λ l.
        let (r, states) = modify block.coinbase (add_balance emission_value) l.states in
        (r, record l { states = states }))
      >> perform_all block.txs
