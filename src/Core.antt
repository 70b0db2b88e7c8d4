-- ===== src/Core.antt =====
-- lk::Core of core/core.hpp and core/core.cpp: the node's state and its methods. The mutexes make
-- each method one step; the callbacks of an Observable are recorded as events.
pub mod Pending
pub mod Answers
pub mod Joins
pub mod Spending
pub mod Blocks
pub mod Mining
pub mod Mined
pub mod Top
use likelib_utonhack.Prelude.{
  ℕ, zero, suc, ◌+◌, ◌-◌, ◌*◌, ◌/◌, ◌%◌, ◌^◌, ◌≤◌, ◌<◌, min, max, ◌≡◌, refl, sym, ap, subst, ◌∙◌,
  ◌≡⟨◌⟩◌, ◌∎, ◌≢◌, ◌↔◌, ◌⊎◌, inl, inr, Bool, true, false, not, ◌&&◌, ◌||◌, Option, none, some, List,
  [], ◌∷◌, ◌++◌, map, append-nil, append_assoc, arith, ltb, leb, ◌==◌, if◌then◌else◌, lt→ltb,
  le→leb, ==_iff, Bool-cases, Option-cases, length, get_elem?, take, drop, replicate, length-append,
  length-take, length-replicate, drop-append, take-append, All, All-append, Eq, nat_eq, bytes_eq,
  bytes_eq_iff, bytes_equality, beq_refl,
}
use likelib_utonhack.Outcome.{Outcome, ok, raise, Error}
use likelib_utonhack.Exec.{Exec, ◌>>=◌, ◌>>◌, pure, lift, throw}
use likelib_utonhack.Bytes.{Bytes}
use likelib_utonhack.Map.{Map, find}
use likelib_utonhack.Amount.{add_amount}
use likelib_utonhack.External.{External}
use likelib_utonhack.Time.{Time}
use likelib_utonhack.Address.{Address}
use likelib_utonhack.Transaction.{
  Transaction, TransactionStatus, StatusCode, ActionType, Balance, hash_of_transaction, check_sign,
}
use likelib_utonhack.TransactionsSet.{
  TransactionsSet, NthElement, contains, add, remove_all, select_best_by_fee, calc_cost,
}
use likelib_utonhack.Block.{Fields, ImmutableBlock, MutableBlock, compute_hash}
use likelib_utonhack.Block.Builder
use likelib_utonhack.Block.Builder.{build_mutable, empty_builder}
use likelib_utonhack.Account.{AccountInfo, AccountType, to_info}
use likelib_utonhack.States.{States, has_account, account_at, check_transaction}
use likelib_utonhack.Consensus.{Double, Complexity}
use likelib_utonhack.Blockchain.{
  AdditionResult, added, find_block, find_transaction, get_top_block_and_complexity,
  max_transactions_in_block,
}
use likelib_utonhack.Storage.{KeyValue, PersistentBlockchain, try_add_persistent}
use likelib_utonhack.Ledger.{
  Ledger, status_of, add_transaction_output, get_transaction_output, apply_block_transactions,
}
use likelib_utonhack.Ledger.Vm.{Machine}

pub data Event : Type 0 where
  new_pending_transaction : Transaction → Event
  block_added : ImmutableBlock → Event
  block_mined : ImmutableBlock → Event

-- What is outside of the node: the libraries, doubles, the virtual machine and std::nth_element.
pub record World : Type 1 where
  pub ext : External
  pub double : Double
  pub machine : Machine
  pub nth_element : NthElement

pub record Core (kv : KeyValue) : Type 0 where
  pub this_node_address : Address
  pub ledger : Ledger
  pub blockchain : PersistentBlockchain kv
  pub pending_transactions : TransactionsSet
  pub events : List Event

abbrev pub pending_status : Transaction → TransactionStatus
pending_status tx = status_of StatusCode.pending ActionType.no_action tx.fee []

abbrev pub poor_status : TransactionStatus
poor_status = status_of StatusCode.not_enough_balance ActionType.no_action 0 []

module _ (kv : KeyValue) (world : World) where
  open world use {ext, double, machine, nth_element}

  -- notify
  unfoldable pub notify : Event → Exec (Core kv) (Unit {0})
  notify e c = (ok tt, record c { events = c.events ++ e ∷ [] })

  -- addTransactionOutput and the return of the same status.
  unfoldable pub answer : Bytes → TransactionStatus → Exec (Core kv) TransactionStatus
  unfolding add_transaction_output
  answer hash status c =
      (ok status, record c { ledger = add_transaction_output hash status c.ledger })

  -- The end of addPendingTransaction, where the transaction passes all checks.
  unfoldable pub accept_pending : Bytes → Transaction → Exec (Core kv) TransactionStatus
  unfolding notify answer
  accept_pending hash tx = do
    (λ c. (ok tt, record c { pending_transactions = add c.pending_transactions tx }))
    notify (new_pending_transaction tx)
    answer hash (pending_status tx)

  -- The comparison with what the sender's pending transactions cost: true where it refuses.
  unfoldable pub refuses_pending : Option Balance → Balance → Transaction → States → Outcome Bool
  refuses_pending none cost tx s = ok false
  refuses_pending (some pending) cost tx s =
      if has_account tx.from s
      then elim (add_amount pending cost) [
        | ok sum ↦ ok (ltb sum (account_at tx.from s).balance)
        | raise e ↦ raise e
      ]
      else ok false

  unfoldable pub check_funds : Bytes → Balance → Transaction → Exec (Core kv) TransactionStatus
  unfolding answer accept_pending refuses_pending
  check_funds hash cost tx c =
      (do
        costs ← lift (calc_cost c.pending_transactions)
        refuse ← lift (refuses_pending (find tx.from costs) cost tx c.ledger.states)
        (if refuse then answer hash poor_status else (do
          enough ← lift (check_transaction tx c.ledger.states)
          (if enough then accept_pending hash tx else answer hash poor_status))))
        c

  -- The status that is stored for a transaction which is in the chain.
  unfoldable pub known_status : Bytes → Transaction → Exec (Core kv) TransactionStatus
  unfolding answer
  known_status hash tx c = elim (get_transaction_output hash c.ledger) [
    | some status ↦ (ok status, c)
    | none ↦ answer hash (status_of StatusCode.failed ActionType.no_action tx.fee []) c
  ]

  unfoldable pub check_pending : Bytes → Balance → Transaction → Exec (Core kv) TransactionStatus
  unfolding answer check_funds known_status
  check_pending hash cost tx c =
      if not (check_sign ext tx)
      then answer hash (status_of StatusCode.bad_sign ActionType.no_action tx.fee []) c
      else elim (find_transaction ext hash c.blockchain.chain) [
        | some known ↦ known_status hash tx c
        | none ↦
            if contains c.pending_transactions tx
            then answer hash (pending_status tx) c
            else check_funds hash cost tx c
      ]

  -- Core::addPendingTransaction
  unfoldable pub add_pending_transaction : Transaction → Exec (Core kv) TransactionStatus
  unfolding check_pending
  add_pending_transaction tx = do
    cost ← lift (add_amount tx.amount tx.fee)
    check_pending (hash_of_transaction ext tx) cost tx

  -- The loop of checkBlockTransactions over the block's costs.
  unfoldable pub check_costs : Map Address Balance → TransactionsSet → States → Outcome Bool
  check_costs costs [] s = ok true
  check_costs costs (tx ∷ txs) s =
      if has_account tx.from s
      then elim (find tx.from costs) [
        | none ↦ raise Error.assertion
        | some cost ↦
            if ltb (account_at tx.from s).balance cost then ok false else check_costs costs txs s
      ]
      else ok false

  -- Core::checkBlockTransactions
  unfoldable pub check_block_transactions : ImmutableBlock → Core kv → Outcome Bool
  unfolding check_costs
  check_block_transactions block c = elim (find_block (compute_hash ext block) c.blockchain.chain) [
    | some known ↦ ok false
    | none ↦ elim (calc_cost block.txs) [
      | ok costs ↦ check_costs costs block.txs c.ledger.states
      | raise e ↦ raise e
    ]
  ]

  -- _blockchain.tryAddBlock
  unfoldable pub on_blockchain : Time → ImmutableBlock → Exec (Core kv) AdditionResult
  on_blockchain now block c =
      let r = try_add_persistent kv ext double now block c.blockchain in
      (r.0, record c { blockchain = r.1 })

  -- applyBlockTransactions
  unfoldable pub on_ledger : ImmutableBlock → Exec (Core kv) (Unit {0})
  on_ledger block c =
      let r = apply_block_transactions ext machine block.fields c.ledger in
      (r.0, record c { ledger = r.1 })

  -- The end of _tryAddBlock, for a block that the chain has taken.
  unfoldable pub finish_block : ImmutableBlock → AdditionResult → Exec (Core kv) AdditionResult
  unfolding on_ledger
  finish_block block AdditionResult.added = do
    (λ c. (ok tt, record c { pending_transactions = remove_all c.pending_transactions block.txs }))
    on_ledger block
    pure added
  finish_block block reason = pure reason

  -- Core::_tryAddBlock
  unfoldable pub add_block : Time → ImmutableBlock → Exec (Core kv) AdditionResult
  unfolding check_block_transactions on_blockchain finish_block
  add_block now block c =
      (do
        valid ← lift (check_block_transactions block c)
        (if valid
            then (do r ← on_blockchain now block; finish_block block r)
            else pure AdditionResult.invalid_transactions))
        c

  -- The notification of the callers of _tryAddBlock.
  unfoldable pub announce : Event → AdditionResult → Exec (Core kv) AdditionResult
  unfolding notify
  announce e AdditionResult.added = do notify e; pure added
  announce e reason = pure reason

  -- Core::tryAddBlock and Core::tryAddMinedBlock
  unfoldable pub try_add_block : Time → ImmutableBlock → Exec (Core kv) AdditionResult
  unfolding add_block announce
  try_add_block now block = do r ← add_block now block; announce (block_added block) r

  unfoldable pub try_add_mined_block : Time → ImmutableBlock → Exec (Core kv) AdditionResult
  unfolding add_block announce
  try_add_mined_block now block = do r ← add_block now block; announce (block_mined block) r

  -- The pending transactions that a new block takes.
  unfoldable pub select_pending : TransactionsSet → Outcome TransactionsSet
  select_pending pending =
      if ltb max_transactions_in_block (length pending)
      then select_best_by_fee nth_element max_transactions_in_block pending
      else ok pending

  -- The builder of getMiningData; a depth is a uint64_t.
  unfoldable pub mining_fields :
      Time → ImmutableBlock → Address → TransactionsSet → Outcome MutableBlock
  unfolding build_mutable empty_builder Builder.set_depth Builder.set_nonce
      Builder.set_prev_block_hash Builder.set_timestamp Builder.set_coinbase
      Builder.set_transactions_set
  mining_fields now top coinbase txs = build_mutable (
      Builder.set_transactions_set txs (
        Builder.set_coinbase coinbase (
          Builder.set_timestamp now (
            Builder.set_prev_block_hash (compute_hash ext top)
              (Builder.set_nonce 0 (Builder.set_depth ((top.depth + 1) % 2 ^ 64) empty_builder))))))

  -- Core::getMiningData
  unfoldable pub get_mining_data : Time → Core kv → Outcome (MutableBlock × Complexity)
  unfolding select_pending mining_fields
  get_mining_data now c = elim (get_top_block_and_complexity c.blockchain.chain) [
    | raise e ↦ raise e
    | ok (top, complexity) ↦ elim (select_pending c.pending_transactions) [
      | raise e ↦ raise e
      | ok txs ↦ elim (mining_fields now top c.this_node_address txs) [
        | raise e ↦ raise e
        | ok block ↦ ok (block, complexity)
      ]
    ]
  ]

  -- Core::getAccountInfo
  unfoldable pub get_account_info : Address → Core kv → AccountInfo
  unfolding to_info
  get_account_info address c =
      if has_account address c.ledger.states
      then record (to_info (account_at address c.ledger.states)) { address = address }
      else record {
        type = AccountType.client;
        address = address;
        balance = 0;
        nonce = 0;
        transactions_hashes = [];
      }
