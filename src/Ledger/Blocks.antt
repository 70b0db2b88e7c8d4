-- ===== src/Ledger/Blocks.antt =====
-- applyBlockTransactions on accounts of clients: what a block does to the sum of all balances.
use likelib_utonhack.Prelude.{
  ℕ, ◌+◌, ◌≤◌, ◌≡◌, ap, ◌∙◌, inl, inr, false, List, [], ◌∷◌, arith, leb, Bool-cases, All, nat_eq,
  bytes_equality,
}
use likelib_utonhack.Outcome.{Outcome, ok, Outcome-cases}
use likelib_utonhack.Amount.{max_amount}
use likelib_utonhack.Address.{Address, is_null}
use likelib_utonhack.Transaction.{Transaction}
use likelib_utonhack.External.{External}
use likelib_utonhack.Block.{Fields}
use likelib_utonhack.Account.{client, add_balance}
use likelib_utonhack.States.{States, account_at, modify}
use likelib_utonhack.States.Supply.{
  total, balance_of, with_balance, balance_of-le-total, total-with_balance, modify-add_balance,
  type-with_balance,
}
use likelib_utonhack.Ledger.{
  Ledger, try_perform_transaction, perform_all, apply_block_transactions, emission_value,
}
use likelib_utonhack.Ledger.Vm.{Machine}
use likelib_utonhack.Ledger.Transfers.{transfer_ok}
use likelib_utonhack.Ledger.Refusals.{transfer_short, transfer_throws}

-- No account is a contract's.
abbrev pub OnlyClients : States → Type 0
OnlyClients s = (x : Address) → (account_at x s).type ≡ client

-- The sum of all balances grew by n, and there are still no contracts.
abbrev pub Grew : ℕ → States → States → Type 0
Grew n s s' = (total s' ≡ total s + n) × OnlyClients s'

-- No transaction creates a contract.
abbrev pub HaveReceivers : List Transaction → Type 0
HaveReceivers txs = All (λ (tx : Transaction). is_null tx.to ≡ false) txs

module _ (ext : External) (machine : Machine) (block : Fields) where
  after :
      (l : Ledger) (r r' : Outcome (Unit {0}) × Ledger)
      → OnlyClients l.states
      → r ≡ r'
      → total r'.1.states ≡ total l.states
      → ((x : Address) → (account_at x r'.1.states).type ≡ (account_at x l.states).type)
      → Grew 0 l.states r.1.states
  after l r r' clients e same types = (
    ap (λ (k : Outcome (Unit {0}) × Ledger). total k.1.states) e ∙ omega (arith, same),
    λ x.
        ap (λ (k : Outcome (Unit {0}) × Ledger). (account_at x k.1.states).type) e
        ∙ types x
        ∙ clients x,
  )

  try_perform_transaction-Grew :
      (tx : Transaction) (l : Ledger)
      → is_null tx.to ≡ false
      → OnlyClients l.states
      → total l.states ≤ max_amount
      → Grew 0 l.states (try_perform_transaction ext machine tx block l).1.states
  try_perform_transaction-Grew tx l receiver clients fits =
      elim (Bool-cases (leb (tx.amount + tx.fee) (balance_of tx.from l.states))) [
        | inl rich ↦
            (let (s, e, same, moves, types) =
                transfer_ok ext machine tx block l receiver (clients tx.to) (ground arith) fits in
              after l _ _ clients e same types)
        | inr poor ↦ elim (Bool-cases (leb tx.fee (balance_of tx.from l.states))) [
          | inl fee ↦
              (let (s, e, same, moves, types) =
                  transfer_short ext machine tx block l receiver (clients tx.to) (ground arith)
                    (ground arith) in
                after l _ _ clients e same types)
          | inr none_left ↦
              (let (s, e, same, moves, types) =
                  transfer_throws ext machine tx block l receiver (ground arith) in
                after l _ _ clients e same types)
        ]
      ]

  pub perform_all-Grew :
      (txs : List Transaction) (l : Ledger)
      → HaveReceivers txs
      → OnlyClients l.states
      → total l.states ≤ max_amount
      → Grew 0 l.states (perform_all ext machine block txs l).1.states
  unfolding perform_all
  perform_all-Grew [] l receivers clients fits = (omega arith, clients)
  perform_all-Grew (tx ∷ txs) l receivers clients fits =
      let next = (try_perform_transaction ext machine tx block l).1 in
      let (same, still) = try_perform_transaction-Grew tx l receivers.0 clients fits in
      elim (Outcome-cases (try_perform_transaction ext machine tx block l).0) [
        | inl e ↦
            (let (same', still') =
                perform_all-Grew txs next receivers.1 still (omega (arith, same)) in
              rw e (omega (arith, same, same'), still'))
        | inr (error, e) ↦ rw e (same, still)
      ]

  -- On accounts of clients, a block none of whose transactions creates a contract makes the sum of
  -- all balances grow by the emission and no more, also where one of its transactions throws, and
  -- leaves only accounts of clients; the sum before and the emission must be within a Uint256.
  pub apply_block_transactions-Grew :
      (l : Ledger)
      → HaveReceivers block.txs
      → OnlyClients l.states
      → total l.states + emission_value ≤ max_amount
      → Grew emission_value l.states (apply_block_transactions ext machine block l).1.states
  unfolding apply_block_transactions
  apply_block_transactions-Grew l receivers clients fits =
      let s = l.states in
      let paid = with_balance block.coinbase (balance_of block.coinbase s + emission_value) s in
      let more : total paid ≡ total s + emission_value = omega (
        arith,
        total-with_balance block.coinbase (balance_of block.coinbase s + emission_value) s,
      ) in
      let e : modify block.coinbase (add_balance emission_value) s ≡ (ok tt, paid) =
        modify-add_balance block.coinbase emission_value s
          (omega (arith, balance_of-le-total block.coinbase s)) in
      let (same, still) =
        perform_all-Grew block.txs (record l { states = paid }) receivers
          (λ x.
            type-with_balance block.coinbase x (balance_of block.coinbase s + emission_value) s
            ∙ clients x)
          (omega (arith, more)) in
      rw e (omega (arith, same, more), still)
