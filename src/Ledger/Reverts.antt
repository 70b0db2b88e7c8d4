-- ===== src/Ledger/Reverts.antt =====
-- The end of a contract's run that the machine reverts or refuses, and what it does to the balances.
use likelib_utonhack.Prelude.{
  ℕ, ◌+◌, ◌-◌, ◌*◌, ◌^◌, ◌≤◌, ◌<◌, ◌≡◌, [], arith, if◌then◌else◌, nat_eq, bytes_eq, bytes_eq_iff,
  bytes_equality,
}
use likelib_utonhack.Outcome.{ok}
use likelib_utonhack.Map.{put}
use likelib_utonhack.Amount.{max_amount}
use likelib_utonhack.Address.{Address}
use likelib_utonhack.Transaction.{Transaction, StatusCode, ActionType, hash_of_transaction}
use likelib_utonhack.External.{External}
use likelib_utonhack.Block.{Fields}
use likelib_utonhack.States.{States}
use likelib_utonhack.States.Supply.{
  total, balance_of, with_balance, balance_of-le-total, balance_of-with_balance, total-with_balance,
  modify-add_balance, modify-sub_balance,
}
use likelib_utonhack.Ledger.{Work, status_of, fee_used, settle_failure}
use likelib_utonhack.Ledger.Vm.{Machine}

module _ (ext : External) (machine : Machine) (tx : Transaction) (block : Fields) where
  fee_used-sub :
      (gas_left : ℕ)
      → gas_left ≤ tx.fee
      → tx.fee < 2 ^ 64
      → fee_used tx.fee gas_left ≡ tx.fee - gas_left
  fee_used-sub gas_left h k = omega arith

  -- Where the gas left is at most the fee and the sender has it, and no sum overflows, the end of a
  -- reverted or refused run takes what is left of the gas off the sender and gives what was used to
  -- the coinbase: the sum of all balances grows by the fee and shrinks by twice the gas left, and the
  -- balances change so and not otherwise.
  pub settle_failure-total :
      (w : Work) (code : StatusCode) (kind : ActionType) (gas_left : ℕ)
      → gas_left ≤ tx.fee
      → tx.fee < 2 ^ 64
      → gas_left ≤ balance_of tx.from w.ledger.states
      → total w.ledger.states + tx.fee ≤ max_amount
      → (s' : States) × (settle_failure ext machine tx block code kind gas_left w ≡ (
        ok tt,
        record w {
          ledger = record {
            states = s';
            outputs =
                put (hash_of_transaction ext tx) (status_of code kind gas_left []) w.ledger.outputs;
          };
        },
      ))
        × (total s' + 2 * gas_left ≡ total w.ledger.states + tx.fee)
        × ((x : Address)
            → balance_of x s' + (if bytes_eq tx.from x then gas_left else 0)
              ≡ balance_of x w.ledger.states
                + (if bytes_eq block.coinbase x then tx.fee - gas_left else 0))
  unfolding settle_failure
  settle_failure-total w code kind gas_left used fits rich room =
      let s = w.ledger.states in
      let taken = with_balance tx.from (balance_of tx.from s - gas_left) s in
      let reward = fee_used tx.fee gas_left in
      let same : reward ≡ tx.fee - gas_left = fee_used-sub gas_left used fits in
      let less : total taken + gas_left ≡ total s =
        omega (arith, total-with_balance tx.from (balance_of tx.from s - gas_left) s) in
      let fits' : balance_of block.coinbase taken + reward ≤ max_amount =
        omega (arith, balance_of-le-total block.coinbase taken, less, same) in
      let s' = with_balance block.coinbase (balance_of block.coinbase taken + reward) taken in
      (
        s',
        rw (modify-sub_balance tx.from gas_left s rich)
            (rw (modify-add_balance block.coinbase reward taken fits')),
        omega (
          arith,
          total-with_balance block.coinbase (balance_of block.coinbase taken + reward) taken,
          less,
          same,
        ),
        λ x. ground (
          arith,
          same,
          balance_of-with_balance block.coinbase x (balance_of block.coinbase taken + reward) taken,
          balance_of-with_balance tx.from x (balance_of tx.from s - gas_left) s,
          bytes_eq_iff tx.from x,
          bytes_eq_iff block.coinbase x,
          rich,
        ),
      )
