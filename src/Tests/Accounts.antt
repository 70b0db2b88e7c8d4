-- ===== src/Tests/Accounts.antt =====
-- The theorems on accounts and on performed transactions, at concrete inputs.
use likelib_utonhack.Prelude.{
  ℕ, ◌+◌, ◌-◌, ◌*◌, ◌≡◌, refl, inl, inr, true, false, [], arith, if◌then◌else◌, Bool-cases, nat_eq,
  bytes_eq, bytes_equality,
}
use likelib_utonhack.Outcome.{ok, raise, Error}
use likelib_utonhack.Map.{put, find}
use likelib_utonhack.Address.{Address, is_null}
use likelib_utonhack.Transaction.{StatusCode, ActionType, hash_of_transaction}
use likelib_utonhack.Account.{client}
use likelib_utonhack.States.{States, account_at, has_account, try_transfer_money}
use likelib_utonhack.States.Supply.{total, balance_of}
use likelib_utonhack.States.Transfer.{transfer_moves}
use likelib_utonhack.Ledger.{Work, try_perform_transaction, settle_failure, status_of}
use likelib_utonhack.Ledger.Transfers.{transfer_ok, succeeded}
use likelib_utonhack.Ledger.Refusals.{transfer_short, transfer_throws, refused}
use likelib_utonhack.Account.{new_account}
use likelib_utonhack.Ledger.{apply_block_transactions, emission_value}
use likelib_utonhack.Ledger.Blocks.{OnlyClients, Grew, apply_block_transactions-Grew}
use likelib_utonhack.Tests.World.{first}
use likelib_utonhack.Ledger.Reverts.{settle_failure-total}
use likelib_utonhack.Tests.World.{
  libraries, machine, thirty, genesis, alice, bob, miner, states, ledger,
}

-- What the accounts of the tests hold.
alice_there : (n : ℕ) → has_account alice (states n) ≡ true
unfolding has_account find bytes_eq
alice_there n = refl

balance_of-alice : (n : ℕ) → balance_of alice (states n) ≡ n
unfolding balance_of account_at find bytes_eq
balance_of-alice n = refl

pub total_of_two : (n : ℕ) → total (states n) ≡ n + 7
total_of_two n = omega arith

bob_is_client : (n : ℕ) → (account_at bob (states n)).type ≡ client
unfolding account_at find bytes_eq
bob_is_client n = refl

pub bob_is_someone : is_null bob ≡ false
unfolding is_null bytes_eq
bob_is_someone = refl

transfer_moves_example :
    (s' : States) × (try_transfer_money alice bob 30 (states 100) ≡ (ok true, s'))
    × (total s' ≡ total (states 100))
    × ((x : Address)
        → balance_of x s' + (if bytes_eq alice x then 30 else 0)
          ≡ balance_of x (states 100) + (if bytes_eq bob x then 30 else 0))
    × ((x : Address) → (account_at x s').type ≡ (account_at x (states 100)).type)
transfer_moves_example =
    transfer_moves alice bob 30 (states 100) (alice_there 100) (omega (arith, balance_of-alice 100))
      (omega (arith, total_of_two 100))

transfer_ok_example :
    (s' : States) × (try_perform_transaction libraries machine thirty genesis.fields (ledger 100)
      ≡ (
        ok tt,
        record {
          states = s';
          outputs =
              put
                (hash_of_transaction libraries thirty)
                (succeeded libraries machine thirty genesis.fields)
                [];
        },
      ))
    × (total s' ≡ total (states 100))
    × ((x : Address)
        → balance_of x s' + (if bytes_eq alice x then 30 + 5 else 0)
          ≡ balance_of x (states 100)
            + (if bytes_eq bob x then 30 else 0)
            + (if bytes_eq miner x then 5 else 0))
    × ((x : Address) → (account_at x s').type ≡ (account_at x (states 100)).type)
transfer_ok_example =
    transfer_ok libraries machine thirty genesis.fields (ledger 100) bob_is_someone
      (bob_is_client 100) (omega (arith, balance_of-alice 100)) (omega (arith, total_of_two 100))

transfer_short_example :
    (s' : States) × (try_perform_transaction libraries machine thirty genesis.fields (ledger 20) ≡ (
      ok tt,
      record {
        states = s';
        outputs =
            put
              (hash_of_transaction libraries thirty)
              (refused libraries machine thirty genesis.fields)
              [];
      },
    ))
    × (total s' ≡ total (states 20))
    × ((x : Address) → balance_of x s' ≡ balance_of x (states 20))
    × ((x : Address) → (account_at x s').type ≡ (account_at x (states 20)).type)
transfer_short_example =
    transfer_short libraries machine thirty genesis.fields (ledger 20) bob_is_someone
      (bob_is_client 20) (omega (arith, balance_of-alice 20)) (omega (arith, balance_of-alice 20))

transfer_throws_example :
    (s' : States) × (try_perform_transaction libraries machine thirty genesis.fields (ledger 3)
      ≡ (raise Error.logic_error, record { states = s'; outputs = [] }))
    × (total s' ≡ total (states 3))
    × ((x : Address) → balance_of x s' ≡ balance_of x (states 3))
    × ((x : Address) → (account_at x s').type ≡ (account_at x (states 3)).type)
transfer_throws_example =
    transfer_throws libraries machine thirty genesis.fields (ledger 3) bob_is_someone
      (omega (arith, balance_of-alice 3))

abbrev work : Work
work = record { ledger = ledger 100; copy = states 65 }

settle_failure-total_example :
    (s' : States) × (settle_failure libraries machine thirty genesis.fields StatusCode.revert
        ActionType.contract_call 2 work
      ≡ (
        ok tt,
        record work {
          ledger = record {
            states = s';
            outputs =
                put
                  (hash_of_transaction libraries thirty)
                  (status_of StatusCode.revert ActionType.contract_call 2 [])
                  [];
          };
        },
      ))
    × (total s' + 2 * 2 ≡ total (states 100) + 5)
    × ((x : Address)
        → balance_of x s' + (if bytes_eq alice x then 2 else 0)
          ≡ balance_of x (states 100) + (if bytes_eq miner x then 5 - 2 else 0))
settle_failure-total_example =
    settle_failure-total libraries machine thirty genesis.fields work StatusCode.revert
      ActionType.contract_call 2 (omega arith) (omega arith) (omega (arith, balance_of-alice 100))
      (omega (arith, total_of_two 100))

pub only_clients : (n : ℕ) → OnlyClients (states n)
unfolding account_at find new_account bytes_eq
only_clients n x = elim (Bool-cases (bytes_eq alice x)) [
  | inl e ↦ rw e
  | inr e ↦ elim (Bool-cases (bytes_eq bob x)) [ inl e' ↦ rw (e, e') | inr e' ↦ rw (e, e') ]
]

apply_block_transactions-Grew_example :
    Grew emission_value
      (states 100)
      (apply_block_transactions libraries machine first.fields (ledger 100)).1.states
apply_block_transactions-Grew_example =
    apply_block_transactions-Grew libraries machine first.fields (ledger 100) (bob_is_someone, tt)
      (only_clients 100) (omega (arith, total_of_two 100))
