-- ===== src/Ledger/Steps.antt =====
-- How the steps of a transaction run on the object's ledger and on the copy of its states.
use likelib_utonhack.Prelude.{◌≡◌, refl, ap, arith, nat_eq, bytes_eq_iff, bytes_equality}
use likelib_utonhack.Outcome.{ok, raise, Error}
use likelib_utonhack.Exec.{Exec}
use likelib_utonhack.Bytes.{Bytes}
use likelib_utonhack.Map.{put}
use likelib_utonhack.Address.{Address}
use likelib_utonhack.Account.{AccountState, add_transaction_hash}
use likelib_utonhack.States.{States, touch, account_at, modify}
use likelib_utonhack.States.Supply.{
  total, balance_of, account_at-put, account_at-touch, total-put, total-touch, modify-ok,
}
use likelib_utonhack.Ledger.{Work, on_copy, on_states}

pub on_copy-ok :
    {A : Type 0} (m : Exec States A) (w : Work) (a : A) (s : States)
    → m w.copy ≡ (ok a, s)
    → on_copy m w ≡ (ok a, record w { copy = s })
unfolding on_copy
on_copy-ok m w a s h = rw (on_copy, h)

pub on_copy-raise :
    {A : Type 0} (m : Exec States A) (w : Work) (e : Error) (s : States)
    → m w.copy ≡ (raise e, s)
    → on_copy m w ≡ (raise e, record w { copy = s })
unfolding on_copy
on_copy-raise m w e s h = rw (on_copy, h)

pub on_states-ok :
    {A : Type 0} (m : Exec States A) (w : Work) (a : A) (s : States)
    → m w.ledger.states ≡ (ok a, s)
    → on_states m w ≡ (ok a, record w { ledger = record (w.ledger) { states = s } })
unfolding on_states
on_states-ok m w a s h = rw (on_states, h)

-- The states once the sender's account has the transaction's hash.
pub noted : Bytes → Address → States → States
noted hash a s = put a (add_transaction_hash hash (account_at a s)) (touch a s)

pub modify-noted :
    (hash : Bytes) (a : Address) (s : States)
    → modify a (λ account. ok (add_transaction_hash hash account)) s ≡ (ok tt, noted hash a s)
unfolding noted
modify-noted hash a s = modify-ok a _ (add_transaction_hash hash (account_at a s)) s refl

pub balance_of-noted :
    (hash : Bytes) (a x : Address) (s : States) → balance_of x (noted hash a s) ≡ balance_of x s
unfolding noted balance_of add_transaction_hash
balance_of-noted hash a x s = ground (
  arith,
  account_at-put a x (add_transaction_hash hash (account_at a s)) (touch a s),
  account_at-touch a x s,
  bytes_eq_iff a x,
)

pub type-noted :
    (hash : Bytes) (a x : Address) (s : States)
    → (account_at x (noted hash a s)).type ≡ (account_at x s).type
unfolding noted add_transaction_hash
type-noted hash a x s = ground (
  arith,
  account_at-put a x (add_transaction_hash hash (account_at a s)) (touch a s),
  account_at-touch a x s,
  bytes_eq_iff a x,
)

pub total-noted : (hash : Bytes) (a : Address) (s : States) → total (noted hash a s) ≡ total s
unfolding noted balance_of add_transaction_hash
total-noted hash a s = omega (
  arith,
  total-put a (add_transaction_hash hash (account_at a s)) (touch a s),
  total-touch a s,
  ap (λ (x : AccountState). x.balance) (account_at-touch a a s),
)
