-- ===== src/States/Supply.antt =====
-- The balances of all accounts taken together, and how the writes to one account change them.
use likelib_utonhack.Prelude.{
  ℕ, ◌+◌, ◌-◌, ◌≤◌, ◌<◌, ◌≡◌, ap, true, false, [], ◌∷◌, arith, ltb, if◌then◌else◌, lt→ltb, le→leb,
  nat_eq, bytes_eq, bytes_eq_iff, bytes_equality,
}
use likelib_utonhack.Outcome.{Outcome, ok, raise, Error}
use likelib_utonhack.Map.{find, put, insert, find-put, find-insert, find-put_self}
use likelib_utonhack.Address.{Address}
use likelib_utonhack.Account.{AccountState, client, new_account, add_balance, sub_balance}
use likelib_utonhack.Amount.{max_amount}
use likelib_utonhack.States.{States, account_at, touch, modify, has_account}

-- The sum of all balances.
abbrev pub total : States → ℕ
total [] = 0
total ((a, account) ∷ s) = account.balance + total s

unfoldable pub balance_of : Address → States → ℕ
balance_of a s = (account_at a s).balance

pub balance_of-le-total : (a : Address) (s : States) → balance_of a s ≤ total s
unfolding balance_of account_at find
balance_of-le-total a [] = omega arith
balance_of-le-total a ((b, account) ∷ s) = ground (arith, balance_of-le-total a s)

pub total-put :
    (a : Address) (account : AccountState) (s : States)
    → total (put a account s) + balance_of a s ≡ total s + account.balance
unfolding balance_of account_at find put
total-put a account [] = ground arith
total-put a account ((b, old) ∷ s) = ground (arith, total-put a account s)

pub total-touch : (a : Address) (s : States) → total (touch a s) ≡ total s
unfolding touch insert
total-touch a [] = ground arith
total-touch a ((b, old) ∷ s) = ground (arith, total-touch a s)

pub account_at-touch : (a x : Address) (s : States) → account_at x (touch a s) ≡ account_at x s
unfolding touch account_at
account_at-touch a x s = ground (arith, find-insert a x (new_account client) s, bytes_eq_iff a x)

pub account_at-put :
    (a x : Address) (account : AccountState) (s : States)
    → account_at x (put a account s) ≡ (if bytes_eq a x then account else account_at x s)
unfolding account_at
account_at-put a x account s = ground (arith, find-put a x account s)

-- An account with a balance written to it; a missing account is created first.
pub with_balance : Address → ℕ → States → States
with_balance a n s = put a (record (account_at a s) { balance = n }) (touch a s)

pub balance_of-with_balance :
    (a x : Address) (n : ℕ) (s : States)
    → balance_of x (with_balance a n s) ≡ (if bytes_eq a x then n else balance_of x s)
unfolding with_balance balance_of
balance_of-with_balance a x n s = ground (
  arith,
  account_at-put a x (record (account_at a s) { balance = n }) (touch a s),
  account_at-touch a x s,
)

pub total-with_balance :
    (a : Address) (n : ℕ) (s : States) → total (with_balance a n s) + balance_of a s ≡ total s + n
unfolding with_balance balance_of
total-with_balance a n s = omega (
  arith,
  total-put a (record (account_at a s) { balance = n }) (touch a s),
  total-touch a s,
  ap (λ (x : AccountState). x.balance) (account_at-touch a a s),
)

pub modify-ok :
    (a : Address) (f : AccountState → Outcome AccountState) (account : AccountState) (s : States)
    → f (account_at a s) ≡ ok account
    → modify a f s ≡ (ok tt, put a account (touch a s))
unfolding modify
modify-ok a f account s h = rw (modify, account_at-touch a a s, h)

pub modify-raise :
    (a : Address) (f : AccountState → Outcome AccountState) (e : Error) (s : States)
    → f (account_at a s) ≡ raise e
    → modify a f s ≡ (raise e, touch a s)
unfolding modify
modify-raise a f e s h = rw (modify, account_at-touch a a s, h)

add_balance-ok :
    (d : ℕ) (account : AccountState)
    → account.balance + d ≤ max_amount
    → add_balance d account ≡ ok (record account { balance = account.balance + d })
unfolding add_balance
add_balance-ok d account h = rw (add_balance, le→leb (account.balance + d) max_amount h)

sub_balance-ok :
    (d : ℕ) (account : AccountState)
    → d ≤ account.balance
    → sub_balance d account ≡ ok (record account { balance = account.balance - d })
unfolding sub_balance
sub_balance-ok d account h =
    let enough : ltb account.balance d ≡ false = ground arith in rw (sub_balance, enough)

-- What addBalance and subBalance do to the account that getAccount gives.
pub modify-add_balance :
    (a : Address) (d : ℕ) (s : States)
    → balance_of a s + d ≤ max_amount
    → modify a (add_balance d) s ≡ (ok tt, with_balance a (balance_of a s + d) s)
unfolding with_balance balance_of
modify-add_balance a d s h = modify-ok a (add_balance d) _ s (add_balance-ok d (account_at a s) h)

pub modify-sub_balance :
    (a : Address) (d : ℕ) (s : States)
    → d ≤ balance_of a s
    → modify a (sub_balance d) s ≡ (ok tt, with_balance a (balance_of a s - d) s)
unfolding with_balance balance_of
modify-sub_balance a d s h = modify-ok a (sub_balance d) _ s (sub_balance-ok d (account_at a s) h)

pub modify-sub_balance_short :
    (a : Address) (d : ℕ) (s : States)
    → balance_of a s < d
    → modify a (sub_balance d) s ≡ (raise Error.logic_error, touch a s)
unfolding sub_balance balance_of
modify-sub_balance_short a d s h =
    let short : ltb (account_at a s).balance d ≡ true = lt→ltb _ _ h in
    modify-raise a (sub_balance d) Error.logic_error s (rw (sub_balance, short))

pub balance_of-touch : (a x : Address) (s : States) → balance_of x (touch a s) ≡ balance_of x s
unfolding balance_of
balance_of-touch a x s = ap (λ (y : AccountState). y.balance) (account_at-touch a x s)

-- An account that is missing has nothing.
pub balance_of_missing : (a : Address) (s : States) → has_account a s ≡ false → balance_of a s ≡ 0
unfolding has_account balance_of account_at
balance_of_missing a s h = ground arith

-- Which accounts the writes leave in place.
pub has_account-with_balance :
    (a : Address) (n : ℕ) (s : States) → has_account a (with_balance a n s) ≡ true
unfolding has_account with_balance
has_account-with_balance a n s =
    rw (has_account, find-put_self a (record (account_at a s) { balance = n }) (touch a s))

pub has_account-touch :
    (a b : Address) (s : States) → has_account a s ≡ true → has_account a (touch b s) ≡ true
unfolding has_account touch
has_account-touch a b s h = ground (arith, find-insert b a (new_account client) s, bytes_eq_iff b a)

pub type-with_balance :
    (a x : Address) (n : ℕ) (s : States)
    → (account_at x (with_balance a n s)).type ≡ (account_at x s).type
unfolding with_balance
type-with_balance a x n s = ground (
  arith,
  account_at-put a x (record (account_at a s) { balance = n }) (touch a s),
  account_at-touch a x s,
  bytes_eq_iff a x,
)
