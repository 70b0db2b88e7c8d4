-- ===== src/States/Transfer.antt =====
-- tryTransferMoney moves money and creates none.
use likelib_utonhack.Prelude.{
  ℕ, ◌+◌, ◌-◌, ◌≤◌, ◌<◌, ◌≡◌, ap, ◌∙◌, inl, inr, true, false, [], ◌∷◌, arith, ltb, if◌then◌else◌,
  Bool-cases, nat_eq, bytes_eq, bytes_eq_iff, bytes_equality,
}
use likelib_utonhack.Outcome.{ok}
use likelib_utonhack.Exec.{bind-ok}
use likelib_utonhack.Map.{find, insert}
use likelib_utonhack.Address.{Address}
use likelib_utonhack.Account.{AccountState, add_balance, sub_balance}
use likelib_utonhack.Amount.{max_amount}
use likelib_utonhack.States.{
  States, account_at, touch, modify, has_account, create_client_account, ensure_account, pay,
  try_transfer_money,
}
use likelib_utonhack.States.Supply.{
  total, balance_of, with_balance, balance_of-le-total, balance_of-with_balance, total-with_balance,
  modify-add_balance, modify-sub_balance, balance_of-touch, total-touch, type-with_balance,
  account_at-touch,
}

-- What tryTransferMoney leaves of the accounts: the receiver is there, and the amount has moved.
pub moved : Address → Address → ℕ → States → States
moved from to amount s =
    let paid = with_balance from (balance_of from s - amount) (touch to s) in
    with_balance to (balance_of to paid + amount) paid

create-touch :
    (a : Address) (s : States)
    → has_account a s ≡ false
    → create_client_account a s ≡ (ok tt, touch a s)
unfolding create_client_account touch
create-touch a s h = ground arith

insert_present :
    (a : Address) (account : AccountState) (s : States)
    → has_account a s ≡ true
    → insert a account s ≡ s
unfolding has_account insert find
insert_present a account [] h = ground arith
insert_present a account ((b, old) ∷ s) h = ground (arith, insert_present a account s)

touch_present : (a : Address) (s : States) → has_account a s ≡ true → touch a s ≡ s
unfolding touch
touch_present a s h = insert_present a _ s h

ensure-touch : (a : Address) (s : States) → ensure_account a s ≡ (ok tt, touch a s)
unfolding ensure_account
ensure-touch a s = elim (Bool-cases (has_account a s)) [
  | inl e ↦ rw (e, touch_present a s e)
  | inr e ↦ rw e (create-touch a s e)
]

module _ (from to : Address) (amount : ℕ) (s : States) (enough : amount ≤ balance_of from s) where
  paid : States
  paid = with_balance from (balance_of from s - amount) (touch to s)

  balance_of-paid :
      (x : Address) → balance_of x paid + (if bytes_eq from x then amount else 0) ≡ balance_of x s
  unfolding paid
  balance_of-paid x = ground (
    arith,
    balance_of-with_balance from x (balance_of from s - amount) (touch to s),
    balance_of-touch to x s,
    bytes_eq_iff from x,
    enough,
  )

  total-paid : total paid + amount ≡ total s
  unfolding paid
  total-paid = omega (
    arith,
    total-with_balance from (balance_of from s - amount) (touch to s),
    total-touch to s,
    balance_of-touch to from s,
    enough,
  )

  pub total-moved : total (moved from to amount s) ≡ total s
  unfolding moved paid
  total-moved = omega (arith, total-with_balance to (balance_of to paid + amount) paid, total-paid)

  pub balance_of-moved :
      (x : Address)
      → balance_of x (moved from to amount s) + (if bytes_eq from x then amount else 0)
        ≡ balance_of x s + (if bytes_eq to x then amount else 0)
  unfolding moved paid
  balance_of-moved x = ground (
    arith,
    balance_of-with_balance to x (balance_of to paid + amount) paid,
    balance_of-paid x,
    bytes_eq_iff to x,
  )

  pub type-moved :
      (x : Address) → (account_at x (moved from to amount s)).type ≡ (account_at x s).type
  unfolding moved
  type-moved x =
      type-with_balance to x _ _
      ∙ type-with_balance from x (balance_of from s - amount) (touch to s)
      ∙ ap (λ (a : AccountState). a.type) (account_at-touch to x s)

  room : total s ≤ max_amount → balance_of to paid + amount ≤ max_amount
  room h = omega (arith, balance_of-le-total to paid, total-paid)

  pay-ok :
      total s ≤ max_amount → pay from to amount (touch to s) ≡ (ok true, moved from to amount s)
  unfolding pay moved paid
  pay-ok h =
      bind-ok (modify from (sub_balance amount)) _ (
        rw (← balance_of-touch to from s)
          (modify-sub_balance from amount (touch to s) (rw (balance_of-touch to from s) enough)))
      ∙ bind-ok (modify to (add_balance amount)) _ (modify-add_balance to amount paid (room h))

  not_short : ltb (account_at from s).balance amount ≡ false
  unfolding balance_of
  not_short = ground (arith, enough)

  -- With enough money on the sender's account, and no more than the largest Uint256 in all
  -- accounts, the transfer succeeds, and leaves the accounts with the amount moved.
  pub try_transfer_money-ok :
      total s ≤ max_amount
      → has_account from s ≡ true
      → try_transfer_money from to amount s ≡ (ok true, moved from to amount s)
  unfolding try_transfer_money
  try_transfer_money-ok h present =
      let rich : ltb (account_at from s).balance amount ≡ false = not_short in
      rw (present, rich)
        (bind-ok (ensure_account to) (λ _. pay from to amount) (ensure-touch to s) ∙ pay-ok h)

-- Without an account, or with too little money on it, the transfer is refused and changes nothing.
pub try_transfer_money-refused :
    (from to : Address) (amount : ℕ) (s : States)
    → balance_of from s < amount
    → try_transfer_money from to amount s ≡ (ok false, s)
unfolding try_transfer_money balance_of
try_transfer_money-refused from to amount s h = ground arith

-- With enough money on the sender's account, and no more than the largest Uint256 in all accounts,
-- the transfer succeeds, keeps the sum of all balances, and takes the amount off the sender and
-- puts it on the receiver, who may be the sender; no other balance changes, and no account changes
-- its type.
pub transfer_moves :
    (from to : Address) (amount : ℕ) (s : States)
    → has_account from s ≡ true
    → amount ≤ balance_of from s
    → total s ≤ max_amount
    → (s' : States) × (try_transfer_money from to amount s ≡ (ok true, s'))
      × (total s' ≡ total s)
      × ((x : Address)
          → balance_of x s' + (if bytes_eq from x then amount else 0)
            ≡ balance_of x s + (if bytes_eq to x then amount else 0))
      × ((x : Address) → (account_at x s').type ≡ (account_at x s).type)
transfer_moves from to amount s present enough fits = (
  moved from to amount s,
  try_transfer_money-ok from to amount s enough fits present,
  total-moved from to amount s enough,
  balance_of-moved from to amount s enough,
  type-moved from to amount s enough,
)
