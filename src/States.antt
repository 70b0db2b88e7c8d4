-- ===== src/States.antt =====
-- StateManager of core/managers.hpp and core/managers.cpp: the accounts by address. The mutex of
-- the class makes each method one step.
pub mod Supply
pub mod Transfer
use likelib_utonhack.Prelude.{
  ℕ, zero, suc, ◌+◌, ◌-◌, ◌*◌, ◌/◌, ◌%◌, ◌^◌, ◌≤◌, ◌<◌, min, max, ◌≡◌, refl, sym, ap, subst, ◌∙◌,
  ◌≡⟨◌⟩◌, ◌∎, ◌≢◌, ◌↔◌, ◌⊎◌, inl, inr, Bool, true, false, not, ◌&&◌, ◌||◌, Option, none, some, List,
  [], ◌∷◌, ◌++◌, map, append-nil, append_assoc, arith, ltb, leb, ◌==◌, if◌then◌else◌, lt→ltb,
  le→leb, ==_iff, Bool-cases, Option-cases, length, get_elem?, take, drop, replicate, length-append,
  length-take, length-replicate, drop-append, take-append, All, All-append, Eq, nat_eq, bytes_eq,
  bytes_eq_iff, bytes_equality, beq_refl,
}
use likelib_utonhack.Outcome.{Outcome, ok, raise, Error}
use likelib_utonhack.Exec.{Exec, ◌>>=◌, ◌>>◌, pure, throw}
use likelib_utonhack.Bytes.{Bytes}
use likelib_utonhack.Map.{Map, find, put, insert, erase}
use likelib_utonhack.Amount.{add_amount}
use likelib_utonhack.External.{External}
use likelib_utonhack.Base58.{to_string}
use likelib_utonhack.Address.{Address}
use likelib_utonhack.Transaction.{Transaction, Balance}
use likelib_utonhack.TransactionsSet.{TransactionsSet}
use likelib_utonhack.Account.{
  AccountState, AccountType, client, contract, new_account, add_balance, sub_balance, set_balance,
  set_code_hash,
}

abbrev pub States : Type 0
States = Map Address AccountState

-- StateManager::hasAccount
unfoldable pub has_account : Address → States → Bool
has_account a s = elim (find a s) [ none ↦ false | some account ↦ true ]

-- The value that the references of both getAccount refer to; a missing account reads as a new one.
unfoldable pub account_at : Address → States → AccountState
unfolding new_account
account_at a s = elim (find a s) [ none ↦ new_account client | some account ↦ account ]

-- StateManager::getAccount, const
unfoldable pub get_account : Address → States → Outcome AccountState
get_account a s = elim (find a s) [
  | none ↦ raise Error.invalid_argument
  | some account ↦ ok account
]

-- StateManager::getAccount, which creates the account that it does not find.
unfoldable pub touch : Address → States → States
unfolding new_account
touch a s = insert a (new_account client) s

-- getAccount and a method of the account that may throw.
unfoldable pub modify : Address → (AccountState → Outcome AccountState) → Exec States (Unit {0})
modify a f s = elim (f (account_at a (touch a s))) [
  | ok account ↦ (ok tt, put a account (touch a s))
  | raise e ↦ (raise e, touch a s)
]

-- StateManager::createClientAccount
unfoldable pub create_client_account : Address → Exec States (Unit {0})
unfolding has_account new_account
create_client_account a s =
    if has_account a s
    then (raise Error.logic_error, s)
    else (ok tt, insert a (new_account client) s)

-- The address of a contract account.
unfoldable pub contract_address : External → Bytes → Address → ℕ → Address
contract_address ext code_hash from nonce = ext.ripemd160 ((code_hash ++ from) ++ to_string nonce)

-- StateManager::createContractAccount
unfoldable pub create_contract_account : External → Address → Bytes → States → Address × States
unfolding contract_address touch account_at new_account set_code_hash
create_contract_account ext from code_hash s =
    let s' = touch from s in
    let a = contract_address ext code_hash from (account_at from s').nonce in
    (a, put a (set_code_hash code_hash (new_account contract)) s')

-- StateManager::deleteAccount
unfoldable pub delete_account : Address → States → Bool × States
unfolding has_account
delete_account a s = if has_account a s then (true, erase a s) else (false, s)

-- if (!hasAccount(to)) createClientAccount(to)
unfoldable pub ensure_account : Address → Exec States (Unit {0})
ensure_account to s = if has_account to s then (ok tt, s) else create_client_account to s

-- The two writes of tryTransferMoney, through references that are one where from is to.
unfoldable pub pay : Address → Address → Balance → Exec States Bool
pay from to amount = do modify from (sub_balance amount); modify to (add_balance amount); pure true

-- StateManager::tryTransferMoney
unfoldable pub try_transfer_money : Address → Address → Balance → Exec States Bool
try_transfer_money from to amount s =
    if not (has_account from s)
    then (ok false, s)
    else if ltb (account_at from s).balance amount
    then (ok false, s)
    else (ensure_account to >> pay from to amount) s

-- StateManager::checkTransaction
unfoldable pub check_transaction : Transaction → States → Outcome Bool
check_transaction tx s = elim (find tx.from s) [
  | none ↦ ok false
  | some account ↦ elim (add_amount tx.amount tx.fee) [
    | ok cost ↦ ok (leb cost account.balance)
    | raise e ↦ raise e
  ]
]

-- StateManager::updateFromGenesis
unfoldable pub update_from_genesis : TransactionsSet → States → States
update_from_genesis [] s = s
update_from_genesis (tx ∷ txs) s =
    update_from_genesis txs (insert tx.to (set_balance tx.amount (new_account client)) s)
