-- ===== src/Account.antt =====
-- AccountState of core/managers.hpp and core/managers.cpp.
pub mod Storage
use likelib_utonhack.Prelude.{
  ℕ, zero, suc, ◌+◌, ◌-◌, ◌*◌, ◌/◌, ◌%◌, ◌^◌, ◌≤◌, ◌<◌, min, max, ◌≡◌, refl, sym, ap, subst, ◌∙◌,
  ◌≡⟨◌⟩◌, ◌∎, ◌≢◌, ◌↔◌, ◌⊎◌, inl, inr, Bool, true, false, not, ◌&&◌, ◌||◌, Option, none, some, List,
  [], ◌∷◌, ◌++◌, map, append-nil, append_assoc, arith, ltb, leb, ◌==◌, if◌then◌else◌, lt→ltb,
  le→leb, ==_iff, Bool-cases, Option-cases, length, get_elem?, take, drop, replicate, length-append,
  length-take, length-replicate, drop-append, take-append, All, All-append, Eq, nat_eq, bytes_eq,
  bytes_eq_iff, bytes_equality, beq_refl,
}
use likelib_utonhack.Outcome.{Outcome, ok, raise, Error}
use likelib_utonhack.Bytes.{Bytes}
use likelib_utonhack.Map.{Map, find, put}
use likelib_utonhack.Amount.{add_amount, sub_amount}
use likelib_utonhack.Address.{Address, null_address}
use likelib_utonhack.Transaction.{Balance}

pub data AccountType : Type 0 where
  client contract : AccountType

pub record StorageData : Type 0 where
  pub value : Bytes
  pub was_modified : Bool

pub record AccountState : Type 0 where
  pub type : AccountType
  pub nonce : ℕ
  pub balance : Balance
  pub code_hash : Bytes
  pub transactions : List Bytes
  pub storage : Map Bytes StorageData
  pub runtime_code : Bytes

pub record AccountInfo : Type 0 where
  pub type : AccountType
  pub address : Address
  pub balance : Balance
  pub nonce : ℕ
  pub transactions_hashes : List Bytes

-- base::Sha256::null
unfoldable pub null_hash : Bytes
null_hash = replicate 32 0

-- AccountState(AccountType)
unfoldable pub new_account : AccountType → AccountState
unfolding null_hash
new_account type = record {
  type = type;
  nonce = 0;
  balance = 0;
  code_hash = null_hash;
  transactions = [];
  storage = [];
  runtime_code = [];
}

-- AccountState::addTransactionHash; the nonce is a uint64_t.
unfoldable pub add_transaction_hash : Bytes → AccountState → AccountState
add_transaction_hash hash a = record a {
  nonce = (a.nonce + 1) % 2 ^ 64;
  transactions = a.transactions ++ hash ∷ [];
}

-- AccountState::setBalance
unfoldable pub set_balance : Balance → AccountState → AccountState
set_balance n a = record a { balance = n }

-- AccountState::addBalance
unfoldable pub add_balance : Balance → AccountState → Outcome AccountState
unfolding add_amount
add_balance delta a = elim (add_amount a.balance delta) [
  | ok n ↦ ok (record a { balance = n })
  | raise e ↦ raise e
]

-- AccountState::subBalance
unfoldable pub sub_balance : Balance → AccountState → Outcome AccountState
unfolding sub_amount
sub_balance delta a =
    if ltb a.balance delta then raise Error.logic_error else elim (sub_amount a.balance delta) [
      | ok n ↦ ok (record a { balance = n })
      | raise e ↦ raise e
    ]

-- AccountState::setCodeHash and AccountState::setRuntimeCode
unfoldable pub set_code_hash : Bytes → AccountState → AccountState
set_code_hash hash a = record a { code_hash = hash }

unfoldable pub set_runtime_code : Bytes → AccountState → AccountState
set_runtime_code code a = record a { runtime_code = code }

-- AccountState::checkStorageValue
unfoldable pub check_storage_value : Bytes → AccountState → Bool
check_storage_value key a = elim (find key a.storage) [ none ↦ false | some sd ↦ true ]

-- AccountState::getStorageValue
unfoldable pub get_storage_value : Bytes → AccountState → Outcome StorageData
get_storage_value key a = elim (find key a.storage) [
  | none ↦ raise Error.logic_error
  | some sd ↦ ok sd
]

-- AccountState::setStorageValue
unfoldable pub set_storage_value : Bytes → Bytes → AccountState → AccountState
set_storage_value key value a = record a {
  storage = put key (record { value = value; was_modified = true }) a.storage;
}

-- AccountState::toInfo, whose type is read off the code hash.
unfoldable pub to_info : AccountState → AccountInfo
unfolding null_hash null_address
to_info a = record {
  type = if bytes_eq a.code_hash null_hash then AccountType.client else AccountType.contract;
  address = null_address;
  balance = a.balance;
  nonce = a.nonce;
  transactions_hashes = a.transactions;
}
