-- ===== src/Transaction.antt =====
-- core/transaction.hpp and core/transaction.cpp: transactions, their equality, hash and signature.
pub mod Builder
pub mod Codec
pub mod Identity
pub mod Signature
use likelib_utonhack.Prelude.{
  ℕ, zero, suc, ◌+◌, ◌-◌, ◌*◌, ◌/◌, ◌%◌, ◌^◌, ◌≤◌, ◌<◌, min, max, ◌≡◌, refl, sym, ap, subst, ◌∙◌,
  ◌≡⟨◌⟩◌, ◌∎, ◌≢◌, ◌↔◌, ◌⊎◌, inl, inr, Bool, true, false, not, ◌&&◌, ◌||◌, Option, none, some, List,
  [], ◌∷◌, ◌++◌, map, append-nil, append_assoc, arith, ltb, leb, ◌==◌, if◌then◌else◌, lt→ltb,
  le→leb, ==_iff, Bool-cases, Option-cases, length, get_elem?, take, drop, replicate, length-append,
  length-take, length-replicate, drop-append, take-append, All, All-append, Eq, nat_eq, bytes_eq,
  bytes_eq_iff, bytes_equality, beq_refl,
}
use likelib_utonhack.Outcome.{Outcome, ok, raise, Error, ◌>>=◌}
use likelib_utonhack.Bytes.{Bytes, IsFixed, AreBytes, is_empty}
use likelib_utonhack.Time.{Time}
use likelib_utonhack.External.{External}
use likelib_utonhack.Crypto
use likelib_utonhack.Base58.{base58_encode, to_string}
use likelib_utonhack.Address.{Address, address_of_key, null_address}

-- lk::Balance and lk::Fee
abbrev pub Balance : Type 0
Balance = ℕ

abbrev pub Fee : Type 0
Fee = ℕ

pub record Transaction : Type 0 where
  pub from : Address
  pub to : Address
  pub amount : Balance
  pub fee : Fee
  pub timestamp : Time
  pub payload : Bytes
  pub sign : Bytes

-- The ranges of the fields' types: two addresses, a Uint256, a uint64_t, a uint32_t, bytes and a
-- signature of 65 bytes.
pub record IsTransaction (tx : Transaction) : Type 0 where
  pub from_fixed : IsFixed 20 tx.from
  pub to_fixed : IsFixed 20 tx.to
  pub amount_fits : tx.amount < 2 ^ 256
  pub fee_fits : tx.fee < 2 ^ 64
  pub timestamp_fits : tx.timestamp < 2 ^ 32
  pub payload_fits : length tx.payload < 2 ^ 64
  pub payload_bytes : AreBytes tx.payload
  pub sign_fixed : IsFixed 65 tx.sign
  pub not_empty : 0 < tx.amount + tx.fee

-- The constructor Transaction::Transaction.
unfoldable pub make_transaction :
    Address → Address → Balance → Fee → Time → Bytes → Bytes → Outcome Transaction
make_transaction from to amount fee timestamp payload sign =
    if (amount == 0) && (fee == 0)
    then raise Error.logic_error
    else ok (record {
      from = from;
      to = to;
      amount = amount;
      fee = fee;
      timestamp = timestamp;
      payload = payload;
      sign = sign;
    })

-- Transaction::operator==, which leaves the signature out.
unfoldable pub tx_eq : Transaction → Transaction → Bool
tx_eq a b =
    (a.amount == b.amount)
    && (bytes_eq a.from b.from
        && (bytes_eq a.to b.to
            && ((a.timestamp == b.timestamp)
                && ((a.fee == b.fee) && bytes_eq a.payload b.payload))))

-- Transaction::hashOfTransaction
unfoldable pub hash_of_transaction : External → Transaction → Bytes
hash_of_transaction ext tx = ext.sha256 (
    base58_encode tx.from
    ++ (base58_encode tx.to
        ++ (ext.str tx.amount
            ++ (to_string tx.fee ++ (to_string tx.timestamp ++ ext.base64 tx.payload)))))

-- Transaction::sign
unfoldable pub sign_transaction : External → Bytes → Transaction → Outcome Transaction
unfolding Crypto.sign
sign_transaction ext key tx = Crypto.sign ext key (hash_of_transaction ext tx) >>= λ signature.
    ok (record tx { sign = signature })

-- Transaction::checkSign; of a signature that is not empty, the decoding throws CryptoErrors only.
unfoldable pub check_sign : External → Transaction → Bool
unfolding Crypto.decode_signature
check_sign ext tx =
    if is_empty tx.sign
    then false
    else elim (Crypto.decode_signature ext tx.sign (hash_of_transaction ext tx)) [
      | raise e ↦ false
      | ok pub_key ↦ bytes_eq tx.from (address_of_key ext pub_key)
    ]

-- lk::invalidTransaction
unfoldable pub invalid_transaction : Outcome Transaction
unfolding make_transaction null_address
invalid_transaction = make_transaction null_address null_address 0 1 0 [] (replicate 65 0)

-- TransactionStatus and its two enumerations.
pub data StatusCode : Type 0 where
  success pending bad_query_form bad_sign not_enough_balance revert failed : StatusCode

pub data ActionType : Type 0 where
  no_action transfer contract_call contract_creation : ActionType

pub record TransactionStatus : Type 0 where
  pub status : StatusCode
  pub action : ActionType
  pub message : Bytes
  pub fee_left : Fee

-- TransactionStatus::operator bool
abbrev pub is_success : TransactionStatus → Bool
is_success s = elim s.status [ StatusCode.success ↦ true | _ ↦ false ]
