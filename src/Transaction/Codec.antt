-- ===== src/Transaction/Codec.antt =====
-- Transaction::serialize and Transaction::deserialize of core/transaction.cpp, and their round trip.
use likelib_utonhack.Prelude.{◌+◌, ◌^◌, ◌<◌, ◌≡◌, ◌++◌, arith, nat_eq, bytes_equality}
use likelib_utonhack.Outcome.{ok}
use likelib_utonhack.Bytes.{Bytes}
use likelib_utonhack.External.{External, HasDecimal}
use likelib_utonhack.Archive.{
  Reader, lift, ◌>>=◌, deserialize_integral, serialize_integral, deserialize_bytes, serialize_bytes,
  deserialize_fixed, serialize_fixed, Reads, Reads-bind, Reads-lift, integral-Reads, bytes-Reads,
  fixed-Reads, from_bytes, from_bytes-Reads,
}
use likelib_utonhack.Time.{serialize_time, deserialize_time, time-Reads}
use likelib_utonhack.Address.{serialize_address, deserialize_address, address-Reads}
use likelib_utonhack.Transaction.{Transaction, Balance, IsTransaction, make_transaction}

-- global_serialize<BigInteger> and global_deserialize<BigInteger>: the decimal text.
unfoldable pub serialize_balance : External → Balance → Bytes
serialize_balance ext n = serialize_bytes (ext.str n)

unfoldable pub deserialize_balance : External → Reader Balance
deserialize_balance ext = do text ← deserialize_bytes; lift (ext.parse text)

-- Transaction::serialize
unfoldable pub serialize_transaction : External → Transaction → Bytes
serialize_transaction ext tx =
    serialize_address tx.from
    ++ (serialize_address tx.to
        ++ (serialize_balance ext tx.amount
            ++ (serialize_integral 8 tx.fee
                ++ (serialize_time tx.timestamp
                    ++ (serialize_bytes tx.payload ++ serialize_fixed tx.sign)))))

-- Transaction::deserialize
unfoldable pub deserialize_transaction : External → Reader Transaction
deserialize_transaction ext = do
  from ← deserialize_address
  to ← deserialize_address
  amount ← deserialize_balance ext
  fee ← deserialize_integral 8
  timestamp ← deserialize_time
  payload ← deserialize_bytes
  sign ← deserialize_fixed 65
  lift (make_transaction from to amount fee timestamp payload sign)

balance-Reads :
    (ext : External) (n : Balance)
    → HasDecimal ext
    → n < 2 ^ 256
    → Reads (deserialize_balance ext) n (serialize_balance ext n)
unfolding deserialize_balance serialize_balance
balance-Reads ext n dec fits =
    Reads-lift ext.parse
      (bytes-Reads (ext.str n) (omega (arith, dec.length-str n fits)) (dec.str-AreBytes n))
      (dec.parse-str n)

make_transaction_self :
    (tx : Transaction)
    → 0 < tx.amount + tx.fee
    → make_transaction tx.from tx.to tx.amount tx.fee tx.timestamp tx.payload tx.sign ≡ ok tx
unfolding make_transaction
make_transaction_self tx h = ground arith

pub transaction-Reads :
    (ext : External) (tx : Transaction)
    → HasDecimal ext
    → IsTransaction tx
    → Reads (deserialize_transaction ext) tx (serialize_transaction ext tx)
unfolding deserialize_transaction serialize_transaction
transaction-Reads ext tx dec v = Reads-bind _ (address-Reads tx.from v.from_fixed) (
    Reads-bind _ (address-Reads tx.to v.to_fixed) (
      Reads-bind _ (balance-Reads ext tx.amount dec v.amount_fits) (
        Reads-bind _ (integral-Reads 8 tx.fee v.fee_fits) (
          Reads-bind _ (time-Reads tx.timestamp v.timestamp_fits) (
            Reads-bind _ (bytes-Reads tx.payload v.payload_fits v.payload_bytes) (
              Reads-lift (make_transaction tx.from tx.to tx.amount tx.fee tx.timestamp tx.payload)
                (fixed-Reads 65 tx.sign v.sign_fixed) (make_transaction_self tx v.not_empty)))))))

-- Where numbers are read back from their texts, a transaction that is not empty and whose fields lie
-- in their types' ranges is read back from its bytes.
pub from_bytes-serialize_transaction :
    (ext : External) (tx : Transaction)
    → HasDecimal ext
    → IsTransaction tx
    → from_bytes (deserialize_transaction ext) (serialize_transaction ext tx) ≡ ok tx
from_bytes-serialize_transaction ext tx dec v =
    from_bytes-Reads _ tx _ (transaction-Reads ext tx dec v)
