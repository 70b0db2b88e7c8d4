-- ===== src/Transaction/Identity.antt =====
-- What identifies a transaction: its equality and its hash look at everything but the signature.
use likelib_utonhack.Prelude.{◌≡◌, refl, ◌↔◌, true, arith, nat_eq, bytes_eq_iff, bytes_equality}
use likelib_utonhack.Bytes.{Bytes}
use likelib_utonhack.Time.{Time}
use likelib_utonhack.External.{External}
use likelib_utonhack.Address.{Address}
use likelib_utonhack.Transaction.{Transaction, Balance, Fee, tx_eq, hash_of_transaction}

-- Everything but the signature.
abbrev pub Content : Type 0
Content = Balance × Address × Address × Time × Fee × Bytes

abbrev pub content : Transaction → Content
content tx = (tx.amount, tx.from, tx.to, tx.timestamp, tx.fee, tx.payload)

-- Two transactions are equal exactly when their amounts, addresses, timestamps, fees and payloads
-- are; the signatures do not matter.
pub tx_eq_iff : (a b : Transaction) → (tx_eq a b ≡ true) ↔ (content a ≡ content b)
unfolding tx_eq
tx_eq_iff a b = (
  ground
      (arith, bytes_eq_iff a.from b.from, bytes_eq_iff a.to b.to, bytes_eq_iff a.payload b.payload),
  ground
      (arith, bytes_eq_iff a.from b.from, bytes_eq_iff a.to b.to, bytes_eq_iff a.payload b.payload),
)

-- The signature does not enter the hash.
pub hash-sign :
    (ext : External) (tx : Transaction) (signature : Bytes)
    → hash_of_transaction ext (record tx { sign = signature }) ≡ hash_of_transaction ext tx
unfolding hash_of_transaction
hash-sign ext tx signature = refl

-- Equal transactions have equal hashes.
pub hash_of_content :
    (ext : External) (a b : Transaction)
    → tx_eq a b ≡ true
    → hash_of_transaction ext a ≡ hash_of_transaction ext b
unfolding hash_of_transaction
hash_of_content ext a b h = ground (arith, (tx_eq_iff a b).0)

pub tx_eq_refl : (a : Transaction) → tx_eq a a ≡ true
tx_eq_refl a = (tx_eq_iff a a).1 refl

pub tx_eq_sym : (a b : Transaction) → tx_eq a b ≡ tx_eq b a
tx_eq_sym a b = ground (arith, tx_eq_iff a b, tx_eq_iff b a)

pub tx_eq_left : (a b c : Transaction) → tx_eq a b ≡ true → tx_eq a c ≡ tx_eq b c
tx_eq_left a b c h = ground (arith, tx_eq_iff a b, tx_eq_iff a c, tx_eq_iff b c)
