-- ===== src/External.antt =====
-- What the modelled code calls and this repository does not implement: OpenSSL's digests and
-- base64, libsecp256k1, and the decimal text of boost's integers.
use likelib_utonhack.Prelude.{ℕ, ◌^◌, ◌≤◌, ◌<◌, ◌≡◌, Option, some, length, nat_eq, bytes_equality}
use likelib_utonhack.Outcome.{Outcome, ok}
use likelib_utonhack.Bytes.{Bytes, AreBytes}

pub record External : Type 0 where
  -- SHA256 and RIPEMD160 of OpenSSL
  pub sha256 : Bytes → Bytes
  pub ripemd160 : Bytes → Bytes
  -- libsecp256k1, whose structs are opaque bytes, and whose functions answer none where they return 0:
  -- secp256k1_ecdsa_sign_recoverable of a hash and a key,
  -- secp256k1_ecdsa_recoverable_signature_serialize_compact, with none for an id that is not written,
  -- secp256k1_ecdsa_recoverable_signature_parse_compact, secp256k1_ecdsa_recover of a signature and a
  -- hash, secp256k1_ec_pubkey_create, and secp256k1_ec_pubkey_serialize with the size that it writes
  pub sign_recoverable : Bytes → Bytes → Option Bytes
  pub serialize_compact : Bytes → Bytes × Option ℕ
  pub parse_compact : Bytes → ℕ → Option Bytes
  pub recover : Bytes → Bytes → Option Bytes
  pub pubkey_create : Bytes → Option Bytes
  pub pubkey_serialize : Bytes → Bytes × ℕ
  -- number::str and the number that a text is read as
  pub str : ℕ → Bytes
  pub parse : Bytes → Outcome ℕ
  -- the base64 filter of OpenSSL
  pub base64 : Bytes → Bytes

-- Boost documents that a number is read back from its text, and the text is a short ASCII string.
pub record HasDecimal (ext : External) : Type 0 where
  pub parse-str : (n : ℕ) → ext.parse (ext.str n) ≡ ok n
  pub str-AreBytes : (n : ℕ) → AreBytes (ext.str n)
  pub length-str : (n : ℕ) → n < 2 ^ 256 → length (ext.str n) ≤ 78

-- What the headers of libsecp256k1 say: a signature has 64 bytes and an id from 0 to 3, is parsed from these,
-- and recovers, with the hash that was signed, to the public key of the secret key; a public key is
-- written with its size.
pub record HasSecp256k1 (ext : External) : Type 0 where
  pub compact :
      (hash key signature : Bytes)
      → ext.sign_recoverable hash key ≡ some signature
      → (bytes : Bytes) × (id : ℕ) × (ext.serialize_compact signature ≡ (bytes, some id))
        × (length bytes ≡ 64)
        × (id < 4)
        × (ext.parse_compact bytes id ≡ some signature)
  pub recovers :
      (hash key signature : Bytes)
      → ext.sign_recoverable hash key ≡ some signature
      → (point : Bytes) × (ext.pubkey_create key ≡ some point)
        × (ext.recover signature hash ≡ some point)
  pub written : (point : Bytes) → 0 < (ext.pubkey_serialize point).1
