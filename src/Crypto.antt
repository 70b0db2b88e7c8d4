-- ===== src/Crypto.antt =====
-- Secp256PrivateKey of base/crypto.hpp and base/crypto.cpp over libsecp256k1: a signature has 65 bytes, the
-- last of which is the id for the recovery of the public key.
use likelib_utonhack.Prelude.{
  ℕ, ◌-◌, ◌%◌, Option, none, some, [], ◌∷◌, ◌++◌, ◌==◌, if◌then◌else◌, get_elem?, length, take,
  nat_eq, bytes_equality,
}
use likelib_utonhack.Outcome.{Outcome, ok, raise, Error}
use likelib_utonhack.Bytes.{Bytes}
use likelib_utonhack.External.{External}

module _ (ext : External) where
  -- The public key as bytes, where its size was written.
  abbrev pub write_public_key : Bytes → Outcome Bytes
  write_public_key point =
      if (ext.pubkey_serialize point).1 == 0
      then raise Error.crypto_error
      else ok (ext.pubkey_serialize point).0

  -- toPublicKey
  unfoldable pub to_public_key : Bytes → Outcome Bytes
  to_public_key key = elim (ext.pubkey_create key) [
    | none ↦ raise Error.crypto_error
    | some point ↦ write_public_key point
  ]

  -- The constructor of Signature, a FixedBytes of 65.
  abbrev pub fixed_signature : Bytes → Outcome Bytes
  fixed_signature bytes = if length bytes == 65 then ok bytes else raise Error.invalid_argument

  -- The id behind the compact signature; -1 is none.
  abbrev pub append_id : Bytes × Option ℕ → Outcome Bytes
  append_id (bytes, none) = raise Error.crypto_error
  append_id (bytes, some id) = fixed_signature (bytes ++ (id % 256) ∷ [])

  -- sign
  unfoldable pub sign : Bytes → Bytes → Outcome Bytes
  sign key bytes_to_sign = elim (ext.sign_recoverable (ext.sha256 bytes_to_sign) key) [
    | none ↦ raise Error.crypto_error
    | some signature ↦ append_id (ext.serialize_compact signature)
  ]

  -- decodeSignatureToPublicKey; parse_compact reads 64 bytes.
  unfoldable pub decode_signature : Bytes → Bytes → Outcome Bytes
  decode_signature signature bytes_to_check = elim (get_elem? signature (length signature - 1)) [
    | none ↦ raise Error.undefined
    | some id ↦ elim (ext.parse_compact (take 64 signature) id) [
      | none ↦ raise Error.crypto_error
      | some parsed ↦ elim (ext.recover parsed (ext.sha256 bytes_to_check)) [
        | none ↦ raise Error.crypto_error
        | some point ↦ write_public_key point
      ]
    ]
  ]
