-- ===== src/Transaction/Signature.antt =====
-- Whose signature passes the check of a transaction.
use likelib_utonhack.Prelude.{
  ℕ, ◌-◌, ◌%◌, ◌<◌, ◌≡◌, refl, sym, ap, ◌∙◌, ◌≢◌, ◌↔◌, ==_iff, subst, inl, inr, true, false, none,
  some, [], ◌∷◌, ◌++◌, arith, ◌==◌, Option-cases, length, length-append, get_elem?, take,
  take-append, nat_eq, bytes_eq, bytes_eq_iff, bytes_equality,
}
use likelib_utonhack.Outcome.{ok, raise, Error, Outcome-split}
use likelib_utonhack.Bytes.{Bytes, is_empty}
use likelib_utonhack.External.{External, HasSecp256k1}
use likelib_utonhack.Crypto.{write_public_key, append_id, to_public_key, decode_signature}
use likelib_utonhack.Crypto
use likelib_utonhack.Address.{address_of_key}
use likelib_utonhack.Transaction.{Transaction, hash_of_transaction, sign_transaction, check_sign}
use likelib_utonhack.Transaction.Identity.{hash-sign}

ok_injective : {a b : Bytes} → ok a ≡ ok b → a ≡ b
ok_injective h = cc

same_transaction : {a b : Transaction} → ok a ≡ ok b → a ≡ b
same_transaction h = cc

not_thrown : {a : Transaction} {e : Error} → ok a ≢ raise e
not_thrown h = cc

get_elem?-last : (bytes : Bytes) (id : ℕ) → get_elem? (bytes ++ id ∷ []) (length bytes) ≡ some id
get_elem?-last [] id = refl
get_elem?-last (b ∷ bytes) id = get_elem?-last bytes id

is_empty-append : (bytes : Bytes) (id : ℕ) → is_empty (bytes ++ id ∷ []) ≡ false
is_empty-append [] id = refl
is_empty-append (b ∷ bytes) id = refl

module _ (ext : External) where
  -- The compact signature and the id are found again in the 65 bytes.
  decode_signature-append :
      (bytes : Bytes) (id : ℕ) (parsed point message : Bytes)
      → length bytes ≡ 64
      → ext.parse_compact bytes id ≡ some parsed
      → ext.recover parsed (ext.sha256 message) ≡ some point
      → decode_signature ext (bytes ++ id ∷ []) message ≡ write_public_key ext point
  unfolding decode_signature
  decode_signature-append bytes id parsed point message size parses recovers =
      let place : length (bytes ++ id ∷ []) - 1 ≡ length bytes =
        omega (arith, length-append bytes (id ∷ [])) in
      let last = ap (get_elem? (bytes ++ id ∷ [])) place ∙ get_elem?-last bytes id in
      let front = ap (λ n. take n (bytes ++ id ∷ [])) (sym size) ∙ take-append bytes (id ∷ []) in
      rw (decode_signature, last, front, parses, recovers) refl

  sign-append :
      (key message signature bytes : Bytes) (id : ℕ)
      → ext.sign_recoverable (ext.sha256 message) key ≡ some signature
      → ext.serialize_compact signature ≡ (bytes, some id)
      → length bytes ≡ 64
      → id < 4
      → Crypto.sign ext key message ≡ ok (bytes ++ id ∷ [])
  unfolding Crypto.sign
  sign-append key message signature bytes id made compact size small =
      let byte : id % 256 ≡ id = omega arith in
      let whole : (length (bytes ++ id ∷ []) == 65) ≡ true =
        (==_iff _ 65).1 (omega (arith, length-append bytes (id ∷ []))) in
      rw (Crypto.sign, made, compact, byte, whole) refl

  sign-none :
      (key message signature : Bytes)
      → ext.sign_recoverable (ext.sha256 message) key ≡ none
      → Crypto.sign ext key message ≢ ok signature
  unfolding Crypto.sign
  sign-none key message signature none_made made =
      let thrown : Crypto.sign ext key message ≡ raise Error.crypto_error =
        rw (Crypto.sign, none_made) refl in
      let no : ok signature ≡ raise Error.crypto_error = sym made ∙ thrown in absurd cc

  module _ (law : HasSecp256k1 ext) where
    -- A signature that was made decodes to the public key of its key.
    decode_signature-sign :
        (key message signature : Bytes)
        → Crypto.sign ext key message ≡ ok signature
        → (is_empty signature ≡ false)
          × (decode_signature ext signature message ≡ to_public_key ext key)
    unfolding to_public_key
    decode_signature-sign key message signature made =
        elim (Option-cases (ext.sign_recoverable (ext.sha256 message) key)) [
          | inl no_signature ↦ absurd (sign-none key message signature no_signature made)
          | inr (inner, e) ↦
              (let (bytes, id, compact, size, small, parses) =
                  law.compact (ext.sha256 message) key inner e in
                let (point, created, recovers) = law.recovers (ext.sha256 message) key inner e in
                let value = sign-append key message inner bytes id e compact size small in
                let same : bytes ++ id ∷ [] ≡ signature = ok_injective (sym value ∙ made) in
                let decoded =
                  decode_signature-append bytes id inner point message size parses recovers in
                let public : to_public_key ext key ≡ write_public_key ext point =
                  rw (to_public_key, created) refl in
                subst
                  (λ s.
                    (is_empty s ≡ false) × (decode_signature ext s message ≡ to_public_key ext key))
                  same (is_empty-append bytes id, decoded ∙ sym public))
        ]

    to_public_key-sign :
        (key message signature : Bytes)
        → Crypto.sign ext key message ≡ ok signature
        → (public : Bytes) × (to_public_key ext key ≡ ok public)
    unfolding to_public_key
    to_public_key-sign key message signature made =
        elim (Option-cases (ext.sign_recoverable (ext.sha256 message) key)) [
          | inl no_signature ↦ absurd (sign-none key message signature no_signature made)
          | inr (inner, e) ↦
              (let (point, created, _) = law.recovers (ext.sha256 message) key inner e in
                let positive = law.written point in
                let some_size : ((ext.pubkey_serialize point).1 == 0) ≡ false = ground arith in
                ((ext.pubkey_serialize point).0, rw (to_public_key, created, some_size) refl))
        ]

  sign_transaction-sign :
      (key : Bytes) (tx signed : Transaction)
      → sign_transaction ext key tx ≡ ok signed
      → (signature : Bytes) × (Crypto.sign ext key (hash_of_transaction ext tx) ≡ ok signature)
        × (signed ≡ record tx { sign = signature })
  unfolding sign_transaction
  sign_transaction-sign key tx signed h =
      elim (Outcome-split (Crypto.sign ext key (hash_of_transaction ext tx))) [
        | inl (signature, e) ↦
            (let value : sign_transaction ext key tx ≡ ok (record tx { sign = signature }) =
                rw (sign_transaction, e) refl in
              (signature, e, same_transaction (sym h ∙ value)))
        | inr (error, e) ↦
            (let thrown : sign_transaction ext key tx ≡ raise error =
                rw (sign_transaction, e) refl in
              absurd (not_thrown (sym h ∙ thrown)))
      ]

  check_sign-decoded :
      (tx : Transaction) (public : Bytes)
      → is_empty tx.sign ≡ false
      → decode_signature ext tx.sign (hash_of_transaction ext tx) ≡ ok public
      → check_sign ext tx ≡ bytes_eq tx.from (address_of_key ext public)
  unfolding check_sign
  check_sign-decoded tx public some_bytes decoded = rw (check_sign, some_bytes, decoded) refl

  -- A transaction that is signed with a key differs from the unsigned one in the signature alone, and passes
  -- the check exactly when its sender is the address of the key's public key, which there is. Where
  -- libsecp256k1 does what its headers say.
  pub check_sign-sign_transaction :
      (key : Bytes) (tx signed : Transaction)
      → HasSecp256k1 ext
      → sign_transaction ext key tx ≡ ok signed
      → (public : Bytes) × (to_public_key ext key ≡ ok public)
        × (signed ≡ record tx { sign = signed.sign })
        × ((check_sign ext signed ≡ true) ↔ (tx.from ≡ address_of_key ext public))
  check_sign-sign_transaction key tx signed law h =
      let (signature, made, same) = sign_transaction-sign key tx signed h in
      let (public, known) =
        to_public_key-sign law key (hash_of_transaction ext tx) signature made in
      let (some_bytes, decoded) =
        decode_signature-sign law key (hash_of_transaction ext tx) signature made in
      let result =
        check_sign-decoded (record tx { sign = signature }) public some_bytes
          (ap (decode_signature ext signature) (hash-sign ext tx signature) ∙ decoded ∙ known) in
      let checked = ap (check_sign ext) same ∙ result in
      let iff = bytes_eq_iff tx.from (address_of_key ext public) in
      (
        public,
        known,
        same ∙ ap (λ s. record tx { sign = s }) (sym (ap (λ (t : Transaction). t.sign) same)),
        (λ passes. iff.0 (sym checked ∙ passes), λ owner. checked ∙ iff.1 owner),
      )
