-- ===== src/Archive/Defs.antt =====
-- The archive types, and the serialization of integers, byte strings and vectors
-- (base/serialization.tpp).
use likelib_utonhack.Prelude.{
  ℕ, zero, suc, ◌+◌, List, [], ◌∷◌, ◌++◌, leb, if◌then◌else◌, length, take, drop, nat_eq,
  bytes_equality,
}
use likelib_utonhack.Outcome.{Outcome, ok, raise, Error}
use likelib_utonhack.Bytes.{Bytes, be_value, be_bytes}

-- SerializationIArchive
pub record IArchive : Type 0 where
  pub bytes : Bytes
  pub index : ℕ

-- A deserialize function: it moves the index on, or throws.
abbrev pub Reader {ℓ} : Type ℓ → Type ℓ
Reader A = IArchive → Outcome (A × IArchive)

abbrev pub pure {ℓ} : {A : Type ℓ} → A → Reader A
pure a ia = ok (a, ia)

infixl 10 ◌>>=◌
abbrev pub ◌>>=◌ {ℓ κ} : {A : Type ℓ} {B : Type κ} → Reader A → (A → Reader B) → Reader B
◌>>=◌ d k ia = elim (d ia) [ ok (a, ia') ↦ k a ia' | raise e ↦ raise e ]

-- A result that may be an error, as a reader that reads nothing.
abbrev pub lift {ℓ} : {A : Type ℓ} → Outcome A → Reader A
lift (ok a) ia = ok (a, ia)
lift (raise e) ia = raise e

-- The integral case of global_deserialize<T>: sizeof(T) bytes, then nativeToBig.
unfoldable pub deserialize_integral : ℕ → Reader ℕ
deserialize_integral w ia =
    if leb (ia.index + w) (length ia.bytes)
    then ok (be_value (take w (drop ia.index ia.bytes)), record ia { index = ia.index + w })
    else raise Error.assertion

-- The integral case of global_serialize<T>: bigToNative, then sizeof(T) bytes.
unfoldable pub serialize_integral : ℕ → ℕ → Bytes
serialize_integral w v = be_bytes w v

-- The element loops of the sequence cases.
unfoldable pub deserialize_each {ℓ} : {A : Type ℓ} → ℕ → Reader A → Reader (List A)
deserialize_each zero d = pure []
deserialize_each (suc n) d = do x ← d; xs ← deserialize_each n d; pure (x ∷ xs)

unfoldable pub serialize_each {ℓ} : {A : Type ℓ} → (A → Bytes) → List A → Bytes
serialize_each s [] = []
serialize_each s (x ∷ xs) = s x ++ serialize_each s xs

-- std::vector<T>: a size_t and the elements.
unfoldable pub deserialize_vector {ℓ} : {A : Type ℓ} → Reader A → Reader (List A)
deserialize_vector d = do size ← deserialize_integral 8; deserialize_each size d

unfoldable pub serialize_vector {ℓ} : {A : Type ℓ} → (A → Bytes) → List A → Bytes
serialize_vector s xs = serialize_integral 8 (length xs) ++ serialize_each s xs

-- base::Bytes, and std::string through it.
unfoldable pub deserialize_bytes : Reader Bytes
deserialize_bytes = do size ← deserialize_integral 8; deserialize_each size (deserialize_integral 1)

unfoldable pub serialize_bytes : Bytes → Bytes
serialize_bytes bs = serialize_integral 8 (length bs) ++ serialize_each (serialize_integral 1) bs

-- base::FixedBytes<S>
unfoldable pub deserialize_fixed : ℕ → Reader Bytes
deserialize_fixed s = deserialize_each s (deserialize_integral 1)

unfoldable pub serialize_fixed : Bytes → Bytes
serialize_fixed bs = serialize_each (serialize_integral 1) bs

-- base::fromBytes
unfoldable pub from_bytes : {A : Type 0} → Reader A → Bytes → Outcome A
from_bytes d bs = elim (d (record { bytes = bs; index = 0 })) [
  | ok (a, ia) ↦ ok a
  | raise e ↦ raise e
]
