-- ===== src/Archive/Integers.antt =====
-- Fixed-width big-endian integers: the bytes of a number in range read back as that number.
use likelib_utonhack.Prelude.{
  ℕ, zero, suc, ◌+◌, ◌*◌, ◌/◌, ◌%◌, ◌^◌, ◌<◌, ◌≡◌, refl, ◌∙◌, [], ◌∷◌, ◌++◌, arith, length,
  length-append, All-append, nat_eq, bytes_equality,
}
use native.Mathlib.Nat.{pow-suc, pow-zero}
use likelib_utonhack.Bytes.{Bytes, value_from, be_value, be_bytes, AreBytes}

pub value_from-append :
    (acc : ℕ) (xs ys : Bytes) → value_from acc (xs ++ ys) ≡ value_from (value_from acc xs) ys
value_from-append acc [] ys = refl
value_from-append acc (x ∷ xs) ys = value_from-append (acc * 256 + x) xs ys

pub length-be_bytes : (w v : ℕ) → length (be_bytes w v) ≡ w
length-be_bytes zero v = refl
length-be_bytes (suc w) v =
    omega
      (arith, length-append (be_bytes w (v / 256)) ((v % 256) ∷ []), length-be_bytes w (v / 256))

pub be_bytes-AreBytes : (w v : ℕ) → AreBytes (be_bytes w v)
be_bytes-AreBytes zero v = tt
be_bytes-AreBytes (suc w) v =
    All-append (λ b. b < 256) (be_bytes w (v / 256)) _ (be_bytes-AreBytes w (v / 256)) (omega arith)

pub be_value-be_bytes : (w v : ℕ) → v < 256 ^ w → be_value (be_bytes w v) ≡ v
be_value-be_bytes zero v h = omega (arith, pow-zero 256)
be_value-be_bytes (suc w) v h =
    value_from-append 0 (be_bytes w (v / 256)) ((v % 256) ∷ [])
    ∙ omega (arith, pow-suc 256 w, be_value-be_bytes w (v / 256))
