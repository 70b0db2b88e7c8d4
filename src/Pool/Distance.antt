-- ===== src/Pool/Distance.antt =====
-- calcDifference counts the leading bits that two addresses share.
use likelib_utonhack.Prelude.{
  ℕ, zero, suc, ◌+◌, ◌*◌, ◌/◌, ◌%◌, ◌<◌, ◌≡◌, refl, sym, ap, subst, ◌∙◌, ◌⊎◌, inl, inr, false, List,
  [], ◌∷◌, ◌++◌, arith, ◌==◌, if◌then◌else◌, ==_iff, Bool-cases, length, nat_eq, bytes_equality,
}
use likelib_utonhack.Outcome.{ok}
use likelib_utonhack.Bytes.{Bytes, AreBytes, IsFixed}
use likelib_utonhack.Pool.{bit_difference, byte_difference, calc_difference}

-- The bits of a byte, the highest first, and of a byte string.
abbrev pub byte_bits : ℕ → List ℕ
byte_bits x =
    x / 128 % 2
    ∷ x / 64 % 2
    ∷ x / 32 % 2
    ∷ x / 16 % 2
    ∷ x / 8 % 2
    ∷ x / 4 % 2
    ∷ x / 2 % 2
    ∷ x % 2
    ∷ []

abbrev pub bits : Bytes → List ℕ
bits [] = []
bits (x ∷ xs) = byte_bits x ++ bits xs

-- How many elements two lists share in front.
abbrev pub common_prefix : List ℕ → List ℕ → ℕ
common_prefix (x ∷ xs) (y ∷ ys) = let rest = suc (common_prefix xs ys) in if x == y then rest else 0
common_prefix _ _ = 0

-- The bits as the loop shifts them out.
abbrev shifted : ℕ → ℕ → List ℕ
shifted zero a = []
shifted (suc n) a = a / 128 % 2 ∷ shifted n (a * 2 % 256)

abbrev AreSame : ℕ → ℕ → ℕ → Type 0
AreSame zero a b = Unit {0}
AreSame (suc n) a b = (a / 128 % 2 ≡ b / 128 % 2) × AreSame n (a * 2 % 256) (b * 2 % 256)

bit_difference-shifted :
    (n i a b : ℕ) (r s : List ℕ)
    → (bit_difference n i a b ≡ ok (i + common_prefix (shifted n a ++ r) (shifted n b ++ s)))
      ⊎ AreSame n a b
unfolding bit_difference
bit_difference-shifted zero i a b r s = inr tt
bit_difference-shifted (suc n) i a b r s = elim (Bool-cases (a / 128 % 2 == b / 128 % 2)) [
  | inr e ↦ inl (rw e (ap ok (omega arith)))
  | inl e ↦ elim (bit_difference-shifted n (suc i) (a * 2 % 256) (b * 2 % 256) r s) [
    | inl h ↦ inl (rw e (h ∙ ap ok (omega arith)))
    | inr h ↦ inr ((==_iff _ _).0 e, h)
  ]
]

-- The bit in front of a byte that was shifted.
shifts :
    (x : ℕ)
    → x < 256
    → (x * 2 % 256 / 128 % 2 ≡ x / 64 % 2)
      × (x * 2 % 256 * 2 % 256 / 128 % 2 ≡ x / 32 % 2)
      × (x * 2 % 256 * 2 % 256 * 2 % 256 / 128 % 2 ≡ x / 16 % 2)
      × (x * 2 % 256 * 2 % 256 * 2 % 256 * 2 % 256 / 128 % 2 ≡ x / 8 % 2)
      × (x * 2 % 256 * 2 % 256 * 2 % 256 * 2 % 256 * 2 % 256 / 128 % 2 ≡ x / 4 % 2)
      × (x * 2 % 256 * 2 % 256 * 2 % 256 * 2 % 256 * 2 % 256 * 2 % 256 / 128 % 2 ≡ x / 2 % 2)
      × (x * 2 % 256 * 2 % 256 * 2 % 256 * 2 % 256 * 2 % 256 * 2 % 256 * 2 % 256 / 128 % 2 ≡ x % 2)
shifts x h = (
  omega (arith, h),
  omega (arith, h),
  omega (arith, h),
  omega (arith, h),
  omega (arith, h),
  omega (arith, h),
  omega (arith, h),
)

shifted-byte_bits : (x : ℕ) → x < 256 → shifted 8 x ≡ byte_bits x
shifted-byte_bits x h =
    let (e1, e2, e3, e4, e5, e6, e7) = shifts x h in rw (e1, e2, e3, e4, e5, e6, e7)

-- A byte is the sum of its bits.
byte_sum :
    (x : ℕ)
    → x < 256
    → x
      ≡ 128 * (x / 128 % 2)
        + 64 * (x / 64 % 2)
        + 32 * (x / 32 % 2)
        + 16 * (x / 16 % 2)
        + 8 * (x / 8 % 2)
        + 4 * (x / 4 % 2)
        + 2 * (x / 2 % 2)
        + x % 2
byte_sum x h = omega (arith, h)

AreSame-byte : (a b : ℕ) → a < 256 → b < 256 → AreSame 8 a b → a ≡ b
AreSame-byte a b ha hb (s0, (s1, (s2, (s3, (s4, (s5, (s6, (s7, _)))))))) =
    let (a1, a2, a3, a4, a5, a6, a7) = shifts a ha in
    let (b1, b2, b3, b4, b5, b6, b7) = shifts b hb in
    let t1 = sym a1 ∙ s1 ∙ b1 in
    let t2 = sym a2 ∙ s2 ∙ b2 in
    let t3 = sym a3 ∙ s3 ∙ b3 in
    let t4 = sym a4 ∙ s4 ∙ b4 in
    let t5 = sym a5 ∙ s5 ∙ b5 in
    let t6 = sym a6 ∙ s6 ∙ b6 in
    let t7 = sym a7 ∙ s7 ∙ b7 in
    byte_sum a ha ∙ rw (s0, t1, t2, t3, t4, t5, t6, t7) (sym (byte_sum b hb))

zero_plus : (n : ℕ) → 0 + n ≡ n
zero_plus n = omega arith

bit_difference-byte_bits :
    (a b : ℕ) (r s : List ℕ)
    → a < 256
    → b < 256
    → (a == b) ≡ false
    → bit_difference 8 0 a b ≡ ok (common_prefix (byte_bits a ++ r) (byte_bits b ++ s))
bit_difference-byte_bits a b r s ha hb other = elim (bit_difference-shifted 8 0 a b r s) [
  | inl h ↦
      h
      ∙ ap ok (zero_plus _)
      ∙ ap ok (
          ap (λ l. common_prefix (l ++ r) (shifted 8 b ++ s)) (shifted-byte_bits a ha)
          ∙ ap (λ l. common_prefix (byte_bits a ++ r) (l ++ s)) (shifted-byte_bits b hb))
  | inr h ↦ (let same = AreSame-byte a b ha hb h in let equal = (==_iff a b).1 same in absurd cc)
]

common_prefix-same :
    (xs r s : List ℕ) → common_prefix (xs ++ r) (xs ++ s) ≡ length xs + common_prefix r s
common_prefix-same [] r s = omega arith
common_prefix-same (x ∷ xs) r s =
    rw ((==_iff x x).1 refl) (omega (arith, common_prefix-same xs r s))

byte_difference-bits :
    (i : ℕ) (xs ys : Bytes)
    → i + length xs ≡ 20
    → length ys ≡ length xs
    → AreBytes xs
    → AreBytes ys
    → byte_difference i xs ys ≡ ok (i * 8 + common_prefix (bits xs) (bits ys))
unfolding byte_difference
byte_difference-bits i [] [] place size hx hy = ap ok (omega (arith, place))
byte_difference-bits i [] (y ∷ ys) place size hx hy = absurd (omega (arith, size))
byte_difference-bits i (x ∷ xs) [] place size hx hy = absurd (omega (arith, size))
byte_difference-bits i (x ∷ xs) (y ∷ ys) place size hx hy = elim (Bool-cases (x == y)) [
  | inl e ↦
      (let same : x ≡ y = (==_iff x y).0 e in
        let rest =
          byte_difference-bits (suc i) xs ys (omega (arith, place)) (omega (arith, size)) hx.1
            hy.1 in
        let shared = common_prefix-same (byte_bits x) (bits xs) (bits ys) in
        rw e (
          rest
          ∙ ap ok (
              subst
                (λ z.
                  suc i * 8 + common_prefix (bits xs) (bits ys)
                  ≡ i * 8 + common_prefix (byte_bits x ++ bits xs) (byte_bits z ++ bits ys))
                same (omega (arith, shared)))))
  | inr e ↦ rw e (rw (bit_difference-byte_bits x y (bits xs) (bits ys) hx.0 hy.0 e) refl)
]

-- On two addresses of 20 bytes calcDifference throws nothing and counts the bits that they share in front,
-- up to 160 where they are the same.
pub calc_difference-common_prefix :
    (a b : Bytes)
    → IsFixed 20 a
    → IsFixed 20 b
    → calc_difference a b ≡ ok (common_prefix (bits a) (bits b))
unfolding calc_difference
calc_difference-common_prefix a b ha hb =
    byte_difference-bits 0 a b (omega (arith, ha.0)) (omega (arith, ha.0, hb.0)) ha.1 hb.1
    ∙ ap ok (omega arith)
