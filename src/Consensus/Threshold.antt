-- ===== src/Consensus/Threshold.antt =====
-- The threshold as bytes: comparing a hash with the comparer compares the numbers that they spell.
use likelib_utonhack.Prelude.{
  ℕ, zero, suc, ◌+◌, ◌-◌, ◌*◌, ◌/◌, ◌%◌, ◌^◌, ◌≤◌, ◌<◌, ◌≡◌, refl, sym, ap, ◌∙◌, inl, inr, not, [],
  ◌∷◌, ◌++◌, append-nil, append_assoc, arith, ltb, leb, Bool-cases, length, replicate, nat_eq,
  bytes_equality,
}
use native.Mathlib.Nat.{pow-suc}
use likelib_utonhack.Bytes.{Bytes, AreBytes, IsFixed, lt_bytes, value_from, be_value, be_bytes}
use likelib_utonhack.Archive.{be_value-be_bytes, length-be_bytes, be_bytes-AreBytes}
use likelib_utonhack.Amount.{max_amount}
use likelib_utonhack.Block.{ImmutableBlock}
use likelib_utonhack.Consensus.{
  Consensus, Complexity, make_complexity, calc_comparer, comparer_loop, check_block,
}

value_from-lt :
    (a b : ℕ) (xs ys : Bytes)
    → length xs ≡ length ys
    → AreBytes xs
    → AreBytes ys
    → a < b
    → value_from a xs < value_from b ys
value_from-lt a b [] [] e hx hy h = h
value_from-lt a b [] (y ∷ ys) e hx hy h = absurd (omega arith)
value_from-lt a b (x ∷ xs) [] e hx hy h = absurd (omega arith)
value_from-lt a b (x ∷ xs) (y ∷ ys) e hx hy h =
    value_from-lt (a * 256 + x) (b * 256 + y) xs ys (omega arith) hx.1 hy.1 (omega arith)

-- Byte strings of one length are ordered as the big-endian numbers that they spell.
pub lt_bytes-value :
    (a : ℕ) (xs ys : Bytes)
    → length xs ≡ length ys
    → AreBytes xs
    → AreBytes ys
    → lt_bytes xs ys ≡ ltb (value_from a xs) (value_from a ys)
unfolding lt_bytes
lt_bytes-value a [] [] e hx hy = ground arith
lt_bytes-value a [] (y ∷ ys) e hx hy = absurd (omega arith)
lt_bytes-value a (x ∷ xs) [] e hx hy = absurd (omega arith)
lt_bytes-value a (x ∷ xs) (y ∷ ys) e hx hy =
    let e' : length xs ≡ length ys = omega arith in
    ground (
      arith,
      value_from-lt (a * 256 + x) (a * 256 + y) xs ys e' hx.1 hy.1,
      value_from-lt (a * 256 + y) (a * 256 + x) ys xs (sym e') hy.1 hx.1,
      lt_bytes-value (a * 256 + x) xs ys e' hx.1 hy.1,
    )

replicate-shift : (n a : ℕ) (w : Bytes) → replicate n a ++ a ∷ w ≡ a ∷ (replicate n a ++ w)
replicate-shift zero a w = refl
replicate-shift (suc n) a w = ap (λ r. a ∷ r) (replicate-shift n a w)

be_bytes_zero : (n : ℕ) (w : Bytes) → be_bytes n 0 ++ w ≡ replicate n 0 ++ w
be_bytes_zero zero w = refl
be_bytes_zero (suc n) w =
    append_assoc (be_bytes n 0) (0 ∷ []) w ∙ be_bytes_zero n (0 ∷ w) ∙ replicate-shift n 0 w

small_quotient : (w d : ℕ) → d < 256 ^ suc w → d / 256 < 256 ^ w
small_quotient w d h = omega (arith, pow-suc 256 w)

-- The loop and its padding are the 32 big-endian bytes of the number.
comparer_loop-be_bytes :
    (rounds d : ℕ) (written : Bytes)
    → d < 256 ^ rounds
    → (pad : ℕ) × (be_bytes rounds d ++ written ≡ replicate pad 0 ++ comparer_loop rounds d written)
      × (pad + length (comparer_loop rounds d written) ≡ rounds + length written)
unfolding comparer_loop
comparer_loop-be_bytes zero d written h = (0, refl, omega arith)
comparer_loop-be_bytes (suc rounds) d written h =
    let (pad, same, size) =
      comparer_loop-be_bytes rounds (d / 256) ((d % 256) ∷ written) (small_quotient rounds d h) in
    elim (Bool-cases (ltb 0 d)) [
      | inl more ↦ (
        pad,
        rw more (append_assoc (be_bytes rounds (d / 256)) ((d % 256) ∷ []) written ∙ same),
        rw more (omega (arith, size)),
      )
      | inr done ↦
          (let none_left : d ≡ 0 = ground arith in
            (suc rounds, rw done (rw none_left (be_bytes_zero (suc rounds) written)), rw done refl))
    ]

pub calc_comparer-be_bytes :
    (densed : ℕ) → densed ≤ max_amount → calc_comparer densed ≡ be_bytes 32 densed
unfolding calc_comparer
calc_comparer-be_bytes densed h =
    let (pad, same, size) = comparer_loop-be_bytes 32 densed [] (omega arith) in
    let padding : 32 - length (comparer_loop 32 densed []) ≡ pad = omega (arith, size) in
    rw padding (sym same ∙ append-nil (be_bytes 32 densed))

-- The invariant of Complexity: a Uint256 and its bytes.
pub record IsComplexity (c : Complexity) : Type 0 where
  pub fits : c.densed ≤ max_amount
  pub same : c.comparer ≡ calc_comparer c.densed

pub make_complexity-IsComplexity :
    (densed : ℕ) → densed ≤ max_amount → IsComplexity (make_complexity densed)
unfolding make_complexity
make_complexity-IsComplexity densed h = record { fits = h; same = refl }

not-ltb : (a b : ℕ) → not (ltb a b) ≡ leb b a
not-ltb a b = ground arith

-- With a well-formed complexity, a block with a hash of 32 bytes passes the check exactly when its
-- hash, read as a big-endian number, is at most the complexity's.
pub check_block-le :
    (c : Consensus) (block : ImmutableBlock)
    → IsComplexity c.complexity
    → IsFixed 32 block.this_block_hash
    → check_block c block ≡ leb (be_value block.this_block_hash) c.complexity.densed
unfolding check_block
check_block-le c block v fixed =
    let threshold : c.complexity.comparer ≡ be_bytes 32 c.complexity.densed =
      v.same ∙ calc_comparer-be_bytes c.complexity.densed v.fits in
    rw
      (
        threshold,
        lt_bytes-value 0 (be_bytes 32 c.complexity.densed) block.this_block_hash
            (length-be_bytes 32 c.complexity.densed ∙ sym fixed.0)
            (be_bytes-AreBytes 32 c.complexity.densed) fixed.1,
        be_value-be_bytes 32 c.complexity.densed (omega (arith, v.fits)),
      )
      (not-ltb c.complexity.densed (be_value block.this_block_hash))
