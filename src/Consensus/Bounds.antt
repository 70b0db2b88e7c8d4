-- ===== src/Consensus/Bounds.antt =====
-- How far one recalculation moves the complexity, whatever the rounding of doubles does.
use likelib_utonhack.Prelude.{
  ℕ, zero, suc, ◌+◌, ◌*◌, ◌/◌, ◌^◌, ◌≤◌, ◌<◌, min, ◌≡◌, inl, inr, false, arith, ltb, ◌==◌,
  Bool-cases, nat_eq, bytes_equality,
}
use native.Mathlib.Nat.{le-div_iff_mul-le}
use likelib_utonhack.Outcome.{ok}
use likelib_utonhack.Amount.{max_amount}
use likelib_utonhack.Consensus.{
  Double, harder, easier, recalculate, std_max, std_min, clamp, target, recalculation_rate,
}

-- What IEEE doubles do with the small integers of the code: they are compared as integers, and what
-- is not below 1 rounds to 1 at least.
pub record IsDouble (double : Double) : Type 0 where
  pub less-of_ℕ :
      (a b : ℕ) → a < 2 ^ 53 → b < 2 ^ 53 → double.less (double.of_ℕ a) (double.of_ℕ b) ≡ ltb a b
  pub round_ge_one :
      (r : double.Carrier) → double.less r (double.of_ℕ 1) ≡ false → 1 ≤ double.round r

clamp_bounds : (v lo hi : ℕ) → lo ≤ hi → (lo ≤ clamp v lo hi) × (clamp v lo hi ≤ hi)
clamp_bounds v lo hi h = ground arith

one_or_two : (d m : ℕ) → 1 ≤ m → m ≤ 2 → (d / m ≤ d) × (d ≤ 2 * (d / m) + 1)
one_or_two d zero h k = absurd (omega arith)
one_or_two d (suc zero) h k = omega arith
one_or_two d (suc (suc zero)) h k = omega arith
one_or_two d (suc (suc (suc m))) h k = absurd (omega arith)

divided : (d v : ℕ) → (d / clamp v 1 2 ≤ d) × (d ≤ 2 * (d / clamp v 1 2) + 1)
divided d v =
    one_or_two d (clamp v 1 2) (clamp_bounds v 1 2 (omega arith)).0
      (clamp_bounds v 1 2 (omega arith)).1

harder_bounds :
    (double : Double) (densed : ℕ) (r : double.Carrier)
    → (harder double densed r ≤ densed) × (densed ≤ 2 * harder double densed r + 1)
unfolding harder
harder_bounds double densed r = divided densed (
    double.round (
      double.divide (double.of_ℕ 1)
        (std_max double r (double.divide (double.of_ℕ 1) (double.of_ℕ recalculation_rate)))))

double_fits : (d : ℕ) → 0 < d → 2 ≤ max_amount / d → d * 2 ≤ max_amount
double_fits d pos h = omega (arith, (le-div_iff_mul-le {k = d} {x = 2} {y = max_amount} pos).0 h)

product_bounds :
    (d m : ℕ)
    → 0 < d
    → d ≤ max_amount
    → 1 ≤ m
    → m ≤ max_amount / d
    → m ≤ 2
    → (d * m ≤ max_amount) × (d ≤ d * m) × (d * m ≤ 2 * d)
product_bounds d zero pos fits one room two = absurd (omega arith)
product_bounds d (suc zero) pos fits one room two = omega arith
product_bounds d (suc (suc zero)) pos fits one room two = omega (arith, double_fits d pos room)
product_bounds d (suc (suc (suc m))) pos fits one room two = absurd (omega arith)

not_above : (n : ℕ) → n ≤ max_amount → ltb max_amount n ≡ false
not_above n h = ground arith

module _ (double : Double) (law : IsDouble double) where
  less_two_one : double.less (double.of_ℕ 2) (double.of_ℕ 1) ≡ false
  less_two_one = law.less-of_ℕ 2 1 (omega arith) (omega arith)

  rounded :
      (r : double.Carrier)
      → double.less r (double.of_ℕ 1) ≡ false
      → 1 ≤ double.round (std_min double r (double.of_ℕ 2))
  rounded r slow =
      law.round_ge_one (std_min double r (double.of_ℕ 2))
        (elim (Bool-cases (double.less (double.of_ℕ 2) r)) [
          | inl e ↦ rw e less_two_one
          | inr e ↦ rw e slow
        ])

  multiplier_bounds :
      (v q : ℕ)
      → 1 ≤ v
      → 1 ≤ q
      → (1 ≤ clamp v 0 (min q 2)) × (clamp v 0 (min q 2) ≤ q) × (clamp v 0 (min q 2) ≤ 2)
  multiplier_bounds v q hv hq = ground arith

  easier_bounds :
      (densed : ℕ) (r : double.Carrier)
      → 0 < densed
      → densed ≤ max_amount
      → double.less r (double.of_ℕ 1) ≡ false
      → (densed' : ℕ) × (easier double densed r ≡ ok densed')
        × (densed' ≤ max_amount)
        × (densed ≤ densed')
        × (densed' ≤ 2 * densed)
  unfolding easier
  easier_bounds densed r pos fits slow =
      let one : 1 ≤ max_amount / densed =
        (le-div_iff_mul-le {k = densed} {x = 1} {y = max_amount} pos).1 (omega arith) in
      let v : ℕ = double.round (std_min double r (double.of_ℕ 2)) in
      let m : ℕ = clamp v 0 (min (max_amount / densed) 2) in
      let (low, high, two) = multiplier_bounds v (max_amount / densed) (rounded r slow) one in
      let (in_range, grows, doubles) = product_bounds densed m pos fits low high two in
      let nonzero : (densed == 0) ≡ false = ground arith in
      let no_overflow : ltb max_amount (densed * m) ≡ false = not_above (densed * m) in_range in
      (densed * m, rw (nonzero, no_overflow), in_range, grows, doubles)

  -- For a positive threshold in the range of a Uint256 the recalculation throws nothing, and moves
  -- the threshold by a factor of 2 at most: it is no less than half of what it was, rounded down, no
  -- more than twice that, and still a Uint256.
  pub recalculate_bounds :
      (elapsed densed : ℕ)
      → 0 < densed
      → densed ≤ max_amount
      → (densed' : ℕ) × (recalculate double elapsed densed ≡ ok densed')
        × (densed' ≤ max_amount)
        × (densed ≤ 2 * densed' + 1)
        × (densed' ≤ 2 * densed)
  unfolding recalculate
  recalculate_bounds elapsed densed pos fits =
      elim (Bool-cases
        (double.less (double.divide (double.of_ℕ elapsed) (double.of_ℕ target)) (double.of_ℕ 1))) [
          | inl fast ↦
              (let r = double.divide (double.of_ℕ elapsed) (double.of_ℕ target) in
                let (le, half) = harder_bounds double densed r in
                (harder double densed r, rw fast, omega arith, half, omega arith))
          | inr slow ↦
              (let r = double.divide (double.of_ℕ elapsed) (double.of_ℕ target) in
                let (d, e, a, b, c) = easier_bounds densed r pos fits slow in
                (d, rw slow e, a, omega arith, c))
        ]
