-- ===== src/Consensus/Queue.antt =====
-- The queue of the last blocks through applyBlock, and that applyBlock throws nothing on a chain
-- whose timestamps grow.
use likelib_utonhack.Prelude.{
  ℕ, ◌+◌, ◌-◌, ◌*◌, ◌%◌, ◌≤◌, ◌<◌, ◌≡◌, refl, inl, inr, Bool, false, not, ◌&&◌, List, [], ◌∷◌,
  arith, ltb, ◌==◌, if◌then◌else◌, Bool-cases, length, All, nat_eq, bytes_equality,
}
use likelib_utonhack.Outcome.{Outcome, ok}
use likelib_utonhack.Amount.{max_amount}
use likelib_utonhack.Time.{sub_time}
use likelib_utonhack.Block.{ImmutableBlock}
use likelib_utonhack.Consensus.{
  Double, Consensus, Complexity, make_complexity, recalculate_from, store_complexity, apply_block,
  initial,
}
use likelib_utonhack.Consensus.Threshold.{IsComplexity, make_complexity-IsComplexity}
use likelib_utonhack.Consensus.Bounds.{IsDouble, recalculate_bounds}

-- The invariant of Consensus over a chain whose top block has timestamp `t`: at most two blocks
-- wait in the queue, none of them younger than the top, and the complexity is well formed.
pub record IsConsensus (t : ℕ) (c : Consensus) : Type 0 where
  pub waiting : length c.last_blocks ≤ 2
  pub older : All (λ (b : ImmutableBlock). b.timestamp ≤ t) c.last_blocks
  pub threshold : IsComplexity c.complexity

pub initial-IsConsensus : (t : ℕ) → IsConsensus t initial
unfolding initial
initial-IsConsensus t = record {
  waiting = omega arith;
  older = tt;
  threshold = make_complexity-IsComplexity max_amount (omega arith);
}

-- The new complexity is within a factor of 2 of the old one, or is the old one.
pub record IsNear (old new : Consensus) : Type 0 where
  pub half : old.complexity.densed ≤ 2 * new.complexity.densed + 1
  pub double : new.complexity.densed ≤ 2 * old.complexity.densed

module _ (double : Double) (law : IsDouble double) (t : ℕ) (block : ImmutableBlock)
    (later : t < block.timestamp) where
  recalculate_from_ok :
      (p : ImmutableBlock) (blocks : List ImmutableBlock) (densed : ℕ)
      → p.timestamp ≤ t
      → 0 < densed
      → densed ≤ max_amount
      → (densed' : ℕ) × (recalculate_from double (p ∷ blocks) block densed ≡ ok densed')
        × (densed' ≤ max_amount)
        × (densed ≤ 2 * densed' + 1)
        × (densed' ≤ 2 * densed)
  unfolding recalculate_from sub_time
  recalculate_from_ok p blocks densed old pos fits =
      let in_order : ltb block.timestamp p.timestamp ≡ false = ground arith in
      let some_time : ((block.timestamp - p.timestamp) == 0) ≡ false = ground arith in
      rw (in_order, some_time)
        (recalculate_bounds double law (block.timestamp - p.timestamp) densed pos fits)

  abbrev skips : Bool
  skips = not (block.depth == 0) && not ((block.depth - 1) % 2 == 0)

  abbrev Applied : Consensus → Outcome (Unit {0}) × Consensus → Type 0
  Applied c r = (c' : Consensus) × (r ≡ (ok tt, c')) × IsConsensus block.timestamp c' × IsNear c c'

  -- What follows the push, with the block before this one at the front of the queue.
  settled :
      (p : ImmutableBlock) (c : Consensus)
      → p.timestamp ≤ t
      → IsComplexity c.complexity
      → 0 < c.complexity.densed
      → Applied c (
          if skips
          then (ok tt, record c { last_blocks = p ∷ block ∷ [] })
          else store_complexity double
              (recalculate_from double (p ∷ block ∷ []) block c.complexity.densed)
              (record c { last_blocks = p ∷ block ∷ [] }))
  unfolding store_complexity make_complexity
  settled p c old v pos = elim (Bool-cases skips) [
    | inl skip ↦ (
      record c { last_blocks = p ∷ block ∷ [] },
      rw skip,
      record { waiting = omega arith; older = (omega arith, (omega arith, tt)); threshold = v },
      record { half = omega arith; double = omega arith },
    )
    | inr on ↦
        (let (densed, e, fits, half, twice) =
            recalculate_from_ok p (block ∷ []) c.complexity.densed old pos v.fits in
          (
            record { last_blocks = p ∷ block ∷ []; complexity = make_complexity densed },
            rw on (rw e),
            record {
              waiting = omega arith;
              older = (omega arith, (omega arith, tt));
              threshold = make_complexity-IsComplexity densed fits;
            },
            record { half = half; double = twice },
          ))
  ]

  apply_to :
      (blocks : List ImmutableBlock) (k : Complexity)
      → IsConsensus t (record { last_blocks = blocks; complexity = k })
      → 0 < k.densed
      → Applied
          (record { last_blocks = blocks; complexity = k })
          (apply_block double block (record { last_blocks = blocks; complexity = k }))
  unfolding apply_block
  apply_to [] k v pos = (
    record { last_blocks = block ∷ []; complexity = k },
    refl,
    record { waiting = omega arith; older = (omega arith, tt); threshold = v.threshold },
    record { half = omega arith; double = omega arith },
  )
  apply_to (p ∷ []) k v pos =
      settled p (record { last_blocks = p ∷ []; complexity = k }) v.older.0 v.threshold pos
  apply_to (p ∷ q ∷ []) k v pos =
      settled q (record { last_blocks = p ∷ q ∷ []; complexity = k }) v.older.1.0 v.threshold pos
  apply_to (p ∷ q ∷ r ∷ blocks) k v pos = absurd (omega (arith, v.waiting))

  -- Under the invariant and with a complexity that is not 0, a block younger than the top of the
  -- chain is applied without an exception; the invariant holds on, and the complexity moves by a
  -- factor of 2 at most.
  pub apply_block-IsConsensus :
      (c : Consensus)
      → IsConsensus t c
      → 0 < c.complexity.densed
      → (c' : Consensus) × (apply_block double block c ≡ (ok tt, c'))
        × IsConsensus block.timestamp c'
        × IsNear c c'
  apply_block-IsConsensus c v pos = apply_to c.last_blocks c.complexity v pos
