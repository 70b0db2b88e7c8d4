-- ===== src/Consensus.antt =====
-- core/consensus.hpp and core/consensus.cpp: the complexity of mining and its recalculation.
pub mod Threshold
pub mod Bounds
pub mod Queue
use likelib_utonhack.Prelude.{
  ℕ, zero, suc, ◌+◌, ◌-◌, ◌*◌, ◌/◌, ◌%◌, ◌^◌, ◌≤◌, ◌<◌, min, max, ◌≡◌, refl, sym, ap, subst, ◌∙◌,
  ◌≡⟨◌⟩◌, ◌∎, ◌≢◌, ◌↔◌, ◌⊎◌, inl, inr, Bool, true, false, not, ◌&&◌, ◌||◌, Option, none, some, List,
  [], ◌∷◌, ◌++◌, map, append-nil, append_assoc, arith, ltb, leb, ◌==◌, if◌then◌else◌, lt→ltb,
  le→leb, ==_iff, Bool-cases, Option-cases, length, get_elem?, take, drop, replicate, length-append,
  length-take, length-replicate, drop-append, take-append, All, All-append, Eq, nat_eq, bytes_eq,
  bytes_eq_iff, bytes_equality, beq_refl,
}
use likelib_utonhack.Outcome.{Outcome, ok, raise, Error, ◌>>=◌}
use likelib_utonhack.Exec.{Exec}
use likelib_utonhack.Bytes.{Bytes, le_bytes}
use likelib_utonhack.Amount.{max_amount}
use likelib_utonhack.Time.{Time, sub_time}
use likelib_utonhack.Block.{Fields, ImmutableBlock}

-- double, which the recalculation uses: integers as doubles, division, the order that std::max and
-- std::min test, and a double rounded and cast to std::size_t.
pub record Double : Type 1 where
  pub Carrier : Type 0
  pub of_ℕ : ℕ → Carrier
  pub divide : Carrier → Carrier → Carrier
  pub less : Carrier → Carrier → Bool
  pub round : Carrier → ℕ

-- base::config::BC_DIFFICULTY_RECALCULATION_RATE, BC_TARGET_BLOCKS_PER_MINUTE
abbrev pub recalculation_rate : ℕ
recalculation_rate = 2

abbrev pub target_blocks_per_minute : ℕ
target_blocks_per_minute = 1

-- TARGET
abbrev pub target : ℕ
target = recalculation_rate * 60 / target_blocks_per_minute

-- std::clamp
abbrev pub clamp : ℕ → ℕ → ℕ → ℕ
clamp v lo hi = if ltb v lo then lo else if ltb hi v then hi else v

-- Complexity: _densed; the comparer is computed from it, once, by the constructor.
pub record Complexity : Type 0 where
  pub densed : ℕ
  pub comparer : Bytes

-- The loop of Complexity::calcComparer: each round writes a byte in front of those written before.
unfoldable pub comparer_loop : ℕ → ℕ → Bytes → Bytes
comparer_loop zero d written = written
comparer_loop (suc rounds) d written =
    let rest = comparer_loop rounds (d / 256) ((d % 256) ∷ written) in
    if ltb 0 d then rest else written

-- Complexity::calcComparer: the bytes in front that the loop does not reach stay 0. A Uint256 has
-- no more than 32 digits to base 256.
unfoldable pub calc_comparer : ℕ → Bytes
unfolding comparer_loop
calc_comparer densed =
    let written = comparer_loop 32 densed [] in replicate (32 - length written) 0 ++ written

-- Complexity::Complexity
unfoldable pub make_complexity : ℕ → Complexity
unfolding calc_comparer
make_complexity densed = record { densed = densed; comparer = calc_comparer densed }

-- Complexity::minimal
unfoldable pub minimal : Complexity
unfolding make_complexity
minimal = make_complexity (2 ^ 252 + 2 ^ 251)

-- Consensus: the queue _last_blocks, the oldest first, and the complexity.
pub record Consensus : Type 0 where
  pub last_blocks : List ImmutableBlock
  pub complexity : Complexity

-- Consensus::Consensus
unfoldable pub initial : Consensus
unfolding make_complexity
initial = record { last_blocks = []; complexity = make_complexity max_amount }

-- Consensus::checkBlock
unfoldable pub check_block : Consensus → ImmutableBlock → Bool
unfolding le_bytes
check_block c block = le_bytes block.this_block_hash c.complexity.comparer

-- pop() where there are more blocks than the rate.
abbrev pub pop_oldest : List ImmutableBlock → List ImmutableBlock
pop_oldest blocks = if ltb recalculation_rate (length blocks) then drop 1 blocks else blocks

-- The new complexity from the time that has elapsed, which the assertion before it makes positive.
module _ (double : Double) where
  open double use {Carrier, of_ℕ, divide, less, round}

  abbrev pub std_max : Carrier → Carrier → Carrier
  std_max a b = if less a b then b else a

  abbrev pub std_min : Carrier → Carrier → Carrier
  std_min a b = if less b a then b else a

  -- The first branch: blocks came fast, and the complexity's threshold is divided.
  unfoldable pub harder : ℕ → Carrier → ℕ
  harder densed r =
      let r' = std_max r (divide (of_ℕ 1) (of_ℕ recalculation_rate)) in
      densed / clamp (round (divide (of_ℕ 1) r')) 1 recalculation_rate

  -- The second branch: the threshold is multiplied, within the range of a Uint256. A division by a
  -- threshold of 0 and a product out of range throw.
  unfoldable pub easier : ℕ → Carrier → Outcome ℕ
  easier densed r =
      let r' = std_min r (of_ℕ recalculation_rate) in
      let limit = min (max_amount / densed) recalculation_rate in
      let product = densed * clamp (round r') 0 limit in
      if densed == 0
      then raise Error.overflow_error
      else if ltb max_amount product
      then raise Error.overflow_error
      else ok product

  unfoldable pub recalculate : ℕ → ℕ → Outcome ℕ
  recalculate elapsed densed =
      let r = divide (of_ℕ elapsed) (of_ℕ target) in
      if less r (of_ℕ 1) then ok (harder densed r) else easier densed r

  -- The front of the queue is there once the queue has been pushed to.
  unfoldable pub recalculate_from : List ImmutableBlock → ImmutableBlock → ℕ → Outcome ℕ
  recalculate_from [] block densed = raise Error.assertion
  recalculate_from (p ∷ blocks) block densed = do
    elapsed ← sub_time block.timestamp p.timestamp
    (if elapsed == 0 then raise Error.assertion else recalculate elapsed densed)

  -- The end of applyBlock: the queue stays as it is also where the recalculation throws.
  unfoldable pub store_complexity : Outcome ℕ → Exec Consensus (Unit {0})
  store_complexity (ok densed) c = (ok tt, record c { complexity = make_complexity densed })
  store_complexity (raise e) c = (raise e, c)

  -- Consensus::applyBlock
  unfoldable pub apply_block : ImmutableBlock → Exec Consensus (Unit {0})
  apply_block block c =
      let pushed = c.last_blocks ++ block ∷ [] in
      let kept = pop_oldest pushed in
      if ltb (length pushed) recalculation_rate
      then (ok tt, record c { last_blocks = pushed })
      else if not (block.depth == 0) && not ((block.depth - 1) % recalculation_rate == 0)
      then (ok tt, record c { last_blocks = kept })
      else store_complexity (recalculate_from kept block c.complexity.densed)
          (record c { last_blocks = kept })
