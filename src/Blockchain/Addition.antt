-- ===== src/Blockchain/Addition.antt =====
-- tryAddBlock over the abstract chain: which blocks it takes, and what it makes of the chain.
use likelib_utonhack.Prelude.{
  ℕ, suc, ◌+◌, ◌%◌, ◌^◌, ◌≤◌, ◌<◌, ◌≡◌, refl, sym, ap, ◌∙◌, ◌≢◌, true, false, none, some, List, [],
  ◌∷◌, ◌++◌, arith, length, nat_eq, bytes_eq, bytes_eq_iff, bytes_equality,
}
use likelib_utonhack.Outcome.{Outcome, ok, raise, Error}
use likelib_utonhack.Map.{find, insert, insert_absent}
use likelib_utonhack.Time.{Time}
use likelib_utonhack.Block.{ImmutableBlock}
use likelib_utonhack.Consensus.{Double, Consensus, check_block}
use likelib_utonhack.Consensus.Bounds.{IsDouble}
use likelib_utonhack.Consensus.Queue.{IsConsensus, IsNear, apply_block-IsConsensus}
use likelib_utonhack.Blockchain.{
  Blockchain, AdditionResult, added, max_transactions_in_block, seconds_in_day, get_top_block,
  is_empty_map, check_times, check_addition, insert_block, finish_addition, apply_addition,
  try_add_block,
}
use likelib_utonhack.Blockchain.Chain.{
  IsNext, Holds, length-by_hash, find-by_depth_above, find-by_hash_top,
}

-- What a block needs to be taken on top of the chain at the time `now`.
pub record IsAcceptable (now : Time) (block top : ImmutableBlock) (bc : Blockchain) : Type 0 where
  pub unknown : find block.this_block_hash bc.blocks ≡ none
  pub next : IsNext block top
  pub mined : check_block bc.consensus block ≡ true
  pub not_empty : 1 ≤ length block.txs
  pub not_large : length block.txs ≤ max_transactions_in_block
  pub not_future : block.timestamp ≤ (now + seconds_in_day) % 2 ^ 32

is_empty_map-length {ℓ} :
    {A : Type ℓ} (xs : List A) (n : ℕ) → length xs ≡ suc n → is_empty_map xs ≡ false
is_empty_map-length [] n h = absurd (omega arith)
is_empty_map-length (x ∷ xs) n h = refl

apply_addition_reason :
    (double : Double) (block : ImmutableBlock) (reason : AdditionResult) (bc : Blockchain)
    → reason ≢ added
    → apply_addition double block (ok reason) bc ≡ (ok reason, bc)
unfolding apply_addition
apply_addition_reason double block AdditionResult.added bc h = absurd (h refl)
apply_addition_reason double block _ bc h = refl

module _ (bc : Blockchain) (top : ImmutableBlock) (below : List ImmutableBlock)
    (holds : Holds bc top below) where
  size-blocks : length bc.blocks ≡ suc top.depth
  size-blocks = rw holds.blocks (length-by_hash top below holds.chain)

  pub get_top_block-top : get_top_block bc ≡ ok top
  unfolding get_top_block
  get_top_block-top =
      let here : find bc.top_level_block_hash bc.blocks ≡ some top =
        rw (holds.top_hash, holds.blocks) (find-by_hash_top top below holds.distinct) in
      rw (get_top_block, here)

  not_empty_blocks : is_empty_map bc.blocks ≡ false
  not_empty_blocks = is_empty_map-length bc.blocks top.depth size-blocks

  module _ (now : Time) (block : ImmutableBlock) where
    passed :
        check_addition now block bc ≡ ok added
        → (find block.this_block_hash bc.blocks ≡ none)
          × (bytes_eq bc.top_level_block_hash block.prev_block_hash ≡ true)
          × (length bc.blocks ≡ block.depth)
          × (check_block bc.consensus block ≡ true)
          × (1 ≤ length block.txs)
          × (length block.txs ≤ max_transactions_in_block)
          × (check_times now top.timestamp block.timestamp ≡ added)
    unfolding check_addition
    passed h = ground (arith, not_empty_blocks, get_top_block-top)

    times_passed :
        check_times now top.timestamp block.timestamp ≡ added
        → (top.timestamp < block.timestamp) × (block.timestamp ≤ (now + seconds_in_day) % 2 ^ 32)
    unfolding check_times
    times_passed h = ground arith

    pub check_addition→IsAcceptable :
        check_addition now block bc ≡ ok added → IsAcceptable now block top bc
    check_addition→IsAcceptable h =
        let (unknown, same, size, mined, some_txs, few, times) = passed h in
        let (younger, near) = times_passed times in
        record {
          unknown = unknown;
          next = record {
            linked = sym ((bytes_eq_iff _ _).0 same) ∙ holds.top_hash;
            deeper = omega (arith, size, size-blocks);
            younger = younger;
          };
          mined = mined;
          not_empty = some_txs;
          not_large = few;
          not_future = near;
        }

    in_time :
        top.timestamp < block.timestamp
        → block.timestamp ≤ (now + seconds_in_day) % 2 ^ 32
        → check_times now top.timestamp block.timestamp ≡ added
    unfolding check_times
    in_time h k = ground arith

    pub IsAcceptable→check_addition :
        IsAcceptable now block top bc → check_addition now block bc ≡ ok added
    unfolding check_addition
    IsAcceptable→check_addition a =
        let same : bytes_eq bc.top_level_block_hash block.prev_block_hash ≡ true =
          (bytes_eq_iff _ _).1 (holds.top_hash ∙ sym a.next.linked) in
        let size : length bc.blocks ≡ block.depth = omega (arith, size-blocks, a.next.deeper) in
        let times = in_time a.next.younger a.not_future in
        ground
          (arith, not_empty_blocks, get_top_block-top, a.unknown, a.mined, a.not_empty, a.not_large)

    check_addition_throws_nothing : (e : Error) → check_addition now block bc ≢ raise e
    unfolding check_addition
    check_addition_throws_nothing e h = ground (arith, get_top_block-top)

    rejected :
        (r : Outcome AdditionResult)
        → check_addition now block bc ≡ r
        → r ≢ ok added
        → (reason : AdditionResult) × (r ≡ ok reason) × (reason ≢ added)
    rejected (ok reason) h no_add = (reason, refl, λ e. no_add (ap ok e))
    rejected (raise e) h no_add = absurd (check_addition_throws_nothing e h)

    -- On an object that holds a chain, a block that is not acceptable is refused with a reason, and
    -- nothing changes.
    pub try_add_block-refused :
        (double : Double)
        → ¬ (IsAcceptable now block top bc)
        → (reason : AdditionResult) × (reason ≢ added)
          × (try_add_block double now block bc ≡ (ok reason, bc))
    unfolding try_add_block
    try_add_block-refused double unfit =
        let (reason, e, other) =
          rejected (check_addition now block bc) refl
            (λ h. unfit (check_addition→IsAcceptable h)) in
        (reason, other, rw e (apply_addition_reason double block reason bc other))

    insert_block-Holds :
        (c : Consensus)
        → IsAcceptable now block top bc
        → IsConsensus block.timestamp c
        → Holds (insert_block block (record bc { consensus = c })) block (top ∷ below)
    unfolding insert_block
    insert_block-Holds c a v = record {
      chain = (a.next, holds.chain);
      blocks =
          insert_absent block.this_block_hash block bc.blocks a.unknown
          ∙ ap (λ m. m ++ (block.this_block_hash, block) ∷ []) holds.blocks;
      depths =
          ap (insert block.depth block.this_block_hash) holds.depths
          ∙ insert_absent block.depth block.this_block_hash _ (
              find-by_depth_above top below block.depth holds.chain (omega (arith, a.next.deeper)));
      top_hash = refl;
      genesis_hash = holds.genesis_hash;
      distinct = (ap (find block.this_block_hash) (sym holds.blocks) ∙ a.unknown, holds.distinct);
      consensus = v;
    }

    -- On an object that holds a chain of positive complexity, an acceptable block is added: it becomes
    -- the top of the chain that was there, the invariant holds on, and the complexity moves by a
    -- factor of 2 at most.
    pub try_add_block-added :
        (double : Double)
        → IsDouble double
        → IsAcceptable now block top bc
        → 0 < bc.consensus.complexity.densed
        → (bc' : Blockchain) × (try_add_block double now block bc ≡ (ok added, bc'))
          × Holds bc' block (top ∷ below)
          × IsNear bc.consensus bc'.consensus
    unfolding try_add_block finish_addition
    try_add_block-added double law a pos =
        let (c, e, v, near) =
          apply_block-IsConsensus double law top.timestamp block a.next.younger bc.consensus
            holds.consensus pos in
        (
          insert_block block (record bc { consensus = c }),
          rw (IsAcceptable→check_addition a) (rw (apply_addition, e)),
          insert_block-Holds c a v,
          near,
        )
