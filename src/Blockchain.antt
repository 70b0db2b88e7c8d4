-- ===== src/Blockchain.antt =====
-- Blockchain of core/blockchain.hpp and core/blockchain.cpp: the blocks by hash and by depth, the
-- top of the chain and the consensus. The mutex of the class makes each method one step.
pub mod Chain
pub mod Addition
use likelib_utonhack.Prelude.{
  ℕ, zero, suc, ◌+◌, ◌-◌, ◌*◌, ◌/◌, ◌%◌, ◌^◌, ◌≤◌, ◌<◌, min, max, ◌≡◌, refl, sym, ap, subst, ◌∙◌,
  ◌≡⟨◌⟩◌, ◌∎, ◌≢◌, ◌↔◌, ◌⊎◌, inl, inr, Bool, true, false, not, ◌&&◌, ◌||◌, Option, none, some, List,
  [], ◌∷◌, ◌++◌, map, append-nil, append_assoc, arith, ltb, leb, ◌==◌, if◌then◌else◌, lt→ltb,
  le→leb, ==_iff, Bool-cases, Option-cases, length, get_elem?, take, drop, replicate, length-append,
  length-take, length-replicate, drop-append, take-append, All, All-append, Eq, nat_eq, bytes_eq,
  bytes_eq_iff, bytes_equality, beq_refl,
}
use likelib_utonhack.Outcome.{Outcome, ok, raise, Error}
use likelib_utonhack.Exec.{Exec}
use likelib_utonhack.Bytes.{Bytes}
use likelib_utonhack.Map.{Map, find, insert}
use likelib_utonhack.External.{External}
use likelib_utonhack.Time.{Time, ge_time}
use likelib_utonhack.Transaction.{Transaction}
use likelib_utonhack.TransactionsSet.{find_hash}
use likelib_utonhack.Block.{ImmutableBlock}
use likelib_utonhack.Consensus.{Double, Consensus, Complexity, initial, check_block, apply_block}

-- base::config::BC_MAX_TRANSACTIONS_IN_BLOCK, SECONDS_IN_DAY
abbrev pub max_transactions_in_block : ℕ
max_transactions_in_block = 100

abbrev pub seconds_in_day : ℕ
seconds_in_day = 24 * 60 * 60

pub data AdditionResult : Type 0 where
  added already_in_blockchain invalid_parent_hash invalid_depth : AdditionResult
  old_timestamp future_timestamp : AdditionResult
  invalid_transactions_number invalid_transactions consensus_error : AdditionResult

pub record Blockchain : Type 0 where
  pub blocks : Map Bytes ImmutableBlock
  pub blocks_by_depth : Map ℕ Bytes
  pub genesis_block_hash : Bytes
  pub top_level_block_hash : Bytes
  pub consensus : Consensus

-- The constructor, which calls addGenesisBlock on the empty chain.
unfoldable pub make_blockchain : ImmutableBlock → Blockchain
make_blockchain genesis = record {
  blocks = (genesis.this_block_hash, genesis) ∷ [];
  blocks_by_depth = (0, genesis.this_block_hash) ∷ [];
  genesis_block_hash = genesis.this_block_hash;
  top_level_block_hash = genesis.this_block_hash;
  consensus = initial;
}

-- findBlock
unfoldable pub find_block : Bytes → Blockchain → Option ImmutableBlock
find_block hash bc = find hash bc.blocks

-- findBlockHashByDepth
unfoldable pub find_block_hash_by_depth : ℕ → Blockchain → Option Bytes
find_block_hash_by_depth depth bc = find depth bc.blocks_by_depth

-- getTopBlock
unfoldable pub get_top_block : Blockchain → Outcome ImmutableBlock
get_top_block bc = elim (find bc.top_level_block_hash bc.blocks) [
  | none ↦ raise Error.assertion
  | some block ↦ ok block
]

-- getTopBlockHash
abbrev pub get_top_block_hash : Blockchain → Bytes
get_top_block_hash bc = bc.top_level_block_hash

-- getGenesisBlock
unfoldable pub get_genesis_block : Blockchain → Outcome ImmutableBlock
get_genesis_block bc = elim (find bc.genesis_block_hash bc.blocks) [
  | none ↦ raise Error.assertion
  | some block ↦ ok block
]

-- getTopBlockAndComplexity
unfoldable pub get_top_block_and_complexity : Blockchain → Outcome (ImmutableBlock × Complexity)
get_top_block_and_complexity bc = elim (get_top_block bc) [
  | ok block ↦ ok (block, bc.consensus.complexity)
  | raise e ↦ raise e
]

-- findTransaction; the order of an unordered_map is not specified, this is one of them.
unfoldable pub find_transaction_in :
    External → Map Bytes ImmutableBlock → Bytes → Option Transaction
find_transaction_in ext [] hash = none
find_transaction_in ext ((h, block) ∷ blocks) hash = elim (find_hash ext block.txs hash) [
  | none ↦ find_transaction_in ext blocks hash
  | some tx ↦ some tx
]

unfoldable pub find_transaction : External → Bytes → Blockchain → Option Transaction
unfolding find_transaction_in
find_transaction ext hash bc = find_transaction_in ext bc.blocks hash

abbrev pub is_empty_map {ℓ} : {A : Type ℓ} → List A → Bool
is_empty_map [] = true
is_empty_map (x ∷ xs) = false

abbrev pub is_known : Bytes → Blockchain → Bool
is_known hash bc = elim (find hash bc.blocks) [ none ↦ false | some b ↦ true ]

-- The checks that read the top block: its age, and the clock, a uint_least32_t that wraps.
unfoldable pub check_times : Time → Time → Time → AdditionResult
unfolding ge_time
check_times now top timestamp =
    if ge_time top timestamp
    then AdditionResult.old_timestamp
    else if ltb ((now + seconds_in_day) % 2 ^ 32) timestamp
    then AdditionResult.future_timestamp
    else AdditionResult.added

-- The checks of tryAddBlock, in their order; `added` where all pass.
unfoldable pub check_addition : Time → ImmutableBlock → Blockchain → Outcome AdditionResult
check_addition now block bc =
    if not (is_empty_map bc.blocks) && is_known block.this_block_hash bc
    then ok AdditionResult.already_in_blockchain
    else if not (is_empty_map bc.blocks)
        && not (bytes_eq bc.top_level_block_hash block.prev_block_hash)
    then ok AdditionResult.invalid_parent_hash
    else if not (length bc.blocks == block.depth)
    then ok AdditionResult.invalid_depth
    else if not (check_block bc.consensus block)
    then ok AdditionResult.consensus_error
    else if not (bytes_eq bc.top_level_block_hash block.prev_block_hash)
    then ok AdditionResult.invalid_parent_hash
    else if (length block.txs == 0) || ltb max_transactions_in_block (length block.txs)
    then ok AdditionResult.invalid_transactions_number
    else elim (get_top_block bc) [
      | raise e ↦ raise e
      | ok top ↦ ok (check_times now top.timestamp block.timestamp)
    ]

-- The insertions at the end of tryAddBlock.
unfoldable pub insert_block : ImmutableBlock → Blockchain → Blockchain
insert_block block bc = record bc {
  blocks = insert block.this_block_hash block bc.blocks;
  blocks_by_depth = insert block.depth block.this_block_hash bc.blocks_by_depth;
  top_level_block_hash = block.this_block_hash;
}

-- The consensus takes the block before the maps do; where it throws, they stay as they were.
unfoldable pub finish_addition :
    ImmutableBlock
    → Blockchain
    → Outcome (Unit {0}) × Consensus
    → Outcome AdditionResult × Blockchain
unfolding insert_block
finish_addition block bc (ok _, consensus) =
    (ok AdditionResult.added, insert_block block (record bc { consensus = consensus }))
finish_addition block bc (raise e, consensus) = (raise e, record bc { consensus = consensus })

unfoldable pub apply_addition :
    Double → ImmutableBlock → Outcome AdditionResult → Exec Blockchain AdditionResult
unfolding finish_addition
apply_addition double block (ok AdditionResult.added) bc =
    finish_addition block bc (apply_block double block bc.consensus)
apply_addition double block (ok r) bc = (ok r, bc)
apply_addition double block (raise e) bc = (raise e, bc)

-- Blockchain::tryAddBlock, with the time of the call.
unfoldable pub try_add_block : Double → Time → ImmutableBlock → Exec Blockchain AdditionResult
unfolding check_addition apply_addition
try_add_block double now block bc = apply_addition double block (check_addition now block bc) bc
