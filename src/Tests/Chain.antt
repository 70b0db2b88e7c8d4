-- ===== src/Tests/Chain.antt =====
-- The theorems on the chain and its consensus, at concrete inputs.
use likelib_utonhack.Prelude.{
  ℕ, ◌+◌, ◌*◌, ◌≤◌, ◌<◌, ◌≡◌, refl, ◌∙◌, ◌≢◌, true, none, some, [], ◌∷◌, arith, leb, le→leb,
  replicate, All, nat_eq, bytes_eq, bytes_equality,
}
use likelib_utonhack.Outcome.{ok}
use likelib_utonhack.Bytes.{be_value}
use likelib_utonhack.Map.{find}
use likelib_utonhack.Amount.{max_amount}
use likelib_utonhack.Block.{ImmutableBlock}
use likelib_utonhack.Consensus.{
  Consensus, initial, check_block, apply_block, recalculate, make_complexity,
}
use likelib_utonhack.Consensus.Threshold.{
  IsComplexity, make_complexity-IsComplexity, check_block-le,
}
use likelib_utonhack.Consensus.Bounds.{recalculate_bounds}
use likelib_utonhack.Consensus.Queue.{
  IsConsensus, IsNear, initial-IsConsensus, apply_block-IsConsensus,
}
use likelib_utonhack.Blockchain.{
  Blockchain, AdditionResult, added, try_add_block, make_blockchain, find_block,
  find_block_hash_by_depth,
}
use likelib_utonhack.Blockchain.Chain.{Holds, find_block-Holds}
use likelib_utonhack.Blockchain.Addition.{IsAcceptable, try_add_block-refused, try_add_block-added}
use likelib_utonhack.Tests.World.{whole, whole-IsDouble, genesis, first, chain, chain-Holds}

recalculate_bounds_example :
    (densed' : ℕ) × (recalculate whole 90 1000 ≡ ok densed')
    × (densed' ≤ max_amount)
    × (1000 ≤ 2 * densed' + 1)
    × (densed' ≤ 2 * 1000)
recalculate_bounds_example =
    recalculate_bounds whole whole-IsDouble 90 1000 (omega arith) (omega arith)

pub initial-IsComplexity : IsComplexity initial.complexity
unfolding initial
initial-IsComplexity = make_complexity-IsComplexity max_amount (omega arith)

check_block-le_example :
    check_block initial first ≡ leb (be_value first.this_block_hash) initial.complexity.densed
check_block-le_example = check_block-le initial first initial-IsComplexity (refl, omega arith)

initial_positive : 0 < initial.complexity.densed
unfolding initial make_complexity
initial_positive = omega arith

apply_block-IsConsensus_example :
    (c' : Consensus) × (apply_block whole first initial ≡ (ok tt, c'))
    × IsConsensus 1500 c'
    × IsNear initial c'
apply_block-IsConsensus_example =
    apply_block-IsConsensus whole whole-IsDouble 500 first (omega arith) initial
      (initial-IsConsensus 500) initial_positive

below_initial : be_value first.this_block_hash ≤ initial.complexity.densed
unfolding initial make_complexity
below_initial = omega arith

pub first_mined : check_block chain.consensus first ≡ true
unfolding make_blockchain
first_mined =
    check_block-le_example
    ∙ le→leb (be_value first.this_block_hash) initial.complexity.densed below_initial

pub unknown_hash : find first.this_block_hash chain.blocks ≡ none
unfolding find bytes_eq make_blockchain
unknown_hash = refl

same_parent : first.prev_block_hash ≡ genesis.this_block_hash
same_parent = refl

pub first-IsAcceptable : IsAcceptable 2000 first genesis chain
first-IsAcceptable = record {
  unknown = unknown_hash;
  next = record { linked = same_parent; deeper = refl; younger = omega arith };
  mined = first_mined;
  not_empty = omega arith;
  not_large = omega arith;
  not_future = omega arith;
}

pub chain_positive : 0 < chain.consensus.complexity.densed
unfolding make_blockchain
chain_positive = initial_positive

try_add_block-added_example :
    (bc' : Blockchain) × (try_add_block whole 2000 first chain ≡ (ok added, bc'))
    × Holds bc' first (genesis ∷ [])
    × IsNear chain.consensus bc'.consensus
try_add_block-added_example =
    try_add_block-added chain genesis [] chain-Holds 2000 first whole whole-IsDouble
      first-IsAcceptable chain_positive

-- A block with no transactions.
abbrev pub hollow : ImmutableBlock
hollow = record { fields = record (first.fields) { txs = [] }; this_block_hash = replicate 32 8 }

pub hollow_unfit : ¬ (IsAcceptable 2000 hollow genesis chain)
hollow_unfit h = absurd (omega (arith, h.not_empty))

try_add_block-refused_example :
    (reason : AdditionResult) × (reason ≢ added)
    × (try_add_block whole 2000 hollow chain ≡ (ok reason, chain))
try_add_block-refused_example =
    try_add_block-refused chain genesis [] chain-Holds 2000 hollow whole hollow_unfit

find_block-Holds_example :
    All
      (λ b.
        (find_block b.this_block_hash chain ≡ some b)
        × (find_block_hash_by_depth b.depth chain ≡ some b.this_block_hash))
      (genesis ∷ [])
find_block-Holds_example = find_block-Holds chain genesis [] chain-Holds
