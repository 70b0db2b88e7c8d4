-- ===== src/Blockchain/Chain.antt =====
-- The abstract view of a Blockchain: the list of its blocks, the top first, each linked to the next
-- by hash, depth and time; and what it means that the maps hold such a list.
use likelib_utonhack.Prelude.{
  ℕ, suc, ◌<◌, ◌≡◌, refl, sym, subst, ◌∙◌, none, some, List, [], ◌∷◌, ◌++◌, arith, length,
  length-append, All, nat_eq, bytes_equality, beq_refl,
}
use likelib_utonhack.Bytes.{Bytes}
use likelib_utonhack.Map.{Map, find, find-append_some, find-append_none}
use likelib_utonhack.Block.{ImmutableBlock}
use likelib_utonhack.Consensus.Queue.{IsConsensus, initial-IsConsensus}
use likelib_utonhack.Blockchain.{Blockchain, make_blockchain, find_block, find_block_hash_by_depth}

-- A block on top of another.
pub record IsNext (block top : ImmutableBlock) : Type 0 where
  pub linked : block.prev_block_hash ≡ top.this_block_hash
  pub deeper : block.depth ≡ suc top.depth
  pub younger : top.timestamp < block.timestamp

-- The blocks below `top`, down to a genesis block of depth 0.
abbrev pub IsChain : ImmutableBlock → List ImmutableBlock → Type 0
IsChain top [] = top.depth ≡ 0
IsChain top (b ∷ below) = IsNext top b × IsChain b below

-- The entries that the chain's blocks make in the maps, the genesis block's first.
abbrev pub by_hash : List ImmutableBlock → Map Bytes ImmutableBlock
by_hash [] = []
by_hash (b ∷ below) = by_hash below ++ (b.this_block_hash, b) ∷ []

abbrev pub by_depth : List ImmutableBlock → Map ℕ Bytes
by_depth [] = []
by_depth (b ∷ below) = by_depth below ++ (b.depth, b.this_block_hash) ∷ []

-- No two blocks of the chain have one hash.
abbrev pub HasDistinctHashes : ImmutableBlock → List ImmutableBlock → Type 0
HasDistinctHashes top [] = Unit {0}
HasDistinctHashes top (b ∷ below) =
    (find top.this_block_hash (by_hash (b ∷ below)) ≡ none) × HasDistinctHashes b below

-- The genesis block of a chain.
abbrev pub bottom : ImmutableBlock → List ImmutableBlock → ImmutableBlock
bottom top [] = top
bottom top (b ∷ below) = bottom b below

-- The object holds the chain with `top` above `below`.
pub record Holds (bc : Blockchain) (top : ImmutableBlock) (below : List ImmutableBlock)
    : Type 0 where
  pub chain : IsChain top below
  pub blocks : bc.blocks ≡ by_hash (top ∷ below)
  pub depths : bc.blocks_by_depth ≡ by_depth (top ∷ below)
  pub top_hash : bc.top_level_block_hash ≡ top.this_block_hash
  pub genesis_hash : bc.genesis_block_hash ≡ (bottom top below).this_block_hash
  pub distinct : HasDistinctHashes top below
  pub consensus : IsConsensus top.timestamp bc.consensus

-- A new Blockchain holds the chain of its genesis block alone.
pub make_blockchain-Holds :
    (genesis : ImmutableBlock) → genesis.depth ≡ 0 → Holds (make_blockchain genesis) genesis []
unfolding make_blockchain
make_blockchain-Holds genesis h = record {
  chain = h;
  blocks = refl;
  depths = ground arith;
  top_hash = refl;
  genesis_hash = refl;
  distinct = tt;
  consensus = initial-IsConsensus genesis.timestamp;
}

-- The chain's length is one more than the depth of its top.
pub length-by_hash :
    (top : ImmutableBlock) (below : List ImmutableBlock)
    → IsChain top below
    → length (by_hash (top ∷ below)) ≡ suc top.depth
length-by_hash top [] h = omega (arith, h)
length-by_hash top (b ∷ below) h = omega (
  arith,
  length-append (by_hash (b ∷ below)) ((top.this_block_hash, top) ∷ []),
  length-by_hash b below h.1,
  h.0.deeper,
)

-- No block lies at a depth above the top's.
pub find-by_depth_above :
    (top : ImmutableBlock) (below : List ImmutableBlock) (d : ℕ)
    → IsChain top below
    → top.depth < d
    → find d (by_depth (top ∷ below)) ≡ none
unfolding find
find-by_depth_above top [] d h above = ground arith
find-by_depth_above top (b ∷ below) d h above =
    let deeper = h.0.deeper in
    find-append_none d (by_depth (b ∷ below)) ((top.depth, top.this_block_hash) ∷ [])
      (find-by_depth_above b below d h.1 (omega arith))
    ∙ ground arith

-- The top is found by its hash.
pub find-by_hash_top :
    (top : ImmutableBlock) (below : List ImmutableBlock)
    → HasDistinctHashes top below
    → find top.this_block_hash (by_hash (top ∷ below)) ≡ some top
unfolding find
find-by_hash_top top [] h = rw (beq_refl top.this_block_hash)
find-by_hash_top top (b ∷ below) h =
    find-append_none top.this_block_hash (by_hash (b ∷ below)) ((top.this_block_hash, top) ∷ []) h.0
    ∙ rw (beq_refl top.this_block_hash)

-- A block of the chain is found by its hash, and its hash by its depth.
abbrev pub IsFound : Map Bytes ImmutableBlock → Map ℕ Bytes → ImmutableBlock → Type 0
IsFound blocks depths b =
    (find b.this_block_hash blocks ≡ some b) × (find b.depth depths ≡ some b.this_block_hash)

All-IsFound-append :
    (bs : List ImmutableBlock) (m n : Map Bytes ImmutableBlock) (k l : Map ℕ Bytes)
    → All (IsFound m k) bs
    → All (IsFound (m ++ n) (k ++ l)) bs
All-IsFound-append [] m n k l h = tt
All-IsFound-append (b ∷ bs) m n k l h = (
  (
    find-append_some b.this_block_hash b m n h.0.0,
    find-append_some b.depth b.this_block_hash k l h.0.1,
  ),
  All-IsFound-append bs m n k l h.1,
)

pub chain-IsFound :
    (top : ImmutableBlock) (below : List ImmutableBlock)
    → IsChain top below
    → HasDistinctHashes top below
    → All (IsFound (by_hash (top ∷ below)) (by_depth (top ∷ below))) (top ∷ below)
unfolding find
chain-IsFound top [] h d = ((rw (beq_refl top.this_block_hash), ground arith), tt)
chain-IsFound top (b ∷ below) h d =
    let deeper = h.0.deeper in
    (
      (
        find-by_hash_top top (b ∷ below) d,
        find-append_none top.depth (by_depth (b ∷ below)) ((top.depth, top.this_block_hash) ∷ [])
              (find-by_depth_above b below top.depth h.1 (omega arith))
            ∙ ground arith,
      ),
      All-IsFound-append (b ∷ below) (by_hash (b ∷ below)) _ (by_depth (b ∷ below)) _
          (chain-IsFound b below h.1 d.1),
    )

-- On an object that holds a chain, every block of the chain, the genesis block included, is found by
-- its hash, and its hash is found by its depth.
pub find_block-Holds :
    (bc : Blockchain) (top : ImmutableBlock) (below : List ImmutableBlock)
    → Holds bc top below
    → All
        (λ b.
          (find_block b.this_block_hash bc ≡ some b)
          × (find_block_hash_by_depth b.depth bc ≡ some b.this_block_hash))
        (top ∷ below)
unfolding find_block find_block_hash_by_depth
find_block-Holds bc top below holds =
    subst (λ m. All (IsFound m bc.blocks_by_depth) (top ∷ below)) (sym holds.blocks)
      (subst (λ d. All (IsFound (by_hash (top ∷ below)) d) (top ∷ below)) (sym holds.depths)
        (chain-IsFound top below holds.chain holds.distinct))
