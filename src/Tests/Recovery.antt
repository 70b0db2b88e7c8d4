-- ===== src/Tests/Recovery.antt =====
-- The theorem on a restart, at a database with one block.
use likelib_utonhack.Prelude.{
  length, ◌+◌, ◌%◌, ◌^◌, ◌≤◌, ◌≡◌, refl, sym, ap, ◌∙◌, true, none, [], ◌∷◌, arith, le→leb, nat_eq,
  bytes_eq, bytes_equality,
}
use likelib_utonhack.Outcome.{ok}
use likelib_utonhack.Map.{find}
use likelib_utonhack.Bytes.{be_value}
use likelib_utonhack.Block.{ImmutableBlock, make_block}
use likelib_utonhack.Consensus.{initial, check_block, make_complexity}
use likelib_utonhack.Consensus.Threshold.{check_block-le}
use likelib_utonhack.Blockchain.{added, make_blockchain}
use likelib_utonhack.Blockchain.Addition.{IsAcceptable, try_add_block-added}
use likelib_utonhack.Storage.{PersistentBlockchain, try_add_persistent, store_added}
use likelib_utonhack.Storage.Loading.{load}
use likelib_utonhack.Storage.Written.{IsBuilt, start, grow}
use likelib_utonhack.Storage.Recovery.{load-IsBuilt}
use likelib_utonhack.Tests.World.{
  libraries, libraries-HasDecimal, database, whole, whole-IsDouble, genesis, first, chain,
  chain-Holds,
}
use likelib_utonhack.Tests.Chain.{chain_positive, initial-IsComplexity}
use likelib_utonhack.Tests.Transactions.{first-IsBlock}

-- The first block with the hash that its constructor computes.
abbrev pub mined : ImmutableBlock
mined = make_block libraries first.fields

abbrev empty_node : PersistentBlockchain database
empty_node = record { chain = chain; database = [] }

mined_below : check_block chain.consensus mined ≡ true
unfolding make_blockchain make_block initial make_complexity
mined_below =
    check_block-le initial mined initial-IsComplexity (refl, omega arith)
    ∙ le→leb (be_value mined.this_block_hash) initial.complexity.densed (omega arith)

pub mined_new : find mined.this_block_hash chain.blocks ≡ none
unfolding find bytes_eq make_blockchain make_block
mined_new = refl

pub mined-IsAcceptable : IsAcceptable 2000 mined genesis chain
unfolding make_block
mined-IsAcceptable = record {
  unknown = mined_new;
  next = record { linked = refl; deeper = refl; younger = omega arith };
  mined = mined_below;
  not_empty = omega arith;
  not_large = omega arith;
  not_future = omega arith;
}

abbrev written_node : PersistentBlockchain database
written_node = (try_add_persistent database libraries whole 2000 mined empty_node).1

mined_written :
    try_add_persistent database libraries whole 2000 mined empty_node ≡ (ok added, written_node)
unfolding try_add_persistent store_added
mined_written =
    let (bc, e, _, _) =
      try_add_block-added chain genesis [] chain-Holds 2000 mined whole whole-IsDouble
        mined-IsAcceptable chain_positive in
    let h : try_add_persistent database libraries whole 2000 mined empty_node
        ≡ store_added database libraries mined [] (ok added) bc =
      ap (λ r. store_added database libraries mined [] r.0 r.1) e in
    h ∙ ap (λ p. (ok added, p)) (sym (ap (λ r. r.1) h))

mined_size : length (make_block libraries first.fields).this_block_hash ≡ 32
unfolding make_block
mined_size = refl

written-IsBuilt : IsBuilt database libraries whole genesis written_node mined (genesis ∷ [])
written-IsBuilt = grow start 2000 first.fields first-IsBlock mined_size chain_positive mined_written

mined_past : mined.timestamp ≤ (3000 + 86400) % 2 ^ 32
unfolding make_block
mined_past = omega arith

load-IsBuilt_example :
    load database libraries whole 3000 2
      (record { chain = make_blockchain genesis; database = written_node.database })
    ≡ (ok tt, written_node)
load-IsBuilt_example =
    load-IsBuilt database libraries whole whole-IsDouble genesis refl 3000 2 libraries-HasDecimal
      written-IsBuilt (mined_past, tt) (omega arith)
