-- ===== src/Core/Mined.antt =====
-- The round of a mined block: what getMiningData hands out comes back to the chain as a block that it
-- accepts.
use likelib_utonhack.Prelude.{
  ℕ, ◌+◌, ◌%◌, ◌^◌, ◌≤◌, ◌<◌, ◌≡◌, refl, sym, ap, ◌∙◌, inl, inr, true, false, none, List, [], ◌∷◌,
  arith, ltb, Bool-cases, length, nat_eq, bytes_equality,
}
use likelib_utonhack.Outcome.{Outcome, ok, raise}
use likelib_utonhack.Bytes.{Bytes, lt_bytes, le_bytes}
use likelib_utonhack.Map.{find}
use likelib_utonhack.Time.{Time}
use likelib_utonhack.TransactionsSet.{TransactionsSet}
use likelib_utonhack.TransactionsSet.Selection.{IsNthElement, select_best_by_fee-PayAtLeast}
use likelib_utonhack.Block.{ImmutableBlock, MutableBlock, make_block, compute_hash}
use likelib_utonhack.Consensus.{Complexity, Consensus, check_block}
use likelib_utonhack.Blockchain.{
  get_top_block_and_complexity, max_transactions_in_block, seconds_in_day,
}
use likelib_utonhack.Blockchain.Chain.{Holds}
use likelib_utonhack.Blockchain.Addition.{IsAcceptable, get_top_block-top}
use likelib_utonhack.Storage.{KeyValue}
use likelib_utonhack.Core.{Core, World, get_mining_data, select_pending, mining_fields}
use likelib_utonhack.Core.Mining.{get_mining_data-IsNext}

lt_bytes_asym : (a b : Bytes) → lt_bytes a b ≡ true → lt_bytes b a ≡ false
unfolding lt_bytes
lt_bytes_asym [] [] h = absurd cc
lt_bytes_asym [] (y ∷ ys) h = refl
lt_bytes_asym (x ∷ xs) [] h = absurd cc
lt_bytes_asym (x ∷ xs) (y ∷ ys) h = ground (arith, lt_bytes_asym xs ys)

-- The miner tests for a hash below the threshold, and checkBlock for one that is not above it.
pub check_block-lt_bytes :
    (k : Consensus) (block : ImmutableBlock)
    → lt_bytes block.this_block_hash k.complexity.comparer ≡ true
    → check_block k block ≡ true
unfolding check_block le_bytes
check_block-lt_bytes k block h =
    let below = lt_bytes_asym block.this_block_hash k.complexity.comparer h in
    rw (check_block, below)

module _ (kv : KeyValue) (world : World) where
  -- Some transactions are taken where some are pending.
  select_pending_some :
      (pending : TransactionsSet)
      → IsNthElement world.nth_element
      → 1 ≤ length pending
      → (txs : TransactionsSet) × (select_pending kv world pending ≡ ok txs) × (1 ≤ length txs)
  unfolding select_pending
  select_pending_some pending law some_there =
      elim (Bool-cases (ltb max_transactions_in_block (length pending))) [
        | inl many ↦
            (let (best, dropped, e, _, size, _) =
                select_best_by_fee-PayAtLeast world.nth_element max_transactions_in_block pending
                  law (ground arith) in
              (best, rw many e, omega (arith, size)))
        | inr few ↦ (pending, rw few, some_there)
      ]

  txs-get_mining_data :
      (now : Time) (c : Core kv) (top : ImmutableBlock) (below : List ImmutableBlock)
      (txs : TransactionsSet) (b : MutableBlock) (k : Complexity)
      → Holds c.blockchain.chain top below
      → select_pending kv world c.pending_transactions ≡ ok txs
      → get_mining_data kv world now c ≡ ok (b, k)
      → b.txs ≡ txs
  unfolding get_mining_data get_top_block_and_complexity mining_fields
  txs-get_mining_data now c top below txs b k holds e h =
      let computed : get_mining_data kv world now c
          ≡ ok (
            record {
              depth = (top.depth + 1) % 2 ^ 64;
              nonce = 0;
              prev_block_hash = compute_hash world.ext top;
              timestamp = now;
              coinbase = c.this_node_address;
              txs = txs;
            },
            c.blockchain.chain.consensus.complexity,
          ) =
        rw (get_mining_data, get_top_block-top c.blockchain.chain top below holds, e) in
      ap txs_of (sym h ∙ computed)
    where
      txs_of : Outcome (MutableBlock × Complexity) → TransactionsSet
      txs_of (ok (b, k)) = b.txs
      txs_of (raise e) = []

  -- On a node that holds a chain whose top has the hash that its bytes have, a depth below 2 ^ 64 - 1 and
  -- a timestamp before the clock's, and that has pending transactions, getMiningData gives a block
  -- such that for every nonce that brings its hash below the threshold and to a hash that no block of
  -- the chain has, the block with that nonce is acceptable, as long as the clock is not set back by more
  -- than a day.
  pub get_mining_data-IsAcceptable :
      (now : Time) (c : Core kv) (top : ImmutableBlock) (below : List ImmutableBlock)
      → IsNthElement world.nth_element
      → Holds c.blockchain.chain top below
      → top.this_block_hash ≡ compute_hash world.ext top
      → top.depth + 1 < 2 ^ 64
      → top.timestamp < now
      → 1 ≤ length c.pending_transactions
      → (b : MutableBlock) × (k : Complexity) × (get_mining_data kv world now c ≡ ok (b, k))
        × ((nonce : ℕ) (later : Time)
            → lt_bytes
                (make_block world.ext (record b { nonce = nonce })).this_block_hash
                k.comparer
              ≡ true
            → find
                (make_block world.ext (record b { nonce = nonce })).this_block_hash
                c.blockchain.chain.blocks
              ≡ none
            → b.timestamp ≤ (later + seconds_in_day) % 2 ^ 32
            → IsAcceptable later
                (make_block world.ext (record b { nonce = nonce }))
                top
                c.blockchain.chain)
  unfolding make_block
  get_mining_data-IsAcceptable now c top below law holds hashed deep after some_there =
      let (b, e, next, few, all, coinbase) =
        get_mining_data-IsNext kv world now c top below law holds hashed deep after in
      let (txs, selected, some_taken) = select_pending_some c.pending_transactions law some_there in
      let same =
        txs-get_mining_data now c top below txs b c.blockchain.chain.consensus.complexity holds
          selected e in
      (
        b,
        c.blockchain.chain.consensus.complexity,
        e,
        λ nonce later mined new past. record {
          unknown = new;
          next = next nonce;
          mined = check_block-lt_bytes c.blockchain.chain.consensus _ mined;
          not_empty = rw same some_taken;
          not_large = few;
          not_future = past;
        },
      )
