-- ===== src/Core/Mining.antt =====
-- getMiningData: the block that is handed to the miner goes on top of the chain.
use likelib_utonhack.Prelude.{
  ℕ, ◌+◌, ◌%◌, ◌^◌, ◌≤◌, ◌<◌, ◌≡◌, refl, sym, inl, inr, List, arith, ltb, Bool-cases, length,
  nat_eq, bytes_equality,
}
use likelib_utonhack.Outcome.{ok}
use likelib_utonhack.Time.{Time}
use likelib_utonhack.TransactionsSet.{TransactionsSet}
use likelib_utonhack.TransactionsSet.Selection.{IsNthElement, select_best_by_fee-PayAtLeast}
use likelib_utonhack.Block.{ImmutableBlock, MutableBlock, make_block, compute_hash}
use likelib_utonhack.Blockchain.{get_top_block_and_complexity, max_transactions_in_block}
use likelib_utonhack.Blockchain.Chain.{Holds, IsNext}
use likelib_utonhack.Blockchain.Addition.{get_top_block-top}
use likelib_utonhack.Storage.{KeyValue}
use likelib_utonhack.Core.{Core, World, get_mining_data, select_pending}

module _ (kv : KeyValue) (world : World) where
  -- At most as many transactions are taken as a block may have, and all where they fit.
  select_pending-few :
      (pending : TransactionsSet)
      → IsNthElement world.nth_element
      → (txs : TransactionsSet) × (select_pending kv world pending ≡ ok txs)
        × (length txs ≤ max_transactions_in_block)
        × (length pending ≤ max_transactions_in_block → txs ≡ pending)
  unfolding select_pending
  select_pending-few pending law =
      elim (Bool-cases (ltb max_transactions_in_block (length pending))) [
        | inl many ↦
            (let (best, dropped, e, _, size, _) =
                select_best_by_fee-PayAtLeast world.nth_element max_transactions_in_block pending
                  law (ground arith) in
              (best, rw many e, omega (arith, size), λ h. absurd (ground arith)))
        | inr few ↦ (pending, rw few, ground arith, λ h. refl)
      ]

  -- On a node that holds a chain whose top has the hash that its bytes have, a depth below 2 ^ 64 - 1
  -- and a timestamp before the clock's, the block for the miner has this node's address, no more
  -- transactions than a block may have, and all that are pending if they fit; it is a block on top of
  -- the chain, whatever nonce the miner finds.
  pub get_mining_data-IsNext :
      (now : Time) (c : Core kv) (top : ImmutableBlock) (below : List ImmutableBlock)
      → IsNthElement world.nth_element
      → Holds c.blockchain.chain top below
      → top.this_block_hash ≡ compute_hash world.ext top
      → top.depth + 1 < 2 ^ 64
      → top.timestamp < now
      → (b : MutableBlock) × (get_mining_data kv world now c
          ≡ ok (b, c.blockchain.chain.consensus.complexity))
        × ((nonce : ℕ) → IsNext (make_block world.ext (record b { nonce = nonce })) top)
        × (length b.txs ≤ max_transactions_in_block)
        × (length c.pending_transactions ≤ max_transactions_in_block
            → b.txs ≡ c.pending_transactions)
        × (b.coinbase ≡ c.this_node_address)
  unfolding get_mining_data get_top_block_and_complexity make_block
  get_mining_data-IsNext now c top below law holds hashed deep later =
      let (txs, e, few, all) = select_pending-few c.pending_transactions law in
      let block : MutableBlock = record {
        depth = (top.depth + 1) % 2 ^ 64;
        nonce = 0;
        prev_block_hash = compute_hash world.ext top;
        timestamp = now;
        coinbase = c.this_node_address;
        txs = txs;
      } in
      (
        block,
        rw (get_mining_data, get_top_block-top c.blockchain.chain top below holds, e),
        λ nonce. record { linked = sym hashed; deeper = omega arith; younger = later },
        few,
        all,
        refl,
      )
