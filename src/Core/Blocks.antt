-- ===== src/Core/Blocks.antt =====
-- tryAddBlock and tryAddMinedBlock: the block's way through the checks, the chain and the accounts.
use likelib_utonhack.Prelude.{
  ◌<◌, ◌≡◌, refl, ◌∙◌, ◌≢◌, true, false, List, [], ◌∷◌, ◌++◌, nat_eq, bytes_equality,
}
use likelib_utonhack.Outcome.{Outcome, ok, raise, Error}
use likelib_utonhack.Exec.{◌>>=◌, lift, bind-ok, bind-raise}
use likelib_utonhack.Time.{Time}
use likelib_utonhack.TransactionsSet.{remove_all}
use likelib_utonhack.Block.{ImmutableBlock}
use likelib_utonhack.Consensus.Bounds.{IsDouble}
use likelib_utonhack.Consensus.Queue.{IsNear}
use likelib_utonhack.Blockchain.{Blockchain, AdditionResult, added}
use likelib_utonhack.Blockchain
use likelib_utonhack.Blockchain.Chain.{Holds}
use likelib_utonhack.Blockchain.Addition.{IsAcceptable, try_add_block-refused, try_add_block-added}
use likelib_utonhack.Storage.{
  KeyValue, PersistentBlockchain, try_add_persistent, store_added, push_forward,
}
use likelib_utonhack.Ledger.{Ledger, apply_block_transactions}
use likelib_utonhack.Core.{
  Core, World, Event, block_added, check_block_transactions, on_blockchain, finish_block, add_block,
  announce, try_add_block,
}

store_added-reason :
    (kv : KeyValue) (world : World) (block : ImmutableBlock) (p : PersistentBlockchain kv)
    (reason : AdditionResult)
    → reason ≢ added
    → store_added kv world.ext block p.database (ok reason) p.chain ≡ (ok reason, p)
unfolding store_added
store_added-reason kv world block p AdditionResult.added h = absurd (h refl)
store_added-reason kv world block p _ h = refl

finish_block-reason :
    (kv : KeyValue) (world : World) (block : ImmutableBlock) (c : Core kv) (reason : AdditionResult)
    → reason ≢ added
    → finish_block kv world block reason c ≡ (ok reason, c)
unfolding finish_block
finish_block-reason kv world block c AdditionResult.added h = absurd (h refl)
finish_block-reason kv world block c _ h = refl

announce-reason :
    (kv : KeyValue) (world : World) (e : Event) (c : Core kv) (reason : AdditionResult)
    → reason ≢ added
    → announce kv world e reason c ≡ (ok reason, c)
unfolding announce
announce-reason kv world e c AdditionResult.added h = absurd (h refl)
announce-reason kv world e c _ h = refl

module _ (kv : KeyValue) (world : World) (now : Time) (block : ImmutableBlock) (c : Core kv) where
  -- A block whose transactions do not pass is refused, and nothing changes.
  pub try_add_block-invalid_transactions :
      check_block_transactions kv world block c ≡ ok false
      → try_add_block kv world now block c ≡ (ok AdditionResult.invalid_transactions, c)
  unfolding try_add_block
  try_add_block-invalid_transactions h = rw (try_add_block, add_block, h)

  module _ (valid : check_block_transactions kv world block c ≡ ok true) where
    -- The chain's answer comes back to the block's way through _tryAddBlock.
    add_block-valid :
        (r : Outcome AdditionResult) (p : PersistentBlockchain kv)
        → try_add_persistent kv world.ext world.double now block c.blockchain ≡ (r, p)
        → add_block kv world now block c
          ≡ (lift r >>= finish_block kv world block) (record c { blockchain = p })
    unfolding add_block on_blockchain
    add_block-valid r p e = rw (add_block, valid, e)

    module _ (top : ImmutableBlock) (below : List ImmutableBlock)
        (holds : Holds c.blockchain.chain top below) where
      -- On a node that holds a chain, a block whose transactions pass the node's check and that the
      -- chain does not accept is refused with a reason, and nothing changes.
      pub try_add_block-unfit :
          ¬ (IsAcceptable now block top c.blockchain.chain)
          → (reason : AdditionResult) × (reason ≢ added)
            × (try_add_block kv world now block c ≡ (ok reason, c))
      unfolding try_add_block try_add_persistent
      try_add_block-unfit unfit =
          let (reason, other, e) =
            try_add_block-refused c.blockchain.chain top below holds now block world.double unfit in
          let stored : try_add_persistent kv world.ext world.double now block c.blockchain
              ≡ (ok reason, c.blockchain) =
            rw (try_add_persistent, e)
              (store_added-reason kv world block c.blockchain reason other) in
          (
            reason,
            other,
            bind-ok (add_block kv world now block) _ {a = reason} {s' = c} (
                  add_block-valid (ok reason) c.blockchain stored
                  ∙ finish_block-reason kv world block c reason other)
                ∙ announce-reason kv world (block_added block) c reason other,
          )

      -- The node once it has taken the block, with the accounts as its transactions left them.
      abbrev pub taken : Blockchain → Ledger → Core kv
      taken chain l = record c {
        ledger = l;
        blockchain = record {
          chain = chain;
          database = push_forward kv world.ext block c.blockchain.database;
        };
        pending_transactions = remove_all c.pending_transactions block.txs;
      }

      module _ (law : IsDouble world.double) (fit : IsAcceptable now block top c.blockchain.chain)
          (positive : 0 < c.blockchain.chain.consensus.complexity.densed) where
        stored :
            (chain : Blockchain)
            → Blockchain.try_add_block world.double now block c.blockchain.chain ≡ (ok added, chain)
            → try_add_persistent kv world.ext world.double now block c.blockchain ≡ (
              ok added,
              record {
                chain = chain;
                database = push_forward kv world.ext block c.blockchain.database;
              },
            )
        unfolding try_add_persistent
        stored chain e = rw (try_add_persistent, e)

        -- On a node that holds a chain of positive complexity, an acceptable block whose transactions
        -- pass the node's check and run through becomes the top of the chain and is stored, its
        -- transactions leave the pending set, the accounts are as the transactions leave them, the
        -- block is announced, and the complexity moves by a factor of 2 at most.
        pub try_add_block-taken :
            (l : Ledger)
            → apply_block_transactions world.ext world.machine block.fields c.ledger ≡ (ok tt, l)
            → (chain : Blockchain) × (try_add_block kv world now block c ≡ (
              ok added,
              record (taken chain l) { events = c.events ++ block_added block ∷ [] },
            ))
              × Holds chain block (top ∷ below)
              × IsNear c.blockchain.chain.consensus chain.consensus
        unfolding try_add_block finish_block
        try_add_block-taken l applied =
            let (chain, e, held, near) =
              try_add_block-added c.blockchain.chain top below holds now block world.double law fit
                positive in
            (
              chain,
              bind-ok (add_block kv world now block) _ {a = added} {s' = taken chain l}
                  (add_block-valid (ok added) _ (stored chain e) ∙ rw (finish_block, applied) refl),
              held,
              near,
            )

        -- Where a transaction throws in an acceptable block whose transactions pass the node's check,
        -- on a node that holds a chain of positive complexity, the exception leaves the node with
        -- the block on top of the chain and in the database, its transactions out of the pending
        -- set, the accounts as they were when it was thrown, and nothing announced.
        pub try_add_block-torn :
            (l : Ledger) (error : Error)
            → apply_block_transactions world.ext world.machine block.fields c.ledger
              ≡ (raise error, l)
            → (chain : Blockchain) × (try_add_block kv world now block c
                ≡ (raise error, taken chain l))
              × Holds chain block (top ∷ below)
        unfolding try_add_block finish_block
        try_add_block-torn l error applied =
            let (chain, e, held, near) =
              try_add_block-added c.blockchain.chain top below holds now block world.double law fit
                positive in
            (
              chain,
              bind-raise (add_block kv world now block) _ {e = error} {s' = taken chain l}
                  (add_block-valid (ok added) _ (stored chain e) ∙ rw (finish_block, applied) refl),
              held,
            )
