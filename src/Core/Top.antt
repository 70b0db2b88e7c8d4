-- ===== src/Core/Top.antt =====
-- A block that tryAddBlock adds is on top of the chain, whatever the chain was.
use likelib_utonhack.Prelude.{
  ◌≡◌, refl, sym, ap, ◌∙◌, Bool, true, false, if◌then◌else◌, nat_eq, bytes_equality,
}
use likelib_utonhack.Outcome.{Outcome, ok, raise}
use likelib_utonhack.Exec.{◌>>=◌, lift, pure, bind-split}
use likelib_utonhack.Time.{Time}
use likelib_utonhack.Block.{ImmutableBlock}
use likelib_utonhack.Consensus.{Double, Consensus, apply_block}
use likelib_utonhack.Blockchain.{
  Blockchain, AdditionResult, added, check_addition, insert_block, finish_addition, apply_addition,
}
use likelib_utonhack.Blockchain
use likelib_utonhack.Storage.{KeyValue, PersistentBlockchain, try_add_persistent}
use likelib_utonhack.Storage.Written.{apply_addition-added, store_added-added}
use likelib_utonhack.Core.{
  Core, World, Event, block_added, check_block_transactions, notify, on_blockchain, on_ledger,
  finish_block, add_block, announce, try_add_block,
}

finish_addition-top :
    (block : ImmutableBlock) (bc bc' : Blockchain) (r : Outcome (Unit {0}) × Consensus)
    → finish_addition block bc r ≡ (ok added, bc')
    → bc'.top_level_block_hash ≡ block.this_block_hash
unfolding finish_addition insert_block
finish_addition-top block bc bc' (ok u, c) h = sym (ap (λ k. k.1.top_level_block_hash) h)
finish_addition-top block bc bc' (raise e, c) h = absurd cc

chain_top :
    (double : Double) (now : Time) (block : ImmutableBlock) (bc bc' : Blockchain)
    → Blockchain.try_add_block double now block bc ≡ (ok added, bc')
    → bc'.top_level_block_hash ≡ block.this_block_hash
unfolding Blockchain.try_add_block apply_addition
chain_top double now block bc bc' h =
    let passed = apply_addition-added double block (check_addition now block bc) bc bc' h in
    finish_addition-top block bc bc' (apply_block double block bc.consensus)
      (sym (ap (λ r. apply_addition double block r bc) passed) ∙ h)

module _ (kv : KeyValue) (world : World) where
  persistent_top :
      (now : Time) (block : ImmutableBlock) (p p' : PersistentBlockchain kv)
      → try_add_persistent kv world.ext world.double now block p ≡ (ok added, p')
      → p'.chain.top_level_block_hash ≡ block.this_block_hash
  unfolding try_add_persistent
  persistent_top now block p p' h =
      let r = Blockchain.try_add_block world.double now block p.chain in
      let (e, same) = store_added-added kv world.ext block p.database r.0 r.1 p' h in
      ap (λ (q : PersistentBlockchain kv). q.chain.top_level_block_hash) same
      ∙ chain_top world.double now block p.chain r.1 (ap (λ k. (k, r.1)) e)

  announce-added :
      (e : Event) (r : AdditionResult) (c c' : Core kv)
      → announce kv world e r c ≡ (ok added, c')
      → (r ≡ added) × (c.blockchain ≡ c'.blockchain)
  unfolding announce notify
  announce-added e AdditionResult.added c c' h = (refl, ap (λ k. k.1.blockchain) h)
  announce-added e AdditionResult.already_in_blockchain c c' h = absurd cc
  announce-added e AdditionResult.invalid_parent_hash c c' h = absurd cc
  announce-added e AdditionResult.invalid_depth c c' h = absurd cc
  announce-added e AdditionResult.old_timestamp c c' h = absurd cc
  announce-added e AdditionResult.future_timestamp c c' h = absurd cc
  announce-added e AdditionResult.invalid_transactions_number c c' h = absurd cc
  announce-added e AdditionResult.invalid_transactions c c' h = absurd cc
  announce-added e AdditionResult.consensus_error c c' h = absurd cc

  finish_block-added :
      (block : ImmutableBlock) (r : AdditionResult) (c c' : Core kv)
      → finish_block kv world block r c ≡ (ok added, c')
      → (r ≡ added) × (c.blockchain ≡ c'.blockchain)
  unfolding finish_block on_ledger
  finish_block-added block AdditionResult.added c c' h =
      let (u, first, rest) = bind-split (on_ledger kv world block) (λ v. pure added) h in
      (refl, ap (λ k. k.1.blockchain) rest)
  finish_block-added block AdditionResult.already_in_blockchain c c' h = absurd cc
  finish_block-added block AdditionResult.invalid_parent_hash c c' h = absurd cc
  finish_block-added block AdditionResult.invalid_depth c c' h = absurd cc
  finish_block-added block AdditionResult.old_timestamp c c' h = absurd cc
  finish_block-added block AdditionResult.future_timestamp c c' h = absurd cc
  finish_block-added block AdditionResult.invalid_transactions_number c c' h = absurd cc
  finish_block-added block AdditionResult.invalid_transactions c c' h = absurd cc
  finish_block-added block AdditionResult.consensus_error c c' h = absurd cc

  valid_block :
      (now : Time) (block : ImmutableBlock) (c c' : Core kv) (valid : Bool)
      → (if valid
            then (on_blockchain kv world now block >>= finish_block kv world block)
            else pure AdditionResult.invalid_transactions)
          c
        ≡ (ok added, c')
      → c'.blockchain.chain.top_level_block_hash ≡ block.this_block_hash
  unfolding on_blockchain
  valid_block now block c c' true h =
      let (r, e, rest) =
        bind-split (on_blockchain kv world now block) (finish_block kv world block) h in
      let p = (try_add_persistent kv world.ext world.double now block c.blockchain).1 in
      let (same, kept) = finish_block-added block r _ c' rest in
      sym (ap (λ (q : PersistentBlockchain kv). q.chain.top_level_block_hash) kept)
      ∙ persistent_top now block c.blockchain p (ap (λ k. (k, p)) (ap (λ k. k.0) e ∙ ap ok same))
  valid_block now block c c' false h = absurd cc

  pub try_add_block-top :
      (now : Time) (block : ImmutableBlock) (c c' : Core kv)
      → try_add_block kv world now block c ≡ (ok added, c')
      → c'.blockchain.chain.top_level_block_hash ≡ block.this_block_hash
  unfolding try_add_block add_block
  try_add_block-top now block c c' h =
      let (r, e, rest) =
        bind-split (add_block kv world now block) (announce kv world (block_added block)) h in
      let c₁ = (add_block kv world now block c).1 in
      let (same, kept) = announce-added (block_added block) r c₁ c' rest in
      let whole : add_block kv world now block c ≡ (ok added, c₁) = e ∙ ap (λ k. (ok k, c₁)) same in
      let (valid, _, inner) =
        bind-split (lift (check_block_transactions kv world block c))
          (λ v.
            if v
            then (on_blockchain kv world now block >>= finish_block kv world block)
            else pure AdditionResult.invalid_transactions)
          {s = c} whole in
      sym (ap (λ (q : PersistentBlockchain kv). q.chain.top_level_block_hash) kept)
      ∙ valid_block now block c c₁ valid inner
