-- ===== src/Peer/Synchronizer.antt =====
-- A node catches up with a peer: the blocks that it lacks are asked for from the peer's top down, and
-- are added from the lowest up.
use likelib_utonhack.Prelude.{
  ◌≡◌, refl, sym, ap, ◌∙◌, inl, inr, Bool, true, false, none, some, List, [], ◌∷◌, ◌++◌, append-nil,
  append_assoc, Bool-cases, nat_eq, bytes_eq, bytes_eq_iff, bytes_equality, beq_refl,
}
use mathlib.Core.List.{reverse, reverse-cons}
use likelib_utonhack.Outcome.{ok}
use likelib_utonhack.Exec.{Exec, ◌>>◌, pure, bind-ok, bind-split}
use likelib_utonhack.Bytes.{Bytes}
use likelib_utonhack.Time.{Time}
use likelib_utonhack.Block.{ImmutableBlock, compute_hash}
use likelib_utonhack.Blockchain.{AdditionResult, added, find_block, get_top_block_hash}
use likelib_utonhack.Blockchain.Chain.{Holds, find_block-Holds}
use likelib_utonhack.Storage.{KeyValue}
use likelib_utonhack.Core.{Core, World, try_add_block}
use likelib_utonhack.Core.Top.{try_add_block-top}
use likelib_utonhack.Message.{Message, get_block}
use likelib_utonhack.Peer.{
  Peer, State, null_hash, core_block, go_on, request_block, handle_received_top_block_hash,
  add_blocks, take_block, handle_received_block, handle_block,
}

module _ (kv : KeyValue) (world : World) (now : Time) where
  -- The blocks of a peer, from the one with the hash down, that the node lacks: each has the hash of its
  -- bytes, and the parent of the last one is a block of the node.
  abbrev pub IsMissing : Core kv → Bytes → List ImmutableBlock → Type 0
  IsMissing c hash [] = (b : ImmutableBlock) × (core_block kv world hash c ≡ some b)
  IsMissing c hash (b ∷ bs) =
      (b.this_block_hash ≡ hash)
      × (compute_hash world.ext b ≡ hash)
      × (core_block kv world hash c ≡ none)
      × (bytes_eq b.prev_block_hash null_hash ≡ false)
      × IsMissing c b.prev_block_hash bs

  -- The peer's answers, in their order.
  abbrev pub receive_blocks : List ImmutableBlock → Exec (Peer kv) (Unit {0})
  receive_blocks [] = pure tt
  receive_blocks (b ∷ bs) =
      handle_block kv world now (record { block_hash = b.this_block_hash; block = b })
      >> receive_blocks bs

  abbrev pub requests : List ImmutableBlock → List Message
  requests [] = []
  requests (b ∷ bs) = get_block b.this_block_hash ∷ requests bs

  -- The requested block comes.
  handle_block-take_block :
      (b : ImmutableBlock) (p : Peer kv)
      → p.requested_block ≡ some b.this_block_hash
      → compute_hash world.ext b ≡ b.this_block_hash
      → handle_block kv world now (record { block_hash = b.this_block_hash; block = b }) p
        ≡ take_block kv world now b p
  unfolding handle_block handle_received_block
  handle_block-take_block b p requested hashed =
      rw (handle_block, hashed, beq_refl b.this_block_hash, requested, beq_refl b.this_block_hash)
        refl

  take_block-last :
      (b d : ImmutableBlock) (p : Peer kv) (r : Bool) (c' : Core kv)
      → bytes_eq b.prev_block_hash null_hash ≡ false
      → core_block kv world b.prev_block_hash p.core ≡ some d
      → add_blocks kv world now (reverse (p.sync_blocks ++ b ∷ [])) p.core ≡ (ok r, c')
      → take_block kv world now b p
        ≡ (ok tt, record p { core = c'; requested_block = none; sync_blocks = [] })
  unfolding take_block
  take_block-last b d p r c' child there all = rw (take_block, child, there) (rw all refl)

  take_block-more :
      (b : ImmutableBlock) (p : Peer kv)
      → bytes_eq b.prev_block_hash null_hash ≡ false
      → core_block kv world b.prev_block_hash p.core ≡ none
      → take_block kv world now b p ≡ (
        ok tt,
        record p {
          requested_block = some b.prev_block_hash;
          sync_blocks = p.sync_blocks ++ b ∷ [];
          sent = p.sent ++ get_block b.prev_block_hash ∷ [];
        },
      )
  unfolding take_block request_block
  take_block-more b p child absent = rw (take_block, child, absent) refl

  receive_blocks-add_blocks :
      (p : Peer kv) (c' : Core kv) (r : Bool) (b : ImmutableBlock) (bs : List ImmutableBlock)
      (hash : Bytes)
      → p.requested_block ≡ some hash
      → IsMissing p.core hash (b ∷ bs)
      → add_blocks kv world now (reverse (p.sync_blocks ++ b ∷ bs)) p.core ≡ (ok r, c')
      → receive_blocks (b ∷ bs) p ≡ (
        ok tt,
        record p {
          core = c';
          requested_block = none;
          sync_blocks = [];
          sent = p.sent ++ requests bs;
        },
      )
  receive_blocks-add_blocks p c' r b [] hash requested (same, hashed, absent, child, (d, there))
        all =
      let taken =
        handle_block-take_block b p (requested ∙ ap some (sym same)) (hashed ∙ sym same) in
      bind-ok (handle_block kv world now _) (λ _. receive_blocks [])
        (taken ∙ take_block-last b d p r c' child there all)
      ∙ rw (append-nil p.sent) refl
  receive_blocks-add_blocks p c' r b (b' ∷ bs) hash requested (same, hashed, absent, child, missing)
        all =
      let taken =
        handle_block-take_block b p (requested ∙ ap some (sym same)) (hashed ∙ sym same) in
      let q : Peer kv = record p {
        requested_block = some b.prev_block_hash;
        sync_blocks = p.sync_blocks ++ b ∷ [];
        sent = p.sent ++ get_block b.prev_block_hash ∷ [];
      } in
      let order : (p.sync_blocks ++ b ∷ []) ++ b' ∷ bs ≡ p.sync_blocks ++ b ∷ b' ∷ bs =
        append_assoc p.sync_blocks (b ∷ []) (b' ∷ bs) in
      let rest =
        receive_blocks-add_blocks q c' r b' bs b.prev_block_hash refl missing
          (ap (λ l. add_blocks kv world now (reverse l) p.core) order ∙ all) in
      let sent' : (p.sent ++ get_block b.prev_block_hash ∷ []) ++ requests bs
          ≡ p.sent ++ requests (b' ∷ bs) =
        append_assoc p.sent (get_block b.prev_block_hash ∷ []) (requests bs)
        ∙ ap (λ h. p.sent ++ get_block h ∷ requests bs) (sym missing.0) in
      bind-ok (handle_block kv world now _) (λ _. receive_blocks (b' ∷ bs))
        (taken ∙ take_block-more b p child missing.2)
      ∙ rest
      ∙ ap
          (λ l. (ok tt, record p { core = c'; requested_block = none; sync_blocks = []; sent = l }))
          sent'

  go_on-added :
      (rest : Exec (Core kv) Bool) (r : AdditionResult) (c c' : Core kv)
      → go_on kv world rest r c ≡ (ok true, c')
      → (r ≡ added) × (rest c ≡ (ok true, c'))
  go_on-added rest AdditionResult.added c c' h = (refl, h)
  go_on-added rest AdditionResult.already_in_blockchain c c' h = absurd cc
  go_on-added rest AdditionResult.invalid_parent_hash c c' h = absurd cc
  go_on-added rest AdditionResult.invalid_depth c c' h = absurd cc
  go_on-added rest AdditionResult.old_timestamp c c' h = absurd cc
  go_on-added rest AdditionResult.future_timestamp c c' h = absurd cc
  go_on-added rest AdditionResult.invalid_transactions_number c c' h = absurd cc
  go_on-added rest AdditionResult.invalid_transactions c c' h = absurd cc
  go_on-added rest AdditionResult.consensus_error c c' h = absurd cc

  -- The last of the blocks is on top where all were added.
  add_blocks_top :
      (xs : List ImmutableBlock) (b : ImmutableBlock) (c c' : Core kv)
      → add_blocks kv world now (xs ++ b ∷ []) c ≡ (ok true, c')
      → get_top_block_hash c'.blockchain.chain ≡ b.this_block_hash
  unfolding add_blocks
  add_blocks_top [] b c c' h =
      let (r, e, rest) = bind-split (try_add_block kv world now b) (go_on kv world (pure true)) h in
      let c₁ = (try_add_block kv world now b c).1 in
      let (same, kept) = go_on-added (pure true) r c₁ c' rest in
      try_add_block-top kv world now b c c'
        (e ∙ ap (λ k. (ok k, c₁)) same ∙ ap (λ k. (ok added, k.1)) kept)
  add_blocks_top (x ∷ xs) b c c' h =
      let others = add_blocks kv world now (xs ++ b ∷ []) in
      let (r, e, rest) = bind-split (try_add_block kv world now x) (go_on kv world others) h in
      let c₁ = (try_add_block kv world now x c).1 in
      let (same, kept) = go_on-added others r c₁ c' rest in add_blocks_top xs b c₁ c' kept

  requested_top :
      (p : Peer kv) (hash : Bytes)
      → bytes_eq hash (get_top_block_hash p.core.blockchain.chain) ≡ false
      → core_block kv world hash p.core ≡ none
      → p.requested_block ≡ none
      → handle_received_top_block_hash kv world hash p ≡ (
        ok tt,
        record p {
          requested_block = some hash;
          sent = p.sent ++ get_block hash ∷ [];
          state = State.requested_blocks;
        },
      )
  unfolding handle_received_top_block_hash request_block
  requested_top p hash other absent idle = rw (other, absent, idle) refl

  not_top :
      (c : Core kv) (top : ImmutableBlock) (below : List ImmutableBlock) (hash : Bytes)
      → Holds c.blockchain.chain top below
      → core_block kv world hash c ≡ none
      → bytes_eq hash (get_top_block_hash c.blockchain.chain) ≡ false
  not_top c top below hash holds absent =
      let ((there, _), _) = find_block-Holds c.blockchain.chain top below holds in
      elim (Bool-cases (bytes_eq hash (get_top_block_hash c.blockchain.chain))) [
        | inr e ↦ e
        | inl e ↦
            (let same : hash ≡ top.this_block_hash =
                (bytes_eq_iff hash (get_top_block_hash c.blockchain.chain)).0 e ∙ holds.top_hash in
              let gone = sym (ap (λ h. find_block h c.blockchain.chain) same) ∙ absent in absurd cc)
      ]

  -- Let a node that holds a chain hear of a top block that it does not have, while it waits for no block
  -- of this peer, and let the peer answer each request with the block that was asked for, none of
  -- which the node has, down to one whose parent the node has. Then the node asks for these blocks and
  -- no others, from the top down, and brings them all to tryAddBlock from the lowest up, as far as they are
  -- added; it waits for no block in the end and keeps none. If all were added, the peer's top block
  -- is the node's. The session's state is still REQUESTED_BLOCKS. Where tryAddBlock throws nothing.
  pub receive_blocks_catch_up :
      (p : Peer kv) (c' : Core kv) (r : Bool) (top b : ImmutableBlock)
      (below bs : List ImmutableBlock) (hash : Bytes)
      → Holds p.core.blockchain.chain top below
      → p.requested_block ≡ none
      → p.sync_blocks ≡ []
      → IsMissing p.core hash (b ∷ bs)
      → add_blocks kv world now (reverse (b ∷ bs)) p.core ≡ (ok r, c')
      → ((handle_received_top_block_hash kv world hash >> receive_blocks (b ∷ bs)) p ≡ (
        ok tt,
        record p {
          core = c';
          state = State.requested_blocks;
          requested_block = none;
          sync_blocks = [];
          sent = p.sent ++ requests (b ∷ bs);
        },
      ))
        × (r ≡ true → get_top_block_hash c'.blockchain.chain ≡ hash)
  receive_blocks_catch_up p c' r top b below bs hash holds idle empty missing all =
      let (same, _, absent, _, _) = missing in
      let q : Peer kv = record p {
        requested_block = some hash;
        sent = p.sent ++ get_block hash ∷ [];
        state = State.requested_blocks;
      } in
      let asked = requested_top p hash (not_top p.core top below hash holds absent) absent idle in
      let rest =
        receive_blocks-add_blocks q c' r b bs hash refl missing
          (ap (λ l. add_blocks kv world now (reverse (l ++ b ∷ bs)) p.core) empty ∙ all) in
      let sent' : (p.sent ++ get_block hash ∷ []) ++ requests bs ≡ p.sent ++ requests (b ∷ bs) =
        append_assoc p.sent (get_block hash ∷ []) (requests bs)
        ∙ ap (λ h. p.sent ++ get_block h ∷ requests bs) (sym same) in
      (
        bind-ok (handle_received_top_block_hash kv world hash) (λ _. receive_blocks (b ∷ bs)) asked
            ∙ rest
            ∙ ap
                (λ l. (
                  ok tt,
                  record p {
                    core = c';
                    state = State.requested_blocks;
                    requested_block = none;
                    sync_blocks = [];
                    sent = l;
                  },
                ))
                sent',
        λ whole.
            add_blocks_top (reverse bs) b p.core c' (
              ap (λ l. add_blocks kv world now l p.core) (sym (reverse-cons b bs))
              ∙ all
              ∙ ap (λ k. (ok k, c')) whole)
            ∙ same,
      )
