-- ===== src/Storage/Recovery.antt =====
-- A restart: load over the database that a running node has written gives the chain that it had.
use likelib_utonhack.Prelude.{
  ==_iff, ℕ, ◌+◌, ◌%◌, ◌^◌, ◌≤◌, ◌<◌, ◌≡◌, refl, sym, ap, ◌∙◌, inl, inr, true, some, List, [], ◌∷◌,
  ◌++◌, length, nat_eq, bytes_eq, bytes_equality, beq_refl,
}
use mathlib.Core.List.{reverse, reverse-cons}
use likelib_utonhack.Outcome.{ok, raise, Outcome-cases}
use likelib_utonhack.Exec.{bind-ok, bind-raise}
use likelib_utonhack.Bytes.{Bytes}
use likelib_utonhack.External.{External, HasDecimal}
use likelib_utonhack.Map.{find}
use likelib_utonhack.Time.{Time}
use likelib_utonhack.Block.{Fields, ImmutableBlock, IsBlock, make_block, serialize_fields}
use likelib_utonhack.Block.Codec.{from_bytes-serialize_block}
use likelib_utonhack.Consensus.{Double}
use likelib_utonhack.Consensus.Bounds.{IsDouble}
use likelib_utonhack.Blockchain.{
  Blockchain, added, seconds_in_day, make_blockchain, get_genesis_block, apply_addition,
  try_add_block,
}
use likelib_utonhack.Blockchain.Chain.{Holds, HasDistinctHashes, bottom}
use likelib_utonhack.Blockchain.Addition.{IsAcceptable, IsAcceptable→check_addition}
use likelib_utonhack.Storage.{
  KeyValue, PersistentBlockchain, store_added, push_forward, exists, find_stored_block,
  try_add_persistent, block_key, get_last_block_hash, create_all_block_hashes,
}
use likelib_utonhack.Storage.Hashes.{hashes, IsStored, create_all_block_hashes-hashes}
use likelib_utonhack.Storage.Written.{
  IsBuilt, start, grow, HasBlocks, IsPast, IsBuilt-IsSynced, bottom-IsBuilt, add_persistent-ok,
  acceptable,
}
use likelib_utonhack.Storage.Loading.{load_block, load_hashes, stored_hashes, load}

module _ (kv : KeyValue) (ext : External) where
  load_hashes-append :
      (double : Double) (now : Time) (xs ys : List Bytes) (p : PersistentBlockchain kv)
      {p' : PersistentBlockchain kv}
      → load_hashes kv ext double now xs p ≡ (ok tt, p')
      → load_hashes kv ext double now (xs ++ ys) p ≡ load_hashes kv ext double now ys p'
  unfolding load_hashes
  load_hashes-append double now [] ys p h = ap (load_hashes kv ext double now ys) (ap (λ k. k.1) h)
  load_hashes-append double now (x ∷ xs) ys p h =
      elim (Outcome-cases (load_block kv ext double now x p).0) [
        | inl e ↦
            (let next : load_block kv ext double now x p
                  ≡ (ok tt, (load_block kv ext double now x p).1) =
                ap (λ k. (k, (load_block kv ext double now x p).1)) e in
              bind-ok (load_block kv ext double now x)
                (λ _. load_hashes kv ext double now (xs ++ ys)) next
              ∙ load_hashes-append double now xs ys (load_block kv ext double now x p).1 (
                  sym (
                    bind-ok (load_block kv ext double now x) (λ _. load_hashes kv ext double now xs)
                      next)
                  ∙ h))
        | inr (error, e) ↦
            (let next : load_block kv ext double now x p
                  ≡ (raise error, (load_block kv ext double now x p).1) =
                ap (λ k. (k, (load_block kv ext double now x p).1)) e in
              let stop =
                sym (
                  bind-raise (load_block kv ext double now x)
                    (λ _. load_hashes kv ext double now xs) next)
                ∙ h in
              absurd cc)
      ]

  module _ (double : Double) (law : IsDouble double) (genesis : ImmutableBlock)
      (zero_depth : genesis.depth ≡ 0) where
    push_forward_again :
        (block : ImmutableBlock) (db : kv.Store) (v : Bytes)
        → kv.get (block_key block.this_block_hash) db ≡ some v
        → push_forward kv ext block db ≡ db
    unfolding push_forward exists
    push_forward_again block db v h = rw (push_forward, h)

    -- A block that a chain has taken once is taken again, at another time that it is not too far
    -- behind, with the same result; the database, which has it, stays as it is.
    try_add_again :
        {bc bc' : Blockchain} {top : ImmutableBlock} {below : List ImmutableBlock} (now now' : Time)
        (block : ImmutableBlock) (db : kv.Store) (v : Bytes)
        → Holds bc top below
        → try_add_block double now block bc ≡ (ok added, bc')
        → block.timestamp ≤ (now' + seconds_in_day) % 2 ^ 32
        → kv.get (block_key block.this_block_hash) db ≡ some v
        → try_add_persistent kv ext double now' block (record { chain = bc; database = db })
          ≡ (ok added, record { chain = bc'; database = db })
    unfolding try_add_persistent store_added try_add_block
    try_add_again {bc} {bc'} {top} {below} now now' block db v holds e past there =
        let a = acceptable kv ext double law genesis zero_depth now block holds e in
        let a' : IsAcceptable now' block top bc = record {
          unknown = a.unknown;
          next = a.next;
          mined = a.mined;
          not_empty = a.not_empty;
          not_large = a.not_large;
          not_future = past;
        } in
        let before = IsAcceptable→check_addition bc top below holds now block a in
        let after = IsAcceptable→check_addition bc top below holds now' block a' in
        let same : try_add_block double now' block bc ≡ (ok added, bc') =
          ap (λ r. apply_addition double block r bc) (after ∙ sym before) ∙ e in
        ap (λ r. store_added kv ext block db r.0 r.1) same
        ∙ ap (λ d. (ok added, record { chain = bc'; database = d }))
            (push_forward_again block db v there)

    fields-make_block : (b : Fields) → (make_block ext b).fields ≡ b
    unfolding make_block
    fields-make_block b = refl

    module _ (dec : HasDecimal ext) (now' : Time) (db : kv.Store) where
      load_block-ok :
          {bc bc' : Blockchain} {top : ImmutableBlock} {below : List ImmutableBlock} (now : Time)
          (b : Fields)
          → Holds bc top below
          → IsBlock b
          → try_add_block double now (make_block ext b) bc ≡ (ok added, bc')
          → (make_block ext b).timestamp ≤ (now' + seconds_in_day) % 2 ^ 32
          → kv.get (block_key (make_block ext b).this_block_hash) db
            ≡ some (serialize_fields ext (make_block ext b).fields)
          → load_block kv ext double now'
              (make_block ext b).this_block_hash
              (record { chain = bc; database = db })
            ≡ (ok tt, record { chain = bc'; database = db })
      unfolding load_block find_stored_block
      load_block-ok {bc} {bc'} {top} {below} now b holds valid e past there =
          let read = from_bytes-serialize_block ext dec b valid in
          let again = try_add_again now now' (make_block ext b) db _ holds e past there in
          rw (load_block, there, fields-make_block b, read, again)

      -- Loading the chain's blocks onto the genesis block, over a database that has them.
      load_hashes-IsBuilt :
          {p : PersistentBlockchain kv} {top : ImmutableBlock} {below : List ImmutableBlock}
          → IsBuilt kv ext double genesis p top below
          → HasBlocks kv ext db top below
          → IsPast kv ext now' top below
          → load_hashes kv ext double now'
              (reverse (hashes top below))
              (record { chain = make_blockchain genesis; database = db })
            ≡ (ok tt, record { chain = p.chain; database = db })
      unfolding load_hashes
      load_hashes-IsBuilt start has past = refl
      load_hashes-IsBuilt (grow {p} {p'} {top} {below} built now b valid size pos h) has past =
          let s = IsBuilt-IsSynced kv ext double law genesis zero_depth built in
          let hash = (make_block ext b).this_block_hash in
          let genesis_only : PersistentBlockchain kv = record {
            chain = make_blockchain genesis;
            database = db;
          } in
          let (e, _) =
            add_persistent-ok kv ext double law genesis zero_depth p p' now (make_block ext b) h in
          ap (λ hs. load_hashes kv ext double now' hs genesis_only)
            (reverse-cons hash (hashes top below))
          ∙ load_hashes-append double now' (reverse (hashes top below)) (hash ∷ []) genesis_only
              (load_hashes-IsBuilt built has.1 past.1)
          ∙ bind-ok (load_block kv ext double now' hash) (λ _. load_hashes kv ext double now' [])
              (load_block-ok now b s.holds valid e past.0 has.0)

      genesis_of_new : get_genesis_block (make_blockchain genesis) ≡ ok genesis
      unfolding get_genesis_block make_blockchain find
      genesis_of_new =
          let same : bytes_eq genesis.this_block_hash genesis.this_block_hash ≡ true =
            beq_refl genesis.this_block_hash in
          rw (get_genesis_block, same)

      stored_hashes-hashes :
          (fuel : ℕ) (top : ImmutableBlock) (below : List ImmutableBlock)
          → length below < fuel
          → HasDistinctHashes top below
          → IsStored kv db top below
          → bottom top below ≡ genesis
          → stored_hashes kv ext double now' fuel
              (record { chain = make_blockchain genesis; database = db })
            ≡ ok (reverse (hashes top below))
      unfolding stored_hashes get_last_block_hash
      stored_hashes-hashes fuel top [] enough distinct stored first =
          rw (stored_hashes, stored.last)
      stored_hashes-hashes fuel top (b ∷ below) enough distinct stored first =
          let read =
            create_all_block_hashes-hashes kv fuel top (b ∷ below) db enough distinct stored in
          rw
            (
              stored_hashes,
              stored.last,
              (==_iff (length top.this_block_hash) 32).1 stored.size,
              genesis_of_new,
            )
            (ap (λ (g : ImmutableBlock). create_all_block_hashes kv fuel g.this_block_hash db)
                (sym first)
              ∙ read)

    -- A restart restores the chain: let blocks in their types' ranges have been added, at any times and
    -- with a positive complexity, to the chain of a genesis block over an empty database. Then load,
    -- called at a time that they are not too far ahead of, over the database that was written and with
    -- more rounds than there are blocks, ends with the same chain, consensus included, and with the
    -- same database. Where numbers are read back from their texts.
    pub load-IsBuilt :
        {p : PersistentBlockchain kv} {top : ImmutableBlock} {below : List ImmutableBlock}
        (now' : Time) (fuel : ℕ)
        → HasDecimal ext
        → IsBuilt kv ext double genesis p top below
        → IsPast kv ext now' top below
        → length below < fuel
        → load kv ext double now' fuel
            (record { chain = make_blockchain genesis; database = p.database })
          ≡ (ok tt, p)
    unfolding load
    load-IsBuilt {p} {top} {below} now' fuel dec built past enough =
        let s = IsBuilt-IsSynced kv ext double law genesis zero_depth built in
        let listed =
          stored_hashes-hashes dec now' p.database fuel top below enough s.holds.distinct s.stored
            (bottom-IsBuilt kv ext double law genesis zero_depth built) in
        rw (load, listed) (load_hashes-IsBuilt dec now' p.database built s.blocks past)
