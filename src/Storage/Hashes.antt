-- ===== src/Storage/Hashes.antt =====
-- The database's copy of the chain: what pushForwardToPersistentStorage keeps true of it, and the
-- list of hashes that a restart reads.
use likelib_utonhack.Prelude.{
  ℕ, zero, suc, ◌<◌, ◌≡◌, sym, ap, ◌∙◌, inl, inr, true, false, Option, none, some, List, [], ◌∷◌,
  ◌++◌, append-nil, append_assoc, arith, ==_iff, if◌then◌else◌, Option-cases, length, nat_eq,
  bytes_eq, bytes_eq_iff, bytes_equality, beq_refl,
}
use mathlib.Core.List.{reverse}
use likelib_utonhack.Outcome.{ok}
use likelib_utonhack.Bytes.{Bytes}
use likelib_utonhack.Map.{find, find-append_some, find-append_none}
use likelib_utonhack.External.{External}
use likelib_utonhack.Block.{ImmutableBlock, serialize_fields}
use likelib_utonhack.Blockchain.Chain.{HasDistinctHashes, bottom, by_hash}
use likelib_utonhack.Storage.{
  KeyValue, push_forward, exists, get_last_block_hash, collect_hashes, create_all_block_hashes,
  last_block_hash_key, previous_block_hash_key, block_key,
}

-- The hashes of a chain but the genesis block's, the top's first.
abbrev pub hashes : ImmutableBlock → List ImmutableBlock → List Bytes
hashes top [] = []
hashes top (b ∷ below) = top.this_block_hash ∷ hashes b below

abbrev last_of : ImmutableBlock → List ImmutableBlock → Option Bytes
last_of top [] = none
last_of top (b ∷ below) = some top.this_block_hash

-- No block of the chain has the hash.
abbrev pub IsFresh : Bytes → ImmutableBlock → List ImmutableBlock → Type 0
IsFresh h top below = find h (by_hash (top ∷ below)) ≡ none

pub fresh_top :
    (h : Bytes) (top : ImmutableBlock) (below : List ImmutableBlock)
    → IsFresh h top below
    → bytes_eq top.this_block_hash h ≡ false
unfolding find
fresh_top h top [] fresh = ground arith
fresh_top h top (b ∷ below) fresh = elim (Option-cases (find h (by_hash (b ∷ below)))) [
  | inl e ↦
      (let last = find-append_none h (by_hash (b ∷ below)) ((top.this_block_hash, top) ∷ []) e in
        ground (arith, last))
  | inr (c, e) ↦
      (let there = find-append_some h c (by_hash (b ∷ below)) ((top.this_block_hash, top) ∷ []) e in
        absurd (ground (arith, there)))
]

pub IsFresh-below :
    (h : Bytes) (top b : ImmutableBlock) (below : List ImmutableBlock)
    → IsFresh h top (b ∷ below)
    → IsFresh h b below
IsFresh-below h top b below fresh = elim (Option-cases (find h (by_hash (b ∷ below)))) [
  | inl e ↦ e
  | inr (c, e) ↦
      (let there = find-append_some h c (by_hash (b ∷ below)) ((top.this_block_hash, top) ∷ []) e in
        absurd (ground (arith, there)))
]

fresh_bottom :
    (h : Bytes) (top : ImmutableBlock) (below : List ImmutableBlock)
    → IsFresh h top below
    → bytes_eq (bottom top below).this_block_hash h ≡ false
fresh_bottom h top [] fresh = fresh_top h top [] fresh
fresh_bottom h top (b ∷ below) fresh = fresh_bottom h b below (IsFresh-below h top b below fresh)

module _ (kv : KeyValue) where
  -- Below each block but the genesis block, the database names the block before it.
  abbrev Links : kv.Store → ImmutableBlock → List ImmutableBlock → Type 0
  Links db top [] = Unit {0}
  Links db top (b ∷ below) =
      (kv.get (previous_block_hash_key top.this_block_hash) db ≡ some b.this_block_hash)
      × (length b.this_block_hash ≡ 32)
      × Links db b below

  -- A block that is not the genesis block has a hash of 32 bytes.
  abbrev pub IsSized : ImmutableBlock → List ImmutableBlock → Type 0
  IsSized top [] = Unit {0}
  IsSized top (b ∷ below) = length top.this_block_hash ≡ 32

  -- The database holds the chain.
  pub record IsStored (db : kv.Store) (top : ImmutableBlock) (below : List ImmutableBlock)
      : Type 0 where
    pub last : kv.get last_block_hash_key db ≡ last_of top below
    pub size : IsSized top below
    pub links : Links db top below

  collect_hashes-hashes :
      (fuel : ℕ) (top : ImmutableBlock) (below : List ImmutableBlock) (all : List Bytes)
      (db : kv.Store)
      → length below < fuel
      → HasDistinctHashes top below
      → Links db top below
      → collect_hashes kv fuel (bottom top below).this_block_hash top.this_block_hash all db
        ≡ ok (all ++ hashes top below)
  unfolding collect_hashes
  collect_hashes-hashes zero top below all db h d links = absurd (omega arith)
  collect_hashes-hashes (suc fuel) top [] all db h d links =
      let done : bytes_eq top.this_block_hash top.this_block_hash ≡ true =
        beq_refl top.this_block_hash in
      rw (collect_hashes, done) (ap ok (sym (append-nil all)))
  collect_hashes-hashes (suc fuel) top (b ∷ below) all db h d links =
      let more : bytes_eq top.this_block_hash (bottom b below).this_block_hash ≡ false = ground (
        arith,
        fresh_bottom top.this_block_hash b below d.0,
        bytes_eq_iff top.this_block_hash (bottom b below).this_block_hash,
        bytes_eq_iff (bottom b below).this_block_hash top.this_block_hash,
      ) in
      let whole = (==_iff (length b.this_block_hash) 32).1 links.1 in
      rw (collect_hashes, more, links.0, whole)
        (collect_hashes-hashes fuel b below (all ++ top.this_block_hash ∷ []) db (omega arith) d.1
            links.2
          ∙ ap ok (append_assoc all (top.this_block_hash ∷ []) (hashes b below)))

  -- From a database that holds a chain with distinct hashes, with more rounds than blocks, the hashes
  -- of all blocks but the genesis block come back, the lowest block's first.
  pub create_all_block_hashes-hashes :
      (fuel : ℕ) (top : ImmutableBlock) (below : List ImmutableBlock) (db : kv.Store)
      → length below < fuel
      → HasDistinctHashes top below
      → IsStored db top below
      → create_all_block_hashes kv fuel (bottom top below).this_block_hash db
        ≡ ok (reverse (hashes top below))
  unfolding create_all_block_hashes get_last_block_hash
  create_all_block_hashes-hashes fuel top [] db h d stored =
      rw (create_all_block_hashes, stored.last)
  create_all_block_hashes-hashes fuel top (b ∷ below) db h d stored = rw (
    create_all_block_hashes,
    stored.last,
    (==_iff (length top.this_block_hash) 32).1 stored.size,
    collect_hashes-hashes fuel top (b ∷ below) [] db h d stored.links,
  )

  module _ (ext : External) (block : ImmutableBlock) (db : kv.Store) where
    pub get-push_forward :
        (k : Bytes)
        → kv.get (block_key block.this_block_hash) db ≡ none
        → kv.get k (push_forward kv ext block db) ≡ (
            if bytes_eq last_block_hash_key k
            then some block.this_block_hash
            else if bytes_eq (previous_block_hash_key block.this_block_hash) k
            then some block.prev_block_hash
            else if bytes_eq (block_key block.this_block_hash) k
            then some (serialize_fields ext block.fields)
            else kv.get k db)
    unfolding push_forward exists
    get-push_forward k new = rw (new, kv.get-put, kv.get-put, kv.get-put)

    keep-Links :
        (top : ImmutableBlock) (below : List ImmutableBlock)
        → kv.get (block_key block.this_block_hash) db ≡ none
        → IsFresh block.this_block_hash top below
        → Links db top below
        → Links (push_forward kv ext block db) top below
    unfolding bytes_eq
    keep-Links top [] new fresh links = tt
    keep-Links top (b ∷ below) new fresh links = (
      get-push_forward (previous_block_hash_key top.this_block_hash) new
          ∙ ground (
            arith,
            fresh_top block.this_block_hash top (b ∷ below) fresh,
            links.0,
            bytes_eq_iff block.this_block_hash top.this_block_hash,
            bytes_eq_iff top.this_block_hash block.this_block_hash,
          ),
      links.1,
      keep-Links b below new (IsFresh-below block.this_block_hash top b below fresh) links.2,
    )

    get-last :
        kv.get (block_key block.this_block_hash) db ≡ none
        → kv.get last_block_hash_key (push_forward kv ext block db) ≡ some block.this_block_hash
    unfolding bytes_eq
    get-last new = get-push_forward last_block_hash_key new

    get-previous :
        kv.get (block_key block.this_block_hash) db ≡ none
        → kv.get (previous_block_hash_key block.this_block_hash) (push_forward kv ext block db)
          ≡ some block.prev_block_hash
    unfolding bytes_eq
    get-previous new =
        get-push_forward (previous_block_hash_key block.this_block_hash) new
        ∙ ground (arith, bytes_eq_iff block.this_block_hash block.this_block_hash)

    -- Where the database holds a chain, a block, with a hash of 32 bytes as its parent has, whose hash is neither in the chain nor in the database
    -- and that names the chain's top as the block before it is stored so that the database holds
    -- the chain with the block on top.
    pub push_forward-IsStored :
        (top : ImmutableBlock) (below : List ImmutableBlock)
        → IsStored db top below
        → kv.get (block_key block.this_block_hash) db ≡ none
        → find block.this_block_hash (by_hash (top ∷ below)) ≡ none
        → block.prev_block_hash ≡ top.this_block_hash
        → length block.this_block_hash ≡ 32
        → length top.this_block_hash ≡ 32
        → IsStored (push_forward kv ext block db) block (top ∷ below)
    push_forward-IsStored top below stored new fresh linked size parent_size = record {
      last = get-last new;
      size = size;
      links = (
        get-previous new ∙ ap some linked,
        parent_size,
        keep-Links top below new fresh stored.links,
      );
    }
