-- ===== src/Storage/Written.antt =====
-- The databases that a running node writes, and how they agree with its chain.
use likelib_utonhack.Prelude.{
  ◌+◌, ◌%◌, ◌^◌, ◌≤◌, ◌<◌, ◌≡◌, refl, sym, ap, subst, ◌∙◌, false, none, some, List, [], ◌∷◌, arith,
  length, nat_eq, bytes_eq, bytes_eq_iff, bytes_equality,
}
use likelib_utonhack.Outcome.{Outcome, ok, raise}
use likelib_utonhack.Bytes.{Bytes}
use likelib_utonhack.External.{External}
use likelib_utonhack.Map.{find}
use likelib_utonhack.Time.{Time}
use likelib_utonhack.Block.{Fields, ImmutableBlock, IsBlock, make_block, serialize_fields}
use likelib_utonhack.Consensus.{Double}
use likelib_utonhack.Consensus.Bounds.{IsDouble}
use likelib_utonhack.Blockchain.{
  Blockchain, AdditionResult, added, seconds_in_day, make_blockchain, check_addition,
  apply_addition, try_add_block,
}
use likelib_utonhack.Blockchain.Chain.{Holds, bottom, make_blockchain-Holds}
use likelib_utonhack.Blockchain.Addition.{
  IsAcceptable, check_addition→IsAcceptable, try_add_block-added,
}
use likelib_utonhack.Storage.{
  KeyValue, PersistentBlockchain, store_added, push_forward, try_add_persistent, block_key,
}
use likelib_utonhack.Storage.Hashes.{
  IsFresh, IsStored, fresh_top, IsFresh-below, get-push_forward, push_forward-IsStored,
}

-- The answer `added` comes from checks that all pass.
pub apply_addition-added :
    (double : Double) (block : ImmutableBlock) (r : Outcome AdditionResult) (bc bc' : Blockchain)
    → apply_addition double block r bc ≡ (ok added, bc')
    → r ≡ ok added
unfolding apply_addition
apply_addition-added double block (ok AdditionResult.added) bc bc' h = refl
apply_addition-added double block (ok AdditionResult.already_in_blockchain) bc bc' h = absurd cc
apply_addition-added double block (ok AdditionResult.invalid_parent_hash) bc bc' h = absurd cc
apply_addition-added double block (ok AdditionResult.invalid_depth) bc bc' h = absurd cc
apply_addition-added double block (ok AdditionResult.old_timestamp) bc bc' h = absurd cc
apply_addition-added double block (ok AdditionResult.future_timestamp) bc bc' h = absurd cc
apply_addition-added double block (ok AdditionResult.invalid_transactions_number) bc bc' h =
    absurd cc
apply_addition-added double block (ok AdditionResult.invalid_transactions) bc bc' h = absurd cc
apply_addition-added double block (ok AdditionResult.consensus_error) bc bc' h = absurd cc
apply_addition-added double block (raise e) bc bc' h = absurd cc

module _ (kv : KeyValue) (ext : External) where
  pub store_added-added :
      (block : ImmutableBlock) (db : kv.Store) (r : Outcome AdditionResult) (bc : Blockchain)
      (p' : PersistentBlockchain kv)
      → store_added kv ext block db r bc ≡ (ok added, p')
      → (r ≡ ok added) × (p' ≡ record { chain = bc; database = push_forward kv ext block db })
  unfolding store_added
  store_added-added block db (ok AdditionResult.added) bc p' h = (refl, sym (ap (λ k. k.1) h))
  store_added-added block db (ok AdditionResult.already_in_blockchain) bc p' h = absurd cc
  store_added-added block db (ok AdditionResult.invalid_parent_hash) bc p' h = absurd cc
  store_added-added block db (ok AdditionResult.invalid_depth) bc p' h = absurd cc
  store_added-added block db (ok AdditionResult.old_timestamp) bc p' h = absurd cc
  store_added-added block db (ok AdditionResult.future_timestamp) bc p' h = absurd cc
  store_added-added block db (ok AdditionResult.invalid_transactions_number) bc p' h = absurd cc
  store_added-added block db (ok AdditionResult.invalid_transactions) bc p' h = absurd cc
  store_added-added block db (ok AdditionResult.consensus_error) bc p' h = absurd cc
  store_added-added block db (raise e) bc p' h = absurd cc

  -- A database that a running node has written, its chain's top and the blocks below it: blocks
  -- with hashes of 32 bytes are added at any times to the chain of the genesis block over an empty database.
  pub data IsBuilt (double : Double) (genesis : ImmutableBlock)
      : PersistentBlockchain kv → ImmutableBlock → List ImmutableBlock → Type 0 where
    start :
        IsBuilt double genesis
          (record { chain = make_blockchain genesis; database = kv.empty })
          genesis
          []
    grow :
        {p p' : PersistentBlockchain kv} {top : ImmutableBlock} {below : List ImmutableBlock}
        → IsBuilt double genesis p top below
        → (now : Time) (b : Fields) → IsBlock b
        → length (make_block ext b).this_block_hash ≡ 32
        → 0 < p.chain.consensus.complexity.densed
        → try_add_persistent kv ext double now (make_block ext b) p ≡ (ok added, p')
        → IsBuilt double genesis p' (make_block ext b) (top ∷ below)

  -- The database has every block of the chain but the genesis block, by its hash.
  abbrev pub HasBlocks : kv.Store → ImmutableBlock → List ImmutableBlock → Type 0
  HasBlocks db top [] = Unit {0}
  HasBlocks db top (b ∷ below) =
      (kv.get (block_key top.this_block_hash) db ≡ some (serialize_fields ext top.fields))
      × HasBlocks db b below

  -- No block of the chain but the genesis block is too far in the future.
  abbrev pub IsPast : Time → ImmutableBlock → List ImmutableBlock → Type 0
  IsPast now top [] = Unit {0}
  IsPast now top (b ∷ below) =
      (top.timestamp ≤ (now + seconds_in_day) % 2 ^ 32) × IsPast now b below

  -- The chain and the database have the same blocks.
  pub record IsSynced (p : PersistentBlockchain kv) (top : ImmutableBlock)
      (below : List ImmutableBlock) : Type 0 where
    pub holds : Holds p.chain top below
    pub stored : IsStored kv p.database top below
    pub blocks : HasBlocks p.database top below
    pub others : (h : Bytes) → IsFresh h top below → kv.get (block_key h) p.database ≡ none

  module _ (block : ImmutableBlock) (db : kv.Store)
      (absent : kv.get (block_key block.this_block_hash) db ≡ none) where
    get-other :
        (h : Bytes)
        → bytes_eq block.this_block_hash h ≡ false
        → kv.get (block_key h) (push_forward kv ext block db) ≡ kv.get (block_key h) db
    unfolding bytes_eq
    get-other h other = get-push_forward kv ext block db (block_key h) absent ∙ rw (other)

    get-same :
        kv.get (block_key block.this_block_hash) (push_forward kv ext block db)
        ≡ some (serialize_fields ext block.fields)
    unfolding bytes_eq
    get-same =
        get-push_forward kv ext block db (block_key block.this_block_hash) absent
        ∙ ground (arith, bytes_eq_iff block.this_block_hash block.this_block_hash)

    keep-HasBlocks :
        (top : ImmutableBlock) (below : List ImmutableBlock)
        → IsFresh block.this_block_hash top below
        → HasBlocks db top below
        → HasBlocks (push_forward kv ext block db) top below
    keep-HasBlocks top [] fresh has = tt
    keep-HasBlocks top (b ∷ below) fresh has =
        let other : bytes_eq block.this_block_hash top.this_block_hash ≡ false = ground (
          arith,
          fresh_top block.this_block_hash top (b ∷ below) fresh,
          bytes_eq_iff block.this_block_hash top.this_block_hash,
          bytes_eq_iff top.this_block_hash block.this_block_hash,
        ) in
        (
          get-other top.this_block_hash other ∙ has.0,
          keep-HasBlocks b below (IsFresh-below block.this_block_hash top b below fresh) has.1,
        )

  module _ (double : Double) (law : IsDouble double) (genesis : ImmutableBlock)
      (zero_depth : genesis.depth ≡ 0) where
    start-IsSynced :
        IsSynced (record { chain = make_blockchain genesis; database = kv.empty }) genesis []
    start-IsSynced = record {
      holds = make_blockchain-Holds genesis zero_depth;
      stored = record { last = kv.get-empty _; size = tt; links = tt };
      blocks = tt;
      others = λ h fresh. kv.get-empty (block_key h);
    }

    -- How the chain and the database change with an added block.
    pub add_persistent-ok :
        (p p' : PersistentBlockchain kv) (now : Time) (block : ImmutableBlock)
        → try_add_persistent kv ext double now block p ≡ (ok added, p')
        → (try_add_block double now block p.chain ≡ (ok added, p'.chain))
          × (p'.database ≡ push_forward kv ext block p.database)
    unfolding try_add_persistent
    add_persistent-ok p p' now block h =
        let (e, same) =
          store_added-added block p.database (try_add_block double now block p.chain).0
            (try_add_block double now block p.chain).1 p' h in
        (
          ap (λ r. (r, (try_add_block double now block p.chain).1)) e
              ∙ ap (λ (q : PersistentBlockchain kv). (ok added, q.chain)) (sym same),
          ap (λ (q : PersistentBlockchain kv). q.database) same,
        )

    pub acceptable :
        {bc bc' : Blockchain} {top : ImmutableBlock} {below : List ImmutableBlock} (now : Time)
        (block : ImmutableBlock)
        → Holds bc top below
        → try_add_block double now block bc ≡ (ok added, bc')
        → IsAcceptable now block top bc
    unfolding try_add_block
    acceptable {bc} {bc'} {top} {below} now block holds h =
        check_addition→IsAcceptable bc top below holds now block
          (apply_addition-added double block (check_addition now block bc) bc bc' h)

    IsFresh-of :
        {bc : Blockchain} {top : ImmutableBlock} {below : List ImmutableBlock} {now : Time}
        {block : ImmutableBlock}
        → Holds bc top below
        → IsAcceptable now block top bc
        → IsFresh block.this_block_hash top below
    IsFresh-of {block = block} holds a =
        ap (find block.this_block_hash) (sym holds.blocks) ∙ a.unknown

    grow-IsSynced :
        {p p' : PersistentBlockchain kv} {top : ImmutableBlock} {below : List ImmutableBlock}
        (now : Time) (block : ImmutableBlock)
        → IsSynced p top below
        → length block.this_block_hash ≡ 32
        → length block.prev_block_hash ≡ 32
        → 0 < p.chain.consensus.complexity.densed
        → try_add_persistent kv ext double now block p ≡ (ok added, p')
        → IsSynced p' block (top ∷ below)
    grow-IsSynced {p} {p'} {top} {below} now block s size prev_size pos h =
        let (e, db) = add_persistent-ok p p' now block h in
        let a = acceptable now block s.holds e in
        let fresh = IsFresh-of s.holds a in
        let absent = s.others block.this_block_hash fresh in
        let (bc, e', held, near) =
          try_add_block-added p.chain top below s.holds now block double law a pos in
        let same : bc ≡ p'.chain = ap (λ k. k.1) (sym e' ∙ e) in
        record {
          holds = subst (λ c. Holds c block (top ∷ below)) same held;
          stored =
              subst (λ d. IsStored kv d block (top ∷ below)) (sym db)
                (push_forward-IsStored kv ext block p.database top below s.stored absent fresh
                  a.next.linked size (ap length (sym a.next.linked) ∙ prev_size));
          blocks =
              subst (λ d. HasBlocks d block (top ∷ below)) (sym db)
                (
                  get-same block p.database absent,
                  keep-HasBlocks block p.database absent top below fresh s.blocks,
                );
          others = λ h new.
              ap (kv.get (block_key h)) db
              ∙ get-other block p.database absent h (fresh_top h block (top ∷ below) new)
              ∙ s.others h (IsFresh-below h block top below new);
        }

    prev_size : (b : Fields) → IsBlock b → length (make_block ext b).prev_block_hash ≡ 32
    unfolding make_block
    prev_size b valid = valid.prev_fixed.0

    pub IsBuilt-IsSynced :
        {p : PersistentBlockchain kv} {top : ImmutableBlock} {below : List ImmutableBlock}
        → IsBuilt double genesis p top below
        → IsSynced p top below
    IsBuilt-IsSynced start = start-IsSynced
    IsBuilt-IsSynced (grow built now b valid size pos h) =
        grow-IsSynced now (make_block ext b) (IsBuilt-IsSynced built) size (prev_size b valid) pos h

    pub bottom-IsBuilt :
        {p : PersistentBlockchain kv} {top : ImmutableBlock} {below : List ImmutableBlock}
        → IsBuilt double genesis p top below
        → bottom top below ≡ genesis
    bottom-IsBuilt start = refl
    bottom-IsBuilt (grow built now b valid size pos h) = bottom-IsBuilt built
