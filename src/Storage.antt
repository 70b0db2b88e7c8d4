-- ===== src/Storage.antt =====
-- PersistentBlockchain of core/blockchain.hpp and core/blockchain.cpp: the chain and its copy in a
-- LevelDB database.
pub mod Hashes
pub mod Loading
pub mod Written
pub mod Recovery
use likelib_utonhack.Prelude.{
  length, ◌==◌, ℕ, zero, suc, ◌≡◌, Bool, true, false, Option, none, some, List, [], ◌∷◌, ◌++◌,
  if◌then◌else◌, nat_eq, bytes_eq, bytes_equality,
}
use mathlib.Core.List.{reverse}
use likelib_utonhack.Outcome.{Outcome, ok, raise, Error, ◌>>=◌}
use likelib_utonhack.Exec.{Exec}
use likelib_utonhack.Bytes.{Bytes}
use likelib_utonhack.External.{External}
use likelib_utonhack.Archive.{from_bytes}
use likelib_utonhack.Time.{Time}
use likelib_utonhack.Block.{ImmutableBlock, serialize_fields, deserialize_block}
use likelib_utonhack.Consensus.{Double}
use likelib_utonhack.Blockchain.{Blockchain, AdditionResult, added, try_add_block}

-- The database: LevelDB behind base::Database, as a store of bytes by keys. A value is read back as
-- it was last written, and a write changes no other key.
pub record KeyValue : Type 1 where
  pub Store : Type 0
  pub empty : Store
  pub get : Bytes → Store → Option Bytes
  pub put : Bytes → Bytes → Store → Store
  pub get-empty : (k : Bytes) → get k empty ≡ none
  pub get-put :
      (k j v : Bytes) (s : Store) → get j (put k v s) ≡ (if bytes_eq k j then some v else get j s)

-- toBytes(DataType, key)
abbrev pub system_key : Bytes → Bytes
system_key key = 1 ∷ key

abbrev pub block_key : Bytes → Bytes
block_key hash = 2 ∷ hash

abbrev pub previous_block_hash_key : Bytes → Bytes
previous_block_hash_key hash = 3 ∷ hash

-- LAST_BLOCK_HASH_KEY, "last_block_hash"
abbrev pub last_block_hash_key : Bytes
last_block_hash_key = system_key (
    b'l' ∷ b'a' ∷ b's' ∷ b't' ∷ b'_' ∷ b'b' ∷ b'l' ∷ b'o' ∷ b'c' ∷ b'k' ∷ b'_' ∷ b'h' ∷ b'a' ∷ b's'
    ∷ b'h' ∷ [])

abbrev is_there : Option Bytes → Bool
is_there none = false
is_there (some v) = true

module _ (kv : KeyValue) where
  -- Database::exists
  unfoldable pub exists : Bytes → kv.Store → Bool
  exists k db = is_there (kv.get k db)

  -- pushForwardToPersistentStorage
  unfoldable pub push_forward : External → ImmutableBlock → kv.Store → kv.Store
  unfolding exists
  push_forward ext block db =
      let hash = block.this_block_hash in
      let stored = kv.put (block_key hash) (serialize_fields ext block.fields) db in
      let linked = kv.put (previous_block_hash_key hash) block.prev_block_hash stored in
      if exists (block_key hash) db then db else kv.put last_block_hash_key hash linked

  -- The constructor of a Sha256 from bytes.
  abbrev pub sha256_of : Bytes → Outcome Bytes
  sha256_of bytes = if length bytes == 32 then ok bytes else raise Error.invalid_argument

  -- getLastBlockHashAtPersistentStorage
  unfoldable pub get_last_block_hash : kv.Store → Outcome (Option Bytes)
  get_last_block_hash db = elim (kv.get last_block_hash_key db) [
    | none ↦ ok none
    | some hash ↦ sha256_of hash >>= λ last. ok (some last)
  ]

  -- findBlockAtPersistentStorage; a failing deserialization throws.
  unfoldable pub find_stored_block : External → Bytes → kv.Store → Outcome (Option ImmutableBlock)
  find_stored_block ext hash db = elim (kv.get (block_key hash) db) [
    | none ↦ ok none
    | some raw ↦ elim (from_bytes (deserialize_block ext) raw) [
      | ok block ↦ ok (some block)
      | raise e ↦ raise e
    ]
  ]

  -- The loop of createAllBlockHashesListAtPersistentStorage, from the last block down to the genesis
  -- block; the fuel bounds its rounds.
  unfoldable pub collect_hashes : ℕ → Bytes → Bytes → List Bytes → kv.Store → Outcome (List Bytes)
  collect_hashes zero genesis_hash current all db = raise Error.assertion
  collect_hashes (suc fuel) genesis_hash current all db = elim (bytes_eq current genesis_hash) [
    | true ↦ ok all
    | false ↦ elim (kv.get (previous_block_hash_key current) db) [
      | none ↦ raise Error.assertion
      | some bytes ↦ sha256_of bytes >>= λ previous.
          collect_hashes fuel genesis_hash previous (all ++ current ∷ []) db
    ]
  ]

  abbrev reversed : Outcome (List Bytes) → Outcome (List Bytes)
  reversed (ok all) = ok (reverse all)
  reversed (raise e) = raise e

  -- createAllBlockHashesListAtPersistentStorage
  unfoldable pub create_all_block_hashes : ℕ → Bytes → kv.Store → Outcome (List Bytes)
  unfolding get_last_block_hash
  create_all_block_hashes fuel genesis_hash db = elim (get_last_block_hash db) [
    | raise e ↦ raise e
    | ok found ↦ elim found [
      | none ↦ ok []
      | some last ↦ reversed (collect_hashes fuel genesis_hash last [] db)
    ]
  ]

  pub record PersistentBlockchain : Type 0 where
    pub chain : Blockchain
    pub database : kv.Store

  -- What follows the call of Blockchain::tryAddBlock.
  unfoldable pub store_added :
      External
      → ImmutableBlock
      → kv.Store
      → Outcome AdditionResult
      → Blockchain
      → Outcome AdditionResult × PersistentBlockchain
  store_added ext block db (ok AdditionResult.added) chain =
      (ok added, record { chain = chain; database = push_forward ext block db })
  store_added ext block db (ok reason) chain = (ok reason, record { chain = chain; database = db })
  store_added ext block db (raise e) chain = (raise e, record { chain = chain; database = db })

  -- PersistentBlockchain::tryAddBlock
  unfoldable pub try_add_persistent :
      External → Double → Time → ImmutableBlock → Exec PersistentBlockchain AdditionResult
  unfolding store_added
  try_add_persistent ext double now block p =
      let r = try_add_block double now block p.chain in store_added ext block p.database r.0 r.1
