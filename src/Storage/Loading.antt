-- ===== src/Storage/Loading.antt =====
-- PersistentBlockchain::load of core/blockchain.cpp: the stored blocks are added to a new chain.
use likelib_utonhack.Prelude.{ℕ, none, some, List, [], ◌∷◌, nat_eq, bytes_equality}
use likelib_utonhack.Outcome.{Outcome, ok, raise, Error}
use likelib_utonhack.Exec.{Exec, ◌>>◌, pure}
use likelib_utonhack.Bytes.{Bytes}
use likelib_utonhack.External.{External}
use likelib_utonhack.Time.{Time}
use likelib_utonhack.Consensus.{Double}
use likelib_utonhack.Blockchain.{AdditionResult, get_genesis_block}
use likelib_utonhack.Storage.{
  KeyValue, PersistentBlockchain, get_last_block_hash, find_stored_block, create_all_block_hashes,
  try_add_persistent,
}

-- The answer of tryAddBlock is not looked at; only its exceptions go on.
abbrev pub ignored : Outcome AdditionResult → Outcome (Unit {0})
ignored (ok r) = ok tt
ignored (raise e) = raise e

module _ (kv : KeyValue) (ext : External) (double : Double) (now : Time) where
  -- One round of the loop.
  unfoldable pub load_block : Bytes → Exec (PersistentBlockchain kv) (Unit {0})
  load_block hash p = elim (find_stored_block kv ext hash p.database) [
    | raise e ↦ (raise e, p)
    | ok found ↦ elim found [
      | none ↦ (raise Error.assertion, p)
      | some block ↦ (let r = try_add_persistent kv ext double now block p in (ignored r.0, r.1))
    ]
  ]

  unfoldable pub load_hashes : List Bytes → Exec (PersistentBlockchain kv) (Unit {0})
  load_hashes [] = pure tt
  load_hashes (hash ∷ hashes) = load_block hash >> load_hashes hashes

  -- createAllBlockHashesListAtPersistentStorage, with the genesis block of the chain.
  unfoldable pub stored_hashes : ℕ → PersistentBlockchain kv → Outcome (List Bytes)
  stored_hashes fuel p = elim (get_last_block_hash kv p.database) [
    | raise e ↦ raise e
    | ok found ↦ elim found [
      | none ↦ ok []
      | some last ↦ elim (get_genesis_block p.chain) [
        | raise e ↦ raise e
        | ok genesis ↦ create_all_block_hashes kv fuel genesis.this_block_hash p.database
      ]
    ]
  ]

  -- PersistentBlockchain::load; the fuel bounds the rounds of the walk through the database.
  unfoldable pub load : ℕ → Exec (PersistentBlockchain kv) (Unit {0})
  unfolding load_hashes stored_hashes
  load fuel p = elim (stored_hashes fuel p) [
    | raise e ↦ (raise e, p)
    | ok hashes ↦ load_hashes hashes p
  ]
