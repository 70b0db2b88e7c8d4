-- ===== src/Block.antt =====
-- core/block.hpp and core/block.cpp: blocks, their serialization and their hash.
pub mod Builder
pub mod Codec
use likelib_utonhack.Prelude.{
  ℕ, zero, suc, ◌+◌, ◌-◌, ◌*◌, ◌/◌, ◌%◌, ◌^◌, ◌≤◌, ◌<◌, min, max, ◌≡◌, refl, sym, ap, subst, ◌∙◌,
  ◌≡⟨◌⟩◌, ◌∎, ◌≢◌, ◌↔◌, ◌⊎◌, inl, inr, Bool, true, false, not, ◌&&◌, ◌||◌, Option, none, some, List,
  [], ◌∷◌, ◌++◌, map, append-nil, append_assoc, arith, ltb, leb, ◌==◌, if◌then◌else◌, lt→ltb,
  le→leb, ==_iff, Bool-cases, Option-cases, length, get_elem?, take, drop, replicate, length-append,
  length-take, length-replicate, drop-append, take-append, All, All-append, Eq, nat_eq, bytes_eq,
  bytes_eq_iff, bytes_equality, beq_refl,
}
use likelib_utonhack.Outcome.{Outcome, ok, raise, Error}
use likelib_utonhack.Bytes.{Bytes, IsFixed}
use likelib_utonhack.External.{External}
use likelib_utonhack.Archive.{
  Reader, pure, ◌>>=◌, deserialize_integral, serialize_integral, deserialize_vector,
  serialize_vector, deserialize_fixed, serialize_fixed,
}
use likelib_utonhack.Time.{Time, serialize_time, deserialize_time}
use likelib_utonhack.Address.{Address, serialize_address, deserialize_address}
use likelib_utonhack.Transaction.{Transaction, IsTransaction}
use likelib_utonhack.Transaction.Codec.{serialize_transaction, deserialize_transaction}
use likelib_utonhack.TransactionsSet.{TransactionsSet, set_eq, add}

-- The fields that MutableBlock and ImmutableBlock share; a MutableBlock is these fields.
pub record Fields : Type 0 where
  pub depth : ℕ
  pub nonce : ℕ
  pub prev_block_hash : Bytes
  pub timestamp : Time
  pub coinbase : Address
  pub txs : TransactionsSet

abbrev pub MutableBlock : Type 0
MutableBlock = Fields

-- ImmutableBlock: the fields and the hash that the constructor computes.
pub record ImmutableBlock : Type 0 where
  pub fields : Fields
  pub open fields use *
  pub this_block_hash : Bytes

-- The ranges of the fields' types.
pub record IsBlock (b : Fields) : Type 0 where
  pub depth_fits : b.depth < 2 ^ 64
  pub nonce_fits : b.nonce < 2 ^ 64
  pub prev_fixed : IsFixed 32 b.prev_block_hash
  pub timestamp_fits : b.timestamp < 2 ^ 32
  pub coinbase_fixed : IsFixed 20 b.coinbase
  pub txs_fit : length b.txs < 2 ^ 64
  pub txs_valid : All IsTransaction b.txs

-- TransactionsSet::serialize, and the serialize of both block classes.
unfoldable pub serialize_fields : External → Fields → Bytes
serialize_fields ext b =
    serialize_integral 8 b.depth
    ++ (serialize_integral 8 b.nonce
        ++ (serialize_fixed b.prev_block_hash
            ++ (serialize_time b.timestamp
                ++ (serialize_address b.coinbase
                    ++ serialize_vector (serialize_transaction ext) b.txs))))

-- ImmutableBlock::computeThisBlockHash, and the constructor.
unfoldable pub make_block : External → Fields → ImmutableBlock
make_block ext b = record { fields = b; this_block_hash = ext.sha256 (serialize_fields ext b) }

-- base::Sha256::compute(base::toBytes(block))
unfoldable pub compute_hash : External → ImmutableBlock → Bytes
compute_hash ext b = ext.sha256 (serialize_fields ext b.fields)

-- MutableBlock::deserialize
unfoldable pub deserialize_fields : External → Reader Fields
deserialize_fields ext = do
  depth ← deserialize_integral 8
  nonce ← deserialize_integral 8
  prev_block_hash ← deserialize_fixed 32
  timestamp ← deserialize_time
  coinbase ← deserialize_address
  txs ← deserialize_vector (deserialize_transaction ext)
  pure (record {
    depth = depth;
    nonce = nonce;
    prev_block_hash = prev_block_hash;
    timestamp = timestamp;
    coinbase = coinbase;
    txs = txs;
  })

-- ImmutableBlock::deserialize
unfoldable pub deserialize_block : External → Reader ImmutableBlock
unfolding make_block
deserialize_block ext = do fields ← deserialize_fields ext; pure (make_block ext fields)

-- operator== of two blocks
unfoldable pub block_eq : Fields → Fields → Bool
block_eq a b =
    (a.depth == b.depth)
    && ((a.nonce == b.nonce)
        && (bytes_eq a.prev_block_hash b.prev_block_hash
            && ((a.timestamp == b.timestamp)
                && (bytes_eq a.coinbase b.coinbase && set_eq a.txs b.txs))))

-- The setters of MutableBlock.
unfoldable pub set_nonce : ℕ → MutableBlock → MutableBlock
set_nonce n b = record b { nonce = n }

unfoldable pub set_timestamp : Time → MutableBlock → MutableBlock
set_timestamp t b = record b { timestamp = t }

unfoldable pub add_transaction : Transaction → MutableBlock → MutableBlock
add_transaction tx b = record b { txs = add b.txs tx }
