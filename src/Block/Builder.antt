-- ===== src/Block/Builder.antt =====
-- BlockBuilder of core/block.cpp.
use likelib_utonhack.Prelude.{ℕ, Option, none, some, nat_eq, bytes_equality}
use likelib_utonhack.Outcome.{Outcome, ok, raise, Error, ◌>>=◌}
use likelib_utonhack.Bytes.{Bytes}
use likelib_utonhack.Time.{Time}
use likelib_utonhack.Address.{Address}
use likelib_utonhack.External.{External}
use likelib_utonhack.TransactionsSet.{TransactionsSet}
use likelib_utonhack.Block.{Fields, ImmutableBlock, MutableBlock, make_block}

pub record BlockBuilder : Type 0 where
  pub depth : Option ℕ
  pub nonce : Option ℕ
  pub prev_block_hash : Option Bytes
  pub timestamp : Option Time
  pub coinbase : Option Address
  pub txs : Option TransactionsSet

unfoldable pub empty_builder : BlockBuilder
empty_builder = record {
  depth = none;
  nonce = none;
  prev_block_hash = none;
  timestamp = none;
  coinbase = none;
  txs = none;
}

unfoldable pub set_depth : ℕ → BlockBuilder → BlockBuilder
set_depth n b = record b { depth = some n }

unfoldable pub set_nonce : ℕ → BlockBuilder → BlockBuilder
set_nonce n b = record b { nonce = some n }

unfoldable pub set_prev_block_hash : Bytes → BlockBuilder → BlockBuilder
set_prev_block_hash h b = record b { prev_block_hash = some h }

unfoldable pub set_timestamp : Time → BlockBuilder → BlockBuilder
set_timestamp t b = record b { timestamp = some t }

unfoldable pub set_coinbase : Address → BlockBuilder → BlockBuilder
set_coinbase a b = record b { coinbase = some a }

unfoldable pub set_transactions_set : TransactionsSet → BlockBuilder → BlockBuilder
set_transactions_set txs b = record b { txs = some txs }

-- BlockBuilder::initFromBlock, which the two constructors from a block call.
unfoldable pub init_from_block : Fields → BlockBuilder → BlockBuilder
unfolding set_depth set_nonce set_prev_block_hash set_timestamp set_coinbase set_transactions_set
init_from_block b builder = set_transactions_set b.txs (
    set_coinbase b.coinbase (
      set_timestamp b.timestamp
        (set_prev_block_hash b.prev_block_hash (set_nonce b.nonce (set_depth b.depth builder)))))

-- raiseIfNotEverythingIsSet for one field, and its value.
abbrev required {ℓ} : {A : Type ℓ} → Option A → Outcome A
required none = raise Error.use_of_uninitialized_value
required (some a) = ok a

-- BlockBuilder::buildMutable
unfoldable pub build_mutable : BlockBuilder → Outcome MutableBlock
build_mutable b = do
  depth ← required b.depth
  nonce ← required b.nonce
  prev_block_hash ← required b.prev_block_hash
  timestamp ← required b.timestamp
  coinbase ← required b.coinbase
  txs ← required b.txs
  ok (record {
    depth = depth;
    nonce = nonce;
    prev_block_hash = prev_block_hash;
    timestamp = timestamp;
    coinbase = coinbase;
    txs = txs;
  })

-- BlockBuilder::buildImmutable
unfoldable pub build_immutable : External → BlockBuilder → Outcome ImmutableBlock
unfolding build_mutable make_block
build_immutable ext b = do fields ← build_mutable b; ok (make_block ext fields)
