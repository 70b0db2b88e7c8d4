-- ===== src/Block/Codec.antt =====
-- The round trip of a block through its bytes.
use likelib_utonhack.Prelude.{◌≡◌, [], ◌∷◌, All, nat_eq, bytes_equality}
use likelib_utonhack.Outcome.{ok}
use likelib_utonhack.External.{External, HasDecimal}
use likelib_utonhack.Archive.{
  Reads, Reads-bind, Reads-map, integral-Reads, vector-Reads, fixed-Reads, from_bytes,
  from_bytes-Reads,
}
use likelib_utonhack.Time.{time-Reads}
use likelib_utonhack.Address.{address-Reads}
use likelib_utonhack.Transaction.{IsTransaction}
use likelib_utonhack.Transaction.Codec.{
  serialize_transaction, deserialize_transaction, transaction-Reads,
}
use likelib_utonhack.TransactionsSet.{TransactionsSet}
use likelib_utonhack.Block.{
  Fields, IsBlock, make_block, serialize_fields, deserialize_fields, deserialize_block,
}

module _ (ext : External) (dec : HasDecimal ext) where
  transactions-Reads :
      (txs : TransactionsSet)
      → All IsTransaction txs
      → All (λ tx. Reads (deserialize_transaction ext) tx (serialize_transaction ext tx)) txs
  transactions-Reads [] v = tt
  transactions-Reads (tx ∷ txs) v = (transaction-Reads ext tx dec v.0, transactions-Reads txs v.1)

  pub fields-Reads :
      (b : Fields) → IsBlock b → Reads (deserialize_fields ext) b (serialize_fields ext b)
  unfolding deserialize_fields serialize_fields
  fields-Reads b v = Reads-bind _ (integral-Reads 8 b.depth v.depth_fits) (
      Reads-bind _ (integral-Reads 8 b.nonce v.nonce_fits) (
        Reads-bind _ (fixed-Reads 32 b.prev_block_hash v.prev_fixed) (
          Reads-bind _ (time-Reads b.timestamp v.timestamp_fits) (
            Reads-bind _ (address-Reads b.coinbase v.coinbase_fixed) (
              Reads-map _
                (vector-Reads _ _ b.txs v.txs_fit (transactions-Reads b.txs v.txs_valid)))))))

  -- Where numbers are read back from their texts, a block whose fields and transactions lie in their
  -- types' ranges is read back from its bytes, hash included.
  pub from_bytes-serialize_block :
      (b : Fields)
      → IsBlock b
      → from_bytes (deserialize_block ext) (serialize_fields ext b) ≡ ok (make_block ext b)
  unfolding deserialize_block
  from_bytes-serialize_block b v =
      from_bytes-Reads _ (make_block ext b) _ (Reads-map (make_block ext) (fields-Reads b v))
