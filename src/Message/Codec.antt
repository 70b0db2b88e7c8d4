-- ===== src/Message/Codec.antt =====
-- The serialization of core/messages.cpp, the envelope of Requests::prepareMessage in core/peer.tpp,
-- and the dispatch of Requests::onMessageReceive and Peer::process in core/peer.cpp.
use likelib_utonhack.Prelude.{
  ℕ, ◌+◌, ◌%◌, ◌^◌, Option, none, some, [], ◌++◌, ◌==◌, if◌then◌else◌, nat_eq, bytes_equality,
}
use likelib_utonhack.Outcome.{Outcome}
use likelib_utonhack.Bytes.{Bytes}
use likelib_utonhack.External.{External}
use likelib_utonhack.Archive.{
  Reader, pure, ◌>>=◌, deserialize_integral, serialize_integral, deserialize_vector,
  serialize_vector, deserialize_fixed, serialize_fixed, from_bytes,
}
use likelib_utonhack.Address.{serialize_address, deserialize_address}
use likelib_utonhack.Endpoint.{Inet, serialize_endpoint, deserialize_endpoint}
use likelib_utonhack.Transaction.Codec.{serialize_transaction, deserialize_transaction}
use likelib_utonhack.Block.{serialize_fields, deserialize_block}
use likelib_utonhack.Message.{
  NodeIdentityInfo, Greeting, Refusal, Lookup, LookupResponse, HashedBlock, Message, connect,
  accepted, cannot_accept, ping, pong, close, lookup, lookup_response, transaction, get_block,
  block_not_found, block, new_block, type_id,
}

module _ (ext : External) (inet : Inet) where
  -- NodeIdentityInfo::serialize, NodeIdentityInfo::deserialize
  unfoldable pub serialize_info : NodeIdentityInfo → Bytes
  serialize_info i = serialize_endpoint inet i.endpoint ++ serialize_address i.address

  unfoldable pub deserialize_info : Reader NodeIdentityInfo
  deserialize_info = do
    endpoint ← deserialize_endpoint inet
    address ← deserialize_address
    pure (record { endpoint = endpoint; address = address })

  -- Connect::serialize and Accepted::serialize, and their deserialize
  unfoldable pub serialize_greeting : Greeting → Bytes
  serialize_greeting m =
      serialize_address m.address
      ++ (serialize_integral 2 m.public_port ++ serialize_fixed m.top_block_hash)

  unfoldable pub deserialize_greeting : Reader Greeting
  deserialize_greeting = do
    address ← deserialize_address
    public_port ← deserialize_integral 2
    top_block_hash ← deserialize_fixed 32
    pure (record { address = address; public_port = public_port; top_block_hash = top_block_hash })

  -- CannotAccept::serialize, CannotAccept::deserialize
  unfoldable pub serialize_refusal : Refusal → Bytes
  unfolding serialize_info
  serialize_refusal m =
      serialize_integral 1 m.why_not_accepted ++ serialize_vector serialize_info m.peers_info

  unfoldable pub deserialize_refusal : Reader Refusal
  unfolding deserialize_info
  deserialize_refusal = do
    why_not_accepted ← deserialize_integral 1
    peers_info ← deserialize_vector deserialize_info
    pure (record { why_not_accepted = why_not_accepted; peers_info = peers_info })

  -- Lookup::serialize, Lookup::deserialize
  unfoldable pub serialize_lookup : Lookup → Bytes
  serialize_lookup m = serialize_address m.address ++ serialize_integral 1 m.selection_size

  unfoldable pub deserialize_lookup : Reader Lookup
  deserialize_lookup = do
    address ← deserialize_address
    selection_size ← deserialize_integral 1
    pure (record { address = address; selection_size = selection_size })

  -- LookupResponse::serialize, LookupResponse::deserialize
  unfoldable pub serialize_lookup_response : LookupResponse → Bytes
  unfolding serialize_info
  serialize_lookup_response m =
      serialize_address m.address ++ serialize_vector serialize_info m.peers_info

  unfoldable pub deserialize_lookup_response : Reader LookupResponse
  unfolding deserialize_info
  deserialize_lookup_response = do
    address ← deserialize_address
    peers_info ← deserialize_vector deserialize_info
    pure (record { address = address; peers_info = peers_info })

  -- Block::serialize and NewBlock::serialize, and their deserialize
  unfoldable pub serialize_hashed : HashedBlock → Bytes
  serialize_hashed m = serialize_fixed m.block_hash ++ serialize_fields ext m.block.fields

  unfoldable pub deserialize_hashed : Reader HashedBlock
  deserialize_hashed = do
    block_hash ← deserialize_fixed 32
    body ← deserialize_block ext
    pure (record { block_hash = block_hash; block = body })

  -- The serialize of each struct; Transaction, GetBlock and BlockNotFound have one field, Ping, Pong and
  -- Close have none.
  unfoldable pub serialize_body : Message → Bytes
  unfolding serialize_greeting serialize_refusal serialize_lookup serialize_lookup_response
      serialize_hashed
  serialize_body (connect m) = serialize_greeting m
  serialize_body (cannot_accept m) = serialize_refusal m
  serialize_body (accepted m) = serialize_greeting m
  serialize_body ping = []
  serialize_body pong = []
  serialize_body (lookup m) = serialize_lookup m
  serialize_body (lookup_response m) = serialize_lookup_response m
  serialize_body (transaction tx) = serialize_transaction ext tx
  serialize_body (get_block hash) = serialize_fixed hash
  serialize_body (block m) = serialize_hashed m
  serialize_body (block_not_found hash) = serialize_fixed hash
  serialize_body (new_block m) = serialize_hashed m
  serialize_body close = []

  -- The switch of Peer::process; none stands for its default case.
  unfoldable pub deserialize_body : ℕ → Reader (Option Message)
  unfolding deserialize_greeting deserialize_refusal deserialize_lookup deserialize_lookup_response
      deserialize_hashed
  deserialize_body n =
      if n == 1
      then (deserialize_greeting >>= λ m. pure (some (connect m)))
      else if n == 2
      then (deserialize_refusal >>= λ m. pure (some (cannot_accept m)))
      else if n == 3
      then (deserialize_greeting >>= λ m. pure (some (accepted m)))
      else if n == 4
      then pure (some ping)
      else if n == 5
      then pure (some pong)
      else if n == 6
      then (deserialize_lookup >>= λ m. pure (some (lookup m)))
      else if n == 7
      then (deserialize_lookup_response >>= λ m. pure (some (lookup_response m)))
      else if n == 8
      then (deserialize_transaction ext >>= λ tx. pure (some (transaction tx)))
      else if n == 9
      then (deserialize_fixed 32 >>= λ hash. pure (some (get_block hash)))
      else if n == 10
      then (deserialize_hashed >>= λ m. pure (some (block m)))
      else if n == 11
      then (deserialize_fixed 32 >>= λ hash. pure (some (block_not_found hash)))
      else if n == 12
      then (deserialize_hashed >>= λ m. pure (some (new_block m)))
      else if n == 13
      then pure (some close)
      else pure none

  -- Requests::prepareMessage: the message's id, its type and the struct; the id that comes next is a
  -- uint16_t.
  unfoldable pub prepare_message : ℕ → Message → Bytes × ℕ
  unfolding serialize_body
  prepare_message next_message_id m = (
    serialize_integral 2 next_message_id ++ (serialize_integral 1 (type_id m) ++ serialize_body m),
    (next_message_id + 1) % 2 ^ 16,
  )

  -- Requests::onMessageReceive, where no request waits for the id, and Peer::process up to the call of
  -- a handler: the id and the message.
  unfoldable pub receive_message : Bytes → Outcome (ℕ × Option Message)
  unfolding deserialize_body
  receive_message = from_bytes (do
    msg_id ← deserialize_integral 2
    msg_type ← deserialize_integral 1
    m ← deserialize_body msg_type
    pure (msg_id, m))
