-- ===== src/Message/RoundTrip.antt =====
-- A message is received as it was sent.
use likelib_utonhack.Prelude.{
  ℕ, ◌^◌, ◌<◌, ◌≡◌, subst, some, List, [], ◌∷◌, arith, All, nat_eq, bytes_equality,
}
use likelib_utonhack.Outcome.{ok}
use likelib_utonhack.External.{External, HasDecimal}
use likelib_utonhack.Archive.{
  Reads, Reads-pure, Reads-bind, Reads-map, integral-Reads, vector-Reads, fixed-Reads,
  from_bytes-Reads,
}
use likelib_utonhack.Address.{address-Reads}
use likelib_utonhack.Endpoint.{Inet, HasInet, endpoint-Reads}
use likelib_utonhack.Transaction.Codec.{transaction-Reads}
use likelib_utonhack.Block.{make_block, deserialize_block, serialize_fields}
use likelib_utonhack.Block.Codec.{fields-Reads}
use likelib_utonhack.Message.{
  NodeIdentityInfo, Greeting, HashedBlock, Message, connect, accepted, cannot_accept, ping, pong,
  close, lookup, lookup_response, transaction, get_block, block_not_found, block, new_block,
  type_id, IsInfo, IsGreeting, IsHashedBlock, IsMessage,
}
use likelib_utonhack.Message.Codec.{
  serialize_info, deserialize_info, serialize_greeting, deserialize_greeting, serialize_refusal,
  deserialize_refusal, serialize_lookup, deserialize_lookup, serialize_lookup_response,
  deserialize_lookup_response, serialize_hashed, deserialize_hashed, serialize_body,
  deserialize_body, prepare_message, receive_message,
}

module _ (ext : External) (inet : Inet) (dec : HasDecimal ext) (law : HasInet inet) where
  info-Reads :
      (i : NodeIdentityInfo)
      → IsInfo i
      → Reads (deserialize_info ext inet) i (serialize_info ext inet i)
  unfolding deserialize_info serialize_info
  info-Reads i v =
      Reads-bind _ (endpoint-Reads inet i.endpoint law v.endpoint_valid)
        (Reads-map _ (address-Reads i.address v.address_fixed))

  infos-Reads :
      (is : List NodeIdentityInfo)
      → All IsInfo is
      → All (λ i. Reads (deserialize_info ext inet) i (serialize_info ext inet i)) is
  infos-Reads [] v = tt
  infos-Reads (i ∷ is) v = (info-Reads i v.0, infos-Reads is v.1)

  greeting-Reads :
      (m : Greeting)
      → IsGreeting m
      → Reads (deserialize_greeting ext inet) m (serialize_greeting ext inet m)
  unfolding deserialize_greeting serialize_greeting
  greeting-Reads m v = Reads-bind _ (address-Reads m.address v.address_fixed) (
      Reads-bind _ (integral-Reads 2 m.public_port v.port_fits)
        (Reads-map _ (fixed-Reads 32 m.top_block_hash v.hash_fixed)))

  hashed-Reads :
      (m : HashedBlock)
      → IsHashedBlock ext m
      → Reads (deserialize_hashed ext inet) m (serialize_hashed ext inet m)
  unfolding deserialize_hashed serialize_hashed deserialize_block
  hashed-Reads m v =
      let whole : Reads (deserialize_block ext) m.block (serialize_fields ext m.block.fields) =
        subst (λ b. Reads (deserialize_block ext) b (serialize_fields ext m.block.fields))
          v.computed
          (Reads-map (make_block ext) (fields-Reads ext dec m.block.fields v.fields_valid)) in
      Reads-bind _ (fixed-Reads 32 m.block_hash v.hash_fixed) (Reads-map _ whole)

  body-Reads :
      (m : Message)
      → IsMessage ext m
      → Reads (deserialize_body ext inet (type_id m)) (some m) (serialize_body ext inet m)
  unfolding deserialize_body serialize_body type_id deserialize_refusal serialize_refusal
      deserialize_lookup serialize_lookup deserialize_lookup_response serialize_lookup_response
  body-Reads (connect m) v = Reads-map _ (greeting-Reads m v)
  body-Reads (accepted m) v = Reads-map _ (greeting-Reads m v)
  body-Reads (cannot_accept m) v = Reads-map _ (
      Reads-bind _ (integral-Reads 1 m.why_not_accepted v.0)
        (Reads-map _ (vector-Reads _ _ m.peers_info v.1 (infos-Reads m.peers_info v.2))))
  body-Reads ping v = Reads-pure (some ping)
  body-Reads pong v = Reads-pure (some pong)
  body-Reads close v = Reads-pure (some close)
  body-Reads (lookup m) v = Reads-map _ (
      Reads-bind _ (address-Reads m.address v.0)
        (Reads-map _ (integral-Reads 1 m.selection_size v.1)))
  body-Reads (lookup_response m) v = Reads-map _ (
      Reads-bind _ (address-Reads m.address v.0)
        (Reads-map _ (vector-Reads _ _ m.peers_info v.1 (infos-Reads m.peers_info v.2))))
  body-Reads (transaction tx) v = Reads-map _ (transaction-Reads ext tx dec v)
  body-Reads (get_block hash) v = Reads-map _ (fixed-Reads 32 hash v)
  body-Reads (block_not_found hash) v = Reads-map _ (fixed-Reads 32 hash v)
  body-Reads (block m) v = Reads-map _ (hashed-Reads m v)
  body-Reads (new_block m) v = Reads-map _ (hashed-Reads m v)

  type_id-fits : (m : Message) → type_id m < 256 ^ 1
  unfolding type_id
  type_id-fits (connect m) = omega arith
  type_id-fits (accepted m) = omega arith
  type_id-fits (cannot_accept m) = omega arith
  type_id-fits ping = omega arith
  type_id-fits pong = omega arith
  type_id-fits close = omega arith
  type_id-fits (lookup m) = omega arith
  type_id-fits (lookup_response m) = omega arith
  type_id-fits (transaction tx) = omega arith
  type_id-fits (get_block hash) = omega arith
  type_id-fits (block_not_found hash) = omega arith
  type_id-fits (block m) = omega arith
  type_id-fits (new_block m) = omega arith

  -- Every message whose fields lie in their types' ranges, whose blocks have the hash that their
  -- constructor computes, is received from its bytes with the id that it was prepared with; the id of
  -- the next message is in the range of a uint16_t again. Where numbers, addresses and ports are read
  -- back from their texts.
  pub receive_message-prepare_message :
      (id : ℕ) (m : Message)
      → id < 2 ^ 16
      → IsMessage ext m
      → (receive_message ext inet (prepare_message ext inet id m).0 ≡ ok (id, some m))
        × ((prepare_message ext inet id m).1 < 2 ^ 16)
  unfolding receive_message prepare_message
  receive_message-prepare_message id m fits v = (
    from_bytes-Reads _ _ _ (
        Reads-bind _ (integral-Reads 2 id fits) (
          Reads-bind _ (integral-Reads 1 (type_id m) (type_id-fits m))
            (Reads-map _ (body-Reads m v)))),
    omega arith,
  )
