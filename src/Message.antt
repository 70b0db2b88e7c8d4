-- ===== src/Message.antt =====
-- core/messages.hpp: the messages between nodes.
pub mod Codec
pub mod RoundTrip
use likelib_utonhack.Prelude.{
  ℕ, zero, suc, ◌+◌, ◌-◌, ◌*◌, ◌/◌, ◌%◌, ◌^◌, ◌≤◌, ◌<◌, min, max, ◌≡◌, refl, sym, ap, subst, ◌∙◌,
  ◌≡⟨◌⟩◌, ◌∎, ◌≢◌, ◌↔◌, ◌⊎◌, inl, inr, Bool, true, false, not, ◌&&◌, ◌||◌, Option, none, some, List,
  [], ◌∷◌, ◌++◌, map, append-nil, append_assoc, arith, ltb, leb, ◌==◌, if◌then◌else◌, lt→ltb,
  le→leb, ==_iff, Bool-cases, Option-cases, length, get_elem?, take, drop, replicate, length-append,
  length-take, length-replicate, drop-append, take-append, All, All-append, Eq, nat_eq, bytes_eq,
  bytes_eq_iff, bytes_equality, beq_refl,
}
use likelib_utonhack.Bytes.{Bytes, IsFixed}
use likelib_utonhack.External.{External}
use likelib_utonhack.Address.{Address}
use likelib_utonhack.Endpoint.{Endpoint, IsEndpoint}
use likelib_utonhack.Transaction.{Transaction, IsTransaction}
use likelib_utonhack.Block.{ImmutableBlock, IsBlock, make_block}

pub record NodeIdentityInfo : Type 0 where
  pub endpoint : Endpoint
  pub address : Address

-- Connect and Accepted, which have the same fields.
pub record Greeting : Type 0 where
  pub address : Address
  pub public_port : ℕ
  pub top_block_hash : Bytes

-- CannotAccept; the reason is the number of its enumerator.
pub record Refusal : Type 0 where
  pub why_not_accepted : ℕ
  pub peers_info : List NodeIdentityInfo

pub record Lookup : Type 0 where
  pub address : Address
  pub selection_size : ℕ

pub record LookupResponse : Type 0 where
  pub address : Address
  pub peers_info : List NodeIdentityInfo

-- Block and NewBlock, which have the same fields.
pub record HashedBlock : Type 0 where
  pub block_hash : Bytes
  pub block : ImmutableBlock

-- The structs of namespace msg.
pub data Message : Type 0 where
  connect accepted : Greeting → Message
  cannot_accept : Refusal → Message
  ping pong close : Message
  lookup : Lookup → Message
  lookup_response : LookupResponse → Message
  transaction : Transaction → Message
  get_block block_not_found : Bytes → Message
  block new_block : HashedBlock → Message

-- TYPE_ID, the enumerators of Type from DEBUG_MIN = 0 on.
unfoldable pub type_id : Message → ℕ
type_id (connect m) = 1
type_id (cannot_accept m) = 2
type_id (accepted m) = 3
type_id ping = 4
type_id pong = 5
type_id (lookup m) = 6
type_id (lookup_response m) = 7
type_id (transaction tx) = 8
type_id (get_block hash) = 9
type_id (block m) = 10
type_id (block_not_found hash) = 11
type_id (new_block m) = 12
type_id close = 13

-- The ranges of the fields' types.
pub record IsInfo (i : NodeIdentityInfo) : Type 0 where
  pub endpoint_valid : IsEndpoint i.endpoint
  pub address_fixed : IsFixed 20 i.address

pub record IsGreeting (m : Greeting) : Type 0 where
  pub address_fixed : IsFixed 20 m.address
  pub port_fits : m.public_port < 2 ^ 16
  pub hash_fixed : IsFixed 32 m.top_block_hash

-- An ImmutableBlock has the hash that its constructor computed.
pub record IsHashedBlock (ext : External) (m : HashedBlock) : Type 0 where
  pub hash_fixed : IsFixed 32 m.block_hash
  pub fields_valid : IsBlock m.block.fields
  pub computed : make_block ext m.block.fields ≡ m.block

abbrev pub IsMessage : External → Message → Type 0
IsMessage ext (connect m) = IsGreeting m
IsMessage ext (accepted m) = IsGreeting m
IsMessage ext (cannot_accept m) =
    (m.why_not_accepted < 256) × (length m.peers_info < 2 ^ 64) × All IsInfo m.peers_info
IsMessage ext ping = Unit {0}
IsMessage ext pong = Unit {0}
IsMessage ext close = Unit {0}
IsMessage ext (lookup m) = IsFixed 20 m.address × (m.selection_size < 256)
IsMessage ext (lookup_response m) =
    IsFixed 20 m.address × (length m.peers_info < 2 ^ 64) × All IsInfo m.peers_info
IsMessage ext (transaction tx) = IsTransaction tx
IsMessage ext (get_block hash) = IsFixed 32 hash
IsMessage ext (block_not_found hash) = IsFixed 32 hash
IsMessage ext (block m) = IsHashedBlock ext m
IsMessage ext (new_block m) = IsHashedBlock ext m
