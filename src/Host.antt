-- ===== src/Host.antt =====
-- Host of core/host.hpp and core/host.cpp: to which endpoints a node connects, and the handlers of
-- core/peer.cpp that ask it to.
pub mod Connecting
use likelib_utonhack.Prelude.{
  ℕ, zero, suc, ◌+◌, ◌-◌, ◌*◌, ◌/◌, ◌%◌, ◌^◌, ◌≤◌, ◌<◌, min, max, ◌≡◌, refl, sym, ap, subst, ◌∙◌,
  ◌≡⟨◌⟩◌, ◌∎, ◌≢◌, ◌↔◌, ◌⊎◌, inl, inr, Bool, true, false, not, ◌&&◌, ◌||◌, Option, none, some, List,
  [], ◌∷◌, ◌++◌, map, append-nil, append_assoc, arith, ltb, leb, ◌==◌, if◌then◌else◌, lt→ltb,
  le→leb, ==_iff, Bool-cases, Option-cases, length, get_elem?, take, drop, replicate, length-append,
  length-take, length-replicate, drop-append, take-append, All, All-append, Eq, nat_eq, bytes_eq,
  bytes_eq_iff, bytes_equality, beq_refl,
}
use likelib_utonhack.Outcome.{Outcome, ok, raise, ◌>>=◌}
use likelib_utonhack.Exec
use likelib_utonhack.Exec.{Exec}
use likelib_utonhack.Bytes.{Bytes}
use likelib_utonhack.Address.{Address}
use likelib_utonhack.Endpoint.{Endpoint, Inet, endpoint_eq, serialize_endpoint}
use likelib_utonhack.Storage.{KeyValue}
use likelib_utonhack.Rating.{Rating, get_rating, is_good}
use likelib_utonhack.Message.{NodeIdentityInfo}
use likelib_utonhack.Pool.{Pool, remove_silent}
use likelib_utonhack.Pool.Removal.{BasicPool, has_endpoint, has_peer_with_endpoint}

-- The calls of the connector are recorded, the oldest first.
pub record Host (kv : KeyValue) : Type 0 where
  pub this_node_address : Address
  pub listen_ip : Endpoint
  pub ratings : kv.Store
  pub non_handshaked_peers : BasicPool
  pub handshaked_peers : Pool
  pub connector_in_process : List Endpoint
  pub connecting : List Endpoint

-- A std::set has the endpoint.
abbrev pub is_member : Endpoint → List Endpoint → Bool
is_member e [] = false
is_member e (x ∷ xs) = let rest = is_member e xs in if endpoint_eq x e then true else rest

abbrev pub without_endpoint : Endpoint → List Endpoint → List Endpoint
without_endpoint e [] = []
without_endpoint e (x ∷ xs) =
    let rest = without_endpoint e xs in if endpoint_eq x e then rest else x ∷ rest

module _ (kv : KeyValue) (inet : Inet) where
  -- Host::isConnectedTo
  unfoldable pub is_connected_to : Endpoint → Host kv → Outcome Bool
  is_connected_to e h = elim (has_endpoint e h.non_handshaked_peers) [
    | raise error ↦ raise error
    | ok true ↦ ok true
    | ok false ↦ has_peer_with_endpoint e h.handshaked_peers
  ]

  -- RatingManager::get, which writes the rating of a new endpoint.
  unfoldable pub rating_of : Endpoint → Host kv → Outcome (Rating kv)
  unfolding get_rating serialize_endpoint
  rating_of e h = get_rating kv (serialize_endpoint inet e) h.ratings

  -- The end of checkOutPeer, behind the tests for connections that are there or under way.
  unfoldable pub try_connect : Endpoint → Exec (Host kv) (Unit {0})
  unfolding rating_of is_good
  try_connect e h =
      let h' = record h { connector_in_process = e ∷ h.connector_in_process } in
      elim (rating_of e h') [
        | raise error ↦ (raise error, h')
        | ok r ↦
            if is_good kv r
            then (ok tt, record h' { ratings = r.db; connecting = h.connecting ++ e ∷ [] })
            else (ok tt, record h' { ratings = r.db })
      ]

  -- Host::checkOutPeer
  unfoldable pub check_out_peer : Endpoint → Address → Exec (Host kv) (Unit {0})
  unfolding is_connected_to try_connect
  check_out_peer e address h =
      if bytes_eq h.this_node_address address
      then (ok tt, h)
      else if endpoint_eq h.listen_ip e
      then (ok tt, h)
      else elim (is_connected_to e h) [
        | raise error ↦ (raise error, h)
        | ok true ↦ (ok tt, h)
        | ok false ↦ if is_member e h.connector_in_process then (ok tt, h) else try_connect e h
      ]

  -- The callbacks of the connector: the endpoint is not in process any more.
  unfoldable pub connector_done : Endpoint → Host kv → Host kv
  connector_done e h = record h { connector_in_process = without_endpoint e h.connector_in_process }

  -- Host::dropZombiePeers
  unfoldable pub drop_zombie_peers : Host kv → Host kv
  unfolding remove_silent
  drop_zombie_peers h = record h { handshaked_peers = remove_silent h.handshaked_peers }

  -- The loop of Peer::handle of a CannotAccept and of a LookupResponse over the peers that it names.
  unfoldable pub check_out_peers : List NodeIdentityInfo → Exec (Host kv) (Unit {0})
  unfolding rating_of is_good check_out_peer
  check_out_peers [] h = (ok tt, h)
  check_out_peers (i ∷ is) h = elim (rating_of i.endpoint h) [
    | raise error ↦ (raise error, h)
    | ok r ↦
        (let h' = record h { ratings = r.db } in
          let rest = check_out_peers is in
          if is_good kv r then Exec.◌>>◌ (check_out_peer i.endpoint i.address) rest h' else rest h')
  ]
