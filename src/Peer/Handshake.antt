-- ===== src/Peer/Handshake.antt =====
-- The handshake of core/peer.cpp: a session together with the pools that its peer may stand in. The
-- pools refer to the peer's object, so that a change of its address or endpoint shows in them.
use likelib_utonhack.Prelude.{
  ℕ, Bool, true, false, some, [], ◌∷◌, ◌==◌, if◌then◌else◌, nat_eq, bytes_equality,
}
use likelib_utonhack.Outcome.{Outcome, ok, raise}
use likelib_utonhack.Exec.{Exec}
use likelib_utonhack.Time.{Time}
use likelib_utonhack.Endpoint.{set_port}
use likelib_utonhack.Storage.{KeyValue}
use likelib_utonhack.Blockchain.{get_top_block_hash}
use likelib_utonhack.Core.{World}
use likelib_utonhack.Rating.{cannot_add_to_pool}
use likelib_utonhack.Message.{
  Message, Greeting, Lookup, connect, accepted, cannot_accept, lookup_response,
}
use likelib_utonhack.Pool.{
  PoolPeer, Pool, Bucket, get_public_endpoint, try_add_peer, all_peers_info,
}
use likelib_utonhack.Pool
use likelib_utonhack.Pool.Lookup.{Sort}
use likelib_utonhack.Pool.Removal.{BasicPool, basic_try_remove_peer, try_remove_peer}
use likelib_utonhack.Peer.{Peer, send, end_session, handle_received_top_block_hash}

-- base::config::NET_LOOKUP_ALPHA, and the number of RefusionReason::BUCKET_IS_FULL
abbrev pub lookup_alpha : ℕ
lookup_alpha = 5

abbrev pub bucket_is_full : ℕ
bucket_is_full = 1

pub record Session (kv : KeyValue) : Type 0 where
  pub peer : Peer kv
  pub self : PoolPeer
  pub handshaked : Pool
  pub non_handshaked : BasicPool
  pub is_started : Bool
  pub was_connected_to : Bool

-- The object as the pools see it.
abbrev pub renew : PoolPeer → Bucket → Bucket
renew self [] = []
renew self (p ∷ ps) = let rest = renew self ps in if p.id == self.id then self ∷ rest else p ∷ rest

-- What a Connect says of the peer; port 0 says nothing of its endpoint.
unfoldable pub introduced : Greeting → PoolPeer → PoolPeer
unfolding set_port
introduced m self =
    if m.public_port == 0 then record self { address = m.address } else record self {
      address = m.address;
      public_endpoint = some (set_port m.public_port self.endpoint);
    }

module _ (kv : KeyValue) (world : World) where
  abbrev pub set_self : PoolPeer → Session kv → Session kv
  set_self self s = record s {
    self = self;
    handshaked = record (s.handshaked) { buckets = λ i. renew self (s.handshaked.buckets i) };
    non_handshaked = renew self s.non_handshaked;
  }

  -- Peer::detachFromPools
  unfoldable pub detach_from_pools : Session kv → Session kv
  unfolding try_remove_peer basic_try_remove_peer
  detach_from_pools s = record s {
    handshaked = (try_remove_peer s.self.id s.handshaked).1;
    non_handshaked = (basic_try_remove_peer s.self.id s.non_handshaked).1;
  }

  -- A method of the synchronizer.
  abbrev pub on_peer : Exec (Peer kv) (Unit {0}) → Exec (Session kv) (Unit {0})
  on_peer m s = let r = m s.peer in (r.0, record s { peer = r.1 })

  -- Peer::startSession, with the host's public port.
  unfoldable pub start_session : ℕ → Session kv → Session kv
  start_session public_port s =
      let hello = connect (record {
        address = s.peer.core.this_node_address;
        public_port = public_port;
        top_block_hash = get_top_block_hash s.peer.core.blockchain.chain;
      }) in
      if s.is_started
      then s
      else if s.was_connected_to
      then record s { is_started = true; peer = send kv world hello s.peer }
      else record s { is_started = true }

  -- The end of both handlers where the pool has no place: a lower rating, and the peers that are known.
  unfoldable pub refuse : Exec (Session kv) (Unit {0})
  unfolding cannot_add_to_pool all_peers_info detach_from_pools end_session
  refuse s =
      let p = record (s.peer) { rating = cannot_add_to_pool kv s.peer.rating } in
      elim (all_peers_info s.handshaked) [
        | raise e ↦ (raise e, record s { peer = p })
        | ok infos ↦ (
          ok tt,
          record (detach_from_pools s) {
            peer =
                end_session kv world
                  (cannot_accept (record { why_not_accepted = bucket_is_full; peers_info = infos }))
                  p;
          },
        )
      ]

  -- Peer::handle of a Connect, where the peer was taken.
  unfoldable pub greet : Greeting → Exec (Session kv) (Unit {0})
  unfolding basic_try_remove_peer handle_received_top_block_hash
  greet m s =
      let s' = record s { non_handshaked = (basic_try_remove_peer s.self.id s.non_handshaked).1 } in
      elim (get_public_endpoint s'.self) [
        | raise e ↦ (raise e, s')
        | ok e ↦
            (let hello = accepted (record {
              address = s'.peer.core.this_node_address;
              public_port = e.port;
              top_block_hash = get_top_block_hash s'.peer.core.blockchain.chain;
            }) in
              let ask =
                Message.lookup
                  (record { address = s'.self.address; selection_size = lookup_alpha }) in
              on_peer (handle_received_top_block_hash kv world m.top_block_hash)
                (record s' { peer = send kv world ask (send kv world hello s'.peer) }))
      ]

  -- What follows tryAddToPool in a handler.
  abbrev pub after_adding :
      Exec (Session kv) (Unit {0})
      → Session kv
      → Outcome Bool × Pool
      → Outcome (Unit {0}) × Session kv
  after_adding taken s (raise e, pool) = (raise e, record s { handshaked = pool })
  after_adding taken s (ok true, pool) = taken (record s { handshaked = pool })
  after_adding taken s (ok false, pool) = refuse (record s { handshaked = pool })

  -- Peer::handle of a Connect
  unfoldable pub handle_connect : Time → Greeting → Exec (Session kv) (Unit {0})
  unfolding greet introduced try_add_peer
  handle_connect now m s =
      let s' = set_self (introduced m s.self) s in
      after_adding (greet m) s' (try_add_peer now s'.self s'.handshaked)

  -- Peer::handle of an Accepted
  unfoldable pub handle_accepted : Time → Greeting → Exec (Session kv) (Unit {0})
  unfolding try_add_peer basic_try_remove_peer handle_received_top_block_hash
  handle_accepted now m s =
      let s' = set_self (record (s.self) { address = m.address }) s in
      let ask = Message.lookup (record { address = m.address; selection_size = lookup_alpha }) in
      let s'' = record s' { peer = send kv world ask s'.peer } in
      after_adding
        (λ t.
          on_peer (handle_received_top_block_hash kv world m.top_block_hash)
            (record t { non_handshaked = (basic_try_remove_peer t.self.id t.non_handshaked).1 }))
        s'' (try_add_peer now s''.self s''.handshaked)

  -- Peer::handle of a Lookup
  unfoldable pub handle_lookup : Sort → Lookup → Exec (Session kv) (Unit {0})
  unfolding Pool.lookup
  handle_lookup sort m s = elim (Pool.lookup sort m.address m.selection_size s.handshaked) [
    | raise e ↦ (raise e, s)
    | ok found ↦ (
      ok tt,
      record s {
        peer =
            send kv world (lookup_response (record { address = m.address; peers_info = found }))
              s.peer;
      },
    )
  ]

  -- Peer::handle of a Close; the session itself is closed as well.
  unfoldable pub handle_close : Session kv → Session kv
  unfolding detach_from_pools
  handle_close s = record (detach_from_pools s) { peer = record (s.peer) { is_attached = false } }
