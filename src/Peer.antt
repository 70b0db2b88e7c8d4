-- ===== src/Peer.antt =====
-- core/peer.hpp and core/peer.cpp: what a node keeps of a session with a peer, the synchronizer, which
-- asks the peer for the blocks that the node lacks, and the handlers of messages that need neither the
-- pools of peers nor the host.
pub mod Synchronizer
pub mod Corrupt
pub mod Handshake
use likelib_utonhack.Prelude.{
  ℕ, zero, suc, ◌+◌, ◌-◌, ◌*◌, ◌/◌, ◌%◌, ◌^◌, ◌≤◌, ◌<◌, min, max, ◌≡◌, refl, sym, ap, subst, ◌∙◌,
  ◌≡⟨◌⟩◌, ◌∎, ◌≢◌, ◌↔◌, ◌⊎◌, inl, inr, Bool, true, false, not, ◌&&◌, ◌||◌, Option, none, some, List,
  [], ◌∷◌, ◌++◌, map, append-nil, append_assoc, arith, ltb, leb, ◌==◌, if◌then◌else◌, lt→ltb,
  le→leb, ==_iff, Bool-cases, Option-cases, length, get_elem?, take, drop, replicate, length-append,
  length-take, length-replicate, drop-append, take-append, All, All-append, Eq, nat_eq, bytes_eq,
  bytes_eq_iff, bytes_equality, beq_refl,
}
use mathlib.Core.List.{reverse}
use likelib_utonhack.Outcome.{Outcome, ok, raise, Error}
use likelib_utonhack.Exec.{Exec, ◌>>=◌, ◌>>◌, pure, throw}
use likelib_utonhack.Bytes.{Bytes}
use likelib_utonhack.Time.{Time}
use likelib_utonhack.Transaction.{Transaction}
use likelib_utonhack.Block.{ImmutableBlock, compute_hash}
use likelib_utonhack.Blockchain.{AdditionResult, added, find_block, get_top_block_hash}
use likelib_utonhack.Storage.{KeyValue}
use likelib_utonhack.Core.{Core, World, try_add_block, add_pending_transaction}
use likelib_utonhack.Rating.{
  Rating, is_good, non_expected_message, invalid_message, different_genesis,
}
use likelib_utonhack.Message.{Message, HashedBlock, get_block, block_not_found, close}
use likelib_utonhack.Message

-- Peer::State
pub data State : Type 0 where
  just_established requested_blocks synchronised : State

-- base::Sha256::null
abbrev pub null_hash : Bytes
null_hash = replicate 32 0

-- A Peer with its Synchronizer and the node's Core, which they refer to. What the peer is sent is
-- recorded, the oldest message first; a deque is a list, its front first.
pub record Peer (kv : KeyValue) : Type 0 where
  pub core : Core kv
  pub state : State
  pub rating : Rating kv
  pub requested_block : Option Bytes
  pub sync_blocks : List ImmutableBlock
  pub sent : List Message
  pub is_attached : Bool

module _ (kv : KeyValue) (world : World) where
  -- Requests::send
  abbrev pub send : Message → Peer kv → Peer kv
  send m p = record p { sent = p.sent ++ m ∷ [] }

  -- Peer::endSession: the peer leaves the pools and is sent a last message.
  unfoldable pub end_session : Message → Peer kv → Peer kv
  end_session m p = send m (record p { is_attached = false })

  -- A method of the node's core.
  abbrev pub on_core {ℓ} : {A : Type ℓ} → Exec (Core kv) A → Exec (Peer kv) A
  on_core m p = let r = m p.core in (r.0, record p { core = r.1 })

  -- Core::findBlock
  abbrev pub core_block : Bytes → Core kv → Option ImmutableBlock
  core_block hash c = find_block hash c.blockchain.chain

  -- Synchronizer::requestBlock and Peer::requestBlock
  unfoldable pub request_block : Bytes → Exec (Peer kv) (Unit {0})
  request_block hash p = elim p.requested_block [
    | some other ↦ (raise Error.runtime_error, p)
    | none ↦ (ok tt, record (send (get_block hash) p) { requested_block = some hash })
  ]

  -- Synchronizer::handleReceivedTopBlockHash
  unfoldable pub handle_received_top_block_hash : Bytes → Exec (Peer kv) (Unit {0})
  unfolding request_block
  handle_received_top_block_hash peers_top_block p =
      if bytes_eq peers_top_block (get_top_block_hash p.core.blockchain.chain)
      then (ok tt, record p { state = State.synchronised })
      else elim (core_block peers_top_block p.core) [
        | some b ↦ (ok tt, record p { state = State.synchronised })
        | none ↦
            (request_block peers_top_block >> λ q.
            (ok tt, record q { state = State.requested_blocks }))
              p
      ]

  -- The rest of the loop, unless the block was not added.
  abbrev pub go_on : Exec (Core kv) Bool → AdditionResult → Exec (Core kv) Bool
  go_on rest AdditionResult.added = rest
  go_on rest reason = pure false

  -- The loop over the blocks, the lowest first, up to one that is not added; true where all are.
  unfoldable pub add_blocks : Time → List ImmutableBlock → Exec (Core kv) Bool
  unfolding try_add_block
  add_blocks now [] = pure true
  add_blocks now (b ∷ bs) = try_add_block kv world now b >>= go_on (add_blocks now bs)

  -- A lower rating, and the end of the session where it is too low.
  unfoldable pub penalize : (Rating kv → Rating kv) → Peer kv → Peer kv
  unfolding is_good end_session
  penalize lowered p =
      let q = record p { rating = lowered p.rating } in
      if is_good kv q.rating then q else end_session close q

  -- Synchronizer::handleReceivedBlock behind the test that the block was asked for.
  unfoldable pub take_block : Time → ImmutableBlock → Exec (Peer kv) (Unit {0})
  unfolding add_blocks request_block penalize different_genesis
  take_block now block p =
      let q = record p { requested_block = none; sync_blocks = p.sync_blocks ++ block ∷ [] } in
      if bytes_eq block.prev_block_hash null_hash
      then (ok tt, penalize (different_genesis kv) q)
      else elim (core_block block.prev_block_hash q.core) [
        | some b ↦
            (on_core (add_blocks now (reverse q.sync_blocks)) >> λ q'.
            (ok tt, record q' { sync_blocks = [] }))
              q
        | none ↦ request_block block.prev_block_hash q
      ]

  -- Synchronizer::handleReceivedBlock
  unfoldable pub handle_received_block : Time → Bytes → ImmutableBlock → Exec (Peer kv) (Unit {0})
  unfolding take_block penalize non_expected_message invalid_message
  handle_received_block now hash block p =
      if not (bytes_eq hash block.this_block_hash)
      then (raise Error.assertion, p)
      else elim p.requested_block [
        | none ↦ (ok tt, penalize (non_expected_message kv) p)
        | some requested ↦
            if not (bytes_eq requested hash)
            then (ok tt, penalize (invalid_message kv) p)
            else take_block now block p
      ]

  -- Synchronizer::handleReceivedNewBlock
  unfoldable pub handle_received_new_block : Time → Bytes → ImmutableBlock → Exec (Peer kv) Bool
  unfolding try_add_block
  handle_received_new_block now hash block p =
      if not (bytes_eq hash block.this_block_hash)
      then (raise Error.assertion, p)
      else (on_core (try_add_block kv world now block) >>= λ r. elim r [
        | AdditionResult.added ↦ pure true
        | _ ↦ λ q. elim q.requested_block [
          | some requested ↦ (ok true, record q { sync_blocks = block ∷ q.sync_blocks })
          | none ↦
              (on_core (try_add_block kv world now block) >>= λ r'. elim r' [
                | AdditionResult.added ↦ pure true
                | _ ↦ pure false
              ])
                q
        ]
      ])
          p

  -- Synchronizer::isSynchronised
  abbrev pub is_synchronised : Peer kv → Bool
  is_synchronised p = elim p.requested_block [ none ↦ true | some hash ↦ false ]

  -- Peer::handle of a Block and of a NewBlock, whose hash is compared with the one of the block's bytes
  unfoldable pub handle_block : Time → HashedBlock → Exec (Peer kv) (Unit {0})
  unfolding handle_received_block compute_hash invalid_message
  handle_block now m p =
      if not (bytes_eq m.block_hash (compute_hash world.ext m.block))
      then (ok tt, record p { rating = invalid_message kv p.rating })
      else handle_received_block now m.block_hash m.block p

  unfoldable pub handle_new_block : Time → HashedBlock → Exec (Peer kv) (Unit {0})
  unfolding handle_received_new_block compute_hash invalid_message
  handle_new_block now m p =
      if not (bytes_eq m.block_hash (compute_hash world.ext m.block))
      then (ok tt, record p { rating = invalid_message kv p.rating })
      else (handle_received_new_block now m.block_hash m.block >>= λ r. pure tt) p

  -- Peer::handle of a GetBlock
  unfoldable pub handle_get_block : Bytes → Peer kv → Peer kv
  handle_get_block hash p = elim (core_block hash p.core) [
    | some b ↦ send (Message.block (record { block_hash = hash; block = b })) p
    | none ↦ send (block_not_found hash) p
  ]

  -- Peer::handle of a Transaction; the answer of addPendingTransaction is not looked at.
  unfoldable pub handle_transaction : Transaction → Exec (Peer kv) (Unit {0})
  unfolding add_pending_transaction
  handle_transaction tx = on_core (add_pending_transaction kv world tx) >>= λ status. pure tt
