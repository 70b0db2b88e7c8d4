-- ===== src/Peer/Corrupt.antt =====
-- Blocks that come with a hash which is not the one of their bytes.
use likelib_utonhack.Prelude.{
  ℕ, zero, suc, ◌+◌, ◌*◌, ◌%◌, ◌^◌, ◌≤◌, ◌<◌, ◌≡◌, refl, ◌∙◌, ◌≢◌, inl, inr, true, false, List, [],
  ◌∷◌, arith, Bool-cases, length, All, nat_eq, bytes_eq, bytes_eq_iff, bytes_equality,
}
use likelib_utonhack.Outcome.{ok}
use likelib_utonhack.Exec.{Exec, ◌>>◌, pure, bind-ok}
use likelib_utonhack.Time.{Time}
use likelib_utonhack.Block.{compute_hash}
use likelib_utonhack.Storage.{KeyValue}
use likelib_utonhack.Core.{World}
use likelib_utonhack.Rating.{Rating, initial_rating, is_good, lower_rating, invalid_message}
use likelib_utonhack.Message.{HashedBlock}
use likelib_utonhack.Peer.{Peer, handle_block, handle_new_block}

-- What a peer may send a block in.
pub data Delivery : Type 0 where
  answered : HashedBlock → Delivery
  announced : HashedBlock → Delivery

abbrev pub block_of : Delivery → HashedBlock
block_of (answered m) = m
block_of (announced m) = m

module _ (kv : KeyValue) (world : World) (now : Time) where
  -- The hash is not the one of the block's bytes.
  abbrev pub IsCorrupt : Delivery → Type 0
  IsCorrupt d = (block_of d).block_hash ≢ compute_hash world.ext (block_of d).block

  -- Peer::handle of a Block and of a NewBlock.
  abbrev pub receive : Delivery → Exec (Peer kv) (Unit {0})
  receive (answered m) = handle_block kv world now m
  receive (announced m) = handle_new_block kv world now m

  abbrev pub receive_each : List Delivery → Exec (Peer kv) (Unit {0})
  receive_each [] = pure tt
  receive_each (d ∷ ds) = receive d >> receive_each ds

  other_hash :
      (d : Delivery)
      → IsCorrupt d
      → bytes_eq (block_of d).block_hash (compute_hash world.ext (block_of d).block) ≡ false
  other_hash d h =
      elim (Bool-cases
        (bytes_eq (block_of d).block_hash (compute_hash world.ext (block_of d).block))) [
          | inl e ↦ absurd (h ((bytes_eq_iff _ _).0 e))
          | inr e ↦ e
        ]

  receive-corrupt :
      (d : Delivery) (p : Peer kv)
      → IsCorrupt d
      → receive d p ≡ (ok tt, record p { rating = lower_rating kv 30 p.rating })
  unfolding handle_block handle_new_block invalid_message
  receive-corrupt (answered m) p h = rw (handle_block, other_hash (answered m) h)
  receive-corrupt (announced m) p h = rw (handle_new_block, other_hash (announced m) h)

  abbrev lowered : ℕ → Rating kv → Rating kv
  lowered zero r = r
  lowered (suc n) r = lowered n (lower_rating kv 30 r)

  receive_each-lowered :
      (ds : List Delivery) (p : Peer kv)
      → All IsCorrupt ds
      → receive_each ds p ≡ (ok tt, record p { rating = lowered (length ds) p.rating })
  receive_each-lowered [] p h = refl
  receive_each-lowered (d ∷ ds) p h =
      bind-ok (receive d) (λ _. receive_each ds) (receive-corrupt d p h.0)
      ∙ receive_each-lowered ds (record p { rating = lower_rating kv 30 p.rating }) h.1

  lowered_value :
      (n : ℕ) (r : Rating kv)
      → r.data_of.value < 2 ^ 16
      → (lowered n r).data_of.value ≡ (r.data_of.value + 65506 * n) % 2 ^ 16
  unfolding lower_rating
  lowered_value zero r h = omega arith
  lowered_value (suc n) r h = omega (arith, lowered_value n (lower_rating kv 30 r) (omega arith))

  -- However many blocks a peer sends under hashes that are not theirs, in answers or announced, the session
  -- goes on, the peer is sent nothing, and nothing but its rating changes, which is an int16_t: let it be
  -- from 1 to 20 at first. Then it is bad after 1 to 1092 such blocks, and has wrapped around and is good
  -- again after 1093 to 2184.
  pub receive_each-corrupt :
      (ds : List Delivery) (p : Peer kv)
      → All IsCorrupt ds
      → 0 < p.rating.data_of.value
      → p.rating.data_of.value ≤ initial_rating
      → (r : Rating kv) × (receive_each ds p ≡ (ok tt, record p { rating = r }))
        × (1 ≤ length ds → length ds ≤ 1092 → is_good kv r ≡ false)
        × (1093 ≤ length ds → length ds ≤ 2184 → is_good kv r ≡ true)
  unfolding is_good
  receive_each-corrupt ds p h positive low =
      let n = length ds in
      let value = lowered_value n p.rating (omega arith) in
      (
        lowered n p.rating,
        receive_each-lowered ds p h,
        λ some_sent few. ground (arith, value),
        λ many not_more. ground (arith, value),
      )
