-- ===== src/Miner/Stale.antt =====
-- callHandlerAndDrop tests that there is some job, not that the block was found for it.
use likelib_utonhack.Prelude.{
  ℕ, ◌+◌, ◌%◌, ◌^◌, ◌≡◌, refl, true, [], ◌∷◌, arith, nat_eq, bytes_equality,
}
use likelib_utonhack.Outcome.{ok}
use likelib_utonhack.Bytes.{lt_bytes}
use likelib_utonhack.External.{External}
use likelib_utonhack.Block.{MutableBlock, make_block, serialize_fields, set_nonce}
use likelib_utonhack.Block.Builder.{init_from_block, build_immutable}
use likelib_utonhack.Consensus.{Complexity}
use likelib_utonhack.Miner.{
  Task, mining, found, without_job, find_nonce, call_handler_and_drop, initial_state, read_task,
  attempt,
}
use likelib_utonhack.Miner.System.{
  System, request, wake, try_nonce, hand_over, Reach, here, later, set_worker, starting,
}

module _ (ext : External) (b b' : MutableBlock) (c c' : Complexity) (nonce : ℕ) where
  abbrev asked : System
  asked = record starting { common = find_nonce b c starting.common; jobs = (b, c) ∷ [] }

  abbrev mined : MutableBlock
  mined = record b { nonce = nonce }

  abbrev next : ℕ
  next = (nonce + 1) % 2 ^ 64

  woken : Reach ext (record asked {
    workers =
        set_worker 0
          (record { last_read_version = asked.common.version; phase = mining b c nonce })
          asked.workers;
  })
  unfolding find_nonce initial_state read_task
  woken =
      later (later here (request starting b c))
        (wake asked 0 nonce (mining b c nonce) refl (omega arith) refl)

  attempt-found :
      lt_bytes (ext.sha256 (serialize_fields ext mined)) c.comparer ≡ true
      → attempt ext b c nonce ≡ ok (found mined c next (make_block ext mined))
  unfolding attempt set_nonce init_from_block build_immutable
  attempt-found h = rw (attempt, h)

  -- Let a nonce bring the hash of a job's block below its threshold. Then, whatever job comes second, a
  -- state can be reached in which findNonce was called with the first job and then with the second, the
  -- handler was called once, with the first job's block, and the second job is dropped: the
  -- thread had found the nonce before the second call and handed the block over after it.
  pub stale_block_drops_job :
      lt_bytes (ext.sha256 (serialize_fields ext mined)) c.comparer ≡ true
      → (s : System) × Reach ext s
        × (s.jobs ≡ (b', c') ∷ (b, c) ∷ [])
        × (s.common.handled ≡ make_block ext mined ∷ [])
        × (s.common.common_data ≡ without_job Task.drop_task)
  unfolding find_nonce initial_state call_handler_and_drop
  stale_block_drops_job h =
      let one = later woken (try_nonce _ 0 b c nonce _ refl refl (attempt-found h)) in
      let two = later one (request _ b' c') in
      (_, later two (hand_over _ 0 mined c next (make_block ext mined) refl), refl, refl, refl)
