-- ===== src/Miner/System.antt =====
-- The miner's threads as a system whose steps interleave in any order.
use likelib_utonhack.Prelude.{
  ℕ, ◌≡◌, ◌≢◌, List, [], ◌∷◌, ◌==◌, if◌then◌else◌, nat_eq, bytes_equality,
}
use likelib_utonhack.Outcome.{ok}
use likelib_utonhack.External.{External}
use likelib_utonhack.Block.{MutableBlock, ImmutableBlock}
use likelib_utonhack.Consensus.{Complexity}
use likelib_utonhack.Miner.{
  CommonState, Worker, Phase, waiting, mining, found, initial_state, call_handler_and_drop,
  find_nonce, drop_job, stop, read_task, attempt,
}

-- The shared state, the threads by their numbers, and all jobs that findNonce was called with, the
-- last one first, which no code reads.
pub record System : Type 0 where
  pub common : CommonState
  pub workers : ℕ → Worker
  pub jobs : List (MutableBlock × Complexity)

abbrev pub set_worker : ℕ → Worker → (ℕ → Worker) → ℕ → Worker
set_worker i w workers j = if i == j then w else workers j

abbrev pub starting : System
starting = record {
  common = initial_state;
  workers = λ i. record { last_read_version = 0; phase = waiting };
  jobs = [];
}

-- One access to the shared state, by a caller of the miner or by a thread, with the thread's own
-- computation up to the next one. The waiting threads wake where the version is not the one that they
-- have read.
pub data Step (ext : External) : System → System → Type 0 where
  request :
      (s : System) (b : MutableBlock) (c : Complexity)
      → Step ext s (record s { common = find_nonce b c s.common; jobs = (b, c) ∷ s.jobs })
  cancel : (s : System) → Step ext s (record s { common = drop_job s.common })
  close : (s : System) → Step ext s (record s { common = stop s.common })
  wake :
      (s : System) (i nonce : ℕ) (phase : Phase)
      → (s.workers i).phase ≡ waiting
      → s.common.version ≢ (s.workers i).last_read_version
      → read_task nonce s.common.common_data ≡ ok phase
      → Step ext s (record s {
        workers =
            set_worker i (record { last_read_version = s.common.version; phase = phase }) s.workers;
      })
  try_nonce :
      (s : System) (i : ℕ) (b : MutableBlock) (c : Complexity) (nonce : ℕ) (phase : Phase)
      → (s.workers i).phase ≡ mining b c nonce
      → s.common.version ≡ (s.workers i).last_read_version
      → attempt ext b c nonce ≡ ok phase
      → Step ext s
          (record s { workers = set_worker i (record (s.workers i) { phase = phase }) s.workers })
  leave :
      (s : System) (i : ℕ) (b : MutableBlock) (c : Complexity) (nonce : ℕ)
      → (s.workers i).phase ≡ mining b c nonce
      → s.common.version ≢ (s.workers i).last_read_version
      → Step ext s
          (record s { workers = set_worker i (record (s.workers i) { phase = waiting }) s.workers })
  hand_over :
      (s : System) (i : ℕ) (b : MutableBlock) (c : Complexity) (nonce : ℕ) (block : ImmutableBlock)
      → (s.workers i).phase ≡ found b c nonce block
      → Step ext s (record s {
        common = call_handler_and_drop block s.common;
        workers = set_worker i (record (s.workers i) { phase = mining b c nonce }) s.workers;
      })

pub data Reach (ext : External) : System → Type 0 where
  here : Reach ext starting
  later : {s t : System} → Reach ext s → Step ext s t → Reach ext t
