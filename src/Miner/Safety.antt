-- ===== src/Miner/Safety.antt =====
-- What the miner hands over, in any interleaving of its threads with the calls of its methods.
use likelib_utonhack.Prelude.{
  ℕ, ◌+◌, ◌≤◌, ◌≡◌, refl, ap, subst, inl, inr, true, false, Option, none, some, List, [], ◌∷◌,
  arith, ◌==◌, if◌then◌else◌, Bool-cases, length, length-append, All, All-append, nat_eq,
  bytes_equality,
}
use likelib_utonhack.Outcome.{Outcome, ok, raise}
use likelib_utonhack.Bytes.{lt_bytes}
use likelib_utonhack.External.{External}
use likelib_utonhack.Block.{MutableBlock, ImmutableBlock, make_block, serialize_fields, set_nonce}
use likelib_utonhack.Block.Builder.{init_from_block, build_immutable}
use likelib_utonhack.Consensus.{Complexity}
use likelib_utonhack.Miner.{
  CommonState, CommonData, Task, Worker, Phase, waiting, stopped, mining, found, is_find,
  set_common_data, find_nonce, drop_job, stop, call_handler_and_drop, initial_state, read_task,
  attempt,
}
use likelib_utonhack.Miner.System.{
  System, Step, request, cancel, close, wake, try_nonce, leave, hand_over, Reach, here, later,
  set_worker, starting,
}

-- findNonce was called with the block and the complexity.
pub data IsJob (b : MutableBlock) (c : Complexity) : List (MutableBlock × Complexity) → Type 0 where
  newest : {jobs : List (MutableBlock × Complexity)} → IsJob b c ((b, c) ∷ jobs)
  older :
      {job : MutableBlock × Complexity} {jobs : List (MutableBlock × Complexity)}
      → IsJob b c jobs
      → IsJob b c (job ∷ jobs)

module _ (ext : External) where
  -- A job's block with some nonce.
  abbrev IsTask : List (MutableBlock × Complexity) → MutableBlock → Complexity → Type 0
  IsTask jobs b c = (b₀ : MutableBlock) × IsJob b₀ c jobs × (b ≡ record b₀ { nonce = b.nonce })

  -- The block is a job's block with some nonce, and its hash is below the job's threshold.
  pub record IsMined (jobs : List (MutableBlock × Complexity)) (block : ImmutableBlock)
      : Type 0 where
    pub given : MutableBlock
    pub complexity : Complexity
    pub job : IsJob given complexity jobs
    pub nonce : ℕ
    pub built : block ≡ make_block ext (record given { nonce = nonce })
    pub below : lt_bytes block.this_block_hash complexity.comparer ≡ true

  abbrev FitsPhase : List (MutableBlock × Complexity) → Phase → Type 0
  FitsPhase jobs waiting = Unit {0}
  FitsPhase jobs stopped = Unit {0}
  FitsPhase jobs (mining b c nonce) = IsTask jobs b c
  FitsPhase jobs (found b c nonce block) = IsTask jobs b c × IsMined jobs block

  abbrev FitsOutcome : List (MutableBlock × Complexity) → Outcome Phase → Type 0
  FitsOutcome jobs (ok phase) = FitsPhase jobs phase
  FitsOutcome jobs (raise e) = Unit {0}

  older-IsMined :
      (job : MutableBlock × Complexity) (jobs : List (MutableBlock × Complexity))
      (block : ImmutableBlock)
      → IsMined jobs block
      → IsMined (job ∷ jobs) block
  older-IsMined job jobs block m = record {
    given = m.given;
    complexity = m.complexity;
    job = older m.job;
    nonce = m.nonce;
    built = m.built;
    below = m.below;
  }

  older-FitsPhase :
      (job : MutableBlock × Complexity) (jobs : List (MutableBlock × Complexity)) (phase : Phase)
      → FitsPhase jobs phase
      → FitsPhase (job ∷ jobs) phase
  older-FitsPhase job jobs waiting h = tt
  older-FitsPhase job jobs stopped h = tt
  older-FitsPhase job jobs (mining b c nonce) h = (h.0, older h.1, h.2)
  older-FitsPhase job jobs (found b c nonce block) h =
      let (t, m) = h in ((t.0, older t.1, t.2), older-IsMined job jobs block m)

  attempt-FitsOutcome :
      (jobs : List (MutableBlock × Complexity)) (b : MutableBlock) (c : Complexity) (nonce : ℕ)
      → IsTask jobs b c
      → FitsOutcome jobs (attempt ext b c nonce)
  unfolding attempt set_nonce init_from_block build_immutable make_block
  attempt-FitsOutcome jobs b c nonce (b₀, job, same) =
      let b' : MutableBlock = record b { nonce = nonce } in
      let same' : b' ≡ record b₀ { nonce = nonce } =
        ap (λ (k : MutableBlock). record k { nonce = nonce }) same in
      elim (Bool-cases (lt_bytes (ext.sha256 (serialize_fields ext b')) c.comparer)) [
        | inl e ↦ rw e (
          (b₀, job, same'),
          record {
            given = b₀;
            complexity = c;
            job = job;
            nonce = nonce;
            built = ap (make_block ext) same';
            below = e;
          },
        )
        | inr e ↦ rw e (b₀, job, same')
      ]

  -- What a job in the shared state is.
  abbrev FitsData : List (MutableBlock × Complexity) → CommonData → Type 0
  FitsData jobs job =
      (b : MutableBlock) (c : Complexity)
      → job.block_to_mine ≡ some b
      → job.complexity ≡ some c
      → IsJob b c jobs

  read_task-FitsOutcome :
      (jobs : List (MutableBlock × Complexity)) (nonce : ℕ) (task : Task) (b : Option MutableBlock)
      (c : Option Complexity)
      → FitsData jobs (record { task = task; block_to_mine = b; complexity = c })
      → FitsOutcome jobs
          (read_task nonce (record { task = task; block_to_mine = b; complexity = c }))
  unfolding read_task
  read_task-FitsOutcome jobs nonce Task.no_task b c h = tt
  read_task-FitsOutcome jobs nonce Task.exit_task b c h = tt
  read_task-FitsOutcome jobs nonce Task.drop_task b c h = tt
  read_task-FitsOutcome jobs nonce Task.find_task none c h = tt
  read_task-FitsOutcome jobs nonce Task.find_task (some b) none h = tt
  read_task-FitsOutcome jobs nonce Task.find_task (some b) (some c) h = (b, h b c refl refl, refl)

  abbrev open_jobs : CommonState → ℕ
  open_jobs s = if is_find s.common_data.task then 1 else 0

  record IsSafe (s : System) : Type 0 where
    phases : (i : ℕ) → FitsPhase s.jobs (s.workers i).phase
    given : FitsData s.jobs s.common.common_data
    mined : All (IsMined s.jobs) s.common.handled
    counted : length s.common.handled + open_jobs s.common ≤ length s.jobs

  starting-IsSafe : IsSafe starting
  unfolding initial_state
  starting-IsSafe = record {
    phases = λ i. tt;
    given = λ b c h k. absurd cc;
    mined = tt;
    counted = omega arith;
  }

  FitsPhase-set_worker :
      (jobs : List (MutableBlock × Complexity)) (i : ℕ) (w : Worker) (workers : ℕ → Worker)
      → FitsPhase jobs w.phase
      → ((j : ℕ) → FitsPhase jobs (workers j).phase)
      → (j : ℕ) → FitsPhase jobs (set_worker i w workers j).phase
  FitsPhase-set_worker jobs i w workers h hs j = elim (Bool-cases (i == j)) [
    | inl e ↦ rw e h
    | inr e ↦ rw e (hs j)
  ]

  All-older-IsMined :
      (job : MutableBlock × Complexity) (jobs : List (MutableBlock × Complexity))
      (blocks : List ImmutableBlock)
      → All (IsMined jobs) blocks
      → All (IsMined (job ∷ jobs)) blocks
  All-older-IsMined job jobs [] h = tt
  All-older-IsMined job jobs (block ∷ blocks) h =
      (older-IsMined job jobs block h.0, All-older-IsMined job jobs blocks h.1)

  no_job :
      (jobs : List (MutableBlock × Complexity)) (task : Task)
      → FitsData jobs (record { task = task; block_to_mine = none; complexity = none })
  no_job jobs task b c h k = absurd cc

  request-IsSafe :
      (s : System) (b : MutableBlock) (c : Complexity)
      → IsSafe s
      → IsSafe (record s { common = find_nonce b c s.common; jobs = (b, c) ∷ s.jobs })
  unfolding find_nonce
  request-IsSafe s b c v = record {
    phases = λ i. older-FitsPhase (b, c) s.jobs (s.workers i).phase (v.phases i);
    given = λ b' c' h k.
        let same : b ≡ b' = cc in
        let same' : c ≡ c' = cc in
        subst (λ x. IsJob x c' ((b, c) ∷ s.jobs)) same
          (subst (λ x. IsJob b x ((b, c) ∷ s.jobs)) same' newest);
    mined = All-older-IsMined (b, c) s.jobs s.common.handled v.mined;
    counted = omega (arith, v.counted);
  }

  no_job-IsSafe :
      (s : System) (task : Task)
      → is_find task ≡ false
      → IsSafe s
      → IsSafe (record s {
        common =
            set_common_data
              (record { task = task; block_to_mine = none; complexity = none })
              s.common;
      })
  unfolding set_common_data
  no_job-IsSafe s task h v = record {
    phases = v.phases;
    given = no_job s.jobs task;
    mined = v.mined;
    counted = ground (arith, v.counted);
  }

  set_worker-IsSafe :
      (s : System) (i : ℕ) (w : Worker)
      → FitsPhase s.jobs w.phase
      → IsSafe s
      → IsSafe (record s { workers = set_worker i w s.workers })
  set_worker-IsSafe s i w h v = record {
    phases = FitsPhase-set_worker s.jobs i w s.workers h v.phases;
    given = v.given;
    mined = v.mined;
    counted = v.counted;
  }

  hand_over-IsSafe :
      (s : System) (block : ImmutableBlock)
      → IsMined s.jobs block
      → IsSafe s
      → IsSafe (record s { common = call_handler_and_drop block s.common })
  unfolding call_handler_and_drop
  hand_over-IsSafe s block m v = elim (Bool-cases (is_find s.common.common_data.task)) [
    | inl e ↦ rw e (record {
      phases = v.phases;
      given = no_job s.jobs Task.drop_task;
      mined = All-append (IsMined s.jobs) s.common.handled (block ∷ []) v.mined (m, tt);
      counted = ground (arith, v.counted, e, length-append s.common.handled (block ∷ []));
    })
    | inr e ↦ rw e v
  ]

  phase_of :
      {s : System} (i : ℕ) (phase : Phase)
      → IsSafe s
      → (s.workers i).phase ≡ phase
      → FitsPhase s.jobs phase
  phase_of {s} i phase v h = subst (FitsPhase s.jobs) h (v.phases i)

  Step-IsSafe : {s t : System} → Step ext s t → IsSafe s → IsSafe t
  unfolding drop_job stop
  Step-IsSafe (request s b c) v = request-IsSafe s b c v
  Step-IsSafe (cancel s) v = no_job-IsSafe s Task.no_task refl v
  Step-IsSafe (close s) v = no_job-IsSafe s Task.exit_task refl v
  Step-IsSafe (wake s i nonce phase waits new read) v =
      set_worker-IsSafe s i _
        (subst (FitsOutcome s.jobs) read (
          read_task-FitsOutcome s.jobs nonce s.common.common_data.task
            s.common.common_data.block_to_mine s.common.common_data.complexity v.given))
        v
  Step-IsSafe (try_nonce s i b c nonce phase at same tried) v =
      set_worker-IsSafe s i _
        (subst (FitsOutcome s.jobs) tried
          (attempt-FitsOutcome s.jobs b c nonce (phase_of i (mining b c nonce) v at)))
        v
  Step-IsSafe (leave s i b c nonce at other) v = set_worker-IsSafe s i _ tt v
  Step-IsSafe (hand_over s i b c nonce block at) v =
      let (task, m) = phase_of i (found b c nonce block) v at in
      set_worker-IsSafe (record s { common = call_handler_and_drop block s.common }) i _ task
        (hand_over-IsSafe s block m v)

  Reach-IsSafe : {s : System} → Reach ext s → IsSafe s
  Reach-IsSafe here = starting-IsSafe
  Reach-IsSafe (later r st) = Step-IsSafe st (Reach-IsSafe r)

  -- In any interleaving, every block that the handler is called with is the block of a call of
  -- findNonce with some nonce, built with its hash, and the hash is below the threshold of that call;
  -- and the handler is called no more often than findNonce.
  pub handled-IsMined :
      (s : System)
      → Reach ext s
      → All (IsMined s.jobs) s.common.handled × (length s.common.handled ≤ length s.jobs)
  handled-IsMined s r = let v = Reach-IsSafe r in (v.mined, omega (arith, v.counted))
