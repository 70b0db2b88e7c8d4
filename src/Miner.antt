-- ===== src/Miner.antt =====
-- The miner of node/miner.hpp and node/miner.cpp: the state that its threads share, and what a
-- thread does between two accesses to that state. A thread is a worker of the model.
pub mod System
pub mod Safety
pub mod Stale
use likelib_utonhack.Prelude.{
  ℕ, zero, suc, ◌+◌, ◌-◌, ◌*◌, ◌/◌, ◌%◌, ◌^◌, ◌≤◌, ◌<◌, min, max, ◌≡◌, refl, sym, ap, subst, ◌∙◌,
  ◌≡⟨◌⟩◌, ◌∎, ◌≢◌, ◌↔◌, ◌⊎◌, inl, inr, Bool, true, false, not, ◌&&◌, ◌||◌, Option, none, some, List,
  [], ◌∷◌, ◌++◌, map, append-nil, append_assoc, arith, ltb, leb, ◌==◌, if◌then◌else◌, lt→ltb,
  le→leb, ==_iff, Bool-cases, Option-cases, length, get_elem?, take, drop, replicate, length-append,
  length-take, length-replicate, drop-append, take-append, All, All-append, Eq, nat_eq, bytes_eq,
  bytes_eq_iff, bytes_equality, beq_refl,
}
use likelib_utonhack.Outcome.{Outcome, ok, raise, Error}
use likelib_utonhack.Bytes.{Bytes, lt_bytes}
use likelib_utonhack.External.{External}
use likelib_utonhack.Block.{
  Fields, MutableBlock, ImmutableBlock, serialize_fields, make_block, set_nonce,
}
use likelib_utonhack.Block.Builder.{BlockBuilder, empty_builder, init_from_block, build_immutable}
use likelib_utonhack.Consensus.{Complexity}

-- impl::Task
pub data Task : Type 0 where
  no_task drop_task find_task exit_task : Task

-- impl::CommonData
pub record CommonData : Type 0 where
  pub task : Task
  pub block_to_mine : Option MutableBlock
  pub complexity : Option Complexity

-- impl::CommonState; the calls of the handler are recorded, the oldest first.
pub record CommonState : Type 0 where
  pub version : ℕ
  pub common_data : CommonData
  pub handled : List ImmutableBlock

abbrev pub is_find : Task → Bool
is_find Task.find_task = true
is_find _ = false

abbrev pub without_job : Task → CommonData
without_job task = record { task = task; block_to_mine = none; complexity = none }

-- CommonState::CommonState, as Miner::Miner calls it
unfoldable pub initial_state : CommonState
initial_state = record { version = 0; common_data = without_job Task.no_task; handled = [] }

-- CommonState::setCommonData; the version is a std::size_t.
unfoldable pub set_common_data : CommonData → CommonState → CommonState
set_common_data fresh s = record s { version = (s.version + 1) % 2 ^ 64; common_data = fresh }

-- CommonState::callHandlerAndDrop
unfoldable pub call_handler_and_drop : ImmutableBlock → CommonState → CommonState
call_handler_and_drop block s =
    if is_find s.common_data.task
    then record {
      version = (s.version + 1) % 2 ^ 64;
      common_data = without_job Task.drop_task;
      handled = s.handled ++ block ∷ [];
    }
    else s

-- Miner::findNonce, Miner::dropJob, Miner::stop
unfoldable pub find_nonce : MutableBlock → Complexity → CommonState → CommonState
unfolding set_common_data
find_nonce block complexity =
    set_common_data
      (record { task = Task.find_task; block_to_mine = some block; complexity = some complexity })

unfoldable pub drop_job : CommonState → CommonState
unfolding set_common_data
drop_job = set_common_data (without_job Task.no_task)

unfoldable pub stop : CommonState → CommonState
unfolding set_common_data
stop = set_common_data (without_job Task.exit_task)

-- Where a thread stands: at the wait, before an attempt with a nonce, at the call of the handler with a
-- block that it has found, or behind its loop.
pub data Phase : Type 0 where
  waiting stopped : Phase
  mining : MutableBlock → Complexity → ℕ → Phase
  found : MutableBlock → Complexity → ℕ → ImmutableBlock → Phase

pub record Worker : Type 0 where
  pub last_read_version : ℕ
  pub phase : Phase

-- The switch of MinerWorker::worker over the data that it has read; `nonce` is the random number that
-- the attempts start from.
unfoldable pub read_task : ℕ → CommonData → Outcome Phase
read_task nonce job = elim job.task [
  | Task.no_task ↦ ok waiting
  | Task.exit_task ↦ ok stopped
  | Task.drop_task ↦ ok waiting
  | Task.find_task ↦ elim job.block_to_mine [
    | none ↦ raise Error.assertion
    | some b ↦ elim job.complexity [ none ↦ raise Error.assertion | some c ↦ ok (mining b c nonce) ]
  ]
]

-- One attempt: the block's bytes with the nonce are hashed and compared. The nonce goes on modulo
-- 2 ^ 64, and the block that is found is built from the block with the nonce.
unfoldable pub attempt : External → MutableBlock → Complexity → ℕ → Outcome Phase
unfolding set_nonce init_from_block build_immutable empty_builder
attempt ext b c nonce =
    let b' = set_nonce nonce b in
    let next = (nonce + 1) % 2 ^ 64 in
    if lt_bytes (ext.sha256 (serialize_fields ext b')) c.comparer
    then elim (build_immutable ext (init_from_block b' empty_builder)) [
      | ok block ↦ ok (found b' c next block)
      | raise e ↦ raise e
    ]
    else ok (mining b' c next)
