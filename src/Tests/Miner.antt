-- ===== src/Tests/Miner.antt =====
-- The theorems on the miner, at concrete jobs.
use likelib_utonhack.Prelude.{
  ◌≤◌, ◌≡◌, refl, true, [], ◌∷◌, length, replicate, All, nat_eq, bytes_equality,
}
use likelib_utonhack.Bytes.{lt_bytes}
use likelib_utonhack.Block.{MutableBlock, make_block, serialize_fields}
use likelib_utonhack.Consensus.{Complexity}
use likelib_utonhack.Miner.{Task, without_job}
use likelib_utonhack.Miner.System.{System, Reach}
use likelib_utonhack.Miner.Safety.{IsMined, handled-IsMined}
use likelib_utonhack.Miner.Stale.{stale_block_drops_job}
use likelib_utonhack.Tests.World.{libraries, genesis, first}

abbrev easy : Complexity
easy = record { comparer = replicate 32 9; densed = 1 }

abbrev given : MutableBlock
given = first.fields

mined_below :
    lt_bytes
      (libraries.sha256 (serialize_fields libraries (record given { nonce = 5 })))
      easy.comparer
    ≡ true
unfolding lt_bytes
mined_below = refl

-- The state in which the first job's block was handed over after the second job was set.
abbrev after_race : System
after_race = (stale_block_drops_job libraries given genesis.fields easy easy 5 mined_below).0

race_reached : Reach libraries after_race
race_reached = (stale_block_drops_job libraries given genesis.fields easy easy 5 mined_below).1

handled-IsMined_example :
    All (IsMined libraries after_race.jobs) after_race.common.handled
    × (length after_race.common.handled ≤ length after_race.jobs)
handled-IsMined_example = handled-IsMined libraries after_race race_reached

stale_block_drops_job_example :
    (s : System) × Reach libraries s
    × (s.jobs ≡ (genesis.fields, easy) ∷ (given, easy) ∷ [])
    × (s.common.handled ≡ make_block libraries (record given { nonce = 5 }) ∷ [])
    × (s.common.common_data ≡ without_job Task.drop_task)
stale_block_drops_job_example =
    stale_block_drops_job libraries given genesis.fields easy easy 5 mined_below
