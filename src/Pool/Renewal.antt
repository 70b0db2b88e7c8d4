-- ===== src/Pool/Renewal.antt =====
-- The buckets whose quiet peers tryAddPeer can replace, and those whose peers it cannot.
use likelib_utonhack.Prelude.{
  ℕ, ◌+◌, ◌-◌, ◌%◌, ◌^◌, ◌≤◌, ◌<◌, ◌≡◌, [], ◌∷◌, ◌++◌, ◌==◌, if◌then◌else◌, length, All, nat_eq,
  bytes_equality,
}
use likelib_utonhack.Time.{Time}
use likelib_utonhack.Pool.{PoolPeer, Pool, Bucket, quiet_limit}

abbrev pub SeenAfter : Time → Bucket → Type 0
SeenAfter seen ps = All (λ (p : PoolPeer). seen < p.last_seen) ps

abbrev pub SeenFrom : Time → Bucket → Type 0
SeenFrom seen ps = All (λ (p : PoolPeer). seen ≤ p.last_seen) ps

-- The place of the first peer of a bucket that no other was seen before.
record LeastRecent (ps : Bucket) (index : ℕ) : Type 0 where
  oldest : PoolPeer
  front : Bucket
  back : Bucket
  parts : ps ≡ front ++ oldest ∷ back
  place : index ≡ length front
  earlier : SeenAfter oldest.last_seen front
  later : SeenFrom oldest.last_seen back

-- In the bucket of the peer, the one that was seen longest ago, the first of these, has gone, and the peer
-- stands at the end; no other bucket has changed.
pub record Replaced (peer : PoolPeer) (i : ℕ) (pool pool' : Pool) : Type 0 where
  pub oldest : PoolPeer
  pub front : Bucket
  pub back : Bucket
  pub was : pool.buckets i ≡ front ++ oldest ∷ back
  pub earlier : SeenAfter oldest.last_seen front
  pub later : SeenFrom oldest.last_seen back
  pub buckets :
      (j : ℕ) → pool'.buckets j ≡ (if i == j then (front ++ back) ++ peer ∷ [] else pool.buckets j)
  pub same_host : pool'.host_address ≡ pool.host_address

module _ (now : Time) (peer : PoolPeer) (pool : Pool) (i : ℕ) where
  -- A peer is quiet for too long.
  abbrev pub IsQuiet : PoolPeer → Type 0
  IsQuiet p = quiet_limit < (now + 2 ^ 32 - p.last_seen) % 2 ^ 32
