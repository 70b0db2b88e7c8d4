-- ===== src/Pool/Removal.antt =====
-- Removal from the pools of core/host.cpp, and BasicPeerPool, which keeps peers by their identity.
use likelib_utonhack.Prelude.{
  ℕ, zero, suc, ◌≤◌, subst, inl, inr, Bool, true, false, ◌||◌, Option, none, some, List, [], ◌∷◌,
  ◌++◌, arith, ◌==◌, if◌then◌else◌, ==_iff, Bool-cases, Option-cases, length, All, nat_eq,
  bytes_equality,
}
use likelib_utonhack.Outcome.{Outcome, ok, ◌>>=◌}
use likelib_utonhack.Endpoint.{Endpoint, endpoint_eq}
use likelib_utonhack.Pool.{
  PoolPeer, Pool, Bucket, all_peers, bucket_count, get_public_endpoint, erase, set_bucket,
}
use likelib_utonhack.Pool.Buckets.{Fits, IsPool, erase-All}

-- std::find_if by the identity of a peer.
abbrev pub index_of : ℕ → Bucket → Option ℕ
index_of id [] = none
index_of id (p ∷ ps) =
    let rest = index_of id ps in
    if p.id == id then some 0 else elim rest [ none ↦ none | some i ↦ some (suc i) ]

-- The loop of KademliaPeerPool::tryRemovePeer over the buckets, from the given one on.
unfoldable pub remove_from : ℕ → ℕ → ℕ → Pool → Bool × Pool
remove_from zero i id pool = (false, pool)
remove_from (suc n) i id pool =
    let rest = remove_from n (suc i) id pool in
    elim (index_of id (pool.buckets i)) [
      | some k ↦ (true, set_bucket i (erase k (pool.buckets i)) pool)
      | none ↦ rest
    ]

-- KademliaPeerPool::tryRemovePeer
unfoldable pub try_remove_peer : ℕ → Pool → Bool × Pool
unfolding remove_from
try_remove_peer id pool = remove_from bucket_count 0 id pool

-- hasPeerWithEndpoint of both pools: the loop goes over all peers.
abbrev pub has_endpoint : Endpoint → Bucket → Outcome Bool
has_endpoint e [] = ok false
has_endpoint e (p ∷ ps) =
    let rest = has_endpoint e ps in
    get_public_endpoint p >>= λ a.
    rest >>= λ b. ok ((endpoint_eq a e || endpoint_eq p.endpoint e) || b)

abbrev pub has_peer_with_endpoint : Endpoint → Pool → Outcome Bool
has_peer_with_endpoint e pool = has_endpoint e (all_peers pool)

-- BasicPeerPool, a map from the identity to the peer
abbrev pub BasicPool : Type 0
BasicPool = List PoolPeer

-- BasicPeerPool::tryAddPeer
unfoldable pub basic_try_add_peer : PoolPeer → BasicPool → Bool × BasicPool
basic_try_add_peer peer pool = elim (index_of peer.id pool) [
  | some i ↦ (false, pool)
  | none ↦ (true, pool ++ peer ∷ [])
]

-- BasicPeerPool::tryRemovePeer
unfoldable pub basic_try_remove_peer : ℕ → BasicPool → Bool × BasicPool
basic_try_remove_peer id pool = elim (index_of id pool) [
  | some i ↦ (true, erase i pool)
  | none ↦ (false, pool)
]

erase_le : (i : ℕ) (ps : Bucket) → length (erase i ps) ≤ length ps
erase_le i [] = omega arith
erase_le zero (p ∷ ps) = omega arith
erase_le (suc i) (p ∷ ps) = omega (arith, erase_le i ps)

erase-IsPool :
    (i k : ℕ) (pool : Pool) → IsPool pool → IsPool (set_bucket i (erase k (pool.buckets i)) pool)
erase-IsPool i k pool v = record {
  small = λ j. elim (Bool-cases (i == j)) [
    | inl e ↦ rw e (omega (arith, erase_le k (pool.buckets i), v.small i))
    | inr e ↦ rw e (v.small j)
  ];
  placed = λ j. elim (Bool-cases (i == j)) [
    | inl e ↦ rw e (
        subst (λ n. All (Fits pool n) (erase k (pool.buckets i))) ((==_iff i j).0 e)
          (erase-All (Fits pool i) k (pool.buckets i) (v.placed i)))
    | inr e ↦ rw e (v.placed j)
  ];
}

remove_from-IsPool : (n i id : ℕ) (pool : Pool) → IsPool pool → IsPool (remove_from n i id pool).1
unfolding remove_from
remove_from-IsPool zero i id pool v = v
remove_from-IsPool (suc n) i id pool v = elim (Option-cases (index_of id (pool.buckets i))) [
  | inl e ↦ rw (remove_from, e) (remove_from-IsPool n (suc i) id pool v)
  | inr (k, e) ↦ rw (remove_from, e) (erase-IsPool i k pool v)
]

-- tryRemovePeer keeps the buckets as they should be.
pub try_remove_peer-IsPool :
    (id : ℕ) (pool : Pool) → IsPool pool → IsPool (try_remove_peer id pool).1
unfolding try_remove_peer
try_remove_peer-IsPool id pool v = remove_from-IsPool bucket_count 0 id pool v
