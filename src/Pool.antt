-- ===== src/Pool.antt =====
-- KademliaPeerPool of core/host.hpp and core/host.cpp: the peers with which a node has shaken hands, in
-- buckets by the number of leading bits that their addresses share with the node's.
pub mod Distance
pub mod Buckets
pub mod Renewal
pub mod Lookup
pub mod Removal
use likelib_utonhack.Prelude.{
  ℕ, zero, suc, ◌+◌, ◌-◌, ◌*◌, ◌/◌, ◌%◌, ◌^◌, ◌≤◌, ◌<◌, min, max, ◌≡◌, refl, sym, ap, subst, ◌∙◌,
  ◌≡⟨◌⟩◌, ◌∎, ◌≢◌, ◌↔◌, ◌⊎◌, inl, inr, Bool, true, false, not, ◌&&◌, ◌||◌, Option, none, some, List,
  [], ◌∷◌, ◌++◌, map, append-nil, append_assoc, arith, ltb, leb, ◌==◌, if◌then◌else◌, lt→ltb,
  le→leb, ==_iff, Bool-cases, Option-cases, length, get_elem?, take, drop, replicate, length-append,
  length-take, length-replicate, drop-append, take-append, All, All-append, Eq, nat_eq, bytes_eq,
  bytes_eq_iff, bytes_equality, beq_refl,
}
use likelib_utonhack.Outcome.{Outcome, ok, raise, Error, ◌>>=◌}
use likelib_utonhack.Exec.{Exec}
use likelib_utonhack.Bytes.{Bytes}
use likelib_utonhack.Time.{Time}
use likelib_utonhack.Address.{Address}
use likelib_utonhack.Endpoint.{Endpoint, endpoint_eq}
use likelib_utonhack.Message.{NodeIdentityInfo}

-- What the pool reads of a Peer; the id is the object's identity.
pub record PoolPeer : Type 0 where
  pub id : ℕ
  pub endpoint : Endpoint
  pub public_endpoint : Option Endpoint
  pub address : Address
  pub last_seen : Time
  pub is_closed : Bool

-- MAX_BUCKET_SIZE, and the number of buckets, Address::LENGTH_IN_BYTES * 8
abbrev pub max_bucket_size : ℕ
max_bucket_size = 10

abbrev pub bucket_count : ℕ
bucket_count = 160

-- base::config::NET_PING_FREQUENCY + base::config::NET_CONNECT_TIMEOUT
abbrev pub quiet_limit : ℕ
quiet_limit = 3600 + 10

abbrev pub Bucket : Type 0
Bucket = List PoolPeer

pub record Pool : Type 0 where
  pub host_address : Address
  pub buckets : ℕ → Bucket

-- The constructor.
abbrev pub empty_pool : Address → Pool
empty_pool host_address = record { host_address = host_address; buckets = λ i. [] }

-- Peer::getPublicEndpoint, which dereferences a std::optional: of an empty one C++ says nothing, and what the
-- program does from there on is left open.
abbrev pub get_public_endpoint : PoolPeer → Outcome Endpoint
get_public_endpoint p = elim p.public_endpoint [ none ↦ raise Error.undefined | some e ↦ ok e ]

-- The loop of calcDifference over the bits of two bytes, from the highest one on.
unfoldable pub bit_difference : ℕ → ℕ → ℕ → ℕ → Outcome ℕ
bit_difference zero bit_index byte_a byte_b = raise Error.assertion
bit_difference (suc rounds) bit_index byte_a byte_b =
    let rest = bit_difference rounds (suc bit_index) (byte_a * 2 % 256) (byte_b * 2 % 256) in
    if byte_a / 128 % 2 == byte_b / 128 % 2 then rest else ok bit_index

-- The loop of calcDifference over the bytes.
unfoldable pub byte_difference : ℕ → Bytes → Bytes → Outcome ℕ
unfolding bit_difference
byte_difference byte_index (a ∷ xs) (b ∷ ys) =
    let rest = byte_difference (suc byte_index) xs ys in
    if a == b then rest else bit_difference 8 0 a b >>= λ bit_index. ok (byte_index * 8 + bit_index)
byte_difference byte_index _ _ = ok bucket_count

-- calcDifference, of two addresses of 20 bytes, and calcBucketIndex
unfoldable pub calc_difference : Bytes → Bytes → Outcome ℕ
unfolding byte_difference
calc_difference a b = byte_difference 0 a b

-- The loop of getLeastRecentlySeenPeerIndex: the index of the first peer that no other was seen before.
abbrev pub least_recent_from : ℕ → ℕ → Time → Bucket → ℕ
least_recent_from i lrs_index seen [] = lrs_index
least_recent_from i lrs_index seen (p ∷ ps) =
    let kept = least_recent_from (suc i) lrs_index seen ps in
    let moved = least_recent_from (suc i) i p.last_seen ps in
    if ltb p.last_seen seen then moved else kept

unfoldable pub get_least_recently_seen_peer_index : Bucket → Outcome ℕ
get_least_recently_seen_peer_index [] = raise Error.assertion
get_least_recently_seen_peer_index (p ∷ ps) = ok (least_recent_from 1 0 p.last_seen ps)

abbrev pub erase : ℕ → Bucket → Bucket
erase i [] = []
erase zero (p ∷ ps) = ps
erase (suc i) (p ∷ ps) = p ∷ erase i ps

abbrev pub set_bucket : ℕ → Bucket → Pool → Pool
set_bucket i bucket pool = record pool { buckets = λ j. if i == j then bucket else pool.buckets j }

-- The test of tryAddPeer for a peer with one of the same endpoints.
abbrev pub has_same_endpoint : PoolPeer → Bucket → Outcome Bool
has_same_endpoint peer [] = ok false
has_same_endpoint peer (p ∷ ps) =
    let rest = has_same_endpoint peer ps in
    get_public_endpoint p >>= λ a. get_public_endpoint peer >>= λ b.
    if endpoint_eq a b || endpoint_eq p.endpoint peer.endpoint then ok true else rest

-- The peers of the buckets from the given one on, in the order of forEachPeer.
abbrev pub peers_from : ℕ → ℕ → (ℕ → Bucket) → Bucket
peers_from zero i buckets = []
peers_from (suc n) i buckets = buckets i ++ peers_from n (suc i) buckets

abbrev pub all_peers : Pool → Bucket
all_peers pool = peers_from bucket_count 0 pool.buckets

-- removePeer, whose first ASSERT compares the bucket's index with MAX_BUCKET_SIZE.
unfoldable pub remove_peer : ℕ → ℕ → Exec Pool (Unit {0})
remove_peer bucket_index peer_index pool =
    if not (ltb bucket_index max_bucket_size)
    then (raise Error.assertion, pool)
    else if not (ltb peer_index (length (pool.buckets bucket_index)))
    then (raise Error.assertion, pool)
    else (ok tt, set_bucket bucket_index (erase peer_index (pool.buckets bucket_index)) pool)

abbrev pub push_back : ℕ → PoolPeer → Pool → Pool
push_back i peer pool = set_bucket i (pool.buckets i ++ peer ∷ []) pool

-- The push behind removePeer, unless that throws.
abbrev pub push_removed : ℕ → PoolPeer → Outcome (Unit {0}) × Pool → Outcome Bool × Pool
push_removed i peer (ok _, pool) = (ok true, push_back i peer pool)
push_removed i peer (raise e, pool) = (raise e, pool)

-- A place in a full bucket, where the peer that was seen longest ago is quiet for too long; getSeconds
-- gives numbers of 32 bits.
unfoldable pub replace_peer : Time → ℕ → PoolPeer → Exec Pool Bool
unfolding get_least_recently_seen_peer_index remove_peer
replace_peer now bucket_index peer pool =
    elim (get_least_recently_seen_peer_index (pool.buckets bucket_index)) [
      | raise e ↦ (raise e, pool)
      | ok index ↦ elim (get_elem? (pool.buckets bucket_index) index) [
        | none ↦ (raise Error.undefined, pool)
        | some quiet ↦
            if ltb quiet_limit ((now + 2 ^ 32 - quiet.last_seen) % 2 ^ 32)
            then push_removed bucket_index peer (remove_peer bucket_index index pool)
            else (ok false, pool)
      ]
    ]

-- KademliaPeerPool::tryAddPeer
unfoldable pub try_add_peer : Time → PoolPeer → Exec Pool Bool
unfolding calc_difference replace_peer
try_add_peer now peer pool = elim (has_same_endpoint peer (all_peers pool)) [
  | raise e ↦ (raise e, pool)
  | ok true ↦ (ok false, pool)
  | ok false ↦ elim (calc_difference pool.host_address peer.address) [
    | raise e ↦ (raise e, pool)
    | ok bucket_index ↦
        if bucket_index == bucket_count
        then (ok false, pool)
        else if ltb (length (pool.buckets bucket_index)) max_bucket_size
        then (ok true, push_back bucket_index peer pool)
        else replace_peer now bucket_index peer pool
  ]
]

-- KademliaPeerPool::removeSilent
abbrev without_closed : Bucket → Bucket
without_closed [] = []
without_closed (p ∷ ps) = let rest = without_closed ps in if p.is_closed then rest else p ∷ rest

unfoldable pub remove_silent : Pool → Pool
remove_silent pool = record pool { buckets = λ i. without_closed (pool.buckets i) }

-- Peer::getInfo of each peer, PeerPoolBase::allPeersInfo
abbrev infos_of : Bucket → Outcome (List NodeIdentityInfo)
infos_of [] = ok []
infos_of (p ∷ ps) =
    let rest = infos_of ps in
    get_public_endpoint p >>= λ e.
    rest >>= λ is. ok (record { endpoint = e; address = p.address } ∷ is)

unfoldable pub all_peers_info : Pool → Outcome (List NodeIdentityInfo)
all_peers_info pool = infos_of (all_peers pool)

-- The comparator's calcDifference; the 0 stands for its ASSERT behind the loops, which no two bytes reach.
unfoldable pub difference_to : Address → NodeIdentityInfo → ℕ
unfolding calc_difference
difference_to address i = elim (calc_difference i.address address) [ ok d ↦ d | raise e ↦ 0 ]

-- KademliaPeerPool::lookup, over std::sort
unfoldable pub lookup :
    (((NodeIdentityInfo → NodeIdentityInfo → Bool) → List NodeIdentityInfo → List NodeIdentityInfo))
    → Address
    → ℕ
    → Pool
    → Outcome (List NodeIdentityInfo)
unfolding all_peers_info difference_to
lookup sort address alpha pool = all_peers_info pool >>= λ infos.
    let sorted = sort (λ a b. ltb (difference_to address a) (difference_to address b)) infos in
    ok (take alpha sorted)
