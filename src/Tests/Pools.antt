-- ===== src/Tests/Pools.antt =====
-- A std::sort by insertion, and the theorems on the pool of peers at concrete pools.
use likelib_utonhack.Prelude.{
  ℕ, suc, ◌≤◌, min, ◌≡◌, refl, subst, ◌≢◌, ◌⊎◌, inl, inr, Bool, true, false, some, List, [], ◌∷◌,
  ◌++◌, arith, ltb, ◌==◌, if◌then◌else◌, ==_iff, Bool-cases, length, replicate, All, nat_eq,
  bytes_equality,
}
use mathlib.Core.List.{Perm}
use mathlib.Core.List.Perm
use likelib_utonhack.Outcome.{ok}
use likelib_utonhack.Bytes.{IsFixed}
use likelib_utonhack.Address.{Address}
use likelib_utonhack.Message.{NodeIdentityInfo}
use likelib_utonhack.Pool.{
  PoolPeer, Pool, Bucket, calc_difference, bit_difference, byte_difference, all_peers_info,
  difference_to, lookup, set_bucket, empty_pool, try_add_peer,
}
use likelib_utonhack.Pool.Distance.{bits, common_prefix, calc_difference-common_prefix}
use likelib_utonhack.Pool.Buckets.{Fits, IsPool, Took, try_add_peer-IsPool}
use likelib_utonhack.Pool.Lookup.{Sort, IsSort, Ascending, lookup_farthest}
use likelib_utonhack.Tests.World.{alice, bob}

abbrev put_by :
    (NodeIdentityInfo → NodeIdentityInfo → Bool)
    → NodeIdentityInfo
    → List NodeIdentityInfo
    → List NodeIdentityInfo
put_by less i [] = i ∷ []
put_by less i (j ∷ js) = let rest = j ∷ put_by less i js in if less j i then rest else i ∷ j ∷ js

abbrev sort_by : Sort
sort_by less [] = []
sort_by less (i ∷ is) = put_by less i (sort_by less is)

module _ (k : NodeIdentityInfo → ℕ) where
  abbrev below : NodeIdentityInfo → NodeIdentityInfo → Bool
  below a b = ltb (k a) (k b)

  put_by-Perm :
      (i : NodeIdentityInfo) (js : List NodeIdentityInfo) → Perm (put_by below i js) (i ∷ js)
  put_by-Perm i [] = Perm.refl (i ∷ [])
  put_by-Perm i (j ∷ js) = elim (Bool-cases (below j i)) [
    | inl e ↦ rw e (Perm.trans (Perm.cons j (put_by-Perm i js)) (Perm.swap i j js))
    | inr e ↦ rw e (Perm.refl (i ∷ j ∷ js))
  ]

  sort_by-Perm : (is : List NodeIdentityInfo) → Perm (sort_by below is) is
  sort_by-Perm [] = Perm.refl []
  sort_by-Perm (i ∷ is) =
      Perm.trans (put_by-Perm i (sort_by below is)) (Perm.cons i (sort_by-Perm is))

  length-put_by :
      (i : NodeIdentityInfo) (js : List NodeIdentityInfo)
      → length (put_by below i js) ≡ suc (length js)
  length-put_by i [] = refl
  length-put_by i (j ∷ js) = ground (arith, length-put_by i js)

  length-sort_by : (is : List NodeIdentityInfo) → length (sort_by below is) ≡ length is
  length-sort_by [] = refl
  length-sort_by (i ∷ is) = omega (arith, length-put_by i (sort_by below is), length-sort_by is)

  abbrev AtLeast : ℕ → List NodeIdentityInfo → Type 0
  AtLeast n is = All (λ j. n ≤ k j) is

  AtLeast-le : (n m : ℕ) (is : List NodeIdentityInfo) → n ≤ m → AtLeast m is → AtLeast n is
  AtLeast-le n m [] h a = tt
  AtLeast-le n m (i ∷ is) h a = (omega (arith, a.0), AtLeast-le n m is h a.1)

  AtLeast-put_by :
      (n : ℕ) (i : NodeIdentityInfo) (js : List NodeIdentityInfo)
      → n ≤ k i
      → AtLeast n js
      → AtLeast n (put_by below i js)
  AtLeast-put_by n i [] h a = (h, tt)
  AtLeast-put_by n i (j ∷ js) h a = elim (Bool-cases (below j i)) [
    | inl e ↦ rw e (a.0, AtLeast-put_by n i js h a.1)
    | inr e ↦ rw e (h, a)
  ]

  put_by-Ascending :
      (i : NodeIdentityInfo) (js : List NodeIdentityInfo)
      → Ascending k js
      → Ascending k (put_by below i js)
  put_by-Ascending i [] s = (tt, tt)
  put_by-Ascending i (j ∷ js) s = elim (Bool-cases (below j i)) [
    | inl e ↦ rw e (AtLeast-put_by (k j) i js (ground arith) s.0, put_by-Ascending i js s.1)
    | inr e ↦
        (let le : k i ≤ k j = ground arith in rw e ((le, AtLeast-le (k i) (k j) js le s.0), s))
  ]

  sort_by-Ascending : (is : List NodeIdentityInfo) → Ascending k (sort_by below is)
  sort_by-Ascending [] = tt
  sort_by-Ascending (i ∷ is) = put_by-Ascending i (sort_by below is) (sort_by-Ascending is)

sort_by-IsSort : IsSort sort_by
sort_by-IsSort = record {
  reorders = λ k is. sort_by-Perm k is;
  ascends = λ k is. sort_by-Ascending k is;
  keeps_length = λ k is. length-sort_by k is;
}

alice-IsFixed : IsFixed 20 alice
alice-IsFixed = (refl, omega arith)

bob-IsFixed : IsFixed 20 bob
bob-IsFixed = (refl, omega arith)

calc_difference-common_prefix_example :
    calc_difference alice bob ≡ ok (common_prefix (bits alice) (bits bob))
calc_difference-common_prefix_example =
    calc_difference-common_prefix alice bob alice-IsFixed bob-IsFixed

-- Peers at different ports with bob's address, which shares six bits with alice's, and with one that shares
-- twelve.
abbrev near : Address
near = 1 ∷ 9 ∷ replicate 18 0

abbrev peer_at : Address → ℕ → PoolPeer
peer_at address port = record {
  id = port;
  endpoint = record { address = 1; port = port };
  public_endpoint = some (record { address = 1; port = port });
  address = address;
  last_seen = 1000;
  is_closed = false;
}

abbrev ten : Address → Bucket
ten a =
    peer_at a 1
    ∷ peer_at a 2
    ∷ peer_at a 3
    ∷ peer_at a 4
    ∷ peer_at a 5
    ∷ peer_at a 6
    ∷ peer_at a 7
    ∷ peer_at a 8
    ∷ peer_at a 9
    ∷ peer_at a 10
    ∷ []

near_bucket : calc_difference alice near ≡ ok 12
unfolding calc_difference byte_difference bit_difference
near_bucket = refl

abbrev full : Pool
full = set_bucket 12 (ten near) (empty_pool alice)

full-IsPool : IsPool full
full-IsPool = record {
  small =
      λ i. elim (Bool-cases (12 == i)) [ inl e ↦ rw e (omega arith) | inr e ↦ rw e (omega arith) ];
  placed = λ i. elim (Bool-cases (12 == i)) [
    | inl e ↦ rw e (subst (λ j. All (Fits full j) (ten near)) ((==_iff 12 i).0 e) all_near)
    | inr e ↦ rw e tt
  ];
}
  where
    all_near : All (Fits full 12) (ten near)
    all_near = (
      near_bucket,
      (
        near_bucket,
        (
          near_bucket,
          (
            near_bucket,
            (
              near_bucket,
              (near_bucket, (near_bucket, (near_bucket, (near_bucket, (near_bucket, tt))))),
            ),
          ),
        ),
      ),
    )

try_add_peer-IsPool_example :
    IsPool (try_add_peer 9000 (peer_at bob 11) full).1
    × ((((try_add_peer 9000 (peer_at bob 11) full).0 ≡ ok true)
          × Took (peer_at bob 11) full (try_add_peer 9000 (peer_at bob 11) full).1)
        ⊎ (((try_add_peer 9000 (peer_at bob 11) full).0 ≢ ok true)
            × ((try_add_peer 9000 (peer_at bob 11) full).1 ≡ full)))
try_add_peer-IsPool_example = try_add_peer-IsPool 9000 (peer_at bob 11) full full-IsPool

abbrev two_infos : List NodeIdentityInfo
two_infos =
    record { endpoint = record { address = 1; port = 1 }; address = alice }
    ∷ record { endpoint = record { address = 1; port = 2 }; address = bob }
    ∷ []

abbrev two : Pool
two = set_bucket 0 (peer_at alice 1 ∷ peer_at bob 2 ∷ []) (empty_pool near)

two_known : all_peers_info two ≡ ok two_infos
unfolding all_peers_info
two_known = refl

lookup_farthest_example :
    (found : List NodeIdentityInfo) × (left_out : List NodeIdentityInfo) × (lookup sort_by alice 1
        two
      ≡ ok found)
    × Perm (found ++ left_out) two_infos
    × (length found ≡ min 1 (length two_infos))
    × All (λ i. All (λ j. difference_to alice i ≤ difference_to alice j) left_out) found
    × ((i : NodeIdentityInfo)
        → IsFixed 20 i.address
        → difference_to alice i ≡ common_prefix (bits i.address) (bits alice))
lookup_farthest_example =
    lookup_farthest sort_by alice 1 two two_infos sort_by-IsSort alice-IsFixed two_known
