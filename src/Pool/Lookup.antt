-- ===== src/Pool/Lookup.antt =====
-- Which peers a lookup answers with.
use likelib_utonhack.Prelude.{
  ℕ, zero, suc, ◌≤◌, min, ◌≡◌, refl, Bool, List, [], ◌∷◌, ◌++◌, arith, ltb, length, take, drop,
  length-take, All, nat_eq, bytes_equality,
}
use mathlib.Core.List.{Perm}
use likelib_utonhack.TransactionsSet.Selection.{take-append-drop}
use likelib_utonhack.Outcome.{ok}
use likelib_utonhack.Bytes.{IsFixed}
use likelib_utonhack.Address.{Address}
use likelib_utonhack.Message.{NodeIdentityInfo}
use likelib_utonhack.Pool.{Pool, all_peers_info, difference_to, lookup}
use likelib_utonhack.Pool.Distance.{bits, common_prefix, calc_difference-common_prefix}

abbrev pub Ascending : (NodeIdentityInfo → ℕ) → List NodeIdentityInfo → Type 0
Ascending k [] = Unit {0}
Ascending k (i ∷ is) = All (λ j. k i ≤ k j) is × Ascending k is

abbrev pub Sort : Type 0
Sort = (NodeIdentityInfo → NodeIdentityInfo → Bool) → List NodeIdentityInfo → List NodeIdentityInfo

-- std::sort reorders, and by a comparison of numbers it puts the elements in ascending order.
pub record IsSort (sort : Sort) : Type 0 where
  pub reorders :
      (k : NodeIdentityInfo → ℕ) (is : List NodeIdentityInfo)
      → Perm (sort (λ a b. ltb (k a) (k b)) is) is
  pub ascends :
      (k : NodeIdentityInfo → ℕ) (is : List NodeIdentityInfo)
      → Ascending k (sort (λ a b. ltb (k a) (k b)) is)
  pub keeps_length :
      (k : NodeIdentityInfo → ℕ) (is : List NodeIdentityInfo)
      → length (sort (λ a b. ltb (k a) (k b)) is) ≡ length is

drop-All :
    (F : NodeIdentityInfo → Type 0) (n : ℕ) (is : List NodeIdentityInfo)
    → All F is
    → All F (drop n is)
drop-All F zero is h = h
drop-All F (suc n) [] h = tt
drop-All F (suc n) (i ∷ is) h = drop-All F n is h.1

take-Ascending :
    (k : NodeIdentityInfo → ℕ) (n : ℕ) (is : List NodeIdentityInfo)
    → Ascending k is
    → All (λ i. All (λ j. k i ≤ k j) (drop n is)) (take n is)
take-Ascending k zero is h = tt
take-Ascending k (suc n) [] h = tt
take-Ascending k (suc n) (i ∷ is) h =
    (drop-All (λ j. k i ≤ k j) n is h.0, take-Ascending k n is h.1)

difference_to-common_prefix :
    (address : Address) (i : NodeIdentityInfo)
    → IsFixed 20 address
    → IsFixed 20 i.address
    → difference_to address i ≡ common_prefix (bits i.address) (bits address)
unfolding difference_to
difference_to-common_prefix address i ha hi =
    rw (difference_to, calc_difference-common_prefix i.address address hi ha)

-- A lookup answers with the peers that are farthest from the address: each peer that it answers with
-- shares no more leading bits with the address than any peer that it leaves out. It answers with alpha
-- peers, or all where there are no more. Where every peer's own endpoint is known and addresses have
-- 20 bytes.
pub lookup_farthest :
    (sort : Sort) (address : Address) (alpha : ℕ) (pool : Pool) (infos : List NodeIdentityInfo)
    → IsSort sort
    → IsFixed 20 address
    → all_peers_info pool ≡ ok infos
    → (found : List NodeIdentityInfo) × (left_out : List NodeIdentityInfo) × (lookup sort address
          alpha pool
        ≡ ok found)
      × Perm (found ++ left_out) infos
      × (length found ≡ min alpha (length infos))
      × All (λ i. All (λ j. difference_to address i ≤ difference_to address j) left_out) found
      × ((i : NodeIdentityInfo)
          → IsFixed 20 i.address
          → difference_to address i ≡ common_prefix (bits i.address) (bits address))
unfolding lookup
lookup_farthest sort address alpha pool infos law ha e =
    let k = difference_to address in
    let sorted = sort (λ a b. ltb (k a) (k b)) infos in
    (
      take alpha sorted,
      drop alpha sorted,
      rw e refl,
      rw (take-append-drop alpha sorted) (law.reorders k infos),
      omega (arith, length-take alpha sorted, law.keeps_length k infos),
      take-Ascending k alpha sorted (law.ascends k infos),
      λ i hi. difference_to-common_prefix address i ha hi,
    )
