-- ===== src/Map.antt =====
-- std::map and std::unordered_map as association lists; the modelled code does not depend on the
-- order of their entries.
use likelib_utonhack.Prelude.{
  Eq, beq_refl, ◌≡◌, refl, List, [], ◌∷◌, ◌++◌, Option, none, some, arith, if◌then◌else◌,
}

abbrev pub Map {ℓ κ} : Type ℓ → Type κ → Type (ℓ ⊔ κ)
Map K V = List (K × V)

abbrev or_else {κ} : {V : Type κ} → Option V → V → Option V
or_else none v = some v
or_else (some w) v = some w

module _ {ℓ κ} {K : Type ℓ} {V : Type κ} ⦃e : Eq K⦄ where
  -- find
  unfoldable pub find : K → Map K V → Option V
  find k [] = none
  find k ((j, v) ∷ m) = if e.beq j k then some v else find k m

  -- operator[] with an assignment: overwrites, or adds a new entry.
  unfoldable pub put : K → V → Map K V → Map K V
  put k v [] = (k, v) ∷ []
  put k v ((j, w) ∷ m) = if e.beq j k then (j, v) ∷ m else (j, w) ∷ put k v m

  -- insert: an entry that is there stays as it is.
  unfoldable pub insert : K → V → Map K V → Map K V
  insert k v [] = (k, v) ∷ []
  insert k v ((j, w) ∷ m) = if e.beq j k then (j, w) ∷ m else (j, w) ∷ insert k v m

  -- erase
  unfoldable pub erase : K → Map K V → Map K V
  erase k [] = []
  erase k ((j, w) ∷ m) = let rest = erase k m in if e.beq j k then rest else (j, w) ∷ rest

  pub find-put :
      (k j : K) (v : V) (m : Map K V)
      → find j (put k v m) ≡ (if e.beq k j then some v else find j m)
  unfolding find put
  find-put k j v [] = refl
  find-put k j v ((i, w) ∷ m) =
      ground (arith, e.beq_iff k j, e.beq_iff i k, e.beq_iff i j, find-put k j v m)

  pub find-insert :
      (k j : K) (v : V) (m : Map K V)
      → find j (insert k v m) ≡ (if e.beq k j then or_else (find k m) v else find j m)
  unfolding find insert
  find-insert k j v [] = refl
  find-insert k j v ((i, w) ∷ m) =
      ground (arith, e.beq_iff k j, e.beq_iff i k, e.beq_iff i j, find-insert k j v m)

  pub find-put_self : (k : K) (v : V) (m : Map K V) → find k (put k v m) ≡ some v
  find-put_self k v m = rw (find-put k k v m, beq_refl k)

  pub find-append_some :
      (k : K) (v : V) (m n : Map K V) → find k m ≡ some v → find k (m ++ n) ≡ some v
  unfolding find
  find-append_some k v [] n h = cc
  find-append_some k v ((i, w) ∷ m) n h = ground (arith, find-append_some k v m n)

  pub find-append_none : (k : K) (m n : Map K V) → find k m ≡ none → find k (m ++ n) ≡ find k n
  unfolding find
  find-append_none k [] n h = refl
  find-append_none k ((i, w) ∷ m) n h = ground (arith, find-append_none k m n)

  -- What is not there is inserted at the end.
  pub insert_absent :
      (k : K) (v : V) (m : Map K V) → find k m ≡ none → insert k v m ≡ m ++ (k, v) ∷ []
  unfolding find insert
  insert_absent k v [] h = refl
  insert_absent k v ((i, w) ∷ m) h = ground (arith, insert_absent k v m)
