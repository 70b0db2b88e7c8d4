-- ===== src/TransactionsSet/Members.antt =====
-- The vector as a set: no two elements are equal, and what `add` and `remove` do to membership.
use likelib_utonhack.Prelude.{
  ◌≡◌, refl, inl, inr, true, false, not, ◌&&◌, ◌||◌, [], ◌∷◌, ◌++◌, arith, Bool-cases, nat_eq,
  bytes_equality,
}
use likelib_utonhack.Transaction.{Transaction, tx_eq}
use likelib_utonhack.Transaction.Identity.{tx_eq_sym, tx_eq_left}
use likelib_utonhack.TransactionsSet.{
  TransactionsSet, contains, add, last_or, swap_out, remove, remove_all,
}

pub contains-append :
    (xs ys : TransactionsSet) (u : Transaction)
    → contains (xs ++ ys) u ≡ (contains xs u || contains ys u)
unfolding contains
contains-append [] ys u = refl
contains-append (x ∷ xs) ys u = ground (arith, contains-append xs ys u)

contains_congr :
    (txs : TransactionsSet) (a b : Transaction) → tx_eq a b ≡ true → contains txs a ≡ contains txs b
unfolding contains
contains_congr [] a b h = refl
contains_congr (t ∷ txs) a b h =
    ground (arith, contains_congr txs a b h, tx_eq_sym t a, tx_eq_sym t b, tx_eq_left a b t h)

-- Adding a transaction makes it and its equals members, and changes no other membership.
pub contains-add :
    (txs : TransactionsSet) (t u : Transaction)
    → contains (add txs t) u ≡ (contains txs u || tx_eq t u)
unfolding add contains
contains-add txs t u = ground (arith, contains-append txs (t ∷ []) u, contains_congr txs t u)

-- No element equals a later one.
abbrev pub IsDistinct : TransactionsSet → Type 0
IsDistinct [] = Unit
IsDistinct (t ∷ txs) = (contains txs t ≡ false) × IsDistinct txs

append-IsDistinct :
    (txs : TransactionsSet) (t : Transaction)
    → IsDistinct txs
    → contains txs t ≡ false
    → IsDistinct (txs ++ t ∷ [])
unfolding contains
append-IsDistinct [] t d h = (refl, tt)
append-IsDistinct (x ∷ xs) t d h = (
  ground (arith, contains-append xs (t ∷ []) x, tx_eq_sym x t, d.0),
  append-IsDistinct xs t d.1 (ground arith),
)

pub add-IsDistinct :
    (txs : TransactionsSet) (t : Transaction) → IsDistinct txs → IsDistinct (add txs t)
unfolding add
add-IsDistinct txs t d = elim (Bool-cases (contains txs t)) [
  | inl e ↦ rw e d
  | inr e ↦ rw e (append-IsDistinct txs t d e)
]

contains-swap_out :
    (txs : TransactionsSet) (u : Transaction) → contains (swap_out txs) u ≡ contains txs u
unfolding contains
contains-swap_out [] u = refl
contains-swap_out (t ∷ []) u = refl
contains-swap_out (t ∷ v ∷ txs) u = ground (arith, contains-swap_out (v ∷ txs) u)

swap_out-IsDistinct : (txs : TransactionsSet) → IsDistinct txs → IsDistinct (swap_out txs)
unfolding contains
swap_out-IsDistinct [] d = tt
swap_out-IsDistinct (t ∷ []) d = d
swap_out-IsDistinct (t ∷ v ∷ txs) d =
    let ih = swap_out-IsDistinct (v ∷ txs) d.1 in
    let last = last_or v txs in
    (
      ground (arith, contains-swap_out (v ∷ txs) t, tx_eq_sym t last, ih.0, d.0),
      (ground (arith, contains-swap_out (v ∷ txs) t, d.0), ih.1),
    )

-- Removing a transaction from a set takes away it and its equals, and no other member.
pub contains-remove :
    (txs : TransactionsSet) (t u : Transaction)
    → IsDistinct txs
    → contains (remove txs t) u ≡ (contains txs u && not (tx_eq t u))
unfolding remove contains
contains-remove [] t u d = refl
contains-remove (x ∷ xs) t u d = ground (
  arith,
  contains-remove xs t u d.1,
  contains-swap_out xs u,
  contains_congr xs x u,
  d.0,
  tx_eq_left x t u,
  tx_eq_sym x t,
  tx_eq_left x u t,
  tx_eq_sym u t,
)

pub remove-IsDistinct :
    (txs : TransactionsSet) (t : Transaction) → IsDistinct txs → IsDistinct (remove txs t)
unfolding remove contains
remove-IsDistinct [] t d = tt
remove-IsDistinct (x ∷ xs) t d = elim (Bool-cases (tx_eq x t)) [
  | inl e ↦ rw e (swap_out-IsDistinct xs d.1)
  | inr e ↦ rw e (ground (arith, contains-remove xs t x d.1, d.0), remove-IsDistinct xs t d.1)
]

-- Removing a second set from a set of distinct transactions leaves exactly the members that the second does not have.
pub contains-remove_all :
    (txs other : TransactionsSet) (u : Transaction)
    → IsDistinct txs
    → contains (remove_all txs other) u ≡ (contains txs u && not (contains other u))
unfolding remove_all contains
contains-remove_all txs [] u d = ground arith
contains-remove_all txs (t ∷ other) u d = ground (
  arith,
  contains-remove txs t u d,
  contains-remove_all (remove txs t) other u (remove-IsDistinct txs t d),
)

-- Removing a second set from a set of distinct transactions leaves them distinct.
pub remove_all-IsDistinct :
    (txs other : TransactionsSet) → IsDistinct txs → IsDistinct (remove_all txs other)
unfolding remove_all
remove_all-IsDistinct txs [] d = d
remove_all-IsDistinct txs (t ∷ other) d =
    remove_all-IsDistinct (remove txs t) other (remove-IsDistinct txs t d)
