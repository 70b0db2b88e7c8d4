-- ===== src/TransactionsSet/Selection.antt =====
-- selectBestByFee over any std::nth_element that does what the standard says.
use likelib_utonhack.Prelude.{
  ℕ, zero, suc, true, false, ◌≤◌, ◌<◌, ◌≡◌, refl, List, [], ◌∷◌, ◌++◌, arith, length, take, drop,
  length-take, All, nat_eq, bytes_equality,
}
use mathlib.Core.List.{Perm}
use likelib_utonhack.Outcome.{ok, raise, Error}
use likelib_utonhack.Transaction.{Transaction}
use likelib_utonhack.TransactionsSet.{
  TransactionsSet, Comparator, NthElement, pays_more, select_best_by_fee,
}

-- No transaction of the second list pays more than one of the first.
abbrev pub PayAtLeast : TransactionsSet → TransactionsSet → Type 0
PayAtLeast best rest = All (λ a. All (λ (b : Transaction). b.fee ≤ a.fee) rest) best

-- What std::nth_element asks of a comparator.
pub record IsStrictWeakOrder (less : Comparator) : Type 0 where
  pub asymmetric : (a b : Transaction) → less a b ≡ true → less b a ≡ false
  pub co_transitive : (a b c : Transaction) → less a b ≡ false → less b c ≡ false → less a c ≡ false

-- No transaction of the second list comes before one of the first.
abbrev pub NoneBefore : Comparator → TransactionsSet → TransactionsSet → Type 0
NoneBefore less front rest = All (λ a. All (λ (b : Transaction). less b a ≡ false) rest) front

-- What the standard says of std::nth_element, for any such comparator: it reorders, and none of the
-- elements behind the first n comes before one of these.
pub record IsNthElement (nth : NthElement) : Type 0 where
  pub reorders :
      (less : Comparator) (n : ℕ) (txs : TransactionsSet)
      → IsStrictWeakOrder less
      → Perm (nth less n txs) txs
  pub keeps_length :
      (less : Comparator) (n : ℕ) (txs : TransactionsSet)
      → IsStrictWeakOrder less
      → length (nth less n txs) ≡ length txs
  pub splits :
      (less : Comparator) (n : ℕ) (txs : TransactionsSet)
      → IsStrictWeakOrder less
      → n ≤ length txs
      → NoneBefore less (take n (nth less n txs)) (drop n (nth less n txs))

pays_more-IsStrictWeakOrder : IsStrictWeakOrder pays_more
unfolding pays_more
pays_more-IsStrictWeakOrder = record {
  asymmetric = λ a b h. ground arith;
  co_transitive = λ a b c h k. ground arith;
}

PayAtLeast-one :
    (a : Transaction) (rest : TransactionsSet)
    → All (λ (b : Transaction). pays_more b a ≡ false) rest
    → All (λ (b : Transaction). b.fee ≤ a.fee) rest
unfolding pays_more
PayAtLeast-one a [] h = tt
PayAtLeast-one a (b ∷ rest) h = let first = h.0 in (ground arith, PayAtLeast-one a rest h.1)

-- What the comparator of the code does not put before a transaction pays no more.
PayAtLeast-NoneBefore :
    (best rest : TransactionsSet) → NoneBefore pays_more best rest → PayAtLeast best rest
PayAtLeast-NoneBefore [] rest h = tt
PayAtLeast-NoneBefore (a ∷ best) rest h =
    (PayAtLeast-one a rest h.0, PayAtLeast-NoneBefore best rest h.1)

pub take-append-drop {ℓ} : {A : Type ℓ} (n : ℕ) (xs : List A) → take n xs ++ drop n xs ≡ xs
take-append-drop zero xs = refl
take-append-drop (suc n) [] = refl
take-append-drop (suc n) (x ∷ xs) = rw (take-append-drop n xs)

-- Of a set with at least n transactions selectBestByFee keeps n, drops the others, and what it drops
-- pays no more than any that it keeps. Where std::nth_element does with a comparator what the standard
-- says.
pub select_best_by_fee-PayAtLeast :
    (nth : NthElement) (n : ℕ) (txs : TransactionsSet)
    → IsNthElement nth
    → n ≤ length txs
    → (best : TransactionsSet) × (dropped : TransactionsSet) × (select_best_by_fee nth n txs
        ≡ ok best)
      × Perm (best ++ dropped) txs
      × (length best ≡ n)
      × PayAtLeast best dropped
unfolding select_best_by_fee
select_best_by_fee-PayAtLeast nth n txs law h =
    let order = pays_more-IsStrictWeakOrder in
    let parted = nth pays_more n txs in
    (
      take n parted,
      drop n parted,
      ground arith,
      rw (take-append-drop n parted) (law.reorders pays_more n txs order),
      omega (arith, length-take n parted, law.keeps_length pays_more n txs order),
      PayAtLeast-NoneBefore (take n parted) (drop n parted) (law.splits pays_more n txs order h),
    )

-- More than there are cannot be selected.
pub select_best_by_fee_too_many :
    (nth : NthElement) (n : ℕ) (txs : TransactionsSet)
    → length txs < n
    → select_best_by_fee nth n txs ≡ raise Error.invalid_argument
unfolding select_best_by_fee
select_best_by_fee_too_many nth n txs h = ground arith
