-- ===== src/Bytes.antt =====
-- base/bytes.hpp and base/bytes.cpp: byte strings. A FixedBytes<S> is a byte string of length S,
-- and a std::string the byte string of its characters.
use likelib_utonhack.Prelude.{
  ℕ, zero, suc, ◌+◌, ◌-◌, ◌*◌, ◌/◌, ◌%◌, ◌<◌, ◌≡◌, Bool, true, false, not, ◌&&◌, ◌||◌, List, [],
  ◌∷◌, ◌++◌, ltb, leb, ◌==◌, if◌then◌else◌, length, take, drop, All, nat_eq, bytes_equality,
}
use likelib_utonhack.Outcome.{Outcome, ok, raise, Error}

abbrev pub Bytes : Type 0
Bytes = List ℕ

-- Every element is a value of uint8_t.
abbrev pub AreBytes : Bytes → Type 0
AreBytes bs = All (λ b. b < 256) bs

-- The type invariant of FixedBytes<S>.
abbrev pub IsFixed : ℕ → Bytes → Type 0
IsFixed s bs = (length bs ≡ s) × AreBytes bs

-- Bytes::isEmpty
abbrev pub is_empty : Bytes → Bool
is_empty [] = true
is_empty (b ∷ bs) = false

-- Bytes::takePart
unfoldable pub take_part : Bytes → ℕ → ℕ → Outcome Bytes
take_part bs begin_index one_past_end_index =
    if ltb begin_index one_past_end_index && leb one_past_end_index (length bs)
    then ok (take (one_past_end_index - begin_index) (drop begin_index bs))
    else raise Error.assertion

-- Bytes::operator<, which is std::vector's lexicographic order.
unfoldable pub lt_bytes : Bytes → Bytes → Bool
lt_bytes [] [] = false
lt_bytes [] (y ∷ ys) = true
lt_bytes (x ∷ xs) [] = false
lt_bytes (x ∷ xs) (y ∷ ys) = ltb x y || (x == y) && lt_bytes xs ys

-- Bytes::operator<=, written as !(a > b).
unfoldable pub le_bytes : Bytes → Bytes → Bool
unfolding lt_bytes
le_bytes a b = not (lt_bytes b a)

-- The bytes read as one big-endian number.
abbrev pub value_from : ℕ → Bytes → ℕ
value_from acc [] = acc
value_from acc (b ∷ bs) = value_from (acc * 256 + b) bs

abbrev pub be_value : Bytes → ℕ
be_value bs = value_from 0 bs

-- The lowest w bytes of a number, the highest of them first.
abbrev pub be_bytes : ℕ → ℕ → Bytes
be_bytes zero v = []
be_bytes (suc w) v = be_bytes w (v / 256) ++ (v % 256) ∷ []
