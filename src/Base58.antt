-- ===== src/Base58.antt =====
-- base58Encode of base/bytes.tpp, and std::to_string for unsigned numbers.
use likelib_utonhack.Prelude.{
  ℕ, zero, suc, ◌+◌, ◌*◌, ◌/◌, ◌%◌, not, ◌||◌, [], ◌∷◌, ◌++◌, map, ltb, ◌==◌, if◌then◌else◌, length,
  take, drop, replicate, nat_eq, bytes_equality,
}
use mathlib.Core.List.{reverse}
use likelib_utonhack.Bytes.{Bytes}

-- pszBase58: 1-9, A-Z without I and O, a-z without l.
unfoldable pub psz_base58 : ℕ → ℕ
psz_base58 d =
    if ltb d 9
    then d + 49
    else if ltb d 17
    then d + 56
    else if ltb d 22
    then d + 57
    else if ltb d 33
    then d + 58
    else if ltb d 44
    then d + 64
    else d + 65

-- The inner loop: one more byte is put into the digits, the lowest of them first.
unfoldable pub encode_byte : ℕ → ℕ → ℕ → Bytes → Bytes × ℕ
encode_byte carry i len [] = ([], i)
encode_byte carry i len (d ∷ ds) =
    let rest = encode_byte ((carry + 256 * d) / 58) (i + 1) len ds in
    if not (carry == 0) || ltb i len
    then (((carry + 256 * d) % 58) ∷ rest.0, rest.1)
    else (d ∷ ds, i)

unfoldable pub encode_bytes : Bytes → ℕ → Bytes → Bytes × ℕ
unfolding encode_byte
encode_bytes [] len digits = (digits, len)
encode_bytes (b ∷ bs) len digits =
    let next = encode_byte b 0 len digits in encode_bytes bs next.1 next.0

unfoldable pub count_zeroes : Bytes → ℕ
count_zeroes [] = 0
count_zeroes (b ∷ bs) = if b == 0 then suc (count_zeroes bs) else 0

unfoldable pub skip_zeroes : Bytes → Bytes
skip_zeroes [] = []
skip_zeroes (b ∷ bs) = if b == 0 then skip_zeroes bs else b ∷ bs

unfoldable pub base58_encode : Bytes → Bytes
unfolding psz_base58 encode_bytes count_zeroes skip_zeroes
base58_encode bs =
    let zeroes_count = count_zeroes bs in
    let coded = encode_bytes (drop zeroes_count bs) 0 (replicate (length bs * 138 / 100 + 1) 0) in
    replicate zeroes_count b'1' ++ map psz_base58 (skip_zeroes (reverse (take coded.1 coded.0)))

-- The digits of a number below 10 ^ fuel, the highest first.
unfoldable pub decimal : ℕ → ℕ → Bytes → Bytes
decimal zero n acc = acc
decimal (suc fuel) n acc =
    let rest = decimal fuel (n / 10) ((n % 10 + 48) ∷ acc) in
    if ltb n 10 then (n + 48) ∷ acc else rest

-- std::to_string of a number of at most 64 bits, which has at most 20 digits.
unfoldable pub to_string : ℕ → Bytes
unfolding decimal
to_string n = decimal 20 n []
