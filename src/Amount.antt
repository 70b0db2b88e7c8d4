-- ===== src/Amount.antt =====
-- base/big_integer.hpp: Uint256 is a checked integer, whose operations throw instead of wrapping.
use likelib_utonhack.Prelude.{ℕ, ◌+◌, ◌-◌, ◌^◌, ltb, leb, if◌then◌else◌, nat_eq, bytes_equality}
use likelib_utonhack.Outcome.{Outcome, ok, raise, Error}

-- ~Uint256{0}
abbrev pub max_amount : ℕ
max_amount = 2 ^ 256 - 1

-- operator+ and operator+=
unfoldable pub add_amount : ℕ → ℕ → Outcome ℕ
add_amount a b = if leb (a + b) max_amount then ok (a + b) else raise Error.overflow_error

-- operator-=
unfoldable pub sub_amount : ℕ → ℕ → Outcome ℕ
sub_amount a b = if ltb a b then raise Error.overflow_error else ok (a - b)
