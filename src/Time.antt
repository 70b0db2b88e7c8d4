-- ===== src/Time.antt =====
-- base/time.hpp and base/time.cpp: seconds since the epoch, a uint_least32_t.
use likelib_utonhack.Prelude.{
  ℕ, ◌-◌, ◌^◌, ◌<◌, Bool, not, ltb, if◌then◌else◌, nat_eq, bytes_equality,
}
use likelib_utonhack.Outcome.{Outcome, ok, raise, Error}
use likelib_utonhack.Bytes.{Bytes}
use likelib_utonhack.Archive.{
  Reader, deserialize_integral, serialize_integral, Reads, integral-Reads,
}

abbrev pub Time : Type 0
Time = ℕ

-- Time::operator-
unfoldable pub sub_time : Time → Time → Outcome Time
sub_time a b = if ltb a b then raise Error.logic_error else ok (a - b)

-- Time::operator>=, written as !(a < b).
unfoldable pub ge_time : Time → Time → Bool
ge_time a b = not (ltb a b)

-- Time::serialize, Time::deserialize
unfoldable pub serialize_time : Time → Bytes
serialize_time t = serialize_integral 4 t

unfoldable pub deserialize_time : Reader Time
deserialize_time = deserialize_integral 4

pub time-Reads : (t : Time) → t < 256 ^ 4 → Reads deserialize_time t (serialize_time t)
unfolding serialize_time deserialize_time
time-Reads t h = integral-Reads 4 t h
