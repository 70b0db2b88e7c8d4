-- ===== src/Rating.antt =====
-- core/rating.hpp and core/rating.cpp: what a node thinks of a peer, kept in a database. A value is an
-- int16_t, as the number that its 16 bits have.
use likelib_utonhack.Prelude.{
  ℕ, ◌+◌, ◌-◌, ◌*◌, ◌/◌, ◌%◌, ◌^◌, ◌≤◌, ◌<◌, ◌≡◌, ◌∙◌, Bool, ◌&&◌, none, some, ◌++◌, arith, ltb,
  leb, ◌==◌, if◌then◌else◌, nat_eq, bytes_equality, beq_refl,
}
use likelib_utonhack.Outcome.{Outcome, ok, raise}
use likelib_utonhack.Bytes.{Bytes}
use likelib_utonhack.Archive.{
  Reader, pure, ◌>>=◌, deserialize_integral, serialize_integral, from_bytes, Reads, Reads-bind,
  Reads-map, integral-Reads, from_bytes-Reads,
}
use likelib_utonhack.Exec.{Exec}
use likelib_utonhack.Time.{Time, sub_time, serialize_time, deserialize_time, time-Reads}
use likelib_utonhack.Storage.{KeyValue}

abbrev pub Value : Type 0
Value = ℕ

-- INITIAL_PEER_RATING
abbrev pub initial_rating : Value
initial_rating = 20

-- value -= n
abbrev pub lower : ℕ → Value → Value
lower n value = (value + 2 ^ 16 - n) % 2 ^ 16

-- value > 0
abbrev pub is_positive : Value → Bool
is_positive value = ltb 0 value && ltb value (2 ^ 15)

-- Rating::Data
pub record Data : Type 0 where
  pub value : Value
  pub ts : Time

-- Data::serialize, Data::deserialize
unfoldable pub serialize_data : Data → Bytes
serialize_data d = serialize_integral 2 d.value ++ serialize_time d.ts

unfoldable pub deserialize_data : Reader Data
deserialize_data = do
  value ← deserialize_integral 2
  ts ← deserialize_time
  pure (record { value = value; ts = ts })

data-Reads :
    (d : Data) → d.value < 2 ^ 16 → d.ts < 2 ^ 32 → Reads deserialize_data d (serialize_data d)
unfolding deserialize_data serialize_data
data-Reads d h k = Reads-bind _ (integral-Reads 2 d.value h) (Reads-map _ (time-Reads d.ts k))

module _ (kv : KeyValue) where
  -- A Rating object, with the database that it refers to.
  pub record Rating : Type 0 where
    pub serialized_ep : Bytes
    pub db : kv.Store
    pub data_of : Data

  -- Rating::dbUpdate
  unfoldable pub db_update : Rating → Rating
  db_update r = record r { db = kv.put r.serialized_ep (serialize_data r.data_of) r.db }

  -- The constructor.
  unfoldable pub get_rating : Bytes → kv.Store → Outcome Rating
  unfolding db_update deserialize_data
  get_rating ep db = elim (kv.get ep db) [
    | some bytes ↦ elim (from_bytes deserialize_data bytes) [
      | ok d ↦ ok (record { serialized_ep = ep; db = db; data_of = d })
      | raise e ↦ raise e
    ]
    | none ↦ ok (
        db_update (record {
          serialized_ep = ep;
          db = db;
          data_of = record { value = initial_rating; ts = 0 };
        }))
  ]

  -- Rating::isGood
  unfoldable pub is_good : Rating → Bool
  is_good r = is_positive r.data_of.value

  unfoldable pub lower_rating : ℕ → Rating → Rating
  unfolding db_update
  lower_rating n r =
      db_update (record r { data_of = record (r.data_of) { value = lower n r.data_of.value } })

  -- nonExpectedMessage, invalidMessage, badBlock, differentGenesis, cannotAddToPool
  unfoldable pub non_expected_message : Rating → Rating
  unfolding lower_rating
  non_expected_message = lower_rating 20

  unfoldable pub invalid_message : Rating → Rating
  unfolding lower_rating
  invalid_message = lower_rating 30

  unfoldable pub bad_block : Rating → Rating
  unfolding lower_rating
  bad_block = lower_rating 10

  unfoldable pub different_genesis : Rating → Rating
  unfolding lower_rating
  different_genesis = lower_rating (2 * initial_rating)

  unfoldable pub cannot_add_to_pool : Rating → Rating
  unfolding lower_rating
  cannot_add_to_pool = lower_rating 10

  -- connectionRefused
  unfoldable pub connection_refused : Rating → Rating
  unfolding db_update
  connection_refused r =
      db_update
        (record r { data_of = record (r.data_of) { value = lower (initial_rating + 10) 0 } })

  -- The sum of two int16_t and 2 ^ 16, and std::min(INITIAL_PEER_RATING, a + b) as an int16_t.
  abbrev pub sum_of : Value → Value → ℕ
  sum_of a b = (a + 2 ^ 15) % 2 ^ 16 + (b + 2 ^ 15) % 2 ^ 16

  abbrev pub repaired : Value → Value → Value
  repaired value hours =
      if leb (initial_rating + 2 ^ 16) (sum_of value hours)
      then initial_rating
      else (value + hours) % 2 ^ 16

  -- Rating::getValue at a time; the number of hours becomes an int16_t.
  unfoldable pub get_value : Time → Exec Rating Value
  unfolding is_good sub_time db_update
  get_value now r =
      if is_good r then (ok r.data_of.value, r) else elim (sub_time now r.data_of.ts) [
        | raise e ↦ (raise e, r)
        | ok seconds ↦
            (let value = repaired r.data_of.value (seconds / 3600 % 2 ^ 16) in
              if value == r.data_of.value then (ok value, r) else (
                ok value,
                db_update (record r { data_of = record { value = value; ts = now } }),
              ))
      ]

  -- A lowered rating is the one that is read from the database later: an object that is made for the same
  -- endpoint over the database of the object that was lowered has its value and its time. Where the
  -- time is in the range of a uint32_t.
  pub get_rating-lower_rating :
      (n : ℕ) (r : Rating)
      → r.data_of.ts < 2 ^ 32
      → get_rating r.serialized_ep (lower_rating n r).db ≡ ok (lower_rating n r)
  unfolding get_rating lower_rating db_update
  get_rating-lower_rating n r fits =
      let d : Data = record (r.data_of) { value = lower n r.data_of.value } in
      let there : kv.get r.serialized_ep (lower_rating n r).db ≡ some (serialize_data d) =
        kv.get-put r.serialized_ep r.serialized_ep (serialize_data d) r.db
        ∙ rw (beq_refl r.serialized_ep) in
      let read =
        from_bytes-Reads deserialize_data d (serialize_data d) (data-Reads d (omega arith) fits) in
      rw (get_rating, there) (rw read)

  get_value-refused :
      (now : Time) (r : Rating)
      → r.data_of.ts ≡ 0
      → (get_value now (connection_refused r)).0
        ≡ ok (repaired (lower (initial_rating + 10) 0) (now / 3600 % 2 ^ 16))
  unfolding get_value connection_refused is_good sub_time db_update
  get_value-refused now r h = rw h (ground arith)

  -- The time of a rating is not set when the rating is lowered. Where it is still 0, the rating that
  -- getValue answers once the peer has refused a connection depends on the hours since 1970 as an
  -- int16_t: where they are from 50 to 32767, the peer is forgiven at once and has the rating 20; where
  -- they are from -32738 to -1, its rating of -30 sinks to -31 or less.
  pub get_value-connection_refused :
      (now : Time) (r : Rating)
      → r.data_of.ts ≡ 0
      → (50 ≤ now / 3600 % 2 ^ 16
          → now / 3600 % 2 ^ 16 < 2 ^ 15
          → (get_value now (connection_refused r)).0 ≡ ok initial_rating)
        × (2 ^ 15 + 30 ≤ now / 3600 % 2 ^ 16
            → (value : Value) × ((get_value now (connection_refused r)).0 ≡ ok value)
              × (2 ^ 15 ≤ value)
              × (value + 31 ≤ 2 ^ 16))
  get_value-connection_refused now r h =
      let e = get_value-refused now r h in
      (
        λ some_hours few. e ∙ ground arith,
        λ many. (
          repaired (lower (initial_rating + 10) 0) (now / 3600 % 2 ^ 16),
          e,
          ground arith,
          ground arith,
        ),
      )
