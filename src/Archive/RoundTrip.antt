-- ===== src/Archive/RoundTrip.antt =====
-- Round trips through an archive: what it means that a reader reads back what was written, and
-- the rules by which readers of composite values inherit it.
use likelib_utonhack.Prelude.{
  ℕ, ◌+◌, ◌^◌, ◌<◌, ◌≡◌, subst, true, List, [], ◌∷◌, ◌++◌, append-nil, append_assoc, arith, leb,
  le→leb, length, take, length-append, drop-append, take-append, All, nat_eq, bytes_equality,
}
use likelib_utonhack.Outcome.{Outcome, ok}
use likelib_utonhack.Bytes.{Bytes, be_bytes, AreBytes, IsFixed}
use likelib_utonhack.Archive.Defs.{
  IArchive, Reader, pure, lift, ◌>>=◌, deserialize_integral, serialize_integral, deserialize_each,
  serialize_each, deserialize_vector, serialize_vector, deserialize_bytes, serialize_bytes,
  deserialize_fixed, serialize_fixed, from_bytes,
}
use likelib_utonhack.Archive.Integers.{length-be_bytes, be_value-be_bytes}

-- An archive that has read `pre` and has `post` before it.
abbrev pub at : Bytes → Bytes → IArchive
at pre post = record { bytes = pre ++ post; index = length pre }

-- Wherever `e` stands, the reader takes exactly `e` and gives `v`.
pub record Reads {ℓ} {A : Type ℓ} (d : Reader A) (v : A) (e : Bytes) : Type ℓ where
  pub read : (pre post : Bytes) → d (at pre (e ++ post)) ≡ ok (v, at (pre ++ e) post)

pub Reads-pure {ℓ} : {A : Type ℓ} (v : A) → Reads (pure v) v []
Reads-pure v = record { read = λ pre post. rw (append-nil pre) }

pub Reads-bind {ℓ κ} :
    {A : Type ℓ} {B : Type κ} {d : Reader A} {v : A} {w : B} {e f : Bytes} (k : A → Reader B)
    → Reads d v e
    → Reads (k v) w f
    → Reads (d >>= k) w (e ++ f)
Reads-bind {e = e} {f = f} k hd hk = record {
  read = λ pre post.
      rw (append_assoc e f post, ◌>>=◌, hd.read pre (f ++ post))
        (rw (hk.read (pre ++ e) post, append_assoc pre e f));
}

-- The last field of a composite value.
pub Reads-map {ℓ κ} :
    {A : Type ℓ} {B : Type κ} {d : Reader A} {v : A} {e : Bytes} (g : A → B)
    → Reads d v e
    → Reads (d >>= λ a. pure (g a)) (g v) e
Reads-map {e = e} g hd = record { read = λ pre post. rw (◌>>=◌, hd.read pre post) }

-- The last field of a value whose constructor may throw.
pub Reads-lift {ℓ κ} :
    {A : Type ℓ} {B : Type κ} {d : Reader A} {v : A} {w : B} {e : Bytes} (g : A → Outcome B)
    → Reads d v e
    → g v ≡ ok w
    → Reads (d >>= λ a. lift (g a)) w e
Reads-lift {e = e} g hd h = record { read = λ pre post. rw (◌>>=◌, hd.read pre post) (rw h) }

take_exact : (w : ℕ) (xs ys : Bytes) → length xs ≡ w → take w (xs ++ ys) ≡ xs
take_exact w xs ys h = rw (← h) (take-append xs ys)

pub integral-Reads :
    (w v : ℕ) → v < 256 ^ w → Reads (deserialize_integral w) v (serialize_integral w v)
unfolding deserialize_integral serialize_integral
integral-Reads w v h = record {
  read = λ pre post.
      let fits : leb (length pre + w) (length (pre ++ (be_bytes w v ++ post))) ≡ true = le→leb _ _ (
        omega (
          arith,
          length-append pre (be_bytes w v ++ post),
          length-append (be_bytes w v) post,
          length-be_bytes w v,
        )) in
      rw (
        fits,
        drop-append pre (be_bytes w v ++ post),
        take_exact w (be_bytes w v) post (length-be_bytes w v),
        be_value-be_bytes w v h,
        append_assoc pre (be_bytes w v) post,
        length-append pre (be_bytes w v),
        length-be_bytes w v,
      );
}

pub each-Reads {ℓ} :
    {A : Type ℓ} (d : Reader A) (s : A → Bytes) (xs : List A)
    → All (λ x. Reads d x (s x)) xs
    → Reads (deserialize_each (length xs) d) xs (serialize_each s xs)
unfolding deserialize_each serialize_each
each-Reads d s [] h = Reads-pure []
each-Reads d s (x ∷ xs) h = Reads-bind _ h.0 (Reads-map _ (each-Reads d s xs h.1))

pub vector-Reads {ℓ} :
    {A : Type ℓ} (d : Reader A) (s : A → Bytes) (xs : List A)
    → length xs < 256 ^ 8
    → All (λ x. Reads d x (s x)) xs
    → Reads (deserialize_vector d) xs (serialize_vector s xs)
unfolding deserialize_vector serialize_vector
vector-Reads d s xs fits h = Reads-bind _ (integral-Reads 8 (length xs) fits) (each-Reads d s xs h)

byte-Reads :
    (bs : Bytes)
    → AreBytes bs
    → All (λ b. Reads (deserialize_integral 1) b (serialize_integral 1 b)) bs
byte-Reads [] h = tt
byte-Reads (b ∷ bs) h = (integral-Reads 1 b h.0, byte-Reads bs h.1)

pub bytes-Reads :
    (bs : Bytes)
    → length bs < 256 ^ 8
    → AreBytes bs
    → Reads deserialize_bytes bs (serialize_bytes bs)
unfolding deserialize_bytes serialize_bytes
bytes-Reads bs fits h =
    Reads-bind _ (integral-Reads 8 (length bs) fits)
      (each-Reads (deserialize_integral 1) (serialize_integral 1) bs (byte-Reads bs h))

pub fixed-Reads :
    (s : ℕ) (bs : Bytes) → IsFixed s bs → Reads (deserialize_fixed s) bs (serialize_fixed bs)
unfolding deserialize_fixed serialize_fixed
fixed-Reads s bs h =
    subst
      (λ n.
        Reads (deserialize_each n (deserialize_integral 1)) bs
          (serialize_each (serialize_integral 1) bs))
      h.0 (each-Reads (deserialize_integral 1) (serialize_integral 1) bs (byte-Reads bs h.1))

-- What a reader reads back inside an archive, `from_bytes` reads back from the bytes alone.
pub from_bytes-Reads :
    {A : Type 0} (d : Reader A) (v : A) (e : Bytes) → Reads d v e → from_bytes d e ≡ ok v
unfolding from_bytes
from_bytes-Reads d v e h =
    let whole : d (record { bytes = e; index = 0 })
        ≡ ok (v, record { bytes = e; index = length e }) =
      subst
        (λ bs.
          d (record { bytes = bs; index = 0 }) ≡ ok (v, record { bytes = bs; index = length e }))
        (append-nil e) (h.read [] []) in
    rw (from_bytes, whole)
