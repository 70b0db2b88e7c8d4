-- ===== src/Endpoint.antt =====
-- net/endpoint.hpp and net/endpoint.cpp: an IPv4 address with a port, and its text.
use likelib_utonhack.Prelude.{
  ℕ, ◌^◌, ◌≤◌, ◌<◌, ◌≡◌, refl, Bool, false, ◌&&◌, Option, none, some, [], ◌∷◌, ◌++◌, arith, ◌==◌,
  if◌then◌else◌, length, length-append, All, All-append, nat_eq, bytes_equality,
}
use likelib_utonhack.Outcome.{Outcome, ok, raise, Error}
use likelib_utonhack.Bytes.{Bytes, AreBytes}
use likelib_utonhack.Archive.{
  Reader, lift, ◌>>=◌, deserialize_bytes, serialize_bytes, Reads, Reads-lift, bytes-Reads,
}

-- What the class calls: the text of an address and its parser of boost.asio, std::to_string of a
-- port and the parser of an int of boost.spirit; none stands for an exception or a failure.
pub record Inet : Type 0 where
  pub address_text : ℕ → Bytes
  pub make_address : Bytes → Option ℕ
  pub port_text : ℕ → Bytes
  pub parse_port : Bytes → Option ℕ

-- The character ':'.
abbrev pub colon : ℕ
colon = 58

-- Addresses and ports are read back from their texts; an address' text is digits and dots.
pub record HasInet (inet : Inet) : Type 0 where
  pub make_address-text : (a : ℕ) → a < 2 ^ 32 → inet.make_address (inet.address_text a) ≡ some a
  pub no_colon : (a : ℕ) → All (λ b. (b == colon) ≡ false) (inet.address_text a)
  pub address-AreBytes : (a : ℕ) → AreBytes (inet.address_text a)
  pub length-address : (a : ℕ) → a < 2 ^ 32 → length (inet.address_text a) ≤ 15
  pub parse_port-text : (p : ℕ) → p < 2 ^ 16 → inet.parse_port (inet.port_text p) ≡ some p
  pub port-AreBytes : (p : ℕ) → AreBytes (inet.port_text p)
  pub length-port : (p : ℕ) → p < 2 ^ 16 → length (inet.port_text p) ≤ 5

pub record Endpoint : Type 0 where
  pub address : ℕ
  pub port : ℕ

-- The ranges of the fields' types.
pub record IsEndpoint (e : Endpoint) : Type 0 where
  pub address_fits : e.address < 2 ^ 32
  pub port_fits : e.port < 2 ^ 16

-- Endpoint::operator==
unfoldable pub endpoint_eq : Endpoint → Endpoint → Bool
endpoint_eq a b = (a.address == b.address) && (a.port == b.port)

-- Endpoint::setPort
unfoldable pub set_port : ℕ → Endpoint → Endpoint
set_port port e = record e { port = port }

-- Endpoint::toString
unfoldable pub to_text : Inet → Endpoint → Bytes
to_text inet e = inet.address_text e.address ++ colon ∷ inet.port_text e.port

-- The parts of a text before and behind its first colon.
abbrev pub split_at_colon : Bytes → Option (Bytes × Bytes)
split_at_colon [] = none
split_at_colon (b ∷ bs) =
    let rest = split_at_colon bs in
    if b == colon then some ([], bs) else elim rest [ none ↦ none | some (x, y) ↦ some (b ∷ x, y) ]

-- The constructor from a text.
unfoldable pub parse_endpoint : Inet → Bytes → Outcome Endpoint
parse_endpoint inet text = elim (split_at_colon text) [
  | none ↦ raise Error.invalid_argument
  | some (address_part, port_part) ↦ elim (inet.make_address address_part) [
    | none ↦ raise Error.invalid_argument
    | some address ↦ elim (inet.parse_port port_part) [
      | none ↦ raise Error.invalid_argument
      | some port ↦ ok (record { address = address; port = port })
    ]
  ]
]

-- Endpoint::serialize, Endpoint::deserialize
unfoldable pub serialize_endpoint : Inet → Endpoint → Bytes
unfolding to_text
serialize_endpoint inet e = serialize_bytes (to_text inet e)

unfoldable pub deserialize_endpoint : Inet → Reader Endpoint
deserialize_endpoint inet = deserialize_bytes >>= λ text. lift (parse_endpoint inet text)

split_at_colon-append :
    (xs ys : Bytes)
    → All (λ b. (b == colon) ≡ false) xs
    → split_at_colon (xs ++ colon ∷ ys) ≡ some (xs, ys)
split_at_colon-append [] ys h = refl
split_at_colon-append (x ∷ xs) ys h = rw (h.0, split_at_colon-append xs ys h.1)

-- An endpoint is read back from its text.
parse_endpoint-to_text :
    (inet : Inet) (e : Endpoint)
    → HasInet inet
    → IsEndpoint e
    → parse_endpoint inet (to_text inet e) ≡ ok e
unfolding parse_endpoint to_text
parse_endpoint-to_text inet e law valid = rw (
  parse_endpoint,
  split_at_colon-append (inet.address_text e.address) (inet.port_text e.port)
      (law.no_colon e.address),
  law.make_address-text e.address valid.address_fits,
  law.parse_port-text e.port valid.port_fits,
)

pub endpoint-Reads :
    (inet : Inet) (e : Endpoint)
    → HasInet inet
    → IsEndpoint e
    → Reads (deserialize_endpoint inet) e (serialize_endpoint inet e)
unfolding deserialize_endpoint serialize_endpoint to_text
endpoint-Reads inet e law valid =
    let text = to_text inet e in
    let short = law.length-address e.address valid.address_fits in
    let short' = law.length-port e.port valid.port_fits in
    let size = length-append (inet.address_text e.address) (colon ∷ inet.port_text e.port) in
    let bytes : AreBytes text =
      All-append (λ b. b < 256) (inet.address_text e.address) (colon ∷ inet.port_text e.port)
        (law.address-AreBytes e.address) (omega arith, law.port-AreBytes e.port) in
    Reads-lift (parse_endpoint inet) (bytes-Reads text (omega (arith, short, short', size)) bytes)
      (parse_endpoint-to_text inet e law valid)
