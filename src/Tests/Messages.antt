-- ===== src/Tests/Messages.antt =====
-- Texts of addresses and ports, and the theorem on messages at a message with such texts.
use likelib_utonhack.Prelude.{
  ℕ, ◌+◌, ◌*◌, ◌/◌, ◌%◌, ◌^◌, ◌<◌, ◌≡◌, refl, ap, false, Option, none, some, [], ◌∷◌, arith, ◌==◌,
  nat_eq, bytes_equality,
}
use likelib_utonhack.Outcome.{ok}
use likelib_utonhack.Bytes.{Bytes}
use likelib_utonhack.Endpoint.{Inet, HasInet}
use likelib_utonhack.Message.{Message, cannot_accept, IsMessage}
use likelib_utonhack.Message.Codec.{prepare_message, receive_message}
use likelib_utonhack.Message.RoundTrip.{receive_message-prepare_message}
use likelib_utonhack.Tests.World.{libraries, libraries-HasDecimal, alice}

-- Seven digits to base 32, none of which is a colon.
abbrev digits : ℕ → Bytes
digits a =
    a / 32 ^ 6 % 32
    ∷ a / 32 ^ 5 % 32
    ∷ a / 32 ^ 4 % 32
    ∷ a / 32 ^ 3 % 32
    ∷ a / 32 ^ 2 % 32
    ∷ a / 32 % 32
    ∷ a % 32
    ∷ []

abbrev undigits : Bytes → Option ℕ
undigits (a ∷ b ∷ c ∷ d ∷ e ∷ f ∷ g ∷ []) =
    some (a * 32 ^ 6 + b * 32 ^ 5 + c * 32 ^ 4 + d * 32 ^ 3 + e * 32 ^ 2 + f * 32 + g)
undigits _ = none

abbrev two_bytes : ℕ → Bytes
two_bytes p = p / 256 % 256 ∷ p % 256 ∷ []

abbrev from_two : Bytes → Option ℕ
from_two (a ∷ b ∷ []) = some (a * 256 + b)
from_two _ = none

abbrev pub inet : Inet
inet = record {
  address_text = digits;
  make_address = undigits;
  port_text = two_bytes;
  parse_port = from_two;
}

below_colon : (n : ℕ) → (n % 32 == 58) ≡ false
below_colon n = ground arith

inet-HasInet : HasInet inet
inet-HasInet = record {
  make_address-text = λ a h. ap some (omega (arith, h));
  no_colon = λ a. (
    below_colon (a / 32 ^ 6),
    (
      below_colon (a / 32 ^ 5),
      (
        below_colon (a / 32 ^ 4),
        (
          below_colon (a / 32 ^ 3),
          (below_colon (a / 32 ^ 2), (below_colon (a / 32), (below_colon a, tt))),
        ),
      ),
    ),
  );
  address-AreBytes = λ a. omega arith;
  length-address = λ a h. omega arith;
  parse_port-text = λ p h. ap some (omega (arith, h));
  port-AreBytes = λ p. omega arith;
  length-port = λ p h. omega arith;
}

-- The bucket is full, and another node's endpoint.
abbrev refusal : Message
refusal = cannot_accept (record {
  why_not_accepted = 1;
  peers_info =
      record { endpoint = record { address = 2130706433; port = 20203 }; address = alice } ∷ [];
})

refusal-IsMessage : IsMessage libraries refusal
refusal-IsMessage = (
  omega arith,
  omega arith,
  (
    record {
      endpoint_valid = record { address_fits = omega arith; port_fits = omega arith };
      address_fixed = (refl, omega arith);
    },
    tt,
  ),
)

receive_message-prepare_message_example :
    (receive_message libraries inet (prepare_message libraries inet 65535 refusal).0
      ≡ ok (65535, some refusal))
    × ((prepare_message libraries inet 65535 refusal).1 < 2 ^ 16)
receive_message-prepare_message_example =
    receive_message-prepare_message libraries inet libraries-HasDecimal inet-HasInet 65535 refusal
      (omega arith) refusal-IsMessage
