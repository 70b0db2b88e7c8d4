-- ===== src/Tests/Texts.antt =====
-- Texts that base58Encode and std::to_string give for known inputs.
use likelib_utonhack.Prelude.{◌≡◌, refl, [], ◌∷◌, nat_eq, bytes_equality}
use likelib_utonhack.Base58.{base58_encode, to_string}

one_byte : base58_encode (255 ∷ []) ≡ b'5' ∷ b'Q' ∷ []
unfolding base58_encode
one_byte = refl

leading_zero : base58_encode (0 ∷ 58 ∷ []) ≡ b'1' ∷ b'2' ∷ b'1' ∷ []
unfolding base58_encode
leading_zero = refl

year : to_string 2020 ≡ b'2' ∷ b'0' ∷ b'2' ∷ b'0' ∷ []
unfolding to_string
year = refl
