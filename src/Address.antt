-- ===== src/Address.antt =====
-- core/address.hpp and core/address.cpp: an account's address, 20 bytes.
use likelib_utonhack.Prelude.{Bool, replicate, nat_eq, bytes_eq, bytes_equality}
use likelib_utonhack.Bytes.{Bytes, IsFixed}
use likelib_utonhack.External.{External}
use likelib_utonhack.Archive.{Reader, deserialize_fixed, serialize_fixed, Reads, fixed-Reads}

abbrev pub Address : Type 0
Address = Bytes

-- Address::null
unfoldable pub null_address : Address
null_address = replicate 20 0

-- Address::isNull
unfoldable pub is_null : Address → Bool
unfolding null_address
is_null a = bytes_eq a null_address

-- The constructor from a public key.
unfoldable pub address_of_key : External → Bytes → Address
address_of_key ext key = ext.ripemd160 (ext.sha256 key)

-- Address::serialize, Address::deserialize
unfoldable pub serialize_address : Address → Bytes
serialize_address a = serialize_fixed a

unfoldable pub deserialize_address : Reader Address
deserialize_address = deserialize_fixed 20

pub address-Reads : (a : Address) → IsFixed 20 a → Reads deserialize_address a (serialize_address a)
unfolding deserialize_address serialize_address
address-Reads a h = fixed-Reads 20 a h
