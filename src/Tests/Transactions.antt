-- ===== src/Tests/Transactions.antt =====
-- The theorems on transactions, sets of them and blocks, at concrete inputs.
use likelib_utonhack.Prelude.{
  take, replicate, ◌++◌, ◌↔◌, ◌≡◌, refl, true, not, ◌&&◌, [], ◌∷◌, arith, nat_eq, bytes_equality,
}
use likelib_utonhack.Outcome.{ok}
use likelib_utonhack.Bytes.{Bytes}
use likelib_utonhack.Crypto.{to_public_key}
use likelib_utonhack.Map.{Map, find}
use likelib_utonhack.Address.{Address, address_of_key}
use likelib_utonhack.Archive.{from_bytes}
use likelib_utonhack.Transaction.{
  Transaction, IsTransaction, Balance, tx_eq, sign_transaction, check_sign,
}
use likelib_utonhack.Transaction.Signature.{check_sign-sign_transaction}
use likelib_utonhack.TransactionsSet.{TransactionsSet, contains, remove_all, calc_cost}
use likelib_utonhack.TransactionsSet.Members.{IsDistinct, contains-remove_all}
use likelib_utonhack.TransactionsSet.Costs.{first_cost, find-calc_cost}
use likelib_utonhack.Block.{IsBlock, make_block, serialize_fields, deserialize_block}
use likelib_utonhack.Block.Codec.{from_bytes-serialize_block}
use likelib_utonhack.Tests.World.{
  libraries, libraries-HasDecimal, libraries-HasSecp256k1, thirty, first, alice,
}

-- Another transaction of alice.
abbrev forty : Transaction
forty = record thirty { amount = 40 }

abbrev two : TransactionsSet
two = thirty ∷ forty ∷ []

-- Thirty, signed with a key.
abbrev signature : Bytes
signature = take 64 (7 ∷ replicate 64 0) ++ 1 ∷ []

signed : sign_transaction libraries (7 ∷ []) thirty ≡ ok (record thirty { sign = signature })
unfolding sign_transaction
signed = refl

check_sign-sign_transaction_example :
    (public : Bytes) × (to_public_key libraries (7 ∷ []) ≡ ok public)
    × (record thirty { sign = signature } ≡ record thirty { sign = signature })
    × ((check_sign libraries (record thirty { sign = signature }) ≡ true)
        ↔ (thirty.from ≡ address_of_key libraries public))
check_sign-sign_transaction_example =
    check_sign-sign_transaction libraries (7 ∷ []) thirty (record thirty { sign = signature })
      libraries-HasSecp256k1 signed

thirty-IsTransaction : IsTransaction thirty
thirty-IsTransaction = record {
  from_fixed = (refl, omega arith);
  to_fixed = (refl, omega arith);
  amount_fits = omega arith;
  fee_fits = omega arith;
  timestamp_fits = omega arith;
  payload_fits = omega arith;
  payload_bytes = tt;
  sign_fixed = (refl, omega arith);
  not_empty = omega arith;
}

pub first-IsBlock : IsBlock first.fields
first-IsBlock = record {
  depth_fits = omega arith;
  nonce_fits = omega arith;
  prev_fixed = (refl, omega arith);
  timestamp_fits = omega arith;
  coinbase_fixed = (refl, omega arith);
  txs_fit = omega arith;
  txs_valid = (thirty-IsTransaction, tt);
}

from_bytes-serialize_block_example :
    from_bytes (deserialize_block libraries) (serialize_fields libraries first.fields)
    ≡ ok (make_block libraries first.fields)
from_bytes-serialize_block_example =
    from_bytes-serialize_block libraries libraries-HasDecimal first.fields first-IsBlock

two-IsDistinct : IsDistinct two
unfolding contains tx_eq
two-IsDistinct = (refl, (refl, tt))

contains-remove_all_example :
    contains (remove_all two (thirty ∷ [])) forty
    ≡ (contains two forty && not (contains (thirty ∷ []) forty))
contains-remove_all_example = contains-remove_all two (thirty ∷ []) forty two-IsDistinct

find-calc_cost_example :
    (r : Map Address Balance) × (calc_cost two ≡ ok r) × (find alice r ≡ first_cost alice two)
find-calc_cost_example = find-calc_cost two alice (omega arith, (omega arith, tt))
