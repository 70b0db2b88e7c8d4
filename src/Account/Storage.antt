-- ===== src/Account/Storage.antt =====
-- The contract storage of an account as a map.
use likelib_utonhack.Prelude.{◌≡◌, true, arith, if◌then◌else◌, nat_eq, bytes_eq, bytes_equality}
use likelib_utonhack.Outcome.{ok}
use likelib_utonhack.Bytes.{Bytes}
use likelib_utonhack.Map.{find-put}
use likelib_utonhack.Account.{AccountState, get_storage_value, set_storage_value}

-- A read after a write gives the written value, marked modified, under the written key, and what
-- it gave before, or the same error, under any other.
pub get_storage_value-set_storage_value :
    (key other value : Bytes) (a : AccountState)
    → get_storage_value other (set_storage_value key value a) ≡ (
        if bytes_eq key other
        then ok (record { value = value; was_modified = true })
        else get_storage_value other a)
unfolding get_storage_value set_storage_value
get_storage_value-set_storage_value key other value a =
    ground (arith, find-put key other (record { value = value; was_modified = true }) a.storage)
