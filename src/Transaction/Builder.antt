-- ===== src/Transaction/Builder.antt =====
-- TransactionBuilder of core/transaction.cpp.
use likelib_utonhack.Prelude.{Option, none, some, replicate, nat_eq, bytes_equality}
use likelib_utonhack.Outcome.{Outcome, ok, raise, Error, ◌>>=◌}
use likelib_utonhack.Bytes.{Bytes}
use likelib_utonhack.Time.{Time}
use likelib_utonhack.Address.{Address}
use likelib_utonhack.Transaction.{Transaction, Balance, Fee, make_transaction}

pub record TransactionBuilder : Type 0 where
  pub from : Option Address
  pub to : Option Address
  pub amount : Option Balance
  pub timestamp : Option Time
  pub fee : Option Fee
  pub payload : Option Bytes
  pub sign : Option Bytes

unfoldable pub empty_builder : TransactionBuilder
empty_builder = record {
  from = none;
  to = none;
  amount = none;
  timestamp = none;
  fee = none;
  payload = none;
  sign = none;
}

unfoldable pub set_from : Address → TransactionBuilder → TransactionBuilder
set_from a b = record b { from = some a }

unfoldable pub set_to : Address → TransactionBuilder → TransactionBuilder
set_to a b = record b { to = some a }

unfoldable pub set_amount : Balance → TransactionBuilder → TransactionBuilder
set_amount n b = record b { amount = some n }

unfoldable pub set_timestamp : Time → TransactionBuilder → TransactionBuilder
set_timestamp t b = record b { timestamp = some t }

unfoldable pub set_fee : Fee → TransactionBuilder → TransactionBuilder
set_fee n b = record b { fee = some n }

unfoldable pub set_payload : Bytes → TransactionBuilder → TransactionBuilder
set_payload bs b = record b { payload = some bs }

unfoldable pub set_sign : Bytes → TransactionBuilder → TransactionBuilder
set_sign s b = record b { sign = some s }

-- The default argument of the constructor: lk::Sign{}.
abbrev or_no_sign : Option Bytes → Bytes
or_no_sign none = replicate 65 0
or_no_sign (some s) = s

-- ASSERT(field), and its value.
abbrev required {ℓ} : {A : Type ℓ} → Option A → Outcome A
required none = raise Error.assertion
required (some a) = ok a

-- TransactionBuilder::build
unfoldable pub build : TransactionBuilder → Outcome Transaction
build b = do
  from ← required b.from
  to ← required b.to
  amount ← required b.amount
  fee ← required b.fee
  timestamp ← required b.timestamp
  payload ← required b.payload
  make_transaction from to amount fee timestamp payload (or_no_sign b.sign)
