-- ===== src/Tests/World.antt =====
-- Concrete libraries, transactions, blocks and nodes, on which the theorems are applied.
use likelib_utonhack.Prelude.{
  ℕ, zero, suc, ◌/◌, ◌%◌, ◌^◌, ◌≡◌, refl, ap, sym, ◌∙◌, inl, inr, none, some, [], ◌∷◌, ◌++◌, arith,
  ltb, if◌then◌else◌, lt→ltb, Bool-cases, length, take, length-take, length-append, replicate,
  length-replicate, nat_eq, bytes_equality,
}
use likelib_utonhack.Outcome.{Outcome, ok, raise, Error}
use likelib_utonhack.Bytes.{Bytes, AreBytes, be_value, be_bytes}
use likelib_utonhack.Map.{Map, find, put, find-put}
use likelib_utonhack.Archive.{be_value-be_bytes, length-be_bytes, be_bytes-AreBytes}
use likelib_utonhack.External.{External, HasDecimal, HasSecp256k1}
use likelib_utonhack.Address.{Address}
use likelib_utonhack.Transaction.{Transaction}
use likelib_utonhack.Block.{ImmutableBlock}
use likelib_utonhack.Account.{AccountState, client}
use likelib_utonhack.States.{States}
use likelib_utonhack.Consensus.{Double}
use likelib_utonhack.Consensus.Bounds.{IsDouble}
use likelib_utonhack.Blockchain.{Blockchain, make_blockchain}
use likelib_utonhack.Blockchain.Chain.{Holds, make_blockchain-Holds}
use likelib_utonhack.Ledger.{Ledger}
use likelib_utonhack.Ledger.Vm.{Machine, EvmcStatus}
use likelib_utonhack.Storage.{KeyValue}

-- A text of a number: 32 bytes behind a 0 where they are enough, and as many bytes as the number
-- says behind a 1 otherwise.
abbrev text : ℕ → Bytes
text n = if ltb n (2 ^ 256) then 0 ∷ be_bytes 32 n else 1 ∷ replicate n 0

abbrev number : Bytes → Outcome ℕ
number [] = raise Error.invalid_argument
number (zero ∷ bs) = ok (be_value bs)
number (suc b ∷ bs) = ok (length bs)

-- A key as 64 bytes, which is its signature and its public key too.
abbrev padded : Bytes → Bytes
padded key = take 64 (key ++ replicate 64 0)

abbrev pub libraries : External
libraries = record {
  sha256 = λ bs. replicate 31 0 ++ (length bs % 256) ∷ [];
  ripemd160 = λ bs. replicate 20 1;
  sign_recoverable = λ hash key. some (padded key);
  serialize_compact = λ signature. (signature, some 1);
  parse_compact = λ bytes id. some bytes;
  recover = λ signature hash. some signature;
  pubkey_create = λ key. some (padded key);
  pubkey_serialize = λ point. (4 ∷ point, 65);
  str = text;
  parse = number;
  base64 = λ bs. bs;
}

replicate-AreBytes : (n : ℕ) → AreBytes (replicate n 0)
replicate-AreBytes zero = tt
replicate-AreBytes (suc n) = (omega arith, replicate-AreBytes n)

pub libraries-HasDecimal : HasDecimal libraries
libraries-HasDecimal = record {
  parse-str = λ n. elim (Bool-cases (ltb n (2 ^ 256))) [
    | inl e ↦ rw e (ap ok (be_value-be_bytes 32 n (ground arith)))
    | inr e ↦ rw e (ap ok (length-replicate n 0))
  ];
  str-AreBytes = λ n. elim (Bool-cases (ltb n (2 ^ 256))) [
    | inl e ↦ rw e (omega arith, be_bytes-AreBytes 32 n)
    | inr e ↦ rw e (omega arith, replicate-AreBytes n)
  ];
  length-str = λ n h. let e = lt→ltb n (2 ^ 256) h in rw e (omega (arith, length-be_bytes 32 n));
}

length-padded : (key : Bytes) → length (padded key) ≡ 64
length-padded key = omega (
  arith,
  length-take 64 (key ++ replicate 64 0),
  length-append key (replicate 64 0),
  length-replicate {A = ℕ} 64 0,
)

some_injective : {a b : Bytes} → some a ≡ some b → a ≡ b
some_injective h = cc

pub libraries-HasSecp256k1 : HasSecp256k1 libraries
libraries-HasSecp256k1 = record {
  compact = λ hash key signature h.
      (let same : padded key ≡ signature = some_injective h in
        (signature, 1, refl, ap length (sym same) ∙ length-padded key, omega arith, refl));
  recovers = λ hash key signature h. (padded key, refl, sym h);
  written = λ point. omega arith;
}

pub get_nothing : (k : Bytes) → find {V = Bytes} k [] ≡ none
unfolding find
get_nothing k = refl

-- Doubles without the part behind the point.
abbrev pub whole : Double
whole = record { Carrier = ℕ; of_ℕ = λ n. n; divide = λ a b. a / b; less = ltb; round = λ n. n }

pub whole-IsDouble : IsDouble whole
whole-IsDouble = record { less-of_ℕ = λ a b h k. refl; round_ge_one = λ r h. ground arith }

abbrev pub machine : Machine
machine = record {
  execute = λ s block tx message code.
      (record { status = EvmcStatus.success; gas_left = 0; output = [] }, s);
}

abbrev pub database : KeyValue
database = record {
  Store = Map Bytes Bytes;
  empty = [];
  get = find;
  put = put;
  get-empty = λ k. get_nothing k;
  get-put = λ k j v s. find-put k j v s;
}

abbrev pub alice : Address
alice = replicate 20 1

abbrev pub bob : Address
bob = replicate 20 2

abbrev pub miner : Address
miner = replicate 20 3

-- 30 from alice to bob for a fee of 5.
abbrev pub thirty : Transaction
thirty = record {
  from = alice;
  to = bob;
  amount = 30;
  fee = 5;
  timestamp = 1000;
  payload = [];
  sign = replicate 65 1;
}

abbrev pub account : ℕ → AccountState
account n = record {
  type = client;
  nonce = 0;
  balance = n;
  code_hash = replicate 32 0;
  transactions = [];
  storage = [];
  runtime_code = [];
}

abbrev pub states : ℕ → States
states n = (alice, account n) ∷ (bob, account 7) ∷ []

abbrev pub ledger : ℕ → Ledger
ledger n = record { states = states n; outputs = [] }

abbrev pub genesis : ImmutableBlock
genesis = record {
  fields = record {
    depth = 0;
    nonce = 0;
    prev_block_hash = replicate 32 0;
    timestamp = 500;
    coinbase = miner;
    txs = [];
  };
  this_block_hash = replicate 32 9;
}

abbrev pub first : ImmutableBlock
first = record {
  fields = record {
    depth = 1;
    nonce = 4;
    prev_block_hash = replicate 32 9;
    timestamp = 1500;
    coinbase = miner;
    txs = thirty ∷ [];
  };
  this_block_hash = replicate 32 8;
}

abbrev pub chain : Blockchain
chain = make_blockchain genesis

pub chain-Holds : Holds chain genesis []
chain-Holds = make_blockchain-Holds genesis refl
