-- ===== src/Tests/Node.antt =====
-- The theorems on the node, at concrete inputs.
use likelib_utonhack.Prelude.{
  ℕ, List, ◌+◌, ◌≤◌, ◌≡◌, refl, ap, ◌≢◌, true, false, none, [], ◌∷◌, arith, replicate, nat_eq,
  bytes_eq, bytes_equality,
}
use likelib_utonhack.Outcome.{Outcome, ok, raise, Error}
use likelib_utonhack.Map.{find, insert, put}
use likelib_utonhack.Amount.{add_amount, sub_amount}
use likelib_utonhack.Address.{address_of_key, is_null}
use likelib_utonhack.Transaction.{
  Transaction, TransactionStatus, check_sign, tx_eq, hash_of_transaction,
}
use likelib_utonhack.TransactionsSet.{TransactionsSet, contains, calc_cost, find_hash}
use likelib_utonhack.Block.{ImmutableBlock, compute_hash}
use likelib_utonhack.Account.{add_balance, sub_balance, add_transaction_hash}
use likelib_utonhack.States.{
  has_account, account_at, modify, touch, try_transfer_money, ensure_account, pay,
}
use likelib_utonhack.Blockchain.{
  Blockchain, AdditionResult, added, make_blockchain, find_block, find_transaction,
}
use likelib_utonhack.Blockchain.Chain.{Holds}
use likelib_utonhack.Consensus.{check_block}
use likelib_utonhack.Blockchain.Addition.{IsAcceptable}
use likelib_utonhack.Consensus.Queue.{IsNear}
use likelib_utonhack.Ledger.{
  Ledger, apply_block_transactions, perform_all, try_perform_transaction, perform_to, perform_work,
  transfer_body, on_copy, on_states, output, apply_changes,
}
use likelib_utonhack.Core.{
  Core, World, check_block_transactions, check_costs, try_add_block, add_pending_transaction,
  pending_status, new_pending_transaction, block_added,
}
use likelib_utonhack.Core.Pending.{Keeps, add_pending_transaction-Keeps}
use likelib_utonhack.Core.Answers.{CanAdd}
use likelib_utonhack.Core.Spending.{add_each, answers, add_each-one_sender}
use likelib_utonhack.TransactionsSet.Members.{IsDistinct}
use likelib_utonhack.Core.Blocks.{
  try_add_block-unfit, try_add_block-taken, try_add_block-torn, taken,
}
use likelib_utonhack.Tests.World.{
  libraries, machine, database, whole, whole-IsDouble, thirty, genesis, first, alice, miner, states,
  ledger, chain, chain-Holds,
}
use likelib_utonhack.Tests.Chain.{
  first-IsAcceptable, unknown_hash, first_mined, chain_positive, hollow, hollow_unfit,
}

abbrev pub world : World
world = record {
  ext = libraries;
  double = whole;
  machine = machine;
  nth_element = λ less n txs. txs;
}

-- A node on the chain of the genesis block, where alice has n coins.
abbrev pub node : ℕ → TransactionsSet → Core database
node n pending_txs = record {
  this_node_address = miner;
  ledger = ledger n;
  blockchain = record { chain = chain; database = [] };
  pending_transactions = pending_txs;
  events = [];
}

-- alice's transaction, with a signature that recovers to a key of hers.
abbrev forty : Transaction
forty = record thirty { amount = 40 }

signed_forty : check_sign libraries forty ≡ true
unfolding check_sign address_of_key bytes_eq
signed_forty = refl

unknown_forty : find_transaction libraries (hash_of_transaction libraries forty) chain ≡ none
unfolding find_transaction make_blockchain find_hash
unknown_forty = refl

alice_there : has_account alice (states 100) ≡ true
unfolding has_account find bytes_eq
alice_there = refl

alice_has : (n : ℕ) → (account_at alice (states n)).balance ≡ n
unfolding account_at find bytes_eq
alice_has n = refl

add_pending_transaction-Keeps_example :
    Keeps
      (node 100 (thirty ∷ []))
      (add_pending_transaction database world forty (node 100 (thirty ∷ []))).1
add_pending_transaction-Keeps_example =
    add_pending_transaction-Keeps database world forty (node 100 (thirty ∷ []))

-- More than alice has for both together, and less than she has for it alone.
abbrev ninety : Transaction
ninety = record thirty { amount = 90 }

signed_thirty : check_sign libraries thirty ≡ true
unfolding check_sign address_of_key bytes_eq
signed_thirty = refl

unknown_thirty : find_transaction libraries (hash_of_transaction libraries thirty) chain ≡ none
unfolding find_transaction make_blockchain find_hash
unknown_thirty = refl

signed_ninety : check_sign libraries ninety ≡ true
unfolding check_sign address_of_key bytes_eq
signed_ninety = refl

unknown_ninety : find_transaction libraries (hash_of_transaction libraries ninety) chain ≡ none
unfolding find_transaction make_blockchain find_hash
unknown_ninety = refl

not_pending_yet : (tx : Transaction) → contains [] tx ≡ false
unfolding contains
not_pending_yet tx = refl

all_differ : IsDistinct (thirty ∷ forty ∷ ninety ∷ [])
unfolding contains tx_eq
all_differ = (refl, (refl, (refl, tt)))

can_add :
    (tx : Transaction)
    → check_sign libraries tx ≡ true
    → find_transaction libraries (hash_of_transaction libraries tx) chain ≡ none
    → tx.from ≡ alice
    → tx.amount + tx.fee ≤ 100
    → CanAdd database world alice 100 (node 100 []) tx
can_add tx signed unknown own enough = record {
  new = record {
    signed = signed;
    unknown = unknown;
    not_pending = not_pending_yet tx;
    cost_fits = omega arith;
  };
  own = own;
  enough = enough;
}

abbrev three_calls : List (Outcome TransactionStatus) × Core database
three_calls = add_each database world (thirty ∷ forty ∷ ninety ∷ []) (node 100 [])

add_each-one_sender_example :
    (three_calls.0 ≡ ok (pending_status thirty) ∷ answers 100 35 (forty ∷ ninety ∷ []))
    × (three_calls.1.pending_transactions ≡ thirty ∷ ninety ∷ [])
    × (three_calls.1.events ≡ new_pending_transaction thirty ∷ new_pending_transaction ninety ∷ [])
    × (three_calls.1.ledger.states ≡ states 100)
    × (three_calls.1.blockchain ≡ (node 100 []).blockchain)
add_each-one_sender_example =
    add_each-one_sender database world thirty (forty ∷ ninety ∷ []) (node 100 []) 100 alice_there
      (alice_has 100) (omega arith) tt tt all_differ
      (
        can_add thirty signed_thirty unknown_thirty refl (omega arith),
        (
          can_add forty signed_forty unknown_forty refl (omega arith),
          (can_add ninety signed_ninety unknown_ninety refl (omega arith), tt),
        ),
      )

valid_first : check_block_transactions database world first (node 100 []) ≡ ok true
unfolding check_block_transactions check_costs find_block make_blockchain calc_cost find bytes_eq
    has_account account_at compute_hash add_amount insert
valid_first = refl

valid_hollow : check_block_transactions database world hollow (node 100 []) ≡ ok true
unfolding check_block_transactions check_costs find_block make_blockchain calc_cost find bytes_eq
    has_account account_at compute_hash add_amount insert
valid_hollow = refl

try_add_block-unfit_example :
    (reason : AdditionResult) × (reason ≢ added)
    × (try_add_block database world 2000 hollow (node 100 []) ≡ (ok reason, node 100 []))
try_add_block-unfit_example =
    try_add_block-unfit database world 2000 hollow (node 100 []) valid_hollow genesis [] chain-Holds
      hollow_unfit

-- The accounts after the first block.
abbrev pub after_first : Ledger
after_first = (apply_block_transactions libraries machine first.fields (ledger 100)).1

pub first_applied : (apply_block_transactions libraries machine first.fields (ledger 100)).0 ≡ ok tt
unfolding apply_block_transactions perform_all try_perform_transaction perform_work perform_to
    transfer_body on_copy on_states output apply_changes modify touch account_at find insert put
    bytes_eq has_account add_balance sub_balance add_amount sub_amount try_transfer_money
    ensure_account is_null add_transaction_hash pay
first_applied = refl

try_add_block-taken_example :
    (bc : Blockchain) × (try_add_block database world 2000 first (node 100 []) ≡ (
      ok added,
      record (taken database world 2000 first
          (node 100 [])
          valid_first
          genesis
          []
          chain-Holds
          bc
          after_first) { events = block_added first ∷ [] },
    ))
    × Holds bc first (genesis ∷ [])
    × IsNear chain.consensus bc.consensus
try_add_block-taken_example =
    try_add_block-taken database world 2000 first (node 100 []) valid_first genesis [] chain-Holds
      whole-IsDouble first-IsAcceptable chain_positive after_first
      (ap (λ r. (r, after_first)) first_applied)

-- A block with two transactions of alice, whose second one she cannot pay the fee of after the first.
abbrev greedy : ImmutableBlock
greedy = record {
  fields = record (first.fields) { txs = thirty ∷ forty ∷ [] };
  this_block_hash = replicate 32 8;
}

greedy_mined : check_block chain.consensus greedy ≡ true
unfolding check_block
greedy_mined = first_mined

greedy-IsAcceptable : IsAcceptable 2000 greedy genesis chain
greedy-IsAcceptable = record {
  unknown = unknown_hash;
  next = record { linked = first-IsAcceptable.next.linked; deeper = refl; younger = omega arith };
  mined = greedy_mined;
  not_empty = omega arith;
  not_large = omega arith;
  not_future = omega arith;
}

valid_greedy : check_block_transactions database world greedy (node 37 []) ≡ ok true
unfolding check_block_transactions check_costs find_block make_blockchain calc_cost find bytes_eq
    has_account account_at compute_hash add_amount insert
valid_greedy = refl

abbrev after_greedy : Ledger
after_greedy = (apply_block_transactions libraries machine greedy.fields (ledger 37)).1

greedy_throws :
    (apply_block_transactions libraries machine greedy.fields (ledger 37)).0
    ≡ raise Error.logic_error
unfolding apply_block_transactions perform_all try_perform_transaction perform_work perform_to
    transfer_body on_copy on_states output apply_changes modify touch account_at find insert put
    bytes_eq has_account add_balance sub_balance add_amount sub_amount try_transfer_money
    ensure_account is_null add_transaction_hash pay
greedy_throws = refl

try_add_block-torn_example :
    (bc : Blockchain) × (try_add_block database world 2000 greedy (node 37 []) ≡ (
      raise Error.logic_error,
      taken database world 2000 greedy
          (node 37 [])
          valid_greedy
          genesis
          []
          chain-Holds
          bc
          after_greedy,
    ))
    × Holds bc greedy (genesis ∷ [])
try_add_block-torn_example =
    try_add_block-torn database world 2000 greedy (node 37 []) valid_greedy genesis [] chain-Holds
      whole-IsDouble greedy-IsAcceptable chain_positive after_greedy Error.logic_error
      (ap (λ r. (r, after_greedy)) greedy_throws)
