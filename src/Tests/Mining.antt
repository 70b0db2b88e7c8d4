-- ===== src/Tests/Mining.antt =====
-- A std::nth_element that sorts, and the theorems on mining at concrete inputs.
use likelib_utonhack.Prelude.{
  ℕ, zero, suc, ◌+◌, ◌^◌, ◌≤◌, ◌<◌, ◌≡◌, refl, inl, inr, [], ◌∷◌, ◌++◌, arith, if◌then◌else◌,
  Bool-cases, length, take, drop, All, nat_eq, bytes_equality,
}
use mathlib.Core.List.{Perm}
use mathlib.Core.List.Perm
use likelib_utonhack.Transaction.{Transaction}
use likelib_utonhack.TransactionsSet.{TransactionsSet, Comparator, NthElement, select_best_by_fee}
use likelib_utonhack.TransactionsSet.Selection.{
  IsNthElement, IsStrictWeakOrder, NoneBefore, PayAtLeast, select_best_by_fee-PayAtLeast,
}
use likelib_utonhack.Outcome.{ok}
use likelib_utonhack.Block.{ImmutableBlock, MutableBlock, make_block, compute_hash}
use likelib_utonhack.Blockchain.{make_blockchain, max_transactions_in_block}
use likelib_utonhack.Blockchain.Chain.{Holds, IsNext, make_blockchain-Holds}
use likelib_utonhack.Core.{Core, World, get_mining_data}
use likelib_utonhack.Core.Mining.{get_mining_data-IsNext}
use likelib_utonhack.Core.Mined.{get_mining_data-IsAcceptable}
use likelib_utonhack.Map.{find}
use likelib_utonhack.Time.{Time}
use likelib_utonhack.Bytes.{lt_bytes}
use likelib_utonhack.Prelude.{false, true, none, ◌%◌}
use likelib_utonhack.Consensus.{Complexity}
use likelib_utonhack.Blockchain.{seconds_in_day}
use likelib_utonhack.Blockchain.Addition.{IsAcceptable}
use likelib_utonhack.Tests.World.{
  libraries, machine, database, whole, thirty, genesis, miner, ledger,
}

abbrev put_by : Comparator → Transaction → TransactionsSet → TransactionsSet
put_by less t [] = t ∷ []
put_by less t (u ∷ us) = let rest = u ∷ put_by less t us in if less u t then rest else t ∷ u ∷ us

abbrev sort_by : Comparator → TransactionsSet → TransactionsSet
sort_by less [] = []
sort_by less (t ∷ txs) = put_by less t (sort_by less txs)

abbrev sorting : NthElement
sorting less n txs = sort_by less txs

-- No element of the list comes before the transaction.
abbrev NoneUnder : Comparator → Transaction → TransactionsSet → Type 0
NoneUnder less t txs = All (λ (b : Transaction). less b t ≡ false) txs

abbrev IsSorted : Comparator → TransactionsSet → Type 0
IsSorted less [] = Unit
IsSorted less (t ∷ txs) = NoneUnder less t txs × IsSorted less txs

module _ (less : Comparator) where
  put_by-Perm : (t : Transaction) (txs : TransactionsSet) → Perm (put_by less t txs) (t ∷ txs)
  put_by-Perm t [] = Perm.refl (t ∷ [])
  put_by-Perm t (u ∷ us) = elim (Bool-cases (less u t)) [
    | inl e ↦ rw e (Perm.trans (Perm.cons u (put_by-Perm t us)) (Perm.swap t u us))
    | inr e ↦ rw e (Perm.refl (t ∷ u ∷ us))
  ]

  sort_by-Perm : (txs : TransactionsSet) → Perm (sort_by less txs) txs
  sort_by-Perm [] = Perm.refl []
  sort_by-Perm (t ∷ txs) =
      Perm.trans (put_by-Perm t (sort_by less txs)) (Perm.cons t (sort_by-Perm txs))

  length-put_by :
      (t : Transaction) (txs : TransactionsSet) → length (put_by less t txs) ≡ suc (length txs)
  length-put_by t [] = refl
  length-put_by t (u ∷ us) = ground (arith, length-put_by t us)

  length-sort_by : (txs : TransactionsSet) → length (sort_by less txs) ≡ length txs
  length-sort_by [] = refl
  length-sort_by (t ∷ txs) = omega (arith, length-put_by t (sort_by less txs), length-sort_by txs)

  NoneUnder-drop :
      (k : ℕ) (t : Transaction) (txs : TransactionsSet)
      → NoneUnder less t txs
      → NoneUnder less t (drop k txs)
  NoneUnder-drop zero t txs p = p
  NoneUnder-drop (suc k) t [] p = tt
  NoneUnder-drop (suc k) t (u ∷ us) p = NoneUnder-drop k t us p.1

  take-NoneBefore :
      (n : ℕ) (txs : TransactionsSet)
      → IsSorted less txs
      → NoneBefore less (take n txs) (drop n txs)
  take-NoneBefore zero txs s = tt
  take-NoneBefore (suc n) [] s = tt
  take-NoneBefore (suc n) (t ∷ txs) s = (NoneUnder-drop n t txs s.0, take-NoneBefore n txs s.1)

  module _ (order : IsStrictWeakOrder less) where
    NoneUnder-trans :
        (u t : Transaction) (txs : TransactionsSet)
        → less u t ≡ false
        → NoneUnder less u txs
        → NoneUnder less t txs
    NoneUnder-trans u t [] h p = tt
    NoneUnder-trans u t (b ∷ txs) h p =
        (order.co_transitive b u t p.0 h, NoneUnder-trans u t txs h p.1)

    NoneUnder-put_by :
        (u t : Transaction) (txs : TransactionsSet)
        → less t u ≡ false
        → NoneUnder less u txs
        → NoneUnder less u (put_by less t txs)
    NoneUnder-put_by u t [] h p = (h, tt)
    NoneUnder-put_by u t (b ∷ txs) h p = elim (Bool-cases (less b t)) [
      | inl e ↦ rw e (p.0, NoneUnder-put_by u t txs h p.1)
      | inr e ↦ rw e (h, p)
    ]

    put_by-IsSorted :
        (t : Transaction) (txs : TransactionsSet)
        → IsSorted less txs
        → IsSorted less (put_by less t txs)
    put_by-IsSorted t [] s = (tt, tt)
    put_by-IsSorted t (u ∷ us) s = elim (Bool-cases (less u t)) [
      | inl e ↦
          rw e (NoneUnder-put_by u t us (order.asymmetric u t e) s.0, put_by-IsSorted t us s.1)
      | inr e ↦ rw e ((e, NoneUnder-trans u t us e s.0), s)
    ]

    sort_by-IsSorted : (txs : TransactionsSet) → IsSorted less (sort_by less txs)
    sort_by-IsSorted [] = tt
    sort_by-IsSorted (t ∷ txs) = put_by-IsSorted t (sort_by less txs) (sort_by-IsSorted txs)

sorting-IsNthElement : IsNthElement sorting
sorting-IsNthElement = record {
  reorders = λ less n txs order. sort_by-Perm less txs;
  keeps_length = λ less n txs order. length-sort_by less txs;
  splits = λ less n txs order h.
      take-NoneBefore less n (sort_by less txs) (sort_by-IsSorted less order txs);
}

abbrev cheap : Transaction
cheap = record thirty { fee = 1 }

select_best_by_fee-PayAtLeast_example :
    (best : TransactionsSet) × (dropped : TransactionsSet) × (select_best_by_fee sorting 1
        (cheap ∷ thirty ∷ [])
      ≡ ok best)
    × Perm (best ++ dropped) (cheap ∷ thirty ∷ [])
    × (length best ≡ 1)
    × PayAtLeast best dropped
select_best_by_fee-PayAtLeast_example =
    select_best_by_fee-PayAtLeast sorting 1 (cheap ∷ thirty ∷ []) sorting-IsNthElement (omega arith)

abbrev world : World
world = record { ext = libraries; double = whole; machine = machine; nth_element = sorting }

-- The genesis block with the hash that its constructor computes.
abbrev root : ImmutableBlock
root = make_block libraries genesis.fields

abbrev node : Core database
node = record {
  this_node_address = miner;
  ledger = ledger 100;
  blockchain = record { chain = make_blockchain root; database = [] };
  pending_transactions = thirty ∷ [];
  events = [];
}

root-Holds : Holds (make_blockchain root) root []
unfolding make_block
root-Holds = make_blockchain-Holds root refl

root_hash : root.this_block_hash ≡ compute_hash libraries root
unfolding make_block compute_hash
root_hash = refl

root_depth : root.depth + 1 < 2 ^ 64
unfolding make_block
root_depth = omega arith

root_time : root.timestamp < 2000
unfolding make_block
root_time = omega arith

get_mining_data-IsNext_example :
    (b : MutableBlock) × (get_mining_data database world 2000 node
      ≡ ok (b, node.blockchain.chain.consensus.complexity))
    × ((nonce : ℕ) → IsNext (make_block libraries (record b { nonce = nonce })) root)
    × (length b.txs ≤ max_transactions_in_block)
    × (length node.pending_transactions ≤ max_transactions_in_block
        → b.txs ≡ node.pending_transactions)
    × (b.coinbase ≡ node.this_node_address)
get_mining_data-IsNext_example =
    get_mining_data-IsNext database world 2000 node root [] sorting-IsNthElement root-Holds
      root_hash root_depth root_time

get_mining_data-IsAcceptable_example :
    (b : MutableBlock) × (k : Complexity) × (get_mining_data database world 2000 node ≡ ok (b, k))
    × ((nonce : ℕ) (later : Time)
        → lt_bytes (make_block libraries (record b { nonce = nonce })).this_block_hash k.comparer
          ≡ true
        → find
            (make_block libraries (record b { nonce = nonce })).this_block_hash
            node.blockchain.chain.blocks
          ≡ none
        → b.timestamp ≤ (later + seconds_in_day) % 2 ^ 32
        → IsAcceptable later
            (make_block libraries (record b { nonce = nonce }))
            root
            node.blockchain.chain)
get_mining_data-IsAcceptable_example =
    get_mining_data-IsAcceptable database world 2000 node root [] sorting-IsNthElement root-Holds
      root_hash root_depth root_time (omega arith)
