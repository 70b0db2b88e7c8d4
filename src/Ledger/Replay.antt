-- ===== src/Ledger/Replay.antt =====
-- The constructor of lk::Core (core/core.cpp): the accounts are built again from the loaded chain.
use likelib_utonhack.Prelude.{
  ℕ, zero, suc, ◌+◌, ◌*◌, ◌≤◌, ◌≡◌, sym, ap, ◌∙◌, inl, inr, none, some, List, [], ◌∷◌, arith,
  length, All, nat_eq, bytes_equality,
}
use likelib_utonhack.Outcome.{Outcome, ok, raise, Error, Outcome-cases}
use likelib_utonhack.Exec.{Exec, ◌>>◌, pure, bind-ok, bind-raise}
use likelib_utonhack.Amount.{max_amount}
use likelib_utonhack.External.{External}
use likelib_utonhack.Block.{ImmutableBlock}
use likelib_utonhack.States.Supply.{total}
use likelib_utonhack.Blockchain.{Blockchain, find_block, find_block_hash_by_depth, get_top_block}
use likelib_utonhack.Blockchain.Chain.{IsChain, Holds, find_block-Holds}
use likelib_utonhack.Blockchain.Addition.{get_top_block-top}
use likelib_utonhack.Ledger.{Ledger, perform_all, apply_block_transactions, emission_value}
use likelib_utonhack.Ledger.Vm.{Machine}
use likelib_utonhack.Ledger.Blocks.{
  OnlyClients, Grew, HaveReceivers, perform_all-Grew, apply_block_transactions-Grew,
}

module _ (ext : External) (machine : Machine) where
  -- One round: the block at a depth. The code dereferences both answers untested; where one is empty, which
  -- no chain that is held makes it, C++ says nothing.
  unfoldable pub replay_block : ℕ → Blockchain → Exec Ledger (Unit {0})
  unfolding find_block find_block_hash_by_depth
  replay_block d bc l = elim (find_block_hash_by_depth d bc) [
    | none ↦ (raise Error.undefined, l)
    | some hash ↦ elim (find_block hash bc) [
      | none ↦ (raise Error.undefined, l)
      | some block ↦ perform_all ext machine block.fields block.txs l
    ]
  ]

  -- The loop from depth `d` on.
  unfoldable pub replay_from : ℕ → ℕ → Blockchain → Exec Ledger (Unit {0})
  replay_from zero d bc = pure tt
  replay_from (suc rounds) d bc = replay_block d bc >> replay_from rounds (suc d) bc

  unfoldable pub replay : Blockchain → Exec Ledger (Unit {0})
  unfolding replay_from
  replay bc l = elim (get_top_block bc) [
    | raise e ↦ (raise e, l)
    | ok top ↦ replay_from top.depth 1 bc l
  ]

  -- The transactions of all blocks but the genesis block, the lowest block first.
  abbrev pub perform_chain : ImmutableBlock → List ImmutableBlock → Exec Ledger (Unit {0})
  perform_chain top [] = pure tt
  perform_chain top (b ∷ below) =
      perform_chain b below >> perform_all ext machine top.fields top.txs

  -- The ledger of a node that took the blocks one by one while it was running; an exception leaves
  -- tryAddBlock, and the node goes on.
  abbrev pub run_chain : ImmutableBlock → List ImmutableBlock → Ledger → Ledger
  run_chain top [] l = l
  run_chain top (b ∷ below) l =
      (apply_block_transactions ext machine top.fields (run_chain b below l)).1

  bind_assoc : (m n k : Exec Ledger (Unit {0})) (l : Ledger) → (m >> (n >> k)) l ≡ ((m >> n) >> k) l
  bind_assoc m n k l = elim (Outcome-cases (m l).0) [ inl e ↦ rw e | inr (error, e) ↦ rw e ]

  bind_congr :
      (m n k : Exec Ledger (Unit {0})) (l : Ledger)
      → ((l' : Ledger) → n l' ≡ k l')
      → (m >> n) l ≡ (m >> k) l
  bind_congr m n k l h = elim (Outcome-cases (m l).0) [
    | inl e ↦ rw e (h (m l).1)
    | inr (error, e) ↦ rw e
  ]

  bind-pure : (m : Exec Ledger (Unit {0})) (l : Ledger) → (m >> pure tt) l ≡ m l
  bind-pure m l = elim (Outcome-cases (m l).0) [
    | inl e ↦
        (let next : m l ≡ (ok tt, (m l).1) = ap (λ r. (r, (m l).1)) e in
          bind-ok m (λ _. pure tt) next ∙ sym next)
    | inr (error, e) ↦
        (let next : m l ≡ (raise error, (m l).1) = ap (λ r. (r, (m l).1)) e in
          bind-raise m (λ _. pure tt) next ∙ sym next)
  ]

  replay_from-suc :
      (rounds d : ℕ) (bc : Blockchain) (l : Ledger)
      → replay_from (suc rounds) d bc l
        ≡ (replay_from rounds d bc >> replay_block (rounds + d) bc) l
  unfolding replay_from
  replay_from-suc zero d bc l =
      let place : d ≡ 0 + d = omega arith in
      bind-pure (replay_block d bc) l ∙ ap (λ k. replay_block k bc l) place
  replay_from-suc (suc rounds) d bc l =
      let place : rounds + suc d ≡ suc rounds + d = omega arith in
      bind_congr (replay_block d bc) _ _ l (replay_from-suc rounds (suc d) bc)
      ∙ bind_assoc (replay_block d bc) (replay_from rounds (suc d) bc)
          (replay_block (rounds + suc d) bc) l
      ∙ ap (λ k. (replay_from (suc rounds) d bc >> replay_block k bc) l) place

  -- What follows a result in a sequence whose second part performs a block's transactions.
  abbrev bind_result : Outcome (Unit {0}) × Ledger → ImmutableBlock → Outcome (Unit {0}) × Ledger
  bind_result r top = ((λ (l : Ledger). r) >> perform_all ext machine top.fields top.txs) r.1

  -- Every block of the chain is found by its depth and hash.
  abbrev Reads : Blockchain → ImmutableBlock → List ImmutableBlock → Type 0
  Reads bc top below =
      All
        (λ b.
          (find_block b.this_block_hash bc ≡ some b)
          × (find_block_hash_by_depth b.depth bc ≡ some b.this_block_hash))
        (top ∷ below)

  replay_block-Reads :
      (bc : Blockchain) (b : ImmutableBlock) (l : Ledger)
      → find_block b.this_block_hash bc ≡ some b
      → find_block_hash_by_depth b.depth bc ≡ some b.this_block_hash
      → replay_block b.depth bc l ≡ perform_all ext machine b.fields b.txs l
  unfolding replay_block
  replay_block-Reads bc b l h d = rw (replay_block, d, h)

  replay_from-perform_chain :
      (bc : Blockchain) (top : ImmutableBlock) (below : List ImmutableBlock) (l : Ledger)
      → IsChain top below
      → Reads bc top below
      → replay_from top.depth 1 bc l ≡ perform_chain top below l
  unfolding replay_from
  replay_from-perform_chain bc top [] l chain reads = rw chain
  replay_from-perform_chain bc top (b ∷ below) l chain reads =
      let deeper = chain.0.deeper in
      let place : b.depth + 1 ≡ top.depth = omega (arith, deeper) in
      ap (λ d. replay_from d 1 bc l) deeper
      ∙ replay_from-suc b.depth 1 bc l
      ∙ ap (λ d. (replay_from b.depth 1 bc >> replay_block d bc) l) place
      ∙ bind_congr (replay_from b.depth 1 bc) _ _ l
          (λ l'. replay_block-Reads bc top l' reads.0.0 reads.0.1)
      ∙ ap (λ r. bind_result r top) (replay_from-perform_chain bc b below l chain.1 reads.1)

  -- The constructor performs the transactions of the chain's blocks in their order, from the lowest
  -- block on, and nothing else.
  pub replay-perform_chain :
      (bc : Blockchain) (top : ImmutableBlock) (below : List ImmutableBlock) (l : Ledger)
      → Holds bc top below
      → replay bc l ≡ perform_chain top below l
  unfolding replay
  replay-perform_chain bc top below l holds =
      rw (replay, get_top_block-top bc top below holds)
        (replay_from-perform_chain bc top below l holds.chain (find_block-Holds bc top below holds))

  -- No transaction of a block but the genesis block creates a contract.
  abbrev pub HaveBlockReceivers : ImmutableBlock → List ImmutableBlock → Type 0
  HaveBlockReceivers top [] = Unit {0}
  HaveBlockReceivers top (b ∷ below) = HaveReceivers top.txs × HaveBlockReceivers b below

  perform_chain-Grew :
      (top : ImmutableBlock) (below : List ImmutableBlock) (l : Ledger)
      → HaveBlockReceivers top below
      → OnlyClients l.states
      → total l.states ≤ max_amount
      → Grew 0 l.states (perform_chain top below l).1.states
  perform_chain-Grew top [] l receivers clients fits = (omega arith, clients)
  perform_chain-Grew top (b ∷ below) l receivers clients fits =
      let (same, still) = perform_chain-Grew b below l receivers.1 clients fits in
      elim (Outcome-cases (perform_chain b below l).0) [
        | inl e ↦
            (let (same', still') =
                perform_all-Grew ext machine top.fields top.txs (perform_chain b below l).1
                  receivers.0 still (omega (arith, same)) in
              rw e (omega (arith, same, same'), still'))
        | inr (error, e) ↦ rw e (same, still)
      ]

  run_chain-Grew :
      (top : ImmutableBlock) (below : List ImmutableBlock) (l : Ledger)
      → HaveBlockReceivers top below
      → OnlyClients l.states
      → total l.states + emission_value * length below ≤ max_amount
      → Grew (emission_value * length below) l.states (run_chain top below l).states
  run_chain-Grew top [] l receivers clients fits = (omega arith, clients)
  run_chain-Grew top (b ∷ below) l receivers clients fits =
      let (same, still) = run_chain-Grew b below l receivers.1 clients (omega arith) in
      let (same', still') =
        apply_block_transactions-Grew ext machine top.fields (run_chain b below l) receivers.0 still
          (omega (arith, same)) in
      (omega (arith, same, same'), still')

  -- A restart forgets the emission: on accounts of clients, with a chain none of whose transactions
  -- creates a contract, the replay of the chain leaves the sum of all balances as it was, where a node
  -- that took the same blocks while it was running has the emission of each of them more; all sums
  -- must be within a Uint256.
  pub replay_omits_emission :
      (bc : Blockchain) (top : ImmutableBlock) (below : List ImmutableBlock) (l : Ledger)
      → Holds bc top below
      → HaveBlockReceivers top below
      → OnlyClients l.states
      → total l.states + emission_value * length below ≤ max_amount
      → (total (replay bc l).1.states ≡ total l.states)
        × (total (run_chain top below l).states ≡ total l.states + emission_value * length below)
  replay_omits_emission bc top below l holds receivers clients fits =
      let (same, _) = perform_chain-Grew top below l receivers clients (omega arith) in
      let (more, _) = run_chain-Grew top below l receivers clients fits in
      (
        ap (λ (r : Outcome (Unit {0}) × Ledger). total r.1.states)
              (replay-perform_chain bc top below l holds)
            ∙ omega (arith, same),
        more,
      )
