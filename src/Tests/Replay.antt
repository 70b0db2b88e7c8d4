-- ===== src/Tests/Replay.antt =====
-- The theorems on the constructor's replay, at a chain of one added block.
use likelib_utonhack.Prelude.{◌+◌, ◌*◌, ◌≡◌, sym, ap, subst, [], ◌∷◌, arith, nat_eq, bytes_equality}
use likelib_utonhack.Blockchain.{Blockchain, try_add_block}
use likelib_utonhack.Blockchain.Chain.{Holds}
use likelib_utonhack.Blockchain.Addition.{try_add_block-added}
use likelib_utonhack.Ledger.{emission_value}
use likelib_utonhack.Ledger.Replay.{
  replay, perform_chain, run_chain, HaveBlockReceivers, replay-perform_chain, replay_omits_emission,
}
use likelib_utonhack.States.Supply.{total}
use likelib_utonhack.Tests.World.{
  libraries, machine, whole, whole-IsDouble, genesis, first, chain, chain-Holds, ledger,
}
use likelib_utonhack.Tests.Chain.{chain_positive, first-IsAcceptable}
use likelib_utonhack.Tests.Accounts.{only_clients, bob_is_someone, total_of_two}

abbrev longer : Blockchain
longer = (try_add_block whole 2000 first chain).1

longer-Holds : Holds longer first (genesis ∷ [])
longer-Holds =
    let (bc, e, holds, _) =
      try_add_block-added chain genesis [] chain-Holds 2000 first whole whole-IsDouble
        first-IsAcceptable chain_positive in
    subst (λ k. Holds k first (genesis ∷ [])) (sym (ap (λ r. r.1) e)) holds

receivers : HaveBlockReceivers libraries machine first (genesis ∷ [])
receivers = ((bob_is_someone, tt), tt)

replay-perform_chain_example :
    replay libraries machine longer (ledger 100)
    ≡ perform_chain libraries machine first (genesis ∷ []) (ledger 100)
replay-perform_chain_example =
    replay-perform_chain libraries machine longer first (genesis ∷ []) (ledger 100) longer-Holds

replay_omits_emission_example :
    (total (replay libraries machine longer (ledger 100)).1.states ≡ total (ledger 100).states)
    × (total (run_chain libraries machine first (genesis ∷ []) (ledger 100)).states
        ≡ total (ledger 100).states + emission_value * 1)
replay_omits_emission_example =
    replay_omits_emission libraries machine longer first (genesis ∷ []) (ledger 100) longer-Holds
      receivers (only_clients 100) (omega (arith, total_of_two 100))
