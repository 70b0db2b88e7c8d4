-- ===== src/Core/Joins.antt =====
-- What calls of addPendingTransaction keep of a sender's funds and of the transactions that follow.
use likelib_utonhack.Prelude.{
  ◌≡◌, refl, sym, ap, subst, ◌∙◌, false, Option, List, [], ◌∷◌, ◌++◌, map, append_assoc, arith, All,
  All-append, nat_eq, bytes_equality,
}
use mathlib.Core.List.{map-append}
use likelib_utonhack.Address.{Address}
use likelib_utonhack.Transaction.{Transaction, Balance, hash_of_transaction, tx_eq}
use likelib_utonhack.Transaction.Identity.{tx_eq_sym}
use likelib_utonhack.TransactionsSet.{contains}
use likelib_utonhack.TransactionsSet.Members.{contains-append}
use likelib_utonhack.TransactionsSet.Costs.{first_cost, Affordable}
use likelib_utonhack.States.{has_account, account_at}
use likelib_utonhack.Blockchain.{find_transaction}
use likelib_utonhack.Storage.{KeyValue}
use likelib_utonhack.Core.Answers.{CanAdd, Funds, Joins}
use likelib_utonhack.Core.{Core, World, new_pending_transaction}

module _ (kv : KeyValue) (world : World) where
  pub Joins-trans :
      (xs ys : List Transaction) (c d e : Core kv)
      → Joins kv world xs c d
      → Joins kv world ys d e
      → Joins kv world (xs ++ ys) c e
  Joins-trans xs ys c d e h k = record {
    pending = k.pending ∙ ap (λ l. l ++ ys) h.pending ∙ append_assoc c.pending_transactions xs ys;
    announced =
        k.announced
        ∙ ap (λ l. l ++ map new_pending_transaction ys) h.announced
        ∙ append_assoc c.events (map new_pending_transaction xs) (map new_pending_transaction ys)
        ∙ ap (λ l. c.events ++ l) (sym (map-append new_pending_transaction xs ys));
    same_states = k.same_states ∙ h.same_states;
    same_chain = k.same_chain ∙ h.same_chain;
  }

  module _ (a : Address) (balance : Balance) (c c' : Core kv) where
    pub Funds-Joins :
        (before after : Option Balance) (txs : List Transaction)
        → Funds kv world a balance before c
        → first_cost a (c.pending_transactions ++ txs) ≡ after
        → Affordable txs
        → Joins kv world txs c c'
        → Funds kv world a balance after c'
    Funds-Joins before after txs funds entry fits joins = record {
      first = ap (first_cost a) joins.pending ∙ entry;
      affordable =
          subst Affordable (sym joins.pending)
            (All-append _ c.pending_transactions txs funds.affordable fits);
      present = ap (has_account a) joins.same_states ∙ funds.present;
      has = ap (λ s. (account_at a s).balance) joins.same_states ∙ funds.has;
    }

    CanAdd-Joins :
        (txs : List Transaction) (u : Transaction)
        → contains txs u ≡ false
        → Joins kv world txs c c'
        → CanAdd kv world a balance c u
        → CanAdd kv world a balance c' u
    CanAdd-Joins txs u other joins can = record {
      new = record {
        signed = can.new.signed;
        unknown =
            ap (λ b. find_transaction world.ext (hash_of_transaction world.ext u) b.chain)
              joins.same_chain
            ∙ can.new.unknown;
        not_pending =
            ap (λ l. contains l u) joins.pending
            ∙ contains-append c.pending_transactions txs u
            ∙ rw (can.new.not_pending) other;
        cost_fits = can.new.cost_fits;
      };
      own = can.own;
      enough = can.enough;
    }

    -- The transactions that follow t and differ from it.
    pub All-CanAdd :
        (t : Transaction) (txs us : List Transaction)
        → ((u : Transaction) → tx_eq u t ≡ false → contains txs u ≡ false)
        → contains us t ≡ false
        → Joins kv world txs c c'
        → All (CanAdd kv world a balance c) us
        → All (CanAdd kv world a balance c') us
    unfolding contains
    All-CanAdd t txs [] apart others joins can = tt
    All-CanAdd t txs (u ∷ us) apart others joins can =
        let other : tx_eq u t ≡ false = ground arith in
        (
          CanAdd-Joins txs u (apart u other) joins can.0,
          All-CanAdd t txs us apart (ground arith) joins can.1,
        )

  pub contains-one : (t u : Transaction) → tx_eq u t ≡ false → contains (t ∷ []) u ≡ false
  unfolding contains
  contains-one t u h = rw (tx_eq_sym t u, h)

  pub contains-none : (u : Transaction) → contains [] u ≡ false
  unfolding contains
  contains-none u = refl
