-- ===== src/Tests/Peers.antt =====
-- The theorems on peers, at a node with the genesis block and a peer that has one block more.
use likelib_utonhack.Prelude.{
  ℕ, zero, suc, All, length, replicate, ◌+◌, ◌/◌, ◌%◌, ◌^◌, ◌≤◌, ◌<◌, ◌≡◌, refl, sym, ap, ◌∙◌, true,
  false, none, some, [], ◌∷◌, arith, nat_eq, bytes_eq, bytes_equality,
}
use mathlib.Core.List.{reverse}
use likelib_utonhack.Outcome.{ok}
use likelib_utonhack.Exec.{◌>>◌, bind-ok}
use likelib_utonhack.Map.{find, insert}
use likelib_utonhack.Amount.{add_amount}
use likelib_utonhack.Time.{Time}
use likelib_utonhack.Block.{compute_hash, make_block}
use likelib_utonhack.TransactionsSet.{calc_cost}
use likelib_utonhack.States.{has_account, account_at}
use likelib_utonhack.Blockchain.{find_block, make_blockchain, get_top_block_hash}
use likelib_utonhack.Core.{Core, check_block_transactions, check_costs, try_add_block}
use likelib_utonhack.Core.Blocks.{try_add_block-taken}
use likelib_utonhack.Rating.{
  Rating, get_rating, lower_rating, get_rating-lower_rating, is_good, get_value, connection_refused,
  initial_rating, get_value-connection_refused,
}
use likelib_utonhack.Peer.{
  Peer, State, null_hash, core_block, add_blocks, go_on, handle_received_top_block_hash,
}
use likelib_utonhack.Peer.Synchronizer.{
  IsMissing, receive_blocks, requests, receive_blocks_catch_up,
}
use likelib_utonhack.Peer.Corrupt.{
  Delivery, answered, IsCorrupt, receive_each, receive_each-corrupt,
}
use likelib_utonhack.Tests.World.{libraries, database, whole-IsDouble, genesis, chain-Holds}
use likelib_utonhack.Tests.Chain.{chain_positive}
use likelib_utonhack.Tests.Node.{world, node, after_first, first_applied}
use likelib_utonhack.Tests.Recovery.{mined, mined-IsAcceptable, mined_new}

abbrev rating : Rating database
rating = record {
  serialized_ep = 1 ∷ [];
  db = [];
  data_of = record { value = initial_rating; ts = 0 };
}

abbrev pub peer : Peer database
peer = record {
  core = node 100 [];
  state = State.just_established;
  rating = rating;
  requested_block = none;
  sync_blocks = [];
  sent = [];
  is_attached = true;
}

valid_mined : check_block_transactions database world mined (node 100 []) ≡ ok true
unfolding check_block_transactions check_costs find_block make_blockchain calc_cost find bytes_eq
    has_account account_at compute_hash add_amount insert make_block
valid_mined = refl

abbrev after_mined : Core database
after_mined = (add_blocks database world 2000 (mined ∷ []) (node 100 [])).1

mined_added :
    add_blocks database world 2000 (reverse (mined ∷ [])) (node 100 []) ≡ (ok true, after_mined)
unfolding add_blocks make_block
mined_added =
    let (bc, e, _, _) =
      try_add_block-taken database world 2000 mined (node 100 []) valid_mined genesis [] chain-Holds
        whole-IsDouble mined-IsAcceptable chain_positive after_first
        (ap (λ r. (r, after_first)) first_applied) in
    let h =
      bind-ok (try_add_block database world 2000 mined)
        (go_on database world (add_blocks database world 2000 [])) e in
    h ∙ ap (λ k. (ok true, k)) (sym (ap (λ r. r.1) h))

has_parent : core_block database world genesis.this_block_hash (node 100 []) ≡ some genesis
unfolding find_block make_blockchain find bytes_eq
has_parent = refl

not_first : bytes_eq mined.prev_block_hash null_hash ≡ false
unfolding make_block bytes_eq
not_first = refl

hashed : compute_hash libraries mined ≡ mined.this_block_hash
unfolding compute_hash make_block
hashed = refl

absent : core_block database world mined.this_block_hash (node 100 []) ≡ none
unfolding find_block
absent = mined_new

mined-IsMissing : IsMissing database world 2000 (node 100 []) mined.this_block_hash (mined ∷ [])
unfolding make_block
mined-IsMissing = (refl, hashed, absent, not_first, (genesis, has_parent))

receive_blocks_catch_up_example :
    ((handle_received_top_block_hash database world mined.this_block_hash
          >> receive_blocks database world 2000 (mined ∷ []))
        peer
      ≡ (
        ok tt,
        record peer {
          core = after_mined;
          state = State.requested_blocks;
          requested_block = none;
          sync_blocks = [];
          sent = requests database world 2000 (mined ∷ []);
        },
      ))
    × (true ≡ true → get_top_block_hash after_mined.blockchain.chain ≡ mined.this_block_hash)
receive_blocks_catch_up_example =
    receive_blocks_catch_up database world 2000 peer after_mined true genesis mined [] []
      mined.this_block_hash chain-Holds refl refl mined-IsMissing mined_added

-- The block, under a hash that is none.
abbrev corrupt : Delivery
corrupt = answered (record { block_hash = []; block = mined })

corrupt-IsCorrupt : IsCorrupt database world 2000 corrupt
unfolding compute_hash
corrupt-IsCorrupt = λ h. cc

replicate-IsCorrupt : (n : ℕ) → All (IsCorrupt database world 2000) (replicate n corrupt)
replicate-IsCorrupt zero = tt
replicate-IsCorrupt (suc n) = (corrupt-IsCorrupt, replicate-IsCorrupt n)

receive_each-corrupt_example :
    (r : Rating database) × (receive_each database world 2000 (replicate 1093 corrupt) peer
      ≡ (ok tt, record peer { rating = r }))
    × (1 ≤ length (replicate 1093 corrupt)
        → length (replicate 1093 corrupt) ≤ 1092
        → is_good database r ≡ false)
    × (1093 ≤ length (replicate 1093 corrupt)
        → length (replicate 1093 corrupt) ≤ 2184
        → is_good database r ≡ true)
receive_each-corrupt_example =
    receive_each-corrupt database world 2000 (replicate 1093 corrupt) peer
      (replicate-IsCorrupt 1093) (omega arith) (omega arith)

get_rating-lower_rating_example :
    get_rating database (1 ∷ []) (lower_rating database 30 rating).db
    ≡ ok (lower_rating database 30 rating)
get_rating-lower_rating_example = get_rating-lower_rating database 30 rating (omega arith)

-- In November of 2020.
abbrev today : Time
today = 1606300000

get_value-connection_refused_example :
    (50 ≤ today / 3600 % 2 ^ 16
      → today / 3600 % 2 ^ 16 < 2 ^ 15
      → (get_value database today (connection_refused database rating)).0 ≡ ok initial_rating)
    × (2 ^ 15 + 30 ≤ today / 3600 % 2 ^ 16
        → (value : ℕ) × ((get_value database today (connection_refused database rating)).0
            ≡ ok value)
          × (2 ^ 15 ≤ value)
          × (value + 31 ≤ 2 ^ 16))
get_value-connection_refused_example = get_value-connection_refused database today rating refl
