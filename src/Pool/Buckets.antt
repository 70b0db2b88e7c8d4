-- ===== src/Pool/Buckets.antt =====
-- What tryAddPeer keeps of the buckets.
use likelib_utonhack.Prelude.{
  ℕ, zero, suc, ◌+◌, ◌-◌, ◌%◌, ◌^◌, ◌≤◌, ◌<◌, ◌≡◌, refl, sym, ap, subst, ◌≢◌, ◌⊎◌, inl, inr, Bool,
  true, false, [], ◌∷◌, ◌++◌, arith, ltb, ◌==◌, if◌then◌else◌, ==_iff, Bool-cases, Option-cases,
  length, get_elem?, length-append, All, All-append, nat_eq, bytes_equality,
}
use likelib_utonhack.Outcome.{Outcome, ok, raise, Error, Outcome-split}
use likelib_utonhack.Time.{Time}
use likelib_utonhack.Pool.{
  PoolPeer, Pool, Bucket, bucket_count, max_bucket_size, quiet_limit, calc_difference,
  has_same_endpoint, all_peers, erase, get_least_recently_seen_peer_index, remove_peer, set_bucket,
  push_back, replace_peer, try_add_peer,
}

-- No bucket has more than ten peers, and a peer's bucket is the one of its address.
abbrev pub Fits : Pool → ℕ → PoolPeer → Type 0
Fits pool i p = calc_difference pool.host_address p.address ≡ ok i

pub record IsPool (pool : Pool) : Type 0 where
  pub small : (i : ℕ) → length (pool.buckets i) ≤ max_bucket_size
  pub placed : (i : ℕ) → All (Fits pool i) (pool.buckets i)

-- The peer is at the end of its bucket, behind the peers that were kept, and no other bucket has changed.
pub record Took (peer : PoolPeer) (pool pool' : Pool) : Type 0 where
  pub index : ℕ
  pub kept : Bucket
  pub own : Fits pool index peer
  pub few : length kept < max_bucket_size
  pub placed : All (Fits pool index) kept
  pub bucket :
      (j : ℕ) → pool'.buckets j ≡ (if index == j then kept ++ peer ∷ [] else pool.buckets j)
  pub same_host : pool'.host_address ≡ pool.host_address

erase-length : (i : ℕ) (ps : Bucket) → i < length ps → suc (length (erase i ps)) ≡ length ps
erase-length i [] h = absurd (omega (arith, h))
erase-length zero (p ∷ ps) h = refl
erase-length (suc i) (p ∷ ps) h = ap suc (erase-length i ps (omega (arith, h)))

pub erase-All : (F : PoolPeer → Type 0) (i : ℕ) (ps : Bucket) → All F ps → All F (erase i ps)
erase-All F i [] h = tt
erase-All F zero (p ∷ ps) h = h.1
erase-All F (suc i) (p ∷ ps) h = (h.0, erase-All F i ps h.1)

module _ (now : Time) (peer : PoolPeer) (pool : Pool) where
  -- The peer is taken, or nothing changes.
  abbrev pub Ends : Outcome Bool × Pool → Type 0
  Ends r = ((r.0 ≡ ok true) × Took peer pool r.1) ⊎ ((r.0 ≢ ok true) × (r.1 ≡ pool))

  refused : (e : Error) → Ends (raise e, pool)
  refused e = inr (λ h. absurd cc, refl)

  no : Ends (ok false, pool)
  no = inr (λ h. absurd cc, refl)

  module _ (i index : ℕ) where
    pub remove_peer-beyond :
        ltb i max_bucket_size ≡ false → remove_peer i index pool ≡ (raise Error.assertion, pool)
    unfolding remove_peer
    remove_peer-beyond f = rw (remove_peer, f)

    remove_peer-absent :
        ltb i max_bucket_size ≡ true
        → ltb index (length (pool.buckets i)) ≡ false
        → remove_peer i index pool ≡ (raise Error.assertion, pool)
    unfolding remove_peer
    remove_peer-absent f k = rw (remove_peer, f, k)

    pub remove_peer-erase :
        ltb i max_bucket_size ≡ true
        → ltb index (length (pool.buckets i)) ≡ true
        → remove_peer i index pool ≡ (ok tt, set_bucket i (erase index (pool.buckets i)) pool)
    unfolding remove_peer
    remove_peer-erase f k = rw (remove_peer, f, k)

  pushed :
      (i : ℕ)
      → IsPool pool
      → Fits pool i peer
      → length (pool.buckets i) < max_bucket_size
      → Took peer pool (push_back i peer pool)
  pushed i v own few = record {
    index = i;
    kept = pool.buckets i;
    own = own;
    few = few;
    placed = v.placed i;
    bucket = λ j. refl;
    same_host = refl;
  }

  renewed :
      (i index : ℕ)
      → IsPool pool
      → Fits pool i peer
      → index < length (pool.buckets i)
      → Took peer pool (push_back i peer (set_bucket i (erase index (pool.buckets i)) pool))
  renewed i index v own there = record {
    index = i;
    kept = erase index (pool.buckets i);
    own = own;
    few = omega (arith, erase-length index (pool.buckets i) there, v.small i);
    placed = erase-All (Fits pool i) index (pool.buckets i) (v.placed i);
    bucket = λ j. elim (Bool-cases (i == j)) [ inl e ↦ rw (e, (==_iff i i).1 refl) | inr e ↦ rw e ];
    same_host = refl;
  }

  replace_peer-Ends : (i : ℕ) → IsPool pool → Fits pool i peer → Ends (replace_peer now i peer pool)
  unfolding replace_peer
  replace_peer-Ends i v own =
      elim (Outcome-split (get_least_recently_seen_peer_index (pool.buckets i))) [
        | inr (e, h) ↦ rw (replace_peer, h) (refused e)
        | inl (index, h) ↦ elim (Option-cases (get_elem? (pool.buckets i) index)) [
          | inl g ↦ rw (replace_peer, h, g) (refused Error.undefined)
          | inr (q, g) ↦
              elim (Bool-cases (ltb quiet_limit ((now + 2 ^ 32 - q.last_seen) % 2 ^ 32))) [
                | inr e ↦ rw (replace_peer, h, g, e) no
                | inl e ↦ elim (Bool-cases (ltb i max_bucket_size)) [
                  | inr f ↦
                      rw (replace_peer, h, g, e, remove_peer-beyond i index f)
                        (refused Error.assertion)
                  | inl f ↦ elim (Bool-cases (ltb index (length (pool.buckets i)))) [
                    | inr k ↦
                        rw (replace_peer, h, g, e, remove_peer-absent i index f k)
                          (refused Error.assertion)
                    | inl k ↦
                        rw (replace_peer, h, g, e, remove_peer-erase i index f k)
                          (inl (refl, renewed i index v own (ground (arith, k))))
                  ]
                ]
              ]
        ]
      ]

  pub try_add_peer-Ends : IsPool pool → Ends (try_add_peer now peer pool)
  unfolding try_add_peer
  try_add_peer-Ends v = elim (Outcome-split (has_same_endpoint peer (all_peers pool))) [
    | inr (e, h) ↦ rw (try_add_peer, h) (refused e)
    | inl (true, h) ↦ rw (try_add_peer, h) no
    | inl (false, h) ↦ elim (Outcome-split (calc_difference pool.host_address peer.address)) [
      | inr (e, g) ↦ rw (try_add_peer, h, g) (refused e)
      | inl (i, g) ↦ elim (Bool-cases (i == bucket_count)) [
        | inl e ↦ rw (try_add_peer, h, g, e) no
        | inr e ↦ elim (Bool-cases (ltb (length (pool.buckets i)) max_bucket_size)) [
          | inl f ↦ rw (try_add_peer, h, g, e, f) (inl (refl, pushed i v g (ground (arith, f))))
          | inr f ↦ rw (try_add_peer, h, g, e, f) (replace_peer-Ends i v g)
        ]
      ]
    ]
  ]

  Took-IsPool : (pool' : Pool) → IsPool pool → Took peer pool pool' → IsPool pool'
  Took-IsPool pool' v t = record {
    small = λ j. elim (Bool-cases (t.index == j)) [
      | inl e ↦ rw (t.bucket j, e) (omega (arith, t.few, length-append t.kept (peer ∷ [])))
      | inr e ↦ rw (t.bucket j, e) (v.small j)
    ];
    placed = λ j. elim (Bool-cases (t.index == j)) [
      | inl e ↦
          (let same : t.index ≡ j = (==_iff t.index j).0 e in
            rw (t.bucket j, e, t.same_host)
              (subst (λ i. All (Fits pool i) (t.kept ++ peer ∷ [])) same
                (All-append (Fits pool t.index) t.kept (peer ∷ []) t.placed (t.own, tt))))
      | inr e ↦ rw (t.bucket j, e, t.same_host) (v.placed j)
    ];
  }

  -- tryAddPeer keeps the buckets as they should be, with ten peers at most and each peer in the bucket
  -- of its address. Where it answers true the peer stands at the end of the bucket of its address,
  -- and where it answers false or throws nothing has changed.
  pub try_add_peer-IsPool :
      IsPool pool
      → IsPool (try_add_peer now peer pool).1
        × ((((try_add_peer now peer pool).0 ≡ ok true)
              × Took peer pool (try_add_peer now peer pool).1)
            ⊎ (((try_add_peer now peer pool).0 ≢ ok true)
                × ((try_add_peer now peer pool).1 ≡ pool)))
  try_add_peer-IsPool v = elim (try_add_peer-Ends v) [
    | inl (e, t) ↦ (Took-IsPool (try_add_peer now peer pool).1 v t, inl (e, t))
    | inr (e, same) ↦ (subst IsPool (sym same) v, inr (e, same))
  ]
