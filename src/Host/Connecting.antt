-- ===== src/Host/Connecting.antt =====
-- When checkOutPeer connects to an endpoint, and what keeps it from doing so.
use likelib_utonhack.Prelude.{
  ◌≡◌, refl, sym, ap, subst, ◌⊎◌, inl, inr, Bool, true, false, [], ◌∷◌, ◌++◌, ==_iff, Bool-cases,
  nat_eq, bytes_eq, bytes_equality,
}
use likelib_utonhack.Outcome.{ok, raise, Error, Outcome-split}
use likelib_utonhack.Address.{Address}
use likelib_utonhack.Endpoint.{Endpoint, Inet, endpoint_eq}
use likelib_utonhack.Storage.{KeyValue}
use likelib_utonhack.Rating.{Rating, is_good}
use likelib_utonhack.Host.{Host, is_member, is_connected_to, rating_of, try_connect, check_out_peer}

module _ (kv : KeyValue) (inet : Inet) (e : Endpoint) (address : Address) (h : Host kv) where
  -- The endpoint is another node's, no connection to it is there or under way, and its rating is good.
  pub record IsFresh : Type 0 where
    pub other_node : bytes_eq h.this_node_address address ≡ false
    pub other_endpoint : endpoint_eq h.listen_ip e ≡ false
    pub not_connected : is_connected_to kv inet e h ≡ ok false
    pub not_in_process : is_member e h.connector_in_process ≡ false

  -- A connection is asked for, the endpoint's own rating being good; nothing else changes but its mark
  -- and the ratings.
  pub record Connects (h' : Host kv) : Type 0 where
    pub fresh : IsFresh
    pub rating : Rating kv
    pub own : rating_of kv inet e h ≡ ok rating
    pub good : is_good kv rating ≡ true
    pub called : h' ≡ record h {
      ratings = rating.db;
      connecting = h.connecting ++ e ∷ [];
      connector_in_process = e ∷ h.connector_in_process;
    }

  -- The endpoint is left in process though no connection is asked for; nothing else but the ratings changes.
  -- Its own rating is not good, or cannot be read.
  pub record Sticks (h' : Host kv) : Type 0 where
    pub fresh : IsFresh
    pub not_good :
        (rating : Rating kv) → rating_of kv inet e h ≡ ok rating → is_good kv rating ≡ false
    pub marked :
        h' ≡ record h { ratings = h'.ratings; connector_in_process = e ∷ h.connector_in_process }

  abbrev pub Ends : Host kv → Type 0
  Ends h' = Connects h' ⊎ (Sticks h' ⊎ (h' ≡ h))

  unchanged : Ends h
  unchanged = inr (inr refl)

  raised :
      {r : Rating kv} {error : Error}
      → rating_of kv inet e h ≡ ok r
      → rating_of kv inet e h ≡ raise error
      → ⊥
  raised there thrown = cc

  -- A rating that is read is the only one.
  only_rating :
      {r r' : Rating kv} {b : Bool}
      → is_good kv r ≡ b
      → rating_of kv inet e h ≡ ok r
      → rating_of kv inet e h ≡ ok r'
      → is_good kv r' ≡ b
  only_rating good there again = cc

  try_connect-Ends : IsFresh → Ends (try_connect kv inet e h).1
  unfolding try_connect rating_of
  try_connect-Ends fresh = elim (Outcome-split (rating_of kv inet e h)) [
    | inr (error, r) ↦
        rw (try_connect, r)
          (inr (
            inl (record {
              fresh = fresh;
              not_good = λ rating there. absurd (raised there r);
              marked = refl;
            })))
    | inl (rating, r) ↦ elim (Bool-cases (is_good kv rating)) [
      | inl good ↦
          rw (try_connect, r, good)
            (inl (record { fresh = fresh; rating = rating; own = r; good = good; called = refl }))
      | inr bad ↦
          rw (try_connect, r, bad)
            (inr (
              inl (record {
                fresh = fresh;
                not_good = λ rating' there. only_rating bad r there;
                marked = refl;
              })))
    ]
  ]

  ends : Ends (check_out_peer kv inet e address h).1
  unfolding check_out_peer
  ends = elim (Bool-cases (bytes_eq h.this_node_address address)) [
    | inl a ↦ rw (check_out_peer, a) unchanged
    | inr a ↦ elim (Bool-cases (endpoint_eq h.listen_ip e)) [
      | inl b ↦ rw (check_out_peer, a, b) unchanged
      | inr b ↦ elim (Outcome-split (is_connected_to kv inet e h)) [
        | inr (error, c) ↦ rw (check_out_peer, a, b, c) unchanged
        | inl (true, c) ↦ rw (check_out_peer, a, b, c) unchanged
        | inl (false, c) ↦ elim (Bool-cases (is_member e h.connector_in_process)) [
          | inl d ↦ rw (check_out_peer, a, b, c, d) unchanged
          | inr d ↦
              rw (check_out_peer, a, b, c, d)
                (try_connect-Ends (record {
                  other_node = a;
                  other_endpoint = b;
                  not_connected = c;
                  not_in_process = d;
                }))
        ]
      ]
    ]
  ]

  endpoint_itself : endpoint_eq e e ≡ true
  unfolding endpoint_eq
  endpoint_itself = rw ((==_iff e.address e.address).1 refl, (==_iff e.port e.port).1 refl)

  stuck :
      (db : kv.Store)
      → IsFresh
      → (h' : Host kv)
      → h' ≡ record h { ratings = db; connector_in_process = e ∷ h.connector_in_process }
      → check_out_peer kv inet e address h' ≡ (ok tt, h')
  unfolding check_out_peer is_connected_to
  stuck db fresh h' same =
      let q : Host kv = record h {
        ratings = db;
        connector_in_process = e ∷ h.connector_in_process;
      } in
      let connected : is_connected_to kv inet e q ≡ ok false = fresh.not_connected in
      subst (λ k. check_out_peer kv inet e address k ≡ (ok tt, k)) (sym same)
        (rw (check_out_peer, fresh.other_node, fresh.other_endpoint, connected, endpoint_itself)
          refl)

  -- checkOutPeer asks for a connection to an endpoint only if it is another node's, with no connection to
  -- it there or under way, and the rating that the manager gives for this endpoint is good; it marks it as
  -- in process then. Otherwise it asks for none: either the host does not change, or the endpoint, whose
  -- rating is not good or cannot be read, sticks, marked as in process with nothing else but the ratings
  -- changed. To an endpoint that sticks no later call with the address connects, whatever
  -- the ratings are then, as long as the rest of the host is the same.
  pub check_out_peer-Ends :
      Ends (check_out_peer kv inet e address h).1
      × (Sticks (check_out_peer kv inet e address h).1
          → (db : kv.Store)
          → check_out_peer kv inet e address
              (record ((check_out_peer kv inet e address h).1) { ratings = db })
            ≡ (ok tt, record ((check_out_peer kv inet e address h).1) { ratings = db }))
  check_out_peer-Ends =
      (ends, λ s db. stuck db s.fresh _ (ap (λ (k : Host kv). record k { ratings = db }) s.marked))
