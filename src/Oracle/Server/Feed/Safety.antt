-- ===== src/Oracle/Server/Feed/Safety.antt =====
-- What a cycle of the feeder submits.
use smartcupleague.Prelude.{
  ℕ, ◌≡◌, refl, sym, ap, ◌∙◌, subst, Option, none, some, List, [], ◌∷◌, arith, string_eq, nat_eq,
  ◌==◌, lookup, lookup-insert_at, lookup-insert_off, insert, Option-cases, Bool-cases, inl, inr,
  of_some, Memᴰ,
}
use smartcupleague.Action.{Action, pure, ran-cases, ◌>>◌}
use smartcupleague.Action.Returns.{
  Ends, Returns, Keeps, Ends-kept, Returns-pure, Returns-catch, Returns-bind,
}
use smartcupleague.Oracle.Result.{MappedResult, resolve_on_field_result}
use smartcupleague.Oracle.Server.State.{ServerMaps, Outside, SportMatch, CacheEntry, outside}
use smartcupleague.Oracle.Server.Cache.{
  fetch_sport_match, live_data, request_match, serve_match, keep_match,
}
use smartcupleague.Oracle.Server.Mapping.{sports_id_of}
use smartcupleague.Oracle.Server.Feed.{
  map_match_to_oracle, to_process, submit, submit_found, feed_body, feed_one, feed_all,
  feed_pending, run_auto_feed,
}
use smartcupleague.Oracle.Server.Feed.Batch.{Started, StartedBy, batch-Started}

map_match-finished :
    (m : SportMatch) (r : MappedResult)
    → map_match_to_oracle m ≡ some r
    → (m.status ≡ "FINISHED") × (resolve_on_field_result m.score ≡ some r)
unfolding map_match_to_oracle
map_match-finished m r h = elim (Bool-cases (m.status == "FINISHED")) [
  | inl yes_ ↦
      ((string_eq.same_iff m.status "FINISHED").0 yes_, rw (yes_, map_match_to_oracle) at h)
  | inr no_ ↦ absurd (ground arith)
]

pub live_data-same :
    (now : ℕ) (o : Option (CacheEntry SportMatch)) (e : CacheEntry SportMatch) (m : SportMatch)
    → o ≡ some e
    → live_data now o ≡ some m
    → e.data_of ≡ m
live_data-same now o e m found served = ground arith

module _ (b : Outside) (P : b.World → Type 0) (Genuine : ℕ → SportMatch → Type 0) where
  -- The cached matches are genuine.
  abbrev pub IsGenuine : ServerMaps → Type 0
  IsGenuine t =
      (n : ℕ) (e : CacheEntry SportMatch) → lookup n t.match_cache ≡ some e → Genuine n e.data_of

  pub live_data-genuine :
      (n : ℕ) (t : ServerMaps) (now : ℕ)
      → IsGenuine t
      → (m : SportMatch) → live_data now (lookup n t.match_cache) ≡ some m
      → Genuine n m
  live_data-genuine n t now genuine m served = elim (Option-cases (lookup n t.match_cache)) [
    | inl missing ↦ absurd (ground arith)
    | inr (e, found) ↦
        subst (Genuine n) (live_data-same now (lookup n t.match_cache) e m found served)
          (genuine n e found)
  ]

  module _ (t : ServerMaps) where
    -- The numbers and the kick-offs are those of t.
    abbrev SameIds : ServerMaps → Type 0
    SameIds t' =
        (t'.match_id_to_sports_id ≡ t.match_id_to_sports_id) × (t'.kick_off_map ≡ t.kick_off_map)

    pub same_sports_id :
        (t' : ServerMaps)
        → t'.match_id_to_sports_id ≡ t.match_id_to_sports_id
        → (match_id : ℕ) → sports_id_of t' match_id ≡ sports_id_of t match_id
    same_sports_id t' same match_id =
        ap (λ ids. sports_id_of (record t { match_id_to_sports_id = ids }) match_id) same

    abbrev pub Inv : ServerMaps × b.World → Type 0
    Inv s = SameIds s.0 × IsGenuine s.0 × P s.1

    pub outside-Inv :
        {A : Type 0} (Q : A → Type 0) (m : Action b.World A)
        → Returns P Q m
        → Returns Inv Q (outside m)
    outside-Inv Q m h (t', w) (same, genuine, p) = elim (ran-cases (m w)) [
      | inl (a, w', ran) ↦
          (let ended = subst (Ends P Q) ran (h w p) in rw ran ((same, genuine, ended.0), ended.1))
      | inr (e, w', ran) ↦ rw ran (same, genuine, subst (Ends P Q) ran (h w p))
    ]

    pub IsGenuine-insert :
        (n : ℕ) (entry : CacheEntry SportMatch) (t' : ServerMaps)
        → Genuine n entry.data_of
        → IsGenuine t'
        → IsGenuine (record t' { match_cache = insert n entry t'.match_cache })
    IsGenuine-insert n entry t' good genuine j e found = elim (Bool-cases (n == j)) [
      | inl here ↦
          subst (λ k. Genuine k e.data_of) ((nat_eq.same_iff n j).0 here)
            (subst (λ x. Genuine n x.data_of)
              (of_some (sym (lookup-insert_at n j entry t'.match_cache here) ∙ found)) good)
      | inr there ↦ genuine j e (sym (lookup-insert_off n j entry t'.match_cache there) ∙ found)
    ]

    keep_match-Inv : (n : ℕ) (m : SportMatch) → Genuine n m → Keeps Inv (keep_match b n m)
    keep_match-Inv n m good (t', w) (same, genuine, p) =
        ((same, IsGenuine-insert n _ t' good genuine, p), tt)

    module _ (fetched : (n : ℕ) → Returns P (Genuine n) (b.get_match n)) where
      request_match-Inv : (n : ℕ) → Returns Inv (Genuine n) (request_match b n)
      request_match-Inv n =
          Returns-bind Inv (Genuine n) (Genuine n) (outside (b.get_match n))
            (λ m. keep_match b n m >> pure m) (outside-Inv (Genuine n) (b.get_match n) (fetched n))
            λ m good.
              Returns-bind Inv (λ a. Unit {0}) (Genuine n) (keep_match b n m) (λ a. pure m)
                (keep_match-Inv n m good) λ a done. Returns-pure Inv (Genuine n) m good

      serve_match-Inv :
          (n : ℕ) (o : Option SportMatch)
          → ((m : SportMatch) → o ≡ some m → Genuine n m)
          → Returns Inv (Genuine n) (serve_match b n o)
      serve_match-Inv n none good = request_match-Inv n
      serve_match-Inv n (some m) good = Returns-pure Inv (Genuine n) m (good m refl)

      -- A match is genuine, whether it is fetched or comes from the cache.
      pub fetch_sport_match-Inv : (n : ℕ) → Returns Inv (Genuine n) (fetch_sport_match b n)
      unfolding fetch_sport_match
      fetch_sport_match-Inv n (t', w) inv =
          serve_match-Inv n (live_data (b.clock w) (lookup n t'.match_cache))
            (live_data-genuine n t' (b.clock w) inv.1) (t', w) inv

      module _ (May : ℕ → MappedResult → Type 0)
          (submitted : (match_id : ℕ) (r : MappedResult)
            → May match_id r
            → Keeps P (b.submit_result match_id r.home r.away r.penalty_winner)) where
        -- The result of every genuine match under the number may be submitted.
        abbrev pub Allowed : ℕ → Type 0
        Allowed match_id =
            (m : SportMatch) (r : MappedResult)
            → Genuine (sports_id_of t match_id) m
            → map_match_to_oracle m ≡ some r
            → May match_id r

        submit_found-Inv :
            (match_id : ℕ) (o : Option MappedResult)
            → ((r : MappedResult) → o ≡ some r → May match_id r)
            → Keeps Inv (submit_found b match_id o)
        unfolding submit
        submit_found-Inv match_id none may = Returns-pure Inv (λ a. Unit {0}) tt tt
        submit_found-Inv match_id (some r) may =
            outside-Inv (λ a. Unit {0}) (b.submit_result match_id r.home r.away r.penalty_winner)
              (submitted match_id r (may r refl))

        feed_body-Inv : (match_id : ℕ) → Allowed match_id → Keeps Inv (feed_body b match_id)
        feed_body-Inv match_id allowed (t', w) inv =
            Returns-bind Inv (Genuine (sports_id_of t' match_id)) (λ a. Unit {0})
              (fetch_sport_match b (sports_id_of t' match_id))
              (λ m. submit_found b match_id (map_match_to_oracle m))
              (fetch_sport_match-Inv (sports_id_of t' match_id))
              (λ m good. submit_found-Inv match_id (map_match_to_oracle m) (λ r mapped.
                allowed m r (subst (λ id. Genuine id m) (same_sports_id t' inv.0.0 match_id) good)
                  mapped))
              (t', w) inv

        pub feed_one-Inv : (match_id : ℕ) → Allowed match_id → Keeps Inv (feed_one b match_id)
        unfolding feed_one
        feed_one-Inv match_id allowed =
            Returns-catch Inv (λ a. Unit {0}) (feed_body b match_id) (λ e. pure tt)
              (feed_body-Inv match_id allowed) λ e. Returns-pure Inv (λ a. Unit {0}) tt tt

        pub feed_all-Inv :
            (ids : List ℕ)
            → ((match_id : ℕ) → Memᴰ match_id ids → Allowed match_id)
            → Keeps Inv (feed_all b ids)
        unfolding feed_all
        feed_all-Inv [] allowed = Returns-pure Inv (λ a. Unit {0}) tt tt
        feed_all-Inv (match_id ∷ ids) allowed =
            Returns-bind Inv (λ a. Unit {0}) (λ a. Unit {0}) (feed_one b match_id)
              (λ a. feed_all b ids) (feed_one-Inv match_id (allowed match_id (Memᴰ.head refl)))
              λ a done. feed_all-Inv ids λ other m. allowed other (Memᴰ.tail m)

      -- A finished match's result on the field, of a match that has started by the clock.
      abbrev pub IsResult : ℕ → MappedResult → Type 0
      IsResult match_id r =
          ((w0 : b.World) × P w0 × Started (b.clock w0) t match_id)
          × ((m : SportMatch) × Genuine (sports_id_of t match_id) m
              × (m.status ≡ "FINISHED")
              × (resolve_on_field_result m.score ≡ some r))

      Started-IsResult :
          (match_id : ℕ) (w0 : b.World)
          → P w0
          → Started (b.clock w0) t match_id
          → (m : SportMatch) (r : MappedResult) → Genuine (sports_id_of t match_id) m
          → map_match_to_oracle m ≡ some r
          → IsResult match_id r
      Started-IsResult match_id w0 p0 started m r good mapped =
          let finished = map_match-finished m r mapped in
          ((w0, p0, started), (m, good, finished.0, finished.1))

      module _
          (submitted : (match_id : ℕ) (r : MappedResult)
            → IsResult match_id r
            → Keeps P (b.submit_result match_id r.home r.away r.penalty_winner)) where
        feed_pending-Inv :
            (batch_size : ℕ) (pending : List ℕ) → Keeps Inv (feed_pending b batch_size pending)
        feed_pending-Inv batch_size [] s inv = (inv, tt)
        feed_pending-Inv batch_size (first ∷ rest) (t', w) inv =
            feed_all-Inv IsResult submitted (to_process batch_size (b.clock w) t' (first ∷ rest))
              (λ match_id m. Started-IsResult match_id w inv.2 (
                subst (λ kick_offs. StartedBy kick_offs (b.clock w) match_id) inv.0.1
                  (batch-Started batch_size (b.clock w) t' (first ∷ rest) match_id m).1))
              (t', w) inv

        -- What a cycle does to the world is fetching, and sending results of matches that have started:
        -- each the result on the field of a finished match that the data service has, or had when it was
        -- cached, under the number of the match. Any P that fetching and sending such results keeps is
        -- kept by the whole cycle.
        pub run_auto_feed-Keeps :
            (batch_size : ℕ) (w : b.World)
            → IsGenuine t
            → Keeps P b.get_api
            → Keeps P b.query_pending_matches
            → P w
            → P ((run_auto_feed b batch_size (t, w)).1.1)
        unfolding run_auto_feed
        run_auto_feed-Keeps batch_size w genuine api query p =
            (Ends-kept Inv (λ a. Unit {0}) (run_auto_feed b batch_size (t, w))
              (Returns-catch Inv (λ a. Unit {0}) _ (λ e. pure tt)
                (Returns-bind Inv (λ a. Unit {0}) (λ a. Unit {0}) (outside b.get_api) _
                  (outside-Inv (λ a. Unit {0}) b.get_api api)
                  λ a done.
                    Returns-bind Inv (λ a. Unit {0}) (λ a. Unit {0})
                      (outside b.query_pending_matches) (feed_pending b batch_size)
                      (outside-Inv (λ a. Unit {0}) b.query_pending_matches query)
                      λ pending found. feed_pending-Inv batch_size pending)
                (λ e. Returns-pure Inv (λ a. Unit {0}) tt tt) (t, w) ((refl, refl), genuine, p))).2
