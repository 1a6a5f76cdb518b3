-- ===== src/Oracle/Server/Feed/Progress.antt =====
-- A finished match is submitted.
use smartcupleague.Prelude.{
  ℕ, ◌<◌, ◌≡◌, refl, sym, ap, ◌∙◌, subst, Option, none, some, List, [], ◌∷◌, arith, nat_eq, lookup,
  inl, inr, length, Memᴰ,
}
use smartcupleague.Action.{Action, Result, ok, pure, ran-cases, ok_inj, try_catch}
use smartcupleague.Action.Returns.{Ends, Returns, Keeps, Ends-kept}
use smartcupleague.Oracle.Result.{MappedResult}
use smartcupleague.Oracle.Server.State.{ServerMaps, Outside, SportMatch, CacheEntry}
use smartcupleague.Oracle.Server.Cache.{fetch_sport_match, live_data, serve_match, keep_match}
use smartcupleague.Oracle.Server.Mapping.{sports_id_of}
use smartcupleague.Oracle.Server.Feed.{
  map_match_to_oracle, to_process, submit, feed_body, feed_one, feed_all, feed_pending, cycle,
  run_auto_feed,
}
use smartcupleague.Oracle.Server.Feed.Batch.{Started, to_process-first}
use smartcupleague.Oracle.Server.Feed.Safety.{
  IsGenuine, Inv, same_sports_id, fetch_sport_match-Inv, feed_one-Inv, feed_all-Inv,
  live_data-genuine,
}

caught : {W : Type 0} (x : Action W (Unit {0})) (w : W) → (try_catch x (λ e. pure tt) w).0 ≡ ok tt
caught x w = elim (ran-cases (x w)) [
  | inl (a, w', ran) ↦ rw ran refl
  | inr (e, w', ran) ↦ rw ran refl
]

-- The body of the loop never throws.
feed_one-quiet : (b : Outside) (id : ℕ) (s : ServerMaps × b.World) → (feed_one b id s).0 ≡ ok tt
unfolding feed_one
feed_one-quiet b id s = caught (feed_body b id) s

feed_all-next :
    (b : Outside) (id : ℕ) (ids : List ℕ) (s : ServerMaps × b.World)
    → feed_all b (id ∷ ids) s ≡ feed_all b ids ((feed_one b id s).1)
unfolding feed_all
feed_all-next b id ids s = rw (feed_one-quiet b id s) refl

module _ (b : Outside) (t : ServerMaps) (match_id : ℕ) (m : SportMatch) (r : MappedResult)
    (mapped : map_match_to_oracle m ≡ some r)
    (served : (w : b.World)
      → (w' : b.World) × (b.get_match (sports_id_of t match_id) w ≡ (ok m, w')))
    (Sent : b.World → Type 0)
    (sent : (w : b.World) → Sent ((b.submit_result match_id r.home r.away r.penalty_winner w).1))
    (sent_get : (n : ℕ) → Keeps Sent (b.get_match n))
    (sent_submit : (id : ℕ) (r : MappedResult)
      → Keeps Sent (b.submit_result id r.home r.away r.penalty_winner)) where
  abbrev sports_id : ℕ
  sports_id = sports_id_of t match_id

  -- The data service has m under the number of the match.
  abbrev Served : ℕ → SportMatch → Type 0
  Served n x = n ≡ sports_id → x ≡ m

  get_match-Served :
      (P : b.World → Type 0)
      → ((n : ℕ) → Keeps P (b.get_match n))
      → (n : ℕ) → Returns P (Served n) (b.get_match n)
  get_match-Served P kept n w p = elim (ran-cases (b.get_match n w)) [
    | inl (a, w', ran) ↦ rw ran (
      (subst (Ends P (λ x. Unit {0})) ran (kept n w p)).0,
      λ same.
          let (w1, got) = served w in (ok_inj (sym ran ∙ (ap (λ k. b.get_match k w) same ∙ got))).0,
    )
    | inr (e, w', ran) ↦ rw ran (subst (Ends P (λ x. Unit {0})) ran (kept n w p))
  ]

  abbrev Any : b.World → Type 0
  Any w = Unit

  Any-kept : {A : Type 0} (m : Action b.World A) → Keeps Any m
  Any-kept m w p = elim (ran-cases (m w)) [
    | inl (a, w', ran) ↦ rw ran (tt, tt)
    | inr (e, w', ran) ↦ rw ran tt
  ]

  serve-served :
      (o : Option SportMatch) (s : ServerMaps × b.World)
      → ((x : SportMatch) → o ≡ some x → x ≡ m)
      → (s' : ServerMaps × b.World) × (serve_match b sports_id o s ≡ (ok m, s'))
  serve-served none (t', w) good =
      let (w', got) = served w in ((keep_match b sports_id m (t', w')).1, rw got refl)
  serve-served (some x) s good = (s, ap (λ y. (ok y, s)) (good x refl))

  fetch-Served :
      (s : ServerMaps × b.World)
      → Inv b Any Served t s
      → (s' : ServerMaps × b.World) × (fetch_sport_match b sports_id s ≡ (ok m, s'))
  unfolding fetch_sport_match
  fetch-Served (t', w) inv =
      serve-served (live_data (b.clock w) (lookup sports_id t'.match_cache)) (t', w)
        λ x found. live_data-genuine b Any Served sports_id t' (b.clock w) inv.1 x found refl

  abbrev send_result : b.World → Result (Unit {0}) × b.World
  send_result w = b.submit_result match_id r.home r.away r.penalty_winner w

  feed_one-sends :
      (t' t'' : ServerMaps) (w w' : b.World)
      → fetch_sport_match b (sports_id_of t' match_id) (t', w) ≡ (ok m, (t'', w'))
      → (feed_one b match_id (t', w)).1 ≡ (t'', (send_result w').1)
  unfolding feed_one submit
  feed_one-sends t' t'' w w' fetched = elim (ran-cases (send_result w')) [
    | inl (a, w1, ran) ↦ rw (fetched, mapped, ran) refl
    | inr (e, w1, ran) ↦ rw (fetched, mapped, ran) refl
  ]

  fetched-Any : (n : ℕ) → Returns Any (Served n) (b.get_match n)
  fetched-Any = get_match-Served Any λ n. Any-kept (b.get_match n)

  feed_one-Sent :
      (s : ServerMaps × b.World)
      → Inv b Any Served t s
      → Inv b Sent Served t ((feed_one b match_id s).1)
  feed_one-Sent (t', w) inv =
      let ((t'', w'), fetched) = fetch-Served (t', w) inv in
      let kept : Ends (Inv b Any Served t) (Served sports_id) (ok m, (t'', w')) =
        subst (Ends (Inv b Any Served t) (Served sports_id)) fetched
          (fetch_sport_match-Inv b Any Served t fetched-Any sports_id (t', w) inv) in
      subst (Inv b Sent Served t)
        (sym (
          feed_one-sends t' t'' w w' (
            ap (λ id. fetch_sport_match b id (t', w))
              (same_sports_id b Any Served t t' inv.0.0 match_id)
            ∙ fetched)))
        (kept.0.0, kept.0.1, sent w')

  abbrev Always : ℕ → MappedResult → Type 0
  Always id x = Unit

  feed_one-Any : (id : ℕ) → Keeps (Inv b Any Served t) (feed_one b id)
  feed_one-Any id =
      feed_one-Inv b Any Served t fetched-Any Always
        (λ i x yes_. Any-kept (b.submit_result i x.home x.away x.penalty_winner)) id
        λ x r good mapped. tt

  -- The matches behind in the batch keep what was sent.
  feed_all-kept : (ids : List ℕ) → Keeps (Inv b Sent Served t) (feed_all b ids)
  feed_all-kept ids =
      feed_all-Inv b Sent Served t (get_match-Served Sent sent_get) Always
        (λ i x yes_. sent_submit i x) ids λ id m x r good mapped. tt

  feed_all-Sent :
      (ids : List ℕ) (s : ServerMaps × b.World)
      → Inv b Any Served t s
      → Memᴰ match_id ids
      → Inv b Sent Served t ((feed_all b ids s).1)
  feed_all-Sent [] s inv m = elim m [ ]
  feed_all-Sent (id ∷ ids) s inv (Memᴰ.head e) =
      subst (λ x. Inv b Sent Served t (x.1)) (sym (feed_all-next b id ids s))
        (Ends-kept (Inv b Sent Served t) (λ a. Unit {0}) (feed_all b ids ((feed_one b id s).1))
          (feed_all-kept ids ((feed_one b id s).1)
            (subst (λ i. Inv b Sent Served t ((feed_one b i s).1)) e (feed_one-Sent s inv))))
  feed_all-Sent (id ∷ ids) s inv (Memᴰ.tail m) =
      subst (λ x. Inv b Sent Served t (x.1)) (sym (feed_all-next b id ids s))
        (feed_all-Sent ids ((feed_one b id s).1)
          (Ends-kept (Inv b Any Served t) (λ a. Unit {0}) (feed_one b id s) (feed_one-Any id s inv))
          m)

  in_batch :
      (batch_size now : ℕ) (pending : List ℕ)
      → Memᴰ match_id pending
      → Started now t match_id
      → length (to_process batch_size now t pending) < batch_size
      → Memᴰ match_id (to_process batch_size now t pending)
  in_batch batch_size now pending m started room =
      elim (to_process-first batch_size now t pending match_id m started).1 [
        | inl taken ↦ taken
        | inr (full, earlier) ↦ absurd (omega (arith, full))
      ]

  feed_pending-Sent :
      (batch_size : ℕ) (pending : List ℕ) (w : b.World)
      → Inv b Any Served t (t, w)
      → Memᴰ match_id pending
      → Memᴰ match_id (to_process batch_size (b.clock w) t pending)
      → Sent ((feed_pending b batch_size pending (t, w)).1.1)
  feed_pending-Sent batch_size [] w inv in_pending m = elim in_pending [ ]
  feed_pending-Sent batch_size (first ∷ rest) w inv in_pending m =
      (feed_all-Sent (to_process batch_size (b.clock w) t (first ∷ rest)) (t, w) inv m).2

  catch_end :
      (x : Action (ServerMaps × b.World) (Unit {0})) (s : ServerMaps × b.World)
      → (try_catch x (λ e. pure tt) s).1 ≡ (x s).1
  catch_end x s = elim (ran-cases (x s)) [
    | inl (a, s', ran) ↦ rw ran refl
    | inr (e, s', ran) ↦ rw ran refl
  ]

  -- A pending match that has started, whose result the data service has on every request, and whose
  -- copy in the cache, if there is one, has that result too, is submitted by the cycle that finds it,
  -- when the chain answers the cycle's queries, its batch has room left and the sending of others
  -- takes nothing back; what becomes of the batch's other matches does not matter. A copy of the
  -- match before it was finished is served until it expires, and is no such copy.
  pub run_auto_feed-Sent :
      (batch_size : ℕ) (pending : List ℕ) (w w1 w2 : b.World)
      → b.get_api w ≡ (ok tt, w1)
      → b.query_pending_matches w1 ≡ (ok pending, w2)
      → Memᴰ match_id pending
      → Started (b.clock w2) t match_id
      → length (to_process batch_size (b.clock w2) t pending) < batch_size
      → ((e : CacheEntry SportMatch) → lookup sports_id t.match_cache ≡ some e → e.data_of ≡ m)
      → Sent ((run_auto_feed b batch_size (t, w)).1.1)
  unfolding run_auto_feed
  run_auto_feed-Sent batch_size pending w w1 w2 api query in_pending started room agrees =
      let fed : Sent ((feed_pending b batch_size pending (t, w2)).1.1) =
        feed_pending-Sent batch_size pending w2 ((refl, refl), copy_agrees, tt) in_pending
          (in_batch batch_size (b.clock w2) pending in_pending started room) in
      subst (λ s. Sent (s.1)) (sym (catch_end (cycle b batch_size) (t, w))) (rw (api, query) fed)
    where
      copy_agrees : IsGenuine b Any Served t
      copy_agrees n e found same =
          agrees e (subst (λ k. lookup k t.match_cache ≡ some e) same found)
