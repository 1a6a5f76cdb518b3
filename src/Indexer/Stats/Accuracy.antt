-- ===== src/Indexer/Stats/Accuracy.antt =====
-- The accuracy counts: what `projectAccuracyForMatch` adds for the bets on a finalized match.
use smartcupleague.Prelude.{
  ℕ, ◌+◌, ◌≡◌, ap, ◌∙◌, inl, inr, String, Option, some, List, [], ◌∷◌, arith, sum_of, ◌==◌,
  string_eq, if◌then◌else◌, Option-cases,
}
use smartcupleague.Indexer.Entities.{UserStat, Bet}
use smartcupleague.Indexer.Events.{Score}
use smartcupleague.Indexer.State.{HandlerState, or_new}
use smartcupleague.Indexer.Store.{Store, StatLaws}
use smartcupleague.Indexer.Accuracy.{project_accuracy_for_match, touch_bets, bets_of, users_to_load}
use smartcupleague.Indexer.Preload.{preload_user_stats}
use smartcupleague.Indexer.Stats.Touch.{
  Tally, IsLoaded, StatsAreKeyed, accuracy_delta, total, total-touch_bets, touch-IsLoaded,
  touch-StatsAreKeyed,
}
use smartcupleague.Indexer.Stats.Load.{
  users_to_load-IsLoaded, load-StatsAreKeyed, users_to_load-keeps,
}

touch_bets-IsLoaded :
    (row : Option UserStat) (u : String) (final : Score) (penalty : Option String) (t : ℕ)
    (bets : List Bet) (s : HandlerState)
    → IsLoaded row u s
    → IsLoaded row u (touch_bets final penalty t bets s)
unfolding touch_bets
touch_bets-IsLoaded row u final penalty t [] s h = h
touch_bets-IsLoaded row u final penalty t (b ∷ bs) s h =
    touch_bets-IsLoaded row u final penalty t bs _ (touch-IsLoaded row u b.user t _ s h)

touch_bets-StatsAreKeyed :
    (final : Score) (penalty : Option String) (t : ℕ) (bets : List Bet) (s : HandlerState)
    → StatsAreKeyed s
    → StatsAreKeyed (touch_bets final penalty t bets s)
unfolding touch_bets
touch_bets-StatsAreKeyed final penalty t [] s h = h
touch_bets-StatsAreKeyed final penalty t (b ∷ bs) s h =
    touch_bets-StatsAreKeyed final penalty t bs _ (touch-StatsAreKeyed b.user t _ s h)

-- What the bets of `u` add to a total.
abbrev pub earned : Tally → String → Score → Option String → List Bet → ℕ
earned g u final penalty =
    sum_of (λ b. if b.user == u then g.added (accuracy_delta final penalty b) else 0)

module _ (store : Store) (laws : StatLaws store) (u : String) (db : store.Db) where
  abbrev row : Option UserStat
  row = laws.stat db u

  module _ (m : ℕ) (final : Score) (penalty : Option String) (t : ℕ) (s s' : HandlerState)
      (projected : project_accuracy_for_match store m final penalty t db s ≡ some s') where
    -- What a projection that succeeds has done.
    projection_steps :
        (bets : List Bet) × (loaded : HandlerState) × (store.find_bets m db ≡ some bets)
        × (preload_user_stats store (users_to_load s (bets_of m bets s) []) db s ≡ some loaded)
        × (s' ≡ touch_bets final penalty t (bets_of m bets s) loaded)
    unfolding project_accuracy_for_match
    projection_steps = elim (Option-cases (store.find_bets m db)) [
      | inl failed ↦ absurd (ground arith)
      | inr (bets, found) ↦
          elim (Option-cases
            (preload_user_stats store (users_to_load s (bets_of m bets s) []) db s)) [
              | inl failed ↦ absurd (ground arith)
              | inr (loaded, loads) ↦ (bets, loaded, found, loads, ground arith)
            ]
    ]

    pub projection-total :
        (g : Tally)
        → (bets : List Bet) × (store.find_bets m db ≡ some bets)
          × (total row u g s' ≡ total row u g s + earned g u final penalty (bets_of m bets s))
    projection-total g =
        let (bets, loaded, found, loads, ends) = projection_steps in
        let kept = users_to_load-IsLoaded store laws u (bets_of m bets s) db s loaded loads in
        (
          bets,
          found,
          ap (total row u g) ends
              ∙ total-touch_bets row u g final penalty t (bets_of m bets s) loaded kept.1
              ∙ ap (λ o. g.read (or_new u o) + earned g u final penalty (bets_of m bets s)) kept.0,
        )

    pub projection-IsLoaded : IsLoaded row u s → IsLoaded row u s'
    projection-IsLoaded h =
        let (bets, loaded, found, loads, ends) = projection_steps in
        rw ends (
          touch_bets-IsLoaded row u final penalty t (bets_of m bets s) loaded
            (users_to_load-keeps store laws u (bets_of m bets s) db s loaded loads h))

    pub projection-StatsAreKeyed : StatsAreKeyed s → StatsAreKeyed s'
    projection-StatsAreKeyed h =
        let (bets, loaded, found, loads, ends) = projection_steps in
        rw ends (
          touch_bets-StatsAreKeyed final penalty t (bets_of m bets s) loaded
            (load-StatsAreKeyed store _ db s loaded loads h))
