-- ===== src/Indexer/Stats/Touch.antt =====
-- How `touchUser` moves the statistics of one user, seen through the database: the row in memory
-- if there is one, and else the row that the database holds.
use smartcupleague.Prelude.{
  ℕ, ◌+◌, ◌≡◌, ap, ◌∙◌, sym, inl, inr, String, Option, some, Bool, true, false, ◌||◌, List, [], ◌∷◌,
  arith, sum_of, ◌==◌, string_eq, eq_iff, if◌then◌else◌, Bool-cases, Option-cases, lookup, or_else,
  lookup-insert, lookup-insert_at, lookup-insert_off, IsKeyed, IsKeyed-insert, IsKeyed-lookup,
}
use smartcupleague.Indexer.Entities.{UserStat, Bet}
use smartcupleague.Indexer.Events.{Score}
use smartcupleague.Indexer.State.{
  HandlerState, Delta, no_delta, apply_delta, new_stat, or_new, touch_user,
}
use smartcupleague.Indexer.Accuracy.{is_exact, is_outcome, as_count, touch_bets}

abbrev pub stat_key : UserStat → String
stat_key r = r.id

abbrev pub StatsAreKeyed : HandlerState → Type 0
StatsAreKeyed s = IsKeyed stat_key s.user_stats

-- A quantity of a row that `touchUser` only adds to.
pub record Tally : Type 0 where
  pub read : UserStat → ℕ
  pub added : Delta → ℕ
  pub starts : (u : String) → read (new_stat u) ≡ 0
  pub adds : (t : ℕ) (d : Delta) (r : UserStat) → read (apply_delta t d r) ≡ read r + added d

-- Is `u` among the users of the bets?
abbrev pub has_bet : String → List Bet → Bool
has_bet u [] = false
has_bet u (b ∷ bs) = b.user == u || has_bet u bs

abbrev pub accuracy_delta : Score → Option String → Bet → Delta
accuracy_delta final penalty b = record no_delta {
  add_exact = some (as_count (is_exact final b));
  add_outcome = some (as_count (is_outcome final penalty b));
}

module _ (row : Option UserStat) (u : String) where
  -- The row of `u`, with `row` for what the database holds.
  abbrev pub view : HandlerState → Option UserStat
  view s = or_else (lookup u s.user_stats) row

  -- A row that is counted on in memory is the row of the database, or there is none there.
  abbrev pub IsLoaded : HandlerState → Type 0
  IsLoaded s = view s ≡ lookup u s.user_stats

  module _ (g : Tally) where
    abbrev pub total : HandlerState → ℕ
    total s = g.read (or_new u (view s))

    pub total-touch :
        (v : String) (t : ℕ) (d : Delta) (s : HandlerState)
        → ((v == u) ≡ true → IsLoaded s)
        → total (touch_user v t d s) ≡ total s + (if v == u then g.added d else 0)
    unfolding touch_user
    total-touch v t d s h = elim (Bool-cases (v == u)) [
      | inl same ↦
          ap (λ o. g.read (or_new u (or_else o row))) (lookup-insert_at v u _ s.user_stats same)
          ∙ rw (same, (eq_iff v u).0 same) (g.adds t d (or_new u (lookup u s.user_stats)))
          ∙ ap (λ o. g.read (or_new u o) + (if v == u then g.added d else 0)) (sym (h same))
      | inr other ↦
          ap (λ o. g.read (or_new u (or_else o row))) (lookup-insert_off v u _ s.user_stats other)
          ∙ rw other (omega arith)
    ]

  pub touch-IsLoaded :
      (v : String) (t : ℕ) (d : Delta) (s : HandlerState)
      → IsLoaded s
      → IsLoaded (touch_user v t d s)
  unfolding touch_user
  touch-IsLoaded v t d s h =
      ground
        (arith, lookup-insert v u (apply_delta t d (or_new v (lookup v s.user_stats))) s.user_stats)

  pub total-touch_bets :
      (g : Tally) (final : Score) (penalty : Option String) (t : ℕ) (bets : List Bet)
      (s : HandlerState)
      → (has_bet u bets ≡ true → IsLoaded s)
      → total g (touch_bets final penalty t bets s)
        ≡ total g s
          + sum_of (λ b. if b.user == u then g.added (accuracy_delta final penalty b) else 0) bets
  unfolding touch_bets
  total-touch_bets g final penalty t [] s h = omega arith
  total-touch_bets g final penalty t (b ∷ bs) s h =
      total-touch_bets g final penalty t bs (touch_user b.user t (accuracy_delta final penalty b) s)
        (λ m. touch-IsLoaded b.user t _ s (h (ground arith)))
      ∙ rw (total-touch g b.user t (accuracy_delta final penalty b) s (λ e. h (ground arith)))
          (omega arith)

or_new-id :
    (v : String) (s : HandlerState) → StatsAreKeyed s → (or_new v (lookup v s.user_stats)).id ≡ v
or_new-id v s h = elim (Option-cases (lookup v s.user_stats)) [
  | inl e ↦ rw e
  | inr (r, e) ↦ rw e (IsKeyed-lookup stat_key v s.user_stats h e)
]

-- `touchUser` keeps every row under its own id.
pub touch-StatsAreKeyed :
    (v : String) (t : ℕ) (d : Delta) (s : HandlerState)
    → StatsAreKeyed s
    → StatsAreKeyed (touch_user v t d s)
unfolding touch_user apply_delta
touch-StatsAreKeyed v t d s h =
    IsKeyed-insert stat_key v (apply_delta t d (or_new v (lookup v s.user_stats))) s.user_stats
      (or_new-id v s h) h
