-- ===== src/Indexer/Stats/Fold.antt =====
-- A user's totals after one message.
use smartcupleague.Prelude.{
  ℕ, ◌+◌, ◌≡◌, refl, ap, ◌∙◌, sym, ◌⊎◌, inl, inr, String, Option, none, some, Bool, true, false,
  List, [], ◌∷◌, arith, ◌==◌, string_eq, if◌then◌else◌, Option-cases, lookup, or_else, subst,
  IsKeyed,
}
use smartcupleague.Indexer.Entities.{UserStat, Bet}
use smartcupleague.Indexer.Events.{Score, Payload}
use smartcupleague.Indexer.State.{HandlerState, Delta, or_new, no_delta, touch_user, on_activity}
use smartcupleague.Indexer.Handlers.{
  on_match_registered, on_bet_accepted, on_result_proposed, on_settlement_prepared,
  on_points_awarded, on_match_reward_claimed, on_final_prize_claimed, on_match_cancelled,
  on_refund_claimed,
}
use smartcupleague.Indexer.Store.{Store, StatLaws}
use smartcupleague.Indexer.Accuracy.{
  project_accuracy_for_match, mark_finalized, on_result_finalized, bets_of,
}
use smartcupleague.Indexer.Process.{project}
use smartcupleague.Indexer.Stats.Touch.{
  Tally, stat_key, IsLoaded, StatsAreKeyed, accuracy_delta, total, total-touch, touch-IsLoaded,
  touch-StatsAreKeyed,
}
use smartcupleague.Indexer.Stats.Accuracy.{
  earned, projection-total, projection-IsLoaded, projection-StatsAreKeyed,
}

-- The user whose row a message changes by itself, and the change.
abbrev pub touch_of : Payload → Option (String × Delta)
touch_of (Payload.bet_accepted user m score penalty stake) =
    some (user, record no_delta { add_bet = true; add_stake = some stake })
touch_of (Payload.points_awarded user m points) =
    some (user, record no_delta { add_points = some points })
touch_of (Payload.match_reward_claimed m user amount) =
    some (user, record no_delta { add_claimed = some amount })
touch_of (Payload.final_prize_claimed user amount) =
    some (user, record no_delta { add_final_prize = some amount })
touch_of (Payload.podium_bonus_awarded user bonus) =
    some (user, record no_delta { add_points = some bonus })
touch_of (Payload.refund_claimed user amount) =
    some (user, record no_delta { add_refund = some amount })
touch_of _ = none

abbrev pub touch_by : Option (String × Delta) → ℕ → HandlerState → HandlerState
touch_by none t s = s
touch_by (some (v, d)) t s = touch_user v t d s

abbrev pub touches : String → Option (String × Delta) → Bool
touches u none = false
touches u (some (v, d)) = v == u

abbrev pub gain : Tally → String → Option (String × Delta) → ℕ
gain g u none = 0
gain g u (some (v, d)) = if v == u then g.added d else 0

abbrev pub is_result : Payload → Bool
is_result (Payload.result_finalized m score penalty) = true
is_result _ = false

-- But for the final result of a match, a message changes the stats by its own touch only.
pub project-touch :
    (store : Store) (p : Payload) (id : String) (b t : ℕ) (db : store.Db) (s : HandlerState)
    → is_result p ≡ false
    → (project store p id b t db s).0.user_stats ≡ (touch_by (touch_of p) t s).user_stats
unfolding project on_match_registered on_bet_accepted on_result_proposed on_settlement_prepared
    on_points_awarded on_match_reward_claimed on_final_prize_claimed on_match_cancelled
    on_refund_claimed on_activity touch_user
project-touch store (Payload.result_finalized m score penalty) id b t db s h = cc
project-touch store (Payload.bet_accepted u m score penalty stake) id b t db s h = refl
project-touch store _ id b t db s h = refl

Payload-cases :
    (p : Payload)
    → (is_result p ≡ false)
      ⊎ ((m : ℕ) × (final : Score) × (penalty : Option String) × (p
            ≡ Payload.result_finalized m final penalty))
Payload-cases (Payload.result_finalized m score penalty) = inr (m, score, penalty, refl)
Payload-cases _ = inl refl

abbrev pub IsQuiet : Tally → Type 0
IsQuiet g =
    (final : Score) (penalty : Option String) (b : Bet)
    → g.added (accuracy_delta final penalty b) ≡ 0

earned_quiet :
    (g : Tally) (u : String) (final : Score) (penalty : Option String) (bets : List Bet)
    → IsQuiet g
    → earned g u final penalty bets ≡ 0
earned_quiet g u final penalty [] q = refl
earned_quiet g u final penalty (b ∷ bs) q =
    ground (arith, earned_quiet g u final penalty bs q, q final penalty b)

module _ (store : Store) (laws : StatLaws store) (u : String) (db : store.Db) where
  abbrev row : Option UserStat
  row = laws.stat db u

  module _ (m : ℕ) (final : Score) (penalty : Option String) (t : ℕ) (s : HandlerState) where
    result_cases :
        ((on_result_finalized store m final penalty t db s).0 ≡ mark_finalized m final penalty t s)
        ⊎ ((s' : HandlerState) × (project_accuracy_for_match store m final penalty t db
                (mark_finalized m final penalty t s)
              ≡ some s')
            × ((on_result_finalized store m final penalty t db s).0 ≡ s'))
    unfolding on_result_finalized
    result_cases =
        elim (Option-cases (
          project_accuracy_for_match store m final penalty t db
            (mark_finalized m final penalty t s))) [
              | inl e ↦ inl (rw (e, on_result_finalized))
              | inr (s', e) ↦ inr (s', e, rw (e, on_result_finalized))
            ]

    result-total :
        (g : Tally)
        → IsQuiet g
        → total row u g (on_result_finalized store m final penalty t db s).0 ≡ total row u g s
    unfolding mark_finalized
    result-total g q = elim result_cases [
      | inl e ↦ ap (total row u g) e
      | inr (s', projected, e) ↦
          let (bets, found, counted) =
            projection-total store laws u db m final penalty t _ s' projected g in
          ap (total row u g) e
          ∙ omega (
            arith,
            counted,
            earned_quiet g u final penalty (bets_of m bets (mark_finalized m final penalty t s)) q,
          )
    ]

    result-IsLoaded :
        IsLoaded row u s → IsLoaded row u (on_result_finalized store m final penalty t db s).0
    unfolding mark_finalized
    result-IsLoaded h = elim result_cases [
      | inl e ↦ rw e h
      | inr (s', projected, e) ↦
          rw e (projection-IsLoaded store laws u db m final penalty t _ s' projected h)
    ]

    result-StatsAreKeyed :
        StatsAreKeyed s → StatsAreKeyed (on_result_finalized store m final penalty t db s).0
    unfolding mark_finalized
    result-StatsAreKeyed h = elim result_cases [
      | inl e ↦ rw e h
      | inr (s', projected, e) ↦
          rw e (projection-StatsAreKeyed store laws u db m final penalty t _ s' projected h)
    ]

  touch_by-total :
      (g : Tally) (o : Option (String × Delta)) (t : ℕ) (s : HandlerState)
      → (touches u o ≡ true → IsLoaded row u s)
      → total row u g (touch_by o t s) ≡ total row u g s + gain g u o
  touch_by-total g none t s h = omega arith
  touch_by-total g (some (v, d)) t s h = total-touch row u g v t d s h

  touch_by-IsLoaded :
      (o : Option (String × Delta)) (t : ℕ) (s : HandlerState)
      → IsLoaded row u s
      → IsLoaded row u (touch_by o t s)
  touch_by-IsLoaded none t s h = h
  touch_by-IsLoaded (some (v, d)) t s h = touch-IsLoaded row u v t d s h

  touch_by-StatsAreKeyed :
      (o : Option (String × Delta)) (t : ℕ) (s : HandlerState)
      → StatsAreKeyed s
      → StatsAreKeyed (touch_by o t s)
  touch_by-StatsAreKeyed none t s h = h
  touch_by-StatsAreKeyed (some (v, d)) t s h = touch-StatsAreKeyed v t d s h

  module _ (id : String) (b t : ℕ) (s : HandlerState) where
    abbrev after : Payload → HandlerState
    after p = (project store p id b t db s).0

    pub project-total :
        (g : Tally) (p : Payload)
        → IsQuiet g
        → (touches u (touch_of p) ≡ true → IsLoaded row u s)
        → total row u g (after p) ≡ total row u g s + gain g u (touch_of p)
    project-total g p q h = elim (Payload-cases p) [
      | inl e ↦
          ap (λ x. g.read (or_new u (or_else (lookup u x) row)))
            (project-touch store p id b t db s e)
          ∙ touch_by-total g (touch_of p) t s h
      | inr (m, final, penalty, e) ↦
          rw e (unfold project in result-total m final penalty t s g q ∙ omega arith)
    ]

    pub project-IsLoaded : (p : Payload) → IsLoaded row u s → IsLoaded row u (after p)
    project-IsLoaded p h = elim (Payload-cases p) [
      | inl e ↦
          subst (λ x. or_else (lookup u x) row ≡ lookup u x)
            (sym (project-touch store p id b t db s e)) (touch_by-IsLoaded (touch_of p) t s h)
      | inr (m, final, penalty, e) ↦ rw e (unfold project in result-IsLoaded m final penalty t s h)
    ]

    pub project-StatsAreKeyed : (p : Payload) → StatsAreKeyed s → StatsAreKeyed (after p)
    project-StatsAreKeyed p h = elim (Payload-cases p) [
      | inl e ↦
          subst (λ x. IsKeyed stat_key x) (sym (project-touch store p id b t db s e))
            (touch_by-StatsAreKeyed (touch_of p) t s h)
      | inr (m, final, penalty, e) ↦
          rw e (unfold project in result-StatsAreKeyed m final penalty t s h)
    ]
