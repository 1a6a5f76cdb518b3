-- ===== src/Indexer/Accuracy.antt =====
-- `projectAccuracyForMatch` and `onResultFinalized` (indexer/src/handlers/bolao.ts): the exact
-- scores and the outcomes of the bets on a finalized match are counted for their users.
use smartcupleague.Prelude.{
  ℕ, String, Option, none, some, Bool, true, false, not, ◌&&◌, List, [], ◌∷◌, ◌==◌, nat_eq,
  string_eq, if◌then◌else◌, select, lookup, modify, insert_all, values,
}
use smartcupleague.Indexer.Entities.{Bet, finalized}
use smartcupleague.Indexer.Events.{Score}
use smartcupleague.Indexer.Outcome.{Outcome, score_outcome}
use smartcupleague.Indexer.State.{HandlerState, no_delta, add_to_set, touch_user}
use smartcupleague.Indexer.Store.{Store}
use smartcupleague.Indexer.Preload.{preload_user_stats}

-- The users of the bets whose stats are not in memory.
unfoldable pub users_to_load : HandlerState → List Bet → List String → List String
users_to_load s [] users = users
users_to_load s (bet ∷ bets) users =
    users_to_load s bets
      (elim (lookup bet.user s.user_stats) [ none ↦ add_to_set bet.user users | some _ ↦ users ])

abbrev pub is_exact : Score → Bet → Bool
is_exact final bet = bet.score_home == final.home && bet.score_away == final.away

abbrev pub outcome_eq : Outcome → Outcome → Bool
outcome_eq Outcome.home Outcome.home = true
outcome_eq Outcome.draw Outcome.draw = true
outcome_eq Outcome.away Outcome.away = true
outcome_eq _ _ = false

-- The bet has the outcome of the match, and not its score.
unfoldable pub is_outcome : Score → Option String → Bet → Bool
is_outcome final penalty bet =
    not (is_exact final bet)
    && outcome_eq (score_outcome bet.score_home bet.score_away bet.penalty_winner)
        (score_outcome final.home final.away penalty)

abbrev pub as_count : Bool → ℕ
as_count b = if b then 1 else 0

-- The loop over the bets of the match.
unfoldable pub touch_bets : Score → Option String → ℕ → List Bet → HandlerState → HandlerState
touch_bets final penalty timestamp [] s = s
touch_bets final penalty timestamp (bet ∷ bets) s = touch_bets final penalty timestamp bets (
    touch_user bet.user timestamp
      (record no_delta {
        add_exact = some (as_count (is_exact final bet));
        add_outcome = some (as_count (is_outcome final penalty bet));
      })
      s)

-- The bets of a match: those of the database, and over them those of the batch.
unfoldable pub bets_of : ℕ → List Bet → HandlerState → List Bet
bets_of match_id db_bets s = values (
    insert_all (λ b. b.id) (select (λ b. b.match_id == match_id) (values s.bets))
      (insert_all (λ b. b.id) db_bets []))

-- The match's own change.
unfoldable pub mark_finalized : ℕ → Score → Option String → ℕ → HandlerState → HandlerState
mark_finalized match_id score penalty timestamp s = record s {
  matches =
      modify match_id
        (λ m. record m {
          status = finalized;
          score_home = some score.home;
          score_away = some score.away;
          penalty_winner = penalty;
          updated_at = timestamp;
        })
        s.matches;
}

module _ (store : Store) where
  open store use {Db, find_bets}

  -- `none`: a query failed, and nothing has been counted.
  unfoldable pub project_accuracy_for_match :
      ℕ → Score → Option String → ℕ → Db → HandlerState → Option HandlerState
  project_accuracy_for_match match_id final penalty timestamp db s = elim (find_bets match_id db) [
    | none ↦ none
    | some db_bets ↦
        let bets = bets_of match_id db_bets s in
        elim (preload_user_stats store (users_to_load s bets []) db s) [
          | none ↦ none
          | some loaded ↦ some (touch_bets final penalty timestamp bets loaded)
        ]
  ]

  -- The state in which the event leaves the batch, and whether it returned. What was written
  -- before an error stays written.
  unfoldable pub on_result_finalized :
      ℕ → Score → Option String → ℕ → Db → HandlerState → HandlerState × Bool
  on_result_finalized match_id score penalty timestamp db s =
      let s' = mark_finalized match_id score penalty timestamp s in
      elim (project_accuracy_for_match match_id score penalty timestamp db s') [
        | none ↦ (s', false)
        | some s'' ↦ (s'', true)
      ]
