-- ===== src/Indexer/Outcome.antt =====
-- `normalizePenaltyWinner` and `scoreOutcome` of indexer/src/handlers/bolao.ts.
pub mod Feed
pub mod Laws
use smartcupleague.Prelude.{
  ℕ, String, Option, none, some, ltb, ◌==◌, string_eq, if◌then◌else◌, to_lower_case,
}

pub data PenaltyWinner : Type 0 where
  home_wins away_wins : PenaltyWinner

pub data Outcome : Type 0 where
  home draw away : Outcome

unfoldable pub normalize_penalty_winner : Option String → Option PenaltyWinner
normalize_penalty_winner none = none
normalize_penalty_winner (some value) =
    if value == ""
    then none
    else if to_lower_case value == "home"
    then some home_wins
    else if to_lower_case value == "away"
    then some away_wins
    else none

abbrev pub penalty_outcome : Option PenaltyWinner → Outcome
penalty_outcome none = draw
penalty_outcome (some home_wins) = home
penalty_outcome (some away_wins) = away

unfoldable pub score_outcome : ℕ → ℕ → Option String → Outcome
score_outcome score_home score_away penalty_winner =
    if ltb score_away score_home
    then home
    else if ltb score_home score_away
    then away
    else penalty_outcome (normalize_penalty_winner penalty_winner)
