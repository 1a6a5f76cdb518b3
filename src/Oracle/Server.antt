-- ===== src/Oracle/Server.antt =====
-- The route /bolao/propose-result of the oracle server (oracle-server/src/server.ts): the proposal of a
-- match's result by the gateway.
pub mod Laws
pub mod State
pub mod Cache
pub mod Mapping
pub mod Feed
pub mod Pending
pub mod Finalize
pub mod Register
pub mod Admin
pub mod Start
mod Examples
use smartcupleague.Prelude.{
  ℕ, String, Option, none, some, Bool, true, false, not, ◌&&◌, List, [], ◌∷◌, ltb, if◌then◌else◌,
  nat_eq, string_eq, ◌==◌,
}
use smartcupleague.Action.{Action, Result, ok, err, failure, pure, throw, lift, ◌>>=◌, ◌>>◌}
use smartcupleague.Oracle.Result.{PenaltyWinner, home_wins, away_wins}

-- The body of the request: a number is there where `Number` makes a non-negative integer of the field,
-- and a penalty winner is missing where the field is null, undefined or empty.
pub record ProposeBody : Type 0 where
  pub match_id : Option ℕ
  pub home : Option ℕ
  pub away : Option ℕ
  pub penalty_winner : Option String

-- What the route reads of BolaoCore's state.
pub record StateMatch : Type 0 where
  pub state_match_id : ℕ
  pub phase : String

pub record StatePhase : Type 0 where
  pub phase_name : String
  pub points_weight : ℕ

pub record BolaoState : Type 0 where
  pub matches : List StateMatch
  pub phases : List StatePhase

pub record Gateway : Type 1 where
  pub World : Type 0
  pub get_api : Action World (Unit {0})
  pub query_state : Action World BolaoState
  pub send_propose_result :
      (match_id home away : ℕ) → Option PenaltyWinner → Action World (Unit {0})

unfoldable pub as_match_id : Option ℕ → Result ℕ
as_match_id none = err (failure "match_id must be an integer between 0 and 10000")
as_match_id (some n) =
    if ltb 10_000 n then err (failure "match_id must be an integer between 0 and 10000") else ok n

unfoldable pub as_goals : Option ℕ → Result ℕ
as_goals none = err (failure "goals must be 0–255")
as_goals (some n) = if ltb 255 n then err (failure "goals must be 0–255") else ok n

unfoldable pub as_penalty_winner : Option String → Result (Option PenaltyWinner)
as_penalty_winner none = ok none
as_penalty_winner (some x) =
    if x == "Home"
    then ok (some home_wins)
    else if x == "Away"
    then ok (some away_wins)
    else err (failure "penalty_winner must be \"Home\", \"Away\", or null")

abbrev pub find_match : ℕ → List StateMatch → Option StateMatch
find_match match_id [] = none
find_match match_id (m ∷ matches) =
    if m.state_match_id == match_id then some m else find_match match_id matches

-- The weight of the phase, 1 where it is not known.
abbrev pub weight_of : String → List StatePhase → ℕ
weight_of name [] = 1
weight_of name (p ∷ phases) =
    if p.phase_name == name then p.points_weight else weight_of name phases

-- The state has the match in a phase of the knockout.
unfoldable pub is_knockout : ℕ → BolaoState → Result Bool
is_knockout match_id state = elim (find_match match_id state.matches) [
  | none ↦ err (failure "match_id not found in BolaoCore")
  | some m ↦ ok (ltb 1 (weight_of m.phase state.phases))
]

module _ (b : Gateway) where
  open b use {World, get_api, query_state, send_propose_result}

  -- A penalty winner is for a draw of the knockout only.
  unfoldable pub check_draw : (home away : ℕ) → Option PenaltyWinner → Action World (Unit {0})
  check_draw home away none = pure tt
  check_draw home away (some winner) =
      if home == away
      then pure tt
      else throw (failure "penalty_winner must be null when score is not a draw")

  unfoldable pub check_phase : ℕ → Option PenaltyWinner → Action World (Unit {0})
  unfolding is_knockout
  check_phase match_id none = pure tt
  check_phase match_id (some winner) = do
    state ← query_state
    knockout ← lift (is_knockout match_id state)
    if knockout
        then pure tt
        else throw (failure "penalty_winner is not allowed for group-stage matches")

  -- After the fields are read.
  unfoldable pub send_checked :
      (match_id home away : ℕ)
      → Option PenaltyWinner
      → Action World (ℕ × ℕ × ℕ × Option PenaltyWinner)
  unfolding check_draw check_phase
  send_checked match_id home away winner = do
    check_draw home away winner
    get_api
    check_phase match_id winner
    send_propose_result match_id home away winner
    pure (match_id, home, away, winner)

  unfoldable pub propose_result : ProposeBody → Action World (ℕ × ℕ × ℕ × Option PenaltyWinner)
  unfolding as_match_id as_goals as_penalty_winner send_checked
  propose_result body = do
    match_id ← lift (as_match_id body.match_id)
    home ← lift (as_goals body.home)
    away ← lift (as_goals body.away)
    winner ← lift (as_penalty_winner body.penalty_winner)
    send_checked match_id home away winner
