-- ===== src/Oracle/Server/Register.antt =====
-- The registration of matches (oracle-server/src/server.ts): the routes /bolao/register-phase,
-- /bolao/register-match, /match/register-both and /bolao/sweep-all-match-dust. A text of a request is
-- trimmed, a number is there where `Number` makes a non-negative integer of the field; /match/register-both lets a
-- fractional sports_api_id through as well, which is not modelled.
pub mod Tournament
pub mod Kept
pub mod Numbers
use smartcupleague.Prelude.{
  ℕ, ◌+◌, String, Option, none, some, Bool, true, false, not, ◌&&◌, ◌||◌, List, [], ◌∷◌, leb, ltb,
  nat_eq, string_eq, ◌==◌, if◌then◌else◌, is_nil, select,
}
use smartcupleague.Action.{
  Action, Result, ok, err, pure, throw, lift, failure, try_catch, message_of, ◌>>=◌, ◌>>◌,
}
use smartcupleague.Oracle.Server.State.{ServerMaps, Outside, BolaoMatch, outside, change_maps}
use smartcupleague.Oracle.Server.Mapping.{add_match_mapping, add_kick_off}
use smartcupleague.Oracle.Server.Mapping.Files.{save_match_mapping, save_kick_off_map, as_positive}

-- A text that is not empty.
unfoldable pub as_text : String → String → Result String
as_text message text = if text == "" then err (failure message) else ok text

-- `x ?? 1`
abbrev pub or_1 : Option (Option ℕ) → Option ℕ
or_1 none = some 1
or_1 (some given) = given

pub record PhaseBody : Type 0 where
  pub name : String
  pub start_time : Option ℕ
  pub end_time : Option ℕ
  pub points_weight : Option (Option ℕ)

pub record Phase : Type 0 where
  pub name : String
  pub start_time : ℕ
  pub end_time : ℕ
  pub points_weight : ℕ

-- A phase ends after it starts.
unfoldable pub check_span : String → ℕ → ℕ → Result (Unit {0})
check_span message start_time end_time =
    if leb end_time start_time then err (failure message) else ok tt

pub record MatchBody : Type 0 where
  pub home_team : String
  pub away_team : String
  pub kick_off : Option ℕ
  pub phase : String

pub record BothBody : Type 0 where
  pub phase : String
  pub home_team : String
  pub away_team : String
  pub kick_off : Option ℕ
  pub sports_api_id : Option ℕ
  pub next_bolao_id : Option ℕ

module _ {W : Type 0} where
  -- With the texts for a bad start, a bad end and an end that is not behind the start. The weight is
  -- one where the request has none.
  unfoldable pub read_phase : (bad_start bad_end bad_span : String) → PhaseBody → Action W Phase
  read_phase bad_start bad_end bad_span body = do
    name ← lift (as_text "name is required" body.name)
    start_time ← lift (as_positive bad_start body.start_time)
    end_time ← lift (as_positive bad_end body.end_time)
    lift (check_span bad_span start_time end_time)
    points_weight ←
        lift (as_positive "points_weight must be a positive integer" (or_1 body.points_weight))
    pure (record {
      name = name;
      start_time = start_time;
      end_time = end_time;
      points_weight = points_weight;
    })

-- A sweep's outcome: the matches that were swept, and those that failed with their errors.
abbrev pub Swept : Type 0
Swept = List ℕ × List (ℕ × String)

abbrev pub add_swept : ℕ → Option String → Swept → Swept
add_swept match_id none (swept, errors) = (match_id ∷ swept, errors)
add_swept match_id (some message) (swept, errors) = (swept, (match_id, message) ∷ errors)

module _ (b : Outside) where
  open b use {
    World, get_api, query_bolao, register_phase, register_bolao_match, register_oracle_match,
    sweep_match_dust, sleep,
  }

  unfoldable pub register_phase_route : PhaseBody → Action World Phase
  register_phase_route body = do
    phase ←
        read_phase "start_time must be a positive timestamp in ms"
          "end_time must be a positive timestamp in ms" "end_time must be greater than start_time"
          body
    get_api
    register_phase phase.name phase.start_time phase.end_time phase.points_weight
    pure phase

  unfoldable pub register_match_route : MatchBody → Action World (String × String × ℕ × String)
  register_match_route body = do
    home_team ← lift (as_text "home_team is required" body.home_team)
    away_team ← lift (as_text "away_team is required" body.away_team)
    kick_off ← lift (as_positive "kick_off must be a positive timestamp in ms" body.kick_off)
    phase ← lift (as_text "phase is required" body.phase)
    get_api
    register_bolao_match phase home_team away_team kick_off
    pure (home_team, away_team, kick_off, phase)

  -- The match is registered in BolaoCore, which gives it its own next number, and in Oracle-Program
  -- under the number of the request; then the numbers are kept.
  unfoldable pub register_in_both :
      (match_id sports_id : ℕ) (phase home_team away_team : String)
      → ℕ
      → Action (ServerMaps × World) (ℕ × ℕ)
  register_in_both match_id sports_id phase home_team away_team kick_off = do
    outside get_api
    outside (register_bolao_match phase home_team away_team kick_off)
    outside (register_oracle_match match_id phase home_team away_team kick_off)
    change_maps (λ t. add_kick_off match_id kick_off (add_match_mapping match_id sports_id t))
    save_match_mapping b
    save_kick_off_map b
    pure (match_id, sports_id)

  unfoldable pub register_both : BothBody → Action (ServerMaps × World) (ℕ × ℕ)
  register_both body = do
    phase ← lift (as_text "phase is required" body.phase)
    home_team ← lift (as_text "home_team is required" body.home_team)
    away_team ← lift (as_text "away_team is required" body.away_team)
    kick_off ← lift (as_positive "kick_off must be a positive ms timestamp" body.kick_off)
    sports_id ← lift (as_positive "sports_api_id must be a positive integer" body.sports_api_id)
    match_id ← lift (as_positive "next_bolao_id must be >= 1" body.next_bolao_id)
    register_in_both match_id sports_id phase home_team away_team kick_off

  -- The sweep of one match, with the error of one that fails.
  abbrev pub sweep_one : ℕ → Action World (Option String)
  sweep_one match_id =
      try_catch (sweep_match_dust match_id >> pure none) (λ e. pure (some (message_of e)))

  -- There are three seconds between two matches.
  abbrev pub pause : List BolaoMatch → Action World (Unit {0})
  pause [] = pure tt
  pause (m ∷ matches) = sleep 3_000

  unfoldable pub sweep_matches : List BolaoMatch → Action World Swept
  sweep_matches [] = pure ([], [])
  sweep_matches (m ∷ matches) = do
    error ← sweep_one m.match_id
    pause matches
    rest ← sweep_matches matches
    pure (add_swept m.match_id error rest)

  unfoldable pub can_sweep : BolaoMatch → Bool
  can_sweep m = m.settlement_prepared && not m.dust_swept

  unfoldable pub sweep_all_match_dust : Action World Swept
  sweep_all_match_dust = do
    get_api
    state ← query_bolao
    sweep_matches (select can_sweep state.matches)
