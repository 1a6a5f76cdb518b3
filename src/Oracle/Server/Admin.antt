-- ===== src/Oracle/Server/Admin.antt =====
-- The routes of the oracle server (oracle-server/src/server.ts) that check a request and send one call
-- to a contract: the results, the matches and the settings of Oracle-Program, the admins, operators
-- and treasury of BolaoCore, and /setup/register-match. A text is trimmed where
-- the route trims it, and the keys that sign are left out.
use Prim.Native.String.{◌++◌ as append}
use smartcupleague.Prelude.{
  ℕ, suc, String, Option, none, some, Bool, false, ◌&&◌, ltb, nat_eq, string_eq, ◌==◌,
  if◌then◌else◌,
}
use smartcupleague.Action.{Action, Result, ok, err, failure, pure, lift, ◌>>=◌, ◌>>◌}
use smartcupleague.Oracle.Result.{PenaltyWinner}
use smartcupleague.Oracle.Server.{as_match_id, as_penalty_winner}
use smartcupleague.Oracle.Server.State.{
  Outside, AdminCall, force_finalize_result, cancel_result, set_feeder_authorized,
  set_consensus_threshold, set_bolao_program, propose_admin, accept_admin, add_oracle_operator,
  remove_oracle_operator, add_admin, remove_admin, add_bolao_operator, remove_bolao_operator,
  set_treasury,
}
use smartcupleague.Oracle.Server.Mapping.Files.{as_positive}
use smartcupleague.Oracle.Server.Register.{as_text}

-- A text that starts with "0x".
abbrev starts_0x : String → Bool
starts_0x (String.◌∷◌ a (String.◌∷◌ c rest)) = String.◌∷◌ a (String.◌∷◌ c String.[]) == "0x"
starts_0x (String.◌∷◌ a String.[]) = false
starts_0x String.[] = false

unfoldable pub text_length : String → ℕ
text_length String.[] = 0
text_length (String.◌∷◌ c rest) = suc (text_length rest)

unfoldable pub goals_in_range : String → Option ℕ → Result ℕ
goals_in_range field none = err (failure (append field " must be 0–255"))
goals_in_range field (some n) =
    if ltb 255 n then err (failure (append field " must be 0–255")) else ok n

-- An integer from 1 to 20.
unfoldable pub as_threshold : Option ℕ → Result ℕ
as_threshold none = err (failure "threshold must be an integer 1–20")
as_threshold (some n) =
    if ltb 0 n && ltb n 21 then ok n else err (failure "threshold must be an integer 1–20")

unfoldable pub as_boolean : Option Bool → Result Bool
as_boolean none = err (failure "authorized must be boolean")
as_boolean (some yes_) = ok yes_

-- A penalty winner is for a draw only.
unfoldable pub check_winner : (home away : ℕ) → Option PenaltyWinner → Result (Unit {0})
check_winner home away none = ok tt
check_winner home away (some winner) =
    if home == away
    then ok tt
    else err (failure "penalty_winner must be null when score is not a draw")

pub record ResultBody : Type 0 where
  pub match_id : Option ℕ
  pub home : Option ℕ
  pub away : Option ℕ
  pub penalty_winner : Option String

pub record OracleMatchBody : Type 0 where
  pub match_id : Option ℕ
  pub phase : String
  pub home : String
  pub away : String
  pub kick_off : Option ℕ

module _ (b : Outside) where
  open b use {
    World, get_api, decode_address, send_call, submit_result, register_oracle_match,
    register_bolao_match,
  }

  unfoldable pub to_hex_address : String → Result String
  to_hex_address text =
      if starts_0x text && (text_length text == 66) then ok text else decode_address text

  unfoldable pub as_actor_id : String → String → Result String
  as_actor_id field text =
      if text == "" then err (failure (append field " is required")) else to_hex_address text

  abbrev send_one : AdminCall → Action World (Unit {0})
  send_one call = get_api >> send_call call

  -- The routes with one account.
  abbrev actor_route : (String → AdminCall) → String → String → Action World String
  actor_route call field text = do
    actor ← lift (as_actor_id field text)
    send_one (call actor)
    pure actor

  unfoldable pub set_bolao_program_route : String → Action World String
  set_bolao_program_route = actor_route set_bolao_program "program_id"

  unfoldable pub propose_admin_route : String → Action World String
  propose_admin_route = actor_route propose_admin "new_admin"

  unfoldable pub accept_admin_route : Action World (Unit {0})
  accept_admin_route = send_one accept_admin

  unfoldable pub add_oracle_operator_route : String → Action World String
  add_oracle_operator_route = actor_route add_oracle_operator "operator"

  unfoldable pub remove_oracle_operator_route : String → Action World String
  remove_oracle_operator_route = actor_route remove_oracle_operator "operator"

  unfoldable pub add_admin_route : String → Action World String
  add_admin_route = actor_route add_admin "new_admin"

  unfoldable pub remove_admin_route : String → Action World String
  remove_admin_route = actor_route remove_admin "admin"

  unfoldable pub add_bolao_operator_route : String → Action World String
  add_bolao_operator_route = actor_route add_bolao_operator "operator"

  unfoldable pub remove_bolao_operator_route : String → Action World String
  remove_bolao_operator_route = actor_route remove_bolao_operator "operator"

  unfoldable pub set_treasury_route : String → Action World String
  set_treasury_route = actor_route set_treasury "treasury"

  unfoldable pub set_feeder_route : String → Option Bool → Action World (String × Bool)
  set_feeder_route text given = do
    feeder ← lift (as_actor_id "feeder" text)
    authorized ← lift (as_boolean given)
    send_one (set_feeder_authorized feeder authorized)
    pure (feeder, authorized)

  unfoldable pub set_threshold_route : Option ℕ → Action World ℕ
  set_threshold_route given = do
    threshold ← lift (as_threshold given)
    send_one (set_consensus_threshold threshold)
    pure threshold

  unfoldable pub cancel_result_route : Option ℕ → Action World ℕ
  cancel_result_route given = do
    match_id ← lift (as_match_id given)
    send_one (cancel_result match_id)
    pure match_id

  -- The checks that the two routes with a result share.
  unfoldable pub read_result : ResultBody → Action World (ℕ × ℕ × ℕ × Option PenaltyWinner)
  read_result body = do
    match_id ← lift (as_match_id body.match_id)
    home ← lift (goals_in_range "home" body.home)
    away ← lift (goals_in_range "away" body.away)
    winner ← lift (as_penalty_winner body.penalty_winner)
    lift (check_winner home away winner)
    pure (match_id, home, away, winner)

  unfoldable pub force_finalize_route : ResultBody → Action World ℕ
  force_finalize_route body = do
    (match_id, home, away, winner) ← read_result body
    send_one (force_finalize_result match_id home away winner)
    pure match_id

  unfoldable pub submit_result_route : ResultBody → Action World (ℕ × ℕ × ℕ × Option PenaltyWinner)
  submit_result_route body = do
    (match_id, home, away, winner) ← read_result body
    get_api
    submit_result match_id home away winner
    pure (match_id, home, away, winner)

  unfoldable pub register_oracle_route : OracleMatchBody → Action World ℕ
  register_oracle_route body = do
    match_id ← lift (as_match_id body.match_id)
    phase ← lift (as_text "phase is required" body.phase)
    home ← lift (as_text "home is required" body.home)
    away ← lift (as_text "away is required" body.away)
    kick_off ← lift (as_positive "kick_off is required" body.kick_off)
    get_api
    register_oracle_match match_id phase home away kick_off
    pure match_id

  -- /setup/register-match: the number is that of the request, whichever BolaoCore gives.
  unfoldable pub setup_register_match : OracleMatchBody → Action World ℕ
  setup_register_match body = do
    phase ← lift (as_text "phase is required" body.phase)
    home ← lift (as_text "home_team is required" body.home)
    away ← lift (as_text "away_team is required" body.away)
    kick_off ← lift (as_positive "kick_off must be a positive timestamp in ms" body.kick_off)
    match_id ← lift (as_match_id body.match_id)
    get_api
    register_bolao_match phase home away kick_off
    register_oracle_match match_id phase home away kick_off
    pure match_id
