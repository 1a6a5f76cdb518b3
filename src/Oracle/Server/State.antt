-- ===== src/Oracle/Server/State.antt =====
-- What the oracle server keeps in memory (oracle-server/src/server.ts) and what stands outside of it: the
-- files, the football data service, the chain and the clock. A text that is missing is empty, a
-- date is its time in milliseconds, and the messages that are logged are left out.
use smartcupleague.Prelude.{ℕ, String, Bool, Option, List, JsMap}
use smartcupleague.Action.{Action, Result, ok}
use smartcupleague.Oracle.Result.{FeedScore, PenaltyWinner}
use smartcupleague.Oracle.Finalization.{OracleStatus}

pub record SportMatch : Type 0 where
  pub id : ℕ
  pub status : String
  pub score : FeedScore

pub record Team : Type 0 where
  pub name : String
  pub short_name : String
  pub crest : String

pub record Fixture : Type 0 where
  pub id : ℕ
  pub utc_date : ℕ
  pub status : String
  pub stage : String
  pub home_team : Team
  pub away_team : Team
  pub score : FeedScore

-- A match as Oracle-Program has it registered, with the result once it has one.
pub record OracleResult : Type 0 where
  pub home_goals : ℕ
  pub away_goals : ℕ
  pub penalty_winner : Option PenaltyWinner

pub record ChainMatch : Type 0 where
  pub match_id : ℕ
  pub home : String
  pub away : String
  pub kick_off : ℕ
  pub status : OracleStatus
  pub final_result : Option OracleResult
  pub submissions : ℕ

-- The result of a match in BolaoCore: a proposal has its goals and its time.
pub data MatchResult : Type 0 where
  unresolved_result : MatchResult
  proposed_result : (home away proposed_at : ℕ) → MatchResult
  finalized_result : (home away : ℕ) → MatchResult

pub record BolaoMatch : Type 0 where
  pub match_id : ℕ
  pub home : String
  pub away : String
  pub phase : String
  pub kick_off : ℕ
  pub result : MatchResult
  pub settlement_prepared : Bool
  pub dust_swept : Bool

-- The weight of a phase is missing where the contract has none.
pub record BolaoPhase : Type 0 where
  pub name : String
  pub points_weight : Option ℕ

pub record BolaoContract : Type 0 where
  pub matches : List BolaoMatch
  pub phases : List BolaoPhase

pub record CacheEntry (A : Type 0) : Type 0 where
  pub data_of : A
  pub expires_at : ℕ

-- The maps of the module. The cache has one map for the matches, by their numbers, and one for the
-- lists of fixtures, by their keys.
pub record ServerMaps : Type 0 where
  pub match_id_to_sports_id : JsMap ℕ ℕ
  pub sports_id_to_match_id : JsMap ℕ ℕ
  pub kick_off_map : JsMap ℕ ℕ
  pub match_cache : JsMap ℕ (CacheEntry SportMatch)
  pub fixture_cache : JsMap String (CacheEntry (List Fixture))
  pub crests : JsMap String String

-- A call to a contract that changes its settings or the result of a match.
pub data AdminCall : Type 0 where
  force_finalize_result : (match_id home away : ℕ) → Option PenaltyWinner → AdminCall
  cancel_result : ℕ → AdminCall
  set_feeder_authorized : String → Bool → AdminCall
  set_consensus_threshold : ℕ → AdminCall
  set_bolao_program : String → AdminCall
  propose_admin : String → AdminCall
  accept_admin : AdminCall
  add_oracle_operator remove_oracle_operator : String → AdminCall
  add_admin remove_admin : String → AdminCall
  add_bolao_operator remove_bolao_operator : String → AdminCall
  set_treasury : String → AdminCall

-- The keys of an object whose names are numbers, with its values, as `Object.entries` lists them.
abbrev pub Entries : Type 0
Entries = List (ℕ × ℕ)

-- The calls of code that is not the server's. A file that is missing reads as none; a call of a
-- program is the building, signing and sending of its transaction.
pub record Outside : Type 1 where
  pub World : Type 0
  pub clock : World → ℕ
  pub read_mapping : Action World (Option Entries)
  pub write_mapping : Entries → Action World (Unit {0})
  pub read_kick_offs : Action World (Option Entries)
  pub write_kick_offs : Entries → Action World (Unit {0})
  pub get_match : ℕ → Action World SportMatch
  pub get_fixtures : Option String → Action World (List Fixture)
  pub get_api : Action World (Unit {0})
  pub query_all_results : Action World (List ChainMatch)
  pub query_pending_matches : Action World (List ℕ)
  pub decode_address : String → Result String
  pub send_call : AdminCall → Action World (Unit {0})
  pub query_bolao : Action World BolaoContract
  pub propose_from_oracle : ℕ → Action World (Unit {0})
  pub finalize_result : ℕ → Action World (Unit {0})
  pub cancel_proposed_result : ℕ → Action World (Unit {0})
  pub submit_result : (match_id home away : ℕ) → Option PenaltyWinner → Action World (Unit {0})
  pub sweep_match_dust : ℕ → Action World (Unit {0})
  pub sleep : ℕ → Action World (Unit {0})
  pub register_phase : String → (start_time end_time weight : ℕ) → Action World (Unit {0})
  pub register_bolao_match : (phase home_team away_team : String) → ℕ → Action World (Unit {0})
  pub register_oracle_match : ℕ → (phase home_team away_team : String) → ℕ → Action World (Unit {0})

module _ {W : Type 0} where
  -- A call that leaves the memory as it is.
  abbrev pub outside : {A : Type 0} → Action W A → Action (ServerMaps × W) A
  outside m (t, w) = ((m w).0, (t, (m w).1))

  abbrev pub change_maps : (ServerMaps → ServerMaps) → Action (ServerMaps × W) (Unit {0})
  change_maps f (t, w) = (ok tt, (f t, w))

  abbrev pub memory : Action (ServerMaps × W) ServerMaps
  memory (t, w) = (ok t, (t, w))
