-- ===== src/Oracle/Server/Pending.antt =====
-- The matches that wait for their result (oracle-server/src/server.ts): the entry that is derived for a
-- match, and the routes /bolao/pending-finalization and /bolao/match-status.
pub mod Laws
use Prim.Native.String.{◌++◌ as append}
use smartcupleague.Prelude.{
  ℕ, ◌+◌, String, Option, none, some, Bool, true, false, not, ◌&&◌, List, [], ◌∷◌, map, leb, ltb,
  nat_eq, string_eq, ◌==◌, if◌then◌else◌, JsMap, lookup, insert, insert_all, select,
}
use smartcupleague.Action.{
  Action, Result, ok, err, pure, throw, lift, failure, try_catch, message_of, ◌>>=◌, ◌>>◌,
}
use smartcupleague.Oracle.Result.{PenaltyWinner}
use smartcupleague.Oracle.Finalization.{
  BolaoStatus, unresolved, proposed, OracleStatus, CaseLabel, classify_match, available_actions_for,
}
use smartcupleague.Oracle.Server.{as_match_id}
use smartcupleague.Oracle.Server.State.{
  Outside, ChainMatch, OracleResult, MatchResult, unresolved_result, proposed_result,
  finalized_result, BolaoMatch, BolaoPhase, BolaoContract,
}

pub record PendingMatchEntry : Type 0 where
  pub match_id : ℕ
  pub home : String
  pub away : String
  pub phase : String
  pub kick_off : ℕ
  pub bolao_status : BolaoStatus
  pub bolao_proposed_score : Option (ℕ × ℕ)
  pub bolao_proposed_deadline : Option ℕ
  pub oracle_status : Option OracleStatus
  pub oracle_score : Option (ℕ × ℕ)
  pub oracle_penalty_winner : Option PenaltyWinner
  pub oracle_submissions : ℕ
  pub case_label : CaseLabel
  pub available_actions : List String
  pub null_join : Bool
  pub is_knockout : Bool

-- A result that is not a proposal counts as unresolved.
unfoldable pub bolao_status_of : MatchResult → BolaoStatus
bolao_status_of (proposed_result home away proposed_at) = proposed
bolao_status_of unresolved_result = unresolved
bolao_status_of (finalized_result home away) = unresolved

abbrev proposed_score : MatchResult → Option (ℕ × ℕ)
proposed_score (proposed_result home away proposed_at) = some (home, away)
proposed_score unresolved_result = none
proposed_score (finalized_result home away) = none

abbrev proposed_deadline : ℕ → MatchResult → Option ℕ
proposed_deadline challenge_window_ms (proposed_result home away proposed_at) =
    some (proposed_at + challenge_window_ms)
proposed_deadline challenge_window_ms unresolved_result = none
proposed_deadline challenge_window_ms (finalized_result home away) = none

-- The fields of the oracle's entry, when there is one.
abbrev entry_status : Option ChainMatch → Option OracleStatus
entry_status none = none
entry_status (some e) = some e.status

abbrev result_score : Option OracleResult → Option (ℕ × ℕ)
result_score none = none
result_score (some r) = some (r.home_goals, r.away_goals)

abbrev result_winner : Option OracleResult → Option PenaltyWinner
result_winner none = none
result_winner (some r) = r.penalty_winner

abbrev entry_result : Option ChainMatch → Option OracleResult
entry_result none = none
entry_result (some e) = e.final_result

abbrev entry_submissions : Option ChainMatch → ℕ
entry_submissions none = 0
entry_submissions (some e) = e.submissions

abbrev is_missing : Option ChainMatch → Bool
is_missing none = true
is_missing (some e) = false

abbrev weight_or_1 : Option ℕ → ℕ
weight_or_1 none = 1
weight_or_1 (some weight) = weight

unfoldable pub phase_map : List BolaoPhase → JsMap String ℕ → JsMap String ℕ
phase_map [] m = m
phase_map (p ∷ phases) m = phase_map phases (insert p.name (weight_or_1 p.points_weight) m)

unfoldable pub derive_pending_match :
    ℕ → BolaoMatch → Option ChainMatch → JsMap String ℕ → PendingMatchEntry
unfolding bolao_status_of
derive_pending_match challenge_window_ms m entry phases =
    let label =
      classify_match (bolao_status_of m.result) (entry_status entry) (entry_submissions entry) in
    record {
      match_id = m.match_id;
      home = m.home;
      away = m.away;
      phase = m.phase;
      kick_off = m.kick_off;
      bolao_status = bolao_status_of m.result;
      bolao_proposed_score = proposed_score m.result;
      bolao_proposed_deadline = proposed_deadline challenge_window_ms m.result;
      oracle_status = entry_status entry;
      oracle_score = result_score (entry_result entry);
      oracle_penalty_winner = result_winner (entry_result entry);
      oracle_submissions = entry_submissions entry;
      case_label = label;
      available_actions = available_actions_for label;
      null_join = is_missing entry;
      is_knockout = ltb 1 (weight_or_1 (lookup m.phase phases));
    }

abbrev pub is_finalized : MatchResult → Bool
is_finalized (finalized_result home away) = true
is_finalized unresolved_result = false
is_finalized (proposed_result home away proposed_at) = false

-- The match has been played and is not finalized.
unfoldable pub is_pending : ℕ → BolaoMatch → Bool
is_pending now m = not (leb now m.kick_off) && not (is_finalized m.result)

unfoldable pub pending_entries :
    (challenge_window_ms now : ℕ) → BolaoContract → List ChainMatch → List PendingMatchEntry
pending_entries challenge_window_ms now state results =
    map
      (λ m.
        derive_pending_match challenge_window_ms m
          (lookup m.match_id (insert_all (λ (e : ChainMatch). e.match_id) results []))
          (phase_map state.phases []))
      (select (is_pending now) state.matches)

unfoldable pub find_bolao : ℕ → List BolaoMatch → Option BolaoMatch
find_bolao match_id [] = none
find_bolao match_id (m ∷ matches) =
    if m.match_id == match_id then some m else find_bolao match_id matches

unfoldable pub find_result : ℕ → List ChainMatch → Option ChainMatch
find_result match_id [] = none
find_result match_id (r ∷ results) =
    if r.match_id == match_id then some r else find_result match_id results

abbrev status_found :
    ℕ → ℕ → Option BolaoMatch → BolaoContract → List ChainMatch → Result PendingMatchEntry
status_found challenge_window_ms match_id none state results =
    err (failure "match_id not found in BolaoCore")
status_found challenge_window_ms match_id (some m) state results = ok (
    derive_pending_match challenge_window_ms m (find_result match_id results)
      (phase_map state.phases []))

unfoldable pub status_of : ℕ → ℕ → BolaoContract → List ChainMatch → Result PendingMatchEntry
status_of challenge_window_ms match_id state results =
    status_found challenge_window_ms match_id (find_bolao match_id state.matches) state results

module _ (b : Outside) (challenge_window_ms : ℕ) where
  open b use {World, clock, get_api, query_bolao, query_all_results}

  -- A query's error with the source that the answer names.
  abbrev query_from : {A : Type 0} → String → Action World A → Action World A
  query_from source m =
      try_catch m λ e. throw (failure (append source (append ": Query failed: " (message_of e))))

  abbrev world_time : Action World ℕ
  world_time w = (ok (clock w), w)

  unfoldable pub pending_finalization : Action World (List PendingMatchEntry)
  pending_finalization = do
    get_api
    state ← query_from "bolao" query_bolao
    results ← query_from "oracle" query_all_results
    now ← world_time
    pure (pending_entries challenge_window_ms now state results)

  unfoldable pub match_status : Option ℕ → Action World PendingMatchEntry
  match_status param = do
    match_id ← lift (as_match_id param)
    get_api
    state ← query_bolao
    results ← query_all_results
    lift (status_of challenge_window_ms match_id state results)
