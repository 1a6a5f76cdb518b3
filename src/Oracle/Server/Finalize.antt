-- ===== src/Oracle/Server/Finalize.antt =====
-- The finalization of proposed results (oracle-server/src/server.ts): the timers that the server sets, the
-- scan for proposals that an earlier run left, the forwarding of the oracle's results, and the routes
-- /bolao/propose-from-oracle, /bolao/finalize-result and /bolao/cancel-proposed-result. The delay of a
-- timer is a number of milliseconds below 2^31: Node fires a timer with a longer one at once.
pub mod Laws
use smartcupleague.Prelude.{
  ℕ, ◌+◌, ◌-◌, ◌*◌, Option, none, some, Bool, List, [], ◌∷◌, ◌++◌, leb, if◌then◌else◌,
}
use smartcupleague.Action.{Action, pure, lift, try_catch, ◌>>=◌, ◌>>◌, ok}
use smartcupleague.Oracle.Server.{as_match_id}
use smartcupleague.Oracle.Server.State.{
  Outside, MatchResult, unresolved_result, proposed_result, finalized_result, BolaoMatch,
  BolaoContract,
}

-- A call of `setTimeout` that finalizes a match: the match and the delay, which is never negative.
abbrev pub Timer : Type 0
Timer = ℕ × ℕ

-- The timers that the loop of a scan sets, and the matches that it queues.
abbrev pub Scan : Type 0
Scan = List Timer × List ℕ

module _ (challenge_window_ms finalize_buffer_ms now : ℕ) where
  -- A match whose proposal was made at a time, put before the scan of the matches behind it.
  abbrev scan_proposed : (match_id proposed_at : ℕ) → Scan → Scan
  scan_proposed match_id proposed_at (timers, expired) =
      let due = proposed_at + challenge_window_ms + finalize_buffer_ms in
      if leb due now
      then (timers, match_id ∷ expired)
      else ((match_id, due - now) ∷ timers, expired)

  abbrev pub scan_match : ℕ → MatchResult → Scan → Scan
  scan_match match_id (proposed_result home away proposed_at) rest =
      scan_proposed match_id proposed_at rest
  scan_match match_id unresolved_result rest = rest
  scan_match match_id (finalized_result home away) rest = rest

  unfoldable pub scan_matches : List BolaoMatch → Scan
  scan_matches [] = ([], [])
  scan_matches (m ∷ matches) = scan_match m.match_id m.result (scan_matches matches)

-- The i-th of the queued matches waits for i times three seconds.
unfoldable pub expired_timers : ℕ → List ℕ → List Timer
expired_timers i [] = []
expired_timers i (match_id ∷ rest) = (match_id, i * 3_000) ∷ expired_timers (i + 1) rest

unfoldable pub recovery_timers :
    (challenge_window_ms finalize_buffer_ms now : ℕ) → List BolaoMatch → List Timer
recovery_timers challenge_window_ms finalize_buffer_ms now matches =
    let scan = scan_matches challenge_window_ms finalize_buffer_ms now matches in
    scan.0 ++ expired_timers 0 scan.1

module _ (b : Outside) where
  open b use {
    World, clock, get_api, query_bolao, propose_from_oracle, finalize_result,
    cancel_proposed_result,
  }

  -- What a timer runs.
  unfoldable pub fire : Timer → Action World (Unit {0})
  fire timer = try_catch (finalize_result timer.0) (λ e. pure tt)

  abbrev time_now : Action World ℕ
  time_now w = (ok (clock w), w)

  module _ (challenge_window_ms finalize_buffer_ms : ℕ) where
    abbrev timers_for : Option BolaoContract → Action World (List Timer)
    timers_for none = pure []
    timers_for (some state) = do
      now ← time_now
      pure (recovery_timers challenge_window_ms finalize_buffer_ms now state.matches)

    -- The timers that a scan sets: none when the state cannot be read.
    unfoldable pub recover_proposed_matches : Action World (List Timer)
    recover_proposed_matches =
        try_catch (query_bolao >>= λ state. pure (some state)) (λ e. pure none) >>= timers_for

    -- A result that the oracle reports is proposed, and its finalization is set.
    unfoldable pub on_consensus_reached : ℕ → Action World (List Timer)
    on_consensus_reached match_id =
        try_catch
          (propose_from_oracle match_id
            >> pure ((match_id, challenge_window_ms + finalize_buffer_ms) ∷ []))
          (λ e. pure [])

  -- The routes, each with its own call.
  abbrev route : (ℕ → Action World (Unit {0})) → Option ℕ → Action World ℕ
  route call param = do match_id ← lift (as_match_id param); get_api; call match_id; pure match_id

  unfoldable pub propose_from_oracle_route : Option ℕ → Action World ℕ
  propose_from_oracle_route = route propose_from_oracle

  unfoldable pub finalize_result_route : Option ℕ → Action World ℕ
  finalize_result_route = route finalize_result

  unfoldable pub cancel_proposed_result_route : Option ℕ → Action World ℕ
  cancel_proposed_result_route = route cancel_proposed_result
