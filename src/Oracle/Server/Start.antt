-- ===== src/Oracle/Server/Start.antt =====
-- The start of the oracle server (oracle-server/src/server.ts), and the routes /sports/match and
-- /sports/match-crests. The rebuilding of the maps and the scan for proposals, which the server starts
-- side by side and which share nothing, are run one after the other.
use smartcupleague.Prelude.{
  ℕ, Option, none, some, Bool, true, false, List, [], ◌∷◌, nat_eq, JsMap, lookup, insert_all,
  is_nil, if◌then◌else◌,
}
use smartcupleague.Action.{Action, pure, lift, try_catch, ◌>>=◌, ◌>>◌}
use smartcupleague.Oracle.Server.State.{
  ServerMaps, Outside, Fixture, Team, SportMatch, outside, memory,
}
use smartcupleague.Oracle.Server.Cache.{fetch_wc_fixtures, fetch_sport_match}
use smartcupleague.Oracle.Server.Mapping.Files.{
  load_match_mapping, load_kick_off_map, rebuild_mapping_from_chain, as_positive,
}
use smartcupleague.Oracle.Server.Finalize.{Timer, recover_proposed_matches}

-- The teams of the fixture with the number, put before the entries of the matches behind.
abbrev add_teams : ℕ → Option Fixture → List (ℕ × Team × Team) → List (ℕ × Team × Team)
add_teams match_id none rest = rest
add_teams match_id (some f) rest = (match_id, f.home_team, f.away_team) ∷ rest

unfoldable pub crests_of : JsMap ℕ Fixture → JsMap ℕ ℕ → List (ℕ × Team × Team)
crests_of by_id [] = []
crests_of by_id ((match_id, sports_id) ∷ ids) =
    add_teams match_id (lookup sports_id by_id) (crests_of by_id ids)

module _ (b : Outside) where
  open b use {World, get_api}

  -- The entries in the order of the map.
  abbrev crests_for : JsMap ℕ ℕ → Action (ServerMaps × World) (List (ℕ × Team × Team))
  crests_for [] = pure []
  crests_for (pair ∷ ids) =
      try_catch
        (do
          fixtures ← fetch_wc_fixtures b none
          pure (crests_of (insert_all (λ (f : Fixture). f.id) fixtures []) (pair ∷ ids)))
        (λ e. pure [])

  unfoldable pub match_crests : Action (ServerMaps × World) (List (ℕ × Team × Team))
  match_crests = memory >>= λ t. crests_for t.match_id_to_sports_id

  unfoldable pub sports_match : Option ℕ → Action (ServerMaps × World) SportMatch
  sports_match param = do
    id ← lift (as_positive "id must be a positive integer" param)
    fetch_sport_match b id

  module _ (challenge_window_ms finalize_buffer_ms : ℕ) where
    abbrev rebuild_if_empty : Action (ServerMaps × World) (Unit {0})
    rebuild_if_empty = do
      t ← memory
      (if is_nil t.match_id_to_sports_id then rebuild_mapping_from_chain b else pure tt)

    -- With BolaoCore configured or not: without it there is neither a rebuilding nor a scan.
    abbrev start_bridge : Bool → Action (ServerMaps × World) (List Timer)
    start_bridge false = pure []
    start_bridge true = do
      rebuild_if_empty
      outside (recover_proposed_matches b challenge_window_ms finalize_buffer_ms)

    -- The timers that are set at the start.
    unfoldable pub start_server : Bool → Action (ServerMaps × World) (List Timer)
    start_server has_bolao = do
      load_match_mapping b
      load_kick_off_map b
      try_catch (outside get_api >> start_bridge has_bolao) (λ e. pure [])
