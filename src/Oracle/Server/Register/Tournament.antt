-- ===== src/Oracle/Server/Register/Tournament.antt =====
-- The route /setup/sync-tournament of the oracle server (oracle-server/src/server.ts): the registration of a
-- phase with its matches in BolaoCore and in Oracle-Program.
use Prim.Native.String.{◌++◌ as append}
use smartcupleague.Prelude.{
  ℕ, ◌+◌, String, Option, none, some, Bool, true, false, not, ◌&&◌, ◌||◌, List, [], ◌∷◌, ltb,
  nat_eq, string_eq, ◌==◌, if◌then◌else◌, select, sort_by, to_upper_case,
}
use smartcupleague.Action.{Action, pure, throw, lift, failure, try_catch, message_of, ◌>>=◌, ◌>>◌}
use smartcupleague.Oracle.Server.State.{ServerMaps, Outside, Fixture, outside, change_maps}
use smartcupleague.Oracle.Server.Cache.{fetch_wc_fixtures}
use smartcupleague.Oracle.Server.Mapping.{add_match_mapping, add_kick_off}
use smartcupleague.Oracle.Server.Mapping.Files.{save_match_mapping, save_kick_off_map, as_positive}
use smartcupleague.Oracle.Server.Register.{PhaseBody, Phase, read_phase, or_1}

-- The names and filters are trimmed, the filters in upper case; an empty stage is none, and a missing
-- status is "SCHEDULED".
pub record TournamentBody : Type 0 where
  pub phase : PhaseBody
  pub stage_filter : String
  pub status_filter : String
  pub bolao_next_id : Option (Option ℕ)
  pub dry_run : Bool

pub record MatchEntry : Type 0 where
  pub bolao_match_id : ℕ
  pub sports_api_id : ℕ
  pub stage : String
  pub home_team : String
  pub away_team : String
  pub kick_off : ℕ

pub record MatchSync : Type 0 where
  pub entry : MatchEntry
  pub bolao_ok : Bool
  pub oracle_ok : Bool
  pub error : Option String

unfoldable pub has_stage : String → Fixture → Bool
has_stage stage_filter m = stage_filter == "" || (to_upper_case m.stage == stage_filter)

-- "SCHEDULED" also accepts "TIMED", and "ALL" everything.
unfoldable pub has_status : String → Fixture → Bool
has_status status_filter m =
    if status_filter == "ALL"
    then true
    else if status_filter == "SCHEDULED"
    then to_upper_case m.status == "SCHEDULED" || (to_upper_case m.status == "TIMED")
    else to_upper_case m.status == status_filter

unfoldable pub chosen_fixtures : String → String → List Fixture → List Fixture
chosen_fixtures stage_filter status_filter fixtures =
    sort_by (λ a c. ltb a.utc_date c.utc_date)
      (select (λ m. has_stage stage_filter m && has_status status_filter m) fixtures)

-- The work list, with the numbers that BolaoCore is expected to give.
unfoldable pub match_list : ℕ → List Fixture → List MatchEntry
match_list next_id [] = []
match_list next_id (m ∷ fixtures) =
    (record {
      bolao_match_id = next_id;
      sports_api_id = m.id;
      stage = m.stage;
      home_team = m.home_team.name;
      away_team = m.away_team.name;
      kick_off = m.utc_date;
    })
    ∷ match_list (next_id + 1) fixtures

abbrev stage_required : String
stage_required =
    "stage_filter is required. Without it, ALL fixtures from every stage would be registered under the same phase, mixing phases."

abbrev pub keep_ids : MatchEntry → ServerMaps → ServerMaps
keep_ids entry t =
    add_kick_off entry.bolao_match_id entry.kick_off
      (add_match_mapping entry.bolao_match_id entry.sports_api_id t)

module _ (b : Outside) where
  open b use {World, get_api, register_phase, register_bolao_match, register_oracle_match}

  -- A call with the message that is noted when it fails.
  abbrev pub noted : String → Action World (Unit {0}) → Action World (Option String)
  noted program m = try_catch (m >> pure none) (λ e. pure (some (append program (message_of e))))

  abbrev pub register_oracle : String → MatchEntry → Action World (Option String)
  register_oracle phase entry = noted "Oracle: " (
      register_oracle_match entry.bolao_match_id phase entry.home_team entry.away_team
        entry.kick_off)

  abbrev pub register_bolao : String → MatchEntry → Action World (Option String)
  register_bolao phase entry =
      noted "BolaoCore: "
        (register_bolao_match phase entry.home_team entry.away_team entry.kick_off)

  -- After BolaoCore: the numbers are kept when Oracle-Program has the match as well.
  abbrev pub after_oracle : MatchEntry → Option String → Action (ServerMaps × World) MatchSync
  after_oracle entry none = do
    change_maps (keep_ids entry)
    pure (record { entry = entry; bolao_ok = true; oracle_ok = true; error = none })
  after_oracle entry (some message) =
      pure (record { entry = entry; bolao_ok = true; oracle_ok = false; error = some message })

  abbrev pub after_bolao :
      String → MatchEntry → Option String → Action (ServerMaps × World) MatchSync
  after_bolao phase entry none = outside (register_oracle phase entry) >>= after_oracle entry
  after_bolao phase entry (some message) =
      pure (record { entry = entry; bolao_ok = false; oracle_ok = false; error = some message })

  -- The body of the loop.
  unfoldable pub sync_match : String → MatchEntry → Action (ServerMaps × World) MatchSync
  sync_match phase entry = outside (register_bolao phase entry) >>= after_bolao phase entry

  unfoldable pub sync_matches :
      String → List MatchEntry → Action (ServerMaps × World) (List MatchSync)
  sync_matches phase [] = pure []
  sync_matches phase (entry ∷ entries) = do
    result ← sync_match phase entry
    rest ← sync_matches phase entries
    pure (result ∷ rest)

  -- The run that sends.
  unfoldable pub live_run : Phase → List MatchEntry → Action (ServerMaps × World) (List MatchSync)
  live_run phase entries = do
    outside get_api
    outside (register_phase phase.name phase.start_time phase.end_time phase.points_weight)
    results ← sync_matches phase.name entries
    save_match_mapping b
    save_kick_off_map b
    pure results

  -- The work list of the answer, with the results of a run that sends.
  abbrev run_list :
      Bool
      → Phase
      → List MatchEntry
      → Action (ServerMaps × World) (List MatchEntry × Option (List MatchSync))
  run_list dry_run phase [] = pure ([], none)
  run_list true phase (entry ∷ entries) = pure (entry ∷ entries, none)
  run_list false phase (entry ∷ entries) = do
    results ← live_run phase (entry ∷ entries)
    pure (entry ∷ entries, some results)

  abbrev require_stage : String → Bool → Action (ServerMaps × World) (Unit {0})
  require_stage stage_filter dry_run =
      if stage_filter == "" && not dry_run then throw (failure stage_required) else pure tt

  abbrev sync_fixtures :
      TournamentBody
      → Phase
      → ℕ
      → Action (ServerMaps × World) (List MatchEntry × Option (List MatchSync))
  sync_fixtures body phase next_id = do
    fixtures ← fetch_wc_fixtures b none
    require_stage body.stage_filter body.dry_run
    run_list body.dry_run phase
        (match_list next_id (chosen_fixtures body.stage_filter body.status_filter fixtures))

  unfoldable pub sync_tournament :
      TournamentBody → Action (ServerMaps × World) (List MatchEntry × Option (List MatchSync))
  sync_tournament body = do
    phase ←
        read_phase "start_time is required (Unix ms)" "end_time is required (Unix ms)"
          "end_time must be after start_time" body.phase
    next_id ← lift (as_positive "bolao_next_id must be >= 1" (or_1 body.bolao_next_id))
    sync_fixtures body phase next_id
