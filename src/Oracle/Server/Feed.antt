-- ===== src/Oracle/Server/Feed.antt =====
-- The submission of results to Oracle-Program (oracle-server/src/server.ts): the cycle of the feeder, and
-- the routes /oracle/feed-match and /wc/sync.
pub mod Batch
pub mod Safety
pub mod Progress
use smartcupleague.Prelude.{
  ℕ, ◌-◌, String, Option, none, some, Bool, true, false, not, ◌&&◌, List, [], ◌∷◌, leb, ltb, nat_eq,
  string_eq, ◌==◌, if◌then◌else◌, JsMap, lookup, sort_by, select, take, is_nil,
}
use smartcupleague.Action.{
  Action, Result, ok, err, pure, throw, lift, failure, Thrown, try_catch, message_of, ◌>>=◌, ◌>>◌,
}
use smartcupleague.Oracle.Result.{PenaltyWinner, MappedResult, resolve_on_field_result}
use smartcupleague.Oracle.Server.{as_match_id}
use smartcupleague.Oracle.Server.State.{
  ServerMaps, Outside, Fixture, SportMatch, Team, outside, memory,
}
use smartcupleague.Oracle.Server.Cache.{fetch_sport_match, fetch_wc_fixtures, time}
use smartcupleague.Oracle.Server.Mapping.{sports_id_of, oracle_match_id}

-- `Number.MAX_SAFE_INTEGER`
abbrev pub max_safe_integer : ℕ
max_safe_integer = 9_007_199_254_740_991

abbrev of_option : ℕ → Option ℕ → ℕ
of_option a none = a
of_option a (some x) = x

unfoldable pub kick_off_of : ServerMaps → ℕ → ℕ
kick_off_of t match_id = of_option max_safe_integer (lookup match_id t.kick_off_map)

-- The comparison of the sort is negative: the matches that have started come first, then the earlier
-- kick-off.
unfoldable pub comes_before : ℕ → ServerMaps → ℕ → ℕ → Bool
unfolding kick_off_of
comes_before now t a b =
    if leb (kick_off_of t a) now && not (leb (kick_off_of t b) now)
    then true
    else if not (leb (kick_off_of t a) now) && leb (kick_off_of t b) now
    then false
    else ltb (kick_off_of t a) (kick_off_of t b)

-- The kick-off is known and has passed.
unfoldable pub has_started : ℕ → ServerMaps → ℕ → Bool
has_started now t match_id = elim (lookup match_id t.kick_off_map) [
  | none ↦ false
  | some kick_off ↦ leb kick_off now
]

-- The matches that a cycle processes, at most as many as a batch has.
unfoldable pub to_process : (batch_size now : ℕ) → ServerMaps → List ℕ → List ℕ
to_process batch_size now t pending =
    take batch_size (select (has_started now t) (sort_by (comes_before now t) pending))

unfoldable pub map_match_to_oracle : SportMatch → Option MappedResult
map_match_to_oracle m =
    if not (m.status == "FINISHED") then none else resolve_on_field_result m.score

-- A finished fixture whose result is known.
pub record SyncEntry : Type 0 where
  pub id : ℕ
  pub home_team : String
  pub away_team : String
  pub result : MappedResult

unfoldable pub sync_entries : List Fixture → List SyncEntry
sync_entries [] = []
sync_entries (m ∷ fixtures) =
    let rest = sync_entries fixtures in
    elim (resolve_on_field_result m.score) [
      | none ↦ rest
      | some result ↦
          (record {
            id = m.id;
            home_team = m.home_team.name;
            away_team = m.away_team.name;
            result = result;
          })
          ∷ rest
    ]

-- The status of an entry: no error where it was submitted.
abbrev pub SyncResult : Type 0
SyncResult = SyncEntry × Option String

module _ (b : Outside) where
  open b use {World, get_api, query_pending_matches, submit_result}

  unfoldable pub submit : ℕ → MappedResult → Action (ServerMaps × World) (Unit {0})
  submit match_id r = outside (submit_result match_id r.home r.away r.penalty_winner)

  abbrev pub submit_found : ℕ → Option MappedResult → Action (ServerMaps × World) (Unit {0})
  submit_found match_id none = pure tt
  submit_found match_id (some r) = submit match_id r

  abbrev pub feed_body : ℕ → Action (ServerMaps × World) (Unit {0})
  feed_body match_id = do
    t ← memory
    m ← fetch_sport_match b (sports_id_of t match_id)
    submit_found match_id (map_match_to_oracle m)

  -- The body of the cycle's loop: an error of one match leaves the others to be processed.
  unfoldable pub feed_one : ℕ → Action (ServerMaps × World) (Unit {0})
  feed_one match_id = try_catch (feed_body match_id) (λ e. pure tt)

  unfoldable pub feed_all : List ℕ → Action (ServerMaps × World) (Unit {0})
  feed_all [] = pure tt
  feed_all (match_id ∷ rest) = feed_one match_id >> feed_all rest

  abbrev pub feed_batch : ℕ → List ℕ → Action (ServerMaps × World) (Unit {0})
  feed_batch batch_size pending = do
    now ← time b
    t ← memory
    feed_all (to_process batch_size now t pending)

  abbrev pub feed_pending : ℕ → List ℕ → Action (ServerMaps × World) (Unit {0})
  feed_pending batch_size [] = pure tt
  feed_pending batch_size (match_id ∷ rest) = feed_batch batch_size (match_id ∷ rest)

  abbrev pub cycle : ℕ → Action (ServerMaps × World) (Unit {0})
  cycle batch_size = do
    outside get_api
    pending ← outside query_pending_matches
    feed_pending batch_size pending

  -- A cycle, whose error ends it and is logged.
  unfoldable pub run_auto_feed : ℕ → Action (ServerMaps × World) (Unit {0})
  run_auto_feed batch_size = try_catch (cycle batch_size) (λ e. pure tt)

  -- /oracle/feed-match
  abbrev submit_mapped : ℕ → Option MappedResult → Action (ServerMaps × World) (ℕ × MappedResult)
  submit_mapped match_id none = throw (failure "Match is not FINISHED or scores are missing")
  submit_mapped match_id (some r) = do outside get_api; submit match_id r; pure (match_id, r)

  unfoldable pub feed_match : Option ℕ → Action (ServerMaps × World) (ℕ × MappedResult)
  feed_match param = do
    match_id ← lift (as_match_id param)
    t ← memory
    m ← fetch_sport_match b (sports_id_of t match_id)
    submit_mapped match_id (map_match_to_oracle m)

  -- /wc/sync
  unfoldable pub sync_one : SyncEntry → Action (ServerMaps × World) SyncResult
  sync_one entry =
      try_catch
        (do t ← memory; submit (oracle_match_id t entry.id) entry.result; pure (entry, none))
        (λ e. pure (entry, some (message_of e)))

  unfoldable pub sync_all : List SyncEntry → Action (ServerMaps × World) (List SyncResult)
  sync_all [] = pure []
  sync_all (entry ∷ entries) = do
    result ← sync_one entry
    rest ← sync_all entries
    pure (result ∷ rest)

  -- The entries that would be submitted, and the results of the submissions unless the run is dry.
  unfoldable pub wc_sync :
      Bool → Action (ServerMaps × World) (List SyncEntry × Option (List SyncResult))
  wc_sync dry_run = do
    fixtures ← fetch_wc_fixtures b (some "FINISHED")
    (if dry_run then pure (sync_entries fixtures, none) else do
      outside get_api
      results ← sync_all (sync_entries fixtures)
      pure (sync_entries fixtures, some results))
