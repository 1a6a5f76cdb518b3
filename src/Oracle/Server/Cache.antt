-- ===== src/Oracle/Server/Cache.antt =====
-- The cached requests of the football data service (oracle-server/src/server.ts).
use smartcupleague.Prelude.{
  ℕ, ◌+◌, ◌*◌, String, Option, none, some, not, ◌&&◌, List, [], ◌∷◌, ltb, string_eq, nat_eq, ◌==◌,
  if◌then◌else◌, JsMap, lookup, insert,
}
use Prim.Native.String.{◌++◌ as append}
use smartcupleague.Action.{Action, ok, pure, ◌>>=◌, ◌>>◌}
use smartcupleague.Oracle.Server.State.{
  ServerMaps, Outside, SportMatch, Fixture, Team, CacheEntry, outside, change_maps, memory,
}

abbrev pub fixtures_ttl_ms : ℕ
fixtures_ttl_ms = 5 * 60 * 1_000

abbrev pub match_ttl_ms : ℕ
match_ttl_ms = 2 * 60 * 1_000

module _ {A : Type 0} where
  -- An entry serves until its time has passed.
  abbrev pub live_data : ℕ → Option (CacheEntry A) → Option A
  live_data now none = none
  live_data now (some entry) = if ltb entry.expires_at now then none else some entry.data_of

  abbrev pub entry_at : ℕ → A → ℕ → CacheEntry A
  entry_at now data_of ttl = record { data_of = data_of; expires_at = now + ttl }

abbrev pub set_crest : String → String → JsMap String String → JsMap String String
set_crest name crest crests =
    if not (name == "") && not (crest == "") then insert name crest crests else crests

abbrev pub team_crests : Team → JsMap String String → JsMap String String
team_crests team crests =
    set_crest team.short_name team.crest (set_crest team.name team.crest crests)

unfoldable pub populate_crests : List Fixture → JsMap String String → JsMap String String
populate_crests [] crests = crests
populate_crests (m ∷ fixtures) crests =
    populate_crests fixtures (team_crests m.away_team (team_crests m.home_team crests))

-- The key of the fixtures with a status, of all fixtures without one.
unfoldable pub fixtures_key : Option String → String
fixtures_key none = "wc-fixtures:all"
fixtures_key (some status) = append "wc-fixtures:" status

module _ (b : Outside) where
  open b use {World, clock, get_match, get_fixtures}

  abbrev pub time : Action (ServerMaps × World) ℕ
  time (t, w) = (ok (clock w), (t, w))

  abbrev pub keep_match : ℕ → SportMatch → Action (ServerMaps × World) (Unit {0})
  keep_match match_id m = do
    now ← time
    change_maps (λ t. record t {
      match_cache =
          insert match_id
            (entry_at now m (if m.status == "FINISHED" then fixtures_ttl_ms else match_ttl_ms))
            t.match_cache;
    })

  abbrev pub request_match : ℕ → Action (ServerMaps × World) SportMatch
  request_match match_id = do m ← outside (get_match match_id); keep_match match_id m; pure m

  abbrev pub serve_match : ℕ → Option SportMatch → Action (ServerMaps × World) SportMatch
  serve_match match_id none = request_match match_id
  serve_match match_id (some m) = pure m

  unfoldable pub fetch_sport_match : ℕ → Action (ServerMaps × World) SportMatch
  fetch_sport_match match_id = do
    now ← time
    t ← memory
    serve_match match_id (live_data now (lookup match_id t.match_cache))

  abbrev pub keep_fixtures : String → List Fixture → Action (ServerMaps × World) (Unit {0})
  keep_fixtures key fixtures = do
    now ← time
    change_maps (λ t. record t {
      fixture_cache = insert key (entry_at now fixtures fixtures_ttl_ms) t.fixture_cache;
      crests = populate_crests fixtures t.crests;
    })

  abbrev pub request_fixtures : Option String → Action (ServerMaps × World) (List Fixture)
  request_fixtures status = do
    fixtures ← outside (get_fixtures status)
    keep_fixtures (fixtures_key status) fixtures
    pure fixtures

  abbrev pub serve_fixtures :
      Option String → Option (List Fixture) → Action (ServerMaps × World) (List Fixture)
  serve_fixtures status none = request_fixtures status
  serve_fixtures status (some fixtures) = pure fixtures

  unfoldable pub fetch_wc_fixtures : Option String → Action (ServerMaps × World) (List Fixture)
  fetch_wc_fixtures status = do
    now ← time
    t ← memory
    serve_fixtures status (live_data now (lookup (fixtures_key status) t.fixture_cache))
