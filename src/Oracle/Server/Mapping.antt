-- ===== src/Oracle/Server/Mapping.antt =====
-- The numbers of the matches (oracle-server/src/server.ts): the maps between the numbers of BolaoCore and
-- those of the football data service, their files, the rebuilding of both from the chain, and the
-- routes /setup/match-mapping and /setup/repair-mapping.
pub mod Files
pub mod Objects
pub mod Pairs
pub mod Roundtrip
pub mod Repair
pub mod Rebuild
pub mod Rebuilt
use smartcupleague.Prelude.{
  ℕ, ◌-◌, ◌+◌, Option, none, some, Bool, ◌&&◌, List, [], ◌∷◌, ltb, nat_eq, string_eq, ◌==◌,
  if◌then◌else◌, JsMap, insert, lookup,
}
use smartcupleague.Oracle.Server.State.{ServerMaps, Entries, Fixture, ChainMatch, Team}

-- `o ?? a`
abbrev of_option : ℕ → Option ℕ → ℕ
of_option a none = a
of_option a (some x) = x

-- `obj[k] = v` on an object whose names are numbers, which stand in ascending order.
unfoldable pub put_key : ℕ → ℕ → Entries → Entries
put_key k v [] = (k, v) ∷ []
put_key k v ((j, u) ∷ entries) =
    if ltb k j
    then (k, v) ∷ (j, u) ∷ entries
    else if k == j
    then (k, v) ∷ entries
    else (j, u) ∷ put_key k v entries

unfoldable pub put_all : JsMap ℕ ℕ → Entries → Entries
put_all [] entries = entries
put_all ((k, v) ∷ m) entries = put_all m (put_key k v entries)

-- The object that is made of a map.
abbrev pub as_object : JsMap ℕ ℕ → Entries
as_object m = put_all m []

unfoldable pub add_match_mapping : ℕ → ℕ → ServerMaps → ServerMaps
add_match_mapping bolao_match_id sports_api_id t = record t {
  match_id_to_sports_id = insert bolao_match_id sports_api_id t.match_id_to_sports_id;
  sports_id_to_match_id = insert sports_api_id bolao_match_id t.sports_id_to_match_id;
}

unfoldable pub add_kick_off : ℕ → ℕ → ServerMaps → ServerMaps
add_kick_off bolao_match_id kick_off t = record t {
  kick_off_map = insert bolao_match_id kick_off t.kick_off_map;
}

-- The loops of the two loaders.
unfoldable pub add_entries : Entries → ServerMaps → ServerMaps
add_entries [] t = t
add_entries ((k, v) ∷ entries) t = add_entries entries (add_match_mapping k v t)

unfoldable pub add_kick_offs : Entries → ServerMaps → ServerMaps
add_kick_offs [] t = t
add_kick_offs ((k, v) ∷ entries) t = add_kick_offs entries (add_kick_off k v t)

abbrev pub clear_mapping : ServerMaps → ServerMaps
clear_mapping t = record t { match_id_to_sports_id = []; sports_id_to_match_id = [] }

abbrev pub clear_kick_offs : ServerMaps → ServerMaps
clear_kick_offs t = record t { kick_off_map = [] }

abbrev pub load_entries : Option Entries → ServerMaps → ServerMaps
load_entries none t = t
load_entries (some entries) t = add_entries entries (clear_mapping t)

abbrev pub load_kick_off_entries : Option Entries → ServerMaps → ServerMaps
load_kick_off_entries none t = t
load_kick_off_entries (some entries) t = add_kick_offs entries (clear_kick_offs t)

-- The fixture is the match: both names are the same and the kick-offs lie less than a minute apart.
unfoldable pub is_fixture_of : ChainMatch → Fixture → Bool
is_fixture_of r f =
    (f.home_team.name == r.home)
    && ((f.away_team.name == r.away)
        && ltb (f.utc_date - r.kick_off + (r.kick_off - f.utc_date)) 60_000)

unfoldable pub find_fixture : ChainMatch → List Fixture → Option Fixture
find_fixture r [] = none
find_fixture r (f ∷ fixtures) = if is_fixture_of r f then some f else find_fixture r fixtures

unfoldable pub rebuild_kick_offs : List ChainMatch → ServerMaps → ServerMaps
rebuild_kick_offs [] t = t
rebuild_kick_offs (r ∷ matches) t =
    rebuild_kick_offs matches
      (if ltb 0 r.match_id && ltb 0 r.kick_off then add_kick_off r.match_id r.kick_off t else t)

abbrev pub add_found : ChainMatch → Option Fixture → ServerMaps → ServerMaps
add_found r none t = t
add_found r (some f) t = add_match_mapping r.match_id f.id t

unfoldable pub rebuild_pairs : List Fixture → List ChainMatch → ServerMaps → ServerMaps
rebuild_pairs fixtures [] t = t
rebuild_pairs fixtures (r ∷ matches) t =
    rebuild_pairs fixtures matches (add_found r (find_fixture r fixtures) t)

-- The number that a match of the chain has at the data service, and the number that a match of the
-- data service has on the chain.
abbrev pub sports_id_of : ServerMaps → ℕ → ℕ
sports_id_of t match_id = of_option match_id (lookup match_id t.match_id_to_sports_id)

abbrev pub oracle_match_id : ServerMaps → ℕ → ℕ
oracle_match_id t sports_id = of_option sports_id (lookup sports_id t.sports_id_to_match_id)
