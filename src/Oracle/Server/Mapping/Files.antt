-- ===== src/Oracle/Server/Mapping/Files.antt =====
-- The files of the maps and the rebuilding of the maps at the start (oracle-server/src/server.ts).
use smartcupleague.Prelude.{
  ℕ, String, Option, none, some, List, [], ◌∷◌, nat_eq, ltb, if◌then◌else◌, JsMap, is_nil, sort_by,
}
use smartcupleague.Action.{Action, Result, ok, err, pure, lift, failure, try_catch, ◌>>=◌, ◌>>◌}
use smartcupleague.Oracle.Server.State.{
  ServerMaps, Outside, Entries, Fixture, ChainMatch, outside, change_maps, memory,
}
use smartcupleague.Oracle.Server.Cache.{fetch_wc_fixtures}
use smartcupleague.Oracle.Server.Mapping.{
  as_object, add_match_mapping, load_entries, load_kick_off_entries, rebuild_kick_offs,
  rebuild_pairs,
}

-- The list of the route /setup/match-mapping.
unfoldable pub match_mapping : JsMap ℕ ℕ → Entries
match_mapping m = sort_by (λ a b. ltb a.0 b.0) m

-- A field that `Number` makes a non-negative integer of, when it does.
unfoldable pub as_positive : String → Option ℕ → Result ℕ
as_positive message none = err (failure message)
as_positive message (some n) = if ltb n 1 then err (failure message) else ok n

module _ (b : Outside) where
  open b use {
    World, read_mapping, write_mapping, read_kick_offs, write_kick_offs, query_all_results,
  }

  unfoldable pub load_match_mapping : Action (ServerMaps × World) (Unit {0})
  load_match_mapping =
      try_catch (outside read_mapping >>= λ e. change_maps (load_entries e)) (λ e. pure tt)

  unfoldable pub load_kick_off_map : Action (ServerMaps × World) (Unit {0})
  load_kick_off_map =
      try_catch (outside read_kick_offs >>= λ e. change_maps (load_kick_off_entries e))
        (λ e. pure tt)

  unfoldable pub save_match_mapping : Action (ServerMaps × World) (Unit {0})
  save_match_mapping =
      try_catch (memory >>= λ t. outside (write_mapping (as_object t.match_id_to_sports_id)))
        (λ e. pure tt)

  unfoldable pub save_kick_off_map : Action (ServerMaps × World) (Unit {0})
  save_kick_off_map =
      try_catch (memory >>= λ t. outside (write_kick_offs (as_object t.kick_off_map)))
        (λ e. pure tt)

  unfoldable pub repair_mapping : Option ℕ → Option ℕ → Action (ServerMaps × World) (ℕ × ℕ)
  repair_mapping bolao_match_id sports_api_id = do
    match_id ← lift (as_positive "bolao_match_id must be a positive integer" bolao_match_id)
    sports_id ← lift (as_positive "sports_api_id must be a positive integer" sports_api_id)
    change_maps (add_match_mapping match_id sports_id)
    save_match_mapping
    pure (match_id, sports_id)

  -- `none` where the call throws, which ends the rebuilding.
  abbrev try_call :
      {A : Type 0} → Action (ServerMaps × World) A → Action (ServerMaps × World) (Option A)
  try_call m = try_catch (m >>= λ a. pure (some a)) (λ e. pure none)

  abbrev pub save_found : Action (ServerMaps × World) (Unit {0})
  save_found =
      memory >>= λ t. (if is_nil t.match_id_to_sports_id then pure tt else save_match_mapping)

  abbrev pub rebuild_from :
      List ChainMatch → Option (List Fixture) → Action (ServerMaps × World) (Unit {0})
  rebuild_from matches none = pure tt
  rebuild_from matches (some fixtures) = change_maps (rebuild_pairs fixtures matches) >> save_found

  abbrev pub rebuild_matches : Option (List ChainMatch) → Action (ServerMaps × World) (Unit {0})
  rebuild_matches none = pure tt
  rebuild_matches (some []) = pure tt
  rebuild_matches (some (r ∷ matches)) = do
    change_maps (rebuild_kick_offs (r ∷ matches))
    save_kick_off_map
    fixtures ← try_call (fetch_wc_fixtures b none)
    rebuild_from (r ∷ matches) fixtures

  unfoldable pub rebuild_mapping_from_chain : Action (ServerMaps × World) (Unit {0})
  rebuild_mapping_from_chain = try_call (outside query_all_results) >>= rebuild_matches
