-- ===== src/Oracle/Server/Register/Kept.antt =====
-- The numbers that the server keeps of a tournament's matches.
use smartcupleague.Prelude.{
  ℕ, ◌+◌, ◌<◌, ◌≡◌, refl, ◌∙◌, some, true, List, [], ◌∷◌, ◌++◌, map, arith, nat_eq, lookup,
  if◌then◌else◌, Bool-cases, inl, inr,
}
use smartcupleague.Oracle.Server.State.{ServerMaps, Fixture}
use smartcupleague.Oracle.Server.Mapping.{add_kick_off}
use smartcupleague.Oracle.Server.Mapping.Pairs.{lookup-forward}
use smartcupleague.Oracle.Server.Register.Tournament.{MatchEntry, MatchSync, match_list, keep_ids}

abbrev pub entry_of : MatchSync → MatchEntry
entry_of x = x.entry

-- The maps after one result, and after all of them.
abbrev pub kept_map : MatchSync → ServerMaps → ServerMaps
kept_map x t = if x.oracle_ok then keep_ids x.entry t else t

abbrev pub kept_maps : List MatchSync → ServerMaps → ServerMaps
kept_maps [] t = t
kept_maps (x ∷ xs) t = kept_maps xs (kept_map x t)

lookup-keep_ids_at :
    (entry : MatchEntry) (t : ServerMaps)
    → lookup entry.bolao_match_id (keep_ids entry t).match_id_to_sports_id
      ≡ some entry.sports_api_id
unfolding add_kick_off
lookup-keep_ids_at entry t =
    ground (arith, lookup-forward entry.bolao_match_id entry.sports_api_id entry.bolao_match_id t)

lookup-kept_map_off :
    (k : ℕ) (x : MatchSync) (t : ServerMaps)
    → k < x.entry.bolao_match_id
    → lookup k (kept_map x t).match_id_to_sports_id ≡ lookup k t.match_id_to_sports_id
unfolding add_kick_off
lookup-kept_map_off k x t below = elim (Bool-cases x.oracle_ok) [
  | inl yes_ ↦
      rw yes_ (ground (arith, lookup-forward x.entry.bolao_match_id x.entry.sports_api_id k t))
  | inr no_ ↦ rw no_ refl
]

-- The numbers of later matches are larger.
lookup-kept_maps_off :
    (k next_id : ℕ) (fixtures : List Fixture) (xs : List MatchSync) (t : ServerMaps)
    → k < next_id
    → map entry_of xs ≡ match_list next_id fixtures
    → lookup k (kept_maps xs t).match_id_to_sports_id ≡ lookup k t.match_id_to_sports_id
unfolding match_list
lookup-kept_maps_off k next_id fixtures [] t below e = refl
lookup-kept_maps_off k next_id [] (x ∷ xs) t below e = absurd (ground arith)
lookup-kept_maps_off k next_id (f ∷ fixtures) (x ∷ xs) t below e =
    let rest : map entry_of xs ≡ match_list (next_id + 1) fixtures = cc in
    let number : x.entry.bolao_match_id ≡ next_id = ground arith in
    lookup-kept_maps_off k (next_id + 1) fixtures xs (kept_map x t) (omega arith) rest
    ∙ lookup-kept_map_off k x t (omega arith)

pub lookup-kept_maps_at :
    (next_id : ℕ) (fixtures : List Fixture) (before : List MatchSync) (x : MatchSync)
    (after : List MatchSync) (t : ServerMaps)
    → map entry_of (before ++ x ∷ after) ≡ match_list next_id fixtures
    → x.oracle_ok ≡ true
    → lookup x.entry.bolao_match_id (kept_maps (before ++ x ∷ after) t).match_id_to_sports_id
      ≡ some x.entry.sports_api_id
unfolding match_list
lookup-kept_maps_at next_id [] [] x after t e yes_ = absurd (ground arith)
lookup-kept_maps_at next_id [] (y ∷ before) x after t e yes_ = absurd (ground arith)
lookup-kept_maps_at next_id (f ∷ fixtures) [] x after t e yes_ =
    let rest : map entry_of after ≡ match_list (next_id + 1) fixtures = cc in
    let number : x.entry.bolao_match_id ≡ next_id = ground arith in
    lookup-kept_maps_off x.entry.bolao_match_id (next_id + 1) fixtures after (kept_map x t)
      (omega arith) rest
    ∙ rw yes_ (lookup-keep_ids_at x.entry t)
lookup-kept_maps_at next_id (f ∷ fixtures) (y ∷ before) x after t e yes_ =
    let rest : map entry_of (before ++ x ∷ after) ≡ match_list (next_id + 1) fixtures = cc in
    lookup-kept_maps_at (next_id + 1) fixtures before x after (kept_map y t) rest yes_
