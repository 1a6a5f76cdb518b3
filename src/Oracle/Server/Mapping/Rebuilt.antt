-- ===== src/Oracle/Server/Mapping/Rebuilt.antt =====
-- What the maps have after the server rebuilt them from the chain.
use smartcupleague.Prelude.{
  ℕ, ◌≡◌, refl, sym, ap, ◌∙◌, subst, Option, none, some, List, [], ◌∷◌, lookup, inl, inr, ◌⊎◌, ltb,
  ◌&&◌, Bool-cases, is_nil, nat_eq, string_eq, if◌then◌else◌,
}
use smartcupleague.Action.{ok, ran-cases}
use smartcupleague.Oracle.Server.State.{ServerMaps, Outside, Fixture, ChainMatch}
use smartcupleague.Oracle.Server.Cache.{fetch_wc_fixtures, serve_fixtures, live_data, fixtures_key}
use smartcupleague.Oracle.Server.Mapping.{add_kick_off, rebuild_kick_offs, rebuild_pairs}
use smartcupleague.Oracle.Server.Mapping.Files.{
  rebuild_mapping_from_chain, rebuild_matches, save_found, save_kick_off_map,
}
use smartcupleague.Oracle.Server.Mapping.Repair.{save_match_mapping-quiet, save_kick_off_map-quiet}
use smartcupleague.Oracle.Server.Mapping.Rebuild.{Justified, rebuild_pairs-Justified}

rebuild_kick_offs-ids :
    (matches : List ChainMatch) (t : ServerMaps)
    → (rebuild_kick_offs matches t).match_id_to_sports_id ≡ t.match_id_to_sports_id
unfolding rebuild_kick_offs add_kick_off
rebuild_kick_offs-ids [] t = refl
rebuild_kick_offs-ids (r ∷ matches) t =
    let known = ltb 0 r.match_id && ltb 0 r.kick_off in
    rebuild_kick_offs-ids matches (if known then add_kick_off r.match_id r.kick_off t else t)
    ∙ elim (Bool-cases known) [ inl yes_ ↦ rw yes_ refl | inr no_ ↦ rw no_ refl ]

none_ne : {v : ℕ} → none ≡ some v → ⊥
none_ne h = cc

module _ (b : Outside) where
  abbrev ids_of : ServerMaps × b.World → List (ℕ × ℕ)
  ids_of s = s.0.match_id_to_sports_id

  serve_fixtures-ids :
      (o : Option (List Fixture)) (s : ServerMaps × b.World)
      → ids_of ((serve_fixtures b none o s).1) ≡ ids_of s
  serve_fixtures-ids none (t, w) = elim (ran-cases (b.get_fixtures none w)) [
    | inl (fixtures, w', ran) ↦ rw ran refl
    | inr (e, w', ran) ↦ rw ran refl
  ]
  serve_fixtures-ids (some fixtures) s = refl

  fetch_wc_fixtures-ids :
      (s : ServerMaps × b.World) → ids_of ((fetch_wc_fixtures b none s).1) ≡ ids_of s
  unfolding fetch_wc_fixtures
  fetch_wc_fixtures-ids (t, w) =
      serve_fixtures-ids (live_data (b.clock w) (lookup (fixtures_key none) t.fixture_cache)) (t, w)

  save_found-ids : (s : ServerMaps × b.World) → ids_of ((save_found b s).1) ≡ ids_of s
  save_found-ids (t, w) = elim (Bool-cases (is_nil t.match_id_to_sports_id)) [
    | inl nothing ↦ rw nothing refl
    | inr found ↦ (let (w', saved) = save_match_mapping-quiet b t w in rw (found, saved) refl)
  ]

  -- The state in which the rebuild asks for the fixtures: the chain has answered, and the kick-offs
  -- of its matches are entered and saved.
  abbrev pub asked : List ChainMatch → ServerMaps → b.World → ServerMaps × b.World
  asked matches t w = (save_kick_off_map b (rebuild_kick_offs matches t, w)).1

  -- The pair is justified by the fixtures that the request made in the state s was answered with.
  abbrev pub JustifiedBy : List ChainMatch → ServerMaps × b.World → ℕ → ℕ → Type 0
  JustifiedBy matches s k v =
      (fixtures : List Fixture) × (s' : ServerMaps × b.World) × (fetch_wc_fixtures b none s
        ≡ (ok fixtures, s'))
      × Justified matches fixtures k v

  rebuild_matches-JustifiedBy :
      (r : ChainMatch) (matches : List ChainMatch) (t : ServerMaps) (w : b.World) (k v : ℕ)
      → lookup k (ids_of ((rebuild_matches b (some (r ∷ matches)) (t, w)).1)) ≡ some v
      → (lookup k t.match_id_to_sports_id ≡ some v)
        ⊎ JustifiedBy (r ∷ matches) (asked (r ∷ matches) t w) k v
  rebuild_matches-JustifiedBy r matches t w k v found =
      let t1 = rebuild_kick_offs (r ∷ matches) t in
      let (w1, saved) = save_kick_off_map-quiet b t1 w in
      let same = fetch_wc_fixtures-ids (t1, w1) in
      let kept = rebuild_kick_offs-ids (r ∷ matches) t in
      elim (ran-cases (fetch_wc_fixtures b none (t1, w1))) [
        | inr (e, s2, ran) ↦
            (let h : lookup k (ids_of s2) ≡ some v = rw (saved, ran) at found in
              inl (subst (λ ids. lookup k ids ≡ some v) ((rw ran at same) ∙ kept) h))
        | inl (fixtures, (t2, w2), ran) ↦
            (let fetched : t2.match_id_to_sports_id ≡ t1.match_id_to_sports_id = rw ran at same in
              let pairs = rebuild_pairs fixtures (r ∷ matches) t2 in
              let h : lookup k (ids_of ((save_found b (pairs, w2)).1)) ≡ some v =
                rw (saved, ran) at found in
              let h' : lookup k pairs.match_id_to_sports_id ≡ some v =
                subst (λ ids. lookup k ids ≡ some v) (save_found-ids (pairs, w2)) h in
              elim (rebuild_pairs-Justified fixtures (r ∷ matches) t2 k v h') [
                | inl before ↦ inl (subst (λ ids. lookup k ids ≡ some v) (fetched ∙ kept) before)
                | inr good ↦
                    (let at_asked = ap (fetch_wc_fixtures b none) (ap (λ x. x.1) saved) ∙ ran in
                      inr (fixtures, (t2, w2), at_asked, good))
              ])
      ]

  -- When a server without an entry for a match rebuilds its maps from the matches that the chain
  -- has, an entry that the match then has is the number of a fixture, among those that this
  -- rebuild's own request for the fixtures was answered with, with the names of the match's teams and a kick-off less than a minute
  -- from the match's.
  pub rebuild_mapping_from_chain-JustifiedBy :
      (matches : List ChainMatch) (t : ServerMaps) (w w' : b.World) (k v : ℕ)
      → b.query_all_results w ≡ (ok matches, w')
      → lookup k t.match_id_to_sports_id ≡ none
      → lookup k (ids_of ((rebuild_mapping_from_chain b (t, w)).1)) ≡ some v
      → JustifiedBy matches (asked matches t w') k v
  unfolding rebuild_mapping_from_chain
  rebuild_mapping_from_chain-JustifiedBy [] t w w' k v queried missing found =
      let h : lookup k t.match_id_to_sports_id ≡ some v = rw queried at found in
      absurd (none_ne (sym missing ∙ h))
  rebuild_mapping_from_chain-JustifiedBy (r ∷ matches) t w w' k v queried missing found =
      elim (rebuild_matches-JustifiedBy r matches t w' k v (rw queried at found)) [
        | inl before ↦ absurd (none_ne (sym missing ∙ before))
        | inr good ↦ good
      ]
