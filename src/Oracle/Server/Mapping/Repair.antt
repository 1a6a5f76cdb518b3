-- ===== src/Oracle/Server/Mapping/Repair.antt =====
-- The repair of a match that has a number already.
use smartcupleague.Prelude.{ℕ, ◌<◌, ◌≡◌, ◌≢◌, refl, some, arith, nat_eq, lookup, inl, inr}
use smartcupleague.Action.{ok, ran-cases}
use smartcupleague.Oracle.Server.State.{ServerMaps, Outside}
use smartcupleague.Oracle.Server.Mapping.{
  as_object, add_match_mapping, sports_id_of, oracle_match_id,
}
use smartcupleague.Oracle.Server.Mapping.Pairs.{lookup-forward, lookup-backward}
use smartcupleague.Oracle.Server.Mapping.Files.{
  save_match_mapping, save_kick_off_map, repair_mapping, as_positive,
}

module _ (b : Outside) (t : ServerMaps) (w : b.World) where
  -- Saving never throws, and leaves the memory as it is.
  pub save_match_mapping-quiet : (w' : b.World) × (save_match_mapping b (t, w) ≡ (ok tt, (t, w')))
  unfolding save_match_mapping
  save_match_mapping-quiet =
      elim (ran-cases (b.write_mapping (as_object t.match_id_to_sports_id) w)) [
        | inl (a, w', written) ↦ (w', rw written refl)
        | inr (e, w', failed) ↦ (w', rw failed refl)
      ]

  pub save_kick_off_map-quiet : (w' : b.World) × (save_kick_off_map b (t, w) ≡ (ok tt, (t, w')))
  unfolding save_kick_off_map
  save_kick_off_map-quiet = elim (ran-cases (b.write_kick_offs (as_object t.kick_off_map) w)) [
    | inl (a, w', written) ↦ (w', rw written refl)
    | inr (e, w', failed) ↦ (w', rw failed refl)
  ]

as_positive-pos : (message : _) (n : ℕ) → 0 < n → as_positive message (some n) ≡ ok n
unfolding as_positive
as_positive-pos message n h = ground arith

repair_mapping-lem :
    (b : Outside) (t : ServerMaps) (w : b.World) (match_id sports_id : ℕ)
    → 0 < match_id
    → 0 < sports_id
    → (w' : b.World) × (repair_mapping b (some match_id) (some sports_id) (t, w)
        ≡ (ok (match_id, sports_id), (add_match_mapping match_id sports_id t, w')))
unfolding repair_mapping
repair_mapping-lem b t w match_id sports_id m_pos s_pos =
    let (w', saved) = save_match_mapping-quiet b (add_match_mapping match_id sports_id t) w in
    (w', rw (as_positive-pos _ match_id m_pos, as_positive-pos _ sports_id s_pos, saved) refl)

-- A repair gives a match that had a number at the data service a new one; the old number keeps the
-- match as well, so that the results of two fixtures are sent as the results of one match.
pub repair_mapping-stale :
    (b : Outside) (t : ServerMaps) (w : b.World) (match_id old_id new_id : ℕ)
    → 0 < match_id
    → 0 < new_id
    → old_id ≢ new_id
    → lookup old_id t.sports_id_to_match_id ≡ some match_id
    → (t' : ServerMaps) × (w' : b.World) × (repair_mapping b (some match_id) (some new_id) (t, w)
        ≡ (ok (match_id, new_id), (t', w')))
      × (sports_id_of t' match_id ≡ new_id)
      × (oracle_match_id t' new_id ≡ match_id)
      × (oracle_match_id t' old_id ≡ match_id)
repair_mapping-stale b t w match_id old_id new_id m_pos n_pos other had =
    let (w', ran) = repair_mapping-lem b t w match_id new_id m_pos n_pos in
    (
      add_match_mapping match_id new_id t,
      w',
      ran,
      ground (arith, lookup-forward match_id new_id match_id t),
      ground (arith, lookup-backward match_id new_id new_id t),
      ground (arith, lookup-backward match_id new_id old_id t),
    )
