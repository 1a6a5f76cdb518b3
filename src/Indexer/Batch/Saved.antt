-- ===== src/Indexer/Batch/Saved.antt =====
-- `save`: the row of a user in the database after it.
use smartcupleague.Prelude.{
  ◌≡◌, refl, ap, ◌∙◌, sym, inl, inr, String, Option, none, some, Bool, true, false, [], arith,
  lookup, values, or_else, string_eq, lookup-insert_all-values, lookup-is_nil, of_some, is_nil,
  Bool-cases,
}
use smartcupleague.Indexer.State.{HandlerState}
use smartcupleague.Indexer.Store.{Store, StatLaws, Rows, stats_in, match_rows, stat_rows}
use smartcupleague.Indexer.Process.{then_save, save_rows, save_state}
use smartcupleague.Indexer.Stats.Touch.{stat_key, view, StatsAreKeyed}

module _ (store : Store) (laws : StatLaws store) (u : String) where
  -- One `if (rows.length > 0) await store.save(rows)` of a chain that succeeds.
  then_save-inv :
      (b : Bool) (rows : Rows) (o : Option store.Db) (db' : store.Db)
      → then_save store b rows o ≡ some db'
      → (db : store.Db) × (o ≡ some db) × (save_rows store b rows db ≡ some db')
  then_save-inv b rows none db' h = cc
  then_save-inv b rows (some db) db' h = (db, refl, h)

  nothing : lookup u (stats_in (match_rows [])) ≡ none
  unfolding lookup
  nothing = refl

  -- Rows of another table.
  save_rows-other :
      (b : Bool) (rows : Rows) (db db' : store.Db)
      → lookup u (stats_in rows) ≡ none
      → save_rows store b rows db ≡ some db'
      → laws.stat db' u ≡ laws.stat db u
  unfolding save_rows
  save_rows-other true rows db db' e h = ground arith
  save_rows-other false rows db db' e h = ground (arith, laws.saved rows db db' h u)

  save_rows-stats :
      (s : HandlerState) (db db' : store.Db)
      → StatsAreKeyed s
      → save_rows store (is_nil s.user_stats) (stat_rows (values s.user_stats)) db ≡ some db'
      → laws.stat db' u ≡ view (laws.stat db u) u s
  unfolding save_rows
  save_rows-stats s db db' k h = elim (Bool-cases (is_nil s.user_stats)) [
    | inl empty ↦
        ap (λ d. laws.stat d u) (sym (of_some (rw empty at h)))
        ∙ sym (ap (λ o. or_else o (laws.stat db u)) (lookup-is_nil u s.user_stats empty))
    | inr filled ↦
        laws.saved (stat_rows (values s.user_stats)) db db' (rw filled at h) u
        ∙ ap (λ o. or_else o (laws.stat db u)) (lookup-insert_all-values stat_key u s.user_stats k)
  ]

  -- The save of the stats is the fifth from the last, and the third from the first.
  pub save_state-stat :
      (s : HandlerState) (db db' : store.Db)
      → StatsAreKeyed s
      → save_state store s db ≡ some db'
      → laws.stat db' u ≡ view (laws.stat db u) u s
  unfolding save_state
  save_state-stat s db db' k h =
      let (d6, e6, h6) = then_save-inv _ _ _ db' h in
      let (d5, e5, h5) = then_save-inv _ _ _ d6 e6 in
      let (d4, e4, h4) = then_save-inv _ _ _ d5 e5 in
      let (d3, e3, h3) = then_save-inv _ _ _ d4 e4 in
      let (d2, e2, h2) = then_save-inv _ _ _ d3 e3 in
      let (d1, e1, h1) = then_save-inv _ _ _ d2 e2 in
      save_rows-other _ _ _ _ nothing h6
      ∙ save_rows-other _ _ _ _ nothing h5
      ∙ save_rows-other _ _ _ _ nothing h4
      ∙ save_rows-other _ _ _ _ nothing h3
      ∙ save_rows-stats s d2 d3 k h2
      ∙ ap (or_else (lookup u s.user_stats))
          (save_rows-other _ _ _ _ nothing h1 ∙ save_rows-other _ _ _ _ nothing e1)
