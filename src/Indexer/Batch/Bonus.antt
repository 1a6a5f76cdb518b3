-- ===== src/Indexer/Batch/Bonus.antt =====
-- A batch of one podium bonus, for whose user no row is loaded.
use smartcupleague.Prelude.{
  ℕ, ◌≡◌, refl, ap, ◌∙◌, sym, String, Option, none, some, true, [], ◌∷◌, arith, lookup, or_else,
  string_eq, insert, of_some, eq_refl,
}
use smartcupleague.Indexer.Entities.{UserStat}
use smartcupleague.Indexer.Events.{Payload, OutputMessage, ChainEvent, Block}
use smartcupleague.Indexer.State.{
  HandlerState, clear, new_stat, apply_delta, touch_user, on_activity,
}
use smartcupleague.Indexer.Store.{Store, StatLaws}
use smartcupleague.Indexer.Preload.{
  PreloadIds, is_program_event, collect_preload_ids, collect_events, collect_blocks,
  preload_matches, preload_user_stats,
}
use smartcupleague.Indexer.Process.{
  project, handle_event, handle_events, handle_blocks, process, or_zero, run_batch,
}
use smartcupleague.Indexer.Batch.Saved.{save_state-stat}
use smartcupleague.Indexer.Batch.Totals.{run_batch-inv}

-- The row that a podium bonus alone leaves.
abbrev pub bonus_row : String → ℕ → ℕ → UserStat
bonus_row u bonus t = record (new_stat u) { total_points = bonus; updated_at = t }

module _ (store : Store) (laws : StatLaws store) (decode : String → Option OutputMessage)
    (program_id : String) (u : String) (bonus : ℕ) (event : ChainEvent) (height : ℕ)
    (timestamp : Option ℕ) (db db' : store.Db) (own : is_program_event program_id event ≡ true)
    (decoded : decode event.raw_payload
      ≡ some (record { service = "Service"; payload = Payload.podium_bonus_awarded u bonus })) where
  abbrev block : Block
  block = record { height = height; timestamp = timestamp; events = event ∷ [] }

  abbrev nothing : PreloadIds
  nothing = record { match_ids = []; user_ids = [] }

  bonus_ids : collect_blocks decode program_id (block ∷ []) nothing ≡ nothing
  unfolding collect_blocks collect_events collect_preload_ids
  bonus_ids = rw (own, decoded)

  bonus_handled :
      (handle_blocks store decode program_id (block ∷ []) db clear).user_stats
      ≡ (u, bonus_row u bonus (or_zero timestamp)) ∷ []
  unfolding handle_blocks handle_events handle_event project touch_user on_activity apply_delta
      lookup insert
  bonus_handled = rw (own, decoded, handle_event) (ground arith)

  -- `process` after its first loop.
  abbrev go_on : PreloadIds → Option HandlerState
  go_on ids = elim (preload_matches store ids.match_ids db clear) [
    | none ↦ none
    | some with_matches ↦ elim (preload_user_stats store ids.user_ids db with_matches) [
      | none ↦ none
      | some loaded ↦ some (handle_blocks store decode program_id (block ∷ []) db loaded)
    ]
  ]

  bonus_process :
      (s : HandlerState)
      → process store decode program_id (block ∷ []) db ≡ some s
      → s ≡ handle_blocks store decode program_id (block ∷ []) db clear
  unfolding process preload_matches preload_user_stats
  bonus_process s h = of_some (sym h ∙ ap go_on bonus_ids)

  -- A batch of one podium bonus writes over the row that the database holds for the user: whatever
  -- it was, all counts and amounts are then zero, and the points are the bonus alone.
  pub bonus-overwrites :
      run_batch store decode program_id (block ∷ []) db ≡ some db'
      → laws.stat db' u ≡ some (bonus_row u bonus (or_zero timestamp))
  unfolding lookup
  bonus-overwrites h =
      let (s, ran, saved) = run_batch-inv store decode program_id (block ∷ []) db db' h in
      let e = ap (λ (x : HandlerState). x.user_stats) (bonus_process s ran) ∙ bonus_handled in
      save_state-stat store laws u s db db' (rw e (refl, refl, tt)) saved
      ∙ ap (λ x. or_else (lookup u x) (laws.stat db u)) e
      ∙ rw (eq_refl u)
