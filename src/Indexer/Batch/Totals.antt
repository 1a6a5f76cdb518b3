-- ===== src/Indexer/Batch/Totals.antt =====
-- The user statistics after a batch: those before it, and what its messages say.
use smartcupleague.Prelude.{
  ℕ, ◌+◌, ◌≡◌, refl, ap, ◌∙◌, inl, inr, String, Option, none, some, true, List, [], ◌∷◌, arith,
  includes, string_eq, Option-cases, lookup, or_else,
}
use smartcupleague.Indexer.Events.{Payload, OutputMessage, Block}
use smartcupleague.Indexer.State.{HandlerState, clear, or_new}
use smartcupleague.Indexer.Store.{Store, StatLaws}
use smartcupleague.Indexer.Preload.{collect_blocks, preload_matches, preload_user_stats}
use smartcupleague.Indexer.Process.{handle_blocks, save_state, process, run_batch}
use smartcupleague.Indexer.Stats.Touch.{Tally, view, IsLoaded, StatsAreKeyed, total}
use smartcupleague.Indexer.Stats.Load.{load-StatsAreKeyed, view-load, load-IsLoaded}
use smartcupleague.Indexer.Stats.Fold.{IsQuiet}
use smartcupleague.Indexer.Batch.Messages.{touched, messages}
use smartcupleague.Indexer.Batch.Counted.{gains, handle_blocks-Counted}
use smartcupleague.Indexer.Batch.Saved.{save_state-stat}

preload_matches-user_stats :
    (store : Store) (ms : List ℕ) (db : store.Db) (s : HandlerState)
    → preload_matches store ms db clear ≡ some s
    → s.user_stats ≡ []
unfolding preload_matches
preload_matches-user_stats store [] db s h = ground arith
preload_matches-user_stats store (m ∷ ms) db s h = ground arith

lookup-empty : (u : String) → lookup u clear.user_stats ≡ none
unfolding lookup
lookup-empty u = refl

pub run_batch-inv :
    (store : Store) (decode : String → Option OutputMessage) (program_id : String)
    (blocks : List Block) (db db' : store.Db)
    → run_batch store decode program_id blocks db ≡ some db'
    → (s : HandlerState) × (process store decode program_id blocks db ≡ some s)
      × (save_state store s db ≡ some db')
unfolding run_batch
run_batch-inv store decode program_id blocks db db' h =
    elim (Option-cases (process store decode program_id blocks db)) [
      | inl failed ↦ absurd (ground arith)
      | inr (s, ran) ↦ (s, ran, ground arith)
    ]

module _ (store : Store) (decode : String → Option OutputMessage) (program_id : String) where
  -- The users whose rows the batch loads first.
  abbrev pub loaded_users : List Block → List String
  loaded_users blocks =
      (collect_blocks decode program_id blocks (record { match_ids = []; user_ids = [] })).user_ids

  module _ (laws : StatLaws store) (u : String) (blocks : List Block) (db : store.Db) where
    abbrev said : List Payload
    said = messages decode program_id blocks

    -- The state in which the batch starts to handle its events.
    pub record Started (s : HandlerState) : Type 0 where
      pub viewed : view (laws.stat db u) u s ≡ laws.stat db u
      pub loaded : includes u (loaded_users blocks) ≡ true → IsLoaded (laws.stat db u) u s
      pub keyed : StatsAreKeyed s

    preloads-Started :
        (ms : List ℕ) (s s' : HandlerState)
        → preload_matches store ms db clear ≡ some s
        → preload_user_stats store (loaded_users blocks) db s ≡ some s'
        → Started s'
    preloads-Started ms s s' h k =
        let empty = preload_matches-user_stats store ms db s h in
        let absent =
          λ (l : includes u (loaded_users blocks) ≡ true). ap (lookup u) empty ∙ lookup-empty u in
        record {
          viewed =
              view-load store laws u (loaded_users blocks) db s s' absent k
              ∙ ap (λ o. or_else o (laws.stat db u)) (ap (lookup u) empty ∙ lookup-empty u);
          loaded = load-IsLoaded store laws u (loaded_users blocks) db s s' absent k;
          keyed = load-StatsAreKeyed store (loaded_users blocks) db s s' k (rw empty tt);
        }

    process-Started :
        (s' : HandlerState)
        → process store decode program_id blocks db ≡ some s'
        → (s : HandlerState) × Started s × (s' ≡ handle_blocks store decode program_id blocks db s)
    unfolding process
    process-Started s' h =
        let ids =
          collect_blocks decode program_id blocks (record { match_ids = []; user_ids = [] }) in
        elim (Option-cases (preload_matches store ids.match_ids db clear)) [
          | inl failed ↦ absurd (ground arith)
          | inr (s1, e1) ↦ elim (Option-cases (preload_user_stats store ids.user_ids db s1)) [
            | inl failed ↦ absurd (ground arith)
            | inr (s2, e2) ↦ (s2, preloads-Started ids.match_ids s1 s2 e1 e2, ground arith)
          ]
        ]

    -- A total of the saved row is that of the row before, and what the messages of the batch say.
    pub saved-total :
        (g : Tally) (db' : store.Db)
        → IsQuiet g
        → (touched u said ≡ true → includes u (loaded_users blocks) ≡ true)
        → run_batch store decode program_id blocks db ≡ some db'
        → g.read (or_new u (laws.stat db' u)) ≡ g.read (or_new u (laws.stat db u)) + gains g u said
    saved-total g db' q t h =
        let (s', ran, saved) = run_batch-inv store decode program_id blocks db db' h in
        let (s, start, ends) = process-Started s' ran in
        let counted = handle_blocks-Counted decode program_id store laws u db blocks s in
        let keyed : StatsAreKeyed s' = rw ends (counted.keyed start.keyed) in
        ap (λ o. g.read (or_new u o)) (save_state-stat store laws u s' db db' keyed saved)
        ∙ ap (total (laws.stat db u) u g) ends
        ∙ counted.totals g q (λ m. start.loaded (t m))
        ∙ ap (λ o. g.read (or_new u o) + gains g u said) start.viewed
