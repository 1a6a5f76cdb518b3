-- ===== src/Indexer/Batch/Counted.antt =====
-- A user's totals after the events of a batch.
use smartcupleague.Prelude.{
  ℕ, ◌+◌, ◌≡◌, ap, ◌∙◌, inl, inr, String, Option, true, List, [], ◌∷◌, ◌++◌, arith, sum_of,
  sum_of-append,
}
use smartcupleague.Indexer.Events.{Payload, OutputMessage, ChainEvent, Block}
use smartcupleague.Indexer.State.{HandlerState}
use smartcupleague.Indexer.Store.{Store, StatLaws}
use smartcupleague.Indexer.Process.{handle_events, handle_blocks}
use smartcupleague.Indexer.Stats.Touch.{Tally, IsLoaded, StatsAreKeyed, total}
use smartcupleague.Indexer.Stats.Fold.{
  touch_of, gain, IsQuiet, project-total, project-IsLoaded, project-StatsAreKeyed,
}
use smartcupleague.Indexer.Batch.Messages.{
  touched, touched-append, message_of, event_messages, messages, one_event, event_cases,
}

abbrev pub gains : Tally → String → List Payload → ℕ
gains g u = sum_of (λ p. gain g u (touch_of p))

module _ (decode : String → Option OutputMessage) (program_id : String) (store : Store)
    (laws : StatLaws store) (u : String) (db : store.Db) where
  abbrev row : Option smartcupleague.Indexer.Entities.UserStat
  row = laws.stat db u

  module _ (event : ChainEvent) (b t : ℕ) (s : HandlerState) where
    abbrev after : HandlerState
    after = one_event decode program_id store event b t db s

    abbrev said : List Payload
    said = message_of decode program_id event

    event-total :
        (g : Tally)
        → IsQuiet g
        → (touched u said ≡ true → IsLoaded row u s)
        → total row u g after ≡ total row u g s + gains g u said
    event-total g q h = elim (event_cases decode program_id store event b t db s) [
      | inl (e, same) ↦ ap (total row u g) same ∙ rw e (omega arith)
      | inr (p, e, projected) ↦
          ap (total row u g) projected
          ∙ project-total store laws u db event.message_id b t s g p q
              (λ m. h (rw e (ground arith)))
          ∙ rw e (omega arith)
    ]

    event-IsLoaded : IsLoaded row u s → IsLoaded row u after
    event-IsLoaded h = elim (event_cases decode program_id store event b t db s) [
      | inl (e, same) ↦ rw same h
      | inr (p, e, projected) ↦
          rw projected (project-IsLoaded store laws u db event.message_id b t s p h)
    ]

    event-StatsAreKeyed : StatsAreKeyed s → StatsAreKeyed after
    event-StatsAreKeyed h = elim (event_cases decode program_id store event b t db s) [
      | inl (e, same) ↦ rw same h
      | inr (p, e, projected) ↦
          rw projected (project-StatsAreKeyed store laws u db event.message_id b t s p h)
    ]

  -- The three facts about a stretch of the batch that goes from `s` to `s'` and says `ps`.
  pub record Counted (s s' : HandlerState) (ps : List Payload) : Type 0 where
    pub totals :
        (g : Tally)
        → IsQuiet g
        → (touched u ps ≡ true → IsLoaded row u s)
        → total row u g s' ≡ total row u g s + gains g u ps
    pub loaded : IsLoaded row u s → IsLoaded row u s'
    pub keyed : StatsAreKeyed s → StatsAreKeyed s'

  Counted-nil : (s : HandlerState) → Counted s s []
  Counted-nil s = record { totals = λ g q h. omega arith; loaded = λ h. h; keyed = λ h. h }

  Counted-append :
      (s s' s'' : HandlerState) (ps qs : List Payload)
      → Counted s s' ps
      → Counted s' s'' qs
      → Counted s s'' (ps ++ qs)
  Counted-append s s' s'' ps qs a b = record {
    totals = λ g q h.
        b.totals g q (λ m. a.loaded (h (ground (arith, touched-append u ps qs))))
        ∙ omega (
          arith,
          a.totals g q (λ m. h (ground (arith, touched-append u ps qs))),
          sum_of-append (λ p. gain g u (touch_of p)) ps qs,
        );
    loaded = λ h. b.loaded (a.loaded h);
    keyed = λ h. b.keyed (a.keyed h);
  }

  event-Counted :
      (event : ChainEvent) (b t : ℕ) (s : HandlerState)
      → Counted s
          (one_event decode program_id store event b t db s)
          (message_of decode program_id event)
  event-Counted event b t s = record {
    totals = event-total event b t s;
    loaded = event-IsLoaded event b t s;
    keyed = event-StatsAreKeyed event b t s;
  }

  handle_events-Counted :
      (events : List ChainEvent) (b t : ℕ) (s : HandlerState)
      → Counted s
          (handle_events store decode program_id events b t db s)
          (event_messages decode program_id events)
  unfolding handle_events
  handle_events-Counted [] b t s = Counted-nil s
  handle_events-Counted (event ∷ events) b t s =
      Counted-append s _ _ _ _ (event-Counted event b t s) (handle_events-Counted events b t _)

  pub handle_blocks-Counted :
      (blocks : List Block) (s : HandlerState)
      → Counted s
          (handle_blocks store decode program_id blocks db s)
          (messages decode program_id blocks)
  unfolding handle_blocks
  handle_blocks-Counted [] s = Counted-nil s
  handle_blocks-Counted (block ∷ blocks) s =
      Counted-append s _ _ _ _ (handle_events-Counted block.events _ _ s)
        (handle_blocks-Counted blocks _)
