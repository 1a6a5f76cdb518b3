-- ===== src/Indexer/Batch/Messages.antt =====
-- The messages of a batch: the payloads of the program's own events, in their order.
use smartcupleague.Prelude.{
  ℕ, ◌≡◌, refl, ◌⊎◌, inl, inr, String, Option, none, some, Bool, false, ◌||◌, List, [], ◌∷◌, ◌++◌,
  arith, ◌==◌, string_eq, if◌then◌else◌, Bool-cases, Option-cases,
}
use smartcupleague.Indexer.Events.{Payload, OutputMessage, ChainEvent, Block}
use smartcupleague.Indexer.State.{HandlerState}
use smartcupleague.Indexer.Store.{Store}
use smartcupleague.Indexer.Preload.{is_program_event}
use smartcupleague.Indexer.Process.{handle_event, project}
use smartcupleague.Indexer.Stats.Fold.{touch_of, touches}

-- Does one of the messages touch `u`?
abbrev pub touched : String → List Payload → Bool
touched u [] = false
touched u (p ∷ ps) = touches u (touch_of p) || touched u ps

pub touched-append :
    (u : String) (ps qs : List Payload) → touched u (ps ++ qs) ≡ (touched u ps || touched u qs)
touched-append u [] qs = refl
touched-append u (p ∷ ps) qs = ground (arith, touched-append u ps qs)

module _ (decode : String → Option OutputMessage) (program_id : String) where
  -- The message of an event, if it is one of the program's service.
  abbrev pub message_of : ChainEvent → List Payload
  message_of event =
      if is_program_event program_id event
      then elim (decode event.raw_payload) [
        | none ↦ []
        | some message ↦ if message.service == "Service" then message.payload ∷ [] else []
      ]
      else []

  abbrev pub event_messages : List ChainEvent → List Payload
  event_messages [] = []
  event_messages (event ∷ events) = message_of event ++ event_messages events

  abbrev pub messages : List Block → List Payload
  messages [] = []
  messages (block ∷ blocks) = event_messages block.events ++ messages blocks

  -- An event that is handled is its message projected, or changes nothing.
  abbrev pub one_event :
      (store : Store) → ChainEvent → ℕ → ℕ → store.Db → HandlerState → HandlerState
  one_event store event b t db s =
      if is_program_event program_id event
      then (handle_event store decode program_id event b t db s).0
      else s

  pub event_cases :
      (store : Store) (event : ChainEvent) (b t : ℕ) (db : store.Db) (s : HandlerState)
      → ((message_of event ≡ []) × (one_event store event b t db s ≡ s))
        ⊎ ((p : Payload) × (message_of event ≡ p ∷ [])
            × (one_event store event b t db s ≡ (project store p event.message_id b t db s).0))
  unfolding handle_event
  event_cases store event b t db s = elim (Bool-cases (is_program_event program_id event)) [
    | inr foreign ↦ inl (rw foreign, rw foreign)
    | inl own ↦ elim (Option-cases (decode event.raw_payload)) [
      | inl unknown ↦ inl (rw (own, unknown), rw (own, unknown, handle_event))
      | inr (message, known) ↦ elim (Bool-cases (message.service == "Service")) [
        | inl service ↦
            inr (message.payload, rw (own, known, service), rw (own, known, service, handle_event))
        | inr other ↦ inl (rw (own, known, other), rw (own, known, other, handle_event))
      ]
    ]
  ]
