-- ===== src/Indexer/Batch/Preloaded.antt =====
-- The users whose rows a batch loads before it handles its events, and those that its messages
-- touch.
use smartcupleague.Prelude.{
  ◌≡◌, refl, inl, inr, String, Option, none, some, Bool, true, false, ◌||◌, List, [], ◌∷◌, ◌++◌,
  arith, includes, ◌==◌, string_eq, if◌then◌else◌, Bool-cases, Option-cases,
}
use smartcupleague.Indexer.Events.{Payload, OutputMessage, ChainEvent, Block}
use smartcupleague.Indexer.State.{add_to_set}
use smartcupleague.Indexer.Preload.{
  PreloadIds, collect_preload_ids, is_program_event, collect_events, collect_blocks,
}
use smartcupleague.Indexer.Stats.Load.{includes-add_to_set}
use smartcupleague.Indexer.Stats.Fold.{touch_of, touches}
use smartcupleague.Indexer.Batch.Messages.{
  touched, touched-append, message_of, event_messages, messages,
}

-- Does one of the messages give `u` a podium bonus?
abbrev pub has_bonus : String → List Payload → Bool
has_bonus u [] = false
has_bonus u (Payload.podium_bonus_awarded user bonus ∷ ps) = user == u || has_bonus u ps
has_bonus u (_ ∷ ps) = has_bonus u ps

abbrev is_bonus : Payload → Bool
is_bonus (Payload.podium_bonus_awarded user bonus) = true
is_bonus _ = false

module _ (u : String) where
  abbrev Has : PreloadIds → Type 0
  Has ids = includes u ids.user_ids ≡ true

  add_to_set-keeps :
      (v : String) (l : List String) → includes u l ≡ true → includes u (add_to_set v l) ≡ true
  add_to_set-keeps v l h = ground (arith, includes-add_to_set u v l)

  add_to_set-adds :
      (v : String) (l : List String) → (v == u) ≡ true → includes u (add_to_set v l) ≡ true
  add_to_set-adds v l h = ground (arith, includes-add_to_set u v l)

  collect-keeps : (p : Payload) (ids : PreloadIds) → Has ids → Has (collect_preload_ids p ids)
  unfolding collect_preload_ids
  collect-keeps (Payload.bet_accepted v m score penalty stake) ids h = add_to_set-keeps v _ h
  collect-keeps (Payload.points_awarded v m points) ids h = add_to_set-keeps v _ h
  collect-keeps (Payload.match_reward_claimed m v amount) ids h = add_to_set-keeps v _ h
  collect-keeps (Payload.final_prize_claimed v amount) ids h = add_to_set-keeps v _ h
  collect-keeps (Payload.refund_claimed v amount) ids h = add_to_set-keeps v _ h
  collect-keeps _ ids h = h

  collect-adds :
      (p : Payload) (ids : PreloadIds)
      → is_bonus p ≡ false
      → touches u (touch_of p) ≡ true
      → Has (collect_preload_ids p ids)
  unfolding collect_preload_ids
  collect-adds (Payload.bet_accepted v m score penalty stake) ids b h = add_to_set-adds v _ h
  collect-adds (Payload.points_awarded v m points) ids b h = add_to_set-adds v _ h
  collect-adds (Payload.match_reward_claimed m v amount) ids b h = add_to_set-adds v _ h
  collect-adds (Payload.final_prize_claimed v amount) ids b h = add_to_set-adds v _ h
  collect-adds (Payload.refund_claimed v amount) ids b h = add_to_set-adds v _ h
  collect-adds _ ids b h = cc

  collect-touched :
      (p : Payload) (ids : PreloadIds)
      → has_bonus u (p ∷ []) ≡ false
      → touched u (p ∷ []) ≡ true
      → Has (collect_preload_ids p ids)
  collect-touched (Payload.podium_bonus_awarded v bonus) ids b h = absurd (ground arith)
  collect-touched p ids b h = collect-adds p ids refl (ground arith)

  touched-nothing : touched u [] ≡ true → ⊥
  touched-nothing h = cc

  has_bonus-append :
      (ps qs : List Payload) → has_bonus u (ps ++ qs) ≡ (has_bonus u ps || has_bonus u qs)
  has_bonus-append [] qs = refl
  has_bonus-append (Payload.podium_bonus_awarded v bonus ∷ ps) qs =
      ground (arith, has_bonus-append ps qs)
  has_bonus-append (p ∷ ps) qs = has_bonus-append ps qs

  has_bonus-parts :
      (ps qs : List Payload)
      → has_bonus u (ps ++ qs) ≡ false
      → (has_bonus u ps ≡ false) × (has_bonus u qs ≡ false)
  has_bonus-parts ps qs h = ground (arith, has_bonus-append ps qs)

  touched-later :
      (ps qs : List Payload)
      → touched u (ps ++ qs) ≡ true
      → touched u ps ≡ false
      → touched u qs ≡ true
  touched-later ps qs h n = ground (arith, touched-append u ps qs)

  module _ (decode : String → Option OutputMessage) (program_id : String) where
    -- The ids after the first loop has passed one event.
    abbrev one_event : ChainEvent → PreloadIds → PreloadIds
    one_event event ids =
        if is_program_event program_id event
        then elim (decode event.raw_payload) [
          | none ↦ ids
          | some message ↦ collect_preload_ids message.payload ids
        ]
        else ids

    event-keeps : (event : ChainEvent) (ids : PreloadIds) → Has ids → Has (one_event event ids)
    event-keeps event ids h = elim (Bool-cases (is_program_event program_id event)) [
      | inr foreign ↦ rw foreign h
      | inl own ↦ elim (Option-cases (decode event.raw_payload)) [
        | inl unknown ↦ rw (own, unknown) h
        | inr (message, known) ↦ rw (own, known) (collect-keeps message.payload ids h)
      ]
    ]

    event-adds :
        (event : ChainEvent) (ids : PreloadIds)
        → has_bonus u (message_of decode program_id event) ≡ false
        → touched u (message_of decode program_id event) ≡ true
        → Has (one_event event ids)
    event-adds event ids b h = elim (Bool-cases (is_program_event program_id event)) [
      | inr foreign ↦ absurd (ground arith)
      | inl own ↦ elim (Option-cases (decode event.raw_payload)) [
        | inl unknown ↦ absurd (ground arith)
        | inr (message, known) ↦ elim (Bool-cases (message.service == "Service")) [
          | inr other ↦ absurd (touched-nothing (rw (own, known, other) at h))
          | inl service ↦
              rw (own, known)
                (collect-touched message.payload ids (rw (own, known, service) at b)
                  (rw (own, known, service) at h))
        ]
      ]
    ]

    collect_events-keeps :
        (events : List ChainEvent) (ids : PreloadIds)
        → Has ids
        → Has (collect_events decode program_id events ids)
    unfolding collect_events
    collect_events-keeps [] ids h = h
    collect_events-keeps (event ∷ events) ids h =
        collect_events-keeps events (one_event event ids) (event-keeps event ids h)

    collect_events-adds :
        (events : List ChainEvent) (ids : PreloadIds)
        → has_bonus u (event_messages decode program_id events) ≡ false
        → touched u (event_messages decode program_id events) ≡ true
        → Has (collect_events decode program_id events ids)
    unfolding collect_events
    collect_events-adds [] ids b h = cc
    collect_events-adds (event ∷ events) ids b h =
        let said = message_of decode program_id event in
        let later = event_messages decode program_id events in
        let (b1, b2) = has_bonus-parts said later b in
        elim (Bool-cases (touched u said)) [
          | inl now ↦ collect_events-keeps events _ (event-adds event ids b1 now)
          | inr not_now ↦ collect_events-adds events _ b2 (touched-later said later h not_now)
        ]

    collect_blocks-keeps :
        (blocks : List Block) (ids : PreloadIds)
        → Has ids
        → Has (collect_blocks decode program_id blocks ids)
    unfolding collect_blocks
    collect_blocks-keeps [] ids h = h
    collect_blocks-keeps (block ∷ blocks) ids h =
        collect_blocks-keeps blocks _ (collect_events-keeps block.events ids h)

    -- A user whom a batch touches, and gives no podium bonus, is among those whose rows it loads.
    pub collect_blocks-adds :
        (blocks : List Block) (ids : PreloadIds)
        → has_bonus u (messages decode program_id blocks) ≡ false
        → touched u (messages decode program_id blocks) ≡ true
        → Has (collect_blocks decode program_id blocks ids)
    unfolding collect_blocks
    collect_blocks-adds [] ids b h = cc
    collect_blocks-adds (block ∷ blocks) ids b h =
        let said = event_messages decode program_id block.events in
        let later = messages decode program_id blocks in
        let (b1, b2) = has_bonus-parts said later b in
        elim (Bool-cases (touched u said)) [
          | inl now ↦ collect_blocks-keeps blocks _ (collect_events-adds block.events ids b1 now)
          | inr not_now ↦ collect_blocks-adds blocks _ b2 (touched-later said later h not_now)
        ]
