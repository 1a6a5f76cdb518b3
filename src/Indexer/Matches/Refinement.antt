-- ===== src/Indexer/Matches/Refinement.antt =====
-- The handler's map of matches beside the machine of each match.
use smartcupleague.Prelude.{
  ℕ, ◌+◌, ◌≡◌, refl, ap, ◌∙◌, sym, inl, inr, String, Option, none, some, List, [], ◌∷◌, arith,
  nat_eq, ◌==◌, if◌then◌else◌, Option-cases, lookup, lookup-insert, lookup-modify, insert, modify,
  Bool, true, false,
}
use mathlib.Core.Option
use smartcupleague.Indexer.Entities.{BolaoMatch, Bet}
use smartcupleague.Indexer.Events.{Score, Payload, OutputMessage, ChainEvent, Block}
use smartcupleague.Indexer.State.{HandlerState, touch_user, on_activity}
use smartcupleague.Indexer.Handlers.{
  on_match_registered, count_bet, on_bet_accepted, on_result_proposed, on_settlement_prepared,
  on_points_awarded, on_match_reward_claimed, on_final_prize_claimed, on_match_cancelled,
  on_refund_claimed,
}
use smartcupleague.Indexer.Store.{Store}
use smartcupleague.Indexer.Preload.{preload_user_stats}
use smartcupleague.Indexer.Accuracy.{
  touch_bets, project_accuracy_for_match, mark_finalized, on_result_finalized, bets_of,
  users_to_load,
}
use smartcupleague.Indexer.Process.{project, handle_events, handle_blocks, or_zero}
use smartcupleague.Indexer.Batch.Messages.{
  message_of, event_messages, messages, one_event, event_cases,
}
use smartcupleague.Indexer.Matches.Machine.{
  MatchView, view_of, when_about, step, steps, steps-append,
}

abbrev pub match_view : ℕ → HandlerState → Option MatchView
match_view m s = Option.map view_of (lookup m s.matches)

touch_bets-matches :
    (final : Score) (penalty : Option String) (t : ℕ) (bets : List Bet) (s : HandlerState)
    → (touch_bets final penalty t bets s).matches ≡ s.matches
unfolding touch_bets touch_user
touch_bets-matches final penalty t [] s = refl
touch_bets-matches final penalty t (b ∷ bs) s = touch_bets-matches final penalty t bs _

map-if :
    (b : Bool) (f : BolaoMatch → BolaoMatch) (g : MatchView → MatchView) (o : Option BolaoMatch)
    → ((r : BolaoMatch) → view_of (f r) ≡ g (view_of r))
    → Option.map view_of (if b then Option.map f o else o)
      ≡ (if b then Option.map g (Option.map view_of o) else Option.map view_of o)
map-if true f g none h = refl
map-if true f g (some r) h = ap some (h r)
map-if false f g o h = refl

some-if :
    (b : Bool) (r : BolaoMatch) (o : Option BolaoMatch)
    → Option.map view_of (if b then some r else o)
      ≡ (if b then some (view_of r) else Option.map view_of o)
some-if true r o = refl
some-if false r o = refl

module _ (store : Store) (db : store.Db) where
  preload_user_stats-matches :
      (ids : List String) (s s' : HandlerState)
      → preload_user_stats store ids db s ≡ some s'
      → s'.matches ≡ s.matches
  unfolding preload_user_stats
  preload_user_stats-matches [] s s' h = ground arith
  preload_user_stats-matches (v ∷ ids) s s' h = ground arith

  projection-matches :
      (m : ℕ) (final : Score) (penalty : Option String) (t : ℕ) (s s' : HandlerState)
      → project_accuracy_for_match store m final penalty t db s ≡ some s'
      → s'.matches ≡ s.matches
  unfolding project_accuracy_for_match
  projection-matches m final penalty t s s' h = elim (Option-cases (store.find_bets m db)) [
    | inl failed ↦ absurd (ground arith)
    | inr (bets, found) ↦
        elim (Option-cases
          (preload_user_stats store (users_to_load s (bets_of m bets s) []) db s)) [
            | inl failed ↦ absurd (ground arith)
            | inr (loaded, loads) ↦
                let ends : touch_bets final penalty t (bets_of m bets s) loaded ≡ s' =
                  ground arith in
                ap (λ (x : HandlerState). x.matches) (sym ends)
                ∙ touch_bets-matches final penalty t _ loaded
                ∙ preload_user_stats-matches _ s loaded loads
          ]
  ]

  -- The accuracy counts leave the matches alone, also when a query fails.
  result-matches :
      (m : ℕ) (final : Score) (penalty : Option String) (t : ℕ) (s : HandlerState)
      → (on_result_finalized store m final penalty t db s).0.matches
        ≡ (mark_finalized m final penalty t s).matches
  unfolding on_result_finalized
  result-matches m final penalty t s =
      let marked = mark_finalized m final penalty t s in
      elim (Option-cases (project_accuracy_for_match store m final penalty t db marked)) [
        | inl failed ↦ rw (failed, on_result_finalized)
        | inr (s', e) ↦
            rw (e, on_result_finalized) (projection-matches m final penalty t marked s' e)
      ]

  module _ (m : ℕ) where
    modified :
        (k : ℕ) (f : BolaoMatch → BolaoMatch) (g : MatchView → MatchView) (s : HandlerState)
        → ((r : BolaoMatch) → view_of (f r) ≡ g (view_of r))
        → Option.map view_of (lookup m (modify k f s.matches)) ≡ when_about m k g (match_view m s)
    modified k f g s h =
        ap (Option.map view_of) (lookup-modify k m f s.matches)
        ∙ map-if (k == m) f g (lookup m s.matches) h

    registered :
        (k : ℕ) (r : BolaoMatch) (s : HandlerState)
        → Option.map view_of (lookup m (insert k r s.matches))
          ≡ (if k == m then some (view_of r) else match_view m s)
    registered k r s =
        ap (Option.map view_of) (lookup-insert k m r s.matches) ∙ some-if (k == m) r _

  -- One message moves the view of a match by the machine's step.
  pub project-step :
      (m : ℕ) (p : Payload) (id : String) (b t : ℕ) (s : HandlerState)
      → match_view m (project store p id b t db s).0 ≡ step m p (match_view m s)
  unfolding project on_match_registered on_bet_accepted on_result_proposed on_settlement_prepared
      on_points_awarded on_match_reward_claimed on_final_prize_claimed on_match_cancelled
      on_refund_claimed on_activity touch_user count_bet mark_finalized
  project-step m (Payload.match_registered k phase home away kick_off) id b t s = registered m k _ s
  project-step m (Payload.bet_accepted user k score penalty stake) id b t s =
      modified m k (count_bet stake t) (λ w. record w { pool = w.pool + stake; bets = w.bets + 1 })
        s (λ r. refl)
  project-step m (Payload.result_proposed k score penalty) id b t s = modified m k _ _ s (λ r. refl)
  project-step m (Payload.result_finalized k score penalty) id b t s =
      ap (λ x. Option.map view_of (lookup m x)) (result-matches k score penalty t s)
      ∙ modified m k _ _ s (λ r. refl)
  project-step m (Payload.settlement_prepared k) id b t s = modified m k _ _ s (λ r. refl)
  project-step m (Payload.match_cancelled k total) id b t s = modified m k _ _ s (λ r. refl)
  project-step m p id b t s = refl

  module _ (decode : String → Option OutputMessage) (program_id : String) (m : ℕ) where
    event-steps :
        (event : ChainEvent) (b t : ℕ) (s : HandlerState)
        → match_view m (one_event decode program_id store event b t db s)
          ≡ steps m (message_of decode program_id event) (match_view m s)
    event-steps event b t s = elim (event_cases decode program_id store event b t db s) [
      | inl (e, same) ↦ ap (match_view m) same ∙ rw e
      | inr (p, e, projected) ↦
          ap (match_view m) projected ∙ project-step m p event.message_id b t s ∙ rw e
    ]

    events-steps :
        (events : List ChainEvent) (b t : ℕ) (s : HandlerState)
        → match_view m (handle_events store decode program_id events b t db s)
          ≡ steps m (event_messages decode program_id events) (match_view m s)
    unfolding handle_events
    events-steps [] b t s = refl
    events-steps (event ∷ events) b t s =
        events-steps events b t _
        ∙ ap (steps m (event_messages decode program_id events)) (event-steps event b t s)
        ∙ sym (steps-append m (message_of decode program_id event) _ (match_view m s))

    -- Handling the blocks of a batch moves the status, the pool and the bet count of every match as
    -- the machine of that match moves on the messages of the batch, in their order; whether queries
    -- fail does not matter.
    pub handle_blocks-steps :
        (blocks : List Block) (s : HandlerState)
        → match_view m (handle_blocks store decode program_id blocks db s)
          ≡ steps m (messages decode program_id blocks) (match_view m s)
    unfolding handle_blocks
    handle_blocks-steps [] s = refl
    handle_blocks-steps (block ∷ blocks) s =
        handle_blocks-steps blocks _
        ∙ ap (steps m (messages decode program_id blocks))
            (events-steps block.events block.height (or_zero block.timestamp) s)
        ∙ sym (steps-append m (event_messages decode program_id block.events) _ (match_view m s))
