-- ===== src/Indexer/Process.antt =====
-- `handleEvent`, `process` and `save` of `BolaoHandler` (indexer/src/handlers/bolao.ts), and the
-- batch callback of indexer/src/main.ts. `decode` is `SailsDecoder.decodeEvent` over sails-js, and
-- `none` that it throws. The warnings that are logged are left out.
use Prim.Native.String.{◌++◌ as append}
use smartcupleague.Prelude.{
  ℕ, String, Option, none, some, Bool, true, false, List, [], ◌∷◌, ◌==◌, string_eq, if◌then◌else◌,
  values,
}
use smartcupleague.Prelude.{is_nil}
use smartcupleague.Indexer.Entities.{ActivityRecord}
use smartcupleague.Indexer.Events.{Payload, OutputMessage, ChainEvent, Block}
use smartcupleague.Indexer.State.{HandlerState, clear, no_delta, touch_user, on_activity}
use smartcupleague.Indexer.Handlers.{
  on_match_registered, on_bet_accepted, on_result_proposed, on_settlement_prepared,
  on_points_awarded, on_match_reward_claimed, on_final_prize_claimed, on_match_cancelled,
  on_refund_claimed,
}
use smartcupleague.Indexer.Store.{
  Store, Rows, match_rows, bet_rows, stat_rows, reward_rows, prize_rows, refund_rows, activity_rows,
}
use smartcupleague.Indexer.Preload.{
  is_program_event, collect_blocks, preload_matches, preload_user_stats,
}
use smartcupleague.Indexer.Accuracy.{on_result_finalized}

-- A record of no match and no amount, as the events of phases and of the podium make it.
abbrev plain_activity :
    String → String → Option String → Option ℕ → Option String → ℕ → ℕ → ActivityRecord
plain_activity msg_id activity_type user points meta block_number timestamp = record {
  id = msg_id;
  activity_type = activity_type;
  user = user;
  match_id = none;
  amount_raw = none;
  points = points;
  meta = meta;
  block_number = block_number;
  timestamp = timestamp;
}

-- `JSON.stringify({ key: payload })`, from the payload's JSON text.
abbrev object_json : String → String → String
object_json key json = append "{\"" (append key (append "\":" (append json "}")))

-- `t ?? 0`
abbrev pub or_zero : Option ℕ → ℕ
or_zero none = 0
or_zero (some t) = t

module _ (store : Store) where
  open store use {Db, save}

  -- The `switch` of `handleEvent`: the state in which it leaves the batch, and whether it returned.
  -- What was written before an error stays written.
  unfoldable pub project :
      Payload
      → (msg_id : String) (block_number timestamp : ℕ) → Db
      → HandlerState
      → HandlerState × Bool
  project (Payload.match_registered m phase home away kick_off) id b t db s =
      (on_match_registered m phase home away kick_off t s, true)
  project (Payload.phase_registered json) id b t db s = (
    on_activity
        (plain_activity id "PHASE_REGISTERED" none none (some (object_json "phase" json)) b t) s,
    true,
  )
  project (Payload.bet_accepted user m score penalty stake) id b t db s =
      (on_bet_accepted id user m score penalty stake b t s, true)
  project (Payload.result_proposed m score penalty) id b t db s =
      (on_result_proposed m score penalty t s, true)
  project (Payload.result_finalized m score penalty) id b t db s =
      on_result_finalized store m score penalty t db s
  project (Payload.settlement_prepared m) id b t db s = (on_settlement_prepared m t s, true)
  project (Payload.points_awarded user m points) id b t db s =
      (on_points_awarded id user m points b t s, true)
  project (Payload.match_reward_claimed m user amount) id b t db s =
      (on_match_reward_claimed id m user amount b t s, true)
  project (Payload.final_prize_claimed user amount) id b t db s =
      (on_final_prize_claimed id user amount b t s, true)
  project (Payload.podium_finalized json) id b t db s = (
    on_activity
        (plain_activity id "PODIUM_FINALIZED" none none (some (object_json "podium" json)) b t) s,
    true,
  )
  project (Payload.podium_bonus_awarded user bonus) id b t db s = (
    touch_user user t (record no_delta { add_points = some bonus })
        (on_activity (plain_activity id "PODIUM_BONUS" (some user) (some bonus) none b t) s),
    true,
  )
  project (Payload.match_cancelled m total) id b t db s =
      (on_match_cancelled id m total b t s, true)
  project (Payload.refund_claimed user amount) id b t db s =
      (on_refund_claimed id user amount b t s, true)
  project Payload.other id b t db s = (s, true)

  -- `if (entities.length > 0) await store.save(entities)`
  unfoldable pub save_rows : Bool → Rows → Db → Option Db
  save_rows true rows db = some db
  save_rows false rows db = save rows db

  abbrev pub then_save : Bool → Rows → Option Db → Option Db
  then_save is_empty rows none = none
  then_save is_empty rows (some db) = save_rows is_empty rows db

  unfoldable pub save_state : HandlerState → Db → Option Db
  unfolding save_rows
  save_state s db = then_save (is_nil s.activity) (activity_rows (values s.activity)) (
      then_save (is_nil s.refunds) (refund_rows (values s.refunds)) (
        then_save (is_nil s.prizes) (prize_rows (values s.prizes)) (
          then_save (is_nil s.rewards) (reward_rows (values s.rewards)) (
            then_save (is_nil s.user_stats) (stat_rows (values s.user_stats)) (
              then_save (is_nil s.bets) (bet_rows (values s.bets))
                (then_save (is_nil s.matches) (match_rows (values s.matches)) (some db)))))))

  module _ (decode : String → Option OutputMessage) (program_id : String) where
    unfoldable pub handle_event : ChainEvent → ℕ → ℕ → Db → HandlerState → HandlerState × Bool
    handle_event event block_number timestamp db s = elim (decode event.raw_payload) [
      | none ↦ (s, false)
      | some message ↦
          if message.service == "Service"
          then project message.payload event.message_id block_number timestamp db s
          else (s, true)
    ]

    -- The second loop; `catch` logs the error and goes on from the state that the event left.
    unfoldable pub handle_events : List ChainEvent → ℕ → ℕ → Db → HandlerState → HandlerState
    handle_events [] block_number timestamp db s = s
    handle_events (event ∷ events) block_number timestamp db s =
        handle_events events block_number timestamp db (
          if is_program_event program_id event
          then (handle_event event block_number timestamp db s).0
          else s)

    unfoldable pub handle_blocks : List Block → Db → HandlerState → HandlerState
    handle_blocks [] db s = s
    handle_blocks (block ∷ blocks) db s =
        handle_blocks blocks db
          (handle_events block.events block.height (or_zero block.timestamp) db s)

    -- `none`: a query of the preload failed, and the batch is given up.
    unfoldable pub process : List Block → Db → Option HandlerState
    process blocks db =
        let ids =
          collect_blocks decode program_id blocks (record { match_ids = []; user_ids = [] }) in
        elim (preload_matches store ids.match_ids db clear) [
          | none ↦ none
          | some with_matches ↦ elim (preload_user_stats store ids.user_ids db with_matches) [
            | none ↦ none
            | some loaded ↦ some (handle_blocks blocks db loaded)
          ]
        ]

    -- The callback of `processor.run`.
    unfoldable pub run_batch : List Block → Db → Option Db
    run_batch blocks db = elim (process blocks db) [ none ↦ none | some s ↦ save_state s db ]
