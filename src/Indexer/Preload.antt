-- ===== src/Indexer/Preload.antt =====
-- `collectPreloadIds`, `preloadMatches`, `preloadUserStats` and the first loop of `process` (indexer/src/handlers/bolao.ts): the
-- rows that a batch reads before its events are handled.
use smartcupleague.Prelude.{
  ℕ, String, Option, none, some, List, [], ◌∷◌, ◌++◌, nat_eq, includes, ◌==◌, ◌&&◌, Bool,
  if◌then◌else◌, insert_all, string_eq,
}
use smartcupleague.Indexer.Events.{
  Payload, OutputMessage, ChainEvent, Block, is_user_message_sent_event, is_sails_event,
}
use smartcupleague.Indexer.State.{HandlerState, add_to_set}
use smartcupleague.Indexer.Store.{Store}

-- The ids that a batch refers to: of matches, and of users.
pub record PreloadIds : Type 0 where
  pub match_ids : List ℕ
  pub user_ids : List String

abbrev add_match : ℕ → PreloadIds → PreloadIds
add_match m p = record p {
  match_ids = if includes m p.match_ids then p.match_ids else p.match_ids ++ m ∷ [];
}

abbrev add_user : String → PreloadIds → PreloadIds
add_user u p = record p { user_ids = add_to_set u p.user_ids }

unfoldable pub collect_preload_ids : Payload → PreloadIds → PreloadIds
collect_preload_ids (Payload.bet_accepted user m score penalty stake) p =
    add_user user (add_match m p)
collect_preload_ids (Payload.points_awarded user m points) p = add_user user (add_match m p)
collect_preload_ids (Payload.match_reward_claimed m user amount) p = add_user user (add_match m p)
collect_preload_ids (Payload.final_prize_claimed user amount) p = add_user user p
collect_preload_ids (Payload.result_proposed m score penalty) p = add_match m p
collect_preload_ids (Payload.result_finalized m score penalty) p = add_match m p
collect_preload_ids (Payload.settlement_prepared m) p = add_match m p
collect_preload_ids (Payload.match_cancelled m total) p = add_match m p
collect_preload_ids (Payload.refund_claimed user amount) p = add_user user p
collect_preload_ids _ p = p

module _ (store : Store) where
  open store use {Db, find_matches, find_user_stats}

  unfoldable pub preload_matches : List ℕ → Db → HandlerState → Option HandlerState
  preload_matches [] db s = some s
  preload_matches (m ∷ ms) db s = elim (find_matches (m ∷ ms) db) [
    | none ↦ none
    | some rows ↦ some (record s { matches = insert_all (λ r. r.id) rows s.matches })
  ]

  unfoldable pub preload_user_stats : List String → Db → HandlerState → Option HandlerState
  preload_user_stats [] db s = some s
  preload_user_stats (u ∷ us) db s = elim (find_user_stats (u ∷ us) db) [
    | none ↦ none
    | some rows ↦ some (record s { user_stats = insert_all (λ r. r.id) rows s.user_stats })
  ]

unfoldable pub is_program_event : String → ChainEvent → Bool
unfolding is_user_message_sent_event is_sails_event
is_program_event program_id event =
    is_user_message_sent_event event && event.source == program_id && is_sails_event event

module _ (decode : String → Option OutputMessage) (program_id : String) where
  -- The first loop over the events of a block; `catch` skips what cannot be decoded.
  unfoldable pub collect_events : List ChainEvent → PreloadIds → PreloadIds
  collect_events [] ids = ids
  collect_events (event ∷ events) ids = collect_events events (
      if is_program_event program_id event
      then elim (decode event.raw_payload) [
        | none ↦ ids
        | some message ↦ collect_preload_ids message.payload ids
      ]
      else ids)

  unfoldable pub collect_blocks : List Block → PreloadIds → PreloadIds
  collect_blocks [] ids = ids
  collect_blocks (block ∷ blocks) ids = collect_blocks blocks (collect_events block.events ids)
