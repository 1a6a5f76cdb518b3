-- ===== src/Indexer/Examples.antt =====
-- Runs of the indexer's model on a store in memory: a match is registered, two users bet on it, and
-- its result is finalized.
use smartcupleague.Prelude.{
  ◌+◌, ◌≡◌, refl, String, Option, none, some, true, false, List, [], ◌∷◌, ◌==◌, string_eq,
  if◌then◌else◌, insert, lookup, values, modify, insert_all,
}
use smartcupleague.Indexer.Entities.{UserStat, Bet}
use smartcupleague.Indexer.Events.{Score, Payload, OutputMessage, ChainEvent, Block}
use smartcupleague.Indexer.State.{HandlerState, clear, new_stat, or_new}
use smartcupleague.Indexer.Table.{Tables, saved_stat, table_store, table_laws}
use smartcupleague.Indexer.Outcome.{score_outcome, normalize_penalty_winner}
use smartcupleague.Indexer.Outcome.Feed.{leader, score_outcome-resolve}
use smartcupleague.Oracle.Result.{PenaltyWinner, FeedScore, resolve_on_field_result, strip_shootout}
use smartcupleague.Oracle.Result.Laws.{side}
use smartcupleague.Indexer.Events.{is_user_message_sent_event, is_sails_event}
use smartcupleague.Indexer.State.{add_to_set, apply_delta, touch_user, on_activity}
use smartcupleague.Indexer.Preload.{
  collect_preload_ids, preload_matches, preload_user_stats, is_program_event, collect_events,
  collect_blocks,
}
use smartcupleague.Indexer.Handlers.{
  on_match_registered, count_bet, on_bet_accepted, on_points_awarded,
}
use smartcupleague.Indexer.Accuracy.{
  users_to_load, is_exact, is_outcome, touch_bets, bets_of, mark_finalized, on_result_finalized,
}
use smartcupleague.Indexer.Process.{
  project, save_rows, save_state, handle_event, handle_events, handle_blocks, process, run_batch,
}
use smartcupleague.Indexer.Accuracy.{project_accuracy_for_match}
use smartcupleague.Indexer.Batch.Stats.{Accounts, run_batch-Accounts, projection-counts, hits}
use smartcupleague.Indexer.Batch.Messages.{messages}
use smartcupleague.Indexer.Batch.Preloaded.{has_bonus}
use smartcupleague.Indexer.Batch.Bonus.{bonus-overwrites, bonus_row}
use smartcupleague.Indexer.Matches.Machine.{steps}
use smartcupleague.Indexer.Stats.Touch.{view}
use smartcupleague.Indexer.Matches.Refinement.{handle_blocks-steps, match_view}

abbrev service_message : Payload → Option OutputMessage
service_message payload = some (record { service = "Service"; payload = payload })

-- The payloads of the sample, by their names.
abbrev decode_sample : String → Option OutputMessage
decode_sample raw =
    if raw == "match"
    then service_message (Payload.match_registered 7 "groups" "MEX" "RSA" 1000)
    else if raw == "bet"
    then service_message (Payload.bet_accepted "ana" 7 (record { home = 2; away = 1 }) none 50)
    else if raw == "bet2"
    then service_message (Payload.bet_accepted "ben" 7 (record { home = 1; away = 0 }) none 30)
    else if raw == "final"
    then service_message (Payload.result_finalized 7 (record { home = 2; away = 1 }) none)
    else if raw == "points"
    then service_message (Payload.points_awarded "ana" 7 3)
    else if raw == "bonus"
    then service_message (Payload.podium_bonus_awarded "ana" 5)
    else none

abbrev sample_event : String → String → ChainEvent
sample_event id raw = record {
  name = "Gear.UserMessageSent";
  message_id = id;
  source = "0xb01a0";
  has_details = false;
  raw_payload = raw;
}

abbrev sample_block : Block
sample_block = record {
  height = 12;
  timestamp = some 900;
  events =
      sample_event "m1" "match"
      ∷ sample_event "m2" "bet"
      ∷ sample_event "m3" "bet2"
      ∷ sample_event "m4" "final"
      ∷ sample_event "m5" "points"
      ∷ [];
}

abbrev ana_before : UserStat
ana_before = record (new_stat "ana") { total_bets = 4; total_staked_raw = 400; total_points = 9 }

abbrev tables_before : Tables
tables_before = record { stats = ana_before ∷ []; bets = []; matches = [] }

abbrev run_sample : List Block → Option Tables
run_sample blocks = run_batch table_store decode_sample "0xb01a0" blocks tables_before

abbrev or_before : Option Tables → Tables
or_before none = tables_before
or_before (some db) = db

-- The batch goes through.
sample_runs : run_sample (sample_block ∷ []) ≡ some (or_before (run_sample (sample_block ∷ [])))
unfolding run_batch process save_state save_rows handle_blocks handle_events handle_event project
    collect_blocks collect_events collect_preload_ids preload_matches preload_user_stats
    is_program_event is_user_message_sent_event is_sails_event add_to_set apply_delta touch_user
    on_activity on_match_registered count_bet on_bet_accepted on_points_awarded on_result_finalized
    project_accuracy_for_match mark_finalized bets_of users_to_load touch_bets is_outcome
    score_outcome normalize_penalty_winner lookup insert modify insert_all values
sample_runs = refl

no_bonus : has_bonus "ana" (messages decode_sample "0xb01a0" (sample_block ∷ [])) ≡ false
unfolding is_program_event is_user_message_sent_event is_sails_event
no_bonus = refl

-- The points that are awarded are added to those of the database, and the exact score is counted.
sample_points :
    (or_new "ana" (saved_stat (or_before (run_sample (sample_block ∷ []))) "ana")).total_points ≡ 12
unfolding run_batch process save_state save_rows handle_blocks handle_events handle_event project
    collect_blocks collect_events collect_preload_ids preload_matches preload_user_stats
    is_program_event is_user_message_sent_event is_sails_event add_to_set apply_delta touch_user
    on_activity on_match_registered count_bet on_bet_accepted on_points_awarded on_result_finalized
    project_accuracy_for_match mark_finalized bets_of users_to_load touch_bets is_outcome
    score_outcome normalize_penalty_winner lookup insert modify insert_all values
sample_points = refl

sample_exact :
    (or_new "ana" (saved_stat (or_before (run_sample (sample_block ∷ []))) "ana")).exact_count ≡ 1
unfolding run_batch process save_state save_rows handle_blocks handle_events handle_event project
    collect_blocks collect_events collect_preload_ids preload_matches preload_user_stats
    is_program_event is_user_message_sent_event is_sails_event add_to_set apply_delta touch_user
    on_activity on_match_registered count_bet on_bet_accepted on_points_awarded on_result_finalized
    project_accuracy_for_match mark_finalized bets_of users_to_load touch_bets is_outcome
    score_outcome normalize_penalty_winner lookup insert modify insert_all values
sample_exact = refl

run_batch-Accounts_example :
    Accounts "ana"
      (messages decode_sample "0xb01a0" (sample_block ∷ []))
      (or_new "ana" (table_laws.stat tables_before "ana"))
      (or_new "ana" (table_laws.stat (or_before (run_sample (sample_block ∷ []))) "ana"))
run_batch-Accounts_example =
    run_batch-Accounts table_store table_laws decode_sample "0xb01a0" (sample_block ∷ []) "ana"
      tables_before (or_before (run_sample (sample_block ∷ []))) no_bonus sample_runs

abbrev bets_before : List Bet
bets_before =
    record {
      id = "m2";
      user = "ana";
      match_id = 7;
      match_ref = 7;
      score_home = 2;
      score_away = 1;
      penalty_winner = none;
      stake_raw = 50;
      block_number = 11;
      timestamp = 800;
    }
    ∷ []

abbrev tables_with_bets : Tables
tables_with_bets = record { stats = ana_before ∷ []; bets = bets_before; matches = [] }

abbrev final_score : Score
final_score = record { home = 2; away = 1 }

abbrev project_sample : Option HandlerState
project_sample =
    project_accuracy_for_match table_store 7 final_score none 900 tables_with_bets clear

abbrev or_clear : Option HandlerState → HandlerState
or_clear none = clear
or_clear (some s) = s

projection_runs : project_sample ≡ some (or_clear project_sample)
unfolding project_accuracy_for_match preload_user_stats users_to_load bets_of touch_bets lookup
    insert insert_all values add_to_set
projection_runs = refl

projection-counts_example :
    (db_bets : List Bet) × (table_store.find_bets 7 tables_with_bets ≡ some db_bets)
    × (let before = or_new "ana" (view (table_laws.stat tables_with_bets "ana") "ana" clear) in
        let after =
          or_new "ana"
            (view (table_laws.stat tables_with_bets "ana") "ana" (or_clear project_sample)) in
        let bets = bets_of 7 db_bets clear in
        (after.exact_count ≡ before.exact_count + hits "ana" (is_exact final_score) bets)
        × (after.outcome_count
            ≡ before.outcome_count + hits "ana" (is_outcome final_score none) bets))
projection-counts_example =
    projection-counts table_store table_laws "ana" tables_with_bets 7 final_score none 900 clear
      (or_clear project_sample) projection_runs

handle_blocks-steps_example :
    match_view 7
      (handle_blocks table_store decode_sample "0xb01a0" (sample_block ∷ []) tables_before clear)
    ≡ steps 7 (messages decode_sample "0xb01a0" (sample_block ∷ [])) (match_view 7 clear)
handle_blocks-steps_example =
    handle_blocks-steps table_store tables_before decode_sample "0xb01a0" 7 (sample_block ∷ [])
      clear

abbrev bonus_event : ChainEvent
bonus_event = sample_event "m6" "bonus"

abbrev bonus_block : Block
bonus_block = record { height = 20; timestamp = some 1000; events = bonus_event ∷ [] }

bonus_runs : run_sample (bonus_block ∷ []) ≡ some (or_before (run_sample (bonus_block ∷ [])))
unfolding run_batch process save_state save_rows handle_blocks handle_events handle_event project
    collect_blocks collect_events collect_preload_ids preload_matches preload_user_stats
    is_program_event is_user_message_sent_event is_sails_event add_to_set apply_delta touch_user
    on_activity on_match_registered count_bet on_bet_accepted on_points_awarded on_result_finalized
    project_accuracy_for_match mark_finalized bets_of users_to_load touch_bets is_outcome
    score_outcome normalize_penalty_winner lookup insert modify insert_all values
bonus_runs = refl

bonus_own : is_program_event "0xb01a0" bonus_event ≡ true
unfolding is_program_event is_user_message_sent_event is_sails_event
bonus_own = refl

-- The four bets and nine points of the database are lost.
bonus-overwrites_example :
    table_laws.stat (or_before (run_sample (bonus_block ∷ []))) "ana"
    ≡ some (bonus_row "ana" 5 1000)
bonus-overwrites_example =
    bonus-overwrites table_store table_laws decode_sample "0xb01a0" "ana" 5 bonus_event 20
      (some 1000) tables_before (or_before (run_sample (bonus_block ∷ []))) bonus_own refl
      bonus_runs

-- 1-1 after extra time, and 4-2 in the shootout.
abbrev shootout_score : FeedScore
shootout_score = record {
  duration = some "PENALTY_SHOOTOUT";
  full_time = side 5 3;
  penalties = side 4 2;
}

score_outcome-resolve_example : score_outcome 1 1 (some "Home") ≡ leader 5 3
score_outcome-resolve_example =
    score_outcome-resolve shootout_score
      (record { home = 1; away = 1; penalty_winner = some PenaltyWinner.home_wins }) 5 3
      (unfold resolve_on_field_result strip_shootout in refl) refl
