-- ===== src/Oracle/Server/Examples.antt =====
-- Runs of the oracle server's model, over a world with a file of the mapping, the results that were sent
-- and the matches of BolaoCore. A registration with an undecided team is refused.
use smartcupleague.Prelude.{
  ℕ, ◌+◌, ◌≤◌, ◌≡◌, refl, sym, ap, String, Option, none, some, Bool, true, false, List, [], ◌∷◌,
  ◌++◌, arith, lookup, insert, ◌==◌, nat_eq, string_eq, if◌then◌else◌, Memᴰ, ◌⊎◌, length, take,
  sort_by, insert_by, includes,
}
use smartcupleague.Action.{Action, Result, ok, err, failure, ok_inj}
use smartcupleague.Oracle.Result.{FeedScore, resolve_on_field_result}
use smartcupleague.Oracle.Result.Laws.{side}
use smartcupleague.Oracle.Finalization.{pending, unresolved}
use smartcupleague.Oracle.Server.State.{
  Outside, ServerMaps, Entries, Fixture, Team, SportMatch, ChainMatch, BolaoMatch, BolaoContract,
  MatchResult, unresolved_result, proposed_result, finalized_result, CacheEntry,
}
use smartcupleague.Oracle.Server.Mapping.{
  as_object, add_match_mapping, add_kick_off, is_fixture_of, find_fixture, rebuild_pairs,
  rebuild_kick_offs, put_all, put_key, sports_id_of, oracle_match_id,
}
use smartcupleague.Oracle.Server.Mapping.Files.{
  save_match_mapping, save_kick_off_map, load_match_mapping, repair_mapping,
  rebuild_mapping_from_chain,
}
use smartcupleague.Oracle.Server.Mapping.Pairs.{IsPaired}
use smartcupleague.Oracle.Server.Mapping.Roundtrip.{SameMapping, load-save}
use smartcupleague.Oracle.Server.Mapping.Repair.{repair_mapping-stale}
use smartcupleague.Oracle.Server.Mapping.Rebuilt.{
  asked, JustifiedBy, rebuild_mapping_from_chain-JustifiedBy,
}
use smartcupleague.Oracle.Server.Cache.{fetch_wc_fixtures, fixtures_key, populate_crests}
use smartcupleague.Oracle.Server.Feed.{
  map_match_to_oracle, to_process, comes_before, kick_off_of, has_started, run_auto_feed,
}
use smartcupleague.Oracle.Server.Feed.Batch.{Started, to_process-first}
use smartcupleague.Oracle.Server.Feed.Safety.{run_auto_feed-Keeps}
use smartcupleague.Oracle.Server.Feed.Progress.{run_auto_feed-Sent}
use smartcupleague.Oracle.Server.Finalize.{recovery_timers, scan_matches, expired_timers}
use smartcupleague.Oracle.Server.Finalize.Laws.{
  WindowOver, recovery_timers-WindowOver, recovery_timers-each,
}
use smartcupleague.Oracle.Server.Pending.{
  PendingMatchEntry, pending_entries, status_of, find_bolao, find_result,
}
use smartcupleague.Oracle.Server.Pending.Laws.{status_of-pending, status_of-finalized}
use smartcupleague.Oracle.Server.Register.Tournament.{MatchSync}

pub record Sample : Type 0 where
  pub file : Option Entries
  pub sent_results : List (ℕ × ℕ × ℕ)
  pub contract : List (String × String × ℕ)

abbrev nothing : Action Sample (Unit {0})
nothing w = (ok tt, w)

-- Two goals to one.
abbrev two_one : FeedScore
two_one = record { duration = some "REGULAR"; full_time = side 2 1; penalties = none }

abbrev finished_match : ℕ → SportMatch
finished_match n = record { id = n; status = "FINISHED"; score = two_one }

abbrev team : String → Team
team name = record { name = name; short_name = ""; crest = "" }

abbrev fixture : ℕ → String → String → Fixture
fixture id home away = record {
  id = id;
  utc_date = 900;
  status = "TIMED";
  stage = "GROUP_STAGE";
  home_team = team home;
  away_team = team away;
  score = two_one;
}

abbrev sample : Outside
sample = record {
  World = Sample;
  clock = λ w. 1_000;
  read_mapping = λ w. (ok w.file, w);
  write_mapping = λ entries w. (ok tt, record w { file = some entries });
  read_kick_offs = λ w. (ok none, w);
  write_kick_offs = λ entries. nothing;
  get_match = λ n w. (ok (finished_match n), w);
  get_fixtures = λ status w. (ok [], w);
  get_api = nothing;
  query_all_results = λ w. (ok [], w);
  query_pending_matches = λ w. (ok (2 ∷ 1 ∷ []), w);
  decode_address = λ text. ok text;
  send_call = λ call. nothing;
  query_bolao = λ w. (ok (record { matches = []; phases = [] }), w);
  propose_from_oracle = λ id. nothing;
  finalize_result = λ id. nothing;
  cancel_proposed_result = λ id. nothing;
  submit_result = λ id home away winner w.
      (ok tt, record w { sent_results = (id, home, away) ∷ w.sent_results });
  sweep_match_dust = λ id. nothing;
  sleep = λ ms. nothing;
  register_phase = λ name start_time end_time weight. nothing;
  register_bolao_match = λ phase home away kick_off w.
      (if home == "TBD"
        then (err (failure "unknown team"), w)
        else (ok tt, record w { contract = w.contract ++ (home, away, kick_off) ∷ [] }));
  register_oracle_match = λ id phase home away kick_off. nothing;
}

abbrev start : Sample
start = record { file = none; sent_results = []; contract = [] }

abbrev empty_tables : ServerMaps
empty_tables = record {
  match_id_to_sports_id = [];
  sports_id_to_match_id = [];
  kick_off_map = [];
  match_cache = [];
  fixture_cache = [];
  crests = [];
}

-- The second match has the number 70, the first the number 90 and a kick-off that has passed.
abbrev two_pairs : ServerMaps
two_pairs = record empty_tables {
  match_id_to_sports_id = (2, 70) ∷ (1, 90) ∷ [];
  sports_id_to_match_id = (70, 2) ∷ (90, 1) ∷ [];
  kick_off_map = (1, 500) ∷ [];
}

two_pairs-IsPaired : IsPaired two_pairs
unfolding lookup
two_pairs-IsPaired k v = ground arith

load-save_example :
    (w2 : Sample) × (saved_ : ServerMaps) × (loaded : ServerMaps) × (save_match_mapping sample
        (two_pairs, start)
      ≡ (ok tt, (saved_, record start { file = some (as_object two_pairs.match_id_to_sports_id) })))
    × (load_match_mapping sample
          (empty_tables, record start { file = some (as_object two_pairs.match_id_to_sports_id) })
        ≡ (ok tt, (loaded, w2)))
    × SameMapping two_pairs loaded
load-save_example =
    load-save sample two_pairs empty_tables start
      (record start { file = some (as_object two_pairs.match_id_to_sports_id) })
      (λ entries w w1 written. (w1, ap (λ (z : Sample). (ok z.file, w1)) (sym (ok_inj written).1)))
      (unfold lookup in (refl, (refl, tt))) two_pairs-IsPaired refl

repair_mapping-stale_example :
    (t' : ServerMaps) × (w' : Sample) × (repair_mapping sample (some 1) (some 91) (two_pairs, start)
      ≡ (ok (1, 91), (t', w')))
    × (sports_id_of t' 1 ≡ 91)
    × (oracle_match_id t' 91 ≡ 1)
    × (oracle_match_id t' 90 ≡ 1)
repair_mapping-stale_example =
    repair_mapping-stale sample two_pairs start 1 90 91 (omega arith) (omega arith)
      (λ e. omega (arith, e)) (unfold lookup in refl)

abbrev on_chain : ChainMatch
on_chain = record {
  match_id = 4;
  home = "Chile";
  away = "Peru";
  kick_off = 950;
  status = pending;
  final_result = none;
  submissions = 0;
}

-- A data service with the fixtures of two matches, and a chain that has one of them.
abbrev with_fixtures : Outside
with_fixtures = record sample {
  query_all_results = λ w. (ok (on_chain ∷ []), w);
  get_fixtures = λ status w. (ok (fixture 50 "Peru" "Chile" ∷ fixture 60 "Chile" "Peru" ∷ []), w);
}

rebuild_mapping_from_chain-JustifiedBy_example :
    JustifiedBy with_fixtures
      (on_chain ∷ [])
      (asked with_fixtures (on_chain ∷ []) empty_tables start)
      4
      60
rebuild_mapping_from_chain-JustifiedBy_example =
    rebuild_mapping_from_chain-JustifiedBy with_fixtures (on_chain ∷ []) empty_tables start start 4
      60 refl (unfold lookup in refl)
      (unfold rebuild_mapping_from_chain rebuild_kick_offs add_kick_off save_kick_off_map
          fetch_wc_fixtures fixtures_key populate_crests rebuild_pairs find_fixture is_fixture_of
          add_match_mapping save_match_mapping put_all put_key insert lookup in
        refl)

one-Started : Started 1_000 two_pairs 1
unfolding lookup
one-Started = (500, refl, omega arith)

to_process-first_example :
    (length (to_process 8 1_000 two_pairs (2 ∷ 1 ∷ [])) ≤ 8)
    × (Memᴰ 1 (to_process 8 1_000 two_pairs (2 ∷ 1 ∷ []))
        ⊎ ((length (to_process 8 1_000 two_pairs (2 ∷ 1 ∷ [])) ≡ 8)
            × ((other : ℕ)
                → Memᴰ other (to_process 8 1_000 two_pairs (2 ∷ 1 ∷ []))
                → kick_off_of two_pairs other ≤ kick_off_of two_pairs 1)))
to_process-first_example =
    to_process-first 8 1_000 two_pairs (2 ∷ 1 ∷ []) 1 (Memᴰ.tail (Memᴰ.head refl)) one-Started

-- Only results of the first match were sent.
abbrev AllFirst : List (ℕ × ℕ × ℕ) → Type 0
AllFirst [] = Unit
AllFirst (x ∷ xs) = (x.0 ≡ 1) × AllFirst xs

abbrev SampleGenuine : ℕ → SportMatch → Type 0
SampleGenuine n m = m.id ≡ n

Started-first : (now match_id : ℕ) → Started now two_pairs match_id → match_id ≡ 1
unfolding lookup
Started-first now match_id (kick_off, found, passed) = ground arith

run_auto_feed-Keeps_example :
    AllFirst ((run_auto_feed sample 8 (two_pairs, start)).1.1.sent_results)
run_auto_feed-Keeps_example =
    run_auto_feed-Keeps sample (λ w. AllFirst w.sent_results) SampleGenuine two_pairs
      (λ n w h. (h, refl))
      (λ match_id r is_result w h. ((Started-first 1_000 match_id is_result.0.2, h), tt)) 8 start
      (λ n e found. absurd (unfold lookup in ground (arith, found))) (λ w h. (h, tt))
      (λ w h. (h, tt)) tt

run_auto_feed-Sent_example :
    Memᴰ (1, 2, 1) ((run_auto_feed sample 8 (two_pairs, start)).1.1.sent_results)
run_auto_feed-Sent_example =
    run_auto_feed-Sent sample two_pairs 1 (finished_match 90)
      (record { home = 2; away = 1; penalty_winner = none })
      (unfold map_match_to_oracle resolve_on_field_result in refl) (λ w. (w, unfold lookup in refl))
      (λ w. Memᴰ (1, 2, 1) w.sent_results) (λ w. Memᴰ.head refl) (λ n w h. (h, tt))
      (λ id r w h. (Memᴰ.tail h, tt)) 8 (2 ∷ 1 ∷ []) start start start refl refl
      (Memᴰ.tail (Memᴰ.head refl)) one-Started
      (unfold to_process sort_by insert_by comes_before kick_off_of has_started take lookup in
        omega arith)
      no_copy
  where
    no_copy :
        (e : CacheEntry SportMatch)
        → lookup (sports_id_of two_pairs 1) two_pairs.match_cache ≡ some e
        → e.data_of ≡ finished_match 90
    no_copy e found = absurd (unfold lookup in ground arith)

abbrev bolao_match : ℕ → MatchResult → BolaoMatch
bolao_match id result = record {
  match_id = id;
  home = "Chile";
  away = "Peru";
  phase = "Groups";
  kick_off = 500;
  result = result;
  settlement_prepared = false;
  dust_swept = false;
}

-- The first match's proposal is due at 400, the second's at 1 300.
abbrev proposals : List BolaoMatch
proposals = bolao_match 1 (proposed_result 2 1 250) ∷ bolao_match 2 (proposed_result 0 0 1_150) ∷ []

recovery_timers-WindowOver_example : WindowOver 120 30 proposals 1 (1_000 + 0)
recovery_timers-WindowOver_example =
    recovery_timers-WindowOver 120 30 1_000 proposals 1 0
      (unfold recovery_timers scan_matches expired_timers in Memᴰ.tail (Memᴰ.head refl))

recovery_timers-each_example :
    (delay : ℕ) × Memᴰ (2, delay) (recovery_timers 120 30 1_000 proposals)
    × ((1_000 + delay ≡ 1_150 + 120 + 30) ⊎ (1_150 + 120 + 30 ≤ 1_000))
recovery_timers-each_example =
    recovery_timers-each 120 30 1_000 proposals (bolao_match 2 (proposed_result 0 0 1_150)) 0 0
      1_150 (Memᴰ.tail (Memᴰ.head refl)) refl

abbrev sample_state : BolaoContract
sample_state = record {
  matches = bolao_match 4 unresolved_result ∷ bolao_match 5 (finalized_result 1 0) ∷ [];
  phases = [];
}

status_of-pending_example :
    (entry : PendingMatchEntry) × (status_of 120 4 sample_state (on_chain ∷ []) ≡ ok entry)
    × Memᴰ entry (pending_entries 120 1_000 sample_state (on_chain ∷ []))
status_of-pending_example =
    status_of-pending 120 sample_state (on_chain ∷ []) 1_000 4 (bolao_match 4 unresolved_result)
      (unfold find_result in (refl, tt)) (unfold find_bolao in refl) (omega arith) refl

status_of-finalized_example :
    (entry : PendingMatchEntry) × (status_of 120 5 sample_state (on_chain ∷ []) ≡ ok entry)
    × (entry.bolao_status ≡ unresolved)
    × (includes "propose-from-oracle" entry.available_actions ≡ true)
status_of-finalized_example =
    status_of-finalized 120 sample_state (on_chain ∷ []) 5 1 0
      (bolao_match 5 (finalized_result 1 0)) (unfold find_bolao in refl) refl

-- The second fixture has an undecided team.
abbrev three_fixtures : List Fixture
three_fixtures =
    fixture 50 "Chile" "Peru" ∷ fixture 51 "TBD" "Spain" ∷ fixture 52 "Italy" "Japan" ∷ []

abbrev synced : ℕ → ℕ → String → String → Bool → Option String → MatchSync
synced id sports_id home away done error = record {
  entry = record {
    bolao_match_id = id;
    sports_api_id = sports_id;
    stage = "GROUP_STAGE";
    home_team = home;
    away_team = away;
    kick_off = 900;
  };
  bolao_ok = done;
  oracle_ok = done;
  error = error;
}

abbrev first_two : List MatchSync
first_two =
    synced 1 50 "Chile" "Peru" true none
    ∷ synced 2 51 "TBD" "Spain" false (some "BolaoCore: unknown team")
    ∷ []

abbrev third : MatchSync
third = synced 3 52 "Italy" "Japan" true none

abbrev synced_tables : ServerMaps
synced_tables = record empty_tables {
  match_id_to_sports_id = (1, 50) ∷ (3, 52) ∷ [];
  sports_id_to_match_id = (50, 1) ∷ (52, 3) ∷ [];
  kick_off_map = (1, 900) ∷ (3, 900) ∷ [];
}

abbrev two_taken : Sample
two_taken = record start { contract = ("Chile", "Peru", 900) ∷ ("Italy", "Japan", 900) ∷ [] }
