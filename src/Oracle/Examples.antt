-- ===== src/Oracle/Examples.antt =====
-- Runs of the oracle's model.
use smartcupleague.Prelude.{
  ◌<◌, ◌≡◌, refl, ◌↔◌, some, true, includes, string_eq, ℕ, String, List, [], ◌∷◌, ◌++◌,
}
use smartcupleague.Oracle.Result.{
  FeedScore, MappedResult, resolve_on_field_result, home_wins, strip_shootout,
}
use smartcupleague.Oracle.Result.Laws.{Reports, resolve-Reports, side}
use smartcupleague.Oracle.Finalization.{
  unresolved, proposed, pending, BolaoStatus, OracleStatus, classify_match, available_actions_for,
}
use smartcupleague.Oracle.Finalization.Laws.{actions-classify}
use mathlib.Core.Option.{Option}
use smartcupleague.Action.{ok}
use smartcupleague.Oracle.Server.{Gateway, ProposeBody, propose_result}
use smartcupleague.Oracle.Server.Laws.{Proposed, propose_result-Proposed}
use smartcupleague.Oracle.PriceFeed.{PriceFeed, run_price_feed}
use smartcupleague.Oracle.PriceFeed.Laws.{Cycle, run_price_feed-Cycle}

-- A draw at one goal each, and a shootout of five to four.
abbrev shootout_score : FeedScore
shootout_score = record {
  duration = some "PENALTY_SHOOTOUT";
  full_time = side 6 5;
  penalties = side 5 4;
}

abbrev one_all : MappedResult
one_all = record { home = 1; away = 1; penalty_winner = some home_wins }

shootout_resolves : resolve_on_field_result shootout_score ≡ some one_all
unfolding resolve_on_field_result strip_shootout
shootout_resolves = refl

resolve-Reports_example :
    (resolve_on_field_result shootout_score ≡ some one_all) ↔ Reports shootout_score one_all
resolve-Reports_example = resolve-Reports shootout_score one_all

actions-classify_example :
    let actions = available_actions_for (classify_match unresolved (some pending) 2) in
    ((includes "finalize-result" actions ≡ true) ↔ (Path BolaoStatus unresolved proposed))
    × ((includes "cancel-proposed-result" actions ≡ true) ↔ (Path BolaoStatus unresolved proposed))
    × ((includes "propose-from-oracle" actions ≡ true) ↔ (Path BolaoStatus unresolved unresolved))
    × ((includes "cancel-result" actions ≡ true) ↔ (
        (Path BolaoStatus unresolved unresolved)
        × (Path (Option OracleStatus) (some pending) (some pending))
        × (0 < 2)))
actions-classify_example = actions-classify unresolved (some pending) 2

-- A feed whose price is a number of micro-USD, over a world of what was sent.
abbrev sample_feed : PriceFeed
sample_feed = record {
  World = List String;
  Number = ℕ;
  is_finite = λ usd. true;
  round_micro = λ usd. usd;
  fetch_ok = λ w. (ok true, w);
  response_usd = λ w. (ok (some 8250), w);
  set_vara_usd_price = λ micro w. (ok tt, w ++ "setVaraUsdPrice" ∷ []);
  refresh_vara_price = λ id w. (ok tt, w ++ id ∷ []);
}

run_price_feed-Cycle_example :
    (w' : List String) × (run_price_feed sample_feed "0x0c" "0xb0" [] ≡ (ok tt, w'))
    × Cycle sample_feed "0x0c" "0xb0" [] w'
run_price_feed-Cycle_example = run_price_feed-Cycle sample_feed "0x0c" "0xb0" []

price_feed_runs :
    run_price_feed sample_feed "0x0c" "0xb0" [] ≡ (ok tt, "setVaraUsdPrice" ∷ "0x0c" ∷ [])
unfolding run_price_feed
price_feed_runs = refl

abbrev sample_gateway : Gateway
sample_gateway = record {
  World = List String;
  get_api = λ w. (ok tt, w);
  query_state = λ w. (
    ok (record {
      matches = record { state_match_id = 7; phase = "Final" } ∷ [];
      phases = record { phase_name = "Final"; points_weight = 3 } ∷ [];
    }),
    w,
  );
  send_propose_result = λ match_id home away winner w. (ok tt, w ++ "proposeResult" ∷ []);
}

abbrev final_draw : ProposeBody
final_draw = record {
  match_id = some 7;
  home = some 1;
  away = some 1;
  penalty_winner = some "Home";
}

propose_result-Proposed_example :
    Proposed sample_gateway final_draw ("proposeResult" ∷ []) (7, 1, 1, some home_wins)
propose_result-Proposed_example =
    propose_result-Proposed sample_gateway final_draw [] ("proposeResult" ∷ [])
      (7, 1, 1, some home_wins) (unfold propose_result in refl)
