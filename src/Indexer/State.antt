-- ===== src/Indexer/State.antt =====
-- The batch-local state of `BolaoHandler` (indexer/src/handlers/bolao.ts), with `touchUser` and
-- `onActivity`, through which the event methods write. The maps own the objects that they hold, so
-- a change through `map.get(id)` is a change of the entry. `touchedMatchIds` is written by nothing.
use smartcupleague.Prelude.{
  ℕ, ◌+◌, String, Option, none, some, Bool, List, [], ◌∷◌, ◌++◌, includes, string_eq, if◌then◌else◌,
  JsMap, lookup, insert,
}
use smartcupleague.Indexer.Entities.{
  BolaoMatch, Bet, UserStat, MatchReward, FinalPrizeClaim, RefundClaim, ActivityRecord,
}

pub record HandlerState : Type 0 where
  pub matches : JsMap ℕ BolaoMatch
  pub bets : JsMap String Bet
  pub user_stats : JsMap String UserStat
  pub rewards : JsMap String MatchReward
  pub prizes : JsMap String FinalPrizeClaim
  pub refunds : JsMap String RefundClaim
  pub activity : JsMap String ActivityRecord
  pub touched_user_ids : List String

-- `clear`: the state in which each batch starts.
abbrev pub clear : HandlerState
clear = record {
  matches = [];
  bets = [];
  user_stats = [];
  rewards = [];
  prizes = [];
  refunds = [];
  activity = [];
  touched_user_ids = [];
}

-- `set.add(a)`
unfoldable pub add_to_set : String → List String → List String
add_to_set a s = if includes a s then s else s ++ a ∷ []

pub record Delta : Type 0 where
  pub add_bet : Bool
  pub add_stake : Option ℕ
  pub add_points : Option ℕ
  pub add_exact : Option ℕ
  pub add_outcome : Option ℕ
  pub add_claimed : Option ℕ
  pub add_final_prize : Option ℕ
  pub add_refund : Option ℕ

-- `{}`, the delta that the callers fill in.
abbrev pub no_delta : Delta
no_delta = record {
  add_bet = Bool.false;
  add_stake = none;
  add_points = none;
  add_exact = none;
  add_outcome = none;
  add_claimed = none;
  add_final_prize = none;
  add_refund = none;
}

-- `if (x !== undefined) total += x`
abbrev pub plus : ℕ → Option ℕ → ℕ
plus total none = total
plus total (some x) = total + x

-- The row of a user who is met for the first time; `touchUser` sets its time at once.
abbrev pub new_stat : String → UserStat
new_stat user_id = record {
  id = user_id;
  total_bets = 0;
  total_staked_raw = 0;
  total_points = 0;
  exact_count = 0;
  outcome_count = 0;
  total_claimed_raw = 0;
  final_prize_claimed_raw = 0;
  total_refund_claimed_raw = 0;
  updated_at = 0;
}

abbrev pub or_new : String → Option UserStat → UserStat
or_new user_id none = new_stat user_id
or_new user_id (some stat) = stat

unfoldable pub apply_delta : ℕ → Delta → UserStat → UserStat
apply_delta timestamp delta stat = record {
  id = stat.id;
  total_bets = if delta.add_bet then stat.total_bets + 1 else stat.total_bets;
  total_staked_raw = plus stat.total_staked_raw delta.add_stake;
  total_points = plus stat.total_points delta.add_points;
  exact_count = plus stat.exact_count delta.add_exact;
  outcome_count = plus stat.outcome_count delta.add_outcome;
  total_claimed_raw = plus stat.total_claimed_raw delta.add_claimed;
  final_prize_claimed_raw = plus stat.final_prize_claimed_raw delta.add_final_prize;
  total_refund_claimed_raw = plus stat.total_refund_claimed_raw delta.add_refund;
  updated_at = timestamp;
}

unfoldable pub touch_user : String → ℕ → Delta → HandlerState → HandlerState
touch_user user_id timestamp delta s = record s {
  user_stats =
      insert user_id (apply_delta timestamp delta (or_new user_id (lookup user_id s.user_stats)))
        s.user_stats;
  touched_user_ids = add_to_set user_id s.touched_user_ids;
}

unfoldable pub on_activity : ActivityRecord → HandlerState → HandlerState
on_activity rec s = record s { activity = insert rec.id rec s.activity }
