-- ===== src/Indexer/Handlers.antt =====
-- The projection methods of `BolaoHandler` (indexer/src/handlers/bolao.ts): what each message
-- changes in the state of the batch. All but `onResultFinalized` are here.
use smartcupleague.Prelude.{
  ℕ, ◌+◌, String, Option, none, some, true, nat_eq, string_eq, insert, modify,
}
use smartcupleague.Indexer.Entities.{BolaoMatch, unresolved, proposed, settled, cancelled}
use smartcupleague.Indexer.Events.{Score}
use smartcupleague.Indexer.State.{HandlerState, no_delta, touch_user, on_activity}

unfoldable pub on_match_registered :
    ℕ → String → String → String → ℕ → ℕ → HandlerState → HandlerState
on_match_registered match_id phase home away kick_off timestamp s = record s {
  matches =
      insert match_id
        (record {
          id = match_id;
          match_id = match_id;
          phase = phase;
          home = home;
          away = away;
          kick_off = kick_off;
          status = unresolved;
          score_home = none;
          score_away = none;
          penalty_winner = none;
          prize_pool_raw = 0;
          bets_count = 0;
          created_at = timestamp;
          updated_at = timestamp;
        })
        s.matches;
}

-- The pool and the count of the match that a bet is on.
unfoldable pub count_bet : ℕ → ℕ → BolaoMatch → BolaoMatch
count_bet stake timestamp m = record m {
  bets_count = m.bets_count + 1;
  prize_pool_raw = m.prize_pool_raw + stake;
  updated_at = timestamp;
}

unfoldable pub on_bet_accepted :
    String → String → ℕ → Score → Option String → ℕ → ℕ → ℕ → HandlerState → HandlerState
on_bet_accepted msg_id user match_id score penalty_winner stake block_number timestamp s =
    let placed = record s {
      bets =
          insert msg_id
            (record {
              id = msg_id;
              user = user;
              match_id = match_id;
              match_ref = match_id;
              score_home = score.home;
              score_away = score.away;
              penalty_winner = penalty_winner;
              stake_raw = stake;
              block_number = block_number;
              timestamp = timestamp;
            })
            s.bets;
      matches = modify match_id (count_bet stake timestamp) s.matches;
    } in
    let touched =
      touch_user user timestamp (record no_delta { add_bet = true; add_stake = some stake })
        placed in
    on_activity
      (record {
        id = msg_id;
        activity_type = "BET_ACCEPTED";
        user = some user;
        match_id = some match_id;
        amount_raw = some stake;
        points = none;
        meta = none;
        block_number = block_number;
        timestamp = timestamp;
      })
      touched

unfoldable pub on_result_proposed : ℕ → Score → Option String → ℕ → HandlerState → HandlerState
on_result_proposed match_id score penalty_winner timestamp s = record s {
  matches =
      modify match_id
        (λ m. record m {
          status = proposed;
          score_home = some score.home;
          score_away = some score.away;
          penalty_winner = penalty_winner;
          updated_at = timestamp;
        })
        s.matches;
}

unfoldable pub on_settlement_prepared : ℕ → ℕ → HandlerState → HandlerState
on_settlement_prepared match_id timestamp s = record s {
  matches = modify match_id (λ m. record m { status = settled; updated_at = timestamp }) s.matches;
}

unfoldable pub on_points_awarded : String → String → ℕ → ℕ → ℕ → ℕ → HandlerState → HandlerState
on_points_awarded msg_id user match_id points block_number timestamp s =
    on_activity
      (record {
        id = msg_id;
        activity_type = "POINTS_AWARDED";
        user = some user;
        match_id = some match_id;
        amount_raw = none;
        points = some points;
        meta = none;
        block_number = block_number;
        timestamp = timestamp;
      })
      (touch_user user timestamp (record no_delta { add_points = some points }) s)

unfoldable pub on_match_reward_claimed :
    String → ℕ → String → ℕ → ℕ → ℕ → HandlerState → HandlerState
on_match_reward_claimed msg_id match_id user amount block_number timestamp s =
    let rewarded = record s {
      rewards =
          insert msg_id
            (record {
              id = msg_id;
              match_id = match_id;
              match_ref = match_id;
              user = user;
              amount_raw = amount;
              block_number = block_number;
              timestamp = timestamp;
            })
            s.rewards;
    } in
    on_activity
      (record {
        id = msg_id;
        activity_type = "MATCH_REWARD_CLAIMED";
        user = some user;
        match_id = some match_id;
        amount_raw = some amount;
        points = none;
        meta = none;
        block_number = block_number;
        timestamp = timestamp;
      })
      (touch_user user timestamp (record no_delta { add_claimed = some amount }) rewarded)

unfoldable pub on_final_prize_claimed : String → String → ℕ → ℕ → ℕ → HandlerState → HandlerState
on_final_prize_claimed msg_id user amount block_number timestamp s =
    let claimed = record s {
      prizes =
          insert msg_id
            (record {
              id = msg_id;
              user = user;
              amount_raw = amount;
              block_number = block_number;
              timestamp = timestamp;
            })
            s.prizes;
    } in
    on_activity
      (record {
        id = msg_id;
        activity_type = "FINAL_PRIZE_CLAIMED";
        user = some user;
        match_id = none;
        amount_raw = some amount;
        points = none;
        meta = none;
        block_number = block_number;
        timestamp = timestamp;
      })
      (touch_user user timestamp (record no_delta { add_final_prize = some amount }) claimed)

-- The pool of a cancelled match is zeroed; the refunds are tracked by `on_refund_claimed`.
unfoldable pub on_match_cancelled : String → ℕ → ℕ → ℕ → ℕ → HandlerState → HandlerState
on_match_cancelled msg_id match_id total_refunded block_number timestamp s =
    on_activity
      (record {
        id = msg_id;
        activity_type = "MATCH_CANCELLED";
        user = none;
        match_id = some match_id;
        amount_raw = some total_refunded;
        points = none;
        meta = none;
        block_number = block_number;
        timestamp = timestamp;
      })
      (record s {
        matches =
            modify match_id
              (λ m. record m { status = cancelled; prize_pool_raw = 0; updated_at = timestamp })
              s.matches;
      })

unfoldable pub on_refund_claimed : String → String → ℕ → ℕ → ℕ → HandlerState → HandlerState
on_refund_claimed msg_id user amount block_number timestamp s =
    let refunded = record s {
      refunds =
          insert msg_id
            (record {
              id = msg_id;
              user = user;
              amount_raw = amount;
              block_number = block_number;
              timestamp = timestamp;
            })
            s.refunds;
    } in
    on_activity
      (record {
        id = msg_id;
        activity_type = "REFUND_CLAIMED";
        user = some user;
        match_id = none;
        amount_raw = some amount;
        points = none;
        meta = none;
        block_number = block_number;
        timestamp = timestamp;
      })
      (touch_user user timestamp (record no_delta { add_refund = some amount }) refunded)
