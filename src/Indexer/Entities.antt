-- ===== src/Indexer/Entities.antt =====
-- indexer/src/model/entities.ts: the rows that the indexer writes. A decimal string of a u64 or
-- u128 (`matchId`, `kickOff`, the `…Raw` amounts, `blockNumber`) is the number that it stands for,
-- a `Date` is its milliseconds, and a `matchRef` is the id that it holds.
use smartcupleague.Prelude.{ℕ, String, Option}

pub data MatchStatus : Type 0 where
  unresolved proposed finalized settled cancelled : MatchStatus

pub record BolaoMatch : Type 0 where
  pub id : ℕ
  pub match_id : ℕ
  pub phase : String
  pub home : String
  pub away : String
  pub kick_off : ℕ
  pub status : MatchStatus
  pub score_home : Option ℕ
  pub score_away : Option ℕ
  pub penalty_winner : Option String
  pub prize_pool_raw : ℕ
  pub bets_count : ℕ
  pub created_at : ℕ
  pub updated_at : ℕ

pub record Bet : Type 0 where
  pub id : String
  pub user : String
  pub match_id : ℕ
  pub match_ref : ℕ
  pub score_home : ℕ
  pub score_away : ℕ
  pub penalty_winner : Option String
  pub stake_raw : ℕ
  pub block_number : ℕ
  pub timestamp : ℕ

pub record UserStat : Type 0 where
  pub id : String
  pub total_bets : ℕ
  pub total_staked_raw : ℕ
  pub total_points : ℕ
  pub exact_count : ℕ
  pub outcome_count : ℕ
  pub total_claimed_raw : ℕ
  pub final_prize_claimed_raw : ℕ
  pub total_refund_claimed_raw : ℕ
  pub updated_at : ℕ

pub record MatchReward : Type 0 where
  pub id : String
  pub match_id : ℕ
  pub match_ref : ℕ
  pub user : String
  pub amount_raw : ℕ
  pub block_number : ℕ
  pub timestamp : ℕ

pub record FinalPrizeClaim : Type 0 where
  pub id : String
  pub user : String
  pub amount_raw : ℕ
  pub block_number : ℕ
  pub timestamp : ℕ

pub record RefundClaim : Type 0 where
  pub id : String
  pub user : String
  pub amount_raw : ℕ
  pub block_number : ℕ
  pub timestamp : ℕ

pub record ActivityRecord : Type 0 where
  pub id : String
  pub activity_type : String
  pub user : Option String
  pub match_id : Option ℕ
  pub amount_raw : Option ℕ
  pub points : Option ℕ
  pub meta : Option String
  pub block_number : ℕ
  pub timestamp : ℕ
