-- ===== src/Rewards/Service.antt =====
-- What the operations of `RewardsService` (rewards-backend/src/rewards/rewards.service.ts) share: the
-- bodies of the requests (rewards-backend/src/rewards/dto), the week's key and the actor id.
use Prim.Native.String.{String}
use smartcupleague.Prelude.{ℕ, Option, nat_eq, string_eq}
use smartcupleague.Action.{Action, lift}
use smartcupleague.Rewards.Text.{normalize_actor_id}
use smartcupleague.Rewards.Week.{week_start}
use smartcupleague.Rewards.Backend.{Backend, XTaskType}

-- The DTOs of the requests. A date is in milliseconds; numbers are integers, as the DTOs ask, and
-- `amount_vara` is what `Math.trunc` leaves.
pub record SubmitXTask : Type 0 where
  pub wallet : String
  pub task_type : XTaskType
  pub tweet_url : String
  pub given_username : Option String

pub record ManualGrant : Type 0 where
  pub wallet : String
  pub amount_vara : ℕ
  pub grant_id : String
  pub reason : String

pub record RegisterReferral : Type 0 where
  pub referrer : String
  pub friend : String

pub record ReferralMilestone : Type 0 where
  pub referrer : String
  pub friend : String
  pub milestone : ℕ

pub record SyncActivity : Type 0 where
  pub friend : String
  pub bet_count : ℕ
  pub active_days : Option ℕ
  pub qualifying_active_days : Option ℕ
  pub first_tx_at : Option ℕ
  pub last_tx_at : Option ℕ

module _ (b : Backend) where
  open b use {World, iso_date, decode_address}

  abbrev pub week_key_at : ℕ → String
  week_key_at now = iso_date (week_start now)

  abbrev pub actor_id_of : String → Action World String
  actor_id_of wallet = lift (normalize_actor_id decode_address wallet)
