-- ===== src/Rewards/Requests.antt =====
-- `RewardsController` (rewards-backend/src/rewards/rewards.controller.ts): the requests that change
-- something, served one after the other.
pub mod Invariants
use smartcupleague.Prelude.{
  String, Option, none, some, Bool, false, List, [], ◌∷◌, string_eq, ◌==◌, if◌then◌else◌,
}
use smartcupleague.Action.{Action, forbidden, pure, throw, ◌>>=◌, ◌>>◌}
use smartcupleague.Rewards.Backend.{Backend, Config}
use smartcupleague.Rewards.Service.{
  SubmitXTask, ManualGrant, RegisterReferral, ReferralMilestone, SyncActivity,
}
use smartcupleague.Rewards.Submissions.{submit_x_task, manual_grant}
use smartcupleague.Rewards.Referrals.{
  register_referral, grant_referral_milestone, sync_referral_activity,
}

-- A request with the body that its DTO takes, and the header `x-api-key` where it is read.
pub data Request : Type 0 where
  post_submission : SubmitXTask → Request
  post_referral : RegisterReferral → Request
  post_activity : SyncActivity → (api_key : Option String) → Request
  post_grant : ManualGrant → (api_key : Option String) → Request
  post_milestone : ReferralMilestone → (api_key : Option String) → Request

-- `apiKey ?? ''`
abbrev key_or_empty : Option String → String
key_or_empty none = ""
key_or_empty (some api_key) = api_key

module _ (b : Backend) (config : Config) where
  open b use {World, hmac}

  -- Whether the key is the configured one; an empty one is as none.
  unfoldable pub is_admin : Option String → Bool
  is_admin api_key = elim config.admin_api_key [
    | none ↦ false
    | some expected ↦ if expected == "" then false else hmac (key_or_empty api_key) == hmac expected
  ]

  unfoldable pub require_admin : Option String → Action World (Unit {0})
  unfolding is_admin
  require_admin api_key = if is_admin api_key then pure tt else throw (forbidden "Forbidden")

  unfoldable pub serve : Request → Action World (Unit {0})
  unfolding require_admin
  serve (post_submission body) = submit_x_task b config body >> pure tt
  serve (post_referral body) = register_referral b config body >> pure tt
  serve (post_activity body api_key) =
      require_admin api_key >> sync_referral_activity b config body >> pure tt
  serve (post_grant body api_key) = require_admin api_key >> manual_grant b config body >> pure tt
  serve (post_milestone body api_key) =
      require_admin api_key >> grant_referral_milestone b config body >> pure tt

  -- The world after some requests, whether each returned or threw.
  unfoldable pub serve_all : List Request → World → World
  unfolding serve
  serve_all [] w = w
  serve_all (request ∷ requests) w = serve_all requests ((serve request w).1)
