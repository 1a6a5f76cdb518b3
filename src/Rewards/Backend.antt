-- ===== src/Rewards/Backend.antt =====
-- What the rewards backend is built on: its tables by way of TypeORM, the clock, the API of X, and
-- the Gear node. The operations are parameters; their effects are changes of an abstract world. The
-- rows are those of rewards-backend/src/entities.
use smartcupleague.Prelude.{ℕ, String, Option, Bool, List}
use smartcupleague.Action.{Action}
use smartcupleague.Rewards.Text.{Url}

pub data XTaskType : Type 0 where
  repost post : XTaskType

pub data RewardSubmissionStatus : Type 0 where
  pending approved rejected paid : RewardSubmissionStatus

-- The columns that the database fills are left out, and `failureReason`, which nothing sets.
pub record RewardSubmission : Type 0 where
  pub wallet : String
  pub actor_id : String
  pub task_type : XTaskType
  pub tweet_url : String
  pub tweet_id : String
  pub x_username : Option String
  pub week_key : String
  pub reward_amount_planck : ℕ
  pub grant_id : String
  pub reason : String
  pub status : RewardSubmissionStatus
  pub paid_at : Option ℕ

pub data ReferralStatus : Type 0 where
  active blocked : ReferralStatus

pub record Referral : Type 0 where
  pub referrer : String
  pub referrer_actor_id : String
  pub friend : String
  pub friend_actor_id : String
  pub status : ReferralStatus
  pub accepted_at : ℕ

pub data ReferralRecipient : Type 0 where
  to_referrer to_friend : ReferralRecipient

pub record ReferralReward : Type 0 where
  pub referrer : String
  pub referrer_actor_id : String
  pub friend : String
  pub friend_actor_id : String
  pub milestone : ℕ
  pub recipient : ReferralRecipient
  pub recipient_actor_id : String
  pub week_key : String
  pub amount_planck : ℕ
  pub grant_id : String
  pub paid_at : Option ℕ

pub record ReferralProgress : Type 0 where
  pub friend_actor_id : String
  pub tx_count : ℕ
  pub active_days : ℕ
  pub qualifying_active_days : ℕ
  pub first_tx_at : Option ℕ
  pub last_tx_at : Option ℕ

-- x.service.ts
pub data XReferenceType : Type 0 where
  retweeted quoted replied_to : XReferenceType

pub record XReferencedTweet : Type 0 where
  pub ref_type : XReferenceType
  pub ref_id : String

pub record XUrl : Type 0 where
  pub expanded_url : Option String
  pub display_url : Option String
  pub unwound_url : Option String

pub record XTweet : Type 0 where
  pub tweet_key : String
  pub text : String
  pub author_id : Option String
  pub referenced_tweets : List XReferencedTweet
  pub urls : List XUrl

pub record XUser : Type 0 where
  pub user_key : String
  pub username : Option String

pub record XTweetLookup : Type 0 where
  pub tweet : XTweet
  pub included_tweets : List XTweet
  pub included_users : List XUser

-- A response of the API: refused, or its JSON.
pub data Response (A : Type 0) : Type 0 where
  refused : Response A
  json : A → Response A

pub record TweetJson : Type 0 where
  pub data_tweet : Option XTweet
  pub included_tweets : List XTweet
  pub included_users : List XUser

pub record TimelineJson : Type 0 where
  pub data_tweets : List XTweet
  pub next_token : Option String

-- A call of the ledger's `grant`: its arguments and the value that goes with it.
pub record Grant : Type 0 where
  pub actor_id : String
  pub grant_id : String
  pub reason : String
  pub value : ℕ

-- `configuration.ts`
pub record Config : Type 0 where
  pub x_repost_amount_vara : ℕ
  pub x_post_amount_vara : ℕ
  pub referral_milestone_referrer_vara : ℕ
  pub referral_milestone_friend_vara : ℕ
  pub smart_cup_x_username : String
  pub smart_cup_app_url : String
  pub chain_disabled : Bool
  pub admin_api_key : Option String

-- The parts of @gear-js/api that `ChainService` calls. `response` waits for the ledger's reply, and
-- returns false when the time given passes first.
pub record Chain (World : Type 0) : Type 0 where
  pub is_connected : World → Bool
  pub disconnect : Action World (Unit {0})
  pub connect : Action World (Unit {0})
  pub calculate_gas : Grant → Action World (Unit {0})
  pub sign_and_send : Grant → Action World (Option String)
  pub response : Grant → (timeout_ms : ℕ) → Action World Bool

-- The repositories. A query is by the test that its `where` makes of a row; `insert` and `update`
-- are `save` on a new entity and on one that has an id.
pub record Repositories (World : Type 0) : Type 0 where
  pub find_submission : (RewardSubmission → Bool) → Action World (Option RewardSubmission)
  pub find_submission_by_id : String → Action World (Option RewardSubmission)
  pub find_submissions : (RewardSubmission → Bool) → Action World (List RewardSubmission)
  pub insert_submission : RewardSubmission → Action World (Unit {0})
  pub update_submission : RewardSubmission → Action World (Unit {0})
  pub find_referral : (Referral → Bool) → Action World (Option Referral)
  pub find_referrals : (Referral → Bool) → Action World (List Referral)
  pub insert_referral : Referral → Action World (Unit {0})
  pub find_reward : (ReferralReward → Bool) → Action World (Option ReferralReward)
  pub count_rewards : (ReferralReward → Bool) → Action World ℕ
  pub insert_reward : ReferralReward → Action World (Unit {0})
  pub save_progress : ReferralProgress → Action World (Unit {0})

pub record Backend : Type 1 where
  pub World : Type 0
  pub date_now : World → ℕ
  -- The date that `toISOString` begins with.
  pub iso_date : ℕ → String
  pub decode_address : String → Option (List ℕ)
  pub parse_url : String → Option Url
  -- The digest that `createHmac` makes of a text.
  pub hmac : String → String
  pub repositories : Repositories World
  pub chain : Chain World
  pub get_tweet : (tweet_id : String) → Action World (Response TweetJson)
  pub get_user : (username : String) → Action World (Response (Option XUser))
  pub get_user_tweets :
      (user_id : String) (pagination_token : Option String) → Action World (Response TimelineJson)
