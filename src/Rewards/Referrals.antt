-- ===== src/Rewards/Referrals.antt =====
-- The referrals of `RewardsService` (rewards-backend/src/rewards/rewards.service.ts).
pub mod Cap
pub mod Pairs
pub mod Quiet
pub mod Once
use Prim.Native.String.{String, ◌++◌ as append}
use smartcupleague.Prelude.{
  ℕ, ◌*◌, ◌-◌, ◌+◌, Option, none, some, Bool, true, false, ◌&&◌, ◌||◌, List, [], ◌∷◌, ◌++◌, map,
  leb, nat_eq, string_eq, ◌==◌, if◌then◌else◌, or_else, select, is_nil, includes,
}
use smartcupleague.Action.{
  Action, Result, bad_request, conflict, forbidden, not_found, pure, throw, gets, try_catch, lift,
  ◌>>=◌, ◌>>◌,
}
use smartcupleague.Rewards.Text.{
  vara_to_planck, normalize_actor_id, normalize_x_username, parse_tweet_url, ParsedTweetUrl,
}
use smartcupleague.Rewards.Week.{week_start}
use smartcupleague.Rewards.Chain.{grant_ledger_freebet}
use smartcupleague.Rewards.XService.{fetch_tweet, verify_task}
use smartcupleague.Rewards.Backend.{
  Backend, Config, Repositories, XTaskType, repost, post, RewardSubmission, approved, paid,
  Referral, ReferralStatus, active, blocked, ReferralReward, ReferralRecipient, to_referrer,
  to_friend, ReferralProgress,
}
use smartcupleague.Rewards.Service.{
  SubmitXTask, ManualGrant, RegisterReferral, ReferralMilestone, SyncActivity, week_key_at,
  actor_id_of,
}

abbrev pub recipient_text : ReferralRecipient → String
recipient_text to_referrer = "referrer"
recipient_text to_friend = "friend"

abbrev pub is_to_referrer : ReferralRecipient → Bool
is_to_referrer to_referrer = true
is_to_referrer to_friend = false

abbrev pub is_active : ReferralStatus → Bool
is_active active = true
is_active blocked = false

abbrev pub counts_to_cap : (referrer : String) → ℕ → (week_key : String) → ReferralReward → Bool
counts_to_cap referrer milestone week_key row =
    row.referrer_actor_id == referrer
    && row.milestone == milestone
    && is_to_referrer row.recipient
    && row.week_key == week_key

-- What `toString` of a number writes is needed for the milestone 5 only.
abbrev pub milestone_text : ℕ → String
milestone_text n = if n == 5 then "5" else ""

unfoldable pub reward_id : (referrer friend : String) → ℕ → ReferralRecipient → String
reward_id referrer friend milestone recipient = append "ref:" (
    append referrer (
      append ":" (
        append friend (
          append ":" (append (milestone_text milestone) (append ":" (recipient_text recipient)))))))

abbrev pub reward_reason : ℕ → ReferralRecipient → String
reward_reason milestone recipient =
    append "referral " (append (milestone_text milestone) (append " " (recipient_text recipient)))

pub record Progress : Type 0 where
  pub bet_count : ℕ
  pub required_bets : ℕ
  pub active_days : ℕ
  pub qualifying_active_days : ℕ
  pub first_tx_at : Option ℕ
  pub last_tx_at : Option ℕ
  pub active_for_ms : ℕ
  pub milestone5_passed : Bool

-- `activeForHours` is kept in milliseconds; `active48hPassed` and `livenessPassed`, which are always
-- true, are left out.
unfoldable pub build_progress : ReferralProgress → (now : ℕ) → Progress
build_progress progress now = record {
  bet_count = progress.tx_count;
  required_bets = 5;
  active_days = progress.active_days;
  qualifying_active_days = progress.qualifying_active_days;
  first_tx_at = progress.first_tx_at;
  last_tx_at = progress.last_tx_at;
  active_for_ms = elim progress.first_tx_at [
    | none ↦ 0
    | some first_tx_at ↦ if first_tx_at == 0 then 0 else now - first_tx_at
  ];
  milestone5_passed = leb 5 progress.tx_count;
}

unfoldable pub is_referral_eligible : ReferralProgress → Bool
is_referral_eligible progress = leb 5 progress.tx_count

abbrev value_or : Option ℕ → ℕ → ℕ
value_or none n = n
value_or (some m) n = m

module _ (b : Backend) (config : Config) where
  open b use {World, date_now, repositories}
  open repositories use {
    find_referral, insert_referral, find_reward, count_rewards, insert_reward, save_progress,
  }

  abbrev pub new_referral :
      RegisterReferral → (referrer_actor_id friend_actor_id : String) → ℕ → Referral
  new_referral body referrer_actor_id friend_actor_id now = record {
    referrer = body.referrer;
    referrer_actor_id = referrer_actor_id;
    friend = body.friend;
    friend_actor_id = friend_actor_id;
    status = active;
    accepted_at = now;
  }

  -- After the look-up of the friend's referral.
  unfoldable pub accept_referral :
      RegisterReferral
      → (referrer_actor_id friend_actor_id : String) → Option Referral
      → Action World Referral
  accept_referral body referrer_actor_id friend_actor_id (some referral) =
      if referral.referrer_actor_id == referrer_actor_id
      then pure referral
      else throw (conflict "friend already accepted another referral")
  accept_referral body referrer_actor_id friend_actor_id none = do
    now ← gets date_now
    let referral = new_referral body referrer_actor_id friend_actor_id now
    insert_referral referral
    pure referral

  -- After the wallets are read.
  unfoldable pub register_pair :
      RegisterReferral → (referrer_actor_id friend_actor_id : String) → Action World Referral
  unfolding accept_referral
  register_pair body referrer_actor_id friend_actor_id =
      if referrer_actor_id == friend_actor_id
      then throw (bad_request "referrer and friend must be different wallets")
      else (do
        existing ← find_referral (λ row. row.friend_actor_id == friend_actor_id)
        accept_referral body referrer_actor_id friend_actor_id existing)

  unfoldable pub register_referral : RegisterReferral → Action World Referral
  unfolding register_pair
  register_referral body = do
    referrer_actor_id ← actor_id_of b body.referrer
    friend_actor_id ← actor_id_of b body.friend
    register_pair body referrer_actor_id friend_actor_id

  abbrev pub new_reward :
      ReferralMilestone
      → (referrer_actor_id friend_actor_id week_key : String) → ReferralRecipient
      → ℕ
      → ReferralReward
  new_reward body referrer_actor_id friend_actor_id week_key recipient now = record {
    referrer = body.referrer;
    referrer_actor_id = referrer_actor_id;
    friend = body.friend;
    friend_actor_id = friend_actor_id;
    milestone = body.milestone;
    recipient = recipient;
    recipient_actor_id = elim recipient [
      | to_referrer ↦ referrer_actor_id
      | to_friend ↦ friend_actor_id
    ];
    week_key = week_key;
    amount_planck = vara_to_planck (elim recipient [
      | to_referrer ↦ config.referral_milestone_referrer_vara
      | to_friend ↦ config.referral_milestone_friend_vara
    ]);
    grant_id = reward_id referrer_actor_id friend_actor_id body.milestone recipient;
    paid_at = some now;
  }

  -- The cap of five rewards in a week.
  unfoldable pub ensure_below_cap :
      ℕ → (referrer_actor_id week_key : String) → ReferralRecipient → Action World (Unit {0})
  ensure_below_cap milestone referrer_actor_id week_key to_friend = pure tt
  ensure_below_cap milestone referrer_actor_id week_key to_referrer = do
    weekly_paid_count ← count_rewards (counts_to_cap referrer_actor_id milestone week_key)
    if leb 5 weekly_paid_count
        then throw (forbidden "Referrer weekly referral reward cap reached")
        else pure tt

  unfoldable pub save_reward :
      ReferralMilestone
      → (referrer_actor_id friend_actor_id week_key : String) → ReferralRecipient
      → Action World ReferralReward
  save_reward body referrer_actor_id friend_actor_id week_key recipient = do
    now ← gets date_now
    let reward = new_reward body referrer_actor_id friend_actor_id week_key recipient now
    insert_reward reward
    pure reward

  -- The body of the loop, when there is no reward with the grant's id.
  unfoldable pub pay_reward :
      ReferralMilestone
      → (referrer_actor_id friend_actor_id week_key : String) → ReferralRecipient
      → Action World ReferralReward
  unfolding ensure_below_cap save_reward
  pay_reward body referrer_actor_id friend_actor_id week_key recipient = do
    ensure_below_cap body.milestone referrer_actor_id week_key recipient
    let draft = new_reward body referrer_actor_id friend_actor_id week_key recipient 0
    grant_ledger_freebet b config draft.recipient_actor_id draft.amount_planck draft.grant_id
        (reward_reason body.milestone recipient)
    save_reward body referrer_actor_id friend_actor_id week_key recipient

  -- The loop over the recipients.
  unfoldable pub grant_recipients :
      ReferralMilestone
      → (referrer_actor_id friend_actor_id week_key : String) → List ReferralRecipient
      → Action World (List ReferralReward)
  unfolding pay_reward reward_id
  grant_recipients body referrer_actor_id friend_actor_id week_key [] = pure []
  grant_recipients body referrer_actor_id friend_actor_id week_key (recipient ∷ recipients) = do
    let grant_id = reward_id referrer_actor_id friend_actor_id body.milestone recipient
    existing ← find_reward (λ row. row.grant_id == grant_id)
    reward ← elim existing [
      | some reward ↦ pure reward
      | none ↦ pay_reward body referrer_actor_id friend_actor_id week_key recipient
    ]
    rewards ← grant_recipients body referrer_actor_id friend_actor_id week_key recipients
    pure (reward ∷ rewards)

  unfoldable pub grant_referral_milestone : ReferralMilestone → Action World (List ReferralReward)
  unfolding grant_recipients
  grant_referral_milestone body = do
    referrer_actor_id ← actor_id_of b body.referrer
    friend_actor_id ← actor_id_of b body.friend
    now ← gets date_now
    grant_recipients body referrer_actor_id friend_actor_id (week_key_at b now) (to_referrer ∷ [])

  abbrev pub progress_of : SyncActivity → (friend_actor_id : String) → (now : ℕ) → ReferralProgress
  progress_of body friend_actor_id now = record {
    friend_actor_id = friend_actor_id;
    tx_count = body.bet_count;
    active_days = value_or body.active_days 0;
    qualifying_active_days = value_or body.qualifying_active_days 0;
    first_tx_at = body.first_tx_at;
    last_tx_at = some (value_or body.last_tx_at now);
  }

  -- The grants of a friend whose referral was looked up.
  unfoldable pub activity_grants :
      ReferralProgress → Option Referral → Action World (List ReferralReward)
  unfolding is_referral_eligible grant_referral_milestone
  activity_grants progress none = pure []
  activity_grants progress (some referral) =
      if is_referral_eligible progress && leb 5 progress.tx_count
      then grant_referral_milestone (record {
        referrer = referral.referrer_actor_id;
        friend = referral.friend_actor_id;
        milestone = 5;
      })
      else pure []

  unfoldable pub sync_progress : ReferralProgress → Action World (Progress × List ReferralReward)
  unfolding activity_grants build_progress
  sync_progress progress = do
    save_progress progress
    referral ←
        find_referral
          (λ row. row.friend_actor_id == progress.friend_actor_id && is_active row.status)
    grants ← activity_grants progress referral
    later ← gets date_now
    pure (build_progress progress later, grants)

  unfoldable pub sync_referral_activity :
      SyncActivity → Action World (Progress × List ReferralReward)
  unfolding sync_progress
  sync_referral_activity body = do
    friend_actor_id ← actor_id_of b body.friend
    now ← gets date_now
    sync_progress (progress_of body friend_actor_id now)
