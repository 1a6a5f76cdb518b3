-- ===== src/Rewards/Submissions.antt =====
-- The tasks on X and the manual grants of `RewardsService`
-- (rewards-backend/src/rewards/rewards.service.ts).
pub mod Quiet
pub mod Paid
use Prim.Native.String.{String, ◌++◌ as append}
use smartcupleague.Prelude.{
  ℕ, ◌*◌, ◌-◌, ◌+◌, Option, none, some, Bool, true, false, ◌&&◌, ◌||◌, List, [], ◌∷◌, ◌++◌, map,
  leb, nat_eq, string_eq, ◌==◌, if◌then◌else◌, or_else, select, is_nil, includes,
}
use smartcupleague.Action.{
  Action, Result, bad_request, conflict, forbidden, not_found, pure, throw, gets, try_catch, lift,
  ◌>>=◌, ◌>>◌,
}
use smartcupleague.Rewards.Text.{
  is_empty, vara_to_planck, normalize_actor_id, normalize_x_username, parse_tweet_url,
  ParsedTweetUrl,
}
use smartcupleague.Rewards.Week.{week_start}
use smartcupleague.Rewards.Chain.{grant_ledger_freebet}
use smartcupleague.Rewards.XService.{fetch_tweet, verify_task}
use smartcupleague.Rewards.Backend.{
  Backend, Config, Repositories, XTaskType, repost, post, RewardSubmission, approved, paid,
  Referral, ReferralStatus, active, blocked, ReferralReward, ReferralRecipient, to_referrer,
  to_friend, ReferralProgress,
}
use smartcupleague.Rewards.Service.{
  SubmitXTask, ManualGrant, RegisterReferral, ReferralMilestone, SyncActivity, week_key_at,
  actor_id_of,
}

abbrev pub task_text : XTaskType → String
task_text repost = "repost"
task_text post = "post"

abbrev pub same_task : XTaskType → XTaskType → Bool
same_task repost repost = true
same_task repost post = false
same_task post repost = false
same_task post post = true

abbrev pub by_username : String → Option String → Bool
by_username x_username none = false
by_username x_username (some username) = username == x_username

-- The tests of the queries.
abbrev pub of_wallet :
    (actor_id : String) → XTaskType → (week_key : String) → RewardSubmission → Bool
of_wallet actor_id task week_key row =
    row.actor_id == actor_id && same_task row.task_type task && row.week_key == week_key

abbrev pub of_post :
    (x_username : String) → XTaskType → (tweet_id : String) → RewardSubmission → Bool
of_post x_username task tweet_id row =
    by_username x_username row.x_username
    && same_task row.task_type task
    && row.tweet_id == tweet_id

abbrev pub of_account :
    (x_username : String) → XTaskType → (week_key : String) → RewardSubmission → Bool
of_account x_username task week_key row =
    by_username x_username row.x_username
    && same_task row.task_type task
    && row.week_key == week_key

unfoldable pub submission_grant_id : (week_key actor_id : String) → XTaskType → String
submission_grant_id week_key actor_id task =
    append "x:" (append week_key (append ":" (append actor_id (append ":" (task_text task)))))

module _ (b : Backend) (config : Config) where
  open b use {World, date_now, parse_url, repositories}
  open repositories use {
    find_submission, find_submission_by_id, find_submissions, insert_submission, update_submission,
  }

  unfoldable pub ensure_x_account_can_submit :
      (x_username : String) → XTaskType → (tweet_id week_key : String) → Action World (Unit {0})
  ensure_x_account_can_submit x_username task tweet_id week_key = do
    existing_post ← find_submission (of_post x_username task tweet_id)
    elim existing_post [
      | some _ ↦ throw (conflict "This X post has already been paid for this reward task")
      | none ↦ (do
        existing_weekly_task ← find_submission (of_account x_username task week_key)
        elim existing_weekly_task [
          | some _ ↦ throw (conflict "This X account already received the reward this week")
          | none ↦ pure tt
        ])
    ]

  -- `body.xUsername ? normalizeXUsername(body.xUsername) : urlUsername`
  abbrev pub submitted_username : Option String → Option String → Action World (Option String)
  submitted_username none url_username = pure url_username
  submitted_username (some given) url_username = if is_empty given then pure url_username else (do
    normalized ← lift (normalize_x_username (some given) "X username must be a valid username")
    pure (some normalized))

  abbrev pub ensure_if_there :
      Option String → XTaskType → (tweet_id week_key : String) → Action World (Unit {0})
  ensure_if_there none task tweet_id week_key = pure tt
  ensure_if_there (some x_username) task tweet_id week_key =
      if is_empty x_username
      then pure tt
      else ensure_x_account_can_submit x_username task tweet_id week_key

  abbrev pub new_submission :
      SubmitXTask → (actor_id tweet_id x_username week_key : String) → RewardSubmission
  new_submission body actor_id tweet_id x_username week_key = record {
    wallet = body.wallet;
    actor_id = actor_id;
    task_type = body.task_type;
    tweet_url = body.tweet_url;
    tweet_id = tweet_id;
    x_username = some x_username;
    week_key = week_key;
    reward_amount_planck = vara_to_planck (elim body.task_type [
      | repost ↦ config.x_repost_amount_vara
      | post ↦ config.x_post_amount_vara
    ]);
    grant_id = submission_grant_id week_key actor_id body.task_type;
    reason = append "x " (append (task_text body.task_type) (append " " week_key));
    status = approved;
    paid_at = none;
  }

  -- From `fetchTweet` on: the row of a post that does the task.
  unfoldable pub verified_submission :
      SubmitXTask
      → (actor_id : String) → ParsedTweetUrl
      → Option String
      → (week_key : String) → Action World RewardSubmission
  unfolding ensure_x_account_can_submit submission_grant_id
  verified_submission body actor_id url submitted week_key = do
    tweet ← fetch_tweet b config url.tweet_id
    x_username ←
        verify_task b config tweet body.task_type (or_else body.given_username url.username)
    if by_username x_username submitted
        then pure tt
        else ensure_x_account_can_submit x_username body.task_type url.tweet_id week_key
    pure (new_submission body actor_id url.tweet_id x_username week_key)

  -- The limit on the wallet, and then the post.
  unfoldable pub fresh_submission :
      SubmitXTask
      → (actor_id : String) → ParsedTweetUrl
      → Option String
      → (week_key : String) → Action World RewardSubmission
  unfolding verified_submission
  fresh_submission body actor_id url submitted week_key = do
    existing ← find_submission (of_wallet actor_id body.task_type week_key)
    elim existing [
      | none ↦ verified_submission body actor_id url submitted week_key
      | some _ ↦ throw (conflict "This wallet already received the reward this week")
    ]

  -- The limits on the account that the request names, and then those on the wallet.
  unfoldable pub limited_submission :
      SubmitXTask
      → (actor_id : String) → ParsedTweetUrl
      → (week_key : String) → Action World RewardSubmission
  unfolding ensure_x_account_can_submit fresh_submission
  limited_submission body actor_id url week_key = do
    submitted ← submitted_username body.given_username url.username
    ensure_if_there submitted body.task_type url.tweet_id week_key
    fresh_submission body actor_id url submitted week_key

  -- The checks of a submission and its row.
  unfoldable pub check_x_task : SubmitXTask → Action World RewardSubmission
  unfolding limited_submission
  check_x_task body = do
    actor_id ← actor_id_of b body.wallet
    url ← lift (parse_tweet_url parse_url body.tweet_url)
    now ← gets date_now
    limited_submission body actor_id url (week_key_at b now)

  abbrev pub paid_row : RewardSubmission → (now : ℕ) → RewardSubmission
  paid_row submission now = record submission { status = paid; paid_at = some now }

  unfoldable pub mark_paid : RewardSubmission → Action World RewardSubmission
  mark_paid submission = do
    now ← gets date_now
    update_submission (paid_row submission now)
    pure (paid_row submission now)

  unfoldable pub save_submission : RewardSubmission → Action World (Unit {0})
  save_submission submission =
      try_catch (insert_submission submission)
        (λ _. throw (conflict "This reward was already paid or the weekly limit was already used"))

  -- From the first save on.
  unfoldable pub pay_submission : RewardSubmission → Action World RewardSubmission
  unfolding save_submission mark_paid
  pay_submission submission = do
    save_submission submission
    grant_ledger_freebet b config submission.actor_id submission.reward_amount_planck
        submission.grant_id submission.reason
    mark_paid submission

  unfoldable pub submit_x_task : SubmitXTask → Action World RewardSubmission
  unfolding check_x_task pay_submission
  submit_x_task body = do submission ← check_x_task body; pay_submission submission

  unfoldable pub get_submission : String → Action World RewardSubmission
  get_submission id = do
    found ← find_submission_by_id id
    elim found [
      | none ↦ throw (not_found "Submission not found")
      | some submission ↦ pure submission
    ]

  unfoldable pub get_x_submissions : String → Action World (List RewardSubmission)
  get_x_submissions wallet = do
    actor_id ← actor_id_of b wallet
    find_submissions (λ row. row.actor_id == actor_id)

  unfoldable pub manual_grant : ManualGrant → Action World (String × ℕ × String)
  manual_grant body = do
    actor_id ← actor_id_of b body.wallet
    let amount_planck = vara_to_planck body.amount_vara
    grant_ledger_freebet b config actor_id amount_planck body.grant_id body.reason
    pure (actor_id, amount_planck, body.grant_id)
