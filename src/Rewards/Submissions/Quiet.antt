-- ===== src/Rewards/Submissions/Quiet.antt =====
-- The checks of a submission change no table and send no grant, and its payment changes the
-- submissions and the grants alone.
use smartcupleague.Prelude.{
  ℕ, ◌≡◌, refl, ap, ◌∙◌, inl, inr, String, Option, none, some, string_eq, or_else,
}
use smartcupleague.Action.{pure, throw, lift, gets, conflict}
use smartcupleague.Rewards.Text.{
  is_empty, vara_to_planck, normalize_x_username, parse_tweet_url, ParsedTweetUrl,
}
use smartcupleague.Rewards.Backend.{Backend, Config, XTaskType, RewardSubmission}
use smartcupleague.Rewards.Service.{SubmitXTask, ManualGrant, week_key_at, actor_id_of}
use smartcupleague.Rewards.Chain.{grant_ledger_freebet}
use smartcupleague.Rewards.Chain.Laws.{grant-SentAtMost}
use smartcupleague.Rewards.XService.{fetch_tweet, verify_task}
use smartcupleague.Rewards.XService.Quiet.{fetch_tweet-Silent, verify_task-Silent}
use smartcupleague.Rewards.Submissions.{
  of_post, of_account, of_wallet, by_username, submitted_username, ensure_if_there, new_submission,
  ensure_x_account_can_submit, check_x_task, verified_submission, fresh_submission,
  limited_submission, save_submission, mark_paid, paid_row, pay_submission, submit_x_task,
  manual_grant,
}
use smartcupleague.Rewards.View.{View, Laws}
use smartcupleague.Rewards.View.Silent.{
  Silent, Silent-bind, Silent-if, Silent-option, Silent-map, Silent-catch,
}

module _ (b : Backend) (config : Config) (laws : Laws b) where
  pub ensure-Silent :
      (x_username : String) (task : XTaskType) (tweet_id week_key : String)
      → Silent b laws.view (ensure_x_account_can_submit b config x_username task tweet_id week_key)
  unfolding ensure_x_account_can_submit
  ensure-Silent x_username task tweet_id week_key =
      Silent-bind b laws.view (b.repositories.find_submission (of_post x_username task tweet_id)) _
        (laws.finds_submission (of_post x_username task tweet_id))
        (λ existing.
          Silent-option b laws.view existing _ _
            (Silent-bind b laws.view
              (b.repositories.find_submission (of_account x_username task week_key)) _
              (laws.finds_submission (of_account x_username task week_key))
              (λ weekly.
                Silent-option b laws.view weekly (pure tt)
                  (λ _. throw (conflict "This X account already received the reward this week"))
                  (λ w. refl) (λ _ w. refl)))
            (λ _ w. refl))

  pub submitted-Silent :
      (given url : Option String) → Silent b laws.view (submitted_username b config given url)
  submitted-Silent none url = λ w. refl
  submitted-Silent (some given) url =
      Silent-if b laws.view (is_empty given) (pure url) _ (λ w. refl)
        (Silent-bind b laws.view
          (lift (normalize_x_username (some given) "X username must be a valid username"))
          (λ name. pure (some name)) (λ w. refl) (λ name w. refl))

  pub ensure_if-Silent :
      (username : Option String) (task : XTaskType) (tweet_id week_key : String)
      → Silent b laws.view (ensure_if_there b config username task tweet_id week_key)
  ensure_if-Silent none task tweet_id week_key = λ w. refl
  ensure_if-Silent (some name) task tweet_id week_key =
      Silent-if b laws.view (is_empty name) (pure tt)
        (ensure_x_account_can_submit b config name task tweet_id week_key) (λ w. refl)
        (ensure-Silent name task tweet_id week_key)

  verified-Silent :
      (body : SubmitXTask) (actor_id : String) (url : ParsedTweetUrl) (submitted : Option String)
      (week_key : String)
      → Silent b laws.view (verified_submission b config body actor_id url submitted week_key)
  unfolding verified_submission
  verified-Silent body actor_id url submitted week_key =
      Silent-bind b laws.view (fetch_tweet b config url.tweet_id) _
        (fetch_tweet-Silent b config laws url.tweet_id)
        (λ tweet.
          let given = or_else body.given_username url.username in
          Silent-bind b laws.view (verify_task b config tweet body.task_type given) _
            (verify_task-Silent b config laws tweet body.task_type given)
            (λ name.
              Silent-bind b laws.view _
                (λ _. pure (new_submission b config body actor_id url.tweet_id name week_key))
                (Silent-if b laws.view (by_username name submitted) (pure tt)
                  (ensure_x_account_can_submit b config name body.task_type url.tweet_id week_key)
                  (λ w. refl) (ensure-Silent name body.task_type url.tweet_id week_key))
                (λ _ w. refl)))

  fresh-Silent :
      (body : SubmitXTask) (actor_id : String) (url : ParsedTweetUrl) (submitted : Option String)
      (week_key : String)
      → Silent b laws.view (fresh_submission b config body actor_id url submitted week_key)
  unfolding fresh_submission
  fresh-Silent body actor_id url submitted week_key =
      Silent-bind b laws.view
        (b.repositories.find_submission (of_wallet actor_id body.task_type week_key)) _
        (laws.finds_submission (of_wallet actor_id body.task_type week_key))
        (λ existing.
          Silent-option b laws.view existing
            (verified_submission b config body actor_id url submitted week_key)
            (λ _. throw (conflict "This wallet already received the reward this week"))
            (verified-Silent body actor_id url submitted week_key) (λ _ w. refl))

  limited-Silent :
      (body : SubmitXTask) (actor_id : String) (url : ParsedTweetUrl) (week_key : String)
      → Silent b laws.view (limited_submission b config body actor_id url week_key)
  unfolding limited_submission
  limited-Silent body actor_id url week_key =
      Silent-bind b laws.view (submitted_username b config body.given_username url.username) _
        (submitted-Silent body.given_username url.username)
        (λ submitted.
          Silent-bind b laws.view
            (ensure_if_there b config submitted body.task_type url.tweet_id week_key)
            (λ _. fresh_submission b config body actor_id url submitted week_key)
            (ensure_if-Silent submitted body.task_type url.tweet_id week_key)
            (λ _. fresh-Silent body actor_id url submitted week_key))

  pub check_x_task-Silent : (body : SubmitXTask) → Silent b laws.view (check_x_task b config body)
  unfolding check_x_task
  check_x_task-Silent body =
      Silent-bind b laws.view (actor_id_of b body.wallet) _ (λ w. refl)
        (λ actor_id.
          Silent-bind b laws.view (lift (parse_tweet_url b.parse_url body.tweet_url)) _ (λ w. refl)
            (λ url.
              Silent-bind b laws.view (gets b.date_now)
                (λ now. limited_submission b config body actor_id url (week_key_at b now))
                (λ w. refl) (λ now. limited-Silent body actor_id url (week_key_at b now))))

  -- A part of the view that the submissions and the grants are not in.
  module _ {X : Type 0} (part : View → X)
      (skips : (v v' : View)
        → v.referrals ≡ v'.referrals
        → v.rewards ≡ v'.rewards
        → part v ≡ part v') where
    grant-skips :
        (actor_id : String) (amount : ℕ) (grant_id reason : String)
        → Silent b
            (λ w. part (laws.view w))
            (grant_ledger_freebet b config actor_id amount grant_id reason)
    grant-skips actor_id amount grant_id reason w =
        elim (grant-SentAtMost b config laws actor_id amount grant_id reason w) [
          | inl same ↦ ap part same
          | inr more ↦ ap part more ∙ skips _ _ refl refl
        ]

    insert-skips :
        (row : RewardSubmission)
        → Silent b (λ w. part (laws.view w)) (b.repositories.insert_submission row)
    insert-skips row w = elim (laws.inserts_submission row w) [
      | inl same ↦ ap part same
      | inr more ↦ ap part more ∙ skips _ _ refl refl
    ]

    update-skips :
        (row : RewardSubmission)
        → Silent b (λ w. part (laws.view w)) (b.repositories.update_submission row)
    update-skips row w =
        let (same, as_well, sent) = laws.updates_submission row w in skips _ _ same as_well

    save-skips :
        (row : RewardSubmission) → Silent b (λ w. part (laws.view w)) (save_submission b config row)
    unfolding save_submission
    save-skips row =
        Silent-catch b (λ w. part (laws.view w)) (b.repositories.insert_submission row)
          (λ _.
            throw (conflict "This reward was already paid or the weekly limit was already used"))
          (insert-skips row) (λ _ w. refl)

    mark_paid-skips :
        (row : RewardSubmission) → Silent b (λ w. part (laws.view w)) (mark_paid b config row)
    unfolding mark_paid
    mark_paid-skips row w =
        let marked = paid_row b config row (b.date_now w) in
        Silent-bind b (λ w. part (laws.view w)) (b.repositories.update_submission marked)
          (λ _. pure marked) (update-skips marked) (λ _ w'. refl) w

    pay_submission-skips :
        (row : RewardSubmission) → Silent b (λ w. part (laws.view w)) (pay_submission b config row)
    unfolding pay_submission
    pay_submission-skips row =
        let grant =
          grant_ledger_freebet b config row.actor_id row.reward_amount_planck row.grant_id
            row.reason in
        Silent-bind b (λ w. part (laws.view w)) (save_submission b config row) _ (save-skips row)
          (λ _.
            Silent-bind b (λ w. part (laws.view w)) grant (λ _. mark_paid b config row)
              (grant-skips row.actor_id row.reward_amount_planck row.grant_id row.reason)
              (λ _. mark_paid-skips row))

    pub submit_x_task-skips :
        (body : SubmitXTask) → Silent b (λ w. part (laws.view w)) (submit_x_task b config body)
    unfolding submit_x_task
    submit_x_task-skips body =
        Silent-bind b (λ w. part (laws.view w)) (check_x_task b config body)
          (pay_submission b config)
          (Silent-map b laws.view part (check_x_task b config body) (check_x_task-Silent body))
          pay_submission-skips

    pub manual_grant-skips :
        (body : ManualGrant) → Silent b (λ w. part (laws.view w)) (manual_grant b config body)
    unfolding manual_grant
    manual_grant-skips body =
        Silent-bind b (λ w. part (laws.view w)) (actor_id_of b body.wallet) _ (λ w. refl)
          (λ actor_id.
            Silent-bind b (λ w. part (laws.view w))
              (grant_ledger_freebet b config actor_id (vara_to_planck body.amount_vara)
                body.grant_id body.reason)
              _ (grant-skips actor_id (vara_to_planck body.amount_vara) body.grant_id body.reason)
              (λ _ w. refl))
