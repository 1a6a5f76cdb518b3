-- ===== src/Rewards/Requests/Invariants.antt =====
-- What no sequence of requests can break.
use smartcupleague.Prelude.{
  ◌≡◌, String, Option, none, some, List, [], ◌∷◌, ◌&&◌, leb, string_eq, ◌==◌,
}
use smartcupleague.Action.{Action, forbidden, pure, throw, ◌>>◌}
use smartcupleague.Rewards.Backend.{
  Backend, Config, ReferralRecipient, to_referrer, ReferralProgress, Referral,
}
use smartcupleague.Rewards.Service.{
  RegisterReferral, ReferralMilestone, SyncActivity, actor_id_of, week_key_at,
}
use smartcupleague.Rewards.Submissions.{submit_x_task, manual_grant}
use smartcupleague.Rewards.Submissions.Quiet.{submit_x_task-skips, manual_grant-skips}
use smartcupleague.Rewards.Referrals.{
  register_referral, grant_recipients, grant_referral_milestone, sync_referral_activity,
  activity_grants, sync_progress, progress_of, is_referral_eligible, is_active,
}
use smartcupleague.Rewards.Referrals.Pairs.{
  referrals_of, OneReferrer, register_referral-OneReferrer,
}
use smartcupleague.Rewards.Referrals.Cap.{rewards_of, WithinCap, grant_recipients-WithinCap}
use smartcupleague.Rewards.Referrals.Quiet.{register_referral-rewards, grant_recipients-referrals}
use smartcupleague.Rewards.Requests.{
  Request, post_submission, post_referral, post_activity, post_grant, post_milestone, require_admin,
  is_admin, serve, serve_all,
}
use smartcupleague.Rewards.View.{View, Laws}
use smartcupleague.Rewards.View.Silent.{Silent-map, Keeps, Keeps-bind, Keeps-if, Keeps-Silent}

-- For a part of the view that holds the referrals or the rewards, and what it satisfies.
module _ (b : Backend) (config : Config) (laws : Laws b) {X : Type 0} (part : View → X)
    (P : X → Type 0)
    (recipients-P : (body : ReferralMilestone) (referrer friend week_key : String)
        (recipients : List ReferralRecipient)
      → Keeps b
          (λ w. part (laws.view w))
          P
          (grant_recipients b config body referrer friend week_key recipients)) where
  abbrev seen : b.World → X
  seen w = part (laws.view w)

  milestone-P : (body : ReferralMilestone) → Keeps b seen P (grant_referral_milestone b config body)
  unfolding grant_referral_milestone
  milestone-P body =
      Keeps-bind b seen P (actor_id_of b body.referrer) _ (λ w h. h)
        (λ referrer.
          Keeps-bind b seen P (actor_id_of b body.friend) _ (λ w h. h)
            (λ friend w.
              recipients-P body referrer friend (week_key_at b (b.date_now w)) (to_referrer ∷ [])
                w))

  activity-P :
      (progress : ReferralProgress) (referral : Option Referral)
      → Keeps b seen P (activity_grants b config progress referral)
  unfolding activity_grants
  activity-P progress none = λ w h. h
  activity-P progress (some row) =
      let body : ReferralMilestone = record {
        referrer = row.referrer_actor_id;
        friend = row.friend_actor_id;
        milestone = 5;
      } in
      Keeps-if b seen P (is_referral_eligible progress && leb 5 progress.tx_count)
        (grant_referral_milestone b config body) (pure []) (milestone-P body) (λ w h. h)

  sync-P : (progress : ReferralProgress) → Keeps b seen P (sync_progress b config progress)
  unfolding sync_progress
  sync-P progress =
      let test = λ (row : Referral).
        row.friend_actor_id == progress.friend_actor_id && is_active row.status in
      Keeps-bind b seen P (b.repositories.save_progress progress) _
        (Keeps-Silent b seen P (b.repositories.save_progress progress) (
          Silent-map b laws.view part (b.repositories.save_progress progress)
            (laws.saves_progress progress)))
        (λ _.
          Keeps-bind b seen P (b.repositories.find_referral test) _
            (Keeps-Silent b seen P (b.repositories.find_referral test) (
              Silent-map b laws.view part (b.repositories.find_referral test)
                (laws.finds_referral test)))
            (λ referral.
              Keeps-bind b seen P (activity_grants b config progress referral) _
                (activity-P progress referral) (λ grants w h. h)))

  activity_request-P : (body : SyncActivity) → Keeps b seen P (sync_referral_activity b config body)
  unfolding sync_referral_activity
  activity_request-P body =
      Keeps-bind b seen P (actor_id_of b body.friend) _ (λ w h. h)
        (λ friend w. sync-P (progress_of b config body friend (b.date_now w)) w)

  guarded-P :
      {A : Type 0} (api_key : Option String) (m : Action b.World A)
      → Keeps b seen P m
      → Keeps b seen P (require_admin b config api_key >> m >> pure tt)
  unfolding require_admin
  guarded-P api_key m k =
      Keeps-bind b seen P (require_admin b config api_key >> m) (λ _. pure tt)
        (Keeps-bind b seen P (require_admin b config api_key) (λ _. m)
          (Keeps-if b seen P (is_admin b config api_key) (pure tt) (throw (forbidden "Forbidden"))
            (λ w h. h) (λ w h. h))
          (λ _. k))
        (λ _ w h. h)

  module _
      (skips : (v v' : View)
        → v.referrals ≡ v'.referrals
        → v.rewards ≡ v'.rewards
        → part v ≡ part v')
      (register-P : (body : RegisterReferral)
        → Keeps b seen P (register_referral b config body)) where
    serve-P : (request : Request) → Keeps b seen P (serve b config request)
    unfolding serve
    serve-P (post_submission body) =
        Keeps-bind b seen P (submit_x_task b config body) (λ _. pure tt)
          (Keeps-Silent b seen P (submit_x_task b config body)
            (submit_x_task-skips b config laws part skips body))
          (λ _ w h. h)
    serve-P (post_referral body) =
        Keeps-bind b seen P (register_referral b config body) (λ _. pure tt) (register-P body)
          (λ _ w h. h)
    serve-P (post_activity body api_key) =
        guarded-P api_key (sync_referral_activity b config body) (activity_request-P body)
    serve-P (post_grant body api_key) = guarded-P api_key (manual_grant b config body) (
        Keeps-Silent b seen P (manual_grant b config body)
          (manual_grant-skips b config laws part skips body))
    serve-P (post_milestone body api_key) =
        guarded-P api_key (grant_referral_milestone b config body) (milestone-P body)

    serve_all-P :
        (requests : List Request) (w : b.World)
        → P (seen w)
        → P (seen (serve_all b config requests w))
    unfolding serve_all
    serve_all-P [] w h = h
    serve_all-P (request ∷ requests) w h =
        serve_all-P requests ((serve b config request w).1) (serve-P request w h)

module _ (b : Backend) (config : Config) (laws : Laws b) where
  -- When no referrer has more than five rewards for a milestone in a week, then so it is after any
  -- sequence of requests, one after the other, whether they return or throw.
  pub serve_all-WithinCap :
      (requests : List Request) (w : b.World)
      → WithinCap (rewards_of b config laws w)
      → WithinCap (rewards_of b config laws (serve_all b config requests w))
  serve_all-WithinCap =
      serve_all-P b config laws (λ v. v.rewards) WithinCap
        (grant_recipients-WithinCap b config laws) (λ v v' p q. q)
        (λ body.
          Keeps-Silent b (rewards_of b config laws) WithinCap (register_referral b config body)
            (register_referral-rewards b config laws body))

  -- When each friend has one referral at most, and none is of a wallet to itself, then so it is after
  -- any sequence of requests, one after the other, whether they return or throw.
  pub serve_all-OneReferrer :
      (requests : List Request) (w : b.World)
      → OneReferrer (referrals_of b config laws w)
      → OneReferrer (referrals_of b config laws (serve_all b config requests w))
  serve_all-OneReferrer =
      serve_all-P b config laws (λ v. v.referrals) OneReferrer
        (λ body referrer friend week_key recipients.
          Keeps-Silent b (referrals_of b config laws) OneReferrer
            (grant_recipients b config body referrer friend week_key recipients)
            (grant_recipients-referrals b config laws body referrer friend week_key recipients))
        (λ v v' p q. p) (register_referral-OneReferrer b config laws)
