-- ===== src/Rewards/Referrals/Quiet.antt =====
-- What the operations on referrals leave alone: registering changes no reward, a milestone changes no
-- referral; and both of a friend's activity.
use smartcupleague.Prelude.{
  refl, ap, inl, inr, String, Option, none, some, List, [], ◌∷◌, string_eq, ◌==◌,
}
use smartcupleague.Action.{pure, throw, bad_request, conflict}
use smartcupleague.Rewards.Backend.{Backend, Config, Referral, ReferralReward, ReferralRecipient}
use smartcupleague.Rewards.Service.{RegisterReferral, ReferralMilestone, actor_id_of}
use smartcupleague.Rewards.Chain.{grant_ledger_freebet}
use smartcupleague.Rewards.Chain.Laws.{grant-SentAtMost}
use smartcupleague.Rewards.Referrals.{
  new_referral, accept_referral, register_pair, register_referral, new_reward, reward_reason,
  ensure_below_cap, save_reward, pay_reward, reward_id, grant_recipients,
}
use smartcupleague.Rewards.Referrals.Pairs.{referrals_of, of_friend}
use smartcupleague.Rewards.Referrals.Cap.{rewards_of, ensure_below_cap-Silent}
use smartcupleague.Rewards.View.{View, Laws}
use smartcupleague.Rewards.View.Silent.{Silent, Silent-bind, Silent-if, Silent-option, Silent-map}

module _ (b : Backend) (config : Config) (laws : Laws b) where
  open laws use {view}

  accept-rewards :
      (body : RegisterReferral) (referrer friend : String) (existing : Option Referral)
      → Silent b (rewards_of b config laws) (accept_referral b config body referrer friend existing)
  unfolding accept_referral
  accept-rewards body referrer friend (some row) =
      Silent-if b (rewards_of b config laws) (row.referrer_actor_id == referrer) (pure row)
        (throw (conflict "friend already accepted another referral")) (λ w. refl) (λ w. refl)
  accept-rewards body referrer friend none = λ w.
      let row = new_referral b config body referrer friend (b.date_now w) in
      Silent-bind b (rewards_of b config laws) (b.repositories.insert_referral row) (λ _. pure row)
        (λ w'. elim (laws.inserts_referral row w') [
          | inl same ↦ ap (λ (v : View). v.rewards) same
          | inr more ↦ ap (λ (v : View). v.rewards) more
        ])
        (λ _ w'. refl) w

  pub register_referral-rewards :
      (body : RegisterReferral)
      → Silent b (rewards_of b config laws) (register_referral b config body)
  unfolding register_referral register_pair
  register_referral-rewards body =
      let view_of = rewards_of b config laws in
      Silent-bind b view_of (actor_id_of b body.referrer) _ (λ w. refl)
        (λ referrer.
          Silent-bind b view_of (actor_id_of b body.friend) (register_pair b config body referrer)
            (λ w. refl)
            (λ friend.
              Silent-if b view_of (referrer == friend)
                (throw (bad_request "referrer and friend must be different wallets")) _ (λ w. refl)
                (Silent-bind b view_of (b.repositories.find_referral (of_friend friend))
                  (accept_referral b config body referrer friend)
                  (Silent-map b view (λ (v : View). v.rewards)
                    (b.repositories.find_referral (of_friend friend))
                    (laws.finds_referral (of_friend friend)))
                  (accept-rewards body referrer friend))))

  save_reward-referrals :
      (body : ReferralMilestone) (referrer friend week_key : String) (recipient : ReferralRecipient)
      → Silent b
          (referrals_of b config laws)
          (save_reward b config body referrer friend week_key recipient)
  unfolding save_reward
  save_reward-referrals body referrer friend week_key recipient w =
      let row = new_reward b config body referrer friend week_key recipient (b.date_now w) in
      Silent-bind b (referrals_of b config laws) (b.repositories.insert_reward row) (λ _. pure row)
        (λ w'. elim (laws.inserts_reward row w') [
          | inl same ↦ ap (λ (v : View). v.referrals) same
          | inr more ↦ ap (λ (v : View). v.referrals) more
        ])
        (λ _ w'. refl) w

  pay_reward-referrals :
      (body : ReferralMilestone) (referrer friend week_key : String) (recipient : ReferralRecipient)
      → Silent b
          (referrals_of b config laws)
          (pay_reward b config body referrer friend week_key recipient)
  unfolding pay_reward
  pay_reward-referrals body referrer friend week_key recipient =
      let view_of = referrals_of b config laws in
      let draft = new_reward b config body referrer friend week_key recipient 0 in
      let guard = ensure_below_cap b config body.milestone referrer week_key recipient in
      let reason = reward_reason body.milestone recipient in
      Silent-bind b view_of guard _
        (Silent-map b view (λ (v : View). v.referrals) guard
          (ensure_below_cap-Silent b config laws body.milestone referrer week_key recipient))
        (λ _.
          Silent-bind b view_of
            (grant_ledger_freebet b config draft.recipient_actor_id draft.amount_planck
              draft.grant_id reason)
            (λ _. save_reward b config body referrer friend week_key recipient)
            (λ w.
              elim (grant-SentAtMost b config laws draft.recipient_actor_id draft.amount_planck
                draft.grant_id reason w) [
                  | inl same ↦ ap (λ (v : View). v.referrals) same
                  | inr more ↦ ap (λ (v : View). v.referrals) more
                ])
            (λ _. save_reward-referrals body referrer friend week_key recipient))

  pub grant_recipients-referrals :
      (body : ReferralMilestone) (referrer friend week_key : String)
      (recipients : List ReferralRecipient)
      → Silent b
          (referrals_of b config laws)
          (grant_recipients b config body referrer friend week_key recipients)
  unfolding grant_recipients
  grant_recipients-referrals body referrer friend week_key [] = λ w. refl
  grant_recipients-referrals body referrer friend week_key (recipient ∷ recipients) =
      let view_of = referrals_of b config laws in
      let test = λ (row : ReferralReward).
        row.grant_id == reward_id referrer friend body.milestone recipient in
      let pay = pay_reward b config body referrer friend week_key recipient in
      Silent-bind b view_of (b.repositories.find_reward test) _
        (Silent-map b view (λ (v : View). v.referrals) (b.repositories.find_reward test)
          (laws.finds_reward test))
        (λ existing.
          Silent-bind b view_of (elim existing [ none ↦ pay | some reward ↦ pure reward ]) _
            (Silent-option b view_of existing pay pure
              (pay_reward-referrals body referrer friend week_key recipient) (λ reward w. refl))
            (λ reward.
              Silent-bind b view_of
                (grant_recipients b config body referrer friend week_key recipients)
                (λ rewards. pure (reward ∷ rewards))
                (grant_recipients-referrals body referrer friend week_key recipients)
                (λ rewards w. refl)))
