-- ===== src/Rewards/Referrals/Once.antt =====
-- A milestone is paid once.
use smartcupleague.Prelude.{
  ℕ, ◌≡◌, sym, ap, subst, ◌∙◌, ◌⊎◌, inl, inr, String, none, some, Bool, List, [], ◌∷◌, ◌++◌,
  string_eq, ◌==◌, eq_iff, Option-cases,
}
use smartcupleague.Action.{ok, bind-elim, bind-ok, ok_inj}
use smartcupleague.Rewards.Text.{normalize_actor_id}
use smartcupleague.Rewards.Backend.{Backend, Config, ReferralReward, ReferralRecipient, to_referrer}
use smartcupleague.Rewards.Service.{ReferralMilestone, week_key_at}
use smartcupleague.Rewards.Chain.{grant_ledger_freebet}
use smartcupleague.Rewards.Chain.Laws.{grant-ok, grant_of, after_grant, after_grant-tables}
use smartcupleague.Rewards.Referrals.{
  new_reward, reward_reason, reward_id, ensure_below_cap, save_reward, pay_reward, grant_recipients,
  grant_referral_milestone,
}
use smartcupleague.Rewards.Referrals.Cap.{ensure_below_cap-Silent}
use smartcupleague.Rewards.XService.{find_first}
use smartcupleague.Rewards.View.{View, Laws, with_reward}
use smartcupleague.Rewards.View.Counts.{find-append, find_some}
use smartcupleague.Rewards.View.Silent.{view_kept}

module _ (b : Backend) (config : Config) (laws : Laws b) where
  open laws use {view}

  -- The row that a payment at a time makes, and the view after it.
  abbrev paid_view : ReferralReward → ReferralRecipient → View → View
  paid_view reward recipient v = with_reward reward (
      after_grant b config laws
        (grant_of b config laws reward.recipient_actor_id reward.amount_planck reward.grant_id
          (reward_reason reward.milestone recipient))
        v)

  pay_reward-ok :
      (body : ReferralMilestone) (referrer friend week_key : String) (recipient : ReferralRecipient)
      (w w' : b.World) (reward : ReferralReward)
      → pay_reward b config body referrer friend week_key recipient w ≡ (ok reward, w')
      → (now : ℕ) × (reward ≡ new_reward b config body referrer friend week_key recipient now)
        × (view w' ≡ paid_view reward recipient (view w))
  unfolding pay_reward save_reward
  pay_reward-ok body referrer friend week_key recipient w w' reward h =
      let draft = new_reward b config body referrer friend week_key recipient 0 in
      let guard = ensure_below_cap b config body.milestone referrer week_key recipient in
      let reason = reward_reason body.milestone recipient in
      let (t, w1, checked, rest) = bind-ok guard _ w h in
      let (hash, w2, granted, rest2) =
        bind-ok
          (grant_ledger_freebet b config draft.recipient_actor_id draft.amount_planck draft.grant_id
            reason)
          _ w1 rest in
      let row = new_reward b config body referrer friend week_key recipient (b.date_now w2) in
      let (u, w3, saved, rest3) = bind-ok (b.repositories.insert_reward row) _ w2 rest2 in
      let (same, reached) = ok_inj rest3 in
      let before =
        view_kept b view guard w w1
          (ensure_below_cap-Silent b config laws body.milestone referrer week_key recipient)
          checked in
      let paid =
        grant-ok b config laws draft.recipient_actor_id draft.amount_planck draft.grant_id reason w1
          w2 hash granted in
      (
        b.date_now w2,
        sym same,
        subst (λ r. view w' ≡ paid_view r recipient (view w)) same
            (sym (ap view reached)
              ∙ laws.inserted_reward row w2 w3 saved
              ∙ ap (with_reward row) paid
              ∙ ap (paid_view row recipient) before),
      )

  abbrev pub has_id : (grant_id : String) → ReferralReward → Bool
  has_id grant_id row = row.grant_id == grant_id

  -- The reward of a milestone, as it was found, or as it was paid.
  abbrev pub FoundOrPaid : (grant_id : String) → View → View → ReferralReward → Type 0
  FoundOrPaid grant_id v v' reward =
      ((find_first (has_id grant_id) v.rewards ≡ some reward) × (v' ≡ v))
      ⊎ ((find_first (has_id grant_id) v.rewards ≡ none) × (v' ≡ paid_view reward to_referrer v))

  one_recipient :
      (body : ReferralMilestone) (referrer friend week_key : String) (w w' : b.World)
      (rewards : List ReferralReward)
      → grant_recipients b config body referrer friend week_key (to_referrer ∷ []) w
        ≡ (ok rewards, w')
      → let grant_id = reward_id referrer friend body.milestone to_referrer in
        (reward : ReferralReward) × (rewards ≡ reward ∷ [])
        × (reward.grant_id ≡ grant_id)
        × FoundOrPaid grant_id (view w) (view w') reward
  unfolding grant_recipients
  one_recipient body referrer friend week_key w w' rewards h =
      let grant_id = reward_id referrer friend body.milestone to_referrer in
      let find = b.repositories.find_reward (has_id grant_id) in
      let (existing, w1, looked, rest) = bind-ok find _ w h in
      let before = view_kept b view find w w1 (laws.finds_reward (has_id grant_id)) looked in
      let found = laws.found_reward (has_id grant_id) w w1 existing looked in
      elim (Option-cases existing) [
        | inr (reward, e) ↦
            (let was = sym found ∙ e in
              let (same, reached) = ok_inj (rw e at rest) in
              (
                reward,
                sym same,
                (eq_iff reward.grant_id grant_id).0
                    (find_some (has_id grant_id) ((view w).rewards) reward was),
                inl (was, sym (ap view reached) ∙ before),
              ))
        | inl e ↦
            (let (reward, w2, paid, rest2) =
                bind-ok (pay_reward b config body referrer friend week_key to_referrer) _ w1
                  (rw e at rest) in
              let (now, row, after) =
                pay_reward-ok body referrer friend week_key to_referrer w1 w2 reward paid in
              let (same, reached) = ok_inj rest2 in
              (
                reward,
                sym same,
                ap (λ (r : ReferralReward). r.grant_id) row,
                inr (
                  sym found ∙ e,
                  sym (ap view reached) ∙ after ∙ ap (paid_view reward to_referrer) before,
                ),
              ))
      ]

  -- While the reward stands in the table, the milestone changes nothing.
  paid_already :
      (body : ReferralMilestone) (referrer friend week_key : String) (reward : ReferralReward)
      (w : b.World)
      → let grant_id = reward_id referrer friend body.milestone to_referrer in
        find_first (has_id grant_id) ((view w).rewards) ≡ some reward
        → view ((grant_recipients b config body referrer friend week_key (to_referrer ∷ []) w).1)
          ≡ view w
  unfolding grant_recipients
  paid_already body referrer friend week_key reward w stands =
      let grant_id = reward_id referrer friend body.milestone to_referrer in
      let find = b.repositories.find_reward (has_id grant_id) in
      let quiet = laws.finds_reward (has_id grant_id) in
      bind-elim (λ x. view (x.1) ≡ view w) find _ w
        (λ existing w1 looked.
          let there = laws.found_reward (has_id grant_id) w w1 existing looked ∙ stands in
          rw there (view_kept b view find w w1 quiet looked))
        (λ e w1 looked. view_kept b view find w w1 quiet looked)

  FoundOrPaid-stands :
      (grant_id : String) (v v' : View) (reward : ReferralReward)
      → reward.grant_id ≡ grant_id
      → FoundOrPaid grant_id v v' reward
      → find_first (has_id grant_id) v'.rewards ≡ some reward
  FoundOrPaid-stands grant_id v v' reward same (inl (found, kept)) =
      ap (λ (x : View). find_first (has_id grant_id) x.rewards) kept ∙ found
  FoundOrPaid-stands grant_id v v' reward same (inr (missing, paid)) =
      let g =
        grant_of b config laws reward.recipient_actor_id reward.amount_planck reward.grant_id
          (reward_reason reward.milestone to_referrer) in
      let (submissions, rewards) = after_grant-tables b config laws g v in
      ap (λ (x : View). find_first (has_id grant_id) x.rewards) paid
      ∙ ap (λ rows. find_first (has_id grant_id) (rows ++ reward ∷ [])) rewards
      ∙ find-append (has_id grant_id) v.rewards reward ((eq_iff reward.grant_id grant_id).1 same)
          missing

  -- A milestone that returns, for wallets that are read as these actor ids, returns one reward: one
  -- that the table held under the milestone's id, and then no table changed and nothing was sent; or,
  -- where there was none, a new row, and then the one grant of the row was sent, unless the chain is
  -- turned off. The same request, once the view is that again, changes no table and sends nothing.
  pub milestone-once :
      (body : ReferralMilestone) (referrer friend : String) (w w' again : b.World)
      (rewards : List ReferralReward)
      → normalize_actor_id b.decode_address body.referrer ≡ ok referrer
      → normalize_actor_id b.decode_address body.friend ≡ ok friend
      → grant_referral_milestone b config body w ≡ (ok rewards, w')
      → view again ≡ view w'
      → let grant_id = reward_id referrer friend body.milestone to_referrer in
        ((reward : ReferralReward) × (rewards ≡ reward ∷ [])
          × (reward.grant_id ≡ grant_id)
          × FoundOrPaid grant_id (view w) (view w') reward)
        × (view ((grant_referral_milestone b config body again).1) ≡ view again)
  unfolding grant_referral_milestone
  milestone-once body referrer friend w w' again rewards r f h seen =
      let grant_id = reward_id referrer friend body.milestone to_referrer in
      let (reward, one, same, how) =
        one_recipient body referrer friend (week_key_at b (b.date_now w)) w w' rewards
          (rw (r, f) at h) in
      let stands =
        ap (λ (v : View). find_first (has_id grant_id) v.rewards) seen
        ∙ FoundOrPaid-stands grant_id (view w) (view w') reward same how in
      (
        (reward, one, same, how),
        rw (r, f)
            (paid_already body referrer friend (week_key_at b (b.date_now again)) reward again
              stands),
      )
