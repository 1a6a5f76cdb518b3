-- ===== src/Rewards/Referrals/Cap.antt =====
-- The weekly cap on the referral rewards of a referrer.
use smartcupleague.Prelude.{
  ℕ, ◌≤◌, ◌<◌, ◌≡◌, refl, sym, ap, subst, ◌∙◌, inl, inr, String, true, List, [], ◌∷◌, ◌++◌, arith,
  length, select, leb, if◌then◌else◌, nat_eq, string_eq, ◌==◌, eq_iff, Bool-cases,
}
use smartcupleague.Action.{ok, bind-elim, bind-ok, pure, throw, forbidden}
use smartcupleague.Rewards.Backend.{
  Backend, Config, ReferralReward, ReferralRecipient, to_referrer, to_friend,
}
use smartcupleague.Rewards.Service.{ReferralMilestone}
use smartcupleague.Rewards.Referrals.{
  counts_to_cap, ensure_below_cap, new_reward, save_reward, pay_reward, grant_recipients,
  is_to_referrer, reward_reason, reward_id,
}
use smartcupleague.Rewards.Chain.{grant_ledger_freebet}
use smartcupleague.Rewards.Chain.Laws.{grant-SentAtMost}
use smartcupleague.Rewards.View.{View, Laws}
use smartcupleague.Rewards.View.Counts.{count-append}
use smartcupleague.Rewards.View.Silent.{
  Silent, view_kept, Silent-bind, Keeps, Keeps-bind, Keeps-Silent, Keeps-option, Silent-map,
}

abbrev pub count_of : (referrer : String) → ℕ → (week_key : String) → List ReferralReward → ℕ
count_of referrer milestone week_key rows =
    length (select (counts_to_cap referrer milestone week_key) rows)

-- No referrer has more than five rewards for a milestone in a week.
abbrev pub WithinCap : List ReferralReward → Type 0
WithinCap rows =
    (referrer : String) (milestone : ℕ) (week_key : String)
    → count_of referrer milestone week_key rows ≤ 5

counts-same :
    (referrer : String) (milestone : ℕ) (week_key : String) (row : ReferralReward)
    → counts_to_cap referrer milestone week_key row ≡ true
    → (row.referrer_actor_id ≡ referrer)
      × (row.milestone ≡ milestone)
      × (row.week_key ≡ week_key)
      × (is_to_referrer row.recipient ≡ true)
counts-same referrer milestone week_key row h = (
  (eq_iff row.referrer_actor_id referrer).0 (ground arith),
  (nat_eq.same_iff row.milestone milestone).0 (ground arith),
  (eq_iff row.week_key week_key).0 (ground arith),
  ground arith,
)

-- One more row keeps the cap, if it does not count or there was room for it.
WithinCap-append :
    (rows : List ReferralReward) (row : ReferralReward)
    → WithinCap rows
    → (is_to_referrer row.recipient ≡ true
        → count_of row.referrer_actor_id row.milestone row.week_key rows < 5)
    → WithinCap (rows ++ row ∷ [])
WithinCap-append rows row capped room referrer milestone week_key =
    rw (count-append (counts_to_cap referrer milestone week_key) rows row)
      (elim (Bool-cases (counts_to_cap referrer milestone week_key row)) [
        | inr e ↦ rw e (omega (arith, capped referrer milestone week_key))
        | inl e ↦
            (let (r, m, k, counts) = counts-same referrer milestone week_key row e in
              let below = rw (r, m, k) at (room counts) in rw e (omega (arith, below)))
      ])

module _ (b : Backend) (config : Config) (laws : Laws b) where
  open laws use {view}

  abbrev pub rewards_of : b.World → List ReferralReward
  rewards_of w = (view w).rewards

  pub ensure_below_cap-Silent :
      (milestone : ℕ) (referrer week_key : String) (recipient : ReferralRecipient)
      → Silent b laws.view (ensure_below_cap b config milestone referrer week_key recipient)
  unfolding ensure_below_cap
  ensure_below_cap-Silent milestone referrer week_key to_friend w = refl
  ensure_below_cap-Silent milestone referrer week_key to_referrer w =
      Silent-bind b laws.view
        (b.repositories.count_rewards (counts_to_cap referrer milestone week_key))
        (λ n.
          if leb 5 n
          then throw (forbidden "Referrer weekly referral reward cap reached")
          else pure tt)
        (laws.counts_rewards (counts_to_cap referrer milestone week_key))
        (λ n w'. elim (Bool-cases (leb 5 n)) [ inl e ↦ rw e refl | inr e ↦ rw e refl ]) w

  ensure_below_cap-ok :
      (milestone : ℕ) (referrer week_key : String) (recipient : ReferralRecipient) (w w' : b.World)
      → ensure_below_cap b config milestone referrer week_key recipient w ≡ (ok tt, w')
      → is_to_referrer recipient ≡ true
      → count_of referrer milestone week_key ((view w).rewards) < 5
  unfolding ensure_below_cap
  ensure_below_cap-ok milestone referrer week_key to_friend w w' h k = absurd (ground arith)
  ensure_below_cap-ok milestone referrer week_key to_referrer w w' h k =
      let (n, w1, counted, rest) =
        bind-ok (b.repositories.count_rewards (counts_to_cap referrer milestone week_key)) _ w h in
      let exact = laws.counted_rewards (counts_to_cap referrer milestone week_key) w w1 n counted in
      elim (Bool-cases (leb 5 n)) [
        | inl e ↦ absurd (ground arith)
        | inr e ↦ let small = rw exact at e in ground arith
      ]

  -- What is saved of a reward, if anything, is one row of the referrer, the milestone and the week.
  save_reward-WithinCap :
      (body : ReferralMilestone) (referrer friend week_key : String) (recipient : ReferralRecipient)
      → (w : b.World) → WithinCap ((view w).rewards)
      → (is_to_referrer recipient ≡ true
          → count_of referrer body.milestone week_key ((view w).rewards) < 5)
      → WithinCap
          ((view ((save_reward b config body referrer friend week_key recipient w).1)).rewards)
  unfolding save_reward
  save_reward-WithinCap body referrer friend week_key recipient w capped room =
      let reward = new_reward b config body referrer friend week_key recipient (b.date_now w) in
      let added = WithinCap-append ((view w).rewards) reward capped room in
      bind-elim (λ x. WithinCap ((view (x.1)).rewards)) (b.repositories.insert_reward reward)
        (λ _. pure reward) w
        (λ a w' ran.
          subst (λ v. WithinCap (v.rewards)) (sym (laws.inserted_reward reward w w' ran)) added)
        (λ e w' ran. elim (laws.inserts_reward reward w) [
          | inl same ↦
              subst (λ v. WithinCap (v.rewards)) (sym same ∙ ap (λ x. view (x.1)) ran) capped
          | inr more ↦
              subst (λ v. WithinCap (v.rewards)) (sym more ∙ ap (λ x. view (x.1)) ran) added
        ])

  -- A grant changes no reward.
  grant-rewards :
      (actor_id : String) (amount : ℕ) (grant_id reason : String) (w : b.World)
      → (view ((grant_ledger_freebet b config actor_id amount grant_id reason w).1)).rewards
        ≡ (view w).rewards
  grant-rewards actor_id amount grant_id reason w =
      elim (grant-SentAtMost b config laws actor_id amount grant_id reason w) [
        | inl same ↦ ap (λ (v : View). v.rewards) same
        | inr more ↦ ap (λ (v : View). v.rewards) more
      ]

  pay_reward-WithinCap :
      (body : ReferralMilestone) (referrer friend week_key : String) (recipient : ReferralRecipient)
      → (w : b.World) → WithinCap ((view w).rewards)
      → WithinCap
          ((view ((pay_reward b config body referrer friend week_key recipient w).1)).rewards)
  unfolding pay_reward
  pay_reward-WithinCap body referrer friend week_key recipient w capped =
      let draft = new_reward b config body referrer friend week_key recipient 0 in
      let guard = ensure_below_cap b config body.milestone referrer week_key recipient in
      let quiet = ensure_below_cap-Silent body.milestone referrer week_key recipient in
      let grant =
        grant_ledger_freebet b config draft.recipient_actor_id draft.amount_planck draft.grant_id
          (reward_reason body.milestone recipient) in
      bind-elim (λ x. WithinCap ((view (x.1)).rewards)) guard _ w
        (λ a w1 ran.
          let same : (view w1).rewards ≡ (view w).rewards =
            ap (λ (v : View). v.rewards) (view_kept b laws.view guard w w1 quiet ran) in
          bind-elim (λ x. WithinCap ((view (x.1)).rewards)) grant _ w1
            (λ h w2 granted.
              let kept : (view w2).rewards ≡ (view w).rewards =
                sym (ap (λ x. (view (x.1)).rewards) granted)
                ∙ grant-rewards draft.recipient_actor_id draft.amount_planck draft.grant_id
                    (reward_reason body.milestone recipient) w1
                ∙ same in
              save_reward-WithinCap body referrer friend week_key recipient w2
                (subst WithinCap (sym kept) capped)
                (λ counts.
                  subst (λ rows. count_of referrer body.milestone week_key rows < 5) (sym kept)
                    (ensure_below_cap-ok body.milestone referrer week_key recipient w w1 ran
                      counts)))
            (λ e w2 granted.
              subst WithinCap
                (sym (
                  sym (ap (λ x. (view (x.1)).rewards) granted)
                  ∙ grant-rewards draft.recipient_actor_id draft.amount_planck draft.grant_id
                      (reward_reason body.milestone recipient) w1
                  ∙ same))
                capped))
        (λ e w1 ran.
          subst (λ v. WithinCap (v.rewards)) (sym (view_kept b laws.view guard w w1 quiet ran))
            capped)

  pub grant_recipients-WithinCap :
      (body : ReferralMilestone) (referrer friend week_key : String)
      → (recipients : List ReferralRecipient)
      → Keeps b rewards_of WithinCap
          (grant_recipients b config body referrer friend week_key recipients)
  unfolding grant_recipients
  grant_recipients-WithinCap body referrer friend week_key [] = λ w h. h
  grant_recipients-WithinCap body referrer friend week_key (recipient ∷ recipients) =
      let test = λ (row : ReferralReward).
        row.grant_id == reward_id referrer friend body.milestone recipient in
      Keeps-bind b rewards_of WithinCap (b.repositories.find_reward test) _
        (Keeps-Silent b rewards_of WithinCap (b.repositories.find_reward test) (
          Silent-map b laws.view (λ (v : View). v.rewards) (b.repositories.find_reward test)
            (laws.finds_reward test)))
        (λ existing.
          Keeps-bind b rewards_of WithinCap _ _
            (Keeps-option b rewards_of WithinCap existing
              (pay_reward b config body referrer friend week_key recipient) pure
              (pay_reward-WithinCap body referrer friend week_key recipient) (λ reward w h. h))
            (λ reward.
              Keeps-bind b rewards_of WithinCap
                (grant_recipients b config body referrer friend week_key recipients)
                (λ rewards. pure (reward ∷ rewards))
                (grant_recipients-WithinCap body referrer friend week_key recipients)
                (λ rewards w h. h)))
