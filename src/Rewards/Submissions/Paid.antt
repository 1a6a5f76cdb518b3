-- ===== src/Rewards/Submissions/Paid.antt =====
-- What stands behind a paid task on X.
use smartcupleague.Prelude.{
  ℕ, ◌≡◌, refl, sym, ap, subst, ◌∙◌, inl, inr, String, Option, none, some, true, false, [], ◌∷◌,
  ◌++◌, arith, Bool-cases, Option-cases, if◌then◌else◌, string_eq, eq_iff, eq_refl, or_else,
}
use smartcupleague.Action.{
  Thrown, ok, err, lift, pure, conflict, bind-ok, ok_inj, catch_throw-ok, ran-cases, err_ne_ok,
  result_inj,
}
use smartcupleague.Rewards.Text.{is_empty, normalize_actor_id, parse_tweet_url, ParsedTweetUrl}
use smartcupleague.Rewards.Backend.{
  Backend, Config, XTaskType, repost, post, RewardSubmission, XTweetLookup,
}
use smartcupleague.Rewards.Service.{SubmitXTask, week_key_at, actor_id_of}
use smartcupleague.Rewards.Chain.{grant_ledger_freebet}
use smartcupleague.Rewards.Chain.Laws.{
  grant-ok, grant_of, after_grant, after_grant-sent, grant-SentAtMost,
}
use smartcupleague.Rewards.XService.{fetch_tweet, verify_task, find_first}
use smartcupleague.Rewards.XService.Sound.{DoesTask, verify_task-DoesTask}
use smartcupleague.Rewards.XService.Quiet.{fetch_tweet-Silent, verify_task-Silent}
use smartcupleague.Rewards.Submissions.{
  same_task, of_wallet, of_post, of_account, by_username, new_submission, submitted_username,
  ensure_if_there, ensure_x_account_can_submit, verified_submission, fresh_submission,
  limited_submission, check_x_task, paid_row, mark_paid, save_submission, pay_submission,
  submit_x_task,
}
use smartcupleague.Rewards.Submissions.Quiet.{
  ensure_if-Silent, submitted-Silent, check_x_task-Silent,
}
use smartcupleague.Rewards.View.{View, Laws, with_submission}
use smartcupleague.Rewards.View.Counts.{found-append}
use smartcupleague.Rewards.View.Silent.{view_kept}

by_username_iff :
    (name : String) (submitted : Option String)
    → by_username name submitted ≡ true
    → submitted ≡ some name
by_username_iff name none h = absurd (ground arith)
by_username_iff name (some username) h = ap some ((eq_iff username name).0 h)

module _ (b : Backend) (config : Config) (laws : Laws b) where
  open laws use {view}

  -- No submission of the account with the post, or in the week.
  abbrev pub AccountIsFree :
      (name : String) → XTaskType → (tweet_id week_key : String) → View → Type 0
  AccountIsFree name task tweet_id week_key v =
      (find_first (of_post name task tweet_id) v.submissions ≡ none)
      × (find_first (of_account name task week_key) v.submissions ≡ none)

  ensure-ok :
      (name : String) (task : XTaskType) (tweet_id week_key : String) (w w' : b.World)
      → ensure_x_account_can_submit b config name task tweet_id week_key w ≡ (ok tt, w')
      → AccountIsFree name task tweet_id week_key (view w)
  unfolding ensure_x_account_can_submit
  ensure-ok name task tweet_id week_key w w' h =
      let find = b.repositories.find_submission (of_post name task tweet_id) in
      let (first, w1, looked, rest) = bind-ok find _ w h in
      let found = laws.found_submission (of_post name task tweet_id) w w1 first looked in
      let before =
        view_kept b view find w w1 (laws.finds_submission (of_post name task tweet_id)) looked in
      elim (Option-cases first) [
        | inr (row, e) ↦ absurd (err_ne_ok (rw e at rest))
        | inl e ↦
            (let (second, w2, looked2, rest2) =
                bind-ok (b.repositories.find_submission (of_account name task week_key)) _ w1
                  (rw e at rest) in
              let found2 =
                laws.found_submission (of_account name task week_key) w1 w2 second looked2 in
              elim (Option-cases second) [
                | inr (row, e2) ↦ absurd (err_ne_ok (rw e2 at rest2))
                | inl e2 ↦ (
                  sym found ∙ e,
                  ap (λ (v : View). find_first (of_account name task week_key) v.submissions)
                        (sym before)
                      ∙ sym found2
                      ∙ e2,
                )
              ])
      ]

  -- The account that the verification returned was checked, before or after it.
  checked_account :
      (submitted : Option String) (name : String) (task : XTaskType) (tweet_id week_key : String)
      (w w1 w2 w3 : b.World)
      → ensure_if_there b config submitted task tweet_id week_key w ≡ (ok tt, w1)
      → view w2 ≡ view w
      → is_empty name ≡ false
      → (if by_username name submitted
            then pure tt
            else ensure_x_account_can_submit b config name task tweet_id week_key)
          w2
        ≡ (ok tt, w3)
      → AccountIsFree name task tweet_id week_key (view w)
  checked_account submitted name task tweet_id week_key w w1 w2 w3 before same full after =
      elim (Bool-cases (by_username name submitted)) [
        | inr e ↦
            subst (AccountIsFree name task tweet_id week_key) same
              (ensure-ok name task tweet_id week_key w2 w3 (rw e at after))
        | inl e ↦
            (let known =
                subst (λ s. ensure_if_there b config s task tweet_id week_key w ≡ (ok tt, w1))
                  (by_username_iff name submitted e) before in
              ensure-ok name task tweet_id week_key w w1 (rw full at known))
      ]

  -- The post was looked up, and does the task for the account of the row.
  abbrev pub Verified : SubmitXTask → ParsedTweetUrl → RewardSubmission → Type 0
  Verified body url row =
      (tweet : XTweetLookup) × (name : String) × (w1 : b.World) × (w2 : b.World) × (fetch_tweet b
          config url.tweet_id w1
        ≡ (ok tweet, w2))
      × DoesTask b config tweet body.task_type (or_else body.given_username url.username) name
      × (row.x_username ≡ some name)

  -- After the look-ups that the request's own username passed.
  verified_submission-ok :
      (body : SubmitXTask) (actor_id : String) (url : ParsedTweetUrl) (submitted : Option String)
      (week_key : String) (w1 w2 w3 w' : b.World) (row : RewardSubmission)
      → ensure_if_there b config submitted body.task_type url.tweet_id week_key w1 ≡ (ok tt, w2)
      → view w3 ≡ view w1
      → verified_submission b config body actor_id url submitted week_key w3 ≡ (ok row, w')
      → (name : String) × (row ≡ new_submission b config body actor_id url.tweet_id name week_key)
        × AccountIsFree name body.task_type url.tweet_id week_key (view w1)
        × Verified body url row
  unfolding verified_submission
  verified_submission-ok body actor_id url submitted week_key w1 w2 w3 w' row limited same_view h =
      let given = or_else body.given_username url.username in
      let (tweet, w4, fetched, rest) = bind-ok (fetch_tweet b config url.tweet_id) _ w3 h in
      let (name, w5, verified, rest2) =
        bind-ok (verify_task b config tweet body.task_type given) _ w4 rest in
      let (u, w6, after, rest3) =
        bind-ok
          (if by_username name submitted
            then pure tt
            else ensure_x_account_can_submit b config name body.task_type url.tweet_id week_key)
          _ w5 rest2 in
      let same = sym ((ok_inj rest3).0) in
      let at4 =
        view_kept b view (fetch_tweet b config url.tweet_id) w3 w4
          (fetch_tweet-Silent b config laws url.tweet_id) fetched in
      let at5 =
        view_kept b view (verify_task b config tweet body.task_type given) w4 w5
          (verify_task-Silent b config laws tweet body.task_type given) verified in
      let (done, full) =
        verify_task-DoesTask b config tweet body.task_type given w4 w5 name verified in
      (
        name,
        same,
        checked_account submitted name body.task_type url.tweet_id week_key w1 w2 w5 w6 limited
            (at5 ∙ at4 ∙ same_view) full after,
        (tweet, name, w3, w4, fetched, done, ap (λ (r : RewardSubmission). r.x_username) same),
      )

  limited-ok :
      (body : SubmitXTask) (actor_id : String) (url : ParsedTweetUrl) (week_key : String)
      (w w' : b.World) (row : RewardSubmission)
      → limited_submission b config body actor_id url week_key w ≡ (ok row, w')
      → (name : String) × (row ≡ new_submission b config body actor_id url.tweet_id name week_key)
        × (find_first (of_wallet actor_id body.task_type week_key) ((view w).submissions) ≡ none)
        × AccountIsFree name body.task_type url.tweet_id week_key (view w)
        × Verified body url row
  unfolding limited_submission fresh_submission
  limited-ok body actor_id url week_key w w' row h =
      let of_row = of_wallet actor_id body.task_type week_key in
      let find = b.repositories.find_submission of_row in
      let name_of = submitted_username b config body.given_username url.username in
      let (submitted, w1, named, rest) = bind-ok name_of _ w h in
      let guard = ensure_if_there b config submitted body.task_type url.tweet_id week_key in
      let (t, w2, limited, rest2) = bind-ok guard _ w1 rest in
      let (existing, w3, looked, rest3) = bind-ok find _ w2 rest2 in
      let at1 =
        view_kept b view name_of w w1
          (submitted-Silent b config laws body.given_username url.username) named in
      let at2 =
        view_kept b view guard w1 w2
          (ensure_if-Silent b config laws submitted body.task_type url.tweet_id week_key) limited in
      let at3 = view_kept b view find w2 w3 (laws.finds_submission of_row) looked in
      let found = laws.found_submission of_row w2 w3 existing looked in
      elim (Option-cases existing) [
        | inr (other, e) ↦ absurd (err_ne_ok (rw e at rest3))
        | inl e ↦
            (let (name, same, free, done) =
                verified_submission-ok body actor_id url submitted week_key w1 w2 w3 w' row limited
                  (at3 ∙ at2) (rw e at rest3) in
              (
                name,
                same,
                ap (λ (v : View). find_first of_row v.submissions) (sym (at2 ∙ at1))
                    ∙ sym found
                    ∙ e,
                subst (AccountIsFree name body.task_type url.tweet_id week_key) at1 free,
                done,
              ))
      ]

  -- The row of a task that passed its checks, and what they found.
  abbrev pub Checked : SubmitXTask → View → (now : ℕ) → RewardSubmission → Type 0
  Checked body v now row =
      (actor_id : String) × (url : ParsedTweetUrl) × (name : String) × (normalize_actor_id
          b.decode_address body.wallet
        ≡ ok actor_id)
      × (parse_tweet_url b.parse_url body.tweet_url ≡ ok url)
      × (row ≡ new_submission b config body actor_id url.tweet_id name (week_key_at b now))
      × (find_first (of_wallet actor_id body.task_type (week_key_at b now)) v.submissions ≡ none)
      × AccountIsFree name body.task_type url.tweet_id (week_key_at b now) v
      × Verified body url row

  check_x_task-ok :
      (body : SubmitXTask) (w w' : b.World) (row : RewardSubmission)
      → check_x_task b config body w ≡ (ok row, w')
      → Checked body (view w) (b.date_now w) row
  unfolding check_x_task
  check_x_task-ok body w w' row h =
      let (actor_id, w1, read, rest) = bind-ok (actor_id_of b body.wallet) _ w h in
      let (url, w2, parsed, rest2) =
        bind-ok (lift (parse_tweet_url b.parse_url body.tweet_url)) _ w1 rest in
      let at2 : w2 ≡ w = sym (ap (λ x. x.1) parsed) ∙ sym (ap (λ x. x.1) read) in
      let (name, same, fresh, free, done) =
        limited-ok body actor_id url (week_key_at b (b.date_now w)) w w' row (
          subst
            (λ z.
              limited_submission b config body actor_id url (week_key_at b (b.date_now z)) z
              ≡ (ok row, w'))
            at2 rest2) in
      (actor_id, url, name, ap (λ x. x.0) read, ap (λ x. x.0) parsed, same, fresh, free, done)

  save_submission-ok :
      (draft : RewardSubmission) (w w' : b.World)
      → save_submission b config draft w ≡ (ok tt, w')
      → view w' ≡ with_submission draft (view w)
  unfolding save_submission
  save_submission-ok draft w w' saved = laws.inserted_submission draft w w' (
      catch_throw-ok (b.repositories.insert_submission draft)
        (λ _. conflict "This reward was already paid or the weekly limit was already used") w saved)

  -- A grant changes no submission.
  grant-submissions :
      (actor_id : String) (amount : ℕ) (grant_id reason : String) (w : b.World)
      → (view ((grant_ledger_freebet b config actor_id amount grant_id reason w).1)).submissions
        ≡ (view w).submissions
  grant-submissions actor_id amount grant_id reason w =
      elim (grant-SentAtMost b config laws actor_id amount grant_id reason w) [
        | inl same ↦ ap (λ (v : View). v.submissions) same
        | inr more ↦ ap (λ (v : View). v.submissions) more
      ]

  -- A task that is paid passed the checks: the wallet had no submission for the task in the week, the
  -- account that did it had none either, nor one with the post, and the post was verified. When it
  -- returns, the one grant of the row was sent, unless the chain is turned off.
  pub submit_x_task-inv :
      (body : SubmitXTask) (w w' : b.World) (row : RewardSubmission)
      → submit_x_task b config body w ≡ (ok row, w')
      → (draft : RewardSubmission) × (now : ℕ) × Checked body (view w) (b.date_now w) draft
        × (row ≡ paid_row b config draft now)
        × ((view w').sent
            ≡ (after_grant b config laws
                (grant_of b config laws draft.actor_id draft.reward_amount_planck draft.grant_id
                  draft.reason)
                (view w)).sent)
  unfolding submit_x_task pay_submission mark_paid
  submit_x_task-inv body w w' row h =
      let (draft, w1, checked, rest) = bind-ok (check_x_task b config body) _ w h in
      let (t, w2, saved, rest2) = bind-ok (save_submission b config draft) _ w1 rest in
      let grant =
        grant_ledger_freebet b config draft.actor_id draft.reward_amount_planck draft.grant_id
          draft.reason in
      let (hash, w3, granted, rest3) = bind-ok grant _ w2 rest2 in
      let marked = paid_row b config draft (b.date_now w3) in
      let (u, w4, updated, rest4) = bind-ok (b.repositories.update_submission marked) _ w3 rest3 in
      let (same, reached) = ok_inj rest4 in
      let inserted = save_submission-ok draft w1 w2 saved in
      let before =
        view_kept b view (check_x_task b config body) w w1 (check_x_task-Silent b config laws body)
          checked in
      let paid_at_w3 =
        grant-ok b config laws draft.actor_id draft.reward_amount_planck draft.grant_id draft.reason
          w2 w3 hash granted in
      let g =
        grant_of b config laws draft.actor_id draft.reward_amount_planck draft.grant_id
          draft.reason in
      let (kept, kept_as_well, unsent) = laws.updates_submission marked w3 in
      (
        draft,
        b.date_now w3,
        check_x_task-ok body w w1 draft checked,
        sym same,
        ap (λ z. (view z).sent) (sym reached)
            ∙ sym (ap (λ x. (view (x.1)).sent) updated)
            ∙ unsent
            ∙ ap (λ (v : View). v.sent) paid_at_w3
            ∙ after_grant-sent b config laws g (view w2) (view w)
                (ap (λ (v : View). v.sent) inserted ∙ ap (λ (v : View). v.sent) before),
      )

  same_task_refl : (task : XTaskType) → same_task task task ≡ true
  same_task_refl repost = refl
  same_task_refl post = refl

  -- A saved row of the wallet's task in a week lets no check of such a task pass in the week.
  blocked_by_row :
      (body retried : SubmitXTask) (w w1 again later : b.World) (draft row : RewardSubmission)
      → check_x_task b config body w ≡ (ok draft, w1)
      → (view again).submissions ≡ (view w1).submissions ++ draft ∷ []
      → retried.wallet ≡ body.wallet
      → retried.task_type ≡ body.task_type
      → week_key_at b (b.date_now again) ≡ week_key_at b (b.date_now w)
      → check_x_task b config retried again ≡ (ok row, later)
      → ⊥
  blocked_by_row body retried w w1 again later draft row checked stands wallet task week passed =
      let (actor_id, url, name, read, parsed, same, none_yet, free, done) =
        check_x_task-ok body w w1 draft checked in
      let (actor_id2, url2, name2, read2, parsed2, same2, fresh, free2, done2) =
        check_x_task-ok retried again later row passed in
      let actors : actor_id2 ≡ actor_id =
        result_inj (sym read2 ∙ ap (normalize_actor_id b.decode_address) wallet ∙ read) in
      let of_row = of_wallet actor_id body.task_type (week_key_at b (b.date_now w)) in
      let passes : of_row draft ≡ true =
        ap of_row same
        ∙ rw
            (
              eq_refl actor_id,
              same_task_refl body.task_type,
              eq_refl (week_key_at b (b.date_now w)),
            )
            refl in
      found-append of_row ((view w1).submissions) draft passes
        (ap (find_first of_row) (sym stands) ∙ rw (actors, task, week) at fresh)

  -- A task that the checks passed, whose row was saved, and whose grant then failed, throws what the
  -- grant threw. Afterwards, in the same week, while the submissions are as they were then, the
  -- wallet's tasks of that type throw, and change no table and send nothing.
  pub failed_grant-blocks :
      (body retried : SubmitXTask) (w w1 w2 w3 again : b.World) (draft : RewardSubmission)
      (e : Thrown)
      → check_x_task b config body w ≡ (ok draft, w1)
      → save_submission b config draft w1 ≡ (ok tt, w2)
      → grant_ledger_freebet b config draft.actor_id draft.reward_amount_planck draft.grant_id
          draft.reason w2
        ≡ (err e, w3)
      → (view again).submissions ≡ (view w3).submissions
      → retried.wallet ≡ body.wallet
      → retried.task_type ≡ body.task_type
      → week_key_at b (b.date_now again) ≡ week_key_at b (b.date_now w)
      → (submit_x_task b config body w ≡ (err e, w3))
        × ((refusal : Thrown) × (later : b.World) × (submit_x_task b config retried again
              ≡ (err refusal, later))
            × (view later ≡ view again))
  unfolding submit_x_task pay_submission
  failed_grant-blocks body retried w w1 w2 w3 again draft e checked saved failed stands wallet task
        week =
      let granted : (view w3).submissions ≡ (view w2).submissions =
        ap (λ x. (view (x.1)).submissions) (sym failed)
        ∙ grant-submissions draft.actor_id draft.reward_amount_planck draft.grant_id draft.reason
            w2 in
      let inserted = ap (λ (v : View). v.submissions) (save_submission-ok draft w1 w2 saved) in
      (
        rw (checked, saved, failed) refl,
        elim (ran-cases (check_x_task b config retried again)) [
          | inl (row, later, passed) ↦ absurd (
              blocked_by_row body retried w w1 again later draft row checked
                (stands ∙ granted ∙ inserted) wallet task week passed)
          | inr (refusal, later, refused) ↦ (
            refusal,
            later,
            rw refused refl,
            view_kept b view (check_x_task b config retried) again later
                (check_x_task-Silent b config laws retried) refused,
          )
        ],
      )
