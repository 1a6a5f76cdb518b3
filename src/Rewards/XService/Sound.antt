-- ===== src/Rewards/XService/Sound.antt =====
-- What `verifyTask` has found, when it returns a name.
use smartcupleague.Prelude.{
  ◌≡◌, refl, sym, ap, ◌∙◌, inl, inr, String, Option, none, some, true, false, arith, Bool-cases,
  Option-cases, string_eq, eq_iff, subst, to_lower_case,
}
use smartcupleague.Action.{ok, lift, bind-ok, ok_inj, result_inj}
use smartcupleague.Rewards.Text.{normalize_x_username, is_x_username, is_empty, trim, without_at}
use smartcupleague.Rewards.Backend.{
  Backend, Config, XTaskType, repost, post, XTweetLookup, XReferencedTweet, XTweet,
}
use smartcupleague.Rewards.XService.{
  source_username, find_tweet_author_username, find_included_tweet_author_username, is_name,
  find_first, is_retweeted, is_quoted, has_smart_cup_campaign_context, has_smart_cup_app_url,
  did_user_repost_tweet, ensure_smart_cup_source, ensure_tweet_author_is_smart_cup,
  resolve_tweet_author_username, ensure_user_reposted_tweet, ensure_standalone_campaign_post,
  verify_repost, verify_post, verify_task,
}

is_name_iff :
    (found : Option String) (name : String) → is_name found name ≡ true → found ≡ some name
is_name_iff none name h = absurd (ground arith)
is_name_iff (some username) name h = ap some ((eq_iff username name).0 h)

x_username-full : (name : String) → is_x_username name ≡ true → is_empty name ≡ false
unfolding is_x_username
x_username-full String.[] h = absurd (ground arith)
x_username-full (String.◌∷◌ c s) h = refl

normalize-full :
    (given : Option String) (message name : String)
    → normalize_x_username given message ≡ ok name
    → is_empty name ≡ false
unfolding normalize_x_username
normalize-full none message name h = absurd (ground arith)
normalize-full (some value) message name h =
    let normalized = to_lower_case (without_at (trim value)) in
    elim (Bool-cases (is_x_username normalized)) [
      | inl e ↦
          (let same : normalized ≡ name = result_inj (rw e at h) in
            ap is_empty (sym same) ∙ x_username-full normalized e)
      | inr e ↦ absurd (ground arith)
    ]

module _ (b : Backend) (config : Config) where
  -- A post that reposts one of the source's; or one of the source's, and then the account's timeline
  -- was searched and holds a repost of it.
  abbrev Reposts : XTweetLookup → Option String → Option XReferencedTweet → String → Type 0
  Reposts lookup given (some ref) name =
      (find_included_tweet_author_username lookup ref.ref_id ≡ some (source_username b config))
      × (find_tweet_author_username lookup ≡ some name)
  Reposts lookup given none name =
      (find_tweet_author_username lookup ≡ some (source_username b config))
      × (normalize_x_username given
            "X username is required when submitting the original SmartCup post URL"
          ≡ ok name)
      × ((w1 : b.World) × (w2 : b.World) × (did_user_repost_tweet b config lookup.tweet.tweet_key
              name w1
            ≡ (ok true, w2)))

  -- A post of the account that speaks of the campaign, and quotes one of the source's or links the app.
  abbrev Posts : XTweetLookup → Option XReferencedTweet → String → Type 0
  Posts lookup (some ref) name =
      (find_included_tweet_author_username lookup ref.ref_id ≡ some (source_username b config))
      × (find_tweet_author_username lookup ≡ some name)
      × (has_smart_cup_campaign_context lookup.tweet.text ≡ true)
  Posts lookup none name =
      (find_tweet_author_username lookup ≡ some name)
      × (has_smart_cup_campaign_context lookup.tweet.text ≡ true)
      × (has_smart_cup_app_url b config lookup.tweet ≡ true)

  abbrev pub DoesTask : XTweetLookup → XTaskType → Option String → String → Type 0
  DoesTask lookup repost given name =
      Reposts lookup given
        (find_first (λ (ref : XReferencedTweet). is_retweeted ref.ref_type)
          lookup.tweet.referenced_tweets)
        name
  DoesTask lookup post given name =
      Posts lookup
        (find_first (λ (ref : XReferencedTweet). is_quoted ref.ref_type)
          lookup.tweet.referenced_tweets)
        name

  source-ok :
      (lookup : XTweetLookup) (id : String) (w w' : b.World)
      → ensure_smart_cup_source b config lookup id w ≡ (ok tt, w')
      → find_included_tweet_author_username lookup id ≡ some (source_username b config)
  unfolding ensure_smart_cup_source
  source-ok lookup id w w' h =
      is_name_iff (find_included_tweet_author_username lookup id) (source_username b config)
        (ground arith)

  author-ok :
      (lookup : XTweetLookup) (w w' : b.World)
      → ensure_tweet_author_is_smart_cup b config lookup w ≡ (ok tt, w')
      → find_tweet_author_username lookup ≡ some (source_username b config)
  unfolding ensure_tweet_author_is_smart_cup
  author-ok lookup w w' h =
      is_name_iff (find_tweet_author_username lookup) (source_username b config) (ground arith)

  resolve-ok :
      (lookup : XTweetLookup) (given : Option String) (w w' : b.World) (name : String)
      → resolve_tweet_author_username b config lookup given w ≡ (ok name, w')
      → (find_tweet_author_username lookup ≡ some name) × (is_empty name ≡ false)
  unfolding resolve_tweet_author_username
  resolve-ok lookup given w w' name h = elim (Option-cases (find_tweet_author_username lookup)) [
    | inl e ↦ absurd (ground arith)
    | inr (username, e) ↦ ground arith
  ]

  reposted-ok :
      (tweet_id username : String) (w w' : b.World)
      → ensure_user_reposted_tweet b config tweet_id username w ≡ (ok tt, w')
      → (w1 : b.World) × (w2 : b.World) × (did_user_repost_tweet b config tweet_id username w1
          ≡ (ok true, w2))
  unfolding ensure_user_reposted_tweet
  reposted-ok tweet_id username w w' h =
      let (found, w1, ran, rest) =
        bind-ok (did_user_repost_tweet b config tweet_id username) _ w h in
      elim (Bool-cases found) [
        | inl e ↦ (w, w1, ran ∙ ap (λ x. (ok x, w1)) e)
        | inr e ↦ absurd (ground arith)
      ]

  standalone-ok :
      (tweet : XTweet) (w w' : b.World)
      → ensure_standalone_campaign_post b config tweet w ≡ (ok tt, w')
      → (has_smart_cup_campaign_context tweet.text ≡ true)
        × (has_smart_cup_app_url b config tweet ≡ true)
  unfolding ensure_standalone_campaign_post
  standalone-ok tweet w w' h = ground arith

  verify_repost-ok :
      (lookup : XTweetLookup) (given : Option String) (ref : Option XReferencedTweet)
      (w w' : b.World) (name : String)
      → verify_repost b config lookup given ref w ≡ (ok name, w')
      → Reposts lookup given ref name × (is_empty name ≡ false)
  unfolding verify_repost
  verify_repost-ok lookup given (some ref) w w' name h =
      let (t, w1, ran, rest) = bind-ok (ensure_smart_cup_source b config lookup ref.ref_id) _ w h in
      let (author, full) = resolve-ok lookup given w1 w' name rest in
      ((source-ok lookup ref.ref_id w w1 ran, author), full)
  verify_repost-ok lookup given none w w' name h =
      let (t, w1, ran, rest) = bind-ok (ensure_tweet_author_is_smart_cup b config lookup) _ w h in
      let (found, w2, normalized, rest2) =
        bind-ok
          (lift (
            normalize_x_username given
              "X username is required when submitting the original SmartCup post URL"))
          _ w1 rest in
      let (u, w3, reposted, rest3) =
        bind-ok (ensure_user_reposted_tweet b config lookup.tweet.tweet_key found) _ w2 rest2 in
      let same : found ≡ name = (ok_inj rest3).0 in
      let normal : normalize_x_username given
            "X username is required when submitting the original SmartCup post URL"
          ≡ ok name =
        ap (λ x. x.0) normalized ∙ ap ok same in
      (
        (
          author-ok lookup w w1 ran,
          normal,
          reposted-ok lookup.tweet.tweet_key name w2 w3 (
              subst
                (λ n. ensure_user_reposted_tweet b config lookup.tweet.tweet_key n w2 ≡ (ok tt, w3))
                same reposted),
        ),
        normalize-full given "X username is required when submitting the original SmartCup post URL"
            name normal,
      )

  verify_post-ok :
      (lookup : XTweetLookup) (given : Option String) (ref : Option XReferencedTweet)
      (w w' : b.World) (name : String)
      → verify_post b config lookup given ref w ≡ (ok name, w')
      → Posts lookup ref name × (is_empty name ≡ false)
  unfolding verify_post
  verify_post-ok lookup given (some ref) w w' name h =
      let (t, w1, ran, rest) = bind-ok (ensure_smart_cup_source b config lookup ref.ref_id) _ w h in
      let (found, w2, resolved, rest2) =
        bind-ok (resolve_tweet_author_username b config lookup given) _ w1 rest in
      let (author, full) = resolve-ok lookup given w1 w2 found resolved in
      elim (Bool-cases (has_smart_cup_campaign_context lookup.tweet.text)) [
        | inr e ↦ absurd (ground arith)
        | inl e ↦
            (let same : found ≡ name = (ok_inj (rw e at rest2)).0 in
              (
                (source-ok lookup ref.ref_id w w1 ran, author ∙ ap some same, e),
                ap is_empty (sym same) ∙ full,
              ))
      ]
  verify_post-ok lookup given none w w' name h =
      let (found, w1, resolved, rest) =
        bind-ok (resolve_tweet_author_username b config lookup given) _ w h in
      let (author, full) = resolve-ok lookup given w w1 found resolved in
      let (u, w2, checked, rest2) =
        bind-ok (ensure_standalone_campaign_post b config lookup.tweet) _ w1 rest in
      let same : found ≡ name = (ok_inj rest2).0 in
      let (campaign, linked) = standalone-ok lookup.tweet w1 w2 checked in
      ((author ∙ ap some same, campaign, linked), ap is_empty (sym same) ∙ full)

  -- When the verification of a task returns a name, the post does the task for the account of that
  -- name, which is not empty. For a repost: the post is the account's and reposts one of the source's,
  -- or it is one of the source's and a search of the account's timeline found a repost of it. For a
  -- post: it is the account's, speaks of the campaign, and quotes one of the source's or links the app.
  pub verify_task-DoesTask :
      (lookup : XTweetLookup) (task : XTaskType) (given : Option String) (w w' : b.World)
      (name : String)
      → verify_task b config lookup task given w ≡ (ok name, w')
      → DoesTask lookup task given name × (is_empty name ≡ false)
  unfolding verify_task
  verify_task-DoesTask lookup repost given w w' name h =
      verify_repost-ok lookup given
        (find_first (λ (ref : XReferencedTweet). is_retweeted ref.ref_type)
          lookup.tweet.referenced_tweets)
        w w' name h
  verify_task-DoesTask lookup post given w w' name h =
      verify_post-ok lookup given
        (find_first (λ (ref : XReferencedTweet). is_quoted ref.ref_type)
          lookup.tweet.referenced_tweets)
        w w' name h
