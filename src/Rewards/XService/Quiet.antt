-- ===== src/Rewards/XService/Quiet.antt =====
-- The look-ups on X change no table and send no grant.
use smartcupleague.Prelude.{
  arith, ℕ, zero, suc, refl, String, Option, none, some, true, false, string_eq,
}
use smartcupleague.Action.{Action, Result, pure, throw, lift, bad_request}
use smartcupleague.Rewards.Text.{normalize_x_username}
use smartcupleague.Rewards.Backend.{
  Backend, Config, XTaskType, repost, post, XTweetLookup, XTweet, Response, refused, json, XUser,
  XReferencedTweet,
}
use smartcupleague.Rewards.XService.{
  fetch_tweet, ensure_smart_cup_source, ensure_tweet_author_is_smart_cup,
  resolve_tweet_author_username, search_pages, did_user_repost_tweet, ensure_user_reposted_tweet,
  ensure_standalone_campaign_post, verify_task, has_repost_of, search_user, verify_repost,
  verify_post, read_json, x_api_get, not_empty, user_tweets_page_limit, find_first, is_retweeted,
  is_quoted,
}
use smartcupleague.Rewards.View.{Laws}
use smartcupleague.Rewards.View.Silent.{Silent, Silent-bind, Silent-if, Silent-option}

module _ (b : Backend) (config : Config) (laws : Laws b) where
  read_json-Silent :
      {A : Type 0} (message : String) (response : Response A)
      → Silent b laws.view (read_json b config message response)
  read_json-Silent message refused w = refl
  read_json-Silent message (json body) w = refl

  x_api_get-Silent :
      {A : Type 0} (get : Action b.World (Response A))
      → Silent b laws.view get
      → Silent b laws.view (x_api_get b config get)
  x_api_get-Silent get s =
      Silent-bind b laws.view get _ s (read_json-Silent "X API rejected repost lookup")

  pub fetch_tweet-Silent : (tweet_id : String) → Silent b laws.view (fetch_tweet b config tweet_id)
  unfolding fetch_tweet
  fetch_tweet-Silent tweet_id =
      Silent-bind b laws.view (b.get_tweet tweet_id) _ (laws.gets_tweet tweet_id) (λ response.
        Silent-bind b laws.view (read_json b config "X API rejected tweet lookup" response) _
          (read_json-Silent "X API rejected tweet lookup" response)
          (λ body.
            Silent-option b laws.view body.data_tweet (throw (bad_request "Tweet not found")) _
              (λ w. refl) (λ tweet w. refl)))

  source-Silent :
      (lookup : XTweetLookup) (id : String)
      → Silent b laws.view (ensure_smart_cup_source b config lookup id)
  unfolding ensure_smart_cup_source
  source-Silent lookup id =
      Silent-if b laws.view _ (pure tt) (throw (bad_request "must target a post from the source"))
        (λ w. refl) (λ w. refl)

  author-Silent :
      (lookup : XTweetLookup)
      → Silent b laws.view (ensure_tweet_author_is_smart_cup b config lookup)
  unfolding ensure_tweet_author_is_smart_cup
  author-Silent lookup =
      Silent-if b laws.view _ (pure tt) (throw (bad_request "must target a post from the source"))
        (λ w. refl) (λ w. refl)

  lift-Silent : {A : Type 0} (r : Result A) → Silent b laws.view (lift r)
  lift-Silent r w = refl

  resolve-Silent :
      (lookup : XTweetLookup) (given : Option String)
      → Silent b laws.view (resolve_tweet_author_username b config lookup given)
  unfolding resolve_tweet_author_username
  resolve-Silent lookup given w = ground arith

  search_pages-Silent :
      (pages : ℕ) (tweet_id user_id : String) (token : Option String)
      → Silent b laws.view (search_pages b config pages tweet_id user_id token)
  unfolding search_pages
  search_pages-Silent zero tweet_id user_id token = λ w. refl
  search_pages-Silent (suc pages) tweet_id user_id token =
      Silent-bind b laws.view (x_api_get b config (b.get_user_tweets user_id token)) _
        (x_api_get-Silent (b.get_user_tweets user_id token) (laws.gets_user_tweets user_id token))
        (λ body.
          Silent-if b laws.view (has_repost_of tweet_id body.data_tweets) (pure true) _ (λ w. refl)
            (Silent-option b laws.view (not_empty body.next_token) (pure false)
              (λ next. search_pages b config pages tweet_id user_id (some next)) (λ w. refl)
              (λ next. search_pages-Silent pages tweet_id user_id (some next))))

  search_user-Silent :
      (tweet_id : String) (found : Option XUser)
      → Silent b laws.view (search_user b config tweet_id found)
  unfolding search_user
  search_user-Silent tweet_id none = λ w. refl
  search_user-Silent tweet_id (some user) =
      Silent-if b laws.view _ (pure false)
        (search_pages b config user_tweets_page_limit tweet_id user.user_key none) (λ w. refl)
        (search_pages-Silent user_tweets_page_limit tweet_id user.user_key none)

  did_user_repost_tweet-Silent :
      (tweet_id username : String)
      → Silent b laws.view (did_user_repost_tweet b config tweet_id username)
  unfolding did_user_repost_tweet
  did_user_repost_tweet-Silent tweet_id username =
      Silent-bind b laws.view (x_api_get b config (b.get_user username))
        (search_user b config tweet_id)
        (x_api_get-Silent (b.get_user username) (laws.gets_user username))
        (search_user-Silent tweet_id)

  reposted-Silent :
      (tweet_id username : String)
      → Silent b laws.view (ensure_user_reposted_tweet b config tweet_id username)
  unfolding ensure_user_reposted_tweet
  reposted-Silent tweet_id username =
      Silent-bind b laws.view (did_user_repost_tweet b config tweet_id username) _
        (did_user_repost_tweet-Silent tweet_id username) (λ found w. ground arith)

  standalone-Silent :
      (tweet : XTweet) → Silent b laws.view (ensure_standalone_campaign_post b config tweet)
  unfolding ensure_standalone_campaign_post
  standalone-Silent tweet w = ground arith

  verify_repost-Silent :
      (lookup : XTweetLookup) (given : Option String) (ref : Option XReferencedTweet)
      → Silent b laws.view (verify_repost b config lookup given ref)
  unfolding verify_repost
  verify_repost-Silent lookup given (some ref) =
      Silent-bind b laws.view (ensure_smart_cup_source b config lookup ref.ref_id) _
        (source-Silent lookup ref.ref_id) (λ _. resolve-Silent lookup given)
  verify_repost-Silent lookup given none =
      let checked =
        normalize_x_username given
          "X username is required when submitting the original SmartCup post URL" in
      Silent-bind b laws.view (ensure_tweet_author_is_smart_cup b config lookup) _
        (author-Silent lookup)
        (λ _. Silent-bind b laws.view (lift checked) _ (lift-Silent checked) (λ name.
          Silent-bind b laws.view (ensure_user_reposted_tweet b config lookup.tweet.tweet_key name)
            (λ _. pure name) (reposted-Silent lookup.tweet.tweet_key name) (λ _ w. refl)))

  verify_post-Silent :
      (lookup : XTweetLookup) (given : Option String) (ref : Option XReferencedTweet)
      → Silent b laws.view (verify_post b config lookup given ref)
  unfolding verify_post
  verify_post-Silent lookup given (some ref) =
      Silent-bind b laws.view (ensure_smart_cup_source b config lookup ref.ref_id) _
        (source-Silent lookup ref.ref_id)
        (λ _.
          Silent-bind b laws.view (resolve_tweet_author_username b config lookup given) _
            (resolve-Silent lookup given) (λ name w. ground arith))
  verify_post-Silent lookup given none =
      Silent-bind b laws.view (resolve_tweet_author_username b config lookup given) _
        (resolve-Silent lookup given)
        (λ name.
          Silent-bind b laws.view (ensure_standalone_campaign_post b config lookup.tweet)
            (λ _. pure name) (standalone-Silent lookup.tweet) (λ _ w. refl))

  pub verify_task-Silent :
      (lookup : XTweetLookup) (task : XTaskType) (given : Option String)
      → Silent b laws.view (verify_task b config lookup task given)
  unfolding verify_task
  verify_task-Silent lookup repost given = verify_repost-Silent lookup given (
      find_first (λ (ref : XReferencedTweet). is_retweeted ref.ref_type)
        lookup.tweet.referenced_tweets)
  verify_task-Silent lookup post given = verify_post-Silent lookup given (
      find_first (λ (ref : XReferencedTweet). is_quoted ref.ref_type)
        lookup.tweet.referenced_tweets)
