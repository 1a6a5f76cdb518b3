-- ===== src/Rewards/XService.antt =====
-- `XService` (rewards-backend/src/rewards/x.service.ts): whether a post on X does a task.
pub mod Pages
pub mod Sound
pub mod Quiet
use Prim.Native.Char.{code}
use Prim.Native.String.{String, ◌++◌ as append}
use smartcupleague.Prelude.{
  ℕ, zero, suc, Option, none, some, Bool, true, false, ◌&&◌, ◌||◌, not, List, [], ◌∷◌, ◌++◌,
  string_eq, ◌==◌, if◌then◌else◌, includes, to_lower_case,
}
use smartcupleague.Action.{
  Action, Result, ok, bad_request, pure, throw, lift, ◌>>=◌, ◌>>◌, text_includes,
}
use smartcupleague.Rewards.Text.{
  is_empty, is_space, trim, without_at, normalize_x_username, strip_prefix,
}
use smartcupleague.Rewards.Backend.{
  Backend, Config, XTaskType, repost, post, XReferencedTweet, XReferenceType, retweeted, quoted,
  replied_to, XTweet, XUser, XUrl, XTweetLookup, Response, refused, json,
}

abbrev pub find_first {ℓ} : {A : Type ℓ} → (A → Bool) → List A → Option A
find_first p [] = none
find_first p (x ∷ xs) = if p x then some x else find_first p xs

abbrev pub any {ℓ} : {A : Type ℓ} → (A → Bool) → List A → Bool
any p [] = false
any p (x ∷ xs) = p x || any p xs

abbrev pub is_retweeted : XReferenceType → Bool
is_retweeted retweeted = true
is_retweeted quoted = false
is_retweeted replied_to = false

abbrev pub is_quoted : XReferenceType → Bool
is_quoted retweeted = false
is_quoted quoted = true
is_quoted replied_to = false

-- `author?.username?.toLowerCase()` of the user with an id; an empty id is falsy, and is no id.
abbrev pub username_of : Option String → List XUser → Option String
username_of none users = none
username_of (some author_id) users =
    if author_id == ""
    then none
    else elim (find_first (λ (user : XUser). user.user_key == author_id) users) [
      | none ↦ none
      | some author ↦ elim author.username [ none ↦ none | some name ↦ some (to_lower_case name) ]
    ]

unfoldable pub find_tweet_author_username : XTweetLookup → Option String
find_tweet_author_username lookup = username_of lookup.tweet.author_id lookup.included_users

unfoldable pub find_included_tweet_author_username : XTweetLookup → String → Option String
find_included_tweet_author_username lookup referenced_tweet_id =
    elim (find_first (λ (t : XTweet). t.tweet_key == referenced_tweet_id) lookup.included_tweets) [
      | none ↦ none
      | some source_tweet ↦ username_of source_tweet.author_id lookup.included_users
    ]

abbrev pub is_name : Option String → String → Bool
is_name none name = false
is_name (some username) name = username == name

-- `replace(/\s+/g, ' ')`: `after` says that the last character was white space.
unfoldable pub single_spaces : Bool → String → String
unfolding is_space
single_spaces after String.[] = String.[]
single_spaces after (String.◌∷◌ c s) =
    let inside = single_spaces true s in
    let outside = single_spaces false s in
    if is_space c then if after then inside else append " " inside else String.◌∷◌ c outside

unfoldable pub normalize_text : String → String
unfolding single_spaces trim
normalize_text value = trim (single_spaces false (to_lower_case value))

unfoldable pub has_smart_cup_campaign_context : String → Bool
unfolding normalize_text
has_smart_cup_campaign_context value =
    let text = normalize_text value in
    any (λ keyword. text_includes text keyword)
      ("smartcup" ∷ "smart cup" ∷ "freebet" ∷ "free bet" ∷ "prediction" ∷ "predict" ∷ "world cup"
        ∷ "agent" ∷ [])

-- `text.match(/https?:\/\/\S+/gi) ?? []`: at each place that it starts, and then on from its end.
abbrev until_space : String → String
until_space String.[] = ""
until_space (String.◌∷◌ c s) =
    let rest = until_space s in if is_space c then "" else String.◌∷◌ c rest

unfoldable continues : String → String → Bool
unfolding strip_prefix
continues prefix s = elim (strip_prefix prefix (to_lower_case s)) [
  | none ↦ false
  | some rest ↦ not (is_empty (until_space rest))
]

-- There is something to match after `http://` or `https://`, in any case.
unfoldable pub starts_url : String → Bool
unfolding continues
starts_url s = continues "https://" s || continues "http://" s

-- `inside` says that the place is within a match, which lasts until white space.
unfoldable pub text_urls : Bool → String → List String
unfolding starts_url is_space
text_urls inside String.[] = []
text_urls inside (String.◌∷◌ c s) =
    let rest = text_urls false s in
    let rest_inside = text_urls true s in
    if inside
    then if is_space c then rest else rest_inside
    else if starts_url (String.◌∷◌ c s)
    then until_space (String.◌∷◌ c s) ∷ rest_inside
    else rest

-- The texts that are there and not empty.
abbrev pub present : List (Option String) → List String
present [] = []
present (none ∷ values) = present values
present (some value ∷ values) = if is_empty value then present values else value ∷ present values

abbrev pub entity_urls : List XUrl → List (Option String)
entity_urls [] = []
entity_urls (url ∷ urls) = url.expanded_url ∷ url.display_url ∷ url.unwound_url ∷ entity_urls urls

-- A text that is there and not empty.
abbrev pub not_empty : Option String → Option String
not_empty none = none
not_empty (some value) = if is_empty value then none else some value

abbrev pub user_tweets_page_limit : ℕ
user_tweets_page_limit = 10

-- One of the tweets is a repost of the tweet.
abbrev pub has_repost_of : String → List XTweet → Bool
has_repost_of tweet_id tweets =
    any
      (λ (tweet : XTweet).
        any (λ (ref : XReferencedTweet). is_retweeted ref.ref_type && ref.ref_id == tweet_id)
          tweet.referenced_tweets)
      tweets

module _ (b : Backend) (config : Config) where
  open b use {World, parse_url, get_tweet, get_user, get_user_tweets}
  open config use {smart_cup_x_username, smart_cup_app_url}

  -- What `response.ok` and `response.json()` make of a response.
  abbrev pub read_json : {A : Type 0} → String → Response A → Action World A
  read_json message refused = throw (bad_request message)
  read_json message (json body) = pure body

  abbrev pub x_api_get : {A : Type 0} → Action World (Response A) → Action World A
  x_api_get get = do response ← get; read_json "X API rejected repost lookup" response

  unfoldable pub fetch_tweet : String → Action World XTweetLookup
  fetch_tweet tweet_id = do
    response ← get_tweet tweet_id
    body ← read_json "X API rejected tweet lookup" response
    elim body.data_tweet [
      | none ↦ throw (bad_request "Tweet not found")
      | some tweet ↦ pure (record {
        tweet = tweet;
        included_tweets = body.included_tweets;
        included_users = body.included_users;
      })
    ]

  unfoldable pub source_username : String
  unfolding without_at
  source_username =
      let configured =
        if is_empty smart_cup_x_username then "SmartCupLeague" else smart_cup_x_username in
      to_lower_case (without_at configured)

  unfoldable pub ensure_smart_cup_source : XTweetLookup → String → Action World (Unit {0})
  unfolding source_username find_included_tweet_author_username
  ensure_smart_cup_source lookup referenced_tweet_id =
      if is_name (find_included_tweet_author_username lookup referenced_tweet_id) source_username
      then pure tt
      else throw (bad_request "must target a post from the source")

  unfoldable pub ensure_tweet_author_is_smart_cup : XTweetLookup → Action World (Unit {0})
  unfolding source_username find_tweet_author_username
  ensure_tweet_author_is_smart_cup lookup =
      if is_name (find_tweet_author_username lookup) source_username
      then pure tt
      else throw (bad_request "must target a post from the source")

  unfoldable pub resolve_tweet_author_username : XTweetLookup → Option String → Action World String
  unfolding find_tweet_author_username normalize_x_username
  resolve_tweet_author_username lookup x_username = elim (find_tweet_author_username lookup) [
    | none ↦ throw (bad_request "post author could not be verified")
    | some username ↦
        if is_empty username
        then throw (bad_request "post author could not be verified")
        else elim x_username [
          | none ↦ pure username
          | some given ↦ if is_empty given then pure username else (do
            normalized_username ←
                lift (normalize_x_username (some given) "X username must be a valid username")
            if username == normalized_username
                then pure username
                else throw (bad_request "post must be authored by the username"))
        ]
  ]

  -- The timeline's pages, `pages` of them at most.
  unfoldable pub search_pages :
      (pages : ℕ) (tweet_id user_id : String) (pagination_token : Option String) → Action World Bool
  search_pages zero tweet_id user_id pagination_token = pure false
  search_pages (suc pages) tweet_id user_id pagination_token = do
    body ← x_api_get (get_user_tweets user_id pagination_token)
    if has_repost_of tweet_id body.data_tweets
        then pure true
        else elim (not_empty body.next_token) [
          | none ↦ pure false
          | some token ↦ search_pages pages tweet_id user_id (some token)
        ]

  unfoldable pub search_user : (tweet_id : String) → Option XUser → Action World Bool
  unfolding search_pages
  search_user tweet_id none = pure false
  search_user tweet_id (some user) =
      if is_empty user.user_key
      then pure false
      else search_pages user_tweets_page_limit tweet_id user.user_key none

  unfoldable pub did_user_repost_tweet : (tweet_id username : String) → Action World Bool
  unfolding search_user
  did_user_repost_tweet tweet_id username = do
    found ← x_api_get (get_user username)
    search_user tweet_id found

  unfoldable pub ensure_user_reposted_tweet : (tweet_id username : String) → Action World (Unit {0})
  unfolding did_user_repost_tweet
  ensure_user_reposted_tweet tweet_id username = do
    reposted ← did_user_repost_tweet tweet_id username
    if reposted then pure tt else throw (bad_request "has not reposted this SmartCup post")

  -- The hosts that count as the app's.
  unfoldable pub allowed_hosts : List String
  allowed_hosts =
      let configured =
        if is_empty smart_cup_app_url
        then "https://app.smartcupleague.com/"
        else smart_cup_app_url in
      "app.smartcupleague.com"
      ∷ "smartcupleague.com"
      ∷ elim (parse_url configured) [ none ↦ [] | some url ↦ to_lower_case url.hostname ∷ [] ]

  unfoldable pub is_app_url : String → Bool
  unfolding allowed_hosts strip_prefix
  is_app_url value =
      let target : String = elim (strip_prefix "http" value) [
        | none ↦ append "https://" value
        | some rest ↦ value
      ] in
      elim (parse_url target) [
        | none ↦ false
        | some url ↦ includes (to_lower_case url.hostname) allowed_hosts
      ]

  unfoldable pub has_smart_cup_app_url : XTweet → Bool
  unfolding is_app_url text_urls
  has_smart_cup_app_url tweet =
      any is_app_url (text_urls false tweet.text ++ present (entity_urls tweet.urls))

  unfoldable pub ensure_standalone_campaign_post : XTweet → Action World (Unit {0})
  unfolding has_smart_cup_campaign_context has_smart_cup_app_url
  ensure_standalone_campaign_post tweet =
      if has_smart_cup_campaign_context tweet.text
      then if has_smart_cup_app_url tweet
        then pure tt
        else throw (bad_request "Submitted post must include the SmartCup app URL")
      else throw (bad_request "Submitted post must mention SmartCup")

  unfoldable pub verify_repost :
      XTweetLookup → Option String → Option XReferencedTweet → Action World String
  unfolding ensure_smart_cup_source resolve_tweet_author_username ensure_tweet_author_is_smart_cup
      normalize_x_username ensure_user_reposted_tweet
  verify_repost lookup x_username (some retweet) = do
    ensure_smart_cup_source lookup retweet.ref_id
    resolve_tweet_author_username lookup x_username
  verify_repost lookup x_username none = do
    ensure_tweet_author_is_smart_cup lookup
    normalized_username ← lift (
        normalize_x_username x_username
          "X username is required when submitting the original SmartCup post URL")
    ensure_user_reposted_tweet lookup.tweet.tweet_key normalized_username
    pure normalized_username

  unfoldable pub verify_post :
      XTweetLookup → Option String → Option XReferencedTweet → Action World String
  unfolding ensure_smart_cup_source resolve_tweet_author_username has_smart_cup_campaign_context
      ensure_standalone_campaign_post
  verify_post lookup x_username (some quote) = do
    ensure_smart_cup_source lookup quote.ref_id
    normalized_username ← resolve_tweet_author_username lookup x_username
    if has_smart_cup_campaign_context lookup.tweet.text
        then pure normalized_username
        else throw (bad_request "Quote text must mention SmartCup")
  verify_post lookup x_username none = do
    normalized_username ← resolve_tweet_author_username lookup x_username
    ensure_standalone_campaign_post lookup.tweet
    pure normalized_username

  unfoldable pub verify_task : XTweetLookup → XTaskType → Option String → Action World String
  unfolding verify_repost verify_post
  verify_task lookup repost x_username = verify_repost lookup x_username (
      find_first (λ (ref : XReferencedTweet). is_retweeted ref.ref_type)
        lookup.tweet.referenced_tweets)
  verify_task lookup post x_username = verify_post lookup x_username (
      find_first (λ (ref : XReferencedTweet). is_quoted ref.ref_type)
        lookup.tweet.referenced_tweets)
