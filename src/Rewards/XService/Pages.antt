-- ===== src/Rewards/XService/Pages.antt =====
-- The search of an account's timeline, page by page.
use smartcupleague.Prelude.{
  ℕ, zero, suc, ◌≤◌, ◌≡◌, refl, sym, ap, ap₂, subst, ◌∙◌, ◌⊎◌, inl, inr, String, Option, none, some,
  Bool, true, List, [], ◌∷◌, arith, length, Bool-cases, Option-cases,
}
use smartcupleague.Action.{Action, ok, bind-ok, ok_inj, err_ne_ok}
use smartcupleague.Rewards.Backend.{Backend, Config, Response, refused, json, TimelineJson}
use smartcupleague.Rewards.XService.{
  search_pages, x_api_get, read_json, has_repost_of, not_empty, any,
}

-- One of the pages holds a repost of the tweet.
abbrev pub any_page : (tweet_id : String) → List TimelineJson → Bool
any_page tweet_id pages =
    any (λ (page : TimelineJson). has_repost_of tweet_id page.data_tweets) pages

-- The pages end where the search has to: there are as many as the limit allows, or the last one names
-- no further page.
abbrev pub EndsAt : (limit : ℕ) → List TimelineJson → Type 0
EndsAt zero pages = pages ≡ []
EndsAt (suc limit) [] = ⊥
EndsAt (suc limit) (page ∷ []) = (not_empty page.next_token ≡ none) ⊎ (limit ≡ 0)
EndsAt (suc limit) (page ∷ next ∷ pages) = EndsAt limit (next ∷ pages)

EndsAt-cons :
    (limit : ℕ) (page : TimelineJson) (pages : List TimelineJson)
    → EndsAt limit pages
    → EndsAt (suc limit) (page ∷ pages)
EndsAt-cons zero page [] h = inr refl
EndsAt-cons (suc limit) page [] h = elim h [ ]
EndsAt-cons limit page (next ∷ pages) h = h

module _ (b : Backend) (config : Config) where
  -- The pages that were read one after the other, each at the token that the page before it names.
  pub data Read (user_id : String)
      : Option String → List TimelineJson → b.World → b.World → Type 0 where
    stop : {token : Option String} {w : b.World} → Read user_id token [] w w
    page :
        {token : Option String} {w w1 w2 : b.World} {body : TimelineJson} {rest : List TimelineJson}
        → b.get_user_tweets user_id token w ≡ (ok (json body), w1)
        → Read user_id (not_empty body.next_token) rest w1 w2
        → Read user_id token (body ∷ rest) w w2

  read_json-ok :
      {A : Type 0} (message : String) (response : Response A) (w w' : b.World) (body : A)
      → read_json b config message response w ≡ (ok body, w')
      → (response ≡ json body) × (w ≡ w')
  read_json-ok message refused w w' body h = absurd (err_ne_ok h)
  read_json-ok message (json found) w w' body h =
      let (same, reached) = ok_inj h in (ap json same, reached)

  x_api_get-ok :
      {A : Type 0} (get : Action b.World (Response A)) (w w' : b.World) (body : A)
      → x_api_get b config get w ≡ (ok body, w')
      → get w ≡ (ok (json body), w')
  x_api_get-ok get w w' body h =
      let message : String = "X API rejected repost lookup" in
      let (response, w1, ran, rest) = bind-ok get (read_json b config message) w h in
      let (same, reached) = read_json-ok message response w1 w' body rest in
      ran ∙ ap₂ (λ r z. (ok r, z)) same reached

  -- A search that returns has read some pages in their order, no more than the limit; it says whether
  -- one of them holds a repost of the tweet, and when none does, there was no further page to read
  -- within the limit.
  pub search_pages-reads :
      (limit : ℕ) (tweet_id user_id : String) (token : Option String) (w w' : b.World)
      (found : Bool)
      → search_pages b config limit tweet_id user_id token w ≡ (ok found, w')
      → (pages : List TimelineJson) × Read user_id token pages w w'
        × (length pages ≤ limit)
        × (found ≡ any_page tweet_id pages)
        × ((found ≡ true) ⊎ EndsAt limit pages)
  unfolding search_pages
  search_pages-reads zero tweet_id user_id token w w' found h =
      let (same, reached) = ok_inj h in
      ([], subst (λ z. Read user_id token [] w z) reached stop, omega arith, sym same, inr refl)
  search_pages-reads (suc limit) tweet_id user_id token w w' found h =
      let (body, w1, ran, rest) =
        bind-ok (x_api_get b config (b.get_user_tweets user_id token)) _ w h in
      let got = x_api_get-ok (b.get_user_tweets user_id token) w w1 body ran in
      elim (Bool-cases (has_repost_of tweet_id body.data_tweets)) [
        | inl e ↦
            (let (same, reached) = ok_inj (rw e at rest) in
              (
                body ∷ [],
                page got
                    (subst (λ z. Read user_id (not_empty body.next_token) [] w1 z) reached stop),
                omega arith,
                rw e (sym same),
                inl (sym same),
              ))
        | inr e ↦ elim (Option-cases (not_empty body.next_token)) [
          | inl last ↦
              (let (same, reached) = ok_inj (rw (e, last) at rest) in
                (
                  body ∷ [],
                  page got
                      (subst (λ z. Read user_id (not_empty body.next_token) [] w1 z) reached stop),
                  omega arith,
                  rw e (sym same),
                  inr (inl last),
                ))
          | inr (next, more) ↦
              (let (pages, read, few, exact, ended) =
                  search_pages-reads limit tweet_id user_id (some next) w1 w' found
                    (rw (e, more) at rest) in
                (
                  body ∷ pages,
                  page got (subst (λ t. Read user_id t pages w1 w') (sym more) read),
                  omega (arith, few),
                  rw e exact,
                  elim ended [
                    | inl hit ↦ inl hit
                    | inr ends ↦ inr (EndsAt-cons limit body pages ends)
                  ],
                ))
        ]
      ]
