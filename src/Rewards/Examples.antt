-- ===== src/Rewards/Examples.antt =====
-- Runs of the rewards backend's model on a small world: a clock, the tables as lists, a ledger that is
-- up or down, and an X that knows one account.
use smartcupleague.Prelude.{
  ℕ, ◌+◌, ◌*◌, ◌-◌, ◌/◌, ◌≤◌, ◌<◌, ◌≡◌, ◌↔◌, ◌⊎◌, inl, inr, refl, sym, ap, String, Option, none,
  some, Bool, true, false, List, [], ◌∷◌, arith, length, select, map, nat_eq, string_eq, ◌==◌,
  if◌then◌else◌, to_lower_case, Bool-cases, of_some, subst,
}
use smartcupleague.Action.{Action, Result, Thrown, ok, err, failure, ok_inj, err_ne_ok}
use smartcupleague.Rewards.Text.{
  is_empty, trim, vara_to_planck, normalize_actor_id, is_actor_id, parse_tweet_url,
}
use smartcupleague.Rewards.Backend.{
  Backend, Config, Chain, Repositories, post, RewardSubmission, ReferralReward, to_referrer, Grant,
  XTweet, XUser, XTweetLookup, json, TimelineJson,
}
use smartcupleague.Rewards.Service.{SubmitXTask, ReferralMilestone}
use smartcupleague.Rewards.Referrals.{new_reward, reward_id, grant_referral_milestone}
use smartcupleague.Rewards.Chain.{grant_ledger_freebet}
use smartcupleague.Rewards.Chain.Laws.{grant_of, after_grant}
use smartcupleague.Rewards.XService.{fetch_tweet, verify_task, search_pages}
use smartcupleague.Rewards.XService.Sound.{DoesTask, verify_task-DoesTask}
use smartcupleague.Rewards.XService.Pages.{Read, any_page, EndsAt, search_pages-reads}
use smartcupleague.Rewards.Text.Laws.{AllBytes, Misfit, normalize_actor_id-reads}
use smartcupleague.Rewards.Week.{
  week_start, utc_midnight, utc_day_of_week, day_ms, week_start-bounds,
}
use smartcupleague.Rewards.Submissions.{
  new_submission, check_x_task, save_submission, paid_row, submit_x_task,
}
use smartcupleague.Rewards.Submissions.Paid.{submit_x_task-inv, failed_grant-blocks, Checked}
use smartcupleague.Rewards.Referrals.Cap.{WithinCap, rewards_of}
use smartcupleague.Rewards.Referrals.Pairs.{OneReferrer, referrals_of}
use smartcupleague.Rewards.Referrals.Once.{FoundOrPaid, milestone-once}
use smartcupleague.Rewards.Requests.{
  Request, post_submission, post_referral, post_milestone, serve_all,
}
use smartcupleague.Rewards.Requests.Invariants.{serve_all-WithinCap, serve_all-OneReferrer}
use smartcupleague.Rewards.XService.{find_first}
use smartcupleague.Rewards.View.{
  View, Laws, with_submission, with_referral, with_reward, with_grant,
}

pub record Memory : Type 0 where
  clock : ℕ
  ledger_up : Bool
  tables : View

abbrev nothing : Action Memory (Unit {0})
nothing w = (ok tt, w)

abbrev change : (View → View) → Action Memory (Unit {0})
change f w = (ok tt, record w { tables = f w.tables })

abbrev sample_repositories : Repositories Memory
sample_repositories = record {
  find_submission = λ p w. (ok (find_first p w.tables.submissions), w);
  find_submission_by_id = λ id w. (ok none, w);
  find_submissions = λ p w. (ok (select p w.tables.submissions), w);
  insert_submission = λ row. change (with_submission row);
  update_submission = λ row. change (λ v. record v {
    submissions =
        map (λ (r : RewardSubmission). if r.grant_id == row.grant_id then row else r) v.submissions;
  });
  find_referral = λ p w. (ok (find_first p w.tables.referrals), w);
  find_referrals = λ p w. (ok (select p w.tables.referrals), w);
  insert_referral = λ row. change (with_referral row);
  find_reward = λ p w. (ok (find_first p w.tables.rewards), w);
  count_rewards = λ p w. (ok (length (select p w.tables.rewards)), w);
  insert_reward = λ row. change (with_reward row);
  save_progress = λ row. nothing;
}

abbrev send : Bool → Grant → Action Memory (Option String)
send true g w = (ok (some "0x7a"), record w { tables = with_grant g w.tables })
send false g w = (err (failure "1014: Priority is too low"), w)

abbrev sample_chain : Chain Memory
sample_chain = record {
  is_connected = λ w. true;
  disconnect = nothing;
  connect = nothing;
  calculate_gas = λ g. nothing;
  sign_and_send = λ g w. send w.ledger_up g w;
  response = λ g ms w. (ok true, w);
}

abbrev sample_tweet : XTweet
sample_tweet = record {
  tweet_key = "123";
  text = "I predict a draw https://app.smartcupleague.com/";
  author_id = some "7";
  referenced_tweets = [];
  urls = [];
}

abbrev alice : XUser
alice = record { user_key = "7"; username = some "Alice" }

abbrev actor_one : String
actor_one = "0x1111111111111111111111111111111111111111111111111111111111111111"

abbrev actor_two : String
actor_two = "0x2222222222222222222222222222222222222222222222222222222222222222"

abbrev four_bytes : List ℕ → List ℕ
four_bytes bytes = 171 ∷ 171 ∷ 171 ∷ 171 ∷ bytes

abbrev key_bytes : List ℕ
key_bytes =
    four_bytes
      (four_bytes (four_bytes (four_bytes (four_bytes (four_bytes (four_bytes (four_bytes [])))))))

abbrev sample_backend : Backend
sample_backend = record {
  World = Memory;
  date_now = λ w. w.clock;
  iso_date = λ t. if t / 86_400_000 == 4 then "1970-01-05" else "1970-01-12";
  decode_address = λ a. if a == "kGk" then some key_bytes else none;
  parse_url = λ s.
      if s == "https://x.com/alice/status/123"
      then some (record { hostname = "x.com"; pathname = "/alice/status/123" })
      else some (record { hostname = "app.smartcupleague.com"; pathname = "/" });
  hmac = λ s. s;
  repositories = sample_repositories;
  chain = sample_chain;
  get_tweet = λ id w. (
    ok (
        json (record {
          data_tweet = some sample_tweet;
          included_tweets = [];
          included_users = alice ∷ [];
        })),
    w,
  );
  get_user = λ name w. (ok (json (some alice)), w);
  get_user_tweets =
      λ id token w. (ok (json (record { data_tweets = sample_tweet ∷ []; next_token = none })), w);
}

abbrev sample_config : Config
sample_config = record {
  x_repost_amount_vara = 100;
  x_post_amount_vara = 300;
  referral_milestone_referrer_vara = 200;
  referral_milestone_friend_vara = 0;
  smart_cup_x_username = "SmartCupLeague";
  smart_cup_app_url = "";
  chain_disabled = false;
  admin_api_key = some "key";
}

send-view :
    (up : Bool) (g : Grant) (w : Memory)
    → (((send up g w).1).tables ≡ w.tables) ⊎ (((send up g w).1).tables ≡ with_grant g w.tables)
send-view true g w = inr refl
send-view false g w = inl refl

send-ok :
    (up : Bool) (g : Grant) (w w' : Memory) (hash : Option String)
    → send up g w ≡ (ok hash, w')
    → w'.tables ≡ with_grant g w.tables
send-ok true g w w' hash h = ap (λ (z : Memory). z.tables) (sym ((ok_inj h).1))
send-ok false g w w' hash h = absurd (err_ne_ok h)

abbrev sample_laws : Laws sample_backend
sample_laws = record {
  view = λ w. w.tables;
  finds_submission = λ p w. refl;
  found_submission = λ p w w' found h. sym ((ok_inj h).0);
  finds_referral = λ p w. refl;
  found_referral = λ p w w' found h. sym ((ok_inj h).0);
  finds_reward = λ p w. refl;
  found_reward = λ p w w' found h. sym ((ok_inj h).0);
  counts_rewards = λ p w. refl;
  counted_rewards = λ p w w' n h. sym ((ok_inj h).0);
  inserts_referral = λ row w. inr refl;
  inserted_referral = λ row w w' h. ap (λ (z : Memory). z.tables) (sym ((ok_inj h).1));
  inserts_reward = λ row w. inr refl;
  inserted_reward = λ row w w' h. ap (λ (z : Memory). z.tables) (sym ((ok_inj h).1));
  inserts_submission = λ row w. inr refl;
  inserted_submission = λ row w w' h. ap (λ (z : Memory). z.tables) (sym ((ok_inj h).1));
  updates_submission = λ row w. (refl, refl, refl);
  saves_progress = λ row w. refl;
  gets_tweet = λ id w. refl;
  gets_user = λ name w. refl;
  gets_user_tweets = λ id token w. refl;
  disconnects = λ w. refl;
  connects = λ w. refl;
  calculates_gas = λ g w. refl;
  responds = λ g ms w. refl;
  sends = λ g w. send-view w.ledger_up g w;
  sent_ok = λ g w w' hash h. send-ok w.ledger_up g w w' hash h;
}

-- Wednesday, 7 January 1970.
abbrev wednesday : ℕ
wednesday = 518_400_000

abbrev empty_world : Bool → Memory
empty_world up = record {
  clock = wednesday;
  ledger_up = up;
  tables = record { submissions = []; referrals = []; rewards = []; sent = [] };
}

abbrev sample_milestone : ReferralMilestone
sample_milestone = record { referrer = actor_one; friend = actor_two; milestone = 5 }

abbrev sample_task : SubmitXTask
sample_task = record {
  wallet = actor_one;
  task_type = post;
  tweet_url = "https://x.com/alice/status/123";
  given_username = none;
}

abbrev sample_requests : List Request
sample_requests =
    post_referral (record { referrer = actor_one; friend = actor_two })
    ∷ post_milestone sample_milestone (some "key")
    ∷ post_submission sample_task
    ∷ []

serve_all-WithinCap_example : WithinCap (
    rewards_of sample_backend sample_config sample_laws
      (serve_all sample_backend sample_config sample_requests (empty_world true)))
serve_all-WithinCap_example =
    serve_all-WithinCap sample_backend sample_config sample_laws sample_requests (empty_world true)
      (λ referrer milestone week_key. omega arith)

serve_all-OneReferrer_example : OneReferrer (
    referrals_of sample_backend sample_config sample_laws
      (serve_all sample_backend sample_config sample_requests (empty_world true)))
serve_all-OneReferrer_example =
    serve_all-OneReferrer sample_backend sample_config sample_laws sample_requests
      (empty_world true) (refl, λ friend. omega arith)

abbrev milestone_run : Result (List ReferralReward) × Memory
milestone_run = (
  ok (
      new_reward sample_backend sample_config sample_milestone actor_one actor_two "1970-01-05"
        to_referrer wednesday
      ∷ []),
  record (empty_world true) {
    tables =
        with_reward
          (new_reward sample_backend sample_config sample_milestone actor_one actor_two "1970-01-05"
            to_referrer wednesday)
          (with_grant
            (record {
              actor_id = actor_one;
              grant_id = reward_id actor_one actor_two 5 to_referrer;
              reason = "referral 5 referrer";
              value = 200_000_000_000_000;
            })
            (empty_world true).tables);
  },
)

milestone_runs :
    grant_referral_milestone sample_backend sample_config sample_milestone (empty_world true)
    ≡ milestone_run
unfolding grant_referral_milestone normalize_actor_id grant_ledger_freebet to_lower_case week_start
    vara_to_planck
milestone_runs = refl

abbrev sample_view : Memory → View
sample_view w = w.tables

milestone-once_example :
    let grant_id = reward_id actor_one actor_two 5 to_referrer in
    ((reward : ReferralReward) × (new_reward sample_backend sample_config sample_milestone actor_one
            actor_two "1970-01-05" to_referrer wednesday
          ∷ []
        ≡ reward ∷ [])
      × (reward.grant_id ≡ grant_id)
      × FoundOrPaid sample_backend sample_config sample_laws grant_id
          ((empty_world true).tables)
          (milestone_run.1.tables)
          reward)
    × (((grant_referral_milestone sample_backend sample_config sample_milestone (milestone_run.1)).1
          ).tables
        ≡ milestone_run.1.tables)
milestone-once_example =
    milestone-once sample_backend sample_config sample_laws sample_milestone actor_one actor_two
      (empty_world true) (milestone_run.1) (milestone_run.1)
      (new_reward sample_backend sample_config sample_milestone actor_one actor_two "1970-01-05"
          to_referrer wednesday
        ∷ [])
      (unfold normalize_actor_id to_lower_case in refl)
      (unfold normalize_actor_id to_lower_case in refl) milestone_runs refl

abbrev sample_draft : RewardSubmission
sample_draft =
    new_submission sample_backend sample_config sample_task actor_one "123" "alice" "1970-01-05"

task_checks :
    (up : Bool)
    → check_x_task sample_backend sample_config sample_task (empty_world up)
      ≡ (ok sample_draft, empty_world up)
unfolding check_x_task normalize_actor_id parse_tweet_url to_lower_case fetch_tweet verify_task
    week_start
task_checks up = refl

abbrev paid_world : Memory
paid_world = record (empty_world true) {
  tables = record (empty_world true).tables {
    submissions = paid_row sample_backend sample_config sample_draft wednesday ∷ [];
    sent =
        record {
          actor_id = actor_one;
          grant_id = sample_draft.grant_id;
          reason = sample_draft.reason;
          value = sample_draft.reward_amount_planck;
        }
        ∷ [];
  };
}

task_pays :
    submit_x_task sample_backend sample_config sample_task (empty_world true)
    ≡ (ok (paid_row sample_backend sample_config sample_draft wednesday), paid_world)
unfolding submit_x_task check_x_task normalize_actor_id parse_tweet_url to_lower_case fetch_tweet
    verify_task week_start grant_ledger_freebet
task_pays = refl

submit_x_task-inv_example :
    (draft : RewardSubmission) × (now : ℕ) × Checked sample_backend sample_config sample_laws
      sample_task
      ((empty_world true).tables)
      wednesday
      draft
    × (paid_row sample_backend sample_config sample_draft wednesday
        ≡ paid_row sample_backend sample_config draft now)
    × (paid_world.tables.sent
        ≡ (after_grant sample_backend sample_config sample_laws
            (grant_of sample_backend sample_config sample_laws draft.actor_id
              draft.reward_amount_planck draft.grant_id draft.reason)
            ((empty_world true).tables)).sent)
submit_x_task-inv_example =
    submit_x_task-inv sample_backend sample_config sample_laws sample_task (empty_world true)
      paid_world (paid_row sample_backend sample_config sample_draft wednesday) task_pays

abbrev saved_world : Memory
saved_world = record (empty_world false) {
  tables = record (empty_world false).tables { submissions = sample_draft ∷ [] };
}

-- The ledger refuses the grant; it is up again when the task is sent once more.
failed_grant-blocks_example :
    (submit_x_task sample_backend sample_config sample_task (empty_world false)
      ≡ (err (failure "1014: Priority is too low"), saved_world))
    × ((refusal : Thrown) × (later : Memory) × (submit_x_task sample_backend sample_config
            sample_task
            (record saved_world { ledger_up = true })
          ≡ (err refusal, later))
        × (later.tables ≡ saved_world.tables))
failed_grant-blocks_example =
    failed_grant-blocks sample_backend sample_config sample_laws sample_task sample_task
      (empty_world false) (empty_world false) saved_world saved_world
      (record saved_world { ledger_up = true }) sample_draft (failure "1014: Priority is too low")
      (task_checks false) (unfold save_submission in refl) (unfold grant_ledger_freebet in refl)
      refl refl refl refl

abbrev sample_lookup : XTweetLookup
sample_lookup = record { tweet = sample_tweet; included_tweets = []; included_users = alice ∷ [] }

verify_task-DoesTask_example :
    DoesTask sample_backend sample_config sample_lookup post (some "alice") "alice"
    × (is_empty "alice" ≡ false)
verify_task-DoesTask_example =
    verify_task-DoesTask sample_backend sample_config sample_lookup post (some "alice")
      (empty_world true) (empty_world true) "alice" (unfold verify_task to_lower_case in refl)

search_pages-reads_example :
    (pages : List TimelineJson) × Read sample_backend sample_config "7" none pages
      (empty_world true)
      (empty_world true)
    × (length pages ≤ 10)
    × (false ≡ any_page "123" pages)
    × ((false ≡ true) ⊎ EndsAt 10 pages)
search_pages-reads_example =
    search_pages-reads sample_backend sample_config 10 "123" "7" none (empty_world true)
      (empty_world true) false (unfold search_pages in refl)

abbrev key_id : String
key_id = "0xabababababababababababababababababababababababababababababababab"

normalize_actor_id-reads_example :
    (to_lower_case key_id ≡ key_id)
    × (((is_actor_id key_id ≡ true)
          × (normalize_actor_id sample_backend.decode_address key_id ≡ ok key_id))
        ⊎ ((is_actor_id key_id ≡ false)
            × (is_actor_id (trim " kGk ") ≡ false)
            × Misfit sample_backend.decode_address (trim " kGk ")))
normalize_actor_id-reads_example =
    normalize_actor_id-reads sample_backend.decode_address " kGk " key_id decoded
      (unfold normalize_actor_id in refl)
  where
    decoded :
        (address : String) (bytes : List ℕ)
        → sample_backend.decode_address address ≡ some bytes
        → AllBytes bytes
    decoded address bytes h = elim (Bool-cases (address == "kGk")) [
      | inl e ↦ subst AllBytes (of_some (rw e at h)) (ground arith)
      | inr e ↦ absurd (ground arith)
    ]

week_start-bounds_example :
    (week_start wednesday ≤ wednesday)
    × (wednesday < week_start wednesday + 7 * day_ms)
    × (utc_midnight (week_start wednesday) ≡ week_start wednesday)
    × (utc_day_of_week (week_start wednesday) ≡ 1)
    × ((week_start wednesday ≡ week_start (wednesday + 1))
        ↔ ((wednesday - 4 * day_ms) / (7 * day_ms) ≡ (wednesday + 1 - 4 * day_ms) / (7 * day_ms)))
week_start-bounds_example = week_start-bounds wednesday (wednesday + 1) (omega arith) (omega arith)
