-- ===== src/Voucher/Examples.antt =====
-- Runs of the voucher backend's model on a small world: a clock, one row of each table, and a node
-- that accepts every transaction.
use smartcupleague.Prelude.{
  ℕ, ◌+◌, ◌*◌, ◌≤◌, ◌≡◌, ◌↔◌, refl, sym, ap, ◌∙◌, ◌⊎◌, ◌<◌, String, Option, none, some, true, false,
  List, [], ◌∷◌, arith, includes, string_eq, map, to_lower_case, length, is_nil,
}
use smartcupleague.Action.{Action, Result, ok, pure, ok_inj}
use smartcupleague.Voucher.Backend.{
  Backend, Config, Voucher, GaslessProgram, enabled, StatusUpdate, TxEvent, voucher_issued,
  voucher_updated, voucher_revoked, in_block, other_status,
}
use smartcupleague.Voucher.Chain.{
  issued_id, settle, find_event, send_with_outdated_retry, send_sharing, with_issuer_lock,
  ensure_connected,
}
use smartcupleague.Voucher.Chain.Laws.{Lands, settle-Lands}
use smartcupleague.Voucher.Chain.{planck_per_vara, min_reserve_vara, clamp}
use smartcupleague.Voucher.Service.{issue_on_chain}
use smartcupleague.Voucher.Service.{get_voucher, updated_row, revoke, revoke_on_chain, RevokeResult}
use smartcupleague.Voucher.Service.Issue.{issue_on_chain-inv}
use smartcupleague.Voucher.Lock.{
  with_advisory_lock, lock_loop, attempt, finally_release, locked, end_transaction,
}
use smartcupleague.Voucher.Lock.Rounds.{ClockLaws, with_advisory_lock-rounds}
use smartcupleague.Voucher.Gasless.{
  rate_limited, RequestBody, request_under_lock, request_voucher, normalize_programs, dedupe_from,
  check_whitelist, branch_wait, seconds_until_utc_midnight, one_time_conflicts, is_legacy,
  missing_from, reserve_ip_tranche_count,
}
use smartcupleague.Voucher.Gasless.State.{voucher_state}
use smartcupleague.Voucher.Gasless.Waiting.{wait-agrees}
use smartcupleague.Voucher.Gasless.Repeat.{repeat-waits}
use smartcupleague.Voucher.Gasless.Programs.{Distinct, normalize_programs-Distinct}
use smartcupleague.Voucher.Gasless.Ceiling.{Day, ReachesMidnight, quota-kept}
use smartcupleague.Voucher.Gasless.Whitelist.{AllEnabled, request_voucher-inv}
use smartcupleague.Voucher.Task.{sweep_loop, Sweep, done, revoke_found, revoke_if_expired}
use smartcupleague.Voucher.Task.Laws.{total, sweep_loop-total, revoke_if_expired-inv, Ended}

pub record SampleWorld : Type 0 where
  clock : ℕ
  vouchers : List Voucher
  counted : ℕ

abbrev nothing : Action SampleWorld (Unit {0})
nothing w = (ok tt, w)

abbrev landed : TxEvent → Action SampleWorld (List StatusUpdate)
landed event w = (
  ok (
      record { status = other_status; events = [] }
      ∷ record { status = in_block "0xb10c"; events = event ∷ [] }
      ∷ []),
  w,
)

abbrev first_row : List Voucher → Option Voucher
first_row [] = none
first_row (v ∷ vs) = some v

abbrev sample_program : String → GaslessProgram
sample_program p = record { address = p; status = enabled; one_time = false }

abbrev sample_backend : Backend
sample_backend = record {
  World = SampleWorld;
  date_now = λ w. w.clock;
  sleep = λ ms w. (ok tt, record w { clock = w.clock + ms });
  start_transaction = nothing;
  try_advisory_lock = λ key w. (ok true, w);
  commit_transaction = nothing;
  rollback_transaction = nothing;
  release = nothing;
  find_programs = λ ps w. (ok (map sample_program ps), w);
  increment_ip_usage = λ ip day w. (ok (w.counted + 1), record w { counted = w.counted + 1 });
  find_active_voucher = λ account w. (ok (first_row w.vouchers), w);
  find_voucher_by_id = λ id w. (ok (first_row w.vouchers), w);
  find_expired = λ now take w. (ok w.vouchers, w);
  save_voucher = λ v w. (ok tt, record w { vouchers = v ∷ [] });
  decode_address = λ a. some a;
  issuer_address = "0x1550e";
  is_connected = λ w. true;
  reconnect = nothing;
  balance_of = λ a w. (ok 50000000000000, w);
  min_duration = 20;
  max_duration = 1000000;
  finalized_block = λ w. (ok 100, w);
  block_number_of = λ h w. (ok 103, w);
  send_issue = λ account amount duration ps. landed (voucher_issued "0x40cc");
  send_update = λ account id params. landed voucher_updated;
  send_revoke = λ account id. landed voucher_revoked;
  voucher_details = λ account id w. (ok (record { expiry = 500 }), w);
  iso_string = λ t. "";
  utc_day = λ t. "";
}

abbrev sample_config : Config
sample_config = record {
  hourly_tranche_vara = 3;
  per_ip_tranches_per_day = 2;
  tranche_interval_sec = 3600;
  tranche_duration_sec = 86400;
}

abbrev sample_voucher : Voucher
sample_voucher = record {
  id = "1";
  voucher_id = "0x40cc";
  account = "0xa";
  programs = "0xb01a0" ∷ [];
  vara_to_issue = 3;
  valid_up_to_block = 400;
  valid_up_to = 900000;
  revoked = false;
  last_renewed_at = 100000;
}

abbrev sample_world : SampleWorld
sample_world = record { clock = 1000000; vouchers = sample_voucher ∷ []; counted = 2 }

abbrev empty_world : SampleWorld
empty_world = record { clock = 1000000; vouchers = []; counted = 2 }

abbrev sample_updates : List StatusUpdate
sample_updates =
    record { status = other_status; events = [] }
    ∷ record { status = in_block "0xb10c"; events = voucher_issued "0x40cc" ∷ [] }
    ∷ []

found_sample :
    get_voucher sample_backend "0xa" sample_world ≡ (ok (some sample_voucher), sample_world)
unfolding get_voucher
found_sample = refl

found_none : get_voucher sample_backend "0xa" empty_world ≡ (ok none, empty_world)
unfolding get_voucher
found_none = refl

conflicts_sample : one_time_conflicts (sample_program "0xb01a0" ∷ []) (some sample_voucher) ≡ []
unfolding one_time_conflicts
conflicts_sample = refl

settle-Lands_example :
    (settle issued_id "" "missing" "late" sample_updates ≡ ok ("0x40cc", "0xb10c"))
    ↔ Lands issued_id "0x40cc" "0xb10c" sample_updates
settle-Lands_example = settle-Lands issued_id "" "missing" "late" "0x40cc" "0xb10c" sample_updates

wait-agrees_example :
    (request_under_lock sample_backend sample_config "1.2.3.4" "0xa"
        ("0xb01a0" ∷ [])
        (sample_program "0xb01a0" ∷ [])
        sample_world
      ≡ (ok (rate_limited "" 2700), sample_world))
    × ((voucher_state sample_backend sample_config sample_voucher none 3700000).can_top_up_now
        ≡ true)
    × ((voucher_state sample_backend sample_config sample_voucher none 3699000).can_top_up_now
        ≡ false)
wait-agrees_example =
    wait-agrees sample_backend sample_config "1.2.3.4" "0xa" ("0xb01a0" ∷ [])
      (sample_program "0xb01a0" ∷ []) sample_voucher none sample_world sample_world found_sample
      conflicts_sample refl (omega arith)

normalize_programs-Distinct_example :
    Distinct (normalize_programs (some ("0xB0" ∷ "0xb0" ∷ [])))
    × (includes "0xb0" (normalize_programs (some ("0xB0" ∷ "0xb0" ∷ [])))
        ≡ includes "0xb0" (map to_lower_case ("0xB0" ∷ "0xb0" ∷ [])))
normalize_programs-Distinct_example = normalize_programs-Distinct "0xb0" ("0xB0" ∷ "0xb0" ∷ [])

one_passed :
    Day sample_backend sample_config "1.2.3.4" ""
      (λ w. w.counted)
      1
      (record empty_world { counted = 1 })
      (record empty_world { counted = 2 })
unfolding reserve_ip_tranche_count
one_passed = Day.passed Day.start refl refl

-- The second funding of the day is let through, and the next one is refused.
quota-kept_example :
    let w = record empty_world { counted = 2 } in
    let v = record empty_world { counted = 3 } in
    let s = seconds_until_utc_midnight 1000000 in
    ((Path ℕ 1 0) ⊎ (1 + 1 ≤ 2))
    × (((2 < 2)
          × (reserve_ip_tranche_count sample_backend sample_config "1.2.3.4" w ≡ (ok none, v)))
        ⊎ ((2 ≤ 2)
            × (reserve_ip_tranche_count sample_backend sample_config "1.2.3.4" w
                ≡ (ok (some (rate_limited "" s)), v))
            × ReachesMidnight 1000000 s))
quota-kept_example =
    quota-kept sample_backend sample_config "1.2.3.4" "" (λ w. w.counted) counts 1
      (record empty_world { counted = 1 }) (record empty_world { counted = 2 })
      (record empty_world { counted = 3 }) 3 one_passed (omega arith) refl refl
  where
    counts :
        (n : ℕ) (w w' : SampleWorld)
        → sample_backend.increment_ip_usage "1.2.3.4" "" w ≡ (ok n, w')
        → (n ≡ w.counted + 1) × (w'.counted ≡ n)
    counts n w w' h = let (p, q) = ok_inj h in (sym p, ap (λ x. x.counted) (sym q) ∙ p)

abbrev sample_body : RequestBody
sample_body = record { account = "0xa"; programs = some ("0xB01a0" ∷ []); program = none }

sample_requested :
    request_voucher sample_backend sample_config sample_body "1.2.3.4" sample_world
    ≡ (ok (rate_limited "" 2700), sample_world)
unfolding request_voucher normalize_programs dedupe_from to_lower_case check_whitelist
    with_advisory_lock lock_loop attempt finally_release locked end_transaction request_under_lock
    get_voucher one_time_conflicts branch_wait
sample_requested = refl

request_voucher-inv_example :
    (address : String) × (rows : List GaslessProgram) × (w1 : SampleWorld) × (Path
      (Option String)
      (some "0xa")
      (some address))
    × (is_legacy sample_backend sample_config sample_body ≡ false)
    × (is_nil (normalize_programs (some ("0xB01a0" ∷ []))) ≡ false)
    × (sample_backend.find_programs (normalize_programs (some ("0xB01a0" ∷ []))) sample_world
        ≡ (ok rows, w1))
    × (length rows ≡ length (normalize_programs (some ("0xB01a0" ∷ []))))
    × AllEnabled rows
    × (with_advisory_lock sample_backend address
          (request_under_lock sample_backend sample_config "1.2.3.4" address
            (normalize_programs (some ("0xB01a0" ∷ [])))
            rows)
          w1
        ≡ (ok (rate_limited "" 2700), sample_world))
request_voucher-inv_example =
    request_voucher-inv sample_backend sample_config sample_body "1.2.3.4" (rate_limited "" 2700)
      sample_world sample_world sample_requested

abbrev no_counts : Sweep
no_counts = record { revoked_on_chain = 0; marked_db_only = 0; still_valid = 0 }

sweep_loop-total_example :
    (s' : Sweep) × (w' : SampleWorld) × (sweep_loop sample_backend
        (sample_voucher ∷ [])
        no_counts
        sample_world
      ≡ (ok s', w'))
    × (total s' ≤ 0 + 1)
sweep_loop-total_example =
    sweep_loop-total sample_backend (sample_voucher ∷ []) no_counts sample_world

-- The sample's voucher has run out, and the node revokes it.
abbrev revoked_world : SampleWorld
revoked_world = record sample_world { vouchers = record sample_voucher { revoked = true } ∷ [] }

sample_revoked :
    revoke_if_expired sample_backend sample_voucher sample_world
    ≡ (ok (done RevokeResult.revoked), revoked_world)
unfolding revoke_if_expired revoke_found revoke send_with_outdated_retry send_sharing
    with_issuer_lock with_advisory_lock lock_loop attempt finally_release locked end_transaction
    ensure_connected revoke_on_chain settle find_event
sample_revoked = refl

revoke_if_expired-inv_example :
    (found : Option Voucher) × (w1 : SampleWorld) × (sample_backend.find_voucher_by_id "1"
        sample_world
      ≡ (ok found, w1))
    × Ended sample_backend found (done RevokeResult.revoked) w1 revoked_world
revoke_if_expired-inv_example =
    revoke_if_expired-inv sample_backend sample_voucher (done RevokeResult.revoked) sample_world
      revoked_world sample_revoked

-- An operation that ends in the world `v` ends at its clock.
clock_of :
    {A : Type 0} {a a' : A} {v w' : SampleWorld}
    → Path (Result A × SampleWorld) (ok a, v) (ok a', w')
    → v.clock ≤ w'.clock
clock_of h = omega (arith, ap (λ (x : SampleWorld). x.clock) (ok_inj h).1)

abbrev five : Action SampleWorld ℕ
five = pure 5

sample_clock : ClockLaws sample_backend
sample_clock = record {
  start = λ w w' a h. clock_of h;
  lock = λ key w w' a h. clock_of h;
  rollback = λ w w' a h. clock_of h;
  release = λ w w' a h. clock_of h;
  slept = λ ms w w' a h. clock_of h;
}

with_advisory_lock-rounds_example :
    with_advisory_lock sample_backend "0xa" five sample_world
    ≡ lock_loop sample_backend 200 1030000 "0xa" five sample_world
with_advisory_lock-rounds_example =
    with_advisory_lock-rounds sample_backend sample_clock "0xa" five 200 sample_world (omega arith)

-- The sample's voucher after a top-up that added a second program.
abbrev asked : List String
asked = "0xb01a0" ∷ "0x0dd5" ∷ []

abbrev renewed : Voucher
renewed =
    updated_row sample_backend sample_voucher 103 1000000 86400
      (missing_from sample_voucher.programs asked)

abbrev renewed_world : SampleWorld
renewed_world = record sample_world { vouchers = renewed ∷ [] }

found_renewed : get_voucher sample_backend "0xa" renewed_world ≡ (ok (some renewed), renewed_world)
unfolding get_voucher
found_renewed = refl

renewed_conflicts : one_time_conflicts (map sample_program asked) (some renewed) ≡ []
unfolding one_time_conflicts
renewed_conflicts = refl

repeat-waits_example :
    request_under_lock sample_backend sample_config "1.2.3.4" "0xa" asked
      (map sample_program asked)
      renewed_world
    ≡ (ok (rate_limited "" 3600), renewed_world)
repeat-waits_example =
    repeat-waits sample_backend sample_config "1.2.3.4" "0xa" asked (map sample_program asked)
      sample_voucher 103 1000000 86400 renewed_world renewed_world found_renewed renewed_conflicts
      (omega arith)

issued_sample :
    issue_on_chain sample_backend "0xa" asked 3 28800 sample_world
    ≡ (ok ("0x40cc", 103), sample_world)
unfolding issue_on_chain settle find_event
issued_sample = refl

issue_on_chain-inv_example :
    (balance : ℕ) × (w1 : SampleWorld) × (updates : List StatusUpdate) × (w2 : SampleWorld)
    × (hash : String) × (sample_backend.balance_of "0x1550e" sample_world ≡ (ok balance, w1))
    × (3 * planck_per_vara + min_reserve_vara * planck_per_vara ≤ balance)
    × (sample_backend.send_issue "0xa" (3 * planck_per_vara) (clamp 28800 20 1000000) asked w1
        ≡ (ok updates, w2))
    × Lands issued_id "0x40cc" hash updates
    × (sample_backend.block_number_of hash w2 ≡ (ok 103, sample_world))
issue_on_chain-inv_example =
    issue_on_chain-inv sample_backend "0xa" asked 3 28800 ("0x40cc", 103) sample_world sample_world
      issued_sample
