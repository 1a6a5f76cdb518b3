-- ===== src/Voucher/Gasless.antt =====
-- `GaslessService` (voucher-backend/src/gasless/gasless.service.ts): requests for vouchers, the
-- limit for each address that they come from; the state of a voucher is in State. Log lines are left out,
-- and so is the text of an error response but for its first words. The body has passed the
-- validation of its DTO, so `programs` is a list of texts when it is there.
pub mod State
pub mod Waiting
pub mod Repeat
pub mod Whitelist
pub mod Programs
pub mod Ceiling
use smartcupleague.Prelude.{
  ℕ, ◌*◌, ◌+◌, ◌-◌, ◌/◌, ◌%◌, String, Option, none, some, Bool, true, false, not, ◌&&◌, ◌||◌, List,
  [], ◌∷◌, ◌++◌, leb, ltb, max, is_nil, length, select, includes, map, ◌==◌, if◌then◌else◌,
  to_lower_case, nat_eq, string_eq,
}
use smartcupleague.Action.{
  Action, ok, Thrown, bad_request, conflict, forbidden, not_found, service_unavailable,
  internal_server_error, lock_timeout, failure, pure, throw, gets, try_catch, ◌>>=◌, ◌>>◌,
  text_includes, text_of,
}
use smartcupleague.Voucher.Backend.{Backend, Config, Voucher, GaslessProgram, enabled, disabled}
use smartcupleague.Voucher.Lock.{with_advisory_lock}
use smartcupleague.Voucher.Service.{
  issue, update, append_programs_free_of_charge, mark_revoked_locally, get_voucher,
}

-- `{ status: 'ok', voucherId }`, or the 429 with the instant from which a request may pass.
pub data RequestVoucherResult : Type 0 where
  granted : (voucher_id : String) → RequestVoucherResult
  rate_limited : (next_eligible_at : String) (retry_after_sec : ℕ) → RequestVoucherResult

pub record RequestBody : Type 0 where
  pub account : String
  pub programs : Option (List String)
  pub program : Option String

-- `Math.ceil(ms / 1000)`
abbrev pub ceil_seconds : ℕ → ℕ
ceil_seconds ms = (ms + 999) / 1000

unfoldable pub is_stale_on_chain_voucher_error : Thrown → Bool
is_stale_on_chain_voucher_error error =
    let message = to_lower_case (text_of error) in
    text_includes message "inexistentvoucher"
    || text_includes message "voucherexpired"
    || text_includes message "doesn't exist"
    || text_includes message "does not exist"
    || text_includes message "voucher has expired"

-- `Array.from(new Set(xs))`
unfoldable pub dedupe_from : List String → List String → List String
dedupe_from seen [] = seen
dedupe_from seen (x ∷ xs) = dedupe_from (if includes x seen then seen else seen ++ x ∷ []) xs

unfoldable pub normalize_programs : Option (List String) → List String
unfolding dedupe_from
normalize_programs none = []
normalize_programs (some programs) = dedupe_from [] (map to_lower_case programs)

abbrev pub is_enabled : GaslessProgram → Bool
is_enabled row = elim row.status [ enabled ↦ true | disabled ↦ false ]

abbrev pub missing_from : List String → List String → List String
missing_from present programs = select (λ p. not (includes p present)) programs

-- The one-time programs of the request that the voucher holds already.
unfoldable pub one_time_conflicts : List GaslessProgram → Option Voucher → List GaslessProgram
one_time_conflicts rows none = []
one_time_conflicts rows (some existing) =
    select (λ r. r.one_time && includes r.address existing.programs) rows

-- `new Date(...)` at the next midnight, for a day of 86 400 000 ms.
unfoldable pub seconds_until_utc_midnight : ℕ → ℕ
seconds_until_utc_midnight now = max 1 (ceil_seconds (86400000 - now % 86400000))

module _ (b : Backend) (config : Config) where
  open b use {
    World, date_now, find_programs, increment_ip_usage, decode_address, iso_string, utc_day,
  }
  open config use {
    hourly_tranche_vara, per_ip_tranches_per_day, tranche_interval_sec, tranche_duration_sec,
  }

  -- `none`: the reservation went through.
  unfoldable pub reserve_ip_tranche_count : String → Action World (Option RequestVoucherResult)
  reserve_ip_tranche_count ip w =
      if per_ip_tranches_per_day == 0
      then pure none w
      else (do
        now ← gets date_now
        new_count ← increment_ip_usage ip (utc_day now)
        later ← gets date_now
        if ltb per_ip_tranches_per_day new_count
            then pure (
                some (
                  rate_limited (iso_string (later + seconds_until_utc_midnight later * 1000))
                    (seconds_until_utc_midnight later)))
            else pure none)
          w

  -- A fresh voucher for the whole request.
  unfoldable pub issue_fresh : String → List String → Action World RequestVoucherResult
  issue_fresh address programs = do
    voucher_id ← issue b address programs hourly_tranche_vara tranche_duration_sec
    pure (granted voucher_id)

  -- Branch (a): the wallet has no voucher.
  unfoldable pub branch_fresh : String → String → List String → Action World RequestVoucherResult
  branch_fresh ip address programs = do
    ip_limit ← reserve_ip_tranche_count ip
    elim ip_limit [ some limit ↦ pure limit | none ↦ issue_fresh address programs ]

  -- Branch (b): the voucher may be topped up.
  unfoldable pub branch_top_up :
      String → String → List String → Voucher → List String → Action World RequestVoucherResult
  branch_top_up ip address programs existing missing = do
    ip_limit ← reserve_ip_tranche_count ip
    elim ip_limit [
      | some limit ↦ if is_nil missing then pure limit else (do
        append_programs_free_of_charge b existing missing
        pure (granted existing.voucher_id))
      | none ↦
          try_catch
            (do
              update b existing hourly_tranche_vara tranche_duration_sec missing
              pure (granted existing.voucher_id))
            (λ error.
              if not (is_stale_on_chain_voucher_error error)
              then throw error
              else (do mark_revoked_locally b existing; issue_fresh address programs))
    ]

  -- Branch (c): within the interval since the last funding.
  unfoldable pub branch_wait :
      String → String → List String → Voucher → List String → Action World RequestVoucherResult
  branch_wait ip address programs existing missing w =
      if is_nil missing
      then (let next_eligible = existing.last_renewed_at + tranche_interval_sec * 1000 in
          pure
            (rate_limited (iso_string next_eligible)
              (max 1 (ceil_seconds (next_eligible - date_now w))))
            w)
      else try_catch
          (do append_programs_free_of_charge b existing missing; pure (granted existing.voucher_id))
          (λ error.
            if not (is_stale_on_chain_voucher_error error)
            then throw error
            else (do mark_revoked_locally b existing; branch_fresh ip address programs))
          w

  -- The work under the wallet's lock.
  unfoldable pub request_under_lock :
      String → String → List String → List GaslessProgram → Action World RequestVoucherResult
  request_under_lock ip address programs rows = do
    found ← get_voucher b address
    if not (is_nil (one_time_conflicts rows found))
        then throw (bad_request "One-time voucher already issued for: ")
        else elim found [
          | none ↦ branch_fresh ip address programs
          | some existing ↦ λ w.
              let missing = missing_from existing.programs programs in
              (if leb (existing.last_renewed_at + tranche_interval_sec * 1000) (date_now w)
                  then branch_top_up ip address programs existing missing
                  else branch_wait ip address programs existing missing)
                w
        ]

  -- The last `catch`: an `HttpException` passes, and all else becomes one.
  abbrev pub as_http : Thrown → Thrown
  as_http (bad_request message) = bad_request message
  as_http (conflict message) = conflict message
  as_http (forbidden message) = forbidden message
  as_http (not_found message) = not_found message
  as_http service_unavailable = service_unavailable
  as_http internal_server_error = internal_server_error
  as_http lock_timeout = service_unavailable
  as_http (failure message) = internal_server_error

  -- The whitelist: every program is known and enabled.
  unfoldable pub check_whitelist : List String → Action World (List GaslessProgram)
  check_whitelist programs = do
    rows ← find_programs programs
    if not (length rows == length programs)
        then throw (bad_request "Program(s) not whitelisted: ")
        else if is_nil (select (λ r. not (is_enabled r)) rows)
        then pure rows
        else throw (bad_request "Program(s) disabled: ")

  abbrev pub is_legacy : RequestBody → Bool
  is_legacy body = elim body.programs [
    | some programs ↦ false
    | none ↦ elim body.program [ none ↦ false | some program ↦ not (program == "") ]
  ]

  unfoldable pub request_voucher : RequestBody → String → Action World RequestVoucherResult
  request_voucher body ip w =
      let programs = normalize_programs body.programs in
      if is_legacy body
      then throw (bad_request "API change: `program: string` was renamed to `programs: string[]`.")
          w
      else elim (decode_address body.account) [
        | none ↦ throw (bad_request "Invalid account address") w
        | some address ↦
            if is_nil programs
            then throw (bad_request "programs must be a non-empty array") w
            else (do
              rows ← check_whitelist programs
              try_catch (with_advisory_lock b address (request_under_lock ip address programs rows))
                  (λ error. throw (as_http error)))
                w
      ]
