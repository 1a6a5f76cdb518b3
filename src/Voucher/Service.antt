-- ===== src/Voucher/Service.antt =====
-- The methods of `VoucherService` (voucher-backend/src/gasless/voucher.service.ts). A row that a
-- method changes is returned changed. The log lines are left out.
pub mod Renewal
pub mod Issue
use Prim.Native.String.{◌++◌ as append}
use smartcupleague.Prelude.{
  ℕ, ◌*◌, ◌+◌, ◌-◌, String, Option, none, some, Bool, true, false, List, [], ◌∷◌, ◌++◌, ltb, max,
  is_nil, if◌then◌else◌, nat_eq, ◌==◌,
}
use smartcupleague.Action.{
  Action, Result, ok, err, Thrown, failure, pure, throw, gets, try_catch, ◌>>=◌, ◌>>◌,
}
use smartcupleague.Voucher.Backend.{
  Backend, Voucher, UpdateParams, VoucherDetails, StatusUpdate, TxEvent,
}
use smartcupleague.Voucher.Chain.{
  planck_per_vara, min_reserve_vara, issued_id, is_updated, is_revoked, settle, clamp,
  blocks_of_seconds, is_irrevocable_yet_error, ensure_connected, send_with_outdated_retry,
  send_sharing, outer,
}

pub data RevokeResult : Type 0 where
  revoked db_only still_valid : RevokeResult

abbrev pub lift : {W A : Type 0} → Result A → Action W A
lift r w = (r, w)

abbrev pub not_included_suffix : String
not_included_suffix = " — not included in block"

module _ (b : Backend) where
  open b use {
    World, date_now, sleep, find_active_voucher, save_voucher, issuer_address, balance_of,
    min_duration, max_duration, finalized_block, block_number_of, send_issue, send_update,
    send_revoke, voucher_details,
  }

  -- The send of `issue`: the id of the new voucher, and the block that holds it.
  unfoldable pub issue_on_chain : String → List String → ℕ → ℕ → Action World (String × ℕ)
  issue_on_chain account program_ids amount requested = do
    issuer_balance ← balance_of issuer_address
    if ltb issuer_balance (amount * planck_per_vara + min_reserve_vara * planck_per_vara)
        then throw (failure "Insufficient issuer balance")
        else (do
          updates ←
              send_issue account (amount * planck_per_vara)
                (clamp requested min_duration max_duration) program_ids
          landed ← lift (
              settle issued_id not_included_suffix "VoucherIssued event not found"
                "signAndSend timed out after 180s — transaction may or may not have landed" updates)
          block_number ← block_number_of landed.1
          pure (landed.0, block_number))

  unfoldable pub issue : String → List String → (amount duration_in_sec : ℕ) → Action World String
  issue account program_ids amount duration_in_sec = do
    issued ←
        send_with_outdated_retry b
          (issue_on_chain account program_ids amount (blocks_of_seconds duration_in_sec))
    now ← gets date_now
    save_voucher (record {
      id = "";
      voucher_id = issued.0;
      account = account;
      programs = program_ids;
      vara_to_issue = amount;
      valid_up_to_block =
          issued.1 + clamp (blocks_of_seconds duration_in_sec) min_duration max_duration;
      valid_up_to = now + duration_in_sec * 1000;
      revoked = false;
      last_renewed_at = now;
    })
    pure issued.0

  -- `saveWithRetry` with the delays that are left.
  unfoldable pub save_with_delays : List ℕ → Voucher → Action World (Unit {0})
  save_with_delays [] voucher = save_voucher voucher
  save_with_delays (delay ∷ delays) voucher =
      let again = save_with_delays delays voucher in
      try_catch (save_voucher voucher) (λ _. do sleep delay; again)

  unfoldable pub save_with_retry : Voucher → Action World (Unit {0})
  save_with_retry = save_with_delays (200 ∷ 500 ∷ 1500 ∷ [])

  abbrev some_if_any : List String → Option (List String)
  some_if_any [] = none
  some_if_any (p ∷ ps) = some (p ∷ ps)

  -- `params.prolongDuration` is set where there are blocks to add, and otherwise stays as it is.
  abbrev keep_prolong : ℕ → Option ℕ → Option ℕ
  keep_prolong blocks held = if blocks == 0 then held else some blocks

  -- How many blocks `update` adds to the voucher on chain, at the block `current`.
  unfoldable pub prolong_blocks : Voucher → (current prolong_duration_in_sec : ℕ) → ℕ
  prolong_blocks voucher current prolong_duration_in_sec =
      if prolong_duration_in_sec == 0
      then 0
      else clamp (blocks_of_seconds prolong_duration_in_sec) min_duration max_duration
        - (voucher.valid_up_to_block - current)

  -- The send of `update`: the block that holds it. The attempts share the prolongation in `params`.
  unfoldable pub update_on_chain :
      Voucher → (amount prolong : ℕ) → List String → Action (World × Option ℕ) ℕ
  update_on_chain voucher amount_to_add prolong_duration_in_sec add_programs = do
    current ← outer finalized_block
    let blocks = prolong_blocks voucher current prolong_duration_in_sec
    (λ x. (ok tt, (x.0, keep_prolong blocks x.1)))
    held ← gets (λ x. x.1)
    updates ← outer (
        send_update voucher.account voucher.voucher_id (record {
          append_programs = some_if_any add_programs;
          balance_top_up =
              if amount_to_add == 0 then none else some (amount_to_add * planck_per_vara);
          prolong_duration = held;
        }))
    landed ← lift (
        settle is_updated not_included_suffix "VoucherUpdated event not found"
          "signAndSend timed out after 180s" updates)
    outer (block_number_of landed.1)

  -- The row after an update that block `block_number` confirms, at the time `now`.
  unfoldable pub updated_row : Voucher → (block_number now prolong : ℕ) → List String → Voucher
  updated_row voucher block_number now prolong_duration_in_sec add_programs =
      let desired =
        block_number
        + clamp (blocks_of_seconds prolong_duration_in_sec) min_duration max_duration in
      let renewed = record voucher {
        programs = voucher.programs ++ add_programs;
        last_renewed_at = now;
      } in
      if prolong_duration_in_sec == 0
      then renewed
      else if ltb voucher.valid_up_to_block desired
      then record renewed {
        valid_up_to_block = desired;
        valid_up_to = now + prolong_duration_in_sec * 1000;
      }
      else renewed

  unfoldable pub update : Voucher → (amount prolong : ℕ) → List String → Action World (Unit {0})
  update voucher amount_to_add prolong_duration_in_sec add_programs =
      if voucher.revoked then throw (failure "Cannot update revoked voucher") else (do
        block_number ←
            send_sharing b none
              (update_on_chain voucher amount_to_add prolong_duration_in_sec add_programs)
        now ← gets date_now
        save_with_retry (updated_row voucher block_number now prolong_duration_in_sec add_programs))

  -- The send of `appendProgramsFreeOfCharge`.
  unfoldable pub append_on_chain : Voucher → List String → Action World (Unit {0})
  append_on_chain voucher program_ids = do
    updates ← send_update voucher.account voucher.voucher_id (record {
      append_programs = some program_ids;
      balance_top_up = none;
      prolong_duration = none;
    })
    lift (
        settle is_updated not_included_suffix "VoucherUpdated event not found"
          "appendProgramsFreeOfCharge signAndSend timed out after 180s" updates)
    pure tt

  unfoldable pub append_programs_free_of_charge : Voucher → List String → Action World (Unit {0})
  append_programs_free_of_charge voucher program_ids =
      if voucher.revoked
      then throw (failure "Cannot append to revoked voucher")
      else if is_nil program_ids
      then pure tt
      else (do
        send_with_outdated_retry b (append_on_chain voucher program_ids)
        save_with_retry (record voucher { programs = voucher.programs ++ program_ids }))

  unfoldable pub sync_voucher_validity_from_chain : Voucher → Action World (Unit {0})
  sync_voucher_validity_from_chain voucher = do
    ensure_connected b
    details ← voucher_details voucher.account voucher.voucher_id
    current ← finalized_block
    now ← gets date_now
    save_voucher (record voucher {
      valid_up_to_block = details.expiry;
      valid_up_to = now + max 1 (details.expiry - current) * 3 * 1000;
    })

  unfoldable pub revoke_on_chain : Voucher → Action World (Unit {0})
  revoke_on_chain voucher = do
    updates ← send_revoke voucher.account voucher.voucher_id
    lift (
        settle is_revoked "" "VoucherRevoked event not found"
          "revoke signAndSend timed out after 180s" updates)
    pure tt

  unfoldable pub revoke : Voucher → Action World RevokeResult
  revoke voucher =
      try_catch
        (do
          send_with_outdated_retry b (revoke_on_chain voucher)
          save_voucher (record voucher { revoked = true })
          pure revoked)
        (λ e.
          if is_irrevocable_yet_error e
          then (do
            try_catch (sync_voucher_validity_from_chain voucher) (λ _. pure tt)
            pure still_valid)
          else (do save_voucher (record voucher { revoked = true }); pure db_only))

  unfoldable pub mark_revoked_locally : Voucher → Action World (Unit {0})
  mark_revoked_locally voucher = save_voucher (record voucher { revoked = true })

  unfoldable pub get_voucher : String → Action World (Option Voucher)
  get_voucher account = find_active_voucher account

  unfoldable pub get_voucher_balance : String → Action World ℕ
  get_voucher_balance voucher_id = do ensure_connected b; balance_of voucher_id
