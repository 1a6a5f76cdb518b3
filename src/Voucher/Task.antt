-- ===== src/Voucher/Task.antt =====
-- `VoucherTask` (voucher-backend/src/gasless/voucher.task.ts): the hourly sweep that revokes the
-- vouchers that have run out.
pub mod Laws
use smartcupleague.Prelude.{
  ℕ, ◌+◌, String, Option, none, some, Bool, List, [], ◌∷◌, leb, if◌then◌else◌,
}
use smartcupleague.Action.{Action, Result, ok, err, pure, throw, gets, try_catch, ◌>>=◌, ◌>>◌}
use smartcupleague.Voucher.Backend.{Backend, Voucher}
use smartcupleague.Voucher.Lock.{with_advisory_lock}
use smartcupleague.Voucher.Service
use smartcupleague.Voucher.Service.{RevokeResult, revoke}

pub data SweepOutcome : Type 0 where
  done : RevokeResult → SweepOutcome
  skipped : SweepOutcome

-- The counts of the sweep.
pub record Sweep : Type 0 where
  pub revoked_on_chain : ℕ
  pub marked_db_only : ℕ
  pub still_valid : ℕ

abbrev pub max_per_iteration : ℕ
max_per_iteration = 100

unfoldable pub count_outcome : SweepOutcome → Sweep → Sweep
count_outcome (done RevokeResult.revoked) s = record s { revoked_on_chain = s.revoked_on_chain + 1 }
count_outcome (done RevokeResult.db_only) s = record s { marked_db_only = s.marked_db_only + 1 }
count_outcome (done RevokeResult.still_valid) s = record s { still_valid = s.still_valid + 1 }
count_outcome skipped s = s

module _ (b : Backend) where
  open b use {World, date_now, find_voucher_by_id, find_expired}

  -- The row as it stands under the lock: it is revoked if it has still run out.
  unfoldable pub revoke_found : Option Voucher → Action World SweepOutcome
  revoke_found none w = pure skipped w
  revoke_found (some fresh) w =
      if fresh.revoked
      then pure skipped w
      else if leb (date_now w) fresh.valid_up_to
      then pure skipped w
      else (do outcome ← revoke b fresh; pure (done outcome)) w

  -- The work under the wallet's lock: the row is read again.
  unfoldable pub revoke_if_expired : Voucher → Action World SweepOutcome
  revoke_if_expired voucher = do found ← find_voucher_by_id voucher.id; revoke_found found

  unfoldable pub revoke_with_lock : Voucher → Action World SweepOutcome
  revoke_with_lock voucher = with_advisory_lock b voucher.account (revoke_if_expired voucher)

  -- The loop: an error ends only its own voucher.
  unfoldable pub sweep_loop : List Voucher → Sweep → Action World Sweep
  sweep_loop [] counts w = pure counts w
  sweep_loop (voucher ∷ vouchers) counts w =
      let (r, w') = revoke_with_lock voucher w in
      sweep_loop vouchers (elim r [ ok outcome ↦ count_outcome outcome counts | err _ ↦ counts ]) w'

  unfoldable pub revoke_expired_vouchers : Action World Sweep
  revoke_expired_vouchers = do
    now ← gets date_now
    expired ← find_expired now max_per_iteration
    sweep_loop expired (record { revoked_on_chain = 0; marked_db_only = 0; still_valid = 0 })
