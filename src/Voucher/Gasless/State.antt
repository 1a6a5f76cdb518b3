-- ===== src/Voucher/Gasless/State.antt =====
-- `getVoucherState` of `GaslessService` (voucher-backend/src/gasless/gasless.service.ts): the state of
-- a wallet's voucher, as a client reads it before a request.
use smartcupleague.Prelude.{
  ℕ, ◌*◌, ◌+◌, String, Option, none, some, Bool, true, false, List, [], leb, if◌then◌else◌,
}
use smartcupleague.Action.{Action, bad_request, pure, throw, gets, try_catch, ◌>>=◌}
use smartcupleague.Voucher.Backend.{Backend, Config, Voucher}
use smartcupleague.Voucher.Service.{get_voucher, get_voucher_balance}

pub record VoucherState : Type 0 where
  pub voucher_id : Option String
  pub programs : List String
  pub valid_up_to : Option ℕ
  pub vara_balance : Option ℕ
  pub balance_known : Bool
  pub last_renewed_at : Option ℕ
  pub next_top_up_eligible_at : Option ℕ
  pub can_top_up_now : Bool

module _ (b : Backend) (config : Config) where
  open b use {World, date_now, decode_address}
  open config use {tranche_interval_sec}

  abbrev no_voucher : VoucherState
  no_voucher = record {
    voucher_id = none;
    programs = [];
    valid_up_to = none;
    vara_balance = some 0;
    balance_known = true;
    last_renewed_at = none;
    next_top_up_eligible_at = none;
    can_top_up_now = true;
  }

  unfoldable pub voucher_state : Voucher → Option ℕ → ℕ → VoucherState
  voucher_state voucher balance now =
      let raw_next = voucher.last_renewed_at + tranche_interval_sec * 1000 in
      let can_top_up_now = leb raw_next now in
      record {
        voucher_id = some voucher.voucher_id;
        programs = voucher.programs;
        valid_up_to = some voucher.valid_up_to;
        vara_balance = balance;
        balance_known = elim balance [ none ↦ false | some _ ↦ true ];
        last_renewed_at = some voucher.last_renewed_at;
        next_top_up_eligible_at = some (if can_top_up_now then now else raw_next);
        can_top_up_now = can_top_up_now;
      }

  unfoldable pub get_voucher_state : String → Action World VoucherState
  get_voucher_state account w = elim (decode_address account) [
    | none ↦ throw (bad_request "Invalid account address") w
    | some address ↦
        (do
          found ← get_voucher b address
          elim found [
            | none ↦ pure no_voucher
            | some voucher ↦ (do
              balance ←
                  try_catch (do known ← get_voucher_balance b voucher.voucher_id; pure (some known))
                    (λ _. pure none)
              now ← gets date_now
              pure (voucher_state voucher balance now))
          ])
          w
  ]
