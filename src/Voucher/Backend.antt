-- ===== src/Voucher/Backend.antt =====
-- What the voucher backend is built on: its tables by way of TypeORM and Postgres, the clock, the
-- Gear node by way of @gear-js/api, and the configuration. The operations are parameters; their
-- effects are changes of an abstract world. The rows are those of voucher-backend/src/entities.
use smartcupleague.Prelude.{ℕ, String, Option, Bool, List}
use smartcupleague.Action.{Action}

-- A time is in milliseconds, and `account` a decoded address. `varaToIssue` is an integer number
-- of VARA, as the configuration checks; the columns that the code leaves to the database are left
-- out, but for `id`.
pub record Voucher : Type 0 where
  pub id : String
  pub voucher_id : String
  pub account : String
  pub programs : List String
  pub vara_to_issue : ℕ
  pub valid_up_to_block : ℕ
  pub valid_up_to : ℕ
  pub revoked : Bool
  pub last_renewed_at : ℕ

pub data GaslessProgramStatus : Type 0 where
  enabled disabled : GaslessProgramStatus

pub record GaslessProgram : Type 0 where
  pub address : String
  pub status : GaslessProgramStatus
  pub one_time : Bool

-- `configuration.ts`: positive integers, and a ceiling that 0 turns off.
pub record Config : Type 0 where
  pub hourly_tranche_vara : ℕ
  pub per_ip_tranches_per_day : ℕ
  pub tranche_interval_sec : ℕ
  pub tranche_duration_sec : ℕ

-- One call of the callback of `signAndSend`: the status, and the methods of the events with the
-- data that is read of them. `voucher_issued` holds the new voucher's id, and `extrinsic_failed`
-- the message that `getExtrinsicFailedError` makes.
pub data TxEvent : Type 0 where
  voucher_issued : (voucher_id : String) → TxEvent
  voucher_updated voucher_revoked : TxEvent
  extrinsic_failed : (message : String) → TxEvent
  other_event : TxEvent

pub data TxStatus : Type 0 where
  not_included : (status_type : String) → TxStatus
  in_block : (block_hash : String) → TxStatus
  other_status : TxStatus

pub record StatusUpdate : Type 0 where
  pub status : TxStatus
  pub events : List TxEvent

-- The fields of `IUpdateVoucherParams` that are set.
pub record UpdateParams : Type 0 where
  pub append_programs : Option (List String)
  pub balance_top_up : Option ℕ
  pub prolong_duration : Option ℕ

pub record VoucherDetails : Type 0 where
  pub expiry : ℕ

pub record Backend : Type 1 where
  pub World : Type 0
  pub date_now : World → ℕ
  pub sleep : ℕ → Action World (Unit {0})
  -- A query runner: `connect` with `startTransaction`; `SET LOCAL` with the lock; the ends.
  pub start_transaction : Action World (Unit {0})
  pub try_advisory_lock : String → Action World Bool
  pub commit_transaction : Action World (Unit {0})
  pub rollback_transaction : Action World (Unit {0})
  pub release : Action World (Unit {0})
  -- The tables.
  pub find_programs : List String → Action World (List GaslessProgram)
  pub increment_ip_usage : (ip utc_day : String) → Action World ℕ
  pub find_active_voucher : (account : String) → Action World (Option Voucher)
  pub find_voucher_by_id : (id : String) → Action World (Option Voucher)
  pub find_expired : (now take : ℕ) → Action World (List Voucher)
  pub save_voucher : Voucher → Action World (Unit {0})
  -- The node. The update lists are what the callback of `signAndSend` is called with.
  pub decode_address : String → Option String
  pub issuer_address : String
  pub is_connected : World → Bool
  pub reconnect : Action World (Unit {0})
  pub balance_of : String → Action World ℕ
  pub min_duration : ℕ
  pub max_duration : ℕ
  pub finalized_block : Action World ℕ
  pub block_number_of : (block_hash : String) → Action World ℕ
  pub send_issue :
      (account : String) (amount duration : ℕ) (programs : List String)
      → Action World (List StatusUpdate)
  pub send_update : (account voucher_id : String) → UpdateParams → Action World (List StatusUpdate)
  pub send_revoke : (account voucher_id : String) → Action World (List StatusUpdate)
  pub voucher_details : (account voucher_id : String) → Action World VoucherDetails
  -- `toISOString` and the day that it begins with, of a time.
  pub iso_string : ℕ → String
  pub utc_day : ℕ → String
