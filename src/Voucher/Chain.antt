-- ===== src/Voucher/Chain.antt =====
-- The sends of the voucher issuer (voucher-backend/src/gasless/voucher.service.ts): how the outcome
-- of a transaction is read off the status updates, and the retry around a send.
pub mod Laws
use Prim.Native.String.{◌++◌ as append}
use smartcupleague.Prelude.{
  ℕ, ◌/◌, ◌+◌, String, Option, none, some, Bool, true, false, ◌&&◌, ◌||◌, List, [], ◌∷◌, ltb, min,
  max, if◌then◌else◌, to_lower_case,
}
use smartcupleague.Action.{
  Action, Result, ok, err, Thrown, bad_request, failure, pure, throw, gets, try_catch, ◌>>=◌, ◌>>◌,
  text_includes, text_of,
}
use smartcupleague.Voucher.Backend.{
  Backend, TxEvent, voucher_issued, voucher_updated, voucher_revoked, extrinsic_failed, other_event,
  TxStatus, not_included, in_block, other_status, StatusUpdate,
}
use smartcupleague.Voucher.Lock.{with_advisory_lock}

abbrev pub planck_per_vara : ℕ
planck_per_vara = 1000000000000

abbrev pub min_reserve_vara : ℕ
min_reserve_vara = 10

-- `events.find(({ event }) => event.method === …)`, with what the event holds.
unfoldable pub find_event {ℓ} : {A : Type ℓ} → (TxEvent → Option A) → List TxEvent → Option A
find_event wanted [] = none
find_event wanted (event ∷ events) =
    let rest = find_event wanted events in elim (wanted event) [ none ↦ rest | some a ↦ some a ]

abbrev pub issued_id : TxEvent → Option String
issued_id (voucher_issued id) = some id
issued_id _ = none

abbrev pub is_updated : TxEvent → Option (Unit {0})
is_updated voucher_updated = some tt
is_updated _ = none

abbrev pub is_revoked : TxEvent → Option (Unit {0})
is_revoked voucher_revoked = some tt
is_revoked _ = none

abbrev pub failed_message : TxEvent → Option String
failed_message (extrinsic_failed message) = some message
failed_message _ = none

-- The promise around `signAndSend`: the first update that settles it. An update list that ends
-- without settling it runs into `withTimeout`. `suffix` ends the message of a transaction that is
-- not included.
unfoldable pub settle :
    {A : Type 0}
    → (TxEvent → Option A)
    → (suffix missing timed_out : String) → List StatusUpdate
    → Result (A × String)
settle wanted suffix missing timed_out [] = err (failure timed_out)
settle wanted suffix missing timed_out (update ∷ updates) =
    let rest = settle wanted suffix missing timed_out updates in
    elim update.status [
      | not_included status_type ↦ err (failure (append "Transaction " (append status_type suffix)))
      | in_block block_hash ↦ elim (find_event wanted update.events) [
        | some a ↦ ok (a, block_hash)
        | none ↦ elim (find_event failed_message update.events) [
          | some message ↦ err (failure message)
          | none ↦ err (failure missing)
        ]
      ]
      | other_status ↦ rest
    ]

unfoldable pub clamp : ℕ → ℕ → ℕ → ℕ
clamp value lo hi = max lo (min hi value)

-- `Math.round(seconds / SECONDS_PER_BLOCK)` for three seconds: a half cannot occur.
unfoldable pub blocks_of_seconds : ℕ → ℕ
blocks_of_seconds seconds = (seconds + 1) / 3

-- The errors of the checks on messages; `error.message` of an exception is its text here.
unfoldable pub is_outdated_transaction_error : Thrown → Bool
is_outdated_transaction_error (failure message) =
    text_includes message "Invalid Transaction: Transaction is outdated"
    || (text_includes message "1010" && text_includes (to_lower_case message) "outdated")
is_outdated_transaction_error _ = false

unfoldable pub is_irrevocable_yet_error : Thrown → Bool
is_irrevocable_yet_error error = text_includes (to_lower_case (text_of error)) "irrevocableyet"

-- A closure that changes an object of its caller runs on the world and the object.
module _ {W S A : Type 0} where
  abbrev pub outer : Action W A → Action (W × S) A
  outer m (w, shared) = let (r, w') = m w in (r, (w', shared))

  -- The caller runs it on the object as it built it.
  abbrev sharing : S → Action (W × S) A → Action W A
  sharing shared m w = let (r, (w', changed)) = m (w, shared) in (r, w')

module _ (b : Backend) where
  open b use {World, issuer_address, is_connected, reconnect}

  unfoldable pub ensure_connected : Action World (Unit {0})
  ensure_connected w = if is_connected w then (ok tt, w) else reconnect w

  -- `withIssuerLock`; the account is initialized before the first request.
  unfoldable pub with_issuer_lock : {A : Type 0} → Action World A → Action World A
  with_issuer_lock = with_advisory_lock b issuer_address

  -- Both attempts see the object that they share.
  unfoldable pub send_sharing : {S A : Type 0} → S → Action (World × S) A → Action World A
  send_sharing shared fn = with_issuer_lock (do
    ensure_connected
    sharing shared (
        try_catch fn (λ error.
          if is_outdated_transaction_error error then (do outer reconnect; fn) else throw error)))

  unfoldable pub send_with_outdated_retry : {A : Type 0} → Action World A → Action World A
  send_with_outdated_retry fn = send_sharing tt (outer fn)
