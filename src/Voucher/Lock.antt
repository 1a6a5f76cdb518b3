-- ===== src/Voucher/Lock.antt =====
-- `withAdvisoryLock` of voucher-backend/src/gasless/advisory-lock.ts with its default options. The
-- key of an account (`getWalletLockKey`, a SHA-256 digest) is the account. The loop takes fuel: the
-- rounds that fit between now and the deadline.
pub mod Rounds
use smartcupleague.Prelude.{
  ℕ, zero, suc, ◌+◌, String, Option, none, some, Bool, true, false, ltb, if◌then◌else◌,
}
use smartcupleague.Action.{
  Action, Result, ok, err, lock_timeout, pure, throw, gets, try_catch, ◌>>=◌, ◌>>◌,
}
use smartcupleague.Voucher.Backend.{Backend}

abbrev pub default_lock_timeout_ms : ℕ
default_lock_timeout_ms = 30000

abbrev pub default_lock_retry_ms : ℕ
default_lock_retry_ms = 250

module _ (b : Backend) where
  open b use {
    World, date_now, sleep, start_transaction, try_advisory_lock, commit_transaction,
    rollback_transaction, release,
  }

  -- `finally { await qr.release() }`, after a round that returned or threw.
  abbrev freed : {A : Type 0} → Result A → Result (Unit {0}) × World → Result A × World
  freed r (ok _, w) = (r, w)
  freed r (err e, w) = (err e, w)

  abbrev release_after : {A : Type 0} → Result A × World → Result A × World
  release_after (r, w) = freed r (release w)

  unfoldable pub finally_release : {A : Type 0} → Action World A → Action World A
  finally_release m w = release_after (m w)

  abbrev pub ignore : Action World (Unit {0}) → Action World (Unit {0})
  ignore m = try_catch m (λ _. pure tt)

  -- The first roll-back of an open transaction; if it fails, the transaction still counts as open
  -- and is rolled back once more, with no error, before the runner is released.
  unfoldable pub end_transaction : Action World (Unit {0})
  end_transaction = try_catch rollback_transaction (λ e. do ignore rollback_transaction; throw e)

  -- The work under the lock: its transaction is committed when it returns, and rolled back when it,
  -- or the commit, throws.
  unfoldable pub locked : {A : Type 0} → Action World A → Action World A
  locked fn =
      try_catch (do result ← fn; commit_transaction; pure result) (λ e. do end_transaction; throw e)

  -- One round: `none` if another holds the lock.
  unfoldable pub attempt : {A : Type 0} → String → Action World A → Action World (Option A)
  attempt key fn = finally_release (do
    start_transaction
    acquired ← try_catch (try_advisory_lock key) (λ e. do ignore rollback_transaction; throw e)
    if acquired
        then (do result ← locked fn; pure (some result))
        else (do end_transaction; pure none))

  unfoldable pub lock_loop : {A : Type 0} → ℕ → ℕ → String → Action World A → Action World A
  lock_loop zero deadline key fn w = throw lock_timeout w
  lock_loop (suc fuel) deadline key fn w =
      let again = lock_loop fuel deadline key fn in
      let round = (do
        result ← attempt key fn
        elim result [ some a ↦ pure a | none ↦ (do sleep default_lock_retry_ms; again) ]) in
      if ltb (date_now w) deadline then round w else throw lock_timeout w

  -- 30 000 / 250 rounds of waiting reach the deadline.
  unfoldable pub with_advisory_lock : {A : Type 0} → String → Action World A → Action World A
  with_advisory_lock key fn w = lock_loop 121 (date_now w + default_lock_timeout_ms) key fn w
