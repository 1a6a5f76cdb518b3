-- ===== src/Voucher/Gasless/Repeat.antt =====
-- A request that is sent again after it was funded.
use smartcupleague.Prelude.{
  ℕ, ◌+◌, ◌-◌, ◌*◌, ◌<◌, ◌≡◌, refl, sym, ap, subst, ◌∙◌, inl, inr, String, some, none, List, [],
  ◌∷◌, ◌++◌, true, false, ◌||◌, arith, max, includes, string_eq, ◌==◌, eq_refl, eq_iff, Bool-cases,
}
use smartcupleague.Action.{ok}
use smartcupleague.Voucher.Backend.{Backend, Config, Voucher, GaslessProgram}
use smartcupleague.Voucher.Service.{get_voucher, updated_row}
use smartcupleague.Voucher.Gasless.{
  rate_limited, ceil_seconds, one_time_conflicts, missing_from, request_under_lock,
}
use smartcupleague.Voucher.Gasless.Waiting.{wait-agrees}

includes-append :
    (p : String) (xs ys : List String) → includes p (xs ++ ys) ≡ (includes p xs || includes p ys)
includes-append p [] ys = refl
includes-append p (x ∷ xs) ys = ground (arith, includes-append p xs ys)

-- A program that is asked for and not held is among the missing ones.
includes-missing :
    (p : String) (held asked : List String)
    → includes p asked ≡ true
    → includes p held ≡ false
    → includes p (missing_from held asked) ≡ true
includes-missing p held [] h k = h
includes-missing p held (x ∷ xs) h k = elim (Bool-cases (x == p)) [
  | inl same ↦ rw (subst (λ z. includes z held ≡ false) (sym ((eq_iff x p).0 same)) k, same) refl
  | inr other ↦
      let later = includes-missing p held xs (rw other at h) k in
      elim (Bool-cases (includes x held)) [ inl e ↦ rw e later | inr e ↦ rw (e, other) later ]
]

-- Nothing is missing, if all that is asked for is held.
missing-nothing :
    (held asked : List String)
    → ((p : String) → includes p asked ≡ true → includes p held ≡ true)
    → missing_from held asked ≡ []
missing-nothing held [] h = refl
missing-nothing held (x ∷ xs) h =
    rw (h x (rw (eq_refl x) refl)) (missing-nothing held xs (λ p q. h p (ground arith)))

-- With the missing programs added, nothing is missing.
missing-added :
    (held asked : List String) → missing_from (held ++ missing_from held asked) asked ≡ []
missing-added held asked = missing-nothing (held ++ missing_from held asked) asked (λ p q.
    elim (Bool-cases (includes p held)) [
      | inl e ↦ includes-append p held (missing_from held asked) ∙ rw e refl
      | inr e ↦
          includes-append p held (missing_from held asked)
          ∙ rw (e, includes-missing p held asked q e) refl
    ])

module _ (b : Backend) (config : Config) where
  updated_row-marks :
      (v : Voucher) (block t prolong : ℕ) (ps : List String)
      → ((updated_row b v block t prolong ps).last_renewed_at ≡ t)
        × ((updated_row b v block t prolong ps).programs ≡ v.programs ++ ps)
  unfolding updated_row
  updated_row-marks v block t prolong ps = (ground arith, ground arith)

  -- The request is refused until the interval from `t` has passed.
  abbrev Refused :
      String → String → List String → List GaslessProgram → b.World → b.World → ℕ → Type 0
  Refused ip address programs rows w w' t =
      let next = t + config.tranche_interval_sec * 1000 in
      request_under_lock b config ip address programs rows w
      ≡ (ok (rate_limited (b.iso_string next) (max 1 (ceil_seconds (next - b.date_now w')))), w')

  -- When the wallet's row is the one that a top-up wrote at the time `t` for some programs, the same
  -- request within the interval from `t`, with no one-time program that the row holds, is refused
  -- until the interval has passed, and the world is as the look-up of the row left it.
  pub repeat-waits :
      (ip address : String) (programs : List String) (rows : List GaslessProgram)
      → (v : Voucher) (block t prolong : ℕ) (w w' : b.World)
      → let row = updated_row b v block t prolong (missing_from v.programs programs) in
        get_voucher b address w ≡ (ok (some row), w')
        → one_time_conflicts rows (some row) ≡ []
        → b.date_now w' < t + config.tranche_interval_sec * 1000
        → let next = t + config.tranche_interval_sec * 1000 in
          request_under_lock b config ip address programs rows w ≡ (
            ok (rate_limited (b.iso_string next) (max 1 (ceil_seconds (next - b.date_now w')))),
            w',
          )
  repeat-waits ip address programs rows v block t prolong w w' found once early =
      let row = updated_row b v block t prolong (missing_from v.programs programs) in
      let (marked, widened) =
        updated_row-marks v block t prolong (missing_from v.programs programs) in
      let held = ap (λ ps. missing_from ps programs) widened ∙ missing-added v.programs programs in
      let waits =
        wait-agrees b config ip address programs rows row none w w' found once held
          (rw marked early) in
      subst (Refused ip address programs rows w w') marked waits.0
