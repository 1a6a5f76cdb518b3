-- ===== src/Voucher/Lock/Rounds.antt =====
-- The rounds of the lock's loop, under a clock that does not run backwards.
use smartcupleague.Prelude.{
  ℕ, zero, suc, ◌+◌, ◌*◌, ◌≤◌, ◌≡◌, refl, sym, subst, ap, ◌∙◌, inl, inr, String, Option, none, some,
  Bool, true, false, arith, ltb, Bool-cases, Option-cases, if◌then◌else◌,
}
use smartcupleague.Action.{
  Action, ok, throw, pure, ◌>>=◌, ◌>>◌, ran-cases, bind-ok, ok_inj, try_catch, catch_then_throw-ok,
}
use smartcupleague.Voucher.Backend.{Backend}
use smartcupleague.Voucher.Lock.{
  attempt, lock_loop, with_advisory_lock, finally_release, end_transaction, locked, ignore,
  default_lock_timeout_ms, default_lock_retry_ms,
}

-- An action that returns has not moved the clock back.
abbrev Onward : (b : Backend) {A : Type 0} → Action b.World A → Type 0
Onward b {A} m = (w w' : b.World) (a : A) → m w ≡ (ok a, w') → b.date_now w ≤ b.date_now w'

-- What the loop relies on: the calls of the database do not move the clock back, and a sleep that
-- returns has lasted for its time.
pub record ClockLaws (b : Backend) : Type 0 where
  pub start : Onward b b.start_transaction
  pub lock : (key : String) → Onward b (b.try_advisory_lock key)
  pub rollback : Onward b b.rollback_transaction
  pub release : Onward b b.release
  pub slept :
      (ms : ℕ) (w w' : b.World) (a : Unit {0})
      → b.sleep ms w ≡ (ok a, w')
      → b.date_now w + ms ≤ b.date_now w'

finally_release-ok :
    (b : Backend) {A : Type 0} (m : Action b.World A) (w : b.World) {a : A} {w' : b.World}
    → finally_release b m w ≡ (ok a, w')
    → (w1 : b.World) × (u : Unit {0}) × (m w ≡ (ok a, w1)) × (b.release w1 ≡ (ok u, w'))
unfolding finally_release
finally_release-ok b m w h = elim (ran-cases (m w)) [
  | inl (x, w1, ran) ↦ elim (ran-cases (b.release w1)) [
    | inl (u, w2, freed) ↦
        (let run : finally_release b m w ≡ (ok x, w2) = rw (ran, freed) refl in
          let (p, q) = ok_inj (sym run ∙ h) in
          (w1, u, ran ∙ ap (λ z. (ok z, w1)) p, freed ∙ ap (λ z. (ok u, z)) q))
    | inr (e, w2, freed) ↦ absurd (ground arith)
  ]
  | inr (x, w1, ran) ↦ elim (ran-cases (b.release w1)) [
    | inl (u, w2, freed) ↦ absurd (ground arith)
    | inr (e, w2, freed) ↦ absurd (ground arith)
  ]
]

some_ne_none : {A : Type 0} {a : A} → some a ≡ none → ⊥
some_ne_none h = ground arith

module _ (b : Backend) (laws : ClockLaws b) {A : Type 0} (key : String)
    (fn : Action b.World A) where
  -- The parts of a round.
  abbrev acquire : Action b.World Bool
  acquire = try_catch (b.try_advisory_lock key) (λ e. do ignore b b.rollback_transaction; throw e)

  abbrev go_on : Bool → Action b.World (Option A)
  go_on acquired =
      if acquired
      then (do result ← locked b fn; pure (some result))
      else (do end_transaction b; pure none)

  go_on-onward :
      (acquired : Bool) (w w' : b.World)
      → go_on acquired w ≡ (ok none, w')
      → b.date_now w ≤ b.date_now w'
  unfolding end_transaction
  go_on-onward true w w' h =
      let (a, w1, ran, rest) = bind-ok (locked b fn) (λ result. pure (some result)) w h in
      absurd (some_ne_none (ok_inj rest).0)
  go_on-onward false w w' h =
      let (u, w1, ended, rest) = bind-ok (end_transaction b) (λ _. pure none) w h in
      let back =
        catch_then_throw-ok b.rollback_transaction (ignore b b.rollback_transaction) w ended in
      let same : w1 ≡ w' = (ok_inj rest).1 in
      subst (λ x. b.date_now w ≤ b.date_now x) same (laws.rollback w w1 u back)

  -- A round that finds the lock taken does not move the clock back.
  attempt-onward :
      (w w' : b.World) → attempt b key fn w ≡ (ok none, w') → b.date_now w ≤ b.date_now w'
  unfolding attempt
  attempt-onward w w' h =
      let (w3, u3, body, freed) =
        finally_release-ok b (b.start_transaction >> (acquire >>= go_on)) w h in
      let (u, w1, started, rest) = bind-ok b.start_transaction (λ _. acquire >>= go_on) w body in
      let (acquired, w2, asked, ended) = bind-ok acquire go_on w1 rest in
      let tried =
        catch_then_throw-ok (b.try_advisory_lock key) (ignore b b.rollback_transaction) w1 asked in
      let p1 = laws.start w w1 u started in
      let p2 = laws.lock key w1 w2 acquired tried in
      let p3 = go_on-onward acquired w2 w3 ended in
      let p4 = laws.release w3 w' u3 freed in omega (arith, p1, p2, p3, p4)

  loop_same :
      (deadline f g : ℕ) (w : b.World)
      → deadline ≤ b.date_now w + f * default_lock_retry_ms
      → deadline ≤ b.date_now w + g * default_lock_retry_ms
      → lock_loop b f deadline key fn w ≡ lock_loop b g deadline key fn w
  unfolding lock_loop
  loop_same deadline zero zero w hf hg = refl
  loop_same deadline zero (suc g) w hf hg =
      let late : ltb (b.date_now w) deadline ≡ false = ground arith in rw late refl
  loop_same deadline (suc f) zero w hf hg =
      let late : ltb (b.date_now w) deadline ≡ false = ground arith in rw late refl
  loop_same deadline (suc f) (suc g) w hf hg = elim (Bool-cases (ltb (b.date_now w) deadline)) [
    | inr late ↦ rw late refl
    | inl early ↦ elim (ran-cases (attempt b key fn w)) [
      | inr (e, w1, ran) ↦ rw (early, ran) refl
      | inl (o, w1, ran) ↦ elim (Option-cases o) [
        | inr (a, is) ↦ rw (early, ran, is) refl
        | inl is ↦ elim (ran-cases (b.sleep default_lock_retry_ms w1)) [
          | inr (e, w2, s) ↦ rw (early, ran, is, s) refl
          | inl (u, w2, s) ↦
              let le = attempt-onward w w1 (rw is at ran) in
              let le2 = laws.slept default_lock_retry_ms w1 w2 u s in
              rw (early, ran, is, s)
                (loop_same deadline f g w2 (omega (arith, le, le2, hf))
                  (omega (arith, le, le2, hg)))
        ]
      ]
    ]
  ]

  -- Under a clock that does not run backwards, with sleeps that last for their time, the lock's
  -- rounds are enough: any other number of rounds that covers the 30 seconds until the deadline,
  -- in steps of 250 ms, gives the same outcome, so that the loop ends by a round or by its
  -- deadline, and never because its rounds have run out.
  pub with_advisory_lock-rounds :
      (fuel : ℕ) (w : b.World)
      → default_lock_timeout_ms ≤ fuel * default_lock_retry_ms
      → with_advisory_lock b key fn w
        ≡ lock_loop b fuel (b.date_now w + default_lock_timeout_ms) key fn w
  unfolding with_advisory_lock
  with_advisory_lock-rounds fuel w h =
      loop_same (b.date_now w + default_lock_timeout_ms) 121 fuel w (omega arith) (omega arith)
