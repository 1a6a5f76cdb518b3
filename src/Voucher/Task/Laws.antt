-- ===== src/Voucher/Task/Laws.antt =====
-- What the sweep revokes, and what it counts.
use smartcupleague.Prelude.{
  ℕ, ◌+◌, ◌≤◌, ◌<◌, ◌≡◌, refl, sym, ap, ◌∙◌, ◌⊎◌, inl, inr, Option, none, some, true, false, List,
  [], ◌∷◌, arith, Bool-cases, length, leb,
}
use smartcupleague.Action.{ok, ran-cases, bind-ok, ok_inj, pure, ◌>>=◌}
use smartcupleague.Voucher.Backend.{Backend, Voucher}
use smartcupleague.Voucher.Service.{RevokeResult, revoke}
use smartcupleague.Voucher.Task.{
  SweepOutcome, done, skipped, Sweep, count_outcome, revoke_found, revoke_if_expired,
  revoke_with_lock, sweep_loop,
}

abbrev pub total : Sweep → ℕ
total s = s.revoked_on_chain + s.marked_db_only + s.still_valid

count_outcome-total : (o : SweepOutcome) (s : Sweep) → total (count_outcome o s) ≤ total s + 1
unfolding count_outcome
count_outcome-total (done RevokeResult.revoked) s = omega arith
count_outcome-total (done RevokeResult.db_only) s = omega arith
count_outcome-total (done RevokeResult.still_valid) s = omega arith
count_outcome-total skipped s = omega arith

module _ (b : Backend) where
  -- The sweep returns whatever the database, the node and the lock throw for a voucher, and the
  -- vouchers that it counts are no more than those that it was given.
  pub sweep_loop-total :
      (vs : List Voucher) (s : Sweep) (w : b.World)
      → (s' : Sweep) × (w' : b.World) × (sweep_loop b vs s w ≡ (ok s', w'))
        × (total s' ≤ total s + length vs)
  unfolding sweep_loop
  sweep_loop-total [] s w = (s, w, refl, omega arith)
  sweep_loop-total (v ∷ vs) s w =
      let x = revoke_with_lock b v w in
      elim (ran-cases x) [
        | inl (o, w1, e) ↦
            let (s', w', ran, less) = sweep_loop-total vs (count_outcome o s) w1 in
            (s', w', rw e ran, omega (arith, less, count_outcome-total o s))
        | inr (t, w1, e) ↦
            let (s', w', ran, less) = sweep_loop-total vs s w1 in
            (s', w', rw e ran, omega (arith, less))
      ]

  -- Why the row that was read is left alone: it is not there, revoked, or has not run out.
  abbrev pub LeftAlone : Option Voucher → b.World → Type 0
  LeftAlone found w1 =
      (found ≡ none)
      ⊎ ((fresh : Voucher) × (found ≡ some fresh)
          × ((fresh.revoked ≡ true) ⊎ (b.date_now w1 ≤ fresh.valid_up_to)))

  -- How the work under the lock can have ended, from the row that it read.
  abbrev pub Ended : Option Voucher → SweepOutcome → b.World → b.World → Type 0
  Ended found o w1 w' =
      ((o ≡ skipped) × (w' ≡ w1) × LeftAlone found w1)
      ⊎ ((fresh : Voucher) × (r : RevokeResult) × (found ≡ some fresh)
          × (fresh.revoked ≡ false)
          × (fresh.valid_up_to < b.date_now w1)
          × (o ≡ done r)
          × (revoke b fresh w1 ≡ (ok r, w')))

  revoke_found-inv :
      (found : Option Voucher) (o : SweepOutcome) (w1 w' : b.World)
      → revoke_found b found w1 ≡ (ok o, w')
      → Ended found o w1 w'
  unfolding revoke_found
  revoke_found-inv none o w1 w' h = let (p, q) = ok_inj h in inl (sym p, sym q, inl refl)
  revoke_found-inv (some fresh) o w1 w' h = elim (Bool-cases fresh.revoked) [
    | inl e ↦ let (p, q) = ok_inj (rw e at h) in inl (sym p, sym q, inr (fresh, refl, inl e))
    | inr e ↦ elim (Bool-cases (leb (b.date_now w1) fresh.valid_up_to)) [
      | inl f ↦
          let (p, q) = ok_inj (rw (e, f) at h) in
          inl (sym p, sym q, inr (fresh, refl, inr (ground arith)))
      | inr f ↦
          let run : revoke_found b (some fresh) w1 ≡ (revoke b fresh >>= λ x. pure (done x)) w1 =
            rw (e, f) refl in
          let (r, w2, ran, rest) = bind-ok (revoke b fresh) (λ x. pure (done x)) w1 (sym run ∙ h) in
          let (p, q) = ok_inj rest in
          inr (fresh, r, refl, e, ground arith, sym p, ran ∙ ap (λ x. (ok r, x)) q)
    ]
  ]

  -- When the sweep's work under the lock returns: the row that it read again was not there, revoked
  -- or not run out, and it was skipped, with the world as that reading left it; or the row was there,
  -- not revoked and run out, and the result is that of calling `revoke` with that row, which may be
  -- that the chain still has it as valid.
  pub revoke_if_expired-inv :
      (v : Voucher) (o : SweepOutcome) (w w' : b.World)
      → revoke_if_expired b v w ≡ (ok o, w')
      → (found : Option Voucher) × (w1 : b.World) × (b.find_voucher_by_id v.id w ≡ (ok found, w1))
        × Ended found o w1 w'
  unfolding revoke_if_expired
  revoke_if_expired-inv v o w w' h =
      let (found, w1, e, rest) = bind-ok (b.find_voucher_by_id v.id) _ w h in
      (found, w1, e, revoke_found-inv found o w1 w' rest)
