-- ===== src/Voucher/Gasless/Waiting.antt =====
-- How the refusal of a request within the interval, and the state that the client reads, agree.
use smartcupleague.Prelude.{
  ℕ, ◌+◌, ◌-◌, ◌*◌, ◌≤◌, ◌<◌, ◌≡◌, refl, String, Option, some, List, [], Bool, true, false, arith,
  leb, max,
}
use smartcupleague.Action.{ok}
use smartcupleague.Voucher.Backend.{Backend, Config, Voucher, GaslessProgram}
use smartcupleague.Voucher.Service.{get_voucher}
use smartcupleague.Voucher.Gasless.State.{voucher_state}
use smartcupleague.Voucher.Gasless.{
  rate_limited, branch_wait, ceil_seconds, one_time_conflicts, missing_from, request_under_lock,
}

-- The whole seconds to wait until an instant are the fewest that reach it.
wait-least :
    (now next : ℕ)
    → now < next
    → let s = max 1 (ceil_seconds (next - now)) in
      (next ≤ now + s * 1000) × (now + (s - 1) * 1000 < next)
wait-least now next h = (ground arith, ground arith)

module _ (b : Backend) (config : Config) where
  -- The instant from which the row may be funded again.
  abbrev next_eligible : Voucher → ℕ
  next_eligible v = v.last_renewed_at + config.tranche_interval_sec * 1000

  abbrev can_top_up : Voucher → Option ℕ → ℕ → Bool
  can_top_up v balance t = (voucher_state b config v balance t).can_top_up_now

  -- A wallet whose voucher was funded within the interval, and that asks for no program it does not
  -- hold and for no one-time program, is refused, and the world is as the look-up of its row left
  -- it: nothing is sent, counted or written. After the seconds to retry in, the state that the
  -- client reads says that it can top up; a second before, it does not.
  pub wait-agrees :
      (ip address : String) (programs : List String) (rows : List GaslessProgram)
      → (v : Voucher) (balance : Option ℕ) (w w' : b.World)
      → get_voucher b address w ≡ (ok (some v), w')
      → one_time_conflicts rows (some v) ≡ []
      → missing_from v.programs programs ≡ []
      → b.date_now w' < next_eligible v
      → let s = max 1 (ceil_seconds (next_eligible v - b.date_now w')) in
        (request_under_lock b config ip address programs rows w
          ≡ (ok (rate_limited (b.iso_string (next_eligible v)) s), w'))
        × (can_top_up v balance (b.date_now w' + s * 1000) ≡ true)
        × (can_top_up v balance (b.date_now w' + (s - 1) * 1000) ≡ false)
  unfolding request_under_lock branch_wait voucher_state
  wait-agrees ip address programs rows v balance w w' found once held early =
      let (reached, before) = wait-least (b.date_now w') (next_eligible v) early in
      let not_yet : leb (next_eligible v) (b.date_now w') ≡ false = ground arith in
      (rw (found, once, not_yet, held) refl, ground arith, ground arith)
