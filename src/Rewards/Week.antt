-- ===== src/Rewards/Week.antt =====
-- `getUtcWeekKey` (rewards-backend/src/rewards/reward-utils.ts). A time is in milliseconds since
-- 1970-01-01, a Thursday, and is not before it.
use smartcupleague.Prelude.{
  ℕ, ◌+◌, ◌-◌, ◌*◌, ◌/◌, ◌%◌, ◌≤◌, ◌<◌, ◌≡◌, ◌↔◌, arith, nat_eq, ◌==◌, if◌then◌else◌,
}

abbrev pub day_ms : ℕ
day_ms = 86_400_000

-- `Date.UTC` of the day of a time, and `getUTCDay`, which is 0 on a Sunday.
unfoldable pub utc_midnight : ℕ → ℕ
utc_midnight t = t / day_ms * day_ms

unfoldable pub utc_day_of_week : ℕ → ℕ
utc_day_of_week t = (t / day_ms + 4) % 7

-- The midnight with which the week of a time begins. In the code the difference is below 0 in
-- 1970's first three days only; here it is 0 there.
unfoldable pub week_start : ℕ → ℕ
unfolding utc_midnight utc_day_of_week
week_start t =
    let weekday = utc_day_of_week t in
    let day = if weekday == 0 then 7 else weekday in utc_midnight t - (day - 1) * day_ms

-- From Monday 5 January 1970 on, the start of a time's week is a midnight, of a Monday, at most
-- seven days back; and two times have the same start exactly when the same number of whole weeks
-- has passed since that Monday.
pub week_start-bounds :
    (t u : ℕ)
    → 4 * day_ms ≤ t
    → 4 * day_ms ≤ u
    → (week_start t ≤ t)
      × (t < week_start t + 7 * day_ms)
      × (utc_midnight (week_start t) ≡ week_start t)
      × (utc_day_of_week (week_start t) ≡ 1)
      × ((week_start t ≡ week_start u)
          ↔ ((t - 4 * day_ms) / (7 * day_ms) ≡ (u - 4 * day_ms) / (7 * day_ms)))
unfolding week_start utc_midnight utc_day_of_week
week_start-bounds t u h k =
    (ground arith, ground arith, ground arith, ground arith, (ground arith, ground arith))
