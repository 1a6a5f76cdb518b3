-- ===== src/Voucher/Gasless/Ceiling.antt =====
-- The ceiling on the fundings of an IP address in a day: the fundings that a day lets through, and
-- what the next one meets.
use smartcupleague.Prelude.{
  ℕ, suc, ◌+◌, ◌*◌, ◌/◌, ◌≤◌, ◌<◌, ◌≡◌, ◌≢◌, refl, sym, ◌∙◌, ap, ◌⊎◌, inl, inr, String, Option,
  none, some, arith, ltb, nat_eq, eq_of_ne, Bool-cases,
}
use smartcupleague.Action.{Result, ok, err, Thrown, ran-cases, ok_inj}
use smartcupleague.Voucher.Backend.{Backend, Config}
use smartcupleague.Voucher.Gasless.{
  rate_limited, seconds_until_utc_midnight, reserve_ip_tranche_count,
}

-- s whole seconds from now reach the next midnight, and one second less does not.
abbrev pub ReachesMidnight : ℕ → ℕ → Type 0
ReachesMidnight now s =
    let midnight = (now / 86400000 + 1) * 86400000 in
    (1 ≤ s) × (s ≤ 86400) × (midnight ≤ now + s * 1000) × (now + s * 1000 < midnight + 1000)

midnight-reached : (now : ℕ) → ReachesMidnight now (seconds_until_utc_midnight now)
unfolding seconds_until_utc_midnight
midnight-reached now = (ground arith, ground arith, ground arith, ground arith)

is_thrown :
    {W A : Type 0} {e : Thrown} {w w' : W} {a : A} → Path (Result A × W) (err e, w) (ok a, w') → ⊥
is_thrown h = cc

none_ne_some : {A : Type 0} {a : A} → some a ≡ none → ⊥
none_ne_some h = cc

is_limit :
    {W A : Type 0} {a : A} {w w' : W}
    → Path (Result (Option A) × W) (ok (some a), w) (ok none, w')
    → ⊥
is_limit h = none_ne_some (ok_inj h).0

module _ (b : Backend) (config : Config) (ip day : String) (usage : b.World → ℕ) where
  -- What happens to the table in the course of the day, with the number of reservations for the
  -- address that were let through: these, and anything else that does not lower its count.
  pub data Day : ℕ → b.World → b.World → Type 0 where
    start : {w : b.World} → Day 0 w w
    other : {k : ℕ} {w v v' : b.World} → Day k w v → usage v ≤ usage v' → Day k w v'
    passed :
        {k : ℕ} {w v v' : b.World}
        → Day k w v
        → b.utc_day (b.date_now v) ≡ day
        → reserve_ip_tranche_count b config ip v ≡ (ok none, v')
        → Day (suc k) w v'

  -- A reservation that is let through has counted one, within the ceiling.
  reserve-passed :
      (v v' : b.World)
      → config.per_ip_tranches_per_day ≢ 0
      → reserve_ip_tranche_count b config ip v ≡ (ok none, v')
      → (n : ℕ) × (b.increment_ip_usage ip (b.utc_day (b.date_now v)) v ≡ (ok n, v'))
        × (n ≤ config.per_ip_tranches_per_day)
  unfolding reserve_ip_tranche_count
  reserve-passed v v' set h =
      let on = eq_of_ne config.per_ip_tranches_per_day 0 set in
      elim (ran-cases (b.increment_ip_usage ip (b.utc_day (b.date_now v)) v)) [
        | inr (e, v1, ran) ↦ absurd (is_thrown (rw (on, ran) at h))
        | inl (n, v1, ran) ↦ elim (Bool-cases (ltb config.per_ip_tranches_per_day n)) [
          | inl over ↦ absurd (is_limit (rw (on, ran, over) at h))
          | inr within ↦
              (let (p, q) = ok_inj (rw (on, ran, within) at h) in
                (n, ran ∙ ap (λ x. (ok n, x)) q, ground arith))
        ]
      ]

  module _
      (counts : (n : ℕ) (w w' : b.World)
        → b.increment_ip_usage ip day w ≡ (ok n, w')
        → (n ≡ usage w + 1) × (usage w' ≡ n)) where
    Day-usage :
        (k : ℕ) (w v : b.World)
        → Day k w v
        → config.per_ip_tranches_per_day ≢ 0
        → (k + usage w ≤ usage v) × ((k ≡ 0) ⊎ (k + usage w ≤ config.per_ip_tranches_per_day))
    Day-usage k w v Day.start set = (omega arith, inl refl)
    Day-usage k w v (Day.other {v = u} d less) set =
        let (low, kept) = Day-usage k w u d set in (omega (arith, low, less), kept)
    Day-usage k w v (Day.passed {k = i} {v = u} d today ran) set =
        let (low, kept) = Day-usage i w u d set in
        let (n, incremented, within) = reserve-passed u v set ran in
        let (one_more, now_n) =
          counts n u v (ap (λ t. b.increment_ip_usage ip t u) (sym today) ∙ incremented) in
        (omega (arith, low, one_more, now_n), inr (omega (arith, low, one_more, within)))

    -- With a ceiling set, a table that adds one to the day's count of the address and returns it, and
    -- nothing in the course of the day that lowers the count: if the day lets reservations of the
    -- address through, their number and the count that it started from are at most the ceiling. The
    -- next reservation on that day, when the table answers it, is let through if the count is below
    -- the ceiling; otherwise it is refused until the next midnight, with the fewest whole seconds
    -- that reach it.
    pub quota-kept :
        (k : ℕ) (w v v' : b.World) (n : ℕ)
        → Day k w v
        → config.per_ip_tranches_per_day ≢ 0
        → b.utc_day (b.date_now v) ≡ day
        → b.increment_ip_usage ip day v ≡ (ok n, v')
        → let s = seconds_until_utc_midnight (b.date_now v') in
          ((k ≡ 0) ⊎ (k + usage w ≤ config.per_ip_tranches_per_day))
          × (((usage v < config.per_ip_tranches_per_day)
                × (reserve_ip_tranche_count b config ip v ≡ (ok none, v')))
              ⊎ ((config.per_ip_tranches_per_day ≤ usage v)
                  × (reserve_ip_tranche_count b config ip v
                      ≡ (ok (some (rate_limited (b.iso_string (b.date_now v' + s * 1000)) s)), v'))
                  × ReachesMidnight (b.date_now v') s))
    unfolding reserve_ip_tranche_count
    quota-kept k w v v' n d set today ran =
        let on = eq_of_ne config.per_ip_tranches_per_day 0 set in
        let (one_more, now_n) = counts n v v' ran in
        (
          (Day-usage k w v d set).1,
          elim (Bool-cases (ltb config.per_ip_tranches_per_day n)) [
            | inl over ↦
                inr (ground arith, rw (on, today, ran, over) refl, midnight-reached (b.date_now v'))
            | inr within ↦ inl (ground arith, rw (on, today, ran, within) refl)
          ],
        )
