-- ===== src/Oracle/Result/Laws.antt =====
-- What a football-data.org score means, and that `resolve_on_field_result` returns exactly that.
use smartcupleague.Prelude.{
  ℕ, ◌+◌, ◌<◌, ◌≡◌, ◌≢◌, ◌↔◌, ◌⊎◌, inl, inr, String, Option, none, some, Bool, true, arith, eq_iff,
  string_eq, nat_eq, ltb, if◌then◌else◌, Bool-cases, Option-cases, ap, ◌||◌,
}
use smartcupleague.Oracle.Result.{
  PenaltyWinner, home_wins, away_wins, ScoreSide, FeedScore, MappedResult, goals, strip_shootout,
  resolve_on_field_result, is_duration,
}

abbrev pub side : ℕ → ℕ → Option ScoreSide
side h a = some (record { home = some h; away = some a })

-- How the feed reports a match that was played: without a shootout the full time is the on-field
-- score; with one, the on-field score is a draw and the full time adds the shootout to it.
pub data Reports : FeedScore → MappedResult → Type 0 where
  regular :
      (h a : ℕ) (s : FeedScore) (r : MappedResult)
      → (s.duration ≡ some "REGULAR") ⊎ (s.duration ≡ some "EXTRA_TIME")
      → s.full_time ≡ side h a
      → r ≡ record { home = h; away = a; penalty_winner = none }
      → Reports s r
  shootout :
      (d p q : ℕ) (w : PenaltyWinner) (s : FeedScore) (r : MappedResult)
      → s.duration ≡ some "PENALTY_SHOOTOUT"
      → s.full_time ≡ side (d + p) (d + q)
      → s.penalties ≡ side p q
      → ((q < p) × (w ≡ home_wins)) ⊎ ((p < q) × (w ≡ away_wins))
      → r ≡ record { home = d; away = d; penalty_winner = some w }
      → Reports s r

strip_shootout-draw :
    (d p q : ℕ)
    → p ≢ q
    → strip_shootout (d + p) (d + q) p q
      ≡ some (record {
        home = d;
        away = d;
        penalty_winner = some (if ltb q p then home_wins else away_wins);
      })
unfolding strip_shootout
strip_shootout-draw d p q h = ground arith

-- The shootout's winner, as the relation states it.
winner-ltb :
    (p q : ℕ)
    → (w : PenaltyWinner) → ((q < p) × (w ≡ home_wins)) ⊎ ((p < q) × (w ≡ away_wins))
    → (p ≢ q) × (w ≡ (if ltb q p then home_wins else away_wins))
winner-ltb p q w h = ground arith

strip_shootout-inv :
    (fh fa p q : ℕ) (r : MappedResult)
    → strip_shootout fh fa p q ≡ some r
    → (p ≢ q)
      × (fh ≡ r.home + p)
      × (fa ≡ r.home + q)
      × (r ≡ record {
        home = r.home;
        away = r.home;
        penalty_winner = some (if ltb q p then home_wins else away_wins);
      })
unfolding strip_shootout
strip_shootout-inv fh fa p q r h = ground arith

ltb-winner :
    (p q : ℕ)
    → p ≢ q
    → let w = (if ltb q p then home_wins else away_wins) in
      ((q < p) × (w ≡ home_wins)) ⊎ ((p < q) × (w ≡ away_wins))
ltb-winner p q h = ground arith

-- Every report of a played match resolves to the result that it reports.
resolve_complete :
    (s : FeedScore) (r : MappedResult) → Reports s r → resolve_on_field_result s ≡ some r
unfolding resolve_on_field_result
resolve_complete s r (regular h a _ _ (inl e) f g) =
    rw (e, f, g) (ground (arith, eq_iff "REGULAR" "REGULAR"))
resolve_complete s r (regular h a _ _ (inr e) f g) =
    rw (e, f, g) (ground (arith, eq_iff "EXTRA_TIME" "EXTRA_TIME", eq_iff "EXTRA_TIME" "REGULAR"))
resolve_complete s r (shootout d p q w _ _ e f g k l) =
    let c = winner-ltb p q w k in rw (e, f, g, l, c.1) (strip_shootout-draw d p q c.0)

abbrev is_played : Option String → Bool
is_played d = is_duration d "REGULAR" || is_duration d "EXTRA_TIME"

is_duration-inv : (d : Option String) (t : String) → is_duration d t ≡ true → d ≡ some t
is_duration-inv none t h = cc
is_duration-inv (some u) t h = ap some ((eq_iff u t).0 h)

is_played-inv :
    (d : Option String) → is_played d ≡ true → (d ≡ some "REGULAR") ⊎ (d ≡ some "EXTRA_TIME")
is_played-inv d h = ground (arith, is_duration-inv d "REGULAR", is_duration-inv d "EXTRA_TIME")

goals-side : {o : Option ScoreSide} {h a : ℕ} → goals o ≡ some (h, a) → o ≡ side h a
goals-side e = ground arith

-- The result after the shootout has been stripped off.
unplayed-Reports :
    (s : FeedScore) (r : MappedResult) {fh fa p q : ℕ}
    → s.duration ≡ some "PENALTY_SHOOTOUT"
    → goals s.full_time ≡ some (fh, fa)
    → goals s.penalties ≡ some (p, q)
    → strip_shootout fh fa p q ≡ some r
    → Reports s r
unplayed-Reports s r {fh} {fa} {p} {q} d full pens h =
    let (ne, eh, ea, er) = strip_shootout-inv fh fa p q r h in
    shootout r.home p q (if ltb q p then home_wins else away_wins) s r d
      (rw (goals-side full, eh, ea)) (goals-side pens) (ltb-winner p q ne) er

-- A resolved result is one that the score reports.
resolve_sound :
    (s : FeedScore) (r : MappedResult) → resolve_on_field_result s ≡ some r → Reports s r
unfolding resolve_on_field_result
resolve_sound s r h = elim (Option-cases (goals s.full_time)) [
  | inl missing ↦ absurd (ground arith)
  | inr ((fh, fa), full) ↦ elim (Bool-cases (is_played s.duration)) [
    | inl played ↦
        regular fh fa s r (is_played-inv s.duration played) (goals-side full) (ground arith)
    | inr unplayed ↦ elim (Option-cases (goals s.penalties)) [
      | inl missing ↦ absurd (ground arith)
      | inr ((p, q), pens) ↦
          let stripped : is_duration s.duration "PENALTY_SHOOTOUT" ≡ true = ground arith in
          unplayed-Reports s r (is_duration-inv s.duration _ stripped) full pens (ground arith)
    ]
  ]
]

-- The server takes a result from a score exactly when the score reports it, and takes no other:
-- a missing score, an unknown duration, a tied shootout, a shootout after an on-field score that
-- is no draw, or one with more shootout goals than goals in all yields nothing.
pub resolve-Reports :
    (s : FeedScore) (r : MappedResult) → (resolve_on_field_result s ≡ some r) ↔ Reports s r
resolve-Reports s r = (resolve_sound s r, resolve_complete s r)
