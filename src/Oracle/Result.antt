-- ===== src/Oracle/Result.antt =====
-- oracle-server/src/result-mapping.ts: the on-field result of a football-data.org score. Goals are
-- natural numbers; `null` is `none`; the tests `home < 0` and `away < 0` on a difference are
-- written as tests on its two terms. The warnings that the code logs are left out.
pub mod Laws
use smartcupleague.Prelude.{
  ℕ, ◌-◌, String, Option, none, some, Bool, not, ◌||◌, ◌==◌, string_eq, nat_eq, ltb, if◌then◌else◌,
}

pub data PenaltyWinner : Type 0 where
  home_wins away_wins : PenaltyWinner

pub record ScoreSide : Type 0 where
  pub home : Option ℕ
  pub away : Option ℕ

pub record FeedScore : Type 0 where
  pub duration : Option String
  pub full_time : Option ScoreSide
  pub penalties : Option ScoreSide

pub record MappedResult : Type 0 where
  pub home : ℕ
  pub away : ℕ
  pub penalty_winner : Option PenaltyWinner

-- Both goals of a side object, when the object and both its fields are there.
abbrev pub goals : Option ScoreSide → Option (ℕ × ℕ)
goals none = none
goals (some s) = elim s.home [
  | none ↦ none
  | some h ↦ elim s.away [ none ↦ none | some a ↦ some (h, a) ]
]

-- The part after the guards on the penalties: fh-fa is the full time, ph-pa the shootout.
unfoldable pub strip_shootout : ℕ → ℕ → ℕ → ℕ → Option MappedResult
strip_shootout fh fa ph pa =
    if ph == pa
    then none
    else if ltb fh ph || ltb fa pa
    then none
    else if not (fh - ph == fa - pa)
    then none
    else some (record {
      home = fh - ph;
      away = fa - pa;
      penalty_winner = some (if ltb pa ph then home_wins else away_wins);
    })

abbrev pub is_duration : Option String → String → Bool
is_duration d s = elim d [ none ↦ Bool.false | some t ↦ t == s ]

unfoldable pub resolve_on_field_result : FeedScore → Option MappedResult
resolve_on_field_result score = elim (goals score.full_time) [
  | none ↦ none
  | some (fh, fa) ↦
      if is_duration score.duration "REGULAR" || is_duration score.duration "EXTRA_TIME"
      then some (record { home = fh; away = fa; penalty_winner = none })
      else if is_duration score.duration "PENALTY_SHOOTOUT"
      then elim (goals score.penalties) [ none ↦ none | some (ph, pa) ↦ strip_shootout fh fa ph pa ]
      else none
]
