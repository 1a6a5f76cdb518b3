-- ===== src/Indexer/Outcome/Feed.antt =====
-- What the indexer makes of a result that the oracle server took from the feed: `scoreOutcome` of
-- indexer/src/handlers/bolao.ts after `resolveOnFieldResult` of the oracle server.
use smartcupleague.Prelude.{
  ℕ, ◌+◌, ◌<◌, ◌≡◌, ◌⊎◌, sym, ap, ap₂, ◌∙◌, String, Option, none, some, arith, ltb, if◌then◌else◌,
  string_eq, to_lower_case, nat_eq,
}
use smartcupleague.Indexer.Outcome.{
  Outcome, home, draw, away, score_outcome, normalize_penalty_winner,
}
use smartcupleague.Oracle.Result.{
  PenaltyWinner, FeedScore, MappedResult, goals, resolve_on_field_result,
}
use smartcupleague.Oracle.Result.Laws.{Reports, resolve-Reports}

-- The strings that both sides send and read for the winner of a shootout.
abbrev pub spelled : Option PenaltyWinner → Option String
spelled none = none
spelled (some PenaltyWinner.home_wins) = some "Home"
spelled (some PenaltyWinner.away_wins) = some "Away"

-- Whoever has more goals.
abbrev pub leader : ℕ → ℕ → Outcome
leader h a = if ltb a h then home else if ltb h a then away else draw

goals_inj :
    {h a fh fa : ℕ} → Path (Option (ℕ × ℕ)) (some (h, a)) (some (fh, fa)) → (h ≡ fh) × (a ≡ fa)
goals_inj e = (ground arith, ground arith)

winner-leader :
    (d p q : ℕ) (w : PenaltyWinner)
    → ((q < p) × (w ≡ PenaltyWinner.home_wins)) ⊎ ((p < q) × (w ≡ PenaltyWinner.away_wins))
    → score_outcome d d (spelled (some w)) ≡ leader (d + p) (d + q)
unfolding score_outcome normalize_penalty_winner to_lower_case
winner-leader d p q PenaltyWinner.home_wins h = ground arith
winner-leader d p q PenaltyWinner.away_wins h = ground arith

Reports-leader :
    (s : FeedScore) (r : MappedResult) (fh fa : ℕ)
    → Reports s r
    → goals s.full_time ≡ some (fh, fa)
    → score_outcome r.home r.away (spelled r.penalty_winner) ≡ leader fh fa
unfolding score_outcome normalize_penalty_winner
Reports-leader s r fh fa (Reports.regular h a _ _ played full e) given =
    let (same_h, same_a) = goals_inj (ap goals (sym full) ∙ given) in
    rw e (ap₂ leader same_h same_a)
Reports-leader s r fh fa (Reports.shootout d p q w _ _ played full pens won e) given =
    let (same_h, same_a) = goals_inj (ap goals (sym full) ∙ given) in
    rw e (winner-leader d p q w won ∙ ap₂ leader same_h same_a)

-- When the server takes a result from a feed's score, the outcome that the indexer gives the result,
-- with the winner of a shootout spelled "Home" or "Away", is that of the feed's full time, which
-- counts the goals of a shootout: the side with more of them, or a draw.
pub score_outcome-resolve :
    (s : FeedScore) (r : MappedResult) (fh fa : ℕ)
    → resolve_on_field_result s ≡ some r
    → goals s.full_time ≡ some (fh, fa)
    → score_outcome r.home r.away (spelled r.penalty_winner) ≡ leader fh fa
score_outcome-resolve s r fh fa taken given =
    Reports-leader s r fh fa ((resolve-Reports s r).0 taken) given
