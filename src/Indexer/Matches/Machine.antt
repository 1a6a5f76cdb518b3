-- ===== src/Indexer/Matches/Machine.antt =====
-- What a reader of the table wants of a match, and how each message about it moves that.
use smartcupleague.Prelude.{
  ℕ, ◌+◌, Option, some, List, [], ◌∷◌, ◌++◌, ◌≡◌, refl, nat_eq, ◌==◌, if◌then◌else◌,
}
use mathlib.Core.Option
use smartcupleague.Indexer.Entities.{
  BolaoMatch, MatchStatus, unresolved, proposed, finalized, settled, cancelled,
}
use smartcupleague.Indexer.Events.{Payload}

pub record MatchView : Type 0 where
  pub status : MatchStatus
  pub pool : ℕ
  pub bets : ℕ

abbrev pub view_of : BolaoMatch → MatchView
view_of m = record { status = m.status; pool = m.prize_pool_raw; bets = m.bets_count }

-- A message about another match, or about none, moves nothing; nothing but the registration brings
-- a match into being.
abbrev pub when_about : ℕ → ℕ → (MatchView → MatchView) → Option MatchView → Option MatchView
when_about m k f v = if k == m then Option.map f v else v

abbrev pub step : ℕ → Payload → Option MatchView → Option MatchView
step m (Payload.match_registered k phase home away kick_off) v =
    if k == m then some (record { status = unresolved; pool = 0; bets = 0 }) else v
step m (Payload.bet_accepted user k score penalty stake) v =
    when_about m k (λ w. record w { pool = w.pool + stake; bets = w.bets + 1 }) v
step m (Payload.result_proposed k score penalty) v =
    when_about m k (λ w. record w { status = proposed }) v
step m (Payload.result_finalized k score penalty) v =
    when_about m k (λ w. record w { status = finalized }) v
step m (Payload.settlement_prepared k) v = when_about m k (λ w. record w { status = settled }) v
step m (Payload.match_cancelled k total) v =
    when_about m k (λ w. record w { status = cancelled; pool = 0 }) v
step m _ v = v

abbrev pub steps : ℕ → List Payload → Option MatchView → Option MatchView
steps m [] v = v
steps m (p ∷ ps) v = steps m ps (step m p v)

pub steps-append :
    (m : ℕ) (ps qs : List Payload) (v : Option MatchView)
    → steps m (ps ++ qs) v ≡ steps m qs (steps m ps v)
steps-append m [] qs v = refl
steps-append m (p ∷ ps) qs v = steps-append m ps qs (step m p v)
