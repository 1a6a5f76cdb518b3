-- ===== src/Indexer/Stats/Tallies.antt =====
-- The quantities of a user's row, and what each message adds to them.
use smartcupleague.Prelude.{
  ℕ, ◌+◌, ◌≡◌, refl, ap₂, String, Option, none, some, Bool, true, false, List, [], ◌∷◌, arith,
  sum_of, string_eq,
}
use smartcupleague.Indexer.Entities.{UserStat}
use smartcupleague.Indexer.Events.{Payload}
use smartcupleague.Indexer.State.{Delta, apply_delta}
use smartcupleague.Indexer.Stats.Spec.{
  bets_by, staked_by, points_of, claimed_by, final_prize_of, refunded_to,
}
use smartcupleague.Indexer.Stats.Touch.{Tally}
use smartcupleague.Indexer.Stats.Fold.{touch_of, gain}

abbrev amount : Option ℕ → ℕ
amount none = 0
amount (some x) = x

abbrev one_if : Bool → ℕ
one_if true = 1
one_if false = 0

-- What each tally adds, by the field of the delta that it reads.
module _ (t : ℕ) (d : Delta) (r : UserStat) where
  pub apply_delta-bets : (apply_delta t d r).total_bets ≡ r.total_bets + one_if d.add_bet
  unfolding apply_delta
  apply_delta-bets = ground arith

  pub apply_delta-staked :
      (apply_delta t d r).total_staked_raw ≡ r.total_staked_raw + amount d.add_stake
  unfolding apply_delta
  apply_delta-staked = ground arith

  pub apply_delta-points : (apply_delta t d r).total_points ≡ r.total_points + amount d.add_points
  unfolding apply_delta
  apply_delta-points = ground arith

  pub apply_delta-exact : (apply_delta t d r).exact_count ≡ r.exact_count + amount d.add_exact
  unfolding apply_delta
  apply_delta-exact = ground arith

  pub apply_delta-outcome :
      (apply_delta t d r).outcome_count ≡ r.outcome_count + amount d.add_outcome
  unfolding apply_delta
  apply_delta-outcome = ground arith

  pub apply_delta-claimed :
      (apply_delta t d r).total_claimed_raw ≡ r.total_claimed_raw + amount d.add_claimed
  unfolding apply_delta
  apply_delta-claimed = ground arith

  pub apply_delta-prize :
      (apply_delta t d r).final_prize_claimed_raw
      ≡ r.final_prize_claimed_raw + amount d.add_final_prize
  unfolding apply_delta
  apply_delta-prize = ground arith

  pub apply_delta-refund :
      (apply_delta t d r).total_refund_claimed_raw
      ≡ r.total_refund_claimed_raw + amount d.add_refund
  unfolding apply_delta
  apply_delta-refund = ground arith

abbrev pub bets_tally : Tally
bets_tally = record {
  read = λ r. r.total_bets;
  added = λ d. one_if d.add_bet;
  starts = λ u. refl;
  adds = apply_delta-bets;
}

abbrev pub staked_tally : Tally
staked_tally = record {
  read = λ r. r.total_staked_raw;
  added = λ d. amount d.add_stake;
  starts = λ u. refl;
  adds = apply_delta-staked;
}

abbrev pub points_tally : Tally
points_tally = record {
  read = λ r. r.total_points;
  added = λ d. amount d.add_points;
  starts = λ u. refl;
  adds = apply_delta-points;
}

abbrev pub exact_tally : Tally
exact_tally = record {
  read = λ r. r.exact_count;
  added = λ d. amount d.add_exact;
  starts = λ u. refl;
  adds = apply_delta-exact;
}

abbrev pub outcome_tally : Tally
outcome_tally = record {
  read = λ r. r.outcome_count;
  added = λ d. amount d.add_outcome;
  starts = λ u. refl;
  adds = apply_delta-outcome;
}

abbrev pub claimed_tally : Tally
claimed_tally = record {
  read = λ r. r.total_claimed_raw;
  added = λ d. amount d.add_claimed;
  starts = λ u. refl;
  adds = apply_delta-claimed;
}

abbrev pub final_prize_tally : Tally
final_prize_tally = record {
  read = λ r. r.final_prize_claimed_raw;
  added = λ d. amount d.add_final_prize;
  starts = λ u. refl;
  adds = apply_delta-prize;
}

abbrev pub refund_tally : Tally
refund_tally = record {
  read = λ r. r.total_refund_claimed_raw;
  added = λ d. amount d.add_refund;
  starts = λ u. refl;
  adds = apply_delta-refund;
}

sum_of-cong :
    (f g : Payload → ℕ) (ps : List Payload)
    → ((p : Payload) → f p ≡ g p)
    → sum_of f ps ≡ sum_of g ps
sum_of-cong f g [] h = refl
sum_of-cong f g (p ∷ ps) h = ap₂ ◌+◌ (h p) (sum_of-cong f g ps h)

-- Each total gains, from the messages, the amount that the specification reads off them.
module _ (u : String) (ps : List Payload) where
  pub same_sum :
      (g : Tally) (f : String → Payload → ℕ)
      → ((p : Payload) → gain g u (touch_of p) ≡ f u p)
      → sum_of (λ p. gain g u (touch_of p)) ps ≡ sum_of (f u) ps
  same_sum g f h = sum_of-cong (λ p. gain g u (touch_of p)) (f u) ps h

pub gain_bets : (u : String) (p : Payload) → gain bets_tally u (touch_of p) ≡ bets_by u p
gain_bets u p = ground arith

pub gain_staked : (u : String) (p : Payload) → gain staked_tally u (touch_of p) ≡ staked_by u p
gain_staked u p = ground arith

pub gain_points : (u : String) (p : Payload) → gain points_tally u (touch_of p) ≡ points_of u p
gain_points u p = ground arith

pub gain_claimed : (u : String) (p : Payload) → gain claimed_tally u (touch_of p) ≡ claimed_by u p
gain_claimed u p = ground arith

pub gain_prize :
    (u : String) (p : Payload) → gain final_prize_tally u (touch_of p) ≡ final_prize_of u p
gain_prize u p = ground arith

pub gain_refund : (u : String) (p : Payload) → gain refund_tally u (touch_of p) ≡ refunded_to u p
gain_refund u p = ground arith
