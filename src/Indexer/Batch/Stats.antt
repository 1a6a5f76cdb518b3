-- ===== src/Indexer/Batch/Stats.antt =====
-- What a batch of messages does to the row of one user in the database.
use smartcupleague.Prelude.{
  ℕ, ◌+◌, ◌≡◌, refl, ◌∙◌, sym, String, Option, some, Bool, false, List, [], sum_of, ◌==◌, string_eq,
  if◌then◌else◌, of_some,
}
use smartcupleague.Indexer.Entities.{UserStat, Bet}
use smartcupleague.Indexer.Events.{Score, Payload, OutputMessage, Block}
use smartcupleague.Indexer.State.{HandlerState, or_new}
use smartcupleague.Indexer.Store.{Store, StatLaws}
use smartcupleague.Indexer.Accuracy.{is_exact, is_outcome, bets_of, project_accuracy_for_match}
use smartcupleague.Indexer.Process.{run_batch}
use smartcupleague.Indexer.Stats.Spec.{
  bets_by, staked_by, points_of, claimed_by, final_prize_of, refunded_to,
}
use smartcupleague.Indexer.Stats.Touch.{view}
use smartcupleague.Indexer.Stats.Accuracy.{projection-total}
use smartcupleague.Indexer.Stats.Tallies.{
  bets_tally, staked_tally, points_tally, exact_tally, outcome_tally, claimed_tally,
  final_prize_tally, refund_tally, same_sum, gain_bets, gain_staked, gain_points, gain_claimed,
  gain_prize, gain_refund,
}
use smartcupleague.Indexer.Batch.Messages.{messages}
use smartcupleague.Indexer.Batch.Preloaded.{has_bonus, collect_blocks-adds}
use smartcupleague.Indexer.Batch.Totals.{saved-total}

-- The counts and amounts of `after` are those of `before` and what the messages say of `u`.
abbrev pub Accounts : String → List Payload → UserStat → UserStat → Type 0
Accounts u said before after =
    (after.total_bets ≡ before.total_bets + sum_of (bets_by u) said)
    × (after.total_staked_raw ≡ before.total_staked_raw + sum_of (staked_by u) said)
    × (after.total_points ≡ before.total_points + sum_of (points_of u) said)
    × (after.total_claimed_raw ≡ before.total_claimed_raw + sum_of (claimed_by u) said)
    × (after.final_prize_claimed_raw
        ≡ before.final_prize_claimed_raw + sum_of (final_prize_of u) said)
    × (after.total_refund_claimed_raw
        ≡ before.total_refund_claimed_raw + sum_of (refunded_to u) said)

-- When a batch goes through, the row of every user to whom it gives no podium bonus holds the
-- counts and amounts that it held before (zeros, if there was none) and the sums of what the
-- messages of the batch say of the user: bets, stakes, points, claimed rewards, final prizes and
-- refunds. The blocks, the other messages and failing queries of the accuracy change none of them.
pub run_batch-Accounts :
    (store : Store) (laws : StatLaws store) (decode : String → Option OutputMessage)
    (program_id : String) (blocks : List Block) (u : String) (db db' : store.Db)
    → has_bonus u (messages decode program_id blocks) ≡ false
    → run_batch store decode program_id blocks db ≡ some db'
    → Accounts u
        (messages decode program_id blocks)
        (or_new u (laws.stat db u))
        (or_new u (laws.stat db' u))
run_batch-Accounts store laws decode program_id blocks u db db' b h =
    let said = messages decode program_id blocks in
    let listed =
      collect_blocks-adds u decode program_id blocks (record { match_ids = []; user_ids = [] }) b in
    let t = saved-total store decode program_id laws u blocks db in
    (
      t bets_tally db' (λ _ _ _. refl) listed h
          ∙ rw (same_sum u said bets_tally bets_by (gain_bets u)),
      t staked_tally db' (λ _ _ _. refl) listed h
          ∙ rw (same_sum u said staked_tally staked_by (gain_staked u)),
      t points_tally db' (λ _ _ _. refl) listed h
          ∙ rw (same_sum u said points_tally points_of (gain_points u)),
      t claimed_tally db' (λ _ _ _. refl) listed h
          ∙ rw (same_sum u said claimed_tally claimed_by (gain_claimed u)),
      t final_prize_tally db' (λ _ _ _. refl) listed h
          ∙ rw (same_sum u said final_prize_tally final_prize_of (gain_prize u)),
      t refund_tally db' (λ _ _ _. refl) listed h
          ∙ rw (same_sum u said refund_tally refunded_to (gain_refund u)),
    )

abbrev count_if : Bool → ℕ
count_if b = if b then 1 else 0

-- How many of the bets are of `u` and pass the test.
abbrev pub hits : String → (Bet → Bool) → List Bet → ℕ
hits u test = sum_of (λ b. if b.user == u then count_if (test b) else 0)

-- When the queries of an accuracy projection succeed, every user's exact count grows by the number
-- of the user's bets on the match that have its score, and the outcome count by the number of those
-- that have its outcome and not its score; a user's row that the database holds and the batch does
-- not is read first. The bets are those of the database and, over them, those of the batch.
pub projection-counts :
    (store : Store) (laws : StatLaws store) (u : String) (db : store.Db) (m : ℕ) (final : Score)
    (penalty : Option String) (t : ℕ) (s s' : HandlerState)
    → project_accuracy_for_match store m final penalty t db s ≡ some s'
    → (db_bets : List Bet) × (store.find_bets m db ≡ some db_bets)
      × (let before = or_new u (view (laws.stat db u) u s) in
          let after = or_new u (view (laws.stat db u) u s') in
          let bets = bets_of m db_bets s in
          (after.exact_count ≡ before.exact_count + hits u (is_exact final) bets)
          × (after.outcome_count ≡ before.outcome_count + hits u (is_outcome final penalty) bets))
projection-counts store laws u db m final penalty t s s' h =
    let (bets, found, exact) =
      projection-total store laws u db m final penalty t s s' h exact_tally in
    let (bets', found', outcome) =
      projection-total store laws u db m final penalty t s s' h outcome_tally in
    (bets, found, (exact, rw (of_some (sym found' ∙ found)) at outcome))
