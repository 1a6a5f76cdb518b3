-- ===== src/Rewards/View.antt =====
-- What the theorems take of TypeORM and of the ledger: the rows of the tables and the grants sent, as
-- a view of the world that each operation changes in its documented way. A write that throws may have
-- happened nevertheless.
pub mod Silent
pub mod Counts
use smartcupleague.Prelude.{ℕ, ◌≡◌, ◌⊎◌, Option, Bool, List, [], ◌∷◌, ◌++◌, length, select, String}
use smartcupleague.Action.{ok}
use smartcupleague.Rewards.XService.{find_first}
use smartcupleague.Rewards.Backend.{
  Backend, RewardSubmission, Referral, ReferralReward, ReferralProgress, Grant,
}

pub record View : Type 0 where
  pub submissions : List RewardSubmission
  pub referrals : List Referral
  pub rewards : List ReferralReward
  pub sent : List Grant

abbrev pub with_submission : RewardSubmission → View → View
with_submission row v = record v { submissions = v.submissions ++ row ∷ [] }

abbrev pub with_referral : Referral → View → View
with_referral row v = record v { referrals = v.referrals ++ row ∷ [] }

abbrev pub with_reward : ReferralReward → View → View
with_reward row v = record v { rewards = v.rewards ++ row ∷ [] }

abbrev pub with_grant : Grant → View → View
with_grant g v = record v { sent = v.sent ++ g ∷ [] }

pub record Laws (b : Backend) : Type 0 where
  pub view : b.World → View
  -- Queries.
  pub finds_submission :
      (p : RewardSubmission → Bool) (w : b.World)
      → view ((b.repositories.find_submission p w).1) ≡ view w
  pub found_submission :
      (p : RewardSubmission → Bool) (w w' : b.World) (found : Option RewardSubmission)
      → b.repositories.find_submission p w ≡ (ok found, w')
      → found ≡ find_first p ((view w).submissions)
  pub finds_referral :
      (p : Referral → Bool) (w : b.World) → view ((b.repositories.find_referral p w).1) ≡ view w
  pub found_referral :
      (p : Referral → Bool) (w w' : b.World) (found : Option Referral)
      → b.repositories.find_referral p w ≡ (ok found, w')
      → found ≡ find_first p ((view w).referrals)
  pub finds_reward :
      (p : ReferralReward → Bool) (w : b.World) → view ((b.repositories.find_reward p w).1) ≡ view w
  pub found_reward :
      (p : ReferralReward → Bool) (w w' : b.World) (found : Option ReferralReward)
      → b.repositories.find_reward p w ≡ (ok found, w')
      → found ≡ find_first p ((view w).rewards)
  pub counts_rewards :
      (p : ReferralReward → Bool) (w : b.World)
      → view ((b.repositories.count_rewards p w).1) ≡ view w
  pub counted_rewards :
      (p : ReferralReward → Bool) (w w' : b.World) (n : ℕ)
      → b.repositories.count_rewards p w ≡ (ok n, w')
      → n ≡ length (select p ((view w).rewards))
  -- Writes.
  pub inserts_referral :
      (row : Referral) (w : b.World)
      → let v = view ((b.repositories.insert_referral row w).1) in
        (v ≡ view w) ⊎ (v ≡ with_referral row (view w))
  pub inserted_referral :
      (row : Referral) (w w' : b.World)
      → b.repositories.insert_referral row w ≡ (ok tt, w')
      → view w' ≡ with_referral row (view w)
  pub inserts_reward :
      (row : ReferralReward) (w : b.World)
      → let v = view ((b.repositories.insert_reward row w).1) in
        (v ≡ view w) ⊎ (v ≡ with_reward row (view w))
  pub inserted_reward :
      (row : ReferralReward) (w w' : b.World)
      → b.repositories.insert_reward row w ≡ (ok tt, w')
      → view w' ≡ with_reward row (view w)
  pub inserts_submission :
      (row : RewardSubmission) (w : b.World)
      → let v = view ((b.repositories.insert_submission row w).1) in
        (v ≡ view w) ⊎ (v ≡ with_submission row (view w))
  pub inserted_submission :
      (row : RewardSubmission) (w w' : b.World)
      → b.repositories.insert_submission row w ≡ (ok tt, w')
      → view w' ≡ with_submission row (view w)
  pub updates_submission :
      (row : RewardSubmission) (w : b.World)
      → let v = view ((b.repositories.update_submission row w).1) in
        (v.referrals ≡ (view w).referrals)
        × (v.rewards ≡ (view w).rewards)
        × (v.sent ≡ (view w).sent)
  pub saves_progress :
      (row : ReferralProgress) (w : b.World)
      → view ((b.repositories.save_progress row w).1) ≡ view w
  -- X and the connection to the node.
  pub gets_tweet : (id : String) (w : b.World) → view ((b.get_tweet id w).1) ≡ view w
  pub gets_user : (name : String) (w : b.World) → view ((b.get_user name w).1) ≡ view w
  pub gets_user_tweets :
      (id : String) (token : Option String) (w : b.World)
      → view ((b.get_user_tweets id token w).1) ≡ view w
  pub disconnects : (w : b.World) → view ((b.chain.disconnect w).1) ≡ view w
  pub connects : (w : b.World) → view ((b.chain.connect w).1) ≡ view w
  pub calculates_gas : (g : Grant) (w : b.World) → view ((b.chain.calculate_gas g w).1) ≡ view w
  pub responds : (g : Grant) (ms : ℕ) (w : b.World) → view ((b.chain.response g ms w).1) ≡ view w
  -- The ledger.
  pub sends :
      (g : Grant) (w : b.World)
      → let v = view ((b.chain.sign_and_send g w).1) in (v ≡ view w) ⊎ (v ≡ with_grant g (view w))
  pub sent_ok :
      (g : Grant) (w w' : b.World) (hash : Option String)
      → b.chain.sign_and_send g w ≡ (ok hash, w')
      → view w' ≡ with_grant g (view w)
