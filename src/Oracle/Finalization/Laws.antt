-- ===== src/Oracle/Finalization/Laws.antt =====
-- Which action is offered when.
use smartcupleague.Prelude.{ℕ, ◌<◌, ◌≡◌, ◌↔◌, Option, some, true, arith, includes, string_eq}
use smartcupleague.Oracle.Finalization.{
  BolaoStatus, unresolved, proposed, OracleStatus, pending, classify_match, available_actions_for,
}

-- The actions on the contract's proposal are offered exactly while the contract has one, and a
-- proposal from the oracle exactly while it has none; the oracle's submissions can be cancelled
-- exactly while the contract has no proposal and the oracle's record is pending with at least one.
pub actions-classify :
    (b : BolaoStatus) (o : Option OracleStatus) (n : ℕ)
    → let actions = available_actions_for (classify_match b o n) in
      ((includes "finalize-result" actions ≡ true) ↔ (b ≡ proposed))
      × ((includes "cancel-proposed-result" actions ≡ true) ↔ (b ≡ proposed))
      × ((includes "propose-from-oracle" actions ≡ true) ↔ (b ≡ unresolved))
      × ((includes "cancel-result" actions ≡ true)
          ↔ ((b ≡ unresolved) × (o ≡ some pending) × (0 < n)))
unfolding classify_match available_actions_for
actions-classify b o n = ground arith
