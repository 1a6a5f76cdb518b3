-- ===== src/Oracle/Finalization.antt =====
-- oracle-server/src/finalization-utils.ts: which case a match is in that waits for its result, and
-- the actions that an operator is offered.
pub mod Laws
use smartcupleague.Prelude.{
  ℕ, String, Option, none, some, List, [], ◌∷◌, ◌==◌, nat_eq, if◌then◌else◌,
}

pub data BolaoStatus : Type 0 where
  unresolved proposed : BolaoStatus

-- The oracle's record of a match, when it has one.
pub data OracleStatus : Type 0 where
  pending finalized : OracleStatus

pub data CaseLabel : Type 0 where
  case_proposed case_1 case_2_or_3b case_3a : CaseLabel

unfoldable pub classify_match : BolaoStatus → Option OracleStatus → ℕ → CaseLabel
classify_match proposed o n = case_proposed
classify_match unresolved none n = case_1
classify_match unresolved (some pending) n = if n == 0 then case_1 else case_3a
classify_match unresolved (some finalized) n = case_2_or_3b

unfoldable pub available_actions_for : CaseLabel → List String
available_actions_for case_proposed = "finalize-result" ∷ "cancel-proposed-result" ∷ []
available_actions_for case_1 = "submit-result" ∷ "propose-from-oracle" ∷ []
available_actions_for case_2_or_3b = "propose-from-oracle" ∷ "propose-result" ∷ []
available_actions_for case_3a = "cancel-result" ∷ "submit-result" ∷ "propose-from-oracle" ∷ []
