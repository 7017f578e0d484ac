-- ===== src/Policy/Eligibility/Passed.antt =====
-- What a passed eligibility check means, and how a terminal case fails it.
use revenue_rescue_ai.Common.{Option, arith, contains, false, some, true, ℕ, ◌+◌, ◌≡◌, ◌≢◌, ◌≤◌}
use revenue_rescue_ai.Enums.{DecisionValidationStatus, recovery_case_state_eq}
use revenue_rescue_ai.Domain.{AgentDecision, RecoveryCase}
use revenue_rescue_ai.Policy.Eligibility.{
  actionable_states, differs, evaluate_eligibility, terminal_states,
}
use revenue_rescue_ai.Policy.Models.{is_failed, is_passed}

-- A passed check means that the recommendation is that of the case and is neither refused nor
-- outdated, that the case is that of the customer and of the transaction asked for, and that the
-- state of the case is actionable.
pub evaluate_eligibility-passed :
    (case : RecoveryCase) (recommendation : AgentDecision) (customer transaction : Option ℕ)
    → is_passed (evaluate_eligibility (some case) (some recommendation) customer transaction) ≡ true
    → (recommendation.case_id ≡ case.id)
      × (differs customer case.customer_id ≡ false)
      × (differs transaction case.trigger_transaction_id ≡ false)
      × (recommendation.validation_status ≢ DecisionValidationStatus.rejected_by_policy)
      × (recommendation.validation_status ≢ DecisionValidationStatus.invalid)
      × (case.version ≤ recommendation.decision_version + 2)
      × (contains actionable_states case.state ≡ true)
unfolding evaluate_eligibility
evaluate_eligibility-passed case recommendation customer transaction h = ground arith

-- A case in a terminal state fails the check, whatever else holds of it.
pub evaluate_eligibility-terminal :
    (case : RecoveryCase) (recommendation : AgentDecision) (customer transaction : Option ℕ)
    → contains terminal_states case.state ≡ true
    → is_failed (evaluate_eligibility (some case) (some recommendation) customer transaction) ≡ true
unfolding evaluate_eligibility
evaluate_eligibility-terminal case recommendation customer transaction h = ground arith
