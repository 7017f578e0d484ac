-- ===== src/Policy/Eligibility.antt =====
-- `EligibilityEvaluator` of backend/app/policy/evaluators/eligibility_evaluator.py.
pub mod Passed
use revenue_rescue_ai.Common.{
  Bool, List, Option, String, [], contains, false, if◌then◌else◌, ltb, nat_eq, none, not, some, ℕ,
  ◌+◌, ◌==◌, ◌∷◌,
}
use revenue_rescue_ai.Enums.{
  DecisionValidationStatus, RecoveryCaseState, RuleCheckStatus, decision_validation_status_eq,
  recovery_case_state_eq,
}
use revenue_rescue_ai.Domain.{AgentDecision, RecoveryCase, RuleCheckResult}
use revenue_rescue_ai.Policy.Models.{result}

abbrev pub eligibility_rule : String
eligibility_rule = "case_eligibility_evaluation"

abbrev pub terminal_states : List RecoveryCaseState
terminal_states =
    RecoveryCaseState.recovered ∷ RecoveryCaseState.closed ∷ RecoveryCaseState.stopped ∷ []

abbrev pub actionable_states : List RecoveryCaseState
actionable_states =
    RecoveryCaseState.awaiting_decision ∷ RecoveryCaseState.retry_eligible
    ∷ RecoveryCaseState.detected ∷ []

abbrev pub active_workflow_states : List RecoveryCaseState
active_workflow_states =
    RecoveryCaseState.action_pending ∷ RecoveryCaseState.verification_pending ∷ []

-- `expected is not None and actual != expected`
abbrev pub differs : Option ℕ → ℕ → Bool
differs none actual = false
differs (some expected) actual = not (actual == expected)

-- Steps 6 to 8, on the state of the case.
unfoldable pub evaluate_state : RecoveryCaseState → RuleCheckResult
evaluate_state state =
    if state == RecoveryCaseState.recovered
    then result eligibility_rule RuleCheckStatus.failed "CASE_ALREADY_RECOVERED"
    else if state == RecoveryCaseState.closed
    then result eligibility_rule RuleCheckStatus.failed "CASE_CLOSED"
    else if state == RecoveryCaseState.stopped
    then result eligibility_rule RuleCheckStatus.failed "CASE_CANCELLED"
    else if contains active_workflow_states state
    then result eligibility_rule RuleCheckStatus.failed "WORKFLOW_ALREADY_ACTIVE"
    else if not (contains actionable_states state)
    then result eligibility_rule RuleCheckStatus.failed "CASE_NOT_ACTIONABLE"
    else result eligibility_rule RuleCheckStatus.passed "ELIGIBILITY_PASSED"

-- `recommendation.decision_version < case.version - 2`, over Python's signed integers
abbrev pub is_outdated : AgentDecision → RecoveryCase → Bool
is_outdated recommendation case = ltb (recommendation.decision_version + 2) case.version

-- Steps 3 to 8, on a case and a recommendation that are there.
unfoldable pub evaluate_loaded :
    RecoveryCase → AgentDecision → Option ℕ → Option ℕ → RuleCheckResult
unfolding evaluate_state
evaluate_loaded case recommendation customer transaction =
    if differs customer case.customer_id
    then result eligibility_rule RuleCheckStatus.failed "CUSTOMER_MISMATCH"
    else if differs transaction case.trigger_transaction_id
    then result eligibility_rule RuleCheckStatus.failed "TRANSACTION_MISMATCH"
    else if not (recommendation.case_id == case.id)
    then result eligibility_rule RuleCheckStatus.failed "RECOMMENDATION_MISMATCH"
    else if contains
        (DecisionValidationStatus.invalid ∷ DecisionValidationStatus.rejected_by_policy ∷ [])
        recommendation.validation_status
    then result eligibility_rule RuleCheckStatus.failed "RECOMMENDATION_STALE"
    else if is_outdated recommendation case
    then result eligibility_rule RuleCheckStatus.failed "RECOMMENDATION_STALE"
    else evaluate_state case.state

-- `EligibilityEvaluator.evaluate`
unfoldable pub evaluate_eligibility :
    Option RecoveryCase → Option AgentDecision → Option ℕ → Option ℕ → RuleCheckResult
unfolding evaluate_loaded
evaluate_eligibility none recommendation customer transaction =
    result eligibility_rule RuleCheckStatus.missing_info "CASE_NOT_FOUND"
evaluate_eligibility (some case) none customer transaction =
    result eligibility_rule RuleCheckStatus.missing_info "RECOMMENDATION_MISSING"
evaluate_eligibility (some case) (some recommendation) customer transaction =
    evaluate_loaded case recommendation customer transaction
