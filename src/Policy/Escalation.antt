-- ===== src/Policy/Escalation.antt =====
-- `EscalationEvaluator` of backend/app/policy/evaluators/escalation_evaluator.py.
pub mod Passed
use revenue_rescue_ai.Common.{
  Bool, List, Option, String, Text, [], clean, if◌then◌else◌, is_empty, ltb, none, one_of, some, ℕ,
  ◌||◌, ◌∷◌,
}
use revenue_rescue_ai.Enums.{RuleCheckStatus}
use revenue_rescue_ai.Domain.{RuleCheckResult}
use revenue_rescue_ai.Policy.Config.{PolicyConfig, is_high_value}
use revenue_rescue_ai.Policy.Models.{result}

abbrev pub escalation_rule : String
escalation_rule = "escalation_policy_evaluation"

abbrev pub fraud_categories : List String
fraud_categories =
    "fraud_suspected" ∷ "stolen_card" ∷ "lost_card" ∷ "pickup_card" ∷ "restricted_card"
    ∷ "security_violation" ∷ []

-- The flags that `evaluate` takes.
pub record EscalationFlags : Type 0 where
  pub prior_retries_exhausted : Bool
  pub fraud_suspected : Bool
  pub has_conflicting_events : Bool
  pub has_uncertain_outcome : Bool

-- 0.60, the default of `min_confidence_threshold`, in ten-thousandths
abbrev pub default_confidence_threshold : ℕ
default_confidence_threshold = 6000

-- Step 7.
unfoldable pub evaluate_confidence : Option ℕ → ℕ → RuleCheckResult
evaluate_confidence none threshold =
    result escalation_rule RuleCheckStatus.missing_info "AI_CONFIDENCE_MISSING"
evaluate_confidence (some confidence) threshold =
    if ltb confidence threshold
    then result escalation_rule RuleCheckStatus.needs_review "LOW_AI_CONFIDENCE"
    else result escalation_rule RuleCheckStatus.passed "NO_ESCALATION_REQUIRED"

-- `not norm_cat or norm_cat in {"unknown", "unknown_failure"}`
unfoldable pub is_unknown_category : Option Text → Bool
is_unknown_category category =
    is_empty (clean category) || one_of ("unknown" ∷ "unknown_failure" ∷ []) (clean category)

unfoldable pub is_fraud_category : Option Text → Bool
is_fraud_category category = one_of fraud_categories (clean category)

-- `EscalationEvaluator.evaluate`
unfoldable pub evaluate_escalation :
    ℕ → Text → PolicyConfig → Option ℕ → Option Text → EscalationFlags → ℕ → RuleCheckResult
unfolding evaluate_confidence
evaluate_escalation amount_minor currency config confidence category flags threshold =
    if flags.fraud_suspected || is_fraud_category category
    then result escalation_rule RuleCheckStatus.needs_review "FRAUD_RESTRICTION"
    else if is_high_value config amount_minor currency
    then result escalation_rule RuleCheckStatus.needs_review "HIGH_VALUE_REVIEW_REQUIRED"
    else if flags.prior_retries_exhausted
    then result escalation_rule RuleCheckStatus.needs_review "RETRY_EXHAUSTED"
    else if flags.has_conflicting_events
    then result escalation_rule RuleCheckStatus.needs_review "PAYMENT_EVENT_CONFLICT"
    else if flags.has_uncertain_outcome
    then result escalation_rule RuleCheckStatus.needs_review "PAYMENT_OUTCOME_UNCERTAIN"
    else if is_unknown_category category
    then result escalation_rule RuleCheckStatus.needs_review "UNKNOWN_FAILURE_CATEGORY"
    else evaluate_confidence confidence threshold
