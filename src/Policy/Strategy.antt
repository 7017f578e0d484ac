-- ===== src/Policy/Strategy.antt =====
-- `StrategyValidator` of backend/app/policy/evaluators/strategy_validator.py, and the registry of
-- backend/app/services/intelligence/strategy_catalog.py that it reads.
use revenue_rescue_ai.Common.{
  Bool, List, Option, String, Text, [], clean, contains, false, if◌then◌else◌, is_empty, not,
  one_of, true, ℕ, ◌&&◌, ◌∷◌,
}
use revenue_rescue_ai.Enums.{ActionType, RecoveryCaseState, RuleCheckStatus, recovery_case_state_eq}
use revenue_rescue_ai.Domain.{RuleCheckResult}
use revenue_rescue_ai.Policy.Eligibility.{terminal_states}
use revenue_rescue_ai.Policy.Models.{result}

pub data RecoveryStrategy : Type 0 where
  retry_later update_payment_method customer_reminder support_escalation manual_review no_action :
      RecoveryStrategy

-- The columns of `StrategyDefinition` that the code reads.
pub record StrategyDefinition : Type 0 where
  pub action_type : ActionType
  pub applicable_failure_categories : List String
  pub estimated_cost_minor : ℕ
  pub requires_policy_validation : Bool

-- `StrategyCatalog.get`
unfoldable pub get_strategy : RecoveryStrategy → StrategyDefinition
get_strategy RecoveryStrategy.retry_later = record {
  action_type = ActionType.retry_payment;
  applicable_failure_categories =
      "insufficient_funds" ∷ "processing_error" ∷ "provider_timeout" ∷ "network_error" ∷ [];
  estimated_cost_minor = 2;
  requires_policy_validation = true;
}
get_strategy RecoveryStrategy.update_payment_method = record {
  action_type = ActionType.send_reminder;
  applicable_failure_categories =
      "card_expired" ∷ "expired_card" ∷ "invalid_payment_details" ∷ "do_not_honor" ∷ [];
  estimated_cost_minor = 15;
  requires_policy_validation = true;
}
get_strategy RecoveryStrategy.customer_reminder = record {
  action_type = ActionType.send_reminder;
  applicable_failure_categories =
      "abandoned_checkout" ∷ "overdue_invoice" ∷ "authentication_required" ∷ [];
  estimated_cost_minor = 15;
  requires_policy_validation = true;
}
get_strategy RecoveryStrategy.support_escalation = record {
  action_type = ActionType.request_operator_review;
  applicable_failure_categories =
      "high_value_failure" ∷ "consecutive_declines" ∷ "vip_customer_failure" ∷ [];
  estimated_cost_minor = 250;
  requires_policy_validation = true;
}
get_strategy RecoveryStrategy.manual_review = record {
  action_type = ActionType.request_operator_review;
  applicable_failure_categories = "fraud_suspected" ∷ "risk_blocked" ∷ "unknown_failure" ∷ [];
  estimated_cost_minor = 250;
  requires_policy_validation = true;
}
get_strategy RecoveryStrategy.no_action = record {
  action_type = ActionType.stop;
  applicable_failure_categories =
      "case_already_resolved" ∷ "customer_restricted" ∷ "policy_blocked" ∷ [];
  estimated_cost_minor = 0;
  requires_policy_validation = false;
}

-- `StrategyCatalog.map_to_action`
unfoldable pub map_to_action : RecoveryStrategy → ActionType
unfolding get_strategy
map_to_action strategy = (get_strategy strategy).action_type

-- `StrategyCatalog.map_to_strategy`
unfoldable pub map_to_strategy : ActionType → RecoveryStrategy
map_to_strategy ActionType.retry_payment = RecoveryStrategy.retry_later
map_to_strategy ActionType.send_reminder = RecoveryStrategy.update_payment_method
map_to_strategy ActionType.request_operator_review = RecoveryStrategy.manual_review
map_to_strategy ActionType.stop = RecoveryStrategy.no_action
map_to_strategy ActionType.none = RecoveryStrategy.no_action

abbrev pub strategy_rule : String
strategy_rule = "strategy_policy_validation"

abbrev pub strategy_failed : String → RuleCheckResult
strategy_failed reason = result strategy_rule RuleCheckStatus.failed reason

abbrev pub strategy_valid : RuleCheckResult
strategy_valid = result strategy_rule RuleCheckStatus.passed "STRATEGY_VALID"

-- Step 5 for `RETRY_LATER`.
unfoldable pub evaluate_retry_later : Option Text → Bool → RuleCheckResult
unfolding get_strategy
evaluate_retry_later category is_retryable =
    let norm = clean category in
    if not (is_empty norm)
      && not (one_of (get_strategy RecoveryStrategy.retry_later).applicable_failure_categories norm)
      && not is_retryable
    then strategy_failed "STRATEGY_FAILURE_MISMATCH"
    else strategy_valid

-- Steps 3 to 5.
unfoldable pub evaluate_strategy_kind :
    RecoveryStrategy → Option Text → Bool → Bool → RuleCheckResult
unfolding evaluate_retry_later
evaluate_strategy_kind RecoveryStrategy.no_action category contact retryable = strategy_valid
evaluate_strategy_kind RecoveryStrategy.manual_review category contact retryable = strategy_valid
evaluate_strategy_kind RecoveryStrategy.update_payment_method category contact retryable =
    if not contact
    then strategy_failed "STRATEGY_PREREQUISITE_MISSING"
    else if one_of ("provider_timeout" ∷ "network_error" ∷ []) (clean category)
    then strategy_failed "STRATEGY_FAILURE_MISMATCH"
    else strategy_valid
evaluate_strategy_kind RecoveryStrategy.customer_reminder category contact retryable =
    if not contact then strategy_failed "STRATEGY_PREREQUISITE_MISSING" else strategy_valid
evaluate_strategy_kind RecoveryStrategy.retry_later category contact retryable =
    evaluate_retry_later category retryable
evaluate_strategy_kind RecoveryStrategy.support_escalation category contact retryable =
    strategy_valid

abbrev is_no_action : RecoveryStrategy → Bool
is_no_action RecoveryStrategy.no_action = true
is_no_action _ = false

-- `StrategyValidator.evaluate` for a strategy, from step 2 on.
unfoldable pub evaluate_resolved :
    RecoveryStrategy → Option Text → RecoveryCaseState → Bool → Bool → RuleCheckResult
unfolding evaluate_strategy_kind
evaluate_resolved strategy category state contact retryable =
    if contains terminal_states state && not (is_no_action strategy)
    then strategy_failed "STRATEGY_CASE_STATE_MISMATCH"
    else evaluate_strategy_kind strategy category contact retryable

-- `StrategyValidator.evaluate` for an action. No value of `ActionType`, in upper case, is the value
-- of a strategy, so step 1 goes to `map_to_strategy`.
unfoldable pub evaluate_strategy :
    ActionType → Option Text → RecoveryCaseState → Bool → Bool → RuleCheckResult
unfolding evaluate_resolved map_to_strategy
evaluate_strategy action category state contact retryable =
    evaluate_resolved (map_to_strategy action) category state contact retryable
