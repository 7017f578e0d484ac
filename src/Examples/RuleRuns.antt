-- ===== src/Examples/RuleRuns.antt =====
-- Runs of the policy rules.
use revenue_rescue_ai.Common.{[], clean, codes, lower, none, one_of, refl, strip, upper, ◌∷◌}
use revenue_rescue_ai.Enums.{ActionType, ConsentType}
use revenue_rescue_ai.Examples.Rows.{new_consent, noon, old_consent}
use revenue_rescue_ai.Policy.Aggregate.{
  aggregate_decision, determine_fsm_transition, has_terminal_reason,
}
use revenue_rescue_ai.Policy.Config.{
  can_retry, get_high_value_threshold, get_threshold, is_cooldown_elapsed, is_high_value,
}
use revenue_rescue_ai.Policy.Consent.{
  check_candidate, check_candidates, determine_required_consent, evaluate_consent,
  evaluate_required, evaluate_typed, insert_granted, sort_granted,
}
use revenue_rescue_ai.Policy.Consent.Latest.{PassedBy, evaluate_consent-passed, scoped}
use revenue_rescue_ai.Policy.Eligibility.{evaluate_eligibility, evaluate_loaded, evaluate_state}
use revenue_rescue_ai.Policy.Escalation.{
  evaluate_confidence, evaluate_escalation, is_fraud_category, is_unknown_category,
}
use revenue_rescue_ai.Policy.Inputs.{
  amount_of, consent_result, currency_of, eligibility_result, escalation_result, failure_category,
  failure_code_of, has_contact_info, merchant_of, retries_spent, retry_result, run_evaluators,
  strategy_result,
}
use revenue_rescue_ai.Policy.Models.{
  CustomerConsentRecord, from_domain, get_validity_reason, has_come, is_valid,
  map_policy_to_validation_status, status_reason,
}
use revenue_rescue_ai.Policy.RetryLimit.{
  consumed_attempts, evaluate_quota, evaluate_retry, has_key, has_status, in_cooldown,
  is_non_retryable, latest_attempt,
}
use revenue_rescue_ai.Policy.Service.{
  build_synthetic_result, cached_under, evaluate, evaluate_fresh, evaluate_loaded_case,
  evaluate_with, find_cached, move_case, persist_decision, record_transition, to_evaluation_result,
}
use revenue_rescue_ai.Policy.Strategy.{
  evaluate_resolved, evaluate_retry_later, evaluate_strategy, evaluate_strategy_kind, get_strategy,
  map_to_action, map_to_strategy,
}
use revenue_rescue_ai.Store.{
  attempts_of, consents_of, find_case, find_customer, find_decision, find_policy_decision,
  find_transaction, next_audit_sequence, next_transition_sequence, put_case, put_decision,
  record_audit,
}

evaluate_consent-passed_example :
    (c : CustomerConsentRecord) × PassedBy c
      (scoped 1 ConsentType.recurring_billing none
        (from_domain old_consent ∷ from_domain new_consent ∷ []))
      noon
unfolding evaluate_consent determine_required_consent from_domain evaluate_required clean one_of
    evaluate evaluate_typed lower strip codes evaluate_with find_cached check_candidates
    sort_granted upper evaluate_fresh find_case find_decision to_evaluation_result cached_under
    check_candidate insert_granted build_synthetic_result evaluate_loaded_case find_policy_decision
    has_come status_reason aggregate_decision persist_decision run_evaluators is_valid
    get_validity_reason determine_fsm_transition map_policy_to_validation_status move_case put_case
    put_decision record_audit record_transition consent_result eligibility_result escalation_result
    retry_result strategy_result has_terminal_reason next_audit_sequence next_transition_sequence
    consents_of find_customer merchant_of evaluate_eligibility amount_of attempts_of currency_of
    evaluate_escalation failure_category find_transaction has_status retries_spent evaluate_retry
    evaluate_strategy has_contact_info evaluate_loaded evaluate_confidence is_fraud_category
    is_high_value is_unknown_category failure_code_of can_retry consumed_attempts evaluate_quota
    has_key is_non_retryable evaluate_resolved map_to_strategy evaluate_state
    get_high_value_threshold in_cooldown evaluate_strategy_kind get_threshold is_cooldown_elapsed
    latest_attempt evaluate_retry_later get_strategy map_to_action
evaluate_consent-passed_example =
    evaluate_consent-passed ActionType.retry_payment 1
      (from_domain old_consent ∷ from_domain new_consent ∷ []) none none noon
      ConsentType.recurring_billing refl refl
