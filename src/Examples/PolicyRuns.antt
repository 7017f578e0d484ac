-- ===== src/Examples/PolicyRuns.antt =====
-- Runs of `PolicyEngineService.evaluate`.
use revenue_rescue_ai.Common.{clean, codes, lower, one_of, refl, some, strip, upper, ◌+◌, ◌≡◌}
use revenue_rescue_ai.Enums.{PolicyDecisionStatus, RecoveryCaseState}
use revenue_rescue_ai.Domain.{RecoveryCase}
use revenue_rescue_ai.Examples.Rows.{advice, case_in, fresh_at, noon, retry_request, store_in}
use revenue_rescue_ai.Policy.Aggregate.{
  aggregate_decision, determine_fsm_transition, has_terminal_reason,
}
use revenue_rescue_ai.Policy.Config.{
  can_retry, default_config, get_high_value_threshold, get_threshold, is_cooldown_elapsed,
  is_high_value,
}
use revenue_rescue_ai.Policy.Consent.{
  check_candidate, check_candidates, determine_required_consent, evaluate_consent,
  evaluate_required, evaluate_typed, insert_granted, sort_granted,
}
use revenue_rescue_ai.Policy.Eligibility.{evaluate_eligibility, evaluate_loaded, evaluate_state}
use revenue_rescue_ai.Policy.Escalation.{
  evaluate_confidence, evaluate_escalation, is_fraud_category, is_unknown_category,
}
use revenue_rescue_ai.Policy.Inputs.{
  amount_of, consent_result, currency_of, eligibility_result, escalation_result, failure_category,
  failure_code_of, has_contact_info, merchant_of, retries_spent, retry_result, run_evaluators,
  strategy_result,
}
use revenue_rescue_ai.Policy.Models.{
  from_domain, get_validity_reason, has_come, is_valid, map_policy_to_validation_status,
  status_reason,
}
use revenue_rescue_ai.Policy.RetryLimit.{
  consumed_attempts, evaluate_quota, evaluate_retry, has_key, has_status, in_cooldown,
  is_non_retryable, latest_attempt,
}
use revenue_rescue_ai.Policy.Service.{
  build_synthetic_result, cached_under, evaluate, evaluate_fresh, evaluate_loaded_case,
  evaluate_with, find_cached, move_case, persist_decision, record_transition, to_evaluation_result,
}
use revenue_rescue_ai.Policy.Service.Authorises.{
  Authorised, RetryAuthorised, evaluate-Authorised, evaluate-RetryAuthorised,
}
use revenue_rescue_ai.Policy.Service.Effects.{
  KeepsHistory, SameElsewhere, evaluate-KeepsHistory, evaluate-SameElsewhere, evaluate-terminal,
}
use revenue_rescue_ai.Policy.Service.Idempotent.{evaluate_again, marked}
use revenue_rescue_ai.Policy.Strategy.{
  evaluate_resolved, evaluate_retry_later, evaluate_strategy, evaluate_strategy_kind, get_strategy,
  map_to_action, map_to_strategy,
}
use revenue_rescue_ai.Store.{
  attempts_of, consents_of, find_case, find_customer, find_decision, find_policy_decision,
  find_transaction, next_audit_sequence, next_transition_sequence, put_case, put_decision,
  record_audit,
}

-- A retry of a small payment under a valid consent is approved.
approves_retry :
    (evaluate default_config
      (fresh_at noon)
      retry_request
      (store_in RecoveryCaseState.awaiting_decision)).0.decision_status
    ≡ PolicyDecisionStatus.approved
unfolding evaluate evaluate_with find_cached evaluate_fresh find_case find_decision
    to_evaluation_result cached_under build_synthetic_result evaluate_loaded_case
    find_policy_decision aggregate_decision persist_decision run_evaluators determine_fsm_transition
    map_policy_to_validation_status move_case put_case put_decision record_audit record_transition
    consent_result eligibility_result escalation_result retry_result strategy_result
    has_terminal_reason next_audit_sequence codes next_transition_sequence consents_of
    evaluate_consent find_customer from_domain merchant_of evaluate_eligibility amount_of
    attempts_of currency_of evaluate_escalation failure_category find_transaction has_status
    retries_spent evaluate_retry evaluate_strategy has_contact_info determine_required_consent
    evaluate_required evaluate_loaded evaluate_confidence is_fraud_category is_high_value
    is_unknown_category failure_code_of can_retry consumed_attempts evaluate_quota has_key
    is_non_retryable evaluate_resolved map_to_strategy clean one_of evaluate_typed evaluate_state
    get_high_value_threshold in_cooldown lower strip evaluate_strategy_kind upper check_candidates
    sort_granted get_threshold is_cooldown_elapsed latest_attempt evaluate_retry_later
    check_candidate insert_granted get_strategy has_come status_reason map_to_action is_valid
    get_validity_reason
approves_retry = refl

evaluate-RetryAuthorised_example :
    RetryAuthorised default_config noon
      (case_in RecoveryCaseState.awaiting_decision)
      (store_in RecoveryCaseState.awaiting_decision)
unfolding find_cached find_case find_decision cached_under find_policy_decision
evaluate-RetryAuthorised_example =
    evaluate-RetryAuthorised default_config (fresh_at noon) retry_request
      (store_in RecoveryCaseState.awaiting_decision) (case_in RecoveryCaseState.awaiting_decision)
      advice refl refl refl refl approves_retry

evaluate-Authorised_example :
    Authorised default_config
      (case_in RecoveryCaseState.awaiting_decision)
      advice
      (store_in RecoveryCaseState.awaiting_decision)
unfolding find_cached find_case find_decision cached_under find_policy_decision
evaluate-Authorised_example =
    evaluate-Authorised default_config (fresh_at noon) retry_request
      (store_in RecoveryCaseState.awaiting_decision) (case_in RecoveryCaseState.awaiting_decision)
      advice refl refl refl approves_retry

-- The same request nine microseconds later, under other limits.
evaluate_again_example :
    evaluate
      (record default_config { max_retry_attempts = 0 })
      (fresh_at (noon + 9))
      retry_request
      (evaluate default_config
        (fresh_at noon)
        retry_request
        (store_in RecoveryCaseState.awaiting_decision)).1
    ≡ (
      marked
          (evaluate default_config
            (fresh_at noon)
            retry_request
            (store_in RecoveryCaseState.awaiting_decision)).0,
      (evaluate default_config
          (fresh_at noon)
          retry_request
          (store_in RecoveryCaseState.awaiting_decision)).1,
    )
unfolding find_cached find_case find_decision cached_under find_policy_decision
evaluate_again_example =
    evaluate_again default_config (record default_config { max_retry_attempts = 0 }) (fresh_at noon)
      (fresh_at (noon + 9)) retry_request (store_in RecoveryCaseState.awaiting_decision)
      (case_in RecoveryCaseState.awaiting_decision) advice "key-1" refl refl refl refl refl

evaluate-terminal_example :
    ((evaluate default_config
        (fresh_at noon)
        retry_request
        (store_in RecoveryCaseState.stopped)).0.decision_status
      ≡ PolicyDecisionStatus.rejected)
    × (find_case 30
          (evaluate default_config
            (fresh_at noon)
            retry_request
            (store_in RecoveryCaseState.stopped)).1
        ≡ some (case_in RecoveryCaseState.stopped))
unfolding find_cached find_case find_decision cached_under find_policy_decision
evaluate-terminal_example =
    evaluate-terminal default_config (fresh_at noon) retry_request
      (store_in RecoveryCaseState.stopped) (case_in RecoveryCaseState.stopped) advice refl refl refl
      refl

evaluate-KeepsHistory_example :
    (case' : RecoveryCase) × (find_case 30
        (evaluate default_config
          (fresh_at noon)
          retry_request
          (store_in RecoveryCaseState.awaiting_decision)).1
      ≡ some case')
    × KeepsHistory
        (case_in RecoveryCaseState.awaiting_decision)
        case'
        (store_in RecoveryCaseState.awaiting_decision).transitions
        (evaluate default_config
          (fresh_at noon)
          retry_request
          (store_in RecoveryCaseState.awaiting_decision)).1.transitions
unfolding find_cached find_case find_decision cached_under find_policy_decision
evaluate-KeepsHistory_example =
    evaluate-KeepsHistory default_config (fresh_at noon) retry_request
      (store_in RecoveryCaseState.awaiting_decision) (case_in RecoveryCaseState.awaiting_decision)
      advice refl refl refl

evaluate-SameElsewhere_example :
    SameElsewhere
      (store_in RecoveryCaseState.awaiting_decision)
      (evaluate default_config
        (fresh_at noon)
        retry_request
        (store_in RecoveryCaseState.awaiting_decision)).1
evaluate-SameElsewhere_example =
    evaluate-SameElsewhere default_config (fresh_at noon) retry_request
      (store_in RecoveryCaseState.awaiting_decision)
