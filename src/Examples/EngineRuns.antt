-- ===== src/Examples/EngineRuns.antt =====
-- Runs of the prioritizer and of the event engine.
use revenue_rescue_ai.Common.{
  [], arith, clean, codes, given, lower, map, none, one_of, refl, some, strip, upper, ℕ, ◌++◌, ◌+◌,
  ◌∷◌, ◌≡◌, ◌≤◌,
}
use revenue_rescue_ai.Enums.{RecoveryCaseState, TransactionStatus}
use revenue_rescue_ai.Cases.Priority.{
  adjust_age, adjust_exposure, adjust_failure, calculate_priority, priority_score,
}
use revenue_rescue_ai.Cases.Priority.Ordered.{priority-urgency}
use revenue_rescue_ai.Cases.Risk.{
  classify_risk, event_type_score, exposure_score, failure_code_score, is_fraud_code, risk_score,
  tier_of, tier_score,
}
use revenue_rescue_ai.Domain.{CaseStateTransition, RecoveryCase, Transaction}
use revenue_rescue_ai.Events.Canonical.{CanonicalEventDto}
use revenue_rescue_ai.Events.Engine.{
  create_new_case, find_existing_case, new_case, process_eligible, process_event, write_new_case,
}
use revenue_rescue_ai.Events.Engine.Once.{Deliveries, Deliveries-once, opened}
use revenue_rescue_ai.Events.Engine.Settled.{
  late_failure-opens, process_event-resolves, process_event-terminal,
}
use revenue_rescue_ai.Events.Engine.Steps.{Respects}
use revenue_rescue_ai.Events.Engine.Unique.{IsKeyed}
use revenue_rescue_ai.Events.Handlers.{
  handle_existing_case_update, handle_payment_succeeded, write_failed_again, write_recovered,
}
use revenue_rescue_ai.Events.Keys.{
  EngineCall, ProcessingResult, creation_eligible_events, derive_case_key, event_type_of,
  is_creation_eligible, is_resolution_eligible, resolution_events, terminal_case_states,
}
use revenue_rescue_ai.Events.Provision.{
  get_or_create_customer, get_or_create_transaction, transaction_ref,
}
use revenue_rescue_ai.Examples.Rows.{asha, case_in, failed_payment, noon, store_in}
use revenue_rescue_ai.Policy.Aggregate.{
  aggregate_decision, determine_fsm_transition, has_terminal_reason,
}
use revenue_rescue_ai.Policy.Config.{
  can_retry, get_high_value_threshold, get_threshold, is_cooldown_elapsed, is_high_value,
}
use revenue_rescue_ai.Policy.Consent.{
  check_candidate, check_candidates, determine_required_consent, evaluate_consent,
  evaluate_required, evaluate_typed, insert_granted, sort_granted,
}
use revenue_rescue_ai.Policy.Eligibility.{evaluate_eligibility, evaluate_loaded, evaluate_state}
use revenue_rescue_ai.Policy.Escalation.{
  evaluate_confidence, evaluate_escalation, is_fraud_category, is_unknown_category,
}
use revenue_rescue_ai.Policy.Inputs.{
  amount_of, consent_result, currency_of, eligibility_result, escalation_result, failure_category,
  failure_code_of, has_contact_info, merchant_of, retries_spent, retry_result, run_evaluators,
  strategy_result,
}
use revenue_rescue_ai.Policy.Models.{
  from_domain, get_validity_reason, has_come, is_valid, map_policy_to_validation_status,
  status_reason,
}
use revenue_rescue_ai.Policy.RetryLimit.{
  consumed_attempts, evaluate_quota, evaluate_retry, has_key, has_status, in_cooldown,
  is_non_retryable, latest_attempt,
}
use revenue_rescue_ai.Policy.Service.{
  build_synthetic_result, cached_under, evaluate, evaluate_fresh, evaluate_loaded_case,
  evaluate_with, find_cached, move_case, persist_decision, record_transition, to_evaluation_result,
}
use revenue_rescue_ai.Policy.Strategy.{
  evaluate_resolved, evaluate_retry_later, evaluate_strategy, evaluate_strategy_kind, get_strategy,
  map_to_action, map_to_strategy,
}
use revenue_rescue_ai.Store.{
  Store, attempts_of, consents_of, find_by_case_key, find_by_trigger_transaction_id, find_case,
  find_customer, find_customer_by_external_id, find_decision, find_policy_decision,
  find_transaction, find_transaction_by_external_id, next_audit_sequence, next_transition_sequence,
  put_case, put_decision, put_transaction, record_audit,
}

abbrev failure : CanonicalEventDto
failure = record {
  external_event_id = "evt-7";
  event_type = codes " payment_failed";
  provider = "stripe";
  occurred_at = 500;
  customer_reference = "cus-1";
  payment_reference = some "pay-1";
  subscription_reference = none;
  invoice_reference = some "";
  checkout_session_id = none;
  amount_minor = 49_900;
  currency = codes "INR";
  failure_code = some (codes "insufficient_funds");
  metadata = record {
    billing_period = none;
    customer_email = none;
    email = none;
    merchant_id = none;
    customer_tier = none;
    checkout_id = none;
    invoice_id = none;
  };
}

abbrev success : CanonicalEventDto
success = record failure { event_type = codes "PAYMENT_SUCCEEDED"; failure_code = none }

abbrev call_with : ℕ → EngineCall
call_with case_id = record {
  now = noon;
  customer_id = 2;
  transaction_id = 21;
  case_id = case_id;
  correlation_id = "corr_1";
  month_of = λ t. "197001";
  others = λ s. s;
}

abbrev alone : (case_id : ℕ) → Respects (call_with case_id)
alone case_id = (λ t k. k, λ t f. f, λ key t h. h)

-- The customer is known, and there is no case.
abbrev empty_store : Store
empty_store = record (store_in RecoveryCaseState.detected) { cases = [] }

abbrev opened_store : Store
unfolding process_event is_creation_eligible is_resolution_eligible process_eligible codes
    creation_eligible_events event_type_of one_of derive_case_key resolution_events create_new_case
    find_existing_case get_or_create_customer get_or_create_transaction handle_existing_case_update
    handle_payment_succeeded aggregate_decision run_evaluators strip upper given calculate_priority
    classify_risk find_by_case_key write_new_case find_by_trigger_transaction_id
    find_customer_by_external_id find_transaction_by_external_id transaction_ref find_transaction
    terminal_case_states write_failed_again write_recovered consent_result eligibility_result
    escalation_result retry_result strategy_result priority_score clean is_fraud_code risk_score
    tier_of record_audit put_case put_transaction consents_of evaluate_consent find_customer
    from_domain merchant_of opened evaluate_eligibility amount_of attempts_of currency_of
    evaluate_escalation failure_category has_status retries_spent evaluate_retry evaluate_strategy
    has_contact_info lower adjust_age adjust_exposure adjust_failure event_type_score exposure_score
    failure_code_score tier_score next_audit_sequence next_transition_sequence
    determine_required_consent evaluate_required evaluate_loaded evaluate_confidence
    is_fraud_category is_high_value is_unknown_category failure_code_of can_retry consumed_attempts
    evaluate_quota has_key is_non_retryable evaluate_resolved map_to_strategy evaluate
    evaluate_typed evaluate_state get_high_value_threshold in_cooldown evaluate_strategy_kind
    evaluate_with find_cached check_candidates sort_granted get_threshold is_cooldown_elapsed
    latest_attempt evaluate_retry_later evaluate_fresh find_case find_decision to_evaluation_result
    cached_under check_candidate insert_granted get_strategy build_synthetic_result
    evaluate_loaded_case find_policy_decision has_come status_reason map_to_action persist_decision
    is_valid get_validity_reason determine_fsm_transition map_policy_to_validation_status move_case
    put_decision record_transition has_terminal_reason
opened_store = (process_event (call_with 31) failure empty_store).1

priority-urgency_example :
    calculate_priority 500_000 none (some 0) noon ≤ calculate_priority 4_999 none (some 0) 7
unfolding calculate_priority priority_score adjust_age adjust_exposure adjust_failure clean codes
    one_of lower strip upper
priority-urgency_example =
    priority-urgency 4_999 500_000 none (some 0) 7 noon (omega arith) (omega arith)

most_urgent : calculate_priority 500_000 (some (codes " Timeout")) (some 0) noon ≡ 5
unfolding calculate_priority priority_score adjust_age adjust_exposure adjust_failure clean codes
    one_of lower strip upper
most_urgent = refl

-- Another worker has made the new case the most urgent one.
abbrev urgent_store : Store
urgent_store = record opened_store {
  cases = map {A = RecoveryCase} (λ c. record c { priority = 1 }) opened_store.cases;
}

-- The second delivery of a failure, with the same key, updates the case of the first.
Deliveries-once_example :
    IsKeyed (process_event (call_with 32) failure urgent_store).1.cases
    × (opened "CASE-TX-stripe-pay-1" (call_with 31) failure empty_store
          + (opened "CASE-TX-stripe-pay-1" (call_with 32) failure urgent_store + 0)
        ≤ 1)
unfolding process_event opened is_creation_eligible is_resolution_eligible process_eligible
    derive_case_key codes creation_eligible_events event_type_of one_of resolution_events
    create_new_case find_existing_case get_or_create_customer get_or_create_transaction
    handle_existing_case_update handle_payment_succeeded given aggregate_decision run_evaluators
    strip upper calculate_priority classify_risk find_by_case_key write_new_case
    find_by_trigger_transaction_id find_customer_by_external_id find_transaction_by_external_id
    transaction_ref find_transaction terminal_case_states write_failed_again write_recovered
    consent_result eligibility_result escalation_result retry_result strategy_result priority_score
    clean is_fraud_code risk_score tier_of record_audit put_case put_transaction consents_of
    evaluate_consent find_customer from_domain merchant_of evaluate_eligibility amount_of
    attempts_of currency_of evaluate_escalation failure_category has_status retries_spent
    evaluate_retry evaluate_strategy has_contact_info lower adjust_age adjust_exposure
    adjust_failure event_type_score exposure_score failure_code_score tier_score next_audit_sequence
    next_transition_sequence determine_required_consent evaluate_required evaluate_loaded
    evaluate_confidence is_fraud_category is_high_value is_unknown_category failure_code_of
    can_retry consumed_attempts evaluate_quota has_key is_non_retryable evaluate_resolved
    map_to_strategy evaluate evaluate_typed evaluate_state get_high_value_threshold in_cooldown
    evaluate_strategy_kind evaluate_with find_cached check_candidates sort_granted get_threshold
    is_cooldown_elapsed latest_attempt evaluate_retry_later evaluate_fresh find_case find_decision
    to_evaluation_result cached_under check_candidate insert_granted get_strategy
    build_synthetic_result evaluate_loaded_case find_policy_decision has_come status_reason
    map_to_action persist_decision is_valid get_validity_reason determine_fsm_transition
    map_policy_to_validation_status move_case put_decision record_transition has_terminal_reason
Deliveries-once_example =
    Deliveries-once "CASE-TX-stripe-pay-1" empty_store
      (process_event (call_with 32) failure urgent_store).1
      (opened "CASE-TX-stripe-pay-1" (call_with 31) failure empty_store
        + (opened "CASE-TX-stripe-pay-1" (call_with 32) failure urgent_store + 0))
      (refl, refl)
      (Deliveries.deliver (call_with 31) failure (alone 31) refl (
        Deliveries.commit {s' = urgent_store} (λ k. k) (λ h. h)
          (Deliveries.deliver (call_with 32) failure (alone 32) refl Deliveries.done)))

process_event-terminal_example :
    find_case 30 (process_event (call_with 31) failure (store_in RecoveryCaseState.stopped)).1
    ≡ some (case_in RecoveryCaseState.stopped)
unfolding process_event find_case is_creation_eligible is_resolution_eligible process_eligible codes
    creation_eligible_events event_type_of one_of derive_case_key resolution_events create_new_case
    find_existing_case get_or_create_customer get_or_create_transaction handle_existing_case_update
    handle_payment_succeeded aggregate_decision run_evaluators strip upper given calculate_priority
    classify_risk find_by_case_key write_new_case find_by_trigger_transaction_id
    find_customer_by_external_id find_transaction_by_external_id transaction_ref find_transaction
    terminal_case_states write_failed_again write_recovered consent_result eligibility_result
    escalation_result retry_result strategy_result priority_score clean is_fraud_code risk_score
    tier_of record_audit put_case put_transaction consents_of evaluate_consent find_customer
    from_domain merchant_of opened evaluate_eligibility amount_of attempts_of currency_of
    evaluate_escalation failure_category has_status retries_spent evaluate_retry evaluate_strategy
    has_contact_info lower adjust_age adjust_exposure adjust_failure event_type_score exposure_score
    failure_code_score tier_score next_audit_sequence next_transition_sequence
    determine_required_consent evaluate_required evaluate_loaded evaluate_confidence
    is_fraud_category is_high_value is_unknown_category failure_code_of can_retry consumed_attempts
    evaluate_quota has_key is_non_retryable evaluate_resolved map_to_strategy evaluate
    evaluate_typed evaluate_state get_high_value_threshold in_cooldown evaluate_strategy_kind
    evaluate_with find_cached check_candidates sort_granted get_threshold is_cooldown_elapsed
    latest_attempt evaluate_retry_later evaluate_fresh find_decision to_evaluation_result
    cached_under check_candidate insert_granted get_strategy build_synthetic_result
    evaluate_loaded_case find_policy_decision has_come status_reason map_to_action persist_decision
    is_valid get_validity_reason determine_fsm_transition map_policy_to_validation_status move_case
    put_decision record_transition has_terminal_reason
process_event-terminal_example =
    process_event-terminal (call_with 31) failure (store_in RecoveryCaseState.stopped) 30
      (case_in RecoveryCaseState.stopped) (alone 31) (refl, refl) (λ t h. h) refl refl

process_event-resolves_example :
    let s = store_in RecoveryCaseState.verification_pending in
    let case = case_in RecoveryCaseState.verification_pending in
    let r = process_event (call_with 31) success s in
    (r.0.outcome ≡ ProcessingResult.case_resolved)
    × ((case' : RecoveryCase) × (find_case 30 r.1 ≡ some case')
        × (case'.state ≡ RecoveryCaseState.recovered)
        × (case'.closed_at ≡ some noon)
        × (case'.last_state_changed_at ≡ noon)
        × (case'.version ≡ 4)
        × (case'.trigger_transaction_id ≡ 20))
    × ((row : CaseStateTransition) × (r.1.transitions ≡ s.transitions ++ row ∷ [])
        × (row.case_id ≡ 30)
        × (row.from_state ≡ some RecoveryCaseState.verification_pending)
        × (row.to_state ≡ RecoveryCaseState.recovered)
        × (row.sequence_number ≡ next_transition_sequence 30 s.transitions))
    × (r.1.executions ≡ s.executions)
unfolding process_event find_case is_creation_eligible is_resolution_eligible process_eligible codes
    creation_eligible_events event_type_of one_of derive_case_key resolution_events create_new_case
    find_existing_case get_or_create_customer get_or_create_transaction handle_existing_case_update
    handle_payment_succeeded aggregate_decision run_evaluators strip upper given calculate_priority
    classify_risk find_by_case_key write_new_case find_by_trigger_transaction_id
    find_customer_by_external_id find_transaction_by_external_id transaction_ref find_transaction
    terminal_case_states write_failed_again write_recovered consent_result eligibility_result
    escalation_result retry_result strategy_result priority_score clean is_fraud_code risk_score
    tier_of record_audit put_case put_transaction consents_of evaluate_consent find_customer
    from_domain merchant_of opened evaluate_eligibility amount_of attempts_of currency_of
    evaluate_escalation failure_category has_status retries_spent evaluate_retry evaluate_strategy
    has_contact_info lower adjust_age adjust_exposure adjust_failure event_type_score exposure_score
    failure_code_score tier_score next_audit_sequence next_transition_sequence
    determine_required_consent evaluate_required evaluate_loaded evaluate_confidence
    is_fraud_category is_high_value is_unknown_category failure_code_of can_retry consumed_attempts
    evaluate_quota has_key is_non_retryable evaluate_resolved map_to_strategy evaluate
    evaluate_typed evaluate_state get_high_value_threshold in_cooldown evaluate_strategy_kind
    evaluate_with find_cached check_candidates sort_granted get_threshold is_cooldown_elapsed
    latest_attempt evaluate_retry_later evaluate_fresh find_decision to_evaluation_result
    cached_under check_candidate insert_granted get_strategy build_synthetic_result
    evaluate_loaded_case find_policy_decision has_come status_reason map_to_action persist_decision
    is_valid get_validity_reason determine_fsm_transition map_policy_to_validation_status move_case
    put_decision record_transition has_terminal_reason
process_event-resolves_example =
    process_event-resolves (call_with 31) success (store_in RecoveryCaseState.verification_pending)
      (case_in RecoveryCaseState.verification_pending) (refl, refl) refl refl refl

abbrev paid_payment : Transaction
paid_payment = record failed_payment { status = TransactionStatus.succeeded }

late_failure-opens_example :
    let s = record empty_store { transactions = paid_payment ∷ [] } in
    let r = process_event (call_with 31) failure s in
    (r.0.outcome ≡ ProcessingResult.case_created)
    × (find_by_case_key (derive_case_key (λ t. "197001") failure) r.1
        ≡ some (new_case (call_with 31) failure asha paid_payment))
unfolding process_event is_creation_eligible is_resolution_eligible process_eligible codes
    creation_eligible_events event_type_of one_of derive_case_key resolution_events create_new_case
    find_existing_case get_or_create_customer get_or_create_transaction handle_existing_case_update
    handle_payment_succeeded aggregate_decision run_evaluators strip upper given calculate_priority
    classify_risk find_by_case_key write_new_case find_by_trigger_transaction_id
    find_customer_by_external_id find_transaction_by_external_id transaction_ref find_transaction
    terminal_case_states write_failed_again write_recovered consent_result eligibility_result
    escalation_result retry_result strategy_result priority_score clean is_fraud_code risk_score
    tier_of record_audit put_case put_transaction consents_of evaluate_consent find_customer
    from_domain merchant_of opened evaluate_eligibility amount_of attempts_of currency_of
    evaluate_escalation failure_category has_status retries_spent evaluate_retry evaluate_strategy
    has_contact_info lower adjust_age adjust_exposure adjust_failure event_type_score exposure_score
    failure_code_score tier_score next_audit_sequence next_transition_sequence
    determine_required_consent evaluate_required evaluate_loaded evaluate_confidence
    is_fraud_category is_high_value is_unknown_category failure_code_of can_retry consumed_attempts
    evaluate_quota has_key is_non_retryable evaluate_resolved map_to_strategy evaluate
    evaluate_typed evaluate_state get_high_value_threshold in_cooldown evaluate_strategy_kind
    evaluate_with find_cached check_candidates sort_granted get_threshold is_cooldown_elapsed
    latest_attempt evaluate_retry_later evaluate_fresh find_case find_decision to_evaluation_result
    cached_under check_candidate insert_granted get_strategy build_synthetic_result
    evaluate_loaded_case find_policy_decision has_come status_reason map_to_action persist_decision
    is_valid get_validity_reason determine_fsm_transition map_policy_to_validation_status move_case
    put_decision record_transition has_terminal_reason
late_failure-opens_example =
    late_failure-opens (call_with 31) failure
      (record empty_store { transactions = paid_payment ∷ [] }) paid_payment (λ t. refl) refl refl
      refl refl refl refl
