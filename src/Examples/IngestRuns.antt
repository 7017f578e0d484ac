-- ===== src/Examples/IngestRuns.antt =====
-- Runs of the ingestion of events and of the table of receipts.
use revenue_rescue_ai.Common.{
  List, String, [], arith, clean, codes, err, false, given, if◌then◌else◌, leb, length, lower, map,
  none, ok, one_of, refl, some, strip, true, upper, ℕ, ◌+◌, ◌∷◌, ◌≡◌,
}
use revenue_rescue_ai.Enums.{RecoveryCaseState}
use revenue_rescue_ai.Cases.Priority.{
  adjust_age, adjust_exposure, adjust_failure, calculate_priority, priority_score,
}
use revenue_rescue_ai.Cases.Risk.{
  classify_risk, event_type_score, exposure_score, failure_code_score, is_fraud_code, risk_score,
  tier_of, tier_score,
}
use revenue_rescue_ai.Events.Canonical.{CanonicalEventDto}
use revenue_rescue_ai.Events.Engine.{
  create_new_case, find_existing_case, process_eligible, process_event, write_new_case,
}
use revenue_rescue_ai.Events.Engine.Once.{opened}
use revenue_rescue_ai.Events.Handlers.{
  handle_existing_case_update, handle_payment_succeeded, write_failed_again, write_recovered,
}
use revenue_rescue_ai.Events.Ingestion.{EventIngestResponseDto, IngestCall, ingest}
use revenue_rescue_ai.Events.Ingestion.Again.{ingest_twice}
use revenue_rescue_ai.Events.Keys.{
  creation_eligible_events, derive_case_key, event_type_of, is_creation_eligible,
  is_resolution_eligible, resolution_events, terminal_case_states,
}
use revenue_rescue_ai.Events.Provision.{
  get_or_create_customer, get_or_create_transaction, transaction_ref,
}
use revenue_rescue_ai.Events.Recording.{
  evaluate_and_record, mark_processed, put_event, record_event, recorded_before,
}
use revenue_rescue_ai.Events.Recording.Ledger.{
  Delivery, deliveries_of, ledger_of, record_event-implements_accept, verdict_of, verdicts_for,
}
use revenue_rescue_ai.Events.Validator.{supported_event_types, validate, validate_by_type}
use revenue_rescue_ai.Examples.Rows.{noon, store_in}
use revenue_rescue_ai.Policy.Aggregate.{
  aggregate_decision, determine_fsm_transition, has_terminal_reason,
}
use revenue_rescue_ai.Policy.Config.{
  can_retry, get_high_value_threshold, get_threshold, is_cooldown_elapsed, is_high_value,
}
use revenue_rescue_ai.Policy.Consent.{
  check_candidate, check_candidates, determine_required_consent, evaluate_consent,
  evaluate_required, evaluate_typed, insert_granted, sort_granted,
}
use revenue_rescue_ai.Policy.Eligibility.{evaluate_eligibility, evaluate_loaded, evaluate_state}
use revenue_rescue_ai.Policy.Escalation.{
  evaluate_confidence, evaluate_escalation, is_fraud_category, is_unknown_category,
}
use revenue_rescue_ai.Policy.Inputs.{
  amount_of, consent_result, currency_of, eligibility_result, escalation_result, failure_category,
  failure_code_of, has_contact_info, merchant_of, retries_spent, retry_result, run_evaluators,
  strategy_result,
}
use revenue_rescue_ai.Policy.Models.{
  from_domain, get_validity_reason, has_come, is_valid, map_policy_to_validation_status,
  status_reason,
}
use revenue_rescue_ai.Policy.RetryLimit.{
  consumed_attempts, evaluate_quota, evaluate_retry, has_key, has_status, in_cooldown,
  is_non_retryable, latest_attempt,
}
use revenue_rescue_ai.Policy.Service.{
  build_synthetic_result, cached_under, evaluate, evaluate_fresh, evaluate_loaded_case,
  evaluate_with, find_cached, move_case, persist_decision, record_transition, to_evaluation_result,
}
use revenue_rescue_ai.Policy.Strategy.{
  evaluate_resolved, evaluate_retry_later, evaluate_strategy, evaluate_strategy_kind, get_strategy,
  map_to_action, map_to_strategy,
}
use revenue_rescue_ai.Store.{
  Store, attempts_of, consents_of, find_by_case_key, find_by_trigger_transaction_id, find_case,
  find_customer, find_customer_by_external_id, find_decision, find_policy_decision,
  find_transaction, find_transaction_by_external_id, find_webhook_event, next_audit_sequence,
  next_transition_sequence, put_case, put_decision, put_transaction, record_audit,
}
use revenue_rescue_ai.Verification.{PayloadReader, accept_all}

abbrev two_providers : List Delivery
two_providers =
    record { provider = "stripe"; event_id = "evt-1"; payload = codes "a" }
    ∷ record { provider = "razorpay"; event_id = "evt-1"; payload = codes "abc" }
    ∷ record { provider = "stripe"; event_id = "evt-1"; payload = codes "abc" }
    ∷ record { provider = "stripe"; event_id = "evt-1"; payload = codes "a" }
    ∷ []

-- A reader that takes the number of characters for the hash of a payload
abbrev size_reader : PayloadReader
size_reader = record {
  sha256 = λ payload. if leb 2 (length payload) then "long" else "short";
  event_type = λ payload. "payment.captured";
}

record_event-implements_accept_example :
    verdicts_for "stripe" size_reader two_providers (store_in RecoveryCaseState.detected)
    ≡ map verdict_of (
        accept_all size_reader
          (deliveries_of "stripe" two_providers)
          (ledger_of "stripe" (store_in RecoveryCaseState.detected).webhook_events))
record_event-implements_accept_example =
    record_event-implements_accept "stripe" size_reader two_providers
      (store_in RecoveryCaseState.detected)

abbrev failure : CanonicalEventDto
failure = record {
  external_event_id = "evt-7";
  event_type = codes "PAYMENT_FAILED";
  provider = "stripe";
  occurred_at = 500;
  customer_reference = "cus-1";
  payment_reference = some "pay-1";
  subscription_reference = none;
  invoice_reference = none;
  checkout_session_id = none;
  amount_minor = 49_900;
  currency = codes "INR";
  failure_code = some (codes "insufficient_funds");
  metadata = record {
    billing_period = none;
    customer_email = none;
    email = none;
    merchant_id = none;
    customer_tier = none;
    checkout_id = none;
    invoice_id = none;
  };
}

abbrev ingest_call : ℕ → IngestCall
ingest_call now = record {
  engine = record {
    now = now;
    customer_id = 2;
    transaction_id = 21;
    case_id = 31;
    correlation_id = "corr_1";
    month_of = λ t. "197001";
    others = λ s. s;
  };
  event_id = 80;
  signature_verified = true;
}

abbrev id_of : CanonicalEventDto → String
id_of event = event.external_event_id

abbrev ingested : Store
unfolding ingest evaluate_and_record validate record_event mark_processed process_event codes one_of
    supported_event_types upper validate_by_type find_webhook_event recorded_before put_event
    is_creation_eligible is_resolution_eligible process_eligible aggregate_decision run_evaluators
    strip given creation_eligible_events event_type_of derive_case_key resolution_events
    create_new_case find_existing_case get_or_create_customer get_or_create_transaction
    handle_existing_case_update handle_payment_succeeded consent_result eligibility_result
    escalation_result retry_result strategy_result lower calculate_priority classify_risk
    find_by_case_key write_new_case find_by_trigger_transaction_id find_customer_by_external_id
    find_transaction_by_external_id transaction_ref find_transaction terminal_case_states
    write_failed_again write_recovered consents_of evaluate_consent find_customer from_domain
    merchant_of opened evaluate_eligibility amount_of attempts_of currency_of evaluate_escalation
    failure_category has_status retries_spent evaluate_retry evaluate_strategy has_contact_info
    priority_score clean is_fraud_code risk_score tier_of record_audit put_case put_transaction
    determine_required_consent evaluate_required evaluate_loaded evaluate_confidence
    is_fraud_category is_high_value is_unknown_category failure_code_of can_retry consumed_attempts
    evaluate_quota has_key is_non_retryable evaluate_resolved map_to_strategy adjust_age
    adjust_exposure adjust_failure event_type_score exposure_score failure_code_score tier_score
    next_audit_sequence next_transition_sequence evaluate evaluate_typed evaluate_state
    get_high_value_threshold in_cooldown evaluate_strategy_kind evaluate_with find_cached
    check_candidates sort_granted get_threshold is_cooldown_elapsed latest_attempt
    evaluate_retry_later evaluate_fresh find_case find_decision to_evaluation_result cached_under
    check_candidate insert_granted get_strategy build_synthetic_result evaluate_loaded_case
    find_policy_decision has_come status_reason map_to_action persist_decision is_valid
    get_validity_reason determine_fsm_transition map_policy_to_validation_status move_case
    put_decision record_transition has_terminal_reason
ingested = elim (ingest id_of (ingest_call noon) failure (store_in RecoveryCaseState.detected)) [
  | ok r ↦ r.1
  | err e ↦ store_in RecoveryCaseState.detected
]

abbrev answer : EventIngestResponseDto
answer = record {
  accepted = true;
  duplicate = false;
  event_id = 80;
  external_event_id = "evt-7";
  event_type = codes "PAYMENT_FAILED";
  status = "ACCEPTED";
  reason = "accepted";
  correlation_id = "corr_1";
  case_id = some 30;
  case_key = some "CASE-TX-stripe-pay-1";
}

ingest_twice_example :
    (r : EventIngestResponseDto) × (ingest id_of (ingest_call (noon + 60)) failure ingested
      ≡ ok (r, ingested))
    × (r.duplicate ≡ true)
    × (r.case_id ≡ none)
unfolding ingest evaluate_and_record validate record_event mark_processed process_event codes one_of
    supported_event_types upper validate_by_type find_webhook_event recorded_before put_event
    is_creation_eligible is_resolution_eligible process_eligible aggregate_decision run_evaluators
    strip given creation_eligible_events event_type_of derive_case_key resolution_events
    create_new_case find_existing_case get_or_create_customer get_or_create_transaction
    handle_existing_case_update handle_payment_succeeded consent_result eligibility_result
    escalation_result retry_result strategy_result lower calculate_priority classify_risk
    find_by_case_key write_new_case find_by_trigger_transaction_id find_customer_by_external_id
    find_transaction_by_external_id transaction_ref find_transaction terminal_case_states
    write_failed_again write_recovered consents_of evaluate_consent find_customer from_domain
    merchant_of opened evaluate_eligibility amount_of attempts_of currency_of evaluate_escalation
    failure_category has_status retries_spent evaluate_retry evaluate_strategy has_contact_info
    priority_score clean is_fraud_code risk_score tier_of record_audit put_case put_transaction
    determine_required_consent evaluate_required evaluate_loaded evaluate_confidence
    is_fraud_category is_high_value is_unknown_category failure_code_of can_retry consumed_attempts
    evaluate_quota has_key is_non_retryable evaluate_resolved map_to_strategy adjust_age
    adjust_exposure adjust_failure event_type_score exposure_score failure_code_score tier_score
    next_audit_sequence next_transition_sequence evaluate evaluate_typed evaluate_state
    get_high_value_threshold in_cooldown evaluate_strategy_kind evaluate_with find_cached
    check_candidates sort_granted get_threshold is_cooldown_elapsed latest_attempt
    evaluate_retry_later evaluate_fresh find_case find_decision to_evaluation_result cached_under
    check_candidate insert_granted get_strategy build_synthetic_result evaluate_loaded_case
    find_policy_decision has_come status_reason map_to_action persist_decision is_valid
    get_validity_reason determine_fsm_transition map_policy_to_validation_status move_case
    put_decision record_transition has_terminal_reason
ingest_twice_example =
    ingest_twice id_of (ingest_call noon) (ingest_call (noon + 60)) failure
      (store_in RecoveryCaseState.detected) ingested answer (λ t. refl) refl (omega arith) refl
