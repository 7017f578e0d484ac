-- ===== src/Examples/WorkflowRuns.antt =====
-- Runs of the workflow services.
use revenue_rescue_ai.Common.{
  [], clean, codes, err, false, is_none, length, lower, none, ok, one_of, refl, some, strip, true,
  upper, ◌++◌, ◌+◌, ◌<◌, ◌↔◌, ◌∷◌, ◌≡◌, ◌⊎◌,
}
use revenue_rescue_ai.Enums.{
  ActionType, ConsentType, ExecutionStatus, PolicyDecisionStatus, RecoveryAttemptStatus,
  RecoveryCaseState, WorkflowStatus, WorkflowStepStatus,
}
use revenue_rescue_ai.Domain.{CustomerConsent, PolicyDecision, RecoveryCase, Transaction}
use revenue_rescue_ai.Examples.Rows.{
  approval, asha, case_in, creation_call, dispatch_step, failed_payment, gateway_giving, noon,
  retry_workflow, step_call, store_in,
}
use revenue_rescue_ai.Policy.Aggregate.{
  aggregate_decision, determine_fsm_transition, has_terminal_reason,
}
use revenue_rescue_ai.Policy.Config.{
  can_retry, get_high_value_threshold, get_threshold, is_cooldown_elapsed, is_high_value,
}
use revenue_rescue_ai.Policy.Consent.{
  check_candidate, check_candidates, determine_required_consent, evaluate_consent,
  evaluate_required, evaluate_typed, insert_granted, sort_granted,
}
use revenue_rescue_ai.Policy.Eligibility.{evaluate_eligibility, evaluate_loaded, evaluate_state}
use revenue_rescue_ai.Policy.Escalation.{
  evaluate_confidence, evaluate_escalation, is_fraud_category, is_unknown_category,
}
use revenue_rescue_ai.Policy.Inputs.{
  amount_of, consent_result, currency_of, eligibility_result, escalation_result, failure_category,
  failure_code_of, has_contact_info, merchant_of, retries_spent, retry_result, run_evaluators,
  strategy_result,
}
use revenue_rescue_ai.Policy.Models.{
  from_domain, get_validity_reason, has_come, is_valid, map_policy_to_validation_status,
  status_reason,
}
use revenue_rescue_ai.Policy.RetryLimit.{
  consumed_attempts, evaluate_quota, evaluate_retry, has_key, has_status, in_cooldown,
  is_non_retryable, latest_attempt,
}
use revenue_rescue_ai.Policy.Service.{
  build_synthetic_result, cached_under, evaluate, evaluate_fresh, evaluate_loaded_case,
  evaluate_with, find_cached, move_case, persist_decision, record_transition, to_evaluation_result,
}
use revenue_rescue_ai.Policy.Strategy.{
  evaluate_resolved, evaluate_retry_later, evaluate_strategy, evaluate_strategy_kind, get_strategy,
  map_to_action, map_to_strategy,
}
use revenue_rescue_ai.Store.{
  Store, attempts_of, consents_of, find_case, find_customer, find_decision, find_policy_decision,
  find_transaction, next_audit_sequence, next_transition_sequence, put_case, put_decision,
  record_audit,
}
use revenue_rescue_ai.Workflow.Creation.{
  build_steps, create_workflow_for_decision, find_policy_decision_by_id, new_workflow,
  write_workflow,
}
use revenue_rescue_ai.Workflow.Creation.Bounded.{Created, create-ok, create_twice}
use revenue_rescue_ai.Workflow.Execution.{
  dispatch_allowed, execute_dispatch_payment_retry, fail_step, settle, submit, system_call,
  write_dispatch,
}
use revenue_rescue_ai.Workflow.Execution.Dispatch.{execute_dispatch-guarded, execution_row}
use revenue_rescue_ai.Workflow.Execution.Outcome.{failed_keeps_case, no_blind_retry}
use revenue_rescue_ai.Workflow.Execution.Rounds.{run_steps-enough}
use revenue_rescue_ai.Workflow.Execution.Run.{run_steps}
use revenue_rescue_ai.Workflow.Revalidation.{
  check_action, check_communication, check_recurring, granted_consent, has_passed, has_succeeded,
  has_unknown_execution, revalidate_case, revalidate_for_execution, revalidate_found,
  validation_passed,
}
use revenue_rescue_ai.Workflow.Revalidation.Guards.{reminder-allowed_iff, retry-allowed}
use revenue_rescue_ai.Workflow.Tables.{
  find_active_by_case, put_attempt_status, put_step_status, put_step_time, put_workflow_status,
  set_attempt, set_step, set_step_time, set_workflow, steps_of,
}
use revenue_rescue_ai.Workflow.Transition.{
  WorkflowError, allowed_transitions, audit_taken, case_event, is_allowed, moved, transition,
  write_transition,
}

abbrev pending_case : RecoveryCase
pending_case = case_in RecoveryCaseState.action_pending

abbrev pending_store : Store
pending_store = store_in RecoveryCaseState.action_pending

abbrev created_store : Store
created_store = write_workflow creation_call approval 30 pending_store

retry-allowed_example :
    (case : RecoveryCase) × (consent : CustomerConsent) × (find_case 30 pending_store ≡ some case)
    × (case.state ≡ RecoveryCaseState.action_pending)
    × (has_succeeded (find_transaction case.trigger_transaction_id pending_store) ≡ false)
    × (has_unknown_execution case.id pending_store ≡ false)
    × (length (attempts_of case.id pending_store) < 4)
    × (granted_consent case.customer_id (ConsentType.recurring_billing ∷ []) pending_store
        ≡ some consent)
    × (has_passed consent.expires_at noon ≡ false)
    × (consent.revoked_at ≡ none)
unfolding revalidate_for_execution find_case revalidate_found revalidate_case check_action
    find_transaction has_succeeded has_unknown_execution attempts_of check_communication
    check_recurring granted_consent aggregate_decision run_evaluators consent_result
    eligibility_result escalation_result retry_result strategy_result consents_of evaluate_consent
    find_customer from_domain merchant_of evaluate_eligibility amount_of currency_of
    evaluate_escalation failure_category has_status retries_spent evaluate_retry evaluate_strategy
    has_contact_info determine_required_consent evaluate_required evaluate_loaded codes
    evaluate_confidence is_fraud_category is_high_value is_unknown_category failure_code_of
    can_retry consumed_attempts evaluate_quota has_key is_non_retryable evaluate_resolved
    map_to_strategy clean one_of evaluate evaluate_typed evaluate_state get_high_value_threshold
    in_cooldown lower strip evaluate_strategy_kind upper evaluate_with find_cached check_candidates
    sort_granted get_threshold is_cooldown_elapsed latest_attempt evaluate_retry_later
    evaluate_fresh find_decision to_evaluation_result cached_under check_candidate insert_granted
    get_strategy build_synthetic_result evaluate_loaded_case find_policy_decision has_come
    status_reason map_to_action persist_decision is_valid get_validity_reason
    determine_fsm_transition map_policy_to_validation_status move_case put_case put_decision
    record_audit record_transition has_terminal_reason next_audit_sequence next_transition_sequence
retry-allowed_example = retry-allowed 4 noon 30 pending_store refl

-- A consent that has expired counts as any other.
reminder-allowed_iff_example :
    ((revalidate_case 4 noon pending_case ActionType.send_reminder pending_store).allowed ≡ true)
    ↔ ((RecoveryCaseState.action_pending ≡ RecoveryCaseState.action_pending)
        × (has_succeeded (find_transaction 20 pending_store) ≡ false)
        × (has_unknown_execution 30 pending_store ≡ false)
        × (is_none (
              granted_consent 1
                (ConsentType.communication_email ∷ ConsentType.communication_sms ∷ [])
                pending_store)
            ≡ false))
reminder-allowed_iff_example = reminder-allowed_iff 4 noon pending_case pending_store

expired_reminder :
    revalidate_case 4 noon pending_case ActionType.send_reminder pending_store ≡ validation_passed
unfolding revalidate_case granted_consent check_action find_transaction has_succeeded
    has_unknown_execution check_communication
expired_reminder = refl

creates :
    create_workflow_for_decision creation_call 50 pending_store
    ≡ ok (new_workflow creation_call approval 30, created_store)
unfolding create_workflow_for_decision find_active_by_case find_case find_policy_decision_by_id
    write_workflow build_steps
creates = refl

create-ok_example :
    (decision : PolicyDecision) × (case : RecoveryCase) × (find_policy_decision_by_id 50
        pending_store
      ≡ some decision)
    × (decision.decision_status ≡ PolicyDecisionStatus.approved)
    × (find_case decision.case_id pending_store ≡ some case)
    × (case.state ≡ RecoveryCaseState.action_pending)
    × (find_active_by_case case.id pending_store ≡ none)
    × Created creation_call decision case pending_store created_store
        (new_workflow creation_call approval 30)
create-ok_example =
    create-ok creation_call 50 pending_store created_store (new_workflow creation_call approval 30)
      creates

create_twice_example :
    create_workflow_for_decision (record creation_call { workflow_id = 61 }) 50 created_store
    ≡ err WorkflowError.workflow_already_active
unfolding create_workflow_for_decision find_active_by_case find_case find_policy_decision_by_id
    write_workflow build_steps
create_twice_example =
    create_twice creation_call (record creation_call { workflow_id = 61 }) 50 50 pending_store
      created_store (new_workflow creation_call approval 30) approval pending_case creates refl refl
      refl refl refl

-- The rows that a dispatch writes before its outcome is settled.
abbrev asked : ExecutionStatus → Store
asked status =
    write_dispatch (gateway_giving status) step_call dispatch_step pending_case
      (submit (gateway_giving status) dispatch_step pending_case failed_payment) 2 pending_store

-- The store after a dispatch that the gateway answers with "succeeded".
abbrev paid_store : Store
paid_store =
    write_transition pending_case RecoveryCaseState.verification_pending
      (system_call (codes "gateway_reported_payment_captured") step_call) 1
      (set_attempt 30 2 RecoveryAttemptStatus.succeeded
        (set_step 73 WorkflowStepStatus.completed none (asked ExecutionStatus.succeeded)))

-- The store after a dispatch that the gateway answers with "unknown".
abbrev unknown_store : Store
unknown_store =
    write_transition pending_case RecoveryCaseState.escalated
      (system_call (codes "provider_timeout_unknown_outcome") step_call) 1
      (set_workflow 60 WorkflowStatus.requires_review (
        set_attempt 30 2 RecoveryAttemptStatus.uncertain
          (set_step 73 WorkflowStepStatus.failed none (asked ExecutionStatus.unknown))))

execute_dispatch-guarded_example :
    (paid_store.executions ≡ pending_store.executions)
    ⊎ (((revalidate_for_execution 4 noon 30 ActionType.retry_payment pending_store).allowed ≡ true)
        × ((t : Transaction) × (find_transaction 20 pending_store ≡ some t)
            × (paid_store.executions
                ≡ pending_store.executions
                  ++ execution_row dispatch_step pending_case (
                      submit
                        (gateway_giving ExecutionStatus.succeeded)
                        dispatch_step
                        pending_case
                        t)
                    ∷ [])
            × (submit (gateway_giving ExecutionStatus.succeeded) dispatch_step pending_case t
                ≡ (gateway_giving ExecutionStatus.succeeded).submit_retry record {
                  case_id = 30;
                  transaction_id = t.id;
                  amount_minor = t.amount_minor;
                  step_id = 73;
                })))
unfolding execute_dispatch_payment_retry dispatch_allowed fail_step find_customer find_transaction
    revalidate_for_execution attempts_of settle submit write_dispatch set_step set_workflow
    find_case revalidate_found codes set_attempt transition set_step_time put_step_status
    put_workflow_status revalidate_case put_attempt_status audit_taken is_allowed
    next_transition_sequence write_transition put_step_time check_action has_succeeded
    has_unknown_execution allowed_transitions case_event moved put_case check_communication
    check_recurring granted_consent aggregate_decision run_evaluators consent_result
    eligibility_result escalation_result retry_result strategy_result consents_of evaluate_consent
    from_domain merchant_of evaluate_eligibility amount_of currency_of evaluate_escalation
    failure_category has_status retries_spent evaluate_retry evaluate_strategy has_contact_info
    determine_required_consent evaluate_required evaluate_loaded evaluate_confidence
    is_fraud_category is_high_value is_unknown_category failure_code_of can_retry consumed_attempts
    evaluate_quota has_key is_non_retryable evaluate_resolved map_to_strategy clean one_of evaluate
    evaluate_typed evaluate_state get_high_value_threshold in_cooldown lower strip
    evaluate_strategy_kind upper evaluate_with find_cached check_candidates sort_granted
    get_threshold is_cooldown_elapsed latest_attempt evaluate_retry_later evaluate_fresh
    find_decision to_evaluation_result cached_under check_candidate insert_granted get_strategy
    build_synthetic_result evaluate_loaded_case find_policy_decision has_come status_reason
    map_to_action persist_decision is_valid get_validity_reason determine_fsm_transition
    map_policy_to_validation_status move_case put_decision record_audit record_transition
    has_terminal_reason next_audit_sequence
execute_dispatch-guarded_example =
    execute_dispatch-guarded (gateway_giving ExecutionStatus.succeeded) step_call retry_workflow
      dispatch_step pending_case pending_store paid_store refl

-- Later the cases are put back as they were, and nine attempts are allowed.
no_blind_retry_example :
    (revalidate_case 9
      (noon + 7)
      pending_case
      ActionType.retry_payment
      (record unknown_store { cases = pending_store.cases })).allowed
    ≡ false
unfolding execute_dispatch_payment_retry dispatch_allowed fail_step find_customer find_transaction
    revalidate_for_execution attempts_of settle submit write_dispatch set_step set_workflow
    find_case revalidate_found codes set_attempt transition set_step_time put_step_status
    put_workflow_status revalidate_case put_attempt_status audit_taken is_allowed
    next_transition_sequence write_transition put_step_time check_action has_succeeded
    has_unknown_execution allowed_transitions case_event moved put_case check_communication
    check_recurring granted_consent aggregate_decision run_evaluators consent_result
    eligibility_result escalation_result retry_result strategy_result consents_of evaluate_consent
    from_domain merchant_of evaluate_eligibility amount_of currency_of evaluate_escalation
    failure_category has_status retries_spent evaluate_retry evaluate_strategy has_contact_info
    determine_required_consent evaluate_required evaluate_loaded evaluate_confidence
    is_fraud_category is_high_value is_unknown_category failure_code_of can_retry consumed_attempts
    evaluate_quota has_key is_non_retryable evaluate_resolved map_to_strategy clean one_of evaluate
    evaluate_typed evaluate_state get_high_value_threshold in_cooldown lower strip
    evaluate_strategy_kind upper evaluate_with find_cached check_candidates sort_granted
    get_threshold is_cooldown_elapsed latest_attempt evaluate_retry_later evaluate_fresh
    find_decision to_evaluation_result cached_under check_candidate insert_granted get_strategy
    build_synthetic_result evaluate_loaded_case find_policy_decision has_come status_reason
    map_to_action persist_decision is_valid get_validity_reason determine_fsm_transition
    map_policy_to_validation_status move_case put_decision record_audit record_transition
    has_terminal_reason next_audit_sequence
no_blind_retry_example =
    no_blind_retry (gateway_giving ExecutionStatus.unknown) step_call retry_workflow dispatch_step
      pending_case pending_case failed_payment asha pending_store unknown_store
      (record unknown_store { cases = pending_store.cases }) 9 (noon + 7) ActionType.retry_payment
      refl refl (λ e m u. m) refl

failed_keeps_case_example :
    (s' : Store) × (execute_dispatch_payment_retry
        (gateway_giving ExecutionStatus.failed)
        step_call
        retry_workflow
        dispatch_step
        pending_case
        pending_store
      ≡ ok s')
    × (s'.cases ≡ pending_store.cases)
unfolding execute_dispatch_payment_retry dispatch_allowed fail_step find_customer find_transaction
    revalidate_for_execution attempts_of settle submit write_dispatch set_step set_workflow
    find_case revalidate_found codes set_attempt transition set_step_time put_step_status
    put_workflow_status revalidate_case put_attempt_status audit_taken is_allowed
    next_transition_sequence write_transition put_step_time check_action has_succeeded
    has_unknown_execution allowed_transitions case_event moved put_case check_communication
    check_recurring granted_consent aggregate_decision run_evaluators consent_result
    eligibility_result escalation_result retry_result strategy_result consents_of evaluate_consent
    from_domain merchant_of evaluate_eligibility amount_of currency_of evaluate_escalation
    failure_category has_status retries_spent evaluate_retry evaluate_strategy has_contact_info
    determine_required_consent evaluate_required evaluate_loaded evaluate_confidence
    is_fraud_category is_high_value is_unknown_category failure_code_of can_retry consumed_attempts
    evaluate_quota has_key is_non_retryable evaluate_resolved map_to_strategy clean one_of evaluate
    evaluate_typed evaluate_state get_high_value_threshold in_cooldown lower strip
    evaluate_strategy_kind upper evaluate_with find_cached check_candidates sort_granted
    get_threshold is_cooldown_elapsed latest_attempt evaluate_retry_later evaluate_fresh
    find_decision to_evaluation_result cached_under check_candidate insert_granted get_strategy
    build_synthetic_result evaluate_loaded_case find_policy_decision has_come status_reason
    map_to_action persist_decision is_valid get_validity_reason determine_fsm_transition
    map_policy_to_validation_status move_case put_decision record_audit record_transition
    has_terminal_reason next_audit_sequence
failed_keeps_case_example =
    failed_keeps_case (gateway_giving ExecutionStatus.failed) step_call retry_workflow dispatch_step
      pending_case failed_payment asha pending_store refl refl refl refl refl

run_steps-enough_example :
    run_steps 13 (gateway_giving ExecutionStatus.succeeded) step_call 60 created_store
    ≡ run_steps 6 (gateway_giving ExecutionStatus.succeeded) step_call 60 created_store
unfolding steps_of write_workflow build_steps create_workflow_for_decision find_active_by_case
    find_case find_policy_decision_by_id
run_steps-enough_example =
    run_steps-enough 7 (gateway_giving ExecutionStatus.succeeded) step_call 60 created_store
