-- ===== src/Examples/ReconcileRuns.antt =====
-- Runs of the reconciliation.
use revenue_rescue_ai.Common.{
  [], codes, err, given, none, refl, some, string_eq, true, ◌==◌, ◌∷◌, ◌≡◌, ◌≢◌,
}
use revenue_rescue_ai.Enums.{
  ActorType, ExecutionStatus, ReconciliationStatus, RecoveryCaseState, TransactionStatus,
}
use revenue_rescue_ai.Examples.Rows.{case_in, noon, store_in}
use revenue_rescue_ai.Store.{
  Store, find_case, find_transaction, next_transition_sequence, put_case, put_transaction,
}
use revenue_rescue_ai.Workflow.Reconciliation.{
  ReconciliationReport, oldest_first, recon_status, reconcile_case, reconcile_each,
  reconcile_pending_cases,
}
use revenue_rescue_ai.Workflow.Reconciliation.Proved.{reconcile_case-proved}
use revenue_rescue_ai.Workflow.Resolution.{
  ReconciliationCall, has_conflict, latest_execution, provider_ref, provider_status_of, resolve,
}
use revenue_rescue_ai.Workflow.Transition.{
  WorkflowError, allowed_transitions, audit_taken, case_event, is_allowed, moved, transition,
  write_transition,
}

abbrev recon_with : ExecutionStatus → ReconciliationCall
recon_with status = record {
  now = noon;
  actor_id = none;
  correlation_id = "recon_1";
  auto_resolve = true;
  retrieve_status = λ ref. status;
  is_like = λ key ref. key == ref;
}

abbrev recovered_store : Store
recovered_store = store_in RecoveryCaseState.recovered

abbrev matched_report : ReconciliationReport
matched_report = record {
  case_id = 30;
  transaction_id = 20;
  internal_status = TransactionStatus.failed;
  provider_status = ExecutionStatus.failed;
  status = ReconciliationStatus.matched;
  discrepancies = [];
  resolution_action = none;
}

abbrev audited_store : Store
audited_store = record recovered_store {
  audit_events =
      record {
        case_id = 30;
        event_type = "PAYMENT_RECONCILED";
        from_state = some RecoveryCaseState.recovered;
        to_state = some RecoveryCaseState.recovered;
        actor_type = ActorType.system;
        actor_id = none;
        correlation_id = "recon_1";
        event_time = noon;
        sequence_number = 1;
      }
      ∷ [];
}

failed≢succeeded : ExecutionStatus.failed ≢ ExecutionStatus.succeeded
failed≢succeeded h = cc

reconcile_case-proved_example : RecoveryCaseState.recovered ≡ RecoveryCaseState.recovered
unfolding reconcile_case find_case find_transaction provider_ref provider_status_of recon_status
    resolve audit_taken has_conflict latest_execution codes given transition put_transaction
    is_allowed next_transition_sequence write_transition put_case allowed_transitions case_event
    moved
reconcile_case-proved_example =
    reconcile_case-proved (recon_with ExecutionStatus.failed) 30 recovered_store audited_store
      (case_in RecoveryCaseState.recovered) (case_in RecoveryCaseState.recovered) matched_report
      refl failed≢succeeded refl refl refl

-- The gateway does not know the payment of a case that is recovered.
unknown_of_recovered :
    reconcile_case (recon_with ExecutionStatus.unknown) 30 recovered_store
    ≡ err WorkflowError.invalid_transition
unfolding reconcile_case find_case find_transaction provider_ref provider_status_of recon_status
    resolve audit_taken has_conflict latest_execution codes given transition put_transaction
    is_allowed next_transition_sequence write_transition put_case allowed_transitions case_event
    moved
unknown_of_recovered = refl

-- A case that waits for verification is reconciled without an exception.
pending_reconciled :
    (reconcile_pending_cases
      (recon_with ExecutionStatus.succeeded)
      5
      (store_in RecoveryCaseState.verification_pending)).1
    ≡ none
unfolding reconcile_pending_cases oldest_first reconcile_each reconcile_case resolve find_case
    find_transaction provider_ref provider_status_of recon_status audit_taken has_conflict
    latest_execution transition codes given put_transaction is_allowed next_transition_sequence
    write_transition put_case allowed_transitions case_event moved
pending_reconciled = refl
