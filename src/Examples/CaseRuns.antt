-- ===== src/Examples/CaseRuns.antt =====
-- Runs of the case service.
use mathlib.Core.List.{Permᴰ}
use revenue_rescue_ai.Common.{
  List, [], arith, codes, err, filter, given, length, map, nat_eq, none, ok, refl, some, true, ◌&&◌,
  ◌*◌, ◌++◌, ◌<◌, ◌↔◌, ◌∷◌, ◌≡◌, ◌≢◌,
}
use revenue_rescue_ai.Enums.{ActorType, RecoveryCaseState, recovery_case_state_eq}
use revenue_rescue_ai.Cases.Listing.{
  fits, list_cases, list_rows, newest_first, page_count, selected, to_summary,
}
use revenue_rescue_ai.Cases.Listing.Order.{NewestFirst}
use revenue_rescue_ai.Cases.Listing.Pages.{first_pages, list_cases_complete}
use revenue_rescue_ai.Cases.Service.{
  CaseServiceError, CaseStateTransitionDto, RecoveryCaseCreateDto, RecoveryCaseResponseDto,
  ServiceCall, create_case, get_by_case_key, get_case, restricted_keys, to_entity, to_response,
  transition_state, transitioned, update_case, update_count, write_created,
}
use revenue_rescue_ai.Cases.Service.Final.{
  CaseOperation, run_operation, run_operations, run_operations-final,
}
use revenue_rescue_ai.Cases.Service.Kept.{
  create_case-get_case, create_case_twice, transition_state-moves,
}
use revenue_rescue_ai.Domain.{CaseStateTransition, RecoveryCase}
use revenue_rescue_ai.Events.Keys.{terminal_case_states}
use revenue_rescue_ai.Examples.Rows.{asha, case_in, failed_payment, noon, store_in}
use revenue_rescue_ai.Store.{
  Store, find_by_case_key, find_by_trigger_transaction_id, find_case, find_customer,
  find_transaction, next_audit_sequence, next_transition_sequence, put_case, record_audit,
}
use revenue_rescue_ai.Workflow.Transition.{
  allowed_transitions, audit_taken, case_event, is_allowed, moved, transition, write_transition,
}

abbrev service_call : ServiceCall
service_call = record {
  now = noon;
  case_id = 31;
  generated_key = "CASE-0A1B";
  correlation_id = "corr_2";
}

abbrev opening : RecoveryCaseCreateDto
opening = record {
  customer_id = 1;
  trigger_transaction_id = 20;
  case_key = none;
  priority = 50;
  metadata = ("attempts", 2) ∷ ("failure_count", 4) ∷ [];
}

abbrev no_cases : Store
no_cases = record (store_in RecoveryCaseState.detected) { cases = [] }

abbrev opened_case : RecoveryCase
opened_case = record {
  id = 31;
  customer_id = 1;
  trigger_transaction_id = 20;
  case_key = "CASE-0A1B";
  state = RecoveryCaseState.detected;
  priority = 50;
  opened_at = noon;
  last_state_changed_at = noon;
  closed_at = none;
  version = 1;
  failure_count = some 4;
}

creates :
    create_case service_call opening no_cases
    ≡ ok (to_response opened_case, write_created service_call opened_case no_cases)
unfolding create_case find_by_case_key find_by_trigger_transaction_id find_case find_customer
    find_transaction get_case record_audit to_entity get_by_case_key next_audit_sequence given
    update_count
creates = refl

create_case-get_case_example :
    (get_case 31 (write_created service_call opened_case no_cases) ≡ ok (to_response opened_case))
    × (get_by_case_key "CASE-0A1B" (write_created service_call opened_case no_cases)
        ≡ ok (to_response opened_case))
create_case-get_case_example =
    create_case-get_case service_call opening no_cases
      (write_created service_call opened_case no_cases) (to_response opened_case) creates

create_case_twice_example :
    create_case
      (record service_call { case_id = 32 })
      opening
      (write_created service_call opened_case no_cases)
    ≡ err CaseServiceError.duplicate_trigger
unfolding create_case find_by_case_key find_by_trigger_transaction_id find_case find_customer
    find_transaction get_case record_audit to_entity get_by_case_key next_audit_sequence given
    update_count
create_case_twice_example =
    create_case_twice service_call (record service_call { case_id = 32 }) opening opening no_cases
      (write_created service_call opened_case no_cases) (to_response opened_case) asha
      failed_payment creates refl refl refl

abbrev to_recovered : CaseStateTransitionDto
to_recovered = record {
  to_state = RecoveryCaseState.recovered;
  reason_code = codes "manual";
  actor_type = ActorType.operator;
  correlation_id = "corr_3";
}

detected≢recovered : RecoveryCaseState.detected ≢ RecoveryCaseState.recovered
detected≢recovered h = cc

transition_state-moves_example :
    let s = store_in RecoveryCaseState.detected in
    let case = case_in RecoveryCaseState.detected in
    (r : RecoveryCaseResponseDto × Store) × (transition_state service_call 30 to_recovered s ≡ ok r)
    × (find_case 30 r.1 ≡ some (transitioned noon RecoveryCaseState.recovered case))
    × (r.0.state ≡ RecoveryCaseState.recovered)
    × (r.0.version ≡ 4)
    × (r.0.closed_at ≡ some noon)
    × ((row : CaseStateTransition) × (r.1.transitions ≡ s.transitions ++ row ∷ [])
        × (row.from_state ≡ some RecoveryCaseState.detected)
        × (row.to_state ≡ RecoveryCaseState.recovered)
        × (row.sequence_number ≡ next_transition_sequence 30 s.transitions))
unfolding find_case transition_state record_audit terminal_case_states next_audit_sequence
    transition put_case audit_taken is_allowed next_transition_sequence write_transition
    allowed_transitions case_event moved
transition_state-moves_example =
    transition_state-moves service_call 30 to_recovered (store_in RecoveryCaseState.detected)
      (case_in RecoveryCaseState.detected) refl refl detected≢recovered

abbrev late_changes : List CaseOperation
late_changes =
    CaseOperation.move service_call 30 to_recovered
    ∷ CaseOperation.update service_call 30 (record { priority = some 1; metadata = some [] })
        (some "op-1")
    ∷ CaseOperation.create service_call (record opening { trigger_transaction_id = 20 })
    ∷ []

run_operations-final_example :
    find_case 30 (run_operations late_changes (store_in RecoveryCaseState.stopped))
    ≡ some (case_in RecoveryCaseState.stopped)
unfolding find_case run_operations run_operation create_case transition_state update_case
    find_by_case_key find_by_trigger_transaction_id find_customer find_transaction get_case
    record_audit to_entity terminal_case_states given restricted_keys update_count get_by_case_key
    next_audit_sequence transition put_case audit_taken is_allowed next_transition_sequence
    write_transition allowed_transitions case_event moved
run_operations-final_example =
    run_operations-final late_changes (store_in RecoveryCaseState.stopped) 30
      (case_in RecoveryCaseState.stopped) refl refl

abbrev two_cases : Store
two_cases = record no_cases {
  cases =
      case_in RecoveryCaseState.detected
      ∷ opened_case
      ∷ record opened_case { id = 33; customer_id = 9 }
      ∷ [];
}

list_cases_complete_example :
    let answer = list_cases RecoveryCase.id none (some 1) 1 1 two_cases in
    (rows : List RecoveryCase) × (first_pages RecoveryCase.id none (some 1) 1 answer.pages two_cases
      ≡ map to_summary rows)
    × NewestFirst rows
    × Permᴰ rows (filter (λ c. fits none c.state && fits (some 1) c.customer_id) two_cases.cases)
    × ((answer.has_more ≡ true) ↔ (1 * 1 < length rows))
    × (answer.total ≡ length rows)
list_cases_complete_example =
    list_cases_complete RecoveryCase.id none (some 1) 1 1 two_cases (omega arith)

first_page :
    (list_cases RecoveryCase.id none (some 1) 1 1 two_cases).items ≡ to_summary opened_case ∷ []
unfolding list_cases list_rows page_count selected newest_first
first_page = refl
