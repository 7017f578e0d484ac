-- ===== src/Events/Engine.antt =====
-- `_create_new_case` and `process_event` of backend/app/services/event_to_case_engine.py.
pub mod Unique
pub mod Steps
pub mod Once
pub mod Settled
pub mod Receipts
use revenue_rescue_ai.Common.{
  Option, [], codes, first_of, if◌then◌else◌, none, some, ◌++◌, ◌||◌, ◌∷◌,
}
use revenue_rescue_ai.Enums.{ActorType, RecoveryCaseState}
use revenue_rescue_ai.Cases.Priority.{calculate_priority}
use revenue_rescue_ai.Cases.Risk.{classify_risk}
use revenue_rescue_ai.Domain.{Customer, RecoveryCase, Transaction}
use revenue_rescue_ai.Events.Canonical.{CanonicalEventDto}
use revenue_rescue_ai.Events.Handlers.{
  handle_existing_case_update, handle_payment_succeeded, ignored_event,
}
use revenue_rescue_ai.Events.Keys.{
  CaseProcessingOutcome, EngineCall, ProcessingResult, derive_case_key, is_creation_eligible,
  is_resolution_eligible,
}
use revenue_rescue_ai.Events.Provision.{get_or_create_customer, get_or_create_transaction}
use revenue_rescue_ai.Store.{Store, find_by_case_key, find_by_trigger_transaction_id, record_audit}

abbrev pub new_case : EngineCall → CanonicalEventDto → Customer → Transaction → RecoveryCase
new_case call event customer tx = record {
  id = call.case_id;
  customer_id = customer.id;
  trigger_transaction_id = tx.id;
  case_key = derive_case_key call.month_of event;
  state = RecoveryCaseState.detected;
  priority = calculate_priority event.amount_minor event.failure_code (some call.now) call.now;
  opened_at = call.now;
  last_state_changed_at = call.now;
  closed_at = none;
  version = 1;
  failure_count = some 1;
}

-- The writes of a new case: the case, the first row of its history and the audit row
unfoldable pub write_new_case :
    EngineCall → CanonicalEventDto → Customer → Transaction → Store → Store
unfolding calculate_priority record_audit codes derive_case_key
write_new_case call event customer tx s =
    record_audit call.case_id "CASE_OPENED" ActorType.system call.correlation_id none
      (some RecoveryCaseState.detected) (some "system.case_engine") call.now
      record s {
        cases = s.cases ++ new_case call event customer tx ∷ [];
        transitions =
            s.transitions
            ++ record {
              case_id = call.case_id;
              from_state = none;
              to_state = RecoveryCaseState.detected;
              reason_code = codes "AUTOMATIC_EVENT_INGESTION";
              actor_type = ActorType.system;
              correlation_id = call.correlation_id;
              occurred_at = call.now;
              sequence_number = 1;
            }
              ∷ [];
      }

-- The insert, with what its unique key meets: the row of that key, if another worker has put one
-- there
abbrev pub insert_case :
    EngineCall
    → CanonicalEventDto
    → Customer
    → Transaction
    → Option RecoveryCase
    → Store
    → CaseProcessingOutcome × Store
insert_case call event customer tx (some existing) s =
    handle_existing_case_update call event existing s
insert_case call event customer tx none s = (
  record {
    outcome = ProcessingResult.case_created;
    case_id = some call.case_id;
    case_key = some (derive_case_key call.month_of event);
    state = some RecoveryCaseState.detected;
    priority =
        some (calculate_priority event.amount_minor event.failure_code (some call.now) call.now);
    risk_tier = some (
        classify_risk event.amount_minor event.failure_code event.event_type
          event.metadata.customer_tier);
  },
  write_new_case call event customer tx s,
)

-- `_create_new_case`
unfoldable pub create_new_case :
    EngineCall → CanonicalEventDto → Customer → Transaction → Store → CaseProcessingOutcome × Store
unfolding handle_existing_case_update calculate_priority classify_risk derive_case_key
    write_new_case find_by_case_key
create_new_case call event customer tx s =
    let s' = call.others s in
    insert_case call event customer tx (find_by_case_key (derive_case_key call.month_of event) s')
      s'

abbrev pub update_or_create :
    EngineCall
    → CanonicalEventDto
    → Customer
    → Transaction
    → Option RecoveryCase
    → Store
    → CaseProcessingOutcome × Store
update_or_create call event customer tx (some case) s =
    handle_existing_case_update call event case s
update_or_create call event customer tx none s = create_new_case call event customer tx s

-- The lookup of the case, by its key and then by its trigger transaction
unfoldable pub find_existing_case :
    EngineCall → CanonicalEventDto → Transaction → Store → Option RecoveryCase
unfolding find_by_case_key find_by_trigger_transaction_id derive_case_key
find_existing_case call event tx s =
    first_of (find_by_case_key (derive_case_key call.month_of event) s)
      (find_by_trigger_transaction_id tx.id s)

-- `process_event` once the event is eligible
unfoldable pub process_eligible :
    EngineCall → CanonicalEventDto → Store → CaseProcessingOutcome × Store
unfolding get_or_create_customer get_or_create_transaction find_existing_case is_resolution_eligible
    handle_payment_succeeded handle_existing_case_update create_new_case
process_eligible call event s =
    let c = get_or_create_customer call event s in
    let t = get_or_create_transaction call event c.0 c.1 in
    let existing = find_existing_case call event t.0 t.1 in
    if is_resolution_eligible event
    then handle_payment_succeeded call event existing t.0 t.1
    else update_or_create call event c.0 t.0 existing t.1

-- `process_event`
unfoldable pub process_event :
    EngineCall → CanonicalEventDto → Store → CaseProcessingOutcome × Store
unfolding is_creation_eligible is_resolution_eligible process_eligible
process_event call event s =
    if is_creation_eligible event || is_resolution_eligible event
    then process_eligible call event s
    else (ignored_event, s)
