-- ===== src/Events/Handlers.antt =====
-- `_handle_payment_succeeded` and `_handle_existing_case_update` of
-- backend/app/services/event_to_case_engine.py. Texts that are only shown are left out.
use revenue_rescue_ai.Common.{
  Bool, List, Option, [], codes, contains, false, if◌then◌else◌, joined, none, or_else, some, ℕ,
  ◌++◌, ◌+◌, ◌==◌, ◌∷◌,
}
use revenue_rescue_ai.Enums.{
  ActorType, RecoveryCaseState, TransactionStatus, recovery_case_state_eq, transaction_status_eq,
}
use revenue_rescue_ai.Cases.Priority.{calculate_priority}
use revenue_rescue_ai.Domain.{CaseStateTransition, RecoveryCase, Transaction}
use revenue_rescue_ai.Events.Canonical.{CanonicalEventDto}
use revenue_rescue_ai.Events.Keys.{
  CaseProcessingOutcome, EngineCall, ProcessingResult, terminal_case_states,
}
use revenue_rescue_ai.Store.{
  Store, find_transaction, next_transition_sequence, put_case, put_transaction, record_audit,
}

-- The outcome for a case that stays as it is, and for no case
abbrev pub ignored_case : RecoveryCase → CaseProcessingOutcome
ignored_case case = record {
  outcome = ProcessingResult.ignored;
  case_id = some case.id;
  case_key = some case.case_key;
  state = some case.state;
  priority = none;
  risk_tier = none;
}

abbrev pub ignored_event : CaseProcessingOutcome
ignored_event = record {
  outcome = ProcessingResult.ignored;
  case_id = none;
  case_key = none;
  state = none;
  priority = none;
  risk_tier = none;
}

abbrev pub recovered_case : ℕ → RecoveryCase → RecoveryCase
recovered_case now case = record case {
  state = RecoveryCaseState.recovered;
  last_state_changed_at = now;
  closed_at = some now;
  version = case.version + 1;
}

-- The row of the history of a payment success
abbrev pub recovered_row :
    EngineCall → RecoveryCase → List CaseStateTransition → CaseStateTransition
recovered_row call case ts = record {
  case_id = case.id;
  from_state = some case.state;
  to_state = RecoveryCaseState.recovered;
  reason_code = codes "PAYMENT_SUCCEEDED_VERIFIED";
  actor_type = ActorType.provider;
  correlation_id = call.correlation_id;
  occurred_at = call.now;
  sequence_number = next_transition_sequence case.id ts;
}

-- The writes of a payment success: the case, the event's transaction, a row of the history and the
-- audit row
unfoldable pub write_recovered :
    EngineCall → CanonicalEventDto → RecoveryCase → Transaction → Store → Store
unfolding put_transaction record_audit codes
write_recovered call event case tx s =
    record_audit case.id "CASE_RECOVERED" ActorType.provider call.correlation_id (some case.state)
      (some RecoveryCaseState.recovered) (some (joined ("provider." ∷ event.provider ∷ [])))
      call.now
      record s {
        cases = put_case (recovered_case call.now case) s.cases;
        transactions =
            put_transaction (record tx { status = TransactionStatus.succeeded }) s.transactions;
        transitions = s.transitions ++ recovered_row call case s.transitions ∷ [];
      }

-- `_handle_payment_succeeded`
unfoldable pub handle_payment_succeeded :
    EngineCall
    → CanonicalEventDto
    → Option RecoveryCase
    → Transaction
    → Store
    → CaseProcessingOutcome × Store
unfolding terminal_case_states write_recovered
handle_payment_succeeded call event none tx s = (ignored_event, s)
handle_payment_succeeded call event (some case) tx s =
    if contains terminal_case_states case.state then (ignored_case case, s) else (
      record {
        outcome = ProcessingResult.case_resolved;
        case_id = some case.id;
        case_key = some case.case_key;
        state = some RecoveryCaseState.recovered;
        priority = none;
        risk_tier = none;
      },
      write_recovered call event case tx s,
    )

-- The case after a further failure
abbrev pub failed_again : EngineCall → CanonicalEventDto → RecoveryCase → RecoveryCase
failed_again call event case = record case {
  failure_count = some (or_else case.failure_count 1 + 1);
  priority =
      calculate_priority event.amount_minor event.failure_code (some case.opened_at) call.now;
  last_state_changed_at = call.now;
  version = case.version + 1;
}

unfoldable pub write_failed_again : EngineCall → CanonicalEventDto → RecoveryCase → Store → Store
unfolding calculate_priority record_audit
write_failed_again call event case s =
    record_audit case.id "CASE_UPDATED" ActorType.system call.correlation_id (some case.state)
      (some case.state) (some "system.case_engine") call.now
      record s { cases = put_case (failed_again call event case) s.cases }

-- `tx is not None and tx.status == TransactionStatus.SUCCEEDED`
abbrev pub is_paid : Option Transaction → Bool
is_paid none = false
is_paid (some tx) = tx.status == TransactionStatus.succeeded

-- `_handle_existing_case_update`
unfoldable pub handle_existing_case_update :
    EngineCall → CanonicalEventDto → RecoveryCase → Store → CaseProcessingOutcome × Store
unfolding terminal_case_states write_failed_again find_transaction
handle_existing_case_update call event case s =
    if contains terminal_case_states case.state
    then (ignored_case case, s)
    else if is_paid (find_transaction case.trigger_transaction_id s)
    then (ignored_case case, s)
    else (
      record {
        outcome = ProcessingResult.case_updated;
        case_id = some case.id;
        case_key = some case.case_key;
        state = some case.state;
        priority = some (failed_again call event case).priority;
        risk_tier = none;
      },
      write_failed_again call event case s,
    )
