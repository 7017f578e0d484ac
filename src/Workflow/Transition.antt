-- ===== src/Workflow/Transition.antt =====
-- `CaseTransitionService` of backend/app/workflows/vertical_recovery.py, and the uniqueness of
-- (case_id, sequence_number) in the audit table that its flush meets.
pub mod Lifecycle
pub mod Numbering
pub mod Runs
use revenue_rescue_ai.Common.{
  Bool, List, Option, Result, String, Text, [], any, contains, err, if◌then◌else◌, nat_eq, not, ok,
  some, ℕ, ◌&&◌, ◌++◌, ◌+◌, ◌==◌, ◌∷◌,
}
use revenue_rescue_ai.Enums.{ActorType, RecoveryCaseState, recovery_case_state_eq}
use revenue_rescue_ai.Domain.{AuditEvent, RecoveryCase}
use revenue_rescue_ai.Store.{Store, next_transition_sequence, put_case}

-- `_ALLOWED_TRANSITIONS`
unfoldable pub allowed_transitions : RecoveryCaseState → List RecoveryCaseState
allowed_transitions RecoveryCaseState.detected =
    RecoveryCaseState.context_ready ∷ RecoveryCaseState.escalated ∷ RecoveryCaseState.stopped ∷ []
allowed_transitions RecoveryCaseState.context_ready =
    RecoveryCaseState.awaiting_decision ∷ RecoveryCaseState.escalated ∷ []
allowed_transitions RecoveryCaseState.awaiting_decision =
    RecoveryCaseState.action_pending ∷ RecoveryCaseState.escalated ∷ RecoveryCaseState.stopped ∷ []
allowed_transitions RecoveryCaseState.action_pending =
    RecoveryCaseState.verification_pending ∷ RecoveryCaseState.escalated ∷ RecoveryCaseState.stopped
    ∷ []
allowed_transitions RecoveryCaseState.verification_pending =
    RecoveryCaseState.recovered ∷ RecoveryCaseState.retry_eligible ∷ RecoveryCaseState.escalated
    ∷ []
allowed_transitions RecoveryCaseState.retry_eligible =
    RecoveryCaseState.action_pending ∷ RecoveryCaseState.escalated ∷ RecoveryCaseState.stopped ∷ []
allowed_transitions RecoveryCaseState.recovered = RecoveryCaseState.closed ∷ []
allowed_transitions RecoveryCaseState.escalated = RecoveryCaseState.closed ∷ []
allowed_transitions RecoveryCaseState.stopped = RecoveryCaseState.closed ∷ []
allowed_transitions RecoveryCaseState.closed = []

unfoldable pub is_allowed : RecoveryCaseState → RecoveryCaseState → Bool
unfolding allowed_transitions
is_allowed from to = contains (allowed_transitions from) to

-- The exceptions of the workflow services: a `ValueError` by its cause, or the `IntegrityError` of a
-- flush.
pub data WorkflowError : Type 0 where
  invalid_transition integrity_error : WorkflowError
  workflow_not_found decision_not_found case_not_found : WorkflowError
  terminal_workflow decision_not_approved case_not_actionable workflow_already_active :
      WorkflowError

-- What a call of `transition` is given besides the case and the state.
pub record TransitionCall : Type 0 where
  pub reason_code : Text
  pub actor_type : ActorType
  pub actor_id : Option String
  pub correlation_id : String
  pub at : ℕ

-- `f"case.{to_state.value}"`
unfoldable pub case_event : RecoveryCaseState → String
case_event RecoveryCaseState.detected = "case.detected"
case_event RecoveryCaseState.context_ready = "case.context_ready"
case_event RecoveryCaseState.awaiting_decision = "case.awaiting_decision"
case_event RecoveryCaseState.action_pending = "case.action_pending"
case_event RecoveryCaseState.verification_pending = "case.verification_pending"
case_event RecoveryCaseState.recovered = "case.recovered"
case_event RecoveryCaseState.retry_eligible = "case.retry_eligible"
case_event RecoveryCaseState.escalated = "case.escalated"
case_event RecoveryCaseState.stopped = "case.stopped"
case_event RecoveryCaseState.closed = "case.closed"

-- The audit table has a row of the case with this number.
unfoldable pub audit_taken : ℕ → ℕ → List AuditEvent → Bool
audit_taken key n es = any (λ e. e.case_id == key && e.sequence_number == n) es

-- The row of the case after a transition: `closed_at` is set only by `CLOSED`.
unfoldable pub moved : RecoveryCaseState → ℕ → RecoveryCase → RecoveryCase
moved to now case = record case {
  state = to;
  version = case.version + 1;
  last_state_changed_at = now;
  closed_at = if to == RecoveryCaseState.closed then some now else case.closed_at;
}

-- The writes of `transition`: the case, a row of its history, and an audit row of the same number.
unfoldable pub write_transition :
    RecoveryCase → RecoveryCaseState → TransitionCall → ℕ → Store → Store
unfolding moved case_event
write_transition case to call n s = record s {
  cases = put_case (moved to call.at case) s.cases;
  transitions =
      s.transitions
      ++ record {
        case_id = case.id;
        from_state = some case.state;
        to_state = to;
        reason_code = call.reason_code;
        actor_type = call.actor_type;
        correlation_id = call.correlation_id;
        occurred_at = call.at;
        sequence_number = n;
      }
        ∷ [];
  audit_events =
      s.audit_events
      ++ record {
        case_id = case.id;
        event_type = case_event to;
        from_state = some case.state;
        to_state = some to;
        actor_type = call.actor_type;
        actor_id = call.actor_id;
        correlation_id = call.correlation_id;
        event_time = call.at;
        sequence_number = n;
      }
        ∷ [];
}

-- `CaseTransitionService.transition`: the number is the greatest of the history plus one, and the
-- flush refuses an audit row whose number is taken.
unfoldable pub transition :
    RecoveryCase → RecoveryCaseState → TransitionCall → Store → Result WorkflowError Store
unfolding is_allowed audit_taken
transition case to call s =
    let n = next_transition_sequence case.id s.transitions in
    if not (is_allowed case.state to)
    then err WorkflowError.invalid_transition
    else if audit_taken case.id n s.audit_events
    then err WorkflowError.integrity_error
    else ok (write_transition case to call n s)
