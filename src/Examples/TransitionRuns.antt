-- ===== src/Examples/TransitionRuns.antt =====
-- Runs of `CaseTransitionService`.
use revenue_rescue_ai.Common.{List, [], err, length, none, ok, refl, some, ◌+◌, ◌∷◌, ◌≡◌, ◌≤◌, ◌⊎◌}
use revenue_rescue_ai.Enums.{ActorType, RecoveryCaseState}
use revenue_rescue_ai.Domain.{RecoveryCase}
use revenue_rescue_ai.Examples.Rows.{case_call, case_in, noon, store_in}
use revenue_rescue_ai.Store.{
  Store, find_case, next_audit_sequence, next_transition_sequence, put_case, record_audit,
}
use revenue_rescue_ai.Workflow.Transition.{
  TransitionCall, WorkflowError, allowed_transitions, audit_taken, case_event, is_allowed, moved,
  transition, write_transition,
}
use revenue_rescue_ai.Workflow.Transition.Numbering.{
  IsAligned, record_audit-blocks, transition-IsAligned,
}
use revenue_rescue_ai.Workflow.Transition.Runs.{settled-run, transition_all}

abbrev pending_case : RecoveryCase
pending_case = case_in RecoveryCaseState.action_pending

abbrev pending_store : Store
pending_store = store_in RecoveryCaseState.action_pending

abbrev stopped_case : RecoveryCase
stopped_case = case_in RecoveryCaseState.stopped

abbrev closed_case : RecoveryCase
closed_case = record stopped_case {
  state = RecoveryCaseState.closed;
  version = 4;
  last_state_changed_at = noon;
  closed_at = some noon;
}

abbrev closing : List (RecoveryCaseState × TransitionCall)
closing = (RecoveryCaseState.closed, case_call) ∷ []

abbrev closed_store : Store
closed_store =
    write_transition stopped_case RecoveryCaseState.closed case_call 1
      (store_in RecoveryCaseState.stopped)

settled-run_example :
    (length closing ≤ 1)
    × (find_case 30 closed_store ≡ some closed_case)
    × ((RecoveryCaseState.closed ≡ RecoveryCaseState.stopped)
        ⊎ (RecoveryCaseState.closed ≡ RecoveryCaseState.closed))
    × (4 ≡ 3 + length closing)
unfolding transition_all transition is_allowed allowed_transitions audit_taken moved find_case
    write_transition next_transition_sequence put_case case_event
settled-run_example =
    settled-run closing stopped_case closed_case (store_in RecoveryCaseState.stopped) closed_store
      refl refl refl

transition-IsAligned_example :
    (s' : Store) × (transition pending_case RecoveryCaseState.escalated case_call pending_store
      ≡ ok s')
    × IsAligned 30 s'
unfolding is_allowed next_audit_sequence next_transition_sequence allowed_transitions
transition-IsAligned_example =
    transition-IsAligned pending_case RecoveryCaseState.escalated case_call pending_store refl refl

record_audit-blocks_example :
    transition pending_case RecoveryCaseState.escalated case_call
      (record_audit 30 "CASE_UPDATED" ActorType.system "run-1" none none none noon pending_store)
    ≡ err WorkflowError.integrity_error
unfolding is_allowed next_audit_sequence next_transition_sequence allowed_transitions
record_audit-blocks_example =
    record_audit-blocks pending_case RecoveryCaseState.escalated case_call pending_store
      "CASE_UPDATED" ActorType.system "run-1" none none none noon refl refl
