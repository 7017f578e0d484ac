-- ===== src/Workflow/Transition/Numbering.antt =====
-- The numbers of the transition history and of the audit log. `transition` gives its audit row the
-- number of its history row; every other service numbers audit rows by the audit log alone.
use revenue_rescue_ai.Common.{
  List, Option, String, [], ap, arith, err, false, max, ok, refl, sym, true, ℕ, ◌++◌, ◌+◌, ◌∙◌, ◌∷◌,
  ◌≡◌, ◌≤◌,
}
use revenue_rescue_ai.Enums.{ActorType, RecoveryCaseState}
use revenue_rescue_ai.Domain.{AuditEvent, CaseStateTransition, RecoveryCase}
use revenue_rescue_ai.Store.{Store, next_audit_sequence, next_transition_sequence, record_audit}
use revenue_rescue_ai.Workflow.Transition.{
  TransitionCall, WorkflowError, audit_taken, is_allowed, transition, write_transition,
}

audit_taken-below :
    (key n : ℕ) (es : List AuditEvent)
    → next_audit_sequence key es ≤ n
    → audit_taken key n es ≡ false
unfolding audit_taken next_audit_sequence
audit_taken-below key n [] h = refl
audit_taken-below key n (e ∷ es) h = ground (arith, audit_taken-below key n es)

next_audit-append :
    (key : ℕ) (es : List AuditEvent) (e : AuditEvent)
    → e.case_id ≡ key
    → next_audit_sequence key (es ++ e ∷ [])
      ≡ max (next_audit_sequence key es) (e.sequence_number + 1)
unfolding next_audit_sequence
next_audit-append key [] e h = ground arith
next_audit-append key (x ∷ es) e h = ground (arith, next_audit-append key es e)

next_transition-append :
    (key : ℕ) (ts : List CaseStateTransition) (t : CaseStateTransition)
    → t.case_id ≡ key
    → next_transition_sequence key (ts ++ t ∷ [])
      ≡ max (next_transition_sequence key ts) (t.sequence_number + 1)
unfolding next_transition_sequence
next_transition-append key [] t h = ground arith
next_transition-append key (x ∷ ts) t h = ground (arith, next_transition-append key ts t)

-- The two logs of a case have the same next number.
abbrev pub IsAligned : ℕ → Store → Type 0
IsAligned key s =
    next_audit_sequence key s.audit_events ≡ next_transition_sequence key s.transitions

write_transition-IsAligned :
    (case : RecoveryCase) (to : RecoveryCaseState) (call : TransitionCall) (s : Store)
    → IsAligned case.id s
    → IsAligned case.id
        (write_transition case to call (next_transition_sequence case.id s.transitions) s)
unfolding write_transition
write_transition-IsAligned case to call s h =
    next_audit-append case.id s.audit_events _ refl
    ∙ ap (λ (n : ℕ). max n (next_transition_sequence case.id s.transitions + 1)) h
    ∙ sym (next_transition-append case.id s.transitions _ refl)

le_of_eq : {a b : ℕ} → a ≡ b → a ≤ b
le_of_eq h = omega arith

-- While the logs of a case are aligned, every allowed transition of it goes through and keeps them
-- aligned.
pub transition-IsAligned :
    (case : RecoveryCase) (to : RecoveryCaseState) (call : TransitionCall) (s : Store)
    → IsAligned case.id s
    → is_allowed case.state to ≡ true
    → (s' : Store) × (transition case to call s ≡ ok s') × IsAligned case.id s'
unfolding transition
transition-IsAligned case to call s h a = (
  write_transition case to call (next_transition_sequence case.id s.transitions) s,
  rw (
    a,
    audit_taken-below case.id (next_transition_sequence case.id s.transitions) s.audit_events
        (le_of_eq h),
  ),
  write_transition-IsAligned case to call s h,
)

audit_taken-append :
    (key : ℕ) (es : List AuditEvent) (e : AuditEvent) (n : ℕ)
    → e.case_id ≡ key
    → e.sequence_number ≡ n
    → audit_taken key n (es ++ e ∷ []) ≡ true
unfolding audit_taken
audit_taken-append key [] e n h k = ground arith
audit_taken-append key (x ∷ es) e n h k = ground (arith, audit_taken-append key es e n)

record_audit-taken :
    (key n : ℕ) (s : Store) (event : String) (actor : ActorType) (correlation : String)
    → (from_state to_state : Option RecoveryCaseState) (actor_id : Option String) (now : ℕ)
    → next_audit_sequence key s.audit_events ≡ n
    → audit_taken key n
        (record_audit key event actor correlation from_state to_state actor_id now s).audit_events
      ≡ true
unfolding record_audit
record_audit-taken key n s event actor correlation from_state to_state actor_id now h =
    audit_taken-append key s.audit_events _ n refl h

-- Where the logs of a case are aligned, one audit row of the case that another service records, as the opening or an update of the case, a
-- policy evaluation that moves nothing or a recommendation do, makes the next transition of that
-- case fail, whatever state it is to.
pub record_audit-blocks :
    (case : RecoveryCase) (to : RecoveryCaseState) (call : TransitionCall) (s : Store)
    → (event : String) (actor : ActorType) (correlation : String)
    → (from_state to_state : Option RecoveryCaseState) (actor_id : Option String) (now : ℕ)
    → IsAligned case.id s
    → is_allowed case.state to ≡ true
    → transition case to call
        (record_audit case.id event actor correlation from_state to_state actor_id now s)
      ≡ err WorkflowError.integrity_error
unfolding transition record_audit
record_audit-blocks case to call s event actor correlation from_state to_state actor_id now h a =
    rw (
      a,
      record_audit-taken case.id (next_transition_sequence case.id s.transitions) s event actor
          correlation from_state to_state actor_id now h,
    )
