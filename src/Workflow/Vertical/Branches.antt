-- ===== src/Workflow/Vertical/Branches.antt =====
-- The two branches of the vertical workflow after the verdict of the policy, and how each ends.
use revenue_rescue_ai.Common.{
  Bool, Text, [], ap, arith, codes, false, if◌then◌else◌, inl, inr, length, ok, refl, true, ℕ, ◌++◌,
  ◌+◌, ◌∙◌, ◌∷◌, ◌≡◌, ◌⊎◌,
}
use revenue_rescue_ai.Enums.{RecoveryCaseState}
use revenue_rescue_ai.Agents.{
  AgentDecisionOutput, ToolInput, ToolStatus, execute_tool, is_tool_input, planned_or_rejected,
  reason,
}
use revenue_rescue_ai.Domain.{RecoveryCase}
use revenue_rescue_ai.Policy.Safety.{SafetyDecision}
use revenue_rescue_ai.Store.{Store, attempts_of}
use revenue_rescue_ai.Workflow.Transition.{
  TransitionCall, allowed_transitions, is_allowed, moved, transition, write_transition,
}
use revenue_rescue_ai.Workflow.Transition.Numbering.{IsAligned, transition-IsAligned}
use revenue_rescue_ai.Workflow.Vertical.{
  VerticalCall, VerticalWorkflowResult, act, attempt_taken, is_refused, move, planned_attempt,
  reason_value, refuse, tool_input, vertical_call, vertical_result,
}

-- What a call of `transition` leaves alone
abbrev pub SameRest : Store → Store → Type 0
SameRest s s' = (s'.attempts ≡ s.attempts) × (s'.executions ≡ s.executions)

transition-SameRest :
    (case : RecoveryCase) (to : RecoveryCaseState) (call : TransitionCall) (s s' : Store)
    → transition case to call s ≡ ok s'
    → SameRest s s'
unfolding transition write_transition
transition-SameRest case to call s s' h = ground arith

pub move-ok :
    (call : VerticalCall) (reading : ℕ) (cause : Text) (to : RecoveryCaseState)
    → (case : RecoveryCase) (s : Store) → IsAligned case.id s
    → is_allowed case.state to ≡ true
    → (s' : Store) × (move call reading cause to case s
        ≡ ok (moved to (call.clock reading) case, s'))
      × IsAligned case.id s'
      × SameRest s s'
unfolding move
move-ok call reading cause to case s h a =
    let (s', e, h') = transition-IsAligned case to (vertical_call call reading cause) s h a in
    (
      s',
      rw (move, e) refl,
      h',
      transition-SameRest case to (vertical_call call reading cause) s s' e,
    )

execute-planned :
    (input : ToolInput)
    → is_tool_input input ≡ true
    → execute_tool true input ≡ ok ToolStatus.planned
unfolding execute_tool planned_or_rejected
execute-planned (ToolInput.draft_recovery_intent case_id action rationale key) h = rw h refl
execute-planned (ToolInput.escalate_recovery_case case_id reason priority) h = rw h refl

-- The end of a refused run: the case is with an operator or stopped, and nothing was planned.
abbrev pub Refuses : SafetyDecision → Store → Store → VerticalWorkflowResult → Type 0
Refuses policy s s' r =
    (is_refused policy ≡ true)
    × (r.final_state ≡ (
        if policy.should_escalate then RecoveryCaseState.escalated else RecoveryCaseState.stopped))
    × (r.tool_status ≡ ToolStatus.not_executed)
    × (s'.attempts ≡ s.attempts)

-- The end of an allowed run: one attempt is planned, and the case waits for verification.
abbrev pub Plans :
    VerticalCall
    → RecoveryCase
    → AgentDecisionOutput
    → SafetyDecision
    → Store
    → Store
    → VerticalWorkflowResult
    → Type 0
Plans call case d policy s s' r =
    (is_refused policy ≡ false)
    × (r.final_state ≡ RecoveryCaseState.verification_pending)
    × (r.tool_status ≡ ToolStatus.planned)
    × (s'.attempts
        ≡ s.attempts ++ planned_attempt call case d (length (attempts_of case.id s) + 1) ∷ [])

-- One of the two ends, by the verdict of the policy; no execution is added, and the logs of the case
-- stay aligned.
abbrev pub Branched :
    VerticalCall
    → RecoveryCase
    → AgentDecisionOutput
    → SafetyDecision
    → Store
    → Store
    → VerticalWorkflowResult
    → Type 0
Branched call case d policy s s' r =
    (Refuses policy s s' r ⊎ Plans call case d policy s s' r)
    × (r.decision ≡ d)
    × (r.policy ≡ policy)
    × (s'.executions ≡ s.executions)
    × IsAligned case.id s'

-- What the allowed branch needs of the attempts and of the tool's payload
abbrev pub CanAct : VerticalCall → RecoveryCase → AgentDecisionOutput → Store → Type 0
CanAct call case d s =
    let n = length (attempts_of case.id s) + 1 in
    (attempt_taken (planned_attempt call case d n) s.attempts ≡ false)
    × (is_tool_input (tool_input call case d n) ≡ true)

-- The moves of the two branches
refusable :
    (escalates : Bool)
    → is_allowed RecoveryCaseState.awaiting_decision
        (if escalates then RecoveryCaseState.escalated else RecoveryCaseState.stopped)
      ≡ true
unfolding is_allowed allowed_transitions
refusable true = refl
refusable false = refl

pub ready_next : is_allowed RecoveryCaseState.detected RecoveryCaseState.context_ready ≡ true
unfolding is_allowed allowed_transitions
ready_next = refl

pub waiting_next :
    is_allowed RecoveryCaseState.context_ready RecoveryCaseState.awaiting_decision ≡ true
unfolding is_allowed allowed_transitions
waiting_next = refl

actable : is_allowed RecoveryCaseState.awaiting_decision RecoveryCaseState.action_pending ≡ true
unfolding is_allowed allowed_transitions
actable = refl

verifiable :
    is_allowed RecoveryCaseState.action_pending RecoveryCaseState.verification_pending ≡ true
unfolding is_allowed allowed_transitions
verifiable = refl

pub refuse-Branched :
    (call : VerticalCall) (case : RecoveryCase) (d : AgentDecisionOutput) (policy : SafetyDecision)
    → (s : Store) → case.state ≡ RecoveryCaseState.awaiting_decision
    → IsAligned case.id s
    → is_refused policy ≡ true
    → (r : VerticalWorkflowResult) × (s' : Store) × (refuse call case d policy s ≡ ok (r, s'))
      × Branched call case d policy s s' r
unfolding refuse moved vertical_result
refuse-Branched call case d policy s waits h e =
    let target =
      if policy.should_escalate then RecoveryCaseState.escalated else RecoveryCaseState.stopped in
    let (s', m, h', (t, x)) =
      move-ok call 2 (codes (reason_value policy.reason)) target case s h
        (rw waits (refusable policy.should_escalate)) in
    (
      vertical_result (moved target (call.clock 2) case) d policy ToolStatus.not_executed s',
      s',
      rw m refl,
      (inl (e, refl, refl, t), refl, refl, x, h'),
    )

pub act-Branched :
    (call : VerticalCall) (case : RecoveryCase) (d : AgentDecisionOutput) (policy : SafetyDecision)
    → (s : Store) → case.state ≡ RecoveryCaseState.awaiting_decision
    → IsAligned case.id s
    → is_refused policy ≡ false
    → CanAct call case d s
    → (r : VerticalWorkflowResult) × (s' : Store) × (act call case d policy
          (length (attempts_of case.id s) + 1)
          s
        ≡ ok (r, s'))
      × Branched call case d policy s s' r
unfolding act moved vertical_result planned_attempt tool_input
act-Branched call case d policy s waits h e (free, right) =
    let n = length (attempts_of case.id s) + 1 in
    let (s1, m1, h1, (t1, x1)) =
      move-ok call 2 (codes "policy_allowed") RecoveryCaseState.action_pending case s h
        (rw waits actable) in
    let pending = moved RecoveryCaseState.action_pending (call.clock 2) case in
    let added = record s1 { attempts = s1.attempts ++ planned_attempt call pending d n ∷ [] } in
    let (s2, m2, h2, (t2, x2)) =
      move-ok call 4 (codes "action_requires_provider_verification")
        RecoveryCaseState.verification_pending pending added h1 verifiable in
    let free1 : attempt_taken (planned_attempt call pending d n) s1.attempts ≡ false = rw t1 free in
    (
      vertical_result (moved RecoveryCaseState.verification_pending (call.clock 4) pending) d policy
          ToolStatus.planned s2,
      s2,
      rw (m1, free1, execute-planned (tool_input call pending d n) right, m2) refl,
      (
        inr (e, refl, refl, t2 ∙ ap (λ as'. as' ++ planned_attempt call case d n ∷ []) t1),
        refl,
        refl,
        x2 ∙ x1,
        h2,
      ),
    )
