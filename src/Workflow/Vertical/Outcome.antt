-- ===== src/Workflow/Vertical/Outcome.antt =====
-- The two ends of a run of the vertical workflow, and how its branches reach them.
use revenue_rescue_ai.Common.{[], inl, inr, length, none, refl, ◌++◌, ◌+◌, ◌∙◌, ◌∷◌, ◌≡◌, ◌≢◌, ◌⊎◌}
use revenue_rescue_ai.Enums.{RecoveryAttemptStatus}
use revenue_rescue_ai.Agents.{AgentDecisionOutput, ToolStatus}
use revenue_rescue_ai.Domain.{RecoveryAttempt, RecoveryCase}
use revenue_rescue_ai.Policy.Safety.{PolicyOutcome, SafetyDecision}
use revenue_rescue_ai.Store.{Store, attempts_of}
use revenue_rescue_ai.Workflow.Transition.Numbering.{IsAligned}
use revenue_rescue_ai.Workflow.Vertical.{VerticalCall, VerticalWorkflowResult, planned_attempt}
use revenue_rescue_ai.Workflow.Vertical.Branches.{Branched}
use revenue_rescue_ai.Workflow.Vertical.Verdict.{IsCoherent, end_state}

-- The end of a run that the policy does not allow
abbrev pub Refused : SafetyDecision → Store → Store → VerticalWorkflowResult → Type 0
Refused policy s s' r =
    (policy.outcome ≢ PolicyOutcome.allow)
    × (r.tool_status ≡ ToolStatus.not_executed)
    × (s'.attempts ≡ s.attempts)

-- The end of a run that the policy allows: the one attempt that it adds
abbrev pub Planned :
    VerticalCall
    → RecoveryCase
    → AgentDecisionOutput
    → SafetyDecision
    → Store
    → Store
    → VerticalWorkflowResult
    → Type 0
Planned call case d policy s s' r =
    let n = length (attempts_of case.id s) + 1 in
    (policy.outcome ≡ PolicyOutcome.allow)
    × (r.tool_status ≡ ToolStatus.planned)
    × ((a : RecoveryAttempt) × (s'.attempts ≡ s.attempts ++ a ∷ [])
        × (a.case_id ≡ case.id)
        × (a.sequence_number ≡ n)
        × (a.status ≡ RecoveryAttemptStatus.planned)
        × (a.action_type ≡ d.action)
        × (a.finished_at ≡ none)
        × (a.idempotency_key ≡ call.idempotency_key case.id n))

abbrev pub Ends :
    VerticalCall
    → RecoveryCase
    → AgentDecisionOutput
    → SafetyDecision
    → Store
    → Store
    → VerticalWorkflowResult
    → Type 0
Ends call case d policy s s' r =
    (r.final_state ≡ end_state policy.outcome)
    × (Refused policy s s' r ⊎ Planned call case d policy s s' r)
    × (r.decision ≡ d)
    × (r.policy ≡ policy)
    × (s'.executions ≡ s.executions)
    × IsAligned case.id s'

pub Branched-Ends :
    (call : VerticalCall) (case : RecoveryCase) (d : AgentDecisionOutput) (policy : SafetyDecision)
    → (s s' : Store) (r : VerticalWorkflowResult) → IsCoherent policy
    → Branched call case d policy s s' r
    → Ends call case d policy s s' r
unfolding IsCoherent planned_attempt
Branched-Ends call case d policy s s' r (inl (o, k)) (inl (e, f, u, w), dd, pp, y, h) = cc
Branched-Ends call case d policy s s' r (inl (o, k)) (inr (e, f, u, w), dd, pp, y, h) = (
  f ∙ rw o refl,
  inr (
    o,
    u,
    (
      planned_attempt call case d (length (attempts_of case.id s) + 1),
      w,
      refl,
      refl,
      refl,
      refl,
      refl,
      refl,
    ),
  ),
  dd,
  pp,
  y,
  h,
)
Branched-Ends call case d policy s s' r (inr (o, k, to)) (inl (e, f, u, w), dd, pp, y, h) =
    (f ∙ to, inl (o, u, w), dd, pp, y, h)
Branched-Ends call case d policy s s' r (inr (o, k, to)) (inr (e, f, u, w), dd, pp, y, h) = cc
