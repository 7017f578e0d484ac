-- ===== src/Workflow/Vertical/Ends.antt =====
-- How a run of the vertical workflow ends.
use mathlib.Core.Path.{subst}
use revenue_rescue_ai.Common.{Bool-cases, Option, ap, codes, inl, inr, ok, refl, ◌∙◌, ◌≡◌}
use revenue_rescue_ai.Enums.{RecoveryCaseState}
use revenue_rescue_ai.Agents.{AgentDecisionOutput, reason}
use revenue_rescue_ai.Domain.{Customer, RecoveryCase, Transaction}
use revenue_rescue_ai.Policy.Safety.{SafetyDecision, evaluate_safety}
use revenue_rescue_ai.Store.{Store, attempts_of}
use revenue_rescue_ai.Workflow.Transition.{moved}
use revenue_rescue_ai.Workflow.Transition.Numbering.{IsAligned}
use revenue_rescue_ai.Workflow.Vertical.{
  VerticalCall, VerticalWorkflowResult, follow, is_refused, observe, planned_attempt,
  policy_context, record_decision, run_recovery, tool_input,
}
use revenue_rescue_ai.Workflow.Vertical.Branches.{
  Branched, CanAct, SameRest, act-Branched, move-ok, ready_next, refuse-Branched, waiting_next,
}
use revenue_rescue_ai.Workflow.Vertical.Outcome.{Branched-Ends, Ends}
use revenue_rescue_ai.Workflow.Vertical.Verdict.{evaluate_safety-IsCoherent}

follow-Branched :
    (call : VerticalCall) (case : RecoveryCase) (txn : Transaction) (d : AgentDecisionOutput)
    → (s : Store) → case.state ≡ RecoveryCaseState.awaiting_decision
    → IsAligned case.id s
    → CanAct call case d s
    → (r : VerticalWorkflowResult) × (s' : Store) × (follow call case txn d s ≡ ok (r, s'))
      × Branched call case d (evaluate_safety call.config (policy_context call case txn d s)) s s' r
unfolding follow
follow-Branched call case txn d s waits h can =
    let policy = evaluate_safety call.config (policy_context call case txn d s) in
    elim (Bool-cases (is_refused policy)) [
      | inl e ↦
          let (r, s', m, ends) = refuse-Branched call case d policy s waits h e in
          (r, s', rw e m, ends)
      | inr e ↦
          let (r, s', m, ends) = act-Branched call case d policy s waits h e can in
          (r, s', rw e m, ends)
    ]

-- The states of the case in the session and in the tables differ in nothing that the end depends on.
Branched-from :
    (call : VerticalCall) (case : RecoveryCase) (d : AgentDecisionOutput) (policy : SafetyDecision)
    → (s t s' : Store) (r : VerticalWorkflowResult) → SameRest s t
    → Branched call case d policy t s' r
    → Branched call case d policy s s' r
unfolding attempts_of
Branched-from call case d policy s t s' r (a, x) (inl (e, f, u, w), dd, pp, y, h) =
    (inl (e, f, u, w ∙ a), dd, pp, y ∙ x, h)
Branched-from call case d policy s t s' r (a, x) (inr (e, f, u, w), dd, pp, y, h) =
    (inr (e, f, u, (rw a at w)), dd, pp, y ∙ x, h)

-- The case as the policy and the brain see it
abbrev pub waiting : RecoveryCase → RecoveryCase
waiting case = record case { state = RecoveryCaseState.awaiting_decision }

-- The case after the first two moves
abbrev moved_twice : VerticalCall → RecoveryCase → RecoveryCase
moved_twice call case =
    moved RecoveryCaseState.awaiting_decision (call.clock 1)
      (moved RecoveryCaseState.context_ready (call.clock 0) case)

observe-rest :
    (call : VerticalCall) (case : RecoveryCase) (txn : Transaction) (customer : Option Customer)
    → (s t : Store) → t.attempts ≡ s.attempts
    → observe call (moved_twice call case) txn customer t
      ≡ observe call (waiting case) txn customer s
unfolding observe attempts_of moved
observe-rest call case txn customer s t a = rw a refl

policy_context-rest :
    (call : VerticalCall) (case : RecoveryCase) (txn : Transaction) (d : AgentDecisionOutput)
    → (s t : Store) → t.attempts ≡ s.attempts
    → policy_context call (moved_twice call case) txn d t
      ≡ policy_context call (waiting case) txn d s
unfolding policy_context attempts_of moved
policy_context-rest call case txn d s t a = rw a refl

CanAct-rest :
    (call : VerticalCall) (case : RecoveryCase) (d : AgentDecisionOutput) (s t : Store)
    → t.attempts ≡ s.attempts
    → CanAct call case d s
    → CanAct call (moved_twice call case) d t
unfolding planned_attempt tool_input attempts_of moved
CanAct-rest call case d s t a (free, right) = (rw a free, rw a right)

-- A run on a detected case whose logs are aligned always ends, if the brain answers, the number and
-- the key of the attempt are free, and the payload of the tool is well-formed. The end is the one
-- that the outcome of the safety policy asks for: escalated when it escalates, stopped when it stops
-- or rejects, each with no attempt added; waiting for verification when it allows, with exactly one
-- attempt added, which has the next number and the decision's action, and is only planned. No
-- execution is added in any of them, and the logs stay aligned.
pub run_recovery-Ends :
    (call : VerticalCall) (case : RecoveryCase) (txn : Transaction) (customer : Option Customer)
    → (s : Store) (d : AgentDecisionOutput) → case.state ≡ RecoveryCaseState.detected
    → IsAligned case.id s
    → reason call.decide (observe call (waiting case) txn customer s) ≡ ok d
    → CanAct call case d s
    → (r : VerticalWorkflowResult) × (s' : Store) × (run_recovery call case txn customer s
        ≡ ok (r, s'))
      × Ends call case d
          (evaluate_safety call.config (policy_context call (waiting case) txn d s))
          s
          s'
          r
unfolding run_recovery moved record_decision
run_recovery-Ends call case txn customer s d detected h answer can =
    let (s1, m1, h1, (t1, x1)) =
      move-ok call 0 (codes "context_collected") RecoveryCaseState.context_ready case s h
        (rw detected ready_next) in
    let ready = moved RecoveryCaseState.context_ready (call.clock 0) case in
    let (s2, m2, h2, (t2, x2)) =
      move-ok call 1 (codes "awaiting_bounded_agent") RecoveryCaseState.awaiting_decision ready s1
        h1 waiting_next in
    let rest = t2 ∙ t1 in
    let s3 = record_decision call (moved_twice call case) d s2 in
    let (r, s', m, ends) =
      follow-Branched call (moved_twice call case) txn d s3 refl h2
        (CanAct-rest call case d s s3 rest can) in
    (
      r,
      s',
      rw (m1, m2, observe-rest call case txn customer s s2 rest, answer) m,
      Branched-Ends call case d _ s s' r
          (evaluate_safety-IsCoherent call.config (policy_context call (waiting case) txn d s))
          (Branched-from call case d _ s s3 s' r (rest, x2 ∙ x1)
            (subst (λ policy. Branched call (moved_twice call case) d policy s3 s' r)
              (ap (evaluate_safety call.config) (policy_context-rest call case txn d s s3 rest))
              ends)),
    )
