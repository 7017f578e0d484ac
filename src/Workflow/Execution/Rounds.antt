-- ===== src/Workflow/Execution/Rounds.antt =====
-- The loop of `execute_all_available_steps` ends before its bound does.
use revenue_rescue_ai.Common.{
  Bool, Bool-cases, List, Option, [], any, arith, bind-ok, bind-same, contains, find?, guard, inl,
  inr, length, none, not, ok, ok-injective, or_fail, refl, some, suc, true, zero, ℕ, ◌+◌, ◌<◌, ◌∷◌,
  ◌≡◌, ◌≤◌,
}
use revenue_rescue_ai.Enums.{WorkflowStatus, WorkflowStepStatus, workflow_status_eq}
use revenue_rescue_ai.Domain.{RecoveryCase, RecoveryWorkflow, WorkflowStep}
use revenue_rescue_ai.Store.{Store, find_case}
use revenue_rescue_ai.Workflow.Execution.{Gateway, StepCall}
use revenue_rescue_ai.Workflow.Execution.Fewer.{execute_step-Fewer}
use revenue_rescue_ai.Workflow.Execution.Pending.{
  count_pending, count_pending-length, put_step_status-less,
}
use revenue_rescue_ai.Workflow.Execution.Run.{
  ended_statuses, execute_found, execute_next_step, execute_step, has_stopped, is_pending,
  is_resting, run_steps,
}
use revenue_rescue_ai.Workflow.Tables.{find_workflow, set_step, set_workflow, steps_of}
use revenue_rescue_ai.Workflow.Transition.{WorkflowError}

find-any {ℓ} :
    {A : Type ℓ} (p : A → Bool) (xs : List A) → any p xs ≡ true → (x : A) × (find? p xs ≡ some x)
find-any p [] h = cc
find-any p (x ∷ xs) h = elim (Bool-cases (p x)) [
  | inl e ↦ (x, rw e)
  | inr e ↦ let (y, f) = find-any p xs (rw e at h) in (y, rw (e, f))
]

lt_of_le-lt : {a b c : ℕ} → a ≤ b → b < c → a < c
lt_of_le-lt h k = omega arith

lt_of_lt-suc : {a b n : ℕ} → a < b → b < suc n → a < n
lt_of_lt-suc h k = omega arith

execute_found-less :
    (w : ℕ) (gateway : Gateway) (call : StepCall) (workflow : RecoveryWorkflow)
    → (case : RecoveryCase) (step : WorkflowStep) (s : Store) (r : Option ℕ × Store)
    → find? is_pending (steps_of w s) ≡ some step
    → execute_found gateway call workflow case (some step) s ≡ ok r
    → count_pending w r.1.steps < count_pending w s.steps
unfolding execute_found steps_of set_workflow set_step
execute_found-less w gateway call workflow case step s r f h =
    let (s', done, e) =
      bind-ok
        (execute_step step.step_type gateway call workflow step case (
          set_workflow workflow.id WorkflowStatus.running
            (set_step step.id WorkflowStepStatus.running none s)))
        _ r h in
    let fewer = execute_step-Fewer w step.step_type gateway call workflow step case _ s' done in
    let less = put_step_status-less w WorkflowStepStatus.running none step s.steps refl f in
    rw (← ok-injective e) (lt_of_le-lt fewer less)

execute_next_step-less :
    (gateway : Gateway) (call : StepCall) (w : ℕ) (s : Store) (r : Option ℕ × Store)
    → any is_pending (steps_of w s) ≡ true
    → execute_next_step gateway call w s ≡ ok r
    → count_pending w r.1.steps < count_pending w s.steps
unfolding execute_next_step
execute_next_step-less gateway call w s r more h =
    let (step, found) = find-any is_pending (steps_of w s) more in
    let (workflow, a, h1) =
      bind-ok (or_fail (find_workflow w s) WorkflowError.workflow_not_found) _ r h in
    let (u, b, h2) =
      bind-ok
        (guard (not (contains ended_statuses workflow.status)) WorkflowError.terminal_workflow) _ r
        h1 in
    let (case, c, h3) =
      bind-ok (or_fail (find_case workflow.case_id s) WorkflowError.case_not_found) _ r h2 in
    execute_found-less w gateway call workflow case step s r found (rw found at h3)

-- With more rounds than there are steps left, the number of rounds makes no difference.
run_steps-same :
    (n m : ℕ) (gateway : Gateway) (call : StepCall) (w : ℕ) (s : Store)
    → count_pending w s.steps < n
    → count_pending w s.steps < m
    → run_steps n gateway call w s ≡ run_steps m gateway call w s
unfolding run_steps
run_steps-same zero m gateway call w s h k = absurd (omega arith)
run_steps-same (suc n) zero gateway call w s h k = absurd (omega arith)
run_steps-same (suc n) (suc m) gateway call w s h k = elim (Bool-cases (is_resting w s)) [
  | inl e ↦ rw e
  | inr e ↦ elim (Bool-cases (any is_pending (steps_of w s))) [
    | inr e' ↦ rw (e, e')
    | inl e' ↦
        rw (e, e')
          (bind-same (execute_next_step gateway call w s) _ _ (λ r done.
            let less = execute_next_step-less gateway call w s r e' done in
            elim (Bool-cases (has_stopped r.0 r.1)) [
              | inl stop ↦ rw stop
              | inr go ↦ rw go (
                  run_steps-same n m gateway call w r.1 (lt_of_lt-suc less h) (lt_of_lt-suc less k))
            ]))
  ]
]

-- The bound on the rounds, two more than the workflow has steps, is never what ends the loop: with
-- any number of rounds more, whatever the gateway answers, the call gives the same result.
pub run_steps-enough :
    (extra : ℕ) (gateway : Gateway) (call : StepCall) (workflow_id : ℕ) (s : Store)
    → run_steps (length (steps_of workflow_id s) + 2 + extra) gateway call workflow_id s
      ≡ run_steps (length (steps_of workflow_id s) + 2) gateway call workflow_id s
unfolding steps_of
run_steps-enough extra gateway call workflow_id s =
    let below = count_pending-length workflow_id s.steps in
    run_steps-same _ _ gateway call workflow_id s (omega arith) (omega arith)
