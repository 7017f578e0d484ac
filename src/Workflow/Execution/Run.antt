-- ===== src/Workflow/Execution/Run.antt =====
-- `execute_next_step` and `execute_all_available_steps` of backend/app/workflows/execution_service.py.
use revenue_rescue_ai.Common.{
  Bool, List, Option, Result, [], any, contains, false, find?, guard, if◌then◌else◌, length, nat_eq,
  none, not, ok, or_fail, some, suc, true, zero, ℕ, ◌&&◌, ◌+◌, ◌==◌, ◌>>=◌, ◌>>◌, ◌∷◌,
}
use revenue_rescue_ai.Enums.{
  WorkflowStatus, WorkflowStepStatus, WorkflowStepType, workflow_status_eq, workflow_step_status_eq,
}
use revenue_rescue_ai.Domain.{RecoveryCase, RecoveryWorkflow, WorkflowStep}
use revenue_rescue_ai.Store.{Store, find_case}
use revenue_rescue_ai.Workflow.Execution.{
  Gateway, StepCall, execute_await_verification, execute_dispatch_payment_retry,
  execute_validate_authorization, execute_wait_cooldown,
}
use revenue_rescue_ai.Workflow.Tables.{find_workflow, set_step, set_workflow, steps_of}
use revenue_rescue_ai.Workflow.Transition.{WorkflowError}

-- The dispatch by the type of the step.
unfoldable pub execute_step :
    WorkflowStepType
    → Gateway
    → StepCall
    → RecoveryWorkflow
    → WorkflowStep
    → RecoveryCase
    → Store
    → Result WorkflowError Store
execute_step WorkflowStepType.validate_authorization gateway call workflow step case s =
    execute_validate_authorization call workflow step case s
execute_step WorkflowStepType.wait_cooldown gateway call workflow step case s =
    ok (execute_wait_cooldown call step s)
execute_step WorkflowStepType.dispatch_payment_retry gateway call workflow step case s =
    execute_dispatch_payment_retry gateway call workflow step case s
execute_step WorkflowStepType.await_verification gateway call workflow step case s =
    ok (execute_await_verification workflow step s)
execute_step _ gateway call workflow step case s =
    ok (set_step step.id WorkflowStepStatus.completed (some call.now) s)

-- `s.status in (PENDING, SCHEDULED)`
abbrev pub is_pending : WorkflowStep → Bool
is_pending t = contains (WorkflowStepStatus.pending ∷ WorkflowStepStatus.scheduled ∷ []) t.status

abbrev pub ended_statuses : List WorkflowStatus
ended_statuses = WorkflowStatus.completed ∷ WorkflowStatus.failed ∷ WorkflowStatus.cancelled ∷ []

-- The last step, if there is one.
abbrev last_step : List WorkflowStep → Option ℕ
last_step [] = none
last_step (t ∷ []) = some t.id
last_step (t ∷ u ∷ ts) = last_step (u ∷ ts)

-- The part of `execute_next_step` after the step has been looked for. The result is the id of the
-- step that is returned.
unfoldable pub execute_found :
    Gateway
    → StepCall
    → RecoveryWorkflow
    → RecoveryCase
    → Option WorkflowStep
    → Store
    → Result WorkflowError (Option ℕ × Store)
execute_found gateway call workflow case none s =
    ok (last_step (steps_of workflow.id s), set_workflow workflow.id WorkflowStatus.completed s)
execute_found gateway call workflow case (some step) s = do
  s' ← execute_step step.step_type gateway call workflow step case (
      set_workflow workflow.id WorkflowStatus.running
        (set_step step.id WorkflowStepStatus.running none s))
  ok (some step.id, s')

-- `execute_next_step`
unfoldable pub execute_next_step :
    Gateway → StepCall → ℕ → Store → Result WorkflowError (Option ℕ × Store)
execute_next_step gateway call workflow_id s = do
  workflow ← or_fail (find_workflow workflow_id s) WorkflowError.workflow_not_found
  guard (not (contains ended_statuses workflow.status)) WorkflowError.terminal_workflow
  case ← or_fail (find_case workflow.case_id s) WorkflowError.case_not_found
  execute_found gateway call workflow case (find? is_pending (steps_of workflow_id s)) s

-- The statuses at which the loop of `execute_all_available_steps` breaks.
abbrev pub resting_statuses : List WorkflowStatus
resting_statuses =
    WorkflowStatus.completed ∷ WorkflowStatus.failed ∷ WorkflowStatus.cancelled
    ∷ WorkflowStatus.waiting ∷ WorkflowStatus.requires_review ∷ []

-- `step.status in (WAITING, FAILED)`, on the row that the step now is
unfoldable pub has_stopped : Option ℕ → Store → Bool
has_stopped none s = false
has_stopped (some key) s =
    any
      (λ t.
        t.id == key
        && contains (WorkflowStepStatus.waiting ∷ WorkflowStepStatus.failed ∷ []) t.status)
      s.steps

abbrev pub is_resting : ℕ → Store → Bool
is_resting workflow_id s = elim (find_workflow workflow_id s) [
  | none ↦ true
  | some workflow ↦ contains resting_statuses workflow.status
]

-- The loop of `execute_all_available_steps`, with the iterations that are left.
unfoldable pub run_steps : ℕ → Gateway → StepCall → ℕ → Store → Result WorkflowError Store
run_steps zero gateway call workflow_id s = ok s
run_steps (suc left) gateway call workflow_id s =
    let rest : Option ℕ × Store → Result WorkflowError Store = λ r. elim (has_stopped r.0 r.1) [
      | true ↦ ok r.1
      | false ↦ run_steps left gateway call workflow_id r.1
    ] in
    if is_resting workflow_id s
    then ok s
    else if not (any is_pending (steps_of workflow_id s))
    then ok (set_workflow workflow_id WorkflowStatus.completed s)
    else execute_next_step gateway call workflow_id s >>= rest

-- `execute_all_available_steps`
unfoldable pub execute_all_available_steps :
    Gateway → StepCall → ℕ → Store → Result WorkflowError Store
unfolding run_steps
execute_all_available_steps gateway call workflow_id s = do
  workflow ← or_fail (find_workflow workflow_id s) WorkflowError.workflow_not_found
  run_steps (length (steps_of workflow_id s) + 2) gateway call workflow_id s
