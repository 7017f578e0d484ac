-- ===== src/Workflow/Tables.antt =====
-- The workflow tables under `WorkflowRepository` and `WorkflowStepRepository`
-- (backend/app/repositories/workflows.py), and the assignments to rows that the session has loaded.
use revenue_rescue_ai.Common.{
  List, Option, [], contains, filter, find?, if◌then◌else◌, nat_eq, none, some, ℕ, ◌&&◌, ◌==◌, ◌∷◌,
}
use revenue_rescue_ai.Enums.{
  RecoveryAttemptStatus, WorkflowStatus, WorkflowStepStatus, workflow_status_eq,
}
use revenue_rescue_ai.Domain.{RecoveryAttempt, RecoveryWorkflow, WorkflowStep}
use revenue_rescue_ai.Store.{Store}

unfoldable pub find_workflow : ℕ → Store → Option RecoveryWorkflow
find_workflow key s = find? (λ w. w.id == key) s.workflows

-- `workflow.steps`: a workflow's steps were added in the order of their index.
unfoldable pub steps_of : ℕ → Store → List WorkflowStep
steps_of key s = filter (λ t. t.workflow_id == key) s.steps

abbrev pub active_statuses : List WorkflowStatus
active_statuses =
    WorkflowStatus.running ∷ WorkflowStatus.scheduled ∷ WorkflowStatus.pending
    ∷ WorkflowStatus.waiting ∷ []

-- `find_active_by_case`
unfoldable pub find_active_by_case : ℕ → Store → Option RecoveryWorkflow
find_active_by_case key s =
    find? (λ w. w.case_id == key && contains active_statuses w.status) s.workflows

-- `workflow.status = status`
unfoldable pub put_workflow_status :
    ℕ → WorkflowStatus → List RecoveryWorkflow → List RecoveryWorkflow
put_workflow_status key status [] = []
put_workflow_status key status (w ∷ ws) =
    (if w.id == key then record w { status = status } else w) ∷ put_workflow_status key status ws

unfoldable pub set_workflow : ℕ → WorkflowStatus → Store → Store
set_workflow key status s = record s { workflows = put_workflow_status key status s.workflows }

-- `step.status = status; step.executed_at = ...`, the time only if one is given
unfoldable pub put_step_status :
    ℕ → WorkflowStepStatus → Option ℕ → List WorkflowStep → List WorkflowStep
put_step_status key status at [] = []
put_step_status key status at (t ∷ ts) =
    (if t.id == key
      then record t {
        status = status;
        executed_at = elim at [ none ↦ t.executed_at | some now ↦ some now ];
      }
      else t)
    ∷ put_step_status key status at ts

unfoldable pub set_step : ℕ → WorkflowStepStatus → Option ℕ → Store → Store
set_step key status at s = record s { steps = put_step_status key status at s.steps }

-- `step.executed_at = at`
unfoldable pub put_step_time : ℕ → ℕ → List WorkflowStep → List WorkflowStep
put_step_time key at [] = []
put_step_time key at (t ∷ ts) =
    (if t.id == key then record t { executed_at = some at } else t) ∷ put_step_time key at ts

unfoldable pub set_step_time : ℕ → ℕ → Store → Store
set_step_time key at s = record s { steps = put_step_time key at s.steps }

-- `attempt.status = status`, on the attempt of a case with a number
unfoldable pub put_attempt_status :
    ℕ → ℕ → RecoveryAttemptStatus → List RecoveryAttempt → List RecoveryAttempt
put_attempt_status key n status [] = []
put_attempt_status key n status (a ∷ as') =
    (if a.case_id == key && a.sequence_number == n then record a { status = status } else a)
    ∷ put_attempt_status key n status as'

unfoldable pub set_attempt : ℕ → ℕ → RecoveryAttemptStatus → Store → Store
set_attempt key n status s = record s { attempts = put_attempt_status key n status s.attempts }
