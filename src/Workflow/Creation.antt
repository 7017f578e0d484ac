-- ===== src/Workflow/Creation.antt =====
-- `WorkflowCreationService` of backend/app/workflows/creation_service.py.
pub mod Bounded
use revenue_rescue_ai.Common.{
  List, Option, Result, [], find?, guard, is_none, nat_eq, none, ok, or_fail, ℕ, ◌*◌, ◌++◌, ◌+◌,
  ◌==◌, ◌>>=◌, ◌>>◌, ◌∷◌,
}
use revenue_rescue_ai.Enums.{
  ActionType, PolicyDecisionStatus, RecoveryCaseState, WorkflowStatus, WorkflowStepStatus,
  WorkflowStepType, policy_decision_status_eq, recovery_case_state_eq,
}
use revenue_rescue_ai.Domain.{PolicyDecision, RecoveryWorkflow, WorkflowStep}
use revenue_rescue_ai.Policy.Config.{hour}
use revenue_rescue_ai.Store.{Store, find_case}
use revenue_rescue_ai.Workflow.Tables.{find_active_by_case}
use revenue_rescue_ai.Workflow.Transition.{WorkflowError}

-- A new row of `steps`; its id is the number of the workflow's first step id plus the index.
abbrev pub new_step : ℕ → ℕ → ActionType → ℕ → WorkflowStepType → WorkflowStep
new_step workflow first_id action index type = record {
  id = first_id + index;
  workflow_id = workflow;
  step_index = index;
  step_type = type;
  status = WorkflowStepStatus.pending;
  action_type = action;
  executed_at = none;
}

-- `_build_steps`
unfoldable pub build_steps : ℕ → ℕ → ActionType → List WorkflowStep
build_steps workflow first_id ActionType.retry_payment =
    let step = new_step workflow first_id ActionType.retry_payment in
    step 1 WorkflowStepType.validate_authorization
    ∷ step 2 WorkflowStepType.wait_cooldown
    ∷ step 3 WorkflowStepType.dispatch_payment_retry
    ∷ step 4 WorkflowStepType.await_verification
    ∷ []
build_steps workflow first_id ActionType.send_reminder =
    let step = new_step workflow first_id ActionType.send_reminder in
    step 1 WorkflowStepType.validate_authorization
    ∷ step 2 WorkflowStepType.dispatch_communication
    ∷ []
build_steps workflow first_id ActionType.request_operator_review =
    new_step workflow first_id ActionType.request_operator_review 1
      WorkflowStepType.create_support_task
    ∷ []
build_steps workflow first_id _ = []

-- The clock, the identifiers that `uuid4` gives, and the hours of `max_workflow_hours`.
pub record CreationCall : Type 0 where
  pub now : ℕ
  pub workflow_id : ℕ
  pub first_step_id : ℕ
  pub max_workflow_hours : ℕ

-- The new row of `workflows`.
abbrev pub new_workflow : CreationCall → PolicyDecision → ℕ → RecoveryWorkflow
new_workflow call decision case_id = record {
  id = call.workflow_id;
  case_id = case_id;
  policy_decision_id = decision.id;
  status = WorkflowStatus.pending;
  max_steps = 10;
  scheduled_for = call.now;
  expires_at = call.now + call.max_workflow_hours * hour;
}

-- The writes of `create_workflow_for_decision`.
unfoldable pub write_workflow : CreationCall → PolicyDecision → ℕ → Store → Store
unfolding build_steps
write_workflow call decision case_id s = record s {
  workflows = s.workflows ++ new_workflow call decision case_id ∷ [];
  steps = s.steps ++ build_steps call.workflow_id call.first_step_id decision.proposed_action;
}

unfoldable pub find_policy_decision_by_id : ℕ → Store → Option PolicyDecision
find_policy_decision_by_id key s = find? (λ d. d.id == key) s.policy_decisions

-- `WorkflowCreationService.create_workflow_for_decision`
unfoldable pub create_workflow_for_decision :
    CreationCall → ℕ → Store → Result WorkflowError (RecoveryWorkflow × Store)
create_workflow_for_decision call decision_id s = do
  decision ← or_fail (find_policy_decision_by_id decision_id s) WorkflowError.decision_not_found
  guard (decision.decision_status == PolicyDecisionStatus.approved)
      WorkflowError.decision_not_approved
  case ← or_fail (find_case decision.case_id s) WorkflowError.case_not_found
  guard (case.state == RecoveryCaseState.action_pending) WorkflowError.case_not_actionable
  guard (is_none (find_active_by_case case.id s)) WorkflowError.workflow_already_active
  ok (new_workflow call decision case.id, write_workflow call decision case.id s)
