-- ===== src/Enums/Workflows.antt =====
-- The workflow, execution and reconciliation enumerations of backend/app/core/enums.py, and `==` on those that are compared.
use revenue_rescue_ai.Common.{◌≡◌, ◌↔◌, Bool, true, false, arith, Eq}

pub data WorkflowStatus : Type 0 where
  created pending scheduled running waiting completed failed cancelled expired requires_review :
      WorkflowStatus

abbrev workflow_status_beq : WorkflowStatus → WorkflowStatus → Bool
workflow_status_beq WorkflowStatus.created WorkflowStatus.created = true
workflow_status_beq WorkflowStatus.pending WorkflowStatus.pending = true
workflow_status_beq WorkflowStatus.scheduled WorkflowStatus.scheduled = true
workflow_status_beq WorkflowStatus.running WorkflowStatus.running = true
workflow_status_beq WorkflowStatus.waiting WorkflowStatus.waiting = true
workflow_status_beq WorkflowStatus.completed WorkflowStatus.completed = true
workflow_status_beq WorkflowStatus.failed WorkflowStatus.failed = true
workflow_status_beq WorkflowStatus.cancelled WorkflowStatus.cancelled = true
workflow_status_beq WorkflowStatus.expired WorkflowStatus.expired = true
workflow_status_beq WorkflowStatus.requires_review WorkflowStatus.requires_review = true
workflow_status_beq _ _ = false

pub workflow_status_beq_iff : (a b : WorkflowStatus) → (workflow_status_beq a b ≡ true) ↔ (a ≡ b)
workflow_status_beq_iff a b = (λ h. ground arith, λ h. ground arith)

instance abbrev pub workflow_status_eq : Eq WorkflowStatus
workflow_status_eq = record { same = workflow_status_beq; same_iff = workflow_status_beq_iff }

pub data WorkflowStepType : Type 0 where
  validate_authorization wait_cooldown dispatch_payment_retry dispatch_communication
        create_support_task await_verification :
      WorkflowStepType

abbrev workflow_step_type_beq : WorkflowStepType → WorkflowStepType → Bool
workflow_step_type_beq WorkflowStepType.validate_authorization
      WorkflowStepType.validate_authorization =
    true
workflow_step_type_beq WorkflowStepType.wait_cooldown WorkflowStepType.wait_cooldown = true
workflow_step_type_beq WorkflowStepType.dispatch_payment_retry
      WorkflowStepType.dispatch_payment_retry =
    true
workflow_step_type_beq WorkflowStepType.dispatch_communication
      WorkflowStepType.dispatch_communication =
    true
workflow_step_type_beq WorkflowStepType.create_support_task WorkflowStepType.create_support_task =
    true
workflow_step_type_beq WorkflowStepType.await_verification WorkflowStepType.await_verification =
    true
workflow_step_type_beq _ _ = false

pub workflow_step_type_beq_iff :
    (a b : WorkflowStepType) → (workflow_step_type_beq a b ≡ true) ↔ (a ≡ b)
workflow_step_type_beq_iff a b = (λ h. ground arith, λ h. ground arith)

instance abbrev pub workflow_step_type_eq : Eq WorkflowStepType
workflow_step_type_eq = record {
  same = workflow_step_type_beq;
  same_iff = workflow_step_type_beq_iff;
}

pub data WorkflowStepStatus : Type 0 where
  pending scheduled running waiting completed failed cancelled skipped : WorkflowStepStatus

abbrev workflow_step_status_beq : WorkflowStepStatus → WorkflowStepStatus → Bool
workflow_step_status_beq WorkflowStepStatus.pending WorkflowStepStatus.pending = true
workflow_step_status_beq WorkflowStepStatus.scheduled WorkflowStepStatus.scheduled = true
workflow_step_status_beq WorkflowStepStatus.running WorkflowStepStatus.running = true
workflow_step_status_beq WorkflowStepStatus.waiting WorkflowStepStatus.waiting = true
workflow_step_status_beq WorkflowStepStatus.completed WorkflowStepStatus.completed = true
workflow_step_status_beq WorkflowStepStatus.failed WorkflowStepStatus.failed = true
workflow_step_status_beq WorkflowStepStatus.cancelled WorkflowStepStatus.cancelled = true
workflow_step_status_beq WorkflowStepStatus.skipped WorkflowStepStatus.skipped = true
workflow_step_status_beq _ _ = false

pub workflow_step_status_beq_iff :
    (a b : WorkflowStepStatus) → (workflow_step_status_beq a b ≡ true) ↔ (a ≡ b)
workflow_step_status_beq_iff a b = (λ h. ground arith, λ h. ground arith)

instance abbrev pub workflow_step_status_eq : Eq WorkflowStepStatus
workflow_step_status_eq = record {
  same = workflow_step_status_beq;
  same_iff = workflow_step_status_beq_iff;
}

pub data ExecutionStatus : Type 0 where
  submitted succeeded failed pending unknown cancelled : ExecutionStatus

abbrev execution_status_beq : ExecutionStatus → ExecutionStatus → Bool
execution_status_beq ExecutionStatus.submitted ExecutionStatus.submitted = true
execution_status_beq ExecutionStatus.succeeded ExecutionStatus.succeeded = true
execution_status_beq ExecutionStatus.failed ExecutionStatus.failed = true
execution_status_beq ExecutionStatus.pending ExecutionStatus.pending = true
execution_status_beq ExecutionStatus.unknown ExecutionStatus.unknown = true
execution_status_beq ExecutionStatus.cancelled ExecutionStatus.cancelled = true
execution_status_beq _ _ = false

pub execution_status_beq_iff : (a b : ExecutionStatus) → (execution_status_beq a b ≡ true) ↔ (a ≡ b)
execution_status_beq_iff a b = (λ h. ground arith, λ h. ground arith)

instance abbrev pub execution_status_eq : Eq ExecutionStatus
execution_status_eq = record { same = execution_status_beq; same_iff = execution_status_beq_iff }

pub data ReconciliationStatus : Type 0 where
  matched discrepancy_detected resolved escalated : ReconciliationStatus
