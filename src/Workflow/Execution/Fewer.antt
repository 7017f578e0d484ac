-- ===== src/Workflow/Execution/Fewer.antt =====
-- No executor of a step adds to the steps that are left to run.
use revenue_rescue_ai.Common.{
  Bool-cases, Option, arith, if◌then◌else◌, inl, inr, le_refl, le_trans, leb, none, ok,
  ok-injective, refl, some, ℕ, ◌-◌, ◌≡◌, ◌≤◌,
}
use revenue_rescue_ai.Enums.{
  ActionType, ExecutionStatus, RecoveryCaseState, WorkflowStepStatus, WorkflowStepType,
}
use revenue_rescue_ai.Domain.{Customer, RecoveryCase, RecoveryWorkflow, Transaction, WorkflowStep}
use revenue_rescue_ai.Store.{Store}
use revenue_rescue_ai.Workflow.Execution.{
  ExecutionResult, Gateway, StepCall, dispatch_allowed, execute_await_verification,
  execute_dispatch_payment_retry, execute_validate_authorization, execute_wait_cooldown, fail_step,
  settle, write_dispatch,
}
use revenue_rescue_ai.Workflow.Execution.Pending.{
  IsTakenUp, count_pending, put_step_status-fewer, put_step_time-same,
}
use revenue_rescue_ai.Workflow.Execution.Run.{execute_step}
use revenue_rescue_ai.Workflow.Revalidation.{default_max_retry_attempts, revalidate_for_execution}
use revenue_rescue_ai.Workflow.Tables.{set_attempt, set_step, set_step_time, set_workflow}
use revenue_rescue_ai.Workflow.Transition.{TransitionCall, transition, write_transition}

transition-steps :
    (case : RecoveryCase) (to : RecoveryCaseState) (call : TransitionCall) (s s' : Store)
    → transition case to call s ≡ ok s'
    → s'.steps ≡ s.steps
unfolding transition write_transition
transition-steps case to call s s' h = ground arith

-- The steps that are left to run did not become more.
abbrev pub Fewer : ℕ → Store → Store → Type 0
Fewer w s s' = count_pending w s'.steps ≤ count_pending w s.steps

transition-Fewer :
    (w : ℕ) (case : RecoveryCase) (to : RecoveryCaseState) (call : TransitionCall) (s s' : Store)
    → transition case to call s ≡ ok s'
    → Fewer w s s'
transition-Fewer w case to call s s' h = rw (transition-steps case to call s s' h) (le_refl _)

pub set_step-Fewer :
    (w key : ℕ) (status : WorkflowStepStatus) (at : Option ℕ) (s : Store)
    → IsTakenUp status
    → Fewer w s (set_step key status at s)
unfolding set_step
set_step-Fewer w key status at s h = put_step_status-fewer w key status at s.steps h

settle-Fewer :
    (w : ℕ) (status : ExecutionStatus) (gateway : Gateway) (call : StepCall)
    → (workflow : RecoveryWorkflow) (step : WorkflowStep) (case : RecoveryCase) (n : ℕ)
    → (s s' : Store) → settle status gateway call workflow step case n s ≡ ok s'
    → Fewer w s s'
unfolding settle set_workflow set_attempt set_step
settle-Fewer w ExecutionStatus.submitted gateway call workflow step case n s s' h =
    le_trans (transition-Fewer w case _ _ _ s' h)
      (set_step-Fewer w step.id WorkflowStepStatus.completed none s refl)
settle-Fewer w ExecutionStatus.succeeded gateway call workflow step case n s s' h =
    le_trans (transition-Fewer w case _ _ _ s' h)
      (set_step-Fewer w step.id WorkflowStepStatus.completed none s refl)
settle-Fewer w ExecutionStatus.unknown gateway call workflow step case n s s' h =
    le_trans (transition-Fewer w case _ _ _ s' h)
      (set_step-Fewer w step.id WorkflowStepStatus.failed none s refl)
settle-Fewer w ExecutionStatus.failed gateway call workflow step case n s s' h =
    let less = set_step-Fewer w step.id WorkflowStepStatus.failed none s refl in
    elim (Bool-cases (leb 4 (if gateway.shows_added_rows then n else n - 1))) [
      | inl e ↦ le_trans (transition-Fewer w case _ _ _ s' (rw e at h)) less
      | inr e ↦ ground (arith, e, h, less)
    ]
settle-Fewer w ExecutionStatus.pending gateway call workflow step case n s s' h = ground arith
settle-Fewer w ExecutionStatus.cancelled gateway call workflow step case n s s' h = ground arith

fail_step-Fewer :
    (w : ℕ) (at : Option ℕ) (workflow : RecoveryWorkflow) (step : WorkflowStep) (s : Store)
    → Fewer w s (fail_step at workflow step s)
unfolding fail_step set_workflow
fail_step-Fewer w at workflow step s = set_step-Fewer w step.id WorkflowStepStatus.failed at s refl

write_dispatch-Fewer :
    (w : ℕ) (gateway : Gateway) (call : StepCall) (step : WorkflowStep) (case : RecoveryCase)
    → (res : ExecutionResult) (n : ℕ) (s : Store)
    → Fewer w s (write_dispatch gateway call step case res n s)
unfolding write_dispatch set_step_time
write_dispatch-Fewer w gateway call step case res n s =
    rw (put_step_time-same w step.id res.executed_at s.steps) (le_refl _)

dispatch_allowed-Fewer :
    (w : ℕ) (gateway : Gateway) (call : StepCall) (workflow : RecoveryWorkflow)
    → (step : WorkflowStep) (case : RecoveryCase) (txn : Option Transaction)
    → (customer : Option Customer) (s s' : Store)
    → dispatch_allowed gateway call workflow step case txn customer s ≡ ok s'
    → Fewer w s s'
unfolding dispatch_allowed
dispatch_allowed-Fewer w gateway call workflow step case (some t) (some c) s s' h =
    le_trans (settle-Fewer w _ gateway call workflow step case _ _ s' h)
      (write_dispatch-Fewer w gateway call step case _ _ s)
dispatch_allowed-Fewer w gateway call workflow step case none customer s s' h =
    rw (← ok-injective h) (fail_step-Fewer w none workflow step s)
dispatch_allowed-Fewer w gateway call workflow step case (some t) none s s' h =
    rw (← ok-injective h) (fail_step-Fewer w none workflow step s)

execute_dispatch-Fewer :
    (w : ℕ) (gateway : Gateway) (call : StepCall) (workflow : RecoveryWorkflow)
    → (step : WorkflowStep) (case : RecoveryCase) (s s' : Store)
    → execute_dispatch_payment_retry gateway call workflow step case s ≡ ok s'
    → Fewer w s s'
unfolding execute_dispatch_payment_retry
execute_dispatch-Fewer w gateway call workflow step case s s' h =
    elim (Bool-cases
      (revalidate_for_execution default_max_retry_attempts call.now case.id ActionType.retry_payment
        s).allowed) [
          | inl e ↦ dispatch_allowed-Fewer w gateway call workflow step case _ _ s s' (rw e at h)
          | inr e ↦
              rw (← ok-injective (rw e at h)) (fail_step-Fewer w (some call.now) workflow step s)
        ]

validate-Fewer :
    (w : ℕ) (call : StepCall) (workflow : RecoveryWorkflow) (step : WorkflowStep)
    → (case : RecoveryCase) (s s' : Store)
    → execute_validate_authorization call workflow step case s ≡ ok s'
    → Fewer w s s'
unfolding execute_validate_authorization set_workflow
validate-Fewer w call workflow step case s s' h =
    elim (Bool-cases
      (revalidate_for_execution default_max_retry_attempts call.now case.id step.action_type
        s).allowed) [
          | inl e ↦
              rw (← ok-injective (rw e at h))
                (set_step-Fewer w step.id WorkflowStepStatus.completed (some call.now) s refl)
          | inr e ↦
              le_trans (transition-Fewer w case _ _ _ s' (rw e at h))
                (set_step-Fewer w step.id WorkflowStepStatus.failed (some call.now) s refl)
        ]

pub execute_step-Fewer :
    (w : ℕ) (type : WorkflowStepType) (gateway : Gateway) (call : StepCall)
    → (workflow : RecoveryWorkflow) (step : WorkflowStep) (case : RecoveryCase) (s s' : Store)
    → execute_step type gateway call workflow step case s ≡ ok s'
    → Fewer w s s'
unfolding execute_step execute_wait_cooldown execute_await_verification set_workflow
execute_step-Fewer w WorkflowStepType.validate_authorization gateway call workflow step case s s'
      h =
    validate-Fewer w call workflow step case s s' h
execute_step-Fewer w WorkflowStepType.wait_cooldown gateway call workflow step case s s' h =
    rw (← ok-injective h)
      (set_step-Fewer w step.id WorkflowStepStatus.completed (some call.now) s refl)
execute_step-Fewer w WorkflowStepType.dispatch_payment_retry gateway call workflow step case s s'
      h =
    execute_dispatch-Fewer w gateway call workflow step case s s' h
execute_step-Fewer w WorkflowStepType.await_verification gateway call workflow step case s s' h =
    rw (← ok-injective h) (set_step-Fewer w step.id WorkflowStepStatus.waiting none s refl)
execute_step-Fewer w WorkflowStepType.dispatch_communication gateway call workflow step case s s'
      h =
    rw (← ok-injective h)
      (set_step-Fewer w step.id WorkflowStepStatus.completed (some call.now) s refl)
execute_step-Fewer w WorkflowStepType.create_support_task gateway call workflow step case s s' h =
    rw (← ok-injective h)
      (set_step-Fewer w step.id WorkflowStepStatus.completed (some call.now) s refl)
