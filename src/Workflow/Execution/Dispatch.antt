-- ===== src/Workflow/Execution/Dispatch.antt =====
-- What one dispatch of a payment retry may write.
use revenue_rescue_ai.Common.{
  Bool-cases, Option, [], arith, if◌then◌else◌, inl, inr, leb, none, ok, refl, some, true, ℕ, ◌++◌,
  ◌-◌, ◌∷◌, ◌≡◌, ◌⊎◌,
}
use revenue_rescue_ai.Enums.{ActionType, ExecutionStatus, RecoveryCaseState}
use revenue_rescue_ai.Domain.{
  Customer, RecoveryCase, RecoveryExecution, RecoveryWorkflow, Transaction, WorkflowStep,
}
use revenue_rescue_ai.Store.{Store, find_transaction}
use revenue_rescue_ai.Workflow.Execution.{
  ExecutionResult, Gateway, StepCall, dispatch_allowed, execute_dispatch_payment_retry, fail_step,
  settle, submit, write_dispatch,
}
use revenue_rescue_ai.Workflow.Revalidation.{default_max_retry_attempts, revalidate_for_execution}
use revenue_rescue_ai.Workflow.Tables.{set_attempt, set_step, set_step_time, set_workflow}
use revenue_rescue_ai.Workflow.Transition.{TransitionCall, transition, write_transition}

-- The rows that say that money was asked for.
abbrev pub SameMoney : Store → Store → Type 0
SameMoney s s' = (s'.executions ≡ s.executions) × (s'.attempts ≡ s.attempts)

transition-executions :
    (case : RecoveryCase) (to : RecoveryCaseState) (call : TransitionCall) (s s' : Store)
    → transition case to call s ≡ ok s'
    → s'.executions ≡ s.executions
unfolding transition write_transition
transition-executions case to call s s' h = ground arith

-- Settling an outcome adds no execution.
pub settle-executions :
    (status : ExecutionStatus) (gateway : Gateway) (call : StepCall)
    → (workflow : RecoveryWorkflow) (step : WorkflowStep) (case : RecoveryCase) (n : ℕ)
    → (s s' : Store) → settle status gateway call workflow step case n s ≡ ok s'
    → s'.executions ≡ s.executions
unfolding settle set_workflow set_attempt set_step
settle-executions ExecutionStatus.submitted gateway call workflow step case n s s' h =
    transition-executions case _ _ _ s' h
settle-executions ExecutionStatus.succeeded gateway call workflow step case n s s' h =
    transition-executions case _ _ _ s' h
settle-executions ExecutionStatus.unknown gateway call workflow step case n s s' h =
    transition-executions case _ _ _ s' h
settle-executions ExecutionStatus.failed gateway call workflow step case n s s' h =
    elim (Bool-cases (leb 4 (if gateway.shows_added_rows then n else n - 1))) [
      | inl e ↦ transition-executions case _ _ _ s' (rw e at h)
      | inr e ↦ ground arith
    ]
settle-executions ExecutionStatus.pending gateway call workflow step case n s s' h = ground arith
settle-executions ExecutionStatus.cancelled gateway call workflow step case n s s' h = ground arith

-- The execution row of a dispatch.
abbrev pub execution_row : WorkflowStep → RecoveryCase → ExecutionResult → RecoveryExecution
execution_row step case res = record {
  step_id = step.id;
  case_id = case.id;
  status = res.status;
  amount_minor = res.amount_minor;
  external_reference = res.external_reference;
  executed_at = res.executed_at;
}

dispatch_allowed-executions :
    (gateway : Gateway) (call : StepCall) (workflow : RecoveryWorkflow) (step : WorkflowStep)
    → (case : RecoveryCase) (txn : Option Transaction) (customer : Option Customer) (s s' : Store)
    → dispatch_allowed gateway call workflow step case txn customer s ≡ ok s'
    → (s'.executions ≡ s.executions)
      ⊎ ((t : Transaction) × (txn ≡ some t)
          × (s'.executions
              ≡ s.executions ++ execution_row step case (submit gateway step case t) ∷ []))
unfolding dispatch_allowed write_dispatch set_step_time fail_step set_workflow set_step
dispatch_allowed-executions gateway call workflow step case (some t) (some c) s s' h =
    inr (t, refl, settle-executions _ gateway call workflow step case _ _ s' h)
dispatch_allowed-executions gateway call workflow step case none customer s s' h =
    inl (ground arith)
dispatch_allowed-executions gateway call workflow step case (some t) none s s' h =
    inl (ground arith)

-- A dispatch that returns leaves the executions as they are, or adds one row with the gateway's
-- answer to one request for the amount of the case's transaction; the latter only if the
-- revalidation allowed a retry of the case at that moment.
pub execute_dispatch-guarded :
    (gateway : Gateway) (call : StepCall) (workflow : RecoveryWorkflow) (step : WorkflowStep)
    → (case : RecoveryCase) (s s' : Store)
    → execute_dispatch_payment_retry gateway call workflow step case s ≡ ok s'
    → (s'.executions ≡ s.executions)
      ⊎ (((revalidate_for_execution default_max_retry_attempts call.now case.id
              ActionType.retry_payment s).allowed
            ≡ true)
          × ((t : Transaction) × (find_transaction case.trigger_transaction_id s ≡ some t)
              × (s'.executions
                  ≡ s.executions ++ execution_row step case (submit gateway step case t) ∷ [])
              × (submit gateway step case t
                  ≡ gateway.submit_retry record {
                    case_id = case.id;
                    transaction_id = t.id;
                    amount_minor = t.amount_minor;
                    step_id = step.id;
                  })))
unfolding execute_dispatch_payment_retry fail_step set_workflow set_step submit
execute_dispatch-guarded gateway call workflow step case s s' h =
    elim (Bool-cases
      (revalidate_for_execution default_max_retry_attempts call.now case.id ActionType.retry_payment
        s).allowed) [
          | inl e ↦
              elim (dispatch_allowed-executions gateway call workflow step case _ _ s s'
                (rw e at h)) [
                  | inl same ↦ inl same
                  | inr (t, found, added) ↦ inr (e, (t, found, added, refl))
                ]
          | inr e ↦ inl (ground (arith, e, h))
        ]
