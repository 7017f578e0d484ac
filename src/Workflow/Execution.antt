-- ===== src/Workflow/Execution.antt =====
-- The step executors of `WorkflowExecutionService`, backend/app/workflows/execution_service.py.
pub mod Dispatch
pub mod Outcome
pub mod Run
pub mod Pending
pub mod Fewer
pub mod Rounds
use revenue_rescue_ai.Common.{
  Bool, Option, Result, String, Text, [], codes, has_part, if◌then◌else◌, leb, length, lower, none,
  not, ok, some, ℕ, ◌++◌, ◌+◌, ◌-◌, ◌∷◌,
}
use revenue_rescue_ai.Enums.{
  ActionType, ActorType, ExecutionStatus, RecoveryAttemptStatus, RecoveryCaseState, WorkflowStatus,
  WorkflowStepStatus,
}
use revenue_rescue_ai.Domain.{
  Customer, RecoveryAttempt, RecoveryCase, RecoveryWorkflow, Transaction, WorkflowStep,
}
use revenue_rescue_ai.Store.{Store, attempts_of, find_customer, find_transaction}
use revenue_rescue_ai.Workflow.Revalidation.{default_max_retry_attempts, revalidate_for_execution}
use revenue_rescue_ai.Workflow.Tables.{set_attempt, set_step, set_step_time, set_workflow}
use revenue_rescue_ai.Workflow.Transition.{TransitionCall, WorkflowError, transition}

-- The fields of `PaymentRetryRequest` that are numbers, and the key.
pub record PaymentRetryRequest : Type 0 where
  pub case_id : ℕ
  pub transaction_id : ℕ
  pub amount_minor : ℕ
  pub step_id : ℕ  -- stands for the step's idempotency key, which is unique to the step

-- `ExecutionResult` of backend/app/workflows/adapters/base.py
pub record ExecutionResult : Type 0 where
  pub status : ExecutionStatus
  pub amount_minor : ℕ
  pub external_reference : Option String  -- `provider_payment_id or provider_order_id`
  pub executed_at : ℕ

-- What the service is given: the payment adapter, the text of an attempt's key, and whether a
-- collection that the session has loaded (`case.attempts`) shows a row that was added since.
pub record Gateway : Type 0 where
  pub submit_retry : PaymentRetryRequest → ExecutionResult
  pub attempt_key : ℕ → ℕ → String
  pub shows_added_rows : Bool

-- The clock and the correlation id of one call.
pub record StepCall : Type 0 where
  pub now : ℕ
  pub correlation_id : String

abbrev pub system_call : Text → StepCall → TransitionCall
system_call reason call = record {
  reason_code = reason;
  actor_type = ActorType.system;
  actor_id = none;
  correlation_id = call.correlation_id;
  at = call.now;
}

-- `RecoveryCaseState.ESCALATED if "UNKNOWN" in reval.reason_code else RecoveryCaseState.STOPPED`
unfoldable pub refusal_state : String → RecoveryCaseState
refusal_state reason =
    if has_part (codes "UNKNOWN") (codes reason)
    then RecoveryCaseState.escalated
    else RecoveryCaseState.stopped

-- `_execute_validate_authorization`
unfoldable pub execute_validate_authorization :
    StepCall → RecoveryWorkflow → WorkflowStep → RecoveryCase → Store → Result WorkflowError Store
execute_validate_authorization call workflow step case s =
    let reval =
      revalidate_for_execution default_max_retry_attempts call.now case.id step.action_type s in
    if not reval.allowed
    then transition case (refusal_state reval.reason_code)
        (system_call (lower (codes reval.reason_code)) call)
        (set_workflow workflow.id WorkflowStatus.failed
          (set_step step.id WorkflowStepStatus.failed (some call.now) s))
    else ok (set_step step.id WorkflowStepStatus.completed (some call.now) s)

-- `_execute_wait_cooldown`
unfoldable pub execute_wait_cooldown : StepCall → WorkflowStep → Store → Store
execute_wait_cooldown call step s = set_step step.id WorkflowStepStatus.completed (some call.now) s

-- `_execute_await_verification`
unfoldable pub execute_await_verification : RecoveryWorkflow → WorkflowStep → Store → Store
execute_await_verification workflow step s =
    set_workflow workflow.id WorkflowStatus.waiting
      (set_step step.id WorkflowStepStatus.waiting none s)

-- The early returns of `_execute_dispatch_payment_retry`.
unfoldable pub fail_step : Option ℕ → RecoveryWorkflow → WorkflowStep → Store → Store
fail_step at workflow step s =
    set_workflow workflow.id WorkflowStatus.failed (set_step step.id WorkflowStepStatus.failed at s)

-- Step 7 of `_execute_dispatch_payment_retry`, by the status that the gateway gave. For `PENDING`
-- and `CANCELLED` no branch is taken. `n` is the number of the new attempt.
unfoldable pub settle :
    ExecutionStatus
    → Gateway
    → StepCall
    → RecoveryWorkflow
    → WorkflowStep
    → RecoveryCase
    → ℕ
    → Store
    → Result WorkflowError Store
settle ExecutionStatus.submitted gateway call workflow step case n s =
    transition case RecoveryCaseState.verification_pending
      (system_call (codes "payment_retry_submitted_to_provider") call)
      (set_attempt case.id n RecoveryAttemptStatus.started
        (set_step step.id WorkflowStepStatus.completed none s))
settle ExecutionStatus.succeeded gateway call workflow step case n s =
    transition case RecoveryCaseState.verification_pending
      (system_call (codes "gateway_reported_payment_captured") call)
      (set_attempt case.id n RecoveryAttemptStatus.succeeded
        (set_step step.id WorkflowStepStatus.completed none s))
settle ExecutionStatus.unknown gateway call workflow step case n s =
    transition case RecoveryCaseState.escalated
      (system_call (codes "provider_timeout_unknown_outcome") call)
      (set_workflow workflow.id WorkflowStatus.requires_review (
        set_attempt case.id n RecoveryAttemptStatus.uncertain
          (set_step step.id WorkflowStepStatus.failed none s)))
settle ExecutionStatus.failed gateway call workflow step case n s =
    let s' = set_workflow workflow.id WorkflowStatus.failed (
      set_attempt case.id n RecoveryAttemptStatus.failed
        (set_step step.id WorkflowStepStatus.failed none s)) in
    if leb 4 (if gateway.shows_added_rows then n else n - 1)
    then transition case RecoveryCaseState.stopped
        (system_call (codes "retry_limit_exhausted") call) s'
    else ok s'
settle _ gateway call workflow step case n s = ok s

-- The new row of `attempts` in step 3.
abbrev pub new_attempt : Gateway → StepCall → RecoveryCase → ℕ → RecoveryAttempt
new_attempt gateway call case n = record {
  case_id = case.id;
  sequence_number = n;
  status = RecoveryAttemptStatus.started;
  action_type = ActionType.retry_payment;
  started_at = some call.now;
  finished_at = none;
  idempotency_key = gateway.attempt_key case.id n;
}

-- Steps 4 and 5.
unfoldable pub submit : Gateway → WorkflowStep → RecoveryCase → Transaction → ExecutionResult
submit gateway step case txn = gateway.submit_retry (record {
  case_id = case.id;
  transaction_id = txn.id;
  amount_minor = txn.amount_minor;
  step_id = step.id;
})

-- The rows that steps 3 and 6 add, and the time of the step.
unfoldable pub write_dispatch :
    Gateway → StepCall → WorkflowStep → RecoveryCase → ExecutionResult → ℕ → Store → Store
write_dispatch gateway call step case res n s = set_step_time step.id res.executed_at (record s {
  attempts = s.attempts ++ new_attempt gateway call case n ∷ [];
  executions =
      s.executions
      ++ record {
        step_id = step.id;
        case_id = case.id;
        status = res.status;
        amount_minor = res.amount_minor;
        external_reference = res.external_reference;
        executed_at = res.executed_at;
      }
        ∷ [];
})

-- Steps 2 to 7, after a revalidation that allowed the retry.
unfoldable pub dispatch_allowed :
    Gateway
    → StepCall
    → RecoveryWorkflow
    → WorkflowStep
    → RecoveryCase
    → Option Transaction
    → Option Customer
    → Store
    → Result WorkflowError Store
unfolding submit
dispatch_allowed gateway call workflow step case (some txn) (some customer) s =
    let n = length (attempts_of case.id s) + 1 in
    let res = submit gateway step case txn in
    settle res.status gateway call workflow step case n
      (write_dispatch gateway call step case res n s)
dispatch_allowed gateway call workflow step case _ _ s = ok (fail_step none workflow step s)

-- `_execute_dispatch_payment_retry`
unfoldable pub execute_dispatch_payment_retry :
    Gateway
    → StepCall
    → RecoveryWorkflow
    → WorkflowStep
    → RecoveryCase
    → Store
    → Result WorkflowError Store
execute_dispatch_payment_retry gateway call workflow step case s =
    let reval =
      revalidate_for_execution default_max_retry_attempts call.now case.id ActionType.retry_payment
        s in
    if not reval.allowed
    then ok (fail_step (some call.now) workflow step s)
    else dispatch_allowed gateway call workflow step case
        (find_transaction case.trigger_transaction_id s) (find_customer case.customer_id s) s
