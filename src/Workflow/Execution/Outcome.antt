-- ===== src/Workflow/Execution/Outcome.antt =====
-- What the outcomes of a dispatch mean for the case afterwards.
use mathlib.Core.List.{Memᴰ}
use revenue_rescue_ai.Common.{
  Bool-cases, List, [], any, arith, false, inl, inr, leb, length, nat_eq, none, ok, refl, some,
  true, ℕ, ◌&&◌, ◌++◌, ◌+◌, ◌-◌, ◌<◌, ◌==◌, ◌∷◌, ◌≡◌,
}
use revenue_rescue_ai.Enums.{
  ActionType, ExecutionStatus, RecoveryAttemptStatus, RecoveryCaseState, WorkflowStatus,
  WorkflowStepStatus, execution_status_eq, recovery_case_state_eq,
}
use revenue_rescue_ai.Domain.{
  Customer, RecoveryCase, RecoveryExecution, RecoveryWorkflow, Transaction, WorkflowStep,
}
use revenue_rescue_ai.Policy.Service.Effects.{find_case-id}
use revenue_rescue_ai.Store.{Store, attempts_of, find_customer, find_transaction}
use revenue_rescue_ai.Workflow.Execution.{
  Gateway, StepCall, dispatch_allowed, execute_dispatch_payment_retry, settle, submit,
  write_dispatch,
}
use revenue_rescue_ai.Workflow.Execution.Dispatch.{execution_row, settle-executions}
use revenue_rescue_ai.Workflow.Revalidation.{
  default_max_retry_attempts, has_succeeded, has_unknown_execution, revalidate_case,
  revalidate_for_execution,
}
use revenue_rescue_ai.Workflow.Revalidation.Guards.{retry-allowed}
use revenue_rescue_ai.Workflow.Tables.{set_attempt, set_step, set_step_time, set_workflow}

unknown_blocks :
    (max_retry_attempts now : ℕ) (case : RecoveryCase) (action : ActionType) (s : Store)
    → has_unknown_execution case.id s ≡ true
    → (revalidate_case max_retry_attempts now case action s).allowed ≡ false
unfolding revalidate_case
unknown_blocks max_retry_attempts now case action s h =
    elim (Bool-cases (case.state == RecoveryCaseState.action_pending)) [
      | inl e ↦ elim (Bool-cases (has_succeeded (find_transaction case.trigger_transaction_id s))) [
        | inl e' ↦ rw (e, e')
        | inr e' ↦ rw (e, e', h)
      ]
      | inr e ↦ rw e
    ]

mem_last {ℓ} : {A : Type ℓ} (a : A) (as' : List A) → Memᴰ a (as' ++ a ∷ [])
mem_last a [] = Memᴰ.head refl
mem_last a (b ∷ bs) = Memᴰ.tail (mem_last a bs)

any-mem :
    (key : ℕ) (e : RecoveryExecution) (es : List RecoveryExecution)
    → Memᴰ e es
    → e.case_id ≡ key
    → e.status ≡ ExecutionStatus.unknown
    → any (λ x. x.case_id == key && x.status == ExecutionStatus.unknown) es ≡ true
any-mem key e [] m k u = elim m [ ]
any-mem key e (x ∷ es) (Memᴰ.head h) k u =
    let k' : x.case_id ≡ key = rw h at k in
    let u' : x.status ≡ ExecutionStatus.unknown = rw h at u in ground (arith, k', u')
any-mem key e (x ∷ es) (Memᴰ.tail m) k u = ground (arith, any-mem key e es m k u)

-- After a dispatch whose outcome the gateway did not know, the revalidation of the case is refused in
-- every store that still has the executions of the dispatch's store that are unknown, at any time, for
-- any action and with any retry limit, even if the row of the case is put back to where it was: there
-- is no blind retry.
pub no_blind_retry :
    (gateway : Gateway) (call : StepCall) (workflow : RecoveryWorkflow) (step : WorkflowStep)
    → (case case' : RecoveryCase) (txn : Transaction) (customer : Customer) (s s' later : Store)
    → (max_retry_attempts now : ℕ) (action : ActionType)
    → (submit gateway step case txn).status ≡ ExecutionStatus.unknown
    → dispatch_allowed gateway call workflow step case (some txn) (some customer) s ≡ ok s'
    → ((e : RecoveryExecution)
        → Memᴰ e s'.executions
        → e.status ≡ ExecutionStatus.unknown
        → Memᴰ e later.executions)
    → case'.id ≡ case.id
    → (revalidate_case max_retry_attempts now case' action later).allowed ≡ false
unfolding dispatch_allowed write_dispatch set_step_time has_unknown_execution
no_blind_retry gateway call workflow step case case' txn customer s s' later m now action u h kept
      i =
    let row = execution_row step case (submit gateway step case txn) in
    let added = settle-executions _ gateway call workflow step case _ _ s' h in
    let there : Memᴰ row s'.executions = rw added (mem_last row s.executions) in
    unknown_blocks m now case' action later
      (rw i (any-mem case.id row later.executions (kept row there u) refl u))

attempts_left :
    (max_retry_attempts now : ℕ) (case_id : ℕ) (s : Store)
    → (revalidate_for_execution max_retry_attempts now case_id ActionType.retry_payment s).allowed
      ≡ true
    → length (attempts_of case_id s) < max_retry_attempts
attempts_left m now case_id s h =
    let f = retry-allowed m now case_id s h in rw (← find_case-id case_id s f.0 f.2) f.6

not_four : (n : ℕ) → n < 4 → leb 4 (n + 1 - 1) ≡ false
not_four n h = ground arith

-- The store after a dispatch that the gateway refused.
unfoldable after_refusal :
    Gateway
    → StepCall
    → RecoveryWorkflow
    → WorkflowStep
    → RecoveryCase
    → Transaction
    → Store
    → Store
after_refusal gateway call workflow step case txn s =
    let n = length (attempts_of case.id s) + 1 in
    set_workflow workflow.id WorkflowStatus.failed (
      set_attempt case.id n RecoveryAttemptStatus.failed (
        set_step step.id WorkflowStepStatus.failed none
          (write_dispatch gateway call step case (submit gateway step case txn) n s)))

-- Where a loaded collection does not show added rows, an allowed retry of a case whose payment and
-- customer are there, which the gateway then refuses, never stops the case, not even the last one
-- that the limit allows: the dispatch returns, and the rows of the cases stay as they are.
pub failed_keeps_case :
    (gateway : Gateway) (call : StepCall) (workflow : RecoveryWorkflow) (step : WorkflowStep)
    → (case : RecoveryCase) (txn : Transaction) (customer : Customer) (s : Store)
    → gateway.shows_added_rows ≡ false
    → find_transaction case.trigger_transaction_id s ≡ some txn
    → find_customer case.customer_id s ≡ some customer
    → (submit gateway step case txn).status ≡ ExecutionStatus.failed
    → (revalidate_for_execution default_max_retry_attempts call.now case.id ActionType.retry_payment
        s).allowed
      ≡ true
    → (s' : Store) × (execute_dispatch_payment_retry gateway call workflow step case s ≡ ok s')
      × (s'.cases ≡ s.cases)
unfolding after_refusal execute_dispatch_payment_retry dispatch_allowed settle write_dispatch
    set_step_time set_step set_attempt set_workflow
failed_keeps_case gateway call workflow step case txn customer s stale ft fc failed allowed =
    let below = attempts_left default_max_retry_attempts call.now case.id s allowed in
    (
      after_refusal gateway call workflow step case txn s,
      rw (allowed, ft, fc, failed, stale, not_four (length (attempts_of case.id s)) below),
      refl,
    )
