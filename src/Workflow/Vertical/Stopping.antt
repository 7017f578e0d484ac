-- ===== src/Workflow/Vertical/Stopping.antt =====
-- A decision to stop, or to ask an operator, in the vertical workflow.
use revenue_rescue_ai.Common.{
  Bool-cases, Option, String, [], arith, contains, false, inl, inr, none, not, ok, refl, some,
  string_eq, true, ◌==◌, ◌∙◌, ◌≡◌, ◌≢◌,
}
use revenue_rescue_ai.Enums.{
  ActionType, RecoveryCaseState, TransactionStatus, action_type_eq, transaction_status_eq,
}
use revenue_rescue_ai.Agents.{AgentDecisionOutput, reason}
use revenue_rescue_ai.Agents.Boundary.{reason-IsBounded}
use revenue_rescue_ai.Domain.{Customer, RecoveryCase, Transaction}
use revenue_rescue_ai.Policy.Safety.{PolicyOutcome, evaluate_safety, is_duplicate}
use revenue_rescue_ai.Store.{Store}
use revenue_rescue_ai.Workflow.Transition.Numbering.{IsAligned}
use revenue_rescue_ai.Workflow.Vertical.{
  VerticalCall, VerticalWorkflowResult, observe, policy_context, run_recovery,
}
use revenue_rescue_ai.Workflow.Vertical.Branches.{CanAct}
use revenue_rescue_ai.Workflow.Vertical.Ends.{run_recovery-Ends, waiting}
use revenue_rescue_ai.Workflow.Vertical.Outcome.{Planned}

-- No key is among none.
is_duplicate-none : (key : Option String) → is_duplicate key [] ≡ false
unfolding is_duplicate
is_duplicate-none none = refl
is_duplicate-none (some key) = elim (Bool-cases (not (key == ""))) [
  | inl e ↦ rw e refl
  | inr e ↦ rw e refl
]

-- The policy lets through an action of the allow-list that is not a retry.
other_action-allowed :
    (call : VerticalCall) (case : RecoveryCase) (txn : Transaction) (d : AgentDecisionOutput)
    → (s : Store) → contains call.config.allowed_actions d.action ≡ true
    → (d.action == ActionType.retry_payment) ≡ false
    → (txn.status == TransactionStatus.succeeded) ≡ false
    → (evaluate_safety call.config (policy_context call (waiting case) txn d s)).outcome
      ≡ PolicyOutcome.allow
unfolding evaluate_safety policy_context
other_action-allowed call case txn d s permitted other unpaid =
    let context = policy_context call (waiting case) txn d s in
    let unused : is_duplicate context.idempotency_key context.prior_idempotency_keys ≡ false =
      is_duplicate-none context.idempotency_key in
    rw (permitted, other, unpaid, unused)

-- A decision to stop, or any other that is not a retry, does not stop the case. On a detected case
-- whose logs are aligned, if the brain answers with such a decision, the payment has not succeeded,
-- the number and the key of the attempt are free, and the payload of the tool is well-formed, the run
-- plans an attempt, leaves the case waiting for verification, and adds no execution.
pub run_recovery-waits :
    (call : VerticalCall) (case : RecoveryCase) (txn : Transaction) (customer : Option Customer)
    → (s : Store) (d : AgentDecisionOutput) → case.state ≡ RecoveryCaseState.detected
    → IsAligned case.id s
    → reason call.decide (observe call (waiting case) txn customer s) ≡ ok d
    → CanAct call case d s
    → d.action ≢ ActionType.retry_payment
    → txn.status ≢ TransactionStatus.succeeded
    → (r : VerticalWorkflowResult) × (s' : Store) × (run_recovery call case txn customer s
        ≡ ok (r, s'))
      × (r.final_state ≡ RecoveryCaseState.verification_pending)
      × Planned call case d
          (evaluate_safety call.config (policy_context call (waiting case) txn d s))
          s
          s'
          r
      × (s'.executions ≡ s.executions)
unfolding observe
run_recovery-waits call case txn customer s d detected h answer can other unpaid =
    let (r, s', ran, ends) = run_recovery-Ends call case txn customer s d detected h answer can in
    let permitted = (reason-IsBounded call.decide _ d answer).1 in
    let goes =
      other_action-allowed call case txn d s permitted (ground (arith, other))
        (ground (arith, unpaid)) in
    elim ends.1 [
      | inl e ↦ absurd (e.0 goes)
      | inr e ↦ (r, s', ran, ends.0 ∙ rw goes refl, e, ends.4)
    ]
