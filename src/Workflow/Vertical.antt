-- ===== src/Workflow/Vertical.antt =====
-- `VerticalRecoveryWorkflow` of backend/app/workflows/vertical_recovery.py: a detected case through
-- the brain, the safety policy and a tool. Collections of the case are what the tables hold when the
-- run reads them.
pub mod Verdict
pub mod Branches
pub mod Outcome
pub mod Ends
pub mod Stopping
use revenue_rescue_ai.Common.{
  Bool, List, Option, Result, String, Text, [], any, codes, err, false, filter, guard,
  if◌then◌else◌, is_none, length, nat_eq, none, not, ok, some, string_eq, true, ℕ, ◌&&◌, ◌++◌, ◌+◌,
  ◌==◌, ◌>>=◌, ◌>>◌, ◌||◌, ◌∷◌,
}
use revenue_rescue_ai.Enums.{
  ActorType, DecisionValidationStatus, RecoveryAttemptStatus, RecoveryCaseState,
}
use revenue_rescue_ai.Agents.{
  AgentDecisionOutput, AgentError, AgentObservation, ToolInput, ToolStatus, execute_tool, reason,
}
use revenue_rescue_ai.Domain.{Customer, RecoveryAttempt, RecoveryCase, Transaction}
use revenue_rescue_ai.Policy.Models.{result}
use revenue_rescue_ai.Policy.Safety.{
  PolicyContext, PolicyOutcome, PolicyReason, SafetyConfig, SafetyDecision, evaluate_safety,
}
use revenue_rescue_ai.Policy.Service.Effects.{target}
use revenue_rescue_ai.Store.{Store, attempts_of}
use revenue_rescue_ai.Workflow.Transition.{TransitionCall, WorkflowError, moved, transition}

-- What the workflow and one run of it are given; `clock` gives the time at each reading.
pub record VerticalCall : Type 0 where
  pub config : SafetyConfig
  pub decide : AgentObservation → Option AgentDecisionOutput
  pub risk_reason_codes : List Text
  pub correlation_id : String
  pub clock : ℕ → ℕ
  pub decision_id : ℕ
  pub idempotency_key : ℕ → ℕ → String

pub data VerticalError : Type 0 where
  workflow : WorkflowError → VerticalError
  agent : AgentError → VerticalError

-- `VerticalWorkflowResult`
pub record VerticalWorkflowResult : Type 0 where
  pub case_id : ℕ
  pub decision : AgentDecisionOutput
  pub policy : SafetyDecision
  pub tool_status : ToolStatus
  pub final_state : RecoveryCaseState
  pub audit_event_count : ℕ

-- A call of `transition` by the run, at the reading of the clock with this number
abbrev pub vertical_call : VerticalCall → ℕ → Text → TransitionCall
vertical_call call reading reason = record {
  reason_code = reason;
  actor_type = ActorType.system;
  actor_id = none;
  correlation_id = call.correlation_id;
  at = call.clock reading;
}

-- `self.transitions.transition(case, ...)`, with the case as the run holds it from then on
unfoldable pub move :
    VerticalCall
    → ℕ
    → Text
    → RecoveryCaseState
    → RecoveryCase
    → Store
    → Result VerticalError (RecoveryCase × Store)
unfolding transition moved
move call reading reason to case s =
    let result = transition case to (vertical_call call reading reason) s in
    elim result [
      | ok s' ↦ ok (moved to (call.clock reading) case, s')
      | err e ↦ err (VerticalError.workflow e)
    ]

-- `AgentObservation(...)`
unfoldable pub observe :
    VerticalCall → RecoveryCase → Transaction → Option Customer → Store → AgentObservation
unfolding attempts_of
observe call case txn customer s = record {
  case_id = case.id;
  transaction_id = txn.id;
  transaction_status = txn.status;
  amount_minor = txn.amount_minor;
  currency = txn.currency;
  customer_context_available = not (is_none customer);
  risk_reason_codes = call.risk_reason_codes;
  current_state = case.state;
  prior_attempt_count = length (attempts_of case.id s);
  allowed_actions = call.config.allowed_actions;
}

-- The row of the decision, added to the session
unfoldable pub record_decision : VerticalCall → RecoveryCase → AgentDecisionOutput → Store → Store
record_decision call case d s = record s {
  decisions =
      s.decisions
      ++ record {
        id = call.decision_id;
        case_id = case.id;
        decision_version = length (filter (λ r. r.case_id == case.id) s.decisions) + 1;
        action_type = d.action;
        confidence = some d.confidence;
        validation_status = DecisionValidationStatus.valid;
      }
        ∷ [];
}

-- `PolicyContext(...)`: the keys of earlier attempts and the mark of an uncertain one are left at
-- their defaults.
unfoldable pub policy_context :
    VerticalCall → RecoveryCase → Transaction → AgentDecisionOutput → Store → PolicyContext
unfolding attempts_of
policy_context call case txn d s = record {
  case_state = case.state;
  transaction_status = txn.status;
  action = d.action;
  retry_attempt_count = length (attempts_of case.id s);
  prior_idempotency_keys = [];
  idempotency_key = some (call.idempotency_key case.id (length (attempts_of case.id s) + 1));
  has_uncertain_attempt = false;
}

abbrev is_reject : PolicyOutcome → Bool
is_reject PolicyOutcome.reject = true
is_reject PolicyOutcome.allow = false
is_reject PolicyOutcome.stop = false
is_reject PolicyOutcome.escalate = false

-- `policy.should_escalate or policy.should_stop or policy.outcome.value == "reject"`
unfoldable pub is_refused : SafetyDecision → Bool
is_refused policy = policy.should_escalate || policy.should_stop || is_reject policy.outcome

-- `policy.reason.value`
unfoldable pub reason_value : PolicyReason → String
reason_value PolicyReason.allowed = "allowed"
reason_value PolicyReason.case_terminal = "case_terminal"
reason_value PolicyReason.transaction_already_succeeded = "transaction_already_succeeded"
reason_value PolicyReason.retry_limit_reached = "retry_limit_reached"
reason_value PolicyReason.duplicate_attempt = "duplicate_attempt"
reason_value PolicyReason.action_not_permitted = "action_not_permitted"
reason_value PolicyReason.uncertain_outcome_requires_verification =
    "uncertain_outcome_requires_verification"
reason_value PolicyReason.missing_idempotency_key = "missing_idempotency_key"
reason_value PolicyReason.case_state_not_actionable = "case_state_not_actionable"

-- The result, with the audit rows of the case that the tables hold
unfoldable pub vertical_result :
    RecoveryCase
    → AgentDecisionOutput
    → SafetyDecision
    → ToolStatus
    → Store
    → VerticalWorkflowResult
vertical_result case d policy status s = record {
  case_id = case.id;
  decision = d;
  policy = policy;
  tool_status = status;
  final_state = case.state;
  audit_event_count = length (filter (λ r. r.case_id == case.id) s.audit_events);
}

-- The branch of a refused action
unfoldable pub refuse :
    VerticalCall
    → RecoveryCase
    → AgentDecisionOutput
    → SafetyDecision
    → Store
    → Result VerticalError (VerticalWorkflowResult × Store)
unfolding move reason_value vertical_result
refuse call case d policy s =
    let target =
      if policy.should_escalate then RecoveryCaseState.escalated else RecoveryCaseState.stopped in
    do
      moved_to ← move call 2 (codes (reason_value policy.reason)) target case s
      ok (vertical_result moved_to.0 d policy ToolStatus.not_executed moved_to.1, moved_to.1)

-- The row of the planned attempt
unfoldable pub planned_attempt :
    VerticalCall → RecoveryCase → AgentDecisionOutput → ℕ → RecoveryAttempt
planned_attempt call case d n = record {
  case_id = case.id;
  sequence_number = n;
  status = RecoveryAttemptStatus.planned;
  action_type = d.action;
  started_at = some (call.clock 3);
  finished_at = none;
  idempotency_key = call.idempotency_key case.id n;
}

-- The unique columns of the attempts that a flush checks: the case with its number, and the key
unfoldable pub attempt_taken : RecoveryAttempt → List RecoveryAttempt → Bool
attempt_taken a rows =
    any
      (λ r.
        (r.case_id == a.case_id && r.sequence_number == a.sequence_number)
        || r.idempotency_key == a.idempotency_key)
      rows

-- The tool and its payload
unfoldable pub tool_input : VerticalCall → RecoveryCase → AgentDecisionOutput → ℕ → ToolInput
tool_input call case d n =
    if d.requires_human_review
    then ToolInput.escalate_recovery_case case.id d.rationale case.priority
    else ToolInput.draft_recovery_intent case.id d.action d.rationale
        (codes (call.idempotency_key case.id n))

abbrev pub lift_agent : {A : Type 0} → Result AgentError A → Result VerticalError A
lift_agent (ok a) = ok a
lift_agent (err e) = err (VerticalError.agent e)

-- The branch of an allowed action: the attempt with the number `n`, the tool, and verification
unfoldable pub act :
    VerticalCall
    → RecoveryCase
    → AgentDecisionOutput
    → SafetyDecision
    → ℕ
    → Store
    → Result VerticalError (VerticalWorkflowResult × Store)
unfolding move planned_attempt attempt_taken tool_input execute_tool vertical_result
act call case d policy n s = do
  pending ← move call 2 (codes "policy_allowed") RecoveryCaseState.action_pending case s
  guard (not (attempt_taken (planned_attempt call pending.0 d n) pending.1.attempts))
      (VerticalError.workflow WorkflowError.integrity_error)
  status ← lift_agent (execute_tool true (tool_input call pending.0 d n))
  verifying ←
      move call 4 (codes "action_requires_provider_verification")
        RecoveryCaseState.verification_pending pending.0
        record pending.1 {
          attempts = pending.1.attempts ++ planned_attempt call pending.0 d n ∷ [];
        }
  ok (vertical_result verifying.0 d policy status verifying.1, verifying.1)

-- The policy's verdict on a decision and what follows it
unfoldable pub follow :
    VerticalCall
    → RecoveryCase
    → Transaction
    → AgentDecisionOutput
    → Store
    → Result VerticalError (VerticalWorkflowResult × Store)
unfolding evaluate_safety policy_context is_refused refuse act attempts_of
follow call case txn d s =
    let policy = evaluate_safety call.config (policy_context call case txn d s) in
    if is_refused policy
    then refuse call case d policy s
    else act call case d policy (length (attempts_of case.id s) + 1) s

-- `VerticalRecoveryWorkflow.run`
unfoldable pub run_recovery :
    VerticalCall
    → RecoveryCase
    → Transaction
    → Option Customer
    → Store
    → Result VerticalError (VerticalWorkflowResult × Store)
unfolding move observe reason record_decision follow
run_recovery call case txn customer s = do
  ready ← move call 0 (codes "context_collected") RecoveryCaseState.context_ready case s
  waiting ←
      move call 1 (codes "awaiting_bounded_agent") RecoveryCaseState.awaiting_decision ready.0
        ready.1
  d ← lift_agent (reason call.decide (observe call waiting.0 txn customer waiting.1))
  follow call waiting.0 txn d (record_decision call waiting.0 d waiting.1)
