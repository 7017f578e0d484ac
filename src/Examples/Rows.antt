-- ===== src/Examples/Rows.antt =====
-- A customer with a failed payment, a recovery case, and what a run of the services is given.
use revenue_rescue_ai.Common.{[], codes, false, none, some, ℕ, ◌+◌, ◌∷◌}
use revenue_rescue_ai.Enums.{
  ActionType, ActorType, ConsentStatus, ConsentType, DecisionValidationStatus, ExecutionStatus,
  PolicyDecisionStatus, RecoveryAttemptStatus, RecoveryCaseState, TransactionStatus, WorkflowStatus,
  WorkflowStepStatus, WorkflowStepType,
}
use revenue_rescue_ai.Domain.{
  AgentDecision, Customer, CustomerConsent, PolicyDecision, RecoveryAttempt, RecoveryCase,
  RecoveryWorkflow, Transaction, WorkflowStep,
}
use revenue_rescue_ai.Policy.Inputs.{Fresh, PolicyEvaluationRequest}
use revenue_rescue_ai.Store.{Store}
use revenue_rescue_ai.Workflow.Creation.{CreationCall}
use revenue_rescue_ai.Workflow.Execution.{Gateway, StepCall}
use revenue_rescue_ai.Workflow.Transition.{TransitionCall}

abbrev pub noon : ℕ
noon = 1_000_000_000_000

abbrev pub asha : Customer
asha = record {
  id = 1;
  email = some "asha@example.com";
  merchant_id = none;
  provider = "stripe";
  external_customer_id = "cus-1";
}

-- The latest of two records: the first one has been revoked.
abbrev pub old_consent : CustomerConsent
old_consent = record {
  id = 10;
  customer_id = 1;
  consent_type = ConsentType.recurring_billing;
  status = ConsentStatus.revoked;
  merchant_id = none;
  granted_at = 100;
  revoked_at = some 200;
  expires_at = none;
}

abbrev pub new_consent : CustomerConsent
new_consent = record {
  id = 11;
  customer_id = 1;
  consent_type = ConsentType.recurring_billing;
  status = ConsentStatus.granted;
  merchant_id = none;
  granted_at = 300;
  revoked_at = none;
  expires_at = some 2_000_000_000_000;
}

-- A communication consent whose expiry has passed.
abbrev pub mail_consent : CustomerConsent
mail_consent = record {
  id = 12;
  customer_id = 1;
  consent_type = ConsentType.communication_email;
  status = ConsentStatus.granted;
  merchant_id = none;
  granted_at = 300;
  revoked_at = none;
  expires_at = some 400;
}

abbrev pub failed_payment : Transaction
failed_payment = record {
  id = 20;
  customer_id = 1;
  amount_minor = 49_900;
  currency = codes "INR";
  status = TransactionStatus.failed;
  failure_code = some (codes "insufficient_funds");
  occurred_at = 500;
  provider = "stripe";
  external_transaction_id = "pay-1";
}

abbrev pub case_in : RecoveryCaseState → RecoveryCase
case_in state = record {
  id = 30;
  customer_id = 1;
  trigger_transaction_id = 20;
  case_key = "CASE-TX-stripe-pay-1";
  state = state;
  priority = 70;
  opened_at = 600;
  last_state_changed_at = 600;
  closed_at = none;
  version = 3;
  failure_count = some 1;
}

abbrev pub first_attempt : RecoveryAttempt
first_attempt = record {
  case_id = 30;
  sequence_number = 1;
  status = RecoveryAttemptStatus.failed;
  action_type = ActionType.retry_payment;
  started_at = some 700;
  finished_at = some 800;
  idempotency_key = "attempt-1";
}

abbrev pub advice : AgentDecision
advice = record {
  id = 40;
  case_id = 30;
  decision_version = 3;
  action_type = ActionType.retry_payment;
  confidence = some 9000;
  validation_status = DecisionValidationStatus.not_validated;
}

abbrev pub approval : PolicyDecision
approval = record {
  id = 50;
  case_id = 30;
  recommendation_id = 40;
  proposed_action = ActionType.retry_payment;
  decision_status = PolicyDecisionStatus.approved;
  policy_version = "policy-v1.0";
  rule_results = [];
  reasons = "ALL_POLICY_GUARDRAILS_PASSED" ∷ [];
  actor_type = ActorType.system;
  actor_id = none;
  idempotency_key = some "earlier";
  case_version = 3;
  evaluated_at = 900;
}

-- One case, in the given state, with its customer and payment.
abbrev pub store_in : RecoveryCaseState → Store
store_in state = record {
  customers = asha ∷ [];
  consents = old_consent ∷ new_consent ∷ mail_consent ∷ [];
  transactions = failed_payment ∷ [];
  cases = case_in state ∷ [];
  attempts = first_attempt ∷ [];
  decisions = advice ∷ [];
  policy_decisions = approval ∷ [];
  audit_events = [];
  transitions = [];
  workflows = [];
  steps = [];
  executions = [];
  webhook_events = [];
}

abbrev pub retry_request : PolicyEvaluationRequest
retry_request = record {
  case_id = 30;
  recommendation_id = 40;
  proposed_action = none;
  actor_type = ActorType.system;
  actor_id = none;
  idempotency_key = some "key-1";
  communication_channel = none;
}

abbrev pub fresh_at : ℕ → Fresh
fresh_at now = record {
  now = now;
  audit_time = now + 5;
  decision_id = 51;
  decision_id_text = "51";
  correlation_text = "run-1";
}

abbrev pub retry_workflow : RecoveryWorkflow
retry_workflow = record {
  id = 60;
  case_id = 30;
  policy_decision_id = 50;
  status = WorkflowStatus.running;
  max_steps = 10;
  scheduled_for = 900;
  expires_at = 1_000_000;
}

abbrev pub dispatch_step : WorkflowStep
dispatch_step = record {
  id = 73;
  workflow_id = 60;
  step_index = 3;
  step_type = WorkflowStepType.dispatch_payment_retry;
  status = WorkflowStepStatus.running;
  action_type = ActionType.retry_payment;
  executed_at = none;
}

-- A gateway that answers each retry with the status, in a session that shows no added row.
abbrev pub gateway_giving : ExecutionStatus → Gateway
gateway_giving status = record {
  submit_retry = λ r. record {
    status = status;
    amount_minor = r.amount_minor;
    external_reference = some "pay_9";
    executed_at = noon + 1;
  };
  attempt_key = λ case_id n. "key";
  shows_added_rows = false;
}

abbrev pub step_call : StepCall
step_call = record { now = noon; correlation_id = "run-1" }

abbrev pub case_call : TransitionCall
case_call = record {
  reason_code = codes "test";
  actor_type = ActorType.system;
  actor_id = none;
  correlation_id = "run-1";
  at = noon;
}

abbrev pub creation_call : CreationCall
creation_call = record { now = noon; workflow_id = 60; first_step_id = 70; max_workflow_hours = 24 }
