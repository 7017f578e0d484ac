-- ===== src/Domain.antt =====
-- The rows of backend/app/models/domain.py, with the columns that the modelled code reads or
-- writes. A UUID is a number, since it is only compared; a datetime is the number of microseconds after
-- datetime.min in UTC; a money amount is in minor units and is never negative in the schema; a
-- confidence is in ten-thousandths.
use revenue_rescue_ai.Common.{Bool, List, Option, String, Text, ℕ}
use revenue_rescue_ai.Enums.{
  ActionType, ActorType, ConsentStatus, ConsentType, DecisionValidationStatus, ExecutionStatus,
  PolicyDecisionStatus, RecoveryAttemptStatus, RecoveryCaseState, RuleCheckStatus,
  TransactionStatus, WorkflowStatus, WorkflowStepStatus, WorkflowStepType,
}

pub record Customer : Type 0 where
  pub id : ℕ
  pub email : Option String
  pub merchant_id : Option String  -- metadata_json["merchant_id"], if it is there
  pub provider : String
  pub external_customer_id : String

pub record CustomerConsent : Type 0 where
  pub id : ℕ
  pub customer_id : ℕ
  pub consent_type : ConsentType
  pub status : ConsentStatus
  pub merchant_id : Option String
  pub granted_at : ℕ
  pub revoked_at : Option ℕ
  pub expires_at : Option ℕ

pub record Transaction : Type 0 where
  pub id : ℕ
  pub customer_id : ℕ
  pub amount_minor : ℕ
  pub currency : Text
  pub status : TransactionStatus
  pub failure_code : Option Text
  pub occurred_at : ℕ
  pub provider : String
  pub external_transaction_id : String

pub record RecoveryCase : Type 0 where
  pub id : ℕ
  pub customer_id : ℕ
  pub trigger_transaction_id : ℕ
  pub case_key : String
  pub state : RecoveryCaseState
  pub priority : ℕ
  pub opened_at : ℕ
  pub last_state_changed_at : ℕ
  pub closed_at : Option ℕ
  pub version : ℕ
  pub failure_count : Option ℕ  -- metadata_json["failure_count"], if it is there

pub record RecoveryAttempt : Type 0 where
  pub case_id : ℕ
  pub sequence_number : ℕ
  pub status : RecoveryAttemptStatus
  pub action_type : ActionType
  pub started_at : Option ℕ
  pub finished_at : Option ℕ
  pub idempotency_key : String

pub record AgentDecision : Type 0 where
  pub id : ℕ
  pub case_id : ℕ
  pub decision_version : ℕ
  pub action_type : ActionType
  pub confidence : Option ℕ
  pub validation_status : DecisionValidationStatus

-- `RuleCheckResult` of backend/app/policy/models.py, less the message and the details that are
-- only shown; `rule_results_json` stores the same fields.
pub record RuleCheckResult : Type 0 where
  pub rule_name : String
  pub status : RuleCheckStatus
  pub reason_code : String

pub record PolicyDecision : Type 0 where
  pub id : ℕ
  pub case_id : ℕ
  pub recommendation_id : ℕ
  pub proposed_action : ActionType
  pub decision_status : PolicyDecisionStatus
  pub policy_version : String
  pub rule_results : List RuleCheckResult
  pub reasons : List String
  pub actor_type : ActorType
  pub actor_id : Option String
  pub idempotency_key : Option String
  pub case_version : ℕ
  pub evaluated_at : ℕ

pub record AuditEvent : Type 0 where
  pub case_id : ℕ
  pub event_type : String
  pub from_state : Option RecoveryCaseState
  pub to_state : Option RecoveryCaseState
  pub actor_type : ActorType
  pub actor_id : Option String
  pub correlation_id : String
  pub event_time : ℕ
  pub sequence_number : ℕ

pub record CaseStateTransition : Type 0 where
  pub case_id : ℕ
  pub from_state : Option RecoveryCaseState
  pub to_state : RecoveryCaseState
  pub reason_code : Text
  pub actor_type : ActorType
  pub correlation_id : String
  pub occurred_at : ℕ
  pub sequence_number : ℕ

pub record RecoveryWorkflow : Type 0 where
  pub id : ℕ
  pub case_id : ℕ
  pub policy_decision_id : ℕ
  pub status : WorkflowStatus
  pub max_steps : ℕ
  pub scheduled_for : ℕ
  pub expires_at : ℕ

pub record WorkflowStep : Type 0 where
  pub id : ℕ
  pub workflow_id : ℕ
  pub step_index : ℕ
  pub step_type : WorkflowStepType
  pub status : WorkflowStepStatus
  pub action_type : ActionType
  pub executed_at : Option ℕ

pub record RecoveryExecution : Type 0 where
  pub step_id : ℕ
  pub case_id : ℕ
  pub status : ExecutionStatus
  pub amount_minor : ℕ
  pub external_reference : Option String
  pub executed_at : ℕ

pub record ProviderWebhookEvent : Type 0 where
  pub id : ℕ
  pub provider : String
  pub external_event_id : String
  pub event_type : Text
  pub payload_hash : String
  pub signature_verified : Bool
  pub processed : Bool
  pub ingestion_status : String
