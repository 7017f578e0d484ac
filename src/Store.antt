-- ===== src/Store.antt =====
-- The tables behind a database session, and the queries of backend/app/repositories that the
-- services make. A query gives the rows in the order of the table; `save` of a new row appends.
pub mod Laws
use revenue_rescue_ai.Common.{
  List, Option, String, [], filter, find?, if◌then◌else◌, max, nat_eq, option_beq, some, string_eq,
  ℕ, ◌&&◌, ◌++◌, ◌+◌, ◌==◌, ◌∷◌,
}
use revenue_rescue_ai.Enums.{ActorType, RecoveryCaseState}
use revenue_rescue_ai.Domain.{
  AgentDecision, AuditEvent, CaseStateTransition, Customer, CustomerConsent, PolicyDecision,
  ProviderWebhookEvent, RecoveryAttempt, RecoveryCase, RecoveryExecution, RecoveryWorkflow,
  Transaction, WorkflowStep,
}

pub record Store : Type 0 where
  pub customers : List Customer
  pub consents : List CustomerConsent
  pub transactions : List Transaction
  pub cases : List RecoveryCase
  pub attempts : List RecoveryAttempt
  pub decisions : List AgentDecision
  pub policy_decisions : List PolicyDecision
  pub audit_events : List AuditEvent
  pub transitions : List CaseStateTransition
  pub workflows : List RecoveryWorkflow
  pub steps : List WorkflowStep
  pub executions : List RecoveryExecution
  pub webhook_events : List ProviderWebhookEvent

unfoldable pub find_customer : ℕ → Store → Option Customer
find_customer key s = find? (λ r. r.id == key) s.customers

unfoldable pub find_transaction : ℕ → Store → Option Transaction
find_transaction key s = find? (λ r. r.id == key) s.transactions

unfoldable pub find_case : ℕ → Store → Option RecoveryCase
find_case key s = find? (λ r. r.id == key) s.cases

unfoldable pub find_decision : ℕ → Store → Option AgentDecision
find_decision key s = find? (λ r. r.id == key) s.decisions

unfoldable pub attempts_of : ℕ → Store → List RecoveryAttempt
attempts_of key s = filter (λ r. r.case_id == key) s.attempts

unfoldable pub consents_of : ℕ → Store → List CustomerConsent
consents_of key s = filter (λ r. r.customer_id == key) s.consents

-- Writing back a row that the session has loaded.
unfoldable pub put_case : RecoveryCase → List RecoveryCase → List RecoveryCase
put_case c [] = []
put_case c (r ∷ rs) = if r.id == c.id then c ∷ rs else r ∷ put_case c rs

unfoldable pub put_decision : AgentDecision → List AgentDecision → List AgentDecision
put_decision d [] = []
put_decision d (r ∷ rs) = if r.id == d.id then d ∷ rs else r ∷ put_decision d rs

unfoldable pub find_customer_by_external_id : String → String → Store → Option Customer
find_customer_by_external_id provider ref s =
    find? (λ r. r.provider == provider && r.external_customer_id == ref) s.customers

unfoldable pub find_transaction_by_external_id : String → String → Store → Option Transaction
find_transaction_by_external_id provider ref s =
    find? (λ r. r.provider == provider && r.external_transaction_id == ref) s.transactions

unfoldable pub find_by_case_key : String → Store → Option RecoveryCase
find_by_case_key key s = find? (λ r. r.case_key == key) s.cases

unfoldable pub find_by_trigger_transaction_id : ℕ → Store → Option RecoveryCase
find_by_trigger_transaction_id key s = find? (λ r. r.trigger_transaction_id == key) s.cases

-- Writing back a transaction that the session has loaded
unfoldable pub put_transaction : Transaction → List Transaction → List Transaction
put_transaction t [] = []
put_transaction t (r ∷ rs) = if r.id == t.id then t ∷ rs else r ∷ put_transaction t rs

unfoldable pub find_webhook_event : String → String → Store → Option ProviderWebhookEvent
find_webhook_event provider key s =
    find? (λ r. r.provider == provider && r.external_event_id == key) s.webhook_events

-- `select(func.max(...sequence_number))`, with 0 for no row, plus one
unfoldable pub next_audit_sequence : ℕ → List AuditEvent → ℕ
next_audit_sequence key [] = 1
next_audit_sequence key (e ∷ es) =
    let rest = next_audit_sequence key es in
    if e.case_id == key then max (e.sequence_number + 1) rest else rest

unfoldable pub next_transition_sequence : ℕ → List CaseStateTransition → ℕ
next_transition_sequence key [] = 1
next_transition_sequence key (t ∷ ts) =
    let rest = next_transition_sequence key ts in
    if t.case_id == key then max (t.sequence_number + 1) rest else rest

-- `AuditEventRepository.record`
unfoldable pub record_audit :
    ℕ
    → String
    → ActorType
    → String
    → Option RecoveryCaseState
    → Option RecoveryCaseState
    → Option String
    → ℕ
    → Store
    → Store
record_audit key event actor correlation from to actor_id now s = record s {
  audit_events =
      s.audit_events
      ++ record {
        case_id = key;
        event_type = event;
        from_state = from;
        to_state = to;
        actor_type = actor;
        actor_id = actor_id;
        correlation_id = correlation;
        event_time = now;
        sequence_number = next_audit_sequence key s.audit_events;
      }
        ∷ [];
}

-- `PolicyDecisionRepository.find_by_idempotency_key`
unfoldable pub find_policy_decision : ℕ → String → Store → Option PolicyDecision
find_policy_decision key idem s =
    find? (λ r. r.case_id == key && option_beq r.idempotency_key (some idem)) s.policy_decisions
