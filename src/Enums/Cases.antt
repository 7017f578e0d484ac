-- ===== src/Enums/Cases.antt =====
-- The case, transaction, attempt and actor enumerations of backend/app/core/enums.py, and `==` on those that are compared.
use revenue_rescue_ai.Common.{◌≡◌, ◌↔◌, Bool, true, false, arith, Eq}

pub data TransactionStatus : Type 0 where
  created authorized succeeded failed pending cancelled refunded unknown : TransactionStatus

abbrev transaction_status_beq : TransactionStatus → TransactionStatus → Bool
transaction_status_beq TransactionStatus.created TransactionStatus.created = true
transaction_status_beq TransactionStatus.authorized TransactionStatus.authorized = true
transaction_status_beq TransactionStatus.succeeded TransactionStatus.succeeded = true
transaction_status_beq TransactionStatus.failed TransactionStatus.failed = true
transaction_status_beq TransactionStatus.pending TransactionStatus.pending = true
transaction_status_beq TransactionStatus.cancelled TransactionStatus.cancelled = true
transaction_status_beq TransactionStatus.refunded TransactionStatus.refunded = true
transaction_status_beq TransactionStatus.unknown TransactionStatus.unknown = true
transaction_status_beq _ _ = false

pub transaction_status_beq_iff :
    (a b : TransactionStatus) → (transaction_status_beq a b ≡ true) ↔ (a ≡ b)
transaction_status_beq_iff a b = (λ h. ground arith, λ h. ground arith)

instance abbrev pub transaction_status_eq : Eq TransactionStatus
transaction_status_eq = record {
  same = transaction_status_beq;
  same_iff = transaction_status_beq_iff;
}

pub data RecoveryCaseState : Type 0 where
  detected context_ready awaiting_decision action_pending verification_pending recovered
        retry_eligible escalated stopped closed :
      RecoveryCaseState

abbrev recovery_case_state_beq : RecoveryCaseState → RecoveryCaseState → Bool
recovery_case_state_beq RecoveryCaseState.detected RecoveryCaseState.detected = true
recovery_case_state_beq RecoveryCaseState.context_ready RecoveryCaseState.context_ready = true
recovery_case_state_beq RecoveryCaseState.awaiting_decision RecoveryCaseState.awaiting_decision =
    true
recovery_case_state_beq RecoveryCaseState.action_pending RecoveryCaseState.action_pending = true
recovery_case_state_beq RecoveryCaseState.verification_pending
      RecoveryCaseState.verification_pending =
    true
recovery_case_state_beq RecoveryCaseState.recovered RecoveryCaseState.recovered = true
recovery_case_state_beq RecoveryCaseState.retry_eligible RecoveryCaseState.retry_eligible = true
recovery_case_state_beq RecoveryCaseState.escalated RecoveryCaseState.escalated = true
recovery_case_state_beq RecoveryCaseState.stopped RecoveryCaseState.stopped = true
recovery_case_state_beq RecoveryCaseState.closed RecoveryCaseState.closed = true
recovery_case_state_beq _ _ = false

pub recovery_case_state_beq_iff :
    (a b : RecoveryCaseState) → (recovery_case_state_beq a b ≡ true) ↔ (a ≡ b)
recovery_case_state_beq_iff a b = (λ h. ground arith, λ h. ground arith)

instance abbrev pub recovery_case_state_eq : Eq RecoveryCaseState
recovery_case_state_eq = record {
  same = recovery_case_state_beq;
  same_iff = recovery_case_state_beq_iff;
}

pub data RecoveryAttemptStatus : Type 0 where
  planned started succeeded failed uncertain cancelled : RecoveryAttemptStatus

abbrev recovery_attempt_status_beq : RecoveryAttemptStatus → RecoveryAttemptStatus → Bool
recovery_attempt_status_beq RecoveryAttemptStatus.planned RecoveryAttemptStatus.planned = true
recovery_attempt_status_beq RecoveryAttemptStatus.started RecoveryAttemptStatus.started = true
recovery_attempt_status_beq RecoveryAttemptStatus.succeeded RecoveryAttemptStatus.succeeded = true
recovery_attempt_status_beq RecoveryAttemptStatus.failed RecoveryAttemptStatus.failed = true
recovery_attempt_status_beq RecoveryAttemptStatus.uncertain RecoveryAttemptStatus.uncertain = true
recovery_attempt_status_beq RecoveryAttemptStatus.cancelled RecoveryAttemptStatus.cancelled = true
recovery_attempt_status_beq _ _ = false

pub recovery_attempt_status_beq_iff :
    (a b : RecoveryAttemptStatus) → (recovery_attempt_status_beq a b ≡ true) ↔ (a ≡ b)
recovery_attempt_status_beq_iff a b = (λ h. ground arith, λ h. ground arith)

instance abbrev pub recovery_attempt_status_eq : Eq RecoveryAttemptStatus
recovery_attempt_status_eq = record {
  same = recovery_attempt_status_beq;
  same_iff = recovery_attempt_status_beq_iff;
}

pub data ActionType : Type 0 where
  none retry_payment send_reminder request_operator_review stop : ActionType

abbrev action_type_beq : ActionType → ActionType → Bool
action_type_beq ActionType.none ActionType.none = true
action_type_beq ActionType.retry_payment ActionType.retry_payment = true
action_type_beq ActionType.send_reminder ActionType.send_reminder = true
action_type_beq ActionType.request_operator_review ActionType.request_operator_review = true
action_type_beq ActionType.stop ActionType.stop = true
action_type_beq _ _ = false

pub action_type_beq_iff : (a b : ActionType) → (action_type_beq a b ≡ true) ↔ (a ≡ b)
action_type_beq_iff a b = (λ h. ground arith, λ h. ground arith)

instance abbrev pub action_type_eq : Eq ActionType
action_type_eq = record { same = action_type_beq; same_iff = action_type_beq_iff }

pub data ActorType : Type 0 where
  system operator agent provider user test : ActorType

pub data RiskTier : Type 0 where
  high medium low : RiskTier
