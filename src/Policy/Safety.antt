-- ===== src/Policy/Safety.antt =====
-- `SafetyPolicy` of backend/app/policy/safety.py, the guard of the vertical workflow.
pub mod Allowed
use revenue_rescue_ai.Common.{
  Bool, List, Option, String, [], contains, false, filter, if◌then◌else◌, leb, length, none, not,
  some, string_eq, true, ℕ, ◌&&◌, ◌==◌, ◌∷◌,
}
use revenue_rescue_ai.Enums.{
  ActionType, RecoveryAttemptStatus, RecoveryCaseState, TransactionStatus, action_type_eq,
  recovery_attempt_status_eq, recovery_case_state_eq, transaction_status_eq,
}

pub data PolicyOutcome : Type 0 where
  allow reject stop escalate : PolicyOutcome

pub data PolicyReason : Type 0 where
  allowed case_terminal transaction_already_succeeded retry_limit_reached duplicate_attempt
        action_not_permitted uncertain_outcome_requires_verification missing_idempotency_key
        case_state_not_actionable :
      PolicyReason

-- `PolicyConfig` of this file.
pub record SafetyConfig : Type 0 where
  pub max_retry_attempts : ℕ
  pub allowed_actions : List ActionType
  pub policy_version : String

-- The defaults of the dataclass.
abbrev pub default_safety : SafetyConfig
default_safety = record {
  max_retry_attempts = 2;
  allowed_actions =
      ActionType.retry_payment ∷ ActionType.send_reminder ∷ ActionType.request_operator_review
      ∷ ActionType.stop ∷ [];
  policy_version = "phase6.v1";
}

pub record PolicyContext : Type 0 where
  pub case_state : RecoveryCaseState
  pub transaction_status : TransactionStatus
  pub action : ActionType
  pub retry_attempt_count : ℕ
  pub prior_idempotency_keys : List String
  pub idempotency_key : Option String
  pub has_uncertain_attempt : Bool

-- `PolicyDecision` of this file.
pub record SafetyDecision : Type 0 where
  pub outcome : PolicyOutcome
  pub reason : PolicyReason
  pub policy_version : String
  pub retry_allowed : Bool
  pub should_stop : Bool
  pub should_escalate : Bool

-- `_TERMINAL_STATES` and `_ACTIONABLE_STATES` of this file.
abbrev pub ended_states : List RecoveryCaseState
ended_states =
    RecoveryCaseState.recovered ∷ RecoveryCaseState.stopped ∷ RecoveryCaseState.closed ∷ []

abbrev pub retryable_states : List RecoveryCaseState
retryable_states = RecoveryCaseState.awaiting_decision ∷ RecoveryCaseState.retry_eligible ∷ []

-- `_reject`
abbrev pub reject_with : SafetyConfig → PolicyReason → SafetyDecision
reject_with config reason = record {
  outcome = PolicyOutcome.reject;
  reason = reason;
  policy_version = config.policy_version;
  retry_allowed = false;
  should_stop = false;
  should_escalate = false;
}

-- `_stop`
abbrev pub stop_with : SafetyConfig → PolicyReason → SafetyDecision
stop_with config reason = record {
  outcome = PolicyOutcome.stop;
  reason = reason;
  policy_version = config.policy_version;
  retry_allowed = false;
  should_stop = true;
  should_escalate = false;
}

-- The two decisions of `evaluate` that escalate.
abbrev pub escalate_with : SafetyConfig → PolicyReason → SafetyDecision
escalate_with config reason = record {
  outcome = PolicyOutcome.escalate;
  reason = reason;
  policy_version = config.policy_version;
  retry_allowed = false;
  should_stop = false;
  should_escalate = true;
}

-- A key is a truth value: `None` and the empty text are false.
unfoldable pub has_text : Option String → Bool
has_text none = false
has_text (some key) = not (key == "")

-- `context.idempotency_key and context.idempotency_key in context.prior_idempotency_keys`
unfoldable pub is_duplicate : Option String → List String → Bool
is_duplicate none keys = false
is_duplicate (some key) keys = not (key == "") && contains keys key

-- `SafetyPolicy.evaluate`
unfoldable pub evaluate_safety : SafetyConfig → PolicyContext → SafetyDecision
evaluate_safety config context =
    let is_retry = context.action == ActionType.retry_payment in
    if contains ended_states context.case_state
    then stop_with config PolicyReason.case_terminal
    else if context.transaction_status == TransactionStatus.succeeded
    then stop_with config PolicyReason.transaction_already_succeeded
    else if not (contains config.allowed_actions context.action)
    then reject_with config PolicyReason.action_not_permitted
    else if is_retry && not (contains retryable_states context.case_state)
    then reject_with config PolicyReason.case_state_not_actionable
    else if is_retry && leb config.max_retry_attempts context.retry_attempt_count
    then escalate_with config PolicyReason.retry_limit_reached
    else if is_retry && context.has_uncertain_attempt
    then escalate_with config PolicyReason.uncertain_outcome_requires_verification
    else if is_retry && not (has_text context.idempotency_key)
    then reject_with config PolicyReason.missing_idempotency_key
    else if is_duplicate context.idempotency_key context.prior_idempotency_keys
    then reject_with config PolicyReason.duplicate_attempt
    else record {
      outcome = PolicyOutcome.allow;
      reason = PolicyReason.allowed;
      policy_version = config.policy_version;
      retry_allowed = is_retry;
      should_stop = false;
      should_escalate = false;
    }

-- `count_retry_attempts`
unfoldable pub count_retry_attempts : List RecoveryAttemptStatus → ℕ
count_retry_attempts statuses =
    length (filter (λ status. not (status == RecoveryAttemptStatus.cancelled)) statuses)
