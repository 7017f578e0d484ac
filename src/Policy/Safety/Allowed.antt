-- ===== src/Policy/Safety/Allowed.antt =====
-- When the safety policy allows a payment retry.
use revenue_rescue_ai.Common.{
  Bool, arith, contains, false, if◌then◌else◌, leb, not, refl, true, ◌&&◌, ◌<◌, ◌==◌, ◌↔◌, ◌≡◌, ◌≢◌,
}
use revenue_rescue_ai.Enums.{
  ActionType, RecoveryCaseState, TransactionStatus, action_type_eq, recovery_case_state_eq,
  transaction_status_eq,
}
use revenue_rescue_ai.Policy.Safety.{
  PolicyContext, PolicyOutcome, PolicyReason, SafetyConfig, SafetyDecision, ended_states,
  escalate_with, evaluate_safety, has_text, is_duplicate, reject_with, retryable_states, stop_with,
}

-- `evaluate_safety` on the values of its tests, in their order.
unfoldable pub judge :
    SafetyConfig → Bool → Bool → Bool → Bool → Bool → Bool → Bool → Bool → Bool → SafetyDecision
judge config ended paid permitted retry ready spent unclear keyed used =
    if ended
    then stop_with config PolicyReason.case_terminal
    else if paid
    then stop_with config PolicyReason.transaction_already_succeeded
    else if not permitted
    then reject_with config PolicyReason.action_not_permitted
    else if retry && not ready
    then reject_with config PolicyReason.case_state_not_actionable
    else if retry && spent
    then escalate_with config PolicyReason.retry_limit_reached
    else if retry && unclear
    then escalate_with config PolicyReason.uncertain_outcome_requires_verification
    else if retry && not keyed
    then reject_with config PolicyReason.missing_idempotency_key
    else if used
    then reject_with config PolicyReason.duplicate_attempt
    else record {
      outcome = PolicyOutcome.allow;
      reason = PolicyReason.allowed;
      policy_version = config.policy_version;
      retry_allowed = retry;
      should_stop = false;
      should_escalate = false;
    }

-- What the tests must give for a retry.
abbrev Passes : Bool → Bool → Bool → Bool → Bool → Bool → Bool → Bool → Bool → Type 0
Passes ended paid permitted retry ready spent unclear keyed used =
    (ended ≡ false)
    × (paid ≡ false)
    × (permitted ≡ true)
    × (retry ≡ true)
    × (ready ≡ true)
    × (spent ≡ false)
    × (unclear ≡ false)
    × (keyed ≡ true)
    × (used ≡ false)

judge-Passes :
    (config : SafetyConfig) (ended paid permitted retry ready spent unclear keyed used : Bool)
    → (judge config ended paid permitted retry ready spent unclear keyed used).retry_allowed ≡ true
    → Passes ended paid permitted retry ready spent unclear keyed used
unfolding judge
judge-Passes config true paid permitted retry ready spent unclear keyed used h = cc
judge-Passes config false true permitted retry ready spent unclear keyed used h = cc
judge-Passes config false false false retry ready spent unclear keyed used h = cc
judge-Passes config false false true false ready spent unclear keyed true h = cc
judge-Passes config false false true false ready spent unclear keyed false h = cc
judge-Passes config false false true true false spent unclear keyed used h = cc
judge-Passes config false false true true true true unclear keyed used h = cc
judge-Passes config false false true true true false true keyed used h = cc
judge-Passes config false false true true true false false false used h = cc
judge-Passes config false false true true true false false true true h = cc
judge-Passes config false false true true true false false true false h =
    (refl, refl, refl, refl, refl, refl, refl, refl, refl)

-- A case that a retry may act on has not ended.
retryable-open :
    (state : RecoveryCaseState)
    → contains retryable_states state ≡ true
    → contains ended_states state ≡ false
retryable-open state h = ground arith

-- The facts that a retry needs.
abbrev pub MayRetry : SafetyConfig → PolicyContext → Type 0
MayRetry config context =
    (context.action ≡ ActionType.retry_payment)
    × (contains retryable_states context.case_state ≡ true)
    × (context.transaction_status ≢ TransactionStatus.succeeded)
    × (contains config.allowed_actions ActionType.retry_payment ≡ true)
    × (context.retry_attempt_count < config.max_retry_attempts)
    × (context.has_uncertain_attempt ≡ false)
    × (has_text context.idempotency_key ≡ true)
    × (is_duplicate context.idempotency_key context.prior_idempotency_keys ≡ false)

pub evaluate_safety-judge :
    (config : SafetyConfig) (context : PolicyContext)
    → evaluate_safety config context
      ≡ judge config
          (contains ended_states context.case_state)
          (context.transaction_status == TransactionStatus.succeeded)
          (contains config.allowed_actions context.action)
          (context.action == ActionType.retry_payment)
          (contains retryable_states context.case_state)
          (leb config.max_retry_attempts context.retry_attempt_count)
          context.has_uncertain_attempt
          (has_text context.idempotency_key)
          (is_duplicate context.idempotency_key context.prior_idempotency_keys)
unfolding evaluate_safety judge
evaluate_safety-judge config context = refl

evaluate_safety-MayRetry :
    (config : SafetyConfig) (context : PolicyContext)
    → (evaluate_safety config context).retry_allowed ≡ true
    → MayRetry config context
evaluate_safety-MayRetry config context h =
    let p =
      judge-Passes config _ _ _ _ _ _ _ _ _ (rw (evaluate_safety-judge config context) at h) in
    let a = (action_type_eq.same_iff context.action ActionType.retry_payment).0 p.3 in
    (a, p.4, ground (arith, p.1), (rw a at p.2), ground (arith, p.5), p.6, p.7, p.8)

MayRetry-evaluate_safety :
    (config : SafetyConfig) (context : PolicyContext)
    → MayRetry config context
    → (evaluate_safety config context).retry_allowed ≡ true
unfolding evaluate_safety
MayRetry-evaluate_safety config context c =
    let going = retryable-open context.case_state c.1 in
    let unpaid : (context.transaction_status == TransactionStatus.succeeded) ≡ false =
      ground (arith, c.2) in
    let left : leb config.max_retry_attempts context.retry_attempt_count ≡ false =
      ground (arith, c.4) in
    rw (c.0, going, unpaid, c.3, c.1, left, c.5, c.6, c.7)

-- A retry is allowed exactly when the case waits for a decision or is eligible for a retry, the
-- payment has not succeeded, retries are among the permitted actions, the limit is not reached, no
-- attempt is uncertain, and the request has a key of its own that was not used before.
pub retry_allowed_iff :
    (config : SafetyConfig) (context : PolicyContext)
    → ((evaluate_safety config context).retry_allowed ≡ true) ↔ MayRetry config context
retry_allowed_iff config context =
    (evaluate_safety-MayRetry config context, MayRetry-evaluate_safety config context)
