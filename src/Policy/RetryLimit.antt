-- ===== src/Policy/RetryLimit.antt =====
-- `RetryLimitEvaluator` of backend/app/policy/evaluators/retry_limit_evaluator.py.
pub mod Passed
use revenue_rescue_ai.Common.{
  Bool, List, Option, String, Text, [], any, false, filter, if◌then◌else◌, length, lower, ltb, none,
  not, one_of, some, string_eq, strip, ℕ, ◌&&◌, ◌==◌, ◌∷◌,
}
use revenue_rescue_ai.Enums.{
  ActionType, RecoveryAttemptStatus, RuleCheckStatus, action_type_eq, recovery_attempt_status_eq,
}
use revenue_rescue_ai.Domain.{RecoveryAttempt, RuleCheckResult}
use revenue_rescue_ai.Policy.Config.{PolicyConfig, can_retry, is_cooldown_elapsed}
use revenue_rescue_ai.Policy.Models.{result}

abbrev pub retry_rule : String
retry_rule = "retry_limit_evaluation"

abbrev pub non_retryable_categories : List String
non_retryable_categories =
    "fraud_suspected" ∷ "stolen_card" ∷ "lost_card" ∷ "account_closed" ∷ "pickup_card"
    ∷ "restricted_card" ∷ []

-- `failure_category is not None and failure_category.strip().lower() in _NON_RETRYABLE_CATEGORIES`
unfoldable pub is_non_retryable : Option Text → Bool
is_non_retryable none = false
is_non_retryable (some category) = one_of non_retryable_categories (lower (strip category))

-- A key is a truth value: `None` and the empty text are false.
unfoldable pub has_key : Option String → List RecoveryAttempt → Bool
has_key none attempts = false
has_key (some key) attempts = not (key == "") && any (λ a. a.idempotency_key == key) attempts

unfoldable pub has_status : RecoveryAttemptStatus → List RecoveryAttempt → Bool
has_status status attempts = any (λ a. a.status == status) attempts

-- Only payment retries that were not cancelled use up the quota.
abbrev pub is_consumed : RecoveryAttempt → Bool
is_consumed a =
    a.action_type == ActionType.retry_payment && not (a.status == RecoveryAttemptStatus.cancelled)

unfoldable pub consumed_attempts : List RecoveryAttempt → List RecoveryAttempt
consumed_attempts = filter is_consumed

-- `a.finished_at or a.started_at`
abbrev pub attempt_time : RecoveryAttempt → Option ℕ
attempt_time a = elim a.finished_at [ none ↦ a.started_at | some t ↦ some t ]

-- The key of `max`: `datetime.min` where there is no time.
abbrev pub time_key : RecoveryAttempt → ℕ
time_key a = elim (attempt_time a) [ none ↦ 0 | some t ↦ t ]

-- `max(attempts, key=...)`: the first of those with the greatest key.
unfoldable pub latest_attempt : RecoveryAttempt → List RecoveryAttempt → RecoveryAttempt
latest_attempt best [] = best
latest_attempt best (a ∷ as') =
    latest_attempt (if ltb (time_key best) (time_key a) then a else best) as'

-- Step 8: is there a latest attempt whose cooldown still runs?
unfoldable pub in_cooldown : PolicyConfig → List RecoveryAttempt → ℕ → Bool
in_cooldown config [] now = false
in_cooldown config (a ∷ as') now = elim (attempt_time (latest_attempt a as')) [
  | none ↦ false
  | some t ↦ not (is_cooldown_elapsed config t now)
]

-- Steps 6 to 8.
unfoldable pub evaluate_quota : PolicyConfig → List RecoveryAttempt → ℕ → RuleCheckResult
evaluate_quota config consumed now =
    if not (can_retry config (length consumed))
    then result retry_rule RuleCheckStatus.failed "RETRY_LIMIT_EXCEEDED"
    else if in_cooldown config consumed now
    then result retry_rule RuleCheckStatus.failed "RETRY_COOLDOWN_ACTIVE"
    else result retry_rule RuleCheckStatus.passed "RETRY_LIMIT_OK"

-- `RetryLimitEvaluator.evaluate`
unfoldable pub evaluate_retry :
    ActionType
    → List RecoveryAttempt
    → PolicyConfig
    → ℕ
    → Option String
    → Option Text
    → RuleCheckResult
unfolding evaluate_quota
evaluate_retry action attempts config now key category =
    if not (action == ActionType.retry_payment)
    then result retry_rule RuleCheckStatus.passed "NOT_A_RETRY_ACTION"
    else if is_non_retryable category
    then result retry_rule RuleCheckStatus.failed "RETRY_NOT_SUPPORTED"
    else if has_key key attempts
    then result retry_rule RuleCheckStatus.failed "DUPLICATE_RETRY_REQUEST"
    else if has_status RecoveryAttemptStatus.succeeded attempts
    then result retry_rule RuleCheckStatus.failed "PREVIOUS_ATTEMPT_SUCCEEDED"
    else if has_status RecoveryAttemptStatus.started attempts
    then result retry_rule RuleCheckStatus.failed "RETRY_ALREADY_IN_PROGRESS"
    else if has_status RecoveryAttemptStatus.uncertain attempts
    then result retry_rule RuleCheckStatus.needs_review "PREVIOUS_OUTCOME_UNKNOWN"
    else evaluate_quota config (consumed_attempts attempts) now
