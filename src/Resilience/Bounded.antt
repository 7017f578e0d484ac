-- ===== src/Resilience/Bounded.antt =====
-- What a classification promises about retries.
use revenue_rescue_ai.Common.{
  Bool, Option, arith, false, ltb, none, refl, some, true, ℕ, ◌&&◌, ◌*◌, ◌+◌, ◌≡◌, ◌≤◌,
}
use revenue_rescue_ai.Resilience.{
  FailureKind, ResiliencePolicy, RetrySchedule, classify, classify_transient, retry_delay, second,
}

-- A kind of failure after which the call may be tried again
abbrev pub is_transient : FailureKind → Bool
is_transient FailureKind.timeout = true
is_transient FailureKind.transient_api = true
is_transient FailureKind.unknown = true
is_transient _ = false

-- A schedule is the next attempt, which is within the limit, after the delay, which is within the cap.
abbrev pub IsWithin : ResiliencePolicy → ℕ → ℕ → RetrySchedule → Type 0
IsWithin policy attempt now r =
    (r.attempt_number ≡ attempt + 1)
    × (r.attempt_number ≤ policy.max_attempts)
    × (r.delay_seconds ≤ policy.max_delay_seconds)
    × (r.next_attempt_at ≡ now + r.delay_seconds * second)

abbrev pub Scheduled : ResiliencePolicy → ℕ → ℕ → Option RetrySchedule → Bool → Type 0
Scheduled policy attempt now none may_retry = may_retry ≡ false
Scheduled policy attempt now (some r) may_retry = (may_retry ≡ true) × IsWithin policy attempt now r

-- A failure is scheduled again exactly if its kind is transient and the attempt is below the limit, and
-- then the next attempt is within the limit and its delay within the cap; an uncertain outcome
-- is never tried again.
pub classify-Scheduled :
    (policy : ResiliencePolicy) (kind : FailureKind) (attempt now : ℕ)
    → let c = classify policy kind attempt now in
      (c.retryable ≡ (is_transient kind && ltb attempt policy.max_attempts))
      × Scheduled policy attempt now c.schedule c.retryable
unfolding classify classify_transient retry_delay
classify-Scheduled policy FailureKind.timeout attempt now = ground arith
classify-Scheduled policy FailureKind.transient_api attempt now = ground arith
classify-Scheduled policy FailureKind.unknown attempt now = ground arith
classify-Scheduled policy FailureKind.permanent_api attempt now = (refl, refl)
classify-Scheduled policy FailureKind.invalid_agent_output attempt now = (refl, refl)
classify-Scheduled policy FailureKind.uncertain_outcome attempt now = (refl, refl)
classify-Scheduled policy FailureKind.duplicate_request attempt now = (refl, refl)
