-- ===== src/Examples/ResilienceRuns.antt =====
-- Runs of the resilience policy.
use revenue_rescue_ai.Common.{ltb, refl, ◌&&◌, ◌≡◌}
use revenue_rescue_ai.Examples.Rows.{noon}
use revenue_rescue_ai.Resilience.{
  FailureKind, RecoveryDisposition, ResiliencePolicy, classify, retry_delay,
}
use revenue_rescue_ai.Resilience.Bounded.{Scheduled, classify-Scheduled, is_transient}

abbrev two_attempts : ResiliencePolicy
two_attempts = record { max_attempts = 2; base_delay_seconds = 30; max_delay_seconds = 3600 }

classify-Scheduled_example :
    let c = classify two_attempts FailureKind.timeout 1 noon in
    (c.retryable ≡ (is_transient FailureKind.timeout && ltb 1 two_attempts.max_attempts))
    × Scheduled two_attempts 1 noon c.schedule c.retryable
classify-Scheduled_example = classify-Scheduled two_attempts FailureKind.timeout 1 noon

second_timeout :
    (classify two_attempts FailureKind.timeout 2 noon).disposition ≡ RecoveryDisposition.escalate
unfolding classify retry_delay
second_timeout = refl
