-- ===== src/Resilience.antt =====
-- `ResiliencePolicy` of backend/app/resilience/recovery.py and `ResilientExecutor` of executor.py
-- there. How a call ends is a parameter: it returns, exceeds the timeout, or raises an exception of one
-- of the classes that the executor tells apart. The messages are left out.
pub mod Bounded
use revenue_rescue_ai.Common.{
  Bool, Option, false, if◌then◌else◌, leb, ltb, min, none, some, true, ℕ, ◌*◌, ◌+◌, ◌-◌, ◌^◌,
}

pub data FailureKind : Type 0 where
  timeout transient_api permanent_api invalid_agent_output : FailureKind
  uncertain_outcome duplicate_request unknown : FailureKind

pub data RecoveryDisposition : Type 0 where
  retry verify escalate stop : RecoveryDisposition

pub record RetrySchedule : Type 0 where
  pub attempt_number : ℕ
  pub next_attempt_at : ℕ
  pub delay_seconds : ℕ
  pub max_attempts : ℕ

pub record FailureClassification : Type 0 where
  pub kind : FailureKind
  pub disposition : RecoveryDisposition
  pub retryable : Bool
  pub schedule : Option RetrySchedule

pub record ResiliencePolicy : Type 0 where
  pub max_attempts : ℕ
  pub base_delay_seconds : ℕ
  pub max_delay_seconds : ℕ

-- `ResiliencePolicy.__init__`, which refuses a limit below 1
unfoldable pub make_policy : ℕ → ℕ → ℕ → Option ResiliencePolicy
make_policy max_attempts base_delay max_delay =
    if ltb max_attempts 1
    then none
    else some record {
      max_attempts = max_attempts;
      base_delay_seconds = base_delay;
      max_delay_seconds = max_delay;
    }

abbrev pub second : ℕ
second = 1_000_000

-- `2 ** max(attempt_number - 1, 0)` and the cap
unfoldable pub retry_delay : ResiliencePolicy → ℕ → ℕ
retry_delay policy attempt =
    min (policy.base_delay_seconds * 2 ^ (attempt - 1)) policy.max_delay_seconds

abbrev pub settled : FailureKind → RecoveryDisposition → FailureClassification
settled kind disposition = record {
  kind = kind;
  disposition = disposition;
  retryable = false;
  schedule = none;
}

-- The part of `classify` after the kinds that are settled at once; the kinds that reach it are the
-- three that may be retried.
abbrev pub classify_transient : ResiliencePolicy → FailureKind → ℕ → ℕ → FailureClassification
unfolding retry_delay
classify_transient policy kind attempt now =
    if leb policy.max_attempts attempt then settled kind RecoveryDisposition.escalate else record {
      kind = kind;
      disposition = RecoveryDisposition.retry;
      retryable = true;
      schedule = some record {
        attempt_number = attempt + 1;
        next_attempt_at = now + retry_delay policy attempt * second;
        delay_seconds = retry_delay policy attempt;
        max_attempts = policy.max_attempts;
      };
    }

-- `classify`
unfoldable pub classify : ResiliencePolicy → FailureKind → ℕ → ℕ → FailureClassification
unfolding classify_transient
classify policy FailureKind.uncertain_outcome attempt now =
    settled FailureKind.uncertain_outcome RecoveryDisposition.verify
classify policy FailureKind.invalid_agent_output attempt now =
    settled FailureKind.invalid_agent_output RecoveryDisposition.escalate
classify policy FailureKind.permanent_api attempt now =
    settled FailureKind.permanent_api RecoveryDisposition.escalate
classify policy FailureKind.duplicate_request attempt now =
    settled FailureKind.duplicate_request RecoveryDisposition.stop
classify policy kind attempt now = classify_transient policy kind attempt now

-- How the submitted operation ends
pub data CallEnd {ℓ} (A : Type ℓ) : Type ℓ where
  returned : A → CallEnd A
  future_timeout connection_error value_error other_error : CallEnd A

pub record ExecutionEnvelope {ℓ} (A : Type ℓ) : Type ℓ where
  pub value : Option A
  pub classification : Option FailureClassification

abbrev pub failed_with {ℓ} : {A : Type ℓ} → FailureClassification → ExecutionEnvelope A
failed_with c = record { value = none; classification = some c }

-- `ResilientExecutor.run`
unfoldable pub run {ℓ} : {A : Type ℓ} → ResiliencePolicy → CallEnd A → ℕ → ℕ → ExecutionEnvelope A
unfolding classify
run policy (returned a) attempt now = record { value = some a; classification = none }
run policy future_timeout attempt now =
    failed_with (classify policy FailureKind.timeout attempt now)
run policy connection_error attempt now =
    failed_with (classify policy FailureKind.transient_api attempt now)
run policy value_error attempt now =
    failed_with (classify policy FailureKind.permanent_api attempt now)
run policy other_error attempt now = failed_with (classify policy FailureKind.unknown attempt now)

-- `ResilientExecutor.uncertain`
unfoldable pub uncertain {ℓ} : {A : Type ℓ} → ResiliencePolicy → ℕ → ℕ → ExecutionEnvelope A
unfolding classify
uncertain policy attempt now =
    failed_with (classify policy FailureKind.uncertain_outcome attempt now)
