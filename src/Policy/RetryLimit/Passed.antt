-- ===== src/Policy/RetryLimit/Passed.antt =====
-- What a passed check of a payment retry means.
use revenue_rescue_ai.Common.{
  All, All-map, Bool-cases, List, Option, String, Text, [], arith, false, if◌then◌else◌, inl, inr,
  le_refl, le_trans, length, ltb, ltb→lt, none, not, some, true, ℕ, ◌*◌, ◌+◌, ◌<◌, ◌∷◌, ◌≡◌, ◌≤◌,
  ◌⊎◌,
}
use revenue_rescue_ai.Enums.{ActionType, RecoveryAttemptStatus}
use revenue_rescue_ai.Domain.{RecoveryAttempt}
use revenue_rescue_ai.Policy.Config.{PolicyConfig, can_retry, hour, is_cooldown_elapsed}
use revenue_rescue_ai.Policy.Models.{is_passed}
use revenue_rescue_ai.Policy.RetryLimit.{
  attempt_time, consumed_attempts, evaluate_quota, evaluate_retry, has_key, has_status, in_cooldown,
  is_non_retryable, latest_attempt, time_key,
}

-- A retry passes only with quota left, no attempt of its key, none that succeeded, runs or is
-- uncertain, a failure that can be retried, and no cooldown that still runs.
pub evaluate_retry-passed :
    (attempts : List RecoveryAttempt) (config : PolicyConfig) (now : ℕ) (key : Option String)
    → (category : Option Text)
    → is_passed (evaluate_retry ActionType.retry_payment attempts config now key category) ≡ true
    → (length (consumed_attempts attempts) < config.max_retry_attempts)
      × (is_non_retryable category ≡ false)
      × (has_key key attempts ≡ false)
      × (has_status RecoveryAttemptStatus.succeeded attempts ≡ false)
      × (has_status RecoveryAttemptStatus.started attempts ≡ false)
      × (has_status RecoveryAttemptStatus.uncertain attempts ≡ false)
      × (in_cooldown config (consumed_attempts attempts) now ≡ false)
unfolding evaluate_retry evaluate_quota can_retry
evaluate_retry-passed attempts config now key category h = ground arith

later : RecoveryAttempt → RecoveryAttempt → RecoveryAttempt
later best a = if ltb (time_key best) (time_key a) then a else best

later-ge :
    (best a : RecoveryAttempt)
    → (time_key best ≤ time_key (later best a)) × (time_key a ≤ time_key (later best a))
unfolding later
later-ge best a = elim (Bool-cases (ltb (time_key best) (time_key a))) [
  | inl h ↦ rw h (omega (arith, ltb→lt _ _ h), le_refl _)
  | inr h ↦ rw h (le_refl _, ground arith)
]

latest_attempt-ge :
    (best : RecoveryAttempt) (as' : List RecoveryAttempt)
    → All (λ a. time_key a ≤ time_key (latest_attempt best as')) (best ∷ as')
unfolding latest_attempt later
latest_attempt-ge best [] = (le_refl _, tt)
latest_attempt-ge best (a ∷ as') =
    let (first, rest) = latest_attempt-ge (later best a) as' in
    (le_trans (later-ge best a).0 first, (le_trans (later-ge best a).1 first, rest))

-- The attempt has no time, or its cooldown is over.
abbrev pub IsCool : PolicyConfig → ℕ → RecoveryAttempt → Type 0
IsCool config now a = (time_key a ≡ 0) ⊎ (time_key a + config.retry_cooldown_hours * hour ≤ now)

latest_attempt-IsCool :
    (config : PolicyConfig) (now : ℕ) (latest a : RecoveryAttempt)
    → elim (attempt_time latest) [ none ↦ false | some t ↦ not (is_cooldown_elapsed config t now) ]
      ≡ false
    → time_key a ≤ time_key latest
    → IsCool config now a
unfolding is_cooldown_elapsed
latest_attempt-IsCool config now latest a h le = ground arith

-- Outside the cooldown every attempt that used up quota and has a time lies at least the cooldown
-- back, and not only the latest one that the code looks at.
pub in_cooldown-IsCool :
    (config : PolicyConfig) (consumed : List RecoveryAttempt) (now : ℕ)
    → in_cooldown config consumed now ≡ false
    → All (IsCool config now) consumed
unfolding in_cooldown
in_cooldown-IsCool config [] now h = tt
in_cooldown-IsCool config (a ∷ as') now h =
    All-map (λ b le. latest_attempt-IsCool config now (latest_attempt a as') b h le) (a ∷ as')
      (latest_attempt-ge a as')
