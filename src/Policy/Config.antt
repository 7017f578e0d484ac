-- ===== src/Policy/Config.antt =====
-- `PolicyConfig` of backend/app/policy/config.py.
use revenue_rescue_ai.Common.{
  Bool, List, String, Text, [], codes, false, if◌then◌else◌, leb, ltb, strip, text_beq, upper, ℕ,
  ◌*◌, ◌+◌, ◌∷◌,
}

pub record PolicyConfig : Type 0 where
  pub max_retry_attempts : ℕ
  pub max_total_attempts : ℕ
  pub retry_cooldown_hours : ℕ
  pub high_value_escalation_threshold_minor : ℕ
  pub policy_version : String
  pub is_production_approved : Bool
  pub currency_thresholds_minor : List (String × ℕ)

-- The defaults of the dataclass.
abbrev pub default_config : PolicyConfig
default_config = record {
  max_retry_attempts = 3;
  max_total_attempts = 4;
  retry_cooldown_hours = 4;
  high_value_escalation_threshold_minor = 100_000;
  policy_version = "policy-v1.0";
  is_production_approved = false;
  currency_thresholds_minor =
      ("INR", 100_000)
      ∷ ("USD", 100_000)
      ∷ ("EUR", 100_000)
      ∷ ("GBP", 100_000)
      ∷ ("JPY", 150_000)
      ∷ ("AUD", 100_000)
      ∷ ("CAD", 100_000)
      ∷ ("SGD", 100_000)
      ∷ [];
}

-- `thresholds.get(curr, default)`
unfoldable pub get_threshold : Text → List (String × ℕ) → ℕ → ℕ
get_threshold curr [] default = default
get_threshold curr ((name, t) ∷ ts) default =
    if text_beq curr (codes name) then t else get_threshold curr ts default

unfoldable pub get_high_value_threshold : PolicyConfig → Text → ℕ
unfolding get_threshold
get_high_value_threshold config currency =
    get_threshold (strip (upper currency)) config.currency_thresholds_minor
      config.high_value_escalation_threshold_minor

unfoldable pub is_high_value : PolicyConfig → ℕ → Text → Bool
is_high_value config amount_minor currency =
    leb (get_high_value_threshold config currency) amount_minor

unfoldable pub can_retry : PolicyConfig → ℕ → Bool
can_retry config prior_retry_count = ltb prior_retry_count config.max_retry_attempts

-- Microseconds in an hour.
abbrev pub hour : ℕ
hour = 3_600_000_000

-- `(now - last_attempt_at).total_seconds() >= retry_cooldown_hours * 3600`, also where the last
-- attempt is later than now
unfoldable pub is_cooldown_elapsed : PolicyConfig → ℕ → ℕ → Bool
is_cooldown_elapsed config last_attempt_at now =
    leb (last_attempt_at + config.retry_cooldown_hours * hour) now
