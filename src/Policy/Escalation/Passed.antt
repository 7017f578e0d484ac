-- ===== src/Policy/Escalation/Passed.antt =====
-- What a passed escalation check means.
use revenue_rescue_ai.Common.{Option, Text, arith, false, none, refl, some, true, ℕ, ◌<◌, ◌≡◌, ◌≤◌}
use revenue_rescue_ai.Policy.Config.{PolicyConfig, get_high_value_threshold, is_high_value}
use revenue_rescue_ai.Policy.Escalation.{
  EscalationFlags, evaluate_escalation, is_fraud_category, is_unknown_category,
}
use revenue_rescue_ai.Policy.Models.{is_passed}

-- A passed check means that no flag is raised, that the amount is below the threshold of its
-- currency, that the failure has a known category which is no fraud category, and that the
-- confidence is known and reaches the threshold.
pub evaluate_escalation-passed :
    (amount : ℕ) (currency : Text) (config : PolicyConfig) (confidence : Option ℕ)
    → (category : Option Text) (flags : EscalationFlags) (threshold : ℕ)
    → is_passed (evaluate_escalation amount currency config confidence category flags threshold)
      ≡ true
    → (k : ℕ) × (confidence ≡ some k)
      × (threshold ≤ k)
      × (amount < get_high_value_threshold config currency)
      × (is_fraud_category category ≡ false)
      × (is_unknown_category category ≡ false)
      × (flags.prior_retries_exhausted ≡ false)
      × (flags.has_uncertain_outcome ≡ false)
unfolding evaluate_escalation is_high_value
evaluate_escalation-passed amount currency config none category flags threshold h =
    absurd (ground arith)
evaluate_escalation-passed amount currency config (some k) category flags threshold h =
    (k, refl, ground arith, ground arith, ground arith, ground arith, ground arith, ground arith)
