-- ===== src/Cases/Risk.antt =====
-- `CaseRiskClassifier` of backend/app/services/case_risk_classifier.py, less the texts and the
-- factors that explain the tier.
use revenue_rescue_ai.Common.{
  Bool, Option, Text, [], clean, codes, if◌then◌else◌, leb, one_of, strip, upper, ℕ, ◌+◌, ◌||◌, ◌∷◌,
}
use revenue_rescue_ai.Enums.{RiskTier}

-- 1. The financial exposure component
unfoldable pub exposure_score : ℕ → ℕ
exposure_score amount =
    if leb 500_000 amount
    then 50
    else if leb 100_000 amount
    then 30
    else if leb 25_000 amount
    then 15
    else 0

-- 2. The event type component
unfoldable pub event_type_score : Text → ℕ
unfolding codes one_of
event_type_score event =
    if one_of ("SUBSCRIPTION_PAYMENT_FAILED" ∷ []) event
    then 25
    else if one_of ("INVOICE_OVERDUE" ∷ []) event
    then 20
    else if one_of ("CHECKOUT_ABANDONED" ∷ []) event
    then 15
    else 0

unfoldable pub is_fraud_code : Text → Bool
unfolding codes one_of
is_fraud_code code = one_of ("fraud_suspected" ∷ "fraudulent" ∷ []) code

-- 3. The failure category component
unfoldable pub failure_code_score : Text → ℕ
unfolding codes one_of is_fraud_code
failure_code_score code =
    if is_fraud_code code
    then 35
    else if one_of ("card_expired" ∷ "expired_card" ∷ []) code
    then 20
    else if one_of ("do_not_honor" ∷ "card_declined" ∷ []) code
    then 15
    else if one_of ("insufficient_funds" ∷ []) code
    then 10
    else if one_of ("processing_error" ∷ "network_error" ∷ "timeout" ∷ []) code
    then 5
    else 0

-- 4. The customer tier
unfoldable pub tier_score : Option Text → ℕ
unfolding codes one_of clean
tier_score tier = if one_of ("enterprise" ∷ "vip" ∷ "tier_1" ∷ []) (clean tier) then 20 else 0

-- `risk_score` after the four components
unfoldable pub risk_score : ℕ → Option Text → Text → Option Text → ℕ
unfolding exposure_score event_type_score failure_code_score tier_score clean upper strip
risk_score amount failure_code event_type customer_tier =
    exposure_score amount
    + event_type_score (upper (strip event_type))
    + failure_code_score (clean failure_code)
    + tier_score customer_tier

-- The tier of a score
unfoldable pub tier_of : ℕ → Bool → RiskTier
tier_of score fraud =
    if leb 50 score || fraud
    then RiskTier.high
    else if leb 25 score
    then RiskTier.medium
    else RiskTier.low

-- `CaseRiskClassifier.classify_risk`
unfoldable pub classify_risk : ℕ → Option Text → Text → Option Text → RiskTier
unfolding risk_score tier_of is_fraud_code clean
classify_risk amount failure_code event_type customer_tier =
    tier_of (risk_score amount failure_code event_type customer_tier)
      (is_fraud_code (clean failure_code))
