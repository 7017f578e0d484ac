-- ===== src/Verification/Attribution.antt =====
-- What an attributed recovery rests on.
use revenue_rescue_ai.Common.{arith, string_eq, true, ◌*◌, ◌+◌, ◌↔◌, ◌≡◌, ◌≢◌, ◌≤◌}
use revenue_rescue_ai.Policy.Config.{hour}
use revenue_rescue_ai.Verification.{
  RecoveryClaim, attribute, checks, failed_check, window_start, within_window,
}

-- A recovery is attributed exactly when the provider's signature is valid, the amounts and the
-- currencies agree, the verification lies within the window, and the two transactions differ.
pub attribute_iff :
    (claim : RecoveryClaim)
    → ((attribute claim).attributable ≡ true) ↔ (
        (claim.provider_signature_valid ≡ true)
        × (claim.amount_minor ≡ claim.successful_amount_minor)
        × (claim.currency ≡ claim.successful_currency)
        × (window_start claim ≤ claim.verified_at)
        × (claim.verified_at ≤ window_start claim + claim.window_hours * hour)
        × (claim.failed_transaction_id ≢ claim.successful_transaction_id))
unfolding attribute failed_check checks within_window
attribute_iff claim =
    let c = string_eq.same_iff claim.currency claim.successful_currency in
    let d = string_eq.same_iff claim.failed_transaction_id claim.successful_transaction_id in
    ground (arith, c, d)
