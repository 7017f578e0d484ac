-- ===== src/Examples/GuardRuns.antt =====
-- Runs of the safety policy, the webhook ledger and the attribution.
use revenue_rescue_ai.Common.{
  List, String, Text, [], any, codes, false, if◌then◌else◌, leb, length, refl, some, string_eq,
  true, ◌*◌, ◌+◌, ◌==◌, ◌↔◌, ◌∷◌, ◌≡◌, ◌≢◌, ◌≤◌,
}
use revenue_rescue_ai.Enums.{ActionType, RecoveryCaseState, TransactionStatus}
use revenue_rescue_ai.Policy.Config.{hour}
use revenue_rescue_ai.Policy.Safety.{PolicyContext, default_safety, evaluate_safety}
use revenue_rescue_ai.Policy.Safety.Allowed.{MayRetry, retry_allowed_iff}
use revenue_rescue_ai.Verification.{
  PayloadReader, RecoveryClaim, accept_all, attribute, checks, failed_check, window_start,
  within_window,
}
use revenue_rescue_ai.Verification.Attribution.{attribute_iff}
use revenue_rescue_ai.Verification.Once.{accept_all-once, count_accepted, is_seen}

abbrev retry_context : PolicyContext
retry_context = record {
  case_state = RecoveryCaseState.retry_eligible;
  transaction_status = TransactionStatus.failed;
  action = ActionType.retry_payment;
  retry_attempt_count = 1;
  prior_idempotency_keys = "key-1" ∷ [];
  idempotency_key = some "key-2";
  has_uncertain_attempt = false;
}

retry_allowed_iff_example :
    ((evaluate_safety default_safety retry_context).retry_allowed ≡ true)
    ↔ MayRetry default_safety retry_context
retry_allowed_iff_example = retry_allowed_iff default_safety retry_context

-- A reader that takes the number of bytes for the hash of a payload.
abbrev length_reader : PayloadReader
length_reader = record {
  sha256 = λ payload. if leb 2 (length payload) then "long" else "short";
  event_type = λ payload. "payment.captured";
}

abbrev deliveries : List (String × Text)
deliveries =
    ("evt-1", codes "a") ∷ ("evt-2", codes "b") ∷ ("evt-1", codes "abc") ∷ ("evt-1", codes "a") ∷ []

accept_all-once_example :
    count_accepted "evt-1" (accept_all length_reader deliveries [])
    ≡ (if is_seen "evt-1" [] then 0 else if any (λ d. d.0 == "evt-1") deliveries then 1 else 0)
accept_all-once_example = accept_all-once length_reader "evt-1" deliveries []

abbrev claim : RecoveryClaim
claim = record {
  intervention_id = "int-1";
  failed_transaction_id = "tx-1";
  successful_transaction_id = "tx-2";
  provider_event_id = "evt-1";
  amount_minor = 49_900;
  successful_amount_minor = 49_900;
  currency = "INR";
  successful_currency = "INR";
  failed_at = 500;
  verified_at = 1_000_000_000;
  provider_signature_valid = true;
  intervention_created_at = some 600;
  window_hours = 72;
}

attributes : (attribute claim).attributable ≡ true
unfolding attribute checks failed_check within_window window_start
attributes = refl

attribute_iff_example : ((attribute claim).attributable ≡ true) ↔ (
    (claim.provider_signature_valid ≡ true)
    × (claim.amount_minor ≡ claim.successful_amount_minor)
    × (claim.currency ≡ claim.successful_currency)
    × (window_start claim ≤ claim.verified_at)
    × (claim.verified_at ≤ window_start claim + claim.window_hours * hour)
    × (claim.failed_transaction_id ≢ claim.successful_transaction_id))
attribute_iff_example = attribute_iff claim
