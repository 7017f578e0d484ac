-- ===== src/Policy/Consent.antt =====
-- `ConsentValidator` of backend/app/policy/evaluators/consent_validator.py.
pub mod Latest
use revenue_rescue_ai.Common.{
  Bool, List, Option, String, Text, [], clean, false, filter, if◌then◌else◌, is_empty, leb, nat_eq,
  none, not, one_of, some, string_eq, true, ℕ, ◌&&◌, ◌==◌, ◌||◌, ◌∷◌,
}
use revenue_rescue_ai.Enums.{
  ActionType, ConsentStatus, ConsentType, RuleCheckStatus, consent_status_eq, consent_type_eq,
}
use revenue_rescue_ai.Domain.{RuleCheckResult}
use revenue_rescue_ai.Policy.Models.{CustomerConsentRecord, has_come, result, status_reason}

abbrev pub consent_rule : String
consent_rule = "customer_consent_validation"

-- `_determine_required_consent`: an absent or empty channel is `email`
unfoldable pub determine_required_consent : ActionType → Option Text → Option ConsentType
determine_required_consent ActionType.retry_payment channel = some ConsentType.recurring_billing
determine_required_consent ActionType.send_reminder channel =
    if one_of ("sms" ∷ []) (clean channel)
    then some ConsentType.communication_sms
    else some ConsentType.communication_email
determine_required_consent _ channel = none

-- `c.granted_at or datetime.min`
abbrev pub granted_key : CustomerConsentRecord → ℕ
granted_key c = elim c.granted_at [ none ↦ 0 | some t ↦ t ]

-- `sorted(..., key=granted_at, reverse=True)`: stable, so a record stays before those of the same
-- time that stood behind it.
unfoldable pub insert_granted :
    CustomerConsentRecord → List CustomerConsentRecord → List CustomerConsentRecord
insert_granted c [] = c ∷ []
insert_granted c (d ∷ ds) =
    if leb (granted_key d) (granted_key c) then c ∷ d ∷ ds else d ∷ insert_granted c ds

unfoldable pub sort_granted : List CustomerConsentRecord → List CustomerConsentRecord
unfolding insert_granted
sort_granted [] = []
sort_granted (c ∷ cs) = insert_granted c (sort_granted cs)

-- `candidate.revoked_at or candidate.granted_at`
abbrev pub revocation_time : CustomerConsentRecord → ℕ → ℕ
revocation_time c granted = elim c.revoked_at [ none ↦ granted | some t ↦ t ]

abbrev is_some {ℓ} : {A : Type ℓ} → Option A → Bool
is_some none = false
is_some (some a) = true

-- The body of the loop over the candidates: each path through it returns.
unfoldable pub check_candidate : CustomerConsentRecord → Option ℕ → ℕ → RuleCheckResult
unfolding has_come
check_candidate c none now = result consent_rule RuleCheckStatus.failed "CONSENT_INVALID"
check_candidate c (some granted) now =
    if (c.status == ConsentStatus.revoked || is_some c.revoked_at)
      && leb (revocation_time c granted) now
    then result consent_rule RuleCheckStatus.failed "CONSENT_REVOKED"
    else if (c.status == ConsentStatus.expired || is_some c.expires_at) && has_come c.expires_at now
    then result consent_rule RuleCheckStatus.failed "CONSENT_EXPIRED"
    else if not (c.status == ConsentStatus.granted)
    then result consent_rule RuleCheckStatus.failed (status_reason c.status)
    else result consent_rule RuleCheckStatus.passed "CONSENT_VALID"

unfoldable pub check_candidates : List CustomerConsentRecord → ℕ → RuleCheckResult
unfolding check_candidate
check_candidates [] now = result consent_rule RuleCheckStatus.failed "CONSENT_MISSING"
check_candidates (c ∷ cs) now = check_candidate c c.granted_at now

-- `c.merchant_id is None or c.merchant_id == merchant_id`
abbrev pub merchant_fits : String → CustomerConsentRecord → Bool
merchant_fits merchant c = elim c.merchant_id [ none ↦ true | some m ↦ m == merchant ]

-- Steps 4 and 5, on the records of the required type.
unfoldable pub evaluate_typed : Option String → List CustomerConsentRecord → ℕ → RuleCheckResult
unfolding check_candidates sort_granted
evaluate_typed none typed now = check_candidates (sort_granted typed) now
evaluate_typed (some merchant) typed now =
    let scoped = filter (merchant_fits merchant) typed in
    if is_empty scoped
    then result consent_rule RuleCheckStatus.failed "CONSENT_MERCHANT_MISMATCH"
    else check_candidates (sort_granted scoped) now

unfoldable pub evaluate_required :
    Option ConsentType → ℕ → List CustomerConsentRecord → Option String → ℕ → RuleCheckResult
unfolding evaluate_typed
evaluate_required none customer consents merchant now =
    result consent_rule RuleCheckStatus.passed "NO_CONSENT_REQUIRED"
evaluate_required (some required) customer consents merchant now =
    let matching = filter (λ c. c.customer_id == customer) consents in
    let typed = filter (λ c. c.consent_type == required) matching in
    if is_empty matching && not (is_empty consents)
    then result consent_rule RuleCheckStatus.failed "CONSENT_CUSTOMER_MISMATCH"
    else if is_empty typed
    then result consent_rule RuleCheckStatus.failed "CONSENT_MISSING"
    else evaluate_typed merchant typed now

-- `ConsentValidator.evaluate`
unfoldable pub evaluate_consent :
    ActionType → ℕ → List CustomerConsentRecord → Option String → Option Text → ℕ → RuleCheckResult
unfolding evaluate_required determine_required_consent
evaluate_consent action customer consents merchant channel now =
    evaluate_required (determine_required_consent action channel) customer consents merchant now
