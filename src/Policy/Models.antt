-- ===== src/Policy/Models.antt =====
-- The results and the consent record of backend/app/policy/models.py.
use revenue_rescue_ai.Common.{
  Bool, Option, String, false, if◌then◌else◌, leb, none, not, some, true, ℕ, ◌==◌,
}
use revenue_rescue_ai.Enums.{
  ConsentStatus, ConsentType, DecisionValidationStatus, PolicyDecisionStatus, RuleCheckStatus,
  consent_status_eq, rule_check_status_eq,
}
use revenue_rescue_ai.Domain.{CustomerConsent, RuleCheckResult}

unfoldable pub map_policy_to_validation_status : PolicyDecisionStatus → DecisionValidationStatus
map_policy_to_validation_status PolicyDecisionStatus.approved = DecisionValidationStatus.valid
map_policy_to_validation_status PolicyDecisionStatus.rejected =
    DecisionValidationStatus.rejected_by_policy
map_policy_to_validation_status PolicyDecisionStatus.requires_review =
    DecisionValidationStatus.not_validated
map_policy_to_validation_status PolicyDecisionStatus.insufficient_information =
    DecisionValidationStatus.invalid

abbrev pub is_passed : RuleCheckResult → Bool
is_passed r = r.status == RuleCheckStatus.passed

abbrev pub is_failed : RuleCheckResult → Bool
is_failed r = r.status == RuleCheckStatus.failed

abbrev pub needs_review : RuleCheckResult → Bool
needs_review r = r.status == RuleCheckStatus.needs_review

abbrev pub is_missing_info : RuleCheckResult → Bool
is_missing_info r = r.status == RuleCheckStatus.missing_info

abbrev pub result : String → RuleCheckStatus → String → RuleCheckResult
result name status reason = record { rule_name = name; status = status; reason_code = reason }

pub record CustomerConsentRecord : Type 0 where
  pub customer_id : ℕ
  pub consent_type : ConsentType
  pub status : ConsentStatus
  pub merchant_id : Option String
  pub granted_at : Option ℕ
  pub revoked_at : Option ℕ
  pub expires_at : Option ℕ

unfoldable pub from_domain : CustomerConsent → CustomerConsentRecord
from_domain entity = record {
  customer_id = entity.customer_id;
  consent_type = entity.consent_type;
  status = entity.status;
  merchant_id = entity.merchant_id;
  granted_at = some entity.granted_at;
  revoked_at = entity.revoked_at;
  expires_at = entity.expires_at;
}

-- `t is not None and now >= t`
unfoldable pub has_come : Option ℕ → ℕ → Bool
has_come none now = false
has_come (some t) now = leb t now

-- `CustomerConsentRecord.is_valid`
unfoldable pub is_valid : CustomerConsentRecord → ℕ → Bool
unfolding has_come
is_valid c now =
    if not (c.status == ConsentStatus.granted)
    then false
    else if has_come c.revoked_at now
    then false
    else if has_come c.expires_at now
    then false
    else true

-- `f"CONSENT_STATUS_{self.status.value.upper()}"`
unfoldable pub status_reason : ConsentStatus → String
status_reason ConsentStatus.granted = "CONSENT_STATUS_GRANTED"
status_reason ConsentStatus.revoked = "CONSENT_STATUS_REVOKED"
status_reason ConsentStatus.expired = "CONSENT_STATUS_EXPIRED"

-- `CustomerConsentRecord.get_validity_reason`
unfoldable pub get_validity_reason : CustomerConsentRecord → ℕ → String
unfolding has_come status_reason
get_validity_reason c now =
    if has_come c.revoked_at now
    then "CONSENT_REVOKED"
    else if has_come c.expires_at now
    then "CONSENT_EXPIRED"
    else if not (c.status == ConsentStatus.granted)
    then status_reason c.status
    else "CONSENT_VALID"
