-- ===== src/Enums/Decisions.antt =====
-- The decision, consent and policy enumerations of backend/app/core/enums.py, and `==` on those that are compared.
use revenue_rescue_ai.Common.{◌≡◌, ◌↔◌, Bool, true, false, arith, Eq}

pub data DecisionValidationStatus : Type 0 where
  not_validated valid invalid rejected_by_policy : DecisionValidationStatus

abbrev decision_validation_status_beq : DecisionValidationStatus → DecisionValidationStatus → Bool
decision_validation_status_beq DecisionValidationStatus.not_validated
      DecisionValidationStatus.not_validated =
    true
decision_validation_status_beq DecisionValidationStatus.valid DecisionValidationStatus.valid = true
decision_validation_status_beq DecisionValidationStatus.invalid DecisionValidationStatus.invalid =
    true
decision_validation_status_beq DecisionValidationStatus.rejected_by_policy
      DecisionValidationStatus.rejected_by_policy =
    true
decision_validation_status_beq _ _ = false

pub decision_validation_status_beq_iff :
    (a b : DecisionValidationStatus) → (decision_validation_status_beq a b ≡ true) ↔ (a ≡ b)
decision_validation_status_beq_iff a b = (λ h. ground arith, λ h. ground arith)

instance abbrev pub decision_validation_status_eq : Eq DecisionValidationStatus
decision_validation_status_eq = record {
  same = decision_validation_status_beq;
  same_iff = decision_validation_status_beq_iff;
}

pub data ConsentType : Type 0 where
  recurring_billing communication_email communication_sms : ConsentType

abbrev consent_type_beq : ConsentType → ConsentType → Bool
consent_type_beq ConsentType.recurring_billing ConsentType.recurring_billing = true
consent_type_beq ConsentType.communication_email ConsentType.communication_email = true
consent_type_beq ConsentType.communication_sms ConsentType.communication_sms = true
consent_type_beq _ _ = false

pub consent_type_beq_iff : (a b : ConsentType) → (consent_type_beq a b ≡ true) ↔ (a ≡ b)
consent_type_beq_iff a b = (λ h. ground arith, λ h. ground arith)

instance abbrev pub consent_type_eq : Eq ConsentType
consent_type_eq = record { same = consent_type_beq; same_iff = consent_type_beq_iff }

pub data ConsentStatus : Type 0 where
  granted revoked expired : ConsentStatus

abbrev consent_status_beq : ConsentStatus → ConsentStatus → Bool
consent_status_beq ConsentStatus.granted ConsentStatus.granted = true
consent_status_beq ConsentStatus.revoked ConsentStatus.revoked = true
consent_status_beq ConsentStatus.expired ConsentStatus.expired = true
consent_status_beq _ _ = false

pub consent_status_beq_iff : (a b : ConsentStatus) → (consent_status_beq a b ≡ true) ↔ (a ≡ b)
consent_status_beq_iff a b = (λ h. ground arith, λ h. ground arith)

instance abbrev pub consent_status_eq : Eq ConsentStatus
consent_status_eq = record { same = consent_status_beq; same_iff = consent_status_beq_iff }

pub data PolicyDecisionStatus : Type 0 where
  approved rejected requires_review insufficient_information : PolicyDecisionStatus

abbrev policy_decision_status_beq : PolicyDecisionStatus → PolicyDecisionStatus → Bool
policy_decision_status_beq PolicyDecisionStatus.approved PolicyDecisionStatus.approved = true
policy_decision_status_beq PolicyDecisionStatus.rejected PolicyDecisionStatus.rejected = true
policy_decision_status_beq PolicyDecisionStatus.requires_review
      PolicyDecisionStatus.requires_review =
    true
policy_decision_status_beq PolicyDecisionStatus.insufficient_information
      PolicyDecisionStatus.insufficient_information =
    true
policy_decision_status_beq _ _ = false

pub policy_decision_status_beq_iff :
    (a b : PolicyDecisionStatus) → (policy_decision_status_beq a b ≡ true) ↔ (a ≡ b)
policy_decision_status_beq_iff a b = (λ h. ground arith, λ h. ground arith)

instance abbrev pub policy_decision_status_eq : Eq PolicyDecisionStatus
policy_decision_status_eq = record {
  same = policy_decision_status_beq;
  same_iff = policy_decision_status_beq_iff;
}

pub data RuleCheckStatus : Type 0 where
  passed failed needs_review missing_info : RuleCheckStatus

abbrev rule_check_status_beq : RuleCheckStatus → RuleCheckStatus → Bool
rule_check_status_beq RuleCheckStatus.passed RuleCheckStatus.passed = true
rule_check_status_beq RuleCheckStatus.failed RuleCheckStatus.failed = true
rule_check_status_beq RuleCheckStatus.needs_review RuleCheckStatus.needs_review = true
rule_check_status_beq RuleCheckStatus.missing_info RuleCheckStatus.missing_info = true
rule_check_status_beq _ _ = false

pub rule_check_status_beq_iff :
    (a b : RuleCheckStatus) → (rule_check_status_beq a b ≡ true) ↔ (a ≡ b)
rule_check_status_beq_iff a b = (λ h. ground arith, λ h. ground arith)

instance abbrev pub rule_check_status_eq : Eq RuleCheckStatus
rule_check_status_eq = record { same = rule_check_status_beq; same_iff = rule_check_status_beq_iff }
