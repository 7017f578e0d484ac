-- ===== src/Workflow/Revalidation.antt =====
-- `WorkflowRevalidationService` of backend/app/workflows/revalidation_service.py.
pub mod Guards
use revenue_rescue_ai.Common.{
  Bool, List, Option, String, [], any, contains, false, find?, if◌then◌else◌, leb, length, ltb,
  nat_eq, none, not, some, true, ℕ, ◌&&◌, ◌==◌, ◌∷◌,
}
use revenue_rescue_ai.Enums.{
  ActionType, ConsentStatus, ConsentType, ExecutionStatus, RecoveryCaseState, TransactionStatus,
  consent_status_eq, consent_type_eq, execution_status_eq, recovery_case_state_eq,
  transaction_status_eq,
}
use revenue_rescue_ai.Domain.{CustomerConsent, RecoveryCase, Transaction}
use revenue_rescue_ai.Store.{Store, attempts_of, find_case, find_transaction}

pub record RevalidationResult : Type 0 where
  pub allowed : Bool
  pub reason_code : String

abbrev pub refused : String → RevalidationResult
refused reason = record { allowed = false; reason_code = reason }

abbrev pub validation_passed : RevalidationResult
validation_passed = record { allowed = true; reason_code = "VALIDATION_PASSED" }

-- `txn and txn.status == SUCCEEDED`
unfoldable pub has_succeeded : Option Transaction → Bool
has_succeeded none = false
has_succeeded (some txn) = txn.status == TransactionStatus.succeeded

-- The case has an execution whose outcome is unknown.
unfoldable pub has_unknown_execution : ℕ → Store → Bool
has_unknown_execution key s =
    any (λ e. e.case_id == key && e.status == ExecutionStatus.unknown) s.executions

-- The first consent of the customer that is granted and of one of the types.
unfoldable pub granted_consent : ℕ → List ConsentType → Store → Option CustomerConsent
granted_consent customer types s =
    find?
      (λ c.
        c.customer_id == customer
        && contains types c.consent_type
        && c.status == ConsentStatus.granted)
      s.consents

-- `consent.expires_at and consent.expires_at < now`
abbrev pub has_passed : Option ℕ → ℕ → Bool
has_passed none now = false
has_passed (some t) now = ltb t now

abbrev is_set {ℓ} : {A : Type ℓ} → Option A → Bool
is_set none = false
is_set (some a) = true

-- The checks of a recurring-billing consent.
unfoldable pub check_recurring : Option CustomerConsent → ℕ → RevalidationResult
check_recurring none now = refused "MISSING_RECURRING_CONSENT"
check_recurring (some consent) now =
    if has_passed consent.expires_at now
    then refused "CONSENT_EXPIRED"
    else if is_set consent.revoked_at
    then refused "CONSENT_REVOKED"
    else validation_passed

-- The check of a communication consent.
unfoldable pub check_communication : Option CustomerConsent → RevalidationResult
check_communication none = refused "MISSING_COMMUNICATION_CONSENT"
check_communication (some consent) = validation_passed

-- Step 4.
unfoldable pub check_action : ℕ → ℕ → RecoveryCase → ActionType → Store → RevalidationResult
unfolding check_recurring check_communication
check_action max_retry_attempts now case ActionType.retry_payment s =
    if leb max_retry_attempts (length (attempts_of case.id s))
    then refused "RETRY_LIMIT_EXCEEDED"
    else check_recurring (granted_consent case.customer_id (ConsentType.recurring_billing ∷ []) s)
        now
check_action max_retry_attempts now case ActionType.send_reminder s = check_communication (
    granted_consent case.customer_id
      (ConsentType.communication_email ∷ ConsentType.communication_sms ∷ []) s)
check_action max_retry_attempts now case _ s = validation_passed

-- Steps 1 to 4, on a case that is there.
unfoldable pub revalidate_case : ℕ → ℕ → RecoveryCase → ActionType → Store → RevalidationResult
unfolding has_succeeded has_unknown_execution
revalidate_case max_retry_attempts now case action s =
    if not (case.state == RecoveryCaseState.action_pending)
    then refused "CASE_NOT_ACTION_PENDING"
    else if has_succeeded (find_transaction case.trigger_transaction_id s)
    then refused "PAYMENT_ALREADY_SUCCEEDED"
    else if has_unknown_execution case.id s
    then refused "UNRESOLVED_UNKNOWN_OUTCOME"
    else check_action max_retry_attempts now case action s

unfoldable pub revalidate_found :
    ℕ → ℕ → Option RecoveryCase → ActionType → Store → RevalidationResult
revalidate_found max_retry_attempts now none action s = refused "CASE_NOT_FOUND"
revalidate_found max_retry_attempts now (some case) action s =
    revalidate_case max_retry_attempts now case action s

-- `WorkflowRevalidationService.revalidate_for_execution`
unfoldable pub revalidate_for_execution : ℕ → ℕ → ℕ → ActionType → Store → RevalidationResult
unfolding revalidate_found
revalidate_for_execution max_retry_attempts now case_id action s =
    revalidate_found max_retry_attempts now (find_case case_id s) action s

-- The default of `max_retry_attempts`.
abbrev pub default_max_retry_attempts : ℕ
default_max_retry_attempts = 4
