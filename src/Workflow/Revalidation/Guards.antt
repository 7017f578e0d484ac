-- ===== src/Workflow/Revalidation/Guards.antt =====
-- What an allowed revalidation guarantees, and where it differs from the policy engine.
use revenue_rescue_ai.Common.{
  Option, Option-cases, [], arith, false, inl, inr, is_none, length, none, refl, some, true, ℕ, ◌<◌,
  ◌↔◌, ◌∷◌, ◌≡◌,
}
use revenue_rescue_ai.Enums.{ActionType, ConsentStatus, ConsentType, RecoveryCaseState}
use revenue_rescue_ai.Domain.{CustomerConsent, RecoveryCase}
use revenue_rescue_ai.Policy.Models.{from_domain, is_valid}
use revenue_rescue_ai.Store.{Store, attempts_of, find_case, find_transaction}
use revenue_rescue_ai.Workflow.Revalidation.{
  check_action, check_communication, check_recurring, granted_consent, has_passed, has_succeeded,
  has_unknown_execution, revalidate_case, revalidate_for_execution, revalidate_found,
  validation_passed,
}

no_case :
    (max_retry_attempts now : ℕ) (s : Store)
    → (revalidate_found max_retry_attempts now none ActionType.retry_payment s).allowed ≡ true
    → ⊥
unfolding revalidate_found
no_case max_retry_attempts now s h = cc

allowed_recurring :
    (consent : Option CustomerConsent) (now : ℕ)
    → (check_recurring consent now).allowed ≡ true
    → (c : CustomerConsent) × (consent ≡ some c)
      × (has_passed c.expires_at now ≡ false)
      × (c.revoked_at ≡ none)
unfolding check_recurring
allowed_recurring none now h = absurd (cc h)
allowed_recurring (some c) now h = (c, refl, ground arith, ground arith)

-- The facts about a case that is there.
abbrev RetryFacts : ℕ → ℕ → RecoveryCase → Store → CustomerConsent → Type 0
RetryFacts max_retry_attempts now case s c =
    (case.state ≡ RecoveryCaseState.action_pending)
    × (has_succeeded (find_transaction case.trigger_transaction_id s) ≡ false)
    × (has_unknown_execution case.id s ≡ false)
    × (length (attempts_of case.id s) < max_retry_attempts)
    × (granted_consent case.customer_id (ConsentType.recurring_billing ∷ []) s ≡ some c)
    × (has_passed c.expires_at now ≡ false)
    × (c.revoked_at ≡ none)

guards_passed :
    (max_retry_attempts now : ℕ) (case : RecoveryCase) (s : Store)
    → (revalidate_case max_retry_attempts now case ActionType.retry_payment s).allowed ≡ true
    → (case.state ≡ RecoveryCaseState.action_pending)
      × (has_succeeded (find_transaction case.trigger_transaction_id s) ≡ false)
      × (has_unknown_execution case.id s ≡ false)
      × (length (attempts_of case.id s) < max_retry_attempts)
      × ((check_recurring
            (granted_consent case.customer_id (ConsentType.recurring_billing ∷ []) s)
            now).allowed
          ≡ true)
unfolding revalidate_case check_action
guards_passed max_retry_attempts now case s h = ground arith

allowed_case :
    (max_retry_attempts now : ℕ) (case : RecoveryCase) (s : Store)
    → (revalidate_found max_retry_attempts now (some case) ActionType.retry_payment s).allowed
      ≡ true
    → (c : CustomerConsent) × RetryFacts max_retry_attempts now case s c
unfolding revalidate_found
allowed_case max_retry_attempts now case s h =
    let g = guards_passed max_retry_attempts now case s h in
    let (c, found, fresh, kept) = allowed_recurring _ now g.4 in
    (c, (g.0, g.1, g.2, g.3, found, fresh, kept))

-- A payment retry is allowed only while the case waits for its action, the payment has not
-- succeeded, no execution of the case is unknown, fewer attempts than the limit were made, and the
-- customer has a granted recurring-billing consent that is unrevoked and not past its expiry.
pub retry-allowed :
    (max_retry_attempts now case_id : ℕ) (s : Store)
    → (revalidate_for_execution max_retry_attempts now case_id ActionType.retry_payment s).allowed
      ≡ true
    → (case : RecoveryCase) × (consent : CustomerConsent) × (find_case case_id s ≡ some case)
      × (case.state ≡ RecoveryCaseState.action_pending)
      × (has_succeeded (find_transaction case.trigger_transaction_id s) ≡ false)
      × (has_unknown_execution case.id s ≡ false)
      × (length (attempts_of case.id s) < max_retry_attempts)
      × (granted_consent case.customer_id (ConsentType.recurring_billing ∷ []) s ≡ some consent)
      × (has_passed consent.expires_at now ≡ false)
      × (consent.revoked_at ≡ none)
unfolding revalidate_for_execution
retry-allowed max_retry_attempts now case_id s h = elim (Option-cases (find_case case_id s)) [
  | inl e ↦ absurd (no_case max_retry_attempts now s (rw e at h))
  | inr (case, e) ↦
      let (consent, facts) = allowed_case max_retry_attempts now case s (rw e at h) in
      (case, consent, e, facts.0, facts.1, facts.2, facts.3, facts.4, facts.5, facts.6)
]

-- A reminder is allowed exactly if the case waits for its action, the payment has not succeeded, no
-- execution of the case is unknown, and the customer has a consent to e-mail or SMS whose status is
-- granted. So neither the time, nor the expiry or the revocation time of that consent, nor the limit
-- of attempts plays a part.
pub reminder-allowed_iff :
    (max_retry_attempts now : ℕ) (case : RecoveryCase) (s : Store)
    → ((revalidate_case max_retry_attempts now case ActionType.send_reminder s).allowed ≡ true) ↔ (
        (case.state ≡ RecoveryCaseState.action_pending)
        × (has_succeeded (find_transaction case.trigger_transaction_id s) ≡ false)
        × (has_unknown_execution case.id s ≡ false)
        × (is_none (
              granted_consent case.customer_id
                (ConsentType.communication_email ∷ ConsentType.communication_sms ∷ [])
                s)
            ≡ false))
unfolding revalidate_case check_action check_communication
reminder-allowed_iff max_retry_attempts now case s = ground arith

-- At the instant of its expiry a granted, unrevoked consent is invalid for the policy engine and
-- still passes revalidation.
pub expiry_boundary :
    (consent : CustomerConsent) (t : ℕ)
    → consent.status ≡ ConsentStatus.granted
    → consent.revoked_at ≡ none
    → consent.expires_at ≡ some t
    → (is_valid (from_domain consent) t ≡ false)
      × (check_recurring (some consent) t ≡ validation_passed)
unfolding is_valid from_domain check_recurring
expiry_boundary consent t st rev exp = ground arith
