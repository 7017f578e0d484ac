-- ===== src/Workflow/Vertical/Verdict.antt =====
-- What the verdict of the safety policy asks of the vertical workflow.
use revenue_rescue_ai.Common.{
  Bool, false, if◌then◌else◌, inl, inr, not, refl, true, ◌&&◌, ◌≡◌, ◌≢◌, ◌⊎◌,
}
use revenue_rescue_ai.Enums.{RecoveryCaseState}
use revenue_rescue_ai.Policy.Safety.{
  PolicyContext, PolicyOutcome, PolicyReason, SafetyConfig, SafetyDecision, escalate_with,
  evaluate_safety, reject_with, stop_with,
}
use revenue_rescue_ai.Policy.Safety.Allowed.{evaluate_safety-judge, judge}
use revenue_rescue_ai.Workflow.Vertical.{is_refused}

-- The state that the outcome of the policy asks for
abbrev pub end_state : PolicyOutcome → RecoveryCaseState
end_state PolicyOutcome.allow = RecoveryCaseState.verification_pending
end_state PolicyOutcome.reject = RecoveryCaseState.stopped
end_state PolicyOutcome.stop = RecoveryCaseState.stopped
end_state PolicyOutcome.escalate = RecoveryCaseState.escalated

-- The flags of a decision agree with its outcome.
unfoldable pub IsCoherent : SafetyDecision → Type 0
unfolding is_refused
IsCoherent p =
    ((p.outcome ≡ PolicyOutcome.allow) × (is_refused p ≡ false))
    ⊎ ((p.outcome ≢ PolicyOutcome.allow)
        × (is_refused p ≡ true)
        × ((if p.should_escalate then RecoveryCaseState.escalated else RecoveryCaseState.stopped)
            ≡ end_state p.outcome))

reject-IsCoherent :
    (config : SafetyConfig) (cause : PolicyReason) → IsCoherent (reject_with config cause)
unfolding IsCoherent is_refused
reject-IsCoherent config cause = inr (λ e. cc, refl, refl)

stop-IsCoherent :
    (config : SafetyConfig) (cause : PolicyReason) → IsCoherent (stop_with config cause)
unfolding IsCoherent is_refused
stop-IsCoherent config cause = inr (λ e. cc, refl, refl)

escalate-IsCoherent :
    (config : SafetyConfig) (cause : PolicyReason) → IsCoherent (escalate_with config cause)
unfolding IsCoherent is_refused
escalate-IsCoherent config cause = inr (λ e. cc, refl, refl)

allow-IsCoherent :
    (p : SafetyDecision)
    → p.outcome ≡ PolicyOutcome.allow
    → p.should_escalate ≡ false
    → p.should_stop ≡ false
    → IsCoherent p
unfolding IsCoherent is_refused
allow-IsCoherent p o e s = inl (o, rw (o, e, s) refl)

if-IsCoherent :
    (b : Bool) (p q : SafetyDecision)
    → IsCoherent p
    → IsCoherent q
    → IsCoherent (if b then p else q)
if-IsCoherent true p q hp hq = hp
if-IsCoherent false p q hp hq = hq

judge-IsCoherent :
    (config : SafetyConfig) (ended paid permitted retry ready spent unclear keyed used : Bool)
    → IsCoherent (judge config ended paid permitted retry ready spent unclear keyed used)
unfolding judge
judge-IsCoherent config ended paid permitted retry ready spent unclear keyed used =
    if-IsCoherent ended _ _ (stop-IsCoherent config PolicyReason.case_terminal) (
      if-IsCoherent paid _ _ (stop-IsCoherent config PolicyReason.transaction_already_succeeded) (
        if-IsCoherent (not permitted) _ _
          (reject-IsCoherent config PolicyReason.action_not_permitted)
          (if-IsCoherent (retry && not ready) _ _
            (reject-IsCoherent config PolicyReason.case_state_not_actionable)
            (if-IsCoherent (retry && spent) _ _
              (escalate-IsCoherent config PolicyReason.retry_limit_reached)
              (if-IsCoherent (retry && unclear) _ _
                (escalate-IsCoherent config PolicyReason.uncertain_outcome_requires_verification)
                (if-IsCoherent (retry && not keyed) _ _
                  (reject-IsCoherent config PolicyReason.missing_idempotency_key)
                  (if-IsCoherent used _ _ (reject-IsCoherent config PolicyReason.duplicate_attempt)
                    (allow-IsCoherent _ refl refl refl))))))))

-- Whatever it is asked, the policy gives a coherent decision.
pub evaluate_safety-IsCoherent :
    (config : SafetyConfig) (context : PolicyContext) → IsCoherent (evaluate_safety config context)
evaluate_safety-IsCoherent config context =
    rw (evaluate_safety-judge config context) (judge-IsCoherent config _ _ _ _ _ _ _ _ _)
