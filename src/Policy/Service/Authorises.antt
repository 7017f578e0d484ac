-- ===== src/Policy/Service/Authorises.antt =====
-- What an approval of the policy engine guarantees.
use revenue_rescue_ai.Common.{
  All, arith, contains, false, length, map, none, or_else, refl, some, true, ℕ, ◌+◌, ◌<◌, ◌≡◌, ◌≢◌,
  ◌≤◌,
}
use revenue_rescue_ai.Enums.{
  ActionType, ConsentType, DecisionValidationStatus, PolicyDecisionStatus, RecoveryAttemptStatus,
  recovery_case_state_eq,
}
use revenue_rescue_ai.Domain.{AgentDecision, RecoveryCase}
use revenue_rescue_ai.Policy.Aggregate.{aggregate_decision}
use revenue_rescue_ai.Policy.Aggregate.Precedence.{approved-all_passed}
use revenue_rescue_ai.Policy.Config.{PolicyConfig, get_high_value_threshold}
use revenue_rescue_ai.Policy.Consent.{determine_required_consent}
use revenue_rescue_ai.Policy.Consent.Latest.{PassedBy, evaluate_consent-passed, scoped}
use revenue_rescue_ai.Policy.Eligibility.{actionable_states}
use revenue_rescue_ai.Policy.Eligibility.Passed.{evaluate_eligibility-passed}
use revenue_rescue_ai.Policy.Escalation.{default_confidence_threshold, is_fraud_category}
use revenue_rescue_ai.Policy.Escalation.Passed.{evaluate_escalation-passed}
use revenue_rescue_ai.Policy.Inputs.{
  Fresh, PolicyEvaluationRequest, amount_of, consent_result, currency_of, eligibility_result,
  escalation_result, failure_category, merchant_of, retry_result, run_evaluators, strategy_result,
}
use revenue_rescue_ai.Policy.Models.{CustomerConsentRecord, from_domain, is_passed}
use revenue_rescue_ai.Policy.RetryLimit.{consumed_attempts, has_status, is_non_retryable}
use revenue_rescue_ai.Policy.RetryLimit.Passed.{IsCool, evaluate_retry-passed, in_cooldown-IsCool}
use revenue_rescue_ai.Policy.Service.{
  evaluate, evaluate_fresh, evaluate_loaded_case, evaluate_with, find_cached,
}
use revenue_rescue_ai.Store.{
  Store, attempts_of, consents_of, find_case, find_customer, find_decision, find_transaction,
}

-- A decision on a case and a recommendation that were loaded.
abbrev pub decide :
    PolicyConfig
    → ℕ
    → PolicyEvaluationRequest
    → RecoveryCase
    → AgentDecision
    → Store
    → PolicyDecisionStatus
decide config now request case recommendation s =
    (aggregate_decision (
      run_evaluators config now request case recommendation
        (or_else request.proposed_action recommendation.action_type) s)).0

decide-approved :
    (config : PolicyConfig) (now : ℕ) (request : PolicyEvaluationRequest)
    → (case : RecoveryCase) (recommendation : AgentDecision) (s : Store)
    → decide config now request case recommendation s ≡ PolicyDecisionStatus.approved
    → let action = or_else request.proposed_action recommendation.action_type in
      (is_passed (eligibility_result case recommendation) ≡ true)
      × (is_passed (consent_result now request case action s) ≡ true)
      × (is_passed (retry_result config now request case action s) ≡ true)
      × (is_passed (strategy_result case action s) ≡ true)
      × (is_passed (escalation_result config case recommendation s) ≡ true)
unfolding run_evaluators
decide-approved config now request case recommendation s h =
    let p = approved-all_passed _ h in
    (ground arith, ground arith, ground arith, ground arith, ground arith)

-- With no earlier decision and both rows there, `evaluate` is its main part.
pub evaluate-loaded :
    (config : PolicyConfig) (fresh : Fresh) (request : PolicyEvaluationRequest) (s : Store)
    → (case : RecoveryCase) (recommendation : AgentDecision) → find_cached request s ≡ none
    → find_case request.case_id s ≡ some case
    → find_decision request.recommendation_id s ≡ some recommendation
    → evaluate config fresh request s
      ≡ evaluate_loaded_case config fresh request case recommendation s
unfolding evaluate evaluate_with evaluate_fresh
evaluate-loaded config fresh request s case recommendation none_cached found_case found_rec =
    rw (none_cached, found_case, found_rec)

-- The facts that an approval of any action rests on.
pub record Authorised (config : PolicyConfig) (case : RecoveryCase) (recommendation : AgentDecision)
    (s : Store) : Type 0 where
  pub actionable : contains actionable_states case.state ≡ true
  pub own_recommendation : recommendation.case_id ≡ case.id
  pub not_rejected : recommendation.validation_status ≢ DecisionValidationStatus.rejected_by_policy
  pub up_to_date : case.version ≤ recommendation.decision_version + 2
  pub below_threshold :
      amount_of (find_transaction case.trigger_transaction_id s)
      < get_high_value_threshold config
          (currency_of (find_transaction case.trigger_transaction_id s))
  pub confident :
      (k : ℕ) × (recommendation.confidence ≡ some k) × (default_confidence_threshold ≤ k)
  pub no_fraud : is_fraud_category (failure_category case s) ≡ false
  pub nothing_uncertain : has_status RecoveryAttemptStatus.uncertain (attempts_of case.id s) ≡ false

decide-Authorised :
    (config : PolicyConfig) (now : ℕ) (request : PolicyEvaluationRequest)
    → (case : RecoveryCase) (recommendation : AgentDecision) (s : Store)
    → decide config now request case recommendation s ≡ PolicyDecisionStatus.approved
    → Authorised config case recommendation s
unfolding eligibility_result escalation_result
decide-Authorised config now request case recommendation s h =
    let passed = decide-approved config now request case recommendation s h in
    let e = evaluate_eligibility-passed case recommendation _ _ passed.0 in
    let g = evaluate_escalation-passed _ _ config recommendation.confidence _ _ _ passed.4 in
    record {
      actionable = e.6;
      own_recommendation = e.0;
      not_rejected = e.3;
      up_to_date = e.5;
      below_threshold = g.3;
      confident = (g.0, g.1, g.2);
      no_fraud = g.4;
      nothing_uncertain = g.7;
    }

-- An approval on a fresh request, of whatever action, is given only to an actionable case, on its
-- own recommendation that is current and confident, below the high-value threshold, without a
-- fraud category and with no attempt whose outcome is uncertain.
pub evaluate-Authorised :
    (config : PolicyConfig) (fresh : Fresh) (request : PolicyEvaluationRequest) (s : Store)
    → (case : RecoveryCase) (recommendation : AgentDecision) → find_cached request s ≡ none
    → find_case request.case_id s ≡ some case
    → find_decision request.recommendation_id s ≡ some recommendation
    → (evaluate config fresh request s).0.decision_status ≡ PolicyDecisionStatus.approved
    → Authorised config case recommendation s
unfolding evaluate_loaded_case
evaluate-Authorised config fresh request s case recommendation none_cached found_case found_rec h =
    decide-Authorised config fresh.now request case recommendation s (
      rw
        (evaluate-loaded config fresh request s case recommendation none_cached found_case
          found_rec)
        at h)

-- The facts that an approval of a payment retry rests on besides.
pub record RetryAuthorised (config : PolicyConfig) (now : ℕ) (case : RecoveryCase) (s : Store)
    : Type 0 where
  pub quota_left : length (consumed_attempts (attempts_of case.id s)) < config.max_retry_attempts
  pub cool : All (IsCool config now) (consumed_attempts (attempts_of case.id s))
  pub none_succeeded : has_status RecoveryAttemptStatus.succeeded (attempts_of case.id s) ≡ false
  pub none_running : has_status RecoveryAttemptStatus.started (attempts_of case.id s) ≡ false
  pub retryable : is_non_retryable (failure_category case s) ≡ false
  pub consented :
      (c : CustomerConsentRecord) × PassedBy c
        (scoped case.customer_id ConsentType.recurring_billing
          (merchant_of (find_customer case.customer_id s))
          (map from_domain (consents_of case.customer_id s)))
        now

retry_facts :
    (config : PolicyConfig) (now : ℕ) (request : PolicyEvaluationRequest)
    → (case : RecoveryCase) (s : Store)
    → is_passed (consent_result now request case ActionType.retry_payment s) ≡ true
    → is_passed (retry_result config now request case ActionType.retry_payment s) ≡ true
    → RetryAuthorised config now case s
unfolding consent_result retry_result determine_required_consent
retry_facts config now request case s consent retry =
    let r = evaluate_retry-passed _ config now _ _ retry in
    record {
      quota_left = r.0;
      cool = in_cooldown-IsCool config _ now r.6;
      none_succeeded = r.3;
      none_running = r.4;
      retryable = r.1;
      consented =
          evaluate_consent-passed ActionType.retry_payment _ _ _ request.communication_channel now _
            refl consent;
    }

-- A fresh approval of a payment retry is given only with quota left, after the cooldown of every
-- retry that used quota and has a time, with no attempt that succeeded or is running, for a failure that can be
-- retried, and under a recurring-billing consent that is the latest of its scope and valid then.
pub evaluate-RetryAuthorised :
    (config : PolicyConfig) (fresh : Fresh) (request : PolicyEvaluationRequest) (s : Store)
    → (case : RecoveryCase) (recommendation : AgentDecision) → find_cached request s ≡ none
    → find_case request.case_id s ≡ some case
    → find_decision request.recommendation_id s ≡ some recommendation
    → or_else request.proposed_action recommendation.action_type ≡ ActionType.retry_payment
    → (evaluate config fresh request s).0.decision_status ≡ PolicyDecisionStatus.approved
    → RetryAuthorised config fresh.now case s
unfolding evaluate_loaded_case
evaluate-RetryAuthorised config fresh request s case recommendation n c r act h =
    let h' = rw (evaluate-loaded config fresh request s case recommendation n c r) at h in
    let passed = decide-approved config fresh.now request case recommendation s h' in
    retry_facts config fresh.now request case s (rw act at passed.1) (rw act at passed.2)
