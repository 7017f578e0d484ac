-- ===== src/Policy/Inputs.antt =====
-- The request of `PolicyEngineService.evaluate` of backend/app/policy/service.py, what it loads, and
-- the five evaluators that it runs on that.
use revenue_rescue_ai.Common.{
  Bool, List, Option, String, Text, [], codes, false, filter, if◌then◌else◌, length, map, none, not,
  some, string_eq, true, ℕ, ◌==◌, ◌∷◌,
}
use revenue_rescue_ai.Enums.{ActionType, ActorType, RecoveryAttemptStatus, action_type_eq}
use revenue_rescue_ai.Domain.{
  AgentDecision, Customer, RecoveryAttempt, RecoveryCase, RuleCheckResult, Transaction,
}
use revenue_rescue_ai.Policy.Config.{PolicyConfig, can_retry}
use revenue_rescue_ai.Policy.Consent.{evaluate_consent}
use revenue_rescue_ai.Policy.Eligibility.{evaluate_eligibility}
use revenue_rescue_ai.Policy.Escalation.{default_confidence_threshold, evaluate_escalation}
use revenue_rescue_ai.Policy.Models.{from_domain}
use revenue_rescue_ai.Policy.RetryLimit.{evaluate_retry, has_status}
use revenue_rescue_ai.Policy.Strategy.{evaluate_strategy}
use revenue_rescue_ai.Store.{Store, attempts_of, consents_of, find_customer, find_transaction}

pub record PolicyEvaluationRequest : Type 0 where
  pub case_id : ℕ
  pub recommendation_id : ℕ
  pub proposed_action : Option ActionType
  pub actor_type : ActorType
  pub actor_id : Option String
  pub idempotency_key : Option String
  pub communication_channel : Option Text

-- What a run takes from outside: the clock, and the fresh identifiers of `uuid4` with their text.
pub record Fresh : Type 0 where
  pub now : ℕ
  pub audit_time : ℕ
  pub decision_id : ℕ
  pub decision_id_text : String
  pub correlation_text : String

-- `key or text`
abbrev pub key_or : Option String → String → String
key_or none text = text
key_or (some key) text = if key == "" then text else key

-- `customer.metadata_json.get("merchant_id")`
unfoldable pub merchant_of : Option Customer → Option String
merchant_of none = none
merchant_of (some customer) = customer.merchant_id

-- `bool(customer and customer.email)`
unfoldable pub has_contact_info : Option Customer → Bool
has_contact_info none = false
has_contact_info (some customer) = elim customer.email [ none ↦ false | some e ↦ not (e == "") ]

unfoldable pub failure_code_of : Option Transaction → Option Text
failure_code_of none = none
failure_code_of (some tx) = tx.failure_code

unfoldable pub amount_of : Option Transaction → ℕ
amount_of none = 0
amount_of (some tx) = tx.amount_minor

unfoldable pub currency_of : Option Transaction → Text
currency_of none = codes "INR"
currency_of (some tx) = tx.currency

-- Step 8 filters by `a.status is not ActionType.NONE`, which an attempt's status never is.
unfoldable pub retries_spent : PolicyConfig → List RecoveryAttempt → Bool
retries_spent config attempts =
    not
      (can_retry config (length (filter (λ a. a.action_type == ActionType.retry_payment) attempts)))

-- Step 4.
unfoldable pub eligibility_result : RecoveryCase → AgentDecision → RuleCheckResult
eligibility_result case recommendation =
    evaluate_eligibility (some case) (some recommendation) (some case.customer_id)
      (some case.trigger_transaction_id)

-- Step 5.
unfoldable pub consent_result :
    ℕ → PolicyEvaluationRequest → RecoveryCase → ActionType → Store → RuleCheckResult
consent_result now request case action s =
    evaluate_consent action case.customer_id (map from_domain (consents_of case.customer_id s))
      (merchant_of (find_customer case.customer_id s)) request.communication_channel now

-- The failure code of the transaction that opened the case.
unfoldable pub failure_category : RecoveryCase → Store → Option Text
failure_category case s = failure_code_of (find_transaction case.trigger_transaction_id s)

-- Step 6.
unfoldable pub retry_result :
    PolicyConfig → ℕ → PolicyEvaluationRequest → RecoveryCase → ActionType → Store → RuleCheckResult
retry_result config now request case action s =
    evaluate_retry action (attempts_of case.id s) config now request.idempotency_key
      (failure_category case s)

-- Step 7.
unfoldable pub strategy_result : RecoveryCase → ActionType → Store → RuleCheckResult
strategy_result case action s =
    evaluate_strategy action (failure_category case s) case.state
      (has_contact_info (find_customer case.customer_id s)) true

-- Step 8.
unfoldable pub escalation_result :
    PolicyConfig → RecoveryCase → AgentDecision → Store → RuleCheckResult
escalation_result config case recommendation s =
    evaluate_escalation (amount_of (find_transaction case.trigger_transaction_id s))
      (currency_of (find_transaction case.trigger_transaction_id s)) config
      recommendation.confidence (failure_category case s)
      (record {
        prior_retries_exhausted = retries_spent config (attempts_of case.id s);
        fraud_suspected = false;
        has_conflicting_events = false;
        has_uncertain_outcome = has_status RecoveryAttemptStatus.uncertain (attempts_of case.id s);
      })
      default_confidence_threshold

-- The results of the five evaluators, in the order in which they run.
unfoldable pub run_evaluators :
    PolicyConfig
    → ℕ
    → PolicyEvaluationRequest
    → RecoveryCase
    → AgentDecision
    → ActionType
    → Store
    → List RuleCheckResult
run_evaluators config now request case recommendation action s =
    eligibility_result case recommendation
    ∷ consent_result now request case action s
    ∷ retry_result config now request case action s
    ∷ strategy_result case action s
    ∷ escalation_result config case recommendation s
    ∷ []
