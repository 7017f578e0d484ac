-- ===== src/Policy/Service.antt =====
-- `PolicyEngineService.evaluate` of backend/app/policy/service.py: what it decides and writes.
pub mod Authorises
pub mod Idempotent
pub mod Effects
use revenue_rescue_ai.Common.{
  Bool, List, Option, String, [], codes, false, if◌then◌else◌, none, not, or_else, some, string_eq,
  true, ℕ, ◌++◌, ◌+◌, ◌==◌, ◌∷◌,
}
use revenue_rescue_ai.Enums.{
  ActionType, DecisionValidationStatus, PolicyDecisionStatus, RecoveryCaseState, RuleCheckStatus,
  recovery_case_state_eq,
}
use revenue_rescue_ai.Domain.{
  AgentDecision, CaseStateTransition, PolicyDecision, RecoveryCase, RuleCheckResult,
}
use revenue_rescue_ai.Policy.Aggregate.{aggregate_decision, determine_fsm_transition}
use revenue_rescue_ai.Policy.Config.{PolicyConfig}
use revenue_rescue_ai.Policy.Inputs.{Fresh, PolicyEvaluationRequest, key_or, run_evaluators}
use revenue_rescue_ai.Policy.Models.{map_policy_to_validation_status, result}
use revenue_rescue_ai.Store.{
  Store, find_case, find_decision, find_policy_decision, next_transition_sequence, put_case,
  put_decision, record_audit,
}

-- `PolicyEvaluationResult`, with the entries of its metadata but for a text that is only shown. An
-- absent entry is `none` or `false`.
pub record PolicyEvaluationResult : Type 0 where
  pub decision_status : PolicyDecisionStatus
  pub case_id : ℕ
  pub proposed_action : ActionType
  pub policy_version : String
  pub rule_results : List RuleCheckResult
  pub reasons : List String
  pub recommendation_id : ℕ
  pub evaluated_at : ℕ
  pub policy_decision_id : Option ℕ
  pub case_state : Option RecoveryCaseState
  pub validation_status : Option DecisionValidationStatus
  pub cached_idempotent_result : Bool

-- `_to_evaluation_result`
unfoldable pub to_evaluation_result : PolicyDecision → PolicyEvaluationResult
to_evaluation_result d = record {
  decision_status = d.decision_status;
  case_id = d.case_id;
  proposed_action = d.proposed_action;
  policy_version = d.policy_version;
  rule_results = d.rule_results;
  reasons = d.reasons;
  recommendation_id = d.recommendation_id;
  evaluated_at = d.evaluated_at;
  policy_decision_id = some d.id;
  case_state = none;
  validation_status = none;
  cached_idempotent_result = true;
}

-- `_build_synthetic_result`, for the one rule result that step 3 gives it
unfoldable pub build_synthetic_result :
    PolicyConfig → PolicyEvaluationRequest → String → ℕ → PolicyEvaluationResult
build_synthetic_result config request reason now = record {
  decision_status = PolicyDecisionStatus.insufficient_information;
  case_id = request.case_id;
  proposed_action = or_else request.proposed_action ActionType.none;
  policy_version = config.policy_version;
  rule_results = result "data_availability_check" RuleCheckStatus.missing_info reason ∷ [];
  reasons = reason ∷ [];
  recommendation_id = request.recommendation_id;
  evaluated_at = now;
  policy_decision_id = none;
  case_state = none;
  validation_status = none;
  cached_idempotent_result = false;
}

-- Step 12 on the row of the case.
unfoldable pub move_case : Option RecoveryCaseState → ℕ → RecoveryCase → RecoveryCase
move_case none now case = case
move_case (some to) now case =
    if not (to == case.state)
    then record case { state = to; last_state_changed_at = now; version = case.version + 1 }
    else case

abbrev first_reason : List String → String
first_reason [] = "POLICY_EVALUATION"
first_reason (r ∷ rs) = r

-- Step 12 on the history: a row for a move to another state, and none otherwise.
unfoldable pub record_transition :
    Option RecoveryCaseState
    → Fresh
    → PolicyEvaluationRequest
    → RecoveryCase
    → List String
    → List CaseStateTransition
    → List CaseStateTransition
record_transition none fresh request case reasons ts = ts
record_transition (some to) fresh request case reasons ts =
    if not (to == case.state)
    then ts
      ++ record {
        case_id = case.id;
        from_state = some case.state;
        to_state = to;
        reason_code = codes (first_reason reasons);
        actor_type = request.actor_type;
        correlation_id = key_or request.idempotency_key fresh.correlation_text;
        occurred_at = fresh.now;
        sequence_number = next_transition_sequence case.id ts;
      }
        ∷ []
    else ts

-- Steps 10 to 14: persist the decision, synchronise the recommendation and the case, and audit.
unfoldable pub persist_decision :
    PolicyConfig
    → Fresh
    → PolicyEvaluationRequest
    → RecoveryCase
    → AgentDecision
    → ActionType
    → List RuleCheckResult
    → Store
    → Store
unfolding move_case record_transition record_audit
persist_decision config fresh request case recommendation action results s =
    let (status, reasons) = aggregate_decision results in
    let to = determine_fsm_transition status case.state reasons in
    let case' = move_case to fresh.now case in
    record_audit case.id "POLICY_EVALUATION_COMPLETED" request.actor_type
      (key_or request.idempotency_key fresh.decision_id_text) (some case.state) (some case'.state)
      request.actor_id fresh.audit_time
      (record s {
        policy_decisions =
            s.policy_decisions
            ++ record {
              id = fresh.decision_id;
              case_id = case.id;
              recommendation_id = recommendation.id;
              proposed_action = action;
              decision_status = status;
              policy_version = config.policy_version;
              rule_results = results;
              reasons = reasons;
              actor_type = request.actor_type;
              actor_id = request.actor_id;
              idempotency_key = request.idempotency_key;
              case_version = case.version;
              evaluated_at = fresh.now;
            }
              ∷ [];
        decisions =
            put_decision
              (record recommendation { validation_status = map_policy_to_validation_status status })
              s.decisions;
        cases = put_case case' s.cases;
        transitions = record_transition to fresh request case reasons s.transitions;
      })

-- Steps 4 to 15, with the case and the recommendation loaded.
unfoldable pub evaluate_loaded_case :
    PolicyConfig
    → Fresh
    → PolicyEvaluationRequest
    → RecoveryCase
    → AgentDecision
    → Store
    → PolicyEvaluationResult × Store
evaluate_loaded_case config fresh request case recommendation s =
    let action = or_else request.proposed_action recommendation.action_type in
    let results = run_evaluators config fresh.now request case recommendation action s in
    let (status, reasons) = aggregate_decision results in
    (
      record {
        decision_status = status;
        case_id = case.id;
        proposed_action = action;
        policy_version = config.policy_version;
        rule_results = results;
        reasons = reasons;
        recommendation_id = recommendation.id;
        evaluated_at = fresh.now;
        policy_decision_id = some fresh.decision_id;
        case_state =
            some
              (move_case (determine_fsm_transition status case.state reasons) fresh.now case).state;
        validation_status = some (map_policy_to_validation_status status);
        cached_idempotent_result = false;
      },
      persist_decision config fresh request case recommendation action results s,
    )

-- Step 1: a decision that was made under the same key, if there is a key.
unfoldable pub cached_under : Option String → ℕ → Store → Option PolicyDecision
cached_under none case_id s = none
cached_under (some key) case_id s = if key == "" then none else find_policy_decision case_id key s

unfoldable pub find_cached : PolicyEvaluationRequest → Store → Option PolicyDecision
find_cached request s = cached_under request.idempotency_key request.case_id s

-- Steps 2 and 3.
unfoldable pub evaluate_fresh :
    PolicyConfig
    → Fresh
    → PolicyEvaluationRequest
    → Option RecoveryCase
    → Option AgentDecision
    → Store
    → PolicyEvaluationResult × Store
evaluate_fresh config fresh request none recommendation s =
    (build_synthetic_result config request "CASE_NOT_FOUND" fresh.now, s)
evaluate_fresh config fresh request (some case) none s =
    (build_synthetic_result config request "RECOMMENDATION_MISSING" fresh.now, s)
evaluate_fresh config fresh request (some case) (some recommendation) s =
    evaluate_loaded_case config fresh request case recommendation s

-- The early return of step 1.
unfoldable pub evaluate_with :
    PolicyConfig
    → Fresh
    → PolicyEvaluationRequest
    → Option PolicyDecision
    → Store
    → PolicyEvaluationResult × Store
evaluate_with config fresh request (some existing) s = (to_evaluation_result existing, s)
evaluate_with config fresh request none s =
    evaluate_fresh config fresh request (find_case request.case_id s)
      (find_decision request.recommendation_id s) s

-- `PolicyEngineService.evaluate`
unfoldable pub evaluate :
    PolicyConfig → Fresh → PolicyEvaluationRequest → Store → PolicyEvaluationResult × Store
evaluate config fresh request s = evaluate_with config fresh request (find_cached request s) s
