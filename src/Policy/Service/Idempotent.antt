-- ===== src/Policy/Service/Idempotent.antt =====
-- A request that is sent again under its key.
use revenue_rescue_ai.Common.{
  ==_self, List, String, [], arith, false, find?, nat_eq, none, option_beq, or_else, refl, some,
  string_eq, sym, true, ℕ, ◌&&◌, ◌++◌, ◌==◌, ◌∙◌, ◌∷◌, ◌≡◌,
}
use revenue_rescue_ai.Domain.{AgentDecision, PolicyDecision, RecoveryCase}
use revenue_rescue_ai.Policy.Aggregate.{aggregate_decision}
use revenue_rescue_ai.Policy.Config.{PolicyConfig}
use revenue_rescue_ai.Policy.Inputs.{Fresh, PolicyEvaluationRequest, run_evaluators}
use revenue_rescue_ai.Policy.Models.{result}
use revenue_rescue_ai.Policy.Service.{
  PolicyEvaluationResult, cached_under, evaluate, evaluate_loaded_case, evaluate_with, find_cached,
  persist_decision, to_evaluation_result,
}
use revenue_rescue_ai.Policy.Service.Authorises.{evaluate-loaded}
use revenue_rescue_ai.Policy.Service.Effects.{find_case-id}
use revenue_rescue_ai.Store.{Store, find_case, find_decision, find_policy_decision, record_audit}

-- The decision that a fresh evaluation persists.
persisted :
    PolicyConfig
    → Fresh
    → PolicyEvaluationRequest
    → RecoveryCase
    → AgentDecision
    → Store
    → PolicyDecision
persisted config fresh request case recommendation s =
    let action = or_else request.proposed_action recommendation.action_type in
    let results = run_evaluators config fresh.now request case recommendation action s in
    record {
      id = fresh.decision_id;
      case_id = case.id;
      recommendation_id = recommendation.id;
      proposed_action = action;
      decision_status = (aggregate_decision results).0;
      policy_version = config.policy_version;
      rule_results = results;
      reasons = (aggregate_decision results).1;
      actor_type = request.actor_type;
      actor_id = request.actor_id;
      idempotency_key = request.idempotency_key;
      case_version = case.version;
      evaluated_at = fresh.now;
    }

find_policy_decision-append :
    (key : ℕ) (idem : String) (ds : List PolicyDecision) (d : PolicyDecision)
    → find? (λ r. r.case_id == key && option_beq r.idempotency_key (some idem)) ds ≡ none
    → d.case_id ≡ key
    → d.idempotency_key ≡ some idem
    → find? (λ r. r.case_id == key && option_beq r.idempotency_key (some idem)) (ds ++ d ∷ [])
      ≡ some d
find_policy_decision-append key idem [] d h ek ei = ground (arith, ==_self idem, ==_self key)
find_policy_decision-append key idem (r ∷ rs) d h ek ei =
    ground (arith, find_policy_decision-append key idem rs d)

find_cached-key :
    (request : PolicyEvaluationRequest) (s : Store) (key : String)
    → request.idempotency_key ≡ some key
    → (key == "") ≡ false
    → find_cached request s ≡ find_policy_decision request.case_id key s
unfolding find_cached cached_under
find_cached-key request s key k ne = rw k (rw ne)

find_cached-evaluate :
    (config : PolicyConfig) (fresh : Fresh) (request : PolicyEvaluationRequest) (s : Store)
    → (case : RecoveryCase) (recommendation : AgentDecision) (key : String)
    → request.idempotency_key ≡ some key
    → (key == "") ≡ false
    → find_cached request s ≡ none
    → case.id ≡ request.case_id
    → find_cached request (evaluate_loaded_case config fresh request case recommendation s).1
      ≡ some (persisted config fresh request case recommendation s)
unfolding find_policy_decision evaluate_loaded_case persist_decision record_audit persisted
find_cached-evaluate config fresh request s case recommendation key k ne n e =
    find_cached-key request _ key k ne
    ∙ find_policy_decision-append request.case_id key s.policy_decisions _
        (sym (find_cached-key request s key k ne) ∙ n) e k

-- A result as it is read back: marked as stored before, and without the states of the evaluation
abbrev pub marked : PolicyEvaluationResult → PolicyEvaluationResult
marked result = record result {
  cached_idempotent_result = true;
  case_state = none;
  validation_status = none;
}

to_evaluation_result-persisted :
    (config : PolicyConfig) (fresh : Fresh) (request : PolicyEvaluationRequest) (s : Store)
    → (case : RecoveryCase) (recommendation : AgentDecision)
    → to_evaluation_result (persisted config fresh request case recommendation s)
      ≡ marked (evaluate_loaded_case config fresh request case recommendation s).0
unfolding to_evaluation_result evaluate_loaded_case persisted
to_evaluation_result-persisted config fresh request s case recommendation = refl

evaluate-cached :
    (config : PolicyConfig) (fresh : Fresh) (request : PolicyEvaluationRequest) (s : Store)
    → (d : PolicyDecision) → find_cached request s ≡ some d
    → evaluate config fresh request s ≡ (to_evaluation_result d, s)
unfolding evaluate evaluate_with
evaluate-cached config fresh request s d h = rw h

-- A request whose key is not empty and new for the case, and whose case and recommendation are
-- there, is evaluated once: sent again, at any later time and under any configuration, it gives the
-- same result as it is read back, and changes nothing: every field and the id of the decision are the
-- same, and the metadata says that it was stored before and not which states the evaluation left.
pub evaluate_again :
    (config config' : PolicyConfig) (fresh fresh' : Fresh) (request : PolicyEvaluationRequest)
    → (s : Store) (case : RecoveryCase) (recommendation : AgentDecision) (key : String)
    → request.idempotency_key ≡ some key
    → (key == "") ≡ false
    → find_cached request s ≡ none
    → find_case request.case_id s ≡ some case
    → find_decision request.recommendation_id s ≡ some recommendation
    → evaluate config' fresh' request (evaluate config fresh request s).1
      ≡ (marked (evaluate config fresh request s).0, (evaluate config fresh request s).1)
evaluate_again config config' fresh fresh' request s case recommendation key k ne n c r =
    rw (evaluate-loaded config fresh request s case recommendation n c r) (
      evaluate-cached config' fresh' request _ _ (
        find_cached-evaluate config fresh request s case recommendation key k ne n
          (find_case-id request.case_id s case c))
      ∙ rw (to_evaluation_result-persisted config fresh request s case recommendation))
