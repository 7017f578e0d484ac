-- ===== src/Policy/Aggregate.antt =====
-- `_aggregate_decision` and `_determine_fsm_transition` of backend/app/policy/service.py.
pub mod Precedence
use revenue_rescue_ai.Common.{
  Bool, List, Option, String, [], any, contains, filter, if◌then◌else◌, is_empty, map, none, not,
  some, string_eq, ◌&&◌, ◌∷◌,
}
use revenue_rescue_ai.Enums.{PolicyDecisionStatus, RecoveryCaseState, recovery_case_state_eq}
use revenue_rescue_ai.Domain.{RuleCheckResult}
use revenue_rescue_ai.Policy.Eligibility.{actionable_states, terminal_states}
use revenue_rescue_ai.Policy.Models.{is_failed, is_missing_info, needs_review}

abbrev pub reason_codes : List RuleCheckResult → List String
reason_codes = map (λ r. r.reason_code)

-- `PolicyEngineService._aggregate_decision`
unfoldable pub aggregate_decision : List RuleCheckResult → PolicyDecisionStatus × List String
aggregate_decision rs =
    let failed_rules = filter is_failed rs in
    let missing_rules = filter is_missing_info rs in
    let review_rules = filter needs_review rs in
    if not (is_empty failed_rules)
    then (PolicyDecisionStatus.rejected, reason_codes failed_rules)
    else if not (is_empty missing_rules)
    then (PolicyDecisionStatus.insufficient_information, reason_codes missing_rules)
    else if not (is_empty review_rules)
    then (PolicyDecisionStatus.requires_review, reason_codes review_rules)
    else (PolicyDecisionStatus.approved, "ALL_POLICY_GUARDRAILS_PASSED" ∷ [])

abbrev pub terminal_reasons : List String
terminal_reasons =
    "RETRY_LIMIT_EXCEEDED" ∷ "CASE_ALREADY_RECOVERED" ∷ "CASE_CANCELLED" ∷ "CASE_CLOSED"
    ∷ "RETRY_NOT_SUPPORTED" ∷ []

unfoldable pub has_terminal_reason : List String → Bool
has_terminal_reason reasons = any (λ r. contains terminal_reasons r) reasons

-- `PolicyEngineService._determine_fsm_transition`
unfoldable pub determine_fsm_transition :
    PolicyDecisionStatus → RecoveryCaseState → List String → Option RecoveryCaseState
determine_fsm_transition PolicyDecisionStatus.approved state reasons =
    if contains actionable_states state then some RecoveryCaseState.action_pending else none
determine_fsm_transition PolicyDecisionStatus.requires_review state reasons =
    if not (contains (RecoveryCaseState.escalated ∷ terminal_states) state)
    then some RecoveryCaseState.escalated
    else none
determine_fsm_transition PolicyDecisionStatus.rejected state reasons =
    if has_terminal_reason reasons && not (contains terminal_states state)
    then some RecoveryCaseState.stopped
    else none
determine_fsm_transition PolicyDecisionStatus.insufficient_information state reasons = none
