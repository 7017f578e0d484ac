-- ===== src/Agents/Boundary.antt =====
-- What a decision that passed the agent boundary satisfies.
use revenue_rescue_ai.Common.{Option, arith, bind-ok, contains, guard, ok, or_fail, true, ◌↔◌, ◌≡◌}
use revenue_rescue_ai.Enums.{ActionType, action_type_eq}
use revenue_rescue_ai.Agents.{
  AgentDecisionOutput, AgentError, AgentObservation, has_words, is_observation, reason,
  validate_decision, validated,
}

-- What the boundary promises of an answer to an observation
abbrev pub IsBounded : AgentObservation → AgentDecisionOutput → Type 0
IsBounded o d =
    (d.case_id ≡ o.case_id)
    × (contains o.allowed_actions d.action ≡ true)
    × ((d.action ≡ ActionType.stop) ↔ (has_words d.stop_reason ≡ true))

validate_decision-IsBounded :
    (p d : AgentDecisionOutput) (o : AgentObservation)
    → validate_decision p o ≡ ok d
    → IsBounded o d
unfolding validate_decision validated
validate_decision-IsBounded p d o h =
    ground (arith, action_type_eq.same_iff p.action ActionType.stop)

-- Whatever a provider answers, a decision that the brain returns is about the case observed, takes
-- an action of the observation's allow-list, and gives a stop reason exactly when the action is to
-- stop.
pub reason-IsBounded :
    (decide : AgentObservation → Option AgentDecisionOutput) (o : AgentObservation)
    → (d : AgentDecisionOutput) → reason decide o ≡ ok d
    → IsBounded o d
unfolding reason
reason-IsBounded decide o d h =
    let (u, _, e) = bind-ok (guard (is_observation o) AgentError.invalid_observation) _ d h in
    let (p, _, k) = bind-ok (or_fail (decide o) AgentError.provider_failed) _ d e in
    validate_decision-IsBounded p d o k
