-- ===== src/Policy/Service/Effects.antt =====
-- What an evaluation writes: one decision, one audit event, the recommendation's status, and a
-- move of the case only as the decision asks.
use revenue_rescue_ai.Common.{
  Bool-cases, List, Option, String, [], ap, arith, contains, eqb_iff, find?-sound, inl, inr, nat_eq,
  none, or_else, refl, some, true, ℕ, ◌++◌, ◌+◌, ◌==◌, ◌∙◌, ◌∷◌, ◌≡◌, ◌≢◌, ◌⊎◌,
}
use revenue_rescue_ai.Enums.{
  ActionType, PolicyDecisionStatus, RecoveryCaseState, recovery_case_state_eq,
}
use revenue_rescue_ai.Domain.{AgentDecision, CaseStateTransition, RecoveryCase, RuleCheckResult}
use revenue_rescue_ai.Policy.Aggregate.{aggregate_decision, determine_fsm_transition}
use revenue_rescue_ai.Policy.Aggregate.Precedence.{
  determine_fsm_transition-terminal, failed-rejected,
}
use revenue_rescue_ai.Policy.Config.{PolicyConfig}
use revenue_rescue_ai.Policy.Eligibility.{terminal_states}
use revenue_rescue_ai.Policy.Eligibility.Passed.{evaluate_eligibility-terminal}
use revenue_rescue_ai.Policy.Inputs.{
  Fresh, PolicyEvaluationRequest, eligibility_result, run_evaluators,
}
use revenue_rescue_ai.Policy.Service.{
  evaluate, evaluate_fresh, evaluate_loaded_case, evaluate_with, find_cached, move_case,
  persist_decision, record_transition,
}
use revenue_rescue_ai.Policy.Service.Authorises.{evaluate-loaded}
use revenue_rescue_ai.Store.{
  Store, find_case, find_decision, next_transition_sequence, record_audit,
}
use revenue_rescue_ai.Store.Laws.{find?-put_case_self}

-- The decision and its reasons, for a case and a recommendation that were loaded.
abbrev pub outcome :
    PolicyConfig
    → ℕ
    → PolicyEvaluationRequest
    → RecoveryCase
    → AgentDecision
    → Store
    → PolicyDecisionStatus × List String
outcome config now request case recommendation s = aggregate_decision (
    run_evaluators config now request case recommendation
      (or_else request.proposed_action recommendation.action_type) s)

-- The state that the decision asks for.
abbrev pub target :
    PolicyConfig
    → ℕ
    → PolicyEvaluationRequest
    → RecoveryCase
    → AgentDecision
    → Store
    → Option RecoveryCaseState
target config now request case recommendation s =
    let (status, reasons) = outcome config now request case recommendation s in
    determine_fsm_transition status case.state reasons

move_case-id :
    (to : Option RecoveryCaseState) (now : ℕ) (case : RecoveryCase)
    → (move_case to now case).id ≡ case.id
unfolding move_case
move_case-id to now case = ground arith

-- The row that is found under a key has that key.
pub find_case-id :
    (k : ℕ) (s : Store) (case : RecoveryCase) → find_case k s ≡ some case → case.id ≡ k
unfolding find_case
find_case-id k s case h = (eqb_iff _ _).0 (find?-sound (λ r. r.id == k) s.cases case h)

find_case-persist_decision :
    (config : PolicyConfig) (fresh : Fresh) (request : PolicyEvaluationRequest) (k : ℕ)
    → (case : RecoveryCase) (recommendation : AgentDecision) (action : ActionType)
    → (results : List RuleCheckResult) (s : Store) → find_case k s ≡ some case
    → find_case k (persist_decision config fresh request case recommendation action results s)
      ≡ some (
          move_case
            (determine_fsm_transition
              (aggregate_decision results).0
              case.state
              (aggregate_decision results).1)
            fresh.now
            case)
unfolding persist_decision record_audit find_case
find_case-persist_decision config fresh request k case recommendation action results s h =
    find?-put_case_self k _ case s.cases (move_case-id _ _ case ∙ find_case-id k s case h) h

-- After an evaluation the row of the case is the old one, moved as the decision asks.
pub find_case-evaluate :
    (config : PolicyConfig) (fresh : Fresh) (request : PolicyEvaluationRequest) (s : Store)
    → (case : RecoveryCase) (recommendation : AgentDecision) → find_cached request s ≡ none
    → find_case request.case_id s ≡ some case
    → find_decision request.recommendation_id s ≡ some recommendation
    → find_case request.case_id (evaluate config fresh request s).1
      ≡ some (move_case (target config fresh.now request case recommendation s) fresh.now case)
unfolding evaluate_loaded_case
find_case-evaluate config fresh request s case recommendation n c r =
    rw (evaluate-loaded config fresh request s case recommendation n c r)
      (find_case-persist_decision config fresh request request.case_id case recommendation _ _ s c)

outcome-terminal :
    (config : PolicyConfig) (now : ℕ) (request : PolicyEvaluationRequest)
    → (case : RecoveryCase) (recommendation : AgentDecision) (s : Store)
    → contains terminal_states case.state ≡ true
    → (outcome config now request case recommendation s).0 ≡ PolicyDecisionStatus.rejected
unfolding run_evaluators eligibility_result
outcome-terminal config now request case recommendation s t =
    ap (λ (d : PolicyDecisionStatus × List String). d.0)
      (failed-rejected _ _ (
        evaluate_eligibility-terminal case recommendation (some case.customer_id)
          (some case.trigger_transaction_id) t))

-- On a fresh request a case in a terminal state is rejected, whatever the request proposes, and its
-- row stays as it is.
pub evaluate-terminal :
    (config : PolicyConfig) (fresh : Fresh) (request : PolicyEvaluationRequest) (s : Store)
    → (case : RecoveryCase) (recommendation : AgentDecision) → find_cached request s ≡ none
    → find_case request.case_id s ≡ some case
    → find_decision request.recommendation_id s ≡ some recommendation
    → contains terminal_states case.state ≡ true
    → ((evaluate config fresh request s).0.decision_status ≡ PolicyDecisionStatus.rejected)
      × (find_case request.case_id (evaluate config fresh request s).1 ≡ some case)
unfolding evaluate_loaded_case move_case
evaluate-terminal config fresh request s case recommendation n c r t = (
  rw (evaluate-loaded config fresh request s case recommendation n c r)
      (outcome-terminal config fresh.now request case recommendation s t),
  find_case-evaluate config fresh request s case recommendation n c r
      ∙ rw (determine_fsm_transition-terminal _ case.state _ t),
)

-- A move of a case and the rows that its history gains: nothing happens at all, or the state changes,
-- the version grows by one and one row with the old and the new state is added.
abbrev pub KeepsHistory :
    RecoveryCase → RecoveryCase → List CaseStateTransition → List CaseStateTransition → Type 0
KeepsHistory old new before after =
    ((new ≡ old) × (after ≡ before))
    ⊎ ((new.state ≢ old.state)
        × (new.version ≡ old.version + 1)
        × ((t : CaseStateTransition) × (after ≡ before ++ t ∷ [])
            × (t.case_id ≡ old.id)
            × (t.from_state ≡ some old.state)
            × (t.to_state ≡ new.state)
            × (t.sequence_number ≡ next_transition_sequence old.id before)))

move_case-KeepsHistory :
    (to : Option RecoveryCaseState) (fresh : Fresh) (request : PolicyEvaluationRequest)
    → (case : RecoveryCase) (reasons : List String) (ts : List CaseStateTransition)
    → KeepsHistory case
        (move_case to fresh.now case)
        ts
        (record_transition to fresh request case reasons ts)
unfolding move_case record_transition
move_case-KeepsHistory none fresh request case reasons ts = inl (refl, refl)
move_case-KeepsHistory (some to) fresh request case reasons ts =
    elim (Bool-cases (to == case.state)) [
      | inl same ↦ rw same (inl (refl, refl))
      | inr other ↦ rw other (inr (ground arith, refl, (_, refl, refl, refl, refl, refl)))
    ]

-- A fresh evaluation moves the case and its history together: the version grows by one exactly when
-- the state changes, and one transition from the old to the new state is recorded exactly then.
pub evaluate-KeepsHistory :
    (config : PolicyConfig) (fresh : Fresh) (request : PolicyEvaluationRequest) (s : Store)
    → (case : RecoveryCase) (recommendation : AgentDecision) → find_cached request s ≡ none
    → find_case request.case_id s ≡ some case
    → find_decision request.recommendation_id s ≡ some recommendation
    → (case' : RecoveryCase) × (find_case request.case_id (evaluate config fresh request s).1
        ≡ some case')
      × KeepsHistory case case' s.transitions (evaluate config fresh request s).1.transitions
unfolding evaluate_loaded_case persist_decision record_audit
evaluate-KeepsHistory config fresh request s case recommendation n c r = (
  _,
  find_case-evaluate config fresh request s case recommendation n c r,
  rw (evaluate-loaded config fresh request s case recommendation n c r)
      (move_case-KeepsHistory _ fresh request case _ s.transitions),
)

-- The tables that an evaluation may not touch.
abbrev pub SameElsewhere : Store → Store → Type 0
SameElsewhere s s' =
    (s'.attempts ≡ s.attempts)
    × (s'.executions ≡ s.executions)
    × (s'.workflows ≡ s.workflows)
    × (s'.steps ≡ s.steps)
    × (s'.transactions ≡ s.transactions)
    × (s'.customers ≡ s.customers)
    × (s'.consents ≡ s.consents)

-- On every path an evaluation executes nothing: it writes no attempt, execution, workflow or step,
-- and changes no transaction, customer or consent.
pub evaluate-SameElsewhere :
    (config : PolicyConfig) (fresh : Fresh) (request : PolicyEvaluationRequest) (s : Store)
    → SameElsewhere s (evaluate config fresh request s).1
unfolding evaluate evaluate_with evaluate_fresh evaluate_loaded_case persist_decision record_audit
evaluate-SameElsewhere config fresh request s = ground arith
