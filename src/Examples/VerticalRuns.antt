-- ===== src/Examples/VerticalRuns.antt =====
-- Runs of the vertical workflow.
use revenue_rescue_ai.Common.{
  Option, Text, [], codes, err, false, lower, none, ok, refl, some, strip, ◌+◌, ◌∷◌, ◌≡◌,
}
use revenue_rescue_ai.Enums.{ActionType, RecoveryCaseState}
use revenue_rescue_ai.Agents.{
  AgentDecisionOutput, AgentError, has_words, is_decision, is_observation, is_tool_input,
  normalize_reason_code, reason, validate_decision, validated,
}
use revenue_rescue_ai.Agents.Boundary.{IsBounded, reason-IsBounded}
use revenue_rescue_ai.Domain.{RecoveryCase}
use revenue_rescue_ai.Examples.Rows.{asha, case_in, failed_payment, noon, store_in}
use revenue_rescue_ai.Policy.Safety.{default_safety, evaluate_safety}
use revenue_rescue_ai.Store.{Store, attempts_of, next_audit_sequence, next_transition_sequence}
use revenue_rescue_ai.Workflow.Vertical.{
  VerticalCall, VerticalWorkflowResult, attempt_taken, observe, planned_attempt, policy_context,
  run_recovery, tool_input,
}
use revenue_rescue_ai.Workflow.Vertical.Ends.{run_recovery-Ends, waiting}
use revenue_rescue_ai.Workflow.Vertical.Outcome.{Ends, Planned}
use revenue_rescue_ai.Workflow.Vertical.Stopping.{run_recovery-waits}

abbrev detected_case : RecoveryCase
detected_case = case_in RecoveryCaseState.detected

abbrev detected_store : Store
detected_store = store_in RecoveryCaseState.detected

abbrev proposal : ActionType → Option Text → AgentDecisionOutput
unfolding codes
proposal action stop_reason = record {
  case_id = 30;
  action = action;
  reason_code = codes "retry_now";
  rationale = codes "The payment may succeed now.";
  confidence = 9000;
  requires_human_review = false;
  stop_reason = stop_reason;
}

abbrev call_deciding : AgentDecisionOutput → VerticalCall
call_deciding d = record {
  config = default_safety;
  decide = λ o. some d;
  risk_reason_codes = codes "payment_failed" ∷ [];
  correlation_id = "run-1";
  clock = λ reading. noon + reading;
  decision_id = 41;
  idempotency_key = λ case_id n. "30:workflow:2";
}

abbrev retrying : AgentDecisionOutput
retrying = proposal ActionType.retry_payment none

abbrev stopping : AgentDecisionOutput
stopping = proposal ActionType.stop (some (codes "The customer has left."))

-- A reason code that the normalization by the provider has emptied is refused at the boundary.
blank_reason_code :
    validate_decision
      record retrying { reason_code = [] }
      (observe
        (call_deciding retrying)
        (waiting detected_case)
        failed_payment
        (some asha)
        detected_store)
    ≡ err AgentError.invalid_decision
unfolding reason is_observation validate_decision validated is_decision normalize_reason_code
    has_words strip lower codes observe attempts_of
blank_reason_code = refl

reason-IsBounded_example :
    IsBounded
      (observe
        (call_deciding retrying)
        (waiting detected_case)
        failed_payment
        (some asha)
        detected_store)
      retrying
unfolding reason is_observation validate_decision validated is_decision normalize_reason_code
    has_words strip lower codes observe attempts_of
reason-IsBounded_example =
    reason-IsBounded (λ o. some retrying)
      (observe (call_deciding retrying) (waiting detected_case) failed_payment (some asha)
        detected_store)
      retrying refl

run_recovery-Ends_example :
    (r : VerticalWorkflowResult) × (s' : Store) × (run_recovery
        (call_deciding retrying)
        detected_case
        failed_payment
        (some asha)
        detected_store
      ≡ ok (r, s'))
    × Ends
        (call_deciding retrying)
        detected_case
        retrying
        (evaluate_safety default_safety (
          policy_context
            (call_deciding retrying)
            (waiting detected_case)
            failed_payment
            retrying
            detected_store))
        detected_store
        s'
        r
unfolding reason is_observation validate_decision validated is_decision normalize_reason_code
    has_words strip lower codes observe attempts_of attempt_taken planned_attempt is_tool_input
    tool_input next_audit_sequence next_transition_sequence
run_recovery-Ends_example =
    run_recovery-Ends (call_deciding retrying) detected_case failed_payment (some asha)
      detected_store retrying refl refl refl (refl, refl)

run_recovery-waits_example :
    (r : VerticalWorkflowResult) × (s' : Store) × (run_recovery
        (call_deciding stopping)
        detected_case
        failed_payment
        (some asha)
        detected_store
      ≡ ok (r, s'))
    × (r.final_state ≡ RecoveryCaseState.verification_pending)
    × Planned
        (call_deciding stopping)
        detected_case
        stopping
        (evaluate_safety default_safety (
          policy_context
            (call_deciding stopping)
            (waiting detected_case)
            failed_payment
            stopping
            detected_store))
        detected_store
        s'
        r
    × (s'.executions ≡ detected_store.executions)
unfolding reason is_observation validate_decision validated is_decision normalize_reason_code
    has_words strip lower codes observe attempts_of attempt_taken planned_attempt is_tool_input
    tool_input next_audit_sequence next_transition_sequence
run_recovery-waits_example =
    run_recovery-waits (call_deciding stopping) detected_case failed_payment (some asha)
      detected_store stopping refl refl refl (refl, refl) (λ e. cc) (λ e. cc)
