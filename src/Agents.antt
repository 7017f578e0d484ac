-- ===== src/Agents.antt =====
-- The agent boundary: the contracts and the brain of backend/app/agents, and the tools of
-- backend/app/tools. The provider that reasons is a parameter. A confidence is in ten-thousandths.
pub mod Boundary
use revenue_rescue_ai.Common.{
  Bool, List, Option, Result, Text, [], all, contains, eqb, err, false, guard, if◌then◌else◌, leb,
  length, lower, map, nat_eq, none, not, ok, or_empty, or_fail, some, strip, text_eq, ℕ, ◌&&◌, ◌==◌,
  ◌>>=◌, ◌>>◌,
}
use revenue_rescue_ai.Enums.{ActionType, RecoveryCaseState, TransactionStatus, action_type_eq}

-- `AgentObservation`; the status stands for its value, and amounts are never negative here.
pub record AgentObservation : Type 0 where
  pub case_id : ℕ
  pub transaction_id : ℕ
  pub transaction_status : TransactionStatus
  pub amount_minor : ℕ
  pub currency : Text
  pub customer_context_available : Bool
  pub risk_reason_codes : List Text
  pub current_state : RecoveryCaseState
  pub prior_attempt_count : ℕ
  pub allowed_actions : List ActionType

-- `AgentDecisionOutput`, and `ValidatedAgentDecision`, whose added field is constant
pub record AgentDecisionOutput : Type 0 where
  pub case_id : ℕ
  pub action : ActionType
  pub reason_code : Text
  pub rationale : Text
  pub confidence : ℕ
  pub requires_human_review : Bool
  pub stop_reason : Option Text

-- A `ValidationError` of a model, the `ValueError`s of the boundary, or what a provider raises
pub data AgentError : Type 0 where
  invalid_observation invalid_decision provider_failed invalid_tool_input : AgentError
  other_case outside_allow_list missing_stop_reason unexpected_stop_reason : AgentError

-- `Field(min_length=low, max_length=high)`
abbrev pub has_length {ℓ} : {A : Type ℓ} → ℕ → ℕ → List A → Bool
has_length low high xs = leb low (length xs) && leb (length xs) high

-- The letters of `^[A-Z]{3}$`
abbrev is_capital : ℕ → Bool
is_capital c = leb b'A' c && leb c b'Z'

-- The constraints on the fields of `AgentObservation`
unfoldable pub is_observation : AgentObservation → Bool
is_observation o =
    has_length 3 3 o.currency
    && all is_capital o.currency
    && has_length 1 10 o.risk_reason_codes
    && has_length 1 10 o.allowed_actions

-- `value.replace(" ", "_")`
abbrev underscored : Text → Text
underscored = map (λ c. if eqb c 32 then 95 else c)

-- `normalize_reason_code`
unfoldable pub normalize_reason_code : Text → Text
unfolding lower strip
normalize_reason_code value = underscored (lower (strip value))

-- The constraints on the fields of `AgentDecisionOutput`, before the normalization
unfoldable pub is_decision : AgentDecisionOutput → Bool
is_decision d =
    has_length 1 120 d.reason_code
    && has_length 1 2000 d.rationale
    && leb d.confidence 10_000
    && leb (length (or_empty d.stop_reason)) 500

-- `ValidatedAgentDecision(**decision.model_dump())` checks and normalizes the fields again.
unfoldable pub validated : AgentDecisionOutput → Result AgentError AgentDecisionOutput
unfolding is_decision normalize_reason_code
validated d =
    if is_decision d
    then ok record d { reason_code = normalize_reason_code d.reason_code }
    else err AgentError.invalid_decision

-- The truth value of an optional text: `None` and the empty text are false.
unfoldable pub has_words : Option Text → Bool
has_words none = false
has_words (some t) = not (t == [])

-- `validate_decision`
unfoldable pub validate_decision :
    AgentDecisionOutput → AgentObservation → Result AgentError AgentDecisionOutput
unfolding validated has_words
validate_decision d o = do
  guard (d.case_id == o.case_id) AgentError.other_case
  guard (contains o.allowed_actions d.action) AgentError.outside_allow_list
  guard (not (d.action == ActionType.stop && not (has_words d.stop_reason)))
      AgentError.missing_stop_reason
  guard (not (not (d.action == ActionType.stop) && has_words d.stop_reason))
      AgentError.unexpected_stop_reason
  validated d

-- `AgentObservation(...)` and `AgentBrain.reason`; a provider raises or answers.
unfoldable pub reason :
    (AgentObservation → Option AgentDecisionOutput)
    → AgentObservation
    → Result AgentError AgentDecisionOutput
unfolding is_observation validate_decision
reason decide o = do
  guard (is_observation o) AgentError.invalid_observation
  proposed ← or_fail (decide o) AgentError.provider_failed
  validate_decision proposed o

-- The payloads of the two tools that the workflow calls
pub data ToolInput : Type 0 where
  draft_recovery_intent :
      (case_id : ℕ) → (action : ActionType) → (rationale idempotency_key : Text) → ToolInput
  escalate_recovery_case : (case_id : ℕ) → (reason : Text) → (priority : ℕ) → ToolInput

-- The constraints on the fields of `DraftRecoveryIntentInput` and `EscalateCaseInput`
unfoldable pub is_tool_input : ToolInput → Bool
is_tool_input (ToolInput.draft_recovery_intent case_id action rationale key) =
    has_length 1 2000 rationale && has_length 1 250 key
is_tool_input (ToolInput.escalate_recovery_case case_id reason priority) =
    has_length 1 500 reason && leb priority 100

-- The status of a `ToolOutput`
pub data ToolStatus : Type 0 where
  planned rejected not_executed : ToolStatus

-- The `execute` of each tool, given `context.authorized`
unfoldable pub planned_or_rejected : Bool → ToolInput → ToolStatus
planned_or_rejected authorized (ToolInput.draft_recovery_intent case_id action rationale key) =
    if authorized then ToolStatus.planned else ToolStatus.rejected
planned_or_rejected authorized (ToolInput.escalate_recovery_case case_id reason priority) =
    ToolStatus.planned

-- `ToolRegistry.execute` of a registered tool
unfoldable pub execute_tool : Bool → ToolInput → Result AgentError ToolStatus
unfolding is_tool_input planned_or_rejected
execute_tool authorized input = do
  guard (is_tool_input input) AgentError.invalid_tool_input
  ok (planned_or_rejected authorized input)
