-- ===== src/Events/Keys.antt =====
-- The eligibility tests and `derive_case_key` of backend/app/services/event_to_case_engine.py, and what
-- a call of the engine is given: the clock, the identifiers that `uuid4` gives, the format of a month,
-- and what other workers commit between the lookup of the case and its insert.
use revenue_rescue_ai.Common.{
  Bool, List, Option, String, Text, [], codes, given, joined, none, one_of, or_else, some, strip,
  upper, ℕ, ◌∷◌,
}
use revenue_rescue_ai.Enums.{RecoveryCaseState, RiskTier}
use revenue_rescue_ai.Events.Canonical.{CanonicalEventDto}
use revenue_rescue_ai.Store.{Store}

unfoldable pub terminal_case_states : List RecoveryCaseState
terminal_case_states =
    RecoveryCaseState.recovered ∷ RecoveryCaseState.stopped ∷ RecoveryCaseState.closed ∷ []

unfoldable pub creation_eligible_events : List String
creation_eligible_events =
    "PAYMENT_FAILED" ∷ "SUBSCRIPTION_PAYMENT_FAILED" ∷ "CHECKOUT_ABANDONED" ∷ "INVOICE_OVERDUE" ∷ []

unfoldable pub resolution_events : List String
resolution_events = "PAYMENT_SUCCEEDED" ∷ []

pub data ProcessingResult : Type 0 where
  case_created case_updated case_resolved ignored : ProcessingResult

pub record CaseProcessingOutcome : Type 0 where
  pub outcome : ProcessingResult
  pub case_id : Option ℕ
  pub case_key : Option String
  pub state : Option RecoveryCaseState
  pub priority : Option ℕ
  pub risk_tier : Option RiskTier

pub record EngineCall : Type 0 where
  pub now : ℕ
  pub customer_id : ℕ
  pub transaction_id : ℕ
  pub case_id : ℕ
  pub correlation_id : String
  pub month_of : ℕ → String  -- `strftime("%Y%m")`
  pub others : Store → Store

-- `event_type.strip().upper()`
unfoldable pub event_type_of : CanonicalEventDto → Text
unfolding upper strip
event_type_of event = upper (strip event.event_type)

unfoldable pub is_creation_eligible : CanonicalEventDto → Bool
unfolding event_type_of creation_eligible_events codes one_of
is_creation_eligible event = one_of creation_eligible_events (event_type_of event)

unfoldable pub is_resolution_eligible : CanonicalEventDto → Bool
unfolding event_type_of resolution_events codes one_of
is_resolution_eligible event = one_of resolution_events (event_type_of event)

-- The branches of `derive_case_key` after the subscription, and those after the invoice
abbrev pub payment_key : CanonicalEventDto → Option String → String
payment_key event (some ref) = joined ("CASE-TX-" ∷ event.provider ∷ "-" ∷ ref ∷ [])
payment_key event none = joined ("CASE-EVT-" ∷ event.provider ∷ "-" ∷ event.external_event_id ∷ [])

abbrev pub checkout_key : Option String → String → String
checkout_key (some ref) rest = joined ("CASE-CHK-" ∷ ref ∷ [])
checkout_key none rest = rest

abbrev pub invoice_key : Option String → String → String
invoice_key (some ref) rest = joined ("CASE-INV-" ∷ ref ∷ [])
invoice_key none rest = rest

abbrev pub subscription_key : Option String → String → String → String
subscription_key (some ref) period rest = joined ("CASE-SUB-" ∷ ref ∷ "-" ∷ period ∷ [])
subscription_key none period rest = rest

-- `derive_case_key`
unfoldable pub derive_case_key : (ℕ → String) → CanonicalEventDto → String
unfolding given
derive_case_key month_of event =
    subscription_key (given event.subscription_reference)
      (or_else (given event.metadata.billing_period) (month_of event.occurred_at))
      (invoice_key (given event.invoice_reference) (
        checkout_key (given event.checkout_session_id)
          (payment_key event (given event.payment_reference))))
