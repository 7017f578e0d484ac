-- ===== src/Events/Validator.antt =====
-- `EventValidator` of backend/app/services/event_validator.py. An amount is a natural number here, so
-- its sign is not tested; a length counts characters.
use revenue_rescue_ai.Common.{
  Bool, List, Option, Result, String, Text, [], codes, eqb, first_of, given, guard, if◌then◌else◌,
  is_empty, is_none, leb, length, none, not, ok, one_of, or_empty, some, strip, text_beq, true,
  upper, ℕ, ◌&&◌, ◌+◌, ◌>>◌, ◌∷◌,
}
use revenue_rescue_ai.Events.Canonical.{CanonicalEventDto}
use revenue_rescue_ai.Events.Recording.{EventError}

unfoldable pub supported_event_types : List String
supported_event_types =
    "PAYMENT_FAILED" ∷ "PAYMENT_SUCCEEDED" ∷ "SUBSCRIPTION_PAYMENT_FAILED" ∷ "CHECKOUT_ABANDONED"
    ∷ "INVOICE_OVERDUE" ∷ []

-- `not t or not t.strip()`
abbrev pub is_blank : Text → Bool
unfolding strip
is_blank t = is_empty (strip t)

abbrev pub is_blank_ref : Option String → Bool
unfolding codes
is_blank_ref none = true
is_blank_ref (some s) = is_blank (codes s)

-- `raise EventValidationException(..., field=field)` unless the test holds
abbrev pub require : Bool → String → Result EventError (Unit {0})
require test field = guard test (EventError.invalid_event field)

-- A text that is not blank and not too long
abbrev pub require_text : String → ℕ → String → Result EventError (Unit {0})
unfolding codes
require_text text bound field = do
  require (not (is_blank (codes text))) field
  require (leb (length (codes text)) bound) field

abbrev pub is_of_type : String → CanonicalEventDto → Bool
unfolding codes
is_of_type type event = text_beq event.event_type (codes type)

abbrev pub require_failure_code : CanonicalEventDto → Result EventError (Unit {0})
require_failure_code event = require (not (is_blank (or_empty event.failure_code))) "failure_code"

-- `_validate_payment_failed` to `_validate_invoice_overdue`, by the type of the event
unfoldable pub validate_by_type : CanonicalEventDto → Result EventError (Unit {0})
unfolding given is_of_type is_blank_ref
validate_by_type event =
    if is_of_type "PAYMENT_FAILED" event
    then require (not (is_blank_ref event.payment_reference)) "payment_reference"
      >> require_failure_code event
    else if is_of_type "PAYMENT_SUCCEEDED" event
    then require (not (is_blank_ref event.payment_reference)) "payment_reference"
    else if is_of_type "SUBSCRIPTION_PAYMENT_FAILED" event
    then require
        (not
          (is_none (first_of (given event.subscription_reference) (given event.payment_reference))))
        "subscription_reference"
      >> require_failure_code event
    else if is_of_type "CHECKOUT_ABANDONED" event
    then require
        (not
          (is_none (first_of (given event.checkout_session_id) (given event.metadata.checkout_id))))
        "checkout_session_id"
    else if is_of_type "INVOICE_OVERDUE" event
    then require
        (not (is_none (first_of (given event.invoice_reference) (given event.metadata.invoice_id))))
        "invoice_reference"
    else ok tt

-- `timedelta(minutes=15)`
abbrev pub clock_skew : ℕ
clock_skew = 900_000_000

-- `validate`
unfoldable pub validate : ℕ → CanonicalEventDto → Result EventError (Unit {0})
unfolding supported_event_types codes one_of upper require_text validate_by_type
validate now event = do
  guard (one_of supported_event_types event.event_type) EventError.unsupported_event_type
  require_text event.external_event_id 200 "external_event_id"
  require_text event.provider 64 "provider"
  require_text event.customer_reference 128 "customer_reference"
  require (eqb (length event.currency) 3 && text_beq event.currency (upper event.currency))
      "currency"
  require (leb event.occurred_at (now + clock_skew)) "occurred_at"
  validate_by_type event
