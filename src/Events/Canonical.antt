-- ===== src/Events/Canonical.antt =====
-- `CanonicalEventDTO` of backend/app/schemas/events.py, with the entries of its metadata that the
-- engine reads. A reference is only compared and put into keys; the type and the failure code are
-- walked.
use revenue_rescue_ai.Common.{Option, String, Text, ℕ}

pub record EventMetadata : Type 0 where
  pub billing_period : Option String
  pub customer_email : Option String
  pub email : Option String
  pub merchant_id : Option String
  pub customer_tier : Option Text
  pub checkout_id : Option String
  pub invoice_id : Option String

pub record CanonicalEventDto : Type 0 where
  pub external_event_id : String
  pub event_type : Text
  pub provider : String
  pub occurred_at : ℕ
  pub customer_reference : String
  pub payment_reference : Option String
  pub subscription_reference : Option String
  pub invoice_reference : Option String
  pub checkout_session_id : Option String
  pub amount_minor : ℕ
  pub currency : Text
  pub failure_code : Option Text
  pub metadata : EventMetadata
