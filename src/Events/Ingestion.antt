-- ===== src/Events/Ingestion.antt =====
-- `EventService` of backend/app/services/event_service.py: what its three ways of ingestion do with
-- an event once it is normalized. The provider of such an event is in lower case already.
pub mod Again
use revenue_rescue_ai.Common.{
  Bool, Option, Result, String, Text, false, if◌then◌else◌, ok, true, ℕ, ◌>>=◌, ◌>>◌,
}
use revenue_rescue_ai.Domain.{ProviderWebhookEvent}
use revenue_rescue_ai.Events.Canonical.{CanonicalEventDto}
use revenue_rescue_ai.Events.Engine.{process_event}
use revenue_rescue_ai.Events.Handlers.{ignored_event}
use revenue_rescue_ai.Events.Keys.{CaseProcessingOutcome, EngineCall}
use revenue_rescue_ai.Events.Recording.{
  EventError, EventRecordResult, evaluate_and_record, mark_processed,
}
use revenue_rescue_ai.Events.Validator.{validate}
use revenue_rescue_ai.Policy.Models.{result}
use revenue_rescue_ai.Store.{Store}

-- What a call is given: that of the engine, the id of the receipt, and whether the signature was
-- verified
pub record IngestCall : Type 0 where
  pub engine : EngineCall
  pub event_id : ℕ
  pub signature_verified : Bool

pub record EventIngestResponseDto : Type 0 where
  pub accepted : Bool
  pub duplicate : Bool
  pub event_id : ℕ
  pub external_event_id : String
  pub event_type : Text
  pub status : String
  pub reason : String
  pub correlation_id : String
  pub case_id : Option ℕ
  pub case_key : Option String

-- The row that `record` makes of the event
abbrev pub receipt_of :
    (CanonicalEventDto → String) → IngestCall → CanonicalEventDto → ProviderWebhookEvent
receipt_of fingerprint call event = record {
  id = call.event_id;
  provider = event.provider;
  external_event_id = event.external_event_id;
  event_type = event.event_type;
  payload_hash = fingerprint event;
  signature_verified = call.signature_verified;
  processed = false;
  ingestion_status = "ACCEPTED";
}

abbrev pub respond :
    IngestCall
    → CanonicalEventDto
    → EventRecordResult
    → CaseProcessingOutcome
    → EventIngestResponseDto
respond call event result outcome = record {
  accepted = true;
  duplicate = result.duplicate;
  event_id = result.event.id;
  external_event_id = event.external_event_id;
  event_type = event.event_type;
  status = if result.duplicate then "DUPLICATE" else "ACCEPTED";
  reason = result.reason;
  correlation_id = call.engine.correlation_id;
  case_id = outcome.case_id;
  case_key = outcome.case_key;
}

-- A new event goes to the engine and is then marked; a duplicate goes nowhere.
abbrev pub process_recorded :
    IngestCall → CanonicalEventDto → EventRecordResult × Store → CaseProcessingOutcome × Store
unfolding process_event mark_processed
process_recorded call event r =
    let done = process_event call.engine event r.1 in
    if r.0.duplicate then (ignored_event, r.1) else (done.0, mark_processed r.0.event done.1)

-- `ingest_canonical_event`, and `ingest_raw_webhook` after normalization
unfoldable pub ingest :
    (CanonicalEventDto → String)
    → IngestCall
    → CanonicalEventDto
    → Store
    → Result EventError (EventIngestResponseDto × Store)
unfolding validate evaluate_and_record process_recorded
ingest fingerprint call event s = do
  checked ← validate call.engine.now event
  r ← evaluate_and_record call.engine.others (receipt_of fingerprint call event) s
  let done = process_recorded call event r in ok (respond call event r.0 done.0, done.1)
