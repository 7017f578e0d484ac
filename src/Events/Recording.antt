-- ===== src/Events/Recording.antt =====
-- `WebhookEventRepository.record` and `mark_processed` of backend/app/repositories/webhook_events.py,
-- and `EventDeduplicator` of backend/app/services/event_deduplicator.py. The fingerprint of an
-- event is a parameter: it is the SHA-256 of what `json.dumps` makes. Other workers may commit between
-- the lookup of a receipt and its insert.
pub mod Ledger
use revenue_rescue_ai.Common.{
  Bool, List, Option, Result, String, [], err, false, if◌then◌else◌, nat_eq, none, not, ok, some,
  string_eq, true, ◌++◌, ◌==◌, ◌∷◌,
}
use revenue_rescue_ai.Domain.{ProviderWebhookEvent}
use revenue_rescue_ai.Store.{Store, find_webhook_event}

pub record EventRecordResult : Type 0 where
  pub event : ProviderWebhookEvent
  pub accepted : Bool
  pub duplicate : Bool
  pub reason : String
  pub conflict : Bool

-- The results for an event whose receipt is there
unfoldable pub recorded_before : ProviderWebhookEvent → String → EventRecordResult
recorded_before existing payload_hash = record {
  event = existing;
  accepted = false;
  duplicate = true;
  reason =
      if not (existing.payload_hash == payload_hash)
      then "event_id_reused_with_different_payload"
      else "duplicate_event_suppressed";
  conflict = not (existing.payload_hash == payload_hash);
}

abbrev pub insert_event :
    ProviderWebhookEvent → Option ProviderWebhookEvent → Store → EventRecordResult × Store
insert_event event (some existing) s = (recorded_before existing event.payload_hash, s)
insert_event event none s = (
  record {
    event = event;
    accepted = true;
    duplicate = false;
    reason = "accepted";
    conflict = false;
  },
  record s { webhook_events = s.webhook_events ++ event ∷ [] },
)

abbrev pub record_found :
    (Store → Store)
    → ProviderWebhookEvent
    → Option ProviderWebhookEvent
    → Store
    → EventRecordResult × Store
record_found others event (some existing) s = (recorded_before existing event.payload_hash, s)
record_found others event none s =
    let s' = others s in
    insert_event event (find_webhook_event event.provider event.external_event_id s') s'

-- `WebhookEventRepository.record`, for a row with what the call was given
unfoldable pub record_event :
    (Store → Store) → ProviderWebhookEvent → Store → EventRecordResult × Store
unfolding recorded_before find_webhook_event
record_event others event s =
    record_found others event (find_webhook_event event.provider event.external_event_id s) s

unfoldable pub put_event :
    ProviderWebhookEvent → List ProviderWebhookEvent → List ProviderWebhookEvent
put_event e [] = []
put_event e (r ∷ rs) = if r.id == e.id then e ∷ rs else r ∷ put_event e rs

-- `mark_processed`
unfoldable pub mark_processed : ProviderWebhookEvent → Store → Store
unfolding put_event
mark_processed event s = record s {
  webhook_events = put_event (record event { processed = true }) s.webhook_events;
}

-- The exceptions of ingestion
pub data EventError : Type 0 where
  unsupported_event_type : EventError
  invalid_event : String → EventError
  conflicting_duplicate : EventError

-- `EventDeduplicator.evaluate_and_record`
unfoldable pub evaluate_and_record :
    (Store → Store) → ProviderWebhookEvent → Store → Result EventError (EventRecordResult × Store)
unfolding record_event
evaluate_and_record others event s =
    let r = record_event others event s in
    if r.0.conflict then err EventError.conflicting_duplicate else ok r
