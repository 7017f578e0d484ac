-- ===== src/Events/Ingestion/Again.antt =====
-- Ingesting an event again.
use revenue_rescue_ai.Common.{
  ==_self, Bool, Bool-cases, List, Option-cases, String, [], ap, arith, bind-ok, codes, find?,
  guard, guard-true, inl, inr, nat_eq, none, ok, ok-injective, one_of, one_of-all, refl, some,
  string_eq, strip, sym, true, upper, ℕ, ◌&&◌, ◌++◌, ◌==◌, ◌||◌, ◌∷◌, ◌≡◌, ◌≤◌,
}
use revenue_rescue_ai.Domain.{ProviderWebhookEvent}
use revenue_rescue_ai.Events.Canonical.{CanonicalEventDto}
use revenue_rescue_ai.Events.Engine.{process_event}
use revenue_rescue_ai.Events.Engine.Receipts.{process_event-receipts}
use revenue_rescue_ai.Events.Ingestion.{
  EventIngestResponseDto, IngestCall, ingest, process_recorded, receipt_of,
}
use revenue_rescue_ai.Events.Keys.{
  creation_eligible_events, event_type_of, is_creation_eligible, is_resolution_eligible,
  resolution_events,
}
use revenue_rescue_ai.Events.Recording.{
  evaluate_and_record, mark_processed, put_event, record_event, recorded_before,
}
use revenue_rescue_ai.Events.Validator.{supported_event_types, validate}
use revenue_rescue_ai.Store.{Store, find_webhook_event}

-- A valid event has a type that the engine handles.
pub validate-eligible :
    (now : ℕ) (event : CanonicalEventDto)
    → validate now event ≡ ok tt
    → (is_creation_eligible event || is_resolution_eligible event) ≡ true
unfolding validate supported_event_types one_of codes is_creation_eligible is_resolution_eligible
    creation_eligible_events resolution_events event_type_of upper strip
validate-eligible now event h =
    let passed = bind-ok (guard (one_of supported_event_types event.event_type) _) _ tt h in
    one_of-all
      (λ t.
        one_of creation_eligible_events (upper (strip t))
        || one_of resolution_events (upper (strip t)))
      supported_event_types event.event_type refl (guard-true _ _ passed.1)

validate-later :
    (now later : ℕ) (event : CanonicalEventDto)
    → now ≤ later
    → validate now event ≡ ok tt
    → validate later event ≡ ok tt
unfolding validate
validate-later now later event le h = ground (arith, h)

-- The receipt that was just added, marked as processed, is found.
find?-marked :
    (p : ProviderWebhookEvent → Bool) (row marked : ProviderWebhookEvent)
    → (rows : List ProviderWebhookEvent) → marked.id ≡ row.id
    → p marked ≡ true
    → find? (λ r. r.id == row.id) rows ≡ none
    → find? p rows ≡ none
    → find? p (put_event marked (rows ++ row ∷ [])) ≡ some marked
unfolding put_event
find?-marked p row marked [] i h f g = ground (arith, i, h)
find?-marked p row marked (r ∷ rs) i h f g = ground (arith, find?-marked p row marked rs i h)

same_hash : (a b : String) → a ≡ b → (a == b) ≡ true
same_hash a b h = (string_eq.same_iff a b).1 h

-- An event whose receipt is there with its fingerprint is a duplicate that changes nothing.
ingest-seen :
    (fingerprint : CanonicalEventDto → String) (call : IngestCall) (event : CanonicalEventDto)
    → (s : Store) (e : ProviderWebhookEvent) → validate call.engine.now event ≡ ok tt
    → find_webhook_event event.provider event.external_event_id s ≡ some e
    → e.payload_hash ≡ fingerprint event
    → (r : EventIngestResponseDto) × (ingest fingerprint call event s ≡ ok (r, s))
      × (r.duplicate ≡ true)
      × (r.case_id ≡ none)
unfolding ingest evaluate_and_record record_event recorded_before process_recorded
ingest-seen fingerprint call event s e v f h =
    let unchanged = same_hash e.payload_hash (fingerprint event) h in
    rw (v, f, unchanged) (_, refl, refl, refl)

-- The store after the first ingestion of an event without a receipt
abbrev stored : (CanonicalEventDto → String) → IngestCall → CanonicalEventDto → Store → Store
unfolding mark_processed process_event
stored fingerprint call event s =
    let row = receipt_of fingerprint call event in
    mark_processed row
      (process_event call.engine event record s { webhook_events = s.webhook_events ++ row ∷ [] }).1

ingest-new :
    (fingerprint : CanonicalEventDto → String) (call : IngestCall) (event : CanonicalEventDto)
    → (s s' : Store) (r : EventIngestResponseDto) → call.engine.others s ≡ s
    → find_webhook_event event.provider event.external_event_id s ≡ none
    → ingest fingerprint call event s ≡ ok (r, s')
    → (validate call.engine.now event ≡ ok tt) × (s' ≡ stored fingerprint call event s)
unfolding ingest evaluate_and_record record_event process_recorded stored
ingest-new fingerprint call event s s' r alone f h =
    let v = bind-ok (validate call.engine.now event) _ (r, s') h in
    (v.1, sym (ap (λ x. x.1) (ok-injective (rw (f, alone, f) at v.2))))

ingest-duplicate :
    (fingerprint : CanonicalEventDto → String) (call : IngestCall) (event : CanonicalEventDto)
    → (s s' : Store) (r : EventIngestResponseDto) (e : ProviderWebhookEvent)
    → find_webhook_event event.provider event.external_event_id s ≡ some e
    → ingest fingerprint call event s ≡ ok (r, s')
    → (validate call.engine.now event ≡ ok tt)
      × (s' ≡ s)
      × ((e.payload_hash == fingerprint event) ≡ true)
unfolding ingest evaluate_and_record record_event recorded_before process_recorded
ingest-duplicate fingerprint call event s s' r e f h =
    let v = bind-ok (validate call.engine.now event) _ (r, s') h in
    elim (Bool-cases (e.payload_hash == fingerprint event)) [
      | inl q ↦ (v.1, sym (ap (λ x. x.1) (ok-injective (rw (f, q) at v.2))), q)
      | inr q ↦ absurd (cc (rw (f, q) at v.2))
    ]

find_webhook_event-stored :
    (fingerprint : CanonicalEventDto → String) (call : IngestCall) (event : CanonicalEventDto)
    → (s : Store) → ((t : Store) → call.engine.others t ≡ t)
    → find? (λ e. e.id == call.event_id) s.webhook_events ≡ none
    → find_webhook_event event.provider event.external_event_id s ≡ none
    → find_webhook_event event.provider event.external_event_id (stored fingerprint call event s)
      ≡ some (record (receipt_of fingerprint call event) { processed = true })
unfolding find_webhook_event stored mark_processed
find_webhook_event-stored fingerprint call event s alone fresh f =
    let row = receipt_of fingerprint call event in
    let key = λ (e : ProviderWebhookEvent).
      e.provider == event.provider && e.external_event_id == event.external_event_id in
    rw
      (process_event-receipts call.engine event
        (record s { webhook_events = s.webhook_events ++ row ∷ [] }) alone)
      (find?-marked key row (record row { processed = true }) s.webhook_events refl
        (rw (==_self event.provider, ==_self event.external_event_id) refl) fresh f)

-- Ingesting an event again, later and by any call, is a duplicate: nothing in the store changes, and
-- no case is touched. The first ingestion may itself have been a duplicate; its receipt has a fresh
-- id, and no other worker commits during it.
pub ingest_twice :
    (fingerprint : CanonicalEventDto → String) (call again : IngestCall)
    → (event : CanonicalEventDto) (s s' : Store) (first : EventIngestResponseDto)
    → ((t : Store) → call.engine.others t ≡ t)
    → find? (λ e. e.id == call.event_id) s.webhook_events ≡ none
    → call.engine.now ≤ again.engine.now
    → ingest fingerprint call event s ≡ ok (first, s')
    → (r : EventIngestResponseDto) × (ingest fingerprint again event s' ≡ ok (r, s'))
      × (r.duplicate ≡ true)
      × (r.case_id ≡ none)
ingest_twice fingerprint call again event s s' first alone fresh le h =
    elim (Option-cases (find_webhook_event event.provider event.external_event_id s)) [
      | inl f ↦
          let new = ingest-new fingerprint call event s s' first (alone s) f h in
          let marked = record (receipt_of fingerprint call event) { processed = true } in
          ingest-seen fingerprint again event s' marked
            (validate-later call.engine.now again.engine.now event le new.0)
            (rw new.1 (find_webhook_event-stored fingerprint call event s alone fresh f)) refl
      | inr (e, f) ↦
          let old = ingest-duplicate fingerprint call event s s' first e f h in
          ingest-seen fingerprint again event s' e
            (validate-later call.engine.now again.engine.now event le old.0) (rw old.1 f)
            ((string_eq.same_iff e.payload_hash (fingerprint event)).0 old.2)
    ]
