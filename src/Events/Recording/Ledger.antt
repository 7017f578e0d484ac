-- ===== src/Events/Recording/Ledger.antt =====
-- The table of receipts as the ledger of backend/app/services/verification.py: what both mean by an
-- event that has been seen.
use revenue_rescue_ai.Common.{
  ==_self, Bool, Bool-cases, List, Option, Option-cases, String, Text, [], arith, false, find?,
  if◌then◌else◌, inl, inr, map, none, refl, some, string_eq, true, ◌&&◌, ◌++◌, ◌==◌, ◌∷◌, ◌≡◌,
}
use revenue_rescue_ai.Domain.{ProviderWebhookEvent}
use revenue_rescue_ai.Events.Recording.{record_event, recorded_before}
use revenue_rescue_ai.Store.{Store, find_webhook_event}
use revenue_rescue_ai.Verification.{
  PayloadReader, Seen, WebhookReceipt, accept, accept_all, accept_found, get_seen, suppress,
}

-- A delivery: its provider, its id, and the payload that is hashed
pub record Delivery : Type 0 where
  pub provider : String
  pub event_id : String
  pub payload : Text

abbrev pub row_of : PayloadReader → Delivery → ProviderWebhookEvent
row_of reader d = record {
  id = 0;
  provider = d.provider;
  external_event_id = d.event_id;
  event_type = [];
  payload_hash = reader.sha256 d.payload;
  signature_verified = true;
  processed = false;
  ingestion_status = "ACCEPTED";
}

-- The dictionary that the receipts of a provider stand for
abbrev pub ledger_of : String → List ProviderWebhookEvent → Seen
ledger_of provider [] = []
ledger_of provider (e ∷ es) =
    let rest = ledger_of provider es in
    if e.provider == provider then (e.external_event_id, e.payload_hash) ∷ rest else rest

abbrev pub Verdict : Type 0
Verdict = Bool × Bool × String

-- The verdicts that the repository gives on the deliveries of one provider, among those of all
unfoldable pub verdicts_for : String → PayloadReader → List Delivery → Store → List Verdict
unfolding record_event
verdicts_for provider reader [] s = []
verdicts_for provider reader (d ∷ ds) s =
    let r = record_event (λ t. t) (row_of reader d) s in
    let rest = verdicts_for provider reader ds r.1 in
    if d.provider == provider then (r.0.accepted, r.0.duplicate, r.0.reason) ∷ rest else rest

abbrev pub deliveries_of : String → List Delivery → List (String × Text)
deliveries_of provider [] = []
deliveries_of provider (d ∷ ds) =
    let rest = deliveries_of provider ds in
    if d.provider == provider then (d.event_id, d.payload) ∷ rest else rest

abbrev pub verdict_of : WebhookReceipt → Verdict
verdict_of r = (r.accepted, r.duplicate, r.reason)

abbrev hash_of : Option ProviderWebhookEvent → Option String
hash_of none = none
hash_of (some e) = some e.payload_hash

get_seen-ledger_of :
    (provider key : String) (es : List ProviderWebhookEvent)
    → get_seen key (ledger_of provider es)
      ≡ hash_of (find? (λ r. r.provider == provider && r.external_event_id == key) es)
unfolding get_seen
get_seen-ledger_of provider key [] = refl
get_seen-ledger_of provider key (e ∷ es) = ground (arith, get_seen-ledger_of provider key es)

ledger_of-append :
    (provider : String) (es : List ProviderWebhookEvent) (e : ProviderWebhookEvent)
    → ledger_of provider (es ++ e ∷ []) ≡ (
        if e.provider == provider
        then ledger_of provider es ++ (e.external_event_id, e.payload_hash) ∷ []
        else ledger_of provider es)
ledger_of-append provider [] e = ground arith
ledger_of-append provider (x ∷ es) e = ground (arith, ledger_of-append provider es e)

-- One delivery of the provider: the same verdict, and the tables still agree.
same_delivery :
    (provider : String) (reader : PayloadReader) (d : Delivery) (s : Store)
    → (d.provider == provider) ≡ true
    → let r = record_event (λ t. t) (row_of reader d) s in
      let a = accept reader d.event_id d.payload (ledger_of provider s.webhook_events) in
      ((r.0.accepted, r.0.duplicate, r.0.reason) ≡ verdict_of a.0)
      × (ledger_of provider r.1.webhook_events ≡ a.1)
unfolding record_event recorded_before accept accept_found suppress find_webhook_event
same_delivery provider reader d s h =
    let same = (string_eq.same_iff d.provider provider).0 h in
    let seen = get_seen-ledger_of d.provider d.event_id s.webhook_events in
    let appended = ledger_of-append d.provider s.webhook_events (row_of reader d) in
    rw (← same)
      (elim (Option-cases (
        find? (λ r. r.provider == d.provider && r.external_event_id == d.event_id)
          s.webhook_events)) [
            | inl e ↦ rw (seen, e, e, appended, ==_self d.provider) (refl, refl)
            | inr e ↦ rw (seen, e.1) (refl, refl)
          ])

-- One delivery of another provider leaves what the provider's ledger knows.
other_delivery :
    (provider : String) (reader : PayloadReader) (d : Delivery) (s : Store)
    → (d.provider == provider) ≡ false
    → ledger_of provider (record_event (λ t. t) (row_of reader d) s).1.webhook_events
      ≡ ledger_of provider s.webhook_events
unfolding record_event
other_delivery provider reader d s h =
    elim (Option-cases (find_webhook_event d.provider d.event_id s)) [
      | inl e ↦ rw (e, e, ledger_of-append provider s.webhook_events (row_of reader d), h) refl
      | inr e ↦ rw e.1 refl
    ]

-- The repository implements the ledger for each provider: over any series of deliveries of all
-- providers, its verdicts on those of one provider are the receipts that the in-memory ledger gives
-- on that provider's deliveries alone, starting from what the table knows of the provider.
pub record_event-implements_accept :
    (provider : String) (reader : PayloadReader) (ds : List Delivery) (s : Store)
    → verdicts_for provider reader ds s
      ≡ map verdict_of
          (accept_all reader (deliveries_of provider ds) (ledger_of provider s.webhook_events))
unfolding accept_all verdicts_for
record_event-implements_accept provider reader [] s = refl
record_event-implements_accept provider reader (d ∷ ds) s =
    let s' = (record_event (λ t. t) (row_of reader d) s).1 in
    let rest = record_event-implements_accept provider reader ds s' in
    elim (Bool-cases (d.provider == provider)) [
      | inl e ↦ let same = same_delivery provider reader d s e in rw (e, rest, same.0, same.1) refl
      | inr e ↦ rw (e, rest, other_delivery provider reader d s e) refl
    ]
