-- ===== src/Verification.antt =====
-- `WebhookEventLedger` and `RecoveryAttributor` of backend/app/services/verification.py.
pub mod Once
pub mod Attribution
use revenue_rescue_ai.Common.{
  Bool, List, Option, String, Text, [], false, if◌then◌else◌, leb, nat_eq, none, not, some,
  string_eq, true, ℕ, ◌&&◌, ◌*◌, ◌++◌, ◌+◌, ◌==◌, ◌∷◌,
}
use revenue_rescue_ai.Policy.Config.{hour}

-- What the ledger takes from libraries: the SHA-256 of a payload, and the event type that
-- `json.loads` finds in it, with "unknown" where it fails.
pub record PayloadReader : Type 0 where
  pub sha256 : Text → String
  pub event_type : Text → String

pub record WebhookReceipt : Type 0 where
  pub event_id : String
  pub event_type : String
  pub payload_hash : String
  pub accepted : Bool
  pub duplicate : Bool
  pub reason : String

-- `_seen`, a dictionary from event ids to hashes
abbrev pub Seen : Type 0
Seen = List (String × String)

unfoldable pub get_seen : String → Seen → Option String
get_seen key [] = none
get_seen key ((id, hash) ∷ seen) = if id == key then some hash else get_seen key seen

-- The receipts of an event whose id has been seen.
unfoldable pub suppress : String → String → String → WebhookReceipt
suppress event_id payload_hash previous = record {
  event_id = event_id;
  event_type = "unknown";
  payload_hash = payload_hash;
  accepted = false;
  duplicate = true;
  reason =
      if not (previous == payload_hash)
      then "event_id_reused_with_different_payload"
      else "duplicate_event_suppressed";
}

unfoldable pub accept_found :
    PayloadReader → String → Text → Option String → Seen → WebhookReceipt × Seen
accept_found reader event_id payload (some previous) seen =
    (suppress event_id (reader.sha256 payload) previous, seen)
accept_found reader event_id payload none seen = (
  record {
    event_id = event_id;
    event_type = reader.event_type payload;
    payload_hash = reader.sha256 payload;
    accepted = true;
    duplicate = false;
    reason = "accepted";
  },
  seen ++ (event_id, reader.sha256 payload) ∷ [],
)

-- `WebhookEventLedger.accept`, under its lock
unfoldable pub accept : PayloadReader → String → Text → Seen → WebhookReceipt × Seen
accept reader event_id payload seen =
    accept_found reader event_id payload (get_seen event_id seen) seen

-- A series of deliveries, in the order in which they take the lock.
unfoldable pub accept_all : PayloadReader → List (String × Text) → Seen → List WebhookReceipt
accept_all reader [] seen = []
accept_all reader ((event_id, payload) ∷ rest) seen =
    let (receipt, seen') = accept reader event_id payload seen in
    receipt ∷ accept_all reader rest seen'

-- The arguments of `attribute`.
pub record RecoveryClaim : Type 0 where
  pub intervention_id : String
  pub failed_transaction_id : String
  pub successful_transaction_id : String
  pub provider_event_id : String
  pub amount_minor : ℕ
  pub successful_amount_minor : ℕ
  pub currency : String
  pub successful_currency : String
  pub failed_at : ℕ
  pub verified_at : ℕ
  pub provider_signature_valid : Bool
  pub intervention_created_at : Option ℕ
  pub window_hours : ℕ

pub record RecoveryEvidence : Type 0 where
  pub intervention_id : String
  pub provider_event_id : String
  pub failed_transaction_id : String
  pub successful_transaction_id : String
  pub amount_minor : ℕ
  pub currency : String
  pub verified_at : ℕ
  pub attribution_window_hours : ℕ
  pub attributable : Bool
  pub reason : String

-- `intervention_created_at or failed_at`
unfoldable pub window_start : RecoveryClaim → ℕ
window_start claim = elim claim.intervention_created_at [ none ↦ claim.failed_at | some t ↦ t ]

unfoldable pub within_window : RecoveryClaim → Bool
within_window claim =
    leb (window_start claim) claim.verified_at
    && leb claim.verified_at (window_start claim + claim.window_hours * hour)

unfoldable pub checks : RecoveryClaim → List (Bool × String)
checks claim =
    (claim.provider_signature_valid, "provider_signature_invalid")
    ∷ (claim.amount_minor == claim.successful_amount_minor, "amount_mismatch")
    ∷ (claim.currency == claim.successful_currency, "currency_mismatch")
    ∷ (within_window claim, "outside_attribution_window")
    ∷ (
      not (claim.failed_transaction_id == claim.successful_transaction_id),
      "same_transaction_not_recovery",
    )
    ∷ []

-- `next((reason for passed, reason in checks if not passed), None)`
unfoldable pub failed_check : List (Bool × String) → Option String
failed_check [] = none
failed_check ((passed, reason) ∷ rest) = if not passed then some reason else failed_check rest

abbrev pub check_missing : Option String → Bool
check_missing none = true
check_missing (some reason) = false

-- `RecoveryAttributor.attribute`
unfoldable pub attribute : RecoveryClaim → RecoveryEvidence
attribute claim = record {
  intervention_id = claim.intervention_id;
  provider_event_id = claim.provider_event_id;
  failed_transaction_id = claim.failed_transaction_id;
  successful_transaction_id = claim.successful_transaction_id;
  amount_minor = claim.successful_amount_minor;
  currency = claim.successful_currency;
  verified_at = claim.verified_at;
  attribution_window_hours = claim.window_hours;
  attributable = check_missing (failed_check (checks claim));
  reason = elim (failed_check (checks claim)) [
    | none ↦ "verified_intervention_link"
    | some reason ↦ reason
  ];
}
