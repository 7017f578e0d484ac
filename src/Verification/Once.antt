-- ===== src/Verification/Once.antt =====
-- An event is accepted once, however often and in whatever order it is delivered.
use revenue_rescue_ai.Common.{
  Bool, List, Option-cases, String, Text, [], any, ap, arith, false, if◌then◌else◌, inl, inr, none,
  not, some, string_eq, true, ℕ, ◌&&◌, ◌++◌, ◌+◌, ◌==◌, ◌||◌, ◌∷◌, ◌≡◌,
}
use revenue_rescue_ai.Verification.{
  PayloadReader, Seen, WebhookReceipt, accept, accept_all, accept_found, check_missing, get_seen,
  suppress,
}

-- The receipts that accept the event.
pub count_accepted : String → List WebhookReceipt → ℕ
count_accepted key [] = 0
count_accepted key (r ∷ rs) =
    let rest = count_accepted key rs in if r.event_id == key && r.accepted then rest + 1 else rest

pub is_seen : String → Seen → Bool
is_seen key seen = not (check_missing (get_seen key seen))

is_seen-append :
    (key id hash : String) (seen : Seen)
    → is_seen key (seen ++ (id, hash) ∷ []) ≡ is_seen key seen || id == key
unfolding is_seen get_seen
is_seen-append key id hash [] = ground arith
is_seen-append key id hash ((i, h) ∷ seen) =
    let ih = is_seen-append key id hash seen in ground arith

is_seen-same :
    (id key : String) (seen : Seen) → (id == key) ≡ true → is_seen id seen ≡ is_seen key seen
is_seen-same id key seen h = ap (λ (k : String). is_seen k seen) ((string_eq.same_iff id key).0 h)

is_seen_missing : (id : String) (seen : Seen) → get_seen id seen ≡ none → is_seen id seen ≡ false
unfolding is_seen
is_seen_missing id seen e = rw e

is_seen_found :
    (id hash : String) (seen : Seen) → get_seen id seen ≡ some hash → is_seen id seen ≡ true
unfolding is_seen
is_seen_found id hash seen e = rw e

accept-new :
    (reader : PayloadReader) (id : String) (payload : Text) (seen : Seen)
    → get_seen id seen ≡ none
    → accept reader id payload seen ≡ accept_found reader id payload none seen
unfolding accept
accept-new reader id payload seen e = rw e

accept-known :
    (reader : PayloadReader) (id : String) (payload : Text) (hash : String) (seen : Seen)
    → get_seen id seen ≡ some hash
    → accept reader id payload seen ≡ accept_found reader id payload (some hash) seen
unfolding accept
accept-known reader id payload hash seen e = rw e

-- Of the deliveries of one event exactly the first is accepted, and none at all if the event was
-- seen before, whatever other events come in between and whatever the payloads are.
pub accept_all-once :
    (reader : PayloadReader) (key : String) (deliveries : List (String × Text)) (seen : Seen)
    → count_accepted key (accept_all reader deliveries seen)
      ≡ (if is_seen key seen then 0 else if any (λ d. d.0 == key) deliveries then 1 else 0)
unfolding accept_all count_accepted suppress accept_found
accept_all-once reader key [] seen = ground arith
accept_all-once reader key ((id, payload) ∷ rest) seen =
    let same = is_seen-same id key seen in
    elim (Option-cases (get_seen id seen)) [
      | inl e ↦
          let ih = accept_all-once reader key rest (seen ++ (id, reader.sha256 payload) ∷ []) in
          let grown = is_seen-append key id (reader.sha256 payload) seen in
          let fresh = is_seen_missing id seen e in
          rw (accept-new reader id payload seen e) (ground (arith, ih, grown, fresh, same))
      | inr (hash, e) ↦
          let ih = accept_all-once reader key rest seen in
          let known = is_seen_found id hash seen e in
          rw (accept-known reader id payload hash seen e) (ground (arith, ih, known, same))
    ]
