-- ===== src/Events/Engine/Receipts.antt =====
-- The engine leaves the receipts of webhook events alone.
use revenue_rescue_ai.Common.{
  Bool-cases, Option, ap, arith, inl, inr, none, refl, some, ◌||◌, ◌∙◌, ◌≡◌,
}
use revenue_rescue_ai.Domain.{Customer, RecoveryCase, Transaction}
use revenue_rescue_ai.Events.Canonical.{CanonicalEventDto}
use revenue_rescue_ai.Events.Engine.{
  create_new_case, find_existing_case, insert_case, process_eligible, process_event,
  update_or_create, write_new_case,
}
use revenue_rescue_ai.Events.Engine.Steps.{provisioned-SameHistory}
use revenue_rescue_ai.Events.Handlers.{
  handle_existing_case_update, handle_payment_succeeded, write_failed_again, write_recovered,
}
use revenue_rescue_ai.Events.Keys.{
  EngineCall, derive_case_key, is_creation_eligible, is_resolution_eligible,
}
use revenue_rescue_ai.Events.Provision.{get_or_create_customer, get_or_create_transaction}
use revenue_rescue_ai.Store.{Store, find_by_case_key, record_audit}

handle_existing-receipts :
    (call : EngineCall) (event : CanonicalEventDto) (case : RecoveryCase) (s : Store)
    → (handle_existing_case_update call event case s).1.webhook_events ≡ s.webhook_events
unfolding handle_existing_case_update write_failed_again record_audit
handle_existing-receipts call event case s = ground arith

handle_succeeded-receipts :
    (call : EngineCall) (event : CanonicalEventDto) (o : Option RecoveryCase) (tx : Transaction)
    → (s : Store) → (handle_payment_succeeded call event o tx s).1.webhook_events ≡ s.webhook_events
unfolding handle_payment_succeeded write_recovered record_audit
handle_succeeded-receipts call event none tx s = refl
handle_succeeded-receipts call event (some case) tx s = ground arith

insert_case-receipts :
    (call : EngineCall) (event : CanonicalEventDto) (customer : Customer) (tx : Transaction)
    → (o : Option RecoveryCase) (s : Store)
    → (insert_case call event customer tx o s).1.webhook_events ≡ s.webhook_events
unfolding write_new_case record_audit
insert_case-receipts call event customer tx none s = refl
insert_case-receipts call event customer tx (some case) s =
    handle_existing-receipts call event case s

update_or_create-receipts :
    (call : EngineCall) (event : CanonicalEventDto) (customer : Customer) (tx : Transaction)
    → (o : Option RecoveryCase) (s : Store) → call.others s ≡ s
    → (update_or_create call event customer tx o s).1.webhook_events ≡ s.webhook_events
unfolding create_new_case
update_or_create-receipts call event customer tx none s a =
    insert_case-receipts call event customer tx
      (find_by_case_key (derive_case_key call.month_of event) (call.others s)) (call.others s)
    ∙ ap (λ (t : Store). t.webhook_events) a
update_or_create-receipts call event customer tx (some case) s a =
    handle_existing-receipts call event case s

pub process_event-receipts :
    (call : EngineCall) (event : CanonicalEventDto) (s : Store)
    → ((t : Store) → call.others t ≡ t)
    → (process_event call event s).1.webhook_events ≡ s.webhook_events
unfolding process_event process_eligible
process_event-receipts call event s alone =
    let c = get_or_create_customer call event s in
    let t = get_or_create_transaction call event c.0 c.1 in
    let existing = find_existing_case call event t.0 t.1 in
    let same = provisioned-SameHistory call event s in
    elim (Bool-cases (is_creation_eligible event || is_resolution_eligible event)) [
      | inr e ↦ rw e refl
      | inl e ↦ elim (Bool-cases (is_resolution_eligible event)) [
        | inl r ↦ rw (e, r) (handle_succeeded-receipts call event existing t.0 t.1 ∙ same.3)
        | inr r ↦
            rw (e, r)
              (update_or_create-receipts call event c.0 t.0 existing t.1 (alone t.1) ∙ same.3)
      ]
    ]
