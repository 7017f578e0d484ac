-- ===== src/Events/Engine/Steps.antt =====
-- What a whole delivery does to the ids and the keys of the case table, with the commits of other
-- workers in it.
use revenue_rescue_ai.Common.{
  Bool-cases, List, Option, String, contains, false, inl, inr, map, nat_eq, none, refl, some, true,
  ◌||◌, ◌∙◌, ◌≡◌, ◌⊎◌,
}
use revenue_rescue_ai.Domain.{Customer, RecoveryCase, Transaction}
use revenue_rescue_ai.Events.Canonical.{CanonicalEventDto}
use revenue_rescue_ai.Events.Engine.{
  create_new_case, find_existing_case, process_eligible, process_event, update_or_create,
}
use revenue_rescue_ai.Events.Engine.Unique.{
  IsKeyed, KeysStep, find_existing-found, handle_existing-OpensNothing,
  handle_succeeded-OpensNothing, has_case_key, insert_case-KeysStep,
}
use revenue_rescue_ai.Events.Keys.{
  EngineCall, derive_case_key, is_creation_eligible, is_resolution_eligible,
}
use revenue_rescue_ai.Events.Provision.{
  get_or_create_customer, get_or_create_transaction, keep_customer, keep_transaction,
  transaction_ref,
}
use revenue_rescue_ai.Store.{
  Store, find_by_case_key, find_case, find_customer_by_external_id, find_transaction_by_external_id,
}

-- The tables that the provision of an event leaves alone
abbrev pub SameHistory : Store → Store → Type 0
SameHistory s t =
    (t.cases ≡ s.cases)
    × (t.transitions ≡ s.transitions)
    × (t.executions ≡ s.executions)
    × (t.webhook_events ≡ s.webhook_events)

pub get_or_create_customer-SameHistory :
    (call : EngineCall) (event : CanonicalEventDto) (s : Store)
    → SameHistory s (get_or_create_customer call event s).1
unfolding get_or_create_customer
get_or_create_customer-SameHistory call event s =
    kept (find_customer_by_external_id event.provider event.customer_reference s)
  where
    kept : (o : Option Customer) → SameHistory s (keep_customer call event o s).1
    kept none = (refl, refl, refl, refl)
    kept (some c) = (refl, refl, refl, refl)

get_or_create_transaction-SameHistory :
    (call : EngineCall) (event : CanonicalEventDto) (customer : Customer) (s : Store)
    → SameHistory s (get_or_create_transaction call event customer s).1
unfolding get_or_create_transaction
get_or_create_transaction-SameHistory call event customer s =
    kept (find_transaction_by_external_id event.provider (transaction_ref event) s)
  where
    kept : (o : Option Transaction) → SameHistory s (keep_transaction call event customer.id o s).1
    kept none = (refl, refl, refl, refl)
    kept (some t) = (refl, refl, refl, refl)

-- The table that an insert meets: as it was, or as the other workers left it
abbrev pub IsBase : EngineCall → Store → Store → Type 0
IsBase call s base =
    (base.cases ≡ s.cases) ⊎ ((u : Store) × (u.cases ≡ s.cases) × (base ≡ call.others u))

-- The other workers keep the unique columns, do not use the id of this call, and delete no key.
abbrev pub Respects : EngineCall → Type 0
Respects call =
    ((t : Store) → IsKeyed t.cases → IsKeyed (call.others t).cases)
    × ((t : Store)
        → contains (map RecoveryCase.id t.cases) call.case_id ≡ false
        → contains (map RecoveryCase.id (call.others t).cases) call.case_id ≡ false)
    × ((key : String) (t : Store)
        → has_case_key key t.cases ≡ true
        → has_case_key key (call.others t).cases ≡ true)

-- What holds of the table before the call, and is kept by the others, holds of the base.
pub base-keeps :
    (Q : List RecoveryCase → Type 0) (call : EngineCall) (s base : Store)
    → IsBase call s base
    → ((t : Store) → Q t.cases → Q (call.others t).cases)
    → Q s.cases
    → Q base.cases
base-keeps Q call s base (inl e) f q = rw e q
base-keeps Q call s base (inr (u, e, o)) f q = rw o (f u (rw e q))

update_or_create-KeysStep :
    (call : EngineCall) (event : CanonicalEventDto) (customer : Customer) (tx : Transaction)
    → (o : Option RecoveryCase) (s : Store) → Respects call
    → IsKeyed s.cases
    → ((case : RecoveryCase) → o ≡ some case → find_case case.id s ≡ some case)
    → (base : Store) × IsBase call s base
      × KeysStep call event base (update_or_create call event customer tx o s)
unfolding create_new_case
update_or_create-KeysStep call event customer tx none s r k f = (
  call.others s,
  inr (s, refl, refl),
  insert_case-KeysStep call event customer tx
      (find_by_case_key (derive_case_key call.month_of event) (call.others s)) (call.others s)
      (r.0 s k) refl,
)
update_or_create-KeysStep call event customer tx (some case) s r k f =
    (s, inl refl, inl (handle_existing-OpensNothing call event case s (f case refl)))

-- The store after the customer and the transaction of the event are there
abbrev pub provisioned : EngineCall → CanonicalEventDto → Store → Store
provisioned call event s =
    (get_or_create_transaction call event (get_or_create_customer call event s).0
      (get_or_create_customer call event s).1).1

pub provisioned-SameHistory :
    (call : EngineCall) (event : CanonicalEventDto) (s : Store)
    → SameHistory s (provisioned call event s)
provisioned-SameHistory call event s =
    let c = get_or_create_customer call event s in
    let first = get_or_create_customer-SameHistory call event s in
    let second = get_or_create_transaction-SameHistory call event c.0 c.1 in
    (second.0 ∙ first.0, second.1 ∙ first.1, second.2 ∙ first.2, second.3 ∙ first.3)

pub provisioned-IsKeyed :
    (call : EngineCall) (event : CanonicalEventDto) (s : Store)
    → IsKeyed s.cases
    → IsKeyed (provisioned call event s).cases
provisioned-IsKeyed call event s k = rw (provisioned-SameHistory call event s).0 k

process_eligible-KeysStep :
    (call : EngineCall) (event : CanonicalEventDto) (s : Store)
    → Respects call
    → IsKeyed s.cases
    → (base : Store) × IsBase call (provisioned call event s) base
      × KeysStep call event base (process_eligible call event s)
unfolding process_eligible
process_eligible-KeysStep call event s r k =
    let c = get_or_create_customer call event s in
    let t = get_or_create_transaction call event c.0 c.1 in
    let existing = find_existing_case call event t.0 t.1 in
    let k' = provisioned-IsKeyed call event s k in
    let found = find_existing-found call event t.0 t.1 k' in
    elim (Bool-cases (is_resolution_eligible event)) [
      | inl e ↦
          rw e
            (t.1, inl refl, inl (handle_succeeded-OpensNothing call event existing t.0 t.1 found))
      | inr e ↦ rw e (update_or_create-KeysStep call event c.0 t.0 existing t.1 r k' found)
    ]

pub process_event-KeysStep :
    (call : EngineCall) (event : CanonicalEventDto) (s : Store)
    → Respects call
    → IsKeyed s.cases
    → (base : Store) × IsBase call s base × KeysStep call event base (process_event call event s)
unfolding process_event
process_event-KeysStep call event s r k =
    let step = process_eligible-KeysStep call event s r k in
    elim (Bool-cases (is_creation_eligible event || is_resolution_eligible event)) [
      | inl e ↦ rw e (step.0, rw (provisioned-SameHistory call event s).0 at step.1, step.2)
      | inr e ↦ rw e (s, inl refl, inl (refl, (refl, refl), λ k c f e. f))
    ]
