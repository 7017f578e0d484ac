-- ===== src/Events/Engine/Settled.antt =====
-- Ended cases, payment successes, and failures that arrive after the success.
use revenue_rescue_ai.Common.{
  ==_self, Bool, Option, [], contains, false, find?, find?-append_none, inl, inr, nat_eq, none,
  refl, some, string_eq, true, ℕ, ◌++◌, ◌+◌, ◌==◌, ◌||◌, ◌∙◌, ◌∷◌, ◌≡◌,
}
use revenue_rescue_ai.Enums.{RecoveryCaseState, TransactionStatus, recovery_case_state_eq}
use revenue_rescue_ai.Domain.{CaseStateTransition, Customer, RecoveryCase, Transaction}
use revenue_rescue_ai.Events.Canonical.{CanonicalEventDto}
use revenue_rescue_ai.Events.Engine.{
  create_new_case, find_existing_case, insert_case, new_case, process_eligible, process_event,
  write_new_case,
}
use revenue_rescue_ai.Events.Engine.Steps.{
  Respects, base-keeps, get_or_create_customer-SameHistory, process_event-KeysStep,
  provisioned-IsKeyed, provisioned-SameHistory,
}
use revenue_rescue_ai.Events.Engine.Unique.{IsKeyed, find_existing-found}
use revenue_rescue_ai.Events.Handlers.{
  handle_payment_succeeded, recovered_case, recovered_row, write_recovered,
}
use revenue_rescue_ai.Events.Keys.{
  EngineCall, ProcessingResult, derive_case_key, is_creation_eligible, is_resolution_eligible,
  terminal_case_states,
}
use revenue_rescue_ai.Events.Provision.{
  get_or_create_customer, get_or_create_transaction, keep_customer, transaction_ref,
}
use revenue_rescue_ai.Store.{
  Store, find_by_case_key, find_by_trigger_transaction_id, find_case, find_customer_by_external_id,
  find_transaction_by_external_id, next_transition_sequence, record_audit,
}
use revenue_rescue_ai.Store.Laws.{find?-put_case_self}

-- No delivery changes the row of a case that is recovered, stopped or closed, as long as the other
-- workers do not.
pub process_event-terminal :
    (call : EngineCall) (event : CanonicalEventDto) (s : Store) (k : ℕ) (case : RecoveryCase)
    → Respects call
    → IsKeyed s.cases
    → ((t : Store) → find_case k t ≡ some case → find_case k (call.others t) ≡ some case)
    → find_case k s ≡ some case
    → contains terminal_case_states case.state ≡ true
    → find_case k (process_event call event s).1 ≡ some case
unfolding find_case
process_event-terminal call event s k case r w keep f e =
    let step = process_event-KeysStep call event s r w in
    let f' = base-keeps (λ rs. find? (λ c. c.id == k) rs ≡ some case) call s step.0 step.1 keep f in
    elim step.2 [ inl h ↦ h.2 k case f' e | inr h ↦ h.4 k case f' e ]

or_true : (b : Bool) → (b || true) ≡ true
or_true true = refl
or_true false = refl

-- A payment success for a case that is not ended resolves it: its row is in the state recovered,
-- closed and changed at the time of the call, with the next version and the same trigger; one row from its old state is added to its history under the next number, and nothing is
-- executed.
pub process_event-resolves :
    (call : EngineCall) (event : CanonicalEventDto) (s : Store) (case : RecoveryCase)
    → IsKeyed s.cases
    → is_resolution_eligible event ≡ true
    → let c = get_or_create_customer call event s in
      let t = get_or_create_transaction call event c.0 c.1 in
      find_existing_case call event t.0 t.1 ≡ some case
      → contains terminal_case_states case.state ≡ false
      → let r = process_event call event s in
        (r.0.outcome ≡ ProcessingResult.case_resolved)
        × ((case' : RecoveryCase) × (find_case case.id r.1 ≡ some case')
            × (case'.state ≡ RecoveryCaseState.recovered)
            × (case'.closed_at ≡ some call.now)
            × (case'.last_state_changed_at ≡ call.now)
            × (case'.version ≡ case.version + 1)
            × (case'.trigger_transaction_id ≡ case.trigger_transaction_id))
        × ((row : CaseStateTransition) × (r.1.transitions ≡ s.transitions ++ row ∷ [])
            × (row.case_id ≡ case.id)
            × (row.from_state ≡ some case.state)
            × (row.to_state ≡ RecoveryCaseState.recovered)
            × (row.sequence_number ≡ next_transition_sequence case.id s.transitions))
        × (r.1.executions ≡ s.executions)
unfolding process_event process_eligible handle_payment_succeeded write_recovered record_audit
    find_case
process_event-resolves call event s case w e f n =
    let c = get_or_create_customer call event s in
    let t = get_or_create_transaction call event c.0 c.1 in
    let same = provisioned-SameHistory call event s in
    let found =
      find_existing-found call event t.0 t.1 (provisioned-IsKeyed call event s w) case f in
    rw (e, or_true (is_creation_eligible event), f, n)
      (
        refl,
        (
          recovered_case call.now case,
          find?-put_case_self case.id (recovered_case call.now case) case t.1.cases refl found,
          refl,
          refl,
          refl,
          refl,
          refl,
        ),
        (recovered_row call case s.transitions, rw same.1 refl, refl, refl, refl, refl),
        same.2,
      )

get_or_create_customer-transactions :
    (call : EngineCall) (event : CanonicalEventDto) (s : Store)
    → (get_or_create_customer call event s).1.transactions ≡ s.transactions
unfolding get_or_create_customer
get_or_create_customer-transactions call event s =
    kept (find_customer_by_external_id event.provider event.customer_reference s)
  where
    kept : (o : Option Customer) → (keep_customer call event o s).1.transactions ≡ s.transactions
    kept none = refl
    kept (some c) = refl

get_or_create_transaction-known :
    (call : EngineCall) (event : CanonicalEventDto) (customer : Customer) (s : Store)
    → (tx : Transaction)
    → find_transaction_by_external_id event.provider (transaction_ref event) s ≡ some tx
    → get_or_create_transaction call event customer s ≡ (tx, s)
unfolding get_or_create_transaction
get_or_create_transaction-known call event customer s tx h = rw h refl

paid_found :
    (call : EngineCall) (event : CanonicalEventDto) (s : Store) (tx : Transaction)
    → find_transaction_by_external_id event.provider (transaction_ref event) s ≡ some tx
    → find_transaction_by_external_id event.provider
        (transaction_ref event)
        (get_or_create_customer call event s).1
      ≡ some tx
unfolding find_transaction_by_external_id
paid_found call event s tx h = rw (get_or_create_customer-transactions call event s) h

find_existing-none :
    (call : EngineCall) (event : CanonicalEventDto) (tx : Transaction) (s t : Store)
    → t.cases ≡ s.cases
    → find_by_case_key (derive_case_key call.month_of event) s ≡ none
    → find_by_trigger_transaction_id tx.id s ≡ none
    → find_existing_case call event tx t ≡ none
unfolding find_existing_case find_by_case_key find_by_trigger_transaction_id
find_existing-none call event tx s t e k u = rw (e, k, u) refl

create_new_case-alone :
    (call : EngineCall) (event : CanonicalEventDto) (customer : Customer) (tx : Transaction)
    → (s t : Store) → t.cases ≡ s.cases
    → call.others t ≡ t
    → find_by_case_key (derive_case_key call.month_of event) s ≡ none
    → create_new_case call event customer tx t ≡ insert_case call event customer tx none t
unfolding create_new_case find_by_case_key
create_new_case-alone call event customer tx s t e o k = rw (o, e, k) refl

find_by_case_key-inserted :
    (call : EngineCall) (event : CanonicalEventDto) (customer : Customer) (tx : Transaction)
    → (s t : Store) → t.cases ≡ s.cases
    → find_by_case_key (derive_case_key call.month_of event) s ≡ none
    → find_by_case_key
        (derive_case_key call.month_of event)
        (insert_case call event customer tx none t).1
      ≡ some (new_case call event customer tx)
unfolding find_by_case_key write_new_case record_audit
find_by_case_key-inserted call event customer tx s t e k =
    let key = derive_case_key call.month_of event in
    find?-append_none (λ r. r.case_key == key) t.cases (new_case call event customer tx ∷ [])
      (rw e k)
    ∙ rw (==_self key) refl

-- A failure that arrives after the success of its payment opens a case for a payment that has
-- succeeded, when no case has its key or its transaction and no other worker commits
-- meanwhile: only the update of an existing case looks at the status of the transaction.
pub late_failure-opens :
    (call : EngineCall) (event : CanonicalEventDto) (s : Store) (paid : Transaction)
    → ((t : Store) → call.others t ≡ t)
    → is_creation_eligible event ≡ true
    → is_resolution_eligible event ≡ false
    → find_transaction_by_external_id event.provider (transaction_ref event) s ≡ some paid
    → paid.status ≡ TransactionStatus.succeeded
    → find_by_case_key (derive_case_key call.month_of event) s ≡ none
    → find_by_trigger_transaction_id paid.id s ≡ none
    → let r = process_event call event s in
      (r.0.outcome ≡ ProcessingResult.case_created)
      × (find_by_case_key (derive_case_key call.month_of event) r.1
          ≡ some (new_case call event (get_or_create_customer call event s).0 paid))
unfolding process_event process_eligible
late_failure-opens call event s paid o c n t p k u =
    let customer = get_or_create_customer call event s in
    let same = get_or_create_customer-SameHistory call event s in
    let known =
      get_or_create_transaction-known call event customer.0 customer.1 paid
        (paid_found call event s paid t) in
    let none_there = find_existing-none call event paid s customer.1 same.0 k u in
    let opens =
      create_new_case-alone call event customer.0 paid s customer.1 same.0 (o customer.1) k in
    rw (c, n, known, none_there, opens)
      (refl, find_by_case_key-inserted call event customer.0 paid s customer.1 same.0 k)
