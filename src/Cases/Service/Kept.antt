-- ===== src/Cases/Service/Kept.antt =====
-- What the operations on one case promise: a created case is read back, no second case has its
-- transaction, an open case moves where it is told to, and ended cases are final.
use revenue_rescue_ai.Common.{
  ==_ne, ==_self, Bool, List, Option, [], ap, arith, contains, eqb_iff, err, false, find?,
  find?-append_none, find?-sound, if◌then◌else◌, is_none, nat_eq, none, ok, refl, some, string_eq,
  true, ℕ, ◌++◌, ◌+◌, ◌==◌, ◌∙◌, ◌∷◌, ◌≡◌, ◌≢◌,
}
use revenue_rescue_ai.Enums.{recovery_case_state_eq}
use revenue_rescue_ai.Cases.Service.{
  CaseServiceError, CaseStateTransitionDto, RecoveryCaseCreateDto, RecoveryCaseResponseDto,
  ServiceCall, create_case, get_by_case_key, get_case, state_row, to_entity, to_response,
  transition_state, transitioned, write_created, write_state,
}
use revenue_rescue_ai.Domain.{CaseStateTransition, Customer, RecoveryCase, Transaction}
use revenue_rescue_ai.Events.Keys.{terminal_case_states}
use revenue_rescue_ai.Store.{
  Store, find_by_case_key, find_by_trigger_transaction_id, find_case, find_customer,
  find_transaction, next_transition_sequence, record_audit,
}
use revenue_rescue_ai.Store.Laws.{find?-put_case_self}

is_none-none {ℓ} : {A : Type ℓ} (o : Option A) → is_none o ≡ true → o ≡ none
is_none-none none h = refl
is_none-none (some a) h = cc

-- When a creation succeeds, and with what
create_case-ok :
    (call : ServiceCall) (dto : RecoveryCaseCreateDto) (s : Store)
    → (r : RecoveryCaseResponseDto × Store) → create_case call dto s ≡ ok r
    → (is_none (find_by_trigger_transaction_id dto.trigger_transaction_id s) ≡ true)
      × (is_none (find_case call.case_id s) ≡ true)
      × (is_none (find_by_case_key (to_entity call dto).case_key s) ≡ true)
      × (r ≡ (to_response (to_entity call dto), write_created call (to_entity call dto) s))
unfolding create_case
create_case-ok call dto s r h = ground (arith, h)

-- The only row that passes a test is the one that was appended.
find?-last {ℓ} :
    {A : Type ℓ} (p : A → Bool) (xs : List A) (a : A)
    → is_none (find? p xs) ≡ true
    → p a ≡ true
    → find? p (xs ++ a ∷ []) ≡ some a
find?-last p xs a h e = find?-append_none p xs (a ∷ []) (is_none-none (find? p xs) h) ∙ rw e refl

find_case-created :
    (call : ServiceCall) (case : RecoveryCase) (s : Store)
    → is_none (find_case case.id s) ≡ true
    → find_case case.id (write_created call case s) ≡ some case
unfolding find_case record_audit
find_case-created call case s h = find?-last (λ r. r.id == case.id) s.cases case h (==_self case.id)

find_by_case_key-created :
    (call : ServiceCall) (case : RecoveryCase) (s : Store)
    → is_none (find_by_case_key case.case_key s) ≡ true
    → find_by_case_key case.case_key (write_created call case s) ≡ some case
unfolding find_by_case_key record_audit
find_by_case_key-created call case s h =
    find?-last (λ r. r.case_key == case.case_key) s.cases case h (==_self case.case_key)

find_by_trigger-created :
    (call : ServiceCall) (case : RecoveryCase) (s : Store)
    → is_none (find_by_trigger_transaction_id case.trigger_transaction_id s) ≡ true
    → find_by_trigger_transaction_id case.trigger_transaction_id (write_created call case s)
      ≡ some case
unfolding find_by_trigger_transaction_id record_audit
find_by_trigger-created call case s h =
    find?-last (λ r. r.trigger_transaction_id == case.trigger_transaction_id) s.cases case h
      (==_self case.trigger_transaction_id)

-- The answer to a creation is what a read by its id and a read by its key give afterwards.
pub create_case-get_case :
    (call : ServiceCall) (dto : RecoveryCaseCreateDto) (s s' : Store)
    → (response : RecoveryCaseResponseDto) → create_case call dto s ≡ ok (response, s')
    → (get_case response.id s' ≡ ok response) × (get_by_case_key response.case_key s' ≡ ok response)
unfolding get_case get_by_case_key to_entity
create_case-get_case call dto s s' response h =
    let f = create_case-ok call dto s (response, s') h in
    let case = to_entity call dto in
    rw (ap (λ r. r.0) f.3, ap (λ r. r.1) f.3)
      (
        rw (find_case-created call case s f.1) refl,
        rw (find_by_case_key-created call case s f.2) refl,
      )

-- After a creation no other creation for the same transaction succeeds.
pub create_case_twice :
    (call call' : ServiceCall) (dto dto' : RecoveryCaseCreateDto) (s s' : Store)
    → (response : RecoveryCaseResponseDto) (customer : Customer) (tx : Transaction)
    → create_case call dto s ≡ ok (response, s')
    → dto'.trigger_transaction_id ≡ dto.trigger_transaction_id
    → find_customer dto'.customer_id s' ≡ some customer
    → find_transaction dto'.trigger_transaction_id s' ≡ some tx
    → create_case call' dto' s' ≡ err CaseServiceError.duplicate_trigger
unfolding create_case to_entity
create_case_twice call call' dto dto' s s' response customer tx h e c t =
    let f = create_case-ok call dto s (response, s') h in
    let taken = find_by_trigger-created call (to_entity call dto) s f.0 in
    rw (c, t, e, ap (λ r. r.1) f.3, taken) refl

-- One call brings an open case to any other state, also to those that `_ALLOWED_TRANSITIONS` does
-- not give: the row has the state and the next version, one row of the history is
-- added under the next number, and the case is closed at that time exactly for a terminal state.
pub transition_state-moves :
    (call : ServiceCall) (key : ℕ) (dto : CaseStateTransitionDto) (s : Store) (case : RecoveryCase)
    → find_case key s ≡ some case
    → contains terminal_case_states case.state ≡ false
    → case.state ≢ dto.to_state
    → (r : RecoveryCaseResponseDto × Store) × (transition_state call key dto s ≡ ok r)
      × (find_case key r.1 ≡ some (transitioned call.now dto.to_state case))
      × (r.0.state ≡ dto.to_state)
      × (r.0.version ≡ case.version + 1)
      × (r.0.closed_at
          ≡ (if contains terminal_case_states dto.to_state then some call.now else case.closed_at))
      × ((row : CaseStateTransition) × (r.1.transitions ≡ s.transitions ++ row ∷ [])
          × (row.from_state ≡ some case.state)
          × (row.to_state ≡ dto.to_state)
          × (row.sequence_number ≡ next_transition_sequence case.id s.transitions))
unfolding transition_state find_case record_audit
transition_state-moves call key dto s case f n d =
    let new = transitioned call.now dto.to_state case in
    let same_id = (eqb_iff case.id key).0 (find?-sound (λ r. r.id == key) s.cases case f) in
    rw (f, n, ==_ne case.state dto.to_state d)
      (
        (to_response new, write_state call dto case s),
        refl,
        find?-put_case_self key new case s.cases same_id f,
        refl,
        refl,
        refl,
        (state_row call dto case s.transitions, refl, refl, refl, refl),
      )
