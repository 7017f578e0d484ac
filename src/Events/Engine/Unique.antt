-- ===== src/Events/Engine/Unique.antt =====
-- The engine and the keys of the case table: ids and case keys stay unique, and of all deliveries that
-- derive one case key at most one opens a case.
use revenue_rescue_ai.Common.{
  Bool, Bool-cases, List, Option, String, [], contains, contains-map, distinct, false, find?,
  find?-append_some, first_of, inl, inr, map, map-append, nat_eq, none, refl, some, string_eq, true,
  ℕ, ◌++◌, ◌==◌, ◌∙◌, ◌∷◌, ◌≡◌, ◌⊎◌,
}
use revenue_rescue_ai.Enums.{recovery_case_state_eq}
use revenue_rescue_ai.Domain.{Customer, RecoveryCase, Transaction}
use revenue_rescue_ai.Events.Canonical.{CanonicalEventDto}
use revenue_rescue_ai.Events.Engine.{find_existing_case, insert_case, new_case, write_new_case}
use revenue_rescue_ai.Events.Handlers.{
  failed_again, handle_existing_case_update, handle_payment_succeeded, is_paid, recovered_case,
  write_failed_again, write_recovered,
}
use revenue_rescue_ai.Events.Keys.{
  CaseProcessingOutcome, EngineCall, ProcessingResult, derive_case_key, terminal_case_states,
}
use revenue_rescue_ai.Store.{
  Store, find_by_case_key, find_by_trigger_transaction_id, find_case, find_transaction, put_case,
  record_audit,
}
use revenue_rescue_ai.Store.Laws.{find?-by_id, find?-put_case_ne, map-put_case}

-- The two unique columns of the case table
abbrev pub IsKeyed : List RecoveryCase → Type 0
IsKeyed rs =
    (distinct (map RecoveryCase.id rs) ≡ true) × (distinct (map RecoveryCase.case_key rs) ≡ true)

abbrev pub has_case_key : String → List RecoveryCase → Bool
has_case_key key rs = contains (map RecoveryCase.case_key rs) key

abbrev pub SameKeys : List RecoveryCase → List RecoveryCase → Type 0
SameKeys rs rs' =
    (map RecoveryCase.id rs' ≡ map RecoveryCase.id rs)
    × (map RecoveryCase.case_key rs' ≡ map RecoveryCase.case_key rs)

abbrev pub is_created : ProcessingResult → Bool
is_created ProcessingResult.case_created = true
is_created _ = false

-- The rows of ended cases stay as they are.
abbrev pub KeepsEnded : List RecoveryCase → List RecoveryCase → Type 0
KeepsEnded rs rs' =
    (k : ℕ) (c : RecoveryCase)
    → find? (λ r. r.id == k) rs ≡ some c
    → contains terminal_case_states c.state ≡ true
    → find? (λ r. r.id == k) rs' ≡ some c

-- What a handler of an existing case does to the table and to the outcome
abbrev pub OpensNothing : List RecoveryCase → CaseProcessingOutcome × Store → Type 0
OpensNothing rs r =
    (is_created r.0.outcome ≡ false) × SameKeys rs r.1.cases × KeepsEnded rs r.1.cases

unchanged : (rs : List RecoveryCase) → SameKeys rs rs × KeepsEnded rs rs
unchanged rs = ((refl, refl), λ k c f e. f)

put_case-KeepsEnded :
    (c old : RecoveryCase) (rs : List RecoveryCase)
    → find? (λ r. r.id == old.id) rs ≡ some old
    → c.id ≡ old.id
    → contains terminal_case_states old.state ≡ false
    → KeepsEnded rs (put_case c rs)
put_case-KeepsEnded c old rs h i e k d f e' =
    find?-put_case_ne c k rs (λ q. absurd (cc (e, e', rw (q ∙ i) at f, h))) ∙ f

put_case-SameKeys :
    (c old : RecoveryCase) (rs : List RecoveryCase)
    → find? (λ r. r.id == old.id) rs ≡ some old
    → c.id ≡ old.id
    → c.case_key ≡ old.case_key
    → SameKeys rs (put_case c rs)
put_case-SameKeys c old rs h i k = (
  map-put_case RecoveryCase.id c old rs (rw i h) i,
  map-put_case RecoveryCase.case_key c old rs (rw i h) k,
)

pub handle_existing-OpensNothing :
    (call : EngineCall) (event : CanonicalEventDto) (case : RecoveryCase) (s : Store)
    → find_case case.id s ≡ some case
    → OpensNothing s.cases (handle_existing_case_update call event case s)
unfolding handle_existing_case_update write_failed_again record_audit find_case
handle_existing-OpensNothing call event case s h =
    let same = unchanged s.cases in
    elim (Bool-cases (contains terminal_case_states case.state)) [
      | inl e ↦ rw e (refl, same.0, same.1)
      | inr e ↦ elim (Bool-cases (is_paid (find_transaction case.trigger_transaction_id s))) [
        | inl p ↦ rw (e, p) (refl, same.0, same.1)
        | inr p ↦
            rw (e, p)
              (
                refl,
                put_case-SameKeys (failed_again call event case) case s.cases h refl refl,
                put_case-KeepsEnded (failed_again call event case) case s.cases h refl e,
              )
      ]
    ]

pub handle_succeeded-OpensNothing :
    (call : EngineCall) (event : CanonicalEventDto) (o : Option RecoveryCase) (tx : Transaction)
    → (s : Store) → ((case : RecoveryCase) → o ≡ some case → find_case case.id s ≡ some case)
    → OpensNothing s.cases (handle_payment_succeeded call event o tx s)
unfolding handle_payment_succeeded write_recovered record_audit find_case
handle_succeeded-OpensNothing call event none tx s h =
    (refl, (unchanged s.cases).0, (unchanged s.cases).1)
handle_succeeded-OpensNothing call event (some case) tx s h =
    let same = unchanged s.cases in
    elim (Bool-cases (contains terminal_case_states case.state)) [
      | inl e ↦ rw e (refl, same.0, same.1)
      | inr e ↦ rw e (
        refl,
        put_case-SameKeys (recovered_case call.now case) case s.cases (h case refl) refl refl,
        put_case-KeepsEnded (recovered_case call.now case) case s.cases (h case refl) refl e,
      )
    ]

first_of-some {ℓ} :
    {A : Type ℓ} (o o' : Option A) (a : A) → first_of o o' ≡ some a → (o ≡ some a) ⊎ (o' ≡ some a)
first_of-some none o' a h = inr h
first_of-some (some b) o' a h = inl h

-- The existing case that the engine finds is the row of its id.
pub find_existing-found :
    (call : EngineCall) (event : CanonicalEventDto) (tx : Transaction) (s : Store)
    → IsKeyed s.cases
    → (case : RecoveryCase) → find_existing_case call event tx s ≡ some case
    → find_case case.id s ≡ some case
unfolding find_existing_case find_by_case_key find_by_trigger_transaction_id find_case
find_existing-found call event tx s k case h =
    let by_key = find_by_case_key (derive_case_key call.month_of event) s in
    let by_transaction = find_by_trigger_transaction_id tx.id s in
    elim (first_of-some by_key by_transaction case h) [
      | inl e ↦
          find?-by_id (λ r. r.case_key == derive_case_key call.month_of event) s.cases case k.0 e
      | inr e ↦ find?-by_id (λ r. r.trigger_transaction_id == tx.id) s.cases case k.0 e
    ]

-- What one delivery does to the two columns: nothing, or it appends a row with a key that is new.
abbrev pub KeysStep :
    EngineCall → CanonicalEventDto → Store → CaseProcessingOutcome × Store → Type 0
KeysStep call event base r =
    OpensNothing base.cases r
    ⊎ ((is_created r.0.outcome ≡ true)
        × (has_case_key (derive_case_key call.month_of event) base.cases ≡ false)
        × (map RecoveryCase.id r.1.cases ≡ map RecoveryCase.id base.cases ++ call.case_id ∷ [])
        × (map RecoveryCase.case_key r.1.cases
            ≡ map RecoveryCase.case_key base.cases ++ derive_case_key call.month_of event ∷ [])
        × KeepsEnded base.cases r.1.cases)

pub insert_case-KeysStep :
    (call : EngineCall) (event : CanonicalEventDto) (customer : Customer) (tx : Transaction)
    → (o : Option RecoveryCase) (s : Store) → IsKeyed s.cases
    → find_by_case_key (derive_case_key call.month_of event) s ≡ o
    → KeysStep call event s (insert_case call event customer tx o s)
unfolding find_by_case_key write_new_case record_audit find_case
insert_case-KeysStep call event customer tx none s k h = inr (
  refl,
  contains-map RecoveryCase.case_key (derive_case_key call.month_of event) s.cases h,
  map-append RecoveryCase.id s.cases (new_case call event customer tx ∷ []),
  map-append RecoveryCase.case_key s.cases (new_case call event customer tx ∷ []),
  λ k c f e. find?-append_some (λ r. r.id == k) s.cases (new_case call event customer tx ∷ []) c f,
)
insert_case-KeysStep call event customer tx (some case) s k h = inl (
    handle_existing-OpensNothing call event case s
      (find?-by_id (λ r. r.case_key == derive_case_key call.month_of event) s.cases case k.0 h))
