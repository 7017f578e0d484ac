-- ===== src/Cases/Service/Final.antt =====
-- Sequences of the service's operations, where a refused one leaves the store as it was.
use revenue_rescue_ai.Common.{
  Bool, List, Option, Option-cases, Result, String, [], arith, contains, eqb_iff, err, false, find?,
  find?-append_some, find?-sound, inl, inr, nat_eq, ok, some, sym, true, ℕ, ◌==◌, ◌∙◌, ◌∷◌, ◌≡◌,
}
use revenue_rescue_ai.Enums.{recovery_case_state_eq}
use revenue_rescue_ai.Cases.Service.{
  CaseServiceError, CaseStateTransitionDto, RecoveryCaseCreateDto, RecoveryCaseResponseDto,
  RecoveryCaseUpdateDto, ServiceCall, create_case, to_entity, transition_state, transitioned,
  update_case, updated,
}
use revenue_rescue_ai.Domain.{RecoveryCase}
use revenue_rescue_ai.Events.Keys.{terminal_case_states}
use revenue_rescue_ai.Store.{Store, find_case, put_case, record_audit}
use revenue_rescue_ai.Store.Laws.{find?-put_case_ne}

pub data CaseOperation : Type 0 where
  create : ServiceCall → RecoveryCaseCreateDto → CaseOperation
  move : ServiceCall → ℕ → CaseStateTransitionDto → CaseOperation
  update : ServiceCall → ℕ → RecoveryCaseUpdateDto → Option String → CaseOperation

abbrev pub committed : Result CaseServiceError (RecoveryCaseResponseDto × Store) → Store → Store
committed (ok r) s = r.1
committed (err e) s = s

unfoldable pub run_operation : CaseOperation → Store → Store
unfolding create_case transition_state update_case
run_operation (CaseOperation.create call dto) s = committed (create_case call dto s) s
run_operation (CaseOperation.move call key dto) s = committed (transition_state call key dto s) s
run_operation (CaseOperation.update call key dto actor_id) s =
    committed (update_case call key dto actor_id s) s

unfoldable pub run_operations : List CaseOperation → Store → Store
unfolding run_operation
run_operations [] s = s
run_operations (o ∷ os) s = run_operations os (run_operation o s)

abbrev is_ended : RecoveryCase → Bool
unfolding terminal_case_states
is_ended case = contains terminal_case_states case.state

-- Writing a row of an open case leaves an ended case.
put_case-ended :
    (key k : ℕ) (case open_case new : RecoveryCase) (rs : List RecoveryCase)
    → find? (λ r. r.id == k) rs ≡ some case
    → is_ended case ≡ true
    → find? (λ r. r.id == key) rs ≡ some open_case
    → is_ended open_case ≡ false
    → new.id ≡ open_case.id
    → find? (λ r. r.id == k) (put_case new rs) ≡ some case
put_case-ended key k case open_case new rs f e g n i =
    let same_id = (eqb_iff open_case.id key).0 (find?-sound (λ r. r.id == key) rs open_case g) in
    find?-put_case_ne new k rs (λ q. absurd (cc (f, e, n, rw (sym (q ∙ i ∙ same_id)) at g))) ∙ f

create-ended :
    (call : ServiceCall) (dto : RecoveryCaseCreateDto) (s : Store) (k : ℕ) (case : RecoveryCase)
    → find_case k s ≡ some case
    → find_case k (committed (create_case call dto s) s) ≡ some case
unfolding find_case create_case record_audit
create-ended call dto s k case f =
    ground (arith, f, find?-append_some (λ r. r.id == k) s.cases (to_entity call dto ∷ []) case f)

transition-ended :
    (call : ServiceCall) (key : ℕ) (dto : CaseStateTransitionDto) (s : Store) (k : ℕ)
    → (case : RecoveryCase) → find_case k s ≡ some case
    → is_ended case ≡ true
    → find_case k (committed (transition_state call key dto s) s) ≡ some case
unfolding find_case transition_state record_audit
transition-ended call key dto s k case f e = elim (Option-cases (find_case key s)) [
  | inl g ↦ rw g f
  | inr (other, g) ↦
      let kept =
        put_case-ended key k case other (transitioned call.now dto.to_state other) s.cases f e g in
      ground (arith, g, f, kept)
]

update-ended :
    (call : ServiceCall) (key : ℕ) (dto : RecoveryCaseUpdateDto) (actor_id : Option String)
    → (s : Store) (k : ℕ) (case : RecoveryCase) → find_case k s ≡ some case
    → is_ended case ≡ true
    → find_case k (committed (update_case call key dto actor_id s) s) ≡ some case
unfolding find_case update_case record_audit
update-ended call key dto actor_id s k case f e = elim (Option-cases (find_case key s)) [
  | inl g ↦ rw g f
  | inr (other, g) ↦
      let kept = put_case-ended key k case other (updated call.now dto other) s.cases f e g in
      ground (arith, g, f, kept)
]

operation-ended :
    (o : CaseOperation) (s : Store) (k : ℕ) (case : RecoveryCase)
    → find_case k s ≡ some case
    → is_ended case ≡ true
    → find_case k (run_operation o s) ≡ some case
unfolding run_operation
operation-ended (CaseOperation.create call dto) s k case f e = create-ended call dto s k case f
operation-ended (CaseOperation.move call key dto) s k case f e =
    transition-ended call key dto s k case f e
operation-ended (CaseOperation.update call key dto actor_id) s k case f e =
    update-ended call key dto actor_id s k case f e

-- A recovered, stopped or closed case is final: no sequence of creations, transitions and updates of
-- whatever cases changes anything in its row.
pub run_operations-final :
    (os : List CaseOperation) (s : Store) (k : ℕ) (case : RecoveryCase)
    → find_case k s ≡ some case
    → contains terminal_case_states case.state ≡ true
    → find_case k (run_operations os s) ≡ some case
unfolding run_operations
run_operations-final [] s k case f e = f
run_operations-final (o ∷ os) s k case f e =
    run_operations-final os (run_operation o s) k case (operation-ended o s k case f e) e
