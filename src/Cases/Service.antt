-- ===== src/Cases/Service.antt =====
-- `RecoveryCaseService` of backend/app/services/recovery_case_service.py: the operations on one case,
-- and the mapper that makes its answer. The commit of a new case meets the unique columns of
-- the table. Of the metadata the model has the entries that are numbers, and keeps of them the
-- one that the program reads.
pub mod Kept
pub mod Final
use revenue_rescue_ai.Common.{
  Bool, List, Option, Result, String, Text, [], contains, false, filter, given, guard,
  if◌then◌else◌, is_none, nat_eq, none, not, ok, or_else, or_fail, some, string_eq, true, ℕ, ◌&&◌,
  ◌++◌, ◌+◌, ◌==◌, ◌>>=◌, ◌>>◌, ◌||◌, ◌∷◌,
}
use revenue_rescue_ai.Enums.{ActorType, RecoveryCaseState, recovery_case_state_eq}
use revenue_rescue_ai.Domain.{CaseStateTransition, RecoveryCase}
use revenue_rescue_ai.Events.Keys.{terminal_case_states}
use revenue_rescue_ai.Store.{
  Store, find_by_case_key, find_by_trigger_transaction_id, find_case, find_customer,
  find_transaction, next_transition_sequence, put_case, record_audit,
}

pub record RecoveryCaseCreateDto : Type 0 where
  pub customer_id : ℕ
  pub trigger_transaction_id : ℕ
  pub case_key : Option String
  pub priority : ℕ
  pub metadata : List (String × ℕ)

pub record RecoveryCaseUpdateDto : Type 0 where
  pub priority : Option ℕ
  pub metadata : Option (List (String × ℕ))

pub record CaseStateTransitionDto : Type 0 where
  pub to_state : RecoveryCaseState
  pub reason_code : Text
  pub actor_type : ActorType
  pub correlation_id : String

pub record RecoveryCaseResponseDto : Type 0 where
  pub id : ℕ
  pub case_key : String
  pub customer_id : ℕ
  pub trigger_transaction_id : ℕ
  pub state : RecoveryCaseState
  pub priority : ℕ
  pub version : ℕ
  pub opened_at : ℕ
  pub last_state_changed_at : ℕ
  pub closed_at : Option ℕ

-- The application exceptions, and the `IntegrityError` of a commit
pub data CaseServiceError : Type 0 where
  customer_not_found transaction_not_found case_not_found : CaseServiceError
  duplicate_trigger duplicate_key : CaseServiceError
  invalid_state_transition integrity_error : CaseServiceError

-- The clock and the identifiers that `uuid4` gives
pub record ServiceCall : Type 0 where
  pub now : ℕ
  pub case_id : ℕ
  pub generated_key : String
  pub correlation_id : String

-- `RecoveryCaseMapper.to_response`, less the metadata
abbrev pub to_response : RecoveryCase → RecoveryCaseResponseDto
to_response c = record {
  id = c.id;
  case_key = c.case_key;
  customer_id = c.customer_id;
  trigger_transaction_id = c.trigger_transaction_id;
  state = c.state;
  priority = c.priority;
  version = c.version;
  opened_at = c.opened_at;
  last_state_changed_at = c.last_state_changed_at;
  closed_at = c.closed_at;
}

-- `meta.update(entries)`, for the entry that the program reads
unfoldable pub update_count : Option ℕ → List (String × ℕ) → Option ℕ
update_count count [] = count
update_count count (e ∷ es) = update_count (if e.0 == "failure_count" then some e.1 else count) es

-- `RecoveryCaseMapper.to_entity`
unfoldable pub to_entity : ServiceCall → RecoveryCaseCreateDto → RecoveryCase
unfolding update_count given
to_entity call dto = record {
  id = call.case_id;
  customer_id = dto.customer_id;
  trigger_transaction_id = dto.trigger_transaction_id;
  case_key = or_else (given dto.case_key) call.generated_key;
  state = RecoveryCaseState.detected;
  priority = dto.priority;
  opened_at = call.now;
  last_state_changed_at = call.now;
  closed_at = none;
  version = 1;
  failure_count = update_count none dto.metadata;
}

-- `dto.case_key is not None and find_by_case_key(dto.case_key) is not None`, negated
abbrev pub is_key_free : Option String → Store → Bool
unfolding find_by_case_key
is_key_free none s = true
is_key_free (some key) s = is_none (find_by_case_key key s)

-- The new case and its audit row
abbrev pub write_created : ServiceCall → RecoveryCase → Store → Store
unfolding record_audit
write_created call case s =
    record_audit case.id "CASE_OPENED" ActorType.system call.correlation_id none
      (some RecoveryCaseState.detected) (some "system.risk_detector") call.now
      record s { cases = s.cases ++ case ∷ [] }

-- `create_case`
unfoldable pub create_case :
    ServiceCall
    → RecoveryCaseCreateDto
    → Store
    → Result CaseServiceError (RecoveryCaseResponseDto × Store)
unfolding find_customer find_transaction find_by_trigger_transaction_id find_by_case_key find_case
    to_entity record_audit
create_case call dto s = do
  customer ← or_fail (find_customer dto.customer_id s) CaseServiceError.customer_not_found
  tx ←
      or_fail (find_transaction dto.trigger_transaction_id s) CaseServiceError.transaction_not_found
  guard (is_none (find_by_trigger_transaction_id dto.trigger_transaction_id s))
      CaseServiceError.duplicate_trigger
  guard (is_key_free dto.case_key s) CaseServiceError.duplicate_key
  guard
      (is_none (find_case call.case_id s)
        && is_none (find_by_case_key (to_entity call dto).case_key s))
      CaseServiceError.integrity_error
  ok (to_response (to_entity call dto), write_created call (to_entity call dto) s)

-- `get_case`
unfoldable pub get_case : ℕ → Store → Result CaseServiceError RecoveryCaseResponseDto
unfolding find_case
get_case key s = do
  case ← or_fail (find_case key s) CaseServiceError.case_not_found
  ok (to_response case)

-- `get_by_case_key`
unfoldable pub get_by_case_key : String → Store → Result CaseServiceError RecoveryCaseResponseDto
unfolding find_by_case_key
get_by_case_key key s = do
  case ← or_fail (find_by_case_key key s) CaseServiceError.case_not_found
  ok (to_response case)

-- The row after a transition: every terminal state closes the case.
abbrev pub transitioned : ℕ → RecoveryCaseState → RecoveryCase → RecoveryCase
transitioned now to case = record case {
  state = to;
  last_state_changed_at = now;
  version = case.version + 1;
  closed_at = if contains terminal_case_states to then some now else case.closed_at;
}

-- The row of the history of a transition
abbrev pub state_row :
    ServiceCall
    → CaseStateTransitionDto
    → RecoveryCase
    → List CaseStateTransition
    → CaseStateTransition
state_row call dto case ts = record {
  case_id = case.id;
  from_state = some case.state;
  to_state = dto.to_state;
  reason_code = dto.reason_code;
  actor_type = dto.actor_type;
  correlation_id = dto.correlation_id;
  occurred_at = call.now;
  sequence_number = next_transition_sequence case.id ts;
}

abbrev pub write_state : ServiceCall → CaseStateTransitionDto → RecoveryCase → Store → Store
write_state call dto case s =
    record_audit case.id "STATE_TRANSITION" dto.actor_type dto.correlation_id (some case.state)
      (some dto.to_state) none call.now
      record s {
        cases = put_case (transitioned call.now dto.to_state case) s.cases;
        transitions = s.transitions ++ state_row call dto case s.transitions ∷ [];
      }

-- `transition_state`
unfoldable pub transition_state :
    ServiceCall
    → ℕ
    → CaseStateTransitionDto
    → Store
    → Result CaseServiceError (RecoveryCaseResponseDto × Store)
unfolding find_case terminal_case_states record_audit
transition_state call key dto s = do
  case ← or_fail (find_case key s) CaseServiceError.case_not_found
  guard (not (contains terminal_case_states case.state)) CaseServiceError.invalid_state_transition
  guard (not (case.state == dto.to_state)) CaseServiceError.invalid_state_transition
  ok (to_response (transitioned call.now dto.to_state case), write_state call dto case s)

-- The keys that an update may not write
unfoldable pub restricted_keys : List String
restricted_keys =
    "id" ∷ "customer_id" ∷ "trigger_transaction_id" ∷ "case_key" ∷ "amount_minor" ∷ "currency"
    ∷ "recovered_amount_minor" ∷ "version" ∷ []

-- The priority that an update writes, and whether it differs
abbrev pub differs_priority : Option ℕ → RecoveryCase → Bool
differs_priority none case = false
differs_priority (some p) case = not (p == case.priority)

abbrev pub updated_count : Option (List (String × ℕ)) → Option ℕ → Option ℕ
updated_count none count = count
updated_count (some entries) count =
    update_count count (filter (λ e. not (contains restricted_keys e.0)) entries)

-- `not changes`: sent metadata counts as a change, even if nothing of it is kept.
abbrev pub has_changes : RecoveryCaseUpdateDto → RecoveryCase → Bool
has_changes dto case = differs_priority dto.priority case || not (is_none dto.metadata)

abbrev pub updated : ℕ → RecoveryCaseUpdateDto → RecoveryCase → RecoveryCase
updated now dto case = record case {
  priority = or_else dto.priority case.priority;
  failure_count = updated_count dto.metadata case.failure_count;
  last_state_changed_at = now;
  version = case.version + 1;
}

abbrev pub actor_of : Option String → ActorType
actor_of none = ActorType.system
actor_of (some a) = ActorType.operator

abbrev pub write_update :
    ServiceCall → RecoveryCaseUpdateDto → Option String → RecoveryCase → Store → Store
write_update call dto actor_id case s =
    record_audit case.id "CASE_UPDATED" (actor_of (given actor_id)) call.correlation_id
      (some case.state) (some case.state) (some (or_else (given actor_id) "system.case_service"))
      call.now record s { cases = put_case (updated call.now dto case) s.cases }

-- `update_case`
unfoldable pub update_case :
    ServiceCall
    → ℕ
    → RecoveryCaseUpdateDto
    → Option String
    → Store
    → Result CaseServiceError (RecoveryCaseResponseDto × Store)
unfolding find_case terminal_case_states given record_audit update_count restricted_keys
update_case call key dto actor_id s = do
  case ← or_fail (find_case key s) CaseServiceError.case_not_found
  guard (not (contains terminal_case_states case.state)) CaseServiceError.invalid_state_transition
  if has_changes dto case
      then ok (to_response (updated call.now dto case), write_update call dto actor_id case s)
      else ok (to_response case, s)
