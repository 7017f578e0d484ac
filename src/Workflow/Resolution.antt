-- ===== src/Workflow/Resolution.antt =====
-- Steps 2 to 5 of `PaymentReconciliationService.reconcile_case`
-- (backend/app/services/payment_reconciliation_service.py): what the gateway says, and what is done about
-- it. The answer of the gateway to a status query, and the pattern match of the database on the ids of
-- webhook events, are arguments.
use revenue_rescue_ai.Common.{
  Bool, List, Option, Result, String, [], any, codes, contains, filter, first_of, given, has_prefix,
  if◌then◌else◌, leb, nat_eq, none, not, ok, or_else, some, text_beq, ℕ, ◌&&◌, ◌==◌, ◌>>=◌, ◌∷◌,
}
use revenue_rescue_ai.Enums.{
  ActorType, ExecutionStatus, RecoveryCaseState, TransactionStatus, execution_status_eq,
  recovery_case_state_eq, transaction_status_eq,
}
use revenue_rescue_ai.Domain.{RecoveryCase, RecoveryExecution, Transaction}
use revenue_rescue_ai.Store.{Store, put_case, put_transaction}
use revenue_rescue_ai.Workflow.Transition.{TransitionCall, WorkflowError, transition}

pub record ReconciliationCall : Type 0 where
  pub now : ℕ
  pub actor_id : Option String
  pub correlation_id : String
  pub auto_resolve : Bool
  pub retrieve_status : String → ExecutionStatus
  pub is_like : String → String → Bool

-- The execution with the greatest time, the first one among equals
unfoldable pub latest_execution : List RecoveryExecution → Option RecoveryExecution
latest_execution [] = none
latest_execution (e ∷ es) = elim (latest_execution es) [
  | none ↦ some e
  | some l ↦ if leb l.executed_at e.executed_at then some e else some l
]

abbrev pub reference_of : Option RecoveryExecution → Option String
unfolding given
reference_of none = none
reference_of (some e) = given e.external_reference

-- The reference of the transaction, if it is not one that the program has made
abbrev pub own_reference : Transaction → Option String
unfolding given
own_reference txn =
    if has_prefix txn.external_transaction_id "tx_"
    then none
    else given (some txn.external_transaction_id)

-- 2. `provider_ref`
unfoldable pub provider_ref : ℕ → Transaction → Store → Option String
unfolding latest_execution reference_of own_reference
provider_ref case_id txn s =
    first_of (reference_of (latest_execution (filter (λ e. e.case_id == case_id) s.executions)))
      (own_reference txn)

-- 3. The status that the gateway gives
unfoldable pub provider_status_of : ReconciliationCall → Option String → ExecutionStatus
provider_status_of call none = ExecutionStatus.unknown
provider_status_of call (some ref) = call.retrieve_status ref

-- 4. Whether the receipts that mention the reference conflict
unfoldable pub has_conflict : ReconciliationCall → Option String → Store → Bool
unfolding codes
has_conflict call ref s =
    let found = filter (λ w. call.is_like w.external_event_id (or_else ref "")) s.webhook_events in
    any (λ w. text_beq w.event_type (codes "PAYMENT_SUCCEEDED")) found
    && any (λ w. text_beq w.event_type (codes "PAYMENT_FAILED")) found

abbrev pub recon_call : ReconciliationCall → String → TransitionCall
unfolding codes
recon_call call reason = record {
  reason_code = codes reason;
  actor_type = ActorType.system;
  actor_id = call.actor_id;
  correlation_id = call.correlation_id;
  at = call.now;
}

-- What a branch of step 5 leaves: the store, the discrepancy it found, and the action it took
abbrev pub Resolution : Type 0
Resolution = Store × List String × Option String

abbrev pub resolved : List String → String → Store → Result WorkflowError Resolution
resolved found action s = ok (s, found, some action)

unfoldable pub set_transaction : Transaction → TransactionStatus → Store → Store
unfolding put_transaction
set_transaction txn status s = record s {
  transactions = put_transaction (record txn { status = status }) s.transactions;
}

-- `case.state = RECOVERED; case.closed_at = now`, with no history
abbrev pub set_recovered : ℕ → RecoveryCase → Store → Store
unfolding put_case
set_recovered now case s = record s {
  cases =
      put_case (record case { state = RecoveryCaseState.recovered; closed_at = some now }) s.cases;
}

-- The case of a payment that the gateway reports as successful
abbrev pub recover_case : ReconciliationCall → RecoveryCase → Store → Result WorkflowError Store
unfolding transition set_recovered recon_call
recover_case call case s =
    if contains (RecoveryCaseState.recovered ∷ RecoveryCaseState.closed ∷ []) case.state
    then ok s
    else if case.state == RecoveryCaseState.verification_pending
    then transition case RecoveryCaseState.recovered (recon_call call "reconciled_provider_success")
        s
    else ok (set_recovered call.now case s)

abbrev pub resolve_succeeded :
    ReconciliationCall → RecoveryCase → Transaction → Store → Result WorkflowError Resolution
unfolding recover_case set_transaction
resolve_succeeded call case txn s =
    let found = "INTERNAL_UNRESOLVED_PROVIDER_SUCCEEDED" ∷ [] in
    if call.auto_resolve
    then (recover_case call case (set_transaction txn TransactionStatus.succeeded s)
        >>= resolved found "RESOLVED_TO_SUCCEEDED")
    else ok (s, found, none)

unfoldable pub retry_case : ReconciliationCall → RecoveryCase → Store → Result WorkflowError Store
unfolding transition recon_call
retry_case call case s =
    if case.state == RecoveryCaseState.verification_pending
    then transition case RecoveryCaseState.retry_eligible
        (recon_call call "reconciled_provider_failure") s
    else ok s

unfoldable pub resolve_failed :
    ReconciliationCall → RecoveryCase → Transaction → Store → Result WorkflowError Resolution
unfolding retry_case set_transaction
resolve_failed call case txn s =
    let found = "INTERNAL_PENDING_PROVIDER_FAILED" ∷ [] in
    if call.auto_resolve
    then (retry_case call case (set_transaction txn TransactionStatus.failed s)
        >>= resolved found "RESOLVED_TO_FAILED")
    else ok (s, found, none)

unfoldable pub resolve_unknown :
    ReconciliationCall → RecoveryCase → Store → Result WorkflowError Resolution
unfolding transition recon_call
resolve_unknown call case s =
    let found = "PROVIDER_STATUS_UNKNOWN" ∷ [] in
    if call.auto_resolve
      && not (contains (RecoveryCaseState.escalated ∷ RecoveryCaseState.closed ∷ []) case.state)
    then (transition case RecoveryCaseState.escalated
          (recon_call call "reconciliation_outcome_unknown") s
        >>= resolved found "ESCALATED_FOR_MANUAL_REVIEW")
    else ok (s, found, none)

-- 5. The branches on the status of the transaction and of the provider
unfoldable pub resolve :
    ReconciliationCall
    → RecoveryCase
    → Transaction
    → ExecutionStatus
    → Store
    → Result WorkflowError Resolution
unfolding resolve_succeeded resolve_failed resolve_unknown
resolve call case txn provider s =
    if contains (TransactionStatus.failed ∷ TransactionStatus.pending ∷ []) txn.status
      && provider == ExecutionStatus.succeeded
    then resolve_succeeded call case txn s
    else if txn.status == TransactionStatus.pending && provider == ExecutionStatus.failed
    then resolve_failed call case txn s
    else if provider == ExecutionStatus.unknown
    then resolve_unknown call case s
    else ok (s, [], none)
