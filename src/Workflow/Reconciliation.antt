-- ===== src/Workflow/Reconciliation.antt =====
-- `reconcile_case` and `reconcile_pending_cases` of
-- backend/app/services/payment_reconciliation_service.py.
pub mod Proved
use revenue_rescue_ai.Common.{
  List, Option, Result, String, [], err, filter, if◌then◌else◌, is_none, leb, length, nat_eq, none,
  ok, or_fail, some, string_eq, take, true, ℕ, ◌++◌, ◌+◌, ◌==◌, ◌>>=◌, ◌>>◌, ◌∷◌,
}
use revenue_rescue_ai.Enums.{
  ActorType, ExecutionStatus, ReconciliationStatus, RecoveryCaseState, TransactionStatus,
  recovery_case_state_eq,
}
use revenue_rescue_ai.Domain.{RecoveryCase, Transaction}
use revenue_rescue_ai.Store.{Store, find_case, find_transaction}
use revenue_rescue_ai.Workflow.Resolution.{
  ReconciliationCall, has_conflict, provider_ref, provider_status_of, resolve,
}
use revenue_rescue_ai.Workflow.Transition.{WorkflowError, audit_taken}

pub record ReconciliationReport : Type 0 where
  pub case_id : ℕ
  pub transaction_id : ℕ
  pub internal_status : TransactionStatus
  pub provider_status : ExecutionStatus
  pub status : ReconciliationStatus
  pub discrepancies : List String
  pub resolution_action : Option String

-- 6. The classification
unfoldable pub recon_status : List String → Option String → ReconciliationStatus
recon_status [] action = ReconciliationStatus.matched
recon_status (d ∷ ds) none = ReconciliationStatus.discrepancy_detected
recon_status (d ∷ ds) (some action) =
    if action == "ESCALATED_FOR_MANUAL_REVIEW"
    then ReconciliationStatus.escalated
    else ReconciliationStatus.resolved

-- 7. The audit row, whose number is the number of the case's rows plus one, with the state that the
-- case has by then; the commit refuses a number that is taken.
abbrev pub audit_reconciled :
    ReconciliationCall → ℕ → Option RecoveryCaseState → Store → Result WorkflowError Store
unfolding audit_taken
audit_reconciled call case_id state s =
    let n = length (filter (λ e. e.case_id == case_id) s.audit_events) + 1 in
    if audit_taken case_id n s.audit_events
    then err WorkflowError.integrity_error
    else ok record s {
      audit_events =
          s.audit_events
          ++ record {
            case_id = case_id;
            event_type = "PAYMENT_RECONCILED";
            from_state = state;
            to_state = state;
            actor_type = ActorType.system;
            actor_id = call.actor_id;
            correlation_id = call.correlation_id;
            event_time = call.now;
            sequence_number = n;
          }
            ∷ [];
    }

abbrev pub state_of : Option RecoveryCase → Option RecoveryCaseState
state_of none = none
state_of (some c) = some c.state

abbrev pub status_of : Option Transaction → TransactionStatus → TransactionStatus
status_of none old = old
status_of (some t) old = t.status

-- The discrepancies that are found before step 5
abbrev pub early_discrepancies : ReconciliationCall → Option String → Store → List String
unfolding has_conflict
early_discrepancies call ref s =
    (if is_none ref then "MISSING_PROVIDER_PAYMENT_REFERENCE" ∷ [] else [])
    ++ (if has_conflict call ref s then "CONFLICTING_WEBHOOK_EVENT_HISTORY" ∷ [] else [])

-- `reconcile_case`; the exceptions for a missing case and a missing transaction are one here.
unfoldable pub reconcile_case :
    ReconciliationCall → ℕ → Store → Result WorkflowError (ReconciliationReport × Store)
unfolding find_case find_transaction provider_ref provider_status_of early_discrepancies resolve
    audit_reconciled recon_status
reconcile_case call key s = do
  case ← or_fail (find_case key s) WorkflowError.case_not_found
  txn ← or_fail (find_transaction case.trigger_transaction_id s) WorkflowError.case_not_found
  let ref = provider_ref case.id txn s in
      let provider = provider_status_of call ref in
      let early = early_discrepancies call ref s in
      resolve call case txn provider s >>= λ r.
      audit_reconciled call case.id (state_of (find_case case.id r.0)) r.0 >>= λ s'. ok (
        record {
          case_id = case.id;
          transaction_id = txn.id;
          internal_status = status_of (find_transaction txn.id r.0) txn.status;
          provider_status = provider;
          status = recon_status (early ++ r.1) r.2;
          discrepancies = early ++ r.1;
          resolution_action = r.2;
        },
        s',
      )

-- `order_by(last_state_changed_at.asc())`, equal ones in the order of the table
abbrev pub insert_by_change : RecoveryCase → List RecoveryCase → List RecoveryCase
insert_by_change c [] = c ∷ []
insert_by_change c (r ∷ rs) =
    let rest = insert_by_change c rs in
    if leb c.last_state_changed_at r.last_state_changed_at then c ∷ r ∷ rs else r ∷ rest

unfoldable pub oldest_first : List RecoveryCase → List RecoveryCase
oldest_first [] = []
oldest_first (c ∷ cs) = insert_by_change c (oldest_first cs)

-- The reports, the exception that ended the loop if there was one, and the store with every commit
-- until then
abbrev pub Batch : Type 0
Batch = List ReconciliationReport × Option WorkflowError × Store

unfoldable pub reconcile_each : ReconciliationCall → List RecoveryCase → Store → Batch
unfolding reconcile_case
reconcile_each call [] s = ([], none, s)
reconcile_each call (c ∷ cs) s = elim (reconcile_case call c.id s) [
  | err e ↦ ([], some e, s)
  | ok r ↦ let rest = reconcile_each call cs r.1 in (r.0 ∷ rest.0, rest.1, rest.2)
]

-- `reconcile_pending_cases`, whose calls resolve automatically and have no actor
unfoldable pub reconcile_pending_cases : ReconciliationCall → ℕ → Store → Batch
unfolding reconcile_each oldest_first
reconcile_pending_cases call limit s =
    reconcile_each (record call { auto_resolve = true; actor_id = none })
      (take limit
        (oldest_first (filter (λ c. c.state == RecoveryCaseState.verification_pending) s.cases)))
      s
