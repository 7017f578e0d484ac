-- ===== src/Workflow/Reconciliation/Proved.antt =====
-- What a reconciliation may do without the word of the gateway.
use revenue_rescue_ai.Common.{
  ==_ne, Bool, Bool-cases, Option, Option-cases, [], ap, arith, bind-ok, contains, false, inl, inr,
  not, ok, ok-injective, refl, some, sym, true, ℕ, ◌&&◌, ◌==◌, ◌∙◌, ◌∷◌, ◌≡◌, ◌≢◌,
}
use revenue_rescue_ai.Enums.{
  ExecutionStatus, RecoveryCaseState, TransactionStatus, execution_status_eq,
  recovery_case_state_eq, transaction_status_eq,
}
use revenue_rescue_ai.Domain.{RecoveryCase, Transaction}
use revenue_rescue_ai.Store.{Store, find_case, find_transaction}
use revenue_rescue_ai.Workflow.Reconciliation.{
  ReconciliationReport, audit_reconciled, reconcile_case, state_of,
}
use revenue_rescue_ai.Workflow.Resolution.{
  ReconciliationCall, Resolution, provider_ref, provider_status_of, recon_call, resolve,
  resolve_failed, resolve_unknown, resolved, retry_case, set_transaction,
}
use revenue_rescue_ai.Workflow.Transition.{TransitionCall, transition}
use revenue_rescue_ai.Workflow.Transition.Lifecycle.{transition-ok}

-- The case is as it was, or it was moved to a state other than RECOVERED.
abbrev NotRecovered : RecoveryCase → ℕ → Store → Type 0
NotRecovered case key s' =
    (case' : RecoveryCase)
    → find_case key s' ≡ some case'
    → case'.state ≡ RecoveryCaseState.recovered
    → case.state ≡ RecoveryCaseState.recovered

some-same {ℓ} : {A : Type ℓ} {a b : A} {o : Option A} → o ≡ some a → o ≡ some b → a ≡ b
some-same h h' = cc

find_case-NotRecovered :
    (case : RecoveryCase) (key : ℕ) (s' : Store)
    → find_case key s' ≡ some case
    → NotRecovered case key s'
find_case-NotRecovered case key s' f case' f' r =
    ap (λ (c : RecoveryCase). c.state) (some-same f f') ∙ r

transition-NotRecovered :
    (case : RecoveryCase) (to : RecoveryCaseState) (call : TransitionCall) (key : ℕ) (s s' : Store)
    → find_case key s ≡ some case
    → to ≢ RecoveryCaseState.recovered
    → transition case to call s ≡ ok s'
    → NotRecovered case key s'
transition-NotRecovered case to call key s s' f n h case' f' r =
    let moved = transition-ok case to call key s s' f h in
    absurd (n (sym moved.3 ∙ ap (λ (c : RecoveryCase). c.state) (some-same moved.2 f') ∙ r))

retry_case-NotRecovered :
    (call : ReconciliationCall) (case : RecoveryCase) (key : ℕ) (s s' : Store)
    → find_case key s ≡ some case
    → retry_case call case s ≡ ok s'
    → NotRecovered case key s'
unfolding retry_case
retry_case-NotRecovered call case key s s' f h =
    elim (Bool-cases (case.state == RecoveryCaseState.verification_pending)) [
      | inl e ↦
          transition-NotRecovered case RecoveryCaseState.retry_eligible
            (recon_call call "reconciled_provider_failure") key s s' f (λ q. cc) (rw e at h)
      | inr e ↦ find_case-NotRecovered case key s' (rw (ok-injective (rw e at h)) at f)
    ]

resolve_failed-NotRecovered :
    (call : ReconciliationCall) (case : RecoveryCase) (txn : Transaction) (key : ℕ) (s : Store)
    → (r : Resolution) → find_case key s ≡ some case
    → resolve_failed call case txn s ≡ ok r
    → NotRecovered case key r.0
unfolding resolve_failed set_transaction find_case
resolve_failed-NotRecovered call case txn key s r f h =
    let s₁ = set_transaction txn TransactionStatus.failed s in
    elim (Bool-cases call.auto_resolve) [
      | inl e ↦
          let done =
            bind-ok (retry_case call case s₁)
              (resolved ("INTERNAL_PENDING_PROVIDER_FAILED" ∷ []) "RESOLVED_TO_FAILED") r
              (rw e at h) in
          rw (← ok-injective done.2) (retry_case-NotRecovered call case key s₁ done.0 f done.1)
      | inr e ↦ rw (← ok-injective (rw e at h)) (find_case-NotRecovered case key s f)
    ]

resolve_unknown-NotRecovered :
    (call : ReconciliationCall) (case : RecoveryCase) (key : ℕ) (s : Store) (r : Resolution)
    → find_case key s ≡ some case
    → resolve_unknown call case s ≡ ok r
    → NotRecovered case key r.0
unfolding resolve_unknown
resolve_unknown-NotRecovered call case key s r f h =
    let reason = recon_call call "reconciliation_outcome_unknown" in
    let open_case =
      not (contains (RecoveryCaseState.escalated ∷ RecoveryCaseState.closed ∷ []) case.state) in
    elim (Bool-cases (call.auto_resolve && open_case)) [
      | inl e ↦
          let done =
            bind-ok (transition case RecoveryCaseState.escalated reason s)
              (resolved ("PROVIDER_STATUS_UNKNOWN" ∷ []) "ESCALATED_FOR_MANUAL_REVIEW") r
              (rw e at h) in
          rw (← ok-injective done.2) (
            transition-NotRecovered case RecoveryCaseState.escalated reason key s done.0 f (λ q. cc)
              done.1)
      | inr e ↦ rw (← ok-injective (rw e at h)) (find_case-NotRecovered case key s f)
    ]

and_false : (b : Bool) → (b && false) ≡ false
and_false true = refl
and_false false = refl

resolve-NotRecovered :
    (call : ReconciliationCall) (case : RecoveryCase) (txn : Transaction)
    → (provider : ExecutionStatus) (key : ℕ) (s : Store) (r : Resolution)
    → provider ≢ ExecutionStatus.succeeded
    → find_case key s ≡ some case
    → resolve call case txn provider s ≡ ok r
    → NotRecovered case key r.0
unfolding resolve
resolve-NotRecovered call case txn provider key s r n f h =
    let not_paid = ==_ne provider ExecutionStatus.succeeded n in
    let at_risk = contains (TransactionStatus.failed ∷ TransactionStatus.pending ∷ []) txn.status in
    let refused = txn.status == TransactionStatus.pending && provider == ExecutionStatus.failed in
    let h₁ = (rw (not_paid, and_false at_risk) at h) in
    elim (Bool-cases refused) [
      | inl e ↦ resolve_failed-NotRecovered call case txn key s r f (rw e at h₁)
      | inr e ↦ elim (Bool-cases (provider == ExecutionStatus.unknown)) [
        | inl u ↦ resolve_unknown-NotRecovered call case key s r f (rw (e, u) at h₁)
        | inr u ↦ rw (← ok-injective (rw (e, u) at h₁)) (find_case-NotRecovered case key s f)
      ]
    ]

audit_reconciled-cases :
    (call : ReconciliationCall) (case_id : ℕ) (state : Option RecoveryCaseState) (s s' : Store)
    → audit_reconciled call case_id state s ≡ ok s'
    → s'.cases ≡ s.cases
unfolding audit_reconciled
audit_reconciled-cases call case_id state s s' h = ground (arith, h)

found_in :
    (key : ℕ) (s t : Store) (case : RecoveryCase)
    → s.cases ≡ t.cases
    → find_case key s ≡ some case
    → find_case key t ≡ some case
unfolding find_case
found_in key s t case e f = rw (← e) f

-- A reconciliation makes a case recovered only on the word of the gateway: if the status that it
-- was given is not SUCCEEDED, a case that is recovered afterwards was so before.
pub reconcile_case-proved :
    (call : ReconciliationCall) (key : ℕ) (s s' : Store) (case case' : RecoveryCase)
    → (report : ReconciliationReport) → reconcile_case call key s ≡ ok (report, s')
    → report.provider_status ≢ ExecutionStatus.succeeded
    → find_case key s ≡ some case
    → find_case key s' ≡ some case'
    → case'.state ≡ RecoveryCaseState.recovered
    → case.state ≡ RecoveryCaseState.recovered
unfolding reconcile_case
reconcile_case-proved call key s s' case case' report h n f f' r =
    elim (Option-cases (find_transaction case.trigger_transaction_id s)) [
      | inl t ↦ absurd (cc (rw (f, t) at h))
      | inr (txn, t) ↦
          let provider = provider_status_of call (provider_ref case.id txn s) in
          let first = bind-ok (resolve call case txn provider s) _ (report, s') (rw (f, t) at h) in
          let state = state_of (find_case case.id first.0.0) in
          let second =
            bind-ok (audit_reconciled call case.id state first.0.0) _ (report, s') first.2 in
          let answer = ok-injective second.2 in
          let same_provider = ap (λ x. x.0.provider_status) answer in
          let same_cases =
            ap (λ (u : Store). u.cases) (sym (ap (λ x. x.1) answer))
            ∙ audit_reconciled-cases call case.id state first.0.0 second.0 second.1 in
          resolve-NotRecovered call case txn provider key s first.0 (λ q. n (sym same_provider ∙ q))
            f first.1 case' (found_in key s' first.0.0 case' same_cases f') r
    ]
