-- ===== src/Workflow/Creation/Bounded.antt =====
-- What a created workflow is, and when one is created.
use revenue_rescue_ai.Common.{
  ==_self, All, Bool, List, Option-cases, [], arith, contains, err, false, find?, if◌then◌else◌,
  inl, inr, is_none, length, map, none, not, ok, refl, some, true, ℕ, ◌&&◌, ◌*◌, ◌++◌, ◌+◌, ◌==◌,
  ◌∷◌, ◌≡◌, ◌≤◌,
}
use revenue_rescue_ai.Enums.{
  ActionType, PolicyDecisionStatus, RecoveryCaseState, WorkflowStatus, WorkflowStepStatus,
  WorkflowStepType, workflow_step_type_eq,
}
use revenue_rescue_ai.Domain.{PolicyDecision, RecoveryCase, RecoveryWorkflow, WorkflowStep}
use revenue_rescue_ai.Store.{Store, find_case}
use revenue_rescue_ai.Workflow.Creation.{
  CreationCall, build_steps, create_workflow_for_decision, find_policy_decision_by_id, new_workflow,
  write_workflow,
}
use revenue_rescue_ai.Workflow.Tables.{find_active_by_case}
use revenue_rescue_ai.Workflow.Transition.{WorkflowError}

-- The steps are numbered from `n` on, belong to the workflow and wait.
abbrev pub Numbered : ℕ → ℕ → List WorkflowStep → Type 0
Numbered workflow n [] = Unit
Numbered workflow n (t ∷ ts) =
    (t.step_index ≡ n)
    × (t.workflow_id ≡ workflow)
    × (t.status ≡ WorkflowStepStatus.pending)
    × Numbered workflow (n + 1) ts

-- A step that reaches the customer or the payment provider.
abbrev pub is_dispatch : WorkflowStep → Bool
is_dispatch t =
    contains
      (WorkflowStepType.dispatch_payment_retry ∷ WorkflowStepType.dispatch_communication ∷ [])
      t.step_type

-- No dispatch stands before a validation.
abbrev pub validates_first : List WorkflowStep → Bool
validates_first [] = true
validates_first (t ∷ ts) =
    if t.step_type == WorkflowStepType.validate_authorization
    then true
    else not (is_dispatch t) && validates_first ts

-- For every action the steps are at most `max_steps`, numbered from 1 without a gap, all pending, and
-- no payment or message is dispatched before an authorisation step.
pub build_steps-IsBounded :
    (workflow first_id : ℕ) (action : ActionType)
    → (length (build_steps workflow first_id action) ≤ 10)
      × Numbered workflow 1 (build_steps workflow first_id action)
      × (validates_first (build_steps workflow first_id action) ≡ true)
unfolding build_steps
build_steps-IsBounded workflow first_id ActionType.none = ground arith
build_steps-IsBounded workflow first_id action = ground arith

-- The branch of a creation that goes through
create-inversion :
    (call : CreationCall) (decision_id : ℕ) (s s' : Store) (workflow : RecoveryWorkflow)
    → create_workflow_for_decision call decision_id s ≡ ok (workflow, s')
    → (decision : PolicyDecision) × (case : RecoveryCase) × (find_policy_decision_by_id decision_id
          s
        ≡ some decision)
      × (decision.decision_status ≡ PolicyDecisionStatus.approved)
      × (find_case decision.case_id s ≡ some case)
      × (case.state ≡ RecoveryCaseState.action_pending)
      × (find_active_by_case case.id s ≡ none)
      × (workflow ≡ new_workflow call decision case.id)
      × (s' ≡ write_workflow call decision case.id s)
unfolding create_workflow_for_decision
create-inversion call decision_id s s' workflow h =
    elim (Option-cases (find_policy_decision_by_id decision_id s)) [
      | inl e ↦ absurd (cc (rw e at h))
      | inr (decision, e) ↦ elim (Option-cases (find_case decision.case_id s)) [
        | inl e' ↦ absurd (ground (arith, e, e', h))
        | inr (case, e') ↦ (
          decision,
          case,
          ground (arith, h),
          ground (arith, h),
          ground (arith, h),
          ground (arith, h),
          ground (arith, h),
          ground (arith, h),
          ground (arith, h),
        )
      ]
    ]

-- What a workflow for the action does, step by step
abbrev pub plan : ActionType → List WorkflowStepType
plan ActionType.retry_payment =
    WorkflowStepType.validate_authorization ∷ WorkflowStepType.wait_cooldown
    ∷ WorkflowStepType.dispatch_payment_retry ∷ WorkflowStepType.await_verification ∷ []
plan ActionType.send_reminder =
    WorkflowStepType.validate_authorization ∷ WorkflowStepType.dispatch_communication ∷ []
plan ActionType.request_operator_review = WorkflowStepType.create_support_task ∷ []
plan ActionType.stop = []
plan ActionType.none = []

build_steps-plan :
    (workflow first_id : ℕ) (action : ActionType)
    → map WorkflowStep.step_type (build_steps workflow first_id action) ≡ plan action
unfolding build_steps
build_steps-plan workflow first_id ActionType.retry_payment = refl
build_steps-plan workflow first_id ActionType.send_reminder = refl
build_steps-plan workflow first_id ActionType.request_operator_review = refl
build_steps-plan workflow first_id ActionType.stop = refl
build_steps-plan workflow first_id ActionType.none = refl

build_steps-action :
    (workflow first_id : ℕ) (action : ActionType)
    → All (λ t. t.action_type ≡ action) (build_steps workflow first_id action)
unfolding build_steps
build_steps-action workflow first_id ActionType.retry_payment = (refl, (refl, (refl, (refl, tt))))
build_steps-action workflow first_id ActionType.send_reminder = (refl, (refl, tt))
build_steps-action workflow first_id ActionType.request_operator_review = (refl, tt)
build_steps-action workflow first_id ActionType.stop = tt
build_steps-action workflow first_id ActionType.none = tt

-- The new row and its steps: the row is of the case and the decision, waits to be run, and expires
-- after the hours of the call; the steps are those of the plan, numbered from 1 on, pending, and of
-- the decision's action. No row of a case changes.
abbrev pub Created :
    CreationCall → PolicyDecision → RecoveryCase → Store → Store → RecoveryWorkflow → Type 0
Created call decision case s s' workflow =
    (workflow.id ≡ call.workflow_id)
    × (workflow.case_id ≡ case.id)
    × (workflow.policy_decision_id ≡ decision.id)
    × (workflow.status ≡ WorkflowStatus.pending)
    × (workflow.max_steps ≡ 10)
    × (workflow.expires_at ≡ call.now + call.max_workflow_hours * 3_600_000_000)
    × (s'.workflows ≡ s.workflows ++ workflow ∷ [])
    × (s'.cases ≡ s.cases)
    × ((steps : List WorkflowStep) × (s'.steps ≡ s.steps ++ steps)
        × (map WorkflowStep.step_type steps ≡ plan decision.proposed_action)
        × Numbered call.workflow_id 1 steps
        × All (λ t. t.action_type ≡ decision.proposed_action) steps)

write_workflow-Created :
    (call : CreationCall) (decision : PolicyDecision) (case : RecoveryCase) (s : Store)
    → Created call decision case s
        (write_workflow call decision case.id s)
        (new_workflow call decision case.id)
unfolding write_workflow
write_workflow-Created call decision case s =
    let action = decision.proposed_action in
    (
      refl,
      refl,
      refl,
      refl,
      refl,
      refl,
      refl,
      refl,
      (
        build_steps call.workflow_id call.first_step_id action,
        refl,
        build_steps-plan call.workflow_id call.first_step_id action,
        (build_steps-IsBounded call.workflow_id call.first_step_id action).1,
        build_steps-action call.workflow_id call.first_step_id action,
      ),
    )

-- A workflow is created only from an approved decision, for a case that waits for its action and has
-- no active workflow. The new workflow is of that case and decision, waits to be run, and expires
-- after the hours of the call; its steps are those that the decision's action asks for, in order,
-- numbered from 1 on and pending; and no row of a case changes.
pub create-ok :
    (call : CreationCall) (decision_id : ℕ) (s s' : Store) (workflow : RecoveryWorkflow)
    → create_workflow_for_decision call decision_id s ≡ ok (workflow, s')
    → (decision : PolicyDecision) × (case : RecoveryCase) × (find_policy_decision_by_id decision_id
          s
        ≡ some decision)
      × (decision.decision_status ≡ PolicyDecisionStatus.approved)
      × (find_case decision.case_id s ≡ some case)
      × (case.state ≡ RecoveryCaseState.action_pending)
      × (find_active_by_case case.id s ≡ none)
      × Created call decision case s s' workflow
create-ok call decision_id s s' workflow h =
    let f = create-inversion call decision_id s s' workflow h in
    (f.0, f.1, f.2, f.3, f.4, f.5, f.6, rw (f.7, f.8) (write_workflow-Created call f.0 f.1 s))

find?-append_last {ℓ} :
    {A : Type ℓ} (p : A → Bool) (xs : List A) (a : A)
    → p a ≡ true
    → is_none (find? p (xs ++ a ∷ [])) ≡ false
find?-append_last p [] a h = rw h
find?-append_last p (x ∷ xs) a h = ground (arith, find?-append_last p xs a)

written-active :
    (call : CreationCall) (decision : PolicyDecision) (key : ℕ) (s : Store)
    → is_none (find_active_by_case key (write_workflow call decision key s)) ≡ false
unfolding find_active_by_case write_workflow
written-active call decision key s =
    find?-append_last _ s.workflows (new_workflow call decision key) (rw (==_self key))

created-active :
    (call : CreationCall) (decision_id : ℕ) (s s' : Store) (workflow : RecoveryWorkflow)
    → create_workflow_for_decision call decision_id s ≡ ok (workflow, s')
    → is_none (find_active_by_case workflow.case_id s') ≡ false
created-active call decision_id s s' workflow h =
    let f = create-inversion call decision_id s s' workflow h in
    rw (f.8, f.7) (written-active call f.0 f.1.id s)

-- Once a workflow has been created, its case has an active workflow, so a second creation for the
-- case fails, for whatever decision it is.
pub create_twice :
    (call call' : CreationCall) (decision_id decision_id' : ℕ) (s s' : Store)
    → (workflow : RecoveryWorkflow) (decision' : PolicyDecision) (case : RecoveryCase)
    → create_workflow_for_decision call decision_id s ≡ ok (workflow, s')
    → find_policy_decision_by_id decision_id' s' ≡ some decision'
    → decision'.decision_status ≡ PolicyDecisionStatus.approved
    → find_case decision'.case_id s' ≡ some case
    → case.id ≡ workflow.case_id
    → case.state ≡ RecoveryCaseState.action_pending
    → create_workflow_for_decision call' decision_id' s' ≡ err WorkflowError.workflow_already_active
unfolding create_workflow_for_decision
create_twice call call' decision_id decision_id' s s' workflow decision' case h d a c i st =
    rw (d, a, c, st, i, created-active call decision_id s s' workflow h)
