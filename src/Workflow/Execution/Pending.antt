-- ===== src/Workflow/Execution/Pending.antt =====
-- How many steps of a workflow are still to run, and that executing one makes it fewer.
use revenue_rescue_ai.Common.{
  Bool-cases, List, Option, [], arith, contains, false, filter, find?, if◌then◌else◌, inl, inr,
  length, nat_eq, refl, some, ℕ, ◌&&◌, ◌+◌, ◌<◌, ◌==◌, ◌∷◌, ◌≡◌, ◌≤◌,
}
use revenue_rescue_ai.Enums.{WorkflowStepStatus, workflow_step_status_eq}
use revenue_rescue_ai.Domain.{WorkflowStep}
use revenue_rescue_ai.Workflow.Execution.Run.{is_pending}
use revenue_rescue_ai.Workflow.Tables.{put_step_status, put_step_time}

-- The steps of the workflow that are pending or scheduled.
pub count_pending : ℕ → List WorkflowStep → ℕ
count_pending key [] = 0
count_pending key (t ∷ ts) =
    let rest = count_pending key ts in
    if t.workflow_id == key && is_pending t then rest + 1 else rest

-- A status that a step has once it has been taken up.
abbrev pub IsTakenUp : WorkflowStepStatus → Type 0
IsTakenUp status =
    contains (WorkflowStepStatus.pending ∷ WorkflowStepStatus.scheduled ∷ []) status ≡ false

pub put_step_status-fewer :
    (w key : ℕ) (status : WorkflowStepStatus) (at : Option ℕ) (ts : List WorkflowStep)
    → IsTakenUp status
    → count_pending w (put_step_status key status at ts) ≤ count_pending w ts
unfolding count_pending put_step_status
put_step_status-fewer w key status at [] h = omega arith
put_step_status-fewer w key status at (t ∷ ts) h =
    let ih = put_step_status-fewer w key status at ts h in ground arith

pub put_step_time-same :
    (w key at : ℕ) (ts : List WorkflowStep)
    → count_pending w (put_step_time key at ts) ≡ count_pending w ts
unfolding count_pending put_step_time
put_step_time-same w key at [] = refl
put_step_time-same w key at (t ∷ ts) = let ih = put_step_time-same w key at ts in ground arith

pub put_step_status-less :
    (w : ℕ) (status : WorkflowStepStatus) (at : Option ℕ) (t : WorkflowStep)
    → (ts : List WorkflowStep) → IsTakenUp status
    → find? is_pending (filter (λ x. x.workflow_id == w) ts) ≡ some t
    → count_pending w (put_step_status t.id status at ts) < count_pending w ts
unfolding count_pending put_step_status
put_step_status-less w status at t [] h f = cc
put_step_status-less w status at t (x ∷ ts) h f =
    let le = put_step_status-fewer w t.id status at ts h in
    let ih = put_step_status-less w status at t ts h in
    elim (Bool-cases (x.workflow_id == w)) [
      | inl a ↦ elim (Bool-cases (is_pending x)) [
        | inl b ↦ let e : x.id ≡ t.id = cc (rw (a, b) at f) in ground (arith, e, a, b, le)
        | inr b ↦ let lt = ih (rw (a, b) at f) in ground (arith, a, b, lt)
      ]
      | inr a ↦ let lt = ih (rw a at f) in ground (arith, a, lt)
    ]

pub count_pending-length :
    (w : ℕ) (ts : List WorkflowStep)
    → count_pending w ts ≤ length (filter (λ t. t.workflow_id == w) ts)
unfolding count_pending
count_pending-length w [] = omega arith
count_pending-length w (t ∷ ts) = let ih = count_pending-length w ts in ground arith
