-- ===== src/Workflow/Transition/Runs.antt =====
-- Transitions of one case by `CaseTransitionService`, one after the other.
use mathlib.Core.Path.{subst}
use revenue_rescue_ai.Common.{
  List, Result, [], arith, bind-ok, inl, inr, length, ok, refl, some, true, ◌+◌, ◌>>=◌, ◌∷◌, ◌≡◌,
  ◌≤◌, ◌⊎◌,
}
use revenue_rescue_ai.Enums.{RecoveryCaseState}
use revenue_rescue_ai.Domain.{RecoveryCase}
use revenue_rescue_ai.Store.{Store, find_case}
use revenue_rescue_ai.Store.Laws.{find?-put_case_self}
use revenue_rescue_ai.Workflow.Transition.{
  TransitionCall, WorkflowError, moved, transition, write_transition,
}
use revenue_rescue_ai.Workflow.Transition.Lifecycle.{
  allowed, closed-stuck, is_settled, settled-step, transition-inversion, ◌⟶◌,
}

-- The calls in their order; each gets the row that the one before it left, and the first that is
-- refused ends the run.
unfoldable pub transition_all :
    List (RecoveryCaseState × TransitionCall)
    → RecoveryCase
    → Store
    → Result WorkflowError (RecoveryCase × Store)
unfolding transition moved
transition_all [] case s = ok (case, s)
transition_all (step ∷ rest) case s = do
  s' ← transition case step.0 step.1 s
  transition_all rest (moved step.0 step.1.at case) s'

transition-row :
    (case : RecoveryCase) (to : RecoveryCaseState) (call : TransitionCall) (s s' : Store)
    → find_case case.id s ≡ some case
    → transition case to call s ≡ ok s'
    → (case.state ⟶ to) × (find_case case.id s' ≡ some (moved to call.at case))
unfolding write_transition moved find_case
transition-row case to call s s' found done =
    let (a, e) = transition-inversion case to call s s' done in
    (allowed a, rw e (find?-put_case_self case.id _ case s.cases refl found))

stays_closed :
    (steps : List (RecoveryCaseState × TransitionCall)) (case case' : RecoveryCase) (s s' : Store)
    → case.state ≡ RecoveryCaseState.closed
    → find_case case.id s ≡ some case
    → transition_all steps case s ≡ ok (case', s')
    → (length steps ≡ 0) × (case' ≡ case) × (s' ≡ s)
unfolding transition_all
stays_closed [] case case' s s' c found h = (refl, cc, cc)
stays_closed (step ∷ rest) case case' s s' c found h =
    let (s1, done, next) = bind-ok (transition case step.0 step.1 s) _ (case', s') h in
    let moves = transition-row case step.0 step.1 s s1 found done in
    absurd (closed-stuck (subst (λ state. state ⟶ step.0) c moves.0))

-- Once a case is recovered, stopped or escalated, at most one more transition of it by
-- `CaseTransitionService` goes through, and none once it is closed: whatever list of calls succeeds
-- on its row, it holds at most one call, and the row that is left in the table is in the same state
-- or closed.
pub settled-run :
    (steps : List (RecoveryCaseState × TransitionCall)) (case case' : RecoveryCase) (s s' : Store)
    → is_settled case.state ≡ true
    → find_case case.id s ≡ some case
    → transition_all steps case s ≡ ok (case', s')
    → (length steps ≤ 1)
      × (find_case case.id s' ≡ some case')
      × ((case'.state ≡ case.state) ⊎ (case'.state ≡ RecoveryCaseState.closed))
      × (case'.version ≡ case.version + length steps)
unfolding transition_all moved
settled-run [] case case' s s' e found h =
    let same : case' ≡ case = cc in
    let kept : s' ≡ s = cc in
    (omega arith, rw (kept, same) found, inl (rw same refl), rw same (omega arith))
settled-run (step ∷ rest) case case' s s' e found h =
    let (s1, done, next) = bind-ok (transition case step.0 step.1 s) _ (case', s') h in
    let moves = transition-row case step.0 step.1 s s1 found done in
    let closes = settled-step case.state e moves.0 in
    let (none_left, same, kept) =
      stays_closed rest (moved step.0 step.1.at case) case' s1 s' closes moves.1 next in
    (
      omega (arith, none_left),
      rw (kept, same) moves.1,
      inr (rw same closes),
      rw same (omega (arith, none_left)),
    )
