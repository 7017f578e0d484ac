-- ===== src/Workflow/Transition/Lifecycle.antt =====
-- The life of a case under the allowed transitions.
use mathlib.Core.Path.{subst}
use revenue_rescue_ai.Common.{
  Bool, [], arith, contains, inl, inr, ok, refl, some, true, ℕ, ◌+◌, ◌∷◌, ◌≡◌, ◌≢◌, ◌⊎◌,
}
use revenue_rescue_ai.Enums.{RecoveryCaseState, recovery_case_state_eq}
use revenue_rescue_ai.Domain.{RecoveryCase}
use revenue_rescue_ai.Policy.Service.Effects.{find_case-id}
use revenue_rescue_ai.Store.{Store, find_case, next_transition_sequence}
use revenue_rescue_ai.Store.Laws.{find?-put_case_self}
use revenue_rescue_ai.Workflow.Transition.{
  TransitionCall, is_allowed, moved, transition, write_transition,
}

infix 40 ◌⟶◌ ◌⟶*◌
-- One allowed transition.
pub data ◌⟶◌ (from to : RecoveryCaseState) : Type 0 where
  allowed : is_allowed from to ≡ true → from ⟶ to

-- A run of allowed transitions.
pub data ◌⟶*◌ (from : RecoveryCaseState) : RecoveryCaseState → Type 0 where
  here : from ⟶* from
  next : {mid to : RecoveryCaseState} → from ⟶* mid → mid ⟶ to → from ⟶* to

pub transition-inversion :
    (case : RecoveryCase) (to : RecoveryCaseState) (call : TransitionCall) (s s' : Store)
    → transition case to call s ≡ ok s'
    → (is_allowed case.state to ≡ true)
      × (s' ≡ write_transition case to call (next_transition_sequence case.id s.transitions) s)
unfolding transition
transition-inversion case to call s s' h = ground arith

-- A transition that goes through is allowed, puts the case into the new state with the next version.
pub transition-ok :
    (case : RecoveryCase) (to : RecoveryCaseState) (call : TransitionCall) (k : ℕ) (s s' : Store)
    → find_case k s ≡ some case
    → transition case to call s ≡ ok s'
    → (case.state ⟶ to)
      × (case' : RecoveryCase) × (find_case k s' ≡ some case')
      × (case'.state ≡ to)
      × (case'.version ≡ case.version + 1)
unfolding write_transition moved find_case
transition-ok case to call k s s' found done =
    let (a, e) = transition-inversion case to call s s' done in
    (
      allowed a,
      moved to call.at case,
      rw e (find?-put_case_self k _ case s.cases (find_case-id k s case found) found),
      refl,
      refl,
    )

-- No transition leaves `closed`.
pub closed-stuck : {to : RecoveryCaseState} → RecoveryCaseState.closed ⟶ to → ⊥
unfolding is_allowed
closed-stuck (allowed h) = cc

-- What holds once a case is recovered, stopped or escalated: it stays there or is closed.
abbrev pub is_settled : RecoveryCaseState → Bool
is_settled state =
    contains
      (RecoveryCaseState.recovered ∷ RecoveryCaseState.stopped ∷ RecoveryCaseState.escalated
        ∷ RecoveryCaseState.closed ∷ [])
      state

pub settled-step :
    (from : RecoveryCaseState) {to : RecoveryCaseState}
    → is_settled from ≡ true
    → from ⟶ to
    → to ≡ RecoveryCaseState.closed
unfolding is_allowed
settled-step from h (allowed a) = ground arith

settled_next :
    {from mid to : RecoveryCaseState}
    → is_settled from ≡ true
    → (mid ≡ from) ⊎ (mid ≡ RecoveryCaseState.closed)
    → mid ⟶ to
    → to ≡ RecoveryCaseState.closed
settled_next {mid} h (inl e) step = settled-step mid (rw e h) step
settled_next {mid} h (inr e) step = settled-step mid (rw e refl) step

-- A run of allowed transitions that begins in a recovered, stopped or escalated state stays there or
-- ends in closed.
pub settled-absorbs :
    {from to : RecoveryCaseState}
    → is_settled from ≡ true
    → from ⟶* to
    → (to ≡ from) ⊎ (to ≡ RecoveryCaseState.closed)
settled-absorbs h here = inl refl
settled-absorbs h (next r step) = inr (settled_next h (settled-absorbs h r) step)

before_recovered :
    {mid to : RecoveryCaseState}
    → to ≡ RecoveryCaseState.recovered
    → mid ⟶ to
    → mid ≡ RecoveryCaseState.verification_pending
unfolding is_allowed
before_recovered {mid} e (allowed a) = ground arith

-- A run that ends in `recovered` and did not begin there passes through `verification_pending`: no
-- case is recovered without verification.
pub recovered-verified :
    {from to : RecoveryCaseState}
    → from ≢ RecoveryCaseState.recovered
    → to ≡ RecoveryCaseState.recovered
    → from ⟶* to
    → from ⟶* RecoveryCaseState.verification_pending
recovered-verified h e here = absurd (h e)
recovered-verified {from} h e (next r step) = subst (λ m. from ⟶* m) (before_recovered e step) r
