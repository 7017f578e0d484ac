-- ===== src/Policy/Aggregate/Precedence.antt =====
-- The decision of `aggregate_decision` against a ranking of the rule statuses, and the case states
-- that `determine_fsm_transition` leaves alone.
use revenue_rescue_ai.Common.{
  Bool, List, String, [], all, any, arith, contains, filter, is_empty, leb, max, none, not, refl,
  some, suc, true, zero, ℕ, ◌<◌, ◌∷◌, ◌≡◌, ◌≤◌,
}
use revenue_rescue_ai.Enums.{
  PolicyDecisionStatus, RecoveryCaseState, RuleCheckStatus, recovery_case_state_eq,
}
use revenue_rescue_ai.Domain.{RuleCheckResult}
use revenue_rescue_ai.Policy.Aggregate.{aggregate_decision, determine_fsm_transition, reason_codes}
use revenue_rescue_ai.Policy.Eligibility.{actionable_states, terminal_states}
use revenue_rescue_ai.Policy.Models.{is_failed, is_missing_info, is_passed, needs_review}

abbrev rank : RuleCheckStatus → ℕ
rank RuleCheckStatus.passed = 0
rank RuleCheckStatus.needs_review = 1
rank RuleCheckStatus.missing_info = 2
rank RuleCheckStatus.failed = 3

-- The gravest status among the results.
pub worst : List RuleCheckResult → ℕ
worst [] = 0
worst (r ∷ rs) = max (rank r.status) (worst rs)

-- The decision that a rank stands for.
pub verdict : ℕ → PolicyDecisionStatus
verdict zero = PolicyDecisionStatus.approved
verdict (suc zero) = PolicyDecisionStatus.requires_review
verdict (suc (suc zero)) = PolicyDecisionStatus.insufficient_information
verdict (suc (suc (suc n))) = PolicyDecisionStatus.rejected

is_empty-filter {ℓ} :
    {A : Type ℓ} (p : A → Bool) (xs : List A) → is_empty (filter p xs) ≡ not (any p xs)
is_empty-filter p [] = refl
is_empty-filter p (x ∷ xs) = ground (arith, is_empty-filter p xs)

worst-IsBounded : (rs : List RuleCheckResult) → worst rs ≤ 3
unfolding worst
worst-IsBounded [] = omega arith
worst-IsBounded (r ∷ rs) = ground (arith, worst-IsBounded rs)

any_failed : (rs : List RuleCheckResult) → any is_failed rs ≡ leb 3 (worst rs)
unfolding worst
any_failed [] = refl
any_failed (r ∷ rs) = ground (arith, any_failed rs)

any_missing : (rs : List RuleCheckResult) → worst rs < 3 → any is_missing_info rs ≡ leb 2 (worst rs)
unfolding worst
any_missing [] h = refl
any_missing (r ∷ rs) h = ground (arith, any_missing rs)

any_review : (rs : List RuleCheckResult) → worst rs < 2 → any needs_review rs ≡ leb 1 (worst rs)
unfolding worst
any_review [] h = refl
any_review (r ∷ rs) h = ground (arith, any_review rs)

-- Whatever the rules are and in whatever order they ran, the decision is that of the gravest rule
-- status, in the order passed, needs review, missing information, failed.
pub aggregate_decision-worst :
    (rs : List RuleCheckResult) → (aggregate_decision rs).0 ≡ verdict (worst rs)
unfolding aggregate_decision verdict
aggregate_decision-worst rs = ground (
  arith,
  is_empty-filter is_failed rs,
  is_empty-filter is_missing_info rs,
  is_empty-filter needs_review rs,
  any_failed rs,
  any_missing rs,
  any_review rs,
  worst-IsBounded rs,
)

verdict-approved : (n : ℕ) → verdict n ≡ PolicyDecisionStatus.approved → n ≡ 0
unfolding verdict
verdict-approved zero h = refl
verdict-approved (suc zero) h = cc
verdict-approved (suc (suc zero)) h = cc
verdict-approved (suc (suc (suc n))) h = cc

all_passed : (rs : List RuleCheckResult) → worst rs ≡ 0 → all is_passed rs ≡ true
unfolding worst
all_passed [] h = refl
all_passed (r ∷ rs) h = ground (arith, all_passed rs)

-- An approved aggregate has passed results only.
pub approved-all_passed :
    (rs : List RuleCheckResult)
    → (aggregate_decision rs).0 ≡ PolicyDecisionStatus.approved
    → all is_passed rs ≡ true
approved-all_passed rs h =
    all_passed rs (verdict-approved (worst rs) (rw aggregate_decision-worst at h))

-- A failed result makes the decision a rejection, and its reason stands among the reasons.
pub failed-rejected :
    (r : RuleCheckResult) (rs : List RuleCheckResult)
    → is_failed r ≡ true
    → aggregate_decision (r ∷ rs)
      ≡ (PolicyDecisionStatus.rejected, r.reason_code ∷ reason_codes (filter is_failed rs))
unfolding aggregate_decision
failed-rejected r rs h = ground arith

-- The transition that a decision asks for never leaves a terminal state, whatever the decision is.
pub determine_fsm_transition-terminal :
    (status : PolicyDecisionStatus) (state : RecoveryCaseState) (reasons : List String)
    → contains terminal_states state ≡ true
    → determine_fsm_transition status state reasons ≡ none
unfolding determine_fsm_transition
determine_fsm_transition-terminal status state reasons h = ground arith

-- Only an approval, and only in an actionable state, asks for `action_pending`.
pub determine_fsm_transition-action_pending :
    (status : PolicyDecisionStatus) (state : RecoveryCaseState) (reasons : List String)
    → determine_fsm_transition status state reasons ≡ some RecoveryCaseState.action_pending
    → (status ≡ PolicyDecisionStatus.approved) × (contains actionable_states state ≡ true)
unfolding determine_fsm_transition
determine_fsm_transition-action_pending status state reasons h = ground arith
