-- ===== src/Cases/Priority/Ordered.antt =====
-- The range of priorities, and the order that the amount and the age give.
use revenue_rescue_ai.Common.{Option, Text, arith, clean, none, some, ℕ, ◌+◌, ◌≡◌, ◌≤◌}
use revenue_rescue_ai.Cases.Priority.{
  adjust_age, adjust_exposure, adjust_failure, calculate_priority, priority_score,
}

adjust_exposure-bounds : (a s : ℕ) → (s ≤ adjust_exposure a s + 50) × (adjust_exposure a s ≤ s + 15)
unfolding adjust_exposure
adjust_exposure-bounds a s = ground arith

adjust_exposure-antitone : (a a' s : ℕ) → a ≤ a' → adjust_exposure a' s ≤ adjust_exposure a s
unfolding adjust_exposure
adjust_exposure-antitone a a' s h = ground arith

adjust_failure-bounds :
    (c : Text) (s : ℕ) → (s ≤ adjust_failure c s + 25) × (adjust_failure c s ≤ s + 50)
unfolding adjust_failure
adjust_failure-bounds c s = ground arith

adjust_failure-monotone : (c : Text) (s s' : ℕ) → s ≤ s' → adjust_failure c s ≤ adjust_failure c s'
unfolding adjust_failure
adjust_failure-monotone c s s' h = ground arith

adjust_age-bounds :
    (o : Option ℕ) (now s : ℕ) → (s ≤ adjust_age o now s + 20) × (adjust_age o now s ≤ s)
unfolding adjust_age
adjust_age-bounds none now s = omega arith
adjust_age-bounds (some t) now s = ground arith

adjust_age-antitone :
    (o : Option ℕ) (now now' s s' : ℕ)
    → now ≤ now'
    → s' ≤ s
    → adjust_age o now' s' ≤ adjust_age o now s
unfolding adjust_age
adjust_age-antitone none now now' s s' h h' = h'
adjust_age-antitone (some t) now now' s s' h h' = ground arith

-- A priority is between 5 and 165, so the clamp to [1, 1000] never acts.
pub priority-bounds :
    (amount : ℕ) (failure_code : Option Text) (opened_at : Option ℕ) (now : ℕ)
    → (5 ≤ priority_score amount failure_code opened_at now)
      × (priority_score amount failure_code opened_at now ≤ 165)
      × (calculate_priority amount failure_code opened_at now
          ≡ priority_score amount failure_code opened_at now)
unfolding priority_score calculate_priority
priority-bounds amount failure_code opened_at now =
    let e = adjust_exposure-bounds amount 100 in
    let x = adjust_exposure amount 100 in
    let f = adjust_failure-bounds (clean failure_code) x in
    let g = adjust_age-bounds opened_at now (adjust_failure (clean failure_code) x) in
    ground (arith, e, f, g)

-- A larger amount and a longer wait never make a case less urgent.
pub priority-urgency :
    (amount amount' : ℕ) (failure_code : Option Text) (opened_at : Option ℕ) (now now' : ℕ)
    → amount ≤ amount'
    → now ≤ now'
    → calculate_priority amount' failure_code opened_at now'
      ≤ calculate_priority amount failure_code opened_at now
unfolding calculate_priority priority_score
priority-urgency amount amount' failure_code opened_at now now' h h' =
    let e = adjust_exposure-antitone amount amount' 100 h in
    let f =
      adjust_failure-monotone (clean failure_code) (adjust_exposure amount' 100)
        (adjust_exposure amount 100) e in
    let g = adjust_age-antitone opened_at now now' _ _ h' f in ground (arith, g)
