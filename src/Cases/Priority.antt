-- ===== src/Cases/Priority.antt =====
-- `CasePrioritizer` of backend/app/services/case_prioritizer.py, less the texts that explain the
-- score. A lower number is more urgent. No subtraction reaches 0, since the score starts at 100.
pub mod Ordered
use revenue_rescue_ai.Common.{
  Option, Text, [], clean, codes, if◌then◌else◌, leb, ltb, max, min, none, one_of, some, ℕ, ◌*◌,
  ◌+◌, ◌-◌, ◌∷◌,
}
use revenue_rescue_ai.Policy.Config.{hour}

-- The financial exposure
unfoldable pub adjust_exposure : ℕ → ℕ → ℕ
adjust_exposure amount score =
    if leb 500_000 amount
    then score - 50
    else if leb 100_000 amount
    then score - 25
    else if leb 25_000 amount
    then score - 10
    else if ltb amount 5_000
    then score + 15
    else score

-- The failure category
unfoldable pub adjust_failure : Text → ℕ → ℕ
unfolding one_of codes
adjust_failure code score =
    if one_of ("insufficient_funds" ∷ []) code
    then score - 20
    else if one_of ("processing_error" ∷ "network_error" ∷ "timeout" ∷ []) code
    then score - 25
    else if one_of ("card_expired" ∷ "expired_card" ∷ []) code
    then score + 15
    else if one_of ("authentication_required" ∷ "3d_secure_required" ∷ []) code
    then score + 10
    else if one_of ("fraud_suspected" ∷ "fraudulent" ∷ []) code
    then score + 50
    else if one_of ("do_not_honor" ∷ "card_declined" ∷ []) code
    then score + 10
    else score

-- The age of the case, if it is open
unfoldable pub adjust_age : Option ℕ → ℕ → ℕ → ℕ
adjust_age none now score = score
adjust_age (some opened_at) now score =
    if leb (opened_at + 48 * hour) now
    then score - 20
    else if leb (opened_at + 24 * hour) now
    then score - 10
    else score

abbrev pub base_priority : ℕ
base_priority = 100

-- The score before it is clamped
unfoldable pub priority_score : ℕ → Option Text → Option ℕ → ℕ → ℕ
unfolding adjust_exposure adjust_failure adjust_age clean
priority_score amount failure_code opened_at now =
    adjust_age opened_at now
      (adjust_failure (clean failure_code) (adjust_exposure amount base_priority))

-- `CasePrioritizer.calculate_priority`
unfoldable pub calculate_priority : ℕ → Option Text → Option ℕ → ℕ → ℕ
unfolding priority_score
calculate_priority amount failure_code opened_at now =
    max 1 (min 1000 (priority_score amount failure_code opened_at now))
