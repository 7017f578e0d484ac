-- ===== src/Store/Laws.antt =====
-- Reading back what was written to the tables of cases and of policy decisions.
use revenue_rescue_ai.Common.{
  Bool, List, [], arith, contains, distinct, find?, map, nat_eq, refl, some, true, ℕ, ◌==◌, ◌∷◌,
  ◌≡◌, ◌≢◌,
}
use revenue_rescue_ai.Domain.{RecoveryCase}
use revenue_rescue_ai.Store.{put_case}

-- A written row is read back under its key, if there was a row of that key.
pub find?-put_case_self :
    (k : ℕ) (c old : RecoveryCase) (rs : List RecoveryCase)
    → c.id ≡ k
    → find? (λ r. r.id == k) rs ≡ some old
    → find? (λ r. r.id == k) (put_case c rs) ≡ some c
unfolding put_case
find?-put_case_self k c old [] e h = cc
find?-put_case_self k c old (r ∷ rs) e h = ground (arith, find?-put_case_self k c old rs)

-- The rows of other keys stay as they were.
pub find?-put_case_ne :
    (c : RecoveryCase) (k : ℕ) (rs : List RecoveryCase)
    → k ≢ c.id
    → find? (λ r. r.id == k) (put_case c rs) ≡ find? (λ r. r.id == k) rs
unfolding put_case
find?-put_case_ne c k [] h = refl
find?-put_case_ne c k (r ∷ rs) h = ground (arith, find?-put_case_ne c k rs h)

-- Writing back a row of the same key, whose value in a column is the same, keeps the column.
pub map-put_case {ℓ} :
    {A : Type ℓ} (f : RecoveryCase → A) (c old : RecoveryCase) (rs : List RecoveryCase)
    → find? (λ r. r.id == c.id) rs ≡ some old
    → f c ≡ f old
    → map f (put_case c rs) ≡ map f rs
unfolding put_case
map-put_case f c old [] h e = refl
map-put_case f c old (r ∷ rs) h e = ground (arith, map-put_case f c old rs)

find?-contains :
    (p : RecoveryCase → Bool) (rs : List RecoveryCase) (r : RecoveryCase)
    → find? p rs ≡ some r
    → contains (map RecoveryCase.id rs) r.id ≡ true
find?-contains p [] r h = cc
find?-contains p (x ∷ rs) r h = ground (arith, find?-contains p rs r)

-- Where keys are unique, a row found by any test is the row of its key.
pub find?-by_id :
    (p : RecoveryCase → Bool) (rs : List RecoveryCase) (r : RecoveryCase)
    → distinct (map RecoveryCase.id rs) ≡ true
    → find? p rs ≡ some r
    → find? (λ x. x.id == r.id) rs ≡ some r
find?-by_id p [] r d h = cc
find?-by_id p (x ∷ rs) r d h = ground (arith, find?-by_id p rs r, find?-contains p rs r)
