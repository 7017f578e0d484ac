-- ===== src/Cases/Listing/Order.antt =====
-- The order of a listing, and that it holds the same cases as the rows it sorts.
use mathlib.Core.List.{Permᴰ}
use mathlib.Core.List.Permᴰ
use revenue_rescue_ai.Common.{
  All, Bool-cases, List, [], arith, inl, inr, le_trans, refl, ℕ, ◌∷◌, ◌≤◌,
}
use revenue_rescue_ai.Cases.Listing.{comes_first, insert_case_by_time, newest_first}
use revenue_rescue_ai.Domain.{RecoveryCase}

-- No case in the list was opened after one that stands before it.
abbrev pub NewestFirst : List RecoveryCase → Type 0
NewestFirst [] = Unit
NewestFirst (c ∷ cs) = All (λ r. r.opened_at ≤ c.opened_at) cs × NewestFirst cs

All-insert :
    (rank : RecoveryCase → ℕ) (n : ℕ) (c : RecoveryCase) (rs : List RecoveryCase)
    → c.opened_at ≤ n
    → All (λ r. r.opened_at ≤ n) rs
    → All (λ r. r.opened_at ≤ n) (insert_case_by_time rank c rs)
All-insert rank n c [] h a = (h, tt)
All-insert rank n c (r ∷ rs) h a = elim (Bool-cases (comes_first rank c r)) [
  | inl e ↦ rw e (h, a)
  | inr e ↦ rw e (a.0, All-insert rank n c rs h a.1)
]

All-earlier :
    (n m : ℕ) (rs : List RecoveryCase)
    → n ≤ m
    → All (λ r. r.opened_at ≤ n) rs
    → All (λ r. r.opened_at ≤ m) rs
All-earlier n m [] h a = tt
All-earlier n m (r ∷ rs) h a = (le_trans a.0 h, All-earlier n m rs h a.1)

insert-NewestFirst :
    (rank : RecoveryCase → ℕ) (c : RecoveryCase) (rs : List RecoveryCase)
    → NewestFirst rs
    → NewestFirst (insert_case_by_time rank c rs)
insert-NewestFirst rank c [] h = (tt, tt)
insert-NewestFirst rank c (r ∷ rs) h = elim (Bool-cases (comes_first rank c r)) [
  | inl e ↦
      let le : r.opened_at ≤ c.opened_at = ground arith in
      rw e ((le, All-earlier r.opened_at c.opened_at rs le h.0), h)
  | inr e ↦
      let le : c.opened_at ≤ r.opened_at = ground arith in
      rw e (All-insert rank r.opened_at c rs le h.0, insert-NewestFirst rank c rs h.1)
]

insert-Perm :
    (rank : RecoveryCase → ℕ) (c : RecoveryCase) (rs : List RecoveryCase)
    → Permᴰ (insert_case_by_time rank c rs) (c ∷ rs)
insert-Perm rank c [] = Permᴰ.refl (c ∷ [])
insert-Perm rank c (r ∷ rs) = elim (Bool-cases (comes_first rank c r)) [
  | inl e ↦ rw e (Permᴰ.refl (c ∷ r ∷ rs))
  | inr e ↦ rw e (Permᴰ.trans (Permᴰ.cons refl (insert-Perm rank c rs)) (Permᴰ.swap refl refl))
]

pub newest_first-NewestFirst :
    (rank : RecoveryCase → ℕ) (rs : List RecoveryCase) → NewestFirst (newest_first rank rs)
unfolding newest_first
newest_first-NewestFirst rank [] = tt
newest_first-NewestFirst rank (c ∷ rs) =
    insert-NewestFirst rank c (newest_first rank rs) (newest_first-NewestFirst rank rs)

pub newest_first-Perm :
    (rank : RecoveryCase → ℕ) (rs : List RecoveryCase) → Permᴰ (newest_first rank rs) rs
unfolding newest_first
newest_first-Perm rank [] = Permᴰ.nil
newest_first-Perm rank (c ∷ rs) =
    Permᴰ.trans (insert-Perm rank c (newest_first rank rs))
      (Permᴰ.cons refl (newest_first-Perm rank rs))
