-- ===== src/Common/Distinct.antt =====
-- Lists without repetition, as a table keeps the values of a unique column.
use mathlib.Core.Path.{◌≡◌, refl}
use mathlib.Core.Bool.{Bool, true, false, not, ◌&&◌, ◌||◌}
use mathlib.Core.Option.{none}
use mathlib.Core.List.{List, [], ◌∷◌, ◌++◌, map}
use native.Mathlib.Omega.{arith}
use revenue_rescue_ai.Common.Tests.{Eq, ◌==◌}
use revenue_rescue_ai.Common.Lists.{contains, find?}

module _ {ℓ} {A : Type ℓ} ⦃e : Eq A⦄ where
  abbrev pub distinct : List A → Bool
  distinct [] = true
  distinct (x ∷ xs) = not (contains xs x) && distinct xs

  pub contains-append :
      (xs : List A) (x y : A) → contains (xs ++ x ∷ []) y ≡ (contains xs y || y == x)
  contains-append [] x y = ground arith
  contains-append (z ∷ xs) x y = ground (arith, contains-append xs x y)

  -- A row whose value is new may be added.
  pub distinct-append :
      (xs : List A) (x : A)
      → distinct xs ≡ true
      → contains xs x ≡ false
      → distinct (xs ++ x ∷ []) ≡ true
  distinct-append [] x d h = refl
  distinct-append (y ∷ xs) x d h =
      ground (arith, distinct-append xs x, contains-append xs x y, e.same_iff x y, e.same_iff y x)

-- A value that no row has is not in the column.
pub contains-map {ℓ κ} :
    {A : Type ℓ} {B : Type κ} ⦃e : Eq B⦄ (f : A → B) (b : B) (xs : List A)
    → find? (λ x. f x == b) xs ≡ none
    → contains (map f xs) b ≡ false
contains-map f b [] h = refl
contains-map ⦃e⦄ f b (x ∷ xs) h =
    ground (arith, contains-map f b xs, e.same_iff (f x) b, e.same_iff b (f x))
