-- ===== src/Common/Strings.antt =====
-- Identifiers and references, which the program only tests, compares and puts into f-strings.
use Prim.Native.String.{String, ◌++◌ as str_append}
use text.Mathlib.Text.{starts_with}
use mathlib.Core.Bool.{Bool}
use mathlib.Core.Path.{◌≡◌, refl}
use mathlib.Core.Option.{Option, none, some}
use mathlib.Core.List.{List, [], ◌∷◌}
use revenue_rescue_ai.Common.Tests.{if◌then◌else◌, ◌==◌, string_eq}

-- An f-string, by its parts
abbrev pub joined : List String → String
joined [] = ""
joined (s ∷ ss) = str_append s (joined ss)

-- `t.startswith(p)`
abbrev pub has_prefix : String → String → Bool
has_prefix t p = starts_with t p

-- The text, if it is there and not empty: what `if t:` and `t or ...` test
unfoldable pub given : Option String → Option String
given none = none
given (some s) = if s == "" then none else some s

-- `a or b`, where what `a` holds is true
abbrev pub first_of {ℓ} : {A : Type ℓ} → Option A → Option A → Option A
first_of none o = o
first_of (some a) o = some a

abbrev pub or_else {ℓ} : {A : Type ℓ} → Option A → A → A
or_else none a = a
or_else (some b) a = b

joined_test : joined ("CASE-INV-" ∷ "inv" ∷ []) ≡ "CASE-INV-inv"
joined_test = refl
