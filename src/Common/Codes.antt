-- ===== src/Common/Codes.antt =====
-- Text that the program walks (failure codes, currencies, channels), as code points, and the
-- operations of Python's `str` on it. Case changes act on the ASCII letters, which are the letters
-- of the codes that the program compares with.
use Prim.Native.Char.{code}
use Prim.Native.Nat.{ℕ, ◌+◌, ◌-◌}
use Prim.Native.String.{String}
use mathlib.Core.Path.{◌≡◌, refl}
use mathlib.Core.Logic.{◌↔◌}
use native.Mathlib.Omega.{arith}
use mathlib.Core.Bool.{Bool, true, false, ◌&&◌, ◌||◌}
use mathlib.Core.Option.{Option, none, some}
use mathlib.Core.List.{List, [], ◌∷◌, map, reverse}
use revenue_rescue_ai.Common.Lists.{all}
use revenue_rescue_ai.Common.Tests.{leb, eqb, if◌then◌else◌, Eq}

abbrev pub Text : Type 0
Text = List ℕ

unfoldable pub codes : String → Text
codes String.[] = []
codes (String.◌∷◌ c s) = code c ∷ codes s

abbrev pub text_beq : Text → Text → Bool
text_beq [] [] = true
text_beq [] (b ∷ bs) = false
text_beq (a ∷ as') [] = false
text_beq (a ∷ as') (b ∷ bs) = eqb a b && text_beq as' bs

pub text_beq_iff : (s t : Text) → (text_beq s t ≡ true) ↔ (s ≡ t)
text_beq_iff [] [] = (λ h. refl, λ h. refl)
text_beq_iff [] (b ∷ bs) = (λ h. cc, λ h. ground arith)
text_beq_iff (a ∷ as') [] = (λ h. cc, λ h. ground arith)
text_beq_iff (a ∷ as') (b ∷ bs) = ground (arith, text_beq_iff as' bs)

instance abbrev pub text_eq : Eq Text
text_eq = record { same = text_beq; same_iff = text_beq_iff }

-- `t in {s, ...}` for a set of literals
unfoldable pub one_of : List String → Text → Bool
unfolding codes
one_of [] t = false
one_of (s ∷ ss) t = text_beq t (codes s) || one_of ss t

-- What holds of each literal holds of a text that is one of them.
pub one_of-all :
    (p : Text → Bool) (ss : List String) (t : Text)
    → all (λ s. p (codes s)) ss ≡ true
    → one_of ss t ≡ true
    → p t ≡ true
unfolding one_of
one_of-all p [] t h e = cc
one_of-all p (s ∷ ss) t h e = ground (arith, h, e, text_beq_iff t (codes s), one_of-all p ss t)

abbrev is_space : ℕ → Bool
is_space c = eqb c 32 || (leb 9 c && leb c 13) || (leb 28 c && leb c 31)

abbrev lower_char : ℕ → ℕ
lower_char c = if leb b'A' c && leb c b'Z' then c + 32 else c

abbrev upper_char : ℕ → ℕ
upper_char c = if leb b'a' c && leb c b'z' then c - 32 else c

-- `t.lower()`
unfoldable pub lower : Text → Text
lower = map lower_char

-- `t.upper()`
unfoldable pub upper : Text → Text
upper = map upper_char

abbrev drop_spaces : Text → Text
drop_spaces [] = []
drop_spaces (c ∷ t) = if is_space c then drop_spaces t else c ∷ t

-- `t.strip()`
unfoldable pub strip : Text → Text
strip t = reverse (drop_spaces (reverse (drop_spaces t)))

abbrev is_prefix : Text → Text → Bool
is_prefix [] t = true
is_prefix (p ∷ ps) [] = false
is_prefix (p ∷ ps) (c ∷ t) = eqb p c && is_prefix ps t

-- `p in t`
unfoldable pub has_part : Text → Text → Bool
has_part p [] = is_prefix p []
has_part p (c ∷ t) = is_prefix p (c ∷ t) || has_part p t

-- `(t or "")`
abbrev pub or_empty : Option Text → Text
or_empty none = []
or_empty (some t) = t

-- `(t or "").strip().lower()`
unfoldable pub clean : Option Text → Text
unfolding lower strip
clean t = lower (strip (or_empty t))

clean_test : clean (some (codes "  Fraud_Suspected ")) ≡ codes "fraud_suspected"
unfolding clean codes
clean_test = refl
