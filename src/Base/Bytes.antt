-- ===== src/Base/Bytes.antt =====
-- Go strings as lists of bytes.
use Prim.Native.Nat.{ℕ}
use Prim.Native.Char.{code}
use Prim.Native.String.{String}
use mathlib.Core.Path.{◌≡◌, refl}
use mathlib.Core.Bool.{Bool, true, false, not, ◌&&◌, ◌||◌}
use mathlib.Core.List.{List, [], ◌∷◌}
use native.Mathlib.Omega.{arith}
use ai_sandbox.Base.Tests.{ltb, ◌==◌, if◌then◌else◌}

abbrev pub Text : Type 0
Text = List ℕ

-- The bytes of an ASCII literal.
abbrev pub codes : String → Text
codes String.[] = []
codes (String.◌∷◌ c s) = code c ∷ codes s

-- Go's `==` on strings.
unfoldable pub text_eq : Text → Text → Bool
text_eq [] [] = true
text_eq [] (d ∷ t) = false
text_eq (c ∷ s) [] = false
text_eq (c ∷ s) (d ∷ t) = c == d && text_eq s t

pub eq_of_text_eq : (s t : Text) → text_eq s t ≡ true → s ≡ t
unfolding text_eq
eq_of_text_eq [] [] h = refl
eq_of_text_eq [] (d ∷ t) h = ground arith
eq_of_text_eq (c ∷ s) [] h = ground arith
eq_of_text_eq (c ∷ s) (d ∷ t) h = ground (arith, eq_of_text_eq s t)

pub text_eq_refl : (s : Text) → text_eq s s ≡ true
unfolding text_eq
text_eq_refl [] = refl
text_eq_refl (c ∷ s) = ground (arith, text_eq_refl s)

-- Go's `<` on strings: the order of the bytes.
unfoldable pub lt_text : Text → Text → Bool
lt_text s [] = false
lt_text [] (d ∷ t) = true
lt_text (c ∷ s) (d ∷ t) = if c == d then lt_text s t else ltb c d

pub lt_text-cotrans : (s t u : Text) → lt_text s u ≡ true → (lt_text s t || lt_text t u) ≡ true
unfolding lt_text
lt_text-cotrans [] [] [] h = ground arith
lt_text-cotrans [] [] (e ∷ u) h = ground arith
lt_text-cotrans [] (d ∷ t) [] h = ground arith
lt_text-cotrans [] (d ∷ t) (e ∷ u) h = ground arith
lt_text-cotrans (c ∷ s) [] [] h = ground arith
lt_text-cotrans (c ∷ s) [] (e ∷ u) h = ground arith
lt_text-cotrans (c ∷ s) (d ∷ t) [] h = ground arith
lt_text-cotrans (c ∷ s) (d ∷ t) (e ∷ u) h = ground (arith, lt_text-cotrans s t u)

pub lt_text-asym : (s t : Text) → lt_text s t ≡ true → lt_text t s ≡ false
unfolding lt_text
lt_text-asym [] [] h = ground arith
lt_text-asym [] (d ∷ t) h = ground arith
lt_text-asym (c ∷ s) [] h = ground arith
lt_text-asym (c ∷ s) (d ∷ t) h = ground (arith, lt_text-asym s t)

-- Two strings are equal exactly when neither is before the other.
pub text_eq-lt_text : (s t : Text) → text_eq s t ≡ not (lt_text s t || lt_text t s)
unfolding lt_text text_eq
text_eq-lt_text [] [] = refl
text_eq-lt_text [] (d ∷ t) = refl
text_eq-lt_text (c ∷ s) [] = refl
text_eq-lt_text (c ∷ s) (d ∷ t) = ground (arith, text_eq-lt_text s t)
