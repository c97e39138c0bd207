-- ===== src/Base/Prefix.antt =====
-- Prefixes of texts and texts in lists, after the Go package strings.
use mathlib.Core.Path.{◌≡◌, refl}
use mathlib.Core.Bool.{Bool, true, false, ◌&&◌, ◌||◌}
use mathlib.Core.List.{List, [], ◌∷◌, ◌++◌}
use native.Mathlib.Omega.{arith}
use ai_sandbox.Base.Tests.{◌==◌, if◌then◌else◌, ==_iff}
use ai_sandbox.Base.Lists.{length, drop}
use ai_sandbox.Base.Bytes.{Text, text_eq}

-- strings.HasPrefix.
unfoldable pub has_prefix : Text → Text → Bool
has_prefix s [] = true
has_prefix [] (d ∷ p) = false
has_prefix (c ∷ s) (d ∷ p) = c == d && has_prefix s p

-- strings.TrimPrefix.
unfoldable pub trim_prefix : Text → Text → Text
trim_prefix s p = if has_prefix s p then drop (length p) s else s

-- Whether a text is in a list, as a Go map with texts as keys is asked for one.
unfoldable pub has : Text → List Text → Bool
has t [] = false
has t (u ∷ us) = text_eq t u || has t us

pub has_prefix-append : (p s t : Text) → has_prefix (p ++ s) (p ++ t) ≡ has_prefix s t
unfolding has_prefix
has_prefix-append [] s t = refl
has_prefix-append (c ∷ p) s t = ground (arith, has_prefix-append p s t)

pub has_prefix_whole : (p s : Text) → has_prefix (p ++ s) p ≡ true
unfolding has_prefix
has_prefix_whole [] s = refl
has_prefix_whole (c ∷ p) s = ground (arith, has_prefix_whole p s)

pub drop-prefix : (p s : Text) → drop (length p) (p ++ s) ≡ s
drop-prefix [] s = refl
drop-prefix (c ∷ p) s = drop-prefix p s

pub trim_prefix-append : (p s : Text) → trim_prefix (p ++ s) p ≡ s
unfolding trim_prefix
trim_prefix-append p s = rw (has_prefix_whole p s) (drop-prefix p s)

-- A text that starts with a prefix is the prefix and what follows it.
pub append-drop : (s p : Text) → has_prefix s p ≡ true → p ++ drop (length p) s ≡ s
unfolding has_prefix
append-drop s [] h = refl
append-drop [] (d ∷ p) h = ground (arith, h)
append-drop (c ∷ s) (d ∷ p) h = ground (arith, append-drop s p, ==_iff c d)

-- A prefix of the same length as the first part is that part.
pub has_prefix-length : (u s v : Text) → has_prefix (u ++ s) v ≡ true → length u ≡ length v → u ≡ v
unfolding has_prefix
has_prefix-length [] s [] h e = refl
has_prefix-length [] s (d ∷ v) h e = ground (arith, e)
has_prefix-length (c ∷ u) s [] h e = ground (arith, e)
has_prefix-length (c ∷ u) s (d ∷ v) h e = ground (arith, has_prefix-length u s v, ==_iff c d)

pub has_prefix-shorter : (s p q : Text) → has_prefix s (p ++ q) ≡ true → has_prefix s p ≡ true
unfolding has_prefix
has_prefix-shorter s [] q h = refl
has_prefix-shorter [] (d ∷ p) q h = ground (arith, h)
has_prefix-shorter (c ∷ s) (d ∷ p) q h = ground (arith, has_prefix-shorter s p q)
