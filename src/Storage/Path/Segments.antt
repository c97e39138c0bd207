-- ===== src/Storage/Path/Segments.antt =====
-- operator/internal/storage/path.go: joining and splitting at slashes.
use mathlib.Core.Bool.{false}
use mathlib.Core.List.{append-nil}
use ai_sandbox.Base.{
  ◌++◌, ◌==◌, ◌≡◌, ◌+◌, suc, inl, inr, Bool-cases, All, List, Text, [], arith, length, none, refl,
  text_eq, true, ◌∷◌, ◌≤◌, ℕ, ap, ◌∙◌, sym,
}
use ai_sandbox.Storage.Path.{
  allowed_all, cut, disallowed, join, join_slash, max_segment_len, non_empty, slash, split,
  validate_segment,
}

abbrev pub NonEmpty : Text → Type 0
NonEmpty s = text_eq s [] ≡ false

abbrev pub ValidSegment : Text → Type 0
ValidSegment s = validate_segment s ≡ none

pub cut-append : (s t : Text) → cut (s ++ slash ∷ t) ≡ ((cut s).0, (cut s).1 ++ split t)
unfolding cut split
cut-append [] t = refl
cut-append (c ∷ s) t = elim (Bool-cases (c == slash)) [
  | inl e ↦ rw (e, cut-append s t) refl
  | inr e ↦ rw (e, cut-append s t) refl
]

pub split-append : (s t : Text) → split (s ++ slash ∷ t) ≡ split s ++ split t
unfolding split
split-append s t = rw (cut-append s t) refl

cut-allowed : (s : Text) → allowed_all s ≡ true → cut s ≡ (s, [])
unfolding allowed_all cut disallowed
cut-allowed [] h = refl
cut-allowed (c ∷ s) h = elim (Bool-cases (c == slash)) [
  | inl e ↦ ground (arith, e, h)
  | inr e ↦ rw (e, cut-allowed s (ground (arith, h))) refl
]

pub split-allowed : (s : Text) → allowed_all s ≡ true → split s ≡ s ∷ []
unfolding split
split-allowed s h = rw (cut-allowed s h) refl

pub non_empty-id : (ps : List Text) → All NonEmpty ps → non_empty ps ≡ ps
unfolding non_empty
non_empty-id [] h = refl
non_empty-id (p ∷ ps) h = rw (h.0, non_empty-id ps h.1) refl

-- The segments of all the parts.
unfoldable pub splits : List Text → List Text
splits [] = []
splits (p ∷ ps) = split p ++ splits ps

pub split-join_slash : (p : Text) (ps : List Text) → split (join_slash (p ∷ ps)) ≡ splits (p ∷ ps)
unfolding join_slash splits
split-join_slash p [] = sym (append-nil (split p))
split-join_slash p (q ∷ ps) =
    split-append p (join_slash (q ∷ ps)) ∙ ap (split p ++◌) (split-join_slash q ps)

pub split-join :
    (p : Text) (ps : List Text) → All NonEmpty (p ∷ ps) → split (join (p ∷ ps)) ≡ splits (p ∷ ps)
unfolding join
split-join p ps h = rw (non_empty-id (p ∷ ps) h) (split-join_slash p ps)

join_slash-NonEmpty : (p : Text) (ps : List Text) → NonEmpty p → NonEmpty (join_slash (p ∷ ps))
unfolding join_slash text_eq
join_slash-NonEmpty [] ps h = ground (arith, h)
join_slash-NonEmpty (c ∷ s) [] h = refl
join_slash-NonEmpty (c ∷ s) (q ∷ ps) h = refl

pub join-NonEmpty : (p : Text) (ps : List Text) → All NonEmpty (p ∷ ps) → NonEmpty (join (p ∷ ps))
unfolding join
join-NonEmpty p ps h = rw (non_empty-id (p ∷ ps) h) (join_slash-NonEmpty p ps h.0)

-- A segment that is valid is not empty and has no slash.
pub validate_segment-NonEmpty : (s : Text) → ValidSegment s → NonEmpty s
unfolding validate_segment
validate_segment-NonEmpty s h = ground (arith, h)

pub validate_segment-allowed : (s : Text) → ValidSegment s → allowed_all s ≡ true
unfolding validate_segment
validate_segment-allowed s h = ground (arith, h)

pub split-segment : (s : Text) → ValidSegment s → split s ≡ s ∷ []
split-segment s h = split-allowed s (validate_segment-allowed s h)

-- The bytes of the segments, each with a slash.
abbrev pub total : List Text → ℕ
total [] = 0
total (s ∷ ss) = suc (length s) + total ss

pub total-append : (ss ts : List Text) → total (ss ++ ts) ≡ total ss + total ts
total-append [] ts = omega arith
total-append (s ∷ ss) ts = omega (arith, total-append ss ts)

pub total-split : (s : Text) → total (split s) ≡ suc (length s)
unfolding split cut
total-split [] = refl
total-split (c ∷ s) = elim (Bool-cases (c == slash)) [
  | inl e ↦ rw e (omega (arith, total-split s))
  | inr e ↦ rw e (omega (arith, total-split s))
]

pub All-append {ℓ} :
    (P : Text → Type ℓ) (ss ts : List Text) → All P ss → All P ts → All P (ss ++ ts)
All-append P [] ts h g = g
All-append P (s ∷ ss) ts h g = (h.0, All-append P ss ts h.1 g)

pub validate_segment-length : (s : Text) → ValidSegment s → length s ≤ max_segment_len
unfolding validate_segment
validate_segment-length s h = ground (arith, h)
