-- ===== src/Storage/Path/Roots.antt =====
-- operator/internal/storage/path.go: the segments of the root of an environment.
use mathlib.Core.List.{append_assoc}
use ai_sandbox.Base.{
  ◌++◌, ◌≡◌, inl, inr, Bool-cases, All, All-mono, List, Text, [], arith, if◌then◌else◌, length,
  none, refl, text_eq, true, false, ◌∷◌, ◌≤◌, ap, ◌∙◌,
}
use ai_sandbox.Storage.Path.{
  Identity, Layout, join, non_empty, root, split, validate, validate_segments,
}
use ai_sandbox.Storage.Path.Segments.{
  NonEmpty, ValidSegment, split-segment, validate_segment-NonEmpty, split-join, splits,
  join-NonEmpty,
}

unfoldable pub identity_segments : Identity → List Text
identity_segments id = id.cluster_id ∷ id.namespace ∷ id.env_name ∷ id.env_uid ∷ []

unfoldable pub prefix_segments : Text → List Text
prefix_segments prefix = if text_eq prefix [] then [] else split prefix

pub validate-identity :
    (l : Layout) → validate l ≡ none → All ValidSegment (identity_segments l.identity)
unfolding validate validate_segments identity_segments
validate-identity l h = ground (arith, h)

validate_segments-All : (ss : List Text) → validate_segments ss ≡ none → All ValidSegment ss
unfolding validate_segments
validate_segments-All [] h = tt
validate_segments-All (s ∷ ss) h = (ground (arith, h), validate_segments-All ss (ground (arith, h)))

validate-split :
    (l : Layout)
    → validate l ≡ none
    → text_eq l.prefix [] ≡ false
    → validate_segments (split l.prefix) ≡ none
unfolding validate
validate-split l h e = ground (arith, h, e)

pub validate-prefix : (l : Layout) → validate l ≡ none → All ValidSegment (prefix_segments l.prefix)
unfolding prefix_segments
validate-prefix l h = elim (Bool-cases (text_eq l.prefix [])) [
  | inl e ↦ rw e tt
  | inr e ↦ rw e (validate_segments-All (split l.prefix) (validate-split l h e))
]

All-NonEmpty : (ss : List Text) → All ValidSegment ss → All NonEmpty ss
All-NonEmpty = All-mono validate_segment-NonEmpty

splits-All : (ss : List Text) → All ValidSegment ss → splits ss ≡ ss
unfolding splits
splits-All [] h = refl
splits-All (s ∷ ss) h = rw (split-segment s h.0, splits-All ss h.1) refl

-- Valid segments joined behind a part that is not empty.
pub split-join-segments :
    (p : Text) (ss : List Text)
    → NonEmpty p
    → All ValidSegment ss
    → split (join (p ∷ ss)) ≡ split p ++ ss
unfolding splits
split-join-segments p ss e h =
    split-join p ss (e, All-NonEmpty ss h) ∙ ap (split p ++◌) (splits-All ss h)

pub split-join-join :
    (p s : Text) (ss : List Text)
    → NonEmpty p
    → ValidSegment s
    → All ValidSegment ss
    → split (join (join (p ∷ s ∷ []) ∷ ss)) ≡ split p ++ s ∷ ss
split-join-join p s ss e v vs =
    split-join-segments (join (p ∷ s ∷ [])) ss
      (join-NonEmpty p (s ∷ []) (e, (validate_segment-NonEmpty s v, tt))) vs
    ∙ ap (◌++ ss) (split-join-segments p (s ∷ []) e (v, tt))
    ∙ append_assoc (split p) (s ∷ []) ss

join-empty : (p : Text) (ss : List Text) → text_eq p [] ≡ true → join (p ∷ ss) ≡ join ss
unfolding join non_empty
join-empty p ss e = rw e refl

pub root-length : (l : Layout) → validate l ≡ none → length (root l) ≤ 1024
unfolding validate validate_segments
root-length l h = ground (arith, h)

pub root-segments :
    (l : Layout)
    → validate l ≡ none
    → split (root l) ≡ prefix_segments l.prefix ++ identity_segments l.identity
unfolding root prefix_segments identity_segments
root-segments l h =
    let v = validate-identity l h in
    let c = l.identity.cluster_id in
    let rest = l.identity.namespace ∷ l.identity.env_name ∷ l.identity.env_uid ∷ [] in
    elim (Bool-cases (text_eq l.prefix [])) [
      | inl e ↦
          rw (e, join-empty l.prefix (identity_segments l.identity) e)
            (split-join-segments c rest (validate_segment-NonEmpty c v.0) v.1
              ∙ ap (◌++ rest) (split-segment c v.0))
      | inr e ↦ rw e (split-join-segments l.prefix (identity_segments l.identity) e v)
    ]

pub root-NonEmpty : (l : Layout) → validate l ≡ none → NonEmpty (root l)
unfolding root identity_segments
root-NonEmpty l h =
    let v = All-NonEmpty (identity_segments l.identity) (validate-identity l h) in
    let c = l.identity.cluster_id in
    elim (Bool-cases (text_eq l.prefix [])) [
      | inl e ↦ rw (join-empty l.prefix (identity_segments l.identity) e) (join-NonEmpty c _ v)
      | inr e ↦ join-NonEmpty l.prefix (identity_segments l.identity) (e, v)
    ]
