-- ===== src/Controller/Retention/Places.antt =====
-- operator/internal/controller/retentiongc.go: where the keys of an environment lie below the prefix
-- that is listed.
use mathlib.Core.List.{append_assoc}
use mathlib.Core.Path.{subst}
use ai_sandbox.Base.{
  ◌++◌, ◌==◌, ◌≡◌, inl, inr, Bool-cases, All, All-mono, List, Text, [], arith, refl, text_eq, true,
  ◌∷◌, ap, ◌∙◌, sym, ℕ, ==_iff,
}
use ai_sandbox.Api.Environment.{SandboxEnvironment}
use ai_sandbox.Storage.Path.{
  slash, join_slash, split, cut, allowed_all, disallowed, new_layout, Layout, root,
}
use ai_sandbox.Storage.Path.Segments.{
  NonEmpty, ValidSegment, validate_segment-NonEmpty, validate_segment-allowed,
}
use ai_sandbox.Storage.Path.Roots.{
  identity_segments, prefix_segments, validate-identity, validate-prefix, root-segments,
}
use ai_sandbox.Storage.Path.Keys.{Object, object_path, key, key-place, new_layout-inr}
use ai_sandbox.Controller.RootKeys.{trim_slash, cluster_prefix}
use ai_sandbox.Controller.Retention.{identity}
use ai_sandbox.Controller.Retention.Roots.{plain}

join_slash-cons :
    (c : ℕ) (x : Text) (xs : List Text) → join_slash ((c ∷ x) ∷ xs) ≡ c ∷ join_slash (x ∷ xs)
unfolding join_slash
join_slash-cons c x [] = refl
join_slash-cons c x (y ∷ xs) = refl

join_slash-cut : (s : Text) → join_slash ((cut s).0 ∷ (cut s).1) ≡ s
unfolding cut join_slash
join_slash-cut [] = refl
join_slash-cut (c ∷ s) = elim (Bool-cases (c == slash)) [
  | inl e ↦ rw e (ground (arith, ==_iff c slash, ap (c ∷◌) (join_slash-cut s)))
  | inr e ↦ rw e (join_slash-cons c (cut s).0 (cut s).1 ∙ ap (c ∷◌) (join_slash-cut s))
]

join_slash-split : (s : Text) → join_slash (split s) ≡ s
unfolding split
join_slash-split s = join_slash-cut s

allowed_all-plain : (s : Text) → allowed_all s ≡ true → plain s ≡ true
unfolding allowed_all disallowed plain
allowed_all-plain [] h = refl
allowed_all-plain (c ∷ s) h = ground (arith, allowed_all-plain s)

valid-plain : (s : Text) → ValidSegment s → plain s ≡ true
valid-plain s h = allowed_all-plain s (validate_segment-allowed s h)

cut-rest : (c : ℕ) (s : Text) → All NonEmpty (cut (c ∷ s)).1 → All NonEmpty (cut s).1
unfolding cut
cut-rest c s h = elim (Bool-cases (c == slash)) [ inl e ↦ (rw e at h).1 | inr e ↦ rw e at h ]

trim_slash-segments : (s : Text) → All NonEmpty (cut s).1 → trim_slash s ≡ s
unfolding trim_slash cut text_eq
trim_slash-segments [] h = refl
trim_slash-segments (c ∷ []) h = elim (Bool-cases (c == slash)) [
  | inl e ↦ ground (arith, (rw e at h).0)
  | inr e ↦ rw e refl
]
trim_slash-segments (c ∷ d ∷ s) h = ap (c ∷◌) (trim_slash-segments (d ∷ s) (cut-rest c (d ∷ s) h))

join_slash-append :
    (p q : Text) (ps qs : List Text)
    → join_slash (p ∷ (ps ++ q ∷ qs)) ≡ join_slash (p ∷ ps) ++ slash ∷ join_slash (q ∷ qs)
unfolding join_slash
join_slash-append p q [] qs = refl
join_slash-append p q (r ∷ ps) qs =
    ap (λ x. p ++ slash ∷ x) (join_slash-append r q ps qs)
    ∙ sym (append_assoc p (slash ∷ join_slash (r ∷ ps)) (slash ∷ join_slash (q ∷ qs)))

-- The segments of an accepted prefix and of the cluster, joined before others, are the listed prefix.
join_slash-cluster_prefix :
    (prefix c x : Text) (xs : List Text)
    → All ValidSegment (prefix_segments prefix)
    → join_slash (prefix_segments prefix ++ c ∷ x ∷ xs)
      ≡ cluster_prefix prefix c ++ join_slash (x ∷ xs)
unfolding prefix_segments cluster_prefix split join_slash
join_slash-cluster_prefix prefix c x xs h = elim (Bool-cases (text_eq prefix [])) [
  | inl e ↦ rw e (sym (append_assoc c (slash ∷ []) (join_slash (x ∷ xs))))
  | inr e ↦
      rw (e, trim_slash-segments prefix (All-mono validate_segment-NonEmpty _ (rw e at h).1))
        (join_slash-append (cut prefix).0 c (cut prefix).1 (x ∷ xs)
          ∙ ap (λ y. y ++ slash ∷ (c ++ slash ∷ join_slash (x ∷ xs))) (join_slash-cut prefix)
          ∙ ap (λ y. prefix ++ slash ∷ y) (sym (append_assoc c (slash ∷ []) (join_slash (x ∷ xs))))
          ∙ sym (append_assoc prefix (slash ∷ (c ++ slash ∷ [])) (join_slash (x ∷ xs))))
]

-- The three parts of the identity of an environment that its root ends in.
abbrev pub env_segments : SandboxEnvironment → List Text
env_segments e = e.namespace ∷ e.name ∷ e.uid ∷ []

layout-prefix :
    (prefix c : Text) (e : SandboxEnvironment) (l : Layout)
    → new_layout prefix (identity c e) ≡ inr l
    → All ValidSegment (prefix_segments prefix)
layout-prefix prefix c e l h =
    let (v, (p, i)) = new_layout-inr prefix (identity c e) l h in
    subst (λ x. All ValidSegment (prefix_segments x)) p (validate-prefix l v)

pub root-cluster_prefix :
    (prefix c : Text) (e : SandboxEnvironment) (l : Layout)
    → new_layout prefix (identity c e) ≡ inr l
    → root l ≡ cluster_prefix prefix c ++ join_slash (env_segments e)
unfolding identity identity_segments
root-cluster_prefix prefix c e l h =
    let (v, (p, i)) = new_layout-inr prefix (identity c e) l h in
    sym (join_slash-split (root l))
    ∙ ap join_slash (root-segments l v)
    ∙ rw (p, i)
        (join_slash-cluster_prefix prefix c e.namespace (e.name ∷ e.uid ∷ [])
          (layout-prefix prefix c e l h))

pub key-cluster_prefix :
    (prefix c : Text) (e : SandboxEnvironment) (l : Layout) (o : Object) (k : Text)
    → new_layout prefix (identity c e) ≡ inr l
    → key l o ≡ inr k
    → k ≡ cluster_prefix prefix c ++ join_slash (env_segments e ++ object_path o)
unfolding identity identity_segments
key-cluster_prefix prefix c e l o k h g =
    sym (join_slash-split k)
    ∙ ap join_slash (key-place prefix (identity c e) l o k h g)
    ∙ join_slash-cluster_prefix prefix c e.namespace (e.name ∷ e.uid ∷ object_path o)
        (layout-prefix prefix c e l h)

pub env_segments-plain :
    (prefix c : Text) (e : SandboxEnvironment) (l : Layout)
    → new_layout prefix (identity c e) ≡ inr l
    → (plain e.namespace ≡ true) × ((plain e.name ≡ true) × (plain e.uid ≡ true))
unfolding identity identity_segments
env_segments-plain prefix c e l h =
    let (v, (p, i)) = new_layout-inr prefix (identity c e) l h in
    let w = subst (λ x. All ValidSegment (identity_segments x)) i (validate-identity l v) in
    (valid-plain e.namespace w.1.0, (valid-plain e.name w.1.1.0, valid-plain e.uid w.1.1.1.0))
