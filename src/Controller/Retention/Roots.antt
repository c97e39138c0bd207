-- ===== src/Controller/Retention/Roots.antt =====
-- operator/internal/controller/retentiongc.go: the roots that rootOf reads from the listed keys.
use mathlib.Core.Path.{subst}
use mathlib.Core.List.{append_cancel_left}
use ai_sandbox.Base.{
  ◌++◌, ◌==◌, ◌≡◌, ◌&&◌, ◌||◌, inl, inr, Bool, Bool-cases, Option-cases, List, Text, [], arith,
  none, some, refl, text_eq, true, false, not, ◌∷◌, ap, ◌∙◌, sym, has_prefix, trim_prefix,
  append-drop, text_eq_refl, has_prefix-append,
}
use ai_sandbox.Storage.Path.{slash, join_slash}
use ai_sandbox.Controller.RootKeys.{cut_first, split_n, root_of, root_of_parts, RootOf}

-- A part of a key between two slashes.
unfoldable pub plain : Text → Bool
plain [] = true
plain (c ∷ s) = not (c == slash) && plain s

cut_first-plain : (s : Text) → plain (cut_first s).0 ≡ true
unfolding plain cut_first
cut_first-plain [] = refl
cut_first-plain (c ∷ s) = ground (arith, cut_first-plain s)

cut_first-none : (s : Text) → (cut_first s).1 ≡ none → (cut_first s).0 ≡ s
unfolding cut_first
cut_first-none [] h = refl
cut_first-none (c ∷ s) h = elim (Bool-cases (c == slash)) [
  | inl e ↦ ground (arith, h, e)
  | inr e ↦ rw e (ap (c ∷◌) (cut_first-none s (rw e at h)))
]

cut_first-some : (s t : Text) → (cut_first s).1 ≡ some t → s ≡ (cut_first s).0 ++ slash ∷ t
unfolding cut_first
cut_first-some [] t h = ground (arith, h)
cut_first-some (c ∷ s) t h = elim (Bool-cases (c == slash)) [
  | inl e ↦ ground (arith, h, e)
  | inr e ↦ rw e (ap (c ∷◌) (cut_first-some s t (rw e at h)))
]

pub cut_first-part : (a t : Text) → plain a ≡ true → cut_first (a ++ slash ∷ t) ≡ (a, some t)
unfolding cut_first plain
cut_first-part [] t h = refl
cut_first-part (c ∷ a) t h = elim (Bool-cases (c == slash)) [
  | inl e ↦ ground (arith, h, e)
  | inr e ↦ rw (e, cut_first-part a t (ground (arith, h))) refl
]

cut_first-last : (a : Text) → plain a ≡ true → cut_first a ≡ (a, none)
unfolding cut_first plain
cut_first-last [] h = refl
cut_first-last (c ∷ a) h = elim (Bool-cases (c == slash)) [
  | inl e ↦ ground (arith, h, e)
  | inr e ↦ rw (e, cut_first-last a (ground (arith, h))) refl
]

cut_first-prefix : (s : Text) → has_prefix s (cut_first s).0 ≡ true
unfolding cut_first has_prefix
cut_first-prefix [] = refl
cut_first-prefix (c ∷ s) = ground (arith, cut_first-prefix s)

-- The three parts of a root, each without a slash.
pub record Parts (list_prefix key : Text) (r : RootOf) : Type 0 where
  pub name : Text
  pub plain_namespace : plain r.namespace ≡ true
  pub plain_name : plain name ≡ true
  pub plain_uid : plain r.uid ≡ true
  pub filled : (text_eq r.namespace [] || (text_eq name [] || text_eq r.uid [])) ≡ false
  pub root_shape : r.root ≡ list_prefix ++ join_slash (r.namespace ∷ name ∷ r.uid ∷ [])
  pub in_root : has_prefix key r.root ≡ true

three_parts :
    (s : Text) (lp : Text) (r : RootOf)
    → root_of_parts lp (split_n 3 s) ≡ some r
    → (t : Text) × (u : Text) × ((cut_first s).1 ≡ some t) × ((cut_first t).1 ≡ some u)
unfolding split_n root_of_parts
three_parts s lp r h = elim (Option-cases (cut_first s).1) [
  | inl e ↦ ground (arith, rw (split_n, e, root_of_parts) at h)
  | inr (t, e) ↦ elim (Option-cases (cut_first t).1) [
    | inl f ↦ ground (arith, rw (split_n, e, f, root_of_parts) at h)
    | inr (u, f) ↦ (t, u, e, f)
  ]
]

pub root_of-trimmed :
    (lp k : Text) (r : RootOf)
    → root_of lp k ≡ some r
    → (has_prefix k lp ≡ true) × (root_of_parts lp (split_n 3 (trim_prefix k lp)) ≡ some r)
unfolding root_of trim_prefix
root_of-trimmed lp k r h = elim (Bool-cases (has_prefix k lp)) [
  | inl e ↦ elim (Bool-cases (text_eq (trim_prefix k lp) k)) [
    | inl f ↦ ground (arith, rw (root_of, f) at h)
    | inr f ↦ (e, rw (root_of, f) at h)
  ]
  | inr e ↦ ground (arith, rw (root_of, trim_prefix, e, text_eq_refl k) at h)
]

parts_some :
    (lp a b c : Text) (more : List Text) (r : RootOf)
    → root_of_parts lp (a ∷ b ∷ c ∷ more) ≡ some r
    → ((text_eq a [] || (text_eq b [] || text_eq c [])) ≡ false)
      × (r ≡ record { root = lp ++ join_slash (a ∷ b ∷ c ∷ []); namespace = a; uid = c })
unfolding root_of_parts
parts_some lp a b c more r h = elim (Bool-cases (text_eq a [] || (text_eq b [] || text_eq c []))) [
  | inl e ↦ ground (arith, rw (root_of_parts, e) at h)
  | inr e ↦ (e, ground (arith, rw (root_of_parts, e) at h))
]

has_prefix-part :
    (a s t : Text) → has_prefix s t ≡ true → has_prefix (a ++ slash ∷ s) (a ++ slash ∷ t) ≡ true
unfolding has_prefix
has_prefix-part a s t h = has_prefix-append a (slash ∷ s) (slash ∷ t) ∙ h

in_join :
    (lp a b c u : Text)
    → has_prefix u c ≡ true
    → has_prefix (lp ++ (a ++ slash ∷ (b ++ slash ∷ u))) (lp ++ join_slash (a ∷ b ∷ c ∷ [])) ≡ true
unfolding join_slash
in_join lp a b c u h =
    has_prefix-append lp (a ++ slash ∷ (b ++ slash ∷ u)) (a ++ slash ∷ (b ++ slash ∷ c))
    ∙ has_prefix-part a (b ++ slash ∷ u) (b ++ slash ∷ c) (has_prefix-part b u c h)

trim_prefix-whole : (k lp : Text) → has_prefix k lp ≡ true → k ≡ lp ++ trim_prefix k lp
unfolding trim_prefix
trim_prefix-whole k lp h = sym (rw (trim_prefix, h) (append-drop k lp h))

key-parts :
    (lp k t u : Text)
    → has_prefix k lp ≡ true
    → (cut_first (trim_prefix k lp)).1 ≡ some t
    → (cut_first t).1 ≡ some u
    → k ≡ lp ++ ((cut_first (trim_prefix k lp)).0 ++ slash ∷ ((cut_first t).0 ++ slash ∷ u))
key-parts lp k t u h e f =
    let rest = trim_prefix k lp in
    trim_prefix-whole k lp h
    ∙ ap (lp ++◌) (cut_first-some rest t e)
    ∙ ap (λ x. lp ++ ((cut_first rest).0 ++ slash ∷ x)) (cut_first-some t u f)

pub root_of-Parts : (lp k : Text) (r : RootOf) → root_of lp k ≡ some r → Parts lp k r
unfolding split_n
root_of-Parts lp k r h =
    let (p, g) = root_of-trimmed lp k r h in
    let rest = trim_prefix k lp in
    let (t, u, e, f) = three_parts rest lp r g in
    let (n, q) =
      parts_some lp (cut_first rest).0 (cut_first t).0 (cut_first u).0 _ r
        (rw (split_n, e, f) at g) in
    let made : RootOf = record {
      root = lp ++ join_slash ((cut_first rest).0 ∷ (cut_first t).0 ∷ (cut_first u).0 ∷ []);
      namespace = (cut_first rest).0;
      uid = (cut_first u).0;
    } in
    let parts : Parts lp k made = record {
      name = (cut_first t).0;
      plain_namespace = cut_first-plain rest;
      plain_name = cut_first-plain t;
      plain_uid = cut_first-plain u;
      filled = n;
      root_shape = refl;
      in_root =
          subst (λ x. has_prefix x made.root ≡ true) (sym (key-parts lp k t u p e f))
            (in_join lp _ _ _ u (cut_first-prefix u));
    } in
    subst (Parts lp k) (sym q) parts

-- The third part of a root.
third : Text → Text
third s = elim (cut_first s).1 [
  | none ↦ []
  | some t ↦ elim (cut_first t).1 [ none ↦ [] | some u ↦ u ]
]

third-join_slash :
    (a b c : Text) → plain a ≡ true → plain b ≡ true → third (join_slash (a ∷ b ∷ c ∷ [])) ≡ c
unfolding third join_slash
third-join_slash a b c p q =
    rw (third, join_slash, cut_first-part a (b ++ slash ∷ c) p, cut_first-part b c q) refl

-- A root belongs to one uid.
pub root_of-uid :
    (lp i j : Text) (r s : RootOf)
    → root_of lp i ≡ some r
    → root_of lp j ≡ some s
    → r.root ≡ s.root
    → r.uid ≡ s.uid
root_of-uid lp i j r s h g e =
    let p = root_of-Parts lp i r h in
    let q = root_of-Parts lp j s g in
    sym (third-join_slash r.namespace p.name r.uid p.plain_namespace p.plain_name)
    ∙ ap third (append_cancel_left lp _ _ (sym p.root_shape ∙ e ∙ q.root_shape))
    ∙ third-join_slash s.namespace q.name s.uid q.plain_namespace q.plain_name
