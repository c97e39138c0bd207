-- ===== src/Controller/Retention/Keeps.antt =====
-- operator/internal/controller/retentiongc.go: what a sweep deletes nothing of.
use ai_sandbox.Base.{
  ◌++◌, ◌≡◌, ◌≢◌, inl, inr, Bool-cases, List, Text, [], arith, refl, true, false, ◌∷◌, ap, ◌∙◌, sym,
  some, ==_iff, has_prefix, has_prefix-append, has_prefix-length, has, length,
}
use mathlib.Core.Path.{subst}
use ai_sandbox.Api.Environment.{SandboxEnvironment}
use ai_sandbox.Storage.Path.{slash, join_slash, new_layout, Layout, root}
use ai_sandbox.Storage.Path.Keys.{Object, object_path, key}
use ai_sandbox.Controller.RootKeys.{RootOf, cluster_prefix, root_of}
use ai_sandbox.Controller.Retention.{identity}
use ai_sandbox.Controller.Retention.Roots.{plain, root_of-Parts}
use ai_sandbox.Controller.Retention.Places.{
  env_segments, env_segments-plain, key-cluster_prefix, root-cluster_prefix,
}

prefix_part :
    (a b s t : Text)
    → plain a ≡ true
    → plain b ≡ true
    → has_prefix (a ++ slash ∷ s) (b ++ slash ∷ t) ≡ true
    → (a ≡ b) × (has_prefix s t ≡ true)
unfolding plain has_prefix
prefix_part [] [] s t p q h = (refl, ground (arith, h))
prefix_part [] (d ∷ b) s t p q h = ground (arith, q, h)
prefix_part (c ∷ a) [] s t p q h = ground (arith, p, h)
prefix_part (c ∷ a) (d ∷ b) s t p q h = ground (arith, prefix_part a b s t, ==_iff c d)

below_uid :
    (e : SandboxEnvironment) (o : Object)
    → (x : Text) × (join_slash (env_segments e ++ object_path o)
        ≡ e.namespace ++ slash ∷ (e.name ++ slash ∷ (e.uid ++ x)))
unfolding join_slash
below_uid e (Object.snapshot id f) = (_, refl)
below_uid e Object.run = (_, refl)
below_uid e Object.context = (_, refl)
below_uid e Object.latest_pointer = (_, refl)

-- A root of three plain parts is a prefix of a key only where its uid starts the key's.
same_uid :
    (lp a b u x a' b' u' : Text)
    → plain a ≡ true
    → plain b ≡ true
    → plain a' ≡ true
    → plain b' ≡ true
    → length u ≡ length u'
    → has_prefix
        (lp ++ (a ++ slash ∷ (b ++ slash ∷ (u ++ x))))
        (lp ++ join_slash (a' ∷ b' ∷ u' ∷ []))
      ≡ true
    → u ≡ u'
unfolding join_slash
same_uid lp a b u x a' b' u' pa pb pa' pb' n h =
    let h1 =
      sym (
        has_prefix-append lp (a ++ slash ∷ (b ++ slash ∷ (u ++ x)))
          (a' ++ slash ∷ (b' ++ slash ∷ u')))
      ∙ h in
    let h2 = (prefix_part a a' (b ++ slash ∷ (u ++ x)) (b' ++ slash ∷ u') pa pa' h1).1 in
    let h3 = (prefix_part b b' (u ++ x) u' pb pb' h2).1 in has_prefix-length u x u' h3 n

-- A root deletes nothing of an environment whose uid is as long and another one.
pub record Owned (prefix cluster_id : Text) (e : SandboxEnvironment) (k : Text) : Type 0 where
  pub layout : Layout
  pub object : Object
  pub accepted : new_layout prefix (identity cluster_id e) ≡ inr layout
  pub has_key : key layout object ≡ inr k

spared :
    (prefix c : Text) (e : SandboxEnvironment) (k a b u : Text)
    → Owned prefix c e k
    → plain a ≡ true
    → plain b ≡ true
    → length e.uid ≡ length u
    → e.uid ≢ u
    → has_prefix k (cluster_prefix prefix c ++ join_slash (a ∷ b ∷ u ∷ [])) ≡ false
spared prefix c e k a b u own pa pb n d =
    let (pn, (pm, pu)) = env_segments-plain prefix c e own.layout own.accepted in
    let (x, q) = below_uid e own.object in
    let at_key =
      key-cluster_prefix prefix c e own.layout own.object k own.accepted own.has_key
      ∙ ap (cluster_prefix prefix c ++◌) q in
    elim (Bool-cases (has_prefix k (cluster_prefix prefix c ++ join_slash (a ∷ b ∷ u ∷ [])))) [
      | inr f ↦ f
      | inl t ↦ absurd (
          d (
            same_uid (cluster_prefix prefix c) e.namespace e.name e.uid x a b u pn pm pa pb n (
              subst
                (λ y. has_prefix y (cluster_prefix prefix c ++ join_slash (a ∷ b ∷ u ∷ [])) ≡ true)
                at_key t)))
    ]

has_apart : (u v : Text) (live : List Text) → has u live ≡ true → has v live ≡ false → u ≢ v
has_apart u v live h g e = ground (arith, subst (λ x. has x live ≡ true) e h, g)

pub orphan_spares :
    (prefix c : Text) (e : SandboxEnvironment) (k i : Text) (r : RootOf) (live : List Text)
    → Owned prefix c e k
    → root_of (cluster_prefix prefix c) i ≡ some r
    → has e.uid live ≡ true
    → has r.uid live ≡ false
    → length e.uid ≡ length r.uid
    → has_prefix k r.root ≡ false
orphan_spares prefix c e k i r live own h l d n =
    let p = root_of-Parts (cluster_prefix prefix c) i r h in
    rw p.root_shape (
      spared prefix c e k r.namespace p.name r.uid own p.plain_namespace p.plain_name n
        (has_apart e.uid r.uid live l d))

pub layout_spares :
    (prefix c : Text) (e f : SandboxEnvironment) (k : Text) (l : Layout)
    → Owned prefix c e k
    → new_layout prefix (identity c f) ≡ inr l
    → length e.uid ≡ length f.uid
    → e.uid ≢ f.uid
    → has_prefix k (root l) ≡ false
layout_spares prefix c e f k l own h n d =
    let (pn, (pm, pu)) = env_segments-plain prefix c f l h in
    rw (root-cluster_prefix prefix c f l h)
      (spared prefix c e k f.namespace f.name f.uid own pn pm n d)
