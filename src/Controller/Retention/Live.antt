-- ===== src/Controller/Retention/Live.antt =====
-- operator/internal/controller/retentiongc.go: a pass and the objects of the environments that are alive.
use ai_sandbox.Base.{
  ◌++◌, ◌≡◌, refl, ◌≢◌, inl, inr, Bool-cases, All, All-mono, List, Text, [], arith, text_eq, true,
  false, ◌∷◌, some, has_prefix, has_prefix-shorter, has, length, ℕ, ◌⊎◌, Option-cases,
}
use ai_sandbox.Api.Environment.{SandboxEnvironment}
use ai_sandbox.Storage.Path.{root}
use ai_sandbox.Storage.Backend.{Backend}
use ai_sandbox.Controller.RootKeys.{RootOf, cluster_prefix, root_of}
use ai_sandbox.Controller.Retention.{
  RetentionGc, RetentionStats, SandboxClass, by_class, expired, finish, live_uids, no_retention,
  run_once, s3_prefix_of, sweep_class, sweep_classes,
}
use ai_sandbox.Controller.Retention.Roots.{root_of-Parts}
use ai_sandbox.Controller.Retention.Places.{root-cluster_prefix}
use ai_sandbox.Controller.Retention.Keeps.{Owned, orphan_spares, layout_spares}
use ai_sandbox.Controller.Retention.Deletes.{sweep_class-deletes_only}
use ai_sandbox.Controller.Retention.Passes.{Safe, sweep_class-keeps}

outside_prefix : (lp k x : Text) → has_prefix k lp ≡ false → has_prefix k (lp ++ x) ≡ false
outside_prefix lp k x h = elim (Bool-cases (has_prefix k (lp ++ x))) [
  | inr f ↦ f
  | inl t ↦ ground (arith, has_prefix-shorter k lp x t, h)
]

by_class-All {ℓ} :
    (P : SandboxEnvironment → Type ℓ) (name : Text) (envs : List SandboxEnvironment)
    → All P envs
    → All P (by_class name envs)
unfolding by_class
by_class-All P name [] a = tt
by_class-All P name (e ∷ envs) a = elim (Bool-cases (text_eq e.spec.class_ref name)) [
  | inl x ↦ rw x (a.0, by_class-All P name envs a.1)
  | inr x ↦ rw x (by_class-All P name envs a.1)
]

-- Another environment of the list: its uid is as long, and not the same once it is expired.
abbrev pub Beside :
    {H : Type 0} → RetentionGc H → ℕ → SandboxEnvironment → SandboxEnvironment → Type 0
Beside gc now e f = (length e.uid ≡ length f.uid) × (expired gc.ttl now f ≡ true → e.uid ≢ f.uid)

module _ {W H : Type 0} ⦃store : Backend W H⦄ where
  -- How a class meets an object of an environment: the class has the prefix of the object and the uids
  -- of the stored roots are as long as the environment's; or what the class lists does not contain the
  -- key; or the class has another store.
  abbrev pub Meets : RetentionGc H → W → H → Text → SandboxEnvironment → Text → Text → H → Type 0
  Meets gc w g prefix e k p h =
      ((p ≡ prefix)
        × ((i : Text) (r : RootOf)
            → store.stored w h i ≡ true
            → root_of (cluster_prefix prefix gc.cluster_id) i ≡ some r
            → length e.uid ≡ length r.uid))
      ⊎ ((has_prefix k (cluster_prefix p gc.cluster_id) ≡ false)
          ⊎ ((top : Text) → Safe store h g k top))

  class_keeps :
      (gc : RetentionGc H) (h g : H) (prefix p k : Text) (now : ℕ) (e : SandboxEnvironment)
      (live : List Text) (envs : List SandboxEnvironment) (s : RetentionStats) (w : W)
      → Owned prefix gc.cluster_id e k
      → All (Beside gc now e) envs
      → has e.uid live ≡ true
      → Meets gc w g prefix e k p h
      → store.stored w g k ≡ true
      → store.stored (sweep_class gc p now live envs (inr h) (s, w)).1 g k ≡ true
  class_keeps gc h g prefix p k now e live envs s w own ns m (inl (q, u)) t = rw q (
      sweep_class-keeps gc h g prefix k now live envs s w
        (All-mono
          (λ f b x l y w'.
            store.kept w' h g (root l) k
              (layout_spares prefix gc.cluster_id e f k l own y b.0 (b.1 x)))
          envs ns)
        (λ i r a b d w'.
          store.kept w' h g r.root k
            (orphan_spares prefix gc.cluster_id e k i r live own b m d (u i r a b)))
        t)
  class_keeps gc h g prefix p k now e live envs s w own ns m (inr (inl x)) t =
      sweep_class-keeps gc h g p k now live envs s w
        (All-mono
          (λ f b z l y w'. store.kept w' h g (root l) k (
            rw (root-cluster_prefix p gc.cluster_id f l y)
              (outside_prefix (cluster_prefix p gc.cluster_id) k _ x)))
          envs ns)
        (λ i r a b d w'. store.kept w' h g r.root k (
          rw (root_of-Parts _ i r b).root_shape
            (outside_prefix (cluster_prefix p gc.cluster_id) k _ x)))
        t
  class_keeps gc h g prefix p k now e live envs s w own ns m (inr (inr x)) t =
      sweep_class-keeps gc h g p k now live envs s w (All-mono (λ f b z l y. x (root l)) envs ns)
        (λ i r a b d. x r.root) t

  class_keeps_any :
      (gc : RetentionGc H) (g : H) (prefix p k : Text) (now : ℕ) (e : SandboxEnvironment)
      (live : List Text) (envs : List SandboxEnvironment) (x : Text ⊎ H) (s : RetentionStats)
      (w : W)
      → Owned prefix gc.cluster_id e k
      → All (Beside gc now e) envs
      → has e.uid live ≡ true
      → ((h : H) → x ≡ inr h → Meets gc w g prefix e k p h)
      → store.stored w g k ≡ true
      → store.stored (sweep_class gc p now live envs x (s, w)).1 g k ≡ true
  unfolding sweep_class
  class_keeps_any gc g prefix p k now e live envs (inl x) s w own ns m f t = t
  class_keeps_any gc g prefix p k now e live envs (inr h) s w own ns m f t =
      class_keeps gc h g prefix p k now e live envs s w own ns m (f h refl) t

  -- Every class meets the object, with the prefix and the store that it has.
  abbrev pub MeetsAll :
      RetentionGc H → W → H → Text → SandboxEnvironment → Text → SandboxClass → Type 0
  MeetsAll gc w g prefix e k class =
      (p : Text) (h : H)
      → s3_prefix_of class ≡ some p
      → gc.backend_for class ≡ inr h
      → Meets gc w g prefix e k p h

  Meets-later :
      (gc : RetentionGc H) (w w' : W) (g h : H) (prefix p k : Text) (e : SandboxEnvironment)
      → ((i : Text) → store.stored w' h i ≡ true → store.stored w h i ≡ true)
      → Meets gc w g prefix e k p h
      → Meets gc w' g prefix e k p h
  Meets-later gc w w' g h prefix p k e f (inl (q, u)) = inl (q, λ i r a. u i r (f i a))
  Meets-later gc w w' g h prefix p k e f (inr x) = inr x

  sweep_classes-keeps :
      (gc : RetentionGc H) (g : H) (prefix k : Text) (now : ℕ) (e : SandboxEnvironment)
      (envs : List SandboxEnvironment) (classes : List SandboxClass) (s : RetentionStats) (w : W)
      → Owned prefix gc.cluster_id e k
      → All (Beside gc now e) envs
      → has e.uid (live_uids envs) ≡ true
      → All (MeetsAll gc w g prefix e k) classes
      → store.stored w g k ≡ true
      → store.stored (sweep_classes gc now envs classes (s, w)).1 g k ≡ true
  unfolding sweep_classes
  sweep_classes-keeps gc g prefix k now e envs [] s w own ns m a t = t
  sweep_classes-keeps gc g prefix k now e envs (class ∷ classes) s w own ns m a t =
      elim (Option-cases (s3_prefix_of class)) [
        | inl x ↦
            rw (sweep_classes, x)
              (sweep_classes-keeps gc g prefix k now e envs classes s w own ns m a.1 t)
        | inr (p, x) ↦
            let swept =
              sweep_class gc p now (live_uids envs) (by_class class.name envs)
                (gc.backend_for class) (s, w) in
            rw (sweep_classes, x)
              (sweep_classes-keeps gc g prefix k now e envs classes swept.0 swept.1 own ns m
                (All-mono
                  (λ c f q h b y.
                    Meets-later gc w swept.1 g h prefix q k e
                      (λ i. sweep_class-deletes_only gc h p i now _ _ (gc.backend_for class) s w)
                      (f q h b y))
                  classes a.1)
                (class_keeps_any gc g prefix p k now e _ _ (gc.backend_for class) s w own
                  (by_class-All (Beside gc now e) class.name envs ns) m (λ h. a.0 p h x) t))
      ]

  -- A pass deletes nothing of an environment that is alive: where the environment is in the list, is not
  -- itself past the TTL, and an object of it is stored under the key of an accepted layout, the object is
  -- stored after the pass, whatever DeletePrefix answers. It assumes that the uids of the list have one
  -- length, that an expired environment of the list has another uid, and of every class with a backend
  -- that it has another store, or lists keys of which the object's is none, or has the prefix of the
  -- object, and then the uids in its stored keys have that length as well.
  pub run_once-keeps :
      (gc : RetentionGc H) (g : H) (prefix k : Text) (start now end : ℕ) (e : SandboxEnvironment)
      (envs : List SandboxEnvironment) (classes : List SandboxClass) (w : W)
      → Owned prefix gc.cluster_id e k
      → All (Beside gc now e) envs
      → has e.uid (live_uids envs) ≡ true
      → All (MeetsAll gc w g prefix e k) classes
      → store.stored w g k ≡ true
      → store.stored (run_once gc (inr envs) (inr classes) start now end w).1 g k ≡ true
  unfolding run_once finish
  run_once-keeps gc g prefix k start now end e envs classes w own ns m a t =
      sweep_classes-keeps gc g prefix k now e envs classes (no_retention (length envs)) w own ns m a
        t
