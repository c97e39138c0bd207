-- ===== src/Controller/Retention/Passes.antt =====
-- operator/internal/controller/retentiongc.go: what a pass deletes nothing of.
use ai_sandbox.Base.{
  ◌≡◌, ◌&&◌, inl, inr, Bool-cases, All, List, Text, [], arith, refl, text_eq, true, false, ◌∷◌, sym,
  none, some, has, ℕ, text_eq_refl, Option, ◌⊎◌, not,
}
use ai_sandbox.Base.Int.{pos, ltb_ℤ}
use ai_sandbox.Api.Environment.{SandboxEnvironment}
use ai_sandbox.Storage.Path.{new_layout, Layout, root, InvalidKey}
use ai_sandbox.Storage.Backend.{Backend}
use ai_sandbox.Controller.RootKeys.{RootOf, cluster_prefix, root_of}
use ai_sandbox.Controller.Retention.{
  RetentionGc, RetentionStats, expired, identity, reclaim, reclaim_layout, sweep_keys, sweep_listed,
  sweep_orphans, sweep_retention, sweep_root, sweep_class, count_deleted, count_orphan,
}
use ai_sandbox.Controller.Retention.Deletes.{reclaim-world, sweep_retention-deletes_only}

-- The deletion of a root through one store keeps an object of another or of the same.
abbrev pub Safe : {W H : Type 0} → Backend W H → H → H → Text → Text → Type 0
Safe {W} store h g k top =
    (w : W) → store.stored w g k ≡ true → store.stored (store.delete_prefix w h top).1 g k ≡ true

module _ {W H : Type 0} ⦃store : Backend W H⦄ where
  reclaim-keeps :
      (gc : RetentionGc H) (h g : H) (count : RetentionStats → RetentionStats) (top k : Text)
      (st : RetentionStats × W)
      → Safe store h g k top
      → store.stored st.1 g k ≡ true
      → store.stored (reclaim gc h count top st).1 g k ≡ true
  reclaim-keeps gc h g count top k (s, w) f t = elim (reclaim-world gc h count top s w) [
    | inl e ↦ rw e t
    | inr e ↦ rw e (f w t)
  ]

  reclaim_layout-keeps :
      (gc : RetentionGc H) (h g : H) (k : Text) (x : InvalidKey ⊎ Layout) (st : RetentionStats × W)
      → ((l : Layout) → x ≡ inr l → Safe store h g k (root l))
      → store.stored st.1 g k ≡ true
      → store.stored (reclaim_layout gc h x st).1 g k ≡ true
  unfolding reclaim_layout
  reclaim_layout-keeps gc h g k (inl x) (s, w) f t = t
  reclaim_layout-keeps gc h g k (inr l) st f t =
      reclaim-keeps gc h g count_deleted (root l) k st (f l refl) t

  pub sweep_retention-keeps :
      (gc : RetentionGc H) (h g : H) (prefix k : Text) (now : ℕ) (envs : List SandboxEnvironment)
      (st : RetentionStats × W)
      → All
          (λ f.
            expired gc.ttl now f ≡ true
            → (l : Layout) → new_layout prefix (identity gc.cluster_id f) ≡ inr l
            → Safe store h g k (root l))
          envs
      → store.stored st.1 g k ≡ true
      → store.stored (sweep_retention gc h prefix now envs st).1 g k ≡ true
  unfolding sweep_retention
  sweep_retention-keeps gc h g prefix k now [] st a t = t
  sweep_retention-keeps gc h g prefix k now (f ∷ envs) st a t =
      sweep_retention-keeps gc h g prefix k now envs _ a.1
        (elim (Bool-cases (expired gc.ttl now f)) [
          | inl x ↦ rw x (reclaim_layout-keeps gc h g k _ st (a.0 x) t)
          | inr x ↦ rw x t
        ])

  sweep_root-keeps :
      (gc : RetentionGc H) (h g : H) (k : Text) (live seen : List Text) (o : Option RootOf)
      (st : RetentionStats × W)
      → ((r : RootOf) → o ≡ some r → has r.uid live ≡ false → Safe store h g k r.root)
      → store.stored st.1 g k ≡ true
      → store.stored (sweep_root gc h live o (seen, st)).1.1 g k ≡ true
  unfolding sweep_root
  sweep_root-keeps gc h g k live seen none st f t = t
  sweep_root-keeps gc h g k live seen (some r) st f t =
      elim (Bool-cases (not (text_eq gc.namespace []) && not (text_eq r.namespace gc.namespace))) [
        | inl a ↦ rw a t
        | inr a ↦ elim (Bool-cases (has r.root seen)) [
          | inl b ↦ rw (a, b) t
          | inr b ↦ elim (Bool-cases (has r.uid live)) [
            | inl c ↦ rw (a, b, c) t
            | inr c ↦ rw (a, b, c) (reclaim-keeps gc h g count_orphan r.root k st (f r refl c) t)
          ]
        ]
      ]

  pub sweep_keys-keeps :
      (gc : RetentionGc H) (h g : H) (lp k : Text) (live ks : List Text)
      (st : List Text × (RetentionStats × W))
      → ((i : Text) (r : RootOf)
          → has i ks ≡ true
          → root_of lp i ≡ some r
          → has r.uid live ≡ false
          → Safe store h g k r.root)
      → store.stored st.1.1 g k ≡ true
      → store.stored (sweep_keys gc h lp live ks st).1.1 g k ≡ true
  unfolding sweep_keys has
  sweep_keys-keeps gc h g lp k live [] st f t = t
  sweep_keys-keeps gc h g lp k live (i ∷ ks) (seen, st) f t =
      sweep_keys-keeps gc h g lp k live ks _ (λ j r m. f j r (ground (arith, m)))
        (sweep_root-keeps gc h g k live seen _ st (λ r. f i r (rw (text_eq_refl i) refl)) t)

  sweep_listed-keeps :
      (gc : RetentionGc H) (h g : H) (lp k : Text) (live : List Text) (x : Text ⊎ List Text)
      (s : RetentionStats) (w : W)
      → x ≡ store.list w h lp
      → ((i : Text) (r : RootOf)
          → store.stored w h i ≡ true
          → root_of lp i ≡ some r
          → has r.uid live ≡ false
          → Safe store h g k r.root)
      → store.stored w g k ≡ true
      → store.stored (sweep_listed gc h lp live x (s, w)).1 g k ≡ true
  unfolding sweep_listed
  sweep_listed-keeps gc h g lp k live (inl x) s w q f t = t
  sweep_listed-keeps gc h g lp k live (inr ks) s w q f t =
      sweep_keys-keeps gc h g lp k live ks ([], (s, w))
        (λ i r m. f i r (ground (arith, store.listed w h lp i ks (sym q), m))) t

  -- A class whose roots may all be deleted without loss of an object.
  pub sweep_class-keeps :
      (gc : RetentionGc H) (h g : H) (prefix k : Text) (now : ℕ) (live : List Text)
      (envs : List SandboxEnvironment) (s : RetentionStats) (w : W)
      → All
          (λ f.
            expired gc.ttl now f ≡ true
            → (l : Layout) → new_layout prefix (identity gc.cluster_id f) ≡ inr l
            → Safe store h g k (root l))
          envs
      → ((i : Text) (r : RootOf)
          → store.stored w h i ≡ true
          → root_of (cluster_prefix prefix gc.cluster_id) i ≡ some r
          → has r.uid live ≡ false
          → Safe store h g k r.root)
      → store.stored w g k ≡ true
      → store.stored (sweep_class gc prefix now live envs (inr h) (s, w)).1 g k ≡ true
  unfolding sweep_class sweep_orphans
  sweep_class-keeps gc h g prefix k now live envs s w a f t =
      let lp = cluster_prefix prefix gc.cluster_id in
      elim (Bool-cases (ltb_ℤ (pos 0) gc.ttl)) [
        | inr x ↦ rw x (sweep_listed-keeps gc h g lp k live _ s w refl f t)
        | inl x ↦ rw x (
            sweep_listed-keeps gc h g lp k live _ _ _ refl
              (λ i r m. f i r (sweep_retention-deletes_only gc h h prefix i now envs (s, w) m))
              (sweep_retention-keeps gc h g prefix k now envs (s, w) a t))
      ]
