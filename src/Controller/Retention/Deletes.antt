-- ===== src/Controller/Retention/Deletes.antt =====
-- operator/internal/controller/retentiongc.go: a pass puts nothing into a store.
use ai_sandbox.Base.{
  ◌≡◌, ◌&&◌, inl, inr, Bool-cases, List, Text, [], refl, text_eq, true, ◌∷◌, none, some, has, ℕ,
  Option, ◌⊎◌, not,
}
use ai_sandbox.Base.Int.{pos, ltb_ℤ}
use ai_sandbox.Api.Environment.{SandboxEnvironment}
use ai_sandbox.Storage.Path.{Layout, root, InvalidKey}
use ai_sandbox.Storage.Backend.{Backend}
use ai_sandbox.Controller.RootKeys.{RootOf}
use ai_sandbox.Controller.Retention.{
  RetentionGc, RetentionStats, expired, reclaim, reclaimed, reclaim_layout, sweep_keys,
  sweep_listed, sweep_orphans, sweep_retention, sweep_root, sweep_class, count_deleted,
  count_orphan,
}

reclaimed-world :
    {W : Type 0} (count : RetentionStats → RetentionStats) (s : RetentionStats) (a : (Text ⊎ ℕ) × W)
    → (reclaimed count s a).1 ≡ a.1
unfolding reclaimed
reclaimed-world count s (inl e, w) = refl
reclaimed-world count s (inr n, w) = refl

module _ {W H : Type 0} ⦃store : Backend W H⦄ where
  -- A step of a pass changes the stores as DeletePrefix of one root does, or not at all.
  pub reclaim-world :
      (gc : RetentionGc H) (h : H) (count : RetentionStats → RetentionStats) (root : Text)
      (s : RetentionStats) (w : W)
      → ((reclaim gc h count root (s, w)).1 ≡ w)
        ⊎ ((reclaim gc h count root (s, w)).1 ≡ (store.delete_prefix w h root).1)
  unfolding reclaim
  reclaim-world gc h count root s w = elim (Bool-cases gc.dry_run) [
    | inl e ↦ inl (rw (reclaim, e) refl)
    | inr e ↦ inr (rw (reclaim, e) (reclaimed-world count s (store.delete_prefix w h root)))
  ]

  pub reclaim-deletes_only :
      (gc : RetentionGc H) (h g : H) (count : RetentionStats → RetentionStats) (root k : Text)
      (st : RetentionStats × W)
      → store.stored (reclaim gc h count root st).1 g k ≡ true
      → store.stored st.1 g k ≡ true
  reclaim-deletes_only gc h g count root k (s, w) t = elim (reclaim-world gc h count root s w) [
    | inl e ↦ rw e at t
    | inr e ↦ store.deletes_only w h g root k (rw e at t)
  ]

  reclaim_layout-deletes_only :
      (gc : RetentionGc H) (h g : H) (k : Text) (x : InvalidKey ⊎ Layout) (st : RetentionStats × W)
      → store.stored (reclaim_layout gc h x st).1 g k ≡ true
      → store.stored st.1 g k ≡ true
  unfolding reclaim_layout
  reclaim_layout-deletes_only gc h g k (inl x) (s, w) t = t
  reclaim_layout-deletes_only gc h g k (inr l) st t =
      reclaim-deletes_only gc h g count_deleted (root l) k st t

  pub sweep_retention-deletes_only :
      (gc : RetentionGc H) (h g : H) (prefix k : Text) (now : ℕ) (envs : List SandboxEnvironment)
      (st : RetentionStats × W)
      → store.stored (sweep_retention gc h prefix now envs st).1 g k ≡ true
      → store.stored st.1 g k ≡ true
  unfolding sweep_retention
  sweep_retention-deletes_only gc h g prefix k now [] st t = t
  sweep_retention-deletes_only gc h g prefix k now (f ∷ envs) st t =
      let t' = sweep_retention-deletes_only gc h g prefix k now envs _ t in
      elim (Bool-cases (expired gc.ttl now f)) [
        | inl x ↦ reclaim_layout-deletes_only gc h g k _ st (rw x at t')
        | inr x ↦ rw x at t'
      ]

  sweep_root-deletes_only :
      (gc : RetentionGc H) (h g : H) (k : Text) (live seen : List Text) (o : Option RootOf)
      (st : RetentionStats × W)
      → store.stored (sweep_root gc h live o (seen, st)).1.1 g k ≡ true
      → store.stored st.1 g k ≡ true
  unfolding sweep_root
  sweep_root-deletes_only gc h g k live seen none st t = t
  sweep_root-deletes_only gc h g k live seen (some r) st t =
      elim (Bool-cases (not (text_eq gc.namespace []) && not (text_eq r.namespace gc.namespace))) [
        | inl a ↦ rw a at t
        | inr a ↦ elim (Bool-cases (has r.root seen)) [
          | inl b ↦ rw (a, b) at t
          | inr b ↦ elim (Bool-cases (has r.uid live)) [
            | inl c ↦ rw (a, b, c) at t
            | inr c ↦ reclaim-deletes_only gc h g count_orphan r.root k st (rw (a, b, c) at t)
          ]
        ]
      ]

  pub sweep_keys-deletes_only :
      (gc : RetentionGc H) (h g : H) (lp k : Text) (live ks : List Text)
      (st : List Text × (RetentionStats × W))
      → store.stored (sweep_keys gc h lp live ks st).1.1 g k ≡ true
      → store.stored st.1.1 g k ≡ true
  unfolding sweep_keys
  sweep_keys-deletes_only gc h g lp k live [] st t = t
  sweep_keys-deletes_only gc h g lp k live (i ∷ ks) (seen, st) t =
      sweep_root-deletes_only gc h g k live seen _ st
        (sweep_keys-deletes_only gc h g lp k live ks _ t)

  sweep_listed-deletes_only :
      (gc : RetentionGc H) (h g : H) (lp k : Text) (live : List Text) (x : Text ⊎ List Text)
      (st : RetentionStats × W)
      → store.stored (sweep_listed gc h lp live x st).1 g k ≡ true
      → store.stored st.1 g k ≡ true
  unfolding sweep_listed
  sweep_listed-deletes_only gc h g lp k live (inl x) (s, w) t = t
  sweep_listed-deletes_only gc h g lp k live (inr ks) st t =
      sweep_keys-deletes_only gc h g lp k live ks ([], st) t

  pub sweep_class-deletes_only :
      (gc : RetentionGc H) (g : H) (prefix k : Text) (now : ℕ) (live : List Text)
      (envs : List SandboxEnvironment) (x : Text ⊎ H) (s : RetentionStats) (w : W)
      → store.stored (sweep_class gc prefix now live envs x (s, w)).1 g k ≡ true
      → store.stored w g k ≡ true
  unfolding sweep_class sweep_orphans
  sweep_class-deletes_only gc g prefix k now live envs (inl e) s w t = t
  sweep_class-deletes_only gc g prefix k now live envs (inr h) s w t =
      elim (Bool-cases (ltb_ℤ (pos 0) gc.ttl)) [
        | inr x ↦ sweep_listed-deletes_only gc h g _ k live _ (s, w) (rw x at t)
        | inl x ↦
            sweep_retention-deletes_only gc h g prefix k now envs (s, w)
              (sweep_listed-deletes_only gc h g _ k live _ _ (rw x at t))
      ]
