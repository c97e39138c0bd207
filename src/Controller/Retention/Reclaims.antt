-- ===== src/Controller/Retention/Reclaims.antt =====
-- operator/internal/controller/retentiongc.go: what is left after the sweep of the orphans.
use ai_sandbox.Base.{
  ◌≡◌, ◌&&◌, ◌⊎◌, inl, inr, Bool-cases, List, Text, [], ◌∷◌, arith, text_eq, true, false, not, none,
  some, Option, has_prefix, has, ◌≤◌, sym, refl, eq_of_text_eq,
}
use mathlib.Core.Path.{subst}
use ai_sandbox.Storage.Backend.{Backend}
use ai_sandbox.Controller.RootKeys.{RootOf, cluster_prefix, root_of}
use ai_sandbox.Controller.Retention.{
  RetentionGc, RetentionStats, count_orphan, failed, sweep_keys, sweep_listed, sweep_orphans,
  sweep_root,
}
use ai_sandbox.Controller.Retention.Roots.{root_of-Parts, root_of-trimmed, root_of-uid}
use ai_sandbox.Controller.Retention.Deletes.{reclaim-deletes_only, sweep_keys-deletes_only}
use ai_sandbox.Controller.Retention.Seen.{
  in_scope, reclaim-errors, sweep_root-errors, sweep_keys-errors, sweep_keys-covers,
}

module _ {W H : Type 0} ⦃store : Backend W H⦄ where
  -- Of the roots seen, only those of live uids have objects.
  Settled : H → Text → List Text → List Text → W → Type 0
  Settled h lp live seen w =
      (k : Text) (r : RootOf)
      → store.stored w h k ≡ true
      → root_of lp k ≡ some r
      → has r.root seen ≡ true
      → has r.uid live ≡ true

  Settled-live :
      (h : H) (lp i : Text) (live seen : List Text) (r : RootOf) (w : W)
      → root_of lp i ≡ some r
      → has r.uid live ≡ true
      → Settled h lp live seen w
      → Settled h lp live (r.root ∷ seen) w
  unfolding Settled has
  Settled-live h lp i live seen r w q l f k t m g z = elim (Bool-cases (text_eq t.root r.root)) [
    | inl e ↦ rw (root_of-uid lp k i t r g q (eq_of_text_eq t.root r.root e)) l
    | inr e ↦ f k t m g (rw e at z)
  ]

  Settled-gone :
      (h : H) (lp : Text) (live seen : List Text) (r : RootOf) (w w' : W)
      → ((k : Text) → store.stored w' h k ≡ true → store.stored w h k ≡ true)
      → ((k : Text) → has_prefix k r.root ≡ true → store.stored w' h k ≡ false)
      → Settled h lp live seen w
      → Settled h lp live (r.root ∷ seen) w'
  unfolding Settled has
  Settled-gone h lp live seen r w w' only g f k t m q z =
      elim (Bool-cases (text_eq t.root r.root)) [
        | inl e ↦
            let p =
              subst (λ x. has_prefix k x ≡ true) (eq_of_text_eq t.root r.root e)
                (root_of-Parts lp k t q).in_root in
            ground (arith, m, g k p)
        | inr e ↦ f k t (only k m) q (rw e at z)
      ]

  sweep_root-Settled :
      (gc : RetentionGc H) (h : H) (lp i : Text) (live seen : List Text) (o : Option RootOf)
      (s : RetentionStats) (w : W)
      → gc.dry_run ≡ false
      → root_of lp i ≡ o
      → (sweep_root gc h live o (seen, (s, w))).1.0.errors ≤ s.errors
      → Settled h lp live seen w
      → Settled h lp live
          (sweep_root gc h live o (seen, (s, w))).0
          (sweep_root gc h live o (seen, (s, w))).1.1
  unfolding sweep_root
  sweep_root-Settled gc h lp i live seen none s w d q e f = f
  sweep_root-Settled gc h lp i live seen (some r) s w d q e f =
      elim (Bool-cases (not (text_eq gc.namespace []) && not (text_eq r.namespace gc.namespace))) [
        | inl a ↦ rw a f
        | inr a ↦ elim (Bool-cases (has r.root seen)) [
          | inl b ↦ rw (a, b) f
          | inr b ↦ elim (Bool-cases (has r.uid live)) [
            | inl c ↦ rw (a, b, c) (Settled-live h lp i live seen r w q c f)
            | inr c ↦ elim (reclaim-errors gc h r.root s w d) [
              | inl x ↦ absurd (omega (arith, x, rw (sweep_root, a, b, c) at e))
              | inr (x, g) ↦
                  rw (a, b, c)
                    (Settled-gone h lp live seen r w _
                      (λ k. reclaim-deletes_only gc h h count_orphan r.root k (s, w)) g f)
            ]
          ]
        ]
      ]

  sweep_keys-Settled :
      (gc : RetentionGc H) (h : H) (lp : Text) (live ks seen : List Text) (s : RetentionStats)
      (w : W)
      → gc.dry_run ≡ false
      → (sweep_keys gc h lp live ks (seen, (s, w))).1.0.errors ≤ s.errors
      → Settled h lp live seen w
      → Settled h lp live
          (sweep_keys gc h lp live ks (seen, (s, w))).0
          (sweep_keys gc h lp live ks (seen, (s, w))).1.1
  unfolding sweep_keys
  sweep_keys-Settled gc h lp live [] seen s w d e f = f
  sweep_keys-Settled gc h lp live (i ∷ ks) seen s w d e f =
      let st = sweep_root gc h live (root_of lp i) (seen, (s, w)) in
      let up = sweep_root-errors gc h live seen (root_of lp i) s w d in
      let on = sweep_keys-errors gc h lp live ks st.0 st.1.0 st.1.1 d in
      sweep_keys-Settled gc h lp live ks st.0 st.1.0 st.1.1 d (omega (arith, e, up))
        (sweep_root-Settled gc h lp i live seen (root_of lp i) s w d refl (omega (arith, e, on)) f)

  sweep_listed-live :
      (gc : RetentionGc H) (h : H) (lp k : Text) (r : RootOf) (live : List Text)
      (x : Text ⊎ List Text) (s : RetentionStats) (w : W)
      → x ≡ store.list w h lp
      → gc.dry_run ≡ false
      → (sweep_listed gc h lp live x (s, w)).0.errors ≤ s.errors
      → root_of lp k ≡ some r
      → in_scope gc r ≡ true
      → store.stored (sweep_listed gc h lp live x (s, w)).1 h k ≡ true
      → has r.uid live ≡ true
  unfolding sweep_listed failed Settled has
  sweep_listed-live gc h lp k r live (inl x) s w q d e g p t = absurd (omega (arith, e))
  sweep_listed-live gc h lp k r live (inr ks) s w q d e g p t =
      let t0 = sweep_keys-deletes_only gc h h lp k live ks ([], (s, w)) t in
      let m = store.listed w h lp k ks (sym q) in
      sweep_keys-Settled gc h lp live ks [] s w d e (λ i z a b c. ground (arith, c)) k r t g
        (sweep_keys-covers gc h lp k r live ks [] (s, w) g p
          (ground (arith, m, t0, (root_of-trimmed lp k r g).0)))

  -- Nothing of a deleted environment is left: where the sweep of the orphans of a class, which is not a
  -- dry run, counts no further error, every object that is stored after it under a key from which
  -- rootOf reads a root, in the watched namespace or in any where none is set, belongs to a live uid.
  pub sweep_orphans-reclaims :
      (gc : RetentionGc H) (h : H) (prefix k : Text) (r : RootOf) (live : List Text)
      (s : RetentionStats) (w : W)
      → gc.dry_run ≡ false
      → (sweep_orphans gc h prefix live (s, w)).0.errors ≤ s.errors
      → root_of (cluster_prefix prefix gc.cluster_id) k ≡ some r
      → in_scope gc r ≡ true
      → store.stored (sweep_orphans gc h prefix live (s, w)).1 h k ≡ true
      → has r.uid live ≡ true
  unfolding sweep_orphans
  sweep_orphans-reclaims gc h prefix k r live s w d e g p t =
      let lp = cluster_prefix prefix gc.cluster_id in
      sweep_listed-live gc h lp k r live (store.list w h lp) s w refl d e g p t
