-- ===== src/Controller/Retention/Seen.antt =====
-- operator/internal/controller/retentiongc.go: the roots that a sweep of the orphans has seen, and
-- its errors.
use ai_sandbox.Base.{
  ◌≡◌, ◌&&◌, ◌⊎◌, inl, inr, Bool, Bool-cases, List, Text, [], ◌∷◌, arith, text_eq, true, false, not,
  none, some, Option, has_prefix, has, ℕ, ◌≤◌, suc, sym, ap, refl, text_eq_refl, eq_of_text_eq,
}
use mathlib.Core.Path.{subst}
use ai_sandbox.Storage.Backend.{Backend}
use ai_sandbox.Controller.RootKeys.{RootOf, root_of}
use ai_sandbox.Controller.Retention.{
  RetentionGc, RetentionStats, count_orphan, failed, reclaim, reclaimed, sweep_keys, sweep_root,
}

-- The guard of the namespace.
abbrev pub in_scope : {H : Type 0} → RetentionGc H → RootOf → Bool
in_scope gc r = not (not (text_eq gc.namespace []) && not (text_eq r.namespace gc.namespace))

module _ {W H : Type 0} ⦃store : Backend W H⦄ where
  pub reclaim-errors :
      (gc : RetentionGc H) (h : H) (top : Text) (s : RetentionStats) (w : W)
      → gc.dry_run ≡ false
      → ((reclaim gc h count_orphan top (s, w)).0.errors ≡ suc s.errors)
        ⊎ (((reclaim gc h count_orphan top (s, w)).0.errors ≡ s.errors)
            × ((k : Text)
                → has_prefix k top ≡ true
                → store.stored (reclaim gc h count_orphan top (s, w)).1 h k ≡ false))
  unfolding reclaim reclaimed failed count_orphan
  reclaim-errors gc h top s w d = rw (reclaim, d) (answered (store.delete_prefix w h top) refl)
    where
      answered :
          (a : (Text ⊎ ℕ) × W)
          → a ≡ store.delete_prefix w h top
          → ((reclaimed count_orphan s a).0.errors ≡ suc s.errors)
            ⊎ (((reclaimed count_orphan s a).0.errors ≡ s.errors)
                × ((k : Text)
                    → has_prefix k top ≡ true
                    → store.stored (reclaimed count_orphan s a).1 h k ≡ false))
      answered (inl e, w') q = inl refl
      answered (inr n, w') q = inr (
        refl,
        λ k p.
            subst (λ x. store.stored x h k ≡ false) (ap (λ x. x.1) (sym q))
              (store.gone w h top k n (ap (λ x. x.0) (sym q)) p),
      )

  -- One listed object: the errors do not fall, and the roots seen grow.
  pub sweep_root-errors :
      (gc : RetentionGc H) (h : H) (live seen : List Text) (o : Option RootOf) (s : RetentionStats)
      (w : W)
      → gc.dry_run ≡ false
      → s.errors ≤ (sweep_root gc h live o (seen, (s, w))).1.0.errors
  unfolding sweep_root
  sweep_root-errors gc h live seen none s w d = omega arith
  sweep_root-errors gc h live seen (some r) s w d =
      elim (Bool-cases (not (text_eq gc.namespace []) && not (text_eq r.namespace gc.namespace))) [
        | inl a ↦ rw a (omega arith)
        | inr a ↦ elim (Bool-cases (has r.root seen)) [
          | inl b ↦ rw (a, b) (omega arith)
          | inr b ↦ elim (Bool-cases (has r.uid live)) [
            | inl c ↦ rw (a, b, c) (omega arith)
            | inr c ↦
                rw (a, b, c)
                  (elim (reclaim-errors gc h r.root s w d) [
                    | inl e ↦ omega (arith, e)
                    | inr (e, g) ↦ omega (arith, e)
                  ])
          ]
        ]
      ]

  pub sweep_keys-errors :
      (gc : RetentionGc H) (h : H) (lp : Text) (live ks seen : List Text) (s : RetentionStats)
      (w : W)
      → gc.dry_run ≡ false
      → s.errors ≤ (sweep_keys gc h lp live ks (seen, (s, w))).1.0.errors
  unfolding sweep_keys
  sweep_keys-errors gc h lp live [] seen s w d = omega arith
  sweep_keys-errors gc h lp live (i ∷ ks) seen s w d =
      let st = sweep_root gc h live (root_of lp i) (seen, (s, w)) in
      omega (
        arith,
        sweep_root-errors gc h live seen (root_of lp i) s w d,
        sweep_keys-errors gc h lp live ks st.0 st.1.0 st.1.1 d,
      )

  sweep_root-seen :
      (gc : RetentionGc H) (h : H) (live seen : List Text) (o : Option RootOf) (top : Text)
      (st : RetentionStats × W)
      → has top seen ≡ true
      → has top (sweep_root gc h live o (seen, st)).0 ≡ true
  unfolding sweep_root has
  sweep_root-seen gc h live seen none top st t = t
  sweep_root-seen gc h live seen (some r) top st t = ground (arith, t)

  sweep_root-adds :
      (gc : RetentionGc H) (h : H) (live seen : List Text) (r : RootOf) (st : RetentionStats × W)
      → in_scope gc r ≡ true
      → has r.root (sweep_root gc h live (some r) (seen, st)).0 ≡ true
  unfolding sweep_root has
  sweep_root-adds gc h live seen r st t = ground (arith, t, text_eq_refl r.root)

  sweep_keys-seen :
      (gc : RetentionGc H) (h : H) (lp : Text) (live ks seen : List Text) (top : Text)
      (st : RetentionStats × W)
      → has top seen ≡ true
      → has top (sweep_keys gc h lp live ks (seen, st)).0 ≡ true
  unfolding sweep_keys
  sweep_keys-seen gc h lp live [] seen top st t = t
  sweep_keys-seen gc h lp live (i ∷ ks) seen top st t =
      sweep_keys-seen gc h lp live ks _ top _
        (sweep_root-seen gc h live seen (root_of lp i) top st t)

  pub sweep_keys-covers :
      (gc : RetentionGc H) (h : H) (lp k : Text) (r : RootOf) (live ks seen : List Text)
      (st : RetentionStats × W)
      → root_of lp k ≡ some r
      → in_scope gc r ≡ true
      → has k ks ≡ true
      → has r.root (sweep_keys gc h lp live ks (seen, st)).0 ≡ true
  unfolding sweep_keys has
  sweep_keys-covers gc h lp k r live [] seen st q p t = ground (arith, t)
  sweep_keys-covers gc h lp k r live (i ∷ ks) seen st q p t = elim (Bool-cases (text_eq k i)) [
    | inl e ↦
        sweep_keys-seen gc h lp live ks _ r.root _
          (rw (sym (eq_of_text_eq k i e), q) (sweep_root-adds gc h live seen r st p))
    | inr e ↦ sweep_keys-covers gc h lp k r live ks _ _ q p (rw e at t)
  ]
