-- ===== src/Docker/Templates/Names.antt =====
-- docker-operator/internal/store/template.go: the names of the templates and the scan for them.
use ai_sandbox.Base.{
  Bool-cases, false, [], ◌∷◌, none, some, Text, text_eq, ◌≡◌, arith, sym, ap, eq_of_text_eq,
  text_eq_refl, ◌⊎◌, inl, inr,
}
use mathlib.Core.Option.{some-injective}
use ai_sandbox.Base.Dict.{Dict, lookup, insert, erase, Ascends, lookup-insert, lookup-erase}
use ai_sandbox.Docker.Bolt.{Bucket, Json}
use ai_sandbox.Docker.Records.{decode}
use ai_sandbox.Docker.Records.Holds.{Holds, decode-inr}
use ai_sandbox.Docker.Templates.{Template, keyed_template, check_template_name_free}

module _ (trim_space : Text → Text) where
  -- No other record than that of the ID has the name.
  abbrev pub Free : Text → Text → Dict Template → Type 0
  Free id name r =
      (k : Text) (t : Template)
      → lookup k r ≡ some t
      → text_eq k id ≡ false
      → text_eq (trim_space t.name) (trim_space name) ≡ false

  -- No two records have the same name but for white space around it.
  abbrev pub UniqueNames : Dict Template → Type 0
  UniqueNames r = (k : Text) (t : Template) → lookup k r ≡ some t → Free k t.name r

  module _ ⦃json : Json Template⦄ where
    name_free_step :
        (id name i raw : Text) (a : Template) (b : Bucket)
        → decode {A = Template} raw ≡ inr a
        → check_template_name_free trim_space id name ((i, raw) ∷ b) ≡ none
        → (check_template_name_free trim_space id name b ≡ none)
          × (text_eq i id ≡ false → text_eq (trim_space a.name) (trim_space name) ≡ false)
    unfolding check_template_name_free
    name_free_step id name i raw a b u q = elim (Bool-cases (text_eq i id)) [
      | inl e ↦ (rw (check_template_name_free, e) at q, λ f. ground (arith, e, f))
      | inr e ↦ elim (Bool-cases (text_eq (trim_space a.name) (trim_space name))) [
        | inl x ↦ ground (arith, rw (check_template_name_free, e, u, x) at q)
        | inr x ↦ (rw (check_template_name_free, e, u, x) at q, λ f. x)
      ]
    ]

    pub check_template_name_free-Free :
        (id name : Text) (b : Bucket) (r : Dict Template)
        → Holds b r
        → check_template_name_free trim_space id name b ≡ none
        → Free id name r
    unfolding check_template_name_free
    check_template_name_free-Free id name [] [] h q k t l d = ground (arith, l)
    check_template_name_free-Free id name [] (_ ∷ _) h q k t l d = absurd h
    check_template_name_free-Free id name (_ ∷ _) [] h q k t l d = absurd h
    check_template_name_free-Free id name ((i, raw) ∷ b) ((j, a) ∷ r) h q k t l d =
        let (rest, here) = name_free_step id name i raw a b (decode-inr raw a h.2) q in
        elim (Bool-cases (text_eq k j)) [
          | inl e ↦
              rw (ap (λ x. x.name) (sym (some-injective _ _ (rw e at l))))
                (here (rw (h.0, sym (eq_of_text_eq k j e)) d))
          | inr e ↦ check_template_name_free-Free id name b r h.3 rest k t (rw e at l) d
        ]

  same_name :
      (s t : Template)
      → text_eq (trim_space s.name) (trim_space t.name) ≡ false
      → text_eq (trim_space t.name) (trim_space s.name) ≡ false
  same_name s t h = elim (Bool-cases (text_eq (trim_space t.name) (trim_space s.name))) [
    | inr e ↦ e
    | inl e ↦ ground (
      arith,
      text_eq_refl (trim_space s.name),
      rw (eq_of_text_eq (trim_space t.name) (trim_space s.name) e) at h,
    )
  ]

  -- A record of a map into which another was inserted.
  inserted :
      (id k : Text) (tmpl t : Template) (r : Dict Template)
      → lookup k (insert id tmpl r) ≡ some t
      → ((k ≡ id) × (tmpl ≡ t)) ⊎ ((text_eq k id ≡ false) × (lookup k r ≡ some t))
  inserted id k tmpl t r l = elim (Bool-cases (text_eq k id)) [
    | inl e ↦
        inl (eq_of_text_eq k id e, some-injective _ _ (rw (lookup-insert k id tmpl r, e) at l))
    | inr e ↦ inr (e, rw (lookup-insert k id tmpl r, e) at l)
  ]

  pub insert-UniqueNames :
      (id : Text) (tmpl : Template) (r : Dict Template)
      → Free id tmpl.name r
      → UniqueNames r
      → UniqueNames (insert id tmpl r)
  insert-UniqueNames id tmpl r f u k t l j s m d = elim (inserted id k tmpl t r l) [
    | inl (p, a) ↦ elim (inserted id j tmpl s r m) [
      | inl (q, b) ↦ ground (arith, text_eq_refl id, rw (p, q) at d)
      | inr (e, b) ↦ rw (sym a) (f j s b e)
    ]
    | inr (e, a) ↦ elim (inserted id j tmpl s r m) [
      | inl (q, b) ↦ rw (sym b) (same_name t tmpl (f k t a e))
      | inr (g, b) ↦ u k t a j s b d
    ]
  ]

  pub erase-UniqueNames :
      (id : Text) (r : Dict Template) → Ascends r → UniqueNames r → UniqueNames (erase id r)
  erase-UniqueNames id r a u k t l j s m d = u k t (erased k t l) j s (erased j s m) d
    where
      erased : (k : Text) (t : Template) → lookup k (erase id r) ≡ some t → lookup k r ≡ some t
      erased k t l = elim (Bool-cases (text_eq k id)) [
        | inl e ↦ ground (arith, rw (lookup-erase k id r a, e) at l)
        | inr e ↦ rw (lookup-erase k id r a, e) at l
      ]
