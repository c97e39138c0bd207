-- ===== src/Docker/Templates/Unique.antt =====
-- docker-operator/internal/store/template.go: no two templates have the same name.
use ai_sandbox.Base.{
  ℕ, Bool-cases, true, List, [], ◌∷◌, Option, Option-cases, none, some, is_some, Text, text_eq, ◌≡◌,
  refl, arith, sym, ◌∙◌, eq_of_text_eq, ◌⊎◌, inl, inr,
}
use mathlib.Core.Path.{subst}
use ai_sandbox.Base.Dict.{Dict, lookup, insert, erase, insert-Ascends}
use ai_sandbox.Docker.Bolt.{Bucket, Bolt, Json}
use ai_sandbox.Docker.Records.{Db, StoreError, put, update_bucket}
use ai_sandbox.Docker.Records.Holds.{Holds, Holds-lookup, decode-inr}
use ai_sandbox.Docker.Records.Transactions.{
  Represents, update_bucket-cases, put-cases, delete-cases,
}
use ai_sandbox.Docker.CronAgents.{CronAgent}
use ai_sandbox.Docker.Templates.{
  Template, TemplateCreateSpec, keyed_template, check_template_name_free, check_template_invariants,
  created_template, create_template, create_template_in, update_template, update_template_in,
  replace_template, delete_template, delete_unused, in_use_by,
}
use ai_sandbox.Docker.Templates.Names.{
  Free, UniqueNames, check_template_name_free-Free, insert-UniqueNames, erase-UniqueNames,
}

module _ ⦃bolt : Bolt⦄ ⦃json : Json Template⦄ (trim_space : Text → Text) where
  -- What a transaction that writes one template leaves: it is written under its ID, with a name that no
  -- other has.
  abbrev Writes : Dict Template → StoreError ⊎ (Template × Bucket) → Type 0
  Writes r (inl e) = Unit
  Writes r (inr (t, b')) = Free trim_space t.id t.name r × Holds b' (insert t.id t r)

  put-Writes :
      (b : Bucket) (r : Dict Template) (t : Template)
      → Holds b r
      → json.plain t ≡ true
      → Free trim_space t.id t.name r
      → Writes r (elim (put b t) [ inl e ↦ inl e | inr b' ↦ inr (t, b') ])
  put-Writes b r t h p f = elim (put-cases b r t h p) [
    | inl (e, w) ↦ rw w tt
    | inr (inl (e, w)) ↦ rw w tt
    | inr (inr (b', w, g)) ↦ rw w (f, g)
  ]

  create_template_in-Writes :
      (b : Bucket) (r : Dict Template) (t : Template)
      → Holds b r
      → json.plain t ≡ true
      → Writes r (create_template_in trim_space t b)
  unfolding create_template_in
  create_template_in-Writes b r t h p = elim (Bool-cases (is_some (lookup t.id b))) [
    | inl e ↦ rw (create_template_in, e) tt
    | inr e ↦ elim (Option-cases (check_template_name_free trim_space t.id t.name b)) [
      | inr (x, f) ↦ rw (create_template_in, e, f) tt
      | inl f ↦
          rw (create_template_in, e, f)
            (put-Writes b r t h p (check_template_name_free-Free trim_space t.id t.name b r h f))
    ]
  ]

  module _ (now : ℕ) (id : Text) (mutate : Template → Text ⊎ Template) where
    abbrev pub stamped : Template → Template
    stamped after = record after { updated_at = now }

    -- What the mutator makes of the stored template can be encoded whole.
    abbrev pub LeavesPlain : Dict Template → Type 0
    LeavesPlain r =
        (before after : Template)
        → lookup id r ≡ some before
        → mutate before ≡ inr after
        → json.plain (stamped after) ≡ true

    invariants_id :
        (before after : Template)
        → check_template_invariants before after ≡ none
        → after.id ≡ before.id
    unfolding check_template_invariants
    invariants_id before after h = ground (arith, h, eq_of_text_eq after.id before.id)

    replace_template-Writes :
        (before : Template) (b : Bucket) (r : Dict Template) (x : Text ⊎ Template)
        → Holds b r
        → before.id ≡ id
        → ((after : Template) → x ≡ inr after → json.plain (stamped after) ≡ true)
        → Writes r (replace_template trim_space now id before b x)
    unfolding replace_template
    replace_template-Writes before b r (inl e) h q p = tt
    replace_template-Writes before b r (inr after) h q p =
        elim (Option-cases (check_template_invariants before after)) [
          | inr (e, c) ↦ rw (replace_template, c) tt
          | inl c ↦ elim (Option-cases (check_template_name_free trim_space id after.name b)) [
            | inr (e, f) ↦ rw (replace_template, c, f) tt
            | inl f ↦
                rw (replace_template, c, f)
                  (put-Writes b r (stamped after) h (p after refl) (
                    subst (λ i. Free trim_space i after.name r)
                      (sym (invariants_id before after c ∙ q))
                      (check_template_name_free-Free trim_space id after.name b r h f)))
          ]
        ]

    update_template_in-Writes :
        (b : Bucket) (r : Dict Template)
        → Holds b r
        → LeavesPlain r
        → Writes r (update_template_in trim_space now id mutate b)
    unfolding update_template_in
    update_template_in-Writes b r h p = elim (Holds-lookup id b r h) [
      | inl (l, m) ↦ rw (update_template_in, l) tt
      | inr (raw, before, l, m, u, i) ↦
          rw (update_template_in, l, decode-inr raw before u)
            (replace_template-Writes before b r (mutate before) h i (λ after. p before after m))
    ]

  -- The database holds templates with names of their own.
  abbrev pub HoldsUnique : Db → Type 0
  HoldsUnique db = (r : Dict Template) × Represents db r × UniqueNames trim_space r

  update_bucket-HoldsUnique :
      (ctx : Option Text) (db : Db) (r : Dict Template)
      (fn : Bucket → StoreError ⊎ (Template × Bucket))
      → Represents db r
      → UniqueNames trim_space r
      → ((b : Bucket) → Holds b r → Writes r (fn b))
      → HoldsUnique (update_bucket ctx db fn).1
  update_bucket-HoldsUnique ctx db r fn (b, d, h, a) u w =
      elim (update_bucket-cases ctx db b fn d) [
        | inl (e, q) ↦ rw q (r, (b, d, h, a), u)
        | inr (inl (e, f, q)) ↦ rw q (r, (b, d, h, a), u)
        | inr (inr (inl (e, q))) ↦ rw q (r, (b, d, h, a), u)
        | inr (inr (inr (t, b', _, f, q))) ↦
            let g : Writes r (inr (t, b')) = rw f at (w b h) in
            rw q (
              insert t.id t r,
              (b', refl, g.1, insert-Ascends t.id t r a),
              insert-UniqueNames trim_space t.id t r g.0 u,
            )
      ]

  module _ ⦃cron_json : Json CronAgent⦄ where
    -- A call that may write, with ctx.Err() and the clock; a removal finds the cron agents of its time.
    pub data TemplateCall : Type 0 where
      creation : Option Text → ℕ → TemplateCreateSpec → TemplateCall
      change : Option Text → ℕ → Text → (Template → Text ⊎ Template) → TemplateCall
      removal : Option Text → Text → Db → TemplateCall

    unfoldable pub template_call : TemplateCall → Db → Db
    template_call (TemplateCall.creation ctx now spec) db =
        (create_template trim_space now ctx spec db).1
    template_call (TemplateCall.change ctx now id mutate) db =
        (update_template trim_space now ctx id mutate db).1
    template_call (TemplateCall.removal ctx id cron) db = (delete_template ctx id cron db).1

    unfoldable pub template_calls : List TemplateCall → Db → Db
    template_calls [] db = db
    template_calls (c ∷ cs) db = template_calls cs (template_call c db)

    -- What a call on this database writes can be encoded whole.
    abbrev pub CallPlain : TemplateCall → Db → Type 0
    CallPlain (TemplateCall.creation ctx now spec) db =
        json.plain (created_template now spec) ≡ true
    CallPlain (TemplateCall.change ctx now id mutate) db =
        (r : Dict Template) → Represents db r → LeavesPlain now id mutate r
    CallPlain (TemplateCall.removal ctx id cron) db = Unit

    -- The same of each call on the database that it meets.
    abbrev pub CallsPlain : List TemplateCall → Db → Type 0
    CallsPlain [] db = Unit
    CallsPlain (c ∷ cs) db = CallPlain c db × CallsPlain cs (template_call c db)

    delete_unused-HoldsUnique :
        (id : Text) (x : StoreError ⊎ Text) (db : Db)
        → HoldsUnique db
        → HoldsUnique (delete_unused id x db).1
    unfolding delete_unused
    delete_unused-HoldsUnique id (inl e) db h = h
    delete_unused-HoldsUnique id (inr user) db (r, h, u) = elim (Bool-cases (text_eq user [])) [
      | inr e ↦ rw e (r, h, u)
      | inl e ↦ rw e (elim (delete-cases none id db r h) [
        | inl q ↦ rw q (r, h, u)
        | inr g ↦ (erase id r, g, erase-UniqueNames trim_space id r h.3 u)
      ])
    ]

    template_call-HoldsUnique :
        (c : TemplateCall) (db : Db)
        → CallPlain c db
        → HoldsUnique db
        → HoldsUnique (template_call c db)
    unfolding template_call create_template update_template delete_template created_template
    template_call-HoldsUnique (TemplateCall.creation ctx now spec) db p (r, h, u) =
        elim (Bool-cases (text_eq spec.id [])) [
          | inl e ↦ rw (template_call, create_template, e) (r, h, u)
          | inr e ↦
              rw (template_call, create_template, e)
                (update_bucket-HoldsUnique ctx db r
                  (create_template_in trim_space (created_template now spec)) h u
                  (λ b g. create_template_in-Writes b r (created_template now spec) g p))
        ]
    template_call-HoldsUnique (TemplateCall.change ctx now id mutate) db p (r, h, u) =
        update_bucket-HoldsUnique ctx db r (update_template_in trim_space now id mutate) h u
          (λ b g. update_template_in-Writes now id mutate b r g (p r h))
    template_call-HoldsUnique (TemplateCall.removal (some e) id cron) db p h = h
    template_call-HoldsUnique (TemplateCall.removal none id none) db p h = h
    template_call-HoldsUnique (TemplateCall.removal none id (some cb)) db p h =
        delete_unused-HoldsUnique id (in_use_by id [] cb) db h

    -- However CreateTemplate, UpdateTemplate and DeleteTemplate follow one another, with errors of any
    -- kind and whatever the mutators make of a template, no two templates have the same name but for
    -- white space around it, where this holds at first and what each call writes over the templates
    -- that it finds can be encoded whole.
    pub template_calls-HoldsUnique :
        (cs : List TemplateCall) (db : Db)
        → CallsPlain cs db
        → HoldsUnique db
        → HoldsUnique (template_calls cs db)
    unfolding template_calls
    template_calls-HoldsUnique [] db p h = h
    template_calls-HoldsUnique (c ∷ cs) db p h =
        template_calls-HoldsUnique cs (template_call c db) p.1
          (template_call-HoldsUnique c db p.0 h)
