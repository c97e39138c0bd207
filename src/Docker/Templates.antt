-- ===== src/Docker/Templates.antt =====
-- docker-operator/internal/store/template.go: the saved templates of agents.
--
-- strings.TrimSpace is an argument of the methods that compare names.
pub mod Names
pub mod Unique
pub mod Deletion
use ai_sandbox.Base.{
  ℕ, ◌==◌, Bool, true, false, not, List, [], ◌∷◌, Option, none, some, is_some, Text, text_eq, ◌⊎◌,
  inl, inr, if◌then◌else◌,
}
use ai_sandbox.Base.Dict.{Dict, lookup}
use ai_sandbox.Docker.Bolt.{Bucket, Bolt, Json}
use ai_sandbox.Docker.CronAgents.{CronAgent}
use ai_sandbox.Docker.Records.{
  Keyed, StoreError, Db, decode, get, list, put, update_bucket, delete, delete_in,
}

pub record Template : Type 0 where
  pub id : Text
  pub name : Text
  pub description : Text
  pub backend : Text
  pub model : Text
  pub fast_model : Text
  pub ollama_url : Text
  pub repo : Text
  pub auto_compact_threshold : Text
  pub max_context_tokens : Text
  pub image_tag : Text
  pub auto_mode : Text
  pub harness : Text
  pub created_at : ℕ
  pub updated_at : ℕ

instance abbrev pub keyed_template : Keyed Template
keyed_template = record { key_of = λ t. t.id }

pub record TemplateCreateSpec : Type 0 where
  pub id : Text
  pub name : Text
  pub description : Text
  pub backend : Text
  pub model : Text
  pub fast_model : Text
  pub ollama_url : Text
  pub repo : Text
  pub auto_compact_threshold : Text
  pub max_context_tokens : Text
  pub image_tag : Text
  pub auto_mode : Text
  pub harness : Text

-- The template that CreateTemplate inserts.
unfoldable pub created_template : ℕ → TemplateCreateSpec → Template
created_template now spec = record {
  id = spec.id;
  name = spec.name;
  description = spec.description;
  backend = spec.backend;
  model = spec.model;
  fast_model = spec.fast_model;
  ollama_url = spec.ollama_url;
  repo = spec.repo;
  auto_compact_threshold = spec.auto_compact_threshold;
  max_context_tokens = spec.max_context_tokens;
  image_tag = spec.image_tag;
  auto_mode = spec.auto_mode;
  harness = spec.harness;
  created_at = now;
  updated_at = now;
}

unfoldable pub check_template_invariants : Template → Template → Option StoreError
check_template_invariants before after =
    if not (text_eq after.id before.id)
    then some StoreError.id_changed
    else if not (after.created_at == before.created_at)
    then some StoreError.created_at_changed
    else none

module _ ⦃json : Json Template⦄ where
  unfoldable pub get_template : Option Text → Text → Db → StoreError ⊎ Template
  get_template = get

  unfoldable pub list_templates : Option Text → Db → StoreError ⊎ List Template
  list_templates = list

  unfoldable pub check_template_name_free : (Text → Text) → Text → Text → Bucket → Option StoreError
  check_template_name_free trim_space exclude_id name [] = none
  check_template_name_free trim_space exclude_id name ((k, raw) ∷ b) =
      let rest = check_template_name_free trim_space exclude_id name b in
      if text_eq k exclude_id then rest else elim (decode {A = Template} raw) [
        | inl e ↦ some e
        | inr existing ↦
            if text_eq (trim_space existing.name) (trim_space name)
            then some StoreError.name_exists
            else rest
      ]

module _ ⦃json : Json CronAgent⦄ where
  -- One cron agent in the scan of DeleteTemplate: `user` is the ID of one that refers to the template.
  unfoldable pub scan : Text → Text → Text → StoreError ⊎ Text
  scan id user raw = if not (text_eq user []) then inr user else elim (decode {A = CronAgent} raw) [
    | inl e ↦ inl e
    | inr ca ↦ inr (if text_eq ca.template_id id then ca.id else user)
  ]

  unfoldable pub in_use_by : Text → Text → Bucket → StoreError ⊎ Text
  in_use_by id user [] = inr user
  in_use_by id user ((k, raw) ∷ b) = elim (scan id user raw) [
    | inl e ↦ inl e
    | inr next ↦ in_use_by id next b
  ]

module _ ⦃bolt : Bolt⦄ ⦃json : Json Template⦄ (trim_space : Text → Text) where
  -- The transaction of CreateTemplate.
  unfoldable pub create_template_in : Template → Bucket → StoreError ⊎ (Template × Bucket)
  create_template_in tmpl b =
      if is_some (lookup tmpl.id b)
      then inl StoreError.exists
      else elim (check_template_name_free trim_space tmpl.id tmpl.name b) [
        | some e ↦ inl e
        | none ↦ elim (put b tmpl) [ inl e ↦ inl e | inr b' ↦ inr (tmpl, b') ]
      ]

  unfoldable pub create_template :
      ℕ → Option Text → TemplateCreateSpec → Db → (StoreError ⊎ Template) × Db
  create_template now ctx spec db =
      if text_eq spec.id []
      then (inl StoreError.empty_id, db)
      else update_bucket ctx db (create_template_in (created_template now spec))

  -- What UpdateTemplate makes of the record that the mutator leaves.
  unfoldable pub replace_template :
      ℕ → Text → Template → Bucket → Text ⊎ Template → StoreError ⊎ (Template × Bucket)
  replace_template now id before b (inl e) = inl (StoreError.mutator e)
  replace_template now id before b (inr after) = elim (check_template_invariants before after) [
    | some e ↦ inl e
    | none ↦ elim (check_template_name_free trim_space id after.name b) [
      | some e ↦ inl e
      | none ↦
          let tmpl : Template = record after { updated_at = now } in
          elim (put b tmpl) [ inl e ↦ inl e | inr b' ↦ inr (tmpl, b') ]
    ]
  ]

  -- The transaction of UpdateTemplate.
  unfoldable pub update_template_in :
      ℕ → Text → (Template → Text ⊎ Template) → Bucket → StoreError ⊎ (Template × Bucket)
  update_template_in now id mutate b = elim (lookup id b) [
    | none ↦ inl StoreError.not_found
    | some raw ↦ elim (decode {A = Template} raw) [
      | inl e ↦ inl e
      | inr before ↦ replace_template now id before b (mutate before)
    ]
  ]

  unfoldable pub update_template :
      ℕ → Option Text → Text → (Template → Text ⊎ Template) → Db → (StoreError ⊎ Template) × Db
  update_template now ctx id mutate db = update_bucket ctx db (update_template_in now id mutate)

module _ ⦃bolt : Bolt⦄ ⦃json : Json CronAgent⦄ where
  -- What DeleteTemplate does after its scan of the cron agents.
  unfoldable pub delete_unused : Text → StoreError ⊎ Text → Db → (StoreError ⊎ Unit {0}) × Db
  delete_unused id (inl e) db = (inl e, db)
  delete_unused id (inr user) db =
      if not (text_eq user []) then (inl StoreError.in_use, db) else delete none id db

  -- DeleteTemplate, over the buckets of the cron agents and of the templates.
  unfoldable pub delete_template : Option Text → Text → Db → Db → (StoreError ⊎ Unit {0}) × Db
  delete_template (some e) id cron db = (inl (StoreError.cancelled e), db)
  delete_template none id none db = (inl StoreError.bucket_missing, db)
  delete_template none id (some cb) db = delete_unused id (in_use_by id [] cb) db
