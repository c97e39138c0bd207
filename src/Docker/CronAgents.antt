-- ===== src/Docker/CronAgents.antt =====
-- docker-operator/internal/store/cronagent.go: the recurring jobs, which refer to a template by its ID.
use ai_sandbox.Base.{
  ℕ, ◌==◌, Bool, not, List, [], Option, none, some, is_some, Text, text_eq, ◌⊎◌, inl, inr,
  if◌then◌else◌,
}
use ai_sandbox.Base.Dict.{lookup}
use ai_sandbox.Docker.Bolt.{Bucket, Bolt, Json}
use ai_sandbox.Docker.Records.{Keyed, StoreError, Db, decode, get, list, put, update_bucket, delete}

pub record CronAgent : Type 0 where
  pub id : Text
  pub name : Text
  pub template_id : Text
  pub schedule : Text
  pub enabled : Bool
  pub task : Text
  pub on_complete : Text
  pub created_at : ℕ
  pub updated_at : ℕ

instance abbrev pub keyed_cron_agent : Keyed CronAgent
keyed_cron_agent = record { key_of = λ a. a.id }

pub record CronAgentCreateSpec : Type 0 where
  pub id : Text
  pub name : Text
  pub template_id : Text
  pub schedule : Text
  pub enabled : Bool
  pub task : Text
  pub on_complete : Text

-- The record that CreateCronAgent inserts.
unfoldable pub created_cron_agent : ℕ → CronAgentCreateSpec → CronAgent
created_cron_agent now spec = record {
  id = spec.id;
  name = spec.name;
  template_id = spec.template_id;
  schedule = spec.schedule;
  enabled = spec.enabled;
  task = spec.task;
  on_complete = spec.on_complete;
  created_at = now;
  updated_at = now;
}

-- The checks of UpdateCronAgent.
unfoldable pub check_cron_agent : CronAgent → CronAgent → Option StoreError
check_cron_agent before after =
    if not (text_eq after.id before.id)
    then some StoreError.id_changed
    else if not (after.created_at == before.created_at)
    then some StoreError.created_at_changed
    else none

module _ ⦃json : Json CronAgent⦄ where
  unfoldable pub get_cron_agent : Option Text → Text → Db → StoreError ⊎ CronAgent
  get_cron_agent = get

  unfoldable pub list_cron_agents : Option Text → Db → StoreError ⊎ List CronAgent
  list_cron_agents = list

module _ ⦃bolt : Bolt⦄ ⦃json : Json CronAgent⦄ where
  -- The transaction of CreateCronAgent.
  unfoldable pub create_cron_agent_in : CronAgent → Bucket → StoreError ⊎ (CronAgent × Bucket)
  create_cron_agent_in ca b =
      if is_some (lookup ca.id b)
      then inl StoreError.exists
      else elim (put b ca) [ inl e ↦ inl e | inr b' ↦ inr (ca, b') ]

  unfoldable pub create_cron_agent :
      ℕ → Option Text → CronAgentCreateSpec → Db → (StoreError ⊎ CronAgent) × Db
  create_cron_agent now ctx spec db =
      if text_eq spec.id []
      then (inl StoreError.empty_id, db)
      else update_bucket ctx db (create_cron_agent_in (created_cron_agent now spec))

  -- The transaction of UpdateCronAgent.
  unfoldable pub update_cron_agent_in :
      ℕ → Text → (CronAgent → Text ⊎ CronAgent) → Bucket → StoreError ⊎ (CronAgent × Bucket)
  update_cron_agent_in now id mutate b = elim (lookup id b) [
    | none ↦ inl StoreError.not_found
    | some raw ↦ elim (decode {A = CronAgent} raw) [
      | inl e ↦ inl e
      | inr before ↦ elim (mutate before) [
        | inl e ↦ inl (StoreError.mutator e)
        | inr after ↦ elim (check_cron_agent before after) [
          | some e ↦ inl e
          | none ↦
              let ca : CronAgent = record after { updated_at = now } in
              elim (put b ca) [ inl e ↦ inl e | inr b' ↦ inr (ca, b') ]
        ]
      ]
    ]
  ]

  unfoldable pub update_cron_agent :
      ℕ → Option Text → Text → (CronAgent → Text ⊎ CronAgent) → Db → (StoreError ⊎ CronAgent) × Db
  update_cron_agent now ctx id mutate db = update_bucket ctx db (update_cron_agent_in now id mutate)

module _ ⦃bolt : Bolt⦄ where
  unfoldable pub delete_cron_agent : Option Text → Text → Db → (StoreError ⊎ Unit {0}) × Db
  delete_cron_agent = delete
