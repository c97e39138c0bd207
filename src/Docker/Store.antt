-- ===== src/Docker/Store.antt =====
-- docker-operator/internal/store/store.go: the records of the agents, in a BoltDB bucket.
--
-- A method takes ctx.Err() and the clock's reading where it uses them, and returns its result with the
-- new state of the database.
pub mod Reserved
pub mod Create
pub mod Update
pub mod Lookup
pub mod Race
use ai_sandbox.Base.{
  ℕ, zero, suc, ◌+◌, ◌==◌, ltb, leb, Bool, true, false, not, ◌||◌, List, [], ◌∷◌, Option, none,
  some, is_some, Text, text_eq, ◌⊎◌, inl, inr, if◌then◌else◌,
}
use ai_sandbox.Base.Dict.{Dict, lookup}
use ai_sandbox.Docker.Bolt.{Bucket, Bolt, Json}
use ai_sandbox.Docker.Records.{Keyed, StoreError, Db, decode, put, update_bucket}

-- `other` is a text that no constant names.
pub data Status : Type 0 where
  creating running stopped error deleting updating : Status
  other : Text → Status

unfoldable pub valid : Status → Bool
valid (Status.other s) = false
valid _ = true

unfoldable pub counts_toward_capacity : Status → Bool
counts_toward_capacity Status.creating = true
counts_toward_capacity Status.running = true
counts_toward_capacity Status.updating = true
counts_toward_capacity _ = false

pub record Agent : Type 0 where
  pub id : Text
  pub name : Text
  pub description : Text
  pub backend : Text
  pub harness : Text
  pub model : Text
  pub fast_model : Text
  pub ollama_url : Text
  pub repo : Text
  pub auto_compact_threshold : Text
  pub max_context_tokens : Text
  pub auto_mode : Text
  pub image : Text
  pub image_id : Text
  pub status : Status
  pub error_message : Text
  pub container_name : Text
  pub container_id : Text
  pub dind_container_name : Text
  pub dind_container_id : Text
  pub dinernet_name : Text
  pub dinernet_id : Text
  pub workspace_volume : Text
  pub claude_config_volume : Text
  pub dind_cache_volume : Text
  pub anthropic_account_id : Text
  pub dependaproxy_dinernet_ip : Text
  pub created_at : ℕ
  pub updated_at : ℕ

instance abbrev pub keyed_agent : Keyed Agent
keyed_agent = record { key_of = λ a. a.id }

pub record CreateSpec : Type 0 where
  pub id : Text
  pub name : Text
  pub description : Text
  pub backend : Text
  pub harness : Text
  pub model : Text
  pub fast_model : Text
  pub ollama_url : Text
  pub repo : Text
  pub auto_compact_threshold : Text
  pub max_context_tokens : Text
  pub auto_mode : Text
  pub anthropic_account_id : Text
  pub image : Text

-- The agent that Create inserts.
unfoldable pub created : CreateSpec → ℕ → Agent
created spec now = record {
  id = spec.id;
  name = spec.name;
  description = spec.description;
  backend = spec.backend;
  harness = spec.harness;
  model = spec.model;
  fast_model = spec.fast_model;
  ollama_url = spec.ollama_url;
  repo = spec.repo;
  auto_compact_threshold = spec.auto_compact_threshold;
  max_context_tokens = spec.max_context_tokens;
  auto_mode = spec.auto_mode;
  image = spec.image;
  image_id = [];
  status = Status.creating;
  error_message = [];
  container_name = [];
  container_id = [];
  dind_container_name = [];
  dind_container_id = [];
  dinernet_name = [];
  dinernet_id = [];
  workspace_volume = [];
  claude_config_volume = [];
  dind_cache_volume = [];
  anthropic_account_id = spec.anthropic_account_id;
  dependaproxy_dinernet_ip = [];
  created_at = now;
  updated_at = now;
}

unfoldable pub check_invariants : Agent → Agent → Option StoreError
check_invariants before after =
    if not (text_eq after.id before.id)
    then some StoreError.id_changed
    else if not (after.created_at == before.created_at)
    then some StoreError.created_at_changed
    else if not (valid after.status)
    then some StoreError.unknown_status
    else none

module _ ⦃json : Json Agent⦄ where
  unfoldable pub count_reserved : Bucket → StoreError ⊎ ℕ
  count_reserved [] = inr 0
  count_reserved ((k, raw) ∷ b) =
      let rest = count_reserved b in
      elim (decode {A = Agent} raw) [
        | inl e ↦ inl e
        | inr agent ↦ elim rest [
          | inl e ↦ inl e
          | inr n ↦ inr ((if counts_toward_capacity agent.status then 1 else 0) + n)
        ]
      ]

module _ ⦃bolt : Bolt⦄ ⦃json : Json Agent⦄ where
  -- The transaction of Create.
  unfoldable pub create_in : ℕ → Agent → Bucket → StoreError ⊎ (Agent × Bucket)
  create_in max_agents agent b =
      if is_some (lookup agent.id b) then inl StoreError.exists else elim (count_reserved b) [
        | inl e ↦ inl e
        | inr used ↦
            if leb max_agents used
            then inl (StoreError.at_capacity used)
            else elim (put b agent) [ inl e ↦ inl e | inr b' ↦ inr (agent, b') ]
      ]

  unfoldable pub create : ℕ → ℕ → Option Text → CreateSpec → Db → (StoreError ⊎ Agent) × Db
  create max_agents now ctx spec db =
      if text_eq spec.id []
      then (inl StoreError.empty_id, db)
      else update_bucket ctx db (create_in max_agents (created spec now))

  -- The transaction of Update.
  unfoldable pub update_in :
      ℕ → Text → (Agent → Text ⊎ Agent) → Bucket → StoreError ⊎ (Agent × Bucket)
  update_in now id mutate b = elim (lookup id b) [
    | none ↦ inl StoreError.not_found
    | some raw ↦ elim (decode {A = Agent} raw) [
      | inl e ↦ inl e
      | inr before ↦ elim (mutate before) [
        | inl e ↦ inl (StoreError.mutator e)
        | inr after ↦ elim (check_invariants before after) [
          | some e ↦ inl e
          | none ↦
              let agent : Agent = record after { updated_at = now } in
              elim (put b agent) [ inl e ↦ inl e | inr b' ↦ inr (agent, b') ]
        ]
      ]
    ]
  ]

  unfoldable pub update :
      ℕ → Option Text → Text → (Agent → Text ⊎ Agent) → Db → (StoreError ⊎ Agent) × Db
  update now ctx id mutate db = update_bucket ctx db (update_in now id mutate)
