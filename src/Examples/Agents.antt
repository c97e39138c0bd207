-- ===== src/Examples/Agents.antt =====
-- Instances of bbolt and of an encoding of agents, and the theorems of the agent store at them.
use ai_sandbox.Base.{
  ◌==◌, Bool, true, List, [], ◌∷◌, none, some, Text, codes, text_eq, lt_text, ◌⊎◌, inl, inr, ◌≡◌,
  refl, sym, ◌∙◌, ap, if◌then◌else◌,
}
use mathlib.Core.Sum.{inr-injective}
use ai_sandbox.Base.Dict.{Dict, insert}
use ai_sandbox.Docker.Bolt.{Bucket, Json}
use ai_sandbox.Docker.Store.{
  keyed_agent, Agent, CreateSpec, Status, create, created, counts_toward_capacity, update,
  update_in, check_invariants, valid,
}
use ai_sandbox.Docker.Records.{get, put, update_bucket}
use ai_sandbox.Docker.Records.Transactions.{Represents}
use ai_sandbox.Docker.Store.Create.{Created, create-Created}
use ai_sandbox.Docker.Store.Update.{Updated, update-Updated}
use ai_sandbox.Docker.Store.Lookup.{Write, call, get-call}
use ai_sandbox.Docker.Store.Race.{create_all, create_all-successes, successes}
use ai_sandbox.Examples.Encoding.{joined, first, text_end, parts, parts-joined, size, number, bolt}
use ai_sandbox.Docker.Shield.{mark_shielded, mark_shielded-Shielded, Shielded, shield, status_eq}

status_text : Status → Text
status_text Status.creating = []
status_text Status.running = 1 ∷ []
status_text Status.stopped = 2 ∷ []
status_text Status.error = 3 ∷ []
status_text Status.deleting = 4 ∷ []
status_text Status.updating = 5 ∷ []
status_text (Status.other s) = 6 ∷ s

status_of : Text → Status
status_of [] = Status.creating
status_of (c ∷ s) =
    if c == 1
    then Status.running
    else if c == 2
    then Status.stopped
    else if c == 3
    then Status.error
    else if c == 4
    then Status.deleting
    else if c == 5
    then Status.updating
    else Status.other s

status_of-status_text : (s : Status) → status_of (status_text s) ≡ s
unfolding status_text status_of
status_of-status_text (Status.other s) = refl
status_of-status_text Status.creating = refl
status_of-status_text Status.running = refl
status_of-status_text Status.stopped = refl
status_of-status_text Status.error = refl
status_of-status_text Status.deleting = refl
status_of-status_text Status.updating = refl

fields : Agent → List Text
fields a =
    a.id
    ∷ a.name
    ∷ a.description
    ∷ a.backend
    ∷ a.harness
    ∷ a.model
    ∷ a.fast_model
    ∷ a.ollama_url
    ∷ a.repo
    ∷ a.auto_compact_threshold
    ∷ a.max_context_tokens
    ∷ a.auto_mode
    ∷ a.image
    ∷ a.image_id
    ∷ status_text a.status
    ∷ a.error_message
    ∷ a.container_name
    ∷ a.container_id
    ∷ a.dind_container_name
    ∷ a.dind_container_id
    ∷ a.dinernet_name
    ∷ a.dinernet_id
    ∷ a.workspace_volume
    ∷ a.claude_config_volume
    ∷ a.dind_cache_volume
    ∷ a.anthropic_account_id
    ∷ a.dependaproxy_dinernet_ip
    ∷ (a.created_at ∷ [])
    ∷ (a.updated_at ∷ [])
    ∷ []

of_fields : List Text → Text ⊎ Agent
of_fields
      (id ∷ name ∷ description ∷ backend ∷ harness ∷ model ∷ fast_model ∷ ollama_url ∷ repo
        ∷ auto_compact_threshold ∷ max_context_tokens ∷ auto_mode ∷ image ∷ image_id ∷ status
        ∷ error_message ∷ container_name ∷ container_id ∷ dind_container_name ∷ dind_container_id
        ∷ dinernet_name ∷ dinernet_id ∷ workspace_volume ∷ claude_config_volume ∷ dind_cache_volume
        ∷ anthropic_account_id ∷ dependaproxy_dinernet_ip ∷ created_at ∷ updated_at ∷ []) =
    inr record {
      id = id;
      name = name;
      description = description;
      backend = backend;
      harness = harness;
      model = model;
      fast_model = fast_model;
      ollama_url = ollama_url;
      repo = repo;
      auto_compact_threshold = auto_compact_threshold;
      max_context_tokens = max_context_tokens;
      auto_mode = auto_mode;
      image = image;
      image_id = image_id;
      status = status_of status;
      error_message = error_message;
      container_name = container_name;
      container_id = container_id;
      dind_container_name = dind_container_name;
      dind_container_id = dind_container_id;
      dinernet_name = dinernet_name;
      dinernet_id = dinernet_id;
      workspace_volume = workspace_volume;
      claude_config_volume = claude_config_volume;
      dind_cache_volume = dind_cache_volume;
      anthropic_account_id = anthropic_account_id;
      dependaproxy_dinernet_ip = dependaproxy_dinernet_ip;
      created_at = number created_at;
      updated_at = number updated_at;
    }
of_fields _ = inl (codes "unexpected end of input")

of_fields-fields : (a : Agent) → of_fields (fields a) ≡ inr a
unfolding fields of_fields number
of_fields-fields a = rw (status_of-status_text a.status) refl

encode : Agent → Text
encode a = joined (fields a)

decode : Text → Text ⊎ Agent
decode raw = of_fields (parts 29 raw)

decode-encode : (a : Agent) → decode (encode a) ≡ inr a
unfolding encode decode size fields
decode-encode a = ap of_fields (parts-joined (fields a)) ∙ of_fields-fields a

unmarshal_marshal :
    (a : Agent) (raw : Text)
    → ◌≡◌ {A = Bool} true true
    → ◌≡◌ {A = Text ⊎ Text} (inr (encode a)) (inr raw)
    → decode raw ≡ inr a
unmarshal_marshal a raw _ e = ap decode (sym (inr-injective _ _ e)) ∙ decode-encode a

instance abbrev json : Json Agent
json = record {
  marshal = λ a. inr (encode a);
  unmarshal = decode;
  plain = λ a. true;
  unmarshal-marshal = unmarshal_marshal;
}

abbrev spec : Text → CreateSpec
spec id = record {
  id = id;
  name = codes "worker";
  description = [];
  backend = codes "ollama";
  harness = [];
  model = [];
  fast_model = [];
  ollama_url = [];
  repo = [];
  auto_compact_threshold = [];
  max_context_tokens = [];
  auto_mode = [];
  anthropic_account_id = [];
  image = [];
}

abbrev one : CreateSpec
one = spec (codes "agt_1")

abbrev two : CreateSpec
two = spec (codes "agt_2")

-- A stopped agent, and a running one that took its slot.
abbrev stopped : Agent
stopped = record (created one 10) { status = Status.stopped }

abbrev full : Dict Agent
full =
    (codes "agt_1", stopped)
    ∷ (codes "agt_2", record (created two 20) { status = Status.running })
    ∷ []

entries : Dict Agent → Bucket
entries [] = []
entries ((k, a) ∷ r) = (k, encode a) ∷ entries r

full-Represents : Represents (some (entries full)) full
unfolding entries created lt_text
full-Represents = (
  entries full,
  refl,
  (refl, refl, decode-encode _, (refl, refl, decode-encode _, tt)),
  ((refl, tt), (tt, tt)),
)

create-Created_example :
    Created 3
      (created (spec (codes "agt_3")) 30)
      full
      (some (entries full))
      (create 3 30 none (spec (codes "agt_3")) (some (entries full)))
create-Created_example =
    create-Created 3 30 none (spec (codes "agt_3")) (some (entries full)) full full-Represents refl

mark_shielded-Shielded_example :
    let (result, db') =
      mark_shielded 40 none (codes "agt_1") Status.stopped (some (entries full)) in
    Shielded (codes "agt_1") Status.stopped full (some (entries full)) result db'
mark_shielded-Shielded_example =
    mark_shielded-Shielded 40 none (codes "agt_1") Status.stopped (some (entries full)) full
      full-Represents (λ before after l e. refl)

update-Updated_example :
    Updated 40
      (codes "agt_1")
      (shield Status.stopped)
      full
      (some (entries full))
      (update 40 none (codes "agt_1") (shield Status.stopped) (some (entries full)))
update-Updated_example =
    update-Updated 40 (codes "agt_1") (shield Status.stopped) none (some (entries full)) full
      full-Represents (λ before after l e. refl)

create_all-successes_example :
    successes
      (create_all 2 30 (spec (codes "agt_3") ∷ spec (codes "agt_4") ∷ []) (some (entries full))).0
    ≡ 1
unfolding counts_toward_capacity created text_eq
create_all-successes_example =
    create_all-successes 2 30 (spec (codes "agt_3") ∷ spec (codes "agt_4") ∷ [])
      (some (entries full)) full
      ((_, refl, λ b. (refl, refl), refl), ((_, refl, λ b. (refl, refl), refl), tt)) full-Represents
      ((refl, refl), ((refl, refl), tt)) ((refl, tt), (tt, tt))

-- An Update of the stopped agent, and what Get finds for it afterwards.
abbrev shielded : Agent
shielded = record stopped { status = Status.updating; updated_at = 40 }

abbrev shielding : Write
shielding = Write.change 40 (codes "agt_1") (shield Status.stopped)

shielding-lem :
    call none shielding (some (entries full))
    ≡ (inr (some shielded), some (entries (insert (codes "agt_1") shielded full)))
unfolding call update update_in update_bucket put check_invariants valid shield status_eq text_eq
    lt_text decode encode joined parts number fields of_fields status_text status_of created entries
    ai_sandbox.Docker.Records.decode first text_end
shielding-lem = refl

get-call_example :
    get none (codes "agt_1") (some (entries (insert (codes "agt_1") shielded full))) ≡ inr shielded
unfolding text_eq
get-call_example =
    get-call none shielding (some (entries full)) _ full (some shielded) (codes "agt_1")
      full-Represents (λ before after l e. refl) shielding-lem
