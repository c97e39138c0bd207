-- ===== src/Examples/Templates.antt =====
-- An encoding of templates and cron agents, and the theorems of the templates at two templates and a
-- cron agent that refers to one of them.
use ai_sandbox.Base.{
  Bool, true, false, List, [], ◌∷◌, none, some, Text, codes, text_eq, ◌⊎◌, inl, inr, ◌≡◌, refl, sym,
  ◌∙◌, ap, if◌then◌else◌, arith, Bool-cases, eq_of_text_eq, text_eq_refl,
}
use mathlib.Core.Sum.{inr-injective}
use ai_sandbox.Base.Dict.{Dict, lookup}
use ai_sandbox.Docker.Bolt.{Bucket, Json}
use ai_sandbox.Docker.Records.Transactions.{Represents}
use ai_sandbox.Docker.CronAgents.{CronAgent, keyed_cron_agent}
use ai_sandbox.Docker.Templates.{
  Template, TemplateCreateSpec, created_template, keyed_template, delete_template,
}
use ai_sandbox.Docker.Templates.Names.{UniqueNames}
use ai_sandbox.Docker.Templates.Unique.{
  HoldsUnique, TemplateCall, template_calls, template_calls-HoldsUnique,
}
use ai_sandbox.Docker.Templates.Deletion.{Deleted, delete_template-Deleted}
use ai_sandbox.Examples.Encoding.{joined, parts, parts-joined, size, number, bolt}

template_fields : Template → List Text
template_fields t =
    t.id
    ∷ t.name
    ∷ t.description
    ∷ t.backend
    ∷ t.model
    ∷ t.fast_model
    ∷ t.ollama_url
    ∷ t.repo
    ∷ t.auto_compact_threshold
    ∷ t.max_context_tokens
    ∷ t.image_tag
    ∷ t.auto_mode
    ∷ t.harness
    ∷ (t.created_at ∷ [])
    ∷ (t.updated_at ∷ [])
    ∷ []

template_of : List Text → Text ⊎ Template
template_of
      (id ∷ name ∷ description ∷ backend ∷ model ∷ fast_model ∷ ollama_url ∷ repo
        ∷ auto_compact_threshold ∷ max_context_tokens ∷ image_tag ∷ auto_mode ∷ harness ∷ created_at
        ∷ updated_at ∷ []) =
    inr record {
      id = id;
      name = name;
      description = description;
      backend = backend;
      model = model;
      fast_model = fast_model;
      ollama_url = ollama_url;
      repo = repo;
      auto_compact_threshold = auto_compact_threshold;
      max_context_tokens = max_context_tokens;
      image_tag = image_tag;
      auto_mode = auto_mode;
      harness = harness;
      created_at = number created_at;
      updated_at = number updated_at;
    }
template_of _ = inl (codes "unexpected end of input")

template_of-template_fields : (t : Template) → template_of (template_fields t) ≡ inr t
unfolding template_fields template_of number
template_of-template_fields t = refl

encode_template : Template → Text
encode_template t = joined (template_fields t)

decode_template : Text → Text ⊎ Template
decode_template raw = template_of (parts 15 raw)

decode_template-encode_template : (t : Template) → decode_template (encode_template t) ≡ inr t
unfolding encode_template decode_template size template_fields
decode_template-encode_template t =
    ap template_of (parts-joined (template_fields t)) ∙ template_of-template_fields t

instance abbrev template_json : Json Template
template_json = record {
  marshal = λ a. inr (encode_template a);
  unmarshal = decode_template;
  plain = λ a. true;
  unmarshal-marshal = λ a raw p e.
      ap decode_template (sym (inr-injective _ _ e)) ∙ decode_template-encode_template a;
}

cron_fields : CronAgent → List Text
cron_fields a =
    a.id
    ∷ a.name
    ∷ a.template_id
    ∷ a.schedule
    ∷ (if a.enabled then 1 ∷ [] else [])
    ∷ a.task
    ∷ a.on_complete
    ∷ (a.created_at ∷ [])
    ∷ (a.updated_at ∷ [])
    ∷ []

cron_of : List Text → Text ⊎ CronAgent
cron_of
      (id ∷ name ∷ template_id ∷ schedule ∷ enabled ∷ task ∷ on_complete ∷ created_at ∷ updated_at
        ∷ []) =
    inr record {
      id = id;
      name = name;
      template_id = template_id;
      schedule = schedule;
      enabled = text_eq enabled (1 ∷ []);
      task = task;
      on_complete = on_complete;
      created_at = number created_at;
      updated_at = number updated_at;
    }
cron_of _ = inl (codes "unexpected end of input")

encoded_bool : (b : Bool) → text_eq (if b then 1 ∷ [] else []) (1 ∷ []) ≡ b
unfolding text_eq
encoded_bool true = refl
encoded_bool false = refl

cron_of-cron_fields : (a : CronAgent) → cron_of (cron_fields a) ≡ inr a
unfolding cron_fields cron_of number
cron_of-cron_fields a = rw (encoded_bool a.enabled) refl

encode_cron : CronAgent → Text
encode_cron a = joined (cron_fields a)

decode_cron : Text → Text ⊎ CronAgent
decode_cron raw = cron_of (parts 9 raw)

decode_cron-encode_cron : (a : CronAgent) → decode_cron (encode_cron a) ≡ inr a
unfolding encode_cron decode_cron size cron_fields
decode_cron-encode_cron a = ap cron_of (parts-joined (cron_fields a)) ∙ cron_of-cron_fields a

instance abbrev cron_json : Json CronAgent
cron_json = record {
  marshal = λ a. inr (encode_cron a);
  unmarshal = decode_cron;
  plain = λ a. true;
  unmarshal-marshal =
      λ a raw p e. ap decode_cron (sym (inr-injective _ _ e)) ∙ decode_cron-encode_cron a;
}

abbrev spec : Text → Text → TemplateCreateSpec
spec id name = record {
  id = id;
  name = name;
  description = [];
  backend = [];
  model = [];
  fast_model = [];
  ollama_url = [];
  repo = [];
  auto_compact_threshold = [];
  max_context_tokens = [];
  image_tag = [];
  auto_mode = [];
  harness = [];
}

abbrev pub nightly : CronAgent
nightly = record {
  id = codes "ca_1";
  name = codes "nightly";
  template_id = codes "tpl_1";
  schedule = codes "0 3 * * *";
  enabled = true;
  task = codes "tidy";
  on_complete = codes "delete";
  created_at = 1;
  updated_at = 1;
}

abbrev pub builder : Template
builder = created_template 1 (spec (codes "tpl_1") (codes "builder"))

abbrev templates : Dict Template
templates = (codes "tpl_1", builder) ∷ []

abbrev template_bucket : Bucket
template_bucket = (codes "tpl_1", encode_template builder) ∷ []

abbrev cron_bucket : Bucket
cron_bucket = (codes "ca_1", encode_cron nightly) ∷ []

templates-Represents : Represents (some template_bucket) templates
unfolding created_template
templates-Represents =
    (template_bucket, refl, (refl, refl, decode_template-encode_template builder, tt), (tt, tt))

cron-Represents : Represents (some cron_bucket) ((codes "ca_1", nightly) ∷ [])
cron-Represents = (cron_bucket, refl, (refl, refl, decode_cron-encode_cron nightly, tt), (tt, tt))

the_key : (k : Text) (t : Template) → lookup k templates ≡ some t → k ≡ codes "tpl_1"
the_key k t l = elim (Bool-cases (text_eq k (codes "tpl_1"))) [
  | inl e ↦ eq_of_text_eq k (codes "tpl_1") e
  | inr e ↦ ground (arith, rw e at l)
]

one_name : UniqueNames (λ s. s) templates
one_name k t l j s m d =
    ground (arith, text_eq_refl (codes "tpl_1"), rw (the_key k t l, the_key j s m) at d)

-- A template with a name that is taken, one with another, and the removal of both.
abbrev calls : List (TemplateCall (λ s. s))
calls =
    TemplateCall.creation none 2 (spec (codes "tpl_2") (codes "builder"))
    ∷ TemplateCall.creation none 3 (spec (codes "tpl_3") (codes "tester"))
    ∷ TemplateCall.change none 4 (codes "tpl_3") (λ t. inr (record t { description = codes "all" }))
    ∷ TemplateCall.removal none (codes "tpl_3") (some cron_bucket)
    ∷ TemplateCall.removal none (codes "tpl_1") (some cron_bucket)
    ∷ []

template_calls-HoldsUnique_example :
    HoldsUnique (λ s. s) (template_calls (λ s. s) calls (some template_bucket))
template_calls-HoldsUnique_example =
    template_calls-HoldsUnique (λ s. s) calls (some template_bucket)
      (refl, (refl, ((λ r h before after l e. refl), (tt, (tt, tt)))))
      (templates, templates-Represents, one_name)

delete_template-Deleted_example :
    Deleted
      (codes "tpl_1")
      ((codes "ca_1", nightly) ∷ [])
      templates
      (some template_bucket)
      (delete_template none (codes "tpl_1") (some cron_bucket) (some template_bucket))
unfolding text_eq
delete_template-Deleted_example =
    delete_template-Deleted (codes "tpl_1") ((codes "ca_1", nightly) ∷ []) templates none
      (some cron_bucket) (some template_bucket) cron-Represents (refl, tt) templates-Represents
