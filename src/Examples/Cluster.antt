-- ===== src/Examples/Cluster.antt =====
-- An instance of the documented interface of k8s.io/apimachinery, and sample data.
use ai_sandbox.Base.{
  ℕ, ◌+◌, ◌-◌, ◌*◌, ◌%◌, ◌≤◌, ◌<◌, ◌≡◌, refl, true, false, List, [], ◌∷◌, Option, none, some,
  if◌then◌else◌, codes, arith,
}
use ai_sandbox.Base.Int.{pos}
use ai_sandbox.Api.Phase.{Phase}
use ai_sandbox.Api.Condition.{
  ConditionType, ConditionStatus, Reason, Condition, ApiMachinery, type_eq, eq_of_type_eq,
  type_eq_refl, status_eq, merged,
}
use ai_sandbox.Api.Environment.{SandboxEnvironment, SandboxEnvironmentStatus}
use ai_sandbox.Lifecycle.Facts.{ClusterFacts, zero_facts, default_timeouts, second}

unfoldable pub first_of_type : List Condition → ConditionType → Option Condition
unfolding type_eq
first_of_type [] t = none
first_of_type (c ∷ cs) t = if type_eq c.type t then some c else first_of_type cs t

unfoldable pub set_first : List Condition → Condition → List Condition
unfolding type_eq status_eq
set_first [] c = c ∷ []
set_first (old ∷ cs) c =
    let rest = set_first cs c in
    if type_eq old.type c.type
    then (record c {
      last_transition_time =
          if status_eq old.status c.status
          then old.last_transition_time
          else c.last_transition_time;
    })
      ∷ cs
    else old ∷ rest

unfoldable pub to_second : ℕ → ℕ
to_second t = t - t % second

pub first-set_self :
    (cs : List Condition) (c : Condition)
    → first_of_type (set_first cs c) c.type ≡ some (merged (first_of_type cs c.type) c)
unfolding first_of_type set_first merged
first-set_self [] c = ground (arith, type_eq_refl c.type)
first-set_self (old ∷ cs) c = ground (arith, type_eq_refl c.type, first-set_self cs c)

pub first-set_ne :
    (cs : List Condition) (c : Condition) (t : ConditionType)
    → type_eq c.type t ≡ false
    → first_of_type (set_first cs c) t ≡ first_of_type cs t
unfolding first_of_type set_first
first-set_ne [] c t h = rw h
first-set_ne (old ∷ cs) c t h = ground (arith, first-set_ne cs c t, eq_of_type_eq old.type c.type)

pub to_second-le : (t : ℕ) → to_second t ≤ t
unfolding to_second
to_second-le t = omega arith

pub to_second-lt : (t : ℕ) → t < to_second t + 1_000_000_000
unfolding to_second
to_second-lt t = omega arith

pub first-cons_eq :
    (c : Condition) (cs : List Condition) (t : ConditionType)
    → type_eq c.type t ≡ true
    → first_of_type (c ∷ cs) t ≡ some c
unfolding first_of_type
first-cons_eq c cs t h = rw h

pub first-cons_ne :
    (c : Condition) (cs : List Condition) (t : ConditionType)
    → type_eq c.type t ≡ false
    → first_of_type (c ∷ cs) t ≡ first_of_type cs t
unfolding first_of_type
first-cons_ne c cs t h = rw h

pub first-nil : (t : ConditionType) → first_of_type [] t ≡ none
unfolding first_of_type
first-nil t = refl

instance abbrev pub cluster : ApiMachinery
cluster = record {
  find_status_condition = first_of_type;
  set_status_condition = set_first;
  rfc3339_copy = to_second;
  find-set_self = first-set_self;
  find-set_ne = first-set_ne;
  find-nil = first-nil;
  find-cons_eq = first-cons_eq;
  find-cons_ne = first-cons_ne;
  rfc3339_copy-le = to_second-le;
  rfc3339_copy-lt = to_second-lt;
}

abbrev pub fresh_status : SandboxEnvironmentStatus
fresh_status = record {
  phase = Phase.pending;
  conditions = [];
  slot = record { granted = false; granted_at = none; lease_name = [] };
  wait_for = none;
  probe_attempt = none;
  snapshot = none;
  agent_result = none;
  snapshot_attempt = none;
  restore_attempt = none;
  archive = none;
  queued_since = none;
  started_at = none;
  finished_at = none;
  freeze_count = 0;
  wake_count = 0;
  archive_uri = [];
  terminal_phase = Phase.unset;
  phase_history = [];
  observed_generation = 1;
}

abbrev pub sandbox : SandboxEnvironmentStatus → SandboxEnvironment
sandbox status = record {
  namespace = codes "team";
  name = codes "env";
  uid = codes "uid-1";
  generation = 1;
  creation_timestamp = 1000 * second;
  deletion_timestamp = none;
  spec = record { class_ref = []; priority = pos 0; suspend = false };
  status = status;
}

-- A class that resolves, with the default timeouts, and nothing else observed.
abbrev pub plain_facts : ClusterFacts
plain_facts = record zero_facts { class_resolved = true; timeouts = default_timeouts }

-- An hour after the creation of `sandbox`.
abbrev pub one_hour_on : ℕ
one_hour_on = 4600 * second

abbrev pub condition : ConditionType → ConditionStatus → Reason → ℕ → Condition
condition t status reason since = record {
  type = t;
  status = status;
  reason = reason;
  message = [];
  observed_generation = 1;
  last_transition_time = since;
}

-- Running since 100 seconds after its creation.
abbrev pub running_env : SandboxEnvironment
running_env = sandbox (record fresh_status {
  phase = Phase.running;
  conditions =
      condition ConditionType.pod_ready ConditionStatus.true_ Reason.pod_running (1100 * second)
      ∷ [];
  slot = record { granted = true; granted_at = some (1010 * second); lease_name = [] };
  queued_since = some (1005 * second);
  started_at = some (1100 * second);
})

abbrev pub restoring_env : SandboxEnvironment
restoring_env = sandbox (record fresh_status {
  phase = Phase.restoring;
  slot = record { granted = true; granted_at = some (1010 * second); lease_name = [] };
  queued_since = some (1005 * second);
})

-- Done, with no snapshot and a finish time.
abbrev pub done_env : SandboxEnvironment
done_env = sandbox (record fresh_status {
  phase = Phase.done;
  queued_since = some (1005 * second);
  started_at = some (1100 * second);
  finished_at = some (2000 * second);
  terminal_phase = Phase.done;
})
