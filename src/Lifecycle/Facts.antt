-- ===== src/Lifecycle/Facts.antt =====
-- operator/internal/lifecycle/facts.go: the observed facts that the state machine reads.
use ai_sandbox.Base.{ℕ, ◌*◌, Bool, true, false, [], Option, none, some, Text}
use ai_sandbox.Base.Int.{ℤ, pos}
use ai_sandbox.Api.Phase.{PodPhase}
use ai_sandbox.Api.Condition.{Reason}
use ai_sandbox.Api.Environment.{ProbeAttemptStatus}

-- time.Second and its multiples, in nanoseconds.
abbrev pub second : ℕ
second = 1_000_000_000

-- A time.Duration is an int64 of nanoseconds.
pub record Timeouts : Type 0 where
  pub running : ℤ
  pub waiting : ℤ
  pub total : ℤ

abbrev pub default_timeouts : Timeouts
default_timeouts = record {
  running = pos (6 * 3600 * second);
  waiting = pos (24 * 3600 * second);
  total = pos (72 * 3600 * second);
}

-- The spec.timeouts of a SandboxClass: Go duration strings.
pub record TimeoutsSpec : Type 0 where
  pub running : Text
  pub waiting : Text
  pub total : Text

-- `parse_duration` is time.ParseDuration, none on its error.
parse_or : (Text → Option ℤ) → Text → ℤ → ℤ
parse_or parse_duration [] def = def
parse_or parse_duration s def = elim (parse_duration s) [ none ↦ def | some d ↦ d ]

unfoldable pub resolve_timeouts : (Text → Option ℤ) → Option TimeoutsSpec → Timeouts
unfolding parse_or
resolve_timeouts parse_duration none = default_timeouts
resolve_timeouts parse_duration (some spec) = record {
  running = parse_or parse_duration spec.running default_timeouts.running;
  waiting = parse_or parse_duration spec.waiting default_timeouts.waiting;
  total = parse_or parse_duration spec.total default_timeouts.total;
}

pub record PodFailure : Type 0 where
  pub reason : Reason
  pub message : Text

pub record StepFailure : Type 0 where
  pub reason : Reason
  pub message : Text

pub record ClusterFacts : Type 0 where
  pub timeouts : Timeouts
  pub class_resolved : Bool
  pub class_problem : Text
  pub resources_ready : Bool
  pub resources_problem : Text
  pub slot_granted : Bool
  pub queue_position : ℤ
  pub queue_depth : ℤ
  pub pod_observed : Bool
  pub pod_exists : Bool
  pub pod_phase : PodPhase
  pub pod_ready : Bool
  pub pod_failure : Option PodFailure
  pub agent_wait_declared : Bool
  pub agent_done : Bool
  pub agent_failed : Bool
  pub agent_message : Text
  pub snapshot_complete : Bool
  pub snapshot_failure : Option StepFailure
  pub probe_observed : Bool
  pub wait_probe_satisfied : Bool
  pub wait_probe_failure : Option StepFailure
  pub probe_attempt : Option ProbeAttemptStatus
  pub archive_written : Bool
  pub archive_uri : Text
  pub pod_alive_for_archive : Bool

-- Go's zero value `ClusterFacts{}`.
abbrev pub zero_facts : ClusterFacts
zero_facts = record {
  timeouts = record { running = pos 0; waiting = pos 0; total = pos 0 };
  class_resolved = false;
  class_problem = [];
  resources_ready = false;
  resources_problem = [];
  slot_granted = false;
  queue_position = pos 0;
  queue_depth = pos 0;
  pod_observed = false;
  pod_exists = false;
  pod_phase = PodPhase.unset;
  pod_ready = false;
  pod_failure = none;
  agent_wait_declared = false;
  agent_done = false;
  agent_failed = false;
  agent_message = [];
  snapshot_complete = false;
  snapshot_failure = none;
  probe_observed = false;
  wait_probe_satisfied = false;
  wait_probe_failure = none;
  probe_attempt = none;
  archive_written = false;
  archive_uri = [];
  pod_alive_for_archive = false;
}

unfoldable pub with_all_observed : ClusterFacts → ClusterFacts
with_all_observed f = record f { class_resolved = true; pod_observed = true; probe_observed = true }
