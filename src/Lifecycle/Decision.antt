-- ===== src/Lifecycle/Decision.antt =====
-- operator/internal/lifecycle/decision.go: what one pass of the state machine decides.
use ai_sandbox.Base.{ℕ, ◌*◌, Bool, false, List, [], Option, none, Text}
use ai_sandbox.Base.Int.{ℤ, pos}
use ai_sandbox.Api.Phase.{Phase}
use ai_sandbox.Api.Condition.{Condition}
use ai_sandbox.Api.Environment.{ProbeAttemptStatus}
use ai_sandbox.Lifecycle.Facts.{second}

pub data Action : Type 0 where
  ensure_resources ensure_pod freeze_pod delete_pod archive : Action

abbrev pub min_requeue_after : ℤ
min_requeue_after = pos second

abbrev pub max_requeue_after : ℤ
max_requeue_after = pos (300 * second)

abbrev pub class_unresolved_requeue : ℤ
class_unresolved_requeue = pos (30 * second)

abbrev pub terminal_archive_requeue : ℤ
terminal_archive_requeue = pos (60 * second)

pub record StatusPatch : Type 0 where
  pub set_queued_since : Option ℕ
  pub set_started_at : Option ℕ
  pub set_finished_at : Option ℕ
  pub increment_freeze_count : Bool
  pub increment_wake_count : Bool
  pub clear_wait_for : Bool
  pub set_archive_uri : Text
  pub set_terminal_phase : Phase
  pub set_probe_attempt : Option ProbeAttemptStatus

-- Go's zero value `StatusPatch{}`: every field says "leave alone".
abbrev pub empty_patch : StatusPatch
empty_patch = record {
  set_queued_since = none;
  set_started_at = none;
  set_finished_at = none;
  increment_freeze_count = false;
  increment_wake_count = false;
  clear_wait_for = false;
  set_archive_uri = [];
  set_terminal_phase = Phase.unset;
  set_probe_attempt = none;
}

pub record Decision : Type 0 where
  pub phase : Phase
  pub conditions : List Condition
  pub actions : List Action
  pub slot_wanted : Bool
  pub status_patch : StatusPatch
  pub requeue_after : ℤ
