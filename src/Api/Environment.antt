-- ===== src/Api/Environment.antt =====
-- The records of operator/api/v1alpha1/sandboxenvironment_types.go, with the fields that the
-- modelled code reads or writes. A Go pointer is an option, a time is in nanoseconds since the
-- zero time of time.Time, and an int32 counter is its bit pattern.
use ai_sandbox.Base.{ℕ, Bool, List, Option, Text}
use ai_sandbox.Base.Int.{ℤ}
use ai_sandbox.Api.Phase.{Phase}
use ai_sandbox.Api.Condition.{Condition, Reason}

-- `class_ref` is the name in spec.classRef.
pub record SandboxEnvironmentSpec : Type 0 where
  pub class_ref : Text
  pub priority : ℤ
  pub suspend : Bool

pub record SlotStatus : Type 0 where
  pub granted : Bool
  pub granted_at : Option ℕ
  pub lease_name : Text

pub record WaitForStatus : Type 0 where
  pub type : Text
  pub reason : Text
  pub declared_at : Option ℕ
  pub params : List (Text × Text)

pub data ProbeAttemptPhase : Type 0 where
  pending satisfied failed : ProbeAttemptPhase

pub record ProbeAttemptStatus : Type 0 where
  pub type : Text
  pub attempts : ℕ
  pub consecutive_errors : ℕ
  pub phase : ProbeAttemptPhase
  pub last_result : Text
  pub reason : Text
  pub message : Text
  pub last_attempt_at : Option ℕ
  pub next_eligible_at : Option ℕ

-- `other` is a text that no constant names.
pub data AgentOutcome : Type 0 where
  succeeded failed : AgentOutcome
  other : Text → AgentOutcome

pub record AgentResultStatus : Type 0 where
  pub outcome : AgentOutcome
  pub message : Text
  pub exit_code : Option ℕ
  pub reported_at : Option ℕ

pub data AttemptPhase : Type 0 where
  in_progress succeeded failed : AttemptPhase
  other : Text → AttemptPhase

pub record SnapshotAttemptStatus : Type 0 where
  pub seq : ℕ
  pub phase : AttemptPhase
  pub attempts : ℕ
  pub reason : Text
  pub message : Text
  pub started_at : Option ℕ
  pub updated_at : Option ℕ

pub record RestoredRootStatus : Type 0 where
  pub name : Text
  pub source : Text
  pub warm_miss_reason : Text
  pub bytes_downloaded : ℕ

pub record RestoreAttemptStatus : Type 0 where
  pub seq : ℕ
  pub snapshot_id : Text
  pub phase : AttemptPhase
  pub roots : List RestoredRootStatus
  pub attempts : ℕ
  pub duration_millis : ℕ
  pub reason : Text
  pub message : Text
  pub started_at : Option ℕ
  pub updated_at : Option ℕ

pub record ArchiveStatus : Type 0 where
  pub uri : Text
  pub finished_at : Option ℕ
  pub context_present : Bool
  pub run_json_sha256 : Text

pub record SnapshotStatus : Type 0 where
  pub seq : ℕ
  pub uri : Text
  pub size_bytes : ℕ
  pub sha256 : Text
  pub taken_at : Option ℕ
  pub duration_millis : ℕ

abbrev pub max_phase_history_entries : ℕ
max_phase_history_entries = 64

pub record PhaseTransition : Type 0 where
  pub phase : Phase
  pub at : ℕ
  pub reason : Reason

pub record SandboxEnvironmentStatus : Type 0 where
  pub phase : Phase
  pub conditions : List Condition
  pub slot : SlotStatus
  pub wait_for : Option WaitForStatus
  pub probe_attempt : Option ProbeAttemptStatus
  pub snapshot : Option SnapshotStatus
  pub agent_result : Option AgentResultStatus
  pub snapshot_attempt : Option SnapshotAttemptStatus
  pub restore_attempt : Option RestoreAttemptStatus
  pub archive : Option ArchiveStatus
  pub queued_since : Option ℕ
  pub started_at : Option ℕ
  pub finished_at : Option ℕ
  pub freeze_count : ℕ
  pub wake_count : ℕ
  pub archive_uri : Text
  pub terminal_phase : Phase
  pub phase_history : List PhaseTransition
  pub observed_generation : ℕ

-- `deletion_timestamp` is none where the object is not being deleted.
pub record SandboxEnvironment : Type 0 where
  pub namespace : Text
  pub name : Text
  pub uid : Text
  pub generation : ℕ
  pub creation_timestamp : ℕ
  pub deletion_timestamp : Option ℕ
  pub spec : SandboxEnvironmentSpec
  pub status : SandboxEnvironmentStatus
