-- ===== src/Api/Condition.antt =====
-- Conditions: the condition types and reasons of operator/internal/lifecycle/conditions.go, the
-- record metav1.Condition, and what the operator takes from k8s.io/apimachinery.
use ai_sandbox.Base.{
  ℕ, ◌+◌, ◌≤◌, ◌<◌, ◌≡◌, Bool, true, false, List, [], ◌∷◌, Option, none, some, Text, text_eq,
  eq_of_text_eq, text_eq_refl, refl, ap, arith,
}

pub data ConditionStatus : Type 0 where
  true_ false_ unknown : ConditionStatus

unfoldable pub status_eq : ConditionStatus → ConditionStatus → Bool
status_eq ConditionStatus.true_ ConditionStatus.true_ = true
status_eq ConditionStatus.false_ ConditionStatus.false_ = true
status_eq ConditionStatus.unknown ConditionStatus.unknown = true
status_eq _ _ = false

-- `other` is a condition type that another controller owns.
pub data ConditionType : Type 0 where
  scheduled pod_ready frozen wait_satisfied archived ready : ConditionType
  other : Text → ConditionType

unfoldable pub type_eq : ConditionType → ConditionType → Bool
type_eq ConditionType.scheduled ConditionType.scheduled = true
type_eq ConditionType.pod_ready ConditionType.pod_ready = true
type_eq ConditionType.frozen ConditionType.frozen = true
type_eq ConditionType.wait_satisfied ConditionType.wait_satisfied = true
type_eq ConditionType.archived ConditionType.archived = true
type_eq ConditionType.ready ConditionType.ready = true
type_eq (ConditionType.other s) (ConditionType.other t) = text_eq s t
type_eq _ _ = false

pub eq_of_type_eq : (t u : ConditionType) → type_eq t u ≡ true → t ≡ u
unfolding type_eq
eq_of_type_eq (ConditionType.other s) (ConditionType.other t) h =
    ap ConditionType.other (eq_of_text_eq s t h)
eq_of_type_eq _ _ h = ground arith

pub type_eq_refl : (t : ConditionType) → type_eq t t ≡ true
unfolding type_eq
type_eq_refl (ConditionType.other s) = text_eq_refl s
type_eq_refl _ = refl

-- A condition's reason: the constants of conditions.go, `none_` for the empty string, and `other`
-- for any string that no constant names.
pub data Reason : Type 0 where
  none_ : Reason
  -- scheduling
  slot_granted queued resources_not_ready suspended waiting terminal : Reason
  -- pod
  pod_running pod_pending pod_not_created pod_deleted pod_not_observed pod_succeeded : Reason
  -- pod failure
  pod_failed image_pull_failure unschedulable restore_verification_failed : Reason
  -- freeze
  wait_declared snapshot_in_progress pod_terminating snapshot_failed not_frozen : Reason
  -- probes
  probe_satisfied probe_pending probe_not_evaluated no_wait_declared probe_failed : Reason
  -- archive
  archive_written archive_pending not_terminal : Reason
  -- summary
  pending restoring running freezing succeeded class_not_resolved : Reason
  -- agent
  agent_reported_success agent_reported_failure : Reason
  -- timeouts
  running_timeout_exceeded waiting_timeout_exceeded total_timeout_exceeded : Reason
  other : Text → Reason

pub record Condition : Type 0 where
  pub type : ConditionType
  pub status : ConditionStatus
  pub reason : Reason
  pub message : Text
  pub observed_generation : ℕ
  pub last_transition_time : ℕ

-- What SetStatusCondition leaves in the slice for a condition `c` where `old` was found: the
-- transition time moves only with the status.
unfoldable pub merged : Option Condition → Condition → Condition
unfolding status_eq
merged none c = c
merged (some old) c = elim (status_eq old.status c.status) [
  | true ↦ record c { last_transition_time = old.last_transition_time }
  | false ↦ c
]

-- k8s.io/apimachinery: apimeta.FindStatusCondition, apimeta.SetStatusCondition (at a condition
-- whose transition time is set) and metav1.Time.Rfc3339Copy, with their documented behaviour.
-- Times are nanoseconds since the zero time of Go's time.Time.
pub record ApiMachinery : Type 0 where
  pub find_status_condition : List Condition → ConditionType → Option Condition
  pub set_status_condition : List Condition → Condition → List Condition
  pub rfc3339_copy : ℕ → ℕ
  -- The set condition is found, merged with the one that was there.
  pub find-set_self :
      (cs : List Condition) (c : Condition)
      → find_status_condition (set_status_condition cs c) c.type
        ≡ some (merged (find_status_condition cs c.type) c)
  -- No other type is touched.
  pub find-set_ne :
      (cs : List Condition) (c : Condition) (t : ConditionType)
      → type_eq c.type t ≡ false
      → find_status_condition (set_status_condition cs c) t ≡ find_status_condition cs t
  -- The first condition of the type is found.
  pub find-nil : (t : ConditionType) → find_status_condition [] t ≡ none
  pub find-cons_eq :
      (c : Condition) (cs : List Condition) (t : ConditionType)
      → type_eq c.type t ≡ true
      → find_status_condition (c ∷ cs) t ≡ some c
  pub find-cons_ne :
      (c : Condition) (cs : List Condition) (t : ConditionType)
      → type_eq c.type t ≡ false
      → find_status_condition (c ∷ cs) t ≡ find_status_condition cs t
  -- A copy is the time at second-level precision.
  pub rfc3339_copy-le : (t : ℕ) → rfc3339_copy t ≤ t
  pub rfc3339_copy-lt : (t : ℕ) → t < rfc3339_copy t + 1_000_000_000
