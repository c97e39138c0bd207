-- ===== src/Lifecycle/Apply.antt =====
-- operator/internal/lifecycle/apply.go: the desired status that a decision stands for.
pub mod Laws
pub mod Conditions
use ai_sandbox.Base.{
  ℕ, ◌+◌, ◌-◌, ◌%◌, ◌^◌, Bool, true, false, not, ◌&&◌, List, [], ◌∷◌, ◌++◌, Option, none, some, ltb,
  length, drop, if◌then◌else◌,
}
use ai_sandbox.Api.Phase.{Phase, phase_eq}
use ai_sandbox.Api.Condition.{ConditionType, Reason, Condition, ApiMachinery}
use ai_sandbox.Api.Environment.{
  SandboxEnvironment, SandboxEnvironmentStatus, SlotStatus, PhaseTransition,
  max_phase_history_entries,
}
use ai_sandbox.Lifecycle.Decision.{StatusPatch, Decision}
use ai_sandbox.Lifecycle.Builder.{or_keep, text_or_keep}

-- A pointer that is set only where it is still nil.
abbrev pub set_once : Option ℕ → Option ℕ → Option ℕ
set_once new none = new
set_once new (some old) = some old

-- `n++` on an int32, as a bit pattern.
abbrev pub increment : Bool → ℕ → ℕ
increment true n = (n + 1) % 2 ^ 32
increment false n = n

abbrev pub no_slot : SlotStatus
no_slot = record { granted = false; granted_at = none; lease_name = [] }

-- The StatusPatch part of Apply.
unfoldable pub apply_patch : StatusPatch → SandboxEnvironmentStatus → SandboxEnvironmentStatus
unfolding phase_eq
apply_patch p s = record s {
  queued_since = set_once p.set_queued_since s.queued_since;
  started_at = set_once p.set_started_at s.started_at;
  finished_at = set_once p.set_finished_at s.finished_at;
  freeze_count = increment p.increment_freeze_count s.freeze_count;
  wake_count = increment p.increment_wake_count s.wake_count;
  wait_for = if p.clear_wait_for then none else s.wait_for;
  archive_uri = text_or_keep p.set_archive_uri s.archive_uri;
  terminal_phase =
      if not (phase_eq p.set_terminal_phase Phase.unset) && phase_eq s.terminal_phase Phase.unset
      then p.set_terminal_phase
      else s.terminal_phase;
  probe_attempt = or_keep p.set_probe_attempt s.probe_attempt;
}

-- `s[n - max:]` where a slice is longer than its cap.
unfoldable pub keep_last {ℓ} : {A : Type ℓ} → ℕ → List A → List A
keep_last cap xs = if ltb cap (length xs) then drop (length xs - cap) xs else xs

module _ ⦃k : ApiMachinery⦄ where
  -- The loop over the decision's conditions.
  unfoldable pub set_conditions : List Condition → List Condition → List Condition
  set_conditions existing [] = existing
  set_conditions existing (c ∷ cs) = set_conditions (k.set_status_condition existing c) cs

  -- The transition that a decision records.
  unfoldable pub transition_of : Decision → PhaseTransition
  transition_of d = record {
    phase = d.phase;
    at = elim d.conditions [ [] ↦ 0 | c ∷ _ ↦ c.last_transition_time ];
    reason = elim (k.find_status_condition d.conditions ConditionType.ready) [
      | none ↦ Reason.none_
      | some c ↦ c.reason
    ];
  }

  unfoldable pub apply_history : Phase → Decision → List PhaseTransition → List PhaseTransition
  unfolding phase_eq keep_last transition_of
  apply_history old d history =
      if phase_eq d.phase old
      then history
      else keep_last max_phase_history_entries (history ++ transition_of d ∷ [])

  unfoldable pub apply : SandboxEnvironment → Decision → SandboxEnvironmentStatus
  unfolding apply_patch apply_history set_conditions
  apply env d =
      let patched = apply_patch d.status_patch env.status in
      record patched {
        phase = d.phase;
        observed_generation = env.generation;
        conditions = set_conditions env.status.conditions d.conditions;
        phase_history = apply_history env.status.phase d env.status.phase_history;
        slot = if not d.slot_wanted then no_slot else env.status.slot;
      }
