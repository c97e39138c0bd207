-- ===== src/Lifecycle/Next/Phases.antt =====
-- operator/internal/lifecycle/next.go: the functions of each phase, nextPending to nextWaiting.
use ai_sandbox.Base.{
  ℕ, true, false, not, ◌&&◌, ◌||◌, [], Option, none, some, codes, is_some, if◌then◌else◌, ◌▸◌,
}
use ai_sandbox.Api.Phase.{Phase, PodPhase, phase_eq, pod_phase_eq}
use ai_sandbox.Api.Condition.{ConditionType, ConditionStatus, Reason, ApiMachinery}
use ai_sandbox.Api.Environment.{SandboxEnvironment, ProbeAttemptStatus, ProbeAttemptPhase}
use ai_sandbox.Lifecycle.Facts.{ClusterFacts, StepFailure}
use ai_sandbox.Lifecycle.Decision.{Action, empty_patch, Decision}
use ai_sandbox.Lifecycle.Reasons.{sanitize_reason, step_failure_reasons}
use ai_sandbox.Lifecycle.Defaults.{queue_message}
use ai_sandbox.Lifecycle.Builder.{new_builder, phase, slot, act, patch, cond, build}
use ai_sandbox.Lifecycle.Timeouts.{new_meta_time}

module _ ⦃k : ApiMachinery⦄ where
  unfoldable pub next_pending : SandboxEnvironment → ClusterFacts → ℕ → Decision
  unfolding new_meta_time new_builder phase slot act patch cond build
  next_pending env facts now =
      if facts.resources_ready
      then new_builder env facts now
        ▸ phase Phase.ready
        ▸ slot false
        ▸ patch (record empty_patch { set_queued_since = new_meta_time now })
        ▸ build
      else new_builder env facts now
        ▸ phase Phase.pending
        ▸ slot false
        ▸ act Action.ensure_resources
        ▸ cond ConditionType.scheduled ConditionStatus.false_ Reason.resources_not_ready
            facts.resources_problem
        ▸ build

  unfoldable pub next_ready : SandboxEnvironment → ClusterFacts → ℕ → Decision
  unfolding new_builder phase slot act cond build
  next_ready env facts now =
      if env.spec.suspend
      then new_builder env facts now
        ▸ phase Phase.ready
        ▸ slot false
        ▸ cond ConditionType.ready ConditionStatus.false_ Reason.suspended []
        ▸ build
      else if facts.slot_granted
      then new_builder env facts now
        ▸ phase Phase.restoring
        ▸ slot true
        ▸ act Action.ensure_pod
        ▸ build
      else new_builder env facts now
        ▸ phase Phase.ready
        ▸ slot true
        ▸ cond ConditionType.scheduled ConditionStatus.false_ Reason.queued (queue_message facts)
        ▸ build

  unfoldable pub next_restoring : SandboxEnvironment → ClusterFacts → ℕ → Decision
  unfolding new_meta_time new_builder phase slot act patch cond build pod_phase_eq
  next_restoring env facts now =
      if env.spec.suspend
      then new_builder env facts now
        ▸ phase Phase.ready
        ▸ slot false
        ▸ act Action.delete_pod
        ▸ build
      else if not facts.slot_granted
      then new_builder env facts now ▸ phase Phase.ready ▸ slot true ▸ act Action.delete_pod ▸ build
      else if not facts.pod_observed
      then new_builder env facts now
        ▸ phase Phase.restoring
        ▸ slot true
        ▸ act Action.ensure_pod
        ▸ cond ConditionType.pod_ready ConditionStatus.unknown Reason.pod_not_observed []
        ▸ build
      else if pod_phase_eq facts.pod_phase PodPhase.running && facts.pod_ready
      then new_builder env facts now
        ▸ phase Phase.running
        ▸ slot true
        ▸ patch (record empty_patch {
          set_started_at = new_meta_time now;
          increment_wake_count = is_some env.status.snapshot;
        })
        ▸ cond ConditionType.pod_ready ConditionStatus.true_ Reason.pod_running []
        ▸ build
      else new_builder env facts now
        ▸ phase Phase.restoring
        ▸ slot true
        ▸ act Action.ensure_pod
        ▸ cond ConditionType.pod_ready ConditionStatus.false_
            (if not facts.pod_exists then Reason.pod_not_created else Reason.pod_pending) []
        ▸ build

  unfoldable pub next_running : SandboxEnvironment → ClusterFacts → ℕ → Decision
  unfolding new_builder phase slot act cond build
  next_running env facts now =
      if facts.agent_wait_declared || is_some env.status.wait_for
      then new_builder env facts now
        ▸ phase Phase.freezing
        ▸ slot true
        ▸ act Action.freeze_pod
        ▸ build
      else if env.spec.suspend
      then new_builder env facts now
        ▸ phase Phase.freezing
        ▸ slot true
        ▸ act Action.freeze_pod
        ▸ build
      else if not facts.pod_observed
      then new_builder env facts now
        ▸ phase Phase.running
        ▸ slot true
        ▸ cond ConditionType.pod_ready ConditionStatus.unknown Reason.pod_not_observed []
        ▸ cond ConditionType.ready ConditionStatus.true_ Reason.running []
        ▸ build
      else new_builder env facts now
        ▸ phase Phase.running
        ▸ slot true
        ▸ cond ConditionType.pod_ready ConditionStatus.true_ Reason.pod_running []
        ▸ cond ConditionType.ready ConditionStatus.true_ Reason.running []
        ▸ build

  unfoldable pub next_freezing : SandboxEnvironment → ClusterFacts → ℕ → Decision
  unfolding new_builder phase slot act patch cond build
  next_freezing env facts now = elim facts.snapshot_failure [
    | some failure ↦
        new_builder env facts now
        ▸ phase Phase.freezing
        ▸ slot true
        ▸ cond ConditionType.frozen ConditionStatus.false_ Reason.snapshot_failed failure.message
        ▸ cond ConditionType.ready ConditionStatus.false_ Reason.snapshot_failed failure.message
        ▸ build
    | none ↦
        if not facts.snapshot_complete
        then new_builder env facts now
          ▸ phase Phase.freezing
          ▸ slot true
          ▸ act Action.freeze_pod
          ▸ cond ConditionType.frozen ConditionStatus.false_ Reason.snapshot_in_progress []
          ▸ build
        else if facts.pod_exists
        then new_builder env facts now
          ▸ phase Phase.freezing
          ▸ slot true
          ▸ act Action.delete_pod
          ▸ cond ConditionType.frozen ConditionStatus.false_ Reason.pod_terminating []
          ▸ build
        else new_builder env facts now
          ▸ phase Phase.waiting
          ▸ slot false
          ▸ patch (record empty_patch { increment_freeze_count = true })
          ▸ cond ConditionType.frozen ConditionStatus.true_
              (if is_some env.status.wait_for then Reason.wait_declared else Reason.suspended) []
          ▸ build
  ]

  -- nextWaiting's guard for the freeze detour: back to the recorded terminal phase.
  unfoldable pub detour_return : SandboxEnvironment → ClusterFacts → ℕ → Decision
  unfolding new_builder phase slot build phase_eq
  detour_return env facts now =
      new_builder env facts now
      ▸ phase (if phase_eq env.status.terminal_phase Phase.failed then Phase.failed else Phase.done)
      ▸ slot false
      ▸ build

  unfoldable pub probe_unevaluatable :
      SandboxEnvironment → ClusterFacts → ℕ → StepFailure → Decision
  unfolding new_meta_time new_builder phase slot patch cond build
  probe_unevaluatable env facts now failure =
      new_builder env facts now
      ▸ phase Phase.failed
      ▸ slot false
      ▸ patch (record empty_patch {
        set_finished_at = new_meta_time now;
        set_probe_attempt = facts.probe_attempt;
      })
      ▸ cond ConditionType.ready ConditionStatus.false_
          (sanitize_reason failure.reason step_failure_reasons Reason.probe_failed) failure.message
      ▸ build

  -- The copy of an attempt record that marks it satisfied.
  satisfied : Option ProbeAttemptStatus → Option ProbeAttemptStatus
  satisfied none = none
  satisfied (some attempt) =
      some (record attempt { phase = ProbeAttemptPhase.satisfied; last_result = codes "satisfied" })

  -- nextWaiting's `switch` after its first case.
  unfoldable pub await_probe : SandboxEnvironment → ClusterFacts → ℕ → Decision
  unfolding new_builder phase slot patch cond build satisfied
  await_probe env facts now =
      if env.spec.suspend
      then new_builder env facts now
        ▸ phase Phase.waiting
        ▸ slot false
        ▸ cond ConditionType.ready ConditionStatus.false_ Reason.suspended []
        ▸ build
      else if not (is_some env.status.wait_for)
      then new_builder env facts now ▸ phase Phase.ready ▸ slot true ▸ build
      else if not facts.probe_observed
      then new_builder env facts now
        ▸ phase Phase.waiting
        ▸ slot false
        ▸ cond ConditionType.wait_satisfied ConditionStatus.unknown Reason.probe_not_evaluated []
        ▸ build
      else if facts.wait_probe_satisfied
      then new_builder env facts now
        ▸ phase Phase.ready
        ▸ slot true
        ▸ patch (record empty_patch {
          clear_wait_for = true;
          set_probe_attempt = satisfied facts.probe_attempt;
        })
        ▸ cond ConditionType.wait_satisfied ConditionStatus.true_ Reason.probe_satisfied []
        ▸ build
      else new_builder env facts now
        ▸ phase Phase.waiting
        ▸ slot false
        ▸ patch (record empty_patch { set_probe_attempt = facts.probe_attempt })
        ▸ cond ConditionType.wait_satisfied ConditionStatus.false_ Reason.probe_pending []
        ▸ build

  unfoldable pub next_waiting : SandboxEnvironment → ClusterFacts → ℕ → Decision
  unfolding detour_return probe_unevaluatable await_probe
  next_waiting env facts now =
      if is_some env.status.finished_at
      then detour_return env facts now
      else elim facts.wait_probe_failure [
        | some failure ↦ probe_unevaluatable env facts now failure
        | none ↦ await_probe env facts now
      ]

  unfoldable pub dispatch_phase : SandboxEnvironment → ClusterFacts → ℕ → Phase → Decision
  unfolding next_pending next_ready next_restoring next_running next_freezing next_waiting
  dispatch_phase env facts now Phase.pending = next_pending env facts now
  dispatch_phase env facts now Phase.ready = next_ready env facts now
  dispatch_phase env facts now Phase.restoring = next_restoring env facts now
  dispatch_phase env facts now Phase.running = next_running env facts now
  dispatch_phase env facts now Phase.freezing = next_freezing env facts now
  dispatch_phase env facts now Phase.waiting = next_waiting env facts now
  dispatch_phase env facts now _ = next_pending env facts now
