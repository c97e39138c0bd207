-- ===== src/Lifecycle/Next.antt =====
-- operator/internal/lifecycle/next.go: the decision for an environment, given the facts.
pub mod Phases
pub mod Legality
pub mod Terminal
pub mod Cases
pub mod Actions
pub mod Slots
pub mod Conditions
pub mod Documented
use ai_sandbox.Base.{
  ℕ, Bool, true, false, not, ◌&&◌, ◌||◌, List, [], ◌∷◌, Option, none, some, is_some, if◌then◌else◌,
  ◌▸◌,
}
use ai_sandbox.Api.Phase.{Phase, PodPhase, phase_eq, pod_phase_eq}
use ai_sandbox.Api.Condition.{ConditionType, ConditionStatus, Reason, ApiMachinery}
use ai_sandbox.Api.Environment.{SandboxEnvironment}
use ai_sandbox.Lifecycle.Facts.{ClusterFacts}
use ai_sandbox.Lifecycle.Decision.{Action, StatusPatch, empty_patch, Decision}
use ai_sandbox.Lifecycle.Defaults.{is_terminal}
use ai_sandbox.Lifecycle.Builder.{new_builder, phase, slot, act, patch, cond, build}
use ai_sandbox.Lifecycle.Timeouts.{new_meta_time, timeout_fired, compute_requeue_after}
use Phases.{dispatch_phase}

-- The loop that looks for an EnsureResources already emitted.
has_ensure_resources : List Action → Bool
has_ensure_resources [] = false
has_ensure_resources (Action.ensure_resources ∷ actions) = true
has_ensure_resources (_ ∷ actions) = has_ensure_resources actions

unfoldable pub with_ensure_resources : List Action → Phase → ClusterFacts → List Action
unfolding has_ensure_resources is_terminal
with_ensure_resources actions ph facts =
    if is_terminal ph || not facts.class_resolved
    then actions
    else if has_ensure_resources actions
    then actions
    else Action.ensure_resources ∷ actions

-- The `switch` of agentOrPodTerminal: the arguments phase and deletePod of terminalOutcome, or none
-- for its `default`.
unfoldable pub agent_or_pod_outcome : ClusterFacts → Option (Phase × Bool)
unfolding pod_phase_eq
agent_or_pod_outcome facts =
    if facts.agent_failed
    then some (Phase.failed, false)
    else if facts.agent_done
    then some (Phase.done, true)
    else if facts.pod_observed && is_some facts.pod_failure
    then some (Phase.failed, false)
    else if facts.pod_observed && pod_phase_eq facts.pod_phase PodPhase.failed
    then some (Phase.failed, false)
    else if facts.pod_observed && pod_phase_eq facts.pod_phase PodPhase.succeeded
    then some (Phase.done, true)
    else none

module _ ⦃k : ApiMachinery⦄ where
  -- The patch of a run that is over: `StatusPatch{SetFinishedAt, SetArchiveURI, SetTerminalPhase}`.
  terminal_patch : ClusterFacts → ℕ → Phase → StatusPatch
  terminal_patch facts now ph = record empty_patch {
    set_finished_at = new_meta_time now;
    set_archive_uri = facts.archive_uri;
    set_terminal_phase = ph;
  }

  unfoldable pub terminal : SandboxEnvironment → ClusterFacts → ℕ → Phase → Decision
  unfolding terminal_patch new_meta_time new_builder phase slot act patch cond build phase_eq
  terminal env facts now ph =
      let b =
        new_builder env facts now ▸ phase ph ▸ slot false ▸ patch (terminal_patch facts now ph) in
      if not facts.archive_written
      then (if not (is_some env.status.snapshot) && facts.pod_alive_for_archive
          then new_builder env facts now
            ▸ phase Phase.freezing
            ▸ slot true
            ▸ act Action.freeze_pod
            ▸ patch (terminal_patch facts now ph)
            ▸ cond ConditionType.frozen ConditionStatus.false_ Reason.snapshot_in_progress []
            ▸ build
          else b ▸ act Action.archive ▸ build)
      else if phase_eq ph Phase.done
      then b ▸ act Action.delete_pod ▸ build
      else b ▸ build

  unfoldable pub terminal_outcome : SandboxEnvironment → ClusterFacts → ℕ → Phase → Bool → Decision
  unfolding new_meta_time new_builder phase slot act patch build
  terminal_outcome env facts now ph delete_pod =
      let b =
        new_builder env facts now
        ▸ phase ph
        ▸ slot false
        ▸ patch
            (record empty_patch { set_finished_at = new_meta_time now; set_terminal_phase = ph }) in
      if delete_pod && facts.archive_written then b ▸ act Action.delete_pod ▸ build else b ▸ build

  -- The wake that ends while still Restoring is counted.
  unfoldable pub count_wake : SandboxEnvironment → Phase → Decision → Decision
  unfolding phase_eq
  count_wake env ph d =
      if phase_eq ph Phase.restoring && is_some env.status.snapshot
      then record d { status_patch = record (d.status_patch) { increment_wake_count = true } }
      else d

  unfoldable pub agent_or_pod_terminal :
      SandboxEnvironment → ClusterFacts → ℕ → Phase → Option Decision
  unfolding agent_or_pod_outcome terminal_outcome count_wake phase_eq
  agent_or_pod_terminal env facts now ph =
      if not (phase_eq ph Phase.restoring) && not (phase_eq ph Phase.running)
      then none
      else elim (agent_or_pod_outcome facts) [
        | none ↦ none
        | some (end, delete_pod) ↦
            some (count_wake env ph (terminal_outcome env facts now end delete_pod))
      ]

  unfoldable pub hold : SandboxEnvironment → ClusterFacts → ℕ → Phase → Decision
  unfolding new_builder phase slot cond build
  hold env facts now ph =
      new_builder env facts now
      ▸ phase ph
      ▸ slot env.status.slot.granted
      ▸ cond ConditionType.ready ConditionStatus.unknown Reason.class_not_resolved
          facts.class_problem
      ▸ build

  -- What decide() does once the agent, the pod and the clocks are silent.
  unfoldable pub hold_or_dispatch : SandboxEnvironment → ClusterFacts → ℕ → Phase → Decision
  hold_or_dispatch env facts now ph =
      if not facts.class_resolved then hold env facts now ph else dispatch_phase env facts now ph

  unfoldable pub decide : SandboxEnvironment → ClusterFacts → ℕ → Phase → Decision
  decide env facts now ph =
      if is_terminal ph
      then terminal env facts now ph
      else elim (agent_or_pod_terminal env facts now ph) [
        | some d ↦ d
        | none ↦
            if is_some env.status.finished_at
            then dispatch_phase env facts now ph
            else elim (timeout_fired env facts now ph) [
              | some d ↦ d
              | none ↦ hold_or_dispatch env facts now ph
            ]
      ]

  -- The phase that Next works on: "" is Pending.
  unfoldable pub current_phase : SandboxEnvironment → Phase
  unfolding phase_eq
  current_phase env =
      if phase_eq env.status.phase Phase.unset then Phase.pending else env.status.phase

  unfoldable pub next : SandboxEnvironment → ClusterFacts → ℕ → Decision
  unfolding current_phase decide
  next env facts now =
      let d = decide env facts now (current_phase env) in
      record d {
        actions = with_ensure_resources d.actions d.phase facts;
        requeue_after = compute_requeue_after d.phase env facts now;
      }

-- Names the stages of the pipeline for the proofs that look through all of them.
unfoldable pub stages : Unit {0}
unfolding decide is_terminal terminal agent_or_pod_terminal timeout_fired hold_or_dispatch hold
    dispatch_phase
stages = tt
