-- ===== src/Lifecycle/Timeouts.antt =====
-- operator/internal/lifecycle/timeouts.go: the timeout clocks and the requeue delay.
pub mod Requeue
use ai_sandbox.Base.{
  ℕ, suc, ◌+◌, ◌-◌, ◌^◌, Bool, true, false, not, ◌&&◌, Option, none, some, [], leb, ltb,
  if◌then◌else◌, ◌▸◌,
}
use ai_sandbox.Base.Int.{ℤ, pos, negsuc, sub_ℕ, ltb_ℤ, leb_ℤ}
use ai_sandbox.Api.Phase.{Phase, phase_eq}
use ai_sandbox.Api.Condition.{ConditionType, ConditionStatus, Reason, ApiMachinery, status_eq}
use ai_sandbox.Api.Environment.{SandboxEnvironment}
use ai_sandbox.Lifecycle.Facts.{ClusterFacts}
use ai_sandbox.Lifecycle.Decision.{
  StatusPatch, Decision, empty_patch, min_requeue_after, max_requeue_after,
  class_unresolved_requeue, terminal_archive_requeue,
}
use ai_sandbox.Lifecycle.Defaults.{is_terminal}
use ai_sandbox.Lifecycle.Builder.{new_builder, phase, slot, patch, cond, build}

abbrev pub max_duration : ℕ
max_duration = 9_223_372_036_854_775_807

-- time.Time.Sub: the difference, held between the least and the greatest int64.
unfoldable pub sub_time : ℕ → ℕ → ℤ
sub_time a b =
    if leb b a
    then (if leb (a - b) max_duration then pos (a - b) else pos max_duration)
    else (if leb (b - a) (max_duration + 1) then negsuc (b - a - 1) else negsuc max_duration)

-- time.Time.Add; an instant before the zero time is not represented.
unfoldable pub add_time : ℕ → ℤ → ℕ
add_time a (pos n) = a + n
add_time a (negsuc n) = a - suc n

unfoldable pub clamp_duration : ℤ → ℤ → ℤ → ℤ
clamp_duration d lo hi = if ltb_ℤ d lo then lo else if ltb_ℤ hi d then hi else d

-- The deadline that next_timeout_deadline has, after `consider(t)`: the earlier one.
unfoldable pub consider : ℕ → Option ℕ → Option ℕ
consider t none = some t
consider t (some deadline) = if ltb t deadline then some t else some deadline

module _ ⦃k : ApiMachinery⦄ where
  -- The transition time of a condition that is True.
  unfoldable pub true_since : SandboxEnvironment → ConditionType → Option ℕ
  unfolding status_eq
  true_since env t = elim (k.find_status_condition env.status.conditions t) [
    | none ↦ none
    | some c ↦
        if not (status_eq c.status ConditionStatus.true_) then none else some c.last_transition_time
  ]

  unfoldable pub running_since : SandboxEnvironment → Option ℕ
  unfolding true_since
  running_since env = true_since env ConditionType.pod_ready

  unfoldable pub waiting_since : SandboxEnvironment → Option ℕ
  unfolding true_since
  waiting_since env = true_since env ConditionType.frozen

  -- `t > 0 && since != nil && now.Sub(*since) >= t`.
  unfoldable pub elapsed : ℤ → Option ℕ → ℕ → Bool
  unfolding sub_time
  elapsed t none now = false
  elapsed t (some since) now = ltb_ℤ (pos 0) t && leb_ℤ t (sub_time now since)

  -- The reason of the first clock that has fired.
  unfoldable pub fired_timeout_reason :
      SandboxEnvironment → ClusterFacts → ℕ → Phase → Option Reason
  unfolding phase_eq
  fired_timeout_reason env facts now ph =
      if elapsed facts.timeouts.total (some env.creation_timestamp) now
      then some Reason.total_timeout_exceeded
      else if phase_eq ph Phase.running && elapsed facts.timeouts.running (running_since env) now
      then some Reason.running_timeout_exceeded
      else if phase_eq ph Phase.waiting && elapsed facts.timeouts.waiting (waiting_since env) now
      then some Reason.waiting_timeout_exceeded
      else none

  unfoldable pub new_meta_time : ℕ → Option ℕ
  new_meta_time t = some (k.rfc3339_copy t)

  -- The failed decision of a clock that has fired for a reason.
  unfoldable pub timed_out : SandboxEnvironment → ClusterFacts → ℕ → Reason → Decision
  unfolding new_meta_time new_builder phase slot patch cond build
  timed_out env facts now reason =
      new_builder env facts now
      ▸ phase Phase.failed
      ▸ slot false
      ▸ patch (record empty_patch { set_finished_at = new_meta_time now })
      ▸ cond ConditionType.pod_ready ConditionStatus.false_ reason []
      ▸ cond ConditionType.ready ConditionStatus.false_ reason []
      ▸ build

  unfoldable pub timeout_fired : SandboxEnvironment → ClusterFacts → ℕ → Phase → Option Decision
  unfolding timed_out
  timeout_fired env facts now ph = elim (fired_timeout_reason env facts now ph) [
    | none ↦ none
    | some reason ↦ some (timed_out env facts now reason)
  ]

  -- `if t > 0 && since != nil { consider(since.Add(t)) }`.
  unfoldable pub consider_clock : ℤ → Option ℕ → Option ℕ → Option ℕ
  unfolding consider add_time
  consider_clock t none deadline = deadline
  consider_clock t (some since) deadline =
      if ltb_ℤ (pos 0) t then consider (add_time since t) deadline else deadline

  -- `if pa != nil && pa.NextEligibleAt != nil { consider(pa.NextEligibleAt.Time) }`.
  unfoldable pub consider_probe : SandboxEnvironment → Option ℕ → Option ℕ
  unfolding consider
  consider_probe env deadline = elim env.status.probe_attempt [
    | none ↦ deadline
    | some pa ↦ elim pa.next_eligible_at [ none ↦ deadline | some t ↦ consider t deadline ]
  ]

  unfoldable pub next_timeout_deadline : SandboxEnvironment → ClusterFacts → Phase → Option ℕ
  unfolding phase_eq
  next_timeout_deadline env facts ph =
      let total = consider_clock facts.timeouts.total (some env.creation_timestamp) none in
      let running =
        if phase_eq ph Phase.running
        then consider_clock facts.timeouts.running (running_since env) total
        else total in
      if phase_eq ph Phase.waiting
      then consider_probe env (consider_clock facts.timeouts.waiting (waiting_since env) running)
      else running

  unfoldable pub compute_requeue_after : Phase → SandboxEnvironment → ClusterFacts → ℕ → ℤ
  compute_requeue_after ph env facts now =
      if is_terminal ph
      then (if not facts.archive_written then terminal_archive_requeue else pos 0)
      else if not facts.class_resolved
      then class_unresolved_requeue
      else elim (next_timeout_deadline env facts ph) [
        | none ↦ pos 0
        | some deadline ↦ clamp_duration (sub_time deadline now) min_requeue_after max_requeue_after
      ]
