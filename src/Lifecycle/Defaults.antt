-- ===== src/Lifecycle/Defaults.antt =====
-- operator/internal/lifecycle/builder.go, from carryForwardOr down: the default of each condition
-- type, by the decided phase and the facts.
use ai_sandbox.Base.{
  ℕ, zero, suc, ◌+◌, ◌/◌, ◌%◌, Bool, not, ◌&&◌, ◌||◌, [], ◌∷◌, ◌++◌, none, some, Text, codes,
  is_some, leb, ltb, if◌then◌else◌, length, take,
}
use ai_sandbox.Base.Int.{pos, pos_part, leb_ℤ}
use ai_sandbox.Api.Phase.{Phase, PodPhase, phase_eq, pod_phase_eq}
use ai_sandbox.Api.Condition.{ConditionType, ConditionStatus, Reason, ApiMachinery}
use ai_sandbox.Api.Environment.{SandboxEnvironment}
use ai_sandbox.Lifecycle.Facts.{ClusterFacts}
use ai_sandbox.Lifecycle.Reasons.{sanitize_reason, pod_failure_reasons, step_failure_reasons}

-- Status, reason and message of one condition.
abbrev pub Default : Type 0
Default = ConditionStatus × Reason × Text

-- The decimal digits of a number below 10 ^ fuel, before `rest`, as strconv prints them.
digits_from : ℕ → ℕ → Text → Text
digits_from zero n rest = rest
digits_from (suc fuel) n rest =
    let more = digits_from fuel (n / 10) ((b'0' + n % 10) ∷ rest) in
    if ltb n 10 then (b'0' + n) ∷ rest else more

-- `%d` of a positive int, which has at most 19 digits.
unfoldable pub decimal : ℕ → Text
unfolding digits_from
decimal n = digits_from 19 n []

unfoldable pub is_terminal : Phase → Bool
unfolding phase_eq
is_terminal phase = phase_eq phase Phase.done || phase_eq phase Phase.failed

abbrev pub max_message_bytes : ℕ
max_message_bytes = 512

unfoldable pub truncate_message : Text → Text
truncate_message s = if leb (length s) max_message_bytes then s else take max_message_bytes s

unfoldable pub queue_message : ClusterFacts → Text
unfolding decimal
queue_message f =
    if leb_ℤ f.queue_position (pos 0) || leb_ℤ f.queue_depth (pos 0)
    then []
    else codes "queued at position "
      ++ (decimal (pos_part f.queue_position) ++ (codes " of " ++ decimal (pos_part f.queue_depth)))

unfoldable pub pod_ready_during_restore : ClusterFacts → Default
pod_ready_during_restore facts =
    if not facts.pod_observed
    then (ConditionStatus.unknown, Reason.pod_not_observed, [])
    else if not facts.pod_exists
    then (ConditionStatus.false_, Reason.pod_not_created, [])
    else (ConditionStatus.false_, Reason.pod_pending, [])

unfoldable pub pod_ready_on_success : ClusterFacts → Default
pod_ready_on_success facts =
    if facts.agent_done
    then (ConditionStatus.false_, Reason.agent_reported_success, [])
    else (ConditionStatus.false_, Reason.pod_succeeded, [])

unfoldable pub frozen_during_freeze : ClusterFacts → Default
frozen_during_freeze facts = elim facts.snapshot_failure [
  | some failure ↦ (ConditionStatus.false_, Reason.snapshot_failed, failure.message)
  | none ↦
      if not facts.snapshot_complete
      then (ConditionStatus.false_, Reason.snapshot_in_progress, [])
      else if facts.pod_exists
      then (ConditionStatus.false_, Reason.pod_terminating, [])
      else (ConditionStatus.false_, Reason.not_frozen, [])
]

unfoldable pub default_archived : Phase → ClusterFacts → Default
unfolding phase_eq
default_archived phase facts =
    if facts.archive_written
    then (ConditionStatus.true_, Reason.archive_written, [])
    else if phase_eq phase Phase.done || phase_eq phase Phase.failed
    then (ConditionStatus.false_, Reason.archive_pending, [])
    else (ConditionStatus.false_, Reason.not_terminal, [])

unfoldable pub ready_suspendable : SandboxEnvironment → Reason → Default
ready_suspendable env reason =
    if env.spec.suspend
    then (ConditionStatus.false_, Reason.suspended, [])
    else (ConditionStatus.false_, reason, [])

unfoldable pub ready_on_success : ClusterFacts → Default
ready_on_success facts =
    if facts.agent_done
    then (ConditionStatus.false_, Reason.agent_reported_success, [])
    else (ConditionStatus.false_, Reason.succeeded, [])

-- The last `switch` of defaultScheduled.
unfoldable pub scheduled_by_phase : Phase → ClusterFacts → Default
unfolding queue_message
scheduled_by_phase Phase.pending facts =
    (ConditionStatus.false_, Reason.resources_not_ready, facts.resources_problem)
scheduled_by_phase Phase.waiting facts = (ConditionStatus.false_, Reason.waiting, [])
scheduled_by_phase _ facts = (ConditionStatus.false_, Reason.queued, queue_message facts)

unfoldable pub default_scheduled : Phase → SandboxEnvironment → ClusterFacts → Default
unfolding is_terminal phase_eq scheduled_by_phase
default_scheduled phase env facts =
    if is_terminal phase
    then (ConditionStatus.false_, Reason.terminal, [])
    else if facts.slot_granted
    then (ConditionStatus.true_, Reason.slot_granted, [])
    else if env.spec.suspend
        && (phase_eq phase Phase.pending
            || (phase_eq phase Phase.ready || phase_eq phase Phase.waiting))
    then (ConditionStatus.false_, Reason.suspended, [])
    else scheduled_by_phase phase facts

unfoldable pub default_frozen : Phase → SandboxEnvironment → ClusterFacts → Default
unfolding frozen_during_freeze
default_frozen Phase.waiting env facts =
    if is_some env.status.wait_for
    then (ConditionStatus.true_, Reason.wait_declared, [])
    else (ConditionStatus.true_, Reason.suspended, [])
default_frozen Phase.freezing env facts = frozen_during_freeze facts
default_frozen _ env facts = (ConditionStatus.false_, Reason.not_frozen, [])

module _ ⦃k : ApiMachinery⦄ where
  unfoldable pub carry_forward_or : SandboxEnvironment → ConditionType → Default → Default
  carry_forward_or env cond_type fallback =
      elim (k.find_status_condition env.status.conditions cond_type) [
        | some c ↦ (c.status, c.reason, c.message)
        | none ↦ fallback
      ]

  unfoldable pub pod_ready_on_failure : SandboxEnvironment → ClusterFacts → Default
  unfolding pod_phase_eq carry_forward_or
  pod_ready_on_failure env facts = elim facts.pod_failure [
    | some failure ↦ (
      ConditionStatus.false_,
      sanitize_reason failure.reason pod_failure_reasons Reason.pod_failed,
      failure.message,
    )
    | none ↦
        if pod_phase_eq facts.pod_phase PodPhase.failed
        then (ConditionStatus.false_, Reason.pod_failed, [])
        else carry_forward_or env ConditionType.pod_ready
            (ConditionStatus.false_, Reason.pod_failed, [])
  ]

  unfoldable pub default_pod_ready : Phase → SandboxEnvironment → ClusterFacts → Default
  unfolding pod_ready_during_restore pod_ready_on_success pod_ready_on_failure
  default_pod_ready Phase.pending env facts = (ConditionStatus.false_, Reason.pod_not_created, [])
  default_pod_ready Phase.ready env facts = (ConditionStatus.false_, Reason.pod_not_created, [])
  default_pod_ready Phase.restoring env facts = pod_ready_during_restore facts
  default_pod_ready Phase.running env facts =
      if not facts.pod_observed
      then (ConditionStatus.unknown, Reason.pod_not_observed, [])
      else (ConditionStatus.true_, Reason.pod_running, [])
  default_pod_ready Phase.freezing env facts = (ConditionStatus.false_, Reason.pod_deleted, [])
  default_pod_ready Phase.waiting env facts = (ConditionStatus.false_, Reason.pod_deleted, [])
  default_pod_ready Phase.done env facts = pod_ready_on_success facts
  default_pod_ready Phase.failed env facts = pod_ready_on_failure env facts
  default_pod_ready _ env facts = (ConditionStatus.false_, Reason.pod_not_created, [])

  -- The answer for an observed probe failure.
  unfoldable pub probe_failed : ClusterFacts → Default → Default
  probe_failed facts otherwise = elim facts.wait_probe_failure [
    | some failure ↦ (
      ConditionStatus.false_,
      sanitize_reason failure.reason step_failure_reasons Reason.probe_failed,
      failure.message,
    )
    | none ↦ otherwise
  ]

  unfoldable pub default_wait_satisfied : Phase → SandboxEnvironment → ClusterFacts → Default
  unfolding phase_eq probe_failed carry_forward_or
  default_wait_satisfied phase env facts =
      if facts.wait_probe_satisfied
      then (ConditionStatus.true_, Reason.probe_satisfied, [])
      else if phase_eq phase Phase.waiting && is_some env.status.wait_for
      then (if not facts.probe_observed
          then (ConditionStatus.unknown, Reason.probe_not_evaluated, [])
          else probe_failed facts (ConditionStatus.false_, Reason.probe_pending, []))
      else probe_failed facts (
          if not (is_some env.status.wait_for)
          then (ConditionStatus.false_, Reason.no_wait_declared, [])
          else carry_forward_or env ConditionType.wait_satisfied
              (ConditionStatus.false_, Reason.probe_pending, []))

  unfoldable pub ready_on_failure : SandboxEnvironment → ClusterFacts → Default
  unfolding truncate_message pod_phase_eq carry_forward_or probe_failed
  ready_on_failure env facts =
      if facts.agent_failed
      then (
        ConditionStatus.false_,
        Reason.agent_reported_failure,
        truncate_message facts.agent_message,
      )
      else elim facts.pod_failure [
        | some failure ↦ (
          ConditionStatus.false_,
          sanitize_reason failure.reason pod_failure_reasons Reason.pod_failed,
          failure.message,
        )
        | none ↦
            if pod_phase_eq facts.pod_phase PodPhase.failed
            then (ConditionStatus.false_, Reason.pod_failed, [])
            else probe_failed facts (
                carry_forward_or env ConditionType.ready
                  (ConditionStatus.false_, Reason.pod_failed, []))
      ]

  unfoldable pub default_ready : Phase → SandboxEnvironment → ClusterFacts → Default
  unfolding ready_suspendable ready_on_success ready_on_failure
  default_ready Phase.pending env facts = ready_suspendable env Reason.pending
  default_ready Phase.ready env facts = ready_suspendable env Reason.queued
  default_ready Phase.restoring env facts = (ConditionStatus.false_, Reason.restoring, [])
  default_ready Phase.running env facts = (ConditionStatus.true_, Reason.running, [])
  default_ready Phase.freezing env facts = elim facts.snapshot_failure [
    | some failure ↦ (ConditionStatus.false_, Reason.snapshot_failed, failure.message)
    | none ↦ (ConditionStatus.false_, Reason.freezing, [])
  ]
  default_ready Phase.waiting env facts = ready_suspendable env Reason.waiting
  default_ready Phase.done env facts = ready_on_success facts
  default_ready Phase.failed env facts = ready_on_failure env facts
  default_ready _ env facts = (ConditionStatus.false_, Reason.pending, [])

  unfoldable pub default_for : ConditionType → Phase → SandboxEnvironment → ClusterFacts → Default
  unfolding default_scheduled default_pod_ready default_frozen default_wait_satisfied
      default_archived default_ready
  default_for ConditionType.scheduled phase env facts = default_scheduled phase env facts
  default_for ConditionType.pod_ready phase env facts = default_pod_ready phase env facts
  default_for ConditionType.frozen phase env facts = default_frozen phase env facts
  default_for ConditionType.wait_satisfied phase env facts = default_wait_satisfied phase env facts
  default_for ConditionType.archived phase env facts = default_archived phase facts
  default_for ConditionType.ready phase env facts = default_ready phase env facts
  default_for (ConditionType.other t) phase env facts =
      (ConditionStatus.unknown, Reason.pending, [])
