-- ===== src/Lifecycle/Next/Legality.antt =====
-- The phases that a decision can lead to, against the table of
-- operator/internal/lifecycle/legality_test.go.
use ai_sandbox.Base.{
  ℕ, ◌≡◌, Bool, true, false, not, ◌&&◌, ◌||◌, text_eq, text_eq_refl, is_some, if◌then◌else◌, arith,
}
use ai_sandbox.Api.Phase.{Phase, PodPhase, phase_eq, pod_phase_eq}
use ai_sandbox.Api.Condition.{ApiMachinery}
use ai_sandbox.Api.Environment.{SandboxEnvironment}
use ai_sandbox.Lifecycle.Facts.{ClusterFacts}
use ai_sandbox.Lifecycle.Timeouts.{fired_timeout_reason}
use ai_sandbox.Lifecycle.Next.Terminal.{reported_done, reported_failed}
use ai_sandbox.Lifecycle.Next.{decide, next, current_phase, stages}

-- The test's table of legal transitions; an unknown phase keeps or re-enters Pending.
abbrev pub legal : Phase → Phase → Bool
legal Phase.pending Phase.pending = true
legal Phase.pending Phase.ready = true
legal Phase.pending Phase.failed = true
legal Phase.ready Phase.ready = true
legal Phase.ready Phase.restoring = true
legal Phase.ready Phase.failed = true
legal Phase.restoring Phase.restoring = true
legal Phase.restoring Phase.running = true
legal Phase.restoring Phase.ready = true
legal Phase.restoring Phase.done = true
legal Phase.restoring Phase.failed = true
legal Phase.running Phase.running = true
legal Phase.running Phase.freezing = true
legal Phase.running Phase.done = true
legal Phase.running Phase.failed = true
legal Phase.freezing Phase.freezing = true
legal Phase.freezing Phase.waiting = true
legal Phase.freezing Phase.failed = true
legal Phase.waiting Phase.waiting = true
legal Phase.waiting Phase.ready = true
legal Phase.waiting Phase.failed = true
legal Phase.waiting Phase.done = true
legal Phase.done Phase.done = true
legal Phase.done Phase.freezing = true
legal Phase.failed Phase.failed = true
legal Phase.failed Phase.freezing = true
legal Phase.unset Phase.unset = true
legal Phase.unset Phase.pending = true
legal Phase.unset Phase.ready = true
legal Phase.unset Phase.failed = true
legal (Phase.other s) (Phase.other t) = text_eq s t
legal (Phase.other s) Phase.pending = true
legal (Phase.other s) Phase.ready = true
legal (Phase.other s) Phase.failed = true
legal _ _ = false

-- A terminal environment goes back to Freezing to save a live pod that has no snapshot.
abbrev must_detour : SandboxEnvironment → ClusterFacts → Bool
must_detour env facts =
    not facts.archive_written && (not (is_some env.status.snapshot) && facts.pod_alive_for_archive)

-- The phase's own function is reached: no clock has fired and the class is resolved, or the run is over.
abbrev is_dispatched : SandboxEnvironment → ClusterFacts → Bool → Bool
is_dispatched env facts fired = is_some env.status.finished_at || not fired && facts.class_resolved

-- Neither the agent nor the pod has reported an end.
abbrev is_silent : ClusterFacts → Bool
is_silent facts = not (reported_done facts) && not (reported_failed facts)

-- What the facts must be for a phase to be entered from another one, where `fired` says that a clock
-- of the unfinished run has fired.
abbrev pub may_enter : Phase → Phase → SandboxEnvironment → ClusterFacts → Bool → Bool
may_enter Phase.pending Phase.ready env facts fired =
    is_dispatched env facts fired && facts.resources_ready
may_enter Phase.pending Phase.failed env facts fired = fired
may_enter Phase.ready Phase.restoring env facts fired =
    is_dispatched env facts fired && (not env.spec.suspend && facts.slot_granted)
may_enter Phase.ready Phase.failed env facts fired = fired
may_enter Phase.restoring Phase.ready env facts fired =
    is_silent facts
    && (is_dispatched env facts fired && (env.spec.suspend || not facts.slot_granted))
may_enter Phase.restoring Phase.running env facts fired =
    is_silent facts
    && (is_dispatched env facts fired
        && (not env.spec.suspend
            && (facts.slot_granted
                && (facts.pod_observed
                    && (pod_phase_eq facts.pod_phase PodPhase.running && facts.pod_ready)))))
may_enter Phase.restoring Phase.done env facts fired = reported_done facts
may_enter Phase.restoring Phase.failed env facts fired =
    reported_failed facts || not (reported_done facts) && fired
may_enter Phase.running Phase.freezing env facts fired =
    is_silent facts
    && (is_dispatched env facts fired
        && (facts.agent_wait_declared || (is_some env.status.wait_for || env.spec.suspend)))
may_enter Phase.running Phase.done env facts fired = reported_done facts
may_enter Phase.running Phase.failed env facts fired =
    reported_failed facts || not (reported_done facts) && fired
may_enter Phase.freezing Phase.waiting env facts fired =
    is_dispatched env facts fired
    && (facts.snapshot_complete && (not facts.pod_exists && not (is_some facts.snapshot_failure)))
may_enter Phase.freezing Phase.failed env facts fired = fired
may_enter Phase.waiting Phase.ready env facts fired =
    not (is_some env.status.finished_at)
    && (is_dispatched env facts fired
        && (not (is_some facts.wait_probe_failure)
            && (not env.spec.suspend
                && (not (is_some env.status.wait_for)
                    || facts.probe_observed && facts.wait_probe_satisfied))))
may_enter Phase.waiting Phase.done env facts fired =
    is_some env.status.finished_at && not (phase_eq env.status.terminal_phase Phase.failed)
may_enter Phase.waiting Phase.failed env facts fired =
    if is_some env.status.finished_at
    then phase_eq env.status.terminal_phase Phase.failed
    else fired || facts.class_resolved && is_some facts.wait_probe_failure
may_enter Phase.done Phase.freezing env facts fired = must_detour env facts
may_enter Phase.failed Phase.freezing env facts fired = must_detour env facts
may_enter (Phase.other s) Phase.pending env facts fired =
    is_dispatched env facts fired && not facts.resources_ready
may_enter (Phase.other s) Phase.ready env facts fired =
    is_dispatched env facts fired && facts.resources_ready
may_enter (Phase.other s) Phase.failed env facts fired = fired
may_enter _ _ env facts fired = true

module _ ⦃k : ApiMachinery⦄ (env : SandboxEnvironment) (facts : ClusterFacts) (now : ℕ) where
  decide-legal : (ph : Phase) → legal ph (decide env facts now ph).phase ≡ true
  unfolding stages
  decide-legal (Phase.other s) = ground (arith, text_eq_refl s)
  decide-legal _ = ground arith

  -- A clock of the unfinished run has fired.
  abbrev pub clock_fired : Phase → Bool
  clock_fired ph =
      not (is_some env.status.finished_at) && is_some (fired_timeout_reason env facts now ph)

  decide-may_enter :
      (ph : Phase) → may_enter ph (decide env facts now ph).phase env facts (clock_fired ph) ≡ true
  unfolding stages
  decide-may_enter Phase.pending = ground arith
  decide-may_enter _ = ground arith

  -- The decided phase is the present one or a legal successor of it by the table `legal`, and where
  -- it is a successor by the table the facts meet what `may_enter` requires to enter it from the
  -- present phase: a slot and a ready pod that runs before Running, a complete snapshot and no pod
  -- before Waiting, a satisfied probe where a declared wait ends in Ready, a reported completion or an
  -- earlier end before Done, a reported failure, a fired clock, a probe that cannot be evaluated or an
  -- earlier end before Failed, and a live pod without snapshot or archive before Freezing from Done or
  -- Failed. Restoring and Running are left in any other way only where no end is reported, and they and
  -- the other phases that are not terminal only where the class is resolved and no clock has fired, or
  -- the run is over.
  pub next-legal :
      let ph = current_phase env in
      let ph' = (next env facts now).phase in
      (legal ph ph' ≡ true) × (may_enter ph ph' env facts (clock_fired ph) ≡ true)
  unfolding next
  next-legal = (decide-legal (current_phase env), decide-may_enter (current_phase env))
