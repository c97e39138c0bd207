-- ===== src/Examples/Lifecycle.antt =====
-- The theorems of the lifecycle at concrete environments and facts.
use ai_sandbox.Base.{
  ℕ, ◌+◌, ◌*◌, ◌≤◌, ◌≡◌, refl, ◌⊎◌, true, false, not, ◌&&◌, ◌||◌, [], ◌∷◌, none, some, All, is_some,
  length, arith, sym, codes, List, if◌then◌else◌,
}
use ai_sandbox.Base.Int.{pos, pos_part, ltb_ℤ}
use ai_sandbox.Api.Phase.{Phase, PodPhase, phase_eq}
use mathlib.Core.Option.{some-injective}
use ai_sandbox.Api.Condition.{ConditionType, ConditionStatus, Condition, Reason, type_eq}
use ai_sandbox.Api.Environment.{SandboxEnvironment}
use ai_sandbox.Lifecycle.Facts.{
  ClusterFacts, default_timeouts, zero_facts, second, with_all_observed,
}
use ai_sandbox.Lifecycle.Decision.{Action, Decision, empty_patch, min_requeue_after}
use ai_sandbox.Lifecycle.Reasons.{all_reasons, lists}
use ai_sandbox.Lifecycle.Defaults.{is_terminal}
use ai_sandbox.Lifecycle.Timeouts.{
  compute_requeue_after, fired_timeout_reason, next_timeout_deadline, elapsed, sub_time,
}
use ai_sandbox.Lifecycle.Timeouts.Requeue.{
  InRange, due, probe_deadline, due-next_timeout_deadline, requeue_wakes,
}
use ai_sandbox.Lifecycle.Next.{next, current_phase, with_ensure_resources, stages}
use ai_sandbox.Lifecycle.Next.Legality.{legal, may_enter, clock_fired, next-legal}
use ai_sandbox.Lifecycle.Next.Terminal.{next-zero_facts}
use ai_sandbox.Lifecycle.Next.Actions.{emits, may_delete_pod, next-deletes, next-archives}
use ai_sandbox.Lifecycle.Next.Slots.{slot_fits, next-slot_fits}
use ai_sandbox.Lifecycle.Next.Conditions.{is_true, next-anchors}
use ai_sandbox.Lifecycle.Next.Documented.{carried, next-documented}
use ai_sandbox.Lifecycle.Apply.{apply, no_slot, transition_of}
use ai_sandbox.Lifecycle.Apply.Laws.{
  apply_all, apply_all-keeps, first_set, first_terminal, increments, all_want_slot,
  apply_history_bounds,
}
use ai_sandbox.Lifecycle.Runs.{reconcile, Elsewhere, Step, Reach}
use ai_sandbox.Lifecycle.Runs.Ends.{run_end, Consistent, Reach-Ends}
use ai_sandbox.Examples.Cluster.{
  cluster, plain_facts, one_hour_on, running_env, restoring_env, done_env, first_of_type, sandbox,
  fresh_status, condition,
}

-- A running agent that reports its failure.
abbrev failing : ClusterFacts
failing = record (with_all_observed plain_facts) {
  agent_failed = true;
  pod_exists = true;
  pod_phase = PodPhase.running;
  pod_ready = true;
}

abbrev archived : ClusterFacts
archived = record plain_facts { archive_written = true }

next-legal_example :
    let ph' = (next running_env failing one_hour_on).phase in
    (legal Phase.running ph' ≡ true)
    × (may_enter Phase.running ph' running_env failing
          (clock_fired running_env failing one_hour_on Phase.running)
        ≡ true)
unfolding current_phase
next-legal_example = next-legal running_env failing one_hour_on

next-zero_facts_example :
    let d = next running_env zero_facts one_hour_on in
    (d.phase ≡ Phase.running)
    × (d.slot_wanted ≡ true)
    × (d.actions ≡ [])
    × (d.status_patch ≡ empty_patch)
unfolding current_phase is_terminal
next-zero_facts_example = next-zero_facts running_env one_hour_on refl refl

next-deletes_example : may_delete_pod (current_phase done_env) done_env archived ≡ true
unfolding next stages with_ensure_resources
next-deletes_example = next-deletes done_env archived one_hour_on (ground arith)

next-archives_example : emits Action.archive (next done_env plain_facts one_hour_on).actions ≡ (
    is_terminal (current_phase done_env)
    && (not plain_facts.archive_written
        && (is_some done_env.status.snapshot || not plain_facts.pod_alive_for_archive)))
next-archives_example = next-archives done_env plain_facts one_hour_on

next-slot_fits_example :
    slot_fits
      (next restoring_env plain_facts one_hour_on).phase
      false
      (next restoring_env plain_facts one_hour_on).slot_wanted
    ≡ true
next-slot_fits_example = next-slot_fits restoring_env plain_facts one_hour_on refl

next-anchors_example :
    let d = next running_env failing one_hour_on in
    (is_true ConditionType.frozen d.conditions ≡ phase_eq d.phase Phase.waiting)
    × (phase_eq d.phase Phase.failed ≡ false
        → is_true ConditionType.pod_ready d.conditions
          ≡ (phase_eq d.phase Phase.running && failing.pod_observed))
next-anchors_example = next-anchors running_env failing one_hour_on

-- A failed environment with the reasons of its failure, and a condition of Reconcile's own.
abbrev failed_env : SandboxEnvironment
failed_env = sandbox (record fresh_status {
  phase = Phase.failed;
  finished_at = some (2000 * second);
  terminal_phase = Phase.failed;
  conditions =
      condition (ConditionType.other (codes "EngineSecurity")) ConditionStatus.true_
        (Reason.other (codes "NoRelaxation")) (1000 * second)
      ∷ condition ConditionType.pod_ready ConditionStatus.false_ Reason.image_pull_failure
          (2000 * second)
      ∷ condition ConditionType.ready ConditionStatus.false_ Reason.image_pull_failure
          (2000 * second)
      ∷ [];
})

failed_env-documented :
    (t : ConditionType) (c : Condition)
    → carried t ≡ true
    → first_of_type failed_env.status.conditions t ≡ some c
    → lists all_reasons c.reason ≡ true
unfolding first_of_type type_eq lists
failed_env-documented ConditionType.pod_ready c h e = rw (sym (some-injective _ _ e)) refl
failed_env-documented ConditionType.ready c h e = rw (sym (some-injective _ _ e)) refl
failed_env-documented _ c h e = ground arith

next-documented_example :
    All
      (λ c. lists all_reasons c.reason ≡ true)
      (next failed_env plain_facts one_hour_on).conditions
next-documented_example = next-documented failed_env plain_facts one_hour_on failed_env-documented

default-InRange : InRange default_timeouts
default-InRange = omega arith

due-next_timeout_deadline_example :
    due (next_timeout_deadline running_env plain_facts Phase.running) one_hour_on ≡ (
      is_some (fired_timeout_reason running_env plain_facts one_hour_on Phase.running)
      || (phase_eq Phase.running Phase.waiting && due (probe_deadline running_env) one_hour_on))
due-next_timeout_deadline_example =
    due-next_timeout_deadline running_env plain_facts Phase.running one_hour_on default-InRange

-- Three days after its creation the total timeout has fired.
abbrev three_days_on : ℕ
three_days_on = 260_200 * second

requeue_wakes_example :
    let r = compute_requeue_after Phase.running running_env plain_facts one_hour_on in
    (ltb_ℤ (pos 0) r ≡ true)
    × ((one_hour_on + pos_part r ≤ three_days_on) ⊎ (r ≡ min_requeue_after))
unfolding fired_timeout_reason is_terminal elapsed sub_time
requeue_wakes_example =
    requeue_wakes running_env plain_facts Phase.running one_hour_on three_days_on default-InRange
      refl refl refl

-- A freeze that ends in Waiting, and a pass over a finished run.
abbrev passed : List Decision
passed =
    next (sandbox (record fresh_status { phase = Phase.freezing }))
      (record plain_facts { snapshot_complete = true }) one_hour_on
    ∷ next done_env archived one_hour_on
    ∷ []

apply_all-keeps_example :
    let s = (apply_all running_env passed).status in
    (s.finished_at ≡ first_set (λ p. p.set_finished_at) none passed)
    × (s.started_at ≡ first_set (λ p. p.set_started_at) running_env.status.started_at passed)
    × (s.queued_since ≡ first_set (λ p. p.set_queued_since) running_env.status.queued_since passed)
    × (s.terminal_phase ≡ first_terminal Phase.unset passed)
    × (s.freeze_count ≡ 0 + increments (λ p. p.increment_freeze_count) passed)
    × (s.wake_count ≡ 0 + increments (λ p. p.increment_wake_count) passed)
    × (s.snapshot ≡ none)
    × (s.slot ≡ (if all_want_slot passed then running_env.status.slot else no_slot))
apply_all-keeps_example = apply_all-keeps running_env passed (omega arith) (omega arith)

apply_history_bounds_example :
    let d = next running_env failing one_hour_on in
    let s = apply running_env d in
    (length s.phase_history ≤ 64)
    × (phase_eq d.phase Phase.running ≡ true → s.phase_history ≡ [])
    × (phase_eq d.phase Phase.running ≡ false → s.phase_history ≡ transition_of d ∷ [])
apply_history_bounds_example =
    apply_history_bounds running_env (next running_env failing one_hour_on) (omega arith)

-- Two passes over a finished run: the freeze detour, and a pass that waits for the snapshot.
abbrev alive : ClusterFacts
alive = record plain_facts { pod_alive_for_archive = true; pod_exists = true }

abbrev detour : SandboxEnvironment
detour = reconcile done_env done_env alive [] one_hour_on

untouched : {env : SandboxEnvironment} → Elsewhere env env
untouched = record { same_phase = refl; same_finished_at = refl; same_terminal_phase = refl }

Reach-Ends_example :
    Consistent (reconcile detour detour alive [] (one_hour_on + 1))
    × (is_some done_env.status.finished_at ≡ true
        → (run_end (reconcile detour detour alive [] (one_hour_on + 1)) ≡ some Phase.done)
          × ((reconcile detour detour alive [] (one_hour_on + 1)).status.finished_at
              ≡ some (2000 * second)))
Reach-Ends_example =
    Reach-Ends {env = done_env} {env' = reconcile detour detour alive [] (one_hour_on + 1)} refl (
      Reach.then (Reach.then Reach.here (Step.passed done_env untouched alive [] one_hour_on refl))
        (Step.passed detour untouched alive [] (one_hour_on + 1) refl))

detour_freezes : detour.status.phase ≡ Phase.freezing
unfolding reconcile apply next stages current_phase
detour_freezes = refl
