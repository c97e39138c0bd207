-- ===== src/Lifecycle/Next/Terminal.antt =====
-- When a run ends: completion, failure, and what a finished run can still do.
use ai_sandbox.Base.{
  ℕ, ◌≡◌, Bool, true, false, not, ◌&&◌, ◌||◌, Option, none, some, [], is_some, if◌then◌else◌, arith,
}
use ai_sandbox.Api.Phase.{Phase, PodPhase, pod_phase_eq}
use ai_sandbox.Api.Condition.{ApiMachinery}
use ai_sandbox.Api.Environment.{SandboxEnvironment}
use ai_sandbox.Lifecycle.Facts.{ClusterFacts, zero_facts}
use ai_sandbox.Lifecycle.Decision.{empty_patch}
use ai_sandbox.Lifecycle.Defaults.{is_terminal}
use ai_sandbox.Lifecycle.Timeouts.{fired_timeout_reason, elapsed}
use ai_sandbox.Lifecycle.Next.{decide, next, current_phase, with_ensure_resources, stages}

-- The pod reports an end by itself, seen from Restoring or Running.
abbrev pub pod_failed : ClusterFacts → Bool
pod_failed facts =
    facts.pod_observed
    && (is_some facts.pod_failure || pod_phase_eq facts.pod_phase PodPhase.failed)

abbrev pub pod_succeeded : ClusterFacts → Bool
pod_succeeded facts = facts.pod_observed && pod_phase_eq facts.pod_phase PodPhase.succeeded

-- The run has completed, or has failed, by the agent's word or else the pod's.
abbrev pub reported_done : ClusterFacts → Bool
reported_done facts =
    not facts.agent_failed && (facts.agent_done || not (pod_failed facts) && pod_succeeded facts)

abbrev pub reported_failed : ClusterFacts → Bool
reported_failed facts = facts.agent_failed || not facts.agent_done && pod_failed facts

abbrev pub has_agent : Phase → Bool
has_agent Phase.restoring = true
has_agent Phase.running = true
has_agent _ = false

-- The phase that ends a run, in the order of precedence: the agent's word, then the pod's, then
-- the clocks'.
abbrev pub verdict : ClusterFacts → Bool → Option Phase
verdict facts fired =
    if facts.agent_failed
    then some Phase.failed
    else if facts.agent_done
    then some Phase.done
    else if pod_failed facts
    then some Phase.failed
    else if pod_succeeded facts
    then some Phase.done
    else if fired
    then some Phase.failed
    else none

module _ ⦃k : ApiMachinery⦄ (env : SandboxEnvironment) (now : ℕ) where
  decide-zero :
      (ph : Phase)
      → is_terminal ph ≡ false
      → env.status.finished_at ≡ none
      → let d = decide env zero_facts now ph in
        (d.phase ≡ ph)
        × (d.slot_wanted ≡ env.status.slot.granted)
        × (d.actions ≡ [])
        × (d.status_patch ≡ empty_patch)
  unfolding stages fired_timeout_reason elapsed
  decide-zero (Phase.other s) h e = ground arith
  decide-zero _ h e = ground arith

  -- The zero value of the facts is safe: a run that is not over keeps its phase and its slot, no
  -- action is emitted and no field of the status is patched.
  pub next-zero_facts :
      is_terminal (current_phase env) ≡ false
      → env.status.finished_at ≡ none
      → let d = next env zero_facts now in
        (d.phase ≡ current_phase env)
        × (d.slot_wanted ≡ env.status.slot.granted)
        × (d.actions ≡ [])
        × (d.status_patch ≡ empty_patch)
  unfolding next with_ensure_resources
  next-zero_facts h e = ground (arith, decide-zero (current_phase env) h e)
