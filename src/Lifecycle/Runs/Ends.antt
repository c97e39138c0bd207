-- ===== src/Lifecycle/Runs/Ends.antt =====
-- A run ends once: its end is recorded, and nothing that happens later starts it again or changes it.
use ai_sandbox.Base.{ℕ, ◌≡◌, refl, Bool, true, false, List, Option, none, some, is_some, arith}
use ai_sandbox.Api.Phase.{Phase}
use ai_sandbox.Api.Condition.{Condition, ApiMachinery}
use ai_sandbox.Api.Environment.{SandboxEnvironment}
use ai_sandbox.Lifecycle.Facts.{ClusterFacts}
use ai_sandbox.Lifecycle.Next.{decide, next, current_phase, stages}
use ai_sandbox.Lifecycle.Apply.{apply, apply_patch}
use ai_sandbox.Lifecycle.Runs.{reconcile, Elsewhere, Step, Reach}

-- How phase, finishedAt and terminalPhase of a status hang together: a run that is not finished is
-- in no terminal phase and has recorded none; a finished one is terminal, in agreement with what is
-- recorded, or makes the freeze detour with its terminal phase recorded.
abbrev pub consistent : Phase → Bool → Phase → Bool
consistent Phase.done true Phase.unset = true
consistent Phase.done true Phase.done = true
consistent Phase.failed true Phase.unset = true
consistent Phase.failed true Phase.failed = true
consistent Phase.freezing true Phase.done = true
consistent Phase.freezing true Phase.failed = true
consistent Phase.waiting true Phase.done = true
consistent Phase.waiting true Phase.failed = true
consistent Phase.done false recorded = false
consistent Phase.failed false recorded = false
consistent ph false Phase.unset = true
consistent ph finished recorded = false

-- The end that a status stands for.
abbrev pub end_of : Phase → Bool → Phase → Option Phase
end_of ph false recorded = none
end_of Phase.done true recorded = some Phase.done
end_of Phase.failed true recorded = some Phase.failed
end_of ph true recorded = some recorded

module _ ⦃k : ApiMachinery⦄ (env : SandboxEnvironment) (facts : ClusterFacts) (now : ℕ) where
  decide-consistent :
      (ph : Phase)
      → consistent ph (is_some env.status.finished_at) env.status.terminal_phase ≡ true
      → let d = decide env facts now ph in
        let s = apply_patch d.status_patch env.status in
        consistent d.phase (is_some s.finished_at) s.terminal_phase ≡ true
  unfolding stages apply_patch
  decide-consistent (Phase.other t) h = ground arith
  decide-consistent _ h = ground arith

  decide-end_of :
      (ph : Phase)
      → consistent ph (is_some env.status.finished_at) env.status.terminal_phase ≡ true
      → is_some env.status.finished_at ≡ true
      → let d = decide env facts now ph in
        let s = apply_patch d.status_patch env.status in
        (end_of d.phase (is_some s.finished_at) s.terminal_phase
          ≡ end_of ph (is_some env.status.finished_at) env.status.terminal_phase)
        × (s.finished_at ≡ env.status.finished_at)
  unfolding stages apply_patch
  decide-end_of (Phase.other t) h f = ground arith
  decide-end_of _ h f = ground arith

abbrev pub Consistent : SandboxEnvironment → Type 0
Consistent env =
    consistent env.status.phase (is_some env.status.finished_at) env.status.terminal_phase ≡ true

-- The phase that a run ended in, none before its end.
abbrev pub run_end : SandboxEnvironment → Option Phase
run_end env = end_of env.status.phase (is_some env.status.finished_at) env.status.terminal_phase

module _ ⦃k : ApiMachinery⦄ where
  reconcile-Ends :
      (env fresh : SandboxEnvironment) (facts : ClusterFacts) (extra : List Condition) (now : ℕ)
      → Elsewhere env fresh
      → Consistent env
      → let env' = reconcile env fresh facts extra now in
        Consistent env'
        × (is_some env.status.finished_at ≡ true
            → (run_end env' ≡ run_end env) × (env'.status.finished_at ≡ env.status.finished_at))
  unfolding reconcile apply apply_patch next current_phase
  reconcile-Ends env fresh facts extra now w h = ground (
    arith,
    w.same_finished_at,
    w.same_terminal_phase,
    decide-consistent env facts now (current_phase env),
    decide-end_of env facts now (current_phase env),
  )

  Step-Ends :
      (env env' : SandboxEnvironment)
      → Consistent env
      → Step env env'
      → Consistent env'
        × (is_some env.status.finished_at ≡ true
            → (run_end env' ≡ run_end env) × (env'.status.finished_at ≡ env.status.finished_at))
  Step-Ends env env' h (Step.passed fresh w facts extra now e) =
      rw e (reconcile-Ends env fresh facts extra now w h)
  Step-Ends env env' h (Step.written w) = ground arith

  -- However the passes of the reconciler, on whatever facts and at whatever times, and the writes of
  -- the other components follow one another, also between a decision and its write: phase, finish time and recorded terminal phase stay
  -- consistent, and once a run has a finish time, that time and the end of the run never change, so
  -- a finished run is never Pending, Ready, Restoring or Running again.
  pub Reach-Ends :
      {env env' : SandboxEnvironment}
      → Consistent env
      → Reach env env'
      → Consistent env'
        × (is_some env.status.finished_at ≡ true
            → (run_end env' ≡ run_end env) × (env'.status.finished_at ≡ env.status.finished_at))
  Reach-Ends h Reach.here = (h, λ _. (refl, refl))
  Reach-Ends {env} h (Reach.then {env'} {env''} r s) =
      let before = Reach-Ends h r in let after = Step-Ends env' env'' before.0 s in ground arith
