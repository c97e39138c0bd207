-- ===== src/Lifecycle/Next/Actions.antt =====
-- The side effects that a decision asks for.
use ai_sandbox.Base.{ℕ, ◌≡◌, Bool, true, false, not, ◌&&◌, ◌||◌, List, [], ◌∷◌, is_some, arith}
use ai_sandbox.Api.Phase.{Phase}
use ai_sandbox.Api.Condition.{ApiMachinery}
use ai_sandbox.Api.Environment.{SandboxEnvironment}
use ai_sandbox.Lifecycle.Facts.{ClusterFacts}
use ai_sandbox.Lifecycle.Decision.{Action}
use ai_sandbox.Lifecycle.Defaults.{is_terminal}
use ai_sandbox.Lifecycle.Next.Terminal.{reported_done}
use ai_sandbox.Lifecycle.Next.{decide, next, current_phase, with_ensure_resources, stages}

abbrev action_eq : Action → Action → Bool
action_eq Action.ensure_resources Action.ensure_resources = true
action_eq Action.ensure_pod Action.ensure_pod = true
action_eq Action.freeze_pod Action.freeze_pod = true
action_eq Action.delete_pod Action.delete_pod = true
action_eq Action.archive Action.archive = true
action_eq _ _ = false

abbrev pub emits : Action → List Action → Bool
emits a [] = false
emits a (b ∷ actions) = action_eq b a || emits a actions

emits-with_ensure_resources :
    (actions : List Action) (ph : Phase) (facts : ClusterFacts)
    → (emits Action.delete_pod (with_ensure_resources actions ph facts)
        ≡ emits Action.delete_pod actions)
      × (emits Action.freeze_pod (with_ensure_resources actions ph facts)
          ≡ emits Action.freeze_pod actions)
      × (emits Action.archive (with_ensure_resources actions ph facts)
          ≡ emits Action.archive actions)
unfolding with_ensure_resources
emits-with_ensure_resources actions ph facts = ground arith

-- When the pod may be torn down: a restore that lost its slot or was suspended, a freeze whose
-- snapshot is complete, or a Done or a run reported complete whose archive is written.
abbrev pub may_delete_pod : Phase → SandboxEnvironment → ClusterFacts → Bool
may_delete_pod Phase.restoring env facts =
    env.spec.suspend || (not facts.slot_granted || reported_done facts && facts.archive_written)
may_delete_pod Phase.running env facts = reported_done facts && facts.archive_written
may_delete_pod Phase.freezing env facts =
    facts.snapshot_complete && not (is_some facts.snapshot_failure)
may_delete_pod Phase.done env facts = facts.archive_written
may_delete_pod _ env facts = false

module _ ⦃k : ApiMachinery⦄ (env : SandboxEnvironment) (facts : ClusterFacts) (now : ℕ) where
  decide-deletes :
      (ph : Phase)
      → emits Action.delete_pod (decide env facts now ph).actions ≡ true
      → may_delete_pod ph env facts ≡ true
  unfolding stages
  decide-deletes (Phase.other s) h = ground arith
  decide-deletes _ h = ground arith

  -- The pod is deleted only where nothing of it is lost: from Freezing once a snapshot is complete
  -- and did not fail, from Done once the archive is written, from Restoring and Running once the run is
  -- reported complete, not failed, and the archive is written, and from Restoring where the
  -- environment is suspended or has no slot; in no other phase.
  pub next-deletes :
      emits Action.delete_pod (next env facts now).actions ≡ true
      → may_delete_pod (current_phase env) env facts ≡ true
  unfolding next
  next-deletes h = ground (
    arith,
    decide-deletes (current_phase env),
    emits-with_ensure_resources (decide env facts now (current_phase env)).actions
        (decide env facts now (current_phase env)).phase facts,
  )

  decide-archives :
      (ph : Phase)
      → emits Action.archive (decide env facts now ph).actions ≡ (
          is_terminal ph
          && (not facts.archive_written
              && (is_some env.status.snapshot || not facts.pod_alive_for_archive)))
  unfolding stages
  decide-archives (Phase.other s) = ground arith
  decide-archives _ = ground arith

  -- The archive is asked for exactly while a terminal environment has none and there is a snapshot
  -- to archive or no live pod to take one from.
  pub next-archives : emits Action.archive (next env facts now).actions ≡ (
      is_terminal (current_phase env)
      && (not facts.archive_written
          && (is_some env.status.snapshot || not facts.pod_alive_for_archive)))
  unfolding next
  next-archives = ground (
    arith,
    decide-archives (current_phase env),
    emits-with_ensure_resources (decide env facts now (current_phase env)).actions
        (decide env facts now (current_phase env)).phase facts,
  )
