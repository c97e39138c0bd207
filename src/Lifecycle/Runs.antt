-- ===== src/Lifecycle/Runs.antt =====
-- Passes of the reconciler over one environment (operator/internal/controller), with the writes of
-- the other components between them.
pub mod Ends
use ai_sandbox.Base.{ℕ, ◌≡◌, List, ◌++◌}
use ai_sandbox.Api.Condition.{Condition, ApiMachinery}
use ai_sandbox.Api.Environment.{SandboxEnvironment, SandboxEnvironmentStatus}
use ai_sandbox.Lifecycle.Facts.{ClusterFacts}
use ai_sandbox.Lifecycle.Decision.{Decision}
use ai_sandbox.Lifecycle.Next.{next}
use ai_sandbox.Lifecycle.Apply.{apply}

module _ ⦃k : ApiMachinery⦄ where
  -- One pass that decides from `env` and writes over `fresh`, the object as writeStatus reads it again:
  -- the decision, with the conditions that the controller appends to it (engine security, network
  -- posture, CNI enforcement), as the new status.
  unfoldable pub reconcile :
      SandboxEnvironment
      → SandboxEnvironment
      → ClusterFacts
      → List Condition
      → ℕ
      → SandboxEnvironment
  reconcile env fresh facts extra now =
      let d = next env facts now in
      record fresh { status = apply fresh (record d { conditions = d.conditions ++ extra }) }

  -- What other writers of the object (the user, the slot scheduler, the sidecar) leave alone.
  pub record Elsewhere (env env' : SandboxEnvironment) : Type 0 where
    pub same_phase : env'.status.phase ≡ env.status.phase
    pub same_finished_at : env'.status.finished_at ≡ env.status.finished_at
    pub same_terminal_phase : env'.status.terminal_phase ≡ env.status.terminal_phase

  -- A pass of the reconciler on any facts at any time, while which other components may write, or a
  -- write of another component.
  pub data Step (env : SandboxEnvironment) (env' : SandboxEnvironment) : Type 0 where
    passed :
        (fresh : SandboxEnvironment)
        → Elsewhere env fresh
        → (facts : ClusterFacts) (extra : List Condition) (now : ℕ)
        → env' ≡ reconcile env fresh facts extra now
        → Step env env'
    written : Elsewhere env env' → Step env env'

  pub data Reach (env : SandboxEnvironment) : SandboxEnvironment → Type 0 where
    here : Reach env env
    then : {env' env'' : SandboxEnvironment} → Reach env env' → Step env' env'' → Reach env env''
