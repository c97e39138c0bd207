-- ===== src/Controller/Status.antt =====
-- operator/internal/controller/status.go: the guarded write of a decision's status.
--
-- Get and Update of the API server are arguments, by the number of the attempt, and so is
-- retry.RetryOnConflict of k8s.io/client-go. The metrics of observeTransition are left out.
pub mod Guard
pub mod Slot
use mathlib.Core.Bool.{xor}
use ai_sandbox.Base.{
  ℕ, Bool, ◌≡◌, ◌||◌, ◌⊎◌, ==_iff, ◌==◌, Option, none, some, inl, inr, Text, not, is_some,
  if◌then◌else◌,
}
use ai_sandbox.Api.Phase.{phase_eq}
use ai_sandbox.Api.Condition.{ApiMachinery}
use ai_sandbox.Api.Environment.{SandboxEnvironment, SandboxEnvironmentStatus}
use ai_sandbox.Api.Equality.{SemanticEquality}
use ai_sandbox.Lifecycle.Decision.{Decision}
use ai_sandbox.Lifecycle.Apply.{apply}

-- How an attempt ends: an error of Get, errStaleDecision, nothing to change, an error of Update, or the
-- object with its new status on the server. An error of the API server is its text.
pub data WriteResult : Type 0 where
  get_failed : Text → WriteResult
  stale : WriteResult
  unchanged : SandboxEnvironment → WriteResult
  update_failed : Text → WriteResult
  updated : SandboxEnvironment → WriteResult

-- What the API server answers to the n-th Get and Update of a write.
pub record ApiServer : Type 0 where
  pub get : ℕ → Text ⊎ SandboxEnvironment
  pub update : ℕ → SandboxEnvironment → Option Text

module _ ⦃k : ApiMachinery⦄ ⦃q : SemanticEquality⦄ where
  -- The object read again differs, in what the decision rests on, from the one decided from.
  unfoldable pub superseded : SandboxEnvironment → SandboxEnvironment → Bool
  superseded env fresh =
      not (fresh.generation == env.generation)
      || (not (phase_eq fresh.status.phase env.status.phase)
          || (not (q.wait_for_equal fresh.status.wait_for env.status.wait_for)
              || (xor (is_some fresh.status.snapshot) (is_some env.status.snapshot)
                  || not
                      (q.probe_attempt_equal fresh.status.probe_attempt env.status.probe_attempt))))

  -- The function that RetryOnConflict runs.
  unfoldable pub write_attempt :
      SandboxEnvironment
      → Decision
      → Text ⊎ SandboxEnvironment
      → (SandboxEnvironment → Option Text)
      → WriteResult
  write_attempt env d (inl e) update = WriteResult.get_failed e
  write_attempt env d (inr fresh) update =
      let desired = apply fresh d in
      if superseded env fresh
      then WriteResult.stale
      else if q.status_equal fresh.status desired
      then WriteResult.unchanged fresh
      else elim (update (record fresh { status = desired })) [
        | some e ↦ WriteResult.update_failed e
        | none ↦ WriteResult.updated (record fresh { status = desired })
      ]

  unfoldable pub write_status :
      ((ℕ → WriteResult) → WriteResult) → ApiServer → SandboxEnvironment → Decision → WriteResult
  write_status retry_on_conflict server env d =
      retry_on_conflict (λ n. write_attempt env d (server.get n) (server.update n))
