-- ===== src/Api/Equality.antt =====
-- apiequality.Semantic.DeepEqual of k8s.io/apimachinery, at the types that the controller compares: it
-- holds of two values exactly when they are the same, a nil and an empty slice and two spellings of one
-- instant apart, which are the same values here. The library is not part of the repository.
use ai_sandbox.Base.{Bool, Option, ◌≡◌, ◌↔◌, true}
use ai_sandbox.Api.Environment.{WaitForStatus, ProbeAttemptStatus, SandboxEnvironmentStatus}

pub record SemanticEquality : Type 0 where
  pub wait_for_equal : Option WaitForStatus → Option WaitForStatus → Bool
  pub probe_attempt_equal : Option ProbeAttemptStatus → Option ProbeAttemptStatus → Bool
  pub status_equal : SandboxEnvironmentStatus → SandboxEnvironmentStatus → Bool
  pub wait_for_equal_iff : (a b : Option WaitForStatus) → (wait_for_equal a b ≡ true) ↔ (a ≡ b)
  pub probe_attempt_equal_iff :
      (a b : Option ProbeAttemptStatus) → (probe_attempt_equal a b ≡ true) ↔ (a ≡ b)
  pub status_equal_iff : (a b : SandboxEnvironmentStatus) → (status_equal a b ≡ true) ↔ (a ≡ b)
