-- ===== src/Examples/Equality.antt =====
-- An instance of Semantic.DeepEqual: the decided equality of the records.
use mathlib.Core.Bool.{decide, decide_iff}
use native.Mathlib.Decide.{ℕ_discrete}
use ai_sandbox.Base.{Option, ◌≡◌, ◌↔◌, true}
use ai_sandbox.Api.Environment.{WaitForStatus, ProbeAttemptStatus, SandboxEnvironmentStatus}
use ai_sandbox.Api.Equality.{SemanticEquality}

wait_for_discrete : Discrete (Option WaitForStatus)
wait_for_discrete = hlevel ℕ_discrete

probe_attempt_discrete : Discrete (Option ProbeAttemptStatus)
probe_attempt_discrete = hlevel ℕ_discrete

status_discrete : Discrete SandboxEnvironmentStatus
status_discrete = hlevel ℕ_discrete

module _ {ℓ} {A : Type ℓ} where
  equal-decide : (d : Discrete A) (a b : A) → (decide (d a b) ≡ true) ↔ (a ≡ b)
  equal-decide d a b = (λ e. (decide_iff (d a b)).0 (e), λ h. (decide_iff (d a b)).1 h)

instance pub equality : SemanticEquality
equality = record {
  wait_for_equal = λ a b. decide (wait_for_discrete a b);
  probe_attempt_equal = λ a b. decide (probe_attempt_discrete a b);
  status_equal = λ a b. decide (status_discrete a b);
  wait_for_equal_iff = equal-decide wait_for_discrete;
  probe_attempt_equal_iff = equal-decide probe_attempt_discrete;
  status_equal_iff = equal-decide status_discrete;
}
