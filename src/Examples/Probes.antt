-- ===== src/Examples/Probes.antt =====
-- A run of probe evaluations at a sample environment.
use ai_sandbox.Base.{ℕ, ◌*◌, ◌+◌, List, [], ◌∷◌, Option, none, some, codes}
use ai_sandbox.Base.Int.{pos}
use ai_sandbox.Api.Environment.{
  SandboxEnvironment, WaitForStatus, ProbeAttemptStatus, ProbeAttemptPhase,
}
use ai_sandbox.Lifecycle.Facts.{second}
use ai_sandbox.Controller.Probe.{ProbeEvaluator, ProbeErrorKind, Answer, EvaluationError}
use ai_sandbox.Controller.Probe.Streak.{Pass, attempt_after}
use ai_sandbox.Examples.Cluster.{cluster, sandbox, fresh_status, one_hour_on}

abbrev by_default : ProbeEvaluator
by_default = record { max_consecutive_errors = pos 0; backoff = [] }

abbrev wait_for : WaitForStatus
wait_for = record { type = codes "notBefore"; reason = []; declared_at = none; params = [] }

-- Its attempt is left from an earlier wait.
abbrev waiting_env : SandboxEnvironment
waiting_env = sandbox (record fresh_status {
  wait_for = some wait_for;
  probe_attempt = some (record {
    type = codes "notBefore";
    attempts = 7;
    consecutive_errors = 1;
    phase = ProbeAttemptPhase.pending;
    last_result = codes "pending";
    reason = [];
    message = [];
    last_attempt_at = some (1000 * second);
    next_eligible_at = some (1002 * second);
  });
})

abbrev broken : Answer
broken = Answer.failed (EvaluationError.probe_error ProbeErrorKind.unevaluatable (codes "no key"))

abbrev unreachable : Answer
unreachable = Answer.failed (EvaluationError.probe_error ProbeErrorKind.transient (codes "refused"))

-- An unevaluatable answer and a transient one after it, each after the backoff of the last.
abbrev passes : List Pass
passes = (one_hour_on + 100 * second, unreachable) ∷ (one_hour_on, broken) ∷ []

abbrev later : ℕ
later = one_hour_on + 300 * second

abbrev prev_attempt : Option ProbeAttemptStatus
prev_attempt = attempt_after by_default (λ d. d) waiting_env passes
