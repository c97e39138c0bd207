-- ===== src/Controller/Probe.antt =====
-- operator/internal/controller/probe.go: the evaluation of a declared wait and its backoff, with the
-- errors of operator/internal/lifecycle/probe.go.
--
-- The answer of evaluateOne, which asks the outside world, is an argument, and so is `jittered`, which
-- computes with floats and a random number. The metrics are left out.
pub mod Streak
use ai_sandbox.Base.{
  ℕ, zero, suc, ◌*◌, ◌+◌, ◌-◌, ◌%◌, ◌^◌, ◌==◌, ltb, leb, Bool, true, false, not, ◌&&◌, List, [],
  ◌∷◌, Option, none, some, Text, codes, length, if◌then◌else◌,
}
use ai_sandbox.Base.Int.{ℤ, pos, negsuc}
use ai_sandbox.Api.Condition.{Reason, ApiMachinery}
use ai_sandbox.Api.Environment.{
  SandboxEnvironment, ProbeAttemptPhase, ProbeAttemptStatus, WaitForStatus,
}
use ai_sandbox.Lifecycle.Facts.{ClusterFacts, StepFailure, zero_facts, second}
use ai_sandbox.Lifecycle.Timeouts.{add_time, new_meta_time}
use ai_sandbox.Lifecycle.Apply.{increment}

pub data ProbeErrorKind : Type 0 where
  transient unevaluatable : ProbeErrorKind

-- An error of a probe: nil, a ProbeError in its chain, or another error with its text.
pub data EvaluationError : Type 0 where
  nil : EvaluationError
  probe_error : ProbeErrorKind → Text → EvaluationError
  unclassified : Text → EvaluationError

abbrev pub reason_probe_failed : Text
reason_probe_failed = codes "ProbeFailed"

unfoldable pub is_unevaluatable : ProbeErrorKind → Bool
is_unevaluatable ProbeErrorKind.unevaluatable = true
is_unevaluatable ProbeErrorKind.transient = false

-- Whether the error counts towards the threshold, and its message. The reason is ReasonProbeFailed for
-- every error.
unfoldable pub classify_error : EvaluationError → Bool × Text
unfolding is_unevaluatable
classify_error EvaluationError.nil = (true, [])
classify_error (EvaluationError.probe_error kind message) = (is_unevaluatable kind, message)
classify_error (EvaluationError.unclassified message) = (true, message)

-- What evaluateOne answers.
pub data Answer : Type 0 where
  failed : EvaluationError → Answer
  satisfied pending : Answer

pub record ProbeEvaluator : Type 0 where
  pub max_consecutive_errors : ℤ
  pub backoff : List ℤ

abbrev pub default_probe_backoff : List ℤ
default_probe_backoff = pos second ∷ pos (2 * second) ∷ pos (4 * second) ∷ pos (8 * second) ∷ []

-- maxConsecutiveErrors and backoff, with their defaults.
unfoldable pub error_threshold : ProbeEvaluator → ℕ
error_threshold ev = elim ev.max_consecutive_errors [
  | pos n ↦ if ltb 0 n then n else 3
  | negsuc n ↦ 3
]

unfoldable pub delays : ProbeEvaluator → List ℤ
delays ev = elim ev.backoff [ [] ↦ default_probe_backoff | d ∷ ds ↦ d ∷ ds ]

-- `delays[idx]`, with idx held in the range of a list that is not empty.
unfoldable pub delay_at : List ℤ → ℕ → ℤ
delay_at [] idx = pos 0
delay_at (d ∷ []) idx = d
delay_at (d ∷ e ∷ ds) zero = d
delay_at (d ∷ e ∷ ds) (suc idx) = delay_at (e ∷ ds) idx

-- The number that an int32 stands for, where a negative one is taken for 0.
abbrev pub int32_or_0 : ℕ → ℕ
int32_or_0 n = if ltb n (2 ^ 31) then n else 0

module _ ⦃k : ApiMachinery⦄ (ev : ProbeEvaluator) (jittered : ℤ → ℤ) where
  unfoldable pub next_eligible : ℕ → ProbeAttemptStatus → Option ℕ
  unfolding delays delay_at
  next_eligible now attempt =
      some (add_time now (jittered (delay_at (delays ev) (int32_or_0 attempt.attempts - 1))))

  -- `attempt` before the evaluation.
  unfoldable pub new_attempt : ℕ → WaitForStatus → Option ProbeAttemptStatus → ProbeAttemptStatus
  new_attempt now w prev = record {
    type = w.type;
    attempts = increment true (elim prev [ none ↦ 0 | some p ↦ p.attempts ]);
    consecutive_errors = elim prev [ none ↦ 0 | some p ↦ p.consecutive_errors ];
    phase = ProbeAttemptPhase.pending;
    last_result = codes "pending";
    reason = [];
    message = [];
    last_attempt_at = new_meta_time now;
    next_eligible_at = none;
  }

  -- The last switch of Evaluate: the attempt, whether the wait is satisfied, and the failure.
  unfoldable pub conclude :
      ℕ → ProbeAttemptStatus → Answer → ProbeAttemptStatus × Bool × Option StepFailure
  unfolding classify_error next_eligible error_threshold
  conclude now attempt (Answer.failed err) =
      let (counts, message) = classify_error err in
      let counted : ProbeAttemptStatus = record attempt {
        phase = ProbeAttemptPhase.failed;
        last_result = codes "error";
        reason = reason_probe_failed;
        message = message;
        consecutive_errors = increment counts attempt.consecutive_errors;
      } in
      if counts && leb (error_threshold ev) (int32_or_0 counted.consecutive_errors)
      then (counted, false, some (record { reason = Reason.probe_failed; message = message }))
      else (
        record counted {
          phase = ProbeAttemptPhase.pending;
          last_result = codes "pending";
          next_eligible_at = next_eligible now counted;
        },
        false,
        none,
      )
  conclude now attempt Answer.satisfied = (
    record attempt {
      consecutive_errors = 0;
      phase = ProbeAttemptPhase.satisfied;
      last_result = codes "satisfied";
    },
    true,
    none,
  )
  conclude now attempt Answer.pending = (
    record attempt {
      consecutive_errors = 0;
      next_eligible_at = next_eligible now (record attempt { consecutive_errors = 0 });
    },
    false,
    none,
  )

  -- Inside the backoff window of the last attempt.
  unfoldable pub backing_off : ℕ → Option ProbeAttemptStatus → Bool
  backing_off now none = false
  backing_off now (some prev) = elim prev.next_eligible_at [ none ↦ false | some t ↦ ltb now t ]

  unfoldable pub evaluate :
      SandboxEnvironment → Answer → ℕ → ClusterFacts × Option ProbeAttemptStatus
  unfolding backing_off conclude new_attempt
  evaluate env answer now = elim env.status.wait_for [
    | none ↦ (zero_facts, none)
    | some w ↦
        if backing_off now env.status.probe_attempt
        then (record zero_facts { probe_observed = true }, none)
        else let (attempt, ok, failure) =
            conclude now (new_attempt now w env.status.probe_attempt) answer in
          (
            record zero_facts {
              probe_observed = true;
              wait_probe_satisfied = ok;
              wait_probe_failure = failure;
            },
            some attempt,
          )
  ]
