-- ===== src/Controller/Probe/Streak.antt =====
-- operator/internal/controller/probe.go: the counters of an attempt over a run of evaluations.
use ai_sandbox.Base.{
  ℕ, suc, ◌+◌, ◌≤◌, ◌<◌, ◌≡◌, ◌^◌, refl, Bool, true, false, ◌&&◌, List, [], ◌∷◌, Option, none, some,
  is_some, leb, length, if◌then◌else◌, arith,
}
use ai_sandbox.Base.Int.{ℤ}
use ai_sandbox.Api.Condition.{ApiMachinery}
use ai_sandbox.Api.Environment.{SandboxEnvironment, ProbeAttemptStatus, WaitForStatus}
use ai_sandbox.Lifecycle.Builder.{or_keep}
use ai_sandbox.Controller.Probe.{
  ProbeEvaluator, Answer, EvaluationError, ProbeErrorKind, is_unevaluatable, classify_error,
  conclude, new_attempt, backing_off, evaluate, error_threshold,
}

-- The answers that count towards the threshold: every error but a transient one.
pub counts : Answer → Bool
counts (Answer.failed (EvaluationError.probe_error ProbeErrorKind.transient message)) = false
counts (Answer.failed _) = true
counts Answer.satisfied = false
counts Answer.pending = false

-- The errors that count since the last answer that was satisfied or pending, newest answer first, on
-- top of the errors `start` that were counted before where there is no such answer. Transient errors
-- neither count nor end the streak.
pub streak : ℕ → List Answer → ℕ
unfolding counts
streak start [] = start
streak start (Answer.failed err ∷ answers) =
    let rest = streak start answers in if counts (Answer.failed err) then suc rest else rest
streak start (Answer.satisfied ∷ answers) = 0
streak start (Answer.pending ∷ answers) = 0

pub is_satisfied : Answer → Bool
is_satisfied Answer.satisfied = true
is_satisfied _ = false

abbrev pub attempts_of : Option ProbeAttemptStatus → ℕ
attempts_of none = 0
attempts_of (some p) = p.attempts

abbrev pub errors_of : Option ProbeAttemptStatus → ℕ
errors_of none = 0
errors_of (some p) = p.consecutive_errors

abbrev pub with_attempt : SandboxEnvironment → Option ProbeAttemptStatus → SandboxEnvironment
with_attempt env p = record env { status = record env.status { probe_attempt = p } }

-- A pass: the time and the answer that evaluateOne would give.
abbrev pub Pass : Type 0
Pass = ℕ × Answer

module _ ⦃k : ApiMachinery⦄ (ev : ProbeEvaluator) (jittered : ℤ → ℤ) where
  conclude_counters :
      (now : ℕ) (attempt : ProbeAttemptStatus) (start : ℕ) (answers : List Answer) (answer : Answer)
      → attempt.consecutive_errors ≡ streak start answers
      → streak start answers + 1 < 2 ^ 31
      → let r = conclude ev jittered now attempt answer in
        (r.0.attempts ≡ attempt.attempts)
        × (r.0.consecutive_errors ≡ streak start (answer ∷ answers))
        × (is_some r.2
            ≡ (counts answer && leb (error_threshold ev) (streak start (answer ∷ answers))))
  unfolding conclude streak counts classify_error is_unevaluatable
  conclude_counters now attempt start answers (Answer.failed EvaluationError.nil) h b = ground arith
  conclude_counters now attempt start answers (Answer.failed (EvaluationError.unclassified m)) h b =
      ground arith
  conclude_counters now attempt start answers
        (Answer.failed (EvaluationError.probe_error ProbeErrorKind.transient m)) h b =
      ground arith
  conclude_counters now attempt start answers
        (Answer.failed (EvaluationError.probe_error ProbeErrorKind.unevaluatable m)) h b =
      ground arith
  conclude_counters now attempt start answers Answer.satisfied h b = ground arith
  conclude_counters now attempt start answers Answer.pending h b = ground arith

  module _ (env : SandboxEnvironment) where
    -- The attempt after a run of passes over `env`, the last pass first, where each pass stores the
    -- attempt that Evaluate returns and keeps the old one where it returns none.
    pub attempt_after : List Pass → Option ProbeAttemptStatus
    attempt_after [] = env.status.probe_attempt
    attempt_after ((now, answer) ∷ passes) =
        let prev = attempt_after passes in
        or_keep (evaluate ev jittered (with_attempt env prev) answer now).1 prev

    -- The answers of the passes that were not inside a backoff window.
    pub asked : List Pass → List Answer
    unfolding attempt_after
    asked [] = []
    asked ((now, answer) ∷ passes) =
        let rest = asked passes in
        if backing_off ev jittered now (attempt_after passes) then rest else answer ∷ rest

    length-asked : (passes : List Pass) → length (asked passes) ≤ length passes
    unfolding asked
    length-asked [] = omega arith
    length-asked ((now, answer) ∷ passes) = ground (arith, length-asked passes)

    streak-le : (start : ℕ) (answers : List Answer) → streak start answers ≤ start + length answers
    unfolding streak
    streak-le start [] = omega arith
    streak-le start (Answer.failed e ∷ answers) = ground (arith, streak-le start answers)
    streak-le start (Answer.satisfied ∷ answers) = omega arith
    streak-le start (Answer.pending ∷ answers) = omega arith

    new_attempt_counters :
        (now : ℕ) (w : WaitForStatus) (prev : Option ProbeAttemptStatus)
        → attempts_of prev + 1 < 2 ^ 31
        → ((new_attempt ev jittered now w prev).attempts ≡ attempts_of prev + 1)
          × ((new_attempt ev jittered now w prev).consecutive_errors ≡ errors_of prev)
    unfolding new_attempt
    new_attempt_counters now w none h = ground arith
    new_attempt_counters now w (some p) h = ground arith

    pub attempt_after_counters :
        (w : WaitForStatus) (passes : List Pass)
        → env.status.wait_for ≡ some w
        → attempts_of env.status.probe_attempt + length passes < 2 ^ 31
        → errors_of env.status.probe_attempt + length passes < 2 ^ 31
        → (attempts_of (attempt_after passes)
            ≡ attempts_of env.status.probe_attempt + length (asked passes))
          × (errors_of (attempt_after passes)
              ≡ streak (errors_of env.status.probe_attempt) (asked passes))
    unfolding attempt_after asked evaluate streak
    attempt_after_counters w [] e h g = (omega arith, refl)
    attempt_after_counters w ((now, answer) ∷ passes) e h g =
        let prev = attempt_after passes in
        let start = errors_of env.status.probe_attempt in
        let ih = attempt_after_counters w passes e (omega arith) (omega arith) in
        ground (
          arith,
          e,
          ih.0,
          ih.1,
          length-asked passes,
          streak-le start (asked passes),
          new_attempt_counters now w prev,
          conclude_counters now (new_attempt ev jittered now w prev) start (asked passes) answer,
        )
