-- ===== src/Examples/Retries.antt =====
-- Storage operations that fail and are retried.
use ai_sandbox.Base.{ℕ, suc, leb, none, some, ◌≡◌, refl, codes, Option, if◌then◌else◌}
use ai_sandbox.Base.Int.{pos, ℤ}
use ai_sandbox.Storage.Retry.{
  ErrorKind, GoError, RetryPolicy, Surroundings, answered, attempt_from, attempted, back_off,
  is_retryable, is_unreachable, positive_or, retried, retry_do, retry_loop, with_defaults,
}
use ai_sandbox.Storage.Retry.Attempts.{Runs, attempts, retry_do-Ends}

-- The answer of the nth call: unreachable for the first two.
answer : ℕ → Option GoError
answer n = if leb n 1 then some (GoError.error ErrorKind.unreachable (codes "S3")) else none

-- A store that counts its calls, and is unreachable for the first two.
abbrev shaky : Surroundings ℕ
shaky = record {
  ctx_err = λ n. none;
  op = λ attempt n. (answer n, suc n);
  jittered = λ d n. (d, n);
  sleep = λ d n. (none, n);
}

abbrev policy : ℤ → RetryPolicy
policy m = record { max_attempts = m; base_delay = pos 0; max_delay = pos 0 }

third_attempt : retry_do shaky (policy (pos 0)) 0 ≡ (none, 3)
unfolding retry_do retry_loop attempt_from attempted answered retried back_off answer is_retryable
    is_unreachable with_defaults positive_or
third_attempt = refl

two_attempts :
    retry_do shaky (policy (pos 2)) 0 ≡ (some (GoError.error ErrorKind.unreachable (codes "S3")), 2)
unfolding retry_do retry_loop attempt_from attempted answered retried back_off answer is_retryable
    is_unreachable with_defaults positive_or
two_attempts = refl

retry_do-Ends_example :
    Runs shaky
      (with_defaults (policy (pos 2))).max_delay
      (attempts (policy (pos 2)))
      0
      (retry_do shaky (policy (pos 2)) 0)
retry_do-Ends_example = retry_do-Ends shaky (policy (pos 2)) 0
