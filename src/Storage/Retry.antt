-- ===== src/Storage/Retry.antt =====
-- operator/internal/storage/retry.go and errors.go: the retry of a storage operation.
--
-- `w` is the state of the world that the operation, the sleep and the context are asked in. jittered,
-- which computes with floats, is an argument, and so the jitter of a policy is its argument too. A
-- duration is an int64 number of nanoseconds.
pub mod Attempts
use ai_sandbox.Base.{
  ℕ, zero, suc, ◌+◌, ◌-◌, ◌*◌, ◌%◌, ◌^◌, ◌==◌, ltb, Bool, true, false, ◌||◌, Option, none, some,
  Text, if◌then◌else◌,
}
use ai_sandbox.Base.Int.{ℤ, pos, negsuc, ltb_ℤ, signed64}

pub data ErrorKind : Type 0 where
  not_found unreachable corrupt permission invalid : ErrorKind

-- An error value: a sentinel, an Error without and with an underlying error, or another error.
pub data GoError : Type 0 where
  sentinel : ErrorKind → GoError
  error : ErrorKind → Text → GoError
  wrapping : ErrorKind → Text → GoError → GoError
  other : Text → GoError

unfoldable pub is_unreachable : ErrorKind → Bool
is_unreachable ErrorKind.unreachable = true
is_unreachable _ = false

-- errors.Is(err, ErrUnreachable) looks through Unwrap.
unfoldable pub is_retryable : GoError → Bool
is_retryable (GoError.sentinel k) = is_unreachable k
is_retryable (GoError.error k t) = is_unreachable k
is_retryable (GoError.wrapping k t e) = let rest = is_retryable e in is_unreachable k || rest
is_retryable (GoError.other t) = false

pub record RetryPolicy : Type 0 where
  pub max_attempts : ℤ
  pub base_delay : ℤ
  pub max_delay : ℤ

abbrev pub default_retry_policy : RetryPolicy
default_retry_policy = record {
  max_attempts = pos 5;
  base_delay = pos 100000000;
  max_delay = pos 5000000000;
}

unfoldable pub positive_or : ℤ → ℤ → ℤ
positive_or x y = if ltb_ℤ (pos 0) x then x else y

unfoldable pub with_defaults : RetryPolicy → RetryPolicy
with_defaults p = record {
  max_attempts = positive_or p.max_attempts default_retry_policy.max_attempts;
  base_delay = positive_or p.base_delay default_retry_policy.base_delay;
  max_delay = positive_or p.max_delay default_retry_policy.max_delay;
}

-- `delay *= 2` on an int64.
unfoldable pub double : ℤ → ℤ
double (pos n) = signed64 ((2 * n) % 2 ^ 64)
double (negsuc n) = signed64 ((2 ^ 64 - (2 * n + 2) % 2 ^ 64) % 2 ^ 64)

unfoldable pub at_most : ℤ → ℤ → ℤ
at_most bound d = if ltb_ℤ bound d then bound else d

-- What an attempt is made in.
pub record Surroundings (W : Type 0) : Type 0 where
  pub ctx_err : W → Option GoError
  pub op : ℕ → W → Option GoError × W
  pub jittered : ℤ → W → ℤ × W
  pub sleep : ℤ → W → Option GoError × W

module _ {W : Type 0} (env : Surroundings W) (p : RetryPolicy) where
  -- The sleep of a delay before the attempts that follow.
  unfoldable pub back_off : ℤ × W → (W → Option GoError × W) → Option GoError × W
  back_off (d, w) again =
      let slept = env.sleep (at_most p.max_delay d) w in
      elim slept.0 [ some e ↦ (some e, slept.1) | none ↦ again slept.1 ]

  -- An error that may be retried; `again` are the attempts that follow, none after the last.
  unfoldable pub retried : GoError → ℤ → W → Option (W → Option GoError × W) → Option GoError × W
  retried e delay w none = (some e, w)
  retried e delay w (some again) = back_off (env.jittered delay w) again

  -- The answer of the operation.
  unfoldable pub answered :
      ℤ → Option (W → Option GoError × W) → Option GoError × W → Option GoError × W
  answered delay again (none, w) = (none, w)
  answered delay again (some e, w) = if is_retryable e then retried e delay w again else (some e, w)

  unfoldable pub attempted : ℕ → ℤ → W → Option (W → Option GoError × W) → Option GoError × W
  attempted attempt delay w again = elim (env.ctx_err w) [
    | some e ↦ (some e, w)
    | none ↦ answered delay again (env.op attempt w)
  ]

  -- The attempts from one on, with the delay after it: `left` counts those that follow it.
  unfoldable pub attempt_from : ℕ → ℕ → ℤ → W → Option GoError × W
  attempt_from zero attempt delay w = attempted attempt delay w none
  attempt_from (suc left) attempt delay w =
      attempted attempt delay w
        (some (attempt_from left (suc attempt) (at_most p.max_delay (double delay))))

  -- The loop over the attempts; without any it returns no error.
  unfoldable pub retry_loop : ℤ → W → Option GoError × W
  retry_loop (pos zero) w = (none, w)
  retry_loop (pos (suc left)) w = attempt_from left 1 p.base_delay w
  retry_loop (negsuc n) w = (none, w)

unfoldable pub retry_do : {W : Type 0} → Surroundings W → RetryPolicy → W → Option GoError × W
retry_do env p w = let q = with_defaults p in retry_loop env q q.max_attempts w
