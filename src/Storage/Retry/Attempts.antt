-- ===== src/Storage/Retry/Attempts.antt =====
-- operator/internal/storage/retry.go: how the attempts of an operation follow one another.
use ai_sandbox.Base.{
  ℕ, zero, suc, ◌+◌, ◌<◌, true, false, Bool-cases, Option, Option-cases, none, some, ◌≡◌, refl, inl,
  inr, arith,
}
use ai_sandbox.Base.Int.{ℤ, pos_part, pos, negsuc, ◌≤ℤ◌, ltb_ℤ}
use ai_sandbox.Storage.Retry.{
  GoError, RetryPolicy, Surroundings, answered, at_most, attempt_from, attempted, back_off, double,
  is_retryable, positive_or, retried, retry_do, retry_loop, with_defaults,
}

at_most-bound : (bound d : ℤ) → at_most bound d ≤ℤ bound
unfolding at_most
at_most-bound bound d = ground arith

module _ {W : Type 0} (env : Surroundings W) (longest : ℤ) where
  -- A failure that may be retried and the sleep after it, which is at most the longest delay: the world
  -- of the attempt and the answer of the sleep.
  pub record Pause (n : ℕ) (w : W) (slept : Option GoError × W) : Type 0 where
    pub error : GoError
    pub failed : W
    pub delay : ℤ
    pub nominal : ℤ
    pub live : env.ctx_err w ≡ none
    pub answer : env.op (suc n) w ≡ (some error, failed)
    pub retryable : is_retryable error ≡ true
    pub short : delay ≤ℤ longest
    pub sleeps : env.sleep delay (env.jittered nominal failed).1 ≡ slept

  -- Attempts that failed and were slept after, one after the other: their number, and the world then.
  pub data Retried (start : W) : ℕ → W → Type 0 where
    no_attempt : Retried start 0 start
    one_more : (n : ℕ) (w v : W) → Retried start n w → Pause n w (none, v) → Retried start (suc n) v

  -- How attempt `suc n` of `limit`, in the world w, ends the retries.
  pub data Ends (limit n : ℕ) (w : W) : Option GoError × W → Type 0 where
    cancelled : (e : GoError) → env.ctx_err w ≡ some e → Ends limit n w (some e, w)
    succeeded :
        (v : W) → env.ctx_err w ≡ none → env.op (suc n) w ≡ (none, v) → Ends limit n w (none, v)
    permanent :
        (e : GoError) (v : W)
        → env.ctx_err w ≡ none
        → env.op (suc n) w ≡ (some e, v)
        → is_retryable e ≡ false
        → Ends limit n w (some e, v)
    exhausted :
        (e : GoError) (v : W)
        → env.ctx_err w ≡ none
        → env.op (suc n) w ≡ (some e, v)
        → is_retryable e ≡ true
        → suc n ≡ limit
        → Ends limit n w (some e, v)
    woken : (e : GoError) (v : W) → Pause n w (some e, v) → Ends limit n w (some e, v)

  -- A run of the attempts up to the end of one of them, within the limit.
  abbrev pub Runs : ℕ → W → Option GoError × W → Type 0
  Runs limit start r = (n : ℕ) × (w : W) × (n < limit) × Retried start n w × Ends limit n w r

module _ {W : Type 0} (env : Surroundings W) (p : RetryPolicy) where
  -- What the attempts that follow make of an end of the sleep.
  abbrev Continues : ℕ → ℕ → W → Option (W → Option GoError × W) → Type 0
  Continues limit n start none = suc n ≡ limit
  Continues limit n start (some f) =
      (v : W) → Retried env p.max_delay start (suc n) v → Runs env p.max_delay limit start (f v)

  back_off-Ends :
      (limit n : ℕ) (start w : W) (f : W → Option GoError × W) (j : ℤ × W)
      → n < limit
      → Retried env p.max_delay start n w
      → Continues limit n start (some f)
      → ((r : Option GoError × W)
          → env.sleep (at_most p.max_delay j.0) j.1 ≡ r
          → Pause env p.max_delay n w r)
      → Runs env p.max_delay limit start (back_off env p j f)
  unfolding back_off
  back_off-Ends limit n start w f (d, u) l r next pause =
      by_answer (env.sleep (at_most p.max_delay d) u) (pause _ refl)
    where
      by_answer :
          (a : Option GoError × W)
          → Pause env p.max_delay n w a
          → Runs env p.max_delay limit start (elim a.0 [ some e ↦ (some e, a.1) | none ↦ f a.1 ])
      by_answer (some e, v) q = (n, w, l, r, Ends.woken e v q)
      by_answer (none, v) q = next v (Retried.one_more n w v r q)

  answered-Ends :
      (limit n : ℕ) (delay : ℤ) (start w : W) (again : Option (W → Option GoError × W))
      (a : Option GoError × W)
      → n < limit
      → Retried env p.max_delay start n w
      → Continues limit n start again
      → env.ctx_err w ≡ none
      → env.op (suc n) w ≡ a
      → Runs env p.max_delay limit start (answered env p delay again a)
  unfolding answered retried
  answered-Ends limit n delay start w again (none, v) l r next c q =
      (n, w, l, r, Ends.succeeded v c q)
  answered-Ends limit n delay start w none (some e, v) l r next c q =
      elim (Bool-cases (is_retryable e)) [
        | inl b ↦ rw b (n, w, l, r, Ends.exhausted e v c q b next)
        | inr b ↦ rw b (n, w, l, r, Ends.permanent e v c q b)
      ]
  answered-Ends limit n delay start w (some f) (some e, v) l r next c q =
      elim (Bool-cases (is_retryable e)) [
        | inr b ↦ rw b (n, w, l, r, Ends.permanent e v c q b)
        | inl b ↦ rw b (
            back_off-Ends limit n start w f (env.jittered delay v) l r next (λ x s. record {
              error = e;
              failed = v;
              delay = at_most p.max_delay (env.jittered delay v).0;
              nominal = delay;
              live = c;
              answer = q;
              retryable = b;
              short = at_most-bound p.max_delay (env.jittered delay v).0;
              sleeps = s;
            }))
      ]

  attempted-Ends :
      (limit n : ℕ) (delay : ℤ) (start w : W) (again : Option (W → Option GoError × W))
      → n < limit
      → Retried env p.max_delay start n w
      → Continues limit n start again
      → Runs env p.max_delay limit start (attempted env p (suc n) delay w again)
  unfolding attempted
  attempted-Ends limit n delay start w again l r next = elim (Option-cases (env.ctx_err w)) [
    | inr (e, c) ↦ rw (attempted, c) (n, w, l, r, Ends.cancelled e c)
    | inl c ↦
        rw (attempted, c)
          (answered-Ends limit n delay start w again (env.op (suc n) w) l r next c refl)
  ]

  attempt_from-Ends :
      (left limit n : ℕ) (delay : ℤ) (start w : W)
      → limit ≡ suc left + n
      → Retried env p.max_delay start n w
      → Runs env p.max_delay limit start (attempt_from env p left (suc n) delay w)
  unfolding attempt_from
  attempt_from-Ends zero limit n delay start w q r =
      attempted-Ends limit n delay start w none (omega (arith, q)) r (omega (arith, q))
  attempt_from-Ends (suc left) limit n delay start w q r =
      let next_delay = at_most p.max_delay (double delay) in
      attempted-Ends limit n delay start w (some (attempt_from env p left (suc (suc n)) next_delay))
        (omega (arith, q)) r
        (λ v s. attempt_from-Ends left limit (suc n) next_delay start v (omega (arith, q)) s)

-- The number of attempts that a policy allows.
abbrev pub attempts : RetryPolicy → ℕ
attempts p = pos_part (with_defaults p).max_attempts

retry_loop-Ends :
    {W : Type 0} (env : Surroundings W) (p : RetryPolicy) (start : W) (m : ℤ)
    → ltb_ℤ (pos 0) m ≡ true
    → Runs env p.max_delay (pos_part m) start (retry_loop env p m start)
unfolding retry_loop
retry_loop-Ends env p start (pos zero) h = absurd (ground (arith, h))
retry_loop-Ends env p start (pos (suc left)) h =
    attempt_from-Ends env p left (suc left) 0 p.base_delay start start (omega arith)
      Retried.no_attempt
retry_loop-Ends env p start (negsuc n) h = absurd (ground (arith, h))

with_defaults-attempts : (p : RetryPolicy) → ltb_ℤ (pos 0) (with_defaults p).max_attempts ≡ true
unfolding with_defaults positive_or
with_defaults-attempts p = ground arith

-- A retried operation comes to an end after at most as many attempts as the policy allows, each but
-- the last having failed with an error that may be retried and been followed by a sleep of at most the
-- longest delay. The last attempt finds the context cancelled, succeeds, fails with an error that is
-- not to be retried, fails as the last one allowed, or has its sleep cut short, and the result is that
-- of the context, of the operation or of the sleep.
pub retry_do-Ends :
    {W : Type 0} (env : Surroundings W) (p : RetryPolicy) (start : W)
    → Runs env (with_defaults p).max_delay (attempts p) start (retry_do env p start)
unfolding retry_do
retry_do-Ends env p start =
    retry_loop-Ends env (with_defaults p) start (with_defaults p).max_attempts
      (with_defaults-attempts p)
