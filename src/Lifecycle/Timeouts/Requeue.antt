-- ===== src/Lifecycle/Timeouts/Requeue.antt =====
-- The timeout clocks against the deadlines, and the bounds of the requeue delay.
use ai_sandbox.Base.{
  ℕ, ◌+◌, ◌≤◌, ◌≡◌, refl, ◌⊎◌, inl, inr, Bool, true, false, ◌&&◌, ◌||◌, Option, none, some, is_some,
  leb, Option-cases, arith,
}
use ai_sandbox.Base.Int.{ℤ, pos, negsuc, pos_part, ◌≤ℤ◌, ltb_ℤ}
use ai_sandbox.Api.Phase.{Phase, phase_eq}
use ai_sandbox.Api.Condition.{ApiMachinery}
use ai_sandbox.Api.Environment.{SandboxEnvironment}
use ai_sandbox.Lifecycle.Facts.{Timeouts, ClusterFacts}
use ai_sandbox.Lifecycle.Decision.{min_requeue_after, max_requeue_after}
use ai_sandbox.Lifecycle.Defaults.{is_terminal}
use ai_sandbox.Lifecycle.Timeouts.{
  max_duration, sub_time, add_time, clamp_duration, consider, elapsed, running_since, waiting_since,
  fired_timeout_reason, consider_clock, consider_probe, next_timeout_deadline,
  compute_requeue_after,
}

-- The timeouts are int64 values.
pub record InRange (t : Timeouts) : Type 0 where
  pub total : t.total ≤ℤ pos max_duration
  pub running : t.running ≤ℤ pos max_duration
  pub waiting : t.waiting ≤ℤ pos max_duration

-- Whether a deadline has come.
abbrev pub due : Option ℕ → ℕ → Bool
due none now = false
due (some t) now = leb t now

-- The saturating difference compares with a duration as the sum does.
elapsed-add :
    ⦃k : ApiMachinery⦄
    → (t : ℤ) (since now : ℕ) → t ≤ℤ pos max_duration
    → elapsed t (some since) now ≡ (ltb_ℤ (pos 0) t && leb (add_time since t) now)
unfolding elapsed sub_time add_time
elapsed-add (pos n) since now h = ground arith
elapsed-add (negsuc n) since now h = ground arith

due-consider :
    (t : ℕ) (deadline : Option ℕ) (now : ℕ)
    → due (consider t deadline) now ≡ (leb t now || due deadline now)
unfolding consider
due-consider t none now = ground arith
due-consider t (some d) now = ground arith

-- The earlier of a clock's end and a deadline is due exactly when one of them is.
due-consider_clock :
    ⦃k : ApiMachinery⦄
    → (t : ℤ) (since deadline : Option ℕ) (now : ℕ) → t ≤ℤ pos max_duration
    → due (consider_clock t since deadline) now ≡ (elapsed t since now || due deadline now)
unfolding consider_clock
due-consider_clock t none deadline now h = unfold elapsed in refl
due-consider_clock t (some since) deadline now h =
    ground (arith, elapsed-add t since now h, due-consider (add_time since t) deadline now)

clamp_bounds :
    (d : ℤ)
    → (min_requeue_after ≤ℤ clamp_duration d min_requeue_after max_requeue_after)
      × (clamp_duration d min_requeue_after max_requeue_after ≤ℤ max_requeue_after)
unfolding clamp_duration
clamp_bounds d = ground arith

-- A clamped wait does not pass a deadline that is more than the least wait away.
clamp-sub_time :
    (deadline now : ℕ)
    → let r = clamp_duration (sub_time deadline now) min_requeue_after max_requeue_after in
      (now + pos_part r ≤ deadline) ⊎ (r ≡ min_requeue_after)
unfolding clamp_duration sub_time
clamp-sub_time deadline now = ground arith

-- The end of the probe's backoff window.
abbrev pub probe_deadline : SandboxEnvironment → Option ℕ
probe_deadline env = elim env.status.probe_attempt [ none ↦ none | some pa ↦ pa.next_eligible_at ]

due-consider_probe :
    ⦃k : ApiMachinery⦄
    → (env : SandboxEnvironment) (deadline : Option ℕ) (now : ℕ)
    → due (consider_probe env deadline) now ≡ (due (probe_deadline env) now || due deadline now)
unfolding consider_probe
due-consider_probe env deadline now = elim (Option-cases (probe_deadline env)) [
  | inl e ↦ ground arith
  | inr (t, e) ↦ ground (arith, due-consider t deadline now)
]

module _ ⦃k : ApiMachinery⦄ (env : SandboxEnvironment) (facts : ClusterFacts) where
  -- The requeue delay is 0, or between a second and five minutes.
  compute_requeue_after_bounds :
      (ph : Phase) (now : ℕ)
      → (compute_requeue_after ph env facts now ≡ pos 0)
        ⊎ ((min_requeue_after ≤ℤ compute_requeue_after ph env facts now)
            × (compute_requeue_after ph env facts now ≤ℤ max_requeue_after))
  unfolding compute_requeue_after
  compute_requeue_after_bounds ph now = elim (Option-cases (next_timeout_deadline env facts ph)) [
    | inl e ↦ ground arith
    | inr (deadline, e) ↦ ground (arith, clamp_bounds (sub_time deadline now))
  ]

  -- With int64 timeouts, the deadline that the requeue delay is computed from has come exactly
  -- when a clock has fired or, in Waiting, the probe's backoff window is over.
  pub due-next_timeout_deadline :
      (ph : Phase) (now : ℕ)
      → InRange facts.timeouts
      → due (next_timeout_deadline env facts ph) now ≡ (
          is_some (fired_timeout_reason env facts now ph)
          || (phase_eq ph Phase.waiting && due (probe_deadline env) now))
  unfolding fired_timeout_reason next_timeout_deadline
  due-next_timeout_deadline Phase.waiting now h =
      let total = consider_clock facts.timeouts.total (some env.creation_timestamp) none in
      ground (
        arith,
        due-consider_probe env (consider_clock facts.timeouts.waiting (waiting_since env) total)
            now,
        due-consider_clock facts.timeouts.waiting (waiting_since env) total now,
        due-consider_clock facts.timeouts.total (some env.creation_timestamp) none now,
      )
  due-next_timeout_deadline Phase.running now h = ground (
    arith,
    due-consider_clock facts.timeouts.running (running_since env)
        (consider_clock facts.timeouts.total (some env.creation_timestamp) none) now,
    due-consider_clock facts.timeouts.total (some env.creation_timestamp) none now,
  )
  due-next_timeout_deadline _ now h =
      ground (arith, due-consider_clock facts.timeouts.total (some env.creation_timestamp) none now)

  -- With int64 timeouts and a resolved class, an environment that is not terminal is requeued
  -- before any later time at which one of its clocks has fired, or after the least delay.
  pub requeue_wakes :
      (ph : Phase) (now later : ℕ)
      → InRange facts.timeouts
      → is_terminal ph ≡ false
      → facts.class_resolved ≡ true
      → is_some (fired_timeout_reason env facts later ph) ≡ true
      → let r = compute_requeue_after ph env facts now in
        (ltb_ℤ (pos 0) r ≡ true) × ((now + pos_part r ≤ later) ⊎ (r ≡ min_requeue_after))
  unfolding compute_requeue_after
  requeue_wakes ph now later h t c f = elim (Option-cases (next_timeout_deadline env facts ph)) [
    | inl e ↦ absurd (ground (arith, due-next_timeout_deadline ph later h))
    | inr (deadline, e) ↦ ground (
      arith,
      due-next_timeout_deadline ph later h,
      clamp_bounds (sub_time deadline now),
      clamp-sub_time deadline now,
    )
  ]
