-- ===== src/Docker/Schedules/Due.antt =====
-- docker-operator/internal/agent/schedule.go: when a cron agent is due.
use ai_sandbox.Base.{
  ℕ, ◌<◌, ◌≤◌, leb→le, Bool-cases, true, false, not, ◌||◌, Option, none, some, max, text_eq, [],
  ◌⊎◌, inl, inr, ◌≡◌, ◌↔◌, arith, Sum-cases,
}
use ai_sandbox.Docker.CronAgents.{CronAgent}
use ai_sandbox.Docker.Schedules.{Cron, ScheduleRun, anchor_of, cron_agent_due, later}

-- The latest of the creation, the last update and the start of the last run.
abbrev pub latest : CronAgent → Option ScheduleRun → ℕ
latest ca none = max ca.created_at ca.updated_at
latest ca (some run) = max (max ca.created_at ca.updated_at) run.started_at

later-max : (a b : ℕ) → later a b ≡ max a b
unfolding later
later-max a b = ground arith

anchor_of-latest :
    (ca : CronAgent) (last_run : Option ScheduleRun) → anchor_of ca last_run ≡ latest ca last_run
unfolding anchor_of
anchor_of-latest ca none = later-max ca.created_at ca.updated_at
anchor_of-latest ca (some run) =
    rw (later-max ca.created_at ca.updated_at)
      (later-max (max ca.created_at ca.updated_at) run.started_at)

module _ ⦃cron : Cron⦄ where
  -- An activation after the anchor has come by now, or none comes up to the horizon of the library.
  abbrev pub HasCome : cron.Schedule → ℕ → ℕ → Type 0
  HasCome s anchor now =
      ((n : ℕ) × (cron.activates s anchor n ≡ true) × (anchor < n) × (n ≤ now))
      ⊎ ((n : ℕ) → cron.activates s anchor n ≡ true → anchor < n → cron.horizon anchor < n)

  next-HasCome :
      (s : cron.Schedule) (anchor now : ℕ) → (cron.next s anchor ≤ now) ↔ HasCome s anchor now
  next-HasCome s anchor now = elim (cron.next_lem s anchor) [
    | inl (z, none_soon) ↦ ((λ h. inr none_soon), λ h. omega (arith, z))
    | inr (a, l, far, least) ↦ (
      (λ h. inl (cron.next s anchor, a, l, h)),
      λ h. elim h [
        | inl (n, an, ln, hn) ↦ omega (arith, least n an ln, hn)
        | inr none_soon ↦ omega (arith, none_soon (cron.next s anchor) a l, far)
      ],
    )
  ]

  due-anchor_of :
      (ca : CronAgent) (last_run : Option ScheduleRun) (now : ℕ)
      → (cron_agent_due ca last_run now ≡ true) ↔ (
          (ca.enabled ≡ true)
          × (text_eq ca.schedule [] ≡ false)
          × ((s : cron.Schedule) × (cron.parse_standard ca.schedule ≡ inr s)
              × HasCome s (anchor_of ca last_run) now))
  unfolding cron_agent_due
  due-anchor_of ca last_run now = (to, from)
    where
      to :
          cron_agent_due ca last_run now ≡ true
          → (ca.enabled ≡ true)
            × (text_eq ca.schedule [] ≡ false)
            × ((s : cron.Schedule) × (cron.parse_standard ca.schedule ≡ inr s)
                × HasCome s (anchor_of ca last_run) now)
      to h = elim (Bool-cases (not ca.enabled || text_eq ca.schedule [])) [
        | inl e ↦ ground (arith, rw (cron_agent_due, e) at h)
        | inr e ↦ elim (Sum-cases (cron.parse_standard ca.schedule)) [
          | inl (x, p) ↦ ground (arith, rw (cron_agent_due, e, p) at h)
          | inr (s, p) ↦
              let due = leb→le _ _ (rw (cron_agent_due, e, p) at h) in
              (ground (arith, e), ground (arith, e), (s, p, (next-HasCome s _ now).0 due))
        ]
      ]

      from :
          (ca.enabled ≡ true)
            × (text_eq ca.schedule [] ≡ false)
            × ((s : cron.Schedule) × (cron.parse_standard ca.schedule ≡ inr s)
                × HasCome s (anchor_of ca last_run) now)
          → cron_agent_due ca last_run now ≡ true
      from (e, t, (s, p, c)) =
          rw (cron_agent_due, e, t, p)
            (ground (arith, (next-HasCome s (anchor_of ca last_run) now).1 c))

  -- A cron agent is due exactly where it is enabled, its schedule can be parsed, and an activation of
  -- it has come since the latest of its creation, its last update and the start of its last run, or no
  -- activation comes up to the horizon of the library, for which Next answers the zero time.
  pub cron_agent_due_iff :
      (ca : CronAgent) (last_run : Option ScheduleRun) (now : ℕ)
      → (cron_agent_due ca last_run now ≡ true) ↔ (
          (ca.enabled ≡ true)
          × (text_eq ca.schedule [] ≡ false)
          × ((s : cron.Schedule) × (cron.parse_standard ca.schedule ≡ inr s)
              × HasCome s (latest ca last_run) now))
  cron_agent_due_iff ca last_run now =
      rw (anchor_of-latest ca last_run) at (due-anchor_of ca last_run now)
