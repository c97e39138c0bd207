-- ===== src/Docker/Schedules/Guarded.antt =====
-- docker-operator/cmd/docker-operator/schedule.go: what a tick does only for a cron agent that is due.
use ai_sandbox.Base.{
  ℕ, Bool-cases, true, false, not, ◌||◌, List, [], ◌∷◌, Text, text_eq, ◌⊎◌, inl, inr, ◌≡◌, refl,
  sym, Sum-cases,
}
use mathlib.Core.List.{Mem, mem-cons_of_mem, mem-cons_self}
use ai_sandbox.Docker.Records.{StoreError}
use ai_sandbox.Docker.Store.{Agent}
use ai_sandbox.Docker.CronAgents.{CronAgent}
use ai_sandbox.Docker.Templates.{Template}
use ai_sandbox.Docker.Schedules.{
  Cron, Deps, RunStatus, ScheduleRun, agent_created, cron_agent_due, finalize_recorded,
  fire_cron_agent, fire_cron_agents, fire_due_cron_agents, harness_open_code, last_of,
  record_failed_schedule_run, template_loaded,
}

-- The cron agents of an answer of the list.
abbrev pub listed_agents : StoreError ⊎ List CronAgent → List CronAgent
listed_agents (inl e) = []
listed_agents (inr cas) = cas

module _ {W : Type 0} ⦃cron : Cron⦄ (deps : Deps W) where
  -- A cron agent for which a tick at this time may create an agent, in this state.
  pub record MayFire (now : ℕ) (ca : CronAgent) (w : W) : Type 0 where
    pub runs : List ScheduleRun
    pub listed : deps.list_schedule_runs_by_cron_agent ca.id w ≡ inr runs
    pub due : cron_agent_due ca (last_of runs) now ≡ true
    pub template : Template
    pub found : deps.get_template ca.template_id w ≡ inr template
    pub harness : text_eq template.harness harness_open_code ≡ false

  -- What every step of the tick keeps, the creation of an agent where it may be created.
  pub record Kept (now : ℕ) (cas : List CronAgent) (P : W → Type 0) : Type 0 where
    pub by_create :
        (id agent_id : Text) (w : W) → P w → P (deps.create_schedule_run id agent_id w).1
    pub by_finish :
        (id : Text) (status : RunStatus) (w : W) → P w → P (deps.finish_schedule_run id status w).1
    pub by_agent :
        (ca : CronAgent) (w : W)
        → Mem ca cas
        → MayFire now ca w
        → P w
        → P (deps.create_from_cron_agent ca w).1

  module _ (now : ℕ) (all : List CronAgent) (P : W → Type 0) (kept : Kept now all P) where
    finalize_recorded-keeps :
        (a : (StoreError ⊎ ScheduleRun) × W) → P a.1 → P (finalize_recorded deps a)
    unfolding finalize_recorded
    finalize_recorded-keeps (inl e, w) p = p
    finalize_recorded-keeps (inr run, w) p = kept.by_finish run.id RunStatus.error w p

    record_failed-keeps : (id : Text) (w : W) → P w → P (record_failed_schedule_run deps id w)
    unfolding record_failed_schedule_run
    record_failed-keeps id w p =
        finalize_recorded-keeps (deps.create_schedule_run id [] w) (kept.by_create id [] w p)

    agent_created-keeps :
        (ca : CronAgent) (a : (Text ⊎ Agent) × W) → P a.1 → P (agent_created deps ca a)
    unfolding agent_created
    agent_created-keeps ca (inl e, w) p = record_failed-keeps ca.id w p
    agent_created-keeps ca (inr a, w) p = kept.by_create ca.id a.id w p

    template_loaded-keeps :
        (ca : CronAgent) (x : StoreError ⊎ Template) (w : W) (runs : List ScheduleRun)
        → Mem ca all
        → x ≡ deps.get_template ca.template_id w
        → deps.list_schedule_runs_by_cron_agent ca.id w ≡ inr runs
        → cron_agent_due ca (last_of runs) now ≡ true
        → P w
        → P (template_loaded deps ca x w)
    unfolding template_loaded
    template_loaded-keeps ca (inl e) w runs m q l d p = record_failed-keeps ca.id w p
    template_loaded-keeps ca (inr t) w runs m q l d p =
        elim (Bool-cases (text_eq t.harness harness_open_code)) [
          | inl e ↦ rw e (record_failed-keeps ca.id w p)
          | inr e ↦ rw e (
              agent_created-keeps ca (deps.create_from_cron_agent ca w) (
                kept.by_agent ca w m
                  (record {
                    runs = runs;
                    listed = l;
                    due = d;
                    template = t;
                    found = sym q;
                    harness = e;
                  })
                  p))
        ]

    fire_cron_agent-keeps :
        (ca : CronAgent) (w : W) → Mem ca all → P w → P (fire_cron_agent deps now ca w)
    unfolding fire_cron_agent
    fire_cron_agent-keeps ca w m p = elim (Bool-cases (text_eq ca.schedule [] || not ca.enabled)) [
      | inl e ↦ rw (fire_cron_agent, e) p
      | inr e ↦ elim (Sum-cases (deps.list_schedule_runs_by_cron_agent ca.id w)) [
        | inl (x, l) ↦ rw (fire_cron_agent, e, l) p
        | inr (runs, l) ↦ elim (Bool-cases (cron_agent_due ca (last_of runs) now)) [
          | inr d ↦ rw (fire_cron_agent, e, l, d) p
          | inl d ↦
              rw (fire_cron_agent, e, l, d)
                (template_loaded-keeps ca (deps.get_template ca.template_id w) w runs m refl l d p)
        ]
      ]
    ]

    fire_cron_agents-keeps :
        (cas : List CronAgent) (w : W)
        → ((ca : CronAgent) → Mem ca cas → Mem ca all)
        → P w
        → P (fire_cron_agents deps now cas w)
    unfolding fire_cron_agents
    fire_cron_agents-keeps [] w f p = p
    fire_cron_agents-keeps (ca ∷ cas) w f p =
        fire_cron_agents-keeps cas (fire_cron_agent deps now ca w)
          (λ c m. f c (mem-cons_of_mem ca m)) (fire_cron_agent-keeps ca w (f ca mem-cons_self) p)

  -- A tick creates an agent only for a listed cron agent that is due at the time of the tick, by its runs at
  -- that moment, and whose template exists and is not for opencode: it keeps every property of the state
  -- that the writes of runs keep, and that the creation of an agent keeps where these conditions hold.
  pub fire_due_cron_agents-keeps :
      (P : W → Type 0) (w : W)
      → Kept (deps.clock w) (listed_agents (deps.list_cron_agents w)) P
      → P w
      → P (fire_due_cron_agents deps w)
  unfolding fire_due_cron_agents
  fire_due_cron_agents-keeps P w kept p = elim (Sum-cases (deps.list_cron_agents w)) [
    | inl (e, l) ↦ rw (fire_due_cron_agents, l) p
    | inr (cas, l) ↦
        rw (fire_due_cron_agents, l)
          (fire_cron_agents-keeps (deps.clock w) cas P (rw l at kept) cas w (λ c m. m) p)
  ]
