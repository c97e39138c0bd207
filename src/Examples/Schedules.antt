-- ===== src/Examples/Schedules.antt =====
-- A schedule that is due each nanosecond and one that is never due, and the theorems of the scheduling
-- ticks at them.
use ai_sandbox.Base.{
  ℕ, suc, ◌+◌, ◌==◌, ◌<◌, ◌≤◌, ◌↔◌, Bool, true, false, [], ◌∷◌, none, codes, text_eq, ◌⊎◌, inl, inr,
  ◌≡◌, refl, arith, if◌then◌else◌,
}
use ai_sandbox.Docker.Records.{StoreError}
use ai_sandbox.Docker.Store.{Agent, created}
use ai_sandbox.Docker.Templates.{Template, created_template}
use ai_sandbox.Docker.Schedules.{
  Cron, Deps, RunCheck, RunStatus, ScheduleRun, anchor_of, cron_agent_due, fire_due_cron_agents,
  later, fire_cron_agent, fire_cron_agents, last_of, template_loaded, agent_created,
}
use ai_sandbox.Docker.Schedules.Due.{HasCome, latest, cron_agent_due_iff}
use ai_sandbox.Docker.Schedules.Guarded.{Kept, fire_due_cron_agents-keeps}
use ai_sandbox.Examples.Templates.{builder, nightly}

pub clockwork_next :
    (never : Bool) (t : ℕ)
    → (((if never then 0 else suc t) ≡ 0)
        × ((n : ℕ) → (if never then false else n == suc t) ≡ true → t < n → t + 10 < n))
      ⊎ (((if never then false else (if never then 0 else suc t) == suc t) ≡ true)
          × (t < (if never then 0 else suc t))
          × ((if never then 0 else suc t) ≤ t + 10)
          × ((n : ℕ)
              → (if never then false else n == suc t) ≡ true
              → t < n
              → (if never then 0 else suc t) ≤ n))
clockwork_next true t = inl (refl, λ n h l. ground (arith, h))
clockwork_next false t = inr (ground arith, omega arith, omega arith, λ n h l. ground (arith, h))

-- The schedule "never" is accepted, as "0 0 30 2 *" is by the library, and has no activation.
instance abbrev clockwork : Cron
clockwork = record {
  Schedule = Bool;
  parse_standard = λ t. inr (text_eq t (codes "never"));
  next = λ never t. if never then 0 else suc t;
  activates = λ never t n. if never then false else n == suc t;
  horizon = λ t. t + 10;
  next_lem = clockwork_next;
}

-- A cron agent whose schedule has no activation is due all the same.
never_is_due : cron_agent_due (record nightly { schedule = codes "never" }) none 1000 ≡ true
unfolding cron_agent_due anchor_of later text_eq
never_is_due = refl

cron_agent_due_iff_example : (cron_agent_due nightly none 1000 ≡ true) ↔ (
    (nightly.enabled ≡ true)
    × (text_eq nightly.schedule [] ≡ false)
    × ((s : clockwork.Schedule) × (clockwork.parse_standard nightly.schedule ≡ inr s)
        × HasCome s (latest nightly none) 1000))
cron_agent_due_iff_example = cron_agent_due_iff nightly none 1000

abbrev new_run : ScheduleRun
new_run = record {
  id = codes "run_1";
  cron_agent_id = codes "ca_1";
  agent_id = codes "agt_1";
  started_at = 5;
  finished_at = none;
  status = RunStatus.running;
}

abbrev agent : Agent
agent =
    created
      (record {
        id = codes "agt_2";
        name = [];
        description = [];
        backend = [];
        harness = [];
        model = [];
        fast_model = [];
        ollama_url = [];
        repo = [];
        auto_compact_threshold = [];
        max_context_tokens = [];
        auto_mode = [];
        anthropic_account_id = [];
        image = [];
      })
      1

-- A store with one cron agent, no runs and this answer for its template; the state is the clock and the number of agents.
abbrev deps : StoreError ⊎ Template → Deps (ℕ × ℕ)
deps template = record {
  clock = λ w. w.0;
  list_cron_agents = λ w. inr (nightly ∷ []);
  get_cron_agent = λ id w. inr nightly;
  get_template = λ id w. template;
  list_schedule_runs_by_cron_agent = λ id w. inr [];
  list_schedule_runs_by_status = λ status w. inr [];
  create_schedule_run = λ id agent_id w. (inr new_run, w);
  finish_schedule_run = λ id status w. (inr new_run, w);
  create_from_cron_agent = λ ca w. (inr agent, (w.0, suc w.1));
  check_scheduled_run_status = λ run w. (inr RunCheck.running, w);
  apply_on_complete = λ ca run w. (none, w);
}

-- A first tick creates an agent.
first_tick : fire_due_cron_agents (deps (inr builder)) (5, 0) ≡ (5, 1)
unfolding fire_due_cron_agents fire_cron_agent fire_cron_agents cron_agent_due anchor_of later
    last_of template_loaded agent_created text_eq created_template
first_tick = refl

none_created : Kept (deps (inl StoreError.not_found)) 5 (nightly ∷ []) (λ w. w.1 ≡ 0)
none_created = record {
  by_create = λ id agent_id w p. p;
  by_finish = λ id status w p. p;
  by_agent = λ ca w m f p. ground (arith, f.found);
}

-- A template that is gone keeps the tick from creating an agent.
fire_due_cron_agents-keeps_example :
    (fire_due_cron_agents (deps (inl StoreError.not_found)) (5, 0)).1 ≡ 0
fire_due_cron_agents-keeps_example =
    fire_due_cron_agents-keeps (deps (inl StoreError.not_found)) (λ w. w.1 ≡ 0) (5, 0) none_created
      refl
