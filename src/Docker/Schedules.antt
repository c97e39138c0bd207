-- ===== src/Docker/Schedules.antt =====
-- docker-operator/internal/agent/schedule.go and docker-operator/cmd/docker-operator/schedule.go: the
-- ticks that fire the cron agents which are due and finish their runs.
--
-- The library robfig/cron is the interface Cron, with what its documentation says of Next; the interface
-- schedulingDeps is the record Deps, whose `w` is the state of the store, of Docker and of the clock.
-- Logs are left out. A time is in nanoseconds since the zero time.
pub mod Due
pub mod Guarded
use ai_sandbox.Base.{
  ℕ, suc, ◌+◌, ◌*◌, ◌<◌, ◌≤◌, ltb, leb, Bool, true, false, not, ◌||◌, List, [], ◌∷◌, Option, none,
  some, Text, codes, text_eq, ◌⊎◌, inl, inr, ◌≡◌, if◌then◌else◌,
}
use ai_sandbox.Base.Int.{ltb_ℤ, pos}
use ai_sandbox.Lifecycle.Timeouts.{sub_time}
use ai_sandbox.Docker.Records.{StoreError}
use ai_sandbox.Docker.Store.{Agent}
use ai_sandbox.Docker.CronAgents.{CronAgent}
use ai_sandbox.Docker.Templates.{Template}

-- Schedules as robfig/cron parses them: `activates s t n` says that s, which an interval may count from
-- the time t, is due at n. Next is the first activation after a time, or the zero time where its search
-- finds none up to the horizon, some five years on.
pub record Cron : Type 1 where
  pub Schedule : Type 0
  pub parse_standard : Text → Text ⊎ Schedule
  pub next : Schedule → ℕ → ℕ
  pub activates : Schedule → ℕ → ℕ → Bool
  pub horizon : ℕ → ℕ
  pub next_lem :
      (s : Schedule) (t : ℕ)
      → ((next s t ≡ 0) × ((n : ℕ) → activates s t n ≡ true → t < n → horizon t < n))
        ⊎ ((activates s t (next s t) ≡ true)
            × (t < next s t)
            × (next s t ≤ horizon t)
            × ((n : ℕ) → activates s t n ≡ true → t < n → next s t ≤ n))

-- `other` is a text that no constant names.
pub data RunStatus : Type 0 where
  running success error : RunStatus
  other : Text → RunStatus

pub record ScheduleRun : Type 0 where
  pub id : Text
  pub cron_agent_id : Text
  pub agent_id : Text
  pub started_at : ℕ
  pub finished_at : Option ℕ
  pub status : RunStatus

-- The later of two times, as `if t.After(anchor) { anchor = t }` keeps it.
unfoldable pub later : ℕ → ℕ → ℕ
later anchor t = if ltb anchor t then t else anchor

unfoldable pub anchor_of : CronAgent → Option ScheduleRun → ℕ
anchor_of ca none = later ca.created_at ca.updated_at
anchor_of ca (some run) = later (later ca.created_at ca.updated_at) run.started_at

unfoldable pub cron_agent_due : ⦃cron : Cron⦄ → CronAgent → Option ScheduleRun → ℕ → Bool
cron_agent_due ⦃cron⦄ ca last_run now =
    if not ca.enabled || text_eq ca.schedule []
    then false
    else elim (cron.parse_standard ca.schedule) [
      | inl e ↦ false
      | inr sched ↦ leb (cron.next sched (anchor_of ca last_run)) now
    ]

abbrev pub max_scheduled_run_duration : ℕ
max_scheduled_run_duration = 7200 * 1000000000

abbrev pub harness_open_code : Text
harness_open_code = codes "opencode"

-- The answers of CheckScheduledRunStatus; `done` and any other text end a run with success.
pub data RunCheck : Type 0 where
  running failed gone done : RunCheck
  other : Text → RunCheck

pub record Deps (W : Type 0) : Type 0 where
  pub clock : W → ℕ
  pub list_cron_agents : W → StoreError ⊎ List CronAgent
  pub get_cron_agent : Text → W → StoreError ⊎ CronAgent
  pub get_template : Text → W → StoreError ⊎ Template
  pub list_schedule_runs_by_cron_agent : Text → W → StoreError ⊎ List ScheduleRun
  pub list_schedule_runs_by_status : RunStatus → W → StoreError ⊎ List ScheduleRun
  pub create_schedule_run : Text → Text → W → (StoreError ⊎ ScheduleRun) × W
  pub finish_schedule_run : Text → RunStatus → W → (StoreError ⊎ ScheduleRun) × W
  pub create_from_cron_agent : CronAgent → W → (Text ⊎ Agent) × W
  pub check_scheduled_run_status : ScheduleRun → W → (Text ⊎ RunCheck) × W
  pub apply_on_complete : CronAgent → ScheduleRun → W → Option Text × W

-- The first of the runs, which come newest first.
unfoldable pub last_of : List ScheduleRun → Option ScheduleRun
last_of [] = none
last_of (run ∷ runs) = some run

-- The zero value of a cron agent.
abbrev pub no_cron_agent : CronAgent
no_cron_agent = record {
  id = [];
  name = [];
  template_id = [];
  schedule = [];
  enabled = false;
  task = [];
  on_complete = [];
  created_at = 0;
  updated_at = 0;
}

unfoldable pub is_not_found : StoreError → Bool
is_not_found StoreError.not_found = true
is_not_found _ = false

module _ {W : Type 0} (deps : Deps W) where
  unfoldable pub finalize_recorded : (StoreError ⊎ ScheduleRun) × W → W
  finalize_recorded (inl e, w) = w
  finalize_recorded (inr run, w) = (deps.finish_schedule_run run.id RunStatus.error w).1

  unfoldable pub record_failed_schedule_run : Text → W → W
  record_failed_schedule_run id w = finalize_recorded (deps.create_schedule_run id [] w)

  -- The answer of CreateFromCronAgent.
  unfoldable pub agent_created : CronAgent → (Text ⊎ Agent) × W → W
  agent_created ca (inl e, w) = record_failed_schedule_run ca.id w
  agent_created ca (inr a, w) = (deps.create_schedule_run ca.id a.id w).1

  -- The answer of GetTemplate for a cron agent that is due.
  unfoldable pub template_loaded : CronAgent → StoreError ⊎ Template → W → W
  template_loaded ca (inl e) w = record_failed_schedule_run ca.id w
  template_loaded ca (inr tmpl) w =
      if text_eq tmpl.harness harness_open_code
      then record_failed_schedule_run ca.id w
      else agent_created ca (deps.create_from_cron_agent ca w)

  unfoldable pub finish_with : CronAgent → ScheduleRun → RunStatus → W → W
  finish_with ca run status w =
      (deps.finish_schedule_run run.id status (deps.apply_on_complete ca run w).1).1

  unfoldable pub finish_loaded : StoreError ⊎ CronAgent → ScheduleRun → RunStatus → W → W
  finish_loaded (inl e) run status w =
      if not (is_not_found e) then w else finish_with no_cron_agent run status w
  finish_loaded (inr ca) run status w = finish_with ca run status w

  unfoldable pub finish_scheduled_run : ScheduleRun → RunStatus → W → W
  finish_scheduled_run run status w =
      finish_loaded (deps.get_cron_agent run.cron_agent_id w) run status w

  -- The answer of CheckScheduledRunStatus.
  unfoldable pub run_checked : ScheduleRun → (Text ⊎ RunCheck) × W → W
  run_checked run (inl e, w) = w
  run_checked run (inr RunCheck.running, w) = w
  run_checked run (inr RunCheck.failed, w) = finish_scheduled_run run RunStatus.error w
  run_checked run (inr RunCheck.gone, w) = (deps.finish_schedule_run run.id RunStatus.error w).1
  run_checked run (inr RunCheck.done, w) = finish_scheduled_run run RunStatus.success w
  run_checked run (inr (RunCheck.other t), w) = finish_scheduled_run run RunStatus.success w

  unfoldable pub check_run : ScheduleRun → W → W
  check_run run w =
      if ltb_ℤ (pos max_scheduled_run_duration) (sub_time (deps.clock w) run.started_at)
      then finish_scheduled_run run RunStatus.error w
      else run_checked run (deps.check_scheduled_run_status run w)

  unfoldable pub check_runs : List ScheduleRun → W → W
  check_runs [] w = w
  check_runs (run ∷ runs) w = check_runs runs (check_run run w)

  unfoldable pub check_running_schedules : W → W
  check_running_schedules w = elim (deps.list_schedule_runs_by_status RunStatus.running w) [
    | inl e ↦ w
    | inr runs ↦ check_runs runs w
  ]

module _ {W : Type 0} ⦃cron : Cron⦄ (deps : Deps W) where
  unfoldable pub fire_cron_agent : ℕ → CronAgent → W → W
  fire_cron_agent now ca w =
      if text_eq ca.schedule [] || not ca.enabled
      then w
      else elim (deps.list_schedule_runs_by_cron_agent ca.id w) [
        | inl e ↦ w
        | inr runs ↦
            if not (cron_agent_due ca (last_of runs) now)
            then w
            else template_loaded deps ca (deps.get_template ca.template_id w) w
      ]

  unfoldable pub fire_cron_agents : ℕ → List CronAgent → W → W
  fire_cron_agents now [] w = w
  fire_cron_agents now (ca ∷ cas) w = fire_cron_agents now cas (fire_cron_agent now ca w)

  unfoldable pub fire_due_cron_agents : W → W
  fire_due_cron_agents w = elim (deps.list_cron_agents w) [
    | inl e ↦ w
    | inr cas ↦ fire_cron_agents (deps.clock w) cas w
  ]

  unfoldable pub run_scheduling_tick_once : W → W
  run_scheduling_tick_once w = check_running_schedules deps (fire_due_cron_agents w)
