-- ===== src/Examples/Slots.antt =====
-- An admission pass over sample environments, whose first grant write meets a conflict.
use ai_sandbox.Base.{ℕ, zero, suc, ◌*◌, ◌+◌, ◌≡◌, refl, [], ◌∷◌, none, some, codes, arith}
use ai_sandbox.Base.Int.{pos}
use ai_sandbox.Api.Phase.{Phase}
use ai_sandbox.Api.Environment.{SandboxEnvironment}
use ai_sandbox.Lifecycle.Facts.{second}
use ai_sandbox.Scheduler.{Grant}
use ai_sandbox.Controller.Slots.{Store, Outcome, Turn, UpdateResult, Retry, grant, run_once}
use ai_sandbox.Controller.Slots.Occupancy.{
  Ran, RetriesOnConflict, WithinCapacity, run_once-WithinCapacity,
}
use ai_sandbox.Controller.Slots.Pass.{Ended, grant-Ended}
use ai_sandbox.Examples.Cluster.{cluster, sandbox, fresh_status, running_env, one_hour_on}

abbrev first_queued : SandboxEnvironment
first_queued =
    record (sandbox
      (record fresh_status { phase = Phase.ready; queued_since = some (1200 * second) })) {
        name = codes "first";
        uid = codes "uid-2";
      }

abbrev second_queued : SandboxEnvironment
second_queued =
    record (sandbox
      (record fresh_status { phase = Phase.ready; queued_since = some (1300 * second) })) {
        name = codes "second";
        uid = codes "uid-3";
      }

abbrev store : Store
store = second_queued ∷ running_env ∷ first_queued ∷ []

abbrev update_of : ℕ → UpdateResult
update_of zero = UpdateResult.conflict
update_of (suc n) = UpdateResult.written

abbrev turns : ℕ → ℕ → Turn
turns i n = record { others = λ s. s; get_error = none; update = update_of n }

abbrev retried : (Store → Outcome × Store) → Outcome × Store → Outcome × Store
retried next (Outcome.conflicted, s) = next s
retried next (outcome, s) = (outcome, s)

-- Two attempts at most.
abbrev twice : Retry
twice f s = retried (f 1) (f 0 s)

retried-Ran :
    (f : ℕ → Store → Outcome × Store) (s : Store) (x : Outcome × Store)
    → f 0 s ≡ x
    → Ran f 0 s (retried (f 1) x)
retried-Ran f s (Outcome.conflicted, s') e = Ran.again e Ran.last
retried-Ran f s (Outcome.granted, s') e = rw⁻¹ e Ran.last
retried-Ran f s (Outcome.skipped, s') e = rw⁻¹ e Ran.last
retried-Ran f s (Outcome.failed x, s') e = rw⁻¹ e Ran.last

twice-Ran : RetriesOnConflict twice
twice-Ran f s = retried-Ran f s (f 0 s) refl

abbrev times : ℕ × ℕ × ℕ
times = (one_hour_on, one_hour_on, one_hour_on + 5 * second)

run_once-WithinCapacity_example :
    let (result, store') = run_once twice (pos 2) (codes "team") times none turns store in
    WithinCapacity (codes "team") (pos 2) store result store'
run_once-WithinCapacity_example =
    run_once-WithinCapacity (codes "team") twice twice-Ran (pos 2) times none turns store
      (λ i n s. omega arith)

abbrev grant_of_first : Grant
grant_of_first = record {
  namespace = codes "team";
  name = codes "first";
  uid = codes "uid-2";
  position = 1;
}

grant-Ended_example :
    let (outcome, store') = grant twice one_hour_on grant_of_first (turns 0) store in
    Ended one_hour_on grant_of_first (turns 0) outcome store'
grant-Ended_example = grant-Ended one_hour_on grant_of_first twice twice-Ran (turns 0) store
