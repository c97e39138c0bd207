-- ===== src/Examples/Controller.antt =====
-- The write of a status at a sample environment.
use ai_sandbox.Base.{refl, none, inl, inr, ◌==◌, codes, true, false, if◌then◌else◌}
use ai_sandbox.Api.Environment.{SandboxEnvironment}
use ai_sandbox.Lifecycle.Decision.{Decision}
use ai_sandbox.Lifecycle.Next.{next, stages, current_phase}
use ai_sandbox.Lifecycle.Facts.{ClusterFacts}
use ai_sandbox.Lifecycle.Timeouts.{fired_timeout_reason, elapsed}
use ai_sandbox.Api.Phase.{Phase}
use ai_sandbox.Controller.Status.{ApiServer, write_status, write_attempt}
use ai_sandbox.Controller.Status.Guard.{Written, write_status-Written}
use ai_sandbox.Controller.Status.Slot.{TakesSlot, hold-slot}
use ai_sandbox.Examples.Equality.{equality}
use ai_sandbox.Examples.Cluster.{cluster, plain_facts, one_hour_on, done_env, sandbox, fresh_status}

-- The first Get fails, the later ones see the object, and every Update succeeds.
abbrev flaky : ApiServer
flaky = record {
  get = λ n. if n == 0 then inl (codes "timeout") else inr done_env;
  update = λ n env. none;
}

abbrev decision : Decision
decision = next done_env plain_facts one_hour_on

write_status-Written_example :
    Written done_env decision flaky (write_status (λ f. f 1) flaky done_env decision)
write_status-Written_example =
    write_status-Written done_env decision flaky (λ f. f 1) (λ f. (1, refl))

-- An environment that waits for a slot, and the same one after the scheduler has granted it.
abbrev queued_env : SandboxEnvironment
queued_env = sandbox (record fresh_status { phase = Phase.ready })

abbrev granted_env : SandboxEnvironment
granted_env = sandbox (record fresh_status {
  phase = Phase.ready;
  slot = record { granted = true; granted_at = none; lease_name = codes "lease" };
})

abbrev no_class : ClusterFacts
no_class = record plain_facts { class_resolved = false }

hold-slot_example :
    TakesSlot
      (λ env. none)
      (write_attempt queued_env
        (next queued_env no_class one_hour_on)
        (inr granted_env)
        (λ env. none))
unfolding stages current_phase fired_timeout_reason elapsed
hold-slot_example =
    hold-slot queued_env granted_env no_class one_hour_on (λ env. none) refl refl refl refl refl
      refl (refl, refl, refl, refl, refl) refl
