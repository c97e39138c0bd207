-- ===== src/Lifecycle/Next/Slots.antt =====
-- What a decision declares about the scheduling slot.
use ai_sandbox.Base.{ℕ, ◌≡◌, Bool, true, not, ◌&&◌, ◌||◌, is_some, arith}
use ai_sandbox.Api.Phase.{Phase}
use ai_sandbox.Api.Condition.{ApiMachinery}
use ai_sandbox.Api.Environment.{SandboxEnvironment}
use ai_sandbox.Lifecycle.Facts.{ClusterFacts}
use ai_sandbox.Lifecycle.Next.{decide, next, current_phase, stages}

-- The slot that goes with a decided phase: compute phases hold one, idle phases give it up, and
-- Ready wants one only where the environment is not suspended.
abbrev pub slot_fits : Phase → Bool → Bool → Bool
slot_fits Phase.restoring suspend wanted = wanted
slot_fits Phase.running suspend wanted = wanted
slot_fits Phase.freezing suspend wanted = wanted
slot_fits Phase.ready suspend wanted = not (suspend && wanted)
slot_fits _ suspend wanted = not wanted

module _ ⦃k : ApiMachinery⦄ (env : SandboxEnvironment) (facts : ClusterFacts) (now : ℕ) where
  decide-slot_fits :
      (ph : Phase)
      → (facts.class_resolved || is_some env.status.finished_at) ≡ true
      → let d = decide env facts now ph in slot_fits d.phase env.spec.suspend d.slot_wanted ≡ true
  unfolding stages
  decide-slot_fits (Phase.other s) h = ground arith
  decide-slot_fits _ h = ground arith

  -- Where the class is resolved or the run is over, the slot is wanted in Restoring, Running and
  -- Freezing, not in Pending, Waiting, Done and Failed, and in Ready never while suspended.
  pub next-slot_fits :
      (facts.class_resolved || is_some env.status.finished_at) ≡ true
      → let d = next env facts now in slot_fits d.phase env.spec.suspend d.slot_wanted ≡ true
  unfolding next
  next-slot_fits h = decide-slot_fits (current_phase env) h
