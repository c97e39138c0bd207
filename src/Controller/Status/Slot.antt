-- ===== src/Controller/Status/Slot.antt =====
-- operator/internal/controller/status.go with hold() of operator/internal/lifecycle/next.go: the slot
-- that a write over a newer object leaves.
use ai_sandbox.Base.{
  ℕ, ◌≡◌, true, false, Option, none, some, inl, inr, Text, ap, Bool-cases, Option-cases, arith,
  refl,
}
use ai_sandbox.Api.Condition.{ApiMachinery}
use ai_sandbox.Api.Environment.{SandboxEnvironment}
use ai_sandbox.Api.Equality.{SemanticEquality}
use ai_sandbox.Lifecycle.Facts.{ClusterFacts}
use ai_sandbox.Lifecycle.Decision.{Decision}
use ai_sandbox.Lifecycle.Defaults.{is_terminal}
use ai_sandbox.Lifecycle.Next.{next, current_phase, stages, agent_or_pod_terminal}
use ai_sandbox.Lifecycle.Timeouts.{timeout_fired}
use ai_sandbox.Lifecycle.Apply.{apply, no_slot}
use ai_sandbox.Controller.Status.{WriteResult, write_attempt}
use ai_sandbox.Controller.Status.Guard.{Agrees, superseded_iff}

-- The write takes the slot away, unless the API server refuses it.
abbrev pub TakesSlot : (SandboxEnvironment → Option Text) → WriteResult → Type 0
TakesSlot update (WriteResult.updated env') = env'.status.slot ≡ no_slot
TakesSlot update (WriteResult.update_failed e) =
    (env' : SandboxEnvironment) × (env'.status.slot ≡ no_slot) × (update env' ≡ some e)
TakesSlot update _ = ⊥

module _ ⦃k : ApiMachinery⦄ where
  apply-slot :
      (fresh : SandboxEnvironment) (d : Decision)
      → d.slot_wanted ≡ false
      → (apply fresh d).slot ≡ no_slot
  unfolding apply
  apply-slot fresh d h = rw h refl

  held-slot_wanted :
      (env : SandboxEnvironment) (facts : ClusterFacts) (now : ℕ)
      → facts.class_resolved ≡ false
      → is_terminal (current_phase env) ≡ false
      → env.status.finished_at ≡ none
      → agent_or_pod_terminal env facts now (current_phase env) ≡ none
      → timeout_fired env facts now (current_phase env) ≡ none
      → (next env facts now).slot_wanted ≡ env.status.slot.granted
  unfolding next stages
  held-slot_wanted env facts now c t f a o = ground (arith, c, t, f, a, o)

module _ ⦃k : ApiMachinery⦄ ⦃q : SemanticEquality⦄ where
  -- The guard of writeStatus does not see a slot that is granted in between.
  write_attempt-slot :
      (env fresh : SandboxEnvironment) (d : Decision) (update : SandboxEnvironment → Option Text)
      → Agrees env fresh
      → d.slot_wanted ≡ false
      → fresh.status.slot.granted ≡ true
      → TakesSlot update (write_attempt env d (inr fresh) update)
  unfolding write_attempt
  write_attempt-slot env fresh d update a w g =
      let desired = apply fresh d in
      let lost = apply-slot fresh d w in
      let s = (superseded_iff env fresh).1 a in
      elim (Bool-cases (q.status_equal fresh.status desired)) [
        | inl e ↦
            let same = ap (λ s. s.slot) ((q.status_equal_iff fresh.status desired).0 e) in
            absurd (cc (same, lost, g))
        | inr e ↦ elim (Option-cases (update (record fresh { status = desired }))) [
          | inl o ↦ rw (s, e, o) lost
          | inr (x, o) ↦ rw (s, e, o) (record fresh { status = desired }, lost, o)
        ]
      ]

  -- While the class of an unfinished environment is not resolved and neither agent, pod nor clock ends
  -- the phase, a pass that is decided before the scheduler grants a slot and written after it passes
  -- the guard of writeStatus, as long as the fields that the guard compares are the same, and takes
  -- the granted slot away, unless the API server refuses the write.
  pub hold-slot :
      (env fresh : SandboxEnvironment) (facts : ClusterFacts) (now : ℕ)
      (update : SandboxEnvironment → Option Text)
      → facts.class_resolved ≡ false
      → is_terminal (current_phase env) ≡ false
      → env.status.finished_at ≡ none
      → agent_or_pod_terminal env facts now (current_phase env) ≡ none
      → timeout_fired env facts now (current_phase env) ≡ none
      → env.status.slot.granted ≡ false
      → Agrees env fresh
      → fresh.status.slot.granted ≡ true
      → TakesSlot update (write_attempt env (next env facts now) (inr fresh) update)
  hold-slot env fresh facts now update c t f a o g agrees g' =
      write_attempt-slot env fresh (next env facts now) update agrees
        (rw (held-slot_wanted env facts now c t f a o) g) g'
