-- ===== src/Controller/Status/Guard.antt =====
-- operator/internal/controller/status.go: what the guard of writeStatus lets through.
use mathlib.Core.Bool.{xor}
use ai_sandbox.Base.{
  ℕ, Bool, ◌≡◌, ◌≢◌, ◌↔◌, ◌⊎◌, none, some, inl, inr, Text, is_some, arith, true, false, Bool-cases,
  refl, sym, Option-cases,
}
use ai_sandbox.Api.Phase.{eq_of_phase_eq, phase_eq_refl}
use ai_sandbox.Api.Condition.{ApiMachinery}
use ai_sandbox.Api.Environment.{SandboxEnvironment}
use ai_sandbox.Api.Equality.{SemanticEquality}
use ai_sandbox.Lifecycle.Decision.{Decision}
use ai_sandbox.Lifecycle.Apply.{apply}
use ai_sandbox.Controller.Status.{WriteResult, ApiServer, superseded, write_attempt, write_status}

-- Two states of the object that a decision does not tell apart.
abbrev pub Agrees : SandboxEnvironment → SandboxEnvironment → Type 0
Agrees env fresh =
    (fresh.generation ≡ env.generation)
    × (fresh.status.phase ≡ env.status.phase)
    × (fresh.status.wait_for ≡ env.status.wait_for)
    × (is_some fresh.status.snapshot ≡ is_some env.status.snapshot)
    × (fresh.status.probe_attempt ≡ env.status.probe_attempt)

not_both : {b : Bool} → b ≡ false → b ≡ true → ⊥
not_both f t = ground arith

module _ ⦃k : ApiMachinery⦄ ⦃q : SemanticEquality⦄ where
  pub superseded_iff :
      (env fresh : SandboxEnvironment) → (superseded env fresh ≡ false) ↔ Agrees env fresh
  unfolding superseded xor
  superseded_iff env fresh = ground (
    arith,
    eq_of_phase_eq fresh.status.phase env.status.phase,
    phase_eq_refl env.status.phase,
    q.wait_for_equal_iff fresh.status.wait_for env.status.wait_for,
    q.probe_attempt_equal_iff fresh.status.probe_attempt env.status.probe_attempt,
  )

  -- What each result of a write says of the attempt that it stands for.
  abbrev pub Written : SandboxEnvironment → Decision → ApiServer → WriteResult → Type 0
  Written env d server (WriteResult.get_failed e) = (n : ℕ) × (server.get n ≡ inl e)
  Written env d server WriteResult.stale =
      (n : ℕ) × (fresh : SandboxEnvironment) × (server.get n ≡ inr fresh) × ¬ Agrees env fresh
  Written env d server (WriteResult.unchanged fresh) =
      (n : ℕ) × (server.get n ≡ inr fresh) × Agrees env fresh × (apply fresh d ≡ fresh.status)
  Written env d server (WriteResult.update_failed e) =
      (n : ℕ) × (fresh : SandboxEnvironment) × (server.get n ≡ inr fresh)
      × Agrees env fresh
      × (server.update n (record fresh { status = apply fresh d }) ≡ some e)
  Written env d server (WriteResult.updated env') =
      (n : ℕ) × (fresh : SandboxEnvironment) × (server.get n ≡ inr fresh)
      × Agrees env fresh
      × (env' ≡ record fresh { status = apply fresh d })
      × (env'.status ≢ fresh.status)
      × (server.update n env' ≡ none)

  module _ (env : SandboxEnvironment) (d : Decision) (server : ApiServer) where
    write_desired :
        (n : ℕ) (fresh : SandboxEnvironment)
        → server.get n ≡ inr fresh
        → Agrees env fresh
        → Written env d server (write_attempt env d (inr fresh) (server.update n))
    unfolding write_attempt
    write_desired n fresh g a =
        let desired = apply fresh d in
        let same = q.status_equal_iff fresh.status desired in
        let s = (superseded_iff env fresh).1 a in
        elim (Bool-cases (q.status_equal fresh.status desired)) [
          | inl e ↦ rw (s, e) (n, g, a, sym (same.0 e))
          | inr e ↦
              let new : desired ≢ fresh.status = λ h. not_both e (same.1 (sym h)) in
              elim (Option-cases (server.update n (record fresh { status = desired }))) [
                | inl o ↦ rw (s, e, o) (n, fresh, g, a, refl, new, o)
                | inr (x, o) ↦ rw (s, e, o) (n, fresh, g, a, o)
              ]
        ]

    write_fresh :
        (n : ℕ) (answer : Text ⊎ SandboxEnvironment)
        → server.get n ≡ answer
        → Written env d server (write_attempt env d answer (server.update n))
    unfolding write_attempt
    write_fresh n (inl e) g = (n, g)
    write_fresh n (inr fresh) g = elim (Bool-cases (superseded env fresh)) [
      | inl e ↦ rw e (n, fresh, g, λ a. not_both ((superseded_iff env fresh).1 a) e)
      | inr e ↦ write_desired n fresh g ((superseded_iff env fresh).0 e)
    ]

    -- A decision is written only over an object that agrees with the one decided from in generation,
    -- phase, declared wait, presence of a snapshot and probe attempt, and only where that changes the
    -- status; otherwise the write ends stale, unchanged or with the error of the API server, as the
    -- attempt that it returns from says. It assumes that RetryOnConflict returns the result of one of
    -- the attempts.
    pub write_status-Written :
        (retry_on_conflict : (ℕ → WriteResult) → WriteResult)
        → ((f : ℕ → WriteResult) → (n : ℕ) × (retry_on_conflict f ≡ f n))
        → Written env d server (write_status retry_on_conflict server env d)
    unfolding write_status
    write_status-Written retry_on_conflict attempts =
        let (n, e) = attempts (λ n. write_attempt env d (server.get n) (server.update n)) in
        rw e (write_fresh n (server.get n) refl)
