-- ===== src/Lifecycle/Next/Cases.antt =====
-- The case split that proofs about whole decisions share: a property of every decision, from the
-- property of each stage of the pipeline.
use mathlib.Core.Path.{subst}
use ai_sandbox.Base.{
  ℕ, ◌≡◌, inl, inr, Bool, true, false, some, is_some, Bool-cases, Option-cases, arith,
}
use ai_sandbox.Api.Phase.{Phase}
use ai_sandbox.Api.Condition.{Reason, ApiMachinery}
use ai_sandbox.Api.Environment.{SandboxEnvironment}
use ai_sandbox.Lifecycle.Facts.{ClusterFacts}
use ai_sandbox.Lifecycle.Decision.{Decision}
use ai_sandbox.Lifecycle.Defaults.{is_terminal}
use ai_sandbox.Lifecycle.Timeouts.{fired_timeout_reason, timed_out, timeout_fired}
use ai_sandbox.Lifecycle.Next.{
  terminal, terminal_outcome, agent_or_pod_outcome, count_wake, agent_or_pod_terminal, hold,
  hold_or_dispatch, decide,
}
use ai_sandbox.Lifecycle.Next.Phases.{dispatch_phase}

module _ ⦃k : ApiMachinery⦄ (env : SandboxEnvironment) (facts : ClusterFacts) (now : ℕ) where
  -- The stage of the pipeline that a decision comes from, with what is known there.
  pub data Stage (ph : Phase) (d : Decision) : Type 0 where
    ended : is_terminal ph ≡ true → d ≡ terminal env facts now ph → Stage ph d
    outcome :
        (end : Phase) (delete_pod : Bool)
        → agent_or_pod_outcome facts ≡ some (end, delete_pod)
        → d ≡ count_wake env ph (terminal_outcome env facts now end delete_pod)
        → Stage ph d
    clock :
        (r : Reason)
        → fired_timeout_reason env facts now ph ≡ some r
        → d ≡ timed_out env facts now r
        → Stage ph d
    held : facts.class_resolved ≡ false → d ≡ hold env facts now ph → Stage ph d
    dispatched : d ≡ dispatch_phase env facts now ph → Stage ph d

  outcome-Stage :
      (ph : Phase) (d : Decision) → agent_or_pod_terminal env facts now ph ≡ some d → Stage ph d
  unfolding agent_or_pod_terminal
  outcome-Stage ph d e = elim (Option-cases (agent_or_pod_outcome facts)) [
    | inl n ↦ absurd (ground arith)
    | inr ((end, delete_pod), o) ↦ Stage.outcome end delete_pod o (ground arith)
  ]

  clock-Stage : (ph : Phase) (d : Decision) → timeout_fired env facts now ph ≡ some d → Stage ph d
  unfolding timeout_fired
  clock-Stage ph d e = elim (Option-cases (fired_timeout_reason env facts now ph)) [
    | inl n ↦ absurd (ground arith)
    | inr (r, f) ↦ Stage.clock r f (ground arith)
  ]

  -- Every decision comes from one of the stages.
  pub decide-Stage : (ph : Phase) → Stage ph (decide env facts now ph)
  unfolding decide hold_or_dispatch
  decide-Stage ph = elim (Bool-cases (is_terminal ph)) [
    | inl t ↦ Stage.ended t (ground arith)
    | inr n ↦ elim (Option-cases (agent_or_pod_terminal env facts now ph)) [
      | inr (d, e) ↦ subst (Stage ph) (ground arith) (outcome-Stage ph d e)
      | inl e ↦ elim (Bool-cases (is_some env.status.finished_at)) [
        | inl f ↦ Stage.dispatched (ground arith)
        | inr f ↦ elim (Option-cases (timeout_fired env facts now ph)) [
          | inr (d, c) ↦ subst (Stage ph) (ground arith) (clock-Stage ph d c)
          | inl c ↦ elim (Bool-cases facts.class_resolved) [
            | inl r ↦ Stage.dispatched (ground arith)
            | inr r ↦ Stage.held r (ground arith)
          ]
        ]
      ]
    ]
  ]
