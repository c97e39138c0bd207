-- ===== src/Lifecycle/Next/Conditions.antt =====
-- The conditions that a decision carries.
use ai_sandbox.Base.{ℕ, ◌≡◌, Bool, false, ◌&&◌, List, [], ◌∷◌, map, All, if◌then◌else◌, arith}
use ai_sandbox.Api.Phase.{Phase, phase_eq}
use ai_sandbox.Api.Condition.{
  ConditionType, ConditionStatus, Condition, ApiMachinery, type_eq, status_eq,
}
use ai_sandbox.Api.Environment.{SandboxEnvironment}
use ai_sandbox.Lifecycle.Facts.{ClusterFacts}
use ai_sandbox.Lifecycle.Decision.{Decision}
use ai_sandbox.Lifecycle.Defaults.{default_for}
use ai_sandbox.Lifecycle.Reasons.{condition_types}
use ai_sandbox.Lifecycle.Timeouts.{timed_out}
use ai_sandbox.Lifecycle.Next.{
  terminal, terminal_outcome, agent_or_pod_outcome, count_wake, hold, decide, next, current_phase,
  stages,
}
use ai_sandbox.Lifecycle.Next.Cases.{Stage, decide-Stage}
use ai_sandbox.Lifecycle.Next.Phases.{dispatch_phase}

-- The status of the first condition of a type; Unknown where there is none.
unfoldable pub status_in : ConditionType → List Condition → ConditionStatus
unfolding type_eq
status_in t [] = ConditionStatus.unknown
status_in t (c ∷ cs) = if type_eq c.type t then c.status else status_in t cs

unfoldable pub is_true : ConditionType → List Condition → Bool
unfolding status_in status_eq
is_true t cs = status_eq (status_in t cs) ConditionStatus.true_

module _ ⦃k : ApiMachinery⦄ (env : SandboxEnvironment) (facts : ClusterFacts) (now : ℕ) where
  -- The stamp that build() puts on each condition.
  abbrev pub IsStamped : Condition → Type 0
  IsStamped c =
      (c.observed_generation ≡ env.generation) × (c.last_transition_time ≡ k.rfc3339_copy now)

  decide-stamps :
      (ph : Phase)
      → let d = decide env facts now ph in
        (map (λ c. c.type) d.conditions ≡ condition_types) × All IsStamped d.conditions
  unfolding stages
  decide-stamps (Phase.other s) = ground arith
  decide-stamps _ = ground arith

  -- A decision has one condition of each type, in the canonical order, each stamped with the
  -- generation and with the decision's time to the second.
  next-stamps :
      let d = next env facts now in
      (map (λ c. c.type) d.conditions ≡ condition_types) × All IsStamped d.conditions
  unfolding next
  next-stamps = decide-stamps (current_phase env)

  -- Frozen is True exactly in Waiting.
  abbrev FrozenFits : Decision → Type 0
  FrozenFits d = is_true ConditionType.frozen d.conditions ≡ phase_eq d.phase Phase.waiting

  dispatch-FrozenFits : (ph : Phase) → FrozenFits (dispatch_phase env facts now ph)
  unfolding is_true default_for dispatch_phase
  dispatch-FrozenFits (Phase.other s) = ground arith
  dispatch-FrozenFits _ = ground arith

  Stage-FrozenFits : (ph : Phase) (d : Decision) → Stage env facts now ph d → FrozenFits d
  unfolding is_true default_for terminal terminal_outcome count_wake timed_out hold
      agent_or_pod_outcome
  Stage-FrozenFits ph d (Stage.ended t e) = ground arith
  Stage-FrozenFits ph d (Stage.outcome end delete_pod o e) = ground arith
  Stage-FrozenFits ph d (Stage.clock r f e) = ground arith
  Stage-FrozenFits ph d (Stage.held c e) = ground arith
  Stage-FrozenFits ph d (Stage.dispatched e) = rw e (dispatch-FrozenFits ph)

  -- PodReady is True exactly where the pod of a Running environment was observed; a Failed one
  -- is left out, since it may carry an earlier condition forward.
  abbrev PodReadyFits : Decision → Type 0
  PodReadyFits d =
      phase_eq d.phase Phase.failed ≡ false
      → is_true ConditionType.pod_ready d.conditions
        ≡ (phase_eq d.phase Phase.running && facts.pod_observed)

  dispatch-PodReadyFits : (ph : Phase) → PodReadyFits (dispatch_phase env facts now ph)
  unfolding is_true default_for dispatch_phase
  dispatch-PodReadyFits (Phase.other s) f = ground arith
  dispatch-PodReadyFits _ f = ground arith

  Stage-PodReadyFits : (ph : Phase) (d : Decision) → Stage env facts now ph d → PodReadyFits d
  unfolding is_true default_for terminal terminal_outcome count_wake timed_out hold
      agent_or_pod_outcome
  Stage-PodReadyFits ph d (Stage.ended t e) f = ground arith
  Stage-PodReadyFits ph d (Stage.outcome end delete_pod o e) f = ground arith
  Stage-PodReadyFits ph d (Stage.clock r c e) f = ground arith
  Stage-PodReadyFits ph d (Stage.held c e) f = ground arith
  Stage-PodReadyFits ph d (Stage.dispatched e) f = rw e (dispatch-PodReadyFits ph (rw e at f))

  -- The anchors of the timeout clocks: Frozen is True exactly in a decision for Waiting, and
  -- PodReady, in a decision for another phase than Failed, exactly for Running with the pod observed.
  pub next-anchors :
      let d = next env facts now in
      (is_true ConditionType.frozen d.conditions ≡ phase_eq d.phase Phase.waiting)
      × (phase_eq d.phase Phase.failed ≡ false
          → is_true ConditionType.pod_ready d.conditions
            ≡ (phase_eq d.phase Phase.running && facts.pod_observed))
  unfolding next
  next-anchors = (
    Stage-FrozenFits (current_phase env) _ (decide-Stage env facts now (current_phase env)),
    Stage-PodReadyFits (current_phase env) _ (decide-Stage env facts now (current_phase env)),
  )
