-- ===== src/Lifecycle/Next/Documented.antt =====
-- Every reason that a decision writes is one of conditions.go's list AllReasons.
use ai_sandbox.Base.{
  ℕ, ◌≡◌, refl, inl, inr, Bool, true, false, Option, none, some, Text, All, All-mono, sym, ◌∙◌,
  is_some, if◌then◌else◌, Option-cases, arith,
}
use ai_sandbox.Api.Phase.{Phase}
use ai_sandbox.Api.Condition.{ConditionType, ConditionStatus, Reason, Condition, ApiMachinery}
use ai_sandbox.Api.Environment.{SandboxEnvironment}
use ai_sandbox.Lifecycle.Facts.{ClusterFacts, StepFailure}
use ai_sandbox.Lifecycle.Decision.{Action, StatusPatch, Decision}
use ai_sandbox.Lifecycle.Builder.{
  Builder, new_builder, phase, slot, act, patch, cond, condition_for, build,
}
use ai_sandbox.Lifecycle.Reasons.{
  all_reasons, lists, documented, lists-documented, documented-sanitize_pod,
  documented-sanitize_step,
}
use ai_sandbox.Lifecycle.Defaults.{
  Default, pod_ready_on_failure, ready_on_failure, default_wait_satisfied, default_for,
}
use ai_sandbox.Lifecycle.Timeouts.{fired_timeout_reason, timed_out}
use ai_sandbox.Lifecycle.Next.{terminal, terminal_outcome, count_wake, hold, next, current_phase}
use ai_sandbox.Lifecycle.Next.Cases.{Stage, decide-Stage}
use ai_sandbox.Lifecycle.Next.Phases.{
  dispatch_phase, next_pending, next_ready, next_restoring, next_running, next_freezing,
  next_waiting, await_probe, probe_unevaluatable, detour_return,
}

abbrev pub IsDocumented : Reason → Type 0
IsDocumented r = documented r ≡ true

-- The condition types whose stored reason a decision can carry forward.
abbrev pub carried : ConditionType → Bool
carried ConditionType.pod_ready = true
carried ConditionType.wait_satisfied = true
carried ConditionType.ready = true
carried _ = false

-- The conditions of these types that an environment carries have documented reasons.
abbrev pub StoredDocumented : ⦃k : ApiMachinery⦄ → SandboxEnvironment → Type 0
StoredDocumented ⦃k⦄ env =
    (t : ConditionType) (c : Condition)
    → carried t ≡ true
    → k.find_status_condition env.status.conditions t ≡ some c
    → IsDocumented c.reason

-- Every reason of a decision is documented.
pub DocDecision : Decision → Type 0
DocDecision d = All (λ c. IsDocumented c.reason) d.conditions

-- Branches of a decision's code.
if-DocDecision :
    (c : Bool) (d e : Decision) → DocDecision d → DocDecision e → DocDecision (if c then d else e)
if-DocDecision true d e hd he = hd
if-DocDecision false d e hd he = he

option-DocDecision :
    {A : Type 0} (o : Option A) (d : Decision) (f : A → Decision)
    → DocDecision d
    → ((a : A) → DocDecision (f a))
    → DocDecision (elim o [ none ↦ d | some a ↦ f a ])
option-DocDecision none d f hd hf = hd
option-DocDecision (some a) d f hd hf = hf a

if-IsDocumented :
    (c : Bool) (r q : Reason) → IsDocumented r → IsDocumented q → IsDocumented (if c then r else q)
if-IsDocumented true r q hr hq = hr
if-IsDocumented false r q hr hq = hq

module _ ⦃k : ApiMachinery⦄ (env : SandboxEnvironment) (facts : ClusterFacts)
    (stored : StoredDocumented env) where
  failed_pod_ready : IsDocumented (pod_ready_on_failure env facts).1
  unfolding pod_ready_on_failure documented
  failed_pod_ready = elim (Option-cases facts.pod_failure) [
    | inr (failure, p) ↦ ground (arith, documented-sanitize_pod failure.reason)
    | inl p ↦
        elim (Option-cases
          (k.find_status_condition env.status.conditions ConditionType.pod_ready)) [
            | inl e ↦ ground arith
            | inr (c, e) ↦ ground (arith, stored ConditionType.pod_ready c refl e)
          ]
  ]

  failed_ready : IsDocumented (ready_on_failure env facts).1
  unfolding ready_on_failure documented
  failed_ready = elim (Option-cases facts.pod_failure) [
    | inr (failure, p) ↦ ground (arith, documented-sanitize_pod failure.reason)
    | inl p ↦ elim (Option-cases facts.wait_probe_failure) [
      | inr (failure, w) ↦ ground (arith, documented-sanitize_step failure.reason)
      | inl w ↦
          elim (Option-cases (k.find_status_condition env.status.conditions ConditionType.ready)) [
            | inl e ↦ ground arith
            | inr (c, e) ↦ ground (arith, stored ConditionType.ready c refl e)
          ]
    ]
  ]

  waiting_probe : (ph : Phase) → IsDocumented (default_wait_satisfied ph env facts).1
  unfolding default_wait_satisfied documented
  waiting_probe ph = elim (Option-cases facts.wait_probe_failure) [
    | inr (failure, w) ↦ ground (arith, documented-sanitize_step failure.reason)
    | inl w ↦
        elim (Option-cases
          (k.find_status_condition env.status.conditions ConditionType.wait_satisfied)) [
            | inl e ↦ ground arith
            | inr (c, e) ↦ ground (arith, stored ConditionType.wait_satisfied c refl e)
          ]
  ]

  default-IsDocumented :
      (t : ConditionType) (ph : Phase) → IsDocumented (default_for t ph env facts).1
  unfolding default_for documented
  default-IsDocumented ConditionType.scheduled Phase.pending = ground arith
  default-IsDocumented ConditionType.scheduled _ = ground arith
  default-IsDocumented ConditionType.pod_ready Phase.failed = failed_pod_ready
  default-IsDocumented ConditionType.pod_ready _ = ground arith
  default-IsDocumented ConditionType.frozen Phase.waiting = ground arith
  default-IsDocumented ConditionType.frozen _ = ground arith
  default-IsDocumented ConditionType.wait_satisfied ph = waiting_probe ph
  default-IsDocumented ConditionType.archived ph = ground arith
  default-IsDocumented ConditionType.ready Phase.failed = failed_ready
  default-IsDocumented ConditionType.ready _ = ground arith
  default-IsDocumented (ConditionType.other s) ph = refl

  -- A builder under construction: its environment and facts are the given ones, and its explicit
  -- conditions are documented.
  record DocBuilder (b : Builder) : Type 0 where
    same_env : b.env ≡ env
    same_facts : b.facts ≡ facts
    explicit_documented :
        (t : ConditionType) (c : Default) → b.explicit t ≡ some c → IsDocumented c.1

  new-DocBuilder : (now : ℕ) → DocBuilder (new_builder env facts now)
  unfolding new_builder
  new-DocBuilder now = record {
    same_env = refl;
    same_facts = refl;
    explicit_documented = λ t c e. cc;
  }

  phase-DocBuilder : (p : Phase) (b : Builder) → DocBuilder b → DocBuilder (phase p b)
  unfolding phase
  phase-DocBuilder p b h = record {
    same_env = h.same_env;
    same_facts = h.same_facts;
    explicit_documented = h.explicit_documented;
  }

  slot-DocBuilder : (want : Bool) (b : Builder) → DocBuilder b → DocBuilder (slot want b)
  unfolding slot
  slot-DocBuilder want b h = record {
    same_env = h.same_env;
    same_facts = h.same_facts;
    explicit_documented = h.explicit_documented;
  }

  act-DocBuilder : (a : Action) (b : Builder) → DocBuilder b → DocBuilder (act a b)
  unfolding act
  act-DocBuilder a b h = record {
    same_env = h.same_env;
    same_facts = h.same_facts;
    explicit_documented = h.explicit_documented;
  }

  patch-DocBuilder : (p : StatusPatch) (b : Builder) → DocBuilder b → DocBuilder (patch p b)
  unfolding patch
  patch-DocBuilder p b h = record {
    same_env = h.same_env;
    same_facts = h.same_facts;
    explicit_documented = h.explicit_documented;
  }

  cond-DocBuilder :
      (t : ConditionType) (s : ConditionStatus) (r : Reason) (m : Text) (b : Builder)
      → IsDocumented r
      → DocBuilder b
      → DocBuilder (cond t s r m b)
  unfolding cond
  cond-DocBuilder t s r m b d h = record {
    same_env = h.same_env;
    same_facts = h.same_facts;
    explicit_documented = λ u c e. ground (arith, h.explicit_documented u c);
  }

  condition_for-IsDocumented :
      (b : Builder) (t : ConditionType) → DocBuilder b → IsDocumented (condition_for b t).reason
  unfolding condition_for
  condition_for-IsDocumented b t h = elim (Option-cases (b.explicit t)) [
    | inr (c, e) ↦ rw (e, condition_for) (h.explicit_documented t c e)
    | inl e ↦ rw (e, condition_for, h.same_env, h.same_facts) (default-IsDocumented t b.ph)
  ]

  build-DocDecision : (b : Builder) → DocBuilder b → DocDecision (build b)
  unfolding build DocDecision
  build-DocDecision b h = (
    condition_for-IsDocumented b _ h,
    (
      condition_for-IsDocumented b _ h,
      (
        condition_for-IsDocumented b _ h,
        (
          condition_for-IsDocumented b _ h,
          (condition_for-IsDocumented b _ h, (condition_for-IsDocumented b _ h, tt)),
        ),
      ),
    ),
  )

  ruleset builder_rules = (
    new-DocBuilder, phase-DocBuilder, slot-DocBuilder, act-DocBuilder, patch-DocBuilder,
    cond-DocBuilder, build-DocDecision, if-DocDecision, if-IsDocumented, refl,
  )

  next_pending-DocDecision : (now : ℕ) → DocDecision (next_pending env facts now)
  unfolding documented next_pending
  next_pending-DocDecision now = search builder_rules depth 12

  next_ready-DocDecision : (now : ℕ) → DocDecision (next_ready env facts now)
  unfolding documented next_ready
  next_ready-DocDecision now = search builder_rules depth 12

  next_restoring-DocDecision : (now : ℕ) → DocDecision (next_restoring env facts now)
  unfolding documented next_restoring
  next_restoring-DocDecision now = search builder_rules depth 16

  next_running-DocDecision : (now : ℕ) → DocDecision (next_running env facts now)
  unfolding documented next_running
  next_running-DocDecision now = search builder_rules depth 16

  next_freezing-DocDecision : (now : ℕ) → DocDecision (next_freezing env facts now)
  unfolding documented next_freezing
  next_freezing-DocDecision now =
      option-DocDecision facts.snapshot_failure _ _ (search builder_rules depth 16)
        (λ failure. search builder_rules depth 16)

  await_probe-DocDecision : (now : ℕ) → DocDecision (await_probe env facts now)
  unfolding documented await_probe
  await_probe-DocDecision now = search builder_rules depth 16

  probe_unevaluatable-DocDecision :
      (now : ℕ) (failure : StepFailure) → DocDecision (probe_unevaluatable env facts now failure)
  unfolding probe_unevaluatable
  probe_unevaluatable-DocDecision now failure =
      search (builder_rules, documented-sanitize_step failure.reason) depth 16

  detour_return-DocDecision : (now : ℕ) → DocDecision (detour_return env facts now)
  unfolding detour_return
  detour_return-DocDecision now = search builder_rules depth 16

  next_waiting-DocDecision : (now : ℕ) → DocDecision (next_waiting env facts now)
  unfolding next_waiting
  next_waiting-DocDecision now =
      if-DocDecision (is_some env.status.finished_at) _ _ (detour_return-DocDecision now) (
        option-DocDecision facts.wait_probe_failure _ _ (await_probe-DocDecision now)
          (probe_unevaluatable-DocDecision now))

  terminal-DocDecision : (now : ℕ) (ph : Phase) → DocDecision (terminal env facts now ph)
  unfolding documented terminal
  terminal-DocDecision now ph = search builder_rules depth 16

  terminal_outcome-DocDecision :
      (now : ℕ) (end : Phase) (delete_pod : Bool)
      → DocDecision (terminal_outcome env facts now end delete_pod)
  unfolding terminal_outcome
  terminal_outcome-DocDecision now end delete_pod = search builder_rules depth 16

  outcome-DocDecision :
      (now : ℕ) (ph end : Phase) (delete_pod : Bool)
      → DocDecision (count_wake env ph (terminal_outcome env facts now end delete_pod))
  unfolding count_wake DocDecision
  outcome-DocDecision now ph end delete_pod =
      let base = terminal_outcome-DocDecision now end delete_pod in if-DocDecision _ _ _ base base

  timed_out-DocDecision :
      (now : ℕ) (r : Reason) → IsDocumented r → DocDecision (timed_out env facts now r)
  unfolding timed_out
  timed_out-DocDecision now r h = search builder_rules depth 16

  hold-DocDecision : (now : ℕ) (ph : Phase) → DocDecision (hold env facts now ph)
  unfolding documented hold
  hold-DocDecision now ph = search builder_rules depth 16

  dispatch-DocDecision : (now : ℕ) (ph : Phase) → DocDecision (dispatch_phase env facts now ph)
  unfolding dispatch_phase
  dispatch-DocDecision now Phase.pending = next_pending-DocDecision now
  dispatch-DocDecision now Phase.ready = next_ready-DocDecision now
  dispatch-DocDecision now Phase.restoring = next_restoring-DocDecision now
  dispatch-DocDecision now Phase.running = next_running-DocDecision now
  dispatch-DocDecision now Phase.freezing = next_freezing-DocDecision now
  dispatch-DocDecision now Phase.waiting = next_waiting-DocDecision now
  dispatch-DocDecision now _ = next_pending-DocDecision now

  fired-IsDocumented :
      (now : ℕ) (ph : Phase) (r : Reason)
      → fired_timeout_reason env facts now ph ≡ some r
      → IsDocumented r
  unfolding fired_timeout_reason documented
  fired-IsDocumented now ph r e = ground arith

  Stage-DocDecision :
      (now : ℕ) (ph : Phase) (d : Decision) → Stage env facts now ph d → DocDecision d
  Stage-DocDecision now ph d (Stage.ended t e) = rw e (terminal-DocDecision now ph)
  Stage-DocDecision now ph d (Stage.outcome end delete_pod o e) =
      rw e (outcome-DocDecision now ph end delete_pod)
  Stage-DocDecision now ph d (Stage.clock r f e) =
      rw e (timed_out-DocDecision now r (fired-IsDocumented now ph r f))
  Stage-DocDecision now ph d (Stage.held c e) = rw e (hold-DocDecision now ph)
  Stage-DocDecision now ph d (Stage.dispatched e) = rw e (dispatch-DocDecision now ph)

-- Where the PodReady, WaitSatisfied and Ready conditions of an environment, those that it has, carry
-- reasons of the list AllReasons, so do all the conditions of a decision for it, whatever reasons the pod, the snapshot and the probe report.
pub next-documented :
    ⦃k : ApiMachinery⦄
    → (env : SandboxEnvironment) (facts : ClusterFacts) (now : ℕ)
    → ((t : ConditionType) (c : Condition)
        → carried t ≡ true
        → k.find_status_condition env.status.conditions t ≡ some c
        → lists all_reasons c.reason ≡ true)
    → All (λ c. lists all_reasons c.reason ≡ true) (next env facts now).conditions
unfolding next DocDecision
next-documented env facts now stored =
    All-mono (λ c h. lists-documented c.reason ∙ h) _
      (Stage-DocDecision env facts (λ t c f e. sym (lists-documented c.reason) ∙ stored t c f e) now
        (current_phase env) _ (decide-Stage env facts now (current_phase env)))
