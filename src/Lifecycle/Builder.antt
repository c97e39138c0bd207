-- ===== src/Lifecycle/Builder.antt =====
-- operator/internal/lifecycle/builder.go: the builder that assembles a decision.
use ai_sandbox.Base.{
  ℕ, Bool, false, ◌||◌, List, [], ◌∷◌, ◌++◌, Option, none, some, Text, if◌then◌else◌, map,
}
use ai_sandbox.Base.Int.{ℤ, pos}
use ai_sandbox.Api.Phase.{Phase, phase_eq}
use ai_sandbox.Api.Condition.{
  ConditionType, ConditionStatus, Reason, Condition, ApiMachinery, type_eq,
}
use ai_sandbox.Api.Environment.{SandboxEnvironment}
use ai_sandbox.Lifecycle.Facts.{ClusterFacts}
use ai_sandbox.Lifecycle.Decision.{Action, StatusPatch, empty_patch, Decision}
use ai_sandbox.Lifecycle.Reasons.{condition_types}
use ai_sandbox.Lifecycle.Defaults.{Default, default_for}

-- `explicit` is Go's map from condition types to the conditions that cond() set.
pub record Builder : Type 0 where
  pub env : SandboxEnvironment
  pub facts : ClusterFacts
  pub now : ℕ
  pub ph : Phase
  pub explicit : ConditionType → Option Default
  pub actions : List Action
  pub slot_wanted : Bool
  pub status_patch : StatusPatch
  pub requeue : ℤ

unfoldable pub new_builder : SandboxEnvironment → ClusterFacts → ℕ → Builder
new_builder env facts now = record {
  env = env;
  facts = facts;
  now = now;
  ph = Phase.unset;
  explicit = λ _. none;
  actions = [];
  slot_wanted = false;
  status_patch = empty_patch;
  requeue = pos 0;
}

unfoldable pub phase : Phase → Builder → Builder
phase p b = record b { ph = p }

unfoldable pub cond : ConditionType → ConditionStatus → Reason → Text → Builder → Builder
unfolding type_eq
cond cond_type status reason message b = record b {
  explicit = λ t. if type_eq cond_type t then some (status, reason, message) else b.explicit t;
}

unfoldable pub act : Action → Builder → Builder
act action b = record b { actions = b.actions ++ action ∷ [] }

unfoldable pub slot : Bool → Builder → Builder
slot want b = record b { slot_wanted = want }

-- `if p.X != nil { b.X = p.X }`.
abbrev pub or_keep {ℓ} : {A : Type ℓ} → Option A → Option A → Option A
or_keep none old = old
or_keep (some a) old = some a

-- `if s != "" { b.X = s }`.
abbrev pub text_or_keep : Text → Text → Text
text_or_keep [] old = old
text_or_keep (c ∷ s) old = c ∷ s

unfoldable pub patch : StatusPatch → Builder → Builder
unfolding phase_eq
patch p b = record b { status_patch = patched }
  where
    open b use {status_patch}

    patched : StatusPatch
    patched = record {
      set_queued_since = or_keep p.set_queued_since status_patch.set_queued_since;
      set_started_at = or_keep p.set_started_at status_patch.set_started_at;
      set_finished_at = or_keep p.set_finished_at status_patch.set_finished_at;
      increment_freeze_count = p.increment_freeze_count || status_patch.increment_freeze_count;
      increment_wake_count = p.increment_wake_count || status_patch.increment_wake_count;
      clear_wait_for = p.clear_wait_for || status_patch.clear_wait_for;
      set_archive_uri = text_or_keep p.set_archive_uri status_patch.set_archive_uri;
      set_terminal_phase =
          if phase_eq p.set_terminal_phase Phase.unset
          then status_patch.set_terminal_phase
          else p.set_terminal_phase;
      set_probe_attempt = or_keep p.set_probe_attempt status_patch.set_probe_attempt;
    }

module _ ⦃k : ApiMachinery⦄ where
  -- One round of build()'s loop: the explicit values of a type, or its default.
  unfoldable pub condition_for : Builder → ConditionType → Condition
  condition_for b t =
      let chosen : Default = elim (b.explicit t) [
        | some c ↦ c
        | none ↦ default_for t b.ph b.env b.facts
      ] in
      record {
        type = t;
        status = chosen.0;
        reason = chosen.1;
        message = chosen.2;
        observed_generation = b.env.generation;
        last_transition_time = k.rfc3339_copy b.now;
      }

  unfoldable pub build : Builder → Decision
  unfolding condition_for
  build b = record {
    phase = b.ph;
    conditions = map (condition_for b) condition_types;
    actions = b.actions;
    slot_wanted = b.slot_wanted;
    status_patch = b.status_patch;
    requeue_after = b.requeue;
  }
