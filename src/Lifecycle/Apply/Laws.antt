-- ===== src/Lifecycle/Apply/Laws.antt =====
-- What Apply keeps and bounds: the history, the set-once fields, the counters and the slot.
use ai_sandbox.Base.{
  ℕ, suc, ◌+◌, ◌^◌, ◌<◌, ◌&&◌, Bool, Option, none, some, ◌-◌, ◌≤◌, ◌≡◌, inl, inr, true, false, List,
  [], ◌∷◌, ◌++◌, ltb, length, length-append, length-drop, drop, if◌then◌else◌, Bool-cases, arith,
  refl, ap, sym, ◌∙◌, not,
}
use ai_sandbox.Api.Phase.{Phase, phase_eq, eq_of_phase_eq}
use ai_sandbox.Api.Condition.{ApiMachinery}
use ai_sandbox.Api.Environment.{SandboxEnvironment, SlotStatus, max_phase_history_entries}
use ai_sandbox.Lifecycle.Decision.{StatusPatch, Decision}
use ai_sandbox.Lifecycle.Apply.{
  apply, apply_patch, set_once, increment, keep_last, transition_of, no_slot,
}

module _ {ℓ} {A : Type ℓ} where
  length-keep_last : (cap : ℕ) (xs : List A) → length (keep_last cap xs) ≤ cap
  unfolding keep_last
  length-keep_last cap xs = ground (arith, length-drop (length xs - cap) xs)

  -- A list below its cap grows by the new entry, and a full one drops its oldest for it.
  keep_last-append :
      (cap : ℕ) (xs : List A) (x : A)
      → length xs ≤ cap
      → keep_last cap (xs ++ x ∷ [])
        ≡ (if ltb (length xs) cap then xs ++ x ∷ [] else drop 1 (xs ++ x ∷ []))
  unfolding keep_last
  keep_last-append cap xs x h = elim (Bool-cases (ltb (length xs) cap)) [
    | inl e ↦ ground (arith, length-append xs (x ∷ []))
    | inr e ↦
        let one : length (xs ++ x ∷ []) - cap ≡ 1 = ground (arith, length-append xs (x ∷ [])) in
        rw (e, one) (ground (arith, length-append xs (x ∷ [])))
  ]

module _ ⦃k : ApiMachinery⦄ (env : SandboxEnvironment) (d : Decision) where
  -- The history keeps its cap; it changes exactly with the phase, and then ends in the new phase.
  pub apply_history_bounds :
      length env.status.phase_history ≤ max_phase_history_entries
      → let s = apply env d in
        (length s.phase_history ≤ max_phase_history_entries)
        × (phase_eq d.phase env.status.phase ≡ true → s.phase_history ≡ env.status.phase_history)
        × (phase_eq d.phase env.status.phase ≡ false
            → s.phase_history ≡ (
                if ltb (length env.status.phase_history) max_phase_history_entries
                then env.status.phase_history ++ transition_of d ∷ []
                else drop 1 (env.status.phase_history ++ transition_of d ∷ [])))
  unfolding apply
  apply_history_bounds h =
      let grown = env.status.phase_history ++ transition_of d ∷ [] in
      ground (
        arith,
        length-keep_last max_phase_history_entries grown,
        keep_last-append max_phase_history_entries env.status.phase_history (transition_of d),
      )

-- The first time that is set, by the status or else by the patches in their order.
abbrev pub first_set : (StatusPatch → Option ℕ) → Option ℕ → List Decision → Option ℕ
first_set key (some t) ds = some t
first_set key none [] = none
first_set key none (d ∷ ds) = first_set key (key d.status_patch) ds

abbrev pub first_terminal : Phase → List Decision → Phase
first_terminal old [] = old
first_terminal old (d ∷ ds) =
    let rest = first_terminal d.status_patch.set_terminal_phase ds in
    if phase_eq old Phase.unset then rest else old

-- How many of the decisions ask for an increment.
abbrev pub increments : (StatusPatch → Bool) → List Decision → ℕ
increments key [] = 0
increments key (d ∷ ds) = let n = increments key ds in if key d.status_patch then suc n else n

abbrev pub all_want_slot : List Decision → Bool
all_want_slot [] = true
all_want_slot (d ∷ ds) = d.slot_wanted && all_want_slot ds

first_set-set_once :
    (key : StatusPatch → Option ℕ) (old : Option ℕ) (d : Decision) (ds : List Decision)
    → first_set key (set_once (key d.status_patch) old) ds ≡ first_set key old (d ∷ ds)
first_set-set_once key none d ds = refl
first_set-set_once key (some t) d [] = refl
first_set-set_once key (some t) d (e ∷ ds) = refl

first_terminal-set :
    (old : Phase) (ds : List Decision)
    → phase_eq old Phase.unset ≡ false
    → first_terminal old ds ≡ old
first_terminal-set old [] h = refl
first_terminal-set old (d ∷ ds) h = rw h refl

first_terminal-cons :
    (old : Phase) (d : Decision) (ds : List Decision)
    → let new = d.status_patch.set_terminal_phase in
      first_terminal
        (if not (phase_eq new Phase.unset) && phase_eq old Phase.unset then new else old)
        ds
      ≡ first_terminal old (d ∷ ds)
first_terminal-cons old d ds =
    let new = d.status_patch.set_terminal_phase in
    elim (Bool-cases (phase_eq old Phase.unset)) [
      | inr o ↦ ground (arith, o, first_terminal-set old ds o)
      | inl o ↦ elim (Bool-cases (phase_eq new Phase.unset)) [
        | inl n ↦
            rw (o, n)
              (ap (λ p. first_terminal p ds)
                (eq_of_phase_eq old _ o ∙ sym (eq_of_phase_eq new _ n)))
        | inr n ↦ rw (o, n) refl
      ]
    ]

increment-lt : (b : Bool) (n m : ℕ) → n + suc m < 2 ^ 31 → increment b n + m < 2 ^ 31
increment-lt true n m h = omega arith
increment-lt false n m h = omega arith

increment-add :
    (b : Bool) (n m : ℕ)
    → n + suc m < 2 ^ 31
    → (i : ℕ) → increment b n + i ≡ n + (if b then suc i else i)
increment-add true n m h i = omega arith
increment-add false n m h i = refl

slot-cons :
    (d : Decision) (ds : List Decision) (old : SlotStatus)
    → (if all_want_slot ds then (if not d.slot_wanted then no_slot else old) else no_slot)
      ≡ (if all_want_slot (d ∷ ds) then old else no_slot)
slot-cons d ds old = ground arith

module _ ⦃k : ApiMachinery⦄ where
  -- Decisions that are applied one after another.
  pub apply_all : SandboxEnvironment → List Decision → SandboxEnvironment
  apply_all env [] = env
  apply_all env (d ∷ ds) = apply_all (record env { status = apply env d }) ds

  -- After decisions that are applied one after another, fewer than the int32 counters have room for:
  -- the start, finish and queue times and the terminal phase are the first ones that were set and
  -- never change again; freezeCount and wakeCount have gone up by exactly the increments asked for;
  -- the snapshot is as it was; and the slot is kept where every decision wants it and else released,
  -- never granted.
  pub apply_all-keeps :
      (env : SandboxEnvironment) (ds : List Decision)
      → env.status.freeze_count + length ds < 2 ^ 31
      → env.status.wake_count + length ds < 2 ^ 31
      → let s = (apply_all env ds).status in
        (s.finished_at ≡ first_set (λ p. p.set_finished_at) env.status.finished_at ds)
        × (s.started_at ≡ first_set (λ p. p.set_started_at) env.status.started_at ds)
        × (s.queued_since ≡ first_set (λ p. p.set_queued_since) env.status.queued_since ds)
        × (s.terminal_phase ≡ first_terminal env.status.terminal_phase ds)
        × (s.freeze_count ≡ env.status.freeze_count + increments (λ p. p.increment_freeze_count) ds)
        × (s.wake_count ≡ env.status.wake_count + increments (λ p. p.increment_wake_count) ds)
        × (s.snapshot ≡ env.status.snapshot)
        × (s.slot ≡ (if all_want_slot ds then env.status.slot else no_slot))
  unfolding apply_all apply apply_patch
  apply_all-keeps env [] f w = ground arith
  apply_all-keeps env (d ∷ ds) f w =
      let s = env.status in
      let p = d.status_patch in
      let f' = increment-lt p.increment_freeze_count s.freeze_count (length ds) f in
      let w' = increment-lt p.increment_wake_count s.wake_count (length ds) w in
      let ih = apply_all-keeps (record env { status = apply env d }) ds f' w' in
      (
        ih.0 ∙ first_set-set_once (λ p. p.set_finished_at) s.finished_at d ds,
        ih.1 ∙ first_set-set_once (λ p. p.set_started_at) s.started_at d ds,
        ih.2 ∙ first_set-set_once (λ p. p.set_queued_since) s.queued_since d ds,
        ih.3 ∙ first_terminal-cons s.terminal_phase d ds,
        ih.4 ∙ increment-add p.increment_freeze_count s.freeze_count (length ds) f _,
        ih.5 ∙ increment-add p.increment_wake_count s.wake_count (length ds) w _,
        ih.6,
        ih.7 ∙ slot-cons d ds s.slot,
      )
