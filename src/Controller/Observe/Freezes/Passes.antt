-- ===== src/Controller/Observe/Freezes/Passes.antt =====
-- The passes between freezes: every freeze ends with its own snapshot.
use ai_sandbox.Base.{
  ℕ, ◌+◌, ◌%◌, ◌^◌, ◌<◌, ◌≡◌, refl, ◌∙◌, Bool, true, false, ◌&&◌, List, Option, none, some,
  if◌then◌else◌, arith, sym,
}
use ai_sandbox.Api.Phase.{Phase, phase_eq}
use ai_sandbox.Api.Condition.{Condition, ApiMachinery}
use ai_sandbox.Api.Environment.{SandboxEnvironment}
use ai_sandbox.Lifecycle.Facts.{ClusterFacts}
use ai_sandbox.Lifecycle.Next.{decide, next, current_phase, stages}
use ai_sandbox.Lifecycle.Next.Legality.{legal, may_enter, clock_fired, next-legal}
use ai_sandbox.Lifecycle.Apply.{apply, apply_patch}
use ai_sandbox.Lifecycle.Runs.{reconcile}
use ai_sandbox.Controller.Observe.{snapshot_complete}
use ai_sandbox.Controller.Observe.Freezes.{
  World, Writes, Step, Reach, Fits, fits, snapshot_seq, between_freezes,
}
use ai_sandbox.Controller.Observe.Freezes.Between.{
  is_seq, complete_fits, complete_cong, Kept, Write-Kept, Writes-Kept,
}

-- What a decision does to the number of freezes: it counts one exactly from Freezing to Waiting.
module _ ⦃k : ApiMachinery⦄ (env : SandboxEnvironment) (facts : ClusterFacts) (now : ℕ) where
  decide-increment_freeze_count :
      (ph : Phase)
      → let d = decide env facts now ph in
        d.status_patch.increment_freeze_count
        ≡ (phase_eq ph Phase.freezing && phase_eq d.phase Phase.waiting)
  unfolding stages phase_eq
  decide-increment_freeze_count (Phase.other s) = ground arith
  decide-increment_freeze_count _ = ground arith

fits-legal :
    (ph ph' : Phase) (n : ℕ) (q : Option ℕ)
    → legal ph ph' ≡ true
    → fits ph n q ≡ true
    → ((phase_eq ph Phase.freezing && phase_eq ph' Phase.waiting) ≡ true → is_seq n q ≡ true)
    → fits ph' (if phase_eq ph Phase.freezing && phase_eq ph' Phase.waiting then n + 1 else n) q
      ≡ true
unfolding phase_eq
fits-legal _ _ n none l h c = ground arith
fits-legal _ _ n (some q) l h c = ground arith

may_enter_complete :
    (ph ph' : Phase) (env : SandboxEnvironment) (facts : ClusterFacts) (fired : Bool)
    → may_enter ph ph' env facts fired ≡ true
    → (phase_eq ph Phase.freezing && phase_eq ph' Phase.waiting) ≡ true
    → facts.snapshot_complete ≡ true
unfolding phase_eq
may_enter_complete _ _ env facts fired m e = ground arith

fits_unset :
    (ph : Phase) (n : ℕ) (q : Option ℕ)
    → fits ph n q ≡ true
    → fits (if phase_eq ph Phase.unset then Phase.pending else ph) n q ≡ true
unfolding phase_eq
fits_unset _ n none h = ground arith
fits_unset _ n (some q) h = ground arith

counted :
    (inc : Bool) (n : ℕ)
    → n + 1 < 2 ^ 31
    → (if inc then (n + 1) % 2 ^ 32 else n) ≡ (if inc then n + 1 else n)
counted inc n h = ground arith

counted-lt : (inc : Bool) (n : ℕ) → n + 1 < 2 ^ 31 → (if inc then n + 1 else n) < 2 ^ 31
counted-lt inc n h = ground arith

is_seq-fits :
    (ph : Phase) (n : ℕ) (q : Option ℕ)
    → fits ph n q ≡ true
    → between_freezes ph ≡ true
    → is_seq n q ≡ false
is_seq-fits _ n none h b = ground arith
is_seq-fits _ n (some q) h b = ground arith

not_complete_between :
    (w : World)
    → Fits w
    → between_freezes w.env.status.phase ≡ true
    → snapshot_complete w.env.status ≡ false
not_complete_between w f b =
    complete_fits w.env.status f.fits_phase f.counts
    ∙ is_seq-fits w.env.status.phase w.env.status.freeze_count (snapshot_seq w.env) f.fits_phase b

waiting_seq :
    (n : ℕ) (s : Option ℕ) → fits Phase.waiting n s ≡ true → (q : ℕ) × (s ≡ some q) × (q + 1 ≡ n)
waiting_seq n none h = absurd (ground (arith, h))
waiting_seq n (some q) h = (q, refl, ground (arith, h))

waiting_seq_of :
    (w : World)
    → Fits w
    → w.env.status.phase ≡ Phase.waiting
    → (q : ℕ) × (snapshot_seq w.env ≡ some q) × (q + 1 ≡ w.env.status.freeze_count)
waiting_seq_of w f p =
    waiting_seq w.env.status.freeze_count (snapshot_seq w.env) (rw p at f.fits_phase)

landed_after :
    (w w' : World)
    → Kept w w'
    → snapshot_complete w.env.status ≡ true
    → snapshot_complete w'.env.status ≡ true
landed_after w w' kept t =
    complete_cong w.env.status w'.env.status (kept.kept_complete t) kept.kept_freeze_count ∙ t

module _ ⦃k : ApiMachinery⦄ where
  reconcile_fields :
      (env fresh : SandboxEnvironment) (facts : ClusterFacts) (extra : List Condition) (now : ℕ)
      → let d = next env facts now in
        let st = (reconcile env fresh facts extra now).status in
        (st.phase ≡ d.phase)
        × (st.snapshot ≡ fresh.status.snapshot)
        × (st.freeze_count ≡ (
            if d.status_patch.increment_freeze_count
            then (fresh.status.freeze_count + 1) % 2 ^ 32
            else fresh.status.freeze_count))
  unfolding reconcile apply apply_patch
  reconcile_fields env fresh facts extra now = ground arith

  fits-current :
      (env : SandboxEnvironment) (n : ℕ) (q : Option ℕ)
      → fits env.status.phase n q ≡ true
      → fits (current_phase env) n q ≡ true
  unfolding current_phase
  fits-current env n q h = fits_unset env.status.phase n q h

  -- The fit after a pass, from the phase that Next works on.
  fits_pass :
      (w w' : World) (facts : ClusterFacts) (now : ℕ)
      → Fits w
      → Writes w w'
      → facts.snapshot_complete ≡ snapshot_complete w.env.status
      → w.env.status.freeze_count + 1 < 2 ^ 31
      → let d = next w.env facts now in
        let n = w'.env.status.freeze_count in
        fits d.phase
          (if d.status_patch.increment_freeze_count then n + 1 else n)
          (snapshot_seq w'.env)
        ≡ true
  unfolding next current_phase
  fits_pass w w' facts now f ws o b =
      let kept = Writes-Kept w w' f ws in
      let fits' = kept.fits_after in
      let ph = current_phase w.env in
      let d = next w.env facts now in
      let n = w'.env.status.freeze_count in
      let l = next-legal w.env facts now in
      let i = decide-increment_freeze_count w.env facts now ph in
      let h = fits-current w.env n (snapshot_seq w'.env) (rw kept.kept_phase at fits'.fits_phase) in
      rw i (
        fits-legal ph d.phase n (snapshot_seq w'.env) l.0 h λ e.
          let landed =
            may_enter_complete ph d.phase w.env facts (clock_fired w.env facts now ph) l.1 e in
          let now_landed = landed_after w w' kept (sym o ∙ landed) in
          sym (complete_fits w'.env.status fits'.fits_phase fits'.counts) ∙ now_landed)

  Step-Fits : (w w' : World) → Fits w → Step w w' → Fits w'
  Step-Fits w w'' f (Step.between w' x) = (Write-Kept w w' f x).fits_after
  Step-Fits w w'' f (Step.passed w' facts extra now ws o b) =
      let kept = Writes-Kept w w' f ws in
      let env' = reconcile w.env w'.env facts extra now in
      let e = reconcile_fields w.env w'.env facts extra now in
      let inc = (next w.env facts now).status_patch.increment_freeze_count in
      let n = w'.env.status.freeze_count in
      let m : n + 1 < 2 ^ 31 = omega (arith, kept.kept_freeze_count, b) in
      let c : env'.status.freeze_count ≡ (if inc then n + 1 else n) = e.2 ∙ counted inc n m in
      record {
        fits_phase = rw (e.0, e.1, c) (fits_pass w w' facts now f ws o b);
        same_latest = rw e.1 (kept.fits_after.same_latest);
        counts = rw c (counted-lt inc n m);
      }

  Reach-Fits_all : {w w' : World} → Fits w → Reach w w' → Fits w'
  Reach-Fits_all f (Reach.here) = f
  Reach-Fits_all f (Reach.then {w'} {w''} r s) = Step-Fits w' w'' (Reach-Fits_all f r) s

  -- However passes on the observed snapshot, freezes and other writes follow one another, where every
  -- freeze takes place while its snapshot has not landed and its status write succeeds: the snapshot of
  -- a Waiting environment is the one of its last freeze, and where no freeze is in flight and the run is
  -- not over, no earlier snapshot is observed as complete, so that the next freeze ends with its own
  -- snapshot. It assumes that the first environment is as this says and that freezeCount stays in int32.
  pub Reach-Fits :
      {w w' : World}
      → Fits w
      → Reach w w'
      → Fits w'
        × (between_freezes w'.env.status.phase ≡ true → snapshot_complete w'.env.status ≡ false)
        × (w'.env.status.phase ≡ Phase.waiting
            → (q : ℕ) × (snapshot_seq w'.env ≡ some q) × (q + 1 ≡ w'.env.status.freeze_count))
  Reach-Fits {w' = w'} f r =
      let g = Reach-Fits_all f r in (g, not_complete_between w' g, waiting_seq_of w' g)
