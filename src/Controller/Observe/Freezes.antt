-- ===== src/Controller/Observe/Freezes.antt =====
-- The freezes of an environment: passes of the reconciler on the observed snapshot, and snapshots of
-- the sidecar (operator/internal/sandboxctl/snapshot.go, store.go) between them.
pub mod Between
pub mod Passes
pub mod Stale
use ai_sandbox.Base.{
  ℕ, suc, ◌+◌, ◌%◌, ◌^◌, ◌<◌, ◌≤◌, ◌==◌, ltb, leb, ◌≡◌, refl, ◌∙◌, inl, inr, Option-cases, Bool,
  true, false, not, ◌&&◌, ◌||◌, List, Option, none, some, is_some, if◌then◌else◌, arith, sym, ap,
}
use ai_sandbox.Base.Int.{signed32}
use ai_sandbox.Api.Phase.{Phase, phase_eq}
use ai_sandbox.Api.Condition.{Condition, ApiMachinery}
use ai_sandbox.Api.Environment.{SandboxEnvironment, SandboxEnvironmentStatus, SnapshotStatus}
use ai_sandbox.Lifecycle.Facts.{ClusterFacts}
use ai_sandbox.Lifecycle.Next.{decide, next, current_phase, stages}
use ai_sandbox.Lifecycle.Next.Legality.{legal, may_enter, next-legal}
use ai_sandbox.Lifecycle.Apply.{apply, apply_patch}
use ai_sandbox.Lifecycle.Runs.{reconcile}
use ai_sandbox.Controller.Observe.{snapshot_complete, in_flight}
use ai_sandbox.Sandboxctl.Snapshot.{SnapshotRecord, freeze_seq, record_snapshot, regresses}

-- The environment, and the number in latest.json of its snapshots.
pub record World : Type 0 where
  pub env : SandboxEnvironment
  pub latest : Option ℕ

abbrev pub seq_of : Option SnapshotStatus → Option ℕ
seq_of none = none
seq_of (some s) = some s.seq

abbrev pub snapshot_seq : SandboxEnvironment → Option ℕ
snapshot_seq env = seq_of env.status.snapshot

-- What the writers other than the reconciler and the freeze leave alone.
pub record Untouched (env env' : SandboxEnvironment) : Type 0 where
  pub same_phase : env'.status.phase ≡ env.status.phase
  pub same_freeze_count : env'.status.freeze_count ≡ env.status.freeze_count
  pub same_snapshot : env'.status.snapshot ≡ env.status.snapshot

-- A write between two passes: a freeze of a Freezing environment whose snapshot has not landed, with
-- the write of its status; or a write of another component.
pub data Write (w : World) : World → Type 0 where
  frozen :
      (r : SnapshotRecord) (at : ℕ) (st : SandboxEnvironmentStatus)
      → w.env.status.phase ≡ Phase.freezing
      → snapshot_complete w.env.status ≡ false
      → r.seq ≡ freeze_seq w.latest w.env.status.freeze_count
      → record_snapshot r at w.env.status ≡ some st
      → Write w (record { env = record w.env { status = st }; latest = some r.seq })
  elsewhere :
      (env' : SandboxEnvironment)
      → Untouched w.env env'
      → Write w (record { env = env'; latest = w.latest })

pub data Writes (w : World) : World → Type 0 where
  here : Writes w w
  then : {w' w'' : World} → Writes w w' → Write w' w'' → Writes w w''

-- How the number of the snapshot fits phase and freezeCount: never above it, below it where no freeze is
-- in flight and the run is not over, and in Waiting that of the freeze before.
abbrev pub fits : Phase → ℕ → Option ℕ → Bool
fits Phase.waiting n none = false
fits ph n none = true
fits Phase.waiting n (some q) = q + 1 == n
fits Phase.freezing n (some q) = leb q n
fits Phase.done n (some q) = leb q n
fits Phase.failed n (some q) = leb q n
fits ph n (some q) = ltb q n

pub record Fits (w : World) : Type 0 where
  pub fits_phase : fits w.env.status.phase w.env.status.freeze_count (snapshot_seq w.env) ≡ true
  pub same_latest : w.latest ≡ snapshot_seq w.env
  pub counts : w.env.status.freeze_count < 2 ^ 31

-- No freeze is in flight and the run is not over.
abbrev pub between_freezes : Phase → Bool
between_freezes Phase.freezing = false
between_freezes Phase.done = false
between_freezes Phase.failed = false
between_freezes ph = true

module _ ⦃k : ApiMachinery⦄ where
  -- A pass on facts with the observed snapshot, over the object that the writes since its read have left,
  -- or a write alone. freezeCount stays in int32.
  pub data Step (w : World) : World → Type 0 where
    passed :
        (w' : World) (facts : ClusterFacts) (extra : List Condition) (now : ℕ)
        → Writes w w'
        → facts.snapshot_complete ≡ snapshot_complete w.env.status
        → w.env.status.freeze_count + 1 < 2 ^ 31
        → Step w (record { env = reconcile w.env w'.env facts extra now; latest = w'.latest })
    between : (w' : World) → Write w w' → Step w w'

  pub data Reach (w : World) : World → Type 0 where
    here : Reach w w
    then : {w' w'' : World} → Reach w w' → Step w' w'' → Reach w w''
