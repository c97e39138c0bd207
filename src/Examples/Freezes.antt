-- ===== src/Examples/Freezes.antt =====
-- A freeze with its snapshot and the pass after it, and a freeze that is taken twice.
use ai_sandbox.Base.{ℕ, ◌+◌, ◌≡◌, refl, true, false, [], none, some, arith}
use ai_sandbox.Api.Phase.{Phase}
use ai_sandbox.Api.Environment.{SandboxEnvironmentStatus, SnapshotStatus, AttemptPhase}
use ai_sandbox.Lifecycle.Facts.{ClusterFacts}
use ai_sandbox.Lifecycle.Runs.{reconcile}
use ai_sandbox.Sandboxctl.Snapshot.{SnapshotRecord, freeze_seq, record_snapshot}
use ai_sandbox.Controller.Observe.{snapshot_complete, in_flight}
use ai_sandbox.Controller.Observe.Freezes.{
  World, Write, Writes, Step, Reach, Fits, snapshot_seq, between_freezes,
}
use ai_sandbox.Controller.Observe.Freezes.Passes.{Reach-Fits}
use ai_sandbox.Controller.Observe.Freezes.Stale.{freeze_again_complete}
use ai_sandbox.Examples.Cluster.{cluster, fresh_status, sandbox, plain_facts, one_hour_on}

abbrev snapshot : ℕ → SnapshotStatus
snapshot seq = record {
  seq = seq;
  uri = [];
  size_bytes = 4096;
  sha256 = [];
  taken_at = some one_hour_on;
  duration_millis = 900;
}

-- The second freeze, with the snapshot of the first.
abbrev freezing_status : SandboxEnvironmentStatus
freezing_status = record fresh_status {
  phase = Phase.freezing;
  freeze_count = 1;
  snapshot = some (snapshot 0);
}

abbrev taken : SnapshotRecord
taken = record {
  seq = 1;
  uri = [];
  size_bytes = 4096;
  sha256 = [];
  taken_at = one_hour_on;
  duration_millis = 900;
}

abbrev recorded : ℕ → SandboxEnvironmentStatus → SandboxEnvironmentStatus
recorded seq st = record st {
  snapshot = some (snapshot seq);
  snapshot_attempt = some (record {
    seq = seq;
    phase = AttemptPhase.succeeded;
    attempts = 0;
    reason = [];
    message = [];
    started_at = none;
    updated_at = some one_hour_on;
  });
}

abbrev before : World
before = record { env = sandbox freezing_status; latest = some 0 }

abbrev landed : World
landed = record { env = sandbox (recorded 1 freezing_status); latest = some 1 }

abbrev facts : ClusterFacts
facts = record plain_facts { snapshot_complete = snapshot_complete landed.env.status }

abbrev after : World
after = record { env = reconcile landed.env landed.env facts [] one_hour_on; latest = some 1 }

before-Fits : Fits before
before-Fits = record { fits_phase = refl; same_latest = refl; counts = omega arith }

landed-Write : Write before landed
unfolding snapshot_complete in_flight freeze_seq record_snapshot
landed-Write = Write.frozen taken one_hour_on (recorded 1 freezing_status) refl refl refl refl

after-Reach : Reach before after
after-Reach =
    Reach.then (Reach.then Reach.here (Step.between landed landed-Write))
      (Step.passed landed facts [] one_hour_on Writes.here refl (omega arith))

Reach-Fits_example :
    Fits after
    × (between_freezes after.env.status.phase ≡ true → snapshot_complete after.env.status ≡ false)
    × (after.env.status.phase ≡ Phase.waiting
        → (q : ℕ) × (snapshot_seq after.env ≡ some q) × (q + 1 ≡ after.env.status.freeze_count))
Reach-Fits_example = Reach-Fits before-Fits after-Reach

-- The snapshot 1 is in latest.json already, so the freeze in flight records the number 2, and the next
-- freeze begins complete.
abbrev frozen_again : SandboxEnvironmentStatus
frozen_again = record (recorded 2 freezing_status) { freeze_count = 2 }

freeze_again_complete_example : snapshot_complete frozen_again ≡ true
unfolding freeze_seq record_snapshot
freeze_again_complete_example =
    freeze_again_complete freezing_status (recorded 2 freezing_status) frozen_again
      (record taken { seq = 2 }) one_hour_on refl refl (omega arith) refl refl
