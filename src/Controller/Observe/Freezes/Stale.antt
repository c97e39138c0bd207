-- ===== src/Controller/Observe/Freezes/Stale.antt =====
-- A snapshot whose status write was lost: the number of the next one, and what it does to a later freeze.
use ai_sandbox.Base.{ℕ, ◌+◌, ◌^◌, ◌<◌, ◌≡◌, true, some, arith}
use ai_sandbox.Api.Environment.{SandboxEnvironmentStatus}
use ai_sandbox.Controller.Observe.{snapshot_complete, in_flight}
use ai_sandbox.Sandboxctl.Snapshot.{SnapshotRecord, freeze_seq, record_snapshot}

-- Where latest.json already has the number of the freeze in flight, since the status write of its
-- snapshot was lost or the freeze is taken again, the snapshot that is recorded has the number of the
-- next freeze: once freezeCount counts this freeze, the observer takes the next one for complete as long
-- as the snapshot is the recorded one, before anything of it is taken. It assumes that freezeCount and
-- its successor are in int32.
pub freeze_again_complete :
    (st st' later : SandboxEnvironmentStatus) (r : SnapshotRecord) (at : ℕ)
    → r.seq ≡ freeze_seq (some st.freeze_count) st.freeze_count
    → record_snapshot r at st ≡ some st'
    → st.freeze_count + 1 < 2 ^ 31
    → later.snapshot ≡ st'.snapshot
    → later.freeze_count ≡ st'.freeze_count + 1
    → snapshot_complete later ≡ true
unfolding freeze_seq record_snapshot snapshot_complete in_flight
freeze_again_complete st st' later r at s e b c d = ground arith
