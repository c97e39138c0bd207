-- ===== src/Sandboxctl/Snapshot.antt =====
-- operator/internal/sandboxctl: the number of a snapshot (snapshot.go, Freeze) and its record in the
-- status (store.go, RecordSnapshot). The archives and their upload are left out, and so is gitState.
use ai_sandbox.Base.{
  ℕ, ◌+◌, ◌%◌, ◌^◌, leb, Bool, false, [], Option, none, some, Text, if◌then◌else◌,
}
use ai_sandbox.Base.Int.{pos, ltb_ℤ, signed32}
use ai_sandbox.Api.Environment.{SandboxEnvironmentStatus, SnapshotStatus, AttemptPhase}

-- The number of the snapshot that Freeze takes, from the number in latest.json, none where it cannot be
-- read, and from FreezeCount, which is not negative.
unfoldable pub freeze_seq : Option ℕ → ℕ → ℕ
freeze_seq none freeze_count = freeze_count
freeze_seq (some latest) freeze_count = if leb freeze_count latest then latest + 1 else freeze_count

pub record SnapshotRecord : Type 0 where
  pub seq : ℕ
  pub uri : Text
  pub size_bytes : ℕ
  pub sha256 : Text
  pub taken_at : ℕ
  pub duration_millis : ℕ

-- `int(existing.Seq) > r.Seq`.
unfoldable pub regresses : Option SnapshotStatus → SnapshotRecord → Bool
regresses none r = false
regresses (some existing) r = ltb_ℤ (pos r.seq) (signed32 existing.seq)

-- The status that RecordSnapshot patches, none for ErrSnapshotSeqRegression.
unfoldable pub record_snapshot :
    SnapshotRecord → ℕ → SandboxEnvironmentStatus → Option SandboxEnvironmentStatus
unfolding regresses
record_snapshot r at st =
    if regresses st.snapshot r
    then none
    else some (record st {
      snapshot = some (record {
        seq = r.seq % 2 ^ 32;
        uri = r.uri;
        size_bytes = r.size_bytes;
        sha256 = r.sha256;
        taken_at = some r.taken_at;
        duration_millis = r.duration_millis;
      });
      snapshot_attempt = some (record {
        seq = r.seq % 2 ^ 32;
        phase = AttemptPhase.succeeded;
        attempts = 0;
        reason = [];
        message = [];
        started_at = elim st.snapshot_attempt [ none ↦ none | some a ↦ a.started_at ];
        updated_at = some at;
      });
    })
