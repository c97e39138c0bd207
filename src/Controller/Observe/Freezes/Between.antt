-- ===== src/Controller/Observe/Freezes/Between.antt =====
-- The writes between two passes: what they keep of a status that fits.
use ai_sandbox.Base.{
  ℕ, ◌%◌, ◌^◌, ◌<◌, ◌≤◌, ◌==◌, leb, ◌≡◌, refl, ◌∙◌, inl, inr, Option-cases, Bool, true, false,
  Option, none, some, arith, sym,
}
use ai_sandbox.Api.Phase.{Phase}
use ai_sandbox.Api.Environment.{SandboxEnvironment, SandboxEnvironmentStatus}
use ai_sandbox.Controller.Observe.{snapshot_complete, in_flight}
use ai_sandbox.Sandboxctl.Snapshot.{SnapshotRecord, freeze_seq, record_snapshot}
use ai_sandbox.Controller.Observe.Freezes.{
  World, Untouched, Write, Writes, Fits, fits, seq_of, snapshot_seq,
}

abbrev pub is_seq : ℕ → Option ℕ → Bool
is_seq n none = false
is_seq n (some q) = q == n

in_flight_fits : (q n : ℕ) → q ≤ n → n < 2 ^ 31 → in_flight q n ≡ leb n q
unfolding in_flight
in_flight_fits q n h b = ground arith

fits_bound : (ph : Phase) (n q : ℕ) → fits ph n (some q) ≡ true → q ≤ n
fits_bound (Phase.other s) n q h = ground arith
fits_bound _ n q h = ground arith

-- In a status that fits, the snapshot is complete where its number is freezeCount.
pub complete_fits :
    (st : SandboxEnvironmentStatus)
    → fits st.phase st.freeze_count (seq_of st.snapshot) ≡ true
    → st.freeze_count < 2 ^ 31
    → snapshot_complete st ≡ is_seq st.freeze_count (seq_of st.snapshot)
unfolding snapshot_complete
complete_fits st h b = elim (Option-cases st.snapshot) [
  | inl e ↦ rw e refl
  | inr (s, e) ↦
      let f = fits_bound st.phase st.freeze_count s.seq (rw e at h) in
      rw e (ground (arith, f, in_flight_fits s.seq st.freeze_count f b))
]

record_snapshot_lem :
    (r : SnapshotRecord) (at : ℕ) (st st' : SandboxEnvironmentStatus)
    → record_snapshot r at st ≡ some st'
    → (st'.phase ≡ st.phase)
      × (st'.freeze_count ≡ st.freeze_count)
      × (seq_of st'.snapshot ≡ some (r.seq % 2 ^ 32))
unfolding record_snapshot
record_snapshot_lem r at st st' e = ground arith

freeze_seq-fits :
    (n : ℕ) (latest : Option ℕ)
    → is_seq n latest ≡ false
    → fits Phase.freezing n latest ≡ true
    → freeze_seq latest n ≡ n
unfolding freeze_seq
freeze_seq-fits n none c h = refl
freeze_seq-fits n (some q) c h = ground arith

-- What the writes between two passes keep.
pub record Kept (w w' : World) : Type 0 where
  pub fits_after : Fits w'
  pub kept_phase : w'.env.status.phase ≡ w.env.status.phase
  pub kept_freeze_count : w'.env.status.freeze_count ≡ w.env.status.freeze_count
  pub kept_complete :
      snapshot_complete w.env.status ≡ true → w'.env.status.snapshot ≡ w.env.status.snapshot

frozen-Kept :
    (w : World) (r : SnapshotRecord) (at : ℕ) (st : SandboxEnvironmentStatus)
    → Fits w
    → w.env.status.phase ≡ Phase.freezing
    → snapshot_complete w.env.status ≡ false
    → r.seq ≡ freeze_seq w.latest w.env.status.freeze_count
    → record_snapshot r at w.env.status ≡ some st
    → Kept w (record { env = record w.env { status = st }; latest = some r.seq })
frozen-Kept w r at st f p c s e =
    let n = w.env.status.freeze_count in
    let l = record_snapshot_lem r at w.env.status st e in
    let landed = complete_fits w.env.status f.fits_phase f.counts in
    let z : freeze_seq w.latest n ≡ n =
      rw f.same_latest
        (freeze_seq-fits n (snapshot_seq w.env) (sym landed ∙ c) (rw p at f.fits_phase)) in
    let q : r.seq ≡ n = s ∙ z in
    let m : r.seq % 2 ^ 32 ≡ n = omega (arith, q, f.counts) in
    record {
      fits_after = record {
        fits_phase = rw (l.0, l.1, l.2, p, m) (ground arith);
        same_latest = rw (l.2, m, q) refl;
        counts = rw l.1 f.counts;
      };
      kept_phase = l.0;
      kept_freeze_count = l.1;
      kept_complete = λ t. ground (arith, t, c);
    }

elsewhere-Kept :
    (w : World) (env' : SandboxEnvironment)
    → Fits w
    → Untouched w.env env'
    → Kept w (record { env = env'; latest = w.latest })
elsewhere-Kept w env' f u = record {
  fits_after = record {
    fits_phase = rw (u.same_phase, u.same_freeze_count, u.same_snapshot) f.fits_phase;
    same_latest = rw u.same_snapshot f.same_latest;
    counts = rw u.same_freeze_count f.counts;
  };
  kept_phase = u.same_phase;
  kept_freeze_count = u.same_freeze_count;
  kept_complete = λ t. u.same_snapshot;
}

pub Write-Kept : (w w' : World) → Fits w → Write w w' → Kept w w'
Write-Kept w w' f (Write.frozen r at st p c s e) = frozen-Kept w r at st f p c s e
Write-Kept w w' f (Write.elsewhere env' u) = elsewhere-Kept w env' f u

pub complete_cong :
    (st st' : SandboxEnvironmentStatus)
    → st'.snapshot ≡ st.snapshot
    → st'.freeze_count ≡ st.freeze_count
    → snapshot_complete st' ≡ snapshot_complete st
unfolding snapshot_complete
complete_cong st st' s c = ground (arith, s, c)

pub Writes-Kept : (w w' : World) → Fits w → Writes w w' → Kept w w'
Writes-Kept w w' f (Writes.here) = record {
  fits_after = f;
  kept_phase = refl;
  kept_freeze_count = refl;
  kept_complete = λ t. refl;
}
Writes-Kept w w'' f (Writes.then {w' = w'} ws x) =
    let a = Writes-Kept w w' f ws in
    let b = Write-Kept w' w'' a.fits_after x in
    record {
      fits_after = b.fits_after;
      kept_phase = b.kept_phase ∙ a.kept_phase;
      kept_freeze_count = b.kept_freeze_count ∙ a.kept_freeze_count;
      kept_complete = λ t.
          b.kept_complete
            (complete_cong w.env.status w'.env.status (a.kept_complete t) a.kept_freeze_count ∙ t)
          ∙ a.kept_complete t;
    }
