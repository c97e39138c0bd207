-- ===== src/Storage/Path/Keys.antt =====
-- operator/internal/storage/path.go: where the keys of an environment lie.
use mathlib.Core.List.{append_assoc}
use mathlib.Core.Sum.{inr-injective}
use mathlib.Core.Path.{subst}
use ai_sandbox.Base.{
  ◌++◌, ◌≡◌, ◌⊎◌, inl, inr, Option-cases, All, List, Text, [], arith, length, none, refl, text_eq,
  ◌∷◌, ◌≤◌, ◌+◌, ap, ◌∙◌, sym,
}
use ai_sandbox.Storage.Path.{
  new_layout, allowed_all, disallowed, Identity, Layout, InvalidKey, archive_context,
  archive_prefix, archive_run, dir_archive, dir_snapshots, file_agent_home, file_context,
  file_latest, file_manifest, file_run, file_workspace, join, latest, root, snapshot_file_by_id,
  snapshots_prefix, split, validate, validate_segment,
}
use ai_sandbox.Storage.Path.Segments.{
  NonEmpty, ValidSegment, total, total-append, total-split, validate_segment-length, All-append,
}
use ai_sandbox.Storage.Path.Roots.{
  identity_segments, prefix_segments, validate-identity, root-NonEmpty, split-join-join,
  validate-prefix, root-segments, split-join-segments,
}

-- The files of a snapshot.
pub data SnapshotFile : Type 0 where
  workspace agent_home manifest : SnapshotFile

-- What an environment stores.
pub data Object : Type 0 where
  snapshot : Text → SnapshotFile → Object
  run context latest_pointer : Object

abbrev pub file_name : SnapshotFile → Text
file_name SnapshotFile.workspace = file_workspace
file_name SnapshotFile.agent_home = file_agent_home
file_name SnapshotFile.manifest = file_manifest

-- The key of an object, by the method of Layout that computes it.
unfoldable pub key : Layout → Object → InvalidKey ⊎ Text
key l (Object.snapshot id f) = snapshot_file_by_id l id (file_name f)
key l Object.run = inr (archive_run l)
key l Object.context = inr (archive_context l)
key l Object.latest_pointer = inr (latest l)

-- The place of an object below the root, by the diagram of the storage layout.
abbrev pub object_path : Object → List Text
object_path (Object.snapshot id f) = dir_snapshots ∷ id ∷ file_name f ∷ []
object_path Object.run = dir_archive ∷ file_run ∷ []
object_path Object.context = dir_archive ∷ file_context ∷ []
object_path Object.latest_pointer = file_latest ∷ []

file_name-ValidSegment : (f : SnapshotFile) → ValidSegment (file_name f)
unfolding validate_segment allowed_all disallowed text_eq
file_name-ValidSegment SnapshotFile.workspace = refl
file_name-ValidSegment SnapshotFile.agent_home = refl
file_name-ValidSegment SnapshotFile.manifest = refl

dir_snapshots-ValidSegment : ValidSegment dir_snapshots
unfolding validate_segment allowed_all disallowed text_eq
dir_snapshots-ValidSegment = refl

dir_archive-ValidSegment : ValidSegment dir_archive
unfolding validate_segment allowed_all disallowed text_eq
dir_archive-ValidSegment = refl

file_run-ValidSegment : ValidSegment file_run
unfolding validate_segment allowed_all disallowed text_eq
file_run-ValidSegment = refl

file_context-ValidSegment : ValidSegment file_context
unfolding validate_segment allowed_all disallowed text_eq
file_context-ValidSegment = refl

file_latest-ValidSegment : ValidSegment file_latest
unfolding validate_segment allowed_all disallowed text_eq
file_latest-ValidSegment = refl

snapshot_file_by_id-inr :
    (l : Layout) (id name k : Text)
    → snapshot_file_by_id l id name ≡ inr k
    → ValidSegment id × (join (join (root l ∷ dir_snapshots ∷ []) ∷ id ∷ name ∷ []) ≡ k)
unfolding snapshot_file_by_id snapshots_prefix
snapshot_file_by_id-inr l id name k h = elim (Option-cases (validate_segment id)) [
  | inl e ↦ (e, inr-injective _ _ (rw (snapshot_file_by_id, snapshots_prefix, e) at h))
  | inr (x, e) ↦ ground (arith, h, e)
]

object_path-ValidSegment :
    (l : Layout) (o : Object) (k : Text) → key l o ≡ inr k → All ValidSegment (object_path o)
unfolding key
object_path-ValidSegment l (Object.snapshot id f) k h = (
  dir_snapshots-ValidSegment,
  ((snapshot_file_by_id-inr l id (file_name f) k h).0, (file_name-ValidSegment f, tt)),
)
object_path-ValidSegment l Object.run k h = (dir_archive-ValidSegment, (file_run-ValidSegment, tt))
object_path-ValidSegment l Object.context k h =
    (dir_archive-ValidSegment, (file_context-ValidSegment, tt))
object_path-ValidSegment l Object.latest_pointer k h = (file_latest-ValidSegment, tt)

key-join :
    (l : Layout) (o : Object) (k : Text)
    → NonEmpty (root l)
    → All ValidSegment (object_path o)
    → key l o ≡ inr k
    → split k ≡ split (root l) ++ object_path o
unfolding key archive_prefix archive_run archive_context latest
key-join l (Object.snapshot id f) k r v h =
    rw (sym (snapshot_file_by_id-inr l id (file_name f) k h).1)
      (split-join-join (root l) dir_snapshots (id ∷ file_name f ∷ []) r v.0 v.1)
key-join l Object.run k r v h =
    rw (sym (inr-injective _ _ h)) (split-join-join (root l) dir_archive (file_run ∷ []) r v.0 v.1)
key-join l Object.context k r v h =
    rw (sym (inr-injective _ _ h))
      (split-join-join (root l) dir_archive (file_context ∷ []) r v.0 v.1)
key-join l Object.latest_pointer k r v h =
    rw (sym (inr-injective _ _ h)) (split-join-segments (root l) (file_latest ∷ []) r v)

key-segments :
    (l : Layout) (o : Object) (k : Text)
    → validate l ≡ none
    → key l o ≡ inr k
    → split k ≡ prefix_segments l.prefix ++ (identity_segments l.identity ++ object_path o)
key-segments l o k v h =
    key-join l o k (root-NonEmpty l v) (object_path-ValidSegment l o k h) h
    ∙ ap (◌++ object_path o) (root-segments l v)
    ∙ append_assoc (prefix_segments l.prefix) (identity_segments l.identity) (object_path o)

pub new_layout-inr :
    (prefix : Text) (id : Identity) (l : Layout)
    → new_layout prefix id ≡ inr l
    → (validate l ≡ none) × ((l.prefix ≡ prefix) × (l.identity ≡ id))
unfolding new_layout
new_layout-inr prefix id l h =
    elim (Option-cases (validate (record { prefix = prefix; identity = id }))) [
      | inl e ↦
          let q = inr-injective _ _ (rw (new_layout, e) at h) in
          (
            subst (λ m. validate m ≡ none) q e,
            (ap (λ m. m.prefix) (sym q), ap (λ m. m.identity) (sym q)),
          )
      | inr (x, e) ↦ ground (arith, h, e)
    ]

pub key-place :
    (prefix : Text) (i : Identity) (l : Layout) (o : Object) (k : Text)
    → new_layout prefix i ≡ inr l
    → key l o ≡ inr k
    → split k ≡ prefix_segments prefix ++ (identity_segments i ++ object_path o)
key-place prefix i l o k hl h =
    let (v, (p, e)) = new_layout-inr prefix i l hl in rw (sym p, sym e) (key-segments l o k v h)

object_path-total : (o : Object) → All ValidSegment (object_path o) → total (object_path o) ≤ 285
object_path-total (Object.snapshot id SnapshotFile.workspace) h =
    omega (arith, validate_segment-length id h.1.0)
object_path-total (Object.snapshot id SnapshotFile.agent_home) h =
    omega (arith, validate_segment-length id h.1.0)
object_path-total (Object.snapshot id SnapshotFile.manifest) h =
    omega (arith, validate_segment-length id h.1.0)
object_path-total Object.run h = omega arith
object_path-total Object.context h = omega arith
object_path-total Object.latest_pointer h = omega arith

key-length :
    (l : Layout) (o : Object) (k : Text)
    → validate l ≡ none
    → key l o ≡ inr k
    → length k ≤ length (root l) + 285
key-length l o k v h =
    let p = object_path-ValidSegment l o k h in
    let e = ap total (key-join l o k (root-NonEmpty l v) p h) in
    omega (
      arith,
      e,
      object_path-total o p,
      total-append (split (root l)) (object_path o),
      total-split k,
      total-split (root l),
    )

key-ValidSegment :
    (l : Layout) (o : Object) (k : Text)
    → validate l ≡ none
    → key l o ≡ inr k
    → All ValidSegment (split k)
key-ValidSegment l o k v h = rw (key-segments l o k v h) (
    All-append ValidSegment _ _ (validate-prefix l v)
      (All-append ValidSegment _ _ (validate-identity l v) (object_path-ValidSegment l o k h)))

-- No key leaves the tree of its environment, whatever snapshot id it is asked for: under an accepted
-- layout its segments are those of the prefix, the four of the identity and the place of the object,
-- none of them is empty, "." or "..", and the key has at most 285 bytes more than the root.
pub key_confined :
    (prefix : Text) (i : Identity) (l : Layout) (o : Object) (k : Text)
    → new_layout prefix i ≡ inr l
    → key l o ≡ inr k
    → (split k ≡ prefix_segments prefix ++ (identity_segments i ++ object_path o))
      × (All ValidSegment (split k) × (length k ≤ length (root l) + 285))
key_confined prefix i l o k hl h =
    let v = (new_layout-inr prefix i l hl).0 in
    (key-place prefix i l o k hl h, (key-ValidSegment l o k v h, key-length l o k v h))
