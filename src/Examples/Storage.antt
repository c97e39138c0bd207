-- ===== src/Examples/Storage.antt =====
-- The keys of a sample environment, and their theorems at it.
use ai_sandbox.Base.{◌≡◌, refl, inl, inr, Text, codes, length, ◌≤◌, ◌+◌, ◌++◌, All, text_eq}
use ai_sandbox.Storage.Path.{
  Identity, Layout, InvalidKey, allowed_all, cut, disallowed, root, split, validate,
  validate_segment, validate_segments, snapshot_file_by_id, snapshots_prefix, join, join_slash,
  non_empty, new_layout,
}
use ai_sandbox.Storage.Path.Segments.{ValidSegment}
use ai_sandbox.Storage.Path.Roots.{identity_segments, prefix_segments}
use ai_sandbox.Storage.Path.Keys.{Object, SnapshotFile, key, key_confined, object_path}
use ai_sandbox.Storage.Path.Separate.{keys_separate}

abbrev env_a : Identity
env_a = record {
  cluster_id = codes "cluster-a";
  namespace = codes "ns-a";
  env_name = codes "env-a";
  env_uid = codes "uid-a";
}

abbrev layout : Layout
layout = record { prefix = codes "backups/sandbox"; identity = env_a }

abbrev manifest_key : Text
manifest_key = codes "backups/sandbox/cluster-a/ns-a/env-a/uid-a/snapshots/00001-x/manifest.json"

abbrev first_manifest : Object
first_manifest = Object.snapshot (codes "00001-x") SnapshotFile.manifest

accepted_layout : new_layout (codes "backups/sandbox") env_a ≡ inr layout
unfolding new_layout validate validate_segments validate_segment allowed_all disallowed text_eq
    split cut root join join_slash non_empty
accepted_layout = refl

key_of_layout : key layout first_manifest ≡ inr manifest_key
unfolding key snapshot_file_by_id snapshots_prefix validate_segment allowed_all disallowed text_eq
    root join join_slash non_empty
key_of_layout = refl

parent_rejected :
    key layout (Object.snapshot (codes "..") SnapshotFile.manifest)
    ≡ inl (InvalidKey.in_snapshot_id InvalidKey.segment_dots)
unfolding key snapshot_file_by_id snapshots_prefix validate_segment allowed_all disallowed text_eq
parent_rejected = refl

keys_separate_example : (env_a ≡ env_a) × (first_manifest ≡ first_manifest)
keys_separate_example =
    keys_separate (codes "backups/sandbox") env_a env_a layout layout first_manifest first_manifest
      manifest_key accepted_layout accepted_layout key_of_layout key_of_layout

key_confined_example :
    (split manifest_key
      ≡ prefix_segments (codes "backups/sandbox")
        ++ (identity_segments env_a ++ object_path first_manifest))
    × (All ValidSegment (split manifest_key) × (length manifest_key ≤ length (root layout) + 285))
key_confined_example =
    key_confined (codes "backups/sandbox") env_a layout first_manifest manifest_key accepted_layout
      key_of_layout
