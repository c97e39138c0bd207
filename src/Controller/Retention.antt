-- ===== src/Controller/Retention.antt =====
-- operator/internal/controller/retentiongc.go: the deletion of old archives and of what no environment
-- owns any more.
--
-- The object stores are the interface Backend with the behaviour that its comments in
-- operator/internal/storage/backend.go promise; `w` is the state of all of them, and two classes may
-- name the same one. What the API server answers to the lists and the readings of the clock are arguments.
-- Logs and metrics are left out. A Go map with texts as keys and no values is the list of its keys.
pub mod Roots
pub mod Places
pub mod Keeps
pub mod Deletes
pub mod Passes
pub mod Live
pub mod Seen
pub mod Reclaims
use ai_sandbox.Base.{
  ℕ, zero, suc, ◌==◌, Bool, true, false, not, ◌&&◌, ◌||◌, List, [], ◌∷◌, ◌++◌, Option, none, some,
  Text, text_eq, has_prefix, trim_prefix, has, ◌⊎◌, inl, inr, if◌then◌else◌, length, ◌≡◌,
}
use ai_sandbox.Base.Int.{ℤ, pos, ltb_ℤ}
use ai_sandbox.Storage.Backend.{Backend}
use ai_sandbox.Controller.RootKeys.{cluster_prefix, RootOf, root_of}
use ai_sandbox.Api.Environment.{SandboxEnvironment, ArchiveStatus}
use ai_sandbox.Lifecycle.Timeouts.{sub_time}
use ai_sandbox.Storage.Path.{Identity, Layout, InvalidKey, new_layout, root, slash, join_slash}

-- `other` is a text that no constant names.
pub data StorageBackendType : Type 0 where
  s3 pvc : StorageBackendType
  other : Text → StorageBackendType

-- The storage backend of a class; `s3` is the prefix of its S3 section.
pub record SandboxClass : Type 0 where
  pub name : Text
  pub type : StorageBackendType
  pub s3 : Option Text

pub record RetentionStats : Type 0 where
  pub scanned : ℕ
  pub deleted : ℕ
  pub would_delete : ℕ
  pub orphans_deleted : ℕ
  pub errors : ℕ
  pub duration : ℤ

pub record RetentionGc (H : Type 0) : Type 0 where
  pub cluster_id : Text
  pub ttl : ℤ
  pub dry_run : Bool
  pub namespace : Text
  pub backend_for : SandboxClass → Text ⊎ H

-- The guards of sweepRetention: the archive is finished, and its age is not below the TTL.
unfoldable pub expired_archive : ℤ → ℕ → Option ArchiveStatus → Bool
expired_archive ttl now none = false
expired_archive ttl now (some arc) = elim arc.finished_at [
  | none ↦ false
  | some finished_at ↦ not (ltb_ℤ (sub_time now finished_at) ttl)
]

unfoldable pub expired : ℤ → ℕ → SandboxEnvironment → Bool
expired ttl now e = expired_archive ttl now e.status.archive

unfoldable pub identity : Text → SandboxEnvironment → Identity
identity cluster_id e = record {
  cluster_id = cluster_id;
  namespace = e.namespace;
  env_name = e.name;
  env_uid = e.uid;
}

-- The environments of one class.
unfoldable pub by_class : Text → List SandboxEnvironment → List SandboxEnvironment
by_class name [] = []
by_class name (e ∷ envs) =
    let rest = by_class name envs in if text_eq e.spec.class_ref name then e ∷ rest else rest

unfoldable pub live_uids : List SandboxEnvironment → List Text
live_uids [] = []
live_uids (e ∷ envs) = e.uid ∷ live_uids envs

-- The prefix of a class whose storage is on S3.
unfoldable pub s3_prefix_of : SandboxClass → Option Text
s3_prefix_of class = elim class.type [ StorageBackendType.s3 ↦ class.s3 | _ ↦ none ]

unfoldable pub failed : RetentionStats → RetentionStats
failed s = record s { errors = suc s.errors }

unfoldable pub no_retention : ℕ → RetentionStats
no_retention scanned = record {
  scanned = scanned;
  deleted = 0;
  would_delete = 0;
  orphans_deleted = 0;
  errors = 0;
  duration = pos 0;
}

unfoldable pub count_deleted : RetentionStats → RetentionStats
count_deleted s = record s { deleted = suc s.deleted }

unfoldable pub count_orphan : RetentionStats → RetentionStats
count_orphan s = record s { orphans_deleted = suc s.orphans_deleted }

module _ {W : Type 0} where
  -- The answer of DeletePrefix.
  unfoldable pub reclaimed :
      (RetentionStats → RetentionStats) → RetentionStats → (Text ⊎ ℕ) × W → RetentionStats × W
  reclaimed count s (inl e, w) = (failed s, w)
  reclaimed count s (inr n, w) = (count s, w)

  unfoldable pub finish : ℕ → ℕ → RetentionStats × W → (Text ⊎ RetentionStats) × W
  finish start end (s, w) = (inr (record s { duration = sub_time end start }), w)

module _ {W H : Type 0} ⦃store : Backend W H⦄ where
  -- One root, after the guards of either sweep.
  unfoldable pub reclaim :
      RetentionGc H
      → H
      → (RetentionStats → RetentionStats)
      → Text
      → RetentionStats × W
      → RetentionStats × W
  reclaim gc h count root (s, w) =
      if gc.dry_run
      then (record s { would_delete = suc s.would_delete }, w)
      else reclaimed count s (store.delete_prefix w h root)

  unfoldable pub reclaim_layout :
      RetentionGc H → H → InvalidKey ⊎ Layout → RetentionStats × W → RetentionStats × W
  reclaim_layout gc h (inl e) (s, w) = (failed s, w)
  reclaim_layout gc h (inr l) st = reclaim gc h count_deleted (root l) st

  unfoldable pub sweep_retention :
      RetentionGc H
      → H
      → Text
      → ℕ
      → List SandboxEnvironment
      → RetentionStats × W
      → RetentionStats × W
  sweep_retention gc h prefix now [] st = st
  sweep_retention gc h prefix now (e ∷ envs) st = sweep_retention gc h prefix now envs (
      if expired gc.ttl now e
      then reclaim_layout gc h (new_layout prefix (identity gc.cluster_id e)) st
      else st)

  -- One listed object: `seen` are the roots before it.
  unfoldable pub sweep_root :
      RetentionGc H
      → H
      → List Text
      → Option RootOf
      → List Text × (RetentionStats × W)
      → List Text × (RetentionStats × W)
  sweep_root gc h live none st = st
  sweep_root gc h live (some r) (seen, st) =
      if not (text_eq gc.namespace []) && not (text_eq r.namespace gc.namespace)
      then (seen, st)
      else if has r.root seen
      then (seen, st)
      else if has r.uid live
      then (r.root ∷ seen, st)
      else (r.root ∷ seen, reclaim gc h count_orphan r.root st)

  unfoldable pub sweep_keys :
      RetentionGc H
      → H
      → Text
      → List Text
      → List Text
      → List Text × (RetentionStats × W)
      → List Text × (RetentionStats × W)
  sweep_keys gc h list_prefix live [] st = st
  sweep_keys gc h list_prefix live (k ∷ ks) st =
      sweep_keys gc h list_prefix live ks (sweep_root gc h live (root_of list_prefix k) st)

  unfoldable pub sweep_listed :
      RetentionGc H
      → H
      → Text
      → List Text
      → Text ⊎ List Text
      → RetentionStats × W
      → RetentionStats × W
  sweep_listed gc h list_prefix live (inl e) (s, w) = (failed s, w)
  sweep_listed gc h list_prefix live (inr ks) st = (sweep_keys gc h list_prefix live ks ([], st)).1

  unfoldable pub sweep_orphans :
      RetentionGc H → H → Text → List Text → RetentionStats × W → RetentionStats × W
  sweep_orphans gc h prefix live (s, w) =
      let list_prefix = cluster_prefix prefix gc.cluster_id in
      sweep_listed gc h list_prefix live (store.list w h list_prefix) (s, w)

  -- The two sweeps of a class, with its backend or the error of building it.
  unfoldable pub sweep_class :
      RetentionGc H
      → Text
      → ℕ
      → List Text
      → List SandboxEnvironment
      → Text ⊎ H
      → RetentionStats × W
      → RetentionStats × W
  sweep_class gc prefix now live envs (inl e) (s, w) = (failed s, w)
  sweep_class gc prefix now live envs (inr h) st =
      sweep_orphans gc h prefix live
        (if ltb_ℤ (pos 0) gc.ttl then sweep_retention gc h prefix now envs st else st)

  unfoldable pub sweep_classes :
      RetentionGc H
      → ℕ
      → List SandboxEnvironment
      → List SandboxClass
      → RetentionStats × W
      → RetentionStats × W
  sweep_classes gc now envs [] st = st
  sweep_classes gc now envs (class ∷ classes) st =
      sweep_classes gc now envs classes (elim (s3_prefix_of class) [
        | none ↦ st
        | some prefix ↦
            sweep_class gc prefix now (live_uids envs) (by_class class.name envs)
              (gc.backend_for class) st
      ])

  -- The answers of the two lists, and the readings of the clock in their order.
  unfoldable pub run_once :
      RetentionGc H
      → Text ⊎ List SandboxEnvironment
      → Text ⊎ List SandboxClass
      → ℕ
      → ℕ
      → ℕ
      → W
      → (Text ⊎ RetentionStats) × W
  run_once gc (inl e) classes start now end w = (inl e, w)
  run_once gc (inr envs) (inl e) start now end w = (inl e, w)
  run_once gc (inr envs) (inr classes) start now end w =
      finish start end (sweep_classes gc now envs classes (no_retention (length envs), w))
