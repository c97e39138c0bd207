-- ===== src/Examples/Retention.antt =====
-- A model of the object stores as a list of keys, and the theorems of the collection of old storage at
-- a store with an object of a live environment and one of a deleted environment.
use mathlib.Core.Path.{subst}
use mathlib.Core.Option.{some-injective}
use mathlib.Core.Sum.{inr-injective}
use ai_sandbox.Base.{
  ◌&&◌, ◌≡◌, Bool-cases, List, Text, [], ap, arith, codes, eq_of_text_eq, false, has, has_prefix,
  if◌then◌else◌, inl, inr, length, not, refl, some, sym, text_eq, trim_prefix, true, ◌∷◌, ◌∙◌, Bool,
}
use ai_sandbox.Base.Int.{pos}
use ai_sandbox.Api.Environment.{SandboxEnvironment}
use ai_sandbox.Storage.Path.{
  Layout, allowed_all, cut, disallowed, join, join_slash, new_layout, non_empty, root, split,
  validate, validate_segment, validate_segments, archive_run, archive_prefix,
}
use ai_sandbox.Storage.Path.Keys.{Object, key}
use ai_sandbox.Storage.Backend.{Backend}
use ai_sandbox.Controller.RootKeys.{
  RootOf, cluster_prefix, cut_first, root_of, root_of_parts, split_n, trim_slash,
}
use ai_sandbox.Controller.Retention.{
  RetentionGc, SandboxClass, StorageBackendType, expired, expired_archive, by_class, count_orphan,
  finish, reclaim, reclaimed, sweep_class, sweep_classes, sweep_keys, sweep_listed, sweep_retention,
  sweep_root, identity, live_uids, run_once, sweep_orphans, no_retention, s3_prefix_of,
}
use ai_sandbox.Controller.Retention.Keeps.{Owned}
use ai_sandbox.Controller.Retention.Live.{run_once-keeps}
use ai_sandbox.Controller.Retention.Reclaims.{sweep_orphans-reclaims}
use ai_sandbox.Examples.Cluster.{sandbox, fresh_status}

-- The keys with a prefix, or those without it.
abbrev pick : Bool → Text → List Text → List Text
pick b p [] = []
pick b p (k ∷ ks) =
    let rest = pick b p ks in
    if (if b then has_prefix k p else not (has_prefix k p)) then k ∷ rest else rest

pick-has :
    (b : Bool) (p k : Text) (ks : List Text)
    → has k (pick b p ks) ≡ (has k ks && (if b then has_prefix k p else not (has_prefix k p)))
unfolding has
pick-has b p k [] = refl
pick-has b p k (j ∷ ks) = ground (arith, pick-has b p k ks, eq_of_text_eq k j)

instance key_list : Backend (List Text) (Unit {0})
key_list = record {
  stored = λ w h k. has k w;
  list = λ w h p. inr (pick true p w);
  delete_prefix = λ w h p. (inr (length (pick true p w)), pick false p w);
  listed = λ w h p k ks q.
      subst (λ x. has k x ≡ (has k w && has_prefix k p)) (inr-injective _ _ q)
        (pick-has true p k w);
  kept = λ w h g p k f t. ground (arith, pick-has false p k w, f, t);
  deletes_only = λ w h g p k t. ground (arith, pick-has false p k w, t);
  gone = λ w h p k n q f. ground (arith, pick-has false p k w, f);
}

abbrev live_env : SandboxEnvironment
live_env = sandbox fresh_status

abbrev class : SandboxClass
class = record { name = []; type = StorageBackendType.s3; s3 = some (codes "backups") }

abbrev gc : RetentionGc (Unit {0})
gc = record {
  cluster_id = codes "main";
  ttl = pos 100;
  dry_run = false;
  namespace = [];
  backend_for = λ c. inr tt;
}

abbrev live_layout : Layout
live_layout = record { prefix = codes "backups"; identity = identity (codes "main") live_env }

abbrev live_key : Text
live_key = codes "backups/main/team/env/uid-1/archive/run.json"

abbrev orphan_key : Text
orphan_key = codes "backups/main/team/env/uid-0/archive/run.json"

live_key-Owned : Owned (codes "backups") (codes "main") live_env live_key
unfolding new_layout validate validate_segments validate_segment allowed_all disallowed text_eq
    split cut root join join_slash non_empty identity key archive_run archive_prefix
live_key-Owned = record {
  layout = live_layout;
  object = Object.run;
  accepted = refl;
  has_key = refl;
}

abbrev live_root : RootOf
live_root = record {
  root = codes "backups/main/team/env/uid-1";
  namespace = codes "team";
  uid = codes "uid-1";
}

abbrev orphan_root : RootOf
orphan_root = record {
  root = codes "backups/main/team/env/uid-0";
  namespace = codes "team";
  uid = codes "uid-0";
}

root_of_live : root_of (cluster_prefix (codes "backups") (codes "main")) live_key ≡ some live_root
unfolding root_of cluster_prefix trim_slash trim_prefix has_prefix root_of_parts split_n cut_first
    text_eq join_slash
root_of_live = refl

root_of_orphan :
    root_of (cluster_prefix (codes "backups") (codes "main")) orphan_key ≡ some orphan_root
unfolding root_of cluster_prefix trim_slash trim_prefix has_prefix root_of_parts split_n cut_first
    text_eq join_slash
root_of_orphan = refl

-- A pass over the two objects.
pass_deletes_orphan :
    (run_once gc
      (inr (live_env ∷ []))
      (inr (class ∷ []))
      1000
      1000
      1000
      (live_key ∷ orphan_key ∷ [])).1
    ≡ live_key ∷ []
unfolding run_once finish sweep_classes sweep_class sweep_retention sweep_orphans sweep_listed
    sweep_keys sweep_root reclaim reclaimed count_orphan live_uids by_class s3_prefix_of expired
    expired_archive no_retention root_of cluster_prefix trim_slash trim_prefix has_prefix
    root_of_parts split_n cut_first text_eq join_slash has key_list
pass_deletes_orphan = refl

alike_at :
    (i k : Text) (r t : RootOf)
    → text_eq i k ≡ true
    → root_of (cluster_prefix (codes "backups") (codes "main")) k ≡ some t
    → root_of (cluster_prefix (codes "backups") (codes "main")) i ≡ some r
    → length t.uid ≡ length r.uid
alike_at i k r t e g h =
    ap (λ x. length x.uid)
      (some-injective _ _ (sym g ∙ sym (ap (root_of _) (eq_of_text_eq i k e)) ∙ h))

alike :
    (i : Text) (r : RootOf)
    → has i (live_key ∷ orphan_key ∷ []) ≡ true
    → root_of (cluster_prefix (codes "backups") (codes "main")) i ≡ some r
    → 5 ≡ length r.uid
unfolding has
alike i r m h = elim (Bool-cases (text_eq i live_key)) [
  | inl e ↦ alike_at i live_key r live_root e root_of_live h
  | inr e ↦ alike_at i orphan_key r orphan_root (ground (arith, rw e at m)) root_of_orphan h
]

run_once-keeps_example :
    has live_key (
      (run_once gc
        (inr (live_env ∷ []))
        (inr (class ∷ []))
        1000
        1000
        1000
        (live_key ∷ orphan_key ∷ [])).1)
    ≡ true
unfolding has live_uids text_eq s3_prefix_of expired expired_archive key_list
run_once-keeps_example =
    run_once-keeps gc tt (codes "backups") live_key 1000 1000 1000 live_env (live_env ∷ [])
      (class ∷ []) (live_key ∷ orphan_key ∷ []) live_key-Owned ((refl, λ x. ground (arith, x)), tt)
      refl ((λ p h q b. inl (sym (some-injective _ _ q), alike)), tt) refl

sweep_orphans-reclaims_example : has (codes "uid-1") (codes "uid-1" ∷ []) ≡ true
unfolding sweep_orphans sweep_listed sweep_keys sweep_root reclaim reclaimed count_orphan
    no_retention root_of cluster_prefix trim_slash trim_prefix has_prefix root_of_parts split_n
    cut_first text_eq join_slash has key_list
sweep_orphans-reclaims_example =
    sweep_orphans-reclaims gc tt (codes "backups") live_key live_root (codes "uid-1" ∷ [])
      (no_retention 1) (live_key ∷ orphan_key ∷ []) refl (omega arith) root_of_live refl refl
