-- ===== src/Storage/Path/Separate.antt =====
-- operator/internal/storage/path.go: no two objects share a key.
use mathlib.Core.List.{append_cancel_left}
use ai_sandbox.Base.{
  ◌++◌, ◌≡◌, inr, List, Text, [], if◌then◌else◌, refl, text_eq, ◌∷◌, ap, ◌∙◌, sym, drop,
}
use ai_sandbox.Storage.Path.{
  new_layout, Identity, Layout, file_agent_home, file_run, file_workspace,
}
use ai_sandbox.Storage.Path.Roots.{identity_segments, prefix_segments}
use ai_sandbox.Storage.Path.Keys.{Object, SnapshotFile, file_name, object_path, key, key-place}

-- The file of a name, and the object at a place.
file_of : Text → SnapshotFile
file_of name =
    if text_eq name file_workspace
    then SnapshotFile.workspace
    else if text_eq name file_agent_home
    then SnapshotFile.agent_home
    else SnapshotFile.manifest

file_of-file_name : (f : SnapshotFile) → file_of (file_name f) ≡ f
unfolding file_of text_eq
file_of-file_name SnapshotFile.workspace = refl
file_of-file_name SnapshotFile.agent_home = refl
file_of-file_name SnapshotFile.manifest = refl

object_of : List Text → Object
object_of (d ∷ id ∷ name ∷ ss) = Object.snapshot id (file_of name)
object_of (d ∷ name ∷ []) = if text_eq name file_run then Object.run else Object.context
object_of (name ∷ []) = Object.latest_pointer
object_of [] = Object.latest_pointer

object_of-object_path : (o : Object) → object_of (object_path o) ≡ o
unfolding object_of text_eq
object_of-object_path (Object.snapshot id f) = ap (Object.snapshot id) (file_of-file_name f)
object_of-object_path Object.run = refl
object_of-object_path Object.context = refl
object_of-object_path Object.latest_pointer = refl

identity_of : List Text → Identity
identity_of (c ∷ n ∷ e ∷ u ∷ ss) = record {
  cluster_id = c;
  namespace = n;
  env_name = e;
  env_uid = u;
}
identity_of _ = record { cluster_id = []; namespace = []; env_name = []; env_uid = [] }

places_injective :
    (i j : Identity) (o q : Object)
    → identity_segments i ++ object_path o ≡ identity_segments j ++ object_path q
    → (i ≡ j) × (o ≡ q)
unfolding identity_segments identity_of
places_injective i j o q h = (
  ap identity_of h,
  sym (object_of-object_path o) ∙ ap (λ ss. object_of (drop 4 ss)) h ∙ object_of-object_path q,
)

-- No two objects share a key: where two identities under the same prefix are accepted, and an object
-- of the one has the key of an object of the other, the identities and the objects are the same.
pub keys_separate :
    (prefix : Text) (i j : Identity) (l m : Layout) (o q : Object) (k : Text)
    → new_layout prefix i ≡ inr l
    → new_layout prefix j ≡ inr m
    → key l o ≡ inr k
    → key m q ≡ inr k
    → (i ≡ j) × (o ≡ q)
keys_separate prefix i j l m o q k hl hm ho hq = places_injective i j o q (
    append_cancel_left (prefix_segments prefix) _ _
      (sym (key-place prefix i l o k hl ho) ∙ key-place prefix j m q k hm hq))
