-- ===== src/Storage/Path.antt =====
-- operator/internal/storage/path.go: the object keys of an environment.
--
-- A function that returns (T, error) returns a sum with the error on the left. Every error of this file
-- is of the kind ErrInvalid; InvalidKey tells its messages apart. A loop over the runes of a string
-- whose tests concern ASCII characters only is a loop over its bytes.
use ai_sandbox.Base.{
  ◌&&◌, ◌++◌, ◌==◌, ◌||◌, ◌⊎◌, Bool, List, Option, Text, [], codes, false, if◌then◌else◌, inl, inr,
  length, ltb, none, not, some, text_eq, true, ◌∷◌, ℕ,
}
use Prim.Native.String.{String}
pub mod Segments
pub mod Roots
pub mod Keys
pub mod Separate

abbrev pub slash : ℕ
slash = 47

abbrev pub dir_snapshots : Text
dir_snapshots = codes "snapshots"

abbrev pub dir_archive : Text
dir_archive = codes "archive"

abbrev pub file_workspace : Text
file_workspace = codes "workspace.tar.zst"

abbrev pub file_agent_home : Text
file_agent_home = codes "agent-home.tar.zst"

abbrev pub file_manifest : Text
file_manifest = codes "manifest.json"

abbrev pub file_run : Text
file_run = codes "run.json"

abbrev pub file_context : Text
file_context = codes "context.tar.zst"

abbrev pub file_latest : Text
file_latest = codes "latest.json"

abbrev pub max_total_key_len : ℕ
max_total_key_len = 1024

abbrev pub max_segment_len : ℕ
max_segment_len = 255

-- Identity names one SandboxEnvironment.
pub record Identity : Type 0 where
  pub cluster_id : Text
  pub namespace : Text
  pub env_name : Text
  pub env_uid : Text

pub record Layout : Type 0 where
  pub prefix : Text
  pub identity : Identity

-- The errors of the file.
pub data InvalidKey : Type 0 where
  cluster_id_required : InvalidKey
  namespace_required : InvalidKey
  env_name_required : InvalidKey
  env_uid_required : InvalidKey
  segment_empty : InvalidKey
  segment_dots : InvalidKey
  segment_too_long : InvalidKey
  segment_character : InvalidKey
  in_prefix : InvalidKey → InvalidKey
  in_snapshot_id : InvalidKey → InvalidKey
  root_too_long : InvalidKey

-- The test of one byte in validateSegment.
unfoldable pub disallowed : ℕ → Bool
disallowed r = r == slash || r == 92 || r == 0 || ltb r 32 || r == 127

unfoldable pub allowed_all : Text → Bool
allowed_all [] = true
allowed_all (r ∷ s) = not (disallowed r) && allowed_all s

unfoldable pub validate_segment : Text → Option InvalidKey
validate_segment seg =
    if text_eq seg []
    then some InvalidKey.segment_empty
    else if text_eq seg (codes ".") || text_eq seg (codes "..")
    then some InvalidKey.segment_dots
    else if ltb max_segment_len (length seg)
    then some InvalidKey.segment_too_long
    else if allowed_all seg
    then none
    else some InvalidKey.segment_character

-- The first error among the segments.
unfoldable pub validate_segments : List Text → Option InvalidKey
validate_segments [] = none
validate_segments (seg ∷ segs) =
    let rest = validate_segments segs in
    elim (validate_segment seg) [ none ↦ rest | some e ↦ some e ]

-- strings.Split(s, "/"), as the part before the first slash and the list of the others.
unfoldable pub cut : Text → Text × List Text
cut [] = ([], [])
cut (c ∷ s) = let rest = cut s in if c == slash then ([], rest.0 ∷ rest.1) else (c ∷ rest.0, rest.1)

unfoldable pub split : Text → List Text
split s = (cut s).0 ∷ (cut s).1

unfoldable pub non_empty : List Text → List Text
non_empty [] = []
non_empty (p ∷ parts) = let rest = non_empty parts in if text_eq p [] then rest else p ∷ rest

-- strings.Join(parts, "/").
unfoldable pub join_slash : List Text → Text
join_slash [] = []
join_slash (p ∷ []) = p
join_slash (p ∷ q ∷ parts) = p ++ slash ∷ join_slash (q ∷ parts)

unfoldable pub join : List Text → Text
join parts = join_slash (non_empty parts)

unfoldable pub root : Layout → Text
root l = join (
    l.prefix ∷ l.identity.cluster_id ∷ l.identity.namespace ∷ l.identity.env_name
    ∷ l.identity.env_uid ∷ [])

unfoldable pub validate : Layout → Option InvalidKey
validate l =
    if text_eq l.identity.cluster_id []
    then some InvalidKey.cluster_id_required
    else if text_eq l.identity.namespace []
    then some InvalidKey.namespace_required
    else if text_eq l.identity.env_name []
    then some InvalidKey.env_name_required
    else if text_eq l.identity.env_uid []
    then some InvalidKey.env_uid_required
    else elim (validate_segments (
        l.identity.cluster_id ∷ l.identity.namespace ∷ l.identity.env_name ∷ l.identity.env_uid
        ∷ [])) [
          | some e ↦ some e
          | none ↦ elim (if text_eq l.prefix [] then none else validate_segments (split l.prefix)) [
            | some e ↦ some (InvalidKey.in_prefix e)
            | none ↦
                if ltb max_total_key_len (length (root l))
                then some InvalidKey.root_too_long
                else none
          ]
        ]

unfoldable pub snapshots_prefix : Layout → Text
snapshots_prefix l = join (root l ∷ dir_snapshots ∷ [])

unfoldable pub snapshot_file_by_id : Layout → Text → Text → InvalidKey ⊎ Text
snapshot_file_by_id l id name = elim (validate_segment id) [
  | some e ↦ inl (InvalidKey.in_snapshot_id e)
  | none ↦ inr (join (snapshots_prefix l ∷ id ∷ name ∷ []))
]

unfoldable pub archive_prefix : Layout → Text
archive_prefix l = join (root l ∷ dir_archive ∷ [])

unfoldable pub archive_run : Layout → Text
archive_run l = join (archive_prefix l ∷ file_run ∷ [])

unfoldable pub archive_context : Layout → Text
archive_context l = join (archive_prefix l ∷ file_context ∷ [])

unfoldable pub latest : Layout → Text
latest l = join (root l ∷ file_latest ∷ [])

unfoldable pub new_layout : Text → Identity → InvalidKey ⊎ Layout
new_layout prefix id =
    let l : Layout = record { prefix = prefix; identity = id } in
    elim (validate l) [ some e ↦ inl e | none ↦ inr l ]
