-- ===== src/Controller/RootKeys.antt =====
-- operator/internal/controller/retentiongc.go: the prefix that is listed, and the root of a listed key.
use ai_sandbox.Base.{
  ℕ, zero, suc, ◌==◌, ◌||◌, List, [], ◌∷◌, ◌++◌, Option, none, some, Text, text_eq, trim_prefix,
  if◌then◌else◌,
}
use ai_sandbox.Storage.Path.{slash, join_slash}

-- strings.TrimSuffix(s, "/").
unfoldable pub trim_slash : Text → Text
trim_slash [] = []
trim_slash (c ∷ []) = if c == slash then [] else c ∷ []
trim_slash (c ∷ d ∷ s) = c ∷ trim_slash (d ∷ s)

unfoldable pub cluster_prefix : Text → Text → Text
cluster_prefix s3_prefix cluster_id =
    if text_eq s3_prefix []
    then cluster_id ++ slash ∷ []
    else trim_slash s3_prefix ++ slash ∷ (cluster_id ++ slash ∷ [])

-- The part before the first slash, and what follows that slash.
unfoldable pub cut_first : Text → Text × Option Text
cut_first [] = ([], none)
cut_first (c ∷ s) =
    let rest = cut_first s in if c == slash then ([], some s) else (c ∷ rest.0, rest.1)

-- strings.SplitN(s, "/", n + 1).
unfoldable pub split_n : ℕ → Text → List Text
split_n zero s = s ∷ []
split_n (suc n) s = (cut_first s).0 ∷ elim (cut_first s).1 [ none ↦ [] | some t ↦ split_n n t ]

-- The results of rootOf.
pub record RootOf : Type 0 where
  pub root : Text
  pub namespace : Text
  pub uid : Text

unfoldable pub root_of_parts : Text → List Text → Option RootOf
root_of_parts list_prefix (ns ∷ name ∷ uid ∷ parts) =
    if text_eq ns [] || (text_eq name [] || text_eq uid [])
    then none
    else some (record {
      root = list_prefix ++ join_slash (ns ∷ name ∷ uid ∷ []);
      namespace = ns;
      uid = uid;
    })
root_of_parts list_prefix _ = none

unfoldable pub root_of : Text → Text → Option RootOf
root_of list_prefix key =
    let rest = trim_prefix key list_prefix in
    if text_eq rest key then none else root_of_parts list_prefix (split_n 3 rest)
