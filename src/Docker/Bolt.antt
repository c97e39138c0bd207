-- ===== src/Docker/Bolt.antt =====
-- go.etcd.io/bbolt and encoding/json, as docker-operator/internal/store uses them.
--
-- A bucket is the list of its entries in the order that ForEach visits them; Get finds an entry by its
-- key. Put, Delete and the commit of a transaction are parameters, since bbolt is not part of the
-- repository: where Put and Delete succeed, they do what their documentation says.
use ai_sandbox.Base.{Bool, true, Option, Text, ◌≡◌, ◌⊎◌, inr}
use ai_sandbox.Base.Dict.{Dict, insert, erase}

abbrev pub Bucket : Type 0
Bucket = Dict Text

pub record Bolt : Type 0 where
  pub put : Bucket → Text → Text → Text ⊎ Bucket
  pub delete : Bucket → Text → Text ⊎ Bucket
  pub commit : Bucket → Option Text
  pub put_lem : (b b' : Bucket) (k v : Text) → put b k v ≡ inr b' → b' ≡ insert k v b
  pub delete_lem : (b b' : Bucket) (k : Text) → delete b k ≡ inr b' → b' ≡ erase k b

-- The JSON encoding of a type. A plain value is one that the encoding keeps whole: its strings are
-- valid UTF-8 and its times are in UTC without a monotonic reading.
pub record Json (A : Type 0) : Type 0 where
  pub marshal : A → Text ⊎ Text
  pub unmarshal : Text → Text ⊎ A
  pub plain : A → Bool
  pub unmarshal-marshal :
      (a : A) (raw : Text) → plain a ≡ true → marshal a ≡ inr raw → unmarshal raw ≡ inr a
