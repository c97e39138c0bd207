-- ===== src/Docker/Records.antt =====
-- docker-operator/internal/store: the records of a kind, in a BoltDB bucket, as store.go, template.go,
-- cronagent.go and schedulerun.go read and write them alike.
--
-- A method takes ctx.Err() and the clock's reading where it uses them, and returns its result with the
-- new state of the database.
pub mod Holds
pub mod Transactions
use ai_sandbox.Base.{ℕ, Bool, List, [], ◌∷◌, Option, none, some, is_some, Text, ◌⊎◌, inl, inr}
use ai_sandbox.Base.Dict.{Dict, lookup}
use ai_sandbox.Docker.Bolt.{Bucket, Bolt, Json}

-- A kind of record with the key that it is stored under.
pub record Keyed (A : Type 0) : Type 0 where
  pub key_of : A → Text

-- The errors of the store; not_found and exists are those of the kind of record that a method is about. Those of ctx, bbolt, encoding/json and a mutator are their texts.
pub data StoreError : Type 0 where
  cancelled bolt_error encoding decoding mutator : Text → StoreError
  empty_id not_found exists bucket_missing : StoreError
  at_capacity : ℕ → StoreError
  id_changed created_at_changed unknown_status name_exists in_use : StoreError

-- A bucket of the database, none where it is missing.
abbrev pub Db : Type 0
Db = Option Bucket

-- db.View with a bucket, after the test of ctx.
unfoldable pub view : {A : Type 0} → Option Text → Db → (Bucket → StoreError ⊎ A) → StoreError ⊎ A
view (some e) db fn = inl (StoreError.cancelled e)
view none db fn = elim db [ none ↦ inl StoreError.bucket_missing | some b ↦ fn b ]

module _ {A : Type 0} ⦃json : Json A⦄ where
  unfoldable pub decode : Text → StoreError ⊎ A
  decode raw = elim (json.unmarshal raw) [ inl e ↦ inl (StoreError.decoding e) | inr a ↦ inr a ]

  unfoldable pub get : Option Text → Text → Db → StoreError ⊎ A
  get ctx id db =
      view ctx db
        λ b. elim (lookup id b) [ none ↦ inl StoreError.not_found | some raw ↦ decode raw ]

  unfoldable pub decode_all : Bucket → StoreError ⊎ List A
  decode_all [] = inr []
  decode_all ((k, raw) ∷ b) =
      let rest = decode_all b in
      elim (decode raw) [
        | inl e ↦ inl e
        | inr a ↦ elim rest [ inl e ↦ inl e | inr others ↦ inr (a ∷ others) ]
      ]

  unfoldable pub list : Option Text → Db → StoreError ⊎ List A
  list ctx db = view ctx db decode_all

module _ ⦃bolt : Bolt⦄ where
  -- db.Update with a bucket: an error of the function or of the commit leaves the state.
  unfoldable pub update_bucket :
      {A : Type 0} → Option Text → Db → (Bucket → StoreError ⊎ (A × Bucket)) → (StoreError ⊎ A) × Db
  update_bucket (some e) db fn = (inl (StoreError.cancelled e), db)
  update_bucket none none fn = (inl StoreError.bucket_missing, none)
  update_bucket none (some b) fn = elim (fn b) [
    | inl e ↦ (inl e, some b)
    | inr (a, b') ↦ elim (bolt.commit b') [
      | some e ↦ (inl (StoreError.bolt_error e), some b)
      | none ↦ (inr a, some b')
    ]
  ]

  -- The transaction of Delete.
  unfoldable pub delete_in : Text → Bucket → StoreError ⊎ (Unit {0} × Bucket)
  delete_in id b = elim (bolt.delete b id) [
    | inl e ↦ inl (StoreError.bolt_error e)
    | inr b' ↦ inr (tt, b')
  ]

  unfoldable pub delete : Option Text → Text → Db → (StoreError ⊎ Unit {0}) × Db
  delete ctx id db = update_bucket ctx db (delete_in id)

module _ {A : Type 0} ⦃bolt : Bolt⦄ ⦃json : Json A⦄ ⦃keyed : Keyed A⦄ where
  unfoldable pub put : Bucket → A → StoreError ⊎ Bucket
  put b a = elim (json.marshal a) [
    | inl e ↦ inl (StoreError.encoding e)
    | inr raw ↦ elim (bolt.put b (keyed.key_of a) raw) [
      | inl e ↦ inl (StoreError.bolt_error e)
      | inr b' ↦ inr b'
    ]
  ]
