-- ===== src/Docker/Records/Transactions.antt =====
-- docker-operator/internal/store: what a transaction does to the records.
use ai_sandbox.Base.{
  true, Option, none, some, Text, ◌⊎◌, inl, inr, ◌≡◌, refl, Option-cases, Sum-cases, arith, ap, sym,
  ◌∙◌,
}
use ai_sandbox.Base.Dict.{Dict, insert, erase, Ascends, erase-Ascends}
use ai_sandbox.Docker.Bolt.{Bucket, Bolt, Json}
use ai_sandbox.Docker.Records.{Keyed, StoreError, Db, put, update_bucket, delete, delete_in}
use ai_sandbox.Docker.Records.Holds.{Holds, Holds-insert, Holds-erase}

module _ {A : Type 0} ⦃json : Json A⦄ ⦃keyed : Keyed A⦄ where
  -- The database holds these records.
  abbrev pub Represents : Db → Dict A → Type 0
  Represents db r = (b : Bucket) × (db ≡ some b) × Holds b r × Ascends r

module _ ⦃bolt : Bolt⦄ where
  -- A transaction commits its result and its bucket, or leaves the database as it was.
  pub update_bucket-cases :
      {A : Type 0} (ctx : Option Text) (db : Db) (b : Bucket)
      (fn : Bucket → StoreError ⊎ (A × Bucket))
      → db ≡ some b
      → ((e : Text) × (update_bucket ctx db fn ≡ (inl (StoreError.cancelled e), db)))
        ⊎ ((e : StoreError) × (fn b ≡ inl e) × (update_bucket ctx db fn ≡ (inl e, db)))
        ⊎ ((e : Text) × (update_bucket ctx db fn ≡ (inl (StoreError.bolt_error e), db)))
        ⊎ ((a : A) × (b' : Bucket) × (ctx ≡ none)
            × (fn b ≡ inr (a, b'))
            × (update_bucket ctx db fn ≡ (inr a, some b')))
  unfolding update_bucket
  update_bucket-cases (some e) db b fn h = inl (e, refl)
  update_bucket-cases none db b fn h = elim (Sum-cases (fn b)) [
    | inl (e, q) ↦ inr (inl (e, q, rw (h, update_bucket, q) refl))
    | inr ((a, b'), q) ↦ elim (Option-cases (bolt.commit b')) [
      | inr (e, c) ↦ inr (inr (inl (e, rw (h, update_bucket, q, c) refl)))
      | inl c ↦ inr (inr (inr (a, b', refl, q, rw (h, update_bucket, q, c) refl)))
    ]
  ]

module _ {A : Type 0} ⦃bolt : Bolt⦄ ⦃json : Json A⦄ ⦃keyed : Keyed A⦄ where
  pub put-cases :
      (b : Bucket) (r : Dict A) (a : A)
      → Holds b r
      → json.plain a ≡ true
      → ((e : Text) × (put b a ≡ inl (StoreError.encoding e)))
        ⊎ ((e : Text) × (put b a ≡ inl (StoreError.bolt_error e)))
        ⊎ ((b' : Bucket) × (put b a ≡ inr b') × Holds b' (insert (keyed.key_of a) a r))
  unfolding put
  put-cases b r a h p = elim (Sum-cases (json.marshal a)) [
    | inl (e, m) ↦ inl (e, rw (put, m) refl)
    | inr (raw, m) ↦ elim (Sum-cases (bolt.put b (keyed.key_of a) raw)) [
      | inl (e, q) ↦ inr (inl (e, rw (put, m, q) refl))
      | inr (b', q) ↦ inr (
          inr (
            b',
            rw (put, m, q) refl,
            rw (bolt.put_lem b b' (keyed.key_of a) raw q)
                (Holds-insert (keyed.key_of a) raw a b r h refl (json.unmarshal-marshal a raw p m)),
          ))
    ]
  ]

delete_in-inr :
    ⦃bolt : Bolt⦄ (id : Text) (b b' : Bucket) (a : Unit {0})
    → delete_in id b ≡ inr (a, b')
    → bolt.delete b id ≡ inr b'
unfolding delete_in
delete_in-inr id b b' a h = ground arith

module _ {A : Type 0} ⦃bolt : Bolt⦄ ⦃json : Json A⦄ ⦃keyed : Keyed A⦄ where
  pub delete-Represents :
      (ctx : Option Text) (id : Text) (db db' : Db) (r : Dict A)
      → Represents db r
      → delete ctx id db ≡ (inr tt, db')
      → Represents db' (erase id r)
  unfolding delete
  delete-Represents ctx id db db' r (b, d, h, asc) e =
      elim (update_bucket-cases ctx db b (delete_in id) d) [
        | inl (t, q) ↦ cc
        | inr (inl (t, q, w)) ↦ cc
        | inr (inr (inl (t, q))) ↦ cc
        | inr (inr (inr (a, b', _, q, w))) ↦ (
          b',
          sym (ap (λ p. p.1) (sym w ∙ e)),
          rw (bolt.delete_lem b b' id (delete_in-inr id b b' a q)) (Holds-erase id b r h),
          erase-Ascends id r asc,
        )
      ]

  -- A deletion takes the record away or changes nothing.
  pub delete-cases :
      (ctx : Option Text) (id : Text) (db : Db) (r : Dict A)
      → Represents db r
      → ((delete ctx id db).1 ≡ db) ⊎ Represents (delete ctx id db).1 (erase id r)
  unfolding delete
  delete-cases ctx id db r h = elim (update_bucket-cases ctx db h.0 (delete_in id) h.1) [
    | inl (t, q) ↦ inl (ap (λ x. x.1) q)
    | inr (inl (t, q, w)) ↦ inl (ap (λ x. x.1) w)
    | inr (inr (inl (t, q))) ↦ inl (ap (λ x. x.1) q)
    | inr (inr (inr (a, b', _, q, w))) ↦ inr (rw w (delete-Represents ctx id db (some b') r h w))
  ]
