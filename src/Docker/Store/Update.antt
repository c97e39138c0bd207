-- ===== src/Docker/Store/Update.antt =====
-- docker-operator/internal/store/store.go: Update is atomic and keeps what is immutable.
use ai_sandbox.Base.{
  ℕ, Bool, true, false, Option, none, some, Text, eq_of_text_eq, ◌⊎◌, inl, inr, ◌≡◌, refl, sym, ◌∙◌,
  arith, Option-cases, Sum-cases,
}
use ai_sandbox.Base.Dict.{Dict, lookup, insert, insert-Ascends}
use ai_sandbox.Docker.Bolt.{Bucket, Bolt, Json}
use ai_sandbox.Docker.Store.{keyed_agent, Agent, update_in, update, check_invariants, valid}
use ai_sandbox.Docker.Records.{StoreError, Db}
use ai_sandbox.Docker.Records.Holds.{Holds, Holds-lookup, decode-inr}
use ai_sandbox.Docker.Records.Transactions.{Represents, update_bucket-cases, put-cases}

-- What a mutator may not change, and what it may not leave.
abbrev pub Keeps : Agent → Agent → Type 0
Keeps before after =
    (after.id ≡ before.id) × (after.created_at ≡ before.created_at) × (valid after.status ≡ true)

check_invariants-Keeps :
    (before after : Agent) → check_invariants before after ≡ none → Keeps before after
unfolding check_invariants
check_invariants-Keeps before after h = ground (arith, h, eq_of_text_eq after.id before.id)

-- The errors of check_invariants, encoding/json, bbolt and a mutator, none of which says that the
-- record is missing.
not_found? : StoreError → Bool
not_found? StoreError.not_found = true
not_found? _ = false

check_invariants-not_found? :
    (before after : Agent) (e : StoreError)
    → check_invariants before after ≡ some e
    → not_found? e ≡ false
unfolding check_invariants not_found?
check_invariants-not_found? before after e h = ground (arith, h)

module _ ⦃bolt : Bolt⦄ ⦃json : Json Agent⦄ (now : ℕ) (id : Text)
    (mutate : Agent → Text ⊎ Agent) where
  abbrev pub stamped : Agent → Agent
  stamped after = record after { updated_at = now }

  -- What the mutator makes of the stored record can be encoded whole.
  abbrev pub LeavesPlain : Dict Agent → Type 0
  LeavesPlain r =
      (before after : Agent)
      → lookup id r ≡ some before
      → mutate before ≡ inr after
      → json.plain (stamped after) ≡ true

  abbrev InUpdate : Dict Agent → StoreError ⊎ (Agent × Bucket) → Type 0
  InUpdate r (inr (a, b')) =
      (before : Agent) × (after : Agent) × (lookup id r ≡ some before)
      × (mutate before ≡ inr after)
      × Keeps before after
      × (a ≡ stamped after)
      × Holds b' (insert id a r)
  InUpdate r (inl e) = not_found? e ≡ true → lookup id r ≡ none

  update_in-lem :
      (b : Bucket) (r : Dict Agent)
      → Holds b r
      → LeavesPlain r
      → InUpdate r (update_in now id mutate b)
  unfolding update_in not_found?
  update_in-lem b r h p = elim (Holds-lookup id b r h) [
    | inl (l, m) ↦ rw (update_in, l) (λ _. m)
    | inr (raw, before, l, m, u, i) ↦
        let d = decode-inr raw before u in
        elim (Sum-cases (mutate before)) [
          | inl (e, q) ↦ rw (update_in, l, d, q) (λ f. cc)
          | inr (after, q) ↦ elim (Option-cases (check_invariants before after)) [
            | inr (e, c) ↦
                let f = check_invariants-not_found? before after e c in
                rw (update_in, l, d, q, c) (λ g. cc)
            | inl c ↦
                let keeps = check_invariants-Keeps before after c in
                elim (put-cases b r (stamped after) h (p before after m q)) [
                  | inl (e, w) ↦ rw (update_in, l, d, q, c, w) (λ f. cc)
                  | inr (inl (e, w)) ↦ rw (update_in, l, d, q, c, w) (λ f. cc)
                  | inr (inr (b', w, g)) ↦
                      rw (update_in, l, d, q, c, w)
                        (before, after, m, q, keeps, refl, rw (sym (keeps.0 ∙ i)) g)
                ]
          ]
        ]
  ]

  -- What a result of Update says of the records before and after it.
  abbrev pub Updated : Dict Agent → Db → (StoreError ⊎ Agent) × Db → Type 0
  Updated r db (inr a, db') =
      (before : Agent) × (after : Agent) × (lookup id r ≡ some before)
      × (mutate before ≡ inr after)
      × Keeps before after
      × (a ≡ stamped after)
      × Represents db' (insert id a r)
  Updated r db (inl e, db') = (db' ≡ db) × (e ≡ StoreError.not_found → lookup id r ≡ none)

  not_found-not_found? : (e : StoreError) → e ≡ StoreError.not_found → not_found? e ≡ true
  unfolding not_found?
  not_found-not_found? e h = rw h refl

  -- Update writes what the mutator makes of the stored record, stamped with the time, over that record
  -- alone, with the ID and the creation time kept and a defined status; an error leaves the database as
  -- it was, and ErrNotFound means that there is no such record. It holds where the stamped record
  -- that the mutator makes of the stored one, if it makes one, can be encoded whole.
  pub update-Updated :
      (ctx : Option Text) (db : Db) (r : Dict Agent)
      → Represents db r
      → LeavesPlain r
      → Updated r db (update now ctx id mutate db)
  unfolding update
  update-Updated ctx db r (b, d, h, asc) p =
      let t = update_in-lem b r h p in
      elim (update_bucket-cases ctx db b (update_in now id mutate) d) [
        | inl (e, q) ↦ rw q (refl, λ f. cc)
        | inr (inl (e, q, w)) ↦
            let t' : InUpdate r (inl e) = rw q at t in
            rw w (refl, λ f. t' (not_found-not_found? e f))
        | inr (inr (inl (e, q))) ↦ rw q (refl, λ f. cc)
        | inr (inr (inr (a, b', _, q, w))) ↦
            let t' : InUpdate r (inr (a, b')) = rw q at t in
            rw w (t'.0, t'.1, t'.2, t'.3, t'.4, t'.5, (b', refl, t'.6, insert-Ascends id a r asc))
      ]
