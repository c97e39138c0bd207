-- ===== src/Docker/Store/Race.antt =====
-- docker-operator/internal/store/store.go: Creates that race for the slots. bbolt runs one read-write
-- transaction at a time, so racing calls are a sequence of calls.
use ai_sandbox.Base.{
  ℕ, suc, ◌-◌, ◌≤◌, ◌<◌, min, true, false, List, [], ◌∷◌, none, some, Text, text_eq, ◌⊎◌, inl, inr,
  ◌≡◌, refl, arith, Bool-cases, leb, leb→le, length, All,
}
use ai_sandbox.Base.Dict.{Dict, lookup, insert, lookup-insert, count}
use ai_sandbox.Docker.Bolt.{Bucket, Bolt, Json}
use ai_sandbox.Docker.Store.{keyed_agent, Agent, CreateSpec, create_in, create, created}
use ai_sandbox.Docker.Records.{StoreError, Db, put, update_bucket}
use ai_sandbox.Docker.Records.Holds.{Holds, Holds-lookup}
use ai_sandbox.Docker.Store.Reserved.{count_reserved-count, reserved}
use ai_sandbox.Docker.Records.Transactions.{Represents}
use ai_sandbox.Docker.Store.Create.{create-Created, Created}

-- Each ID is new to the ones after it.
abbrev pub Distinct : List CreateSpec → Type 0
Distinct [] = Unit
Distinct (s ∷ ss) = All (λ t. text_eq t.id s.id ≡ false) ss × Distinct ss

-- An ID that can be inserted.
abbrev pub Fresh : Dict Agent → CreateSpec → Type 0
Fresh r s = (text_eq s.id [] ≡ false) × (lookup s.id r ≡ none)

pub successes : List (StoreError ⊎ Agent) → ℕ
successes [] = 0
successes (inl e ∷ rs) = successes rs
successes (inr a ∷ rs) = suc (successes rs)

Fresh-insert :
    (s : CreateSpec) (a : Agent) (r : Dict Agent) (ss : List CreateSpec)
    → All (Fresh r) ss
    → All (λ t. text_eq t.id s.id ≡ false) ss
    → All (Fresh (insert s.id a r)) ss
Fresh-insert s a r [] f u = tt
Fresh-insert s a r (t ∷ ss) (f, fs) (u, us) =
    ((f.0, rw (lookup-insert t.id s.id a r, u) f.1), Fresh-insert s a r ss fs us)

module _ ⦃bolt : Bolt⦄ ⦃json : Json Agent⦄ where
  -- Calls of Create, one after the other.
  pub create_all : ℕ → ℕ → List CreateSpec → Db → List (StoreError ⊎ Agent) × Db
  create_all max_agents now [] db = ([], db)
  create_all max_agents now (spec ∷ specs) db =
      let (result, db') = create max_agents now none spec db in
      let (results, db'') = create_all max_agents now specs db' in (result ∷ results, db'')

  -- The record of a specification can be encoded whole, and bbolt stores it under its ID.
  abbrev pub Storable : ℕ → CreateSpec → Type 0
  Storable now s =
      (raw : Text) × (json.marshal (created s now) ≡ inr raw)
      × ((b : Bucket)
          → (bolt.put b s.id raw ≡ inr (insert s.id raw b))
            × (bolt.commit (insert s.id raw b) ≡ none))
      × (json.plain (created s now) ≡ true)

  created-id : (spec : CreateSpec) (now : ℕ) → (created spec now).id ≡ spec.id
  unfolding created
  created-id spec now = refl

  Holds-none :
      (k : Text) (b : Bucket) (r : Dict Agent) → Holds b r → lookup k r ≡ none → lookup k b ≡ none
  Holds-none k b r h e = elim (Holds-lookup k b r h) [
    | inl (l, _) ↦ l
    | inr (raw, a, l, m, _, _) ↦ cc (m, e)
  ]

  create-free :
      (max_agents now : ℕ) (spec : CreateSpec) (db : Db) (r : Dict Agent)
      → Storable now spec
      → Represents db r
      → Fresh r spec
      → count reserved r < max_agents
      → (db' : Db) × (create max_agents now none spec db ≡ (inr (created spec now), db'))
  unfolding create update_bucket created create_in put
  create-free max_agents now spec db r (raw, m, stores, _) (b, d, h, asc) (ne, fresh) lt =
      let l = Holds-none spec.id b r h fresh in
      let c = count_reserved-count b r h in
      let free : leb max_agents (count reserved r) ≡ false = ground arith in
      let (p, q) = stores b in
      (
        some (insert spec.id raw b),
        rw
            (
              ne,
              d,
              update_bucket,
              create_in,
              created-id spec now,
              l,
              c,
              free,
              put,
              m,
              created-id spec now,
              p,
              q,
            )
            refl,
      )

  create-full :
      (max_agents now : ℕ) (spec : CreateSpec) (db : Db) (r : Dict Agent)
      → Represents db r
      → Fresh r spec
      → max_agents ≤ count reserved r
      → create max_agents now none spec db ≡ (inl (StoreError.at_capacity (count reserved r)), db)
  unfolding create update_bucket created create_in
  create-full max_agents now spec db r (b, d, h, asc) (ne, fresh) le =
      let l = Holds-none spec.id b r h fresh in
      let c = count_reserved-count b r h in
      let full : leb max_agents (count reserved r) ≡ true = ground arith in
      rw (ne, d, update_bucket, create_in, l, c, full) refl

  -- Of Creates with new and distinct IDs exactly as many succeed as there are free slots, however they
  -- race, where the records of these Creates can be encoded whole and bbolt fails neither to put them
  -- under their IDs nor to commit them.
  pub create_all-successes :
      (max_agents now : ℕ) (specs : List CreateSpec) (db : Db) (r : Dict Agent)
      → All (Storable now) specs
      → Represents db r
      → All (Fresh r) specs
      → Distinct specs
      → successes (create_all max_agents now specs db).0
        ≡ min (length specs) (max_agents - count reserved r)
  unfolding create_all successes created
  create_all-successes max_agents now [] db r ok h f u = omega arith
  create_all-successes max_agents now (s ∷ ss) db r (ok, oks) h (f, fs) (u, us) =
      elim (Bool-cases (leb max_agents (count reserved r))) [
        | inl full ↦
            let e =
              create-full max_agents now s db r h f (leb→le max_agents (count reserved r) full) in
            rw e (
              omega (
                arith,
                create_all-successes max_agents now ss db r oks h fs us,
                leb→le max_agents (count reserved r) full,
              ))
        | inr free ↦
            let lt : count reserved r < max_agents = ground arith in
            let (db', e) = create-free max_agents now s db r ok h f lt in
            let c : Created max_agents (created s now) r db (inr (created s now), db') =
              rw e at (create-Created max_agents now none s db r h ok.3) in
            let ih =
              create_all-successes max_agents now ss db' (insert s.id (created s now) r) oks c.2
                (Fresh-insert s (created s now) r ss fs u) us in
            rw e (omega (arith, ih, c.3, c.4))
      ]
