-- ===== src/Docker/Store/Create.antt =====
-- docker-operator/internal/store/store.go: Create keeps the cap on live agents.
use ai_sandbox.Base.{
  ℕ, ◌+◌, ◌≤◌, ◌<◌, ◌≢◌, true, [], Option, none, Text, text_eq, ◌⊎◌, inl, inr, ◌≡◌, refl, arith,
  Bool-cases, leb, leb→le,
}
use ai_sandbox.Base.Dict.{Dict, lookup, insert, count, count-insert, Ascends, insert-Ascends}
use ai_sandbox.Docker.Bolt.{Bucket, Bolt, Json}
use ai_sandbox.Docker.Store.{
  keyed_agent, Agent, CreateSpec, create_in, create, created, counts_toward_capacity,
}
use ai_sandbox.Docker.Records.{StoreError, Db, update_bucket}
use ai_sandbox.Docker.Records.Holds.{Holds, Holds-lookup}
use ai_sandbox.Docker.Store.Reserved.{count_reserved-count, reserved}
use ai_sandbox.Docker.Records.Transactions.{Represents, update_bucket-cases, put-cases}

module _ ⦃bolt : Bolt⦄ ⦃json : Json Agent⦄ where
  -- What the results of Create's transaction say of the records.
  abbrev InCreate : ℕ → Agent → Dict Agent → StoreError ⊎ (Agent × Bucket) → Type 0
  InCreate max_agents agent r (inr (a, b')) =
      (a ≡ agent)
      × (lookup agent.id r ≡ none)
      × (count reserved r < max_agents)
      × Holds b' (insert agent.id agent r)
  InCreate max_agents agent r (inl StoreError.exists) = lookup agent.id r ≢ none
  InCreate max_agents agent r (inl (StoreError.at_capacity n)) =
      (lookup agent.id r ≡ none) × (n ≡ count reserved r) × (max_agents ≤ n)
  InCreate max_agents agent r (inl e) = Unit

  create_in-lem :
      (max_agents : ℕ) (agent : Agent) (b : Bucket) (r : Dict Agent)
      → Holds b r
      → json.plain agent ≡ true
      → InCreate max_agents agent r (create_in max_agents agent b)
  unfolding create_in
  create_in-lem max_agents agent b r h p = elim (Holds-lookup agent.id b r h) [
    | inr (raw, a, l, m, _, _) ↦ rw (create_in, l) (λ e. cc (m, e))
    | inl (l, m) ↦
        let c = count_reserved-count b r h in
        elim (Bool-cases (leb max_agents (count reserved r))) [
          | inl full ↦
              rw (create_in, l, c, full) (m, refl, leb→le max_agents (count reserved r) full)
          | inr free ↦ elim (put-cases b r agent h p) [
            | inl (e, q) ↦ rw (create_in, l, c, free, q) tt
            | inr (inl (e, q)) ↦ rw (create_in, l, c, free, q) tt
            | inr (inr (b', q, g)) ↦
                rw (create_in, l, c, free, q) (refl, m, ground (arith, free), g)
          ]
        ]
  ]

  -- Why Create refuses.
  abbrev pub Refused : ℕ → Agent → Dict Agent → StoreError → Type 0
  Refused max_agents agent r StoreError.exists = lookup agent.id r ≢ none
  Refused max_agents agent r (StoreError.at_capacity n) =
      (lookup agent.id r ≡ none) × (n ≡ count reserved r) × (max_agents ≤ n)
  Refused max_agents agent r e = Unit

  -- What a result of Create says of the records before and after it.
  abbrev pub Created : ℕ → Agent → Dict Agent → Db → (StoreError ⊎ Agent) × Db → Type 0
  Created max_agents agent r db (inr a, db') =
      (a ≡ agent)
      × (lookup agent.id r ≡ none)
      × Represents db' (insert agent.id agent r)
      × (count reserved (insert agent.id agent r) ≡ count reserved r + 1)
      × (count reserved r + 1 ≤ max_agents)
  Created max_agents agent r db (inl e, db') = (db' ≡ db) × Refused max_agents agent r e

  InCreate-Refused :
      (max_agents : ℕ) (agent : Agent) (r : Dict Agent) (e : StoreError)
      → InCreate max_agents agent r (inl e)
      → Refused max_agents agent r e
  InCreate-Refused max_agents agent r StoreError.exists h = h
  InCreate-Refused max_agents agent r (StoreError.at_capacity n) h = h
  InCreate-Refused max_agents agent r _ h = tt

  count-insert-created :
      (spec : CreateSpec) (now : ℕ) (r : Dict Agent)
      → Ascends r
      → lookup spec.id r ≡ none
      → count reserved (insert spec.id (created spec now) r) ≡ count reserved r + 1
  unfolding created counts_toward_capacity
  count-insert-created spec now r a l =
      let e = count-insert reserved spec.id (created spec now) r a in
      let e' = rw l at e in omega (arith, e')

  update_bucket-Created :
      (max_agents now : ℕ) (ctx : Option Text) (spec : CreateSpec) (db : Db) (r : Dict Agent)
      → Represents db r
      → json.plain (created spec now) ≡ true
      → Created max_agents
          (created spec now)
          r
          db
          (update_bucket ctx db (create_in max_agents (created spec now)))
  unfolding created
  update_bucket-Created max_agents now ctx spec db r (b, d, h, asc) p =
      let agent = created spec now in
      let t = create_in-lem max_agents agent b r h p in
      elim (update_bucket-cases ctx db b (create_in max_agents agent) d) [
        | inl (e, q) ↦ rw q (refl, tt)
        | inr (inl (e, q, w)) ↦ rw w (refl, InCreate-Refused max_agents agent r e (rw q at t))
        | inr (inr (inl (e, q))) ↦ rw q (refl, tt)
        | inr (inr (inr (a, b', _, q, w))) ↦
            let t' : InCreate max_agents agent r (inr (a, b')) = rw q at t in
            rw w (
              t'.0,
              t'.1,
              (b', refl, t'.3, insert-Ascends agent.id agent r asc),
              count-insert-created spec now r asc t'.1,
              omega (arith, t'.2),
            )
      ]

  -- Create inserts the new record exactly once, with the status creating, and only while fewer than the
  -- cap of the records hold a slot, so that the cap is kept; an error leaves the database as it was,
  -- ErrExists means that the ID is taken, and ErrAtCapacity that the slots are all in use. It holds
  -- where the new record can be encoded whole.
  pub create-Created :
      (max_agents now : ℕ) (ctx : Option Text) (spec : CreateSpec) (db : Db) (r : Dict Agent)
      → Represents db r
      → json.plain (created spec now) ≡ true
      → Created max_agents (created spec now) r db (create max_agents now ctx spec db)
  unfolding create
  create-Created max_agents now ctx spec db r h p = elim (Bool-cases (text_eq spec.id [])) [
    | inl e ↦ rw e (refl, tt)
    | inr e ↦ rw e (update_bucket-Created max_agents now ctx spec db r h p)
  ]
