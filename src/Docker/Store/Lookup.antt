-- ===== src/Docker/Store/Lookup.antt =====
-- docker-operator/internal/store/store.go: what Get and List find after each write.
use ai_sandbox.Base.{
  ℕ, Bool, true, false, Option, none, some, Text, text_eq, ◌⊎◌, inl, inr, ◌≡◌, refl, arith,
  if◌then◌else◌,
}
use ai_sandbox.Base.Dict.{Dict, lookup, insert, erase, lookup-insert, lookup-erase}
use ai_sandbox.Docker.Bolt.{Bolt, Json}
use ai_sandbox.Docker.Store.{keyed_agent, Agent, CreateSpec, create, created, update}
use ai_sandbox.Docker.Records.{StoreError, Db, get, list, view, delete}
use ai_sandbox.Docker.Records.Holds.{Holds-lookup, decode-inr, decode_all-values, values}
use ai_sandbox.Docker.Records.Transactions.{delete-Represents, Represents}
use ai_sandbox.Docker.Store.Create.{create-Created, Created}
use ai_sandbox.Docker.Store.Update.{update-Updated, Updated, LeavesPlain}

-- The answer of Get for what a map has.
abbrev pub found : Option Agent → StoreError ⊎ Agent
found none = inl StoreError.not_found
found (some a) = inr a

found-if :
    (t : Bool) (x y : Option Agent) → found (if t then x else y) ≡ (if t then found x else found y)
found-if true x y = refl
found-if false x y = refl

module _ ⦃json : Json Agent⦄ where
  pub get-lookup :
      (db : Db) (r : Dict Agent) (id : Text)
      → Represents db r
      → get none id db ≡ found (lookup id r)
  unfolding get view
  get-lookup db r id (b, d, h, _) = elim (Holds-lookup id b r h) [
    | inl (l, m) ↦ rw (d, m, get, view, l) refl
    | inr (raw, a, l, m, u, _) ↦ rw (d, m, get, view, l, decode-inr raw a u) refl
  ]

  pub list-values : (db : Db) (r : Dict Agent) → Represents db r → list none db ≡ inr (values r)
  unfolding list view
  list-values db r (b, d, h, _) = rw (d, list, view, decode_all-values b r h) refl

  get-insert :
      (db db' : Db) (r : Dict Agent) (k : Text) (a : Agent)
      → Represents db r
      → Represents db' (insert k a r)
      → (j : Text) → get none j db' ≡ (if text_eq j k then inr a else get none j db)
  get-insert db db' r k a h h' j =
      rw (get-lookup db' (insert k a r) j h', get-lookup db r j h, lookup-insert j k a r)
        (found-if (text_eq j k) (some a) (lookup j r))

  get-erase :
      (db db' : Db) (r : Dict Agent) (k : Text)
      → Represents db r
      → Represents db' (erase k r)
      → (j : Text)
      → get none j db'
        ≡ (if text_eq j k then inl StoreError.not_found else get {A = Agent} none j db)
  get-erase db db' r k h h' j =
      rw (get-lookup db' (erase k r) j h', get-lookup db r j h, lookup-erase j k r h.3)
        (found-if (text_eq j k) none (lookup j r))

module _ ⦃bolt : Bolt⦄ ⦃json : Json Agent⦄ where
  -- A call that writes.
  pub data Write : Type 0 where
    creation : ℕ → ℕ → CreateSpec → Write
    change : ℕ → Text → (Agent → Text ⊎ Agent) → Write
    removal : Text → Write

  -- The ID that a call is about.
  abbrev pub target : Write → Text
  target (Write.creation max_agents now spec) = spec.id
  target (Write.change now id mutate) = id
  target (Write.removal id) = id

  -- What a call writes over these records can be encoded whole.
  abbrev pub WritesPlain : Write → Dict Agent → Type 0
  WritesPlain (Write.creation max_agents now spec) r = json.plain (created spec now) ≡ true
  WritesPlain (Write.change now id mutate) r = LeavesPlain now id mutate r
  WritesPlain (Write.removal id) r = Unit

  -- A result that is the record after the call, if there is one.
  abbrev pub kept : (StoreError ⊎ Agent) × Db → (StoreError ⊎ Option Agent) × Db
  kept (inl e, db) = (inl e, db)
  kept (inr a, db) = (inr (some a), db)

  abbrev pub gone : (StoreError ⊎ Unit {0}) × Db → (StoreError ⊎ Option Agent) × Db
  gone (inl e, db) = (inl e, db)
  gone (inr _, db) = (inr none, db)

  unfoldable pub call : Option Text → Write → Db → (StoreError ⊎ Option Agent) × Db
  call ctx (Write.creation max_agents now spec) db = kept (create max_agents now ctx spec db)
  call ctx (Write.change now id mutate) db = kept (update now ctx id mutate db)
  call ctx (Write.removal id) db = gone (delete ctx id db)

  kept-inr :
      (x : (StoreError ⊎ Agent) × Db) (o : Option Agent) (db' : Db)
      → kept x ≡ (inr o, db')
      → (a : Agent) × (x ≡ (inr a, db')) × (o ≡ some a)
  kept-inr (inl e, db) o db' h = ground (arith, h)
  kept-inr (inr a, db) o db' h = (a, ground (arith, h), ground (arith, h))

  gone-inr :
      (x : (StoreError ⊎ Unit {0}) × Db) (o : Option Agent) (db' : Db)
      → gone x ≡ (inr o, db')
      → (x ≡ (inr tt, db')) × (o ≡ none)
  gone-inr (inl e, db) o db' h = ground (arith, h)
  gone-inr (inr a, db) o db' h = (ground (arith, h), ground (arith, h))

  -- Get finds what the last successful Create, Update or Delete of an ID left, the record that it
  -- returned or none, and every other record is as it was, where what the call writes can be encoded
  -- whole: the new record of a Create, and for an Update the one made of the stored record.
  pub get-call :
      (ctx : Option Text) (w : Write) (db db' : Db) (r : Dict Agent) (o : Option Agent) (j : Text)
      → Represents db r
      → WritesPlain w r
      → call ctx w db ≡ (inr o, db')
      → get none j db' ≡ (if text_eq j (target w) then found o else get none j db)
  unfolding call created
  get-call ctx (Write.creation max_agents now spec) db db' r o j h p e =
      let (a, q, f) = kept-inr (create max_agents now ctx spec db) o db' e in
      let c : Created max_agents (created spec now) r db (inr a, db') =
        rw q at (create-Created max_agents now ctx spec db r h p) in
      rw (f, c.0) (get-insert db db' r spec.id (created spec now) h c.2 j)
  get-call ctx (Write.change now id mutate) db db' r o j h p e =
      let (a, q, f) = kept-inr (update now ctx id mutate db) o db' e in
      let c : Updated now id mutate r db (inr a, db') =
        rw q at (update-Updated now id mutate ctx db r h p) in
      rw f (get-insert db db' r id a h c.6 j)
  get-call ctx (Write.removal id) db db' r o j h p e =
      let (q, f) = gone-inr (delete ctx id db) o db' e in
      rw f (get-erase db db' r id h (delete-Represents ctx id db db' r h q) j)
