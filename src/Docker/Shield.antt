-- ===== src/Docker/Shield.antt =====
-- docker-operator/internal/agent/reconcile.go: markShielded, which StopAgent, ResumeAgent and wakeAgent
-- use to begin the recreation of a container.
use mathlib.Core.Sum.{inr-injective, inl-ne-inr}
use ai_sandbox.Base.{
  ℕ, ◌+◌, Bool, true, false, [], Option, some, Text, codes, text_eq, eq_of_text_eq, ◌⊎◌, inl, inr,
  ◌≡◌, sym, arith, Bool-cases, ap, if◌then◌else◌,
}
use ai_sandbox.Base.Dict.{Dict, lookup, insert, count, count-insert, Ascends}
use ai_sandbox.Docker.Bolt.{Bolt, Json}
use ai_sandbox.Docker.Store.{keyed_agent, Agent, Status, update, counts_toward_capacity}
use ai_sandbox.Docker.Records.{StoreError, Db}
use ai_sandbox.Docker.Store.Reserved.{reserved}
use ai_sandbox.Docker.Records.Transactions.{Represents}
use ai_sandbox.Docker.Store.Update.{update-Updated, Updated, LeavesPlain}

-- Go's `==` on statuses.
unfoldable pub status_eq : Status → Status → Bool
status_eq Status.creating Status.creating = true
status_eq Status.running Status.running = true
status_eq Status.stopped Status.stopped = true
status_eq Status.error Status.error = true
status_eq Status.deleting Status.deleting = true
status_eq Status.updating Status.updating = true
status_eq (Status.other s) (Status.other t) = text_eq s t
status_eq _ _ = false

eq_of_status_eq : (s t : Status) → status_eq s t ≡ true → s ≡ t
unfolding status_eq
eq_of_status_eq (Status.other s) (Status.other t) h = ap Status.other (eq_of_text_eq s t h)
eq_of_status_eq _ _ h = ground arith

abbrev pub shield_stand_down : Text
shield_stand_down = codes "the record no longer matches the expected status"

unfoldable pub shield : Status → Agent → Text ⊎ Agent
shield from ag =
    if status_eq ag.status from
    then inr (record ag { status = Status.updating; error_message = [] })
    else inl shield_stand_down

-- errors.Is(err, errShieldStandDown).
unfoldable pub is_stand_down : StoreError → Bool
is_stand_down (StoreError.mutator e) = text_eq e shield_stand_down
is_stand_down _ = false

unfoldable pub shield_result : StoreError ⊎ Agent → StoreError ⊎ Bool
shield_result (inl e) = if is_stand_down e then inr false else inl e
shield_result (inr a) = inr true

module _ ⦃bolt : Bolt⦄ ⦃json : Json Agent⦄ where
  unfoldable pub mark_shielded : ℕ → Option Text → Text → Status → Db → (StoreError ⊎ Bool) × Db
  mark_shielded now ctx id from db =
      let (result, db') = update now ctx id (shield from) db in (shield_result result, db')

  -- What the result of an Update by `shield` says of the records.
  abbrev pub Shielded : Text → Status → Dict Agent → Db → StoreError ⊎ Bool → Db → Type 0
  Shielded id from r db (inr true) db' =
      (before : Agent) × (after : Agent) × (lookup id r ≡ some before)
      × (before.status ≡ from)
      × (after.status ≡ Status.updating)
      × Represents db' (insert id after r)
      × (count reserved (insert id after r)
          ≡ (if counts_toward_capacity from then count reserved r else count reserved r + 1))
  Shielded id from r db (inr false) db' = db' ≡ db
  Shielded id from r db (inl e) db' = db' ≡ db

  shield-inr :
      (from : Status) (before after : Agent)
      → shield from before ≡ inr after
      → (before.status ≡ from) × (after.status ≡ Status.updating)
  unfolding shield
  shield-inr from before after h = elim (Bool-cases (status_eq before.status from)) [
    | inl e ↦ (
      eq_of_status_eq before.status from e,
      ap (λ a. a.status) (sym (inr-injective _ _ (rw (shield, e) at h))),
    )
    | inr e ↦ absurd (inl-ne-inr (rw (shield, e) at h))
  ]

  count-shielded :
      (id : Text) (from : Status) (before a : Agent) (r : Dict Agent)
      → Ascends r
      → lookup id r ≡ some before
      → before.status ≡ from
      → a.status ≡ Status.updating
      → count reserved (insert id a r)
        ≡ (if counts_toward_capacity from then count reserved r else count reserved r + 1)
  unfolding counts_toward_capacity
  count-shielded id from before a r asc l f u =
      let e = rw (l, f, u) at (count-insert reserved id a r asc) in ground (arith, e)

  update-Shielded :
      (now : ℕ) (id : Text) (from : Status) (db : Db) (r : Dict Agent)
      → Ascends r
      → (x : (StoreError ⊎ Agent) × Db) → Updated now id (shield from) r db x
      → Shielded id from r db (shield_result x.0) x.1
  unfolding shield_result
  update-Shielded now id from db r asc (inl e, db') (u, _) = elim (Bool-cases (is_stand_down e)) [
    | inl s ↦ rw s u
    | inr s ↦ rw s u
  ]
  update-Shielded now id from db r asc (inr a, db') (before, after, l, m, k, e, h) =
      let s = shield-inr from before after m in
      let t : a.status ≡ Status.updating = rw e s.1 in
      (before, a, l, s.0, t, h, count-shielded id from before a r asc l s.0 t)

  -- Shielding an agent takes the status from the expected one to updating; where the expected status
  -- holds no slot, as with a stopped agent that is resumed, this takes one more slot, whatever the cap
  -- is. Where the status is another one, or the write fails, nothing changes. It holds where the shielded
  -- form of the stored record can be encoded whole.
  pub mark_shielded-Shielded :
      (now : ℕ) (ctx : Option Text) (id : Text) (from : Status) (db : Db) (r : Dict Agent)
      → Represents db r
      → LeavesPlain now id (shield from) r
      → let (result, db') = mark_shielded now ctx id from db in Shielded id from r db result db'
  unfolding mark_shielded
  mark_shielded-Shielded now ctx id from db r h p =
      update-Shielded now id from db r h.3 (update now ctx id (shield from) db)
        (update-Updated now id (shield from) ctx db r h p)
