-- ===== src/Docker/Templates/Deletion.antt =====
-- docker-operator/internal/store/template.go: no template that a cron agent refers to is deleted.
use ai_sandbox.Base.{
  Bool, Bool-cases, true, false, [], ◌∷◌, Option, none, some, Text, text_eq, ◌≡◌, ◌≢◌, refl, arith,
  if◌then◌else◌, ◌⊎◌, inl, inr, Sum-cases,
}
use mathlib.Core.Sum.{inr-injective}
use mathlib.Core.Path.{subst}
use ai_sandbox.Base.Dict.{Dict, erase}
use ai_sandbox.Docker.Bolt.{Bucket, Bolt, Json}
use ai_sandbox.Docker.Records.{Db, StoreError, decode, delete, delete_in}
use ai_sandbox.Docker.Records.Holds.{Holds, decode-inr}
use ai_sandbox.Docker.Records.Transactions.{Represents, delete-Represents, update_bucket-cases}
use ai_sandbox.Docker.CronAgents.{CronAgent, keyed_cron_agent}
use ai_sandbox.Docker.Templates.{
  Template, keyed_template, delete_template, delete_unused, in_use_by, scan,
}

-- No cron agent refers to the template.
abbrev pub Unused : Text → Dict CronAgent → Type 0
Unused id [] = Unit
Unused id ((k, ca) ∷ r) = (text_eq ca.template_id id ≡ false) × Unused id r

-- Every cron agent has an ID.
abbrev pub Named : Dict CronAgent → Type 0
Named [] = Unit
Named ((k, ca) ∷ r) = (text_eq k [] ≡ false) × Named r

module _ ⦃json : Json CronAgent⦄ where
  scan_seen : (id user raw : Text) → text_eq user [] ≡ false → scan id user raw ≡ inr user
  unfolding scan
  scan_seen id user raw h = rw h refl

  in_use_by_seen :
      (id user : Text) (b : Bucket) → text_eq user [] ≡ false → in_use_by id user b ≡ inr user
  unfolding in_use_by
  in_use_by_seen id user [] h = refl
  in_use_by_seen id user ((k, raw) ∷ b) h =
      rw (in_use_by, scan_seen id user raw h) (in_use_by_seen id user b h)

  scan_first :
      (id raw : Text) (ca : CronAgent)
      → decode raw ≡ inr ca
      → scan id [] raw ≡ inr (if text_eq ca.template_id id then ca.id else [])
  unfolding scan text_eq
  scan_first id raw ca h = rw h refl

  -- The scan ends with no ID exactly where no cron agent refers to the template.
  in_use_by-Unused :
      (id : Text) (b : Bucket) (r : Dict CronAgent)
      → Holds b r
      → Named r
      → (user : Text) × (in_use_by id [] b ≡ inr user)
        × ((text_eq user [] ≡ true) → Unused id r)
        × (Unused id r → text_eq user [] ≡ true)
  unfolding in_use_by text_eq
  in_use_by-Unused id [] [] h n = ([], refl, (λ e. tt), λ e. refl)
  in_use_by-Unused id [] (_ ∷ _) h n = absurd h
  in_use_by-Unused id (_ ∷ _) [] h n = absurd h
  in_use_by-Unused id ((i, raw) ∷ b) ((j, ca) ∷ r) h n =
      let first = scan_first id raw ca (decode-inr raw ca h.2) in
      elim (Bool-cases (text_eq ca.template_id id)) [
        | inl e ↦
            let named : text_eq ca.id [] ≡ false = rw (h.1) n.0 in
            (
              ca.id,
              rw (in_use_by, first, e) (in_use_by_seen id ca.id b named),
              (λ f. ground (arith, f, named)),
              λ f. ground (arith, f, e),
            )
        | inr e ↦
            let (user, q, to, from) = in_use_by-Unused id b r h.3 n.1 in
            (user, rw (in_use_by, first, e) q, (λ f. (e, to f)), λ f. from f.1)
      ]

-- The errors of a deletion without a reference.
in_use? : StoreError → Bool
in_use? StoreError.in_use = true
in_use? _ = false

in_use-in_use? : (e : StoreError) → in_use? e ≡ false → e ≢ StoreError.in_use
unfolding in_use?
in_use-in_use? e h q = ground (arith, subst (λ x. in_use? x ≡ false) q h)

delete_in-in_use? :
    ⦃bolt : Bolt⦄ (id : Text) (b : Bucket) (t : StoreError)
    → delete_in id b ≡ inl t
    → in_use? t ≡ false
unfolding delete_in in_use?
delete_in-in_use? ⦃bolt⦄ id b t h = elim (Sum-cases (bolt.delete b id)) [
  | inl (e, q) ↦ ground (arith, rw (delete_in, q) at h)
  | inr (b', q) ↦ ground (arith, rw (delete_in, q) at h)
]

module _ ⦃bolt : Bolt⦄ ⦃json : Json Template⦄ ⦃cron_json : Json CronAgent⦄ (id : Text)
    (rc : Dict CronAgent) (r : Dict Template) where
  -- What a result of DeleteTemplate says of the records before and after it.
  abbrev pub Deleted : Db → (StoreError ⊎ Unit {0}) × Db → Type 0
  Deleted db (inr x, db') = Unused id rc × Represents db' (erase id r)
  Deleted db (inl e, db') = (db' ≡ db) × (e ≡ StoreError.in_use → Unused id rc → ⊥)

  delete-Deleted : (db : Db) → Represents db r → Unused id rc → Deleted db (delete none id db)
  unfolding delete in_use?
  delete-Deleted db h u = elim (update_bucket-cases none db h.0 (delete_in id) h.1) [
    | inl (t, q) ↦ rw q (refl, λ f. cc)
    | inr (inl (t, q, w)) ↦ rw w (refl, λ f v. in_use-in_use? t (delete_in-in_use? id h.0 t q) f)
    | inr (inr (inl (t, q))) ↦ rw q (refl, λ f. cc)
    | inr (inr (inr (a, b', _, q, w))) ↦ rw w (u, delete-Represents none id db (some b') r h w)
  ]

  delete_unused-Deleted :
      (x : StoreError ⊎ Text) (user : Text) (db : Db)
      → x ≡ inr user
      → ((text_eq user [] ≡ true) → Unused id rc)
      → (Unused id rc → text_eq user [] ≡ true)
      → Represents db r
      → Deleted db (delete_unused id x db)
  unfolding delete_unused
  delete_unused-Deleted (inl e) user db q to from h = absurd (ground (arith, q))
  delete_unused-Deleted (inr name) user db q to from h = elim (Bool-cases (text_eq name [])) [
    | inl e ↦ rw e (delete-Deleted db h (to (rw (inr-injective _ _ q) at e)))
    | inr e ↦ rw e (refl, λ f u. ground (arith, from u, rw (inr-injective _ _ q) at e))
  ]

  -- DeleteTemplate takes a template away, and it alone, only where no cron agent refers to it, and
  -- refuses it with ErrTemplateInUse only where one does; an error leaves the templates as they were.
  -- It assumes that the cron agents have IDs, as CreateCronAgent requires.
  pub delete_template-Deleted :
      (ctx : Option Text) (cron db : Db)
      → Represents cron rc
      → Named rc
      → Represents db r
      → Deleted db (delete_template ctx id cron db)
  unfolding delete_template
  delete_template-Deleted (some e) cron db hc n h = (refl, λ f. cc)
  delete_template-Deleted none cron db (cb, d, hc, _) n h =
      let (user, q, to, from) = in_use_by-Unused id cb rc hc n in
      rw (d, delete_template) (delete_unused-Deleted (in_use_by id [] cb) user db q to from h)
