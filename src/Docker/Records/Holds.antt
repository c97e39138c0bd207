-- ===== src/Docker/Records/Holds.antt =====
-- docker-operator/internal/store: the records that a bucket holds.
use ai_sandbox.Base.{
  List, [], ◌∷◌, none, some, Text, text_eq, ◌⊎◌, inl, inr, ◌≡◌, refl, eq_of_text_eq, Bool-cases,
  sym, ◌∙◌, lt_text,
}
use ai_sandbox.Base.Dict.{Dict, lookup, insert, erase}
use ai_sandbox.Docker.Bolt.{Bucket, Json}
use ai_sandbox.Docker.Records.{Keyed, decode, decode_all}

module _ {A : Type 0} ⦃json : Json A⦄ ⦃keyed : Keyed A⦄ where
  -- Each entry is the encoding of the record of that key.
  abbrev pub Holds : Bucket → Dict A → Type 0
  Holds [] [] = Unit
  Holds [] (_ ∷ _) = ⊥
  Holds (_ ∷ _) [] = ⊥
  Holds ((k, raw) ∷ b) ((j, a) ∷ r) =
      (k ≡ j) × (keyed.key_of a ≡ j) × (json.unmarshal raw ≡ inr a) × Holds b r

  pub Holds-lookup :
      (k : Text) (b : Bucket) (r : Dict A)
      → Holds b r
      → ((lookup k b ≡ none) × (lookup k r ≡ none))
        ⊎ ((raw : Text) × (a : A) × (lookup k b ≡ some raw)
            × (lookup k r ≡ some a)
            × (json.unmarshal raw ≡ inr a)
            × (keyed.key_of a ≡ k))
  Holds-lookup k [] [] h = inl (refl, refl)
  Holds-lookup k [] (_ ∷ _) h = absurd h
  Holds-lookup k (_ ∷ _) [] h = absurd h
  Holds-lookup k ((i, raw) ∷ b) ((j, a) ∷ r) h = elim (Bool-cases (text_eq k j)) [
    | inl e ↦ rw (h.0, e) (inr (raw, a, refl, refl, h.2, h.1 ∙ sym (eq_of_text_eq k j e)))
    | inr e ↦ rw (h.0, e) (Holds-lookup k b r h.3)
  ]

  pub Holds-insert :
      (k raw : Text) (a : A) (b : Bucket) (r : Dict A)
      → Holds b r
      → keyed.key_of a ≡ k
      → json.unmarshal raw ≡ inr a
      → Holds (insert k raw b) (insert k a r)
  Holds-insert k raw a [] [] h e u = (refl, e, u, tt)
  Holds-insert k raw a [] (_ ∷ _) h e u = absurd h
  Holds-insert k raw a (_ ∷ _) [] h e u = absurd h
  Holds-insert k raw a ((i, _) ∷ b) ((j, _) ∷ r) h e u = elim (Bool-cases (text_eq k j)) [
    | inl q ↦ rw (h.0, q) (refl, e, u, h.3)
    | inr q ↦ elim (Bool-cases (lt_text k j)) [
      | inl l ↦ rw (h.0, q, l) (refl, e, u, (refl, h.1, h.2, h.3))
      | inr l ↦ rw (h.0, q, l) (refl, h.1, h.2, Holds-insert k raw a b r h.3 e u)
    ]
  ]

  pub Holds-erase : (k : Text) (b : Bucket) (r : Dict A) → Holds b r → Holds (erase k b) (erase k r)
  Holds-erase k [] [] h = tt
  Holds-erase k [] (_ ∷ _) h = absurd h
  Holds-erase k (_ ∷ _) [] h = absurd h
  Holds-erase k ((i, _) ∷ b) ((j, _) ∷ r) h = elim (Bool-cases (text_eq k j)) [
    | inl q ↦ rw (h.0, q) h.3
    | inr q ↦ rw (h.0, q) (refl, h.1, h.2, Holds-erase k b r h.3)
  ]

  pub decode-inr : (raw : Text) (a : A) → json.unmarshal raw ≡ inr a → decode raw ≡ inr a
  unfolding decode
  decode-inr raw a h = rw (decode, h)

  -- The records of a map, in the order of the keys.
  abbrev pub values : Dict A → List A
  values [] = []
  values ((k, a) ∷ r) = a ∷ values r

  pub decode_all-values : (b : Bucket) (r : Dict A) → Holds b r → decode_all b ≡ inr (values r)
  unfolding decode_all
  decode_all-values [] [] h = refl
  decode_all-values [] (_ ∷ _) h = absurd h
  decode_all-values (_ ∷ _) [] h = absurd h
  decode_all-values ((i, raw) ∷ b) ((j, a) ∷ r) h =
      rw (decode_all, decode-inr raw a h.2, decode_all-values b r h.3) refl
