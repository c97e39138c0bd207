-- ===== src/Base/Dict.antt =====
-- Maps with texts as keys, as lists in the order of the keys.
use Prim.Native.Nat.{ℕ, ◌+◌}
use mathlib.Core.Path.{◌≡◌, refl}
use mathlib.Core.Bool.{Bool, true}
use mathlib.Core.Option.{Option, none, some}
use mathlib.Core.List.{List, [], ◌∷◌}
use native.Mathlib.Omega.{arith}
use ai_sandbox.Base.Tests.{if◌then◌else◌}
use ai_sandbox.Base.Bytes.{
  Text, text_eq, text_eq_refl, eq_of_text_eq, lt_text, lt_text-cotrans, lt_text-asym,
  text_eq-lt_text,
}

abbrev pub Dict {ℓ} : Type ℓ → Type ℓ
Dict V = List (Text × V)

module _ {ℓ} {V : Type ℓ} where
  abbrev pub lookup : Text → Dict V → Option V
  lookup k [] = none
  lookup k ((j, v) ∷ d) = if text_eq k j then some v else lookup k d

  abbrev pub insert : Text → V → Dict V → Dict V
  insert k v [] = (k, v) ∷ []
  insert k v ((j, w) ∷ d) =
      let rest = insert k v d in
      if text_eq k j then (k, v) ∷ d else if lt_text k j then (k, v) ∷ (j, w) ∷ d else (j, w) ∷ rest

  abbrev pub erase : Text → Dict V → Dict V
  erase k [] = []
  erase k ((j, v) ∷ d) = let rest = erase k d in if text_eq k j then d else (j, v) ∷ rest

  -- The key stands before all keys of the map.
  abbrev pub Before : Text → Dict V → Type 0
  Before k [] = Unit
  Before k ((j, v) ∷ d) = (lt_text k j ≡ true) × Before k d

  -- The keys ascend, so each stands once.
  abbrev pub Ascends : Dict V → Type 0
  Ascends [] = Unit
  Ascends ((k, v) ∷ d) = Before k d × Ascends d

  -- The number of values that a test picks.
  abbrev pub count : (V → Bool) → Dict V → ℕ
  count p [] = 0
  count p ((k, v) ∷ d) = (if p v then 1 else 0) + count p d

  abbrev pub picks : (V → Bool) → Option V → ℕ
  picks p none = 0
  picks p (some v) = if p v then 1 else 0

  pub lookup-insert :
      (j k : Text) (v : V) (d : Dict V)
      → lookup j (insert k v d) ≡ (if text_eq j k then some v else lookup j d)
  lookup-insert j k v [] = refl
  lookup-insert j k v ((i, w) ∷ d) =
      ground (arith, eq_of_text_eq j k, eq_of_text_eq k i, text_eq_refl k, lookup-insert j k v d)

  pub Before-lookup : (k : Text) (d : Dict V) → Before k d → lookup k d ≡ none
  Before-lookup k [] h = refl
  Before-lookup k ((j, v) ∷ d) h = ground (arith, text_eq-lt_text k j, Before-lookup k d)

  pub Before-trans : (j k : Text) (d : Dict V) → lt_text j k ≡ true → Before k d → Before j d
  Before-trans j k [] h b = tt
  Before-trans j k ((i, v) ∷ d) h b =
      ground (arith, lt_text-cotrans j i k, lt_text-asym k i, Before-trans j k d h)

  pub Before-insert :
      (j k : Text) (v : V) (d : Dict V) → lt_text j k ≡ true → Before j d → Before j (insert k v d)
  Before-insert j k v [] h b = (h, tt)
  Before-insert j k v ((i, w) ∷ d) h b = ground (arith, Before-insert j k v d h)

  pub insert-Ascends : (k : Text) (v : V) (d : Dict V) → Ascends d → Ascends (insert k v d)
  insert-Ascends k v [] a = (tt, tt)
  insert-Ascends k v ((j, w) ∷ d) a = ground (
    arith,
    eq_of_text_eq k j,
    insert-Ascends k v d,
    text_eq-lt_text k j,
    Before-trans k j d,
    Before-insert j k v d,
  )

  pub Before-erase : (j k : Text) (d : Dict V) → Before j d → Before j (erase k d)
  Before-erase j k [] b = tt
  Before-erase j k ((i, w) ∷ d) b = ground (arith, Before-erase j k d)

  pub erase-Ascends : (k : Text) (d : Dict V) → Ascends d → Ascends (erase k d)
  erase-Ascends k [] a = tt
  erase-Ascends k ((j, w) ∷ d) a = ground (arith, erase-Ascends k d, Before-erase j k d)

  pub lookup-erase :
      (j k : Text) (d : Dict V)
      → Ascends d
      → lookup j (erase k d) ≡ (if text_eq j k then none else lookup j d)
  lookup-erase j k [] a = ground arith
  lookup-erase j k ((i, w) ∷ d) a = ground (
    arith,
    eq_of_text_eq j k,
    eq_of_text_eq k i,
    text_eq_refl k,
    lookup-erase j k d,
    Before-lookup i d,
  )

  pub count-insert :
      (p : V → Bool) (k : Text) (v : V) (d : Dict V)
      → Ascends d
      → count p (insert k v d) + picks p (lookup k d) ≡ count p d + picks p (some v)
  count-insert p k v [] a = ground arith
  count-insert p k v ((j, w) ∷ d) a =
      ground (arith, eq_of_text_eq k j, count-insert p k v d, Before-lookup k d, Before-trans k j d)

  pub count-erase :
      (p : V → Bool) (k : Text) (d : Dict V)
      → Ascends d
      → count p (erase k d) + picks p (lookup k d) ≡ count p d
  count-erase p k [] a = ground arith
  count-erase p k ((j, w) ∷ d) a = ground (arith, count-erase p k d)
