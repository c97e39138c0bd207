-- ===== src/Lifecycle/Apply/Conditions.antt =====
-- The conditions that Apply leaves in the status, by the documented laws of SetStatusCondition.
use mathlib.Core.Path.{subst}
use ai_sandbox.Base.{
  ◌≡◌, refl, inl, inr, List, [], ◌∷◌, Option, none, some, if◌then◌else◌, Bool-cases,
}
use ai_sandbox.Api.Condition.{
  ConditionType, Condition, ApiMachinery, type_eq, eq_of_type_eq, merged,
}
use ai_sandbox.Lifecycle.Apply.{set_conditions}

-- The first condition of a type in a decision.
unfoldable pub find_in : ConditionType → List Condition → Option Condition
find_in t [] = none
find_in t (c ∷ cs) = if type_eq c.type t then some c else find_in t cs

-- No two conditions have one type.
abbrev pub Distinct : List Condition → Type 0
Distinct [] = Unit
Distinct (c ∷ cs) = (find_in c.type cs ≡ none) × Distinct cs

-- What is found after a set: the merged condition, or what was there.
abbrev pub updated : Option Condition → Option Condition → Option Condition
updated old none = old
updated old (some c) = some (merged old c)

module _ ⦃k : ApiMachinery⦄ where
  -- Of every type that the new conditions have, the merged condition is found, and of every other
  -- type what was there before.
  find-set_conditions :
      (existing cs : List Condition) (t : ConditionType)
      → Distinct cs
      → k.find_status_condition (set_conditions existing cs) t
        ≡ updated (k.find_status_condition existing t) (find_in t cs)
  unfolding set_conditions find_in
  find-set_conditions existing [] t h = refl
  find-set_conditions existing (c ∷ cs) t h = elim (Bool-cases (type_eq c.type t)) [
    | inr e ↦
        rw (find-set_conditions (k.set_status_condition existing c) cs t h.1)
          (rw (k.find-set_ne existing c t e) (rw e refl))
    | inl e ↦
        let same : c.type ≡ t = eq_of_type_eq c.type t e in
        let alone : find_in t cs ≡ none = subst (λ u. find_in u cs ≡ none) same h.0 in
        let found : k.find_status_condition (k.set_status_condition existing c) t
            ≡ some (merged (k.find_status_condition existing t) c) =
          subst
            (λ u.
              k.find_status_condition (k.set_status_condition existing c) u
              ≡ some (merged (k.find_status_condition existing u) c))
            same (k.find-set_self existing c) in
        rw (find-set_conditions (k.set_status_condition existing c) cs t h.1)
          (rw (alone, found, e) refl)
  ]
