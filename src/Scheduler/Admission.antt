-- ===== src/Scheduler/Admission.antt =====
-- Admission: how many are granted, who they are, and how the queue position foretells it.
use ai_sandbox.Base.{
  ℕ, zero, suc, ◌+◌, ◌-◌, ◌≤◌, ◌<◌, ◌≡◌, refl, ◌⊎◌, inl, inr, min, max, Bool, false, ◌&&◌, ◌||◌,
  List, [], ◌∷◌, Text, text_eq, leb, ltb, ◌==◌, length, if◌then◌else◌, Bool-cases, arith,
}
use ai_sandbox.Base.Int.{ℤ, pos, pos_part, leb_ℤ}
use ai_sandbox.Api.Environment.{SandboxEnvironment}
use ai_sandbox.Scheduler.{
  Grant, insert, order, grants_from, remaining_slots, admit, position_from, queue_position,
}

length-insert :
    (x : SandboxEnvironment) (ys : List SandboxEnvironment) → length (insert x ys) ≡ suc (length ys)
unfolding insert
length-insert x [] = refl
length-insert x (y ∷ ys) = ground (arith, length-insert x ys)

length-order : (xs : List SandboxEnvironment) → length (order xs) ≡ length xs
unfolding order
length-order [] = refl
length-order (x ∷ xs) = ground (arith, length-insert x (order xs), length-order xs)

length-grants_from :
    (n i : ℕ) (xs : List SandboxEnvironment) → length (grants_from n i xs) ≡ min n (length xs)
unfolding grants_from
length-grants_from zero i xs = omega arith
length-grants_from (suc n) i [] = omega arith
length-grants_from (suc n) i (x ∷ xs) = omega (arith, length-grants_from n (i + 1) xs)

-- Admit grants the first candidates in order, as many as there are free slots.
admit_lem :
    (candidates : List SandboxEnvironment) (occupancy : ℕ) (capacity : ℤ)
    → admit candidates occupancy capacity
      ≡ grants_from
          (min (pos_part (remaining_slots occupancy capacity)) (length (order candidates)))
          0
          (order candidates)
unfolding admit
admit_lem candidates occupancy capacity =
    let r = remaining_slots occupancy capacity in
    let n = length (order candidates) in
    elim (Bool-cases (leb_ℤ r (pos 0) || length candidates == 0)) [
      | inl e ↦
          let z : min (pos_part r) n ≡ 0 = ground (arith, length-order candidates) in rw (e, z) refl
      | inr e ↦
          let z : min (pos_part r) n ≡ (if ltb n (pos_part r) then n else pos_part r) =
            ground arith in
          rw (e, z) refl
    ]

length-admit :
    (candidates : List SandboxEnvironment) (occupancy : ℕ) (capacity : ℤ)
    → length (admit candidates occupancy capacity)
      ≡ min (pos_part (remaining_slots occupancy capacity)) (length candidates)
length-admit candidates occupancy capacity =
    let n = min (pos_part (remaining_slots occupancy capacity)) (length (order candidates)) in
    rw (admit_lem candidates occupancy capacity)
      (omega (arith, length-grants_from n 0 (order candidates), length-order candidates))

-- A pass admits exactly the lesser of the free slots and the candidates, so that the occupancy after
-- it is within the capacity, or was above it before and has not grown.
pub admit_bounds :
    (candidates : List SandboxEnvironment) (occupancy : ℕ) (capacity : ℤ)
    → let granted = length (admit candidates occupancy capacity) in
      (granted ≡ min (pos_part capacity - occupancy) (length candidates))
      × (occupancy + granted ≤ max occupancy (pos_part capacity))
unfolding remaining_slots
admit_bounds candidates occupancy capacity =
    ground (arith, length-admit candidates occupancy capacity)

abbrev pub grants_uid : Text → List Grant → Bool
grants_uid uid [] = false
grants_uid uid (g ∷ grants) = text_eq g.uid uid || grants_uid uid grants

position_from_bounds :
    (i : ℕ) (uid : Text) (xs : List SandboxEnvironment)
    → ((position_from i uid xs ≡ 0) ⊎ (i < position_from i uid xs))
      × (position_from i uid xs ≤ i + length xs)
unfolding position_from
position_from_bounds i uid [] = (inl refl, omega arith)
position_from_bounds i uid (x ∷ xs) = ground (arith, position_from_bounds (i + 1) uid xs)

grants_uid-grants_from :
    (n i : ℕ) (uid : Text) (xs : List SandboxEnvironment)
    → grants_uid uid (grants_from n i xs)
      ≡ (ltb i (position_from i uid xs) && leb (position_from i uid xs) (i + n))
unfolding grants_from position_from
grants_uid-grants_from zero i uid xs = ground (arith, position_from_bounds i uid xs)
grants_uid-grants_from (suc n) i uid [] = ground arith
grants_uid-grants_from (suc n) i uid (x ∷ xs) =
    ground (arith, grants_uid-grants_from n (i + 1) uid xs, position_from_bounds (i + 1) uid xs)

-- QueuePosition foretells Admit: a UID is granted exactly when it has a position in the queue, and
-- that is at most the number of free slots.
pub queue_position-admit :
    (candidates : List SandboxEnvironment) (uid : Text) (occupancy : ℕ) (capacity : ℤ)
    → let position = (queue_position candidates uid).0 in
      grants_uid uid (admit candidates occupancy capacity)
      ≡ (ltb 0 position && leb position (pos_part (remaining_slots occupancy capacity)))
unfolding queue_position
queue_position-admit candidates uid occupancy capacity =
    let n = min (pos_part (remaining_slots occupancy capacity)) (length (order candidates)) in
    rw (admit_lem candidates occupancy capacity) (
      ground (
        arith,
        grants_uid-grants_from n 0 uid (order candidates),
        position_from_bounds 0 uid (order candidates),
      ))
