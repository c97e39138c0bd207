-- ===== src/Scheduler.antt =====
-- operator/internal/scheduler/admit.go: who holds compute, who waits, and who is admitted.
pub mod Order
pub mod Keys
pub mod Admission
use ai_sandbox.Base.{
  ℕ, zero, suc, ◌+◌, Bool, true, false, not, ◌&&◌, ◌||◌, List, [], ◌∷◌, Option, none, some, Text,
  text_eq, lt_text, ltb, leb, ◌==◌, length, if◌then◌else◌, is_some,
}
use ai_sandbox.Base.Int.{ℤ, pos, pos_part, neg_part, sub_ℕ, ltb_ℤ, leb_ℤ}
use ai_sandbox.Api.Phase.{Phase, phase_eq}
use ai_sandbox.Api.Environment.{SandboxEnvironment}

pub record Grant : Type 0 where
  pub namespace : Text
  pub name : Text
  pub uid : Text
  pub position : ℕ

unfoldable pub occupies : SandboxEnvironment → Bool
unfolding phase_eq
occupies env =
    if env.status.slot.granted
    then true
    else phase_eq env.status.phase Phase.restoring
      || (phase_eq env.status.phase Phase.running || phase_eq env.status.phase Phase.freezing)

unfoldable pub is_candidate : SandboxEnvironment → Bool
unfolding phase_eq
is_candidate env =
    phase_eq env.status.phase Phase.ready
    && (not env.spec.suspend
        && (not (is_some env.deletion_timestamp) && not env.status.slot.granted))

-- The occupancy and the candidates, in one pass.
unfoldable pub partition : List SandboxEnvironment → ℕ × List SandboxEnvironment
unfolding occupies is_candidate
partition [] = (0, [])
partition (env ∷ items) =
    let (occupancy, candidates) = partition items in
    if occupies env
    then (suc occupancy, candidates)
    else if is_candidate env
    then (occupancy, env ∷ candidates)
    else (occupancy, candidates)

-- The last three keys of less(): UID, namespace, name.
unfoldable pub less_identity : SandboxEnvironment → SandboxEnvironment → Bool
less_identity a b =
    if not (text_eq a.uid b.uid)
    then lt_text a.uid b.uid
    else if not (text_eq a.namespace b.namespace)
    then lt_text a.namespace b.namespace
    else lt_text a.name b.name

-- The `switch` on queuedSince, with the tie broken by `tie`.
unfoldable pub less_queued : Option ℕ → Option ℕ → Bool → Bool
less_queued none none tie = tie
less_queued none (some b) tie = false
less_queued (some a) none tie = true
less_queued (some a) (some b) tie = if not (a == b) then ltb a b else tie

unfoldable pub less : SandboxEnvironment → SandboxEnvironment → Bool
less a b =
    if ltb_ℤ a.spec.priority b.spec.priority || ltb_ℤ b.spec.priority a.spec.priority
    then ltb_ℤ b.spec.priority a.spec.priority
    else less_queued a.status.queued_since b.status.queued_since (less_identity a b)

-- sort.SliceStable: an element goes before the later ones that it is not after.
unfoldable pub insert : SandboxEnvironment → List SandboxEnvironment → List SandboxEnvironment
insert x [] = x ∷ []
insert x (y ∷ ys) = if less y x then y ∷ insert x ys else x ∷ y ∷ ys

unfoldable pub order : List SandboxEnvironment → List SandboxEnvironment
unfolding insert
order [] = []
order (x ∷ xs) = insert x (order xs)

-- The loop of Admit: `n` grants from the element at index `i` on.
unfoldable pub grants_from : ℕ → ℕ → List SandboxEnvironment → List Grant
grants_from zero i ordered = []
grants_from (suc n) i [] = []
grants_from (suc n) i (e ∷ ordered) =
    record { namespace = e.namespace; name = e.name; uid = e.uid; position = i + 1 }
    ∷ grants_from n (i + 1) ordered

-- `capacity - occupancy`, an int.
unfoldable pub remaining_slots : ℕ → ℤ → ℤ
remaining_slots occupancy capacity = sub_ℕ (pos_part capacity) (neg_part capacity + occupancy)

unfoldable pub admit : List SandboxEnvironment → ℕ → ℤ → List Grant
unfolding order grants_from
admit candidates occupancy capacity =
    let remaining = remaining_slots occupancy capacity in
    if leb_ℤ remaining (pos 0) || length candidates == 0
    then []
    else let ordered = order candidates in
      let n =
        if ltb (length ordered) (pos_part remaining) then length ordered else pos_part remaining in
      grants_from n 0 ordered

-- The loop of QueuePosition: the 1-based position of a UID, 0 where it is not found.
unfoldable pub position_from : ℕ → Text → List SandboxEnvironment → ℕ
position_from i uid [] = 0
position_from i uid (e ∷ ordered) =
    let rest = position_from (i + 1) uid ordered in if text_eq e.uid uid then i + 1 else rest

unfoldable pub queue_position : List SandboxEnvironment → Text → ℕ × ℕ
unfolding order position_from
queue_position candidates uid =
    let ordered = order candidates in (position_from 0 uid ordered, length ordered)
