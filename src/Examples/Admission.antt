-- ===== src/Examples/Admission.antt =====
-- The scheduler's theorems at a small queue.
use mathlib.Core.List.{Perm}
use ai_sandbox.Base.{
  ℕ, ◌+◌, ◌-◌, ◌≤◌, ◌≡◌, refl, min, max, ◌&&◌, List, [], ◌∷◌, some, codes, text_eq, leb, ltb,
  length, lt_text,
}
use ai_sandbox.Base.Int.{pos, pos_part}
use ai_sandbox.Api.Phase.{Phase}
use ai_sandbox.Api.Environment.{SandboxEnvironment}
use ai_sandbox.Scheduler.{
  order, admit, remaining_slots, queue_position, less, less_identity, less_queued,
}
use ai_sandbox.Scheduler.Order.{order_sorts}
use ai_sandbox.Scheduler.Keys.{IsSorted}
use ai_sandbox.Scheduler.Admission.{admit_bounds, grants_uid, queue_position-admit}
use ai_sandbox.Examples.Cluster.{sandbox, fresh_status}

abbrev queued : List ℕ → ℕ → SandboxEnvironment
queued uid since =
    record (sandbox (record fresh_status { phase = Phase.ready; queued_since = some since })) {
      uid = uid;
    }

-- Three environments that wait, the oldest in the middle.
abbrev waiting : List SandboxEnvironment
waiting = queued (codes "a") 30 ∷ queued (codes "b") 10 ∷ queued (codes "c") 20 ∷ []

oldest_first : (queue_position waiting (codes "b")).0 ≡ 1
unfolding queue_position less less_queued less_identity text_eq lt_text
oldest_first = refl

order_sorts_example : IsSorted (order waiting) × Perm (order waiting) waiting
order_sorts_example = order_sorts waiting

admit_bounds_example :
    (length (admit waiting 1 (pos 3)) ≡ min (3 - 1) 3)
    × (1 + length (admit waiting 1 (pos 3)) ≤ max 1 3)
admit_bounds_example = admit_bounds waiting 1 (pos 3)

queue_position-admit_example : grants_uid (codes "a") (admit waiting 1 (pos 3)) ≡ (
    ltb 0 (queue_position waiting (codes "a")).0
    && leb (queue_position waiting (codes "a")).0 (pos_part (remaining_slots 1 (pos 3))))
queue_position-admit_example = queue_position-admit waiting (codes "a") 1 (pos 3)
