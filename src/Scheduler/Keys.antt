-- ===== src/Scheduler/Keys.antt =====
-- The keys of the admission order, in the words of operator/internal/scheduler/admit.go's comments, for
-- comparison with its function less().
use ai_sandbox.Base.{
  ℕ, ◌≡◌, Bool, true, false, not, List, [], ◌∷◌, Option, none, some, Text, All, lt_text, ltb,
  if◌then◌else◌,
}
use ai_sandbox.Base.Int.{ℤ, ltb_ℤ}
use ai_sandbox.Api.Environment.{SandboxEnvironment}

-- How one key of two environments compares: which of them it puts ahead.
pub data Comparison : Type 0 where
  ahead same behind : Comparison

-- The first key that tells them apart decides.
unfoldable pub decided : List Comparison → Comparison
decided [] = Comparison.same
decided (Comparison.ahead ∷ keys) = Comparison.ahead
decided (Comparison.same ∷ keys) = decided keys
decided (Comparison.behind ∷ keys) = Comparison.behind

-- The higher priority goes ahead.
unfoldable pub compare_priority : ℤ → ℤ → Comparison
compare_priority p q =
    if ltb_ℤ q p then Comparison.ahead else if ltb_ℤ p q then Comparison.behind else Comparison.same

-- The earlier time in the queue goes ahead, and any time goes ahead of none.
unfoldable pub compare_queued : Option ℕ → Option ℕ → Comparison
compare_queued none none = Comparison.same
compare_queued (some s) none = Comparison.ahead
compare_queued none (some t) = Comparison.behind
compare_queued (some s) (some t) =
    if ltb s t then Comparison.ahead else if ltb t s then Comparison.behind else Comparison.same

-- The smaller string goes ahead.
unfoldable pub compare_text : Text → Text → Comparison
compare_text s t =
    if lt_text s t
    then Comparison.ahead
    else if lt_text t s
    then Comparison.behind
    else Comparison.same

unfoldable pub is_behind : Comparison → Bool
is_behind Comparison.behind = true
is_behind _ = false

-- One environment may be admitted before another: by priority, time in the queue, UID, namespace and
-- name, in this order, it is not behind.
unfoldable pub may_precede : SandboxEnvironment → SandboxEnvironment → Bool
unfolding decided compare_priority compare_queued compare_text is_behind
may_precede a b = not (
    is_behind (
      decided (
        compare_priority a.spec.priority b.spec.priority
        ∷ compare_queued a.status.queued_since b.status.queued_since
        ∷ compare_text a.uid b.uid
        ∷ compare_text a.namespace b.namespace
        ∷ compare_text a.name b.name
        ∷ [])))

-- Every element may be admitted before all that stand behind it.
abbrev pub IsSorted : List SandboxEnvironment → Type 0
IsSorted [] = Unit
IsSorted (x ∷ xs) = All (λ y. may_precede x y ≡ true) xs × IsSorted xs
