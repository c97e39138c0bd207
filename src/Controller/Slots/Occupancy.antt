-- ===== src/Controller/Slots/Occupancy.antt =====
-- operator/internal/controller/slotscheduler.go: the occupancy after a pass, beside other writers.
use ai_sandbox.Base.{
  ℕ, suc, ◌+◌, ◌-◌, ◌∙◌, ◌≤◌, ◌≡◌, min, max, refl, ◌&&◌, List, [], ◌∷◌, Option, none, some, Text,
  inl, inr, ◌⊎◌, length, if◌then◌else◌, Option-cases, arith,
}
use ai_sandbox.Base.Int.{ℤ, pos_part}
use ai_sandbox.Api.Condition.{ApiMachinery}
use ai_sandbox.Api.Environment.{SandboxEnvironment}
use ai_sandbox.Scheduler.{Grant, partition, occupies, admit}
use ai_sandbox.Scheduler.Admission.{admit_bounds}
use ai_sandbox.Controller.Slots.{
  Store, Outcome, Turn, UpdateResult, PassStats, Retry, find, replace, status_update, watched,
  in_namespace, fold_outcome, grant_fresh, grant_got, grant_attempt, grant, apply_grant,
  apply_grants, run_once, with_slot, waited_for, queued_since_for, no_stats,
}

-- What RetryOnConflict does: it returns the result of the first attempt from the n-th on that does not
-- end in a conflict, or that of an attempt with a conflict after which it gives up; the conflicts before
-- it have passed the state on.
pub data Ran (f : ℕ → Store → Outcome × Store) : ℕ → Store → Outcome × Store → Type 0 where
  last : {n : ℕ} {s : Store} → Ran f n s (f n s)
  again :
      {n : ℕ} {s s' : Store} {x : Outcome × Store}
      → f n s ≡ (Outcome.conflicted, s')
      → Ran f (suc n) s' x
      → Ran f n s x

abbrev pub RetriesOnConflict : Retry → Type 0
RetriesOnConflict retry = (f : ℕ → Store → Outcome × Store) (s : Store) → Ran f 0 s (retry f s)

-- The environments of a namespace that hold compute.
pub occupied : Text → Store → ℕ
occupied namespace [] = 0
occupied namespace (env ∷ store) =
    (if watched namespace env && occupies env then 1 else 0) + occupied namespace store

partition-in_namespace :
    (namespace : Text) (store : Store)
    → (partition (in_namespace namespace store)).0 ≡ occupied namespace store
unfolding partition in_namespace occupied
partition-in_namespace namespace [] = refl
partition-in_namespace namespace (env ∷ store) =
    ground (arith, partition-in_namespace namespace store)

-- The grants that a pass has tried.
abbrev tried : PassStats → ℕ
tried stats = stats.admitted + stats.skipped + stats.errors

fold_outcome_counts :
    (g : Grant) (waited : ℤ) (outcome : Outcome) (stats : PassStats)
    → let stats' = fold_outcome g waited outcome stats in
      (tried stats' ≡ suc (tried stats))
      × (stats'.occupancy ≡ stats.occupancy)
      × (stats'.queue_depth ≡ stats.queue_depth)
unfolding fold_outcome
fold_outcome_counts g waited Outcome.granted stats = ground arith
fold_outcome_counts g waited Outcome.skipped stats = ground arith
fold_outcome_counts g waited Outcome.conflicted stats = ground arith
fold_outcome_counts g waited (Outcome.failed e) stats = ground arith

module _ ⦃k : ApiMachinery⦄ (retry : Retry) where
  apply_grants_counts :
      (now i : ℕ) (candidates : List SandboxEnvironment) (turns : ℕ → ℕ → Turn)
      (grants : List Grant) (stats : PassStats) (store : Store)
      → let stats' = (apply_grants retry now candidates turns i grants (stats, store)).0 in
        (tried stats' ≡ tried stats + length grants)
        × (stats'.occupancy ≡ stats.occupancy)
        × (stats'.queue_depth ≡ stats.queue_depth)
  unfolding apply_grants apply_grant
  apply_grants_counts now i candidates turns [] stats store = ground arith
  apply_grants_counts now i candidates turns (g ∷ grants) stats store =
      let next = apply_grant retry now candidates g (turns i) (stats, store) in
      let waited = waited_for now (queued_since_for candidates g.uid) in
      let c = fold_outcome_counts g waited (grant retry now g (turns i) store).0 stats in
      let ih = apply_grants_counts now (i + 1) candidates turns grants next.0 next.1 in
      (omega (arith, c.0, ih.0), ih.1 ∙ c.1, ih.2 ∙ c.2)

module _ (namespace : Text) where
  occupied-replace :
      (new : SandboxEnvironment) (store : Store)
      → occupied namespace (replace new store) ≤ occupied namespace store + 1
  unfolding occupied replace
  occupied-replace new [] = omega arith
  occupied-replace new (env ∷ store) = ground (arith, occupied-replace new store)

  -- The most that an attempt with this outcome adds.
  abbrev added : Outcome → ℕ
  added Outcome.conflicted = 0
  added _ = 1

  added-le : (a b : ℕ) (outcome : Outcome) → b ≤ a + added outcome → b ≤ a + 1
  added-le a b Outcome.granted h = omega (arith, h)
  added-le a b Outcome.skipped h = omega (arith, h)
  added-le a b Outcome.conflicted h = omega (arith, h)
  added-le a b (Outcome.failed e) h = omega (arith, h)

  occupied-status_update :
      (update : UpdateResult) (fresh : SandboxEnvironment) (store : Store)
      → let (outcome, store') = status_update update fresh store in
        occupied namespace store' ≤ occupied namespace store + added outcome
  unfolding status_update
  occupied-status_update UpdateResult.written fresh store = occupied-replace fresh store
  occupied-status_update UpdateResult.conflict fresh store = omega arith
  occupied-status_update (UpdateResult.refused e) fresh store = omega arith
  occupied-status_update (UpdateResult.lost_answer e) fresh store = occupied-replace fresh store

  -- What the result of a pass says of the occupancy after it.
  abbrev pub WithinCapacity : ℤ → Store → Text ⊎ PassStats → Store → Type 0
  WithinCapacity capacity store (inl e) store' = store' ≡ store
  WithinCapacity capacity store (inr stats) store' =
      let before = occupied namespace store in
      (stats.occupancy ≡ before)
      × (occupied namespace store' ≤ max before (pos_part capacity))
      × (stats.admitted + stats.skipped + stats.errors
          ≡ min (pos_part capacity - before) stats.queue_depth)

  module _ ⦃k : ApiMachinery⦄ where
    occupied-grant_fresh :
        (now : ℕ) (g : Grant) (update : UpdateResult) (found : Option SandboxEnvironment)
        (store : Store)
        → let (outcome, store') = grant_fresh now g update found store in
          occupied namespace store' ≤ occupied namespace store + added outcome
    unfolding grant_fresh
    occupied-grant_fresh now g update none store = omega arith
    occupied-grant_fresh now g update (some fresh) store =
        ground (arith, occupied-status_update update (with_slot now fresh) store)

    -- The other writers of a turn do not raise the occupancy.
    abbrev pub Yields : Turn → Type 0
    Yields turn = (s : Store) → occupied namespace (turn.others s) ≤ occupied namespace s

    occupied-grant_attempt :
        (now : ℕ) (g : Grant) (turn : Turn) (store : Store)
        → Yields turn
        → let (outcome, store') = grant_attempt now g turn store in
          occupied namespace store' ≤ occupied namespace store + added outcome
    unfolding grant_attempt grant_got
    occupied-grant_attempt now g turn store h =
        let live = turn.others store in
        let y = h store in
        let fresh = occupied-grant_fresh now g turn.update (find g.namespace g.name live) live in
        elim (Option-cases turn.get_error) [
          | inl e ↦ rw e (omega (arith, y, fresh))
          | inr (x, e) ↦ rw e (omega (arith, y))
        ]

    occupied-Ran :
        (f : ℕ → Store → Outcome × Store) (n : ℕ) (s : Store) (x : Outcome × Store)
        → ((m : ℕ) (t : Store)
            → occupied namespace (f m t).1 ≤ occupied namespace t + added (f m t).0)
        → Ran f n s x
        → occupied namespace x.1 ≤ occupied namespace s + 1
    occupied-Ran f n s x h (Ran.last) = added-le _ _ (f n s).0 (h n s)
    occupied-Ran f n s x h (Ran.again {s' = s'} e r) =
        let y = rw e at (h n s) in omega (arith, y, occupied-Ran f (suc n) s' x h r)

    module _ (retry : Retry) (retries : RetriesOnConflict retry) where
      occupied-grant :
          (now : ℕ) (g : Grant) (turns : ℕ → Turn) (store : Store)
          → ((n : ℕ) → Yields (turns n))
          → occupied namespace (grant retry now g turns store).1 ≤ occupied namespace store + 1
      unfolding grant
      occupied-grant now g turns store h =
          let f : ℕ → Store → Outcome × Store = λ n. grant_attempt now g (turns n) in
          occupied-Ran f 0 store (retry f store)
            (λ m t. occupied-grant_attempt now g (turns m) t (h m)) (retries f store)

      occupied-apply_grants :
          (now i : ℕ) (candidates : List SandboxEnvironment) (turns : ℕ → ℕ → Turn)
          (grants : List Grant) (stats : PassStats) (store : Store)
          → ((i n : ℕ) → Yields (turns i n))
          → occupied namespace (apply_grants retry now candidates turns i grants (stats, store)).1
            ≤ occupied namespace store + length grants
      unfolding apply_grants apply_grant
      occupied-apply_grants now i candidates turns [] stats store h = omega arith
      occupied-apply_grants now i candidates turns (g ∷ grants) stats store h =
          let next = apply_grant retry now candidates g (turns i) (stats, store) in
          omega (
            arith,
            occupied-grant now g (turns i) store (h i),
            occupied-apply_grants now (i + 1) candidates turns grants next.0 next.1 h,
          )

      -- Whatever happens to the writes of a pass, conflicts, lost answers and other writers included,
      -- the occupancy after it is within the capacity, or was above it before and has not grown, and
      -- the pass tries as many grants as there are free slots and candidates, each counted once as
      -- admitted, skipped or an error. It assumes that the other writers do not raise the occupancy
      -- and that RetryOnConflict returns the result of an attempt after conflicts only.
      pub run_once-WithinCapacity :
          (capacity : ℤ) (times : ℕ × ℕ × ℕ) (list_error : Option Text) (turns : ℕ → ℕ → Turn)
          (store : Store)
          → ((i n : ℕ) → Yields (turns i n))
          → let (result, store') = run_once retry capacity namespace times list_error turns store in
            WithinCapacity capacity store result store'
      unfolding run_once
      run_once-WithinCapacity capacity (start, now, finish) (some e) turns store h = refl
      run_once-WithinCapacity capacity (start, now, finish) none turns store h =
          let listed = partition (in_namespace namespace store) in
          let grants = admit listed.1 listed.0 capacity in
          let e = partition-in_namespace namespace store in
          let stats = no_stats capacity listed.0 (length listed.1) in
          let b = admit_bounds listed.1 listed.0 capacity in
          let o = occupied-apply_grants now 0 listed.1 turns grants stats store h in
          let c = apply_grants_counts retry now 0 listed.1 turns grants stats store in
          (c.1 ∙ e, omega (arith, b.1, o, e), omega (arith, b.0, c.0, c.2, e))
