-- ===== src/Controller/Slots.antt =====
-- operator/internal/controller/slotscheduler.go: an admission pass and its grant writes.
--
-- The store is the list of the environments on the API server. What an attempt meets there is a `Turn`,
-- an argument, and so are retry.RetryOnConflict of k8s.io/client-go and the readings of the clock.
-- Metrics, events and the ticker are left out.
pub mod Occupancy
pub mod Pass
use ai_sandbox.Base.{
  ℕ, zero, suc, ◌+◌, Bool, true, false, not, ◌&&◌, ◌||◌, ◌≡◌, List, [], ◌∷◌, ◌++◌, Option, none,
  some, Text, text_eq, ◌⊎◌, inl, inr, length, is_some, if◌then◌else◌,
}
use ai_sandbox.Base.Int.{ℤ, pos}
use ai_sandbox.Api.Condition.{ApiMachinery}
use ai_sandbox.Api.Environment.{SandboxEnvironment}
use ai_sandbox.Lifecycle.Timeouts.{sub_time}
use ai_sandbox.Scheduler.{Grant, is_candidate, partition, admit}

abbrev pub Store : Type 0
Store = List SandboxEnvironment

-- How an Update ends: written, refused with a conflict or another error, or written though the answer
-- is an error, as with a timeout.
pub data UpdateResult : Type 0 where
  written conflict : UpdateResult
  refused lost_answer : Text → UpdateResult

-- An attempt on the API server: what other writers do before it, the error of Get if it has one other
-- than NotFound, and how the Update ends.
pub record Turn : Type 0 where
  pub others : Store → Store
  pub get_error : Option Text
  pub update : UpdateResult

-- How a grant ends: `granted` and a nil error, not granted and a nil error, or an error.
pub data Outcome : Type 0 where
  granted skipped conflicted : Outcome
  failed : Text → Outcome

unfoldable pub is_key : Text → Text → SandboxEnvironment → Bool
is_key namespace name env = text_eq env.namespace namespace && text_eq env.name name

unfoldable pub find : Text → Text → Store → Option SandboxEnvironment
unfolding is_key
find namespace name [] = none
find namespace name (env ∷ store) =
    if is_key namespace name env then some env else find namespace name store

-- The object takes the place of the one with its namespace and name.
unfoldable pub replace : SandboxEnvironment → Store → Store
unfolding is_key
replace new [] = []
replace new (env ∷ store) =
    let rest = replace new store in
    if is_key new.namespace new.name env then new ∷ store else env ∷ rest

unfoldable pub status_update : UpdateResult → SandboxEnvironment → Store → Outcome × Store
unfolding replace
status_update UpdateResult.written fresh store = (Outcome.granted, replace fresh store)
status_update UpdateResult.conflict fresh store = (Outcome.conflicted, store)
status_update (UpdateResult.refused e) fresh store = (Outcome.failed e, store)
status_update (UpdateResult.lost_answer e) fresh store = (Outcome.failed e, replace fresh store)

-- The list of a namespace, all of them where it is empty.
unfoldable pub watched : Text → SandboxEnvironment → Bool
watched namespace env = text_eq namespace [] || text_eq env.namespace namespace

unfoldable pub in_namespace : Text → Store → List SandboxEnvironment
unfolding watched
in_namespace namespace [] = []
in_namespace namespace (env ∷ store) =
    let rest = in_namespace namespace store in if watched namespace env then env ∷ rest else rest

pub record GrantResult : Type 0 where
  pub namespace : Text
  pub name : Text
  pub waited : ℤ
  pub granted : Bool

pub record PassStats : Type 0 where
  pub capacity : ℤ
  pub occupancy : ℕ
  pub queue_depth : ℕ
  pub admitted : ℕ
  pub skipped : ℕ
  pub errors : ℕ
  pub duration : ℤ
  pub grants : List GrantResult

abbrev pub no_stats : ℤ → ℕ → ℕ → PassStats
no_stats capacity occupancy queue_depth = record {
  capacity = capacity;
  occupancy = occupancy;
  queue_depth = queue_depth;
  admitted = 0;
  skipped = 0;
  errors = 0;
  duration = pos 0;
  grants = [];
}

unfoldable pub queued_since_for : List SandboxEnvironment → Text → Option ℕ
queued_since_for [] uid = none
queued_since_for (c ∷ candidates) uid =
    if text_eq c.uid uid && is_some c.status.queued_since
    then c.status.queued_since
    else queued_since_for candidates uid

unfoldable pub waited_for : ℕ → Option ℕ → ℤ
waited_for now none = pos 0
waited_for now (some t) = sub_time now t

-- The last part of applyGrant.
unfoldable pub fold_outcome : Grant → ℤ → Outcome → PassStats → PassStats
fold_outcome g waited Outcome.granted stats = record stats {
  admitted = suc stats.admitted;
  grants =
      stats.grants
      ++ (record { namespace = g.namespace; name = g.name; waited = waited; granted = true } ∷ []);
}
fold_outcome g waited Outcome.skipped stats = record stats {
  skipped = suc stats.skipped;
  grants =
      stats.grants
      ++ (record { namespace = g.namespace; name = g.name; waited = waited; granted = false } ∷ []);
}
fold_outcome g waited Outcome.conflicted stats = record stats { errors = suc stats.errors }
fold_outcome g waited (Outcome.failed e) stats = record stats { errors = suc stats.errors }

-- RetryOnConflict, over functions that are given the number of the attempt.
abbrev pub Retry : Type 0
Retry = (ℕ → Store → Outcome × Store) → Store → Outcome × Store

module _ ⦃k : ApiMachinery⦄ where
  -- The object with the slot granted.
  unfoldable pub with_slot : ℕ → SandboxEnvironment → SandboxEnvironment
  with_slot now fresh = record fresh {
    status = record fresh.status {
      slot = record { granted = true; granted_at = some (k.rfc3339_copy now); lease_name = [] };
    };
  }

  -- The function that RetryOnConflict runs, once Get has answered.
  unfoldable pub grant_fresh :
      ℕ → Grant → UpdateResult → Option SandboxEnvironment → Store → Outcome × Store
  unfolding with_slot status_update
  grant_fresh now g update none store = (Outcome.skipped, store)
  grant_fresh now g update (some fresh) store =
      if not (text_eq fresh.uid g.uid) || not (is_candidate fresh)
      then (Outcome.skipped, store)
      else status_update update (with_slot now fresh) store

  -- The same from the error of Get on.
  unfoldable pub grant_got : ℕ → Grant → UpdateResult → Option Text → Store → Outcome × Store
  unfolding grant_fresh find
  grant_got now g update (some e) live = (Outcome.failed e, live)
  grant_got now g update none live = grant_fresh now g update (find g.namespace g.name live) live

  unfoldable pub grant_attempt : ℕ → Grant → Turn → Store → Outcome × Store
  unfolding grant_got
  grant_attempt now g turn store = grant_got now g turn.update turn.get_error (turn.others store)

  module _ (retry : Retry) where
    unfoldable pub grant : ℕ → Grant → (ℕ → Turn) → Store → Outcome × Store
    unfolding grant_attempt
    grant now g turns store = retry (λ n. grant_attempt now g (turns n)) store

    unfoldable pub apply_grant :
        ℕ → List SandboxEnvironment → Grant → (ℕ → Turn) → PassStats × Store → PassStats × Store
    unfolding grant fold_outcome queued_since_for waited_for
    apply_grant now candidates g turns (stats, store) =
        let (outcome, store') = grant now g turns store in
        (fold_outcome g (waited_for now (queued_since_for candidates g.uid)) outcome stats, store')

    -- The loop of RunOnce; the turns are those of the i-th grant.
    unfoldable pub apply_grants :
        ℕ
        → List SandboxEnvironment
        → (ℕ → ℕ → Turn)
        → ℕ
        → List Grant
        → PassStats × Store
        → PassStats × Store
    unfolding apply_grant
    apply_grants now candidates turns i [] x = x
    apply_grants now candidates turns i (g ∷ grants) x =
        apply_grants now candidates turns (i + 1) grants (apply_grant now candidates g (turns i) x)

    -- The three times are the readings of the clock at the start, before the grants and at the end.
    unfoldable pub run_once :
        ℤ → Text → ℕ × ℕ × ℕ → Option Text → (ℕ → ℕ → Turn) → Store → (Text ⊎ PassStats) × Store
    unfolding in_namespace apply_grants
    run_once capacity namespace (start, now, finish) (some e) turns store = (inl e, store)
    run_once capacity namespace (start, now, finish) none turns store =
        let (occupancy, candidates) = partition (in_namespace namespace store) in
        let (stats, store') =
          apply_grants now candidates turns 0 (admit candidates occupancy capacity)
            (no_stats capacity occupancy (length candidates), store) in
        (inr (record stats { duration = sub_time finish start }), store')
