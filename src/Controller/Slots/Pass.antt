-- ===== src/Controller/Slots/Pass.antt =====
-- operator/internal/controller/slotscheduler.go: what a grant has written, by its outcome.
use ai_sandbox.Base.{
  ℕ, suc, ◌≡◌, ◌↔◌, refl, Bool, true, false, not, ◌||◌, Option, none, some, Text, text_eq,
  eq_of_text_eq, text_eq_refl, inl, inr, ◌⊎◌, Bool-cases, arith,
}
use ai_sandbox.Api.Condition.{ApiMachinery}
use ai_sandbox.Api.Environment.{SandboxEnvironment}
use ai_sandbox.Scheduler.{Grant, is_candidate}
use ai_sandbox.Controller.Slots.{
  Store, Outcome, Turn, UpdateResult, Retry, find, replace, status_update, grant_fresh, grant_got,
  grant_attempt, grant, with_slot,
}
use ai_sandbox.Controller.Slots.Occupancy.{Ran, RetriesOnConflict}

-- The object of the grant, still a candidate.
abbrev pub Stands : Grant → SandboxEnvironment → Type 0
Stands g fresh = (fresh.uid ≡ g.uid) × (is_candidate fresh ≡ true)

rejected : Grant → SandboxEnvironment → Bool
rejected g fresh = not (text_eq fresh.uid g.uid) || not (is_candidate fresh)

module _ ⦃k : ApiMachinery⦄ (now : ℕ) (g : Grant) where
  -- The object of the grant in a store, and that store with the slot in it.
  abbrev pub Writes : Store → Store → Type 0
  Writes live store' =
      (fresh : SandboxEnvironment) × (find g.namespace g.name live ≡ some fresh)
      × Stands g fresh
      × (store' ≡ replace (with_slot now fresh) live)

  -- There is no object of the grant any more, or one that is not a candidate or has another UID.
  abbrev pub Missed : Store → Type 0
  Missed live =
      (find g.namespace g.name live ≡ none)
      ⊎ ((fresh : SandboxEnvironment) × (find g.namespace g.name live ≡ some fresh)
          × ¬ Stands g fresh)

  -- What an outcome says of the store that an attempt found, and of the store after it.
  abbrev pub Wrote : Turn → Store → Outcome → Store → Type 0
  Wrote turn live Outcome.granted store' = (turn.update ≡ UpdateResult.written) × Writes live store'
  Wrote turn live Outcome.skipped store' = Missed live × (store' ≡ live)
  Wrote turn live Outcome.conflicted store' =
      (turn.update ≡ UpdateResult.conflict) × (store' ≡ live)
  Wrote turn live (Outcome.failed e) store' =
      ((turn.get_error ≡ some e) × (store' ≡ live))
      ⊎ (((turn.update ≡ UpdateResult.refused e) × (store' ≡ live))
          ⊎ ((turn.update ≡ UpdateResult.lost_answer e) × Writes live store'))

  status_update-Wrote :
      (turn : Turn) (update : UpdateResult) (fresh : SandboxEnvironment) (live : Store)
      → turn.update ≡ update
      → find g.namespace g.name live ≡ some fresh
      → Stands g fresh
      → let (outcome, store') = status_update update (with_slot now fresh) live in
        Wrote turn live outcome store'
  unfolding status_update
  status_update-Wrote turn UpdateResult.written fresh live u f s = (u, (fresh, f, s, refl))
  status_update-Wrote turn UpdateResult.conflict fresh live u f s = (u, refl)
  status_update-Wrote turn (UpdateResult.refused e) fresh live u f s = inr (inl (u, refl))
  status_update-Wrote turn (UpdateResult.lost_answer e) fresh live u f s =
      inr (inr (u, (fresh, f, s, refl)))

  rejected_iff : (fresh : SandboxEnvironment) → (rejected g fresh ≡ false) ↔ Stands g fresh
  unfolding rejected
  rejected_iff fresh = ground (arith, eq_of_text_eq fresh.uid g.uid, text_eq_refl g.uid)

  grant_fresh-Wrote :
      (turn : Turn) (found : Option SandboxEnvironment) (live : Store)
      → find g.namespace g.name live ≡ found
      → let (outcome, store') = grant_fresh now g turn.update found live in
        Wrote turn live outcome store'
  unfolding grant_fresh rejected
  grant_fresh-Wrote turn none live f = (inl f, refl)
  grant_fresh-Wrote turn (some fresh) live f = elim (Bool-cases (rejected g fresh)) [
    | inl e ↦ rw e (inr (fresh, f, λ s. ground (arith, e, (rejected_iff fresh).1 s)), refl)
    | inr e ↦
        rw e (status_update-Wrote turn turn.update fresh live refl f ((rejected_iff fresh).0 e))
  ]

  grant_got-Wrote :
      (turn : Turn) (get_error : Option Text) (live : Store)
      → turn.get_error ≡ get_error
      → let (outcome, store') = grant_got now g turn.update get_error live in
        Wrote turn live outcome store'
  unfolding grant_got
  grant_got-Wrote turn none live e = grant_fresh-Wrote turn (find g.namespace g.name live) live refl
  grant_got-Wrote turn (some x) live e = inl (e, refl)

  grant_attempt-Wrote :
      (turn : Turn) (store : Store)
      → let (outcome, store') = grant_attempt now g turn store in
        Wrote turn (turn.others store) outcome store'
  unfolding grant_attempt
  grant_attempt-Wrote turn store = grant_got-Wrote turn turn.get_error (turn.others store) refl

  -- The same of a turn and a store that a run of attempts came to.
  abbrev pub Ended : (ℕ → Turn) → Outcome → Store → Type 0
  Ended turns outcome store' =
      (n : ℕ) × (before : Store) × Wrote (turns n) ((turns n).others before) outcome store'

  Ran-Ended :
      (turns : ℕ → Turn) (n : ℕ) (s : Store) (x : Outcome × Store)
      → Ran (λ m. grant_attempt now g (turns m)) n s x
      → Ended turns x.0 x.1
  Ran-Ended turns n s x (Ran.last) = (n, s, grant_attempt-Wrote (turns n) s)
  Ran-Ended turns n s x (Ran.again {s' = s'} e r) = Ran-Ended turns (suc n) s' x r

  -- A slot is written only into an object that, in the store of the attempt that writes it, has the
  -- namespace, the name and the UID of the grant and is still a candidate, and nothing but that object
  -- changes; it is then counted as granted, or as an error where the answer is lost. A grant is skipped
  -- only where there is no such object, and every other end leaves the store of its attempt as it is.
  -- It assumes that RetryOnConflict returns the result of an attempt after conflicts only.
  pub grant-Ended :
      (retry : Retry)
      → RetriesOnConflict retry
      → (turns : ℕ → Turn) (store : Store)
      → let (outcome, store') = grant retry now g turns store in Ended turns outcome store'
  unfolding grant
  grant-Ended retry retries turns store =
      let f : ℕ → Store → Outcome × Store = λ n. grant_attempt now g (turns n) in
      Ran-Ended turns 0 store (retry f store) (retries f store)
