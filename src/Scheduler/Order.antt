-- ===== src/Scheduler/Order.antt =====
-- The admission order: a strict weak order on environments, and the sort by it.
use mathlib.Core.List.Perm
use mathlib.Core.Path.{subst, fun_ext}
use ai_sandbox.Base.Int.{ltb_ℤ}
use ai_sandbox.Base.{
  Text, sym, ◌≡◌, inl, inr, Bool, true, false, ◌||◌, List, [], ◌∷◌, All, All-mono, text_eq, lt_text,
  lt_text-cotrans, lt_text-asym, text_eq-lt_text, if◌then◌else◌, Bool-cases, arith,
}
use mathlib.Core.List.{Perm}
use ai_sandbox.Api.Environment.{SandboxEnvironment}
use ai_sandbox.Scheduler.Keys.{
  may_precede, decided, compare_priority, compare_queued, compare_text, is_behind, IsSorted,
}
use ai_sandbox.Scheduler.{less, less_identity, less_queued, insert, order}

-- A strict weak order, as a Boolean test.
pub record IsOrder {ℓ} {A : Type ℓ} (lt : A → A → Bool) : Type ℓ where
  pub asym : (a b : A) → lt a b ≡ true → lt b a ≡ false
  pub cotrans : (a b c : A) → lt a c ≡ true → (lt a b || lt b c) ≡ true

-- Compare by `lt`, and where it does not tell two values apart by `tie`.
abbrev lex {ℓ} : {A : Type ℓ} → (A → A → Bool) → (A → A → Bool) → A → A → Bool
lex lt tie a b = if lt a b || lt b a then lt a b else tie a b

lex-IsOrder {ℓ} :
    {A : Type ℓ} (lt tie : A → A → Bool) → IsOrder lt → IsOrder tie → IsOrder (lex lt tie)
lex-IsOrder lt tie p q = record {
  asym = λ a b h. ground (arith, p.asym a b, p.asym b a, q.asym a b);
  cotrans = λ a b c h. ground (
    arith,
    p.cotrans a b c,
    p.cotrans c b a,
    p.cotrans a c b,
    p.cotrans b a c,
    p.cotrans b c a,
    p.cotrans c a b,
    p.asym a b,
    p.asym b c,
    p.asym a c,
    q.cotrans a b c,
  );
}

by_text : (SandboxEnvironment → Text) → SandboxEnvironment → SandboxEnvironment → Bool
by_text key a b = lt_text (key a) (key b)

by_text-IsOrder : (key : SandboxEnvironment → Text) → IsOrder (by_text key)
unfolding by_text
by_text-IsOrder key = record {
  asym = λ a b h. lt_text-asym (key a) (key b) h;
  cotrans = λ a b c h. lt_text-cotrans (key a) (key b) (key c) h;
}

by_priority : SandboxEnvironment → SandboxEnvironment → Bool
by_priority a b = ltb_ℤ b.spec.priority a.spec.priority

by_priority-IsOrder : IsOrder by_priority
unfolding by_priority
by_priority-IsOrder = record { asym = λ a b h. ground arith; cotrans = λ a b c h. ground arith }

by_queued : SandboxEnvironment → SandboxEnvironment → Bool
unfolding less_queued
by_queued a b = less_queued a.status.queued_since b.status.queued_since false

by_queued-IsOrder : IsOrder by_queued
unfolding by_queued
by_queued-IsOrder = record { asym = λ a b h. ground arith; cotrans = λ a b c h. ground arith }

-- less() compares by priority, queue time, UID, namespace and name, in this order.
less-lex :
    (a b : SandboxEnvironment)
    → less a b
      ≡ lex by_priority
          (lex by_queued
            (lex (by_text (λ e. e.uid)) (lex (by_text (λ e. e.namespace)) (by_text (λ e. e.name)))))
          a
          b
unfolding less less_identity less_queued by_priority by_queued by_text
less-lex a b = ground (arith, text_eq-lt_text a.uid b.uid, text_eq-lt_text a.namespace b.namespace)

less-IsOrder : IsOrder less
less-IsOrder = subst IsOrder (sym (fun_ext λ a. fun_ext λ b. less-lex a b)) (
    lex-IsOrder by_priority _ by_priority-IsOrder (
      lex-IsOrder by_queued _ by_queued-IsOrder (
        lex-IsOrder (by_text (λ e. e.uid)) _ (by_text-IsOrder (λ e. e.uid)) (
          lex-IsOrder (by_text (λ e. e.namespace)) _ (by_text-IsOrder (λ e. e.namespace))
            (by_text-IsOrder (λ e. e.name))))))

-- No element is to go before one that stands ahead of it, by less().
abbrev IsSortedByLess : List SandboxEnvironment → Type 0
IsSortedByLess [] = Unit
IsSortedByLess (x ∷ xs) = All (λ y. less y x ≡ false) xs × IsSortedByLess xs

All-insert :
    (P : SandboxEnvironment → Type 0) (x : SandboxEnvironment) (ys : List SandboxEnvironment)
    → P x
    → All P ys
    → All P (insert x ys)
unfolding insert
All-insert P x [] h hs = (h, tt)
All-insert P x (y ∷ ys) h hs = elim (Bool-cases (less y x)) [
  | inl e ↦ rw (e, insert) (hs.0, All-insert P x ys h hs.1)
  | inr e ↦ rw (e, insert) (h, hs)
]

insert-IsSortedByLess :
    (x : SandboxEnvironment) (ys : List SandboxEnvironment)
    → IsSortedByLess ys
    → IsSortedByLess (insert x ys)
unfolding insert
insert-IsSortedByLess x [] h = (tt, tt)
insert-IsSortedByLess x (y ∷ ys) h = elim (Bool-cases (less y x)) [
  | inl e ↦
      rw (e, insert)
        (
          All-insert (λ z. less z y ≡ false) x ys (less-IsOrder.asym y x e) h.0,
          insert-IsSortedByLess x ys h.1,
        )
  | inr e ↦
      let behind =
        All-mono {Q = λ z. less z x ≡ false} (λ z hz. ground (arith, less-IsOrder.cotrans z y x)) ys
          h.0 in
      rw (e, insert) ((e, behind), h)
]

insert-perm : (x : SandboxEnvironment) (ys : List SandboxEnvironment) → Perm (insert x ys) (x ∷ ys)
unfolding insert
insert-perm x [] = Perm.refl (x ∷ [])
insert-perm x (y ∷ ys) = elim (Bool-cases (less y x)) [
  | inl e ↦ rw (e, insert) (Perm.trans (Perm.cons y (insert-perm x ys)) (Perm.swap x y ys))
  | inr e ↦ rw (e, insert) (Perm.refl (x ∷ y ∷ ys))
]

order-IsSortedByLess : (candidates : List SandboxEnvironment) → IsSortedByLess (order candidates)
unfolding order
order-IsSortedByLess [] = tt
order-IsSortedByLess (x ∷ xs) = insert-IsSortedByLess x (order xs) (order-IsSortedByLess xs)

order-perm : (candidates : List SandboxEnvironment) → Perm (order candidates) candidates
unfolding order
order-perm [] = Perm.refl []
order-perm (x ∷ xs) = Perm.trans (insert-perm x (order xs)) (Perm.cons x (order-perm xs))

less-may_precede : (a b : SandboxEnvironment) → less b a ≡ false → may_precede a b ≡ true
unfolding less less_identity less_queued may_precede decided compare_priority compare_queued
    compare_text is_behind
less-may_precede a b h = ground (
  arith,
  text_eq-lt_text a.uid b.uid,
  text_eq-lt_text b.uid a.uid,
  text_eq-lt_text a.namespace b.namespace,
  text_eq-lt_text b.namespace a.namespace,
)

IsSortedByLess-IsSorted : (xs : List SandboxEnvironment) → IsSortedByLess xs → IsSorted xs
IsSortedByLess-IsSorted [] h = tt
IsSortedByLess-IsSorted (x ∷ xs) (h, hs) =
    (All-mono (λ y l. less-may_precede x y l) xs h, IsSortedByLess-IsSorted xs hs)

-- Order returns the candidates, each as often as it was given, none ahead of one that is to be
-- admitted before it: the higher priority goes first, then who has been queued for longer, with the
-- unqueued last, then the smaller UID, namespace and name. A stable insertion sort stands for
-- sort.SliceStable.
pub order_sorts :
    (candidates : List SandboxEnvironment)
    → IsSorted (order candidates) × Perm (order candidates) candidates
order_sorts candidates = (
  IsSortedByLess-IsSorted (order candidates) (order-IsSortedByLess candidates),
  order-perm candidates,
)

-- Of two environments neither is ahead of the other only if UID, namespace and name are the same.
less_total :
    (a b : SandboxEnvironment)
    → less a b ≡ false
    → less b a ≡ false
    → (text_eq a.uid b.uid ≡ true)
      × (text_eq a.namespace b.namespace ≡ true)
      × (text_eq a.name b.name ≡ true)
unfolding less less_identity less_queued
less_total a b p q = ground (
  arith,
  text_eq-lt_text a.uid b.uid,
  text_eq-lt_text b.uid a.uid,
  text_eq-lt_text a.namespace b.namespace,
  text_eq-lt_text b.namespace a.namespace,
  text_eq-lt_text a.name b.name,
)
