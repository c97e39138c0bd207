-- ===== src/Examples/Encoding.antt =====
-- An encoding of lists of texts as texts, and a database that never fails.
use ai_sandbox.Base.{ℕ, zero, suc, List, [], ◌∷◌, ◌++◌, none, Text, ◌⊎◌, inr, ◌≡◌, refl, sym}
use mathlib.Core.Sum.{inr-injective}
use ai_sandbox.Base.Dict.{insert, erase}
use ai_sandbox.Docker.Bolt.{Bucket, Bolt}

-- A list of texts as one text: each byte is moved up by one, and each text ends with a zero.
unfoldable pub text_end : Text → Text
text_end [] = 0 ∷ []
text_end (c ∷ s) = suc c ∷ text_end s

unfoldable pub joined : List Text → Text
joined [] = []
joined (t ∷ ts) = text_end t ++ joined ts

unfoldable pub first : Text → Text × Text
first [] = ([], [])
first (zero ∷ s) = ([], s)
first (suc c ∷ s) = (c ∷ (first s).0, (first s).1)

first-text_end : (t s : Text) → first (text_end t ++ s) ≡ (t, s)
unfolding first text_end
first-text_end [] s = refl
first-text_end (c ∷ t) s = rw (first-text_end t s) refl

unfoldable pub parts : ℕ → Text → List Text
parts zero s = []
parts (suc n) s = (first s).0 ∷ parts n (first s).1

unfoldable pub size : List Text → ℕ
size [] = 0
size (t ∷ ts) = suc (size ts)

pub parts-joined : (ts : List Text) → parts (size ts) (joined ts) ≡ ts
unfolding parts joined size
parts-joined [] = refl
parts-joined (t ∷ ts) = rw (first-text_end t (joined ts), parts-joined ts) refl

unfoldable pub number : Text → ℕ
number [] = 0
number (n ∷ s) = n

pub put_exact :
    (b b' : Bucket) (k v : Text)
    → ◌≡◌ {A = Text ⊎ Bucket} (inr (insert k v b)) (inr b')
    → b' ≡ insert k v b
put_exact b b' k v e = sym (inr-injective _ _ e)

pub delete_exact :
    (b b' : Bucket) (k : Text) → ◌≡◌ {A = Text ⊎ Bucket} (inr (erase k b)) (inr b') → b' ≡ erase k b
delete_exact b b' k e = sym (inr-injective _ _ e)

-- A database that never fails.
instance abbrev pub bolt : Bolt
bolt = record {
  put = λ b k v. inr (insert k v b);
  delete = λ b k. inr (erase k b);
  commit = λ b. none;
  put_lem = put_exact;
  delete_lem = delete_exact;
}
