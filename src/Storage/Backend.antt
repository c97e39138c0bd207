-- ===== src/Storage/Backend.antt =====
-- operator/internal/storage/backend.go: the object stores, by what the comments of the interface Backend
-- promise. `w` is the state of all of them; a handle names one, and two handles may name the same one.
use ai_sandbox.Base.{ℕ, Bool, true, false, ◌&&◌, List, Text, has_prefix, has, ◌⊎◌, inr, ◌≡◌}

-- `stored w h k`: the store of the handle `h` has an object with the key `k`.
pub record Backend (W : Type 0) (H : Type 0) : Type 0 where
  pub stored : W → H → Text → Bool
  pub list : W → H → Text → Text ⊎ List Text
  pub delete_prefix : W → H → Text → (Text ⊎ ℕ) × W
  pub listed :
      (w : W) (h : H) (p k : Text) (ks : List Text)
      → list w h p ≡ inr ks
      → has k ks ≡ (stored w h k && has_prefix k p)
  pub kept :
      (w : W) (h g : H) (p k : Text)
      → has_prefix k p ≡ false
      → stored w g k ≡ true
      → stored (delete_prefix w h p).1 g k ≡ true
  pub deletes_only :
      (w : W) (h g : H) (p k : Text)
      → stored (delete_prefix w h p).1 g k ≡ true
      → stored w g k ≡ true
  pub gone :
      (w : W) (h : H) (p k : Text) (n : ℕ)
      → (delete_prefix w h p).0 ≡ inr n
      → has_prefix k p ≡ true
      → stored (delete_prefix w h p).1 h k ≡ false
