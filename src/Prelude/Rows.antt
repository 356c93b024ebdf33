-- ===== src/Prelude/Rows.antt =====
-- Tables whose rows are changed in place: a vector indexed by row numbers.
use ziskethone.Prelude.Lists.{length, get_or}
use ziskethone.Prelude.Tests.{◌==◌, ltb, if◌then◌else◌}
use Prim.Native.Nat.{ℕ, zero, suc}
use mathlib.Core.Path.{◌≡◌, refl, ap}
use mathlib.Core.Bool.{Bool, ◌&&◌}
use mathlib.Core.List.{List, [], ◌∷◌}
use native.Mathlib.Omega.{arith}

module _ {ℓ} {A : Type ℓ} where
  -- `auto& m = rows[i]; m = f(m)`. The program indexes its tables in range only; out of range nothing
  -- changes.
  unfoldable pub update : List A → ℕ → (A → A) → List A
  update [] i f = []
  update (x ∷ xs) zero f = f x ∷ xs
  update (x ∷ xs) (suc i) f = x ∷ update xs i f

  pub length-update : (xs : List A) (i : ℕ) (f : A → A) → length (update xs i f) ≡ length xs
  unfolding update
  length-update [] i f = refl
  length-update (x ∷ xs) zero f = refl
  length-update (x ∷ xs) (suc i) f = ap suc (length-update xs i f)

  -- Whether a write at row `i` reaches row `j`.
  abbrev pub hits : ℕ → ℕ → List A → Bool
  hits i j xs = i == j && ltb i (length xs)

  pub get_or-update :
      (xs : List A) (i j : ℕ) (f : A → A) (d : A)
      → get_or (update xs i f) j d ≡ (if hits i j xs then f (get_or xs j d) else get_or xs j d)
  unfolding update
  get_or-update [] i j f d = ground arith
  get_or-update (x ∷ xs) zero zero f d = ground arith
  get_or-update (x ∷ xs) zero (suc j) f d = ground arith
  get_or-update (x ∷ xs) (suc i) zero f d = ground arith
  get_or-update (x ∷ xs) (suc i) (suc j) f d = ground (arith, get_or-update xs i j f d)
