-- ===== src/Common/Arrays.antt =====
-- C arrays as lists of their elements: a read or a write outside the list is a fault.
use Prim.Native.Nat.{ℕ, zero, suc, ◌<◌}
use mathlib.Core.Path.{◌≡◌, refl, ap}
use mathlib.Core.List.{List, [], ◌∷◌, ◌++◌}
use native.Mathlib.Omega.{arith}
use inf01151_trabalho.Common.Lists.{length, set, take, drop}
use inf01151_trabalho.Common.Fault.{Outcome, done, fault, ◌>>=◌}

module _ {ℓ} {A : Type ℓ} where
  unfoldable pub read : List A → ℕ → Outcome A
  read [] i = fault
  read (x ∷ xs) zero = done x
  read (x ∷ xs) (suc i) = read xs i

  unfoldable pub write : List A → ℕ → A → Outcome (List A)
  write [] i v = fault
  write (x ∷ xs) zero v = done (v ∷ xs)
  write (x ∷ xs) (suc i) v = do ys ← write xs i v; done (x ∷ ys)

  -- A write in range is `set`.
  pub write-eq-set :
      (xs : List A) (i : ℕ) (v : A) → i < length xs → write xs i v ≡ done (set xs i v)
  unfolding write
  write-eq-set [] i v h = elim h [ ]
  write-eq-set (x ∷ xs) zero v h = refl
  write-eq-set (x ∷ xs) (suc i) v h = rw (write-eq-set xs i v (omega arith))

  -- A read in range gives the head of what is left from there on.
  pub read-drop :
      (xs : List A) (i : ℕ)
      → i < length xs
      → (x : A) × (read xs i ≡ done x) × (drop i xs ≡ x ∷ drop (suc i) xs)
  unfolding read
  read-drop [] i h = elim h [ ]
  read-drop (x ∷ xs) zero h = (x, refl, refl)
  read-drop (x ∷ xs) (suc i) h = read-drop xs i (omega arith)

  -- A read in range gives the element just past the prefix.
  pub read-take :
      (xs : List A) (i : ℕ)
      → i < length xs
      → (x : A) × (read xs i ≡ done x) × (take (suc i) xs ≡ take i xs ++ (x ∷ []))
  unfolding read
  read-take [] i h = elim h [ ]
  read-take (x ∷ xs) zero h = (x, refl, refl)
  read-take (x ∷ xs) (suc i) h =
      let (y, at, next) = read-take xs i (omega arith) in (y, at, ap (λ r. x ∷ r) next)
