-- ===== src/Common/Positions.antt =====
-- Lists changed at one position, and sums over their entries.
use Prim.Native.Nat.{ℕ, zero, suc, ◌+◌}
use mathlib.Core.Path.{◌≡◌, refl, ap, subst}
use mathlib.Core.Option.{none, some}
use mathlib.Core.List.{List, [], ◌∷◌, ◌++◌}
use native.Mathlib.Omega.{arith}
use mini_twitter.Common.Lists.{get_elem?, length, All}

module _ {ℓ} {A : Type ℓ} where
  -- A position past the end changes nothing.
  abbrev pub replace : ℕ → A → List A → List A
  replace i a [] = []
  replace zero a (x ∷ xs) = a ∷ xs
  replace (suc i) a (x ∷ xs) = x ∷ replace i a xs

  abbrev pub replicate : ℕ → A → List A
  replicate zero a = []
  replicate (suc n) a = a ∷ replicate n a

  abbrev pub sum_of : (A → ℕ) → List A → ℕ
  sum_of f [] = 0
  sum_of f (x ∷ xs) = f x + sum_of f xs

module _ {ℓ} {A : Type ℓ} where
  some_same : {a b : A} → some a ≡ some b → a ≡ b
  some_same e = cc

  nothing_there : {a : A} → none ≡ some a → ⊥
  nothing_there e = cc

  pub length-replace : (i : ℕ) (a : A) (xs : List A) → length (replace i a xs) ≡ length xs
  length-replace i a [] = refl
  length-replace zero a (x ∷ xs) = refl
  length-replace (suc i) a (x ∷ xs) = ap suc (length-replace i a xs)

  pub length-replicate : (n : ℕ) (a : A) → length (replicate n a) ≡ n
  length-replicate zero a = refl
  length-replicate (suc n) a = ap suc (length-replicate n a)

  pub sum_of-append : (f : A → ℕ) (xs ys : List A) → sum_of f (xs ++ ys) ≡ sum_of f xs + sum_of f ys
  sum_of-append f [] ys = omega arith
  sum_of-append f (x ∷ xs) ys = omega (arith, sum_of-append f xs ys)

  -- The new entry's share takes the place of the old one's.
  pub sum_of-replace :
      (f : A → ℕ) (i : ℕ) (a : A) {b : A} (xs : List A)
      → get_elem? xs i ≡ some b
      → sum_of f (replace i a xs) + f b ≡ sum_of f xs + f a
  sum_of-replace f i a [] e = absurd (nothing_there e)
  sum_of-replace f zero a (x ∷ xs) e = omega (arith, ap f (some_same e))
  sum_of-replace f (suc i) a (x ∷ xs) e = omega (arith, sum_of-replace f i a xs e)

  pub All-replace {κ} :
      (P : A → Type κ) (i : ℕ) (a : A) (xs : List A) → P a → All P xs → All P (replace i a xs)
  All-replace P i a [] h all = tt
  All-replace P zero a (x ∷ xs) h all = (h, all.1)
  All-replace P (suc i) a (x ∷ xs) h all = (all.0, All-replace P i a xs h all.1)

  pub All-at {κ} :
      (P : A → Type κ) (i : ℕ) {a : A} (xs : List A) → get_elem? xs i ≡ some a → All P xs → P a
  All-at P i [] e all = absurd (nothing_there e)
  All-at P zero (x ∷ xs) e all = subst P (some_same e) all.0
  All-at P (suc i) (x ∷ xs) e all = All-at P i xs e all.1

  pub All-replicate {κ} : (P : A → Type κ) (n : ℕ) (a : A) → P a → All P (replicate n a)
  All-replicate P zero a h = tt
  All-replicate P (suc n) a h = (h, All-replicate P n a h)
