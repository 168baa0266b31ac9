-- ===== src/Common/Bytes.antt =====
-- Go strings as bytes: comparison, and the bytes of a literal.
use Prim.Native.Nat.{ℕ}
use Prim.Native.Char.{code}
use Prim.Native.String.{String}
use mathlib.Core.Path.{◌≡◌, refl}
use mathlib.Core.Logic.{◌↔◌}
use mathlib.Core.Bool.{Bool, true, false, ◌&&◌}
use mathlib.Core.List.{List, [], ◌∷◌, ◌++◌}
use native.Mathlib.Omega.{arith}
use mini_twitter.Common.Tests.{◌==◌}

-- The code points of a literal, which are its bytes where it is ASCII.
abbrev pub codes : String → List ℕ
codes String.[] = []
codes (String.◌∷◌ c s) = code c ∷ codes s

unfoldable pub bytes_eq : List ℕ → List ℕ → Bool
bytes_eq [] [] = true
bytes_eq [] (b ∷ bs) = false
bytes_eq (a ∷ as_) [] = false
bytes_eq (a ∷ as_) (b ∷ bs) = a == b && bytes_eq as_ bs

bytes_eq→≡ : (a b : List ℕ) → bytes_eq a b ≡ true → a ≡ b
unfolding bytes_eq
bytes_eq→≡ [] [] h = refl
bytes_eq→≡ [] (y ∷ b) h = cc
bytes_eq→≡ (x ∷ a) [] h = cc
bytes_eq→≡ (x ∷ a) (y ∷ b) h = ground (arith, bytes_eq→≡ a b)

pub bytes_eq_self : (a : List ℕ) → bytes_eq a a ≡ true
unfolding bytes_eq
bytes_eq_self [] = refl
bytes_eq_self (x ∷ a) = ground (arith, bytes_eq_self a)

pub bytes_eq_iff : (a b : List ℕ) → (bytes_eq a b ≡ true) ↔ (a ≡ b)
bytes_eq_iff a b = (bytes_eq→≡ a b, λ e. rw e (bytes_eq_self b))

pub append_injective : (p a b : List ℕ) → p ++ a ≡ p ++ b → a ≡ b
append_injective [] a b h = h
append_injective (x ∷ p) a b h = append_injective p a b (cc)
