-- ===== src/Common/Sorting.antt =====
-- Insertion sort on numbers, for ORDER BY, and what filtering a sorted list leaves.
use Prim.Native.Nat.{ℕ, zero, suc, ◌≤◌, ◌<◌}
use mathlib.Core.Path.{◌≡◌, refl, ap, ◌∙◌, sym}
use mathlib.Core.Logic.{inl, inr}
use mathlib.Core.Bool.{Bool, true, false}
use mathlib.Core.List.{List, [], ◌∷◌}
use native.Mathlib.Omega.{arith}
use native.Mathlib.Decide.{dec_le}
use mini_twitter.Common.Tests.{leb, ◌==◌, ltb, if◌then◌else◌, Bool-cases}
use mini_twitter.Common.Lists.{select, any, count, length, take, drop, last}

unfoldable pub insert : ℕ → List ℕ → List ℕ
insert x [] = x ∷ []
insert x (y ∷ ys) = if leb x y then x ∷ y ∷ ys else y ∷ insert x ys

unfoldable pub sort : List ℕ → List ℕ
unfolding insert
sort [] = []
sort (x ∷ xs) = insert x (sort xs)

-- Every entry is above the bound, and strictly above the one before it.
abbrev pub Rising : ℕ → List ℕ → Type 0
Rising a [] = Unit {0}
Rising a (x ∷ xs) = (a < x) × Rising x xs

-- Every entry is at least the bound and the one before it.
abbrev pub Climbing : ℕ → List ℕ → Type 0
Climbing a [] = Unit {0}
Climbing a (x ∷ xs) = (a ≤ x) × Climbing x xs

Climbing-insert : (a x : ℕ) (xs : List ℕ) → a ≤ x → Climbing a xs → Climbing a (insert x xs)
unfolding insert
Climbing-insert a x [] h c = (h, tt)
Climbing-insert a x (y ∷ ys) h c = ground (arith, Climbing-insert y x ys)

pub Climbing-sort : (xs : List ℕ) → Climbing 0 (sort xs)
unfolding sort
Climbing-sort [] = tt
Climbing-sort (x ∷ xs) = Climbing-insert 0 x (sort xs) (omega arith) (Climbing-sort xs)

select-insert-out :
    (p : ℕ → Bool) (x : ℕ) (xs : List ℕ) → p x ≡ false → select p (insert x xs) ≡ select p xs
unfolding insert
select-insert-out p x [] h = ground arith
select-insert-out p x (y ∷ ys) h = ground (arith, select-insert-out p x ys h)

Climbing-lower : {a x : ℕ} (ys : List ℕ) → a ≤ x → Climbing x ys → Climbing a ys
Climbing-lower [] h d = tt
Climbing-lower (y ∷ ys) h d = (omega arith, d.1)

pub Climbing-select :
    (p : ℕ → Bool) (a : ℕ) (xs : List ℕ) → Climbing a xs → Climbing a (select p xs)
Climbing-select p a [] c = tt
Climbing-select p a (x ∷ xs) c =
    let ih = Climbing-select p x xs c.1 in ground (arith, ih, Climbing-lower (select p xs) c.0 ih)

insert_least : (x : ℕ) (ys : List ℕ) → Climbing x ys → insert x ys ≡ x ∷ ys
unfolding insert
insert_least x [] c = refl
insert_least x (y ∷ ys) c = ground arith

select-insert-in :
    (p : ℕ → Bool) (a x : ℕ) (xs : List ℕ)
    → p x ≡ true
    → Climbing a xs
    → select p (insert x xs) ≡ insert x (select p xs)
unfolding insert
select-insert-in p a x [] h c = ground arith
select-insert-in p a x (y ∷ ys) h c = elim (dec_le x y) [
  | yes low ↦
      ground
        (arith, insert_least x (select p ys) (Climbing-select p x ys (Climbing-lower ys low c.1)))
  | no high ↦ ground (arith, select-insert-in p y x ys h c.1)
]

-- WHERE and ORDER BY commute.
pub sort-select : (p : ℕ → Bool) (xs : List ℕ) → sort (select p xs) ≡ select p (sort xs)
unfolding sort
sort-select p [] = refl
sort-select p (x ∷ xs) = elim (Bool-cases (p x)) [
  | inl keep ↦ rw keep (
      ap (insert x) (sort-select p xs)
      ∙ sym (select-insert-in p 0 x (sort xs) keep (Climbing-sort xs)))
  | inr skip ↦ rw skip (sort-select p xs ∙ sym (select-insert-out p x (sort xs) skip))
]

abbrev pub IsRising : List ℕ → Type 0
IsRising [] = Unit {0}
IsRising (x ∷ xs) = Rising x xs

Rising-lower : {a x : ℕ} (ys : List ℕ) → a ≤ x → Rising x ys → Rising a ys
Rising-lower [] h d = tt
Rising-lower (y ∷ ys) h d = (omega arith, d.1)

pub Rising-select : (p : ℕ → Bool) (a : ℕ) (xs : List ℕ) → Rising a xs → Rising a (select p xs)
Rising-select p a [] c = tt
Rising-select p a (x ∷ xs) c =
    let ih = Rising-select p x xs c.1 in
    ground (arith, ih, Rising-lower {a = a} {x = x} (select p xs) (omega arith) ih)

pub IsRising-drop : (n : ℕ) (xs : List ℕ) → IsRising xs → IsRising (drop n xs)
IsRising-drop zero xs r = r
IsRising-drop (suc n) [] r = tt
IsRising-drop (suc n) (x ∷ []) r = IsRising-drop n [] tt
IsRising-drop (suc n) (x ∷ y ∷ ys) r = IsRising-drop n (y ∷ ys) r.1

select_all_above : (a : ℕ) (xs : List ℕ) → Rising a xs → select (ltb a) xs ≡ xs
select_all_above a [] r = refl
select_all_above a (x ∷ xs) r =
    ground (arith, select_all_above a xs (Rising-lower xs (omega arith) r.1))

pub last-ge : (x n : ℕ) (xs : List ℕ) → Rising x xs → x ≤ last x (take n xs)
last-ge x zero xs r = omega arith
last-ge x (suc n) [] r = omega arith
last-ge x (suc n) (y ∷ ys) r = omega (arith, last-ge y n ys r.1)

-- What lies above the last entry of a page of a rising list is the rest of the list.
pub select_above :
    (n x : ℕ) (xs : List ℕ) → Rising x xs → select (ltb (last x (take n xs))) (x ∷ xs) ≡ drop n xs
select_above zero x xs r = ground (arith, select_all_above x xs r)
select_above (suc n) x [] r = ground arith
select_above (suc n) x (y ∷ ys) r = ground (arith, last-ge y n ys r.1, select_above n y ys r.1)

-- A later cursor alone decides what two cursors leave.
pub select-select_above :
    (a b : ℕ) (xs : List ℕ) → b ≤ a → select (ltb a) (select (ltb b) xs) ≡ select (ltb a) xs
select-select_above a b [] h = refl
select-select_above a b (x ∷ xs) h = ground (arith, select-select_above a b xs h)

count-insert : (p : ℕ → Bool) (x : ℕ) (xs : List ℕ) → count p (insert x xs) ≡ count p (x ∷ xs)
unfolding insert
count-insert p x [] = refl
count-insert p x (y ∷ ys) = ground (arith, count-insert p x ys)

-- Sorting keeps how often each entry occurs.
pub count-sort : (p : ℕ → Bool) (xs : List ℕ) → count p (sort xs) ≡ count p xs
unfolding sort
count-sort p [] = refl
count-sort p (x ∷ xs) = count-insert p x (sort xs) ∙ ground (arith, count-sort p xs)

distinct-Rising :
    (a : ℕ) (xs : List ℕ)
    → Climbing a xs
    → ((v : ℕ) → count (λ x. x == v) (a ∷ xs) ≤ 1)
    → Rising a xs
distinct-Rising a [] c d = tt
distinct-Rising a (x ∷ xs) c d =
    (ground (arith, d a), distinct-Rising x xs c.1 λ v. ground (arith, d v))

-- A list with no repetition is sorted into a rising one.
pub sort-IsRising : (xs : List ℕ) → ((v : ℕ) → count (λ x. x == v) xs ≤ 1) → IsRising (sort xs)
sort-IsRising xs d = rising (sort xs) (Climbing-sort xs) λ v. rw (count-sort (λ x. x == v) xs) (d v)
  where
    rising : (ys : List ℕ) → Climbing 0 ys → ((v : ℕ) → count (λ x. x == v) ys ≤ 1) → IsRising ys
    rising [] c e = tt
    rising (y ∷ ys) c e = distinct-Rising y ys c.1 e

-- A rising list holds nothing at or below its bound.
pub any-Rising : (u a : ℕ) (xs : List ℕ) → u ≤ a → Rising a xs → any (λ x. x == u) xs ≡ false
any-Rising u a [] h r = refl
any-Rising u a (x ∷ xs) h r = ground (arith, any-Rising u x xs (omega arith) r.1)

pub Rising-IsRising : (a : ℕ) (xs : List ℕ) → Rising a xs → IsRising xs
Rising-IsRising a [] r = tt
Rising-IsRising a (x ∷ xs) r = r.1

any-insert : (p : ℕ → Bool) (x : ℕ) (xs : List ℕ) → any p (insert x xs) ≡ any p (x ∷ xs)
unfolding insert
any-insert p x [] = refl
any-insert p x (y ∷ ys) = ground (arith, any-insert p x ys)

pub any-sort : (p : ℕ → Bool) (xs : List ℕ) → any p (sort xs) ≡ any p xs
unfolding sort
any-sort p [] = refl
any-sort p (x ∷ xs) = any-insert p x (sort xs) ∙ ground (arith, any-sort p xs)

pub length-sort : (xs : List ℕ) → length (sort xs) ≡ length xs
unfolding sort
length-sort [] = refl
length-sort (x ∷ xs) = length-insert x (sort xs) ∙ ap suc (length-sort xs)
  where
    length-insert : (y : ℕ) (ys : List ℕ) → length (insert y ys) ≡ suc (length ys)
    length-insert y [] = unfold insert in refl
    length-insert y (z ∷ ys) = let ih = length-insert y ys in unfold insert in ground (arith, ih)
