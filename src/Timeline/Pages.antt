-- ===== src/Timeline/Pages.antt =====
-- The order of pages of tweets, newest first, by the queries of internal/tweet/repository.go and
-- internal/timeline/repository.go.
use mini_twitter.Common.{
  ℕ, zero, suc, ◌≤◌, ◌≡◌, refl, sym, ap, ◌∙◌, subst, Bool, false, List, [], ◌∷◌, map, take, select,
  count, All, ltb, le_of_ltb, ltb→lt, ◌==◌, ==_self, arith, if◌then◌else◌, Bool-cases, inl, inr,
}
use mini_twitter.Schema.{Uuid, Tweet}
use mini_twitter.Tweet.Statements.{insert_newest, newest_first, one_of}

-- No tweet of the list is newer than this one.
abbrev pub IsNewest : Tweet → List Tweet → Type 0
IsNewest w = All λ v. v.created_at ≤ w.created_at

abbrev pub IsNewestFirst : List Tweet → Type 0
IsNewestFirst [] = Unit
IsNewestFirst (w ∷ ws) = IsNewest w ws × IsNewestFirst ws

IsNewest-weaken :
    (v w : Tweet) (ws : List Tweet) → w.created_at ≤ v.created_at → IsNewest w ws → IsNewest v ws
IsNewest-weaken v w [] h n = tt
IsNewest-weaken v w (x ∷ xs) h n = (omega (arith, n.0), IsNewest-weaken v w xs h n.1)

IsNewest-insert :
    (v w : Tweet) (ws : List Tweet)
    → w.created_at ≤ v.created_at
    → IsNewest v ws
    → IsNewest v (insert_newest w ws)
IsNewest-insert v w [] h n = (h, tt)
IsNewest-insert v w (x ∷ xs) h n = elim (Bool-cases (ltb w.created_at x.created_at)) [
  | inl older ↦ rw older (n.0, IsNewest-insert v w xs h n.1)
  | inr newer ↦ rw newer (h, n)
]

insert-IsNewestFirst :
    (w : Tweet) (ws : List Tweet) → IsNewestFirst ws → IsNewestFirst (insert_newest w ws)
insert-IsNewestFirst w [] s = (tt, tt)
insert-IsNewestFirst w (x ∷ xs) s = elim (Bool-cases (ltb w.created_at x.created_at)) [
  | inl older ↦
      rw older (
        IsNewest-insert x w xs (omega (arith, ltb→lt _ _ older)) s.0,
        insert-IsNewestFirst w xs s.1,
      )
  | inr newer ↦
      let h : x.created_at ≤ w.created_at = le_of_ltb _ _ newer in
      rw newer ((h, IsNewest-weaken w x xs h s.0), s)
]

pub newest_first-IsNewestFirst : (ws : List Tweet) → IsNewestFirst (newest_first ws)
newest_first-IsNewestFirst [] = tt
newest_first-IsNewestFirst (w ∷ ws) =
    insert-IsNewestFirst w (newest_first ws) (newest_first-IsNewestFirst ws)

insert_head : (w : Tweet) (ws : List Tweet) → IsNewest w ws → insert_newest w ws ≡ w ∷ ws
insert_head w [] n = refl
insert_head w (x ∷ xs) n = ground arith

IsNewest-select :
    (p : Tweet → Bool) (w : Tweet) (ws : List Tweet) → IsNewest w ws → IsNewest w (select p ws)
IsNewest-select p w [] n = tt
IsNewest-select p w (x ∷ xs) n = elim (Bool-cases (p x)) [
  | inl hit ↦ rw hit (n.0, IsNewest-select p w xs n.1)
  | inr miss ↦ rw miss (IsNewest-select p w xs n.1)
]

select-insert :
    (p : Tweet → Bool) (w : Tweet) (ws : List Tweet)
    → IsNewestFirst ws
    → select p (insert_newest w ws) ≡ (if p w then insert_newest w (select p ws) else select p ws)
select-insert p w [] s = refl
select-insert p w (x ∷ xs) s = elim (Bool-cases (ltb w.created_at x.created_at)) [
  | inl older ↦ elim (Bool-cases (p x)) [
    | inl hit ↦ elim (Bool-cases (p w)) [
      | inl both ↦
          rw older
            (rw (hit, both) (rw older (ap (◌∷◌ x) (select-insert p w xs s.1 ∙ rw both refl))))
      | inr only ↦ rw older (rw (hit, only) (ap (◌∷◌ x) (select-insert p w xs s.1 ∙ rw only refl)))
    ]
    | inr miss ↦ rw older (rw miss (select-insert p w xs s.1))
  ]
  | inr newer ↦
      let h : x.created_at ≤ w.created_at = le_of_ltb _ _ newer in
      rw newer (
        ap (λ zs. if p w then zs else select p (x ∷ xs))
          (sym (
            insert_head w (select p (x ∷ xs))
              (IsNewest-select p w (x ∷ xs) (h, IsNewest-weaken w x xs h s.0)))))
]

-- A stable sort commutes with a selection.
pub newest_first-select :
    (p : Tweet → Bool) (ws : List Tweet) → newest_first (select p ws) ≡ select p (newest_first ws)
newest_first-select p [] = refl
newest_first-select p (w ∷ ws) = elim (Bool-cases (p w)) [
  | inl hit ↦ rw hit (
      ap (insert_newest w) (newest_first-select p ws)
      ∙ sym (select-insert p w (newest_first ws) (newest_first-IsNewestFirst ws) ∙ rw hit refl))
  | inr miss ↦ rw miss (
      newest_first-select p ws
      ∙ sym (select-insert p w (newest_first ws) (newest_first-IsNewestFirst ws) ∙ rw miss refl))
]

count-insert_newest :
    (p : Tweet → Bool) (w : Tweet) (ws : List Tweet)
    → count p (insert_newest w ws) ≡ count p (w ∷ ws)
count-insert_newest p w [] = refl
count-insert_newest p w (x ∷ xs) = ground (arith, count-insert_newest p w xs)

pub count-newest_first :
    (p : Tweet → Bool) (ws : List Tweet) → count p (newest_first ws) ≡ count p ws
count-newest_first p [] = refl
count-newest_first p (w ∷ ws) =
    count-insert_newest p w (newest_first ws)
    ∙ ap (λ n. if p w then suc n else n) (count-newest_first p ws)

abbrev pub has_id : Uuid → Tweet → Bool
has_id id w = w.id == id

-- Every id stands in one row at most.
abbrev pub IsKeyed : List Tweet → Type 0
IsKeyed ws = (id : Uuid) → count (has_id id) ws ≤ 1

abbrev pub ids_of : List Tweet → List Uuid
ids_of = map λ w. w.id

one_of-absent :
    (id : Uuid) (p : Tweet → Bool) (n : ℕ) (ws : List Tweet)
    → count (has_id id) ws ≡ 0
    → one_of (ids_of (take n (select p ws))) id ≡ false
one_of-absent id p zero ws h = refl
one_of-absent id p (suc n) [] h = refl
one_of-absent id p (suc n) (w ∷ ws) h =
    ground (arith, one_of-absent id p n ws, one_of-absent id p (suc n) ws)

select_skip :
    (id : Uuid) (ids : List Uuid) (ws : List Tweet)
    → count (has_id id) ws ≡ 0
    → select (λ v. one_of (id ∷ ids) v.id) ws ≡ select (λ v. one_of ids v.id) ws
select_skip id ids [] h = refl
select_skip id ids (w ∷ ws) h = ground (arith, select_skip id ids ws)

tail-IsKeyed : (w : Tweet) (ws : List Tweet) → IsKeyed (w ∷ ws) → IsKeyed ws
tail-IsKeyed w ws k id = ground (arith, k id)

keyed_head : (w : Tweet) (ws : List Tweet) → IsKeyed (w ∷ ws) → count (has_id w.id) ws ≡ 0
keyed_head w ws k = ground (arith, k w.id)

-- Looking the ids of a page up gives the page.
pub select-ids_of :
    (p : Tweet → Bool) (n : ℕ) (ws : List Tweet)
    → IsKeyed ws
    → select (λ v. one_of (ids_of (take n (select p ws))) v.id) ws ≡ take n (select p ws)
select-ids_of p zero [] k = refl
select-ids_of p (suc n) [] k = refl
select-ids_of p zero (w ∷ ws) k = select-ids_of p zero ws (tail-IsKeyed w ws k)
select-ids_of p (suc n) (w ∷ ws) k =
    let found : List Tweet → Type 0 = λ t. select (λ v. one_of (ids_of t) v.id) (w ∷ ws) ≡ t in
    let apart = keyed_head w ws k in
    let rest = tail-IsKeyed w ws k in
    elim (Bool-cases (p w)) [
      | inl hit ↦
          subst found
            (sym {a = take (suc n) (select p (w ∷ ws))} {b = w ∷ take n (select p ws)}
              (rw hit refl))
            (rw (==_self w.id) (
              ap (◌∷◌ w) (
                select_skip w.id (ids_of (take n (select p ws))) ws apart
                ∙ select-ids_of p n ws rest)))
      | inr miss ↦
          subst found
            (sym {a = take (suc n) (select p (w ∷ ws))} {b = take (suc n) (select p ws)}
              (rw miss refl))
            (rw (one_of-absent w.id p (suc n) ws apart) (select-ids_of p (suc n) ws rest))
    ]
