-- ===== src/Timeline/Cursor.antt =====
-- Paging backward by a cursor, the time of the last tweet of the page before
-- (internal/timeline/repository.go).
use mini_twitter.Common.{
  fun_ext, ℕ, zero, suc, ◌+◌, ◌≤◌, ◌<◌, ◌≡◌, refl, sym, ap, ap₂, ◌∙◌, subst, Bool, true, false,
  ◌&&◌, List, [], ◌∷◌, ◌++◌, Option, none, some, take, drop, select, count, last, All, ltb, lt→ltb,
  ◌==◌, arith, if◌then◌else◌, Bool-cases, inl, inr,
}
use mini_twitter.Schema.{Uuid, Time, Tweet, Tables}
use mini_twitter.Tweet.Statements.{newest_first, before?}
use mini_twitter.Timeline.Pages.{
  IsNewest, IsNewestFirst, newest_first-IsNewestFirst, newest_first-select, count-newest_first,
}
use mini_twitter.Timeline.Home.{page}

-- All tweets of the list are older than this one.
abbrev IsOlder : Tweet → List Tweet → Type 0
IsOlder w = All λ v. v.created_at < w.created_at

abbrev IsStrict : List Tweet → Type 0
IsStrict [] = Unit
IsStrict (w ∷ ws) = IsOlder w ws × IsStrict ws

-- No two tweets have one time.
abbrev pub IsTimed : List Tweet → Type 0
IsTimed ws = (time : Time) → count (λ w. w.created_at == time) ws ≤ 1

IsNewest-IsOlder :
    (w : Tweet) (ws : List Tweet)
    → IsNewest w ws
    → count (λ v. v.created_at == w.created_at) ws ≡ 0
    → IsOlder w ws
IsNewest-IsOlder w [] n h = tt
IsNewest-IsOlder w (v ∷ vs) n h = (ground (arith, n.0), IsNewest-IsOlder w vs n.1 (ground arith))

IsNewestFirst-IsStrict : (ws : List Tweet) → IsNewestFirst ws → IsTimed ws → IsStrict ws
IsNewestFirst-IsStrict [] s timed = tt
IsNewestFirst-IsStrict (w ∷ ws) s timed = (
  IsNewest-IsOlder w ws s.0 (ground (arith, timed w.created_at)),
  IsNewestFirst-IsStrict ws s.1 λ time. ground (arith, timed time),
)

IsOlder-select :
    (p : Tweet → Bool) (w : Tweet) (ws : List Tweet) → IsOlder w ws → IsOlder w (select p ws)
IsOlder-select p w [] h = tt
IsOlder-select p w (v ∷ vs) h = elim (Bool-cases (p v)) [
  | inl hit ↦ rw hit (h.0, IsOlder-select p w vs h.1)
  | inr miss ↦ rw miss (IsOlder-select p w vs h.1)
]

IsStrict-select : (p : Tweet → Bool) (ws : List Tweet) → IsStrict ws → IsStrict (select p ws)
IsStrict-select p [] s = tt
IsStrict-select p (w ∷ ws) s = elim (Bool-cases (p w)) [
  | inl hit ↦ rw hit (IsOlder-select p w ws s.0, IsStrict-select p ws s.1)
  | inr miss ↦ rw miss (IsStrict-select p ws s.1)
]

ltb_self : (a : ℕ) → ltb a a ≡ false
ltb_self a = ground arith

ltb_above : (a b : ℕ) → a ≤ b → ltb b a ≡ false
ltb_above a b h = ground arith

select_older :
    (w : Tweet) (ws : List Tweet)
    → IsOlder w ws
    → select (λ v. ltb v.created_at w.created_at) ws ≡ ws
select_older w [] h = refl
select_older w (v ∷ vs) h =
    rw (lt→ltb v.created_at w.created_at h.0) (ap (◌∷◌ v) (select_older w vs h.1))

last-older :
    (n : ℕ) (w : Tweet) (ws : List Tweet)
    → IsStrict (w ∷ ws)
    → (last w (take n ws)).created_at ≤ w.created_at
last-older zero w ws s = omega arith
last-older (suc n) w [] s = omega arith
last-older (suc n) w (v ∷ vs) s = omega (arith, s.0.0, last-older n v vs s.1)

-- What is older than the last tweet of a page is what the page left.
select_below :
    (n : ℕ) (w : Tweet) (ws : List Tweet)
    → IsStrict (w ∷ ws)
    → select (λ v. ltb v.created_at (last w (take n ws)).created_at) (w ∷ ws) ≡ drop n ws
select_below zero w ws s = rw (ltb_self w.created_at) (select_older w ws s.0)
select_below (suc n) w [] s = rw (ltb_self w.created_at) refl
select_below (suc n) w (v ∷ vs) s =
    rw
      (ltb_above (last v (take n vs)).created_at w.created_at
        (omega (arith, s.0.0, last-older n v vs s.1)))
      (select_below n v vs s.1)

select-select :
    (p q : Tweet → Bool) (ws : List Tweet) → select q (select p ws) ≡ select (λ w. p w && q w) ws
select-select p q [] = refl
select-select p q (w ∷ ws) = elim (Bool-cases (p w)) [
  | inl hit ↦ rw hit (ap (λ vs. if q w then w ∷ vs else vs) (select-select p q ws))
  | inr miss ↦ rw miss (select-select p q ws)
]

none_left : (n : ℕ) → take {A = Tweet} n [] ≡ []
none_left zero = refl
none_left (suc n) = refl

take-drop : (n m : ℕ) (ws : List Tweet) → take n ws ++ take m (drop n ws) ≡ take (n + m) ws
take-drop zero m ws = ap (λ k. take k ws) (omega arith)
take-drop (suc n) m [] = none_left m ∙ sym (none_left (suc n + m))
take-drop (suc n) m (w ∷ ws) =
    let sum : suc (n + m) ≡ suc n + m = omega arith in
    ap (◌∷◌ w) (take-drop n m ws) ∙ ap (λ k. take k (w ∷ ws)) sum

All-passes : (p : Tweet → Bool) (ws : List Tweet) → All (λ w. p w ≡ true) (select p ws)
All-passes p [] = tt
All-passes p (w ∷ ws) = elim (Bool-cases (p w)) [
  | inl hit ↦ rw hit (hit, All-passes p ws)
  | inr miss ↦ rw miss (All-passes p ws)
]

last-All :
    (P : Tweet → Type 0) (n : ℕ) (w : Tweet) (ws : List Tweet)
    → P w
    → All P ws
    → P (last w (take n ws))
last-All P zero w ws h all = h
last-All P (suc n) w [] h all = h
last-All P (suc n) w (v ∷ vs) h all = last-All P n v vs all.0 all.1

last_passes :
    (p : Tweet → Bool) (n : ℕ) (x : Tweet) (ys ws : List Tweet)
    → take (suc n) (select p ws) ≡ x ∷ ys
    → p (last x ys) ≡ true
last_passes p n x ys ws e = from (select p ws) (All-passes p ws) e
  where
    from :
        (qs : List Tweet)
        → All (λ w. p w ≡ true) qs
        → take (suc n) qs ≡ x ∷ ys
        → p (last x ys) ≡ true
    from [] all e = absurd cc
    from (w ∷ ws) all e =
        subst (λ z. p z ≡ true) (ap (last w) e) (last-All (λ z. p z ≡ true) n w ws all.0 all.1)

select-same :
    (p q : Tweet → Bool) (ws : List Tweet) → ((w : Tweet) → p w ≡ q w) → select p ws ≡ select q ws
select-same p q ws same = ap (λ r. select r ws) (fun_ext same)

-- A cursor that an earlier one admits makes the earlier one idle.
cursors :
    (author : Uuid → Bool) (before : Option Time) (x w : Tweet)
    → (author x.user_id && before? before x) ≡ true
    → ((author w.user_id && before? before w) && before? (some x.created_at) w)
      ≡ (author w.user_id && before? (some x.created_at) w)
cursors author none x w h = ground arith
cursors author (some b) x w h = ground arith

-- The page after a page is the next part of the list.
rest_page :
    (n : ℕ) (x : Tweet) (ys qs : List Tweet)
    → IsStrict qs
    → take (suc n) qs ≡ x ∷ ys
    → select (λ w. ltb w.created_at (last x ys).created_at) qs ≡ drop (suc n) qs
rest_page n x ys [] s e = absurd cc
rest_page n x ys (w ∷ ws) s e =
    subst (λ z. select (λ v. ltb v.created_at z.created_at) (w ∷ ws) ≡ drop n ws) (ap (last w) e)
      (select_below n w ws s)

-- A page that is not empty, and the page whose cursor is the time of its last tweet, are together the
-- page of both sizes, so paging backward neither repeats nor skips a tweet. No two tweets have one time.
pub page-next :
    (author : Uuid → Bool) (n m : ℕ) (before : Option Time) (t : Tables) (x : Tweet)
    (ys : List Tweet)
    → IsTimed t.tweets
    → page author (suc n) before t ≡ x ∷ ys
    → page author (suc n) before t ++ page author m (some (last x ys).created_at) t
      ≡ page author (suc n + m) before t
page-next author n m before t x ys timed e =
    let p : Tweet → Bool = λ w. author w.user_id && before? before w in
    let time : Time = (last x ys).created_at in
    let all = newest_first t.tweets in
    let strict : IsStrict all =
      IsNewestFirst-IsStrict all (newest_first-IsNewestFirst t.tweets)
        λ u. rw (count-newest_first (λ w. w.created_at == u) t.tweets) (timed u) in
    let sorted : (k : ℕ) → page author k before t ≡ take k (select p all) =
      λ k. ap (take k) (newest_first-select p t.tweets) in
    let first : take (suc n) (select p all) ≡ x ∷ ys = sym (sorted (suc n)) ∙ e in
    let passes : p (last x ys) ≡ true = last_passes p n x ys all first in
    let second : page author m (some time) t ≡ take m (drop (suc n) (select p all)) = ap (take m) (
      newest_first-select (λ w. author w.user_id && ltb w.created_at time) t.tweets
      ∙ select-same (λ w. author w.user_id && ltb w.created_at time)
          (λ w. p w && ltb w.created_at time) all
          (λ w. sym (cursors author before (last x ys) w passes))
      ∙ sym (select-select p (λ w. ltb w.created_at time) all)
      ∙ rest_page n x ys (select p all) (IsStrict-select p all strict) first) in
    ap₂ (λ vs ws. vs ++ ws) (sorted (suc n)) second
    ∙ take-drop (suc n) m (select p all)
    ∙ sym (sorted (suc n + m))
