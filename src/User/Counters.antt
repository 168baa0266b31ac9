-- ===== src/User/Counters.antt =====
-- The counters of a user against the rows of `follows` (internal/user/repository.go).
use mini_twitter.Common.{
  ◌+◌, ◌≤◌, ◌<◌, ◌≡◌, refl, sym, inl, inr, Bool, true, false, ◌&&◌, not, List, [], ◌∷◌, ◌++◌, pos,
  ◌+ℤ◌, ◌-ℤ◌, arith, any, select, count, ◌==◌, if◌then◌else◌, count-append, subst, All,
}
use mini_twitter.Schema.{Uuid, User, Follow, Tables}
use mini_twitter.Postgres.{Server, Cluster}
use mini_twitter.User.Statements.{
  is_follow, has_user, at_user, more_following, more_followers, less_following, less_followers,
}
use mini_twitter.User.Repository.{follow, unfollow}
use mini_twitter.User.Follows.{followed, follows?, follow_atomic, unfollow_atomic}

abbrev pub by : Uuid → Follow → Bool
by id f = f.follower_id == id

abbrev pub of : Uuid → Follow → Bool
of id f = f.followee_id == id

-- The counters of one user are the numbers of its rows.
abbrev pub IsCounted : List Follow → User → Type 0
IsCounted fs u =
    (u.following_count ≡ pos (count (by u.id) fs)) × (u.follower_count ≡ pos (count (of u.id) fs))

-- The primary key of `follows` holds, and every user's counters are right.
pub record IsConsistent (t : Tables) : Type 0 where
  pub keyed : (f g : Uuid) → count (is_follow f g) t.follows ≤ 1
  pub counted : All (IsCounted t.follows) t.users

pub any-count : (p : Follow → Bool) (fs : List Follow) → any p fs ≡ false → count p fs ≡ 0
any-count p [] h = refl
any-count p (x ∷ fs) h = ground (arith, any-count p fs)

count-any : (p : Follow → Bool) (fs : List Follow) → any p fs ≡ true → 0 < count p fs
count-any p [] h = cc
count-any p (x ∷ fs) h = ground (arith, count-any p fs)

module _ (f g : Uuid) where
  -- What the two updates of `Follow`, and of `Unfollow`, make of one row.
  abbrev pub raised : User → User
  raised u =
      let v : User = if u.id == f then more_following u else u in
      if v.id == g then more_followers v else v

  abbrev pub lowered : User → User
  lowered u =
      let v : User = if u.id == f then less_following u else u in
      if v.id == g then less_followers v else v

  raised-IsCounted :
      (fs : List Follow) (u : User)
      → IsCounted fs u
      → IsCounted (fs ++ record { follower_id = f; followee_id = g } ∷ []) (raised u)
  unfolding ◌+ℤ◌
  raised-IsCounted fs u h = ground (
    arith,
    count-append (by u.id) fs (record { follower_id = f; followee_id = g } ∷ []),
    count-append (of u.id) fs (record { follower_id = f; followee_id = g } ∷ []),
  )

  raised_all-IsCounted :
      (fs : List Follow) (us : List User)
      → All (IsCounted fs) us
      → All
          (IsCounted (fs ++ record { follower_id = f; followee_id = g } ∷ []))
          (at_user g more_followers (at_user f more_following us))
  raised_all-IsCounted fs [] h = tt
  raised_all-IsCounted fs (u ∷ us) h = (raised-IsCounted fs u h.0, raised_all-IsCounted fs us h.1)

  -- Deleting the rows of one pair takes them off the follower's and the followee's numbers only.
  count-by-delete :
      (id : Uuid) (fs : List Follow)
      → count (by id) fs
        ≡ count (by id) (select (λ x. not (is_follow f g x)) fs)
          + (if id == f then count (is_follow f g) fs else 0)
  count-by-delete id [] = ground arith
  count-by-delete id (x ∷ fs) = ground (arith, count-by-delete id fs)

  count-of-delete :
      (id : Uuid) (fs : List Follow)
      → count (of id) fs
        ≡ count (of id) (select (λ x. not (is_follow f g x)) fs)
          + (if id == g then count (is_follow f g) fs else 0)
  count-of-delete id [] = ground arith
  count-of-delete id (x ∷ fs) = ground (arith, count-of-delete id fs)

  lowered-IsCounted :
      (fs : List Follow) (u : User)
      → count (is_follow f g) fs ≡ 1
      → IsCounted fs u
      → IsCounted (select (λ x. not (is_follow f g x)) fs) (lowered u)
  unfolding ◌-ℤ◌
  lowered-IsCounted fs u one h = ground (arith, count-by-delete u.id fs, count-of-delete u.id fs)

  lowered_all-IsCounted :
      (fs : List Follow) (us : List User)
      → count (is_follow f g) fs ≡ 1
      → All (IsCounted fs) us
      → All
          (IsCounted (select (λ x. not (is_follow f g x)) fs))
          (at_user g less_followers (at_user f less_following us))
  lowered_all-IsCounted fs [] one h = tt
  lowered_all-IsCounted fs (u ∷ us) one h =
      (lowered-IsCounted fs u one h.0, lowered_all-IsCounted fs us one h.1)

followed-IsConsistent :
    (f g : Uuid) (t : Tables)
    → follows? f g t ≡ false
    → has_user f t.users && has_user g t.users ≡ true
    → IsConsistent t
    → IsConsistent (followed f g t)
followed-IsConsistent f g t fresh both v =
    rw (fresh, both)
      record {
        keyed = λ a b. ground (
          arith,
          v.keyed a b,
          any-count (is_follow f g) t.follows fresh,
          count-append (is_follow a b) t.follows (record { follower_id = f; followee_id = g } ∷ []),
        );
        counted = raised_all-IsCounted f g t.follows t.users v.counted;
      }

-- A `Follow` where there was no row keeps the key of `follows` and the counters of all users right,
-- whatever becomes of its round trips.
pub follow-IsConsistent :
    (server : Server) (f g : Uuid) (c : Cluster)
    → follows? f g c.tables ≡ false
    → IsConsistent c.tables
    → IsConsistent (follow server f g c).1.tables
follow-IsConsistent server f g c fresh v = elim (follow_atomic server f g c) [
  | inl (same, _) ↦ subst IsConsistent (sym same) v
  | inr (done, inl old) ↦ absurd (cc)
  | inr (done, inr both) ↦
      subst IsConsistent (sym done) (followed-IsConsistent f g c.tables fresh both v)
]

count-select-le : (p q : Follow → Bool) (fs : List Follow) → count p (select q fs) ≤ count p fs
count-select-le p q [] = omega arith
count-select-le p q (x ∷ fs) = ground (arith, count-select-le p q fs)

-- `Unfollow` keeps the key of `follows` and the counters of all users right, whatever becomes of
-- its round trips.
pub unfollow-IsConsistent :
    (server : Server) (f g : Uuid) (c : Cluster)
    → IsConsistent c.tables
    → IsConsistent (unfollow server f g c).1.tables
unfollow-IsConsistent server f g c v = elim (unfollow_atomic server f g c) [
  | inl (same, _) ↦ subst IsConsistent (sym same) v
  | inr (done, some_row) ↦ subst IsConsistent (sym done) record {
    keyed = λ a b. omega (
      arith,
      v.keyed a b,
      count-select-le (is_follow a b) (λ x. not (is_follow f g x)) c.tables.follows,
    );
    counted =
        lowered_all-IsCounted f g c.tables.follows c.tables.users
          (omega (arith, some_row, v.keyed f g)) v.counted;
  }
]
