-- ===== src/User/Repeats.antt =====
-- `Follow` of internal/user/repository.go called twice, and undone by `Unfollow`.
use mini_twitter.Common.{
  pos, map, if◌then◌else◌, suc, ◌<◌, ◌≡◌, refl, sym, ap, ap₂, ◌∙◌, ◌⊎◌, inl, inr, Bool, true, false,
  ◌&&◌, not, List, [], ◌∷◌, ◌++◌, ok, ◌+ℤ◌, ◌-ℤ◌, arith, any, select, count, ◌==◌, Bool-cases,
  count-append, subst, All, append-nil,
}
use mini_twitter.Schema.{Uuid, User, Follow, Tables}
use mini_twitter.Postgres.{Server, Cluster}
use mini_twitter.Postgres.Answered.{IsUp}
use mini_twitter.User.Statements.{
  is_follow, has_user, at_user, more_following, more_followers, less_following, less_followers,
}
use mini_twitter.User.Repository.{follow, unfollow}
use mini_twitter.User.Follows.{followed, unfollowed, follows?}
use mini_twitter.User.Counters.{IsCounted, IsConsistent, raised, lowered}

-- With an answering server `Follow` succeeds and does its three statements.
pub follow_answered :
    (server : Server) (f g : Uuid) (c : Cluster)
    → IsUp server
    → (follows? f g c.tables ≡ true)
      ⊎ (has_user f c.tables.users && has_user g c.tables.users ≡ true)
    → ((follow server f g c).0 ≡ ok tt) × ((follow server f g c).1.tables ≡ followed f g c.tables)
unfolding follow
follow_answered server f g c up h = ground (
  arith,
  up c.trips,
  up (suc c.trips),
  up (suc (suc c.trips)),
  up (suc (suc (suc c.trips))),
  up (suc (suc (suc (suc c.trips)))),
)

pub unfollow_answered :
    (server : Server) (f g : Uuid) (c : Cluster)
    → IsUp server
    → 0 < count (is_follow f g) c.tables.follows
    → ((unfollow server f g c).0 ≡ ok tt)
      × ((unfollow server f g c).1.tables ≡ unfollowed f g c.tables)
unfolding unfollow
unfollow_answered server f g c up h = ground (
  arith,
  up c.trips,
  up (suc c.trips),
  up (suc (suc c.trips)),
  up (suc (suc (suc c.trips))),
  up (suc (suc (suc (suc c.trips)))),
)

-- One of the rows is the follower's, and its counter has been raised over unchanged rows.
raised_twice :
    (f g : Uuid) (fs : List Follow) (us : List User)
    → has_user f us ≡ true
    → All (IsCounted fs) us
    → ¬ All (IsCounted fs) (at_user g more_followers (at_user f more_following us))
unfolding ◌+ℤ◌
raised_twice f g fs [] h v w = cc
raised_twice f g fs (u ∷ us) h v w = elim (Bool-cases (u.id == f)) [
  | inl hit ↦ ground arith
  | inr miss ↦ raised_twice f g fs us (ground arith) v.1 w.1
]

followed-again :
    (f g : Uuid) (t : Tables)
    → follows? f g t ≡ true
    → followed f g t
      ≡ record t { users = at_user g more_followers (at_user f more_following t.users) }
followed-again f g t old = rw old refl

-- A user with one more in `following_count`, if it is the follower, and in `follower_count`, if it is the
-- followee.
abbrev pub overcounted : Uuid → Uuid → User → User
overcounted f g u = record u {
  following_count = (if u.id == f then u.following_count +ℤ pos 1 else u.following_count);
  follower_count = (if u.id == g then u.follower_count +ℤ pos 1 else u.follower_count);
}

overcounted_all :
    (f g : Uuid) (us : List User)
    → at_user g more_followers (at_user f more_following us) ≡ map (overcounted f g) us
overcounted_all f g [] = refl
overcounted_all f g (u ∷ us) = ap₂ ◌∷◌ (one u) (overcounted_all f g us)
  where
    one :
        (u : User)
        → (let v = (if u.id == f then more_following u else u) in
            if v.id == g then more_followers v else v)
          ≡ overcounted f g u
    one u = elim (Bool-cases (u.id == f)) [
      | inl follower ↦ elim (Bool-cases (u.id == g)) [
        | inl followee ↦ rw (follower, followee) refl
        | inr other ↦ rw (follower, other) refl
      ]
      | inr other ↦ elim (Bool-cases (u.id == g)) [
        | inl followee ↦ rw (other, followee) refl
        | inr neither ↦ rw (other, neither) refl
      ]
    ]

-- The insertion of a follow that is already there does nothing, and both counters are still raised: with
-- a server that answers, a second `Follow` reports success, leaves the follow rows, adds one to the
-- `following_count` of the follower and to the `follower_count` of the followee and changes nothing
-- else of any user, and so makes counters that were right wrong.
pub follow_again_miscounts :
    (server : Server) (f g : Uuid) (c : Cluster)
    → IsUp server
    → follows? f g c.tables ≡ true
    → has_user f c.tables.users ≡ true
    → IsConsistent c.tables
    → let (r, c') = follow server f g c in
      (r ≡ ok tt)
      × (c'.tables.follows ≡ c.tables.follows)
      × (c'.tables.users ≡ map (overcounted f g) c.tables.users)
      × ¬ IsConsistent c'.tables
follow_again_miscounts server f g c up old known v =
    let (done, now) = follow_answered server f g c up (inl old) in
    let again : (follow server f g c).1.tables ≡ record (c.tables) { users = _ } =
      now ∙ followed-again f g c.tables old in
    (
      done,
      ap (λ (t : Tables). t.follows) again,
      ap (λ (t : Tables). t.users) again ∙ overcounted_all f g c.tables.users,
      λ w.
          raised_twice f g c.tables.follows c.tables.users known v.counted
            (subst IsConsistent again w).counted,
    )

select_none :
    (p : Follow → Bool) (fs : List Follow) → any p fs ≡ false → select (λ x. not (p x)) fs ≡ fs
select_none p [] h = refl
select_none p (x ∷ fs) h = ground (arith, select_none p fs)

select-append :
    (p : Follow → Bool) (fs gs : List Follow) → select p (fs ++ gs) ≡ select p fs ++ select p gs
select-append p [] gs = refl
select-append p (x ∷ fs) gs = ground (arith, select-append p fs gs)

lowered-raised :
    (f g : Uuid) (fs : List Follow) (u : User) → IsCounted fs u → lowered f g (raised f g u) ≡ u
unfolding ◌+ℤ◌ ◌-ℤ◌
lowered-raised f g fs u h = ground arith

lowered-raised_all :
    (f g : Uuid) (fs : List Follow) (us : List User)
    → All (IsCounted fs) us
    → at_user g less_followers
        (at_user f less_following (at_user g more_followers (at_user f more_following us)))
      ≡ us
lowered-raised_all f g fs [] h = refl
lowered-raised_all f g fs (u ∷ us) h =
    ap₂ ◌∷◌ (lowered-raised f g fs u h.0) (lowered-raised_all f g fs us h.1)

-- The tables after a first `Follow`.
abbrev with_follow : Uuid → Uuid → Tables → Tables
with_follow f g t = record t {
  follows = t.follows ++ record { follower_id = f; followee_id = g } ∷ [];
  users = at_user g more_followers (at_user f more_following t.users);
}

followed-fresh :
    (f g : Uuid) (t : Tables)
    → follows? f g t ≡ false
    → has_user f t.users && has_user g t.users ≡ true
    → followed f g t ≡ with_follow f g t
followed-fresh f g t fresh both = rw (fresh, both) refl

unfollowed-followed :
    (f g : Uuid) (t : Tables)
    → follows? f g t ≡ false
    → has_user f t.users && has_user g t.users ≡ true
    → IsConsistent t
    → unfollowed f g (followed f g t) ≡ t
unfollowed-followed f g t fresh both v =
    ap (unfollowed f g) (followed-fresh f g t fresh both) ∙ λ i. record t {
      follows = rows i;
      users = lowered-raised_all f g t.follows t.users v.counted i;
    }
  where
    row : Follow
    row = record { follower_id = f; followee_id = g }

    rows : select (λ x. not (is_follow f g x)) (t.follows ++ row ∷ []) ≡ t.follows
    rows =
        select-append (λ x. not (is_follow f g x)) t.follows (row ∷ [])
        ∙ ap₂ ◌++◌ (select_none (is_follow f g) t.follows fresh) (ground arith)
        ∙ append-nil t.follows

count-followed :
    (f g : Uuid) (t : Tables)
    → follows? f g t ≡ false
    → has_user f t.users && has_user g t.users ≡ true
    → 0 < count (is_follow f g) (followed f g t).follows
count-followed f g t fresh both =
    subst (λ (t' : Tables). 0 < count (is_follow f g) t'.follows)
      (sym (followed-fresh f g t fresh both))
      (ground (
        arith,
        count-append (is_follow f g) t.follows (record { follower_id = f; followee_id = g } ∷ []),
      ))

-- With a server that answers, two accounts that exist, no row between them and counters that are
-- right, `Unfollow` undoes a `Follow`: it succeeds and the tables are as they were.
pub unfollow-follow :
    (server : Server) (f g : Uuid) (c : Cluster)
    → IsUp server
    → follows? f g c.tables ≡ false
    → has_user f c.tables.users && has_user g c.tables.users ≡ true
    → IsConsistent c.tables
    → let c' = (follow server f g c).1 in
      let (r, c'') = unfollow server f g c' in (r ≡ ok tt) × (c''.tables ≡ c.tables)
unfollow-follow server f g c up fresh both v =
    let (done, now) = follow_answered server f g c up (inr both) in
    let c' = (follow server f g c).1 in
    let one : 0 < count (is_follow f g) c'.tables.follows =
      subst (λ (t : Tables). 0 < count (is_follow f g) t.follows) (sym now)
        (count-followed f g c.tables fresh both) in
    let (undone, then_) = unfollow_answered server f g c' up one in
    (undone, then_ ∙ ap (unfollowed f g) now ∙ unfollowed-followed f g c.tables fresh both v)
