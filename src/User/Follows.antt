-- ===== src/User/Follows.antt =====
-- Following and unfollowing, whatever becomes of the round trips: each is done whole or not at all,
-- and what that does to the two counters of a user (internal/user/repository.go).
use mini_twitter.Common.{◌<◌, ◌≡◌, ◌≢◌, ◌⊎◌, Bool, true, ◌&&◌, ok, arith, any, count}
use mini_twitter.Schema.{Uuid, Tables}
use mini_twitter.Postgres.{Server, Cluster}
use mini_twitter.User.Statements.{
  is_follow, has_user, at_user, insert_follow, delete_follow, more_following, more_followers,
  less_following, less_followers,
}
use mini_twitter.User.Repository.{follow, unfollow}

-- The tables after the three statements of `Follow`, and of `Unfollow`.
abbrev pub followed : Uuid → Uuid → Tables → Tables
followed f g t =
    let t' = (insert_follow f g t).1 in
    record t' { users = at_user g more_followers (at_user f more_following t.users) }

abbrev pub unfollowed : Uuid → Uuid → Tables → Tables
unfollowed f g t =
    let t' = (delete_follow f g t).1 in
    record t' { users = at_user g less_followers (at_user f less_following t.users) }

abbrev pub follows? : Uuid → Uuid → Tables → Bool
follows? f g t = any (is_follow f g) t.follows

-- Whatever becomes of the round trips, `Follow` leaves the tables as they were and reports an
-- error, or does all of its three statements; those it does only where the row was there or both
-- accounts exist.
pub follow_atomic :
    (server : Server) (f g : Uuid) (c : Cluster)
    → let (r, c') = follow server f g c in
      ((c'.tables ≡ c.tables) × (r ≢ ok tt))
      ⊎ ((c'.tables ≡ followed f g c.tables)
          × ((follows? f g c.tables ≡ true)
              ⊎ (has_user f c.tables.users && has_user g c.tables.users ≡ true)))
unfolding follow
follow_atomic server f g c = ground arith

-- Whatever becomes of the round trips, `Unfollow` leaves the tables as they were or does all of its
-- three statements; it does all of them only if there was a row, and if it reports success without
-- them there was none.
pub unfollow_atomic :
    (server : Server) (f g : Uuid) (c : Cluster)
    → let (r, c') = unfollow server f g c in
      ((c'.tables ≡ c.tables) × ((r ≡ ok tt) → count (is_follow f g) c.tables.follows ≡ 0))
      ⊎ (c'.tables ≡ unfollowed f g c.tables) × (0 < count (is_follow f g) c.tables.follows)
unfolding unfollow
unfollow_atomic server f g c = ground arith
