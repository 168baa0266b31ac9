-- ===== src/User/Statements.antt =====
-- The SQL statements of internal/user/repository.go, over the tables of pkg/db/migrations.
use text.Mathlib.Text.{◌==◌ as str_eq}
use mini_twitter.Common.{
  leb, length, codes, ℕ, String, Bool, ◌&&◌, not, List, [], ◌∷◌, ◌++◌, map, Result, ok, err,
  violation, no_rows, St, Option, none, some, pos, ◌+ℤ◌, ◌-ℤ◌, greatest, any, find, select, count,
  ltb, take, sort, ◌==◌, if◌then◌else◌,
}
use mini_twitter.Schema.{Uuid, Time, User, Follow, Tables}

abbrev pub has_user : Uuid → List User → Bool
has_user id = any λ u. u.id == id

abbrev pub is_follow : Uuid → Uuid → Follow → Bool
is_follow follower followee f = f.follower_id == follower && f.followee_id == followee

-- A VARCHAR(n) column takes a text of at most n characters.
abbrev pub fits : ℕ → String → Bool
fits n text = leb (length (codes text)) n

abbrev pub fits_columns : User → Bool
fits_columns u = fits 50 u.username && fits 255 u.email && fits 100 u.display_name

-- INSERT INTO users … RETURNING id, created_at: the counters start at their default, 0, and the keys
-- on id, username and email hold.
abbrev pub insert_user : Uuid → Time → User → St Tables (Uuid × Time)
insert_user id now u t =
    if not (fits_columns u)
    then (err (violation "value too long"), t)
    else if has_user id t.users
    then (err (violation "users_pkey"), t)
    else if any (λ v. str_eq v.username u.username) t.users
    then (err (violation "users_username_key"), t)
    else if any (λ v. str_eq v.email u.email) t.users
    then (err (violation "users_email_key"), t)
    else (
      ok (id, now),
      record t {
        users =
            t.users
            ++ record u {
              id = id;
              follower_count = pos 0;
              following_count = pos 0;
              created_at = now;
            }
              ∷ [];
      },
    )

abbrev pub or_no_rows : {A : Type 0} → Option A → Result A
or_no_rows none = err no_rows
or_no_rows (some a) = ok a

-- SELECT … FROM users WHERE username = $1
abbrev pub select_by_username : String → Tables → Result User
select_by_username name t = or_no_rows (find (λ u. str_eq u.username name) t.users)

-- SELECT … FROM users WHERE id = $1
abbrev pub select_by_id : Uuid → Tables → Result User
select_by_id id t = or_no_rows (find (λ u. u.id == id) t.users)

-- UPDATE users SET … WHERE id = $1
abbrev pub at_user : Uuid → (User → User) → List User → List User
at_user id f = map λ u. if u.id == id then f u else u

abbrev pub update_user : Uuid → (User → User) → St Tables (Unit {0})
update_user id f t = (ok tt, record t { users = at_user id f t.users })

-- UPDATE users SET display_name=$1, bio=$2 WHERE id=$3
abbrev pub update_profile : User → St Tables (Unit {0})
update_profile u t =
    if fits 100 u.display_name
    then update_user u.id (λ v. record v { display_name = u.display_name; bio = u.bio }) t
    else (err (violation "value too long"), t)

-- INSERT INTO follows … ON CONFLICT DO NOTHING; both columns refer to users.
abbrev pub insert_follow : Uuid → Uuid → St Tables (Unit {0})
insert_follow follower followee t =
    if any (is_follow follower followee) t.follows
    then (ok tt, t)
    else if has_user follower t.users && has_user followee t.users
    then (
      ok tt,
      record t {
        follows = t.follows ++ record { follower_id = follower; followee_id = followee } ∷ [];
      },
    )
    else (err (violation "follows_fkey"), t)

abbrev pub more_following : User → User
more_following u = record u { following_count = u.following_count +ℤ pos 1 }

abbrev pub more_followers : User → User
more_followers u = record u { follower_count = u.follower_count +ℤ pos 1 }

-- GREATEST(following_count - 1, 0)
abbrev pub less_following : User → User
less_following u = record u { following_count = greatest (u.following_count -ℤ pos 1) (pos 0) }

abbrev pub less_followers : User → User
less_followers u = record u { follower_count = greatest (u.follower_count -ℤ pos 1) (pos 0) }

-- DELETE FROM follows WHERE follower_id = $1 AND followee_id = $2, with the rows affected.
abbrev pub delete_follow : Uuid → Uuid → St Tables ℕ
delete_follow follower followee t = (
  ok (count (is_follow follower followee) t.follows),
  record t { follows = select (λ f. not (is_follow follower followee f)) t.follows },
)

-- The follower ids of one user, in the order of the table.
abbrev pub followers_of : Uuid → List Follow → List Uuid
followers_of id fs = map (λ f. f.follower_id) (select (λ f. f.followee_id == id) fs)

-- SELECT follower_id FROM follows WHERE followee_id = $1 [AND follower_id > $2] ORDER BY follower_id
-- LIMIT …: the first page has no cursor.
abbrev pub select_follower_ids : Uuid → ℕ → Option Uuid → Tables → Result (List Uuid)
select_follower_ids id limit none t = ok (take limit (sort (followers_of id t.follows)))
select_follower_ids id limit (some after) t =
    ok (take limit (sort (select (ltb after) (followers_of id t.follows))))

-- SELECT followee_id FROM follows WHERE follower_id = $1
abbrev pub select_followee_ids : Uuid → Tables → Result (List Uuid)
select_followee_ids id t =
    ok (map (λ f. f.followee_id) (select (λ f. f.follower_id == id) t.follows))
