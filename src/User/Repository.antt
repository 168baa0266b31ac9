-- ===== src/User/Repository.antt =====
-- internal/user/repository.go: the methods of `Repository`.
use mini_twitter.Common.{
  ◌>>=◌, ◌>>◌, ℕ, String, Result, St, pure, wrapping, Option, List, ◌==◌, if◌then◌else◌,
}
use mini_twitter.Schema.{Uuid, User, Tables}
use mini_twitter.Postgres.{Server, Cluster, Tx, exec, query, tx_exec, commit, transaction}
use mini_twitter.User.Statements.{
  insert_user, select_by_username, select_by_id, update_user, update_profile, insert_follow,
  delete_follow, select_follower_ids, select_followee_ids, more_following, more_followers,
  less_following, less_followers,
}

module _ (server : Server) where
  -- `Scan(&u.ID, &u.CreatedAt)` fills the two generated fields in.
  unfoldable pub create : User → St Cluster User
  create u c =
      (do
        (id, now) ← exec server (insert_user (server.new_id c.trips) (server.now c.trips) u)
        pure (record u { id = id; created_at = now }))
        c

  unfoldable pub query_one : (Tables → Result User) → St Cluster User
  query_one select = wrapping "queryOne" (query server select)

  unfoldable pub get_by_username : String → St Cluster User
  unfolding query_one
  get_by_username name = query_one (select_by_username name)

  unfoldable pub get_by_id : Uuid → St Cluster User
  unfolding query_one
  get_by_id id = query_one (select_by_id id)

  unfoldable pub update : User → St Cluster (Unit {0})
  update u = exec server (update_profile u)

  unfoldable pub follow : Uuid → Uuid → St Cluster (Unit {0})
  follow follower followee = transaction server (do
    tx_exec server (insert_follow follower followee)
    tx_exec server (update_user follower more_following)
    tx_exec server (update_user followee more_followers)
    commit server)

  -- With no row deleted the method returns before `Commit`, and the rollback has nothing to undo.
  abbrev pub unfollow_deleted : Uuid → Uuid → ℕ → St Tx (Unit {0})
  unfollow_deleted follower followee rows = if rows == 0 then pure tt else (do
    tx_exec server (update_user follower less_following)
    tx_exec server (update_user followee less_followers)
    commit server)

  unfoldable pub unfollow : Uuid → Uuid → St Cluster (Unit {0})
  unfollow follower followee = transaction server (do
    rows ← tx_exec server (delete_follow follower followee)
    unfollow_deleted follower followee rows)

  unfoldable pub get_follower_ids : Uuid → ℕ → Option Uuid → St Cluster (List Uuid)
  get_follower_ids id limit after = query server (select_follower_ids id limit after)

  unfoldable pub get_followee_ids : Uuid → St Cluster (List Uuid)
  get_followee_ids id = query server (select_followee_ids id)
