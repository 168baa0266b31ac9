-- ===== src/Tweet/Repository.antt =====
-- internal/tweet/repository.go: the methods of `Repository`.
use mini_twitter.Common.{
  ◌>>=◌, ◌>>◌, ℕ, ok, no_rows, St, pure, fail, Option, List, ℤ, ◌==◌, if◌then◌else◌,
}
use mini_twitter.Schema.{Uuid, Time, Tweet}
use mini_twitter.Postgres.{Server, Cluster, exec, query, query_primary}
use mini_twitter.Tweet.Statements.{
  insert_tweet, select_tweet, delete_tweet, add_likes, insert_like_row, delete_like_row,
  insert_pending, sum_pending, delete_pending, select_page, select_tweets, one_of,
}

module _ (server : Server) where
  -- `Scan(&t.ID, &t.CreatedAt)` fills the two generated fields in.
  unfoldable pub create : Tweet → St Cluster Tweet
  create w c =
      (do
        (id, now) ← exec server (
            insert_tweet (server.new_id c.trips) (server.now c.trips) w.user_id w.content
              w.reply_to_id)
        pure (record w { id = id; created_at = now }))
        c

  unfoldable pub get_by_id : Uuid → St Cluster Tweet
  get_by_id id = query server (select_tweet id)

  unfoldable pub delete : Uuid → Uuid → St Cluster (Unit {0})
  delete id user = do
    rows ← exec server (delete_tweet id user)
    if rows == 0 then fail no_rows else pure tt

  unfoldable pub incr_like_count : Uuid → ℤ → St Cluster (Unit {0})
  incr_like_count tweet delta = exec server (add_likes tweet delta)

  unfoldable pub insert_like : Uuid → Uuid → St Cluster (Unit {0})
  insert_like user tweet = exec server (insert_like_row user tweet)

  unfoldable pub delete_like : Uuid → Uuid → St Cluster (Unit {0})
  delete_like user tweet = exec server (delete_like_row user tweet)

  unfoldable pub insert_like_pending : Uuid → ℤ → St Cluster (Unit {0})
  insert_like_pending tweet delta c =
      exec server (insert_pending tweet delta (server.now c.trips)) c

  -- The sums, and then the deletion of the rows that were summed, in two round trips.
  unfoldable pub flush_pending_likes : Time → St Cluster (List (Uuid × ℤ))
  flush_pending_likes before = do
    sums ← query_primary server (λ t. ok (sum_pending before t.pending))
    exec server (delete_pending before)
    pure sums

  unfoldable pub get_by_user_id : Uuid → ℕ → Option Time → St Cluster (List Tweet)
  get_by_user_id user limit before =
      query server (select_page (λ author. author == user) limit before)

  unfoldable pub get_by_ids : List Uuid → St Cluster (List Tweet)
  get_by_ids ids = query server (select_tweets ids)

  unfoldable pub get_timeline_from_db : List Uuid → ℕ → Option Time → St Cluster (List Tweet)
  get_timeline_from_db followees limit before =
      query server (select_page (one_of followees) limit before)
