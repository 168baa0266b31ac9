-- ===== src/Tweet/Creation.antt =====
-- The creation of a tweet (internal/tweet/service.go), and its reading back.
use mini_twitter.Common.{
  suc, ◌≡◌, refl, ap, ◌∙◌, true, false, ◌&&◌, ◌||◌, [], ◌∷◌, ◌++◌, ok, Option, >>=-ok, wrapping-ok,
  pure, wrapping, ◌>>◌, length, ltb, ◌==◌, ==_self, if◌then◌else◌,
}
use mini_twitter.Schema.{Uuid, Time, Bytes, Tweet}
use mini_twitter.Postgres.{Server, Cluster, exec}
use mini_twitter.Postgres.Answered.{IsUp, caught_up, query_answered, exec_answered}
use mini_twitter.Cache.Redis.{Redis, Uuids}
use mini_twitter.User.Statements.{has_user, or_no_rows}
use mini_twitter.User.Accounts.{find-append_new}
use mini_twitter.Tweet.Statements.{has_tweet, may_refer, insert_tweet, select_tweet}
use mini_twitter.Tweet.Repository.{create, get_by_id}
use mini_twitter.Tweet.Fanout.{FanoutJob, enqueue}
use mini_twitter.Tweet.Service.{
  Settings, World, new_tweet, create_tweet, get_tweet, in_cluster, enqueue_if,
}

-- The row of a new tweet.
abbrev pub posted : Uuid → Time → Uuid → Bytes → Option Uuid → Tweet
posted id now user content reply = record (new_tweet user content reply) {
  id = id;
  created_at = now;
}

abbrev pub job_for : Uuid → Uuid → FanoutJob
job_for tweet author = record { tweet_id = tweet; author_id = author }

with_tweet : Tweet → Cluster → Cluster
with_tweet tweet c = record c {
  tables = record c.tables { tweets = c.tables.tweets ++ tweet ∷ [] };
  trips = suc c.trips;
}

create_answered :
    (server : Server) (user : Uuid) (content : Bytes) (reply : Option Uuid) (c : Cluster)
    → IsUp server
    → has_tweet (server.new_id c.trips) c.tables.tweets ≡ false
    → (has_user user c.tables.users && may_refer reply c.tables.tweets) ≡ true
    → let tweet = posted (server.new_id c.trips) (server.now c.trips) user content reply in
      create server (new_tweet user content reply) c ≡ (ok tweet, with_tweet tweet c)
unfolding create with_tweet
create_answered server user content reply c up free refers =
    let id = server.new_id c.trips in
    let now = server.now c.trips in
    let stored = posted id now user content reply in
    let inserted : insert_tweet id now user content reply c.tables
        ≡ (ok (id, now), record c.tables { tweets = c.tables.tweets ++ stored ∷ [] }) =
      rw free (rw refers refl) in
    >>=-ok (exec server (insert_tweet id now user content reply))
      (λ x. pure (record (new_tweet user content reply) { id = x.0; created_at = x.1 }))
      (exec_answered server (insert_tweet id now user content reply) c up inserted)

module _ (settings : Settings) (server : Server) (uuids : Uuids) (redis : Redis) where
  -- A tweet of 1 to 280 bytes, by a user that exists and in reply to nothing or to a tweet that
  -- exists, is stored with the id and the time of the server, and is what `GetTweet` returns once
  -- the replicas have caught up; in Redis mode its fan-out job is offered to the queue. The server
  -- answers and the id that it generates is new.
  pub get-create :
      (user : Uuid) (content : Bytes) (reply : Option Uuid) (w : World redis.Store)
      → IsUp server
      → (length content == 0 || ltb 280 (length content)) ≡ false
      → has_tweet (server.new_id w.cluster.trips) w.cluster.tables.tweets ≡ false
      → (has_user user w.cluster.tables.users && may_refer reply w.cluster.tables.tweets) ≡ true
      → let id = server.new_id w.cluster.trips in
        let tweet = posted id (server.now w.cluster.trips) user content reply in
        (w' : World redis.Store) × (create_tweet settings server uuids redis user content reply w
          ≡ (ok tweet, w'))
        × (w'.queue ≡ (if settings.use_redis then enqueue (job_for id user) w.queue else w.queue))
        × ((get_tweet settings server uuids redis id
              (record w' { cluster = caught_up w'.cluster })).0
            ≡ ok tweet)
  unfolding create_tweet get_tweet get_by_id with_tweet
  get-create user content reply w up sized free refers =
      let id = server.new_id w.cluster.trips in
      let tweet = posted id (server.now w.cluster.trips) user content reply in
      let made : in_cluster (create server (new_tweet user content reply)) w
          ≡ (ok tweet, record w { cluster = with_tweet tweet w.cluster }) =
        ap (λ x. (x.0, record w { cluster = x.1 }))
          (create_answered server user content reply w.cluster up free refers) in
      let stored = with_tweet tweet w.cluster in
      let w' = (enqueue_if settings.use_redis id user (record w { cluster = stored })).1 in
      let insert = in_cluster (create server (new_tweet user content reply)) in
      (
        w',
        rw (sized, create_tweet)
            (>>=-ok (wrapping "create tweet" insert)
              (λ t. enqueue_if settings.use_redis t.id user >> pure t)
              (wrapping-ok "create tweet" insert made)),
        refl,
        ap (λ x. x.0) (query_answered server (select_tweet id) (caught_up stored) up (λ i. refl))
            ∙ ap or_no_rows
                (find-append_new (λ t. t.id == id) w.cluster.tables.tweets tweet free (==_self id)),
      )
