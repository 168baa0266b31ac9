-- ===== src/Tweet/Service.antt =====
-- internal/tweet/service.go: the methods of `Service`, over the database, Redis, the fan-out queue and
-- the channel of the aggregator.
use text.Mathlib.Text.{◌==◌ as str_eq}
use mini_twitter.Common.{
  ◌>>=◌, ◌>>◌, String, Bool, ◌||◌, ok, message, St, pure, fail, wrapping, logging, Option, List, ℤ,
  pos, negsuc, length, ltb, ◌==◌, if◌then◌else◌,
}
use mini_twitter.Schema.{Uuid, Bytes, Tweet}
use mini_twitter.Postgres.{Server, Cluster}
use mini_twitter.Cache.{like_count_key}
use mini_twitter.Cache.Redis.{Redis, Uuids}
use mini_twitter.Tweet.Fanout.{Queue, enqueue}
use mini_twitter.Tweet.Aggregator.{track_tweet}
use mini_twitter.Tweet.Repository

-- The settings of `Service`.
pub record Settings : Type 0 where
  pub use_redis : Bool
  pub consistency_mode : String

-- What the methods of `Service` change.
pub record World (Store : Type 0) : Type 0 where
  pub cluster : Cluster
  pub store : Store
  pub queue : Queue
  pub tracked : List Uuid

module _ {Store : Type 0} where
  abbrev pub in_cluster : {A : Type 0} → St Cluster A → St (World Store) A
  in_cluster m w = let (r, c) = m w.cluster in (r, record w { cluster = c })

  abbrev pub in_store : {A : Type 0} → St Store A → St (World Store) A
  in_store m w = let (r, s) = m w.store in (r, record w { store = s })

  abbrev pub enqueue_if : Bool → Uuid → Uuid → St (World Store) (Unit {0})
  enqueue_if on tweet author w = (
    ok tt,
    record w {
      queue =
          (if on
            then enqueue (record { tweet_id = tweet; author_id = author }) w.queue
            else w.queue);
    },
  )

  abbrev pub track : Uuid → St (World Store) (Unit {0})
  track tweet w = (ok tt, record w { tracked = track_tweet tweet w.tracked })

-- &Tweet{UserID: userID, Content: content, ReplyToID: replyToID}
abbrev pub new_tweet : Uuid → Bytes → Option Uuid → Tweet
new_tweet user content reply = record {
  id = 0;
  user_id = user;
  content = content;
  like_count = pos 0;
  reply_to_id = reply;
  created_at = 0;
}

module _ (settings : Settings) (server : Server) (uuids : Uuids) (redis : Redis) where
  unfoldable pub create_tweet : Uuid → Bytes → Option Uuid → St (World redis.Store) Tweet
  create_tweet user content reply =
      if length content == 0 || ltb 280 (length content)
      then fail (message "content must be 1-280 characters")
      else (do
        w ←
            wrapping "create tweet"
              (in_cluster (Repository.create server (new_tweet user content reply)))
        enqueue_if settings.use_redis w.id user
        pure w)

  unfoldable pub delete_tweet : Uuid → Uuid → St (World redis.Store) (Unit {0})
  delete_tweet tweet user = in_cluster (Repository.delete server tweet user)

  -- What `LikeTweet` and `UnlikeTweet` do to the count, once the like row is written.
  abbrev pub count_like : Uuid → ℤ → St (World redis.Store) (Unit {0})
  count_like tweet delta =
      if str_eq settings.consistency_mode "strong"
      then in_cluster (Repository.incr_like_count server tweet delta)
      else (do
        logging (in_store (redis.incr_by (like_count_key (uuids.show tweet)) delta))
        logging (in_cluster (Repository.insert_like_pending server tweet delta))
        track tweet)

  unfoldable pub like_tweet : Uuid → Uuid → St (World redis.Store) (Unit {0})
  like_tweet user tweet = do
    wrapping "insert like" (in_cluster (Repository.insert_like server user tweet))
    count_like tweet (pos 1)

  unfoldable pub unlike_tweet : Uuid → Uuid → St (World redis.Store) (Unit {0})
  unlike_tweet user tweet = do
    wrapping "delete like" (in_cluster (Repository.delete_like server user tweet))
    count_like tweet (negsuc 0)

  unfoldable pub get_tweet : Uuid → St (World redis.Store) Tweet
  get_tweet tweet = in_cluster (Repository.get_by_id server tweet)

  unfoldable pub get_tweets_by_ids : List Uuid → St (World redis.Store) (List Tweet)
  get_tweets_by_ids ids = in_cluster (Repository.get_by_ids server ids)
