-- ===== src/Timeline/Service.antt =====
-- internal/timeline/service.go: the methods of `Service`. The call of the tweet service goes over the
-- network, which is a parameter.
use mini_twitter.Common.{
  ◌>>=◌, ℕ, Bool, ◌||◌, Result, ok, err, Error, wrap, St, wrapping, Option, none, some, List, [],
  ◌∷◌, ℤ, pos, negsuc, ltb, ◌==◌, if◌then◌else◌,
}
use mini_twitter.Schema.{Uuid, Time, Tweet}
use mini_twitter.Postgres.{Server, Cluster}
use mini_twitter.Cache.Redis.{Redis, Uuids}
use mini_twitter.Timeline.Repository.{
  get_home_timeline_ids, get_home_timeline_from_db, get_user_timeline_from_db, get_followee_ids,
}

-- What comes of POST /v1/tweets/batch: no request could be made, no response came, its body could not be
-- read, the body is not an array of tweets, or it is. The status is not looked at.
pub data Reply : Type 0 where
  unsent unreachable unreadable undecodable : Error → Reply
  decoded : List Tweet → Reply

abbrev pub tweets_of : Reply → Result (List Tweet)
tweets_of (unsent e) = err e
tweets_of (unreachable e) = err (wrap "tweet service call" e)
tweets_of (unreadable e) = err e
tweets_of (undecodable e) = err (wrap "decode tweet batch" e)
tweets_of (decoded ws) = ok ws

-- The tweet service, as the timeline service sees it.
abbrev pub Batch : Type 0
Batch = List Uuid → Cluster → Reply × Cluster

-- What the methods change.
pub record Feed (Store : Type 0) : Type 0 where
  pub cluster : Cluster
  pub store : Store

abbrev pub default_limit : ℕ
default_limit = 50

-- `if limit <= 0 || limit > 100 { limit = defaultLimit }`
abbrev pub clamp : ℤ → ℕ
clamp (negsuc n) = default_limit
clamp (pos n) = if n == 0 || ltb 100 n then default_limit else n

module _ (batch : Batch) where
  unfoldable pub enrich_tweets : List Uuid → St Cluster (List Tweet)
  enrich_tweets [] c = (ok [], c)
  enrich_tweets (id ∷ ids) c = let (reply, c') = batch (id ∷ ids) c in (tweets_of reply, c')

module _ (server : Server) (batch : Batch) where
  -- Whom the user follows, and then their tweets: the way of both modes, in Redis mode after a miss.
  abbrev pub read_from_db : Uuid → ℕ → Option Time → St Cluster (List Tweet)
  read_from_db user limit before = do
    followees ← wrapping "get followees" (get_followee_ids server user)
    ids ← wrapping "db timeline" (get_home_timeline_from_db server followees limit before)
    enrich_tweets batch ids

  unfoldable pub get_user_timeline : Uuid → ℤ → Option Time → St Cluster (List Tweet)
  get_user_timeline user limit before = do
    ids ← get_user_timeline_from_db server user (clamp limit) before
    enrich_tweets batch ids

  module _ (use_redis : Bool) (uuids : Uuids) (redis : Redis) where
    abbrev pub on_cluster : {A : Type 0} → St Cluster A → St (Feed redis.Store) A
    on_cluster m w = let (r, c) = m w.cluster in (r, record w { cluster = c })

    -- A hit with at least one id is enriched, and anything else is a miss.
    abbrev pub read_cached :
        Uuid → ℕ → Option Time → Option (List Uuid) → St (Feed redis.Store) (List Tweet)
    read_cached user limit before none = on_cluster (read_from_db user limit before)
    read_cached user limit before (some []) = on_cluster (read_from_db user limit before)
    read_cached user limit before (some (id ∷ ids)) = on_cluster (enrich_tweets batch (id ∷ ids))

    unfoldable pub get_home_timeline : Uuid → ℤ → Option Time → St (Feed redis.Store) (List Tweet)
    get_home_timeline user limit before w =
        if use_redis
        then (let (cached, s) = get_home_timeline_ids uuids redis user (clamp limit) w.store in
            read_cached user (clamp limit) before cached (record w { store = s }))
        else on_cluster (read_from_db user (clamp limit) before) w
