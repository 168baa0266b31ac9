-- ===== src/Timeline/Cached.antt =====
-- The home timeline as Redis holds it: what the fan-out of internal/tweet/fanout.go put there is what
-- internal/timeline/repository.go and service.go read.
use mini_twitter.Common.{
  ℕ, zero, suc, ◌≤◌, ◌<◌, ◌≡◌, refl, ap, ◌∙◌, true, List, [], ◌∷◌, ok, none, some, ℤ, pos, negsuc,
  take, ltb, map, bytes_eq_self, arith, Bool-cases, inl, inr, any, count, length, ◌*◌,
}
use mini_twitter.Schema.{Uuid, Time, Bytes, Follow}
use mini_twitter.Postgres.{Server, Cluster}
use mini_twitter.Cache.{timeline_key}
use mini_twitter.Cache.Redis.{Redis, Uuids, Cmd, rpush, expire}
use mini_twitter.Timeline.Repository.{parsed, cache_home_timeline, get_home_timeline_ids}
use mini_twitter.Timeline.Service.{Batch, Feed, clamp, get_home_timeline, enrich_tweets}
use mini_twitter.Tweet.Fanout.{FanoutJob, fanout, fanout_page_size}
use mini_twitter.Tweet.Fanout.Followers.{IsInSync, fanout_reaches_followers}
use mini_twitter.User.Repository.{get_follower_ids}
use mini_twitter.User.Statements.{is_follow, followers_of}
use mini_twitter.Postgres.Answered.{IsUp}

-- In Redis mode, where Redis has an id for the user's timeline, the cursor changes nothing: the
-- page after any tweet is the first page again, with the effects of the first.
pub cached_page_repeats :
    (server : Server) (batch : Batch) (uuids : Uuids) (redis : Redis) (user : Uuid) (limit : ℤ)
    (before : Time) (w : Feed redis.Store) (id : Uuid) (ids : List Uuid)
    → (get_home_timeline_ids uuids redis user (clamp limit) w.store).0 ≡ some (id ∷ ids)
    → get_home_timeline server batch true uuids redis user limit (some before) w
      ≡ get_home_timeline server batch true uuids redis user limit none w
unfolding get_home_timeline
cached_page_repeats server batch uuids redis user limit before w id ids hit = rw hit refl

clamp-positive : (limit : ℤ) → (n : ℕ) × (clamp limit ≡ suc n)
clamp-positive (negsuc n) = (49, refl)
clamp-positive (pos zero) = (49, refl)
clamp-positive (pos (suc n)) = elim (Bool-cases (ltb 100 (suc n))) [
  | inl large ↦ (49, ground arith)
  | inr small ↦ (n, ground arith)
]

read_ids :
    (uuids : Uuids) (redis : Redis) (user tweet : Uuid) (limit n : ℕ) (s : redis.Store)
    (rest : List Bytes)
    → limit ≡ suc n
    → redis.list_at (timeline_key (uuids.show user)) s ≡ uuids.show tweet ∷ rest
    → ((key : Bytes) (m : ℕ) (s : redis.Store)
        → (xs : List Bytes) × ((redis.lrange key m s).0 ≡ ok xs))
    → (get_home_timeline_ids uuids redis user limit s).0 ≡ some (tweet ∷ parsed uuids (take n rest))
unfolding get_home_timeline_ids
read_ids uuids redis user tweet limit n s rest size holds answers =
    let key = timeline_key (uuids.show user) in
    let (xs, e) = answers key limit s in
    let all : xs ≡ uuids.show tweet ∷ take n rest =
      redis.lrange-list key limit s e
      ∙ ap (λ m. take m (redis.list_at key s)) size
      ∙ ap (take (suc n)) holds in
    rw e (rw all (rw (uuids.parse-show tweet, parsed) refl))

-- The way of a tweet to a follower's feed. With a server that answers, replicas that have caught
-- up, distinct follow rows, a Redis that runs and answers every command, and fuel for every page of
-- followers, the fan-out of a tweet ends without an error, and the first page of the home timeline
-- that each user with a row that follows the author then asks for, with any limit, is what the
-- tweet service returns for a list of ids with the tweet in front.
pub tweet_reaches_feed :
    (server : Server) (uuids : Uuids) (redis : Redis) (job : FanoutJob) (fuel : ℕ) (c : Cluster)
    (store : redis.Store) (fs : List Follow) (batch : Batch) (user : Uuid) (limit : ℤ)
    → IsUp server
    → IsInSync fs c
    → ((f g : Uuid) → count (is_follow f g) fs ≤ 1)
    → ((cs : List Cmd) (s : redis.Store) → (redis.pipeline cs s).0 ≡ ok tt)
    → ((key : Bytes) (m : ℕ) (s : redis.Store)
        → (xs : List Bytes) × ((redis.lrange key m s).0 ≡ ok xs))
    → length (followers_of job.author_id fs) < fuel * fanout_page_size
    → any (is_follow user job.author_id) fs ≡ true
    → (c' : Cluster) × (store' : redis.Store) × (ids : List Uuid) × (fanout uuids redis
          (get_follower_ids server)
          fuel
          job
          c
          store
        ≡ some (ok tt, c', store'))
      × ((get_home_timeline server batch true uuids redis user limit none
            (record { cluster = c'; store = store' })).0
          ≡ (enrich_tweets batch (job.tweet_id ∷ ids) c').0)
unfolding get_home_timeline
tweet_reaches_feed server uuids redis job fuel c store fs batch user limit up sync keyed runs
      answers enough follows =
    let (c', store', ends, timelines) =
      fanout_reaches_followers server uuids redis job fuel c store fs up sync keyed runs enough in
    let key = timeline_key (uuids.show user) in
    let (n, size) = clamp-positive limit in
    let rest : List Bytes = take 999 (redis.list_at key store) in
    let holds : redis.list_at key store' ≡ uuids.show job.tweet_id ∷ rest =
      timelines user ∙ rw follows refl in
    (
      c',
      store',
      parsed uuids (take n rest),
      ends,
      rw (read_ids uuids redis user job.tweet_id (clamp limit) n store' rest size holds answers)
          refl,
    )

parsed-shown :
    (uuids : Uuids) (n : ℕ) (ids : List Uuid)
    → parsed uuids (take n (map uuids.show ids)) ≡ take n ids
parsed-shown uuids zero ids = refl
parsed-shown uuids (suc n) [] = refl
parsed-shown uuids (suc n) (id ∷ ids) =
    rw (uuids.parse-show id, parsed) (ap (◌∷◌ id) (parsed-shown uuids n ids))

-- With a Redis that runs and answers every command, ids that are cached under a key without a list
-- are read back in their order, cut to the limit.
pub cache-read :
    (uuids : Uuids) (redis : Redis) (user : Uuid) (id : Uuid) (ids : List Uuid) (ttl limit : ℕ)
    (s : redis.Store)
    → redis.list_at (timeline_key (uuids.show user)) s ≡ []
    → ((cs : List Cmd) (s : redis.Store) → (redis.pipeline cs s).0 ≡ ok tt)
    → ((key : Bytes) (m : ℕ) (s : redis.Store)
        → (xs : List Bytes) × ((redis.lrange key m s).0 ≡ ok xs))
    → let s' = (cache_home_timeline uuids redis user (id ∷ ids) ttl s).1 in
      (get_home_timeline_ids uuids redis user (suc limit) s').0 ≡ some (take (suc limit) (id ∷ ids))
unfolding get_home_timeline_ids cache_home_timeline
cache-read uuids redis user id ids ttl limit s fresh runs answers =
    let key = timeline_key (uuids.show user) in
    let shown = map uuids.show (id ∷ ids) in
    let cs = rpush key shown ∷ expire key ttl ∷ [] in
    let s' = (redis.pipeline cs s).1 in
    let (xs, e) = answers key (suc limit) s' in
    let stored : redis.list_at key s' ≡ shown =
      redis.pipeline-list cs key s (runs cs s) ∙ rw (bytes_eq_self key, fresh) refl in
    let all : xs ≡ take (suc limit) shown =
      redis.lrange-list key (suc limit) s' e ∙ ap (take (suc limit)) stored in
    rw e (rw all (ap some (parsed-shown uuids (suc limit) (id ∷ ids))))
