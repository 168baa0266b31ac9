-- ===== src/Timeline/Repository.antt =====
-- internal/timeline/repository.go: the ids of a timeline, from Redis or from Postgres.
use mini_twitter.Common.{
  ℕ, Bool, Result, ok, err, St, pure, Option, none, some, List, [], ◌∷◌, map, ◌==◌,
}
use mini_twitter.Schema.{Uuid, Time, Bytes, Tables}
use mini_twitter.Postgres.{Server, Cluster, query}
use mini_twitter.Cache.{timeline_key}
use mini_twitter.Cache.Redis.{Redis, Uuids, rpush, expire}
use mini_twitter.User.Statements.{select_followee_ids}
use mini_twitter.Tweet.Statements.{select_page, one_of}

module _ (uuids : Uuids) where
  -- The texts that are ids; the others are dropped.
  abbrev pub parsed : List Bytes → List Uuid
  parsed [] = []
  parsed (s ∷ ss) = elim (uuids.parse s) [ none ↦ parsed ss | some id ↦ id ∷ parsed ss ]

  -- A missing key, an empty list and an error are a miss.
  abbrev pub hits : Result (List Bytes) → Option (List Uuid)
  hits (err e) = none
  hits (ok []) = none
  hits (ok (s ∷ ss)) = some (parsed (s ∷ ss))

  module _ (redis : Redis) where
    -- The error that `GetHomeTimelineIDs` returns is always nil.
    unfoldable pub get_home_timeline_ids : Uuid → ℕ → redis.Store → Option (List Uuid) × redis.Store
    get_home_timeline_ids user limit s =
        let (r, s') = redis.lrange (timeline_key (uuids.show user)) limit s in (hits r, s')

    unfoldable pub cache_home_timeline : Uuid → List Uuid → ℕ → St redis.Store (Unit {0})
    cache_home_timeline user [] ttl s = (ok tt, s)
    cache_home_timeline user (id ∷ ids) ttl s =
        let key = timeline_key (uuids.show user) in
        redis.pipeline (rpush key (map uuids.show (id ∷ ids)) ∷ expire key ttl ∷ []) s

-- SELECT id FROM tweets WHERE … [AND created_at < …] ORDER BY created_at DESC LIMIT …
abbrev pub select_page_ids : (Uuid → Bool) → ℕ → Option Time → Tables → Result (List Uuid)
select_page_ids author limit before t = elim (select_page author limit before t) [
  | ok ws ↦ ok (map (λ w. w.id) ws)
  | err e ↦ err e
]

module _ (server : Server) where
  -- A user who follows nobody has an empty feed, and no query is sent.
  unfoldable pub get_home_timeline_from_db : List Uuid → ℕ → Option Time → St Cluster (List Uuid)
  get_home_timeline_from_db [] limit before = pure []
  get_home_timeline_from_db (f ∷ fs) limit before =
      query server (select_page_ids (one_of (f ∷ fs)) limit before)

  unfoldable pub get_user_timeline_from_db : Uuid → ℕ → Option Time → St Cluster (List Uuid)
  get_user_timeline_from_db user limit before =
      query server (select_page_ids (λ author. author == user) limit before)

  unfoldable pub get_followee_ids : Uuid → St Cluster (List Uuid)
  get_followee_ids user = query server (select_followee_ids user)
