-- ===== src/Tweet/Aggregator.antt =====
-- internal/tweet/likeaggregator.go: the channel of tracked tweets, the set of pending ones, and the
-- flush of their Redis deltas into Postgres.
pub mod Steps
pub mod Flush
pub mod Faults
use mini_twitter.Common.{
  ℕ, zero, Bool, true, false, ◌||◌, Result, ok, err, Error, Option, none, some, List, [], ◌∷◌, ◌++◌,
  ℤ, pos, length, any, ltb, ◌==◌, if◌then◌else◌,
}
use mini_twitter.Schema.{Uuid, Time}
use mini_twitter.Postgres.{Server, Cluster}
use mini_twitter.Cache.{like_count_key}
use mini_twitter.Cache.Redis.{Redis, Uuids}
use mini_twitter.Tweet.Repository.{incr_like_count, flush_pending_likes}

-- make(chan uuid.UUID, 100000)
abbrev pub tracked_cap : ℕ
tracked_cap = 100_000

-- TrackTweet: a send that does not fit is dropped.
unfoldable pub track_tweet : Uuid → List Uuid → List Uuid
track_tweet id tracked = if ltb (length tracked) tracked_cap then tracked ++ id ∷ [] else tracked

-- `pending[id] = struct{}{}`
unfoldable pub note_pending : Uuid → List Uuid → List Uuid
note_pending id pending = if any (λ j. j == id) pending then pending else id ∷ pending

-- `GetDel(…).Int()`: redis.Nil and any other error come with the value 0.
abbrev pub int_of : Result (Option ℤ) → ℤ
int_of (ok (some n)) = n
int_of (ok none) = pos 0
int_of (err e) = pos 0

abbrev pub is_nil : Result (Option ℤ) → Bool
is_nil (ok none) = true
is_nil r = false

abbrev pub is_zero : ℤ → Bool
is_zero (pos zero) = true
is_zero n = false

-- The tests on `val, err` in a turn of the loop: no delta, an error that is left, a delta.
abbrev pub by_reply {ℓ} : {X : Type ℓ} → Result (Option ℤ) → X → (Error → X) → (ℤ → X) → X
by_reply r fallback skipped applied =
    if is_nil r || is_zero (int_of r)
    then fallback
    else elim r [ err e ↦ skipped e | ok o ↦ applied (int_of (ok o)) ]

-- What the loop of `run` may receive: a tracked id, or a tick at a time.
pub data Event : Type 0 where
  received : Uuid → Event
  ticked : Time → Event

module _ (server : Server) where
  -- Applies the sums of the fallback; a failed update is only logged.
  unfoldable pub apply_sums : List (Uuid × ℤ) → Cluster → Cluster
  apply_sums [] c = c
  apply_sums ((id, delta) ∷ sums) c = apply_sums sums (incr_like_count server id delta c).1

  -- The branch for a tweet with no delta in Redis, after which the flush returns.
  unfoldable pub flush_fallback : Time → Cluster → Cluster
  unfolding apply_sums
  flush_fallback flush_time c =
      let (r, c') = flush_pending_likes server flush_time c in
      elim r [ err e ↦ c' | ok sums ↦ apply_sums sums c' ]

  -- The branch for a tweet with a delta, after which the loop goes on.
  unfoldable pub flush_delta : Time → Uuid → ℤ → Cluster → Cluster
  flush_delta flush_time id delta c =
      (flush_pending_likes server flush_time (incr_like_count server id delta c).1).1

  module _ (uuids : Uuids) (redis : Redis) where
    -- The loop over the pending tweets, in the order in which the map yields them.
    unfoldable pub flush_from : Time → List Uuid → Cluster × redis.Store → Cluster × redis.Store
    flush_from flush_time [] (c, store) = (c, store)
    flush_from flush_time (id ∷ ids) (c, store) =
        let (r, store') = redis.get_del (like_count_key (uuids.show id)) store in
        by_reply r (flush_fallback flush_time c, store')
          (λ _. flush_from flush_time ids (c, store'))
          λ val. flush_from flush_time ids (flush_delta flush_time id val c, store')

    -- `flush`, at the time that the clock shows.
    unfoldable pub flush : Time → List Uuid → Cluster × redis.Store → Cluster × redis.Store
    unfolding flush_from
    flush flush_time [] world = world
    flush flush_time (id ∷ ids) world = flush_from flush_time (id ∷ ids) world

    -- One turn of the loop of `run` over its set of pending tweets.
    unfoldable pub on_event :
        Event → List Uuid × (Cluster × redis.Store) → List Uuid × (Cluster × redis.Store)
    unfolding note_pending flush
    on_event (received id) (pending, world) = (note_pending id pending, world)
    on_event (ticked now) (pending, world) = ([], flush now pending world)
