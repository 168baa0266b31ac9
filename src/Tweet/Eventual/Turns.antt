-- ===== src/Tweet/Eventual/Turns.antt =====
-- Likes in eventual mode, end to end: calls of the service and turns of the aggregator, in any order.
use text.Mathlib.Text.{◌==◌ as str_eq}
use mini_twitter.Common.{
  ℕ, ◌≡◌, ◌≢◌, refl, sym, ap, ◌∙◌, inl, inr, true, false, ◌&&◌, List, ◌∷◌, ok, Option, some, ℤ, pos,
  ◌+ℤ◌, count, All, All-at, get_elem?, Bool-cases, +ℤ_zero,
}
use mini_twitter.Schema.{Uuid, Time, Bytes, Tweet}
use mini_twitter.Postgres.{Server}
use mini_twitter.Postgres.Answered.{IsUp}
use mini_twitter.User.Statements.{has_user}
use mini_twitter.Cache.Redis.{Redis, Uuids}
use mini_twitter.Tweet.Statements.{has_tweet, one_of}
use mini_twitter.Tweet.Service.{Settings, World, like_tweet, unlike_tweet}
use mini_twitter.Tweet.Likes.{for_tweet, liked?}
use mini_twitter.Tweet.Aggregator.{Event, received, ticked, on_event, note_pending, flush}
use mini_twitter.Tweet.Aggregator.Flush.{Distinct}
use mini_twitter.Tweet.Eventual.{delta_in, IsCountedWith, IsBooked, like-IsBooked, unlike-IsBooked}
use mini_twitter.Tweet.Eventual.Ticks.{flush-IsBooked}

-- The service's world, and the aggregator's set of pending tweets.
pub record Books (Store : Type 0) : Type 0 where
  pub world : World Store
  pub pending : List Uuid

module _ (settings : Settings) (server : Server) (uuids : Uuids) (redis : Redis) where
  -- A turn of the aggregator over the books.
  abbrev pub aggregated : Event → List Uuid → Books redis.Store → Books redis.Store
  aggregated e tracked b =
      let (pending', (cluster', store')) =
        on_event server uuids redis e (b.pending, (b.world.cluster, b.world.store)) in
      record {
        world = record (b.world) { cluster = cluster'; store = store'; tracked = tracked };
        pending = pending';
      }

  -- A user likes a tweet for the first time, or takes a like back that is there; the aggregator
  -- receives a tracked tweet, or it ticks while each pending tweet has a delta other than zero.
  pub data Turn (b : Books redis.Store) : Books redis.Store → Type 0 where
    first_like :
        (user tweet : Uuid)
        → liked? user tweet b.world.cluster.tables ≡ false
        → has_user user b.world.cluster.tables.users
            && has_tweet tweet b.world.cluster.tables.tweets
          ≡ true
        → Turn b
            (record b { world = (like_tweet settings server uuids redis user tweet b.world).1 })
    take_back :
        (user tweet : Uuid)
        → liked? user tweet b.world.cluster.tables ≡ true
        → Turn b
            (record b { world = (unlike_tweet settings server uuids redis user tweet b.world).1 })
    receive :
        {id : Uuid} {rest : List Uuid}
        → b.world.tracked ≡ id ∷ rest
        → Turn b (aggregated (received id) rest b)
    tick :
        (now : Time)
        → All (λ id. delta_in uuids redis b.world.store id ≢ pos 0) b.pending
        → Turn b (aggregated (ticked now) b.world.tracked b)

  pub data Turns (b : Books redis.Store) : Books redis.Store → Type 0 where
    start : Turns b b
    later : {c d : Books redis.Store} → Turns b c → Turn c d → Turns b d

  -- No like is lost or counted twice, and no tweet is pending twice.
  pub record IsBalanced (b : Books redis.Store) : Type 0 where
    pub booked : IsBooked (delta_in uuids redis b.world.store) b.world.cluster.tables
    pub distinct : Distinct b.pending

note_pending-Distinct :
    (id : Uuid) (ids : List Uuid) → Distinct ids → Distinct (note_pending id ids)
unfolding note_pending
note_pending-Distinct id ids d = elim (Bool-cases (one_of ids id)) [
  | inl there ↦ rw there d
  | inr missing ↦ rw missing (missing, d)
]

module _ (settings : Settings) (server : Server) (uuids : Uuids) (redis : Redis)
    (eventual : str_eq settings.consistency_mode "strong" ≡ false) (up : IsUp server)
    (counts : (k : Bytes) (d : ℤ) (s : redis.Store) → (n : ℤ) × ((redis.incr_by k d s).0 ≡ ok n))
    (answers : (k : Bytes) (s : redis.Store)
      → (o : Option ℤ) × ((redis.get_del k s).0 ≡ ok o)) where
  Turn-IsBalanced :
      (b : Books redis.Store) {c : Books redis.Store}
      → IsBalanced settings server uuids redis b
      → Turn settings server uuids redis b c
      → IsBalanced settings server uuids redis c
  unfolding on_event
  Turn-IsBalanced b v (first_like user tweet fresh both) = record {
    booked =
        like-IsBooked settings server uuids redis eventual up counts answers user tweet b.world
          fresh both v.booked;
    distinct = v.distinct;
  }
  Turn-IsBalanced b v (take_back user tweet old) = record {
    booked =
        unlike-IsBooked settings server uuids redis eventual up counts answers user tweet b.world
          old v.booked;
    distinct = v.distinct;
  }
  Turn-IsBalanced b v (receive {id} first) = record {
    booked = v.booked;
    distinct = note_pending-Distinct id b.pending v.distinct;
  }
  Turn-IsBalanced b v (tick now nz) = record {
    booked =
        (flush-IsBooked server uuids redis up answers now b.pending b.world v.distinct nz
          v.booked).0;
    distinct = tt;
  }

  -- In eventual mode, with a server and a Redis that answer: in every sequence of first likes, likes
  -- taken back, and turns of the aggregator, in any order, in which each tweet that is pending at a
  -- tick has a delta other than zero, the counter of every tweet and its delta in Redis together
  -- stay the number of its like rows, and no tweet is pending twice.
  pub Turns-IsBalanced :
      (b : Books redis.Store) {c : Books redis.Store}
      → IsBalanced settings server uuids redis b
      → Turns settings server uuids redis b c
      → IsBalanced settings server uuids redis c
  Turns-IsBalanced b v start = v
  Turns-IsBalanced b v (later {c} turns turn) = Turn-IsBalanced c (Turns-IsBalanced b v turns) turn

  -- In eventual mode, with a server and a Redis that answer: after such a sequence and a tick at which
  -- each pending tweet has a delta other than zero, the counter of every tweet that was pending is
  -- the number of its like rows.
  pub tick_settles :
      (b c : Books redis.Store) (now : Time) (n : ℕ) {w : Tweet}
      → IsBalanced settings server uuids redis b
      → Turns settings server uuids redis b c
      → All (λ id. delta_in uuids redis c.world.store id ≢ pos 0) c.pending
      → let d = aggregated settings server uuids redis (ticked now) c.world.tracked c in
        get_elem? d.world.cluster.tables.tweets n ≡ some w
        → one_of c.pending w.id ≡ true
        → w.like_count ≡ pos (count (for_tweet w.id) d.world.cluster.tables.likes)
  unfolding on_event
  tick_settles b c now n {w} v turns nz there pending =
      let ready = Turns-IsBalanced b v turns in
      let (books, deltas) =
        flush-IsBooked server uuids redis up answers now c.pending c.world ready.distinct nz
          ready.booked in
      let (cluster', store') =
        flush server uuids redis now c.pending (c.world.cluster, c.world.store) in
      let counted =
        All-at (IsCountedWith (delta_in uuids redis store') cluster'.tables.likes) n
          cluster'.tables.tweets there books.booked in
      sym (+ℤ_zero w.like_count)
      ∙ ap (λ m. w.like_count +ℤ m) (sym (deltas w.id ∙ rw pending refl))
      ∙ counted
