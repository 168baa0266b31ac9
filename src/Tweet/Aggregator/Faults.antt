-- ===== src/Tweet/Aggregator/Faults.antt =====
-- Where the flush of internal/tweet/likeaggregator.go loses counts, counts twice, or stops early.
use mini_twitter.Common.{
  ◌≡◌, ◌≢◌, refl, true, Result, sym, ap, ◌∙◌, List, [], ◌∷◌, ok, err, Error, Option, none, some, ℤ,
  pos,
}
use mini_twitter.Schema.{Uuid, Time, Bytes, Tables}
use mini_twitter.Postgres.{Server, Cluster}
use mini_twitter.Postgres.Answered.{IsUp}
use mini_twitter.Cache.Redis.{Redis, Uuids, value_of}
use mini_twitter.Tweet.Statements.{at_tweet, sum_pending}
use mini_twitter.Tweet.Aggregator.{is_zero, int_of, flush_delta, flush_fallback, flush_from, flush}
use mini_twitter.Tweet.Aggregator.Steps.{
  kept, settled, add_all, flush_delta-tables, flush_fallback-tables, key_of, flush_from-delta,
  flush_from-fallback,
}
use mini_twitter.Tweet.Aggregator.Flush.{sum_pending-kept, kept-kept, get_del-reads, get_del-others}

-- A GETDEL that fails comes with the value 0, so the flush takes the fallback and returns: the tweets
-- behind it are not reached, and the branch that logs the error and goes on is never taken.
pub flush_error_stops :
    (server : Server) (uuids : Uuids) (redis : Redis) (time : Time) (id : Uuid) (ids : List Uuid)
    (c : Cluster) (store : redis.Store) (e : Error)
    → (redis.get_del (key_of uuids id) store).0 ≡ err e
    → flush server uuids redis time (id ∷ ids) (c, store)
      ≡ (flush_fallback server time c, (redis.get_del (key_of uuids id) store).1)
unfolding flush
flush_error_stops server uuids redis time id ids c store e h =
    flush_from-fallback server uuids redis time id ids c store (ap (λ r. is_zero (int_of r)) h)

-- The tables after the fallback.
abbrev pub fallen_back : Time → Tables → Tables
fallen_back time t = record t {
  tweets = add_all (sum_pending time t.pending) t.tweets;
  pending = kept time t.pending;
}

-- The fallback finds nothing behind a turn that has deleted the pending rows.
fallen_back-settled :
    (time : Time) (a : Uuid) (v : ℤ) (t : Tables)
    → fallen_back time (settled time a v t) ≡ settled time a v t
fallen_back-settled time a v t i = record t {
  tweets = add_all (sum_pending-kept time t.pending i) (at_tweet a v t.tweets);
  pending = kept-kept time t.pending i;
}

module _ (server : Server) (uuids : Uuids) (redis : Redis) (up : IsUp server)
    (answers : (k : Bytes) (s : redis.Store)
      → (o : Option ℤ) × ((redis.get_del k s).0 ≡ ok o)) where
  zero_falls :
      (r : Result (Option ℤ)) (o : Option ℤ)
      → r ≡ ok o
      → value_of o ≡ pos 0
      → is_zero (int_of r) ≡ true
  zero_falls r none e h = rw e refl
  zero_falls r (some n) e h = rw e (ap is_zero h)

  -- The flush of a tweet with no delta in Redis, or with a delta of zero.
  falls_back :
      (time : Time) (id : Uuid) (ids : List Uuid) (c : Cluster) (store : redis.Store)
      → value_of (redis.number_at (key_of uuids id) store) ≡ pos 0
      → flush_from server uuids redis time (id ∷ ids) (c, store)
        ≡ (flush_fallback server time c, (redis.get_del (key_of uuids id) store).1)
  falls_back time id ids c store h =
      flush_from-fallback server uuids redis time id ids c store
        (zero_falls _ _ (get_del-reads server uuids redis up answers (key_of uuids id) store) h)

  applies :
      (time : Time) (id : Uuid) (ids : List Uuid) (c : Cluster) (store : redis.Store) (v : ℤ)
      → redis.number_at (key_of uuids id) store ≡ some v
      → v ≢ pos 0
      → flush_from server uuids redis time (id ∷ ids) (c, store)
        ≡ flush_from server uuids redis time ids
            (flush_delta server time id v c, (redis.get_del (key_of uuids id) store).1)
  applies time id ids c store v h nz =
      flush_from-delta server uuids redis time id ids c store v
        (get_del-reads server uuids redis up answers (key_of uuids id) store ∙ ap ok h) nz

  module _ (a b : Uuid) (v : ℤ) (c : Cluster) (store : redis.Store) (apart : a ≢ b)
      (held : redis.number_at (key_of uuids a) store ≡ some v) (nz : v ≢ pos 0)
      (nothing : value_of (redis.number_at (key_of uuids b) store) ≡ pos 0) where
    -- With a server and a Redis that answer, of two pending tweets the first has a delta other than
    -- zero in Redis, and the second has none, or zero. If the map yields them in that order, the
    -- pending rows of both are deleted unread: the second tweet gains nothing, whatever its rows
    -- held. In the other order all pending rows are added.
    pub flush_loses_pending :
        (time : Time)
        → ((flush server uuids redis time (a ∷ b ∷ []) (c, store)).0.tables
            ≡ settled time a v c.tables)
          × ((flush server uuids redis time (b ∷ a ∷ []) (c, store)).0.tables
              ≡ fallen_back time c.tables)
    unfolding flush
    flush_loses_pending time = (
      ap (λ w. w.0.tables) (applies time a (b ∷ []) c store v held nz)
          ∙ ap (λ w. w.0.tables)
              (falls_back time b [] (flush_delta server time a v c)
                (redis.get_del (key_of uuids a) store).1
                (ap value_of (get_del-others server uuids redis up answers a b store apart)
                  ∙ nothing))
          ∙ flush_fallback-tables server up time (flush_delta server time a v c)
          ∙ ap (fallen_back time) (flush_delta-tables server up time a v c)
          ∙ fallen_back-settled time a v c.tables,
      ap (λ w. w.0.tables) (falls_back time b (a ∷ []) c store nothing)
          ∙ flush_fallback-tables server up time c,
    )

    -- With a server and a Redis that answer, and two pending tweets of which the first has no delta in
    -- Redis, or zero as after a like that was taken back, and the second has another delta, the
    -- fallback for the first adds the pending rows of every tweet, those of the second too, and
    -- leaves its delta in Redis: the next flush that meets the second tweet adds its delta as well.
    pub flush_counts_twice :
        (time time' : Time)
        → let first = flush server uuids redis time (b ∷ a ∷ []) (c, store) in
          (flush server uuids redis time' (a ∷ []) first).0.tables
          ≡ settled time' a v (fallen_back time c.tables)
    unfolding flush flush_from
    flush_counts_twice time time' =
        let c' = flush_fallback server time c in
        let store' = (redis.get_del (key_of uuids b) store).1 in
        ap (λ w. (flush_from server uuids redis time' (a ∷ []) w).0.tables)
          (falls_back time b (a ∷ []) c store nothing)
        ∙ ap (λ w. w.0.tables)
            (applies time' a [] c' store' v
              (get_del-others server uuids redis up answers b a store (λ e. apart (sym e)) ∙ held)
              nz)
        ∙ flush_delta-tables server up time' a v c'
        ∙ ap (settled time' a v) (flush_fallback-tables server up time c)
