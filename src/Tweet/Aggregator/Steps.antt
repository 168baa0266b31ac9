-- ===== src/Tweet/Aggregator/Steps.antt =====
-- One turn of the flush loop of internal/tweet/likeaggregator.go, on each of its branches.
use mini_twitter.Common.{
  ℕ, suc, ◌≡◌, ◌≢◌, refl, ap, ◌∙◌, true, not, List, [], ◌∷◌, Result, ok, err, Option, none, some, ℤ,
  pos, negsuc, select, arith, ltb, Error,
}
use mini_twitter.Schema.{Uuid, Time, Bytes, Tweet, Pending, Tables}
use mini_twitter.Postgres.{Server, Cluster}
use mini_twitter.Postgres.Answered.{IsUp}
use mini_twitter.Cache.{like_count_key}
use mini_twitter.Cache.Redis.{Redis, Uuids}
use mini_twitter.Tweet.Statements.{at_tweet, sum_pending}
use mini_twitter.Tweet.Repository.{incr_like_count, flush_pending_likes}
use mini_twitter.Tweet.Aggregator.{
  int_of, by_reply, is_zero, apply_sums, flush_fallback, flush_delta, flush_from,
}

-- The pending rows that a flush at this time leaves.
abbrev pub kept : Time → List Pending → List Pending
kept time = select λ p. not (ltb p.created_at time)

-- The tables after a delta has been applied and the pending rows deleted.
abbrev pub settled : Time → Uuid → ℤ → Tables → Tables
settled time id delta t = record t {
  tweets = at_tweet id delta t.tweets;
  pending = kept time t.pending;
}

abbrev pub add_all : List (Uuid × ℤ) → List Tweet → List Tweet
add_all [] ws = ws
add_all ((id, delta) ∷ sums) ws = add_all sums (at_tweet id delta ws)

module _ (server : Server) (up : IsUp server) where
  pub flush_delta-tables :
      (time : Time) (id : Uuid) (delta : ℤ) (c : Cluster)
      → (flush_delta server time id delta c).tables ≡ settled time id delta c.tables
  unfolding flush_delta incr_like_count flush_pending_likes
  flush_delta-tables time id delta c =
      ground (arith, up c.trips, up (suc c.trips), up (suc (suc c.trips)))

  apply_sums-tables :
      (sums : List (Uuid × ℤ)) (c : Cluster)
      → (apply_sums server sums c).tables
        ≡ record (c.tables) { tweets = add_all sums c.tables.tweets }
  unfolding apply_sums incr_like_count
  apply_sums-tables [] c = refl
  apply_sums-tables ((id, delta) ∷ sums) c =
      apply_sums-tables sums (incr_like_count server id delta c).1 ∙ rw (up c.trips) refl

  flush_fallback-answered :
      (time : Time) (c : Cluster)
      → flush_fallback server time c
        ≡ apply_sums server (sum_pending time c.tables.pending) (record c {
          tables = record (c.tables) { pending = kept time c.tables.pending };
          trips = suc (suc c.trips);
        })
  unfolding flush_fallback flush_pending_likes
  flush_fallback-answered time c = ground (arith, up c.trips, up (suc c.trips))

  pub flush_fallback-tables :
      (time : Time) (c : Cluster)
      → (flush_fallback server time c).tables ≡ record (c.tables) {
        tweets = add_all (sum_pending time c.tables.pending) c.tables.tweets;
        pending = kept time c.tables.pending;
      }
  flush_fallback-tables time c =
      ap (λ (d : Cluster). d.tables) (flush_fallback-answered time c)
      ∙ apply_sums-tables (sum_pending time c.tables.pending) (record c {
        tables = record (c.tables) { pending = kept time c.tables.pending };
        trips = suc (suc c.trips);
      })

module _ {X : Type 0} where
  by_reply-delta :
      (r : Result (Option ℤ)) (f : X) (s : Error → X) (a : ℤ → X) (v : ℤ)
      → r ≡ ok (some v)
      → v ≢ pos 0
      → by_reply r f s a ≡ a v
  by_reply-delta r f s a (pos ℕ.zero) e nz = absurd (nz refl)
  by_reply-delta r f s a (pos (suc n)) e nz = ap (λ q. by_reply q f s a) e
  by_reply-delta r f s a (negsuc n) e nz = ap (λ q. by_reply q f s a) e

  by_reply-zero :
      (r : Result (Option ℤ)) (f : X) (s : Error → X) (a : ℤ → X)
      → is_zero (int_of r) ≡ true
      → by_reply r f s a ≡ f
  by_reply-zero (ok none) f s a e = refl
  by_reply-zero (ok (some n)) f s a e = rw e refl
  by_reply-zero (err x) f s a e = refl

module _ (uuids : Uuids) where
  abbrev pub key_of : Uuid → Bytes
  key_of id = like_count_key (uuids.show id)

module _ (server : Server) (uuids : Uuids) (redis : Redis) where
  -- The turn of a tweet with a delta that is not zero.
  pub flush_from-delta :
      (time : Time) (id : Uuid) (ids : List Uuid) (c : Cluster) (store : redis.Store) (v : ℤ)
      → (redis.get_del (key_of uuids id) store).0 ≡ ok (some v)
      → v ≢ pos 0
      → flush_from server uuids redis time (id ∷ ids) (c, store)
        ≡ flush_from server uuids redis time ids
            (flush_delta server time id v c, (redis.get_del (key_of uuids id) store).1)
  unfolding flush_from
  flush_from-delta time id ids c store v e nz =
      by_reply-delta (redis.get_del (key_of uuids id) store).0
        (flush_fallback server time c, (redis.get_del (key_of uuids id) store).1)
        (λ _. flush_from server uuids redis time ids (c, (redis.get_del (key_of uuids id) store).1))
        (λ val.
          flush_from server uuids redis time ids
            (flush_delta server time id val c, (redis.get_del (key_of uuids id) store).1))
        v e nz

  -- The turn of a tweet with no delta, a delta of zero, or an error in its place: the last turn.
  pub flush_from-fallback :
      (time : Time) (id : Uuid) (ids : List Uuid) (c : Cluster) (store : redis.Store)
      → is_zero (int_of (redis.get_del (key_of uuids id) store).0) ≡ true
      → flush_from server uuids redis time (id ∷ ids) (c, store)
        ≡ (flush_fallback server time c, (redis.get_del (key_of uuids id) store).1)
  unfolding flush_from
  flush_from-fallback time id ids c store e =
      by_reply-zero (redis.get_del (key_of uuids id) store).0
        (flush_fallback server time c, (redis.get_del (key_of uuids id) store).1)
        (λ _. flush_from server uuids redis time ids (c, (redis.get_del (key_of uuids id) store).1))
        (λ val.
          flush_from server uuids redis time ids
            (flush_delta server time id val c, (redis.get_del (key_of uuids id) store).1))
        e
