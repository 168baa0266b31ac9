-- ===== src/Tweet/Fanout/Pool/Delivered.antt =====
-- What the worker pool of internal/tweet/fanout.go has done once it is idle.
use mini_twitter.Common.{
  ℕ, ◌+◌, ◌⊎◌, inl, inr, true, ◌≤◌, ◌≡◌, refl, ap, List, [], ◌∷◌, ◌++◌, length, take, sum_of, All,
  append-nil, subst, Bool, arith,
}
use mini_twitter.Schema.{Uuid}
use mini_twitter.Cache.{timeline_key}
use mini_twitter.Cache.Redis.{Redis, Uuids}
use mini_twitter.Tweet.Fanout.{FanoutJob, FollowerFetcher, timeline_max_len}
use mini_twitter.Tweet.Fanout.Delivery.{IsServing}
use mini_twitter.Tweet.Fanout.Pool.{
  Worker, blocked, fetching, pushing, returned, Pool, started, Event, Run,
}
use mini_twitter.Tweet.Fanout.Pool.Account.{missed, share, owes, due, pushes, arrivals}
use mini_twitter.Tweet.Fanout.Pool.Balance.{IsBalanced, Run-IsBalanced, started-IsBalanced}

abbrev pub IsIdle : Worker → Type 0
IsIdle blocked = Unit
IsIdle (fetching job after) = ⊥
IsIdle (pushing job id ids) = ⊥
IsIdle returned = Unit

-- No job waits, and no worker has one.
pub record IsDrained {S Store : Type 0} (s : Pool S Store) : Type 0 where
  pub no_jobs : s.queue.jobs ≡ []
  pub idle : All IsIdle s.workers

owes-idle :
    (followers : Uuid → List Uuid) (p : FanoutJob → Bool) (u : Uuid) (ws : List Worker)
    → All IsIdle ws
    → sum_of (owes followers p u) ws ≡ 0
owes-idle followers p u [] h = refl
owes-idle followers p u (blocked ∷ ws) h = omega (arith, owes-idle followers p u ws h.1)
owes-idle followers p u (fetching job after ∷ ws) h = absurd h.0
owes-idle followers p u (pushing job id ids ∷ ws) h = absurd h.0
owes-idle followers p u (returned ∷ ws) h = omega (arith, owes-idle followers p u ws h.1)

module _ (uuids : Uuids) (redis : Redis) {S : Type 0} (fetch : FollowerFetcher S)
    (followers : Uuid → List Uuid) (Fit : S → Type 0)
    (v : (author : Uuid) → IsServing redis fetch author (followers author) Fit) where
  -- With a fetcher that serves the pages of each author's rising list of followers, a Redis that runs
  -- every pipeline, as long as the context has not ended, and timelines of at most 1000 entries at
  -- the start: after any run of the pool, with any number of workers and in any interleaving, in
  -- which no job is left, the tweets of the accepted jobs have been pushed to each user, or missed
  -- because the context had ended, together exactly as often as these jobs' authors have the user as
  -- a follower, for any choice of jobs; and unless the context has ended, none has been missed. Each
  -- timeline holds the tweets pushed to it, the last one first, before what it held at the start, cut
  -- to 1000 entries.
  pub pool_delivers :
      (buf_size worker_count : ℕ) (remote : S) (store : redis.Store) {es : List Event}
      {s : Pool S redis.Store}
      → Fit remote
      → ((u : Uuid) → length (redis.list_at (timeline_key (uuids.show u)) store) ≤ timeline_max_len)
      → Run uuids redis fetch (started buf_size worker_count remote store) es s
      → IsDrained s
      → (u : Uuid)
      → ((p : FanoutJob → Bool) → pushes p u es + missed followers p u es ≡ due followers p u es)
        × ((s.cancelled ≡ true) ⊎ ((p : FanoutJob → Bool) → pushes p u es ≡ due followers p u es))
        × (redis.list_at (timeline_key (uuids.show u)) s.store
            ≡ take timeline_max_len
                (arrivals uuids u es ++ redis.list_at (timeline_key (uuids.show u)) store))
  pool_delivers buf_size worker_count remote store {es} {s} fit short run drained u =
      let first =
        started-IsBalanced uuids redis fetch followers Fit v buf_size worker_count remote store fit
          short in
      let b : IsBalanced uuids redis fetch followers Fit v store es s =
        subst (λ xs. IsBalanced uuids redis fetch followers Fit v store xs s) (append-nil es)
          (Run-IsBalanced uuids redis fetch followers Fit v store first run) in
      let paid : (p : FanoutJob → Bool)
          → pushes p u es + missed followers p u es ≡ due followers p u es =
        λ p. omega (
          arith,
          b.balanced p u,
          ap (sum_of (share followers p u)) drained.no_jobs,
          owes-idle followers p u s.workers drained.idle,
        ) in
      (
        paid,
        elim b.unmissed [
          | inl ended ↦ inl ended
          | inr none_missed ↦ inr λ p. omega (arith, paid p, none_missed p u)
        ],
        b.timelines u,
      )
