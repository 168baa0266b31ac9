-- ===== src/Tweet/Fanout/Pool/Stopped.antt =====
-- What the end of the context leaves undone in the worker pool of internal/tweet/fanout.go: cmd/tweet/main.go
-- cancels the workers before it shuts the server down.
use mini_twitter.Common.{
  ℕ, ◌+◌, ◌≤◌, ◌≡◌, refl, ◌∙◌, subst, Bool, List, [], ◌∷◌, ◌++◌, ok, length, ltb, count, sum_of,
  All, All-at, append-nil, Bool-cases, inl, inr, arith,
}
use mini_twitter.Schema.{Uuid, Follow}
use mini_twitter.Cache.{timeline_key}
use mini_twitter.Cache.Redis.{Redis, Uuids, Cmd}
use mini_twitter.Postgres.{Server, Cluster}
use mini_twitter.Postgres.Answered.{IsUp}
use mini_twitter.User.Statements.{is_follow}
use mini_twitter.User.Repository.{get_follower_ids}
use mini_twitter.Tweet.Fanout.{FanoutJob, FollowerFetcher, timeline_max_len}
use mini_twitter.Tweet.Fanout.Followers.{IsInSync}
use mini_twitter.Tweet.Fanout.Pool.{
  Worker, blocked, fetching, pushing, returned, Pool, started, Event, Step, send, hand_over,
  fail_fetch, fail_push, take_job, fetch_page, push, cancel, leave, Run, start, later,
}
use mini_twitter.Tweet.Fanout.Pool.Account.{missed, share, owes, pushes}
use mini_twitter.Tweet.Fanout.Pool.Balance.{IsBalanced, Run-IsBalanced, started-IsBalanced}
use mini_twitter.Tweet.Fanout.Pool.Followers.{follows_due, sorted_followers, serving, due-follows}

abbrev pub IsReturned : Worker → Type 0
IsReturned returned = Unit
IsReturned w = ⊥

owes-returned :
    (followers : Uuid → List Uuid) (p : FanoutJob → Bool) (u : Uuid) (ws : List Worker)
    → All IsReturned ws
    → sum_of (owes followers p u) ws ≡ 0
owes-returned followers p u [] h = refl
owes-returned followers p u (blocked ∷ ws) h = absurd h.0
owes-returned followers p u (fetching job after ∷ ws) h = absurd h.0
owes-returned followers p u (pushing job id ids ∷ ws) h = absurd h.0
owes-returned followers p u (returned ∷ ws) h = omega (arith, owes-returned followers p u ws h.1)

module _ (uuids : Uuids) (redis : Redis) {S : Type 0} (fetch : FollowerFetcher S)
    (p : FanoutJob → Bool) (u : Uuid) where
  -- A step of a pool without workers pushes nothing.
  idle-Step :
      {s t : Pool S redis.Store} {e : Event} (es : List Event)
      → All IsReturned s.workers
      → Step uuids redis fetch s e t
      → All IsReturned t.workers × (pushes p u (e ∷ es) ≡ pushes p u es)
  idle-Step {s} es h (send job) = (
    h,
    elim (Bool-cases (ltb (length s.queue.jobs) s.queue.buf_size)) [
      | inl fits ↦ rw fits refl
      | inr full ↦ rw full refl
    ],
  )
  idle-Step {s} es h (take_job i at next) = absurd (All-at IsReturned i s.workers at h)
  idle-Step {s} es h (hand_over i job bare at) = absurd (All-at IsReturned i s.workers at h)
  idle-Step {s} es h (fetch_page i at on) = absurd (All-at IsReturned i s.workers at h)
  idle-Step {s} es h (fail_fetch i at off) = absurd (All-at IsReturned i s.workers at h)
  idle-Step {s} es h (push i at on) = absurd (All-at IsReturned i s.workers at h)
  idle-Step {s} es h (fail_push i at off) = absurd (All-at IsReturned i s.workers at h)
  idle-Step {s} es h (cancel on) = (h, refl)
  idle-Step {s} es h (leave i at off) = absurd (All-at IsReturned i s.workers at h)

  idle-Run :
      {s t : Pool S redis.Store} {later_events : List Event} (es : List Event)
      → All IsReturned s.workers
      → Run uuids redis fetch s later_events t
      → All IsReturned t.workers × (pushes p u (later_events ++ es) ≡ pushes p u es)
  idle-Run es h start = (h, refl)
  idle-Run es h (later {es = before} run step) =
      let (stopped, same) = idle-Run es h run in
      let (still, one) = idle-Step (before ++ es) stopped step in (still, one ∙ same)

module _ (server : Server) (uuids : Uuids) (redis : Redis) (fs : List Follow) (up : IsUp server)
    (keyed : (f g : Uuid) → count (is_follow f g) fs ≤ 1)
    (runs : (cs : List Cmd) (s : redis.Store) → (redis.pipeline cs s).0 ≡ ok tt) where
  -- With a server that answers, replicas that have caught up, distinct follow rows, a Redis that runs
  -- every pipeline, each as long as the context has not ended, and timelines of at most 1000 entries
  -- at the start: take any run of the pool at whose end all workers have returned, and anything that
  -- happens then. For any choice of jobs, the tweets of the jobs accepted up to the return are pushed
  -- to each user as often as there are rows by which the user follows the jobs' authors, less two
  -- shares: that of the pages that were not fetched or not pushed because the context had ended, and
  -- that of the jobs that were still in the channel. Neither is made up for later.
  pub shutdown_loses_queued :
      (buf_size worker_count : ℕ) (c : Cluster) (store : redis.Store) {es later_events : List Event}
      {s t : Pool Cluster redis.Store}
      → IsInSync fs c
      → ((u : Uuid) → length (redis.list_at (timeline_key (uuids.show u)) store) ≤ timeline_max_len)
      → Run uuids redis (get_follower_ids server) (started buf_size worker_count c store) es s
      → All IsReturned s.workers
      → Run uuids redis (get_follower_ids server) s later_events t
      → (p : FanoutJob → Bool) (u : Uuid)
      → pushes p u (later_events ++ es)
          + missed (sorted_followers fs) p u es
          + sum_of (share (sorted_followers fs) p u) s.queue.jobs
        ≡ follows_due fs p u es
  shutdown_loses_queued buf_size worker_count c store {es} {later_events} {s} {t} sync short run
        gone rest p u =
      let fetch = get_follower_ids server in
      let serves = serving server uuids redis fs up keyed runs in
      let first =
        started-IsBalanced uuids redis fetch (sorted_followers fs) (IsInSync fs) serves buf_size
          worker_count c store sync short in
      let b : IsBalanced uuids redis fetch (sorted_followers fs) (IsInSync fs) serves store es s =
        subst
          (λ xs. IsBalanced uuids redis fetch (sorted_followers fs) (IsInSync fs) serves store xs s)
          (append-nil es)
          (Run-IsBalanced uuids redis fetch (sorted_followers fs) (IsInSync fs) serves store first
            run) in
      omega (
        arith,
        b.balanced p u,
        due-follows fs p u es,
        owes-returned (sorted_followers fs) p u s.workers gone,
        (idle-Run uuids redis fetch p u es gone rest).1,
      )
