-- ===== src/Tweet/Fanout/Pool.antt =====
-- The worker pool of internal/tweet/fanout.go: `NewFanoutWorker`, `Start`, `Enqueue` and the goroutines
-- of `work`, which share the channel, the fetcher and Redis, interleaved in any order. A worker can be
-- overtaken between its fetch of a page and the pipeline for that page; one pipeline is one step.
pub mod Account
pub mod Balance
pub mod Delivered
pub mod Draining
pub mod Progress
pub mod Alone
pub mod Followers
pub mod Stopped
use mini_twitter.Common.{
  ℕ, ◌≡◌, Bool, true, false, Option, none, some, List, [], ◌∷◌, Result, ok, err, Error, message,
  length, last, ltb, get_elem?, replace, replicate, if◌then◌else◌,
}
use mini_twitter.Schema.{Uuid}
use mini_twitter.Cache.Redis.{Redis, Uuids}
use mini_twitter.Tweet.Fanout.{
  FanoutJob, FollowerFetcher, Queue, enqueue, push_page, fanout_page_size,
}

-- A goroutine that runs `work`: blocked in its `select`, about to fetch the page behind a cursor, with
-- a page in hand that is not pushed yet, or returned.
pub data Worker : Type 0 where
  blocked : Worker
  fetching : FanoutJob → Option Uuid → Worker
  pushing : FanoutJob → Uuid → List Uuid → Worker
  returned : Worker

pub record Pool (S Store : Type 0) : Type 0 where
  pub queue : Queue
  pub workers : List Worker
  pub cancelled : Bool
  pub remote : S
  pub store : Store

-- `NewFanoutWorker` makes the channel; `Start` launches the workers.
abbrev pub started : {S Store : Type 0} → ℕ → ℕ → S → Store → Pool S Store
started buf_size worker_count remote store = record {
  queue = record { jobs = []; buf_size = buf_size };
  workers = replicate worker_count blocked;
  cancelled = false;
  remote = remote;
  store = store;
}

-- `ctx.Err()` of a cancelled context.
abbrev pub context_canceled : Error
context_canceled = message "context canceled"

-- What a worker does next, after its fetch: an error ends the job and is logged, an empty page ends it.
abbrev pub after_fetch : FanoutJob → Result (List Uuid) → Worker
after_fetch job (err e) = blocked
after_fetch job (ok []) = blocked
after_fetch job (ok (id ∷ ids)) = pushing job id ids

-- And after the pipeline: a page that is not full was the last.
abbrev pub after_push : FanoutJob → Uuid → List Uuid → Worker
after_push job id ids =
    if ltb (length (id ∷ ids)) fanout_page_size then blocked else fetching job (some (last id ids))

-- What is seen of a step.
pub data Event : Type 0 where
  accepted dropped taken : FanoutJob → Event
  fetched : Event
  pushed : FanoutJob → List Uuid → Event
  unfetched : FanoutJob → Option Uuid → Event
  unpushed : FanoutJob → List Uuid → Event
  stopped : Event

abbrev pub seen_as : FanoutJob → Queue → Event
seen_as job q = if ltb (length q.jobs) q.buf_size then accepted job else dropped job

module _ (uuids : Uuids) (redis : Redis) {S : Type 0} (fetch : FollowerFetcher S) where
  -- `send` and `hand_over` are calls of `Enqueue`, and `cancel` is the end of the context; the rest is a
  -- turn of worker `i`. Where the channel has no buffer, a job goes straight to a worker that waits.
  -- The fetcher and Redis are called with the context: once it is cancelled, a fetch is an error,
  -- which ends the job, and a pipeline is an error before it is sent, which is only logged. With a
  -- job in the channel and the context cancelled, Go's `select` may go either way.
  pub data Step (s : Pool S redis.Store) : Event → Pool S redis.Store → Type 0 where
    send :
        (job : FanoutJob) → Step s (seen_as job s.queue) (record s { queue = enqueue job s.queue })
    hand_over :
        (i : ℕ) (job : FanoutJob)
        → s.queue.buf_size ≡ 0
        → get_elem? s.workers i ≡ some blocked
        → Step s (accepted job) (record s { workers = replace i (fetching job none) s.workers })
    take_job :
        (i : ℕ) {job : FanoutJob} {rest : List FanoutJob}
        → get_elem? s.workers i ≡ some blocked
        → s.queue.jobs ≡ job ∷ rest
        → Step s (taken job) (record s {
          queue = record { jobs = rest; buf_size = s.queue.buf_size };
          workers = replace i (fetching job none) s.workers;
        })
    fetch_page :
        (i : ℕ) {job : FanoutJob} {after : Option Uuid}
        → get_elem? s.workers i ≡ some (fetching job after)
        → s.cancelled ≡ false
        → Step s fetched (record s {
          workers =
              replace i
                (after_fetch job (fetch job.author_id fanout_page_size after s.remote).0)
                s.workers;
          remote = (fetch job.author_id fanout_page_size after s.remote).1;
        })
    fail_fetch :
        (i : ℕ) {job : FanoutJob} {after : Option Uuid}
        → get_elem? s.workers i ≡ some (fetching job after)
        → s.cancelled ≡ true
        → Step s (unfetched job after) (record s {
          workers = replace i (after_fetch job (err context_canceled)) s.workers;
          remote = (fetch job.author_id fanout_page_size after s.remote).1;
        })
    push :
        (i : ℕ) {job : FanoutJob} {id : Uuid} {ids : List Uuid}
        → get_elem? s.workers i ≡ some (pushing job id ids)
        → s.cancelled ≡ false
        → Step s (pushed job (id ∷ ids)) (record s {
          workers = replace i (after_push job id ids) s.workers;
          store = push_page uuids redis fetch (uuids.show job.tweet_id) (id ∷ ids) s.store;
        })
    fail_push :
        (i : ℕ) {job : FanoutJob} {id : Uuid} {ids : List Uuid}
        → get_elem? s.workers i ≡ some (pushing job id ids)
        → s.cancelled ≡ true
        → Step s
            (unpushed job (id ∷ ids))
            (record s { workers = replace i (after_push job id ids) s.workers })
    cancel : s.cancelled ≡ false → Step s stopped (record s { cancelled = true })
    leave :
        (i : ℕ)
        → get_elem? s.workers i ≡ some blocked
        → s.cancelled ≡ true
        → Step s stopped (record s { workers = replace i returned s.workers })

  -- A run, with its events, the last one first.
  pub data Run (s : Pool S redis.Store) : List Event → Pool S redis.Store → Type 0 where
    start : Run s [] s
    later :
        {e : Event} {es : List Event} {t u : Pool S redis.Store}
        → Run s es t
        → Step t e u
        → Run s (e ∷ es) u
