-- ===== src/Tweet/Fanout/Pool/Draining.antt =====
-- The worker pool of internal/tweet/fanout.go comes to rest: the work that is left is bounded, every
-- turn of a worker does some of it, and until the pool is drained some worker has a turn.
use mini_twitter.Common.{
  ℕ, zero, suc, ◌+◌, ◌-◌, ◌*◌, ◌≤◌, ◌<◌, ◌≡◌, refl, ap, Bool, true, false, Option, none, some, List,
  [], ◌∷◌, ok, length, last, take, drop, ltb, replicate, sum_of, sum_of-replace, sum_of-append,
  Bool-cases, inl, inr, if◌then◌else◌, length-drop, arith,
}
use mini_twitter.Schema.{Uuid}
use mini_twitter.Cache.Redis.{Redis, Uuids}
use mini_twitter.Tweet.Fanout.{FanoutJob, FollowerFetcher, enqueue, fanout_page_size}
use mini_twitter.Tweet.Fanout.Delivery.{IsPaging, rest_after, rest_after-next}
use mini_twitter.Tweet.Fanout.Pool.{
  Worker, blocked, fetching, pushing, returned, Pool, started, after_fetch, after_push, Event,
  accepted, dropped, stopped, Step, send, hand_over, take_job, fetch_page, fail_fetch, push,
  fail_push, cancel, leave, Run, start, later,
}

-- A step of the pool itself, not a call of `Enqueue`.
abbrev pub IsOwn : Event → Type 0
IsOwn (accepted job) = ⊥
IsOwn (dropped job) = ⊥
IsOwn e = Unit

module _ (followers : Uuid → List Uuid) where
  -- Turns until a worker has returned: two for each page, at most.
  abbrev pub turns_of : Worker → ℕ
  turns_of blocked = 1
  turns_of (fetching job after) = 2 * length (rest_after after (followers job.author_id)) + 3
  turns_of (pushing job id ids) =
      2 * length (rest_after (some (last id ids)) (followers job.author_id)) + 4
  turns_of returned = 0

  abbrev pub turns_for : FanoutJob → ℕ
  turns_for job = 2 * length (followers job.author_id) + 3

  abbrev pub work : {S Store : Type 0} → Pool S Store → ℕ
  work s =
      sum_of turns_for s.queue.jobs + sum_of turns_of s.workers + (if s.cancelled then 0 else 1)

  -- The work that a run brought in.
  abbrev pub brought : List Event → ℕ
  brought [] = 0
  brought (accepted job ∷ es) = turns_for job + brought es
  brought (e ∷ es) = brought es

-- A turn of a worker that has not returned.
abbrev pub IsTurn : Event → Type 0
IsTurn (accepted job) = ⊥
IsTurn (dropped job) = ⊥
IsTurn stopped = ⊥
IsTurn e = Unit

-- The pool's own steps in a run.
abbrev pub own_steps : List Event → ℕ
own_steps [] = 0
own_steps (accepted job ∷ es) = own_steps es
own_steps (dropped job ∷ es) = own_steps es
own_steps (e ∷ es) = suc (own_steps es)

module _ (uuids : Uuids) (redis : Redis) {S : Type 0} (fetch : FollowerFetcher S)
    (followers : Uuid → List Uuid) (Fit : S → Type 0)
    (v : (author : Uuid) → IsPaging fetch author (followers author) Fit) where
  fetched-turns :
      (job : FanoutJob) (after : Option Uuid) (rest : List Uuid)
      → rest_after after (followers job.author_id) ≡ rest
      → turns_of followers (after_fetch job (ok (take fanout_page_size rest)))
        < turns_of followers (fetching job after)
  fetched-turns job after [] e = rw e (omega arith)
  fetched-turns job after (x ∷ ys) e =
      let next : rest_after (some (last x (take (fanout_page_size - 1) ys)))
            (followers job.author_id)
          ≡ drop (fanout_page_size - 1) ys =
        rest_after-next (fanout_page_size - 1) x ys after (followers job.author_id)
          (v job.author_id).rising e in
      omega (arith, ap length next, ap length e, length-drop (fanout_page_size - 1) ys)

  answered-turns :
      (job : FanoutJob) (after : Option Uuid) (remote : S)
      → Fit remote
      → turns_of followers (after_fetch job (fetch job.author_id fanout_page_size after remote).0)
        < turns_of followers (fetching job after)
  answered-turns job after remote fit = elim ((v job.author_id).answers after remote fit).0 [
    | inl page ↦ rw page (fetched-turns job after (rest_after after (followers job.author_id)) refl)
    | inr (e, failed) ↦ rw failed (omega arith)
  ]

  pushed-turns :
      (job : FanoutJob) (id : Uuid) (ids : List Uuid)
      → turns_of followers (after_push job id ids) < turns_of followers (pushing job id ids)
  pushed-turns job id ids = elim (Bool-cases (ltb (length (id ∷ ids)) fanout_page_size)) [
    | inl short ↦ rw short (omega arith)
    | inr full ↦ rw full (omega arith)
  ]

  -- A turn does some of the work.
  pub Step-work :
      (s : Pool S redis.Store) {e : Event} {t : Pool S redis.Store}
      → Fit s.remote
      → IsOwn e
      → Step uuids redis fetch s e t
      → suc (work followers t) ≤ work followers s
  Step-work s fit own (send job) =
      absurd (not_sent (ltb (length s.queue.jobs) s.queue.buf_size) own)
    where
      not_sent : (b : Bool) → IsOwn (if b then accepted job else dropped job) → ⊥
      not_sent true h = h
      not_sent false h = h
  Step-work s fit own (hand_over i job bare at) = absurd own
  Step-work s fit own (take_job i {job} {rest} at next) = omega (
    arith,
    ap (sum_of (turns_for followers)) next,
    sum_of-replace (turns_of followers) i (fetching job none) s.workers at,
  )
  Step-work s fit own (fetch_page i {job} {after} at on) = omega (
    arith,
    answered-turns job after s.remote fit,
    sum_of-replace (turns_of followers) i
        (after_fetch job (fetch job.author_id fanout_page_size after s.remote).0) s.workers at,
  )
  Step-work s fit own (fail_fetch i {job} {after} at off) =
      omega (arith, sum_of-replace (turns_of followers) i blocked s.workers at)
  Step-work s fit own (push i {job} {id} {ids} at on) = omega (
    arith,
    pushed-turns job id ids,
    sum_of-replace (turns_of followers) i (after_push job id ids) s.workers at,
  )
  Step-work s fit own (fail_push i {job} {id} {ids} at off) = omega (
    arith,
    pushed-turns job id ids,
    sum_of-replace (turns_of followers) i (after_push job id ids) s.workers at,
  )
  Step-work s fit own (cancel on) = rw on (omega arith)
  Step-work s fit own (leave i at off) =
      omega (arith, sum_of-replace (turns_of followers) i returned s.workers at)

  pub Step-Fit :
      (s : Pool S redis.Store) {e : Event} {t : Pool S redis.Store}
      → Fit s.remote
      → Step uuids redis fetch s e t
      → Fit t.remote
  Step-Fit s fit (send job) = fit
  Step-Fit s fit (take_job i at next) = fit
  Step-Fit s fit (hand_over i job bare at) = fit
  Step-Fit s fit (fetch_page i {job} {after} at on) =
      ((v job.author_id).answers after s.remote fit).1
  Step-Fit s fit (fail_fetch i {job} {after} at off) =
      ((v job.author_id).answers after s.remote fit).1
  Step-Fit s fit (push i at on) = fit
  Step-Fit s fit (fail_push i at off) = fit
  Step-Fit s fit (cancel on) = fit
  Step-Fit s fit (leave i at off) = fit

  -- A step's share of what a run may do.
  Step-spends :
      (s : Pool S redis.Store) {e : Event} {t : Pool S redis.Store} (es : List Event)
      → Fit s.remote
      → Step uuids redis fetch s e t
      → own_steps (e ∷ es) + work followers t + brought followers es
        ≤ own_steps es + work followers s + brought followers (e ∷ es)
  unfolding enqueue
  Step-spends s es fit (send job) = elim (Bool-cases (ltb (length s.queue.jobs) s.queue.buf_size)) [
    | inl fits ↦
        rw fits (omega (arith, sum_of-append (turns_for followers) s.queue.jobs (job ∷ [])))
    | inr full ↦ rw full (omega arith)
  ]
  Step-spends s es fit (take_job i at next) = omega (arith, Step-work s fit tt (take_job i at next))
  Step-spends s es fit (hand_over i job bare at) =
      omega (arith, sum_of-replace (turns_of followers) i (fetching job none) s.workers at)
  Step-spends s es fit (fetch_page i at on) = omega (arith, Step-work s fit tt (fetch_page i at on))
  Step-spends s es fit (fail_fetch i at off) =
      omega (arith, Step-work s fit tt (fail_fetch i at off))
  Step-spends s es fit (push i at on) = omega (arith, Step-work s fit tt (push i at on))
  Step-spends s es fit (fail_push i at off) = omega (arith, Step-work s fit tt (fail_push i at off))
  Step-spends s es fit (cancel on) = omega (arith, Step-work s fit tt (cancel on))
  Step-spends s es fit (leave i at off) = omega (arith, Step-work s fit tt (leave i at off))

  Run-spends :
      (s : Pool S redis.Store) {es : List Event} {t : Pool S redis.Store}
      → Fit s.remote
      → Run uuids redis fetch s es t
      → Fit t.remote × (own_steps es + work followers t ≤ work followers s + brought followers es)
  Run-spends s fit start = (fit, omega arith)
  Run-spends s fit (later {es} {t} run step) =
      let (fit', spent) = Run-spends s fit run in
      (Step-Fit t fit' step, omega (arith, spent, Step-spends t es fit' step))

  idle-turns : (n : ℕ) → sum_of (turns_of followers) (replicate n blocked) ≡ n
  idle-turns zero = omega arith
  idle-turns (suc n) = omega (arith, idle-turns n)

  -- With a fetcher in a state from which it always answers with pages of each author's rising list of
  -- followers or with errors, and any Redis: in any run of the pool, however it is scheduled, the turns of the workers and the end
  -- of the context are together at most three for each accepted job and two for each follower of its
  -- author, and one more for each worker and for the end of the context.
  pub pool_turns_bounded :
      (buf_size worker_count : ℕ) (remote : S) (store : redis.Store) {es : List Event}
      {s : Pool S redis.Store}
      → Fit remote
      → Run uuids redis fetch (started buf_size worker_count remote store) es s
      → own_steps es ≤ brought followers es + worker_count + 1
  pool_turns_bounded buf_size worker_count remote store fit run = omega (
    arith,
    (Run-spends (started buf_size worker_count remote store) fit run).1,
    idle-turns worker_count,
  )
