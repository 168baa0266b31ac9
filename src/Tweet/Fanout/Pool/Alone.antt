-- ===== src/Tweet/Fanout/Pool/Alone.antt =====
-- A worker of internal/tweet/fanout.go that nobody overtakes does what the loop of `fanout` does.
use mini_twitter.Common.{
  ℕ, zero, suc, ◌*◌, ◌<◌, false, ◌≡◌, refl, sym, ap, ap₂, ◌∙◌, subst, Option, none, some, List, [],
  ◌∷◌, Result, ok, err, length, last, ltb, get_elem?, replace, Bool-cases, inl, inr,
}
use mini_twitter.Schema.{Uuid}
use mini_twitter.Cache.Redis.{Redis, Uuids}
use mini_twitter.Tweet.Fanout.{
  FanoutJob, FollowerFetcher, push_page, fanout_page_size, fanout_from, fanout,
}
use mini_twitter.Tweet.Fanout.Delivery.{IsPaging}
use mini_twitter.Tweet.Fanout.Pool.{
  Worker, blocked, fetching, pushing, Pool, after_fetch, after_push, Event, Step, take_job,
  fetch_page, push, Run, start, later,
}
use mini_twitter.Tweet.Fanout.Ending.{with_page, fanout_from-with_page, fanout_from-Ends}

module _ {A : Type 0} where
  replaced : (i : ℕ) (a b : A) (xs : List A) → replace i a (replace i b xs) ≡ replace i a xs
  replaced i a b [] = refl
  replaced zero a b (x ∷ xs) = refl
  replaced (suc i) a b (x ∷ xs) = ap (◌∷◌ x) (replaced i a b xs)

  put_back : (i : ℕ) {a : A} (xs : List A) → get_elem? xs i ≡ some a → replace i a xs ≡ xs
  put_back i [] e = refl
  put_back zero (x ∷ xs) e = ap (λ y. y ∷ xs) (sym (same e))
    where
      same : {a b : A} → some a ≡ some b → a ≡ b
      same h = cc
  put_back (suc i) (x ∷ xs) e = ap (◌∷◌ x) (put_back i xs e)

  at_replaced :
      (i : ℕ) (a : A) {b : A} (xs : List A)
      → get_elem? xs i ≡ some b
      → get_elem? (replace i a xs) i ≡ some a
  at_replaced i a [] e = absurd (nothing e)
    where
      nothing : {b : A} → none ≡ some b → ⊥
      nothing h = cc
  at_replaced zero a (x ∷ xs) e = refl
  at_replaced (suc i) a (x ∷ xs) e = at_replaced i a xs e

ended : {A : Type 0} {a b : A} → some a ≡ some b → a ≡ b
ended e = cc

out_of_fuel : {A : Type 0} {a : A} → none ≡ some a → ⊥
out_of_fuel e = cc

module _ (uuids : Uuids) (redis : Redis) {S : Type 0} (fetch : FollowerFetcher S) where
  -- A turn of worker `i`: it takes a job, fetches a page or pushes one.
  abbrev pub IsTurnOf :
      ℕ
      → {s : Pool S redis.Store} {e : Event} {t : Pool S redis.Store} → Step uuids redis fetch s e t
      → Type 0
  IsTurnOf i (take_job j at next) = j ≡ i
  IsTurnOf i (fetch_page j at on) = j ≡ i
  IsTurnOf i (push j at on) = j ≡ i
  IsTurnOf i step = ⊥

  abbrev pub AreTurnsOf :
      ℕ
      → {s : Pool S redis.Store} {es : List Event} {t : Pool S redis.Store}
      → Run uuids redis fetch s es t
      → Type 0
  AreTurnsOf i start = Unit
  AreTurnsOf i (later run step) = AreTurnsOf i run × IsTurnOf i step

  -- Turns of worker `i` and nothing else lead from one state to another.
  abbrev pub Reaches : ℕ → Pool S redis.Store → Pool S redis.Store → Type 0
  Reaches i s t = (es : List Event) × (run : Run uuids redis fetch s es t) × AreTurnsOf i run

  -- The pool with worker `i` at something, and its own remote and store.
  abbrev at_work : Pool S redis.Store → ℕ → Worker → S → redis.Store → Pool S redis.Store
  at_work s i w remote store = record s {
    workers = replace i w s.workers;
    remote = remote;
    store = store;
  }

  module _ (origin s : Pool S redis.Store) (i : ℕ) (job : FanoutJob) {w : Worker}
      (here : get_elem? s.workers i ≡ some w) (on : s.cancelled ≡ false) where
    -- One more turn of worker `i`.
    fetch_turn :
        (after : Option Uuid) (remote : S) (store : redis.Store) {x : Result (List Uuid) × S}
        → fetch job.author_id fanout_page_size after remote ≡ x
        → Reaches i origin (at_work s i (fetching job after) remote store)
        → Reaches i origin (at_work s i (after_fetch job x.0) x.1 store)
    fetch_turn after remote store {x} e (es, run, turns) =
        subst (Reaches i origin)
          (ap₂ (λ ws r. record s { workers = ws; remote = r; store = store })
            (replaced i _ (fetching job after) s.workers
              ∙ ap (λ y. replace i (after_fetch job y.0) s.workers) e)
            (ap (λ y. y.1) e))
          (
            _,
            later run (fetch_page i (at_replaced i (fetching job after) s.workers here) on),
            (turns, refl),
          )

    push_turn :
        (id : Uuid) (ids : List Uuid) (remote : S) (store : redis.Store)
        → Reaches i origin (at_work s i (pushing job id ids) remote store)
        → Reaches i origin (
            at_work s i
              (after_push job id ids)
              remote
              (push_page uuids redis fetch (uuids.show job.tweet_id) (id ∷ ids) store))
    push_turn id ids remote store (es, run, turns) =
        subst (Reaches i origin)
          (ap
            (λ ws. record s {
              workers = ws;
              remote = remote;
              store = push_page uuids redis fetch (uuids.show job.tweet_id) (id ∷ ids) store;
            })
            (replaced i (after_push job id ids) (pushing job id ids) s.workers))
          (
            _,
            later run (push i (at_replaced i (pushing job id ids) s.workers here) on),
            (turns, refl),
          )

    -- From a cursor on.
    loop_runs :
        (fuel : ℕ) (after : Option Uuid) (remote : S) (store : redis.Store) {r : Result (Unit {0})}
        {remote' : S} {store' : redis.Store}
        → fanout_from uuids redis fetch fuel job after remote store ≡ some (r, remote', store')
        → Reaches i origin (at_work s i (fetching job after) remote store)
        → Reaches i origin (at_work s i blocked remote' store')
    unfolding fanout_from
    loop_runs zero after remote store h run = absurd (out_of_fuel h)
    loop_runs (suc fuel) after remote store {r} {remote'} {store'} h run =
        by_page (fetch job.author_id fanout_page_size after remote) refl
          (sym (fanout_from-with_page uuids redis fetch fuel job after remote store) ∙ h)
          (λ next s' store'' more. loop_runs fuel next s' store'' more)
      where
        by_page :
            (x : Result (List Uuid) × S)
            → fetch job.author_id fanout_page_size after remote ≡ x
            → with_page uuids redis fetch fuel job store x ≡ some (r, remote', store')
            → ((next : Option Uuid) (s' : S) (store'' : redis.Store)
                → fanout_from uuids redis fetch fuel job next s' store'' ≡ some (r, remote', store')
                → Reaches i origin (at_work s i (fetching job next) s' store'')
                → Reaches i origin (at_work s i blocked remote' store'))
            → Reaches i origin (at_work s i blocked remote' store')
        by_page (err e, s') got end again =
            subst (λ y. Reaches i origin (at_work s i blocked y.1 y.2)) (ended end)
              (fetch_turn after remote store got run)
        by_page (ok [], s') got end again =
            subst (λ y. Reaches i origin (at_work s i blocked y.1 y.2)) (ended end)
              (fetch_turn after remote store got run)
        by_page (ok (id ∷ ids), s') got end again =
            let paged = fetch_turn after remote store got run in
            let done = push_turn id ids s' store paged in
            elim (Bool-cases (ltb (length (id ∷ ids)) fanout_page_size)) [
              | inl short ↦
                  subst (λ y. Reaches i origin (at_work s i blocked y.1 y.2))
                    (ended (rw short at end)) (rw short at done)
              | inr full ↦
                  again (some (last id ids)) s'
                    (push_page uuids redis fetch (uuids.show job.tweet_id) (id ∷ ids) store)
                    (rw full at end) (rw full at done)
            ]

  -- Where `fanout` ends, the worker's turns end as it does.
  worker_ends :
      (s : Pool S redis.Store) (i fuel : ℕ) (job : FanoutJob) (rest : List FanoutJob)
      {r : Result (Unit {0})} {remote' : S} {store' : redis.Store}
      → s.cancelled ≡ false
      → get_elem? s.workers i ≡ some blocked
      → s.queue.jobs ≡ job ∷ rest
      → fanout uuids redis fetch fuel job s.remote s.store ≡ some (r, remote', store')
      → Reaches i s (record s {
        queue = record { jobs = rest; buf_size = s.queue.buf_size };
        remote = remote';
        store = store';
      })
  unfolding fanout
  worker_ends s i fuel job rest {remote'} {store'} on here next ends =
      let base = record s { queue = record { jobs = rest; buf_size = s.queue.buf_size } } in
      subst (λ ws. Reaches i s (record base { workers = ws; remote = remote'; store = store' }))
        (put_back i s.workers here)
        (loop_runs s base i job here on fuel none s.remote s.store ends
          (_, later start (take_job i here next), (tt, refl)))

  module _ (job : FanoutJob) (all : List Uuid) (Fit : S → Type 0)
      (v : IsPaging fetch job.author_id all Fit) where
    -- With a fetcher in a state from which it always answers with pages of the author's rising list of
    -- followers or with errors, any Redis, and fuel for every page: before the end of the context, the loop of `fanout` ends,
    -- and turns of one blocked worker and nothing else take the first job out of the channel, leave
    -- the fetcher and Redis as the loop does, and leave the worker blocked again, the other workers
    -- and the rest of the channel untouched.
    pub worker_runs_fanout :
        (s : Pool S redis.Store) (i fuel : ℕ) (rest : List FanoutJob)
        → s.cancelled ≡ false
        → get_elem? s.workers i ≡ some blocked
        → s.queue.jobs ≡ job ∷ rest
        → Fit s.remote
        → length all < fuel * fanout_page_size
        → (r : Result (Unit {0})) × (remote' : S) × (store' : redis.Store) × (fanout uuids redis
              fetch fuel job s.remote s.store
            ≡ some (r, remote', store'))
          × Reaches i s (record s {
            queue = record { jobs = rest; buf_size = s.queue.buf_size };
            remote = remote';
            store = store';
          })
    unfolding fanout
    worker_runs_fanout s i fuel rest on here next fit enough =
        let (r, remote', store', ends) =
          fanout_from-Ends uuids redis fetch job all Fit v fuel none s.remote s.store all refl
            enough fit in
        (r, remote', store', ends, worker_ends s i fuel job rest on here next ends)
