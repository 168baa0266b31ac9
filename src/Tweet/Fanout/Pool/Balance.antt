-- ===== src/Tweet/Fanout/Pool/Balance.antt =====
-- What the workers of internal/tweet/fanout.go have pushed and what they still owe, in every run.
use mini_twitter.Common.{
  ℕ, zero, suc, ◌+◌, ◌-◌, ◌≤◌, ◌≡◌, ◌⊎◌, true, refl, sym, ap, ◌∙◌, subst, Bool, Option, none, some,
  List, [], ◌∷◌, ◌++◌, ok, length, last, take, drop, count, any, ltb, get_elem?, replace, replicate,
  sum_of, sum_of-append, sum_of-replace, All, All-at, All-replace, All-replicate, count-append,
  take-append-drop, take_all, IsRising, Bool-cases, inl, inr, ◌==◌, arith,
}
use mini_twitter.Schema.{Uuid}
use mini_twitter.Cache.{timeline_key}
use mini_twitter.Cache.Redis.{Redis, Uuids}
use mini_twitter.Tweet.Fanout.{
  FanoutJob, FollowerFetcher, enqueue, push_all, push_page, fanout_page_size, timeline_max_len,
}
use mini_twitter.Tweet.Fanout.Delivery.{IsServing, rest_after, rest_after-next, push_all-timeline}
use mini_twitter.Tweet.Fanout.Pool.{
  Worker, blocked, fetching, pushing, returned, Pool, started, after_fetch, after_push, Event,
  taken, fetched, pushed, accepted, unfetched, unpushed, seen_as, Step, send, hand_over, take_job,
  fetch_page, fail_fetch, push, fail_push, cancel, leave, Run, start, later,
}
use mini_twitter.Tweet.Fanout.Pool.Account.{
  missed, when, share, due, owes, pushes, arrivals, IsPage, when-add, none_due, page-IsRising,
  short_page, arrive,
}

module _ (uuids : Uuids) (redis : Redis) {S : Type 0} (fetch : FollowerFetcher S)
    (followers : Uuid → List Uuid) (Fit : S → Type 0)
    (v : (author : Uuid) → IsServing redis fetch author (followers author) Fit) where
  abbrev pub owed : (FanoutJob → Bool) → Uuid → Pool S redis.Store → ℕ
  owed p u s = sum_of (share followers p u) s.queue.jobs + sum_of (owes followers p u) s.workers

  -- What holds after every step of a run that started with the store `old`.
  pub record IsBalanced (old : redis.Store) (es : List Event) (s : Pool S redis.Store)
      : Type 0 where
    pub fit : Fit s.remote
    pub pages : All (IsPage followers) s.workers
    pub balanced :
        (p : FanoutJob → Bool) (u : Uuid)
        → pushes p u es + owed p u s + missed followers p u es ≡ due followers p u es
    -- Nothing is missed before the end of the context.
    pub unmissed :
        (s.cancelled ≡ true) ⊎ ((p : FanoutJob → Bool) (u : Uuid) → missed followers p u es ≡ 0)
    pub timelines :
        (u : Uuid)
        → redis.list_at (timeline_key (uuids.show u)) s.store
          ≡ take timeline_max_len
              (arrivals uuids u es ++ redis.list_at (timeline_key (uuids.show u)) old)

  -- A page in hand is owed as it was before the fetch.
  fetched_page :
      (p : FanoutJob → Bool) (u : Uuid) (job : FanoutJob) (after : Option Uuid) (rest : List Uuid)
      → rest_after after (followers job.author_id) ≡ rest
      → owes followers p u (after_fetch job (ok (take fanout_page_size rest)))
        ≡ owes followers p u (fetching job after)
  fetched_page p u job after [] e = rw e (none_due (p job))
  fetched_page p u job after (x ∷ ys) e =
      let is = λ (id : Uuid). id == u in
      let ids = take (fanout_page_size - 1) ys in
      let next : rest_after (some (last x ids)) (followers job.author_id)
          ≡ drop (fanout_page_size - 1) ys =
        rest_after-next (fanout_page_size - 1) x ys after (followers job.author_id)
          (v job.author_id).rising e in
      ap (when (p job)) (
        ap (λ zs. count is (x ∷ ids) + count is zs) next
        ∙ sym (count-append is (x ∷ ids) (drop (fanout_page_size - 1) ys))
        ∙ ap (λ zs. count is (x ∷ zs)) (take-append-drop (fanout_page_size - 1) ys)
        ∙ ap (count is) (sym e))

  fetched-IsPage :
      (job : FanoutJob) (after : Option Uuid) (rest : List Uuid)
      → rest_after after (followers job.author_id) ≡ rest
      → IsPage followers (after_fetch job (ok (take fanout_page_size rest)))
  fetched-IsPage job after [] e = tt
  fetched-IsPage job after (x ∷ ys) e = (after, ys, e, refl)

  -- What is owed after a page is what is behind its last entry.
  after_push-owes :
      (p : FanoutJob → Bool) (u : Uuid) (job : FanoutJob) (id : Uuid) (ids : List Uuid)
      → IsPage followers (pushing job id ids)
      → owes followers p u (after_push job id ids)
        ≡ owes followers p u (fetching job (some (last id ids)))
  after_push-owes p u job id ids (after, ys, e, cut) =
      elim (Bool-cases (ltb (length (id ∷ ids)) fanout_page_size)) [
        | inr full ↦ rw full refl
        | inl short ↦ rw short (
            none_due (p job)
            ∙ ap (λ zs. when (p job) (count (λ x. x == u) zs))
                (sym (short_page (fanout_page_size - 1) id ys (rw cut at short))
                  ∙ sym (
                      rest_after-next (fanout_page_size - 1) id ys after (followers job.author_id)
                        (v job.author_id).rising e)
                  ∙ ap (λ zs. rest_after (some (last id zs)) (followers job.author_id)) (sym cut)))
      ]

  -- Pushing a page pays for it.
  pushed_page :
      (p : FanoutJob → Bool) (u : Uuid) (job : FanoutJob) (id : Uuid) (ids : List Uuid)
      → IsPage followers (pushing job id ids)
      → when (p job) (count (λ x. x == u) (id ∷ ids)) + owes followers p u (after_push job id ids)
        ≡ owes followers p u (pushing job id ids)
  pushed_page p u job id ids page =
      ap (λ n. when (p job) (count (λ x. x == u) (id ∷ ids)) + n)
        (after_push-owes p u job id ids page)
      ∙ sym (when-add (p job) _ _)

  pushed-IsPage :
      (job : FanoutJob) (id : Uuid) (ids : List Uuid) → IsPage followers (after_push job id ids)
  pushed-IsPage job id ids = elim (Bool-cases (ltb (length (id ∷ ids)) fanout_page_size)) [
    | inl short ↦ rw short tt
    | inr full ↦ rw full tt
  ]

  held-IsRising :
      (job : FanoutJob) (id : Uuid) (ids : List Uuid)
      → IsPage followers (pushing job id ids)
      → IsRising (id ∷ ids)
  held-IsRising job id ids (after, ys, e, cut) =
      subst (λ zs. IsRising (id ∷ zs)) (sym cut)
        (page-IsRising (fanout_page_size - 1) id ys after (followers job.author_id)
          (v job.author_id).rising e)

  module _ (old : redis.Store) {es : List Event} (s : Pool S redis.Store)
      (b : IsBalanced old es s) where
    sent :
        (job : FanoutJob)
        → IsBalanced old (seen_as job s.queue ∷ es) (record s { queue = enqueue job s.queue })
    unfolding enqueue
    sent job = elim (Bool-cases (ltb (length s.queue.jobs) s.queue.buf_size)) [
      | inl fits ↦ rw fits (record {
        fit = b.fit;
        pages = b.pages;
        balanced = λ p u.
            omega
              (arith, b.balanced p u, sum_of-append (share followers p u) s.queue.jobs (job ∷ []));
        unmissed = b.unmissed;
        timelines = b.timelines;
      })
      | inr full ↦ rw full (record {
        fit = b.fit;
        pages = b.pages;
        balanced = b.balanced;
        unmissed = b.unmissed;
        timelines = b.timelines;
      })
    ]

    took :
        (i : ℕ) {job : FanoutJob} {rest : List FanoutJob}
        → get_elem? s.workers i ≡ some blocked
        → s.queue.jobs ≡ job ∷ rest
        → IsBalanced old (taken job ∷ es) (record s {
          queue = record { jobs = rest; buf_size = s.queue.buf_size };
          workers = replace i (fetching job none) s.workers;
        })
    took i {job} {rest} at next = record {
      fit = b.fit;
      pages = All-replace (IsPage followers) i (fetching job none) s.workers tt b.pages;
      balanced = λ p u. omega (
        arith,
        b.balanced p u,
        ap (sum_of (share followers p u)) next,
        sum_of-replace (owes followers p u) i (fetching job none) s.workers at,
      );
      unmissed = b.unmissed;
      timelines = b.timelines;
    }

    got_page :
        (i : ℕ) {job : FanoutJob} {after : Option Uuid}
        → get_elem? s.workers i ≡ some (fetching job after)
        → IsBalanced old (fetched ∷ es) (record s {
          workers =
              replace i
                (after_fetch job (fetch job.author_id fanout_page_size after s.remote).0)
                s.workers;
          remote = (fetch job.author_id fanout_page_size after s.remote).1;
        })
    got_page i {job} {after} at =
        let rest = rest_after after (followers job.author_id) in
        let page : Worker = after_fetch job (ok (take fanout_page_size rest)) in
        let (serves, fit') = (v job.author_id).serves after s.remote b.fit in
        rw serves (record {
          fit = fit';
          pages =
              All-replace (IsPage followers) i page s.workers (fetched-IsPage job after rest refl)
                b.pages;
          balanced = λ p u. omega (
            arith,
            b.balanced p u,
            fetched_page p u job after rest refl,
            sum_of-replace (owes followers p u) i page s.workers at,
          );
          unmissed = b.unmissed;
          timelines = b.timelines;
        })

    pushed_on :
        (i : ℕ) {job : FanoutJob} {id : Uuid} {ids : List Uuid}
        → get_elem? s.workers i ≡ some (pushing job id ids)
        → IsBalanced old (pushed job (id ∷ ids) ∷ es) (record s {
          workers = replace i (after_push job id ids) s.workers;
          store = push_page uuids redis fetch (uuids.show job.tweet_id) (id ∷ ids) s.store;
        })
    pushed_on i {job} {id} {ids} at =
        let page = All-at (IsPage followers) i s.workers at b.pages in
        record {
          fit = b.fit;
          pages =
              All-replace (IsPage followers) i (after_push job id ids) s.workers
                (pushed-IsPage job id ids) b.pages;
          balanced = λ p u. omega (
            arith,
            b.balanced p u,
            pushed_page p u job id ids page,
            sum_of-replace (owes followers p u) i (after_push job id ids) s.workers at,
          );
          unmissed = b.unmissed;
          timelines = λ u.
              let key = timeline_key (uuids.show u) in
              let tweet = uuids.show job.tweet_id in
              redis.pipeline-list (push_all uuids tweet (id ∷ ids)) key s.store
                ((v job.author_id).runs (push_all uuids tweet (id ∷ ids)) s.store)
              ∙ push_all-timeline uuids tweet u (id ∷ ids) (redis.list_at key s.store)
                  (held-IsRising job id ids page)
              ∙ arrive tweet (any (λ x. x == u) (id ∷ ids)) (redis.list_at key s.store)
                  (arrivals uuids u es) (redis.list_at key old) (b.timelines u);
        }

    handed :
        (i : ℕ) (job : FanoutJob)
        → get_elem? s.workers i ≡ some blocked
        → IsBalanced old
            (accepted job ∷ es)
            (record s { workers = replace i (fetching job none) s.workers })
    handed i job at = record {
      fit = b.fit;
      pages = All-replace (IsPage followers) i (fetching job none) s.workers tt b.pages;
      balanced = λ p u. omega (
        arith,
        b.balanced p u,
        sum_of-replace (owes followers p u) i (fetching job none) s.workers at,
      );
      unmissed = b.unmissed;
      timelines = b.timelines;
    }

    missed_page :
        (i : ℕ) {job : FanoutJob} {after : Option Uuid}
        → get_elem? s.workers i ≡ some (fetching job after)
        → s.cancelled ≡ true
        → IsBalanced old (unfetched job after ∷ es) (record s {
          workers = replace i blocked s.workers;
          remote = (fetch job.author_id fanout_page_size after s.remote).1;
        })
    missed_page i {job} {after} at off = record {
      fit = ((v job.author_id).serves after s.remote b.fit).1;
      pages = All-replace (IsPage followers) i blocked s.workers tt b.pages;
      balanced = λ p u.
          omega (arith, b.balanced p u, sum_of-replace (owes followers p u) i blocked s.workers at);
      unmissed = inl off;
      timelines = b.timelines;
    }

    missed_push :
        (i : ℕ) {job : FanoutJob} {id : Uuid} {ids : List Uuid}
        → get_elem? s.workers i ≡ some (pushing job id ids)
        → s.cancelled ≡ true
        → IsBalanced old
            (unpushed job (id ∷ ids) ∷ es)
            (record s { workers = replace i (after_push job id ids) s.workers })
    missed_push i {job} {id} {ids} at off =
        let page = All-at (IsPage followers) i s.workers at b.pages in
        record {
          fit = b.fit;
          pages =
              All-replace (IsPage followers) i (after_push job id ids) s.workers
                (pushed-IsPage job id ids) b.pages;
          balanced = λ p u. omega (
            arith,
            b.balanced p u,
            pushed_page p u job id ids page,
            sum_of-replace (owes followers p u) i (after_push job id ids) s.workers at,
          );
          unmissed = inl off;
          timelines = b.timelines;
        }

    pub Step-IsBalanced :
        {e : Event} {t : Pool S redis.Store}
        → Step uuids redis fetch s e t
        → IsBalanced old (e ∷ es) t
    Step-IsBalanced (send job) = sent job
    Step-IsBalanced (take_job i at next) = took i at next
    Step-IsBalanced (hand_over i job bare at) = handed i job at
    Step-IsBalanced (fetch_page i at on) = got_page i at
    Step-IsBalanced (fail_fetch i at off) = missed_page i at off
    Step-IsBalanced (push i at on) = pushed_on i at
    Step-IsBalanced (fail_push i at off) = missed_push i at off
    Step-IsBalanced (cancel on) = record {
      fit = b.fit;
      pages = b.pages;
      balanced = b.balanced;
      unmissed = inl refl;
      timelines = b.timelines;
    }
    Step-IsBalanced (leave i at off) = record {
      fit = b.fit;
      pages = All-replace (IsPage followers) i returned s.workers tt b.pages;
      balanced = λ p u.
          omega
            (arith, b.balanced p u, sum_of-replace (owes followers p u) i returned s.workers at);
      unmissed = b.unmissed;
      timelines = b.timelines;
    }

  pub Run-IsBalanced :
      (old : redis.Store) {es : List Event} {s : Pool S redis.Store} {es' : List Event}
      {t : Pool S redis.Store}
      → IsBalanced old es s
      → Run uuids redis fetch s es' t
      → IsBalanced old (es' ++ es) t
  Run-IsBalanced old b start = b
  Run-IsBalanced old b (later {t} run step) = Step-IsBalanced old t (Run-IsBalanced old b run) step

  pub started-IsBalanced :
      (buf_size worker_count : ℕ) (remote : S) (store : redis.Store)
      → Fit remote
      → ((u : Uuid) → length (redis.list_at (timeline_key (uuids.show u)) store) ≤ timeline_max_len)
      → IsBalanced store [] (started buf_size worker_count remote store)
  started-IsBalanced buf_size worker_count remote store fit short = record {
    fit = fit;
    pages = All-replicate (IsPage followers) worker_count blocked tt;
    balanced = λ p u. idle worker_count p u;
    unmissed = inr (λ p u. refl);
    timelines = λ u. sym (take_all timeline_max_len _ (short u));
  }
    where
      idle :
          (n : ℕ) (p : FanoutJob → Bool) (u : Uuid)
          → 0 + (0 + sum_of (owes followers p u) (replicate n blocked)) + 0 ≡ 0
      idle zero p u = omega arith
      idle (suc n) p u = omega (arith, idle n p u)
