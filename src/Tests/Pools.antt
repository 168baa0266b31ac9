-- ===== src/Tests/Pools.antt =====
-- One tweet through the worker pool.
use mini_twitter.Common.{
  ◌*◌, ◌<◌, ◌⊎◌, Result, external, ◌+◌, ◌≤◌, ◌≡◌, refl, Bool, true, sum_of, List, [], ◌∷◌, ◌++◌,
  some, take, length, sort, All, arith,
}
use mini_twitter.Schema.{Uuid}
use mini_twitter.Postgres.{Server, Cluster, refused}
use mini_twitter.Db.{reader}
use mini_twitter.Cache.{timeline_key}
use mini_twitter.User.Repository.{get_follower_ids}
use mini_twitter.Tweet.Fanout.{fanout_page_size, FanoutJob, fanout, enqueue, timeline_max_len}
use mini_twitter.Tweet.Fanout.Followers.{IsInSync}
use mini_twitter.Tweet.Fanout.Pool.{
  Pool, started, Event, accepted, taken, fetched, pushed, Run, start, later, send, take_job,
  fetch_page, push, fail_push, cancel, leave, stopped, unpushed, seen_as,
}
use mini_twitter.Tweet.Fanout.Pool.Account.{missed, share, pushes, arrivals}
use mini_twitter.Tweet.Fanout.Pool.Delivered.{IsDrained}
use mini_twitter.Tweet.Fanout.Pool.Draining.{own_steps, brought, pool_turns_bounded}
use mini_twitter.Tweet.Fanout.Pool.Alone.{Reaches, worker_runs_fanout}
use mini_twitter.Tweet.Fanout.Pool.Followers.{
  sorted_followers, paging, follows_due, pool_reaches_followers,
}
use mini_twitter.Tweet.Fanout.Pool.Stopped.{IsReturned, shutdown_loses_queued}
use mini_twitter.Tests.Instances.{Memory, memory, no_data, numbered, live, live-IsUp, pipeline_runs}
use mini_twitter.Tests.Users.{friends, friends-keyed, cluster_of}

abbrev by_eve : FanoutJob
by_eve = record { tweet_id = 10; author_id = 2 }

-- No replicas: reads go to the primary.
abbrev alone : Cluster
alone = record (cluster_of friends) { db = record { healthy = []; counter = 0 } }

alone-IsInSync : IsInSync friends.follows alone
alone-IsInSync = record { at_primary = refl; at_copies = λ i. refl }

abbrev first : Pool Cluster Memory
first = started 4 2 alone no_data

abbrev RunOf : List Event → Pool Cluster Memory → Type 0
RunOf = Run numbered memory (get_follower_ids live) first

abbrev sent : (s : Pool Cluster Memory) × RunOf (accepted by_eve ∷ []) s
sent = (_, later start (send by_eve))

abbrev events : List Event
events = pushed by_eve (1 ∷ []) ∷ fetched ∷ taken by_eve ∷ accepted by_eve ∷ []

pooled : (s : Pool Cluster Memory) × RunOf events s × IsDrained s
unfolding enqueue get_follower_ids reader sort
pooled = (
  _,
  later (later (later (later start (send by_eve)) (take_job 1 refl refl)) (fetch_page 1 refl refl))
      (push 1 refl refl),
  record { no_jobs = refl; idle = (tt, (tt, tt)) },
)

short_lists :
    (u : Uuid) → length (memory.list_at (timeline_key (numbered.show u)) no_data) ≤ timeline_max_len
short_lists u = omega arith

pool_reaches_followers_example :
    ((p : FanoutJob → Bool)
      → pushes p 1 events + missed (sorted_followers friends.follows) p 1 events
        ≡ follows_due friends.follows p 1 events)
    × ((pooled.0.cancelled ≡ true)
        ⊎ ((p : FanoutJob → Bool) → pushes p 1 events ≡ follows_due friends.follows p 1 events))
    × (memory.list_at (timeline_key (numbered.show 1)) pooled.0.store
        ≡ take timeline_max_len
            (arrivals numbered 1 events ++ memory.list_at (timeline_key (numbered.show 1)) no_data))
pool_reaches_followers_example =
    pool_reaches_followers live numbered memory friends.follows live-IsUp friends-keyed
      pipeline_runs 4 2 alone no_data alone-IsInSync short_lists pooled.1 pooled.2 1

pool_turns_bounded_example :
    own_steps events ≤ brought (sorted_followers friends.follows) events + 2 + 1
pool_turns_bounded_example =
    pool_turns_bounded numbered memory (get_follower_ids live) (sorted_followers friends.follows)
      (IsInSync friends.follows) (paging live friends.follows friends-keyed) 4 2 alone no_data
      alone-IsInSync pooled.1

-- A job of eve's waits, and no fetch is answered.
abbrev mute : Server
mute = record live { verdict = λ n. refused (external n) }

abbrev waiting : Pool Cluster Memory
waiting = record first { queue = record { jobs = by_eve ∷ []; buf_size = 4 } }

one_page : length (sorted_followers friends.follows 2) < 1 * fanout_page_size
unfolding sort
one_page = omega arith

worker_runs_fanout_example :
    let reaches = Reaches numbered memory (get_follower_ids mute) 0 waiting in
    (r : Result (Unit {0})) × (c : Cluster) × (store : Memory) × (fanout numbered memory
        (get_follower_ids mute)
        1
        by_eve
        alone
        no_data
      ≡ some (r, c, store))
    × reaches
        (record waiting { queue = record { jobs = []; buf_size = 4 }; remote = c; store = store })
worker_runs_fanout_example =
    worker_runs_fanout numbered memory (get_follower_ids mute) by_eve
      (sorted_followers friends.follows 2) (IsInSync friends.follows)
      (paging mute friends.follows friends-keyed 2) waiting 0 1 [] refl refl refl alone-IsInSync
      one_page

-- A worker has a page in hand when the context ends, and another job waits; both workers leave, and
-- one more job comes.
abbrev again_by_eve : FanoutJob
again_by_eve = record { tweet_id = 11; author_id = 2 }

abbrev last_events : List Event
last_events =
    stopped
    ∷ stopped
    ∷ unpushed by_eve (1 ∷ [])
    ∷ stopped
    ∷ accepted again_by_eve
    ∷ fetched
    ∷ taken by_eve
    ∷ accepted by_eve
    ∷ []

left :
    (s : Pool Cluster Memory) × RunOf last_events s
    × All IsReturned s.workers
    × (s.queue.jobs ≡ again_by_eve ∷ [])
unfolding enqueue get_follower_ids reader sort
left = (
  _,
  later
      (later
        (later
          (later
            (later
              (later (later (later start (send by_eve)) (take_job 0 refl refl))
                (fetch_page 0 refl refl))
              (send again_by_eve))
            (cancel refl))
          (fail_push 0 refl refl))
        (leave 0 refl refl))
      (leave 1 refl refl),
  (tt, (tt, tt)),
  refl,
)

shutdown_loses_queued_example :
    pushes (λ job. true) 1 (seen_as by_eve left.0.queue ∷ last_events)
      + missed (sorted_followers friends.follows) (λ job. true) 1 last_events
      + sum_of (share (sorted_followers friends.follows) (λ job. true) 1) left.0.queue.jobs
    ≡ follows_due friends.follows (λ job. true) 1 last_events
shutdown_loses_queued_example =
    shutdown_loses_queued live numbered memory friends.follows live-IsUp friends-keyed pipeline_runs
      4 2 alone no_data alone-IsInSync short_lists left.1 left.2 (later start (send by_eve))
      (λ job. true) 1

-- Both bits of loss, in numbers: a page that was not pushed and a job in the channel.
losses :
    (missed (sorted_followers friends.follows) (λ job. true) 1 last_events ≡ 1)
    × (sum_of (share (sorted_followers friends.follows) (λ job. true) 1) (again_by_eve ∷ []) ≡ 1)
unfolding sort
losses = (refl, refl)
