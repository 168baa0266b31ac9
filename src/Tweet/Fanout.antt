-- ===== src/Tweet/Fanout.antt =====
-- internal/tweet/fanout.go: the job queue, and the loop that pushes a tweet into the timelines of its
-- author's followers, page by page.
pub mod Delivery
pub mod Ending
pub mod Followers
pub mod Pool
use mini_twitter.Common.{
  ℕ, zero, suc, ◌*◌, ◌-◌, Option, none, some, List, [], ◌∷◌, ◌++◌, Result, ok, err, wrap, St,
  length, last, ltb, if◌then◌else◌,
}
use mini_twitter.Schema.{Uuid, Bytes}
use mini_twitter.Cache.{timeline_key}
use mini_twitter.Cache.Redis.{Redis, Uuids, Cmd, lpush, ltrim, expire}

abbrev pub timeline_max_len : ℕ
timeline_max_len = 1000

-- 24 hours, in seconds.
abbrev pub timeline_ttl : ℕ
timeline_ttl = 24 * 3600

abbrev pub fanout_page_size : ℕ
fanout_page_size = 500

pub record FanoutJob : Type 0 where
  pub tweet_id : Uuid
  pub author_id : Uuid

-- The interface `FollowerFetcher`: GetFollowerIDs, over a state of its own.
abbrev pub FollowerFetcher : Type 0 → Type 0
FollowerFetcher S = Uuid → ℕ → Option Uuid → St S (List Uuid)

-- What the pipeline holds for one follower, and for a page.
abbrev pub push_to : Uuids → Bytes → Uuid → List Cmd
push_to uuids tweet follower =
    let key = timeline_key (uuids.show follower) in
    lpush key tweet ∷ ltrim key 0 (timeline_max_len - 1) ∷ expire key timeline_ttl ∷ []

abbrev pub push_all : Uuids → Bytes → List Uuid → List Cmd
push_all uuids tweet [] = []
push_all uuids tweet (follower ∷ rest) = push_to uuids tweet follower ++ push_all uuids tweet rest

-- `fw.jobs`, a channel with a buffer; a send that does not fit is dropped. Where the buffer has no room
-- at all, a worker that waits gets the job: this is the step `hand_over` of the pool, which knows the
-- workers, and `enqueue` is the send that finds none of them waiting.
pub record Queue : Type 0 where
  pub jobs : List FanoutJob
  pub buf_size : ℕ

unfoldable pub enqueue : FanoutJob → Queue → Queue
enqueue job q = if ltb (length q.jobs) q.buf_size then record q { jobs = q.jobs ++ job ∷ [] } else q

module _ (uuids : Uuids) (redis : Redis) {S : Type 0} (fetch : FollowerFetcher S) where
  -- One pipeline round; its error is only logged.
  abbrev pub push_page : Bytes → List Uuid → redis.Store → redis.Store
  push_page tweet ids store = (redis.pipeline (push_all uuids tweet ids) store).1

  -- The loop of `fanout`. `none` means that the fuel ran out.
  unfoldable pub fanout_from :
      ℕ → FanoutJob → Option Uuid → S → redis.Store → Option (Result (Unit {0}) × S × redis.Store)
  fanout_from zero job after s store = none
  fanout_from (suc fuel) job after s store =
      let (page, s') = fetch job.author_id fanout_page_size after s in
      elim page [
        | err e ↦ some (err (wrap "get followers" e), s', store)
        | ok [] ↦ some (ok tt, s', store)
        | ok (id ∷ ids) ↦
            let store' = push_page (uuids.show job.tweet_id) (id ∷ ids) store in
            let more = fanout_from fuel job (some (last id ids)) s' store' in
            if ltb (length (id ∷ ids)) fanout_page_size then some (ok tt, s', store') else more
      ]

  unfoldable pub fanout :
      ℕ → FanoutJob → S → redis.Store → Option (Result (Unit {0}) × S × redis.Store)
  unfolding fanout_from
  fanout fuel job = fanout_from fuel job none
