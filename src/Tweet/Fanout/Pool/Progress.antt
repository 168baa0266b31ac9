-- ===== src/Tweet/Fanout/Pool/Progress.antt =====
-- The worker pool of internal/tweet/fanout.go always gets on: while a job is left and the context is not
-- cancelled, some worker has a turn.
use mini_twitter.Common.{ℕ, ◌<◌, ◌≡◌, false, Option, some, List, length, get_elem?, All}
use mini_twitter.Schema.{Uuid}
use mini_twitter.Cache.Redis.{Redis}
use mini_twitter.Tweet.Fanout.{FanoutJob}
use mini_twitter.Tweet.Fanout.Pool.{Worker, fetching, pushing, returned, Pool}
use mini_twitter.Tweet.Fanout.Pool.Delivered.{IsIdle}

-- What the next turn is, if one of the workers is at a job.
data Turn (ws : List Worker) : Type 0 where
  to_fetch :
      (i : ℕ) (job : FanoutJob) (after : Option Uuid)
      → get_elem? ws i ≡ some (fetching job after)
      → Turn ws
  to_push :
      (i : ℕ) (job : FanoutJob) (id : Uuid) (ids : List Uuid)
      → get_elem? ws i ≡ some (pushing job id ids)
      → Turn ws
  none_busy : All IsIdle ws → Turn ws

abbrev IsRunning : Worker → Type 0
IsRunning returned = ⊥
IsRunning w = Unit

-- Before the end of the context, all workers run.
record IsAlive {S Store : Type 0} (s : Pool S Store) : Type 0 where
  some_worker : 0 < length s.workers
  running : s.cancelled ≡ false → All IsRunning s.workers
