-- ===== src/Tweet/Fanout/Pool/Followers.antt =====
-- The worker pool over the follower pages of internal/user/repository.go, as cmd/tweet/main.go wires it.
use mini_twitter.Common.{
  ℕ, ◌+◌, ◌⊎◌, inl, inr, true, ◌≤◌, ◌≡◌, refl, ap₂, ◌∙◌, Bool, List, [], ◌∷◌, ◌++◌, ok, length,
  take, count, sort, count-sort, ◌==◌,
}
use mini_twitter.Schema.{Uuid, Follow}
use mini_twitter.Cache.{timeline_key}
use mini_twitter.Cache.Redis.{Redis, Uuids, Cmd}
use mini_twitter.Postgres.{Server, Cluster}
use mini_twitter.Postgres.Answered.{IsUp}
use mini_twitter.User.Statements.{is_follow, followers_of}
use mini_twitter.User.Repository.{get_follower_ids}
use mini_twitter.Tweet.Fanout.{FanoutJob, fanout_page_size, timeline_max_len}
use mini_twitter.Tweet.Fanout.Delivery.{IsServing, IsPaging}
use mini_twitter.Tweet.Fanout.Followers.{
  IsInSync, get_follower_ids_page, get_follower_ids_answers, count-followers_of, followers-IsRising,
}
use mini_twitter.Tweet.Fanout.Pool.{
  Pool, started, Event, accepted, dropped, taken, fetched, pushed, unfetched, unpushed, stopped,
  Run,
}
use mini_twitter.Tweet.Fanout.Pool.Account.{missed, when, due, pushes, arrivals}
use mini_twitter.Tweet.Fanout.Pool.Delivered.{IsDrained, pool_delivers}

-- Over the accepted jobs that are chosen: how many rows say that a user follows the author.
abbrev pub follows_due : List Follow → (FanoutJob → Bool) → Uuid → List Event → ℕ
follows_due fs p u [] = 0
follows_due fs p u (accepted job ∷ es) =
    when (p job) (count (is_follow u job.author_id) fs) + follows_due fs p u es
follows_due fs p u (e ∷ es) = follows_due fs p u es

abbrev pub sorted_followers : List Follow → Uuid → List Uuid
sorted_followers fs author = sort (followers_of author fs)

count-sorted_followers :
    (fs : List Follow) (u author : Uuid)
    → count (λ id. id == u) (sorted_followers fs author) ≡ count (is_follow u author) fs
count-sorted_followers fs u author =
    count-sort (λ id. id == u) (followers_of author fs) ∙ count-followers_of u author fs

pub due-follows :
    (fs : List Follow) (p : FanoutJob → Bool) (u : Uuid) (es : List Event)
    → due (sorted_followers fs) p u es ≡ follows_due fs p u es
due-follows fs p u [] = refl
due-follows fs p u (accepted job ∷ es) =
    ap₂ (λ m n. when (p job) m + n) (count-sorted_followers fs u job.author_id)
      (due-follows fs p u es)
due-follows fs p u (dropped job ∷ es) = due-follows fs p u es
due-follows fs p u (taken job ∷ es) = due-follows fs p u es
due-follows fs p u (fetched ∷ es) = due-follows fs p u es
due-follows fs p u (pushed job ids ∷ es) = due-follows fs p u es
due-follows fs p u (unfetched job after ∷ es) = due-follows fs p u es
due-follows fs p u (unpushed job ids ∷ es) = due-follows fs p u es
due-follows fs p u (stopped ∷ es) = due-follows fs p u es

-- Also a server that fails serves pages or errors.
abbrev pub paging :
    (server : Server) (fs : List Follow) (keyed : (f g : Uuid) → count (is_follow f g) fs ≤ 1)
    (author : Uuid)
    → IsPaging (get_follower_ids server) author (sorted_followers fs author) (IsInSync fs)
paging server fs keyed author = record {
  rising = followers-IsRising author fs keyed;
  answers = λ after s fit. get_follower_ids_answers server author fanout_page_size fs after s fit;
}

module _ (server : Server) (uuids : Uuids) (redis : Redis) (fs : List Follow) (up : IsUp server)
    (keyed : (f g : Uuid) → count (is_follow f g) fs ≤ 1)
    (runs : (cs : List Cmd) (s : redis.Store) → (redis.pipeline cs s).0 ≡ ok tt) where
  abbrev pub serving :
      (author : Uuid)
      → IsServing redis (get_follower_ids server) author (sorted_followers fs author) (IsInSync fs)
  serving author = record {
    rising = followers-IsRising author fs keyed;
    serves = λ after s fit. get_follower_ids_page server author fanout_page_size fs after s up fit;
    runs = runs;
  }

  -- With a server that answers, replicas that have caught up, distinct follow rows, a Redis that runs
  -- every pipeline, each as long as the context has not ended, and timelines of at most 1000 entries
  -- at the start: after any run of the pool, with any number of workers and in any interleaving, in
  -- which no job is left, the tweets of the accepted jobs have been pushed to each user, or missed
  -- because the context had ended, together exactly as often as there are rows by which the user
  -- follows the jobs' authors, for any choice of jobs; and unless the context has ended, they have
  -- been pushed exactly as often. Each timeline holds the tweets pushed to it, the last one first,
  -- before what it held at the start, cut to 1000 entries.
  pub pool_reaches_followers :
      (buf_size worker_count : ℕ) (c : Cluster) (store : redis.Store) {es : List Event}
      {s : Pool Cluster redis.Store}
      → IsInSync fs c
      → ((u : Uuid) → length (redis.list_at (timeline_key (uuids.show u)) store) ≤ timeline_max_len)
      → Run uuids redis (get_follower_ids server) (started buf_size worker_count c store) es s
      → IsDrained s
      → (u : Uuid)
      → ((p : FanoutJob → Bool)
          → pushes p u es + missed (sorted_followers fs) p u es ≡ follows_due fs p u es)
        × ((s.cancelled ≡ true) ⊎ ((p : FanoutJob → Bool) → pushes p u es ≡ follows_due fs p u es))
        × (redis.list_at (timeline_key (uuids.show u)) s.store
            ≡ take timeline_max_len
                (arrivals uuids u es ++ redis.list_at (timeline_key (uuids.show u)) store))
  pool_reaches_followers buf_size worker_count c store {es} sync short run drained u =
      let (paid, whole, timeline) =
        pool_delivers uuids redis (get_follower_ids server) (sorted_followers fs) (IsInSync fs)
          serving buf_size worker_count c store sync short run drained u in
      (
        λ p. paid p ∙ due-follows fs p u es,
        elim whole [ inl ended ↦ inl ended | inr all ↦ inr λ p. all p ∙ due-follows fs p u es ],
        timeline,
      )
