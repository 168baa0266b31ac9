-- ===== src/Tweet/Fanout/Followers.antt =====
-- The fan-out over the follower pages of internal/user/repository.go, as cmd/tweet/main.go wires them.
use mini_twitter.Common.{
  ℕ, suc, ◌⊎◌, inl, inr, Result, err, Error, ◌*◌, ◌<◌, ◌≤◌, ◌≡◌, refl, ap, ◌∙◌, Option, none, some,
  List, [], ◌∷◌, ok, length, take, select, any, count, sort, sort-select, sort-IsRising,
  length-sort, any-sort, IsRising, arith, ltb, ◌==◌, if◌then◌else◌,
}
use mini_twitter.Schema.{Uuid, Follow}
use mini_twitter.Db.{Pool, primary, replica, reader}
use mini_twitter.Postgres.{Server, Cluster, shown, Verdict, answered, refused, lost, settle}
use mini_twitter.User.Statements.{is_follow, followers_of, select_follower_ids}
use mini_twitter.User.Repository.{get_follower_ids}
use mini_twitter.Postgres.Answered.{IsUp}
use mini_twitter.Cache.{timeline_key}
use mini_twitter.Cache.Redis.{Redis, Uuids, Cmd}
use mini_twitter.Tweet.Fanout.{FanoutJob, fanout, fanout_page_size, timeline_max_len}
use mini_twitter.Tweet.Fanout.Delivery.{IsServing, rest_after, fanout_delivers}

-- The primary and all copies hold these rows in `follows`.
pub record IsInSync (fs : List Follow) (c : Cluster) : Type 0 where
  pub at_primary : c.tables.follows ≡ fs
  pub at_copies : (i : ℕ) → (c.copy i).follows ≡ fs

shown-IsInSync :
    (fs : List Follow) (c : Cluster) (p : Pool) → IsInSync fs c → (shown p c).follows ≡ fs
shown-IsInSync fs c primary v = v.at_primary
shown-IsInSync fs c (replica i) v = v.at_copies i

-- A page of followers, behind a cursor or not, is a page of the sorted list of all.
pub get_follower_ids_page :
    (server : Server) (author : Uuid) (limit : ℕ) (fs : List Follow) (after : Option Uuid)
    (c : Cluster)
    → IsUp server
    → IsInSync fs c
    → let (r, c') = get_follower_ids server author limit after c in
      (r ≡ ok (take limit (rest_after after (sort (followers_of author fs))))) × IsInSync fs c'
unfolding get_follower_ids
get_follower_ids_page server author limit fs none c up v = rw (up c.trips) (
  ap (λ gs. ok (take limit (sort (followers_of author gs))))
      (shown-IsInSync fs c (reader c.db).0 v),
  record { at_primary = v.at_primary; at_copies = v.at_copies },
)
get_follower_ids_page server author limit fs (some a) c up v = rw (up c.trips) (
  ap (λ gs. ok (take limit (sort (select (ltb a) (followers_of author gs)))))
        (shown-IsInSync fs c (reader c.db).0 v)
      ∙ ap (λ zs. ok (take limit zs)) (sort-select (ltb a) (followers_of author fs)),
  record { at_primary = v.at_primary; at_copies = v.at_copies },
)

-- Whatever becomes of a round trip, its answer is what was asked for or an error.
settled :
    (fs : List Follow) (v : Verdict) (r : Result (List Uuid)) (after before : Cluster)
    → IsInSync fs after
    → IsInSync fs before
    → let (answer, c) = settle v (r, after) before in
      ((answer ≡ r) ⊎ ((e : Error) × (answer ≡ err e))) × IsInSync fs c
settled fs answered r after before a b = (inl refl, a)
settled fs (refused e) r after before a b = (inr (e, refl), b)
settled fs (lost e) r after before a b = (inr (e, refl), a)

-- With any server, a call is answered with a page of the sorted list of all, or with an error.
pub get_follower_ids_answers :
    (server : Server) (author : Uuid) (limit : ℕ) (fs : List Follow) (after : Option Uuid)
    (c : Cluster)
    → IsInSync fs c
    → let (r, c') = get_follower_ids server author limit after c in
      ((r ≡ ok (take limit (rest_after after (sort (followers_of author fs)))))
        ⊎ ((e : Error) × (r ≡ err e)))
      × IsInSync fs c'
unfolding get_follower_ids
get_follower_ids_answers server author limit fs after c v =
    let tables = shown (reader c.db).0 c in
    let c' = record c { db = (reader c.db).1; trips = suc c.trips } in
    let same : IsInSync fs c' = record { at_primary = v.at_primary; at_copies = v.at_copies } in
    let (answer, sync) =
      settled fs (server.verdict c.trips) (select_follower_ids author limit after tables) c' c' same
        same in
    (elim answer [ inl asked ↦ inl (asked ∙ page after) | inr failed ↦ inr failed ], sync)
  where
    page :
        (after : Option Uuid)
        → select_follower_ids author limit after (shown (reader c.db).0 c)
          ≡ ok (take limit (rest_after after (sort (followers_of author fs))))
    page none =
        ap (λ gs. ok (take limit (sort (followers_of author gs))))
          (shown-IsInSync fs c (reader c.db).0 v)
    page (some a) =
        ap (λ gs. ok (take limit (sort (select (ltb a) (followers_of author gs)))))
          (shown-IsInSync fs c (reader c.db).0 v)
        ∙ ap (λ zs. ok (take limit zs)) (sort-select (ltb a) (followers_of author fs))

pub count-followers_of :
    (u author : Uuid) (fs : List Follow)
    → count (λ x. x == u) (followers_of author fs) ≡ count (is_follow u author) fs
count-followers_of u author [] = refl
count-followers_of u author (f ∷ fs) = ground (arith, count-followers_of u author fs)

any-followers_of :
    (u author : Uuid) (fs : List Follow)
    → any (λ x. x == u) (followers_of author fs) ≡ any (is_follow u author) fs
any-followers_of u author [] = refl
any-followers_of u author (f ∷ fs) = ground (arith, any-followers_of u author fs)

pub followers-IsRising :
    (author : Uuid) (fs : List Follow)
    → ((f g : Uuid) → count (is_follow f g) fs ≤ 1)
    → IsRising (sort (followers_of author fs))
followers-IsRising author fs keyed =
    sort-IsRising (followers_of author fs) λ v. rw (count-followers_of v author fs) (keyed v author)

-- With a server that answers, replicas that have caught up, distinct follow rows, a Redis that runs
-- every pipeline, and fuel for every page of followers, the fan-out of a tweet ends without an
-- error. Then exactly the timelines of the users with a row that follows the author begin with the
-- tweet, cut to 1000 entries, and every other timeline is as it was.
pub fanout_reaches_followers :
    (server : Server) (uuids : Uuids) (redis : Redis) (job : FanoutJob) (fuel : ℕ) (c : Cluster)
    (store : redis.Store) (fs : List Follow)
    → IsUp server
    → IsInSync fs c
    → ((f g : Uuid) → count (is_follow f g) fs ≤ 1)
    → ((cs : List Cmd) (s : redis.Store) → (redis.pipeline cs s).0 ≡ ok tt)
    → length (followers_of job.author_id fs) < fuel * fanout_page_size
    → (c' : Cluster) × (store' : redis.Store) × (fanout uuids redis
          (get_follower_ids server)
          fuel
          job
          c
          store
        ≡ some (ok tt, c', store'))
      × ((u : Uuid)
          → let key = timeline_key (uuids.show u) in
            redis.list_at key store' ≡ (
              if any (is_follow u job.author_id) fs
              then take timeline_max_len (uuids.show job.tweet_id ∷ redis.list_at key store)
              else redis.list_at key store))
fanout_reaches_followers server uuids redis job fuel c store fs up sync keyed runs enough =
    let all = sort (followers_of job.author_id fs) in
    let v : IsServing redis (get_follower_ids server) job.author_id all (IsInSync fs) = record {
      rising = followers-IsRising job.author_id fs keyed;
      serves = λ after s fit.
          get_follower_ids_page server job.author_id fanout_page_size fs after s up fit;
      runs = runs;
    } in
    let (c', store', ends, timelines, _) =
      fanout_delivers uuids redis (get_follower_ids server) job all (IsInSync fs) v fuel c store
        (rw (length-sort (followers_of job.author_id fs)) enough) sync in
    (
      c',
      store',
      ends,
      λ u.
          timelines u
          ∙ ap
              (λ b.
                if b
                then take timeline_max_len
                    (uuids.show job.tweet_id ∷ redis.list_at (timeline_key (uuids.show u)) store)
                else redis.list_at (timeline_key (uuids.show u)) store)
              (any-sort (λ x. x == u) (followers_of job.author_id fs)
                ∙ any-followers_of u job.author_id fs),
    )
