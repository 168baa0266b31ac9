-- ===== src/Tweet/Queueing.antt =====
-- The queue of fan-out jobs, as `CreateTweet` of internal/tweet/service.go fills it.
use mini_twitter.Common.{
  suc, ◌≤◌, ◌≡◌, refl, sym, inl, inr, Bool, true, ◌&&◌, ◌||◌, List, [], ◌∷◌, ◌++◌, Result, ok, err,
  violation, Error, subst, Option, Bool-cases, pure, wrapping, ◌>>=◌, ◌>>◌, any, length,
  length-append, ltb, ltb→lt, append-nil, ◌==◌, ==_self, All, All-append, arith,
}
use mini_twitter.Schema.{Uuid, Time, Bytes, Tweet, Tables}
use mini_twitter.Postgres.{Server, Cluster, Verdict, answered, refused, lost, settle}
use mini_twitter.Tweet.Creation.{posted, job_for}
use mini_twitter.Cache.Redis.{Redis, Uuids}
use mini_twitter.User.Statements.{has_user}
use mini_twitter.Tweet.Statements.{has_tweet, may_refer, insert_tweet, is_own}
use mini_twitter.Tweet.Repository.{create}
use mini_twitter.Tweet.Fanout.{FanoutJob, enqueue}
use mini_twitter.Tweet.Service.{Settings, World, new_tweet, create_tweet, enqueue_if}

-- Every job that waits is for a tweet that is stored, by its author, and the buffer is not exceeded.
pub record IsQueued {Store : Type 0} (w : World Store) : Type 0 where
  pub backed :
      All
        (λ job. any (is_own job.tweet_id job.author_id) w.cluster.tables.tweets ≡ true)
        w.queue.jobs
  pub bounded : length w.queue.jobs ≤ w.queue.buf_size

any-append : (p : Tweet → Bool) (xs ys : List Tweet) → any p xs ≡ true → any p (xs ++ ys) ≡ true
any-append p [] ys h = cc
any-append p (x ∷ xs) ys h = ground (arith, any-append p xs ys)

backed-append :
    (ws vs : List Tweet) (jobs : List FanoutJob)
    → All (λ job. any (is_own job.tweet_id job.author_id) ws ≡ true) jobs
    → All (λ job. any (is_own job.tweet_id job.author_id) (ws ++ vs) ≡ true) jobs
backed-append ws vs [] h = tt
backed-append ws vs (job ∷ jobs) h =
    (any-append (is_own job.tweet_id job.author_id) ws vs h.0, backed-append ws vs jobs h.1)

enqueue-IsQueued :
    {Store : Type 0} (tweet author : Uuid) (w : World Store)
    → any (is_own tweet author) w.cluster.tables.tweets ≡ true
    → IsQueued w
    → IsQueued (record w { queue = enqueue (job_for tweet author) w.queue })
unfolding enqueue
enqueue-IsQueued tweet author w stored v =
    elim (Bool-cases (ltb (length w.queue.jobs) w.queue.buf_size)) [
      | inl fits ↦ rw fits (record {
        backed =
            All-append
              (λ job. any (is_own job.tweet_id job.author_id) w.cluster.tables.tweets ≡ true)
              w.queue.jobs (job_for tweet author ∷ []) v.backed (stored, tt);
        bounded = omega (
          arith,
          ltb→lt (length w.queue.jobs) w.queue.buf_size fits,
          length-append w.queue.jobs (job_for tweet author ∷ []),
        );
      })
      | inr full ↦ rw full v
    ]

-- The table only grows, and where an id is returned, a row of this author has it.
abbrev IsGrown : Uuid → List Tweet → List Tweet → Result Uuid → Type 0
IsGrown user old new r =
    ((vs : List Tweet) × (new ≡ old ++ vs))
    × ((id : Uuid) → r ≡ ok id → any (is_own id user) new ≡ true)

abbrev id_of : Result Tweet → Result Uuid
id_of (ok w) = ok w.id
id_of (err e) = err e

abbrev first_of : Result (Uuid × Time) → Result Uuid
first_of (ok x) = ok x.0
first_of (err e) = err e

unchanged : (user : Uuid) (ws : List Tweet) (e : Error) → IsGrown user ws ws (err e)
unchanged user ws e = (([], sym (append-nil ws)), λ id h. absurd cc)

any-last :
    (p : Tweet → Bool) (ws : List Tweet) (w : Tweet) → p w ≡ true → any p (ws ++ w ∷ []) ≡ true
any-last p [] w h = ground (arith, h)
any-last p (v ∷ vs) w h = ground (arith, any-last p vs w h)

insert-IsGrown :
    (id : Uuid) (now : Time) (user : Uuid) (content : Bytes) (reply : Option Uuid) (t : Tables)
    → let (r, t') = insert_tweet id now user content reply t in
      IsGrown user t.tweets t'.tweets (first_of r)
insert-IsGrown id now user content reply t = elim (Bool-cases (has_tweet id t.tweets)) [
  | inl twice ↦ rw twice (unchanged user t.tweets (violation "tweets_pkey"))
  | inr free ↦ elim (Bool-cases (has_user user t.users && may_refer reply t.tweets)) [
    | inr dangling ↦ rw free (rw dangling (unchanged user t.tweets (violation "tweets_fkey")))
    | inl refers ↦
        let row = posted id now user content reply in
        let own : is_own id user row ≡ true = ground (arith, ==_self id, ==_self user) in
        rw free (
          rw refers (
            (row ∷ [], refl),
            λ j h.
                subst (λ z. any (is_own z user) (t.tweets ++ row ∷ []) ≡ true) (same id j h)
                  (any-last (is_own id user) t.tweets row own),
          ))
  ]
]
  where
    same : (i j : Uuid) → ok i ≡ ok j → i ≡ j
    same i j h = cc

create-IsGrown :
    (server : Server) (user : Uuid) (content : Bytes) (reply : Option Uuid) (c : Cluster)
    → let (r, c') = create server (new_tweet user content reply) c in
      IsGrown user c.tables.tweets c'.tables.tweets (id_of r)
unfolding create
create-IsGrown server user content reply c =
    let id = server.new_id c.trips in
    let now = server.now c.trips in
    let stored = insert_tweet id now user content reply c.tables in
    settled (server.verdict c.trips) stored.0 stored.1
      (insert-IsGrown id now user content reply c.tables)
  where
    answer : Result (Uuid × Time) × Cluster → Result Tweet × Cluster
    answer x =
        ((λ v. x) >>= λ a.
        pure (record (new_tweet user content reply) { id = a.0; created_at = a.1 }))
          c

    settled :
        (x : Verdict) (r : Result (Uuid × Time)) (t : Tables)
        → IsGrown user c.tables.tweets t.tweets (first_of r)
        → let (a, c') = answer (
            settle x
              (r, record c { tables = t; trips = suc c.trips })
              (record c { trips = suc c.trips })) in
          IsGrown user c.tables.tweets c'.tables.tweets (id_of a)
    settled answered (ok x) t h = h
    settled answered (err e) t h = h
    settled (refused e) r t h = unchanged user c.tables.tweets e
    settled (lost e) r t h = (h.0, λ id k. absurd cc)

module _ (settings : Settings) (server : Server) (uuids : Uuids) (redis : Redis) where
  -- The cluster changed and the queue did not.
  grown_cluster :
      (user : Uuid) (r : Result Uuid) (c : Cluster) (w : World redis.Store)
      → IsGrown user w.cluster.tables.tweets c.tables.tweets r
      → IsQueued w
      → IsQueued (record w { cluster = c })
  grown_cluster user r c w g v = record {
    backed =
        subst (λ ws. All (λ job. any (is_own job.tweet_id job.author_id) ws ≡ true) w.queue.jobs)
          (sym g.0.1) (backed-append w.cluster.tables.tweets g.0.0 w.queue.jobs v.backed);
    bounded = v.bounded;
  }

  -- What follows the INSERT.
  after_create :
      (user : Uuid) (w : World redis.Store) (x : Result Tweet × Cluster)
      → IsGrown user w.cluster.tables.tweets x.1.tables.tweets (id_of x.0)
      → IsQueued w
      → IsQueued
          ((wrapping "create tweet" (λ v. (x.0, record v { cluster = x.1 })) >>= λ t.
              enqueue_if settings.use_redis t.id user >> pure t)
            w).1
  after_create user w (err e, c) g v = grown_cluster user (err e) c w g v
  after_create user w (ok t, c) g v = elim (Bool-cases settings.use_redis) [
    | inr off ↦ rw off (grown_cluster user (ok t.id) c w g v)
    | inl on ↦ rw on (
        enqueue-IsQueued t.id user (record w { cluster = c }) (g.1 t.id refl)
          (grown_cluster user (ok t.id) c w g v))
  ]

  -- Where every waiting job is for a tweet that is stored, by its author, and the buffer is not
  -- exceeded, the same holds after `CreateTweet`, whatever becomes of the request: also when the
  -- database refuses the row, or stores it and the answer is lost.
  pub create_tweet-IsQueued :
      (user : Uuid) (content : Bytes) (reply : Option Uuid) (w : World redis.Store)
      → IsQueued w
      → IsQueued (create_tweet settings server uuids redis user content reply w).1
  unfolding create_tweet
  create_tweet-IsQueued user content reply w v =
      elim (Bool-cases (length content == 0 || ltb 280 (length content))) [
        | inl bad ↦ rw bad v
        | inr good ↦ rw good (
            after_create user w (create server (new_tweet user content reply) w.cluster)
              (create-IsGrown server user content reply w.cluster) v)
      ]
