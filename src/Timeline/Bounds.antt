-- ===== src/Timeline/Bounds.antt =====
-- How much a page of internal/timeline may hold, whatever the query asks for, the server answers and the
-- replicas show.
use mini_twitter.Common.{
  ℕ, suc, ◌≤◌, ◌≡◌, sym, ap, subst, Bool, true, false, List, [], ◌∷◌, Result, ok, err, St, Option,
  none, some, ℤ, pos, negsuc, length, length-take, Holds, Ensures, >>=-Ensures, wrapping-Ensures,
  wrapping, ◌>>=◌, arith, Result-cases, inl, inr,
}
use mini_twitter.Schema.{Uuid, Time, Bytes, Tweet}
use mini_twitter.Postgres.{Server, Cluster}
use mini_twitter.Cache.{timeline_key}
use mini_twitter.Cache.Redis.{Redis, Uuids}
use mini_twitter.Http.{json, Response, write_json, write_err}
use mini_twitter.User.Statements.{select_followee_ids}
use mini_twitter.Tweet.Statements.{one_of}
use mini_twitter.Timeline.Repository.{
  parsed, hits, get_home_timeline_ids, get_followee_ids, get_home_timeline_from_db, select_page_ids,
}
use mini_twitter.Timeline.Service.{
  clamp, enrich_tweets, read_from_db, read_cached, get_home_timeline, Feed,
}
use mini_twitter.Auth.{Identity}
use mini_twitter.Timeline.Handler.{Numbers, Query, limit_of, parse_pagination_params, home_timeline}
use mini_twitter.Timeline.Home.{Peer, over_network}
use mini_twitter.Timeline.Found.{IsKeyedIn, query-Ensures, select_page_ids-short, enrich-short}

fewer :
    (r : Result (List Tweet)) (m n : ℕ)
    → m ≤ n
    → Holds (λ ws. length ws ≤ m) r
    → Holds (λ ws. length ws ≤ n) r
fewer (ok ws) m n h k = omega (arith, h, k)
fewer (err e) m n h k = tt

-- What the list in Redis yields.
abbrev IsFew : ℕ → Option (List Uuid) → Type 0
IsFew limit none = Unit
IsFew limit (some ids) = length ids ≤ limit

module _ (uuids : Uuids) where
  length-parsed : (xs : List Bytes) → length (parsed uuids xs) ≤ length xs
  length-parsed [] = omega arith
  length-parsed (x ∷ xs) = one_more (uuids.parse x) (parsed uuids xs) (length xs) (length-parsed xs)
    where
      one_more :
          (o : Option Uuid) (ids : List Uuid) (n : ℕ)
          → length ids ≤ n
          → length (elim o [ none ↦ ids | some id ↦ id ∷ ids ]) ≤ suc n
      one_more none ids n h = omega arith
      one_more (some id) ids n h = omega arith

  hits-IsFew : (limit : ℕ) (xs : List Bytes) → length xs ≤ limit → IsFew limit (hits uuids (ok xs))
  hits-IsFew limit [] h = tt
  hits-IsFew limit (x ∷ xs) h = omega (arith, h, length-parsed (x ∷ xs))

module _ (server : Server) (peer : Peer) where
  from_db-short :
      (followees : List Uuid) (limit : ℕ) (before : Option Time) (c : Cluster)
      → IsKeyedIn c
      → Ensures IsKeyedIn
          (λ ids. length ids ≤ limit)
          (get_home_timeline_from_db server followees limit before c)
  unfolding get_home_timeline_from_db
  from_db-short [] limit before c v = (v, omega arith)
  from_db-short (f ∷ fs) limit before c v =
      query-Ensures (λ ids. length ids ≤ limit) server
        (select_page_ids (one_of (f ∷ fs)) limit before) c v
        (λ t k. select_page_ids-short (one_of (f ∷ fs)) limit before t)

  read_from_db-short :
      (user : Uuid) (limit : ℕ) (before : Option Time) (c : Cluster)
      → IsKeyedIn c
      → Ensures IsKeyedIn
          (λ ws. length ws ≤ limit)
          (read_from_db server (over_network server peer) user limit before c)
  unfolding get_followee_ids
  read_from_db-short user limit before c v =
      let ids_from : List Uuid → St Cluster (List Uuid) =
        λ fs. wrapping "db timeline" (get_home_timeline_from_db server fs limit before) in
      let enrich = enrich_tweets (over_network server peer) in
      >>=-Ensures IsKeyedIn (λ (fs : List Uuid). Unit) (λ ws. length ws ≤ limit)
        (wrapping "get followees" (get_followee_ids server user)) (λ fs. ids_from fs >>= enrich) c
        (wrapping-Ensures IsKeyedIn (λ (fs : List Uuid). Unit) "get followees"
          (get_followee_ids server user) c
          (query-Ensures (λ (fs : List Uuid). Unit) server (select_followee_ids user) c v
            (λ t k. tt)))
        (λ fs d any_list k.
          >>=-Ensures IsKeyedIn (λ ids. length ids ≤ limit) (λ ws. length ws ≤ limit) (ids_from fs)
            enrich d
            (wrapping-Ensures IsKeyedIn (λ ids. length ids ≤ limit) "db timeline"
              (get_home_timeline_from_db server fs limit before) d
              (from_db-short fs limit before d k))
            (λ ids e few k'. found_few ids e few (enrich-short server peer ids e k')))
    where
      found_few :
          (ids : List Uuid) (e : Cluster)
          → length ids ≤ limit
          → Ensures IsKeyedIn
              (λ ws. length ws ≤ length ids)
              (enrich_tweets (over_network server peer) ids e)
          → Ensures IsKeyedIn
              (λ ws. length ws ≤ limit)
              (enrich_tweets (over_network server peer) ids e)
      found_few ids e few k =
          (k.0, fewer (enrich_tweets (over_network server peer) ids e).0 (length ids) limit few k.1)

  module _ (uuids : Uuids) (redis : Redis) where
    by_hits :
        (user : Uuid) (limit : ℕ) (before : Option Time) (o : Option (List Uuid))
        (w : Feed redis.Store)
        → IsKeyedIn w.cluster
        → IsFew limit o
        → Holds
            (λ ws. length ws ≤ limit)
            (read_cached server (over_network server peer) true uuids redis user limit before o w).0
    by_hits user limit before none w v few = (read_from_db-short user limit before w.cluster v).1
    by_hits user limit before (some []) w v few =
        (read_from_db-short user limit before w.cluster v).1
    by_hits user limit before (some (id ∷ ids)) w v few =
        fewer (enrich_tweets (over_network server peer) (id ∷ ids) w.cluster).0 (length (id ∷ ids))
          limit few (enrich-short server peer (id ∷ ids) w.cluster v).1

    get_home_timeline-short :
        (use_redis : Bool) (user : Uuid) (limit : ℤ) (before : Option Time) (w : Feed redis.Store)
        → IsKeyedIn w.cluster
        → Holds
            (λ ws. length ws ≤ clamp limit)
            (get_home_timeline server
              (over_network server peer)
              use_redis
              uuids
              redis
              user
              limit
              before
              w).0
    unfolding get_home_timeline get_home_timeline_ids
    get_home_timeline-short false user limit before w v =
        (read_from_db-short user (clamp limit) before w.cluster v).1
    get_home_timeline-short true user limit before w v =
        let key = timeline_key (uuids.show user) in
        by_hits user (clamp limit) before (hits uuids (redis.lrange key (clamp limit) w.store).0) _
          v
          (elim (Result-cases (redis.lrange key (clamp limit) w.store).0) [
            | inr (e, failed) ↦ rw failed tt
            | inl (xs, got) ↦ rw got (
                hits-IsFew uuids (clamp limit) xs (
                  subst (λ ys. length ys ≤ clamp limit)
                    (sym (redis.lrange-list key (clamp limit) w.store got))
                    (omega (arith, length-take (clamp limit) (redis.list_at key w.store)))))
          ])

clamp-le : (limit : ℤ) → clamp limit ≤ 100
clamp-le (negsuc n) = omega arith
clamp-le (pos n) = ground arith

-- Where the ids of tweets are distinct in the tables and in every copy, and the tweet service is reached
-- over a network that works: whatever the query asks for, the caller is, the server answers, the
-- replicas show and Redis holds, the home endpoint answers with at most 100 tweets.
pub home_timeline-bounded :
    (numbers : Numbers) (use_redis : Bool) (server : Server) (peer : Peer) (uuids : Uuids)
    (redis : Redis) (identity : Option Identity) (q : Query) (w : Feed redis.Store)
    {ws : List Tweet}
    → IsKeyedIn w.cluster
    → (home_timeline numbers use_redis server
        (over_network server peer)
        uuids
        redis
        identity
        q
        w).0.body
      ≡ json ws
    → length ws ≤ 100
unfolding home_timeline
home_timeline-bounded numbers use_redis server peer uuids redis none q w v h = absurd cc
home_timeline-bounded numbers use_redis server peer uuids redis (some i) q w {ws} v h =
    let (limit, before) = parse_pagination_params numbers q in
    by_result
      (get_home_timeline server (over_network server peer) use_redis uuids redis i.user_id limit
        before w)
      (get_home_timeline-short server peer uuids redis use_redis i.user_id limit before w v) h
  where
    answered_with :
        Result (List Tweet) × Feed redis.Store → Response (List Tweet) × Feed redis.Store
    answered_with x = elim x.0 [
      | err e ↦ (write_err 500 e, x.1)
      | ok tweets ↦ (write_json 200 tweets, x.1)
    ]

    same_body : {a b : List Tweet} → json a ≡ json b → a ≡ b
    same_body e = cc

    by_result :
        (x : Result (List Tweet) × Feed redis.Store)
        → Holds (λ vs. length vs ≤ clamp (limit_of numbers q.limit)) x.0
        → (answered_with x).0.body ≡ json ws
        → length ws ≤ 100
    by_result (err e, w') k e' = absurd cc
    by_result (ok vs, w') k e' =
        omega (arith, k, clamp-le (limit_of numbers q.limit), ap length (same_body e'))
