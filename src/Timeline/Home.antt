-- ===== src/Timeline/Home.antt =====
-- What the home timeline holds when it is read from Postgres (internal/timeline/service.go), with
-- `GetBatch` of internal/tweet/handler.go behind the call of the tweet service.
use mini_twitter.Common.{
  true, false, ◌≢◌, ◌⊎◌, inl, inr, Result-cases, ℕ, zero, suc, ◌≡◌, refl, sym, ap, ◌∙◌, Bool, ◌&&◌,
  List, [], ◌∷◌, map, Result, ok, err, Error, wrapping, wrapping-ok, >>=-ok, ◌>>=◌, St, Option,
  none, some, ℤ, take, select, ◌==◌,
}
use mini_twitter.Schema.{Uuid, Time, Tweet, Follow, Tables}
use mini_twitter.Postgres.{Server, Cluster}
use mini_twitter.Postgres.Answered.{IsUp, IsCurrent, queried, query_answered}
use mini_twitter.Cache.{timeline_key}
use mini_twitter.Cache.Redis.{Redis, Uuids}
use mini_twitter.User.Statements.{select_followee_ids}
use mini_twitter.Tweet.Statements.{newest_first, before?, one_of, select_tweets}
use mini_twitter.Http.{Body, json, Response, write_err, write_json}
use mini_twitter.Tweet.Repository.{get_by_ids}
use mini_twitter.Tweet.Service.{Settings, World, get_tweets_by_ids}
use mini_twitter.Tweet.Handler.{get_batch}
use mini_twitter.Timeline.Repository.{
  get_home_timeline_ids, get_followee_ids, get_home_timeline_from_db, get_user_timeline_from_db,
  select_page_ids,
}
use mini_twitter.Timeline.Service.{
  Reply, undecodable, decoded, Batch, Feed, clamp, enrich_tweets, get_home_timeline,
  get_user_timeline, tweets_of, read_from_db,
}
use mini_twitter.Timeline.Pages.{
  newest_first-select, count-newest_first, has_id, IsKeyed, ids_of, select-ids_of,
}

-- The process of the tweet service, and the error that the JSON decoder reports for an object in
-- place of an array.
pub record Peer : Type 1 where
  pub settings : Settings
  pub uuids : Uuids
  pub redis : Redis
  pub world : World redis.Store
  pub mismatch : Error

-- What the body of a response of `GetBatch` is to the timeline service.
abbrev pub reply_of : Error → Body (List Tweet) → Reply
reply_of mismatch (json ws) = decoded ws
reply_of mismatch body = undecodable mismatch

-- The call of the tweet service over a network that works, on the cluster that the two share.
unfoldable pub over_network : Server → Peer → Batch
unfolding get_batch
over_network server peer ids c =
    let (response, w) =
      get_batch peer.settings server peer.uuids peer.redis (some ids)
        (record peer.world { cluster = c }) in
    (reply_of peer.mismatch response.body, w.cluster)

-- Whom a user follows.
abbrev pub followees_of : Uuid → List Follow → List Uuid
followees_of user fs = map (λ f. f.followee_id) (select (λ f. f.follower_id == user) fs)

-- The newest `limit` tweets of some authors, before a cursor.
abbrev pub page : (Uuid → Bool) → ℕ → Option Time → Tables → List Tweet
page author limit before t =
    take limit (newest_first (select (λ w. author w.user_id && before? before w) t.tweets))

enrich-page :
    (author : Uuid → Bool) (limit : ℕ) (before : Option Time) (t : Tables)
    → IsKeyed t.tweets
    → newest_first (select (λ w. one_of (ids_of (page author limit before t)) w.id) t.tweets)
      ≡ page author limit before t
enrich-page author limit before t keyed =
    let p : Tweet → Bool = λ w. author w.user_id && before? before w in
    let sorted : page author limit before t ≡ take limit (select p (newest_first t.tweets)) =
      ap (take limit) (newest_first-select p t.tweets) in
    newest_first-select (λ w. one_of (ids_of (page author limit before t)) w.id) t.tweets
    ∙ ap (λ ws. select (λ w. one_of (ids_of ws) w.id) (newest_first t.tweets)) sorted
    ∙ select-ids_of p limit (newest_first t.tweets)
        (λ id. rw (count-newest_first (has_id id) t.tweets) (keyed id))
    ∙ sym sorted

none_taken : {A : Type 0} (n : ℕ) → take {A = A} n [] ≡ []
none_taken zero = refl
none_taken (suc n) = refl

page_nobody : (limit : ℕ) (before : Option Time) (t : Tables) → page (one_of []) limit before t ≡ []
page_nobody limit before t =
    ap (λ ws. take limit (newest_first ws)) (nobody t.tweets) ∙ none_taken limit
  where
    nobody : (ws : List Tweet) → select (λ w. one_of [] w.user_id && before? before w) ws ≡ []
    nobody [] = refl
    nobody (w ∷ ws) = nobody ws

module _ (server : Server) (up : IsUp server) where
  module _ (peer : Peer) where
    -- What the result of the query in the tweet service becomes.
    answered_by : Result (List Tweet) × Cluster → Result (List Tweet) × Cluster
    answered_by x =
        let w : World peer.redis.Store = record peer.world { cluster = x.1 } in
        let (response, w') : Response (List Tweet) × World peer.redis.Store = elim x.0 [
          | err e ↦ (write_err 500 e, w)
          | ok ws ↦ (write_json 200 ws, w)
        ] in
        (tweets_of (reply_of peer.mismatch response.body), w'.cluster)

    enrich_found :
        (ws : List Tweet) (c : Cluster)
        → IsCurrent c
        → newest_first (select (λ w. one_of (ids_of ws) w.id) c.tables.tweets) ≡ ws
        → (c' : Cluster) × (enrich_tweets (over_network server peer) (ids_of ws) c ≡ (ok ws, c'))
          × (c'.tables ≡ c.tables)
    unfolding answered_by enrich_tweets over_network get_batch get_tweets_by_ids get_by_ids
    enrich_found [] c v e = (c, refl, refl)
    enrich_found (w ∷ ws) c v e = (
      queried c,
      ap answered_by (
          query_answered server (select_tweets (ids_of (w ∷ ws))) c up v
          ∙ ap (λ vs. (ok vs, queried c)) e),
      refl,
    )

    from_db_answered :
        (followees : List Uuid) (limit : ℕ) (before : Option Time) (c : Cluster)
        → IsCurrent c
        → (c' : Cluster) × (get_home_timeline_from_db server followees limit before c
            ≡ (ok (ids_of (page (one_of followees) limit before c.tables)), c'))
          × (c'.tables ≡ c.tables)
          × IsCurrent c'
    unfolding get_home_timeline_from_db
    from_db_answered [] limit before c v =
        (c, ap (λ ws. (ok (ids_of ws), c)) (sym (page_nobody limit before c.tables)), refl, v)
    from_db_answered (f ∷ fs) limit before c v = (
      queried c,
      query_answered server (select_page_ids (one_of (f ∷ fs)) limit before) c up v,
      refl,
      v,
    )

    read_from_db-page :
        (user : Uuid) (limit : ℕ) (before : Option Time) (c : Cluster)
        → IsCurrent c
        → IsKeyed c.tables.tweets
        → (c' : Cluster) × (read_from_db server (over_network server peer) user limit before c
            ≡ (ok (page (one_of (followees_of user c.tables.follows)) limit before c.tables), c'))
          × (c'.tables ≡ c.tables)
    unfolding get_followee_ids
    read_from_db-page user limit before c v keyed =
        let followees = followees_of user c.tables.follows in
        let (c₁, read, same₁, v₁) = from_db_answered followees limit before (queried c) v in
        let ws = page (one_of followees) limit before c.tables in
        let enrich = enrich_tweets (over_network server peer) in
        let ids_from : List Uuid → St Cluster (List Uuid) =
          λ fs. wrapping "db timeline" (get_home_timeline_from_db server fs limit before) in
        let (c₂, found, same₂) = enrich_found ws c₁ v₁ (
          ap (λ t. newest_first (select (λ w. one_of (ids_of ws) w.id) t.tweets)) same₁
          ∙ enrich-page (one_of followees) limit before c.tables keyed) in
        (
          c₂,
          >>=-ok (wrapping "get followees" (get_followee_ids server user))
                (λ fs. ids_from fs >>= enrich)
                (wrapping-ok "get followees" (get_followee_ids server user)
                  (query_answered server (select_followee_ids user) c up v))
              ∙ >>=-ok (ids_from followees) enrich (
                  wrapping-ok "db timeline"
                    (get_home_timeline_from_db server followees limit before) read)
              ∙ found,
          same₂ ∙ same₁,
        )

-- A timeline list that is missing or empty is a miss, also if Redis fails.
missing_list :
    (uuids : Uuids) (redis : Redis) (user : Uuid) (limit : ℕ) (s : redis.Store)
    → redis.list_at (timeline_key (uuids.show user)) s ≡ []
    → (get_home_timeline_ids uuids redis user limit s).0 ≡ none
unfolding get_home_timeline_ids
missing_list uuids redis user limit s h =
    let key = timeline_key (uuids.show user) in
    elim (Result-cases (redis.lrange key limit s).0) [
      | inr (e, failed) ↦ rw failed refl
      | inl (xs, answered) ↦
          let nothing : xs ≡ [] =
            redis.lrange-list key limit s answered ∙ ap (take limit) h ∙ none_taken limit in
          rw answered (rw nothing refl)
    ]

true-ne-false : true ≢ false
true-ne-false e = cc

-- Without Redis, or where the timeline list in Redis is missing or empty, the home timeline is the page
-- of the newest tweets before the cursor by those whom the user follows, newest first and those of one
-- time in the order of the table, cut to the limit. The server answers, the replicas have caught up, the
-- ids of tweets are distinct, and the tweet service is reached over a network that works.
pub home_timeline_page :
    (use_redis : Bool) (server : Server) (peer : Peer) (uuids : Uuids) (redis : Redis) (user : Uuid)
    (limit : ℤ) (before : Option Time) (w : Feed redis.Store)
    → IsUp server
    → IsCurrent w.cluster
    → IsKeyed w.cluster.tables.tweets
    → (use_redis ≡ false) ⊎ (redis.list_at (timeline_key (uuids.show user)) w.store ≡ [])
    → let t = w.cluster.tables in
      (get_home_timeline server
        (over_network server peer)
        use_redis
        uuids
        redis
        user
        limit
        before
        w).0
      ≡ ok (page (one_of (followees_of user t.follows)) (clamp limit) before t)
unfolding get_home_timeline
home_timeline_page false server peer uuids redis user limit before w up v keyed way =
    let (c', found, same) =
      read_from_db-page server up peer user (clamp limit) before w.cluster v keyed in
    ap (λ x. x.0) found
home_timeline_page true server peer uuids redis user limit before w up v keyed (inl e) =
    absurd (true-ne-false e)
home_timeline_page true server peer uuids redis user limit before w up v keyed (inr h) =
    rw (missing_list uuids redis user (clamp limit) w.store h) (
      let (c', found, same) =
        read_from_db-page server up peer user (clamp limit) before w.cluster v keyed in
      ap (λ x. x.0) found)

-- With a server that answers, replicas that have caught up, distinct ids of tweets and a tweet
-- service over a network that works, the timeline of a user is the page of the user's own newest
-- tweets before the cursor, newest first, cut to the limit.
pub user_timeline_page :
    (server : Server) (peer : Peer) (user : Uuid) (limit : ℤ) (before : Option Time) (c : Cluster)
    → IsUp server
    → IsCurrent c
    → IsKeyed c.tables.tweets
    → (get_user_timeline server (over_network server peer) user limit before c).0
      ≡ ok (page (λ author. author == user) (clamp limit) before c.tables)
unfolding get_user_timeline get_user_timeline_from_db
user_timeline_page server peer user limit before c up v keyed =
    let author : Uuid → Bool = λ a. a == user in
    let (c', found, same) =
      enrich_found server up peer (page author (clamp limit) before c.tables) (queried c) v
        (enrich-page author (clamp limit) before c.tables keyed) in
    ap (λ x. x.0)
      (>>=-ok (get_user_timeline_from_db server user (clamp limit) before)
          (enrich_tweets (over_network server peer))
          (query_answered server (select_page_ids author (clamp limit) before) c up v)
        ∙ found)
