-- ===== src/Timeline/Found.antt =====
-- How many tweets a query of internal/timeline or the batch endpoint of internal/tweet finds, whatever the
-- server answers and the replicas show.
use mini_twitter.Common.{
  ℕ, suc, ◌+◌, ◌≤◌, ◌≡◌, refl, ap, ◌∙◌, Bool, ◌&&◌, List, [], ◌∷◌, Result, ok, err, Option, length,
  take, select, count, length-take, length-map, Holds, Ensures, arith,
}
use mini_twitter.Schema.{Uuid, Time, Tweet, Tables}
use mini_twitter.Db.{Pool, primary, replica, reader}
use mini_twitter.Postgres.{Server, Cluster, Verdict, answered, refused, lost, query, shown, settle}
use mini_twitter.Http.{Response, write_json, write_err}
use mini_twitter.Tweet.Statements.{newest_first, insert_newest, before?, one_of, select_tweets}
use mini_twitter.Timeline.Repository.{select_page_ids}
use mini_twitter.Timeline.Service.{tweets_of, enrich_tweets}
use mini_twitter.Timeline.Pages.{IsKeyed, has_id}
use mini_twitter.Tweet.Repository.{get_by_ids}
use mini_twitter.Tweet.Service.{World, get_tweets_by_ids}
use mini_twitter.Tweet.Handler.{get_batch}
use mini_twitter.Timeline.Home.{Peer, over_network, reply_of}

-- The ids of tweets are distinct, in the tables and in every copy.
pub record IsKeyedIn (c : Cluster) : Type 0 where
  pub at_primary : IsKeyed c.tables.tweets
  pub at_copies : (i : ℕ) → IsKeyed (c.copy i).tweets

shown-IsKeyed : (p : Pool) (c : Cluster) → IsKeyedIn c → IsKeyed (shown p c).tweets
shown-IsKeyed primary c v = v.at_primary
shown-IsKeyed (replica i) c v = v.at_copies i

pub query-Ensures :
    {A : Type 0} (P : A → Type 0) (server : Server) (sel : Tables → Result A) (c : Cluster)
    → IsKeyedIn c
    → ((t : Tables) → IsKeyed t.tweets → Holds P (sel t))
    → Ensures IsKeyedIn P (query server sel c)
query-Ensures {A} P server sel c v h =
    settled (server.verdict c.trips) (sel (shown (reader c.db).0 c))
      (h (shown (reader c.db).0 c) (shown-IsKeyed (reader c.db).0 c v))
  where
    after : Cluster
    after = record c { db = (reader c.db).1; trips = suc c.trips }

    kept : IsKeyedIn after
    kept = record { at_primary = v.at_primary; at_copies = v.at_copies }

    settled :
        (x : Verdict) (r : Result A) → Holds P r → Ensures IsKeyedIn P (settle x (r, after) after)
    settled answered r k = (kept, k)
    settled (refused e) r k = (kept, tt)
    settled (lost e) r k = (kept, tt)

-- With distinct ids, a list of ids finds no more tweets than it has ids.
length-found :
    (ids : List Uuid) (ws : List Tweet)
    → IsKeyed ws
    → length (select (λ w. one_of ids w.id) ws) ≤ length ids
length-found [] ws k = omega (arith, nobody ws)
  where
    nobody : (vs : List Tweet) → length (select (λ w. one_of [] w.id) vs) ≡ 0
    nobody [] = refl
    nobody (v ∷ vs) = nobody vs
length-found (id ∷ ids) ws k = omega (arith, split ws, length-found ids ws k, k id)
  where
    split :
        (vs : List Tweet)
        → length (select (λ w. one_of (id ∷ ids) w.id) vs)
          ≤ count (has_id id) vs + length (select (λ w. one_of ids w.id) vs)
    split [] = omega arith
    split (v ∷ vs) = ground (arith, split vs)

length-insert : (w : Tweet) (ws : List Tweet) → length (insert_newest w ws) ≡ suc (length ws)
length-insert w [] = refl
length-insert w (v ∷ vs) = ground (arith, length-insert w vs)

length-newest : (ws : List Tweet) → length (newest_first ws) ≡ length ws
length-newest [] = refl
length-newest (w ∷ ws) = length-insert w (newest_first ws) ∙ ap suc (length-newest ws)

select_tweets-short :
    (ids : List Uuid) (t : Tables)
    → IsKeyed t.tweets
    → Holds (λ ws. length ws ≤ length ids) (select_tweets ids t)
select_tweets-short ids t k =
    omega
      (arith, length-newest (select (λ w. one_of ids w.id) t.tweets), length-found ids t.tweets k)

pub select_page_ids-short :
    (author : Uuid → Bool) (limit : ℕ) (before : Option Time) (t : Tables)
    → Holds (λ ids. length ids ≤ limit) (select_page_ids author limit before t)
select_page_ids-short author limit before t =
    let found = newest_first (select (λ w. author w.user_id && before? before w) t.tweets) in
    omega (arith, length-map (λ w. w.id) (take limit found), length-take limit found)

module _ (server : Server) (peer : Peer) where
  pub enrich-short :
      (ids : List Uuid) (c : Cluster)
      → IsKeyedIn c
      → Ensures IsKeyedIn
          (λ ws. length ws ≤ length ids)
          (enrich_tweets (over_network server peer) ids c)
  unfolding enrich_tweets over_network get_batch get_tweets_by_ids get_by_ids
  enrich-short [] c v = (v, omega arith)
  enrich-short (id ∷ ids) c v = after (query server (select_tweets (id ∷ ids)) c) (
      query-Ensures (λ ws. length ws ≤ length (id ∷ ids)) server (select_tweets (id ∷ ids)) c v
        (λ t k. select_tweets-short (id ∷ ids) t k))
    where
      answered_by : Result (List Tweet) × Cluster → Result (List Tweet) × Cluster
      answered_by x =
          let w : World peer.redis.Store = record peer.world { cluster = x.1 } in
          let (response, w') : Response (List Tweet) × World peer.redis.Store = elim x.0 [
            | err e ↦ (write_err 500 e, w)
            | ok ws ↦ (write_json 200 ws, w)
          ] in
          (tweets_of (reply_of peer.mismatch response.body), w'.cluster)

      after :
          (x : Result (List Tweet) × Cluster)
          → Ensures IsKeyedIn (λ ws. length ws ≤ length (id ∷ ids)) x
          → Ensures IsKeyedIn (λ ws. length ws ≤ length (id ∷ ids)) (answered_by x)
      after (ok ws, d) k = k
      after (err e, d) k = k
