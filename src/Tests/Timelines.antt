-- ===== src/Tests/Timelines.antt =====
-- The timelines of two users who follow each other or not.
use mini_twitter.Common.{
  ◌≤◌, ◌≡◌, ℤ, Option, Result, err, length, refl, inr, ◌++◌, true, List, [], ◌∷◌, none, some, ok,
  message, pos, arith, bytes_eq,
}
use mini_twitter.Schema.{Uuid, Bytes, Tweet}
use mini_twitter.Postgres.{Cluster}
use mini_twitter.Postgres.Answered.{IsCurrent}
use mini_twitter.Cache.{timeline_key}
use mini_twitter.User.Repository.{get_follower_ids}
use mini_twitter.Tweet.Statements.{one_of}
use mini_twitter.Tweet.Fanout.{fanout}
use mini_twitter.Timeline.Repository.{get_home_timeline_ids}
use mini_twitter.Timeline.Service.{Feed, enrich_tweets, get_home_timeline, get_user_timeline}
use mini_twitter.Timeline.Pages.{IsKeyed}
use mini_twitter.Timeline.Cursor.{IsTimed}
use mini_twitter.Timeline.Paging.{user_timeline-next}
use mini_twitter.Timeline.Home.{
  Peer, page, followees_of, over_network, home_timeline_page, user_timeline_page,
}
use mini_twitter.Auth.{Identity}
use mini_twitter.Http.{Response, json, write_err, write_json}
use mini_twitter.Timeline.Handler.{Numbers, Query, home_timeline}
use mini_twitter.Timeline.Found.{IsKeyedIn}
use mini_twitter.Timeline.Bounds.{home_timeline-bounded}
use mini_twitter.Timeline.Cached.{cached_page_repeats, tweet_reaches_feed}
use mini_twitter.Tests.Instances.{
  Memory, memory, no_data, with_list, numbered, live, live-IsUp, pipeline_runs, lrange_answers,
}
use mini_twitter.Tests.Users.{friends, friends-keyed, cluster_of}
use mini_twitter.Tests.Tweets.{unliked_table, friends-IsInSync, strong, world_of}

abbrev feed : Feed Memory
feed = record { cluster = cluster_of unliked_table; store = no_data }

abbrev tagged : Peer
tagged = record {
  settings = strong;
  uuids = numbered;
  redis = memory;
  world = world_of unliked_table;
  mismatch = message "not an array";
}

feed-IsCurrent : IsCurrent (cluster_of unliked_table)
feed-IsCurrent i = refl

unliked-IsKeyed : IsKeyed unliked_table.tweets
unliked-IsKeyed id = ground arith

unliked-IsTimed : IsTimed unliked_table.tweets
unliked-IsTimed time = ground arith

home_timeline_page_example :
    (get_home_timeline live (over_network live tagged) true numbered memory 1 (pos 10) none feed).0
    ≡ ok (page (one_of (followees_of 1 unliked_table.follows)) 10 none unliked_table)
home_timeline_page_example =
    home_timeline_page true live tagged numbered memory 1 (pos 10) none feed live-IsUp
      feed-IsCurrent unliked-IsKeyed (inr refl)

abbrev newest : Tweet
newest = record {
  id = 11;
  user_id = 2;
  content = 104 ∷ [];
  like_count = pos 0;
  reply_to_id = none;
  created_at = 6;
}

first_page :
    (get_user_timeline live (over_network live tagged) 2 (pos 1) none (cluster_of unliked_table)).0
    ≡ ok (newest ∷ [])
first_page =
    user_timeline_page live tagged 2 (pos 1) none (cluster_of unliked_table) live-IsUp
      feed-IsCurrent unliked-IsKeyed

user_timeline-next_example :
    let c = cluster_of unliked_table in
    (zs : List Tweet) × ((get_user_timeline live (over_network live tagged) 2 (pos 1) (some 6) c).0
      ≡ ok zs)
    × ((get_user_timeline live (over_network live tagged) 2 (pos 2) none c).0
        ≡ ok ((newest ∷ []) ++ zs))
user_timeline-next_example =
    user_timeline-next live tagged 2 0 0 none (cluster_of unliked_table) (cluster_of unliked_table)
      newest [] live-IsUp feed-IsCurrent feed-IsCurrent refl unliked-IsKeyed unliked-IsTimed
      (omega arith) first_page

-- A feed whose list in Redis is there.
abbrev warm : Feed Memory
warm = record feed {
  store = with_list (timeline_key (numbered.show 1)) (numbered.show 10 ∷ []) no_data;
}

cached_page_repeats_example :
    get_home_timeline live (over_network live tagged) true numbered memory 1 (pos 10) (some 3) warm
    ≡ get_home_timeline live (over_network live tagged) true numbered memory 1 (pos 10) none warm
unfolding bytes_eq timeline_key get_home_timeline_ids
cached_page_repeats_example =
    cached_page_repeats live (over_network live tagged) numbered memory 1 (pos 10) 3 warm 10 [] refl

tweet_reaches_feed_example :
    (c' : Cluster) × (store' : Memory) × (ids : List Uuid) × (fanout numbered memory
        (get_follower_ids live)
        1
        (record { tweet_id = 10; author_id = 2 })
        (cluster_of friends)
        no_data
      ≡ some (ok tt, c', store'))
    × ((get_home_timeline live
          (over_network live tagged)
          true
          numbered
          memory
          1
          (pos 10)
          none
          (record { cluster = c'; store = store' })).0
        ≡ (enrich_tweets (over_network live tagged) (10 ∷ ids) c').0)
tweet_reaches_feed_example =
    tweet_reaches_feed live numbered memory (record { tweet_id = 10; author_id = 2 }) 1
      (cluster_of friends) no_data friends.follows (over_network live tagged) 1 (pos 10) live-IsUp
      friends-IsInSync friends-keyed pipeline_runs lrange_answers (omega arith) refl

-- A text is read as the number of its first byte.
abbrev digits : Numbers
digits = record { atoi = first; unix_nano = λ text. none }
  where
    first : Bytes → Option ℤ
    first [] = none
    first (b ∷ bs) = some (pos b)

abbrev bob : Identity
bob = record { user_id = 1; username = "bob" }

feed-IsKeyedIn : IsKeyedIn feed.cluster
feed-IsKeyedIn = record { at_primary = unliked-IsKeyed; at_copies = λ i. unliked-IsKeyed }

abbrev bobs_page : List Tweet
bobs_page = page (one_of (followees_of 1 unliked_table.follows)) 10 none unliked_table

abbrev ten : Query
ten = record { limit = 10 ∷ []; before = [] }

abbrev answered_with : Result (List Tweet) × Feed Memory → Response (List Tweet) × Feed Memory
answered_with x = elim x.0 [
  | err e ↦ (write_err 500 e, x.1)
  | ok tweets ↦ (write_json 200 tweets, x.1)
]

body_of :
    (x : Result (List Tweet) × Feed Memory) (ws : List Tweet)
    → x.0 ≡ ok ws
    → (answered_with x).0.body ≡ json ws
body_of (ok vs, w) ws e = cc
body_of (err x, w) ws e = absurd cc

bob_answered :
    (home_timeline digits true live
      (over_network live tagged)
      numbered
      memory
      (some bob)
      ten
      feed).0.body
    ≡ json bobs_page
unfolding home_timeline
bob_answered =
    body_of
      (get_home_timeline live (over_network live tagged) true numbered memory 1 (pos 10) none feed)
      bobs_page
      (home_timeline_page true live tagged numbered memory 1 (pos 10) none feed live-IsUp
        feed-IsCurrent unliked-IsKeyed (inr refl))

home_timeline-bounded_example : length bobs_page ≤ 100
home_timeline-bounded_example =
    home_timeline-bounded digits true live tagged numbered memory (some bob) ten feed feed-IsKeyedIn
      bob_answered
