-- ===== src/Tests/Tweets.antt =====
-- A tweet that is liked, counted, fanned out and created.
use mini_twitter.Common.{
  ◌==◌, err, message, ℕ, ◌≡◌, ◌≢◌, ◌⊎◌, refl, true, List, map, [], ◌∷◌, none, some, ok, pos, take,
  arith, if◌then◌else◌, bytes_eq,
}
use mini_twitter.Schema.{Uuid, Tweet, Time, Tables}
use mini_twitter.Postgres.{Server, answered, refused}
use mini_twitter.Postgres.Answered.{caught_up}
use mini_twitter.Cache.{like_count_key}
use mini_twitter.Tweet.Statements.{one_of}
use mini_twitter.Tweet.Fanout.{FollowerFetcher, enqueue}
use mini_twitter.Tweet.Fanout.Delivery.{rest_after}
use mini_twitter.Tweet.Fanout.Followers.{IsInSync}
use mini_twitter.Tweet.Aggregator.{flush}
use mini_twitter.Tweet.Aggregator.Steps.{kept, settled, key_of}
use mini_twitter.Tweet.Aggregator.Flush.{gained, flush_gains}
use mini_twitter.Tweet.Aggregator.Faults.{fallen_back, flush_loses_pending, flush_counts_twice}
use mini_twitter.Tweet.Service.{Settings, World, like_tweet, unlike_tweet, create_tweet, get_tweet}
use mini_twitter.Tweet.Likes.{IsTallied}
use mini_twitter.Tweet.Repository.{insert_like, delete_like, incr_like_count}
use mini_twitter.Tweet.Strong.{Call, liking, unliking, make_all, AreNew, make_all-IsTallied}
use mini_twitter.Tweet.Creation.{posted, job_for, get-create}
use mini_twitter.Tweet.Queueing.{IsQueued, create_tweet-IsQueued}
use mini_twitter.Auth.{Identity}
use mini_twitter.Tweet.Handler
use mini_twitter.Tweet.Partial.{like-retried}
use mini_twitter.Tweet.Deletion.{IsDeleted, delete_tweet-owned}
use mini_twitter.Tests.Instances.{
  Memory, memory, no_data, with_number, numbered, live, live-IsUp, get_del_answers,
}
use mini_twitter.Tests.Users.{friends, cluster_of}

abbrev pub tweet_of : Uuid → Uuid → ℕ → Time → Tweet
tweet_of id user likes time = record {
  id = id;
  user_id = user;
  content = 104 ∷ [];
  like_count = pos likes;
  reply_to_id = none;
  created_at = time;
}

abbrev pub unliked_table : Tables
unliked_table = record friends { tweets = tweet_of 10 2 0 5 ∷ tweet_of 11 2 0 6 ∷ [] }

abbrev liked_table : Tables
liked_table = record friends {
  tweets = tweet_of 10 2 1 5 ∷ [];
  likes = record { user_id = 1; tweet_id = 10 } ∷ [];
}

abbrev pub world_of : Tables → World Memory
world_of t = record {
  cluster = cluster_of t;
  store = no_data;
  queue = record { jobs = []; buf_size = 10 };
  tracked = [];
}

abbrev pub strong : Settings
strong = record { use_redis = true; consistency_mode = "strong" }

unliked-IsTallied : IsTallied unliked_table
unliked-IsTallied = record { like_keyed = λ u t. omega arith; tallied = (refl, (refl, tt)) }

-- Bob likes tweet 10, Eve tweet 11, and Bob takes his like back.
abbrev calls : List Call
calls = liking 1 10 ∷ liking 2 11 ∷ unliking 1 10 ∷ []

calls-AreNew : AreNew strong live numbered memory calls (world_of unliked_table)
unfolding like_tweet unlike_tweet insert_like delete_like incr_like_count
calls-AreNew = (refl, refl, (refl, refl, (refl, tt)))

make_all-IsTallied_example :
    let (rs, w') = make_all strong live numbered memory calls (world_of unliked_table) in
    (rs ≡ map (λ call. ok tt) calls) × IsTallied w'.cluster.tables
make_all-IsTallied_example =
    make_all-IsTallied strong live numbered memory refl live-IsUp calls (world_of unliked_table)
      calls-AreNew unliked-IsTallied

abbrev counted : Memory
counted = with_number (key_of numbered 10) (pos 3) no_data

three_not_zero : pos 3 ≢ pos 0
three_not_zero e = cc

flush_gains_example :
    let (c', store') =
      flush live numbered memory 100 (10 ∷ []) (cluster_of unliked_table, counted) in
    (c'.tables ≡ record unliked_table {
      tweets = gained (10 ∷ []) (λ j. pos 3) unliked_table.tweets;
      pending = kept 100 unliked_table.pending;
    })
    × ((j : Uuid)
        → memory.number_at (key_of numbered j) store'
          ≡ (if one_of (10 ∷ []) j then none else memory.number_at (key_of numbered j) counted))
unfolding bytes_eq like_count_key
flush_gains_example =
    flush_gains live numbered memory live-IsUp get_del_answers 100 (λ j. pos 3) 10 []
      (cluster_of unliked_table) counted (refl, tt) ((refl, three_not_zero), tt)

ids_apart : ◌≢◌ {A = ℕ} 10 11
ids_apart e = absurd (omega (arith, e))

flush_loses_pending_example :
    let c = cluster_of unliked_table in
    ((flush live numbered memory 100 (10 ∷ 11 ∷ []) (c, counted)).0.tables
      ≡ settled 100 10 (pos 3) unliked_table)
    × ((flush live numbered memory 100 (11 ∷ 10 ∷ []) (c, counted)).0.tables
        ≡ fallen_back 100 unliked_table)
unfolding bytes_eq like_count_key
flush_loses_pending_example =
    flush_loses_pending live numbered memory live-IsUp get_del_answers 10 11 (pos 3)
      (cluster_of unliked_table) counted ids_apart refl three_not_zero refl 100

flush_counts_twice_example :
    let first = flush live numbered memory 100 (11 ∷ 10 ∷ []) (cluster_of unliked_table, counted) in
    (flush live numbered memory 200 (10 ∷ []) first).0.tables
    ≡ settled 200 10 (pos 3) (fallen_back 100 unliked_table)
unfolding bytes_eq like_count_key
flush_counts_twice_example =
    flush_counts_twice live numbered memory live-IsUp get_del_answers 10 11 (pos 3)
      (cluster_of unliked_table) counted ids_apart refl three_not_zero refl 100 200

abbrev pub two_followers : FollowerFetcher Unit
two_followers author limit after s = (ok (take limit (rest_after after (1 ∷ 3 ∷ []))), s)

pub friends-IsInSync : IsInSync friends.follows (cluster_of friends)
friends-IsInSync = record { at_primary = refl; at_copies = λ i. refl }

get-create_example :
    let w = world_of unliked_table in
    let tweet = posted 100 1000 1 (104 ∷ 105 ∷ []) (some 10) in
    (w' : World Memory) × (create_tweet strong live numbered memory 1 (104 ∷ 105 ∷ []) (some 10) w
      ≡ (ok tweet, w'))
    × (w'.queue ≡ enqueue (job_for 100 1) w.queue)
    × ((get_tweet strong live numbered memory 100 (record w' { cluster = caught_up w'.cluster })).0
        ≡ ok tweet)
get-create_example =
    get-create strong live numbered memory 1 (104 ∷ 105 ∷ []) (some 10) (world_of unliked_table)
      live-IsUp refl refl refl

unliked-IsQueued : IsQueued (world_of unliked_table)
unliked-IsQueued = record { backed = tt; bounded = omega arith }

create_tweet-IsQueued_example :
    IsQueued (create_tweet strong live numbered memory 1 (104 ∷ []) none (world_of unliked_table)).1
create_tweet-IsQueued_example =
    create_tweet-IsQueued strong live numbered memory 1 (104 ∷ []) none (world_of unliked_table)
      unliked-IsQueued

abbrev eve : Identity
eve = record { user_id = 2; username = "eve" }

-- Tweet 10 is by user 2, who deletes it.
delete_tweet-owned_example :
    let (r, w') =
      Handler.delete_tweet strong live numbered memory
        (some eve)
        (numbered.show 10)
        (world_of unliked_table) in
    ((w'.cluster.tables ≡ unliked_table) × (r.status ≢ 204))
    ⊎ ((i : Identity) × (tweet : Uuid) × (some eve ≡ some i)
        × (numbered.parse (numbered.show 10) ≡ some tweet)
        × IsDeleted tweet i.user_id unliked_table w'.cluster.tables)
delete_tweet-owned_example =
    delete_tweet-owned strong live numbered memory (some eve) (numbered.show 10)
      (world_of unliked_table)

-- A server that refuses the second round trip.
abbrev refusing : Server
refusing = record live { verdict = λ n. if n == 1 then refused (message "down") else answered }

like-retried_example :
    let (r, w') = like_tweet strong refusing numbered memory 1 10 (world_of unliked_table) in
    let (r', w'') = like_tweet strong live numbered memory 1 10 w' in
    (r ≡ err (message "down"))
    × (¬ IsTallied w'.cluster.tables)
    × (r' ≡ ok tt)
    × IsTallied w''.cluster.tables
like-retried_example =
    like-retried strong refusing live numbered memory refl 1 10 (world_of unliked_table)
      (message "down") refl refl live-IsUp refl refl unliked-IsTallied
