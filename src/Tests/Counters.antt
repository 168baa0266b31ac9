-- ===== src/Tests/Counters.antt =====
-- A like that goes through Redis and the aggregator into the counter of its tweet.
use mini_twitter.Common.{
  ◌≡◌, ◌≢◌, refl, true, ok, [], ◌∷◌, ℤ, pos, ◌+ℤ◌, All, arith, bytes_eq, count, map,
}
use mini_twitter.Schema.{Bytes, Tweet}
use mini_twitter.Postgres.{Cluster}
use mini_twitter.Cache.{like_count_key}
use mini_twitter.Tweet.Repository.{
  insert_like, delete_like, insert_like_pending, incr_like_count, flush_pending_likes,
}
use mini_twitter.Tweet.Service.{Settings, World, like_tweet, unlike_tweet}
use mini_twitter.Tweet.Likes.{for_tweet}
use mini_twitter.Tweet.Aggregator.{
  track_tweet, on_event, note_pending, flush_delta, received, flush, flush_from, flush_fallback,
  apply_sums,
}
use mini_twitter.Tweet.Eventual.{delta_in}
use mini_twitter.Tweet.Eventual.Turns.{
  Books, aggregated, Turns, start, later, first_like, receive, IsBalanced, Turns-IsBalanced,
  tick_settles,
}
use mini_twitter.Tests.Instances.{Memory, memory, numbered, live, live-IsUp, get_del_answers}
use mini_twitter.Tests.Tweets.{unliked_table, world_of, tweet_of}

abbrev eventual : Settings
eventual = record { use_redis = true; consistency_mode = "eventual" }

incr_by_answers : (k : Bytes) (d : ℤ) (s : Memory) → (n : ℤ) × ((memory.incr_by k d s).0 ≡ ok n)
incr_by_answers k d s = (_, refl)

abbrev opened : Books Memory
opened = record { world = world_of unliked_table; pending = [] }

opened-IsBalanced : IsBalanced eventual live numbered memory opened
unfolding ◌+ℤ◌
opened-IsBalanced = record {
  booked = record { like_keyed = λ u t. omega arith; booked = (refl, (refl, tt)) };
  distinct = tt;
}

abbrev liked_once : Books Memory
liked_once = record opened {
  world = (like_tweet eventual live numbered memory 1 10 opened.world).1;
}

abbrev noted : Books Memory
noted = aggregated eventual live numbered memory (received 10) [] liked_once

run_noted : Turns eventual live numbered memory opened noted
unfolding like_tweet insert_like insert_like_pending track_tweet
run_noted = later (later start (first_like 1 10 refl refl)) (receive refl)

Turns-IsBalanced_example : IsBalanced eventual live numbered memory noted
Turns-IsBalanced_example =
    Turns-IsBalanced eventual live numbered memory refl live-IsUp incr_by_answers get_del_answers
      opened opened-IsBalanced run_noted

one_not_zero : pos 1 ≢ pos 0
one_not_zero e = cc

noted_deltas : All (λ id. delta_in numbered memory noted.world.store id ≢ pos 0) noted.pending
unfolding like_tweet insert_like insert_like_pending track_tweet on_event note_pending bytes_eq
    like_count_key ◌+ℤ◌
noted_deltas = (one_not_zero, tt)

tick_settles_example :
    (tweet_of 10 2 1 5).like_count
    ≡ pos (count (for_tweet 10) (record { user_id = 1; tweet_id = 10 } ∷ []))
unfolding on_event like_tweet insert_like insert_like_pending track_tweet note_pending bytes_eq
    like_count_key ◌+ℤ◌ flush_delta flush_pending_likes incr_like_count
tick_settles_example =
    tick_settles eventual live numbered memory refl live-IsUp incr_by_answers get_del_answers opened
      noted 100 0 {w = tweet_of 10 2 1 5} opened-IsBalanced run_noted noted_deltas refl refl

-- Bob likes tweet 10, and likes tweet 11 and takes that back, all before the tick. The flush meets tweet
-- 11 first; when tweet 10 is tracked again, the next flush brings its counter to 2, with one row.
abbrev taken_back : World Memory
taken_back =
    let first = (like_tweet eventual live numbered memory 1 10 opened.world).1 in
    let second = (like_tweet eventual live numbered memory 1 11 first).1 in
    (unlike_tweet eventual live numbered memory 1 11 second).1

abbrev flushed_twice : Cluster × Memory
flushed_twice =
    let once =
      flush live numbered memory 5000 (11 ∷ 10 ∷ []) (taken_back.cluster, taken_back.store) in
    flush live numbered memory 6000 (10 ∷ []) once

taken_back_counted :
    map (λ (w : Tweet). w.like_count) flushed_twice.0.tables.tweets ≡ pos 2 ∷ pos 0 ∷ []
unfolding like_tweet unlike_tweet insert_like delete_like insert_like_pending track_tweet flush
    flush_from flush_fallback apply_sums flush_delta flush_pending_likes incr_like_count bytes_eq
    like_count_key ◌+ℤ◌
taken_back_counted = refl

taken_back_rows : flushed_twice.0.tables.likes ≡ record { user_id = 1; tweet_id = 10 } ∷ []
unfolding like_tweet unlike_tweet insert_like delete_like insert_like_pending track_tweet flush
    flush_from flush_fallback apply_sums flush_delta flush_pending_likes incr_like_count bytes_eq
    like_count_key ◌+ℤ◌
taken_back_rows = refl
