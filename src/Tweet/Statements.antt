-- ===== src/Tweet/Statements.antt =====
-- The SQL statements of internal/tweet/repository.go, over the tables of pkg/db/migrations.
use mini_twitter.Common.{
  ℕ, Bool, ◌&&◌, not, List, [], ◌∷◌, ◌++◌, map, Result, ok, err, violation, St, Option, none, some,
  ℤ, pos, ◌+ℤ◌, any, find, select, count, take, ltb, ◌==◌, if◌then◌else◌,
}
use mini_twitter.Schema.{Uuid, Time, Bytes, Tweet, Like, Pending, Tables}
use mini_twitter.User.Statements.{has_user, or_no_rows}

abbrev pub has_tweet : Uuid → List Tweet → Bool
has_tweet id = any λ t. t.id == id

abbrev pub may_refer : Option Uuid → List Tweet → Bool
may_refer none ts = Bool.true
may_refer (some id) ts = has_tweet id ts

-- INSERT INTO tweets (user_id, content, reply_to_id) … RETURNING id, created_at: the like count
-- starts at its default, 0, and the two references hold.
abbrev pub insert_tweet : Uuid → Time → Uuid → Bytes → Option Uuid → St Tables (Uuid × Time)
insert_tweet id now user content reply t =
    if has_tweet id t.tweets
    then (err (violation "tweets_pkey"), t)
    else if has_user user t.users && may_refer reply t.tweets
    then (
      ok (id, now),
      record t {
        tweets =
            t.tweets
            ++ record {
              id = id;
              user_id = user;
              content = content;
              like_count = pos 0;
              reply_to_id = reply;
              created_at = now;
            }
              ∷ [];
      },
    )
    else (err (violation "tweets_fkey"), t)

-- SELECT … FROM tweets WHERE id = $1
abbrev pub select_tweet : Uuid → Tables → Result Tweet
select_tweet id t = or_no_rows (find (λ w. w.id == id) t.tweets)

abbrev pub is_own : Uuid → Uuid → Tweet → Bool
is_own id user w = w.id == id && w.user_id == user

-- ON DELETE SET NULL of reply_to_id.
abbrev pub forget_reply : Uuid → Tweet → Tweet
forget_reply id w = elim w.reply_to_id [
  | none ↦ w
  | some parent ↦ if parent == id then record w { reply_to_id = none } else w
]

-- DELETE FROM tweets WHERE id = $1 AND user_id = $2, with the rows affected; the likes and pending
-- deltas of a deleted tweet go with it, and replies to it lose their reference.
abbrev pub delete_tweet : Uuid → Uuid → St Tables ℕ
delete_tweet id user t =
    let gone = count (is_own id user) t.tweets in
    (
      ok gone,
      (if gone == 0 then t else record t {
        tweets = map (forget_reply id) (select (λ w. not (is_own id user w)) t.tweets);
        likes = select (λ l. not (l.tweet_id == id)) t.likes;
        pending = select (λ p. not (p.tweet_id == id)) t.pending;
      }),
    )

-- UPDATE tweets SET like_count = like_count + $1 WHERE id = $2
abbrev pub at_tweet : Uuid → ℤ → List Tweet → List Tweet
at_tweet id delta =
    map λ w. if w.id == id then record w { like_count = w.like_count +ℤ delta } else w

abbrev pub add_likes : Uuid → ℤ → St Tables (Unit {0})
add_likes id delta t = (ok tt, record t { tweets = at_tweet id delta t.tweets })

abbrev pub is_like : Uuid → Uuid → Like → Bool
is_like user tweet l = l.user_id == user && l.tweet_id == tweet

-- INSERT INTO likes … ON CONFLICT DO NOTHING
abbrev pub insert_like_row : Uuid → Uuid → St Tables (Unit {0})
insert_like_row user tweet t =
    if any (is_like user tweet) t.likes
    then (ok tt, t)
    else if has_user user t.users && has_tweet tweet t.tweets
    then (ok tt, record t { likes = t.likes ++ record { user_id = user; tweet_id = tweet } ∷ [] })
    else (err (violation "likes_fkey"), t)

-- DELETE FROM likes WHERE user_id = $1 AND tweet_id = $2
abbrev pub delete_like_row : Uuid → Uuid → St Tables (Unit {0})
delete_like_row user tweet t =
    (ok tt, record t { likes = select (λ l. not (is_like user tweet l)) t.likes })

-- INSERT INTO like_count_pending (tweet_id, delta) VALUES ($1, $2)
abbrev pub insert_pending : Uuid → ℤ → Time → St Tables (Unit {0})
insert_pending tweet delta now t =
    if has_tweet tweet t.tweets
    then (
      ok tt,
      record t {
        pending = t.pending ++ record { tweet_id = tweet; delta = delta; created_at = now } ∷ [];
      },
    )
    else (err (violation "like_count_pending_fkey"), t)

-- Adds to one tweet's sum, or opens one.
abbrev pub add_sum : Uuid → ℤ → List (Uuid × ℤ) → List (Uuid × ℤ)
add_sum id delta [] = (id, delta) ∷ []
add_sum id delta ((j, s) ∷ sums) =
    if j == id then (j, s +ℤ delta) ∷ sums else (j, s) ∷ add_sum id delta sums

-- SELECT tweet_id, SUM(delta) … WHERE created_at < $1 GROUP BY tweet_id
abbrev pub sum_pending : Time → List Pending → List (Uuid × ℤ)
sum_pending before [] = []
sum_pending before (p ∷ ps) =
    let sums = sum_pending before ps in
    if ltb p.created_at before then add_sum p.tweet_id p.delta sums else sums

-- DELETE FROM like_count_pending WHERE created_at < $1
abbrev pub delete_pending : Time → St Tables (Unit {0})
delete_pending before t =
    (ok tt, record t { pending = select (λ p. not (ltb p.created_at before)) t.pending })

-- ORDER BY created_at DESC. Postgres leaves the order of rows of one time open; here they stay in the
-- order of the table, which is one of the orders that it may give.
abbrev pub insert_newest : Tweet → List Tweet → List Tweet
insert_newest w [] = w ∷ []
insert_newest w (v ∷ vs) =
    if ltb w.created_at v.created_at then v ∷ insert_newest w vs else w ∷ v ∷ vs

abbrev pub newest_first : List Tweet → List Tweet
newest_first [] = []
newest_first (w ∷ ws) = insert_newest w (newest_first ws)

abbrev pub before? : Option Time → Tweet → Bool
before? none w = Bool.true
before? (some time) w = ltb w.created_at time

abbrev pub one_of : List Uuid → Uuid → Bool
one_of ids id = any (λ j. j == id) ids

-- SELECT … WHERE (a test on the author) [AND created_at < $2] ORDER BY created_at DESC LIMIT …
abbrev pub select_page : (Uuid → Bool) → ℕ → Option Time → Tables → Result (List Tweet)
select_page author limit before t =
    ok (take limit (newest_first (select (λ w. author w.user_id && before? before w) t.tweets)))

-- SELECT … WHERE id = ANY($1) ORDER BY created_at DESC
abbrev pub select_tweets : List Uuid → Tables → Result (List Tweet)
select_tweets ids t = ok (newest_first (select (λ w. one_of ids w.id) t.tweets))
