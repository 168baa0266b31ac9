-- ===== src/Tweet/Likes.antt =====
-- Likes in strong mode (internal/tweet/service.go): the counter of a tweet against its rows of `likes`.
use text.Mathlib.Text.{◌==◌ as str_eq}
use mini_twitter.Common.{
  suc, ◌+◌, ◌≡◌, ◌≢◌, ◌⊎◌, inl, inr, Bool, true, false, ◌&&◌, not, List, [], ◌∷◌, ◌++◌, ok, ℤ, pos,
  negsuc, ◌+ℤ◌, ◌≤◌, ◌<◌, any, select, count, count-append, All, arith, subst, ap, ◌∙◌, sym, refl,
  ◌==◌, if◌then◌else◌, Bool-cases,
}
use mini_twitter.Schema.{Uuid, Tweet, Like, Tables}
use mini_twitter.Postgres.{Server}
use mini_twitter.User.Statements.{has_user}
use mini_twitter.Postgres.Answered.{IsUp}
use mini_twitter.Cache.Redis.{Redis, Uuids}
use mini_twitter.Tweet.Statements.{has_tweet, is_like, at_tweet, insert_like_row, delete_like_row}
use mini_twitter.Tweet.Repository.{incr_like_count, insert_like, delete_like}
use mini_twitter.Tweet.Service.{Settings, World, like_tweet, unlike_tweet}

abbrev pub for_tweet : Uuid → Like → Bool
for_tweet id l = l.tweet_id == id

-- The like count of a tweet is the number of its rows.
abbrev pub IsLikeCounted : List Like → Tweet → Type 0
IsLikeCounted ls w = w.like_count ≡ pos (count (for_tweet w.id) ls)

-- The primary key of `likes` holds, and every tweet's counter is right.
pub record IsTallied (t : Tables) : Type 0 where
  pub like_keyed : (user tweet : Uuid) → count (is_like user tweet) t.likes ≤ 1
  pub tallied : All (IsLikeCounted t.likes) t.tweets

abbrev pub liked? : Uuid → Uuid → Tables → Bool
liked? user tweet t = any (is_like user tweet) t.likes

-- The tables after both statements of `LikeTweet`, and of `UnlikeTweet`, in strong mode.
abbrev pub liked : Uuid → Uuid → Tables → Tables
liked user tweet t = record t {
  tweets = at_tweet tweet (pos 1) t.tweets;
  likes = (insert_like_row user tweet t).1.likes;
}

abbrev unliked : Uuid → Uuid → Tables → Tables
unliked user tweet t = record t {
  tweets = at_tweet tweet (negsuc 0) t.tweets;
  likes = (delete_like_row user tweet t).1.likes;
}

pub any-count : (p : Like → Bool) (ls : List Like) → any p ls ≡ false → count p ls ≡ 0
any-count p [] h = refl
any-count p (x ∷ ls) h = ground (arith, any-count p ls)

pub count-any : (p : Like → Bool) (ls : List Like) → any p ls ≡ true → 0 < count p ls
count-any p [] h = cc
count-any p (x ∷ ls) h = ground (arith, count-any p ls)

pub count-select-le : (p q : Like → Bool) (ls : List Like) → count p (select q ls) ≤ count p ls
count-select-le p q [] = omega arith
count-select-le p q (x ∷ ls) = ground (arith, count-select-le p q ls)

module _ (user tweet : Uuid) where
  pub tally_up :
      (ls : List Like) (ws : List Tweet)
      → All (IsLikeCounted ls) ws
      → All
          (IsLikeCounted (ls ++ record { user_id = user; tweet_id = tweet } ∷ []))
          (at_tweet tweet (pos 1) ws)
  unfolding ◌+ℤ◌
  tally_up ls [] h = tt
  tally_up ls (w ∷ ws) h = (
    ground (
      arith,
      count-append (for_tweet w.id) ls (record { user_id = user; tweet_id = tweet } ∷ []),
    ),
    tally_up ls ws h.1,
  )

  pub count-unlike :
      (id : Uuid) (ls : List Like)
      → count (for_tweet id) ls
        ≡ count (for_tweet id) (select (λ l. not (is_like user tweet l)) ls)
          + (if id == tweet then count (is_like user tweet) ls else 0)
  count-unlike id [] = ground arith
  count-unlike id (l ∷ ls) = ground (arith, count-unlike id ls)

  tally_down :
      (ls : List Like) (ws : List Tweet)
      → count (is_like user tweet) ls ≡ 1
      → All (IsLikeCounted ls) ws
      → All
          (IsLikeCounted (select (λ l. not (is_like user tweet l)) ls))
          (at_tweet tweet (negsuc 0) ws)
  unfolding ◌+ℤ◌
  tally_down ls [] one h = tt
  tally_down ls (w ∷ ws) one h = (ground (arith, count-unlike w.id ls), tally_down ls ws one h.1)

  add_nothing : (a d : ℤ) → a +ℤ d ≡ a → d ≡ pos 0
  unfolding ◌+ℤ◌
  add_nothing a d e = ground arith

  -- One of the counters has been moved over rows that count the same.
  moved_alone :
      (d : ℤ) (ls ms : List Like) (ws : List Tweet)
      → d ≢ pos 0
      → count (for_tweet tweet) ms ≡ count (for_tweet tweet) ls
      → has_tweet tweet ws ≡ true
      → All (IsLikeCounted ls) ws
      → ¬ All (IsLikeCounted ms) (at_tweet tweet d ws)
  moved_alone d ls ms [] nz same h v w = cc
  moved_alone d ls ms (x ∷ ws) nz same h v w = elim (Bool-cases (x.id == tweet)) [
    | inl hit ↦
        let at : x.id ≡ tweet = ground arith in
        let same' : count (for_tweet x.id) ms ≡ count (for_tweet x.id) ls =
          subst (λ i. count (for_tweet i) ms ≡ count (for_tweet i) ls) (sym at) same in
        let moved : x.like_count +ℤ d ≡ pos (count (for_tweet x.id) ms) = rw hit at w.0 in
        nz (add_nothing x.like_count d (moved ∙ ap pos same' ∙ sym v.0))
    | inr miss ↦ moved_alone d ls ms ws nz same (ground arith) v.1 w.1
  ]

module _ (settings : Settings) (server : Server) (uuids : Uuids) (redis : Redis)
    (strong : str_eq settings.consistency_mode "strong" ≡ true) where
  pub like_strong :
      (user tweet : Uuid) (w : World redis.Store)
      → IsUp server
      → (liked? user tweet w.cluster.tables ≡ true)
        ⊎ (has_user user w.cluster.tables.users && has_tweet tweet w.cluster.tables.tweets ≡ true)
      → let (r, w') = like_tweet settings server uuids redis user tweet w in
        (r ≡ ok tt) × (w'.cluster.tables ≡ liked user tweet w.cluster.tables)
  unfolding like_tweet incr_like_count insert_like
  like_strong user tweet w up h = ground (arith, up w.cluster.trips, up (suc w.cluster.trips))

  unlike_strong :
      (user tweet : Uuid) (w : World redis.Store)
      → IsUp server
      → let (r, w') = unlike_tweet settings server uuids redis user tweet w in
        (r ≡ ok tt) × (w'.cluster.tables ≡ unliked user tweet w.cluster.tables)
  unfolding unlike_tweet incr_like_count delete_like
  unlike_strong user tweet w up = ground (arith, up w.cluster.trips, up (suc w.cluster.trips))

  -- In strong mode, with a server that answers, a first like of a tweet that exists by a user that
  -- exists succeeds, and keeps the key of the likes and the like counter of every tweet right.
  pub like-IsTallied :
      (user tweet : Uuid) (w : World redis.Store)
      → IsUp server
      → liked? user tweet w.cluster.tables ≡ false
      → has_user user w.cluster.tables.users && has_tweet tweet w.cluster.tables.tweets ≡ true
      → IsTallied w.cluster.tables
      → let (r, w') = like_tweet settings server uuids redis user tweet w in
        (r ≡ ok tt) × IsTallied w'.cluster.tables
  like-IsTallied user tweet w up fresh both v =
      let t = w.cluster.tables in
      let (done, now) = like_strong user tweet w up (inr both) in
      (
        done,
        subst IsTallied (sym now) (
            rw (fresh, both)
              record {
                like_keyed = λ a b. ground (
                  arith,
                  v.like_keyed a b,
                  any-count (is_like user tweet) t.likes fresh,
                  count-append (is_like a b) t.likes
                      (record { user_id = user; tweet_id = tweet } ∷ []),
                );
                tallied = tally_up user tweet t.likes t.tweets v.tallied;
              }),
      )

  -- In strong mode, with a server that answers, taking back a like that is there succeeds and keeps
  -- the key of the likes and the like counter of every tweet right.
  pub unlike-IsTallied :
      (user tweet : Uuid) (w : World redis.Store)
      → IsUp server
      → liked? user tweet w.cluster.tables ≡ true
      → IsTallied w.cluster.tables
      → let (r, w') = unlike_tweet settings server uuids redis user tweet w in
        (r ≡ ok tt) × IsTallied w'.cluster.tables
  unlike-IsTallied user tweet w up old v =
      let t = w.cluster.tables in
      let (done, now) = unlike_strong user tweet w up in
      (
        done,
        subst IsTallied (sym now) (record {
          like_keyed = λ a b. omega (
            arith,
            v.like_keyed a b,
            count-select-le (is_like a b) (λ l. not (is_like user tweet l)) t.likes,
          );
          tallied =
              tally_down user tweet t.likes t.tweets
                (omega (arith, v.like_keyed user tweet, count-any (is_like user tweet) t.likes old))
                v.tallied;
        }),
      )

  -- In strong mode, with a server that answers, taking back a like that is not there from a tweet
  -- that exists reports success and lowers the counter all the same, so the counters, right before,
  -- are wrong.
  pub unlike_unliked_miscounts :
      (user tweet : Uuid) (w : World redis.Store)
      → IsUp server
      → liked? user tweet w.cluster.tables ≡ false
      → has_tweet tweet w.cluster.tables.tweets ≡ true
      → IsTallied w.cluster.tables
      → let (r, w') = unlike_tweet settings server uuids redis user tweet w in
        (r ≡ ok tt) × ¬ IsTallied w'.cluster.tables
  unlike_unliked_miscounts user tweet w up fresh known v =
      let t = w.cluster.tables in
      let (done, now) = unlike_strong user tweet w up in
      let same : count (for_tweet tweet) (delete_like_row user tweet t).1.likes
          ≡ count (for_tweet tweet) t.likes =
        ground (
          arith,
          count-unlike user tweet tweet t.likes,
          any-count (is_like user tweet) t.likes fresh,
        ) in
      (
        done,
        λ x.
            moved_alone user tweet (negsuc 0) t.likes _ t.tweets (λ e. cc) same known v.tallied
              (subst IsTallied now x).tallied,
      )
