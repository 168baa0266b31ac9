-- ===== src/Tweet/Partial.antt =====
-- `LikeTweet` of internal/tweet/service.go in strong mode writes the row and the count in two statements
-- that are not one transaction: what there is in between, and what a second try makes of it.
use text.Mathlib.Text.{◌==◌ as str_eq}
use mini_twitter.Common.{
  suc, ◌≡◌, ◌≢◌, ◌⊎◌, inl, inr, sym, ap, ◌∙◌, subst, refl, Bool, true, false, ◌&&◌, List, [], ◌∷◌,
  ◌++◌, ok, err, Error, pos, count, count-append, any, All, arith, ◌==◌, Bool-cases,
}
use mini_twitter.Schema.{Uuid, Like, Tweet, Tables}
use mini_twitter.Postgres.{Server, answered, refused}
use mini_twitter.Postgres.Answered.{IsUp}
use mini_twitter.User.Statements.{has_user}
use mini_twitter.Cache.Redis.{Redis, Uuids}
use mini_twitter.Tweet.Statements.{has_tweet, is_like, at_tweet, insert_like_row}
use mini_twitter.Tweet.Repository.{incr_like_count, insert_like}
use mini_twitter.Tweet.Service.{Settings, World, like_tweet}
use mini_twitter.Tweet.Likes.{
  for_tweet, liked?, liked, IsLikeCounted, IsTallied, like_strong, like-IsTallied,
}

-- The row is there and the count is not.
abbrev pub row_only : Uuid → Uuid → Tables → Tables
row_only user tweet t = (insert_like_row user tweet t).1

module _ (settings : Settings) (server : Server) (uuids : Uuids) (redis : Redis)
    (strong : str_eq settings.consistency_mode "strong" ≡ true) where
  -- In strong mode, whatever becomes of the two round trips, `LikeTweet` does nothing and reports an error,
  -- or writes the row only and reports an error, or writes the row and the count, and this only
  -- where the row could be written.
  pub like_outcomes :
      (user tweet : Uuid) (w : World redis.Store)
      → let (r, w') = like_tweet settings server uuids redis user tweet w in
        let t = w.cluster.tables in
        ((w'.cluster.tables ≡ t) × (r ≢ ok tt))
        ⊎ (((w'.cluster.tables ≡ row_only user tweet t) × (r ≢ ok tt))
            ⊎ ((w'.cluster.tables ≡ liked user tweet t)
                × ((liked? user tweet t ≡ true)
                    ⊎ (has_user user t.users && has_tweet tweet t.tweets ≡ true))))
  unfolding like_tweet incr_like_count insert_like
  like_outcomes user tweet w = ground arith

-- Rows that count one more, under unchanged counters.
row_uncounted :
    (user tweet : Uuid) (ls : List Like) (ws : List Tweet)
    → has_tweet tweet ws ≡ true
    → All (IsLikeCounted ls) ws
    → ¬ All (IsLikeCounted (ls ++ record { user_id = user; tweet_id = tweet } ∷ [])) ws
row_uncounted user tweet ls [] h v w = cc
row_uncounted user tweet ls (x ∷ ws) h v w = elim (Bool-cases (x.id == tweet)) [
  | inl hit ↦
      let more =
        count-append (for_tweet x.id) ls (record { user_id = user; tweet_id = tweet } ∷ []) in
      let same : pos (count (for_tweet x.id) ls)
          ≡ pos (count (for_tweet x.id) (ls ++ record { user_id = user; tweet_id = tweet } ∷ [])) =
        sym v.0 ∙ w.0 in
      ground (arith, more, same)
  | inr miss ↦ row_uncounted user tweet ls ws (ground arith) v.1 w.1
]

known : (a b : Bool) → a && b ≡ true → b ≡ true
known true b h = h
known false b h = cc

abbrev with_row : Uuid → Uuid → Tables → Tables
with_row user tweet t = record t {
  likes = t.likes ++ record { user_id = user; tweet_id = tweet } ∷ [];
}

any-last :
    (user tweet : Uuid) (ls : List Like)
    → any (is_like user tweet) (ls ++ record { user_id = user; tweet_id = tweet } ∷ []) ≡ true
any-last user tweet [] = ground arith
any-last user tweet (l ∷ ls) = ground (arith, any-last user tweet ls)

-- Liking again over the row makes what one whole like makes.
liked-with_row :
    (user tweet : Uuid) (t : Tables)
    → liked? user tweet t ≡ false
    → has_user user t.users && has_tweet tweet t.tweets ≡ true
    → liked user tweet (with_row user tweet t) ≡ liked user tweet t
liked-with_row user tweet t fresh both =
    let row : Like = record { user_id = user; tweet_id = tweet } in
    let again : (insert_like_row user tweet (with_row user tweet t)).1.likes ≡ t.likes ++ row ∷ [] =
      rw (any-last user tweet t.likes, insert_like_row) refl in
    let once : (insert_like_row user tweet t).1.likes ≡ t.likes ++ row ∷ [] =
      rw (fresh, both, insert_like_row) refl in
    ap (λ ls. record t { tweets = at_tweet tweet (pos 1) t.tweets; likes = ls }) (again ∙ sym once)

module _ (settings : Settings) (server retry : Server) (uuids : Uuids) (redis : Redis)
    (strong : str_eq settings.consistency_mode "strong" ≡ true) where
  half_done :
      (user tweet : Uuid) (w : World redis.Store) (e : Error)
      → server.verdict w.cluster.trips ≡ answered
      → server.verdict (suc w.cluster.trips) ≡ refused e
      → liked? user tweet w.cluster.tables ≡ false
      → has_user user w.cluster.tables.users && has_tweet tweet w.cluster.tables.tweets ≡ true
      → let (r, w') = like_tweet settings server uuids redis user tweet w in
        (r ≡ err e) × (w'.cluster.tables ≡ with_row user tweet w.cluster.tables)
  unfolding like_tweet incr_like_count insert_like
  half_done user tweet w e first second fresh both = ground arith

  -- In strong mode, where the row of a first like is written and the update of the count is refused:
  -- the call reports the error, and the counters, right before, are wrong, since the two statements
  -- are not one transaction. A second try with a server that answers succeeds and makes them right.
  pub like-retried :
      (user tweet : Uuid) (w : World redis.Store) (e : Error)
      → server.verdict w.cluster.trips ≡ answered
      → server.verdict (suc w.cluster.trips) ≡ refused e
      → IsUp retry
      → liked? user tweet w.cluster.tables ≡ false
      → has_user user w.cluster.tables.users && has_tweet tweet w.cluster.tables.tweets ≡ true
      → IsTallied w.cluster.tables
      → let (r, w') = like_tweet settings server uuids redis user tweet w in
        let (r', w'') = like_tweet settings retry uuids redis user tweet w' in
        (r ≡ err e) × (¬ IsTallied w'.cluster.tables) × (r' ≡ ok tt) × IsTallied w''.cluster.tables
  like-retried user tweet w e first second up fresh both v =
      let t = w.cluster.tables in
      let w' = (like_tweet settings server uuids redis user tweet w).1 in
      let (failed, half) = half_done user tweet w e first second fresh both in
      let old : liked? user tweet w'.cluster.tables ≡ true =
        ap (liked? user tweet) half ∙ any-last user tweet t.likes in
      let (done, now) = like_strong settings retry uuids redis strong user tweet w' up (inl old) in
      let (_, whole) = like_strong settings retry uuids redis strong user tweet w up (inr both) in
      let (_, right) =
        like-IsTallied settings retry uuids redis strong user tweet w up fresh both v in
      (
        failed,
        λ x.
            row_uncounted user tweet t.likes t.tweets
              (known (has_user user t.users) (has_tweet tweet t.tweets) both) v.tallied
              (subst IsTallied half x).tallied,
        done,
        subst IsTallied
            (whole
              ∙ sym (liked-with_row user tweet t fresh both)
              ∙ sym (ap (liked user tweet) half)
              ∙ sym now)
            right,
      )
