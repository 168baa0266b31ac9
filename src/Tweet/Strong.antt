-- ===== src/Tweet/Strong.antt =====
-- Likes in strong mode over any sequence of calls of `LikeTweet` and `UnlikeTweet` of
-- internal/tweet/service.go.
use text.Mathlib.Text.{◌==◌ as str_eq}
use mini_twitter.Common.{◌≡◌, refl, ap₂, true, false, ◌&&◌, List, [], ◌∷◌, map, Result, ok, St}
use mini_twitter.Schema.{Uuid}
use mini_twitter.Postgres.{Server}
use mini_twitter.Postgres.Answered.{IsUp}
use mini_twitter.User.Statements.{has_user}
use mini_twitter.Cache.Redis.{Redis, Uuids}
use mini_twitter.Tweet.Statements.{has_tweet}
use mini_twitter.Tweet.Service.{Settings, World, like_tweet, unlike_tweet}
use mini_twitter.Tweet.Likes.{liked?, IsTallied, like-IsTallied, unlike-IsTallied}

pub data Call : Type 0 where
  liking : Uuid → Uuid → Call
  unliking : Uuid → Uuid → Call

module _ (settings : Settings) (server : Server) (uuids : Uuids) (redis : Redis) where
  abbrev pub make : Call → St (World redis.Store) (Unit {0})
  make (liking user tweet) = like_tweet settings server uuids redis user tweet
  make (unliking user tweet) = unlike_tweet settings server uuids redis user tweet

  -- The calls one after the other, whatever each reports.
  unfoldable pub make_all :
      List Call → World redis.Store → List (Result (Unit {0})) × World redis.Store
  make_all [] w = ([], w)
  make_all (call ∷ calls) w =
      let (r, w') = make call w in let (rs, w'') = make_all calls w' in (r ∷ rs, w'')

  -- Each like is the first of a tweet that exists by a user that exists, and only likes that are there
  -- are taken back.
  abbrev pub AreNew : List Call → World redis.Store → Type 0
  AreNew [] w = Unit
  AreNew (liking user tweet ∷ calls) w =
      (liked? user tweet w.cluster.tables ≡ false)
      × (has_user user w.cluster.tables.users && has_tweet tweet w.cluster.tables.tweets ≡ true)
      × AreNew calls (make (liking user tweet) w).1
  AreNew (unliking user tweet ∷ calls) w =
      (liked? user tweet w.cluster.tables ≡ true) × AreNew calls (make (unliking user tweet) w).1

  module _ (strong : str_eq settings.consistency_mode "strong" ≡ true) (up : IsUp server) where
    -- In strong mode, with a server that answers: in a sequence of likes and of likes taken back, in which
    -- each like is the first of a tweet that exists by a user that exists, and only likes that are
    -- there are taken back, every call succeeds, and at the end the key of the likes holds and the
    -- counter of every tweet is the number of its rows.
    pub make_all-IsTallied :
        (calls : List Call) (w : World redis.Store)
        → AreNew calls w
        → IsTallied w.cluster.tables
        → let (rs, w') = make_all calls w in
          (rs ≡ map (λ call. ok tt) calls) × IsTallied w'.cluster.tables
    unfolding make_all
    make_all-IsTallied [] w new v = (refl, v)
    make_all-IsTallied (liking user tweet ∷ calls) w (fresh, both, new) v =
        let (done, now) =
          like-IsTallied settings server uuids redis strong user tweet w up fresh both v in
        let (rest, last) = make_all-IsTallied calls (make (liking user tweet) w).1 new now in
        (ap₂ (λ r rs. r ∷ rs) done rest, last)
    make_all-IsTallied (unliking user tweet ∷ calls) w (old, new) v =
        let (done, now) =
          unlike-IsTallied settings server uuids redis strong user tweet w up old v in
        let (rest, last) = make_all-IsTallied calls (make (unliking user tweet) w).1 new now in
        (ap₂ (λ r rs. r ∷ rs) done rest, last)
