-- ===== src/Tweet/Deletion.antt =====
-- Who may delete a tweet: `DeleteTweet` of internal/tweet/handler.go, service.go and repository.go.
use mini_twitter.Common.{
  ◌<◌, ◌≡◌, ◌≢◌, refl, sym, ap, ◌∙◌, subst, ◌⊎◌, inl, inr, Bool, true, false, ◌&&◌, ◌||◌, not,
  Result, ok, err, Option, none, some, List, [], ◌∷◌, any, count, arith, ◌==◌, Option-cases,
  Bool-cases, map, select,
}
use mini_twitter.Schema.{Uuid, Bytes, Tweet, Tables}
use mini_twitter.Postgres.{Server, Cluster}
use mini_twitter.Http.{Response, no_content, write_err}
use mini_twitter.Cache.Redis.{Redis, Uuids}
use mini_twitter.Auth.{Identity}
use mini_twitter.Tweet.Statements.{is_own, forget_reply, delete_tweet}
use mini_twitter.Tweet.Repository.{delete}
use mini_twitter.Tweet.Service.{Settings, World}
use mini_twitter.Tweet.Service
use mini_twitter.Tweet.Handler

-- The tables without a tweet and what hangs on it.
abbrev pub without : Uuid → Uuid → Tables → Tables
without tweet user t = (delete_tweet tweet user t).1

delete_cases :
    (server : Server) (tweet user : Uuid) (c : Cluster)
    → let (r, c') = delete server tweet user c in
      ((c'.tables ≡ c.tables) × (r ≢ ok tt))
      ⊎ ((c'.tables ≡ without tweet user c.tables)
          × (0 < count (is_own tweet user) c.tables.tweets))
unfolding delete
delete_cases server tweet user c = ground arith

own_forgotten :
    (id user tweet : Uuid) (w : Tweet) → is_own id user (forget_reply tweet w) ≡ is_own id user w
own_forgotten id user tweet w = elim (Option-cases w.reply_to_id) [
  | inl top ↦ rw top refl
  | inr (parent, reply) ↦
      rw reply
        (elim (Bool-cases (parent == tweet)) [ inl hit ↦ rw hit refl | inr miss ↦ rw miss refl ])
]

gone : (a c x y : Bool) → (a ≡ true → c ≡ true) → y ≡ (x && not c) → y ≡ ((a || x) && not c)
gone true true x y h e = e ∙ ground arith
gone true false x y h e = absurd (not_both (h refl))
  where
    not_both : false ≡ true → ⊥
    not_both k = cc
gone false c x y h e = e

kept : (a c x y : Bool) → (a ≡ true → c ≡ false) → y ≡ (x && not c) → (a || y) ≡ ((a || x) && not c)
kept true true x y h e = absurd (not_both (h refl))
  where
    not_both : true ≡ false → ⊥
    not_both k = cc
kept true false x y h e = refl
kept false c x y h e = e

-- Of all tweets, only the caller's with that id is gone.
own_left :
    (tweet user id author : Uuid) (ws : List Tweet)
    → any (is_own id author) (map (forget_reply tweet) (select (λ w. not (is_own tweet user w)) ws))
      ≡ (any (is_own id author) ws && not (id == tweet && author == user))
own_left tweet user id author [] = refl
own_left tweet user id author (w ∷ ws) =
    let rest = own_left tweet user id author ws in
    elim (Bool-cases (is_own tweet user w)) [
      | inl hit ↦ rw hit (
          gone (is_own id author w) (id == tweet && author == user) (any (is_own id author) ws) _
            (λ h. ground (arith, hit, h)) rest)
      | inr miss ↦ rw miss (
          ap
            (λ b.
              b
              || any (is_own id author)
                  (map (forget_reply tweet) (select (λ v. not (is_own tweet user v)) ws)))
            (own_forgotten id author tweet w)
          ∙ kept (is_own id author w) (id == tweet && author == user) (any (is_own id author) ws) _
              (λ h. ground (arith, miss, h)) rest)
    ]

-- A row of the caller's with this id was there, and of all rows it alone is gone.
pub record IsDeleted (tweet user : Uuid) (t t' : Tables) : Type 0 where
  pub was_own : any (is_own tweet user) t.tweets ≡ true
  pub others_stay :
      (id author : Uuid)
      → any (is_own id author) t'.tweets
        ≡ (any (is_own id author) t.tweets && not (id == tweet && author == user))

-- How the endpoint answers what the service returns.
abbrev replied :
    {Store : Type 0} → Result (Unit {0}) × World Store → Response (Unit {0}) × World Store
replied (err e, w) = (write_err 500 e, w)
replied (ok u, w) = (no_content, w)

module _ (settings : Settings) (server : Server) (uuids : Uuids) (redis : Redis) where
  deleted_in : Uuid → Uuid → World redis.Store → Result (Unit {0}) × World redis.Store
  deleted_in tweet user w =
      let (r, c) = delete server tweet user w.cluster in (r, record w { cluster = c })

  handle-replied :
      (i : Identity) (segment : Bytes) (tweet : Uuid) (w : World redis.Store)
      → uuids.parse segment ≡ some tweet
      → Handler.delete_tweet settings server uuids redis (some i) segment w
        ≡ replied (deleted_in tweet i.user_id w)
  unfolding Handler.delete_tweet Service.delete_tweet deleted_in
  handle-replied i segment tweet w h = rw h (opened (deleted_in tweet i.user_id w))
    where
      opened :
          (x : Result (Unit {0}) × World redis.Store)
          → (elim x.0 [ ok v ↦ (no_content, x.1) | err e ↦ (write_err 500 e, x.1) ]) ≡ replied x
      opened (ok v, c) = refl
      opened (err e, c) = refl

  replied-world : (x : Result (Unit {0}) × World redis.Store) → (replied x).1 ≡ x.1
  replied-world (ok u, w) = refl
  replied-world (err e, w) = refl

  replied-failed :
      (x : Result (Unit {0}) × World redis.Store) → x.0 ≢ ok tt → (replied x).0.status ≢ 204
  replied-failed (ok u, w) h = absurd (h refl)
  replied-failed (err e, w) h = λ k. absurd (omega (arith, k))

  without-IsDeleted :
      (tweet user : Uuid) (t : Tables)
      → 0 < count (is_own tweet user) t.tweets
      → IsDeleted tweet user t (without tweet user t)
  without-IsDeleted tweet user t h = record {
    was_own = counted t.tweets h;
    others_stay = λ id author.
        ap (λ (t' : Tables). any (is_own id author) t'.tweets) some_gone
        ∙ own_left tweet user id author t.tweets;
  }
    where
      counted :
          (ws : List Tweet) → 0 < count (is_own tweet user) ws → any (is_own tweet user) ws ≡ true
      counted [] k = absurd (omega (arith, k))
      counted (x ∷ ws) k = ground (arith, counted ws)

      some_gone : without tweet user t ≡ record t {
        tweets = map (forget_reply tweet) (select (λ w. not (is_own tweet user w)) t.tweets);
        likes = select (λ l. not (l.tweet_id == tweet)) t.likes;
        pending = select (λ p. not (p.tweet_id == tweet)) t.pending;
      }
      some_gone = elim (Bool-cases (count (is_own tweet user) t.tweets == 0)) [
        | inl none_own ↦ absurd (ground (arith, h))
        | inr own ↦ rw (own, delete_tweet) refl
      ]

  -- Whatever becomes of the round trip, the delete endpoint either leaves the tables as they were and
  -- does not answer 204, or the caller is known, the path holds an id, a tweet of the caller had
  -- this id, and of all tweets it alone is gone: nobody deletes the tweet of somebody else.
  pub delete_tweet-owned :
      (identity : Option Identity) (segment : Bytes) (w : World redis.Store)
      → let (r, w') = Handler.delete_tweet settings server uuids redis identity segment w in
        ((w'.cluster.tables ≡ w.cluster.tables) × (r.status ≢ 204))
        ⊎ ((i : Identity) × (tweet : Uuid) × (identity ≡ some i)
            × (uuids.parse segment ≡ some tweet)
            × IsDeleted tweet i.user_id w.cluster.tables w'.cluster.tables)
  unfolding Handler.delete_tweet deleted_in
  delete_tweet-owned none segment w = inl (refl, λ e. absurd (omega (arith, e)))
  delete_tweet-owned (some i) segment w = elim (Option-cases (uuids.parse segment)) [
    | inl bad ↦ inl (rw bad (refl, λ e. absurd (omega (arith, e))))
    | inr (tweet, parsed) ↦
        let answer = handle-replied i segment tweet w parsed in
        let state =
          ap (λ x. x.1.cluster.tables) answer
          ∙ ap (λ (v : World redis.Store). v.cluster.tables)
              (replied-world (deleted_in tweet i.user_id w)) in
        elim (delete_cases server tweet i.user_id w.cluster) [
          | inl (same, failed) ↦ inl (
            state ∙ same,
            λ e.
                replied-failed (deleted_in tweet i.user_id w) failed
                  (sym (ap (λ x. x.0.status) answer) ∙ e),
          )
          | inr (now, own) ↦ inr (
            i,
            tweet,
            refl,
            parsed,
            subst (IsDeleted tweet i.user_id w.cluster.tables) (sym (state ∙ now))
                (without-IsDeleted tweet i.user_id w.cluster.tables own),
          )
        ]
  ]
