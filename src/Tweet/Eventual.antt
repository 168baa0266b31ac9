-- ===== src/Tweet/Eventual.antt =====
-- Likes in eventual mode: what `LikeTweet` and `UnlikeTweet` of internal/tweet/service.go make of the like
-- rows, the counters in the table and the deltas in Redis.
pub mod Ticks
pub mod Turns
use text.Mathlib.Text.{◌==◌ as str_eq}
use mini_twitter.Common.{
  suc, ◌≡◌, refl, sym, ap, ◌∙◌, inl, inr, ◌⊎◌, true, false, ◌&&◌, not, List, [], ◌∷◌, ◌++◌, ok,
  Option, ℤ, pos, negsuc, ◌+ℤ◌, ◌≤◌, select, count, count-append, All, arith, ◌==◌, if◌then◌else◌,
  Bool-cases, +ℤ_assoc, +ℤ_zero, bytes_eq, bytes_eq_iff, bytes_eq_self, ==_self, ℕ_discrete,
}
use mini_twitter.Schema.{Uuid, Bytes, Tweet, Like, Tables}
use mini_twitter.Postgres.{Server}
use mini_twitter.Postgres.Answered.{IsUp}
use mini_twitter.User.Statements.{has_user}
use mini_twitter.Cache.Redis.{Redis, Uuids, show-injective, value_of}
use mini_twitter.Cache.Names.{like_count_key-injective}
use mini_twitter.Tweet.Statements.{has_tweet, is_like, insert_like_row, delete_like_row}
use mini_twitter.Tweet.Repository.{insert_like, delete_like, insert_like_pending}
use mini_twitter.Tweet.Service.{Settings, World, like_tweet, unlike_tweet}
use mini_twitter.Tweet.Likes.{
  for_tweet, liked?, any-count, count-any, count-select-le, count-unlike,
}
use mini_twitter.Tweet.Aggregator.Steps.{key_of}

module _ (settings : Settings) (server : Server) (uuids : Uuids) (redis : Redis)
    (eventual : str_eq settings.consistency_mode "strong" ≡ false) where
  like_eventual :
      (user tweet : Uuid) (w : World redis.Store)
      → IsUp server
      → (liked? user tweet w.cluster.tables ≡ true)
        ⊎ (has_user user w.cluster.tables.users && has_tweet tweet w.cluster.tables.tweets ≡ true)
      → let (r, w') = like_tweet settings server uuids redis user tweet w in
        (r ≡ ok tt)
        × (w'.cluster.tables.tweets ≡ w.cluster.tables.tweets)
        × (w'.cluster.tables.likes ≡ (insert_like_row user tweet w.cluster.tables).1.likes)
        × (w'.store ≡ (redis.incr_by (key_of uuids tweet) (pos 1) w.store).1)
  unfolding like_tweet insert_like insert_like_pending
  like_eventual user tweet w up h = ground (arith, up w.cluster.trips, up (suc w.cluster.trips))

  unlike_eventual :
      (user tweet : Uuid) (w : World redis.Store)
      → IsUp server
      → let (r, w') = unlike_tweet settings server uuids redis user tweet w in
        (r ≡ ok tt)
        × (w'.cluster.tables.tweets ≡ w.cluster.tables.tweets)
        × (w'.cluster.tables.likes ≡ (delete_like_row user tweet w.cluster.tables).1.likes)
        × (w'.store ≡ (redis.incr_by (key_of uuids tweet) (negsuc 0) w.store).1)
  unfolding unlike_tweet delete_like insert_like_pending
  unlike_eventual user tweet w up = ground (arith, up w.cluster.trips, up (suc w.cluster.trips))

-- What Redis holds for a tweet that the table does not count yet.
abbrev pub delta_in : (uuids : Uuids) (redis : Redis) → redis.Store → Uuid → ℤ
delta_in uuids redis store id = value_of (redis.number_at (key_of uuids id) store)

-- The counter and the delta make the number of the tweet's rows.
abbrev pub IsCountedWith : (Uuid → ℤ) → List Like → Tweet → Type 0
IsCountedWith delta ls w = w.like_count +ℤ delta w.id ≡ pos (count (for_tweet w.id) ls)

-- The primary key of `likes` holds, and no like is lost or counted twice.
pub record IsBooked (delta : Uuid → ℤ) (t : Tables) : Type 0 where
  pub like_keyed : (user tweet : Uuid) → count (is_like user tweet) t.likes ≤ 1
  pub booked : All (IsCountedWith delta t.likes) t.tweets

abbrev only : Uuid → ℤ → Uuid → ℤ
only tweet d id = if id == tweet then d else pos 0

module _ (tweet : Uuid) (d : ℤ) (ls ms : List Like)
    (rows : (id : Uuid)
      → pos (count (for_tweet id) ls) +ℤ only tweet d id ≡ pos (count (for_tweet id) ms)) where
  booked_moved :
      (old new : Uuid → ℤ) (ws : List Tweet)
      → ((id : Uuid) → new id ≡ old id +ℤ only tweet d id)
      → All (IsCountedWith old ls) ws
      → All (IsCountedWith new ms) ws
  booked_moved old new [] h v = tt
  booked_moved old new (w ∷ ws) h v = (
    ap (λ n. w.like_count +ℤ n) (h w.id)
        ∙ sym (+ℤ_assoc w.like_count (old w.id) (only tweet d w.id))
        ∙ ap (λ n. n +ℤ only tweet d w.id) v.0
        ∙ rows w.id,
    booked_moved old new ws h v.1,
  )

like_rows :
    (user tweet : Uuid) (ls : List Like) (id : Uuid)
    → pos (count (for_tweet id) ls) +ℤ only tweet (pos 1) id
      ≡ pos (count (for_tweet id) (ls ++ record { user_id = user; tweet_id = tweet } ∷ []))
unfolding ◌+ℤ◌
like_rows user tweet ls id =
    ground
      (arith, count-append (for_tweet id) ls (record { user_id = user; tweet_id = tweet } ∷ []))

unlike_rows :
    (user tweet : Uuid) (ls : List Like)
    → count (is_like user tweet) ls ≡ 1
    → (id : Uuid)
    → pos (count (for_tweet id) ls) +ℤ only tweet (negsuc 0) id
      ≡ pos (count (for_tweet id) (select (λ l. not (is_like user tweet l)) ls))
unfolding ◌+ℤ◌
unlike_rows user tweet ls one id = ground (arith, count-unlike user tweet id ls)

module _ (uuids : Uuids) (redis : Redis)
    (counts : (k : Bytes) (d : ℤ) (s : redis.Store)
      → (n : ℤ) × ((redis.incr_by k d s).0 ≡ ok n)) where
  like_key_eq : (a b : Uuid) → bytes_eq (key_of uuids a) (key_of uuids b) ≡ (b == a)
  like_key_eq a b = elim (ℕ_discrete a b) [
    | yes same ↦ rw (same, bytes_eq_self (key_of uuids b), ==_self b) refl
    | no other ↦ elim (Bool-cases (bytes_eq (key_of uuids a) (key_of uuids b))) [
      | inl hit ↦ absurd (
          other
            (show-injective uuids a b (like_count_key-injective _ _ ((bytes_eq_iff _ _).0 hit))))
      | inr miss ↦ miss ∙ ground arith
    ]
  ]

  -- An INCRBY moves one delta.
  delta_in-incr :
      (tweet : Uuid) (d : ℤ) (s : redis.Store) (id : Uuid)
      → delta_in uuids redis (redis.incr_by (key_of uuids tweet) d s).1 id
        ≡ delta_in uuids redis s id +ℤ only tweet d id
  delta_in-incr tweet d s id =
      let (n, e) = counts (key_of uuids tweet) d s in
      let (value, after) = redis.incr_by-number (key_of uuids tweet) (key_of uuids id) d s e in
      ap value_of after
      ∙ rw (like_key_eq tweet id) (elim (Bool-cases (id == tweet)) [
        | inl hit ↦
            let same : tweet ≡ id = ground arith in
            rw hit (value ∙ ap (λ i. delta_in uuids redis s i +ℤ d) same)
        | inr miss ↦ rw miss (sym (+ℤ_zero (delta_in uuids redis s id)))
      ])

module _ (settings : Settings) (server : Server) (uuids : Uuids) (redis : Redis)
    (eventual : str_eq settings.consistency_mode "strong" ≡ false) (up : IsUp server)
    (counts : (k : Bytes) (d : ℤ) (s : redis.Store) → (n : ℤ) × ((redis.incr_by k d s).0 ≡ ok n))
    (answers : (k : Bytes) (s : redis.Store)
      → (o : Option ℤ) × ((redis.get_del k s).0 ≡ ok o)) where
  abbrev pub IsBookedIn : World redis.Store → Type 0
  IsBookedIn w = IsBooked (delta_in uuids redis w.store) w.cluster.tables

  pub like-IsBooked :
      (user tweet : Uuid) (w : World redis.Store)
      → liked? user tweet w.cluster.tables ≡ false
      → has_user user w.cluster.tables.users && has_tweet tweet w.cluster.tables.tweets ≡ true
      → IsBookedIn w
      → IsBookedIn (like_tweet settings server uuids redis user tweet w).1
  like-IsBooked user tweet w fresh both v =
      let t = w.cluster.tables in
      let row : Like = record { user_id = user; tweet_id = tweet } in
      let (done, tweets, likes, store) =
        like_eventual settings server uuids redis eventual user tweet w up (inr both) in
      let added : (like_tweet settings server uuids redis user tweet w).1.cluster.tables.likes
          ≡ t.likes ++ row ∷ [] =
        likes ∙ rw (fresh, both) refl in
      record {
        like_keyed = λ a b. rw added (
            ground (
              arith,
              v.like_keyed a b,
              any-count (is_like user tweet) t.likes fresh,
              count-append (is_like a b) t.likes (row ∷ []),
            ));
        booked =
            rw (tweets, added, store)
              (booked_moved tweet (pos 1) t.likes (t.likes ++ row ∷ [])
                (like_rows user tweet t.likes) (delta_in uuids redis w.store) _ t.tweets
                (delta_in-incr uuids redis counts tweet (pos 1) w.store) v.booked);
      }

  pub unlike-IsBooked :
      (user tweet : Uuid) (w : World redis.Store)
      → liked? user tweet w.cluster.tables ≡ true
      → IsBookedIn w
      → IsBookedIn (unlike_tweet settings server uuids redis user tweet w).1
  unlike-IsBooked user tweet w old v =
      let t = w.cluster.tables in
      let others = λ (l : Like). not (is_like user tweet l) in
      let (done, tweets, likes, store) =
        unlike_eventual settings server uuids redis eventual user tweet w up in
      let one : count (is_like user tweet) t.likes ≡ 1 =
        omega (arith, v.like_keyed user tweet, count-any (is_like user tweet) t.likes old) in
      record {
        like_keyed = λ a b.
            rw likes
              (omega (arith, v.like_keyed a b, count-select-le (is_like a b) others t.likes));
        booked =
            rw (tweets, likes, store)
              (booked_moved tweet (negsuc 0) t.likes (select others t.likes)
                (unlike_rows user tweet t.likes one) (delta_in uuids redis w.store) _ t.tweets
                (delta_in-incr uuids redis counts tweet (negsuc 0) w.store) v.booked);
      }
