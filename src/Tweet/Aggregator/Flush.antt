-- ===== src/Tweet/Aggregator/Flush.antt =====
-- Whole flushes of internal/tweet/likeaggregator.go, with a database and a Redis that answer: which
-- deltas reach the tweets, which are lost, and which are counted twice.
use mini_twitter.Common.{
  ◌≡◌, ◌≢◌, refl, sym, ap, ap₂, subst, ◌∙◌, inl, inr, true, false, List, [], ◌∷◌, ok, Option, none,
  some, ℤ, pos, ◌+ℤ◌, map, arith, ◌==◌, if◌then◌else◌, Bool-cases, bytes_eq, bytes_eq_iff,
  bytes_eq_self, All, ℕ_discrete,
}
use mini_twitter.Schema.{Uuid, Time, Bytes, Tweet, Pending, Tables}
use mini_twitter.Postgres.{Server, Cluster}
use mini_twitter.Postgres.Answered.{IsUp}
use mini_twitter.Cache.Names.{like_count_key-injective}
use mini_twitter.Cache.Redis.{Redis, Uuids, show-injective}
use mini_twitter.Tweet.Statements.{at_tweet, sum_pending, one_of}
use mini_twitter.Tweet.Aggregator.{flush_delta, flush_from, flush}
use mini_twitter.Tweet.Aggregator.Steps.{
  kept, settled, flush_delta-tables, key_of, flush_from-delta,
}

-- Every tweet of `ids` has gained its delta.
abbrev pub gained : List Uuid → (Uuid → ℤ) → List Tweet → List Tweet
gained ids delta =
    map λ w. if one_of ids w.id then record w { like_count = w.like_count +ℤ delta w.id } else w

abbrev pub Distinct : List Uuid → Type 0
Distinct [] = Unit {0}
Distinct (id ∷ ids) = (one_of ids id ≡ false) × Distinct ids

one_of-ne : (ids : List Uuid) (a b : Uuid) → one_of ids a ≡ true → one_of ids b ≡ false → a ≢ b
one_of-ne ids a b h h' e = cc

gained_one :
    (id : Uuid) (ids : List Uuid) (delta : Uuid → ℤ) (w : Tweet)
    → one_of ids id ≡ false
    → (let v : Tweet =
          if w.id == id then record w { like_count = w.like_count +ℤ delta id } else w in
        if one_of ids v.id then record v { like_count = v.like_count +ℤ delta v.id } else v)
      ≡ (if one_of (id ∷ ids) w.id then record w { like_count = w.like_count +ℤ delta w.id } else w)
gained_one id ids delta w h = elim (ℕ_discrete w.id id) [
  | yes same ↦ ground (arith, ap delta same, ap (one_of ids) same)
  | no other ↦ ground arith
]

gained-at_tweet :
    (id : Uuid) (ids : List Uuid) (delta : Uuid → ℤ) (ws : List Tweet)
    → one_of ids id ≡ false
    → gained ids delta (at_tweet id (delta id) ws) ≡ gained (id ∷ ids) delta ws
gained-at_tweet id ids delta [] h = refl
gained-at_tweet id ids delta (w ∷ ws) h =
    ap₂ ◌∷◌ (gained_one id ids delta w h) (gained-at_tweet id ids delta ws h)

pub kept-kept : (time : Time) (ps : List Pending) → kept time (kept time ps) ≡ kept time ps
kept-kept time [] = refl
kept-kept time (p ∷ ps) = ground (arith, kept-kept time ps)

pub sum_pending-kept : (time : Time) (ps : List Pending) → sum_pending time (kept time ps) ≡ []
sum_pending-kept time [] = refl
sum_pending-kept time (p ∷ ps) = ground (arith, sum_pending-kept time ps)

gained-nil : (delta : Uuid → ℤ) (ws : List Tweet) → gained [] delta ws ≡ ws
gained-nil delta [] = refl
gained-nil delta (w ∷ ws) = ap (◌∷◌ w) (gained-nil delta ws)

module _ (server : Server) (uuids : Uuids) (redis : Redis) (up : IsUp server)
    (answers : (k : Bytes) (s : redis.Store)
      → (o : Option ℤ) × ((redis.get_del k s).0 ≡ ok o)) where
  pub get_del-reads :
      (k : Bytes) (s : redis.Store) → (redis.get_del k s).0 ≡ ok (redis.number_at k s)
  get_del-reads k s = let (o, e) = answers k s in e ∙ ap ok (redis.get_del-number k k s e).0

  pub get_del-others :
      (id j : Uuid) (s : redis.Store)
      → id ≢ j
      → redis.number_at (key_of uuids j) (redis.get_del (key_of uuids id) s).1
        ≡ redis.number_at (key_of uuids j) s
  get_del-others id j s ne =
      let (o, e) = answers (key_of uuids id) s in
      (redis.get_del-number (key_of uuids id) (key_of uuids j) s e).1
      ∙ elim (Bool-cases (bytes_eq (key_of uuids id) (key_of uuids j))) [
        | inl hit ↦ absurd (
            ne
              (show-injective uuids id j (like_count_key-injective _ _ ((bytes_eq_iff _ _).0 hit))))
        | inr miss ↦ rw miss refl
      ]

  get_del-clears :
      (id : Uuid) (s : redis.Store)
      → redis.number_at (key_of uuids id) (redis.get_del (key_of uuids id) s).1 ≡ none
  get_del-clears id s =
      let (o, e) = answers (key_of uuids id) s in
      (redis.get_del-number (key_of uuids id) (key_of uuids id) s e).1
      ∙ rw (bytes_eq_self (key_of uuids id)) refl

  -- What Redis holds for the pending tweets: a delta that is not zero.
  abbrev Holds : (Uuid → ℤ) → redis.Store → Uuid → Type 0
  Holds delta store id =
      (redis.number_at (key_of uuids id) store ≡ some (delta id)) × (delta id ≢ pos 0)

  Holds-after :
      (delta : Uuid → ℤ) (store : redis.Store) (id : Uuid) (js : List Uuid)
      → one_of js id ≡ false
      → All (Holds delta store) js
      → All (Holds delta (redis.get_del (key_of uuids id) store).1) js
  Holds-after delta store id [] h a = tt
  Holds-after delta store id (j ∷ js) h a = (
    (get_del-others id j store (ground arith) ∙ a.0.0, a.0.1),
    Holds-after delta store id js (ground arith) a.1,
  )

  turn :
      (time : Time) (delta : Uuid → ℤ) (id : Uuid) (ids : List Uuid) (c : Cluster)
      (store : redis.Store)
      → Holds delta store id
      → flush_from server uuids redis time (id ∷ ids) (c, store)
        ≡ flush_from server uuids redis time ids
            (flush_delta server time id (delta id) c, (redis.get_del (key_of uuids id) store).1)
  turn time delta id ids c store h =
      flush_from-delta server uuids redis time id ids c store (delta id)
        (get_del-reads (key_of uuids id) store ∙ ap ok h.0) h.1

  numbers_after :
      (time : Time) (delta : Uuid → ℤ) (ids : List Uuid) (c : Cluster) (store : redis.Store)
      → Distinct ids
      → All (Holds delta store) ids
      → (j : Uuid)
      → redis.number_at (key_of uuids j) (flush_from server uuids redis time ids (c, store)).1
        ≡ (if one_of ids j then none else redis.number_at (key_of uuids j) store)
  unfolding flush_from
  numbers_after time delta [] c store d a j = refl
  numbers_after time delta (id ∷ ids) c store d a j =
      ap (λ w. redis.number_at (key_of uuids j) w.1) (turn time delta id ids c store a.0)
      ∙ numbers_after time delta ids _ _ d.1 (Holds-after delta store id ids d.0 a.1) j
      ∙ elim (ℕ_discrete id j) [
        | yes same ↦ ground (
          arith,
          subst
              (λ i.
                redis.number_at (key_of uuids i) (redis.get_del (key_of uuids id) store).1 ≡ none)
              same (get_del-clears id store),
        )
        | no other ↦ ground (arith, get_del-others id j store other)
      ]

  -- The tables after the turns for `ids`, where the old pending rows are gone already.
  abbrev Gained : Time → (Uuid → ℤ) → List Uuid → Tables → Tables → Type 0
  Gained time delta ids t t' =
      t' ≡ record t { tweets = gained ids delta t.tweets; pending = kept time t.pending }

  Gained-turn :
      (time : Time) (delta : Uuid → ℤ) (id : Uuid) (ids : List Uuid) (t t' : Tables)
      → one_of ids id ≡ false
      → Gained time delta ids (settled time id (delta id) t) t'
      → Gained time delta (id ∷ ids) t t'
  Gained-turn time delta id ids t t' h e = e ∙ λ i. record t {
    tweets = gained-at_tweet id ids delta t.tweets h i;
    pending = kept-kept time t.pending i;
  }

  module _ (time : Time) (delta : Uuid → ℤ) where
    -- The pending rows are gone after a turn.
    kept_after_turn :
        (id : Uuid) (c : Cluster)
        → let t = (flush_delta server time id (delta id) c).tables in
          kept time t.pending ≡ t.pending
    kept_after_turn id c =
        subst (λ (t : Tables). kept time t.pending ≡ t.pending)
          (sym (flush_delta-tables server up time id (delta id) c))
          (kept-kept time c.tables.pending)

    turn_then :
        (id : Uuid) (ids : List Uuid) (c : Cluster) (store : redis.Store)
        → one_of ids id ≡ false
        → Holds delta store id
        → Gained time delta ids
            (flush_delta server time id (delta id) c).tables
            (flush_from server uuids redis time ids (
              flush_delta server time id (delta id) c,
              (redis.get_del (key_of uuids id) store).1,
            )).0.tables
        → Gained time delta
            (id ∷ ids)
            c.tables
            (flush_from server uuids redis time (id ∷ ids) (c, store)).0.tables
    turn_then id ids c store d a rest =
        ap (λ w. w.0.tables) (turn time delta id ids c store a)
        ∙ Gained-turn time delta id ids c.tables
            (flush_from server uuids redis time ids (
              flush_delta server time id (delta id) c,
              (redis.get_del (key_of uuids id) store).1,
            )).0.tables
            d
            (rest
              ∙ ap
                  (λ (t : Tables). record t {
                    tweets = gained ids delta t.tweets;
                    pending = kept time t.pending;
                  })
                  (flush_delta-tables server up time id (delta id) c))

    tables_after :
        (ids : List Uuid) (c : Cluster) (store : redis.Store)
        → Distinct ids
        → All (Holds delta store) ids
        → kept time c.tables.pending ≡ c.tables.pending
        → Gained time delta ids c.tables
            (flush_from server uuids redis time ids (c, store)).0.tables
    unfolding flush_from
    tables_after [] c store d a k =
        sym λ i. record (c.tables) { tweets = gained-nil delta c.tables.tweets i; pending = k i }
    tables_after (id ∷ ids) c store d a k = turn_then id ids c store d.0 a.0 (
        tables_after ids (flush_delta server time id (delta id) c)
          (redis.get_del (key_of uuids id) store).1 d.1 (Holds-after delta store id ids d.0 a.1)
          (kept_after_turn id c))

  -- With a server and a Redis that answer, distinct pending tweets, and a delta other than zero in
  -- Redis for each, a flush adds each delta to its tweet once, in whatever order the tweets come,
  -- takes the deltas out of Redis, and deletes the pending rows from before the flush; nothing else
  -- changes in the tables or the counters.
  pub flush_gains :
      (time : Time) (delta : Uuid → ℤ) (id : Uuid) (ids : List Uuid) (c : Cluster)
      (store : redis.Store)
      → Distinct (id ∷ ids)
      → All
          (λ j. (redis.number_at (key_of uuids j) store ≡ some (delta j)) × (delta j ≢ pos 0))
          (id ∷ ids)
      → let (c', store') = flush server uuids redis time (id ∷ ids) (c, store) in
        (c'.tables ≡ record (c.tables) {
          tweets = gained (id ∷ ids) delta c.tables.tweets;
          pending = kept time c.tables.pending;
        })
        × ((j : Uuid)
            → redis.number_at (key_of uuids j) store'
              ≡ (if one_of (id ∷ ids) j then none else redis.number_at (key_of uuids j) store))
  unfolding flush
  flush_gains time delta id ids c store d a = (
    turn_then time delta id ids c store d.0 a.0 (
        tables_after time delta ids (flush_delta server time id (delta id) c)
          (redis.get_del (key_of uuids id) store).1 d.1 (Holds-after delta store id ids d.0 a.1)
          (kept_after_turn time delta id c)),
    numbers_after time delta (id ∷ ids) c store d a,
  )
