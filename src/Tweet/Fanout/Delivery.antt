-- ===== src/Tweet/Fanout/Delivery.antt =====
-- The fan-out of internal/tweet/fanout.go reaches every follower once, and nobody else.
use mini_twitter.Common.{
  ℕ, zero, suc, ◌*◌, ◌-◌, ◌<◌, ◌≤◌, ◌≡◌, ◌≢◌, refl, sym, ap, ap₂, ◌∙◌, subst, true, Option, none,
  some, List, [], ◌∷◌, ◌++◌, Result, ok, err, Error, ◌⊎◌, length, last, take, drop, select, any,
  ltb, ltb→lt, le_of_ltb, if◌then◌else◌, IsRising, Rising, Rising-select, select_above,
  select-select_above, last-ge, arith, take-append-drop, length-drop, length-take, take_all, ◌==◌,
  bytes_eq, bytes_eq_iff, bytes_eq_self, Bool-cases, inl, inr, ==_self, ℕ_discrete, any-Rising,
  Rising-IsRising,
}
use mini_twitter.Schema.{Uuid, Bytes}
use mini_twitter.Cache.{timeline_key}
use mini_twitter.Cache.Names.{timeline_key-injective}
use mini_twitter.Cache.Redis.{Redis, Uuids, show-injective, Cmd, list_after, lists_after}
use mini_twitter.Tweet.Fanout.{
  FanoutJob, FollowerFetcher, push_to, push_all, push_page, fanout_from, fanout, fanout_page_size,
  timeline_max_len,
}

-- The followers behind a cursor.
abbrev pub rest_after : Option Uuid → List Uuid → List Uuid
rest_after none all = all
rest_after (some a) all = select (ltb a) all

Rising-select_above : (a b : ℕ) (xs : List ℕ) → Rising a xs → Rising b (select (ltb b) xs)
Rising-select_above a b [] r = tt
Rising-select_above a b (x ∷ xs) r =
    ground (arith, Rising-select_above x b xs r.1, Rising-select (ltb b) x xs r.1)

pub IsRising-select_above : (b : ℕ) (xs : List ℕ) → IsRising xs → Rising b (select (ltb b) xs)
IsRising-select_above b [] r = tt
IsRising-select_above b (x ∷ xs) r =
    ground (arith, Rising-select_above x b xs r, Rising-select (ltb b) x xs r)

-- The cursor at the end of a page leaves what the page left.
pub rest_after-next :
    (n x : Uuid) (ys : List Uuid) (after : Option Uuid) (all : List Uuid)
    → IsRising all
    → rest_after after all ≡ x ∷ ys
    → rest_after (some (last x (take n ys))) all ≡ drop n ys
rest_after-next n x ys none all r e =
    ap (select (ltb (last x (take n ys)))) e ∙ select_above n x ys (subst IsRising e r)
rest_after-next n x ys (some b) all r e =
    sym (select-select_above (last x (take n ys)) b all above)
    ∙ ap (select (ltb (last x (take n ys)))) e
    ∙ select_above n x ys risen.1
  where
    risen : Rising b (x ∷ ys)
    risen = subst (Rising b) e (IsRising-select_above b all r)

    above : b ≤ last x (take n ys)
    above = omega (arith, risen.0, last-ge x n ys risen.1)

-- A page that is not full is all there is.
pub take_short :
    (n x : ℕ) (ys : List Uuid) → ltb (length (x ∷ take n ys)) (suc n) ≡ true → take n ys ≡ ys
take_short n x ys h =
    take_all n ys (omega (arith, length-take n ys, ltb→lt (length (x ∷ take n ys)) (suc n) h))

lists_after-append :
    (cs ds : List Cmd) (k : Bytes) (xs : List Bytes)
    → lists_after (cs ++ ds) k xs ≡ lists_after ds k (lists_after cs k xs)
lists_after-append [] ds k xs = refl
lists_after-append (c ∷ cs) ds k xs = lists_after-append cs ds k (list_after c k xs)

module _ (uuids : Uuids) (tweet : Bytes) where
  push_all-append :
      (xs ys : List Uuid)
      → push_all uuids tweet (xs ++ ys) ≡ push_all uuids tweet xs ++ push_all uuids tweet ys
  push_all-append [] ys = refl
  push_all-append (x ∷ xs) ys = ap (λ cs. push_to uuids tweet x ++ cs) (push_all-append xs ys)

  -- A page and then the rest is the whole.
  push_page-rest :
      (n x : ℕ) (ys : List Uuid) (k : Bytes) (old : List Bytes)
      → lists_after
          (push_all uuids tweet (drop n ys))
          k
          (lists_after (push_all uuids tweet (x ∷ take n ys)) k old)
        ≡ lists_after (push_all uuids tweet (x ∷ ys)) k old
  push_page-rest n x ys k old =
      sym (
        lists_after-append (push_all uuids tweet (x ∷ take n ys)) (push_all uuids tweet (drop n ys))
          k old)
      ∙ ap (λ cs. lists_after cs k old)
          (sym (push_all-append (x ∷ take n ys) (drop n ys))
            ∙ ap (λ zs. push_all uuids tweet (x ∷ zs)) (take-append-drop n ys))

  own_key :
      (a b : Uuid) → bytes_eq (timeline_key (uuids.show a)) (timeline_key (uuids.show b)) ≡ (a == b)
  own_key a b = elim (ℕ_discrete a b) [
    | yes same ↦ rw (same, bytes_eq_self (timeline_key (uuids.show b)), ==_self b) refl
    | no other ↦
        elim (Bool-cases (bytes_eq (timeline_key (uuids.show a)) (timeline_key (uuids.show b)))) [
          | inl hit ↦ absurd (
              other
                (show-injective uuids a b (timeline_key-injective _ _ ((bytes_eq_iff _ _).0 hit))))
          | inr miss ↦ miss ∙ ground arith
        ]
  ]

  -- A timeline after the whole fan-out.
  pub push_all-timeline :
      (u : Uuid) (ids : List Uuid) (old : List Bytes)
      → IsRising ids
      → lists_after (push_all uuids tweet ids) (timeline_key (uuids.show u)) old
        ≡ (if any (λ id. id == u) ids then take timeline_max_len (tweet ∷ old) else old)
  push_all-timeline u [] old r = refl
  push_all-timeline u (x ∷ ids) old r = rw (own_key x u) (elim (Bool-cases (x == u)) [
    | inl hit ↦ rw hit (
        push_all-timeline u ids _ (Rising-IsRising x ids r)
        ∙ rw (any-Rising u x ids (ground arith) r) refl)
    | inr miss ↦ rw miss (push_all-timeline u ids old (Rising-IsRising x ids r))
  ])

  -- A list that is nobody's timeline is left alone.
  push_all-other :
      (k : Bytes) (ids : List Uuid) (old : List Bytes)
      → ((u : Uuid) → timeline_key (uuids.show u) ≢ k)
      → lists_after (push_all uuids tweet ids) k old ≡ old
  push_all-other k [] old h = refl
  push_all-other k (x ∷ ids) old h = elim (Bool-cases (bytes_eq (timeline_key (uuids.show x)) k)) [
    | inl hit ↦ absurd (h x ((bytes_eq_iff _ _).0 hit))
    | inr miss ↦ rw miss (push_all-other k ids old h)
  ]

-- The setting of a complete fan-out: in the states that are fit, the fetcher serves pages of one
-- rising list of followers and stays fit, and Redis runs every pipeline.
pub record IsServing (redis : Redis) {S : Type 0} (fetch : FollowerFetcher S) (author : Uuid)
    (all : List Uuid) (Fit : S → Type 0) : Type 0 where
  pub rising : IsRising all
  pub serves :
      (after : Option Uuid) (s : S)
      → Fit s
      → ((fetch author fanout_page_size after s).0
          ≡ ok (take fanout_page_size (rest_after after all)))
        × Fit (fetch author fanout_page_size after s).1
  pub runs : (cs : List Cmd) (s : redis.Store) → (redis.pipeline cs s).0 ≡ ok tt

-- A fetcher of which a call may also fail: in the states that are fit, it answers with a page of one
-- rising list of followers or with an error, and stays fit.
pub record IsPaging {S : Type 0} (fetch : FollowerFetcher S) (author : Uuid) (all : List Uuid)
    (Fit : S → Type 0) : Type 0 where
  pub rising : IsRising all
  pub answers :
      (after : Option Uuid) (s : S)
      → Fit s
      → (((fetch author fanout_page_size after s).0
            ≡ ok (take fanout_page_size (rest_after after all)))
          ⊎ ((e : Error) × ((fetch author fanout_page_size after s).0 ≡ err e)))
        × Fit (fetch author fanout_page_size after s).1

module _ (uuids : Uuids) (redis : Redis) {S : Type 0} (fetch : FollowerFetcher S) (job : FanoutJob)
    (all : List Uuid) (Fit : S → Type 0) (v : IsServing redis fetch job.author_id all Fit) where
  -- What the loop owes from a cursor on.
  abbrev Delivers :
      Option Uuid → redis.Store → Option (Result (Unit {0}) × S × redis.Store) → Type 0
  Delivers after store r =
      (s' : S) × (store' : redis.Store) × (r ≡ some (ok tt, s', store'))
      × ((k : Bytes)
          → redis.list_at k store'
            ≡ lists_after (push_all uuids (uuids.show job.tweet_id) (rest_after after all)) k
                (redis.list_at k store))

  fanout_from-Delivers :
      (fuel : ℕ) (after : Option Uuid) (s : S) (store : redis.Store) (rest : List Uuid)
      → rest_after after all ≡ rest
      → length rest < fuel * fanout_page_size
      → Fit s
      → Delivers after store (fanout_from uuids redis fetch fuel job after s store)
  unfolding fanout_from
  fanout_from-Delivers zero after s store rest e h fit = absurd (omega arith)
  fanout_from-Delivers (suc fuel) after s store [] e h fit =
      let page : (fetch job.author_id fanout_page_size after s).0 ≡ ok [] =
        (v.serves after s fit).0 ∙ ap (λ zs. ok (take fanout_page_size zs)) e in
      (
        (fetch job.author_id fanout_page_size after s).1,
        store,
        rw (page, fanout_from) refl,
        λ k. rw e refl,
      )
  fanout_from-Delivers (suc fuel) after s store (x ∷ ys) e h fit =
      let tweet = uuids.show job.tweet_id in
      let s' = (fetch job.author_id fanout_page_size after s).1 in
      let ids = take (fanout_page_size - 1) ys in
      let store' = push_page uuids redis fetch tweet (x ∷ ids) store in
      let page : (fetch job.author_id fanout_page_size after s).0 ≡ ok (x ∷ ids) =
        (v.serves after s fit).0 ∙ ap (λ zs. ok (take fanout_page_size zs)) e in
      let pushed = λ (k : Bytes).
        redis.pipeline-list (push_all uuids tweet (x ∷ ids)) k store
          (v.runs (push_all uuids tweet (x ∷ ids)) store) in
      elim (Bool-cases (ltb (length (x ∷ ids)) fanout_page_size)) [
        | inl short ↦ (
          s',
          store',
          rw (page, fanout_from) (rw short refl),
          λ k.
              pushed k
              ∙ rw e (
                  ap (λ zs. lists_after (push_all uuids tweet (x ∷ zs)) k (redis.list_at k store))
                    (take_short (fanout_page_size - 1) x ys short)),
        )
        | inr full ↦
            let (s'', store'', ends, lists) =
              fanout_from-Delivers fuel (some (last x ids)) s' store'
                (drop (fanout_page_size - 1) ys)
                (rest_after-next (fanout_page_size - 1) x ys after all v.rising e)
                (omega (
                  arith,
                  h,
                  le_of_ltb (length (x ∷ ids)) fanout_page_size full,
                  length-take (fanout_page_size - 1) ys,
                  length-drop (fanout_page_size - 1) ys,
                ))
                (v.serves after s fit).1 in
            (
              s'',
              store'',
              rw (page, fanout_from) (rw full ends),
              λ k.
                  lists k
                  ∙ ap₂ (λ zs old. lists_after (push_all uuids tweet zs) k old)
                      (rest_after-next (fanout_page_size - 1) x ys after all v.rising e) (pushed k)
                  ∙ push_page-rest uuids tweet (fanout_page_size - 1) x ys k (redis.list_at k store)
                  ∙ ap (λ zs. lists_after (push_all uuids tweet zs) k (redis.list_at k store))
                      (sym e),
            )
      ]

  -- With a fetcher that serves the pages of a rising list of followers, a Redis that runs every
  -- pipeline, and fuel for every page, the fan-out ends without an error. Then each follower's
  -- timeline begins with the tweet, before the entries that it had, cut to 1000; every other
  -- timeline and every list that is no timeline is as it was.
  pub fanout_delivers :
      (fuel : ℕ) (s : S) (store : redis.Store)
      → length all < fuel * fanout_page_size
      → Fit s
      → (s' : S) × (store' : redis.Store) × (fanout uuids redis fetch fuel job s store
          ≡ some (ok tt, s', store'))
        × ((u : Uuid)
            → redis.list_at (timeline_key (uuids.show u)) store' ≡ (
                if any (λ id. id == u) all
                then take timeline_max_len
                    (uuids.show job.tweet_id ∷ redis.list_at (timeline_key (uuids.show u)) store)
                else redis.list_at (timeline_key (uuids.show u)) store))
        × ((k : Bytes)
            → ((u : Uuid) → timeline_key (uuids.show u) ≢ k)
            → redis.list_at k store' ≡ redis.list_at k store)
  unfolding fanout
  fanout_delivers fuel s store h fit =
      let (s', store', ends, lists) = fanout_from-Delivers fuel none s store all refl h fit in
      (
        s',
        store',
        ends,
        λ u.
            lists (timeline_key (uuids.show u))
            ∙ push_all-timeline uuids (uuids.show job.tweet_id) u all _ v.rising,
        λ k other. lists k ∙ push_all-other uuids (uuids.show job.tweet_id) k all _ other,
      )
