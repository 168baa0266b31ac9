-- ===== src/Tweet/Fanout/Ending.antt =====
-- The loop of `fanout` of internal/tweet/fanout.go ends: page by page, also where a fetch fails.
use mini_twitter.Common.{
  ℕ, zero, suc, ◌*◌, ◌-◌, ◌<◌, ◌⊎◌, Error, take, drop, le_of_ltb, length-take, length-drop, arith,
  ◌≡◌, refl, sym, ap, ◌∙◌, subst, Option, some, List, [], ◌∷◌, Result, ok, err, wrap, length, last,
  ltb, Bool-cases, inl, inr, if◌then◌else◌,
}
use mini_twitter.Schema.{Uuid}
use mini_twitter.Cache.Redis.{Redis, Uuids}
use mini_twitter.Tweet.Fanout.{FanoutJob, FollowerFetcher, push_page, fanout_page_size, fanout_from}
use mini_twitter.Tweet.Fanout.Delivery.{IsPaging, rest_after, rest_after-next}

module _ (uuids : Uuids) (redis : Redis) {S : Type 0} (fetch : FollowerFetcher S) where
  -- What the loop does with the answer to a fetch.
  abbrev pub with_page :
      ℕ
      → FanoutJob
      → redis.Store
      → Result (List Uuid) × S
      → Option (Result (Unit {0}) × S × redis.Store)
  with_page fuel job store (err e, s') = some (err (wrap "get followers" e), s', store)
  with_page fuel job store (ok [], s') = some (ok tt, s', store)
  with_page fuel job store (ok (id ∷ ids), s') =
      let store' = push_page uuids redis fetch (uuids.show job.tweet_id) (id ∷ ids) store in
      let more = fanout_from uuids redis fetch fuel job (some (last id ids)) s' store' in
      if ltb (length (id ∷ ids)) fanout_page_size then some (ok tt, s', store') else more

  pub fanout_from-with_page :
      (fuel : ℕ) (job : FanoutJob) (after : Option Uuid) (s : S) (store : redis.Store)
      → fanout_from uuids redis fetch (suc fuel) job after s store
        ≡ with_page fuel job store (fetch job.author_id fanout_page_size after s)
  unfolding fanout_from
  fanout_from-with_page fuel job after s store =
      split (fetch job.author_id fanout_page_size after s)
    where
      split :
          (x : Result (List Uuid) × S)
          → elim x.0 [
            | err e ↦ some (err (wrap "get followers" e), x.1, store)
            | ok [] ↦ some (ok tt, x.1, store)
            | ok (id ∷ ids) ↦
                let store' =
                  push_page uuids redis fetch (uuids.show job.tweet_id) (id ∷ ids) store in
                let more = fanout_from uuids redis fetch fuel job (some (last id ids)) x.1 store' in
                if ltb (length (id ∷ ids)) fanout_page_size then some (ok tt, x.1, store') else more
          ]
            ≡ with_page fuel job store x
      split (err e, s') = refl
      split (ok [], s') = refl
      split (ok (id ∷ ids), s') = refl

  module _ (job : FanoutJob) (all : List Uuid) (Fit : S → Type 0)
      (v : IsPaging fetch job.author_id all Fit) where
    abbrev pub Ends : Option (Result (Unit {0}) × S × redis.Store) → Type 0
    Ends o =
        (r : Result (Unit {0})) × (remote : S) × (store : redis.Store) × (o
          ≡ some (r, remote, store))

    pub fanout_from-Ends :
        (fuel : ℕ) (after : Option Uuid) (s : S) (store : redis.Store) (rest : List Uuid)
        → rest_after after all ≡ rest
        → length rest < fuel * fanout_page_size
        → Fit s
        → Ends (fanout_from uuids redis fetch fuel job after s store)
    fanout_from-Ends zero after s store rest e h fit = absurd (omega arith)
    fanout_from-Ends (suc fuel) after s store rest e h fit =
        let (answer, fit') = v.answers after s fit in
        subst Ends (sym (fanout_from-with_page fuel job after s store))
          (by_answer rest e h answer fit' (fanout_from-Ends fuel))
      where
        s' : S
        s' = (fetch job.author_id fanout_page_size after s).1

        by_answer :
            (ys : List Uuid)
            → rest_after after all ≡ ys
            → length ys < suc fuel * fanout_page_size
            → ((fetch job.author_id fanout_page_size after s).0
                ≡ ok (take fanout_page_size (rest_after after all)))
              ⊎ ((x : Error) × ((fetch job.author_id fanout_page_size after s).0 ≡ err x))
            → Fit s'
            → ((after : Option Uuid) (s : S) (store : redis.Store) (rest : List Uuid)
                → rest_after after all ≡ rest
                → length rest < fuel * fanout_page_size
                → Fit s
                → Ends (fanout_from uuids redis fetch fuel job after s store))
            → Ends (with_page fuel job store (fetch job.author_id fanout_page_size after s))
        by_answer ys at small (inr (x, failed)) fit' again = rw (failed, with_page) (_, _, _, refl)
        by_answer [] at small (inl page) fit' again =
            let empty : (fetch job.author_id fanout_page_size after s).0 ≡ ok [] =
              page ∙ ap (λ zs. ok (take fanout_page_size zs)) at in
            rw (empty, with_page) (_, _, _, refl)
        by_answer (x ∷ ys) at small (inl page) fit' again =
            let ids = take (fanout_page_size - 1) ys in
            let full_page : (fetch job.author_id fanout_page_size after s).0 ≡ ok (x ∷ ids) =
              page ∙ ap (λ zs. ok (take fanout_page_size zs)) at in
            rw (full_page, with_page)
              (elim (Bool-cases (ltb (length (x ∷ ids)) fanout_page_size)) [
                | inl short ↦ rw short (_, _, _, refl)
                | inr full ↦ rw full (
                    again (some (last x ids)) s'
                      (push_page uuids redis fetch (uuids.show job.tweet_id) (x ∷ ids) store)
                      (drop (fanout_page_size - 1) ys)
                      (rest_after-next (fanout_page_size - 1) x ys after all v.rising at)
                      (omega (
                        arith,
                        small,
                        le_of_ltb (length (x ∷ ids)) fanout_page_size full,
                        length-take (fanout_page_size - 1) ys,
                        length-drop (fanout_page_size - 1) ys,
                      ))
                      fit')
              ])
