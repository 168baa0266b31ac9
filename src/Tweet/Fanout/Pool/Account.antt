-- ===== src/Tweet/Fanout/Pool/Account.antt =====
-- What the workers of internal/tweet/fanout.go owe and have pushed, as counts over jobs, workers and
-- events.
use mini_twitter.Common.{
  ℕ, zero, suc, ◌+◌, ◌-◌, ◌≤◌, ◌≡◌, refl, ap, ◌∙◌, subst, Bool, true, false, Option, none, some,
  List, [], ◌∷◌, ◌++◌, length, length-take, last, take, drop, count, any, ltb, ltb→lt,
  if◌then◌else◌, IsRising, Rising, Rising-IsRising, ◌==◌, arith,
}
use mini_twitter.Schema.{Uuid, Bytes}
use mini_twitter.Cache.Redis.{Uuids}
use mini_twitter.Tweet.Fanout.{FanoutJob, fanout_page_size, timeline_max_len}
use mini_twitter.Tweet.Fanout.Delivery.{rest_after, IsRising-select_above}
use mini_twitter.Tweet.Fanout.Pool.{
  Worker, blocked, fetching, pushing, returned, Event, accepted, pushed, unfetched, unpushed,
}

-- A count that is taken where a test holds.
abbrev pub when : Bool → ℕ → ℕ
when b n = if b then n else 0

pub when-add : (b : Bool) (m n : ℕ) → when b (m + n) ≡ when b m + when b n
when-add true m n = refl
when-add false m n = refl

pub none_due : (b : Bool) → 0 ≡ when b 0
none_due true = refl
none_due false = refl

module _ (followers : Uuid → List Uuid) (p : FanoutJob → Bool) (u : Uuid) where
  -- How often a job concerns a user.
  abbrev pub share : FanoutJob → ℕ
  share job = when (p job) (count (λ id. id == u) (followers job.author_id))

  -- Over the jobs that `Enqueue` accepted.
  abbrev pub due : List Event → ℕ
  due [] = 0
  due (accepted job ∷ es) = share job + due es
  due (e ∷ es) = due es

  -- What a worker has not pushed of its job.
  abbrev pub owes : Worker → ℕ
  owes blocked = 0
  owes (fetching job after) =
      when (p job) (count (λ id. id == u) (rest_after after (followers job.author_id)))
  owes (pushing job id ids) = when (p job) (
      count (λ x. x == u) (id ∷ ids)
      + count (λ x. x == u) (rest_after (some (last id ids)) (followers job.author_id)))
  owes returned = 0

-- How often the tweets of the chosen jobs were pushed to a user.
abbrev pub pushes : (FanoutJob → Bool) → Uuid → List Event → ℕ
pushes p u [] = 0
pushes p u (pushed job ids ∷ es) = when (p job) (count (λ id. id == u) ids) + pushes p u es
pushes p u (e ∷ es) = pushes p u es

-- The shares of a user in the pages that were not fetched, or not pushed, because the context had ended.
abbrev pub missed : (Uuid → List Uuid) → (FanoutJob → Bool) → Uuid → List Event → ℕ
missed followers p u [] = 0
missed followers p u (unfetched job after ∷ es) =
    owes followers p u (fetching job after) + missed followers p u es
missed followers p u (unpushed job ids ∷ es) =
    when (p job) (count (λ id. id == u) ids) + missed followers p u es
missed followers p u (e ∷ es) = missed followers p u es

-- The tweets pushed to a user, the last one first.
abbrev pub arrivals : Uuids → Uuid → List Event → List Bytes
arrivals uuids u [] = []
arrivals uuids u (pushed job ids ∷ es) =
    if any (λ id. id == u) ids
    then uuids.show job.tweet_id ∷ arrivals uuids u es
    else arrivals uuids u es
arrivals uuids u (e ∷ es) = arrivals uuids u es

-- A page in hand is a page of the followers.
abbrev pub IsPage : (Uuid → List Uuid) → Worker → Type 0
IsPage followers (pushing job id ids) =
    (after : Option Uuid) × (ys : List Uuid) × (rest_after after (followers job.author_id)
      ≡ id ∷ ys)
    × (ids ≡ take (fanout_page_size - 1) ys)
IsPage followers w = Unit

Rising-take : (n a : ℕ) (xs : List ℕ) → Rising a xs → Rising a (take n xs)
Rising-take zero a xs r = tt
Rising-take (suc n) a [] r = tt
Rising-take (suc n) a (x ∷ xs) r = (r.0, Rising-take n x xs r.1)

rest_after-IsRising :
    (after : Option Uuid) (all : List Uuid) → IsRising all → IsRising (rest_after after all)
rest_after-IsRising none all r = r
rest_after-IsRising (some a) all r = Rising-IsRising a _ (IsRising-select_above a all r)

pub page-IsRising :
    (n x : ℕ) (ys : List Uuid) (after : Option Uuid) (all : List Uuid)
    → IsRising all
    → rest_after after all ≡ x ∷ ys
    → IsRising (x ∷ take n ys)
page-IsRising n x ys after all r e =
    Rising-take n x ys (subst IsRising e (rest_after-IsRising after all r))

drop_all : (n : ℕ) (xs : List Uuid) → length xs ≤ n → drop n xs ≡ []
drop_all zero [] h = refl
drop_all zero (x ∷ xs) h = absurd (omega arith)
drop_all (suc n) [] h = refl
drop_all (suc n) (x ∷ xs) h = drop_all n xs (omega arith)

pub short_page :
    (n x : ℕ) (ys : List Uuid) → ltb (length (x ∷ take n ys)) (suc n) ≡ true → drop n ys ≡ []
short_page n x ys h =
    drop_all n ys (omega (arith, length-take n ys, ltb→lt (length (x ∷ take n ys)) (suc n) h))

take-take : (n : ℕ) (xs : List Bytes) → take n (take (suc n) xs) ≡ take n xs
take-take zero xs = refl
take-take (suc n) [] = refl
take-take (suc n) (x ∷ xs) = ap (◌∷◌ x) (take-take n xs)

-- One more arrival, or none, in a timeline that is cut.
pub arrive :
    (tweet : Bytes) (hit : Bool) (xs news old : List Bytes)
    → xs ≡ take timeline_max_len (news ++ old)
    → (if hit then take timeline_max_len (tweet ∷ xs) else xs)
      ≡ take timeline_max_len ((if hit then tweet ∷ news else news) ++ old)
arrive tweet false xs news old h = h
arrive tweet true xs news old h =
    ap (λ ys. take timeline_max_len (tweet ∷ ys)) h
    ∙ ap (◌∷◌ tweet) (take-take (timeline_max_len - 1) (news ++ old))
