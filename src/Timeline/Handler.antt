-- ===== src/Timeline/Handler.antt =====
-- internal/timeline/handler.go: the query parameters of a page, and what the two endpoints answer.
use mini_twitter.Common.{
  Bool, ok, err, Option, none, some, List, [], ◌∷◌, ℤ, pos, ltb_ℤ, if◌then◌else◌,
}
use mini_twitter.Schema.{Time, Bytes, Tweet}
use mini_twitter.Postgres.{Server}
use mini_twitter.Http.{Response, write_json, write_error, write_err}
use mini_twitter.Cache.Redis.{Redis, Uuids}
use mini_twitter.Auth.{Identity, user_id_from_ctx}
use mini_twitter.Timeline.Service.{Batch, Feed}
use mini_twitter.Timeline.Service

-- strconv.Atoi, and strconv.ParseInt with time.Unix(0, ns): a text is a number or none.
pub record Numbers : Type 0 where
  pub atoi : Bytes → Option ℤ
  pub unix_nano : Bytes → Option Time

-- The query values; a missing one is the empty text.
pub record Query : Type 0 where
  pub limit : Bytes
  pub before : Bytes

module _ (numbers : Numbers) where
  abbrev pub limit_of : Bytes → ℤ
  limit_of [] = pos 50
  limit_of (b ∷ bs) = elim (numbers.atoi (b ∷ bs)) [
    | none ↦ pos 50
    | some n ↦ if ltb_ℤ (pos 0) n then n else pos 50
  ]

  abbrev pub before_of : Bytes → Option Time
  before_of [] = none
  before_of (b ∷ bs) = numbers.unix_nano (b ∷ bs)

  abbrev pub parse_pagination_params : Query → ℤ × Option Time
  parse_pagination_params q = (limit_of q.limit, before_of q.before)

  module _ (use_redis : Bool) (server : Server) (batch : Batch) (uuids : Uuids)
      (redis : Redis) where
    unfoldable pub home_timeline :
        Option Identity → Query → Feed redis.Store → Response (List Tweet) × Feed redis.Store
    home_timeline identity q w = elim (user_id_from_ctx identity) [
      | none ↦ (write_error 401 "unauthorized", w)
      | some user ↦
          let (limit, before) = parse_pagination_params q in
          let (r, w') =
            Service.get_home_timeline server batch use_redis uuids redis user limit before w in
          elim r [ err e ↦ (write_err 500 e, w') | ok tweets ↦ (write_json 200 tweets, w') ]
    ]

    unfoldable pub user_timeline :
        Bytes → Query → Feed redis.Store → Response (List Tweet) × Feed redis.Store
    user_timeline segment q w = elim (uuids.parse segment) [
      | none ↦ (write_error 400 "invalid user id", w)
      | some user ↦
          let (limit, before) = parse_pagination_params q in
          let (r, c) = Service.get_user_timeline server batch user limit before w.cluster in
          elim r [
            | err e ↦ (write_err 500 e, record w { cluster = c })
            | ok tweets ↦ (write_json 200 tweets, record w { cluster = c })
          ]
    ]
