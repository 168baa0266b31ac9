-- ===== src/Tweet/Handler.antt =====
-- internal/tweet/handler.go: what each endpoint answers.
use mini_twitter.Common.{ok, err, Option, none, some, List}
use mini_twitter.Schema.{Uuid, Bytes, Tweet}
use mini_twitter.Postgres.{Server}
use mini_twitter.Http.{Response, write_json, write_error, write_err, no_content}
use mini_twitter.Cache.Redis.{Redis, Uuids}
use mini_twitter.Auth.{Identity, user_id_from_ctx}
use mini_twitter.Tweet.Service.{Settings, World}
use mini_twitter.Tweet.Service

pub record CreateRequest : Type 0 where
  pub content : Bytes
  pub reply_to_id : Option Uuid

module _ (settings : Settings) (server : Server) (uuids : Uuids) (redis : Redis) where
  unfoldable pub create_tweet :
      Option Identity
      → Option CreateRequest
      → World redis.Store
      → Response Tweet × World redis.Store
  create_tweet identity body w = elim (user_id_from_ctx identity) [
    | none ↦ (write_error 401 "unauthorized", w)
    | some user ↦ elim body [
      | none ↦ (write_error 400 "invalid request body", w)
      | some req ↦
          let (r, w') =
            Service.create_tweet settings server uuids redis user req.content req.reply_to_id w in
          elim r [ err e ↦ (write_err 400 e, w') | ok tweet ↦ (write_json 201 tweet, w') ]
    ]
  ]

  unfoldable pub delete_tweet :
      Option Identity → Bytes → World redis.Store → Response (Unit {0}) × World redis.Store
  delete_tweet identity segment w = elim (user_id_from_ctx identity) [
    | none ↦ (write_error 401 "unauthorized", w)
    | some user ↦ elim (uuids.parse segment) [
      | none ↦ (write_error 400 "invalid tweet id", w)
      | some tweet ↦
          let (r, w') = Service.delete_tweet settings server uuids redis tweet user w in
          elim r [ err e ↦ (write_err 500 e, w') | ok _ ↦ (no_content, w') ]
    ]
  ]

  unfoldable pub like_tweet :
      Option Identity → Bytes → World redis.Store → Response (Unit {0}) × World redis.Store
  like_tweet identity segment w = elim (user_id_from_ctx identity) [
    | none ↦ (write_error 401 "unauthorized", w)
    | some user ↦ elim (uuids.parse segment) [
      | none ↦ (write_error 400 "invalid tweet id", w)
      | some tweet ↦
          let (r, w') = Service.like_tweet settings server uuids redis user tweet w in
          elim r [ err e ↦ (write_err 500 e, w') | ok _ ↦ (no_content, w') ]
    ]
  ]

  unfoldable pub unlike_tweet :
      Option Identity → Bytes → World redis.Store → Response (Unit {0}) × World redis.Store
  unlike_tweet identity segment w = elim (user_id_from_ctx identity) [
    | none ↦ (write_error 401 "unauthorized", w)
    | some user ↦ elim (uuids.parse segment) [
      | none ↦ (write_error 400 "invalid tweet id", w)
      | some tweet ↦
          let (r, w') = Service.unlike_tweet settings server uuids redis user tweet w in
          elim r [ err e ↦ (write_err 500 e, w') | ok _ ↦ (no_content, w') ]
    ]
  ]

  unfoldable pub get_tweet : Bytes → World redis.Store → Response Tweet × World redis.Store
  get_tweet segment w = elim (uuids.parse segment) [
    | none ↦ (write_error 400 "invalid tweet id", w)
    | some tweet ↦
        let (r, w') = Service.get_tweet settings server uuids redis tweet w in
        elim r [ err e ↦ (write_error 404 "tweet not found", w') | ok t ↦ (write_json 200 t, w') ]
  ]

  -- POST /v1/tweets/batch, which the timeline service calls.
  unfoldable pub get_batch :
      Option (List Uuid) → World redis.Store → Response (List Tweet) × World redis.Store
  get_batch none w = (write_error 400 "invalid request body", w)
  get_batch (some ids) w =
      let (r, w') = Service.get_tweets_by_ids settings server uuids redis ids w in
      elim r [ err e ↦ (write_err 500 e, w') | ok tweets ↦ (write_json 200 tweets, w') ]
