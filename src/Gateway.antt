-- ===== src/Gateway.antt =====
-- internal/gateway: the rate limiter of middleware.go and the routes of handler.go.
pub mod Quota
pub mod Routes
pub mod Mounts
use mini_twitter.Common.{
  ◌/◌, Option, none, some, [], ◌∷◌, Result, ok, err, ℤ, pos, ◌-ℤ◌, ltb_ℤ, if◌then◌else◌,
}
use mini_twitter.Schema.{Time, Bytes}
use mini_twitter.Cache.{rate_key}
use mini_twitter.Cache.Redis.{Redis}

-- The parts of a request that tell who sent it; a missing header is the empty text.
pub record Origin : Type 0 where
  pub x_real_ip : Bytes
  pub x_forwarded_for : Bytes
  pub remote_addr : Bytes

unfoldable pub real_ip : Origin → Bytes
real_ip r = elim r.x_real_ip [
  | [] ↦ elim r.x_forwarded_for [ [] ↦ r.remote_addr | b ∷ bs ↦ b ∷ bs ]
  | b ∷ bs ↦ b ∷ bs
]

abbrev pub max_int : ℤ → ℤ → ℤ
max_int a b = if ltb_ℤ b a then a else b

-- X-RateLimit-Limit and X-RateLimit-Remaining.
pub record Headers : Type 0 where
  pub limit : ℤ
  pub remaining : ℤ

-- What becomes of a request: it goes on to the next handler, with the headers unless Redis failed, or
-- it is answered 429.
pub data Decision : Type 0 where
  forward : Option Headers → Decision
  too_many_requests : Headers → Decision

-- From the reply of Redis; an error lets the request through.
abbrev pub decide : ℤ → Result ℤ → Decision
decide rpm (err e) = forward none
decide rpm (ok count) =
    let headers : Headers = record { limit = rpm; remaining = max_int (pos 0) (rpm -ℤ count) } in
    if ltb_ℤ rpm count then too_many_requests headers else forward (some headers)

module _ (redis : Redis) (rpm : ℤ) where
  -- `Middleware`, at a time in seconds.
  unfoldable pub limit_request : Time → Origin → redis.Store → Decision × redis.Store
  limit_request now origin store =
      let (r, store') = redis.incr_expire (rate_key (real_ip origin) (now / 60)) 61 store in
      (decide rpm r, store')

-- The services behind the gateway.
pub data Upstream : Type 0 where
  user_service tweet_service timeline_service : Upstream
