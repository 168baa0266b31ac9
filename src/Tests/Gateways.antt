-- ===== src/Tests/Gateways.antt =====
-- A rate limit of two requests a minute, a bearer token, three replicas, and keys of Redis.
use text.Mathlib.Text.{◌==◌ as str_eq}
use mini_twitter.Gateway.Routes.{Segment, literal, param}
use mini_twitter.Common.{
  String, Bool, true, false, ◌&&◌, ℕ, zero, suc, ◌+◌, ◌-◌, ◌%◌, ◌<◌, ◌≡◌, ◌≢◌, refl, ◌⊎◌, min, List,
  [], ◌∷◌, ◌++◌, pos, get_or, arith, Option, none, some, Error, external, ltb,
}
use mini_twitter.Schema.{Uuid, Time, Bytes}
use mini_twitter.Http.{Response, write_json}
use mini_twitter.Db.{Db, primary, replica, reader, u64}
use mini_twitter.Db.Reader.{reader_wrap_misses}
use mini_twitter.Db.Health.{check_health, answers}
use mini_twitter.Db.Checked.{reader_checked}
use mini_twitter.Auth.{IsTimely, Claims, Identity, hmac, bearer, middleware, sign}
use mini_twitter.Auth.Access.{middleware_passes, middleware_admits, middleware-sign}
use mini_twitter.Gateway.{Origin}
use mini_twitter.Gateway.Quota.{
  key_of, arrived, admitted, admitted_exact, burst, burst_over_boundary,
}
use mini_twitter.Tests.Instances.{memory, no_data, incr_expire_answers}
use mini_twitter.Tests.Tokens.{tokens, manager, ada, encode}

abbrev pub caller : Origin
caller = record { x_real_ip = []; x_forwarded_for = []; remote_addr = 49 ∷ 58 ∷ 56 ∷ [] }

abbrev requests : List (Time × Origin)
requests = (5, caller) ∷ (6, caller) ∷ (7, caller) ∷ []

admitted_exact_example :
    admitted memory (pos 2) (key_of (5, caller)) requests no_data
    ≡ min (2 - 0) (arrived (key_of (5, caller)) requests)
admitted_exact_example =
    admitted_exact memory 2 incr_expire_answers (key_of (5, caller)) requests no_data 0 refl

burst_over_boundary_example :
    let rs = burst 2 59 caller ++ burst 2 60 caller in
    (admitted memory (pos 2) (key_of (59, caller)) rs no_data ≡ 2)
    × (admitted memory (pos 2) (key_of (60, caller)) rs no_data ≡ 2)
    × (key_of (59, caller) ≢ key_of (60, caller))
burst_over_boundary_example =
    burst_over_boundary memory 2 incr_expire_answers 0 caller no_data refl refl

abbrev greet : Identity → ℕ → Response Uuid × ℕ
greet i s = (write_json 200 i.user_id, s + 1)

-- A token without an expiry.
abbrev undying : Bytes
undying = bearer ++ encode (7 ∷ 7 ∷ []) (ada 3 none none (some 10))

undying_passes :
    middleware tokens manager 1_000_000 undying greet 0
    ≡ greet (record { user_id = 3; username = "ada" }) 0
undying_passes =
    middleware_passes tokens manager 1_000_000 greet
      (encode (7 ∷ 7 ∷ []) (ada 3 none none (some 10))) (ada 3 none none (some 10)) 0 (refl, refl)
      (tt, tt)

middleware_admits_example :
    let r = middleware tokens manager 1_000_000 undying greet 0 in
    ((r.0.status ≡ 401) × (r.1 ≡ 0))
    ⊎ ((token : Bytes) × (claims : Claims) × (undying ≡ bearer ++ token)
        × (r ≡ greet (record { user_id = claims.user_id; username = claims.username }) 0)
        × tokens.Signed hmac manager.secret claims token
        × IsTimely 1_000_000 claims)
middleware_admits_example = middleware_admits tokens manager 1_000_000 greet undying 0

middleware-sign_example :
    middleware tokens manager 20
      (bearer ++ encode (7 ∷ 7 ∷ []) (ada 3 (some 3610) none (some 10)))
      greet
      0
    ≡ greet (record { user_id = 3; username = "ada" }) 0
unfolding sign
middleware-sign_example =
    middleware-sign tokens manager 20 greet 10 3 "ada"
      (encode (7 ∷ 7 ∷ []) (ada 3 (some 3610) none (some 10))) 0 refl (omega arith)

-- The second of three replicas answers.
abbrev pings : ℕ → Option Error
pings (suc zero) = none
pings i = some (external i)

abbrev checked_db : Db
checked_db = record { healthy = true ∷ false ∷ true ∷ []; counter = 4 }

reader_checked_example :
    let pool = (reader (check_health pings checked_db).0).0 in
    ((k : ℕ) × (k < 3) × (pool ≡ replica k) × (pings k ≡ none))
    ⊎ ((pool ≡ primary) × ((k : ℕ) → ltb k 3 && answers (pings k) ≡ false))
reader_checked_example = reader_checked pings checked_db (omega arith)

abbrev wrapping_db : Db
wrapping_db = record { healthy = false ∷ false ∷ true ∷ []; counter = 18446744073709551614 }

only_last : (j : ℕ) → get_or wrapping_db.healthy j false ≡ true → ◌≡◌ {A = ℕ} j 2
only_last zero h = absurd cc
only_last (suc zero) h = absurd cc
only_last (suc (suc zero)) h = omega arith
only_last (suc (suc (suc j))) h = absurd cc

reader_wrap_misses_example : (reader wrapping_db).0 ≡ primary
reader_wrap_misses_example =
    reader_wrap_misses wrapping_db refl (omega arith) (omega arith) one_left refl only_last
  where
    one_left : ◌≢◌ {A = ℕ} (u64 % 3) 0
    one_left e = absurd (omega (arith, e))

abbrev pub covers : List Segment → List String → Bool
covers [] [] = true
covers (literal s ∷ ps) (t ∷ ts) = str_eq s t && covers ps ts
covers (param ∷ ps) (t ∷ ts) = covers ps ts
covers ps ts = false
