-- ===== src/Cache.antt =====
-- pkg/cache/redis.go: the names of the Redis keys. What Redis itself does is the interface of
-- Cache/Redis.antt.
pub mod Redis
pub mod Names
use mini_twitter.Common.{ℕ, zero, suc, ◌+◌, ◌/◌, ◌%◌, [], ◌∷◌, ◌++◌, ltb, if◌then◌else◌, codes}
use mini_twitter.Schema.{Bytes}

unfoldable pub timeline_key : Bytes → Bytes
timeline_key user_id = codes "timeline:" ++ user_id

unfoldable pub like_count_key : Bytes → Bytes
like_count_key tweet_id = codes "like_count:" ++ tweet_id

-- `%d` of a number that is not negative: decimal digits, most significant first. The fuel bounds the
-- number of digits, and `n + 1` is enough.
unfoldable pub decimal_from : ℕ → ℕ → Bytes → Bytes
decimal_from zero n rest = rest
decimal_from (suc fuel) n rest =
    let digit = (b'0' + n % 10) ∷ rest in
    let more = decimal_from fuel (n / 10) digit in if ltb n 10 then digit else more

unfoldable pub decimal : ℕ → Bytes
unfolding decimal_from
decimal n = decimal_from (suc n) n []

unfoldable pub rate_key : Bytes → ℕ → Bytes
rate_key ip minute = codes "rate:" ++ (ip ++ (codes ":" ++ decimal minute))
