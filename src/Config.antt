-- ===== src/Config.antt =====
-- pkg/config/config.go: the settings, and the tags by which envconfig reads them from the environment.
-- envconfig itself is an interface: only what it documents of required variables is used.
use mini_twitter.Common.{
  ℕ, ◌≡◌, String, Bool, true, false, Option, none, some, List, [], ◌∷◌, Result, ok, err, Error, ℤ,
  get_elem?,
}

-- Durations are in nanoseconds.
pub record Config : Type 0 where
  pub service_name : String
  pub port : ℤ
  pub postgres_primary_url : String
  pub postgres_replica_urls : List String
  pub redis_addr : String
  pub redis_password : String
  pub jwt_secret : String
  pub jwt_expiry : ℤ
  pub use_redis : Bool
  pub consistency_mode : String
  pub fanout_worker_count : ℤ
  pub fanout_chan_buffer : ℤ
  pub aggregator_interval : ℤ
  pub user_service_url : String
  pub tweet_service_url : String
  pub timeline_service_url : String
  pub rate_limit_rpm : ℤ

-- A struct tag: the variable, its default, and whether it is required.
pub record Tag : Type 0 where
  pub variable : String
  pub default : Option String
  pub is_required : Bool

abbrev optional : String → Tag
optional variable = record { variable = variable; default = none; is_required = false }

abbrev or_default : String → String → Tag
or_default variable text = record { variable = variable; default = some text; is_required = false }

abbrev required : String → Tag
required variable = record { variable = variable; default = none; is_required = true }

abbrev pub config_tags : List Tag
config_tags =
    or_default "SERVICE_NAME" "mini-twitter"
    ∷ or_default "PORT" "8080"
    ∷ optional "POSTGRES_PRIMARY_URL"
    ∷ optional "POSTGRES_REPLICA_URLS"
    ∷ or_default "REDIS_ADDR" "localhost:6379"
    ∷ optional "REDIS_PASSWORD"
    ∷ required "JWT_SECRET"
    ∷ or_default "JWT_EXPIRY" "24h"
    ∷ or_default "USE_REDIS" "true"
    ∷ or_default "CONSISTENCY_MODE" "eventual"
    ∷ or_default "FANOUT_WORKER_COUNT" "10"
    ∷ or_default "FANOUT_CHAN_BUFFER" "10000"
    ∷ or_default "AGGREGATOR_INTERVAL" "30s"
    ∷ or_default "USER_SERVICE_URL" "http://localhost:8081"
    ∷ or_default "TWEET_SERVICE_URL" "http://localhost:8082"
    ∷ or_default "TIMELINE_SERVICE_URL" "http://localhost:8083"
    ∷ or_default "RATE_LIMIT_RPM" "5000"
    ∷ []

abbrev pub Env : Type 0
Env = String → Option String

pub record Envconfig : Type 0 where
  -- Process(prefix, &cfg), for the tags of `cfg`.
  pub process : String → List Tag → Env → Result Config
  -- Without a prefix, a required variable that is not set is an error.
  pub process-required :
      (tags : List Tag) (env : Env) (n : ℕ) {tag : Tag}
      → get_elem? tags n ≡ some tag
      → tag.is_required ≡ true
      → env tag.variable ≡ none
      → (e : Error) × (process "" tags env ≡ err e)

unfoldable pub load : Envconfig → String → Env → Result Config
load envconfig prefix env = elim (envconfig.process prefix config_tags env) [
  | err e ↦ err e
  | ok cfg ↦ ok cfg
]
