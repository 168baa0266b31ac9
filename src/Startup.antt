-- ===== src/Startup.antt =====
-- cmd/user/main.go, cmd/tweet/main.go, cmd/timeline/main.go and cmd/gateway/main.go: what each process does
-- from its start to its end, as a log of actions. What the environment, Postgres, Redis and the
-- network answer is a parameter.
pub mod Order
pub mod Mains
use mini_twitter.Common.{
  ◌>>=◌, ◌>>◌, String, Option, none, some, List, [], ◌∷◌, ◌++◌, Result, ok, err, Error, wrap, St,
  pure, ℤ, map,
}
use mini_twitter.Config.{Config, Env, Envconfig, load}
use mini_twitter.Db.{Db, Pool}
use mini_twitter.Db.Open.{Probe, open_db, close_db}

-- What the process meets outside.
pub record Machine : Type 0 where
  pub envconfig : Envconfig
  pub env : Env
  -- what comes of a Postgres URL
  pub probe : String → Probe
  -- PING, to a Redis at an address with a password
  pub ping : String → String → Result (Unit {0})
  pub parse_url : String → Result (Unit {0})
  -- ListenAndServe on a port: an error, or it serves until a signal comes
  pub serving_fails : ℤ → Option Error

pub data Action : Type 0 where
  opened_pools : Db → Action
  connected_redis : Action
  made_proxies : Action
  started_workers : ℤ → ℤ → Action
  started_aggregator : ℤ → Action
  listening : ℤ → Action
  signalled cancelled shut_down : Action
  closed_pools : List Pool → Action
  exited : String → Action

abbrev pub act : Action → St (List Action) (Unit {0})
act a log = (ok tt, log ++ a ∷ [])

-- `log.Fatal()` ends the process at once: what is deferred does not run.
abbrev pub fatal : {A : Type 0} → String → Result A → St (List Action) A
fatal msg (ok a) log = (ok a, log)
fatal msg (err e) log = (err (wrap msg e), log ++ exited msg ∷ [])

-- `New` of pkg/cache/redis.go.
unfoldable pub new_client : Machine → String → String → Result (Unit {0})
new_client m addr password = elim (m.ping addr password) [
  | err e ↦ err (wrap "redis ping" e)
  | ok x ↦ ok tt
]

-- `NewHandler` of internal/gateway/handler.go: the first URL that cannot be parsed is an error.
unfoldable pub new_handler : Machine → String → String → String → Result (Unit {0})
new_handler m user_url tweet_url timeline_url = elim (m.parse_url user_url) [
  | err e ↦ err e
  | ok x ↦ elim (m.parse_url tweet_url) [
    | err e ↦ err e
    | ok y ↦ elim (m.parse_url timeline_url) [ err e ↦ err e | ok z ↦ ok tt ]
  ]
]

abbrev pub until_signal : Option Error → St (List Action) (Unit {0})
until_signal (some e) = fatal "server error" (err e)
until_signal none = act signalled

module _ (m : Machine) where
  -- The part of each `main` from `ListenAndServe` to `<-quit`.
  unfoldable pub serve : ℤ → St (List Action) (Unit {0})
  serve port = do act (listening port); until_signal (m.serving_fails port)

  abbrev pub open_pools : Config → St (List Action) Db
  open_pools cfg = do
    database ←
        fatal "failed to connect to database"
          (open_db (m.probe cfg.postgres_primary_url) (map m.probe cfg.postgres_replica_urls))
    act (opened_pools database)
    pure database

  abbrev pub connect_redis : Config → St (List Action) (Unit {0})
  connect_redis cfg = do
    fatal "failed to connect to redis" (new_client m cfg.redis_addr cfg.redis_password)
    act connected_redis

  unfoldable pub main_user : St (List Action) (Unit {0})
  main_user = do
    cfg ← fatal "failed to load config" (load m.envconfig "" m.env)
    database ← open_pools cfg
    serve cfg.port
    act shut_down
    act (closed_pools (close_db database))

  unfoldable pub main_tweet : St (List Action) (Unit {0})
  main_tweet = do
    cfg ← fatal "failed to load config" (load m.envconfig "" m.env)
    database ← open_pools cfg
    connect_redis cfg
    act (started_workers cfg.fanout_chan_buffer cfg.fanout_worker_count)
    act (started_aggregator cfg.aggregator_interval)
    serve cfg.port
    act cancelled
    act shut_down
    act (closed_pools (close_db database))

  unfoldable pub main_timeline : St (List Action) (Unit {0})
  main_timeline = do
    cfg ← fatal "failed to load config" (load m.envconfig "" m.env)
    database ← open_pools cfg
    connect_redis cfg
    serve cfg.port
    act shut_down
    act (closed_pools (close_db database))

  unfoldable pub main_gateway : St (List Action) (Unit {0})
  main_gateway = do
    cfg ← fatal "failed to load config" (load m.envconfig "" m.env)
    connect_redis cfg
    fatal "failed to create handler"
        (new_handler m cfg.user_service_url cfg.tweet_service_url cfg.timeline_service_url)
    act made_proxies
    serve cfg.port
    act shut_down
