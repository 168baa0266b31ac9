-- ===== src/Startup/Order.antt =====
-- In which order the processes of cmd/*/main.go do things, and what they do without their settings.
use mini_twitter.Common.{
  ◌≡◌, refl, Bool, true, false, none, List, [], ◌∷◌, Result, ok, err, Error, wrap, any, map, ◌⊎◌,
  inl, inr, Result-cases, Option-cases,
}
use mini_twitter.Config.{Config, load, config_tags}
use mini_twitter.Db.{Db}
use mini_twitter.Db.Open.{open_db, close_db}
use mini_twitter.Startup.{
  Machine, Action, opened_pools, connected_redis, started_workers, started_aggregator, listening,
  signalled, cancelled, shut_down, closed_pools, exited, new_client, serve, main_tweet, main_user,
  main_timeline, main_gateway,
}

abbrev pub is_listening : Action → Bool
is_listening (listening port) = true
is_listening a = false

-- The log of a tweet service that came up.
abbrev pub up_to_listening : Config → Db → List Action → List Action
up_to_listening cfg d rest =
    opened_pools d
    ∷ connected_redis
    ∷ started_workers cfg.fanout_chan_buffer cfg.fanout_worker_count
    ∷ started_aggregator cfg.aggregator_interval
    ∷ listening cfg.port
    ∷ rest

abbrev pub is_background : Action → Bool
is_background (started_workers buffer count) = true
is_background (started_aggregator interval) = true
is_background a = false

abbrev pub IsDown : Result (Unit {0}) × List Action → Type 0
IsDown (r, log) =
    ((e : Error) × (r ≡ err e)) × (any is_listening log ≡ false) × (any is_background log ≡ false)

module _ (m : Machine) where
  abbrev pub pools_of : Config → Result Db
  pools_of cfg = open_db (m.probe cfg.postgres_primary_url) (map m.probe cfg.postgres_replica_urls)

  -- A tweet service with all that it needs, until it ends.
  abbrev pub IsComplete : Config → Db → Result (Unit {0}) × List Action → Type 0
  IsComplete cfg d (r, log) =
      ((log ≡ up_to_listening cfg d (exited "server error" ∷ [])) × (e : Error) × (r ≡ err e))
      ⊎ ((log
            ≡ up_to_listening cfg d
                (signalled ∷ cancelled ∷ shut_down ∷ closed_pools (close_db d) ∷ []))
          × (r ≡ ok tt))

  complete :
      (cfg : Config) (d : Db)
      → load m.envconfig "" m.env ≡ ok cfg
      → pools_of cfg ≡ ok d
      → new_client m cfg.redis_addr cfg.redis_password ≡ ok tt
      → IsComplete cfg d (main_tweet m [])
  unfolding main_tweet serve
  complete cfg d loaded pools redis = elim (Option-cases (m.serving_fails cfg.port)) [
    | inr (e, fails) ↦ rw loaded (rw pools (rw redis (rw fails (inl (refl, _, refl)))))
    | inl serves ↦ rw loaded (rw pools (rw redis (rw serves (inr (refl, refl)))))
  ]

  -- The tweet service either comes to nothing, with an error, and then has neither listened nor started
  -- a worker or the aggregator, or it has its settings, its pools and Redis. Then it opens the pools,
  -- connects to Redis, starts the workers and the aggregator with the configured numbers, and only
  -- then listens. If listening fails, that is the end, the pools not closed; otherwise a signal
  -- comes, the workers are cancelled, the server is shut down, and the pools, the primary and
  -- each replica, are closed last.
  pub main_tweet-ordered :
      IsDown (main_tweet m [])
      ⊎ ((cfg : Config) × (d : Db) × (load m.envconfig "" m.env ≡ ok cfg)
          × (pools_of cfg ≡ ok d)
          × (new_client m cfg.redis_addr cfg.redis_password ≡ ok tt)
          × IsComplete cfg d (main_tweet m []))
  unfolding main_tweet
  main_tweet-ordered = elim (Result-cases (load m.envconfig "" m.env)) [
    | inr (e, h) ↦ rw h (inl ((_, refl), refl, refl))
    | inl (cfg, loaded) ↦ elim (Result-cases (pools_of cfg)) [
      | inr (e, h) ↦ inl (rw loaded (rw h ((_, refl), refl, refl)))
      | inl (d, pools) ↦ elim (Result-cases (new_client m cfg.redis_addr cfg.redis_password)) [
        | inr (e, h) ↦ inl (rw loaded (rw pools (rw h ((_, refl), refl, refl))))
        | inl (x, redis) ↦ inr (cfg, d, loaded, pools, redis, complete cfg d loaded pools redis)
      ]
    ]
  ]

  -- What a process does without its settings.
  abbrev pub without_settings : Error → Result (Unit {0}) × List Action
  without_settings e = (err (wrap "failed to load config" e), exited "failed to load config" ∷ [])

  load-unset : m.env "JWT_SECRET" ≡ none → (e : Error) × (load m.envconfig "" m.env ≡ err e)
  unfolding load
  load-unset unset =
      let (e, refused) = m.envconfig.process-required config_tags m.env 6 refl refl unset in
      (e, rw (refused, load) refl)

  -- With JWT_SECRET not set in the environment, each of the four processes ends with the same error
  -- before it opens a pool, connects to Redis or listens.
  pub mains-need_secret :
      m.env "JWT_SECRET" ≡ none
      → (e : Error) × (main_user m [] ≡ without_settings e)
        × (main_tweet m [] ≡ without_settings e)
        × (main_timeline m [] ≡ without_settings e)
        × (main_gateway m [] ≡ without_settings e)
  unfolding main_user main_tweet main_timeline main_gateway
  mains-need_secret unset =
      let (e, refused) = load-unset unset in
      (e, rw refused refl, rw refused refl, rw refused refl, rw refused refl)
