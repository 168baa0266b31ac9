-- ===== src/Startup/Mains.antt =====
-- cmd/user/main.go, cmd/timeline/main.go and cmd/gateway/main.go beside cmd/tweet/main.go: what each process
-- has before it listens, and how it ends.
use mini_twitter.Common.{
  ◌≡◌, refl, List, [], ◌∷◌, ◌++◌, Result, ok, err, Error, ◌⊎◌, inl, inr, Result-cases, Option-cases,
  ℤ,
}
use mini_twitter.Config.{Config, load}
use mini_twitter.Db.{Db}
use mini_twitter.Db.Open.{close_db}
use mini_twitter.Startup.{
  Machine, Action, opened_pools, connected_redis, made_proxies, listening, signalled, shut_down,
  closed_pools, exited, new_client, new_handler, serve, main_user, main_tweet, main_timeline,
  main_gateway,
}
use mini_twitter.Startup.Order.{IsDown, IsComplete, pools_of, main_tweet-ordered}

-- A process that did `before`, listened, and ended: at once, or after a signal and `closing`.
abbrev pub IsEnded : List Action → ℤ → List Action → Result (Unit {0}) × List Action → Type 0
IsEnded before port closing (r, log) =
    ((log ≡ before ++ (listening port ∷ exited "server error" ∷ [])) × (e : Error) × (r ≡ err e))
    ⊎ ((log ≡ before ++ (listening port ∷ signalled ∷ closing)) × (r ≡ ok tt))

module _ (m : Machine) where
  abbrev pub IsUserRun : Result (Unit {0}) × List Action → Type 0
  IsUserRun o =
      IsDown o
      ⊎ ((cfg : Config) × (d : Db) × (load m.envconfig "" m.env ≡ ok cfg)
          × (pools_of m cfg ≡ ok d)
          × IsEnded (opened_pools d ∷ []) cfg.port (shut_down ∷ closed_pools (close_db d) ∷ []) o)

  abbrev pub IsTweetRun : Result (Unit {0}) × List Action → Type 0
  IsTweetRun o =
      IsDown o
      ⊎ ((cfg : Config) × (d : Db) × (load m.envconfig "" m.env ≡ ok cfg)
          × (pools_of m cfg ≡ ok d)
          × (new_client m cfg.redis_addr cfg.redis_password ≡ ok tt)
          × IsComplete m cfg d o)

  abbrev pub IsTimelineRun : Result (Unit {0}) × List Action → Type 0
  IsTimelineRun o =
      IsDown o
      ⊎ ((cfg : Config) × (d : Db) × (load m.envconfig "" m.env ≡ ok cfg)
          × (pools_of m cfg ≡ ok d)
          × (new_client m cfg.redis_addr cfg.redis_password ≡ ok tt)
          × IsEnded (opened_pools d ∷ connected_redis ∷ []) cfg.port
              (shut_down ∷ closed_pools (close_db d) ∷ []) o)

  abbrev pub IsGatewayRun : Result (Unit {0}) × List Action → Type 0
  IsGatewayRun o =
      IsDown o
      ⊎ ((cfg : Config) × (load m.envconfig "" m.env ≡ ok cfg)
          × (new_client m cfg.redis_addr cfg.redis_password ≡ ok tt)
          × (new_handler m cfg.user_service_url cfg.tweet_service_url cfg.timeline_service_url
              ≡ ok tt)
          × IsEnded (connected_redis ∷ made_proxies ∷ []) cfg.port (shut_down ∷ []) o)

  user-IsEnded :
      (cfg : Config) (d : Db)
      → load m.envconfig "" m.env ≡ ok cfg
      → pools_of m cfg ≡ ok d
      → IsEnded
          (opened_pools d ∷ [])
          cfg.port
          (shut_down ∷ closed_pools (close_db d) ∷ [])
          (main_user m [])
  unfolding main_user serve
  user-IsEnded cfg d loaded pools = elim (Option-cases (m.serving_fails cfg.port)) [
    | inr (e, fails) ↦ rw loaded (rw pools (rw fails (inl (refl, _, refl))))
    | inl serves ↦ rw loaded (rw pools (rw serves (inr (refl, refl))))
  ]

  timeline-IsEnded :
      (cfg : Config) (d : Db)
      → load m.envconfig "" m.env ≡ ok cfg
      → pools_of m cfg ≡ ok d
      → new_client m cfg.redis_addr cfg.redis_password ≡ ok tt
      → IsEnded
          (opened_pools d ∷ connected_redis ∷ [])
          cfg.port
          (shut_down ∷ closed_pools (close_db d) ∷ [])
          (main_timeline m [])
  unfolding main_timeline serve
  timeline-IsEnded cfg d loaded pools redis = elim (Option-cases (m.serving_fails cfg.port)) [
    | inr (e, fails) ↦ rw loaded (rw pools (rw redis (rw fails (inl (refl, _, refl)))))
    | inl serves ↦ rw loaded (rw pools (rw redis (rw serves (inr (refl, refl)))))
  ]

  gateway-IsEnded :
      (cfg : Config)
      → load m.envconfig "" m.env ≡ ok cfg
      → new_client m cfg.redis_addr cfg.redis_password ≡ ok tt
      → new_handler m cfg.user_service_url cfg.tweet_service_url cfg.timeline_service_url ≡ ok tt
      → IsEnded (connected_redis ∷ made_proxies ∷ []) cfg.port (shut_down ∷ []) (main_gateway m [])
  unfolding main_gateway serve
  gateway-IsEnded cfg loaded redis proxies = elim (Option-cases (m.serving_fails cfg.port)) [
    | inr (e, fails) ↦ rw loaded (rw redis (rw proxies (rw fails (inl (refl, _, refl)))))
    | inl serves ↦ rw loaded (rw redis (rw proxies (rw serves (inr (refl, refl)))))
  ]

  main_user-ordered : IsUserRun (main_user m [])
  unfolding main_user
  main_user-ordered = elim (Result-cases (load m.envconfig "" m.env)) [
    | inr (e, h) ↦ rw h (inl ((_, refl), refl, refl))
    | inl (cfg, loaded) ↦ elim (Result-cases (pools_of m cfg)) [
      | inr (e, h) ↦ inl (rw loaded (rw h ((_, refl), refl, refl)))
      | inl (d, pools) ↦ inr (cfg, d, loaded, pools, user-IsEnded cfg d loaded pools)
    ]
  ]

  main_timeline-ordered : IsTimelineRun (main_timeline m [])
  unfolding main_timeline
  main_timeline-ordered = elim (Result-cases (load m.envconfig "" m.env)) [
    | inr (e, h) ↦ rw h (inl ((_, refl), refl, refl))
    | inl (cfg, loaded) ↦ elim (Result-cases (pools_of m cfg)) [
      | inr (e, h) ↦ inl (rw loaded (rw h ((_, refl), refl, refl)))
      | inl (d, pools) ↦ elim (Result-cases (new_client m cfg.redis_addr cfg.redis_password)) [
        | inr (e, h) ↦ inl (rw loaded (rw pools (rw h ((_, refl), refl, refl))))
        | inl (x, redis) ↦
            inr (cfg, d, loaded, pools, redis, timeline-IsEnded cfg d loaded pools redis)
      ]
    ]
  ]

  main_gateway-ordered : IsGatewayRun (main_gateway m [])
  unfolding main_gateway
  main_gateway-ordered = elim (Result-cases (load m.envconfig "" m.env)) [
    | inr (e, h) ↦ rw h (inl ((_, refl), refl, refl))
    | inl (cfg, loaded) ↦ elim (Result-cases (new_client m cfg.redis_addr cfg.redis_password)) [
      | inr (e, h) ↦ inl (rw loaded (rw h ((_, refl), refl, refl)))
      | inl (x, redis) ↦
          elim (Result-cases
            (new_handler m cfg.user_service_url cfg.tweet_service_url cfg.timeline_service_url)) [
              | inr (e, h) ↦ inl (rw loaded (rw redis (rw h ((_, refl), refl, refl))))
              | inl (y, proxies) ↦
                  inr (cfg, loaded, redis, proxies, gateway-IsEnded cfg loaded redis proxies)
            ]
    ]
  ]

  -- Each of the four processes either comes to nothing, with an error, and then has neither listened
  -- nor started a worker or the aggregator, or it has its settings and all that it needs: the pools,
  -- but not in the gateway, Redis, but not in the user service, and in the gateway the three proxies.
  -- Only then it listens, in the tweet service after the start of the workers and the aggregator.
  -- If listening fails, that is the end, the pools not closed. Otherwise a signal comes, in the
  -- tweet service the workers are cancelled, the server is shut down, and the pools, the primary
  -- and each replica, are closed last.
  pub mains-ordered :
      IsUserRun (main_user m [])
      × IsTweetRun (main_tweet m [])
      × IsTimelineRun (main_timeline m [])
      × IsGatewayRun (main_gateway m [])
  mains-ordered =
      (main_user-ordered, main_tweet-ordered m, main_timeline-ordered, main_gateway-ordered)
