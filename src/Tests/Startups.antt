-- ===== src/Tests/Startups.antt =====
-- The routers matched segment by segment, and processes that start with and without their settings.
use text.Mathlib.Text.{◌==◌ as str_eq}
use text.Mathlib.TextPositions.{eq_refl}
use text.Mathlib.TextEquality.{eq_iff}
use mini_twitter.Common.{
  ℕ, zero, suc, ◌≡◌, refl, ap, ◌∙◌, String, Bool, true, false, ◌&&◌, Option, none, some, List, [],
  ◌∷◌, map, length, get_elem?, ok, err, Error, message, pos, arith, if◌then◌else◌, ◌+ℤ◌, ◌-ℤ◌, ◌||◌,
}
use mini_twitter.Db.{Db, primary, replica}
use mini_twitter.Db.Open.{reached}
use mini_twitter.Config.{Config, Tag, Env, Envconfig, load}
use mini_twitter.Startup.{
  Machine, main_user, main_tweet, main_timeline, main_gateway, new_client, serve, signalled,
  cancelled, shut_down, closed_pools, exited,
}
use mini_twitter.Startup.Order.{up_to_listening, without_settings, mains-need_secret}
use mini_twitter.Startup.Mains.{IsUserRun, IsTweetRun, IsTimelineRun, IsGatewayRun, mains-ordered}
use mini_twitter.Gateway.{tweet_service, user_service, Headers, forward, limit_request}
use mini_twitter.Gateway.Routes.{Segment, literal, param, Access, open_to_all, post, dispatch}
use mini_twitter.Gateway.Mounts.{
  served_by, gateway_served, batch_path, IsSegmentwise, proxied-served, batch_internal,
  serve_gateway, proxied,
}
use mini_twitter.Tests.Instances.{memory, no_data}
use mini_twitter.Tests.Gateways.{covers, caller}

covers-length :
    (p : List Segment) (path : List String) → covers p path ≡ true → length p ≡ length path
covers-length [] [] h = refl
covers-length [] (t ∷ ts) h = cc
covers-length (literal s ∷ ps) [] h = cc
covers-length (literal s ∷ ps) (t ∷ ts) h = ap suc (covers-length ps ts (ground arith))
covers-length (param ∷ ps) [] h = cc
covers-length (param ∷ ps) (t ∷ ts) h = ap suc (covers-length ps ts h)

covers-text :
    (p : List Segment) (path : List String) (n : ℕ) {s : String}
    → covers p path ≡ true
    → get_elem? p n ≡ some (literal s)
    → get_elem? path n ≡ some s
covers-text [] [] n h e = absurd cc
covers-text [] (t ∷ ts) n h e = absurd cc
covers-text (literal s ∷ ps) [] n h e = absurd cc
covers-text (literal x ∷ ps) (t ∷ ts) zero h e =
    let same : x ≡ t = (eq_iff x t).0 (ground arith) in cc
covers-text (literal x ∷ ps) (t ∷ ts) (suc n) h e = covers-text ps ts n (ground arith) e
covers-text (param ∷ ps) [] n h e = absurd cc
covers-text (param ∷ ps) (t ∷ ts) zero h e = absurd cc
covers-text (param ∷ ps) (t ∷ ts) (suc n) h e = covers-text ps ts n h e

covers-own : (texts : List String) → covers (map literal texts) texts ≡ true
covers-own [] = refl
covers-own (t ∷ ts) = rw (eq_refl t) (covers-own ts)

covers-IsSegmentwise : IsSegmentwise covers
covers-IsSegmentwise = record {
  same_length = covers-length;
  same_text = covers-text;
  own_text = covers-own;
}

batch_internal_example :
    (dispatch covers (served_by tweet_service) post batch_path ≡ some open_to_all)
    × (dispatch covers gateway_served post batch_path ≡ none)
batch_internal_example = batch_internal covers covers-IsSegmentwise

abbrev headers : Headers
headers = record { limit = pos 2; remaining = pos 1 }

follow_proxied :
    (serve_gateway covers memory
      (pos 2)
      5
      caller
      post
      ("v1" ∷ "users" ∷ "7" ∷ "follow" ∷ [])
      no_data).0
    ≡ proxied user_service (some headers)
unfolding serve_gateway limit_request ◌+ℤ◌ ◌-ℤ◌
follow_proxied = refl

proxied-served_example :
    ((limit_request memory (pos 2) 5 caller no_data).0 ≡ forward (some headers))
    × ((a : Access) × (dispatch covers
            (served_by user_service)
            post
            ("v1" ∷ "users" ∷ "7" ∷ "follow" ∷ [])
          ≡ some a))
proxied-served_example =
    proxied-served covers memory (pos 2) 5 caller post ("v1" ∷ "users" ∷ "7" ∷ "follow" ∷ [])
      no_data user_service (some headers) follow_proxied

-- The defaults, with a secret.
abbrev settings : Config
settings = record {
  service_name = "mini-twitter";
  port = pos 8080;
  postgres_primary_url = "primary";
  postgres_replica_urls = "replica" ∷ [];
  redis_addr = "localhost:6379";
  redis_password = "";
  jwt_secret = "secret";
  jwt_expiry = pos 86_400_000_000_000;
  use_redis = true;
  consistency_mode = "eventual";
  fanout_worker_count = pos 10;
  fanout_chan_buffer = pos 10_000;
  aggregator_interval = pos 30_000_000_000;
  user_service_url = "http://localhost:8081";
  tweet_service_url = "http://localhost:8082";
  timeline_service_url = "http://localhost:8083";
  rate_limit_rpm = pos 5000;
}

-- An envconfig that finds what is missing and takes no other variable than these settings.
abbrev is_unset : Option String → Bool
is_unset none = true
is_unset (some s) = false

abbrev lacks : List Tag → Env → Bool
lacks [] env = false
lacks (tag ∷ tags) env = tag.is_required && is_unset (env tag.variable) || lacks tags env

tag_same : {a b : Tag} → some a ≡ some b → a ≡ b
tag_same e = cc

lacks-unset :
    (tags : List Tag) (env : Env) (n : ℕ) {tag : Tag}
    → get_elem? tags n ≡ some tag
    → tag.is_required ≡ true
    → env tag.variable ≡ none
    → lacks tags env ≡ true
lacks-unset [] env n there needed unset = absurd cc
lacks-unset (x ∷ tags) env zero there needed unset =
    let same = tag_same there in
    let required : x.is_required ≡ true = ap (λ (t : Tag). t.is_required) same ∙ needed in
    let missing : env x.variable ≡ none = ap (λ (t : Tag). env t.variable) same ∙ unset in
    rw (required, missing) refl
lacks-unset (x ∷ tags) env (suc n) there needed unset =
    ground (arith, lacks-unset tags env n there needed unset)

abbrev reads : Envconfig
reads = record {
  process = λ prefix tags env.
      if lacks tags env then err (message "required key missing value") else ok settings;
  process-required = λ tags env n there needed unset.
      (message "required key missing value", rw (lacks-unset tags env n there needed unset) refl);
}

abbrev bare : Machine
bare = record {
  envconfig = reads;
  env = λ variable. none;
  probe = λ url. reached;
  ping = λ addr password. ok tt;
  parse_url = λ url. ok tt;
  serving_fails = λ port. none;
}

mains-need_secret_example :
    (e : Error) × (main_user bare [] ≡ without_settings bare e)
    × (main_tweet bare [] ≡ without_settings bare e)
    × (main_timeline bare [] ≡ without_settings bare e)
    × (main_gateway bare [] ≡ without_settings bare e)
mains-need_secret_example = mains-need_secret bare refl

abbrev configured : Machine
configured = record bare {
  env = λ variable. if str_eq variable "JWT_SECRET" then some "secret" else none;
}

mains-ordered_example :
    IsUserRun configured (main_user configured [])
    × IsTweetRun configured (main_tweet configured [])
    × IsTimelineRun configured (main_timeline configured [])
    × IsGatewayRun configured (main_gateway configured [])
mains-ordered_example = mains-ordered configured

abbrev one_replica : Db
one_replica = record { healthy = true ∷ []; counter = 0 }

-- A tweet service that comes up, and a gateway that finds no Redis.
main_tweet_up : main_tweet configured [] ≡ (
  ok tt,
  up_to_listening settings one_replica
      (signalled ∷ cancelled ∷ shut_down ∷ closed_pools (primary ∷ replica 0 ∷ []) ∷ []),
)
unfolding main_tweet serve load new_client
main_tweet_up = refl

abbrev no_redis : Machine
no_redis = record configured { ping = λ addr password. err (message "refused") }

main_gateway_down : (main_gateway no_redis []).1 ≡ exited "failed to connect to redis" ∷ []
unfolding main_gateway load new_client
main_gateway_down = refl
