-- ===== src/Gateway/Mounts.antt =====
-- Where cmd/*/main.go mount the routes, and a request's way through the gateway: the limiter, which comes
-- before the router, `JWTPassthrough`, which only calls the next handler, and the proxy of a route.
use text.Mathlib.Text.{◌==◌ as str_eq}
use mini_twitter.Common.{
  ℕ, zero, suc, ◌≡◌, refl, ap, subst, String, Bool, true, false, Option, none, some, List, [], ◌∷◌,
  ◌++◌, any, map, length, get_elem?, All, Bool-cases, inl, inr, ℤ, arith,
}
use mini_twitter.Schema.{Time}
use mini_twitter.Cache.Redis.{Redis}
use mini_twitter.Gateway.{
  Upstream, user_service, tweet_service, timeline_service, Origin, Headers, Decision, forward,
  too_many_requests, limit_request,
}
use mini_twitter.Gateway.Routes.{
  Verb, post, Segment, literal, param, Route, Access, open_to_all, route, gateway_routes, routes_of,
  hits, dispatch, IsListed, gateway_routes-IsListed, dispatch-listed,
}

-- `r.Mount(prefix, routes)`
abbrev pub mount : {T : Type 0} → List Segment → List (Route T) → List (Route T)
mount prefix [] = []
mount prefix (r ∷ rs) = route r.verb (prefix ++ r.path) r.target ∷ mount prefix rs

abbrev pub internal_prefix : Upstream → List Segment
internal_prefix user_service = literal "internal" ∷ literal "user" ∷ literal "v1" ∷ []
internal_prefix tweet_service = literal "internal" ∷ literal "tweet" ∷ literal "v1" ∷ []
internal_prefix timeline_service = literal "internal" ∷ literal "timeline" ∷ literal "v1" ∷ []

-- The router of a service's `main`.
abbrev pub served_by : Upstream → List (Route Access)
served_by u = mount (literal "v1" ∷ []) (routes_of u) ++ mount (internal_prefix u) (routes_of u)

-- The router of the gateway: `r.Route("/v1", …)`, mounted at "/".
abbrev pub gateway_served : List (Route Upstream)
gateway_served = mount (literal "v1" ∷ []) gateway_routes

-- What becomes of a request at the gateway.
pub data Outcome : Type 0 where
  limited : Headers → Outcome
  proxied : Upstream → Option Headers → Outcome
  method_not_allowed not_found : Option Headers → Outcome

-- Without a route, chi answers 405 where the path fits a route for another verb, and else 404.
abbrev pub routed : Option Upstream → Bool → Option Headers → Outcome
routed (some u) fitting headers = proxied u headers
routed none true headers = method_not_allowed headers
routed none false headers = not_found headers

module _ (fits : List Segment → List String → Bool) (redis : Redis) (rpm : ℤ) where
  abbrev pub after_limiter : Decision → Verb → List String → Outcome
  after_limiter (too_many_requests headers) verb path = limited headers
  after_limiter (forward headers) verb path =
      routed (dispatch fits gateway_served verb path) (any (λ r. fits r.path path) gateway_served)
        headers

  unfoldable pub serve_gateway :
      Time → Origin → Verb → List String → redis.Store → Outcome × redis.Store
  serve_gateway now origin verb path store =
      let (decision, store') = limit_request redis rpm now origin store in
      (after_limiter decision verb path, store')

get_elem?-mount :
    {T : Type 0} (prefix : List Segment) (rs : List (Route T)) (n : ℕ) {r : Route T}
    → get_elem? rs n ≡ some r
    → get_elem? (mount prefix rs) n ≡ some (route r.verb (prefix ++ r.path) r.target)
get_elem?-mount prefix [] n e = absurd cc
get_elem?-mount prefix (x ∷ rs) zero e =
    ap (λ o. elim o [ none ↦ none | some y ↦ some (route y.verb (prefix ++ y.path) y.target) ]) e
get_elem?-mount prefix (x ∷ rs) (suc n) e = get_elem?-mount prefix rs n e

get_elem?-append :
    {A : Type 0} (xs ys : List A) (n : ℕ) {a : A}
    → get_elem? xs n ≡ some a
    → get_elem? (xs ++ ys) n ≡ some a
get_elem?-append [] ys n e = absurd cc
get_elem?-append (x ∷ xs) ys zero e = e
get_elem?-append (x ∷ xs) ys (suc n) e = get_elem?-append xs ys n e

target_same : {A : Type 0} {a b : A} → some a ≡ some b → a ≡ b
target_same e = cc

module _ (fits : List Segment → List String → Bool) where
  mounted-serves :
      (verb : Verb) (path : List String) (u : Upstream) (rs : List (Route Upstream))
      → All IsListed rs
      → dispatch fits (mount (literal "v1" ∷ []) rs) verb path ≡ some u
      → (a : Access) × (dispatch fits (served_by u) verb path ≡ some a)
  mounted-serves verb path u [] listed h = absurd cc
  mounted-serves verb path u (r ∷ rs) listed h =
      let pattern = route r.verb (literal "v1" ∷ r.path) r.target in
      elim (Bool-cases (hits fits verb path pattern)) [
        | inr miss ↦ mounted-serves verb path u rs listed.1 (rw miss at h)
        | inl hit ↦
            let (n, a, there) = listed.0 in
            let goes : r.target ≡ u = target_same (rw hit at h) in
            let mounted =
              get_elem?-append (mount (literal "v1" ∷ []) (routes_of r.target))
                (mount (internal_prefix r.target) (routes_of r.target)) n
                (get_elem?-mount (literal "v1" ∷ []) (routes_of r.target) n there) in
            subst (λ v. (b : Access) × (dispatch fits (served_by v) verb path ≡ some b)) goes
              (dispatch-listed fits (served_by r.target) n verb path
                (route r.verb (literal "v1" ∷ r.path) a) mounted hit)
      ]

  -- Whatever patterns chi takes to fit a path: a request that the gateway hands to a service has been
  -- let through by the limiter, with the same headers, and the router of that service's process has
  -- a route for the same verb and path.
  pub proxied-served :
      (redis : Redis) (rpm : ℤ) (now : Time) (origin : Origin) (verb : Verb) (path : List String)
      (store : redis.Store) (u : Upstream) (headers : Option Headers)
      → (serve_gateway fits redis rpm now origin verb path store).0 ≡ proxied u headers
      → ((limit_request redis rpm now origin store).0 ≡ forward headers)
        × ((a : Access) × (dispatch fits (served_by u) verb path ≡ some a))
  unfolding serve_gateway
  proxied-served redis rpm now origin verb path store u headers h =
      by_decision (limit_request redis rpm now origin store).0 h
    where
      by_route :
          (o : Option Upstream) (fitting : Bool) (hs : Option Headers)
          → routed o fitting hs ≡ proxied u headers
          → (hs ≡ headers) × (o ≡ some u)
      by_route (some v) fitting hs e = (cc, cc)
      by_route none true hs e = absurd cc
      by_route none false hs e = absurd cc

      by_decision :
          (d : Decision)
          → after_limiter fits redis rpm d verb path ≡ proxied u headers
          → (d ≡ forward headers)
            × ((a : Access) × (dispatch fits (served_by u) verb path ≡ some a))
      by_decision (too_many_requests hs) e = absurd cc
      by_decision (forward hs) e =
          let (same, goes) =
            by_route (dispatch fits gateway_served verb path)
              (any (λ r. fits r.path path) gateway_served) hs e in
          (ap forward same, mounted-serves verb path u gateway_routes gateway_routes-IsListed goes)

-- The path of `enrichTweets`.
abbrev pub batch_path : List String
batch_path = "v1" ∷ "tweets" ∷ "batch" ∷ []

is_auth : Option String → Bool
is_auth none = false
is_auth (some s) = str_eq s "auth"

not_auth : get_elem? batch_path 1 ≡ some "auth" → ⊥
unfolding is_auth
not_auth e = let apart : false ≡ true = ap is_auth e in cc

-- What chi documents of patterns: one fits only paths of its length, segment by segment, and a pattern
-- without parameters fits its own text.
pub record IsSegmentwise (fits : List Segment → List String → Bool) : Type 0 where
  pub same_length :
      (p : List Segment) (path : List String) → fits p path ≡ true → length p ≡ length path
  pub same_text :
      (p : List Segment) (path : List String) (n : ℕ) {s : String}
      → fits p path ≡ true
      → get_elem? p n ≡ some (literal s)
      → get_elem? path n ≡ some s
  pub own_text : (texts : List String) → fits (map literal texts) texts ≡ true

module _ (fits : List Segment → List String → Bool) (v : IsSegmentwise fits) where
  misses_length :
      (p : List Segment) (path : List String) → (length p ≡ length path → ⊥) → fits p path ≡ false
  misses_length p path ne = elim (Bool-cases (fits p path)) [
    | inl hit ↦ absurd (ne (v.same_length p path hit))
    | inr miss ↦ miss
  ]

  misses_text :
      (p : List Segment) (path : List String) (n : ℕ) {s : String}
      → get_elem? p n ≡ some (literal s)
      → (get_elem? path n ≡ some s → ⊥)
      → fits p path ≡ false
  misses_text p path n there ne = elim (Bool-cases (fits p path)) [
    | inl hit ↦ absurd (ne (v.same_text p path n hit there))
    | inr miss ↦ miss
  ]

  -- With patterns that fit segment by segment: the batch endpoint, which the timeline service calls without a token, is
  -- served by the tweet service's process without the middleware, and the gateway has no route to it.
  pub batch_internal :
      (dispatch fits (served_by tweet_service) post batch_path ≡ some open_to_all)
      × (dispatch fits gateway_served post batch_path ≡ none)
  batch_internal = (
    rw
        (
          misses_length (literal "v1" ∷ literal "tweets" ∷ []) batch_path
              (λ e. absurd (omega (arith, e))),
          misses_length (literal "v1" ∷ literal "tweets" ∷ param ∷ literal "like" ∷ []) batch_path
              (λ e. absurd (omega (arith, e))),
          v.own_text batch_path,
        )
        refl,
    rw
        (
          misses_text (literal "v1" ∷ literal "auth" ∷ literal "register" ∷ []) batch_path 1 refl
              (λ e. absurd (not_auth e)),
          misses_text (literal "v1" ∷ literal "auth" ∷ literal "login" ∷ []) batch_path 1 refl
              (λ e. absurd (not_auth e)),
          misses_length (literal "v1" ∷ literal "users" ∷ param ∷ literal "follow" ∷ []) batch_path
              (λ e. absurd (omega (arith, e))),
          misses_length (literal "v1" ∷ literal "tweets" ∷ []) batch_path
              (λ e. absurd (omega (arith, e))),
          misses_length (literal "v1" ∷ literal "tweets" ∷ param ∷ literal "like" ∷ []) batch_path
              (λ e. absurd (omega (arith, e))),
        )
        refl,
  )
