-- ===== src/Gateway/Routes.antt =====
-- The routes of internal/gateway/handler.go, against those that the three services register in their
-- own handler.go, all below /v1. A request is a verb and the segments of its path. Which paths a pattern
-- fits is for chi to say, and a parameter here.
use mini_twitter.Common.{
  ℕ, zero, suc, ◌≡◌, refl, sym, subst, String, Bool, true, false, ◌&&◌, Option, none, some, List,
  [], ◌∷◌, get_elem?, All, Bool-cases, inl, inr, if◌then◌else◌,
}
use mini_twitter.Gateway.{Upstream, user_service, tweet_service, timeline_service}

pub data Verb : Type 0 where
  get post put delete : Verb

abbrev pub same_verb : Verb → Verb → Bool
same_verb get get = true
same_verb post post = true
same_verb put put = true
same_verb delete delete = true
same_verb v w = false

pub data Segment : Type 0 where
  literal : String → Segment
  param : Segment

pub record Route (T : Type 0) : Type 0 where
  pub verb : Verb
  pub path : List Segment
  pub target : T

-- A service's own route is open, or it stands behind the middleware of pkg/auth.
pub data Access : Type 0 where
  open_to_all authenticated : Access

abbrev pub route : {T : Type 0} → Verb → List Segment → T → Route T
route verb path target = record { verb = verb; path = path; target = target }

abbrev pub gateway_routes : List (Route Upstream)
gateway_routes =
    route post (literal "auth" ∷ literal "register" ∷ []) user_service
    ∷ route post (literal "auth" ∷ literal "login" ∷ []) user_service
    ∷ route get (literal "users" ∷ param ∷ []) user_service
    ∷ route put (literal "users" ∷ literal "me" ∷ []) user_service
    ∷ route post (literal "users" ∷ param ∷ literal "follow" ∷ []) user_service
    ∷ route delete (literal "users" ∷ param ∷ literal "follow" ∷ []) user_service
    ∷ route post (literal "tweets" ∷ []) tweet_service
    ∷ route delete (literal "tweets" ∷ param ∷ []) tweet_service
    ∷ route get (literal "tweets" ∷ param ∷ []) tweet_service
    ∷ route post (literal "tweets" ∷ param ∷ literal "like" ∷ []) tweet_service
    ∷ route delete (literal "tweets" ∷ param ∷ literal "like" ∷ []) tweet_service
    ∷ route get (literal "timeline" ∷ literal "home" ∷ []) timeline_service
    ∷ route get (literal "timeline" ∷ literal "user" ∷ param ∷ []) timeline_service
    ∷ []

abbrev pub user_routes : List (Route Access)
user_routes =
    route post (literal "auth" ∷ literal "register" ∷ []) open_to_all
    ∷ route post (literal "auth" ∷ literal "login" ∷ []) open_to_all
    ∷ route get (literal "users" ∷ param ∷ []) open_to_all
    ∷ route put (literal "users" ∷ literal "me" ∷ []) authenticated
    ∷ route post (literal "users" ∷ param ∷ literal "follow" ∷ []) authenticated
    ∷ route delete (literal "users" ∷ param ∷ literal "follow" ∷ []) authenticated
    ∷ []

abbrev pub tweet_routes : List (Route Access)
tweet_routes =
    route post (literal "tweets" ∷ []) authenticated
    ∷ route delete (literal "tweets" ∷ param ∷ []) authenticated
    ∷ route post (literal "tweets" ∷ param ∷ literal "like" ∷ []) authenticated
    ∷ route delete (literal "tweets" ∷ param ∷ literal "like" ∷ []) authenticated
    ∷ route get (literal "tweets" ∷ param ∷ []) open_to_all
    ∷ route post (literal "tweets" ∷ literal "batch" ∷ []) open_to_all
    ∷ []

abbrev pub timeline_routes : List (Route Access)
timeline_routes =
    route get (literal "timeline" ∷ literal "home" ∷ []) authenticated
    ∷ route get (literal "timeline" ∷ literal "user" ∷ param ∷ []) open_to_all
    ∷ []

abbrev pub routes_of : Upstream → List (Route Access)
routes_of user_service = user_routes
routes_of tweet_service = tweet_routes
routes_of timeline_service = timeline_routes

module _ (fits : List Segment → List String → Bool) where
  abbrev pub hits : {T : Type 0} → Verb → List String → Route T → Bool
  hits verb path r = same_verb r.verb verb && fits r.path path

  -- The first route that fits.
  abbrev pub dispatch : {T : Type 0} → List (Route T) → Verb → List String → Option T
  dispatch [] verb path = none
  dispatch (r ∷ rs) verb path = if hits verb path r then some r.target else dispatch rs verb path

-- A service has this route of the gateway as its own.
abbrev pub IsListed : Route Upstream → Type 0
IsListed r =
    (n : ℕ) × (a : Access) × (get_elem? (routes_of r.target) n ≡ some (route r.verb r.path a))

pub gateway_routes-IsListed : All IsListed gateway_routes
gateway_routes-IsListed = (
  (0, open_to_all, refl),
  (
    (1, open_to_all, refl),
    (
      (2, open_to_all, refl),
      (
        (3, authenticated, refl),
        (
          (4, authenticated, refl),
          (
            (5, authenticated, refl),
            (
              (0, authenticated, refl),
              (
                (1, authenticated, refl),
                (
                  (4, open_to_all, refl),
                  (
                    (2, authenticated, refl),
                    (
                      (3, authenticated, refl),
                      ((0, authenticated, refl), ((1, open_to_all, refl), tt)),
                    ),
                  ),
                ),
              ),
            ),
          ),
        ),
      ),
    ),
  ),
)

none_there : {A : Type 0} {a : A} → none ≡ some a → ⊥
none_there e = cc

some_same : {A : Type 0} {a b : A} → some a ≡ some b → a ≡ b
some_same e = cc

module _ (fits : List Segment → List String → Bool) where
  pub dispatch-listed :
      {T : Type 0} (rs : List (Route T)) (n : ℕ) (verb : Verb) (path : List String) (r : Route T)
      → get_elem? rs n ≡ some r
      → hits fits verb path r ≡ true
      → (a : T) × (dispatch fits rs verb path ≡ some a)
  dispatch-listed [] n verb path r e hit = absurd (none_there e)
  dispatch-listed (x ∷ rs) zero verb path r e hit =
      (x.target, rw (subst (λ y. hits fits verb path y ≡ true) (sym (some_same e)) hit) refl)
  dispatch-listed (x ∷ rs) (suc n) verb path r e hit = elim (Bool-cases (hits fits verb path x)) [
    | inl first ↦ (x.target, rw first refl)
    | inr other ↦ let (a, h) = dispatch-listed rs n verb path r e hit in (a, rw other h)
  ]

  -- Whatever patterns chi takes to fit a path, a request that the gateway forwards goes to a service
  -- that has a route for it.
  pub gateway-serves :
      (verb : Verb) (path : List String) (u : Upstream)
      → dispatch fits gateway_routes verb path ≡ some u
      → (a : Access) × (dispatch fits (routes_of u) verb path ≡ some a)
  gateway-serves verb path u e = served gateway_routes gateway_routes-IsListed e
    where
      served :
          (rs : List (Route Upstream))
          → All IsListed rs
          → dispatch fits rs verb path ≡ some u
          → (a : Access) × (dispatch fits (routes_of u) verb path ≡ some a)
      served [] listed h = absurd (none_there h)
      served (r ∷ rs) listed h = elim (Bool-cases (hits fits verb path r)) [
        | inl hit ↦
            let (n, a, there) = listed.0 in
            let goes : r.target ≡ u = some_same (rw hit at h) in
            subst (λ v. (b : Access) × (dispatch fits (routes_of v) verb path ≡ some b)) goes
              (dispatch-listed (routes_of r.target) n verb path (route r.verb r.path a) there hit)
        | inr miss ↦ served rs listed.1 (rw miss at h)
      ]
