-- ===== src/Gateway/Quota.antt =====
-- What the rate limiter of internal/gateway/middleware.go lets through, over any sequence of requests.
use mini_twitter.Common.{
  ℕ, zero, suc, ◌+◌, ◌-◌, ◌*◌, ◌/◌, ◌≤◌, ◌≡◌, ◌≢◌, refl, sym, ap, ◌∙◌, subst, min, Bool, true,
  false, ◌&&◌, List, [], ◌∷◌, ◌++◌, Result, ok, some, none, ℤ, pos, ◌+ℤ◌, ltb, bytes_eq,
  bytes_eq_iff, bytes_eq_self, append-nil, Bool-cases, inl, inr, arith, if◌then◌else◌, add_pos,
}
use mini_twitter.Schema.{Time, Bytes}
use mini_twitter.Cache.{rate_key}
use mini_twitter.Cache.Names.{rate_key-injective}
use mini_twitter.Cache.Redis.{Redis, value_of}
use mini_twitter.Gateway.{
  Origin, real_ip, Decision, forward, too_many_requests, decide, limit_request,
}

abbrev pub is_forward : Decision → Bool
is_forward (forward h) = true
is_forward (too_many_requests h) = false

-- The counter that a request falls under.
abbrev pub key_of : Time × Origin → Bytes
key_of (now, origin) = rate_key (real_ip origin) (now / 60)

-- How many of the requests fall under a counter.
abbrev pub arrived : Bytes → List (Time × Origin) → ℕ
arrived k [] = 0
arrived k (r ∷ rs) = if bytes_eq (key_of r) k then suc (arrived k rs) else arrived k rs

module _ (redis : Redis) (rpm : ℤ) where
  -- How many of them are forwarded, when the limiter sees the requests one after the other.
  pub admitted : Bytes → List (Time × Origin) → redis.Store → ℕ
  admitted k [] s = 0
  admitted k ((now, origin) ∷ rs) s =
      let (d, s') = limit_request redis rpm now origin s in
      if bytes_eq (key_of (now, origin)) k && is_forward d
      then suc (admitted k rs s')
      else admitted k rs s'

forwarded : (n c : ℕ) → is_forward (decide (pos n) (ok (pos (suc c)))) ≡ ltb c n
forwarded n c = ground arith

quota_step :
    (n c m rest : ℕ)
    → rest ≡ min (n - suc c) m
    → (if ltb c n then suc rest else rest) ≡ min (n - c) (suc m)
quota_step n c m rest h = ground arith

module _ (redis : Redis) (n : ℕ)
    (answers : (k : Bytes) (seconds : ℕ) (s : redis.Store)
      → (m : ℤ) × ((redis.incr_expire k seconds s).0 ≡ ok m)) where
  abbrev incr : Time → Origin → redis.Store → Result ℤ × redis.Store
  incr now origin s = redis.incr_expire (key_of (now, origin)) 61 s

  elsewhere :
      (k : Bytes) (now : Time) (origin : Origin) (s : redis.Store)
      → bytes_eq (key_of (now, origin)) k ≡ false
      → redis.number_at k (incr now origin s).1 ≡ redis.number_at k s
  elsewhere k now origin s miss =
      let (m, e) = answers (key_of (now, origin)) 61 s in
      (redis.incr_expire-number (key_of (now, origin)) k 61 s e).1 ∙ rw miss refl

  counted :
      (k : Bytes) (now : Time) (origin : Origin) (s : redis.Store) (c : ℕ)
      → bytes_eq (key_of (now, origin)) k ≡ true
      → value_of (redis.number_at k s) ≡ pos c
      → ((incr now origin s).0 ≡ ok (pos (suc c)))
        × (redis.number_at k (incr now origin s).1 ≡ some (pos (suc c)))
  counted k now origin s c hit h =
      let (m, e) = answers (key_of (now, origin)) 61 s in
      let (count, after) = redis.incr_expire-number (key_of (now, origin)) k 61 s e in
      let same : k ≡ key_of (now, origin) = sym ((bytes_eq_iff _ _).0 hit) in
      let value : m ≡ pos (suc c) =
        count
        ∙ ap (λ x. x +ℤ pos 1) (subst (λ x. value_of (redis.number_at x s) ≡ pos c) same h)
        ∙ add_pos c 1
        ∙ ap pos (omega arith) in
      (e ∙ ap ok value, after ∙ rw hit (ap some value))

  -- Where Redis answers every INCR: of the requests under one counter that stands at `c`, the
  -- limiter forwards as many as are left of the quota, whatever other requests come in between.
  pub admitted_exact :
      (k : Bytes) (rs : List (Time × Origin)) (s : redis.Store) (c : ℕ)
      → value_of (redis.number_at k s) ≡ pos c
      → admitted redis (pos n) k rs s ≡ min (n - c) (arrived k rs)
  unfolding admitted limit_request
  admitted_exact k [] s c h = omega arith
  admitted_exact k ((now, origin) ∷ rs) s c h =
      elim (Bool-cases (bytes_eq (key_of (now, origin)) k)) [
        | inr miss ↦ rw miss (
            admitted_exact k rs (incr now origin s).1 c
              (ap value_of (elsewhere k now origin s miss) ∙ h))
        | inl hit ↦
            let reply = counted k now origin s c hit h in
            rw hit (
              rw (reply.0, forwarded n c)
                (quota_step n c (arrived k rs) (admitted redis (pos n) k rs (incr now origin s).1)
                  (admitted_exact k rs (incr now origin s).1 (suc c) (ap value_of reply.1))))
      ]

-- A caller's requests in one second.
abbrev pub burst : ℕ → Time → Origin → List (Time × Origin)
burst zero now origin = []
burst (suc n) now origin = (now, origin) ∷ burst n now origin

arrived-burst :
    (k : Bytes) (n : ℕ) (now : Time) (origin : Origin) (rs : List (Time × Origin))
    → bytes_eq (key_of (now, origin)) k ≡ true
    → arrived k (burst n now origin ++ rs) ≡ n + arrived k rs
arrived-burst k zero now origin rs h = omega arith
arrived-burst k (suc n) now origin rs h = rw h (omega (arith, arrived-burst k n now origin rs h))

bytes_eq_ne : (a b : Bytes) → a ≢ b → bytes_eq a b ≡ false
bytes_eq_ne a b ne = elim (Bool-cases (bytes_eq a b)) [
  | inl hit ↦ absurd (ne ((bytes_eq_iff a b).0 hit))
  | inr miss ↦ miss
]

arrived-burst_apart :
    (k : Bytes) (n : ℕ) (now : Time) (origin : Origin) (rs : List (Time × Origin))
    → bytes_eq (key_of (now, origin)) k ≡ false
    → arrived k (burst n now origin ++ rs) ≡ arrived k rs
arrived-burst_apart k zero now origin rs h = refl
arrived-burst_apart k (suc n) now origin rs h = rw h (arrived-burst_apart k n now origin rs h)

boundary_keys :
    (minute : ℕ) (origin : Origin)
    → key_of (60 * minute + 59, origin) ≢ key_of (60 * minute + 59 + 1, origin)
boundary_keys minute origin e =
    absurd (omega (arith, (rate_key-injective (real_ip origin) (real_ip origin) _ _ e).1))

module _ (redis : Redis) (n : ℕ)
    (answers : (k : Bytes) (seconds : ℕ) (s : redis.Store)
      → (m : ℤ) × ((redis.incr_expire k seconds s).0 ≡ ok m)) where
  -- A counter that is missing lets a whole quota through, when at least as many requests arrive.
  full_quota :
      (k : Bytes) (rs : List (Time × Origin)) (s : redis.Store)
      → redis.number_at k s ≡ none
      → n ≤ arrived k rs
      → admitted redis (pos n) k rs s ≡ n
  full_quota k rs s h enough =
      let exact : admitted redis (pos n) k rs s ≡ min (n - 0) (arrived k rs) =
        admitted_exact redis n answers k rs s 0 (ap value_of h) in
      omega arith

  -- Where Redis answers every INCR, the quota is one of fixed minutes, not of a bucket that
  -- refills: a caller that is new in both minutes gets twice the quota through in two neighbouring
  -- seconds, the last of one minute and the first of the next.
  pub burst_over_boundary :
      (minute : ℕ) (origin : Origin) (s : redis.Store)
      → let late = 60 * minute + 59 in
        let rs = burst n late origin ++ burst n (late + 1) origin in
        redis.number_at (key_of (late, origin)) s ≡ none
        → redis.number_at (key_of (late + 1, origin)) s ≡ none
        → (admitted redis (pos n) (key_of (late, origin)) rs s ≡ n)
          × (admitted redis (pos n) (key_of (late + 1, origin)) rs s ≡ n)
          × (key_of (late, origin) ≢ key_of (late + 1, origin))
  burst_over_boundary minute origin s h h' =
      let late = 60 * minute + 59 in
      let now = key_of (late, origin) in
      let next = key_of (late + 1, origin) in
      let rs = burst n late origin ++ burst n (late + 1) origin in
      let first : arrived now rs ≡ n + arrived now (burst n (late + 1) origin) =
        arrived-burst now n late origin (burst n (late + 1) origin) (bytes_eq_self now) in
      let second : arrived next rs ≡ n + 0 =
        arrived-burst_apart next n late origin (burst n (late + 1) origin)
          (bytes_eq_ne now next (boundary_keys minute origin))
        ∙ ap (arrived next) (sym (append-nil (burst n (late + 1) origin)))
        ∙ arrived-burst next n (late + 1) origin [] (bytes_eq_self next) in
      (
        full_quota now rs s h (omega arith),
        full_quota next rs s h' (omega arith),
        boundary_keys minute origin,
      )
