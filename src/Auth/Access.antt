-- ===== src/Auth/Access.antt =====
-- Who gets past the middleware of pkg/auth/middleware.go.
use mini_twitter.Common.{
  some, none, ◌+◌, ◌<◌, ◌≡◌, refl, sym, ap, ◌∙◌, subst, ◌⊎◌, inl, inr, String, true, [], ◌∷◌, ◌++◌,
  ok, Result-cases, Bool-cases, arith, length, drop,
}
use mini_twitter.Schema.{Uuid, Time, Bytes}
use mini_twitter.Http.{Response}
use mini_twitter.Auth.{
  IsTimely, Claims, Method, hmac, rsa, none_method, other, Jwt, Manager, Identity, bearer,
  has_prefix, trim_prefix, sign, key_for, parse, middleware,
}

has_prefix-append : (p text : Bytes) → has_prefix (p ++ text) p ≡ true
unfolding has_prefix
has_prefix-append [] [] = refl
has_prefix-append [] (c ∷ text) = refl
has_prefix-append (c ∷ p) text = ground (arith, has_prefix-append p text)

drop-append : (p text : Bytes) → drop (length p) (p ++ text) ≡ text
drop-append [] text = refl
drop-append (c ∷ p) text = drop-append p text

has_prefix-split : (text p : Bytes) → has_prefix text p ≡ true → text ≡ p ++ drop (length p) text
unfolding has_prefix
has_prefix-split [] [] h = refl
has_prefix-split (c ∷ text) [] h = refl
has_prefix-split [] (x ∷ p) h = cc
has_prefix-split (c ∷ text) (x ∷ p) h = ground (arith, has_prefix-split text p)

trim_prefix_marked :
    (text p : Bytes) → has_prefix text p ≡ true → trim_prefix text p ≡ drop (length p) text
unfolding trim_prefix
trim_prefix_marked text p h = rw h refl

module _ (jwt : Jwt) (mgr : Manager) where
  -- `Parse` accepts what the library accepts with `token.Valid` set.
  parse-accepts :
      (now : Time) (token : Bytes) (claims : Claims)
      → parse jwt mgr now token ≡ ok claims
      → jwt.parse_with_claims (key_for jwt mgr) now token ≡ ok (claims, true)
  unfolding parse
  parse-accepts now token claims e =
      elim (Result-cases (jwt.parse_with_claims (key_for jwt mgr) now token)) [
        | inl (r, h) ↦ ground (arith, h)
        | inr (x, h) ↦ ground (arith, h)
      ]

  key_for-Signed :
      (m : Method) (key token : Bytes) (claims : Claims)
      → key_for jwt mgr m ≡ ok key
      → jwt.Signed m key claims token
      → jwt.Signed hmac mgr.secret claims token
  key_for-Signed hmac key token claims e h =
      subst (λ k. jwt.Signed hmac k claims token) (ground arith) h
  key_for-Signed rsa key token claims e h = absurd (ground arith)
  key_for-Signed none_method key token claims e h = absurd (ground arith)
  key_for-Signed other key token claims e h = absurd (ground arith)

  -- An accepted token is signed with the secret by an HMAC method, and its times allow it.
  pub parse-Signed :
      (now : Time) (token : Bytes) (claims : Claims)
      → parse jwt mgr now token ≡ ok claims
      → jwt.Signed hmac mgr.secret claims token × IsTimely now claims
  parse-Signed now token claims e =
      let (m, key, known, signed, fresh) =
        jwt.parse_with_claims-Signed (key_for jwt mgr) now token
          (parse-accepts now token claims e) in
      (key_for-Signed m key token claims known signed, fresh)

  module _ {A S : Type 0} (now : Time) (next : Identity → S → Response A × S) where
    -- A request is refused with 401 and changes nothing, or it carries a bearer token that is signed
    -- with the secret by an HMAC method, that has not expired if it carries an expiry and has begun
    -- if it carries a beginning, and the next handler runs with the user of that token.
    pub middleware_admits :
        (header : Bytes) (s : S)
        → let r = middleware jwt mgr now header next s in
          ((r.0.status ≡ 401) × (r.1 ≡ s))
          ⊎ ((token : Bytes) × (claims : Claims) × (header ≡ bearer ++ token)
              × (r ≡ next (record { user_id = claims.user_id; username = claims.username }) s)
              × jwt.Signed hmac mgr.secret claims token
              × IsTimely now claims)
    unfolding middleware
    middleware_admits header s = elim (Bool-cases (has_prefix header bearer)) [
      | inr bare ↦ rw bare (inl (refl, refl))
      | inl marked ↦ elim (Result-cases (parse jwt mgr now (trim_prefix header bearer))) [
        | inr (x, h) ↦ inl (ground (arith, marked, h))
        | inl (claims, h) ↦
            let (signed, fresh) = parse-Signed now (trim_prefix header bearer) claims h in
            inr (
              trim_prefix header bearer,
              claims,
              has_prefix-split header bearer marked
                  ∙ ap (◌++◌ bearer) (sym (trim_prefix_marked header bearer marked)),
              rw marked (rw (rw marked at h) refl),
              signed,
              fresh,
            )
      ]
    ]

    -- A bearer token that is signed with the secret by an HMAC method lets its user through, if its
    -- times allow it; one without an expiry does so for ever.
    pub middleware_passes :
        (token : Bytes) (claims : Claims) (s : S)
        → jwt.Signed hmac mgr.secret claims token
        → IsTimely now claims
        → middleware jwt mgr now (bearer ++ token) next s
          ≡ next (record { user_id = claims.user_id; username = claims.username }) s
    unfolding middleware
    middleware_passes token claims s signed timely =
        let accepted : jwt.parse_with_claims (key_for jwt mgr) now token ≡ ok (claims, true) =
          jwt.parse_with_claims_signed (key_for jwt mgr) now token hmac mgr.secret claims refl
            signed timely in
        rw accepted refl

    -- The token that `Sign` makes lets its user through until it expires: the next handler runs
    -- with that user.
    pub middleware-sign :
        (then_ : Time) (id : Uuid) (name : String) (token : Bytes) (s : S)
        → sign jwt mgr then_ id name ≡ ok token
        → now < jwt.numeric_date (then_ + mgr.expiry)
        → middleware jwt mgr now (bearer ++ token) next s
          ≡ next (record { user_id = id; username = name }) s
    unfolding sign
    middleware-sign then_ id name token s made fresh =
        let claims : Claims = record {
          user_id = id;
          username = name;
          expires_at = some (jwt.numeric_date (then_ + mgr.expiry));
          not_before = none;
          issued_at = some (jwt.numeric_date then_);
        } in
        middleware_passes token claims s (jwt.signed_string-Signed mgr.secret claims made)
          (fresh, tt)
