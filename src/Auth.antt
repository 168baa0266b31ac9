-- ===== src/Auth.antt =====
-- pkg/auth: jwt.go and middleware.go. The library golang-jwt is the interface `Jwt`.
pub mod Access
use mini_twitter.Common.{
  ◌+◌, ◌≤◌, ◌<◌, ◌≡◌, String, Bool, true, false, Option, none, some, [], ◌∷◌, Result, ok, err,
  message, codes, ◌==◌, ◌&&◌, length, drop, if◌then◌else◌,
}
use mini_twitter.Schema.{Uuid, Time, Bytes}
use mini_twitter.Http.{Response, write_error}

pub record Claims : Type 0 where
  pub user_id : Uuid
  pub username : String
  -- of RegisteredClaims, the times, each of which may be missing from a token
  pub expires_at : Option Time
  pub not_before : Option Time
  pub issued_at : Option Time

-- A time that is missing is not checked.
abbrev pub IsUnexpired : Time → Option Time → Type 0
IsUnexpired now none = Unit
IsUnexpired now (some t) = now < t

abbrev pub IsBegun : Time → Option Time → Type 0
IsBegun now none = Unit
IsBegun now (some t) = t ≤ now

-- What golang-jwt asks of the times of a token without further options.
abbrev pub IsTimely : Time → Claims → Type 0
IsTimely now claims = IsUnexpired now claims.expires_at × IsBegun now claims.not_before

-- The families of signing methods that a token may name.
pub data Method : Type 0 where
  hmac rsa none_method other : Method

abbrev pub Keys : Type 0
Keys = Method → Result Bytes

-- `SignedString` by HS256, and `ParseWithClaims` with a function that yields the key for the method
-- that the token names; the result comes with `token.Valid`.
pub record Jwt : Type 1 where
  pub signed_string : Bytes → Claims → Result Bytes
  pub parse_with_claims : Keys → Time → Bytes → Result (Claims × Bool)
  -- jwt.NewNumericDate, which cuts a time to its precision.
  pub numeric_date : Time → Time
  -- The token carries these claims, signed with this key by this method.
  pub Signed : Method → Bytes → Claims → Bytes → Type 0
  pub signed_string-Signed :
      (key : Bytes) (claims : Claims) {token : Bytes}
      → signed_string key claims ≡ ok token
      → Signed hmac key claims token
  -- What is accepted is signed with the key of its own method, and has not expired, if it carries an
  -- expiry, and begun, if it carries a beginning.
  pub parse_with_claims-Signed :
      (keys : Keys) (now : Time) (token : Bytes) {claims : Claims} {valid : Bool}
      → parse_with_claims keys now token ≡ ok (claims, valid)
      → (m : Method) × (key : Bytes) × (keys m ≡ ok key)
        × Signed m key claims token
        × IsTimely now claims
  -- A token that is signed with the key of its method, and whose times allow it, is accepted.
  pub parse_with_claims_signed :
      (keys : Keys) (now : Time) (token : Bytes) (m : Method) (key : Bytes) (claims : Claims)
      → keys m ≡ ok key
      → Signed m key claims token
      → IsTimely now claims
      → parse_with_claims keys now token ≡ ok (claims, true)

pub record Manager : Type 0 where
  pub secret : Bytes
  pub expiry : Time

-- What the middleware stores in the request's context.
pub record Identity : Type 0 where
  pub user_id : Uuid
  pub username : String

abbrev pub bearer : Bytes
bearer = codes "Bearer "

-- strings.HasPrefix and strings.TrimPrefix.
pub has_prefix : Bytes → Bytes → Bool
has_prefix text [] = true
has_prefix [] (p ∷ ps) = false
has_prefix (c ∷ text) (p ∷ ps) = c == p && has_prefix text ps

pub trim_prefix : Bytes → Bytes → Bytes
unfolding has_prefix
trim_prefix text prefix = if has_prefix text prefix then drop (length prefix) text else text

module _ (jwt : Jwt) (mgr : Manager) where
  unfoldable pub sign : Time → Uuid → String → Result Bytes
  sign now user_id username = jwt.signed_string mgr.secret (record {
    user_id = user_id;
    username = username;
    expires_at = some (jwt.numeric_date (now + mgr.expiry));
    not_before = none;
    issued_at = some (jwt.numeric_date now);
  })

  -- The key function of `Parse`: the secret, for an HMAC method only.
  abbrev pub key_for : Keys
  key_for hmac = ok mgr.secret
  key_for m = err (message "unexpected signing method")

  unfoldable pub parse : Time → Bytes → Result Claims
  parse now token = elim (jwt.parse_with_claims key_for now token) [
    | err e ↦ err e
    | ok (claims, valid) ↦ if valid then ok claims else err (message "invalid token")
  ]

  -- `Middleware`: the next handler is called with the identity, or the request is refused.
  unfoldable pub middleware :
      {A S : Type 0} → Time → Bytes → (Identity → S → Response A × S) → S → Response A × S
  unfolding has_prefix trim_prefix parse
  middleware now header next s =
      if has_prefix header bearer
      then elim (parse now (trim_prefix header bearer)) [
        | err e ↦ (write_error 401 "invalid token", s)
        | ok claims ↦ next (record { user_id = claims.user_id; username = claims.username }) s
      ]
      else (write_error 401 "missing or invalid authorization header", s)

-- `UserIDFromCtx`, `UsernameFromCtx`: there is no identity where the middleware did not run.
abbrev pub user_id_from_ctx : Option Identity → Option Uuid
user_id_from_ctx none = none
user_id_from_ctx (some i) = some i.user_id

abbrev pub username_from_ctx : Option Identity → Option String
username_from_ctx none = none
username_from_ctx (some i) = some i.username
