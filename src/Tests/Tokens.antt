-- ===== src/Tests/Tokens.antt =====
-- Tokens of the user "ada": the method, the claims and the key, one after the other.
use text.Mathlib.Text.{◌==◌ as str_eq}
use text.Mathlib.TextEquality.{eq_iff}
use mini_twitter.Common.{
  ℕ, zero, suc, Option, none, some, not, arith, ◌≡◌, refl, sym, ap, ◌∙◌, subst, Bool, true, false,
  ◌&&◌, [], ◌∷◌, Result, ok, err, Error, message, ltb, ltb→lt, lt→ltb, bytes_eq, bytes_eq_iff,
  bytes_eq_self, Result-cases, ◌+◌, Bool-cases, inl, inr, if◌then◌else◌,
}
use mini_twitter.Schema.{Uuid, Time, Bytes}
use mini_twitter.Tests.Instances.{ok_same}
use mini_twitter.Auth.{
  IsUnexpired, IsBegun, IsTimely, Claims, Method, hmac, rsa, none_method, other, Keys, Jwt, Manager,
  sign,
}

-- The claims of a token, where 0 stands for a time that is missing.
abbrev pub read_stamp : ℕ → Option Time
read_stamp zero = none
read_stamp (suc t) = some t

abbrev pub stamp : Option Time → ℕ
stamp none = 0
stamp (some t) = suc t

abbrev pub ada : Uuid → Option Time → Option Time → Option Time → Claims
ada id expiry beginning issued = record {
  user_id = id;
  username = "ada";
  expires_at = expiry;
  not_before = beginning;
  issued_at = issued;
}

abbrev pub encode : Bytes → Claims → Bytes
encode key claims =
    claims.user_id
    ∷ stamp claims.expires_at
    ∷ stamp claims.not_before
    ∷ stamp claims.issued_at
    ∷ key

abbrev pub signed_string : Bytes → Claims → Result Bytes
signed_string key claims =
    if str_eq claims.username "ada" then ok (encode key claims) else err (message "unknown user")

abbrev unexpired : Time → Option Time → Bool
unexpired now none = true
unexpired now (some t) = ltb now t

abbrev begun : Time → Option Time → Bool
begun now none = true
begun now (some t) = not (ltb now t)

abbrev timely : Time → Claims → Bool
timely now claims = unexpired now claims.expires_at && begun now claims.not_before

abbrev pub check : Result Bytes → Time → Claims → Bytes → Result (Claims × Bool)
check (err e) now claims key = err e
check (ok known) now claims key =
    if bytes_eq known key && timely now claims then ok (claims, true) else err (message "invalid")

abbrev pub parse_with_claims : Keys → Time → Bytes → Result (Claims × Bool)
parse_with_claims keys now (id ∷ expiry ∷ beginning ∷ issued ∷ key) =
    check (keys hmac) now (ada id (read_stamp expiry) (read_stamp beginning) (read_stamp issued))
      key
parse_with_claims keys now token = err (message "malformed")

read_stamp-stamp : (o : Option Time) → read_stamp (stamp o) ≡ o
read_stamp-stamp none = refl
read_stamp-stamp (some t) = refl

stamp-read_stamp : (n : ℕ) → stamp (read_stamp n) ≡ n
stamp-read_stamp zero = refl
stamp-read_stamp (suc n) = refl

unexpired-IsUnexpired : (now : Time) (o : Option Time) → unexpired now o ≡ true → IsUnexpired now o
unexpired-IsUnexpired now none h = tt
unexpired-IsUnexpired now (some t) h = ltb→lt now t h

IsUnexpired-unexpired : (now : Time) (o : Option Time) → IsUnexpired now o → unexpired now o ≡ true
IsUnexpired-unexpired now none h = refl
IsUnexpired-unexpired now (some t) h = lt→ltb now t h

begun-IsBegun : (now : Time) (o : Option Time) → begun now o ≡ true → IsBegun now o
begun-IsBegun now none h = tt
begun-IsBegun now (some t) h = ground (arith, h)

IsBegun-begun : (now : Time) (o : Option Time) → IsBegun now o → begun now o ≡ true
IsBegun-begun now none h = refl
IsBegun-begun now (some t) h = ground (arith, h)

abbrev pub Signed : Method → Bytes → Claims → Bytes → Type 0
Signed hmac key claims token = (token ≡ encode key claims) × (claims.username ≡ "ada")
Signed m key claims token = ⊥

not_accepted : {A : Type 0} {e : Error} {a : A} → err e ≡ ok a → ⊥
not_accepted h = cc

both : (a b : Bool) → a && b ≡ true → (a ≡ true) × (b ≡ true)
both true b h = (refl, h)
both false b h = absurd cc

pub signed_string-Signed :
    (key : Bytes) (claims : Claims) {token : Bytes}
    → signed_string key claims ≡ ok token
    → Signed hmac key claims token
signed_string-Signed key claims e = elim (Bool-cases (str_eq claims.username "ada")) [
  | inl same ↦ (ok_same (rw same at e), (eq_iff claims.username "ada").0 same)
  | inr differs ↦ absurd (not_accepted (rw differs at e))
]

pub parse_with_claims-Signed :
    (keys : Keys) (now : Time) (token : Bytes) {claims : Claims} {valid : Bool}
    → parse_with_claims keys now token ≡ ok (claims, valid)
    → (m : Method) × (key : Bytes) × (keys m ≡ ok key)
      × Signed m key claims token
      × IsTimely now claims
parse_with_claims-Signed keys now (id ∷ expiry ∷ beginning ∷ issued ∷ key) {claims} e =
    let read = ada id (read_stamp expiry) (read_stamp beginning) (read_stamp issued) in
    elim (Result-cases (keys hmac)) [
      | inr (x, none_known) ↦ absurd (not_accepted (rw (none_known, check) at e))
      | inl (known, h) ↦ elim (Bool-cases (bytes_eq known key && timely now read)) [
        | inr bad ↦ absurd (not_accepted (rw bad at (rw (h, check) at e)))
        | inl good ↦
            let (same, fresh) = both (bytes_eq known key) (timely now read) good in
            let (unexpired_, begun_) =
              both (unexpired now (read_stamp expiry)) (begun now (read_stamp beginning)) fresh in
            let accepted : claims ≡ read =
              ap (λ x. x.0) (ok_same (rw good at (rw (h, check) at e))) in
            let written : id ∷ expiry ∷ beginning ∷ issued ∷ key ≡ encode known read = λ i.
              id
              ∷ sym (stamp-read_stamp expiry) i
              ∷ sym (stamp-read_stamp beginning) i
              ∷ sym (stamp-read_stamp issued) i
              ∷ sym ((bytes_eq_iff known key).0 same) i in
            subst
              (λ c.
                (m : Method) × (k : Bytes) × (keys m ≡ ok k)
                × Signed m k c (id ∷ expiry ∷ beginning ∷ issued ∷ key)
                × IsTimely now c)
              (sym accepted)
              (
                hmac,
                known,
                h,
                (written, refl),
                (
                  unexpired-IsUnexpired now (read_stamp expiry) unexpired_,
                  begun-IsBegun now (read_stamp beginning) begun_,
                ),
              )
      ]
    ]
parse_with_claims-Signed keys now [] e = absurd cc
parse_with_claims-Signed keys now (a ∷ []) e = absurd cc
parse_with_claims-Signed keys now (a ∷ b ∷ []) e = absurd cc
parse_with_claims-Signed keys now (a ∷ b ∷ c ∷ []) e = absurd cc

pub timely_accepted :
    (keys : Keys) (now : Time) (token : Bytes) (m : Method) (key : Bytes) (claims : Claims)
    → keys m ≡ ok key
    → Signed m key claims token
    → IsTimely now claims
    → parse_with_claims keys now token ≡ ok (claims, true)
timely_accepted keys now token hmac key claims known signed fresh =
    let named : Claims = record claims { username = "ada" } in
    let read =
      ada claims.user_id (read_stamp (stamp claims.expires_at))
        (read_stamp (stamp claims.not_before)) (read_stamp (stamp claims.issued_at)) in
    let same : read ≡ named = λ i.
      ada claims.user_id (read_stamp-stamp claims.expires_at i)
        (read_stamp-stamp claims.not_before i) (read_stamp-stamp claims.issued_at i) in
    let passes : check (keys hmac) now named key ≡ ok (named, true) =
      rw (known, check)
        (rw
          (
            bytes_eq_self key,
            IsUnexpired-unexpired now claims.expires_at fresh.0,
            IsBegun-begun now claims.not_before fresh.1,
          )
          refl) in
    subst (λ t. parse_with_claims keys now t ≡ ok (claims, true)) (sym signed.0)
      (ap (λ c. check (keys hmac) now c key) same
        ∙ passes
        ∙ ap (λ u. ok (record claims { username = u }, true)) (sym signed.1))
timely_accepted keys now token rsa key claims known signed fresh = absurd signed
timely_accepted keys now token none_method key claims known signed fresh = absurd signed
timely_accepted keys now token other key claims known signed fresh = absurd signed

abbrev pub tokens : Jwt
tokens = record {
  signed_string = signed_string;
  parse_with_claims = parse_with_claims;
  numeric_date = λ t. t;
  Signed = Signed;
  signed_string-Signed = signed_string-Signed;
  parse_with_claims-Signed = parse_with_claims-Signed;
  parse_with_claims_signed = timely_accepted;
}

abbrev pub manager : Manager
manager = record { secret = 7 ∷ 7 ∷ []; expiry = 3600 }

pub signs_ada :
    (time : Time) (id : Uuid) → (token : Bytes) × (sign tokens manager time id "ada" ≡ ok token)
unfolding sign
signs_ada time id = (encode (7 ∷ 7 ∷ []) (ada id (some (time + 3600)) none (some time)), refl)
