-- ===== src/User/Accounts.antt =====
-- Accounts (internal/user/service.go and handler.go): registration and login.
use text.Mathlib.Text.{◌==◌ as str_eq}
use text.Mathlib.TextPositions.{eq_refl}
use mini_twitter.Common.{
  ℕ, suc, ◌≡◌, refl, ap, ◌∙◌, ◌⊎◌, inl, inr, String, Bool, true, false, List, [], ◌∷◌, ◌++◌, Result,
  ok, err, Result-cases, none, some, Option-cases, Bool-cases, >>=-ok, wrapping-ok, pure,
  from_result, wrapping, ◌>>=◌, Error, any, find, arith,
}
use mini_twitter.Schema.{Uuid, Time, Bytes, User}
use mini_twitter.Postgres.{Server, Cluster, exec, query}
use mini_twitter.Http.{Response, write_json, write_error}
use mini_twitter.Auth.{Jwt, Manager, sign}
use mini_twitter.User.Statements.{
  fits_columns, has_user, insert_user, fits_columns, select_by_username, or_no_rows,
}
use mini_twitter.User.Repository.{create, get_by_username, query_one}
use mini_twitter.Postgres.Answered.{
  IsUp, IsCurrent, caught_up, queried, query_answered, exec_answered,
}
use mini_twitter.User.Service.{Bcrypt, new_user, invalid_credentials}
use mini_twitter.User.Service.{register, login, check_password}
use mini_twitter.User.Handler.{LoginRequest}
use mini_twitter.User.Handler.{login as handle_login}

pub find-append_new :
    {A : Type 0} (p : A → Bool) (xs : List A) (x : A)
    → any p xs ≡ false
    → p x ≡ true
    → find p (xs ++ x ∷ []) ≡ some x
find-append_new p [] x h hit = rw hit refl
find-append_new p (y ∷ ys) x h hit = elim (Bool-cases (p y)) [
  | inl other ↦ absurd (ground (arith, h))
  | inr miss ↦ rw miss (find-append_new p ys x (rw miss at h) hit)
]

-- The row of a new account.
abbrev pub account : Uuid → Time → String → String → String → User
account id now username email hash = record (new_user username email hash) {
  id = id;
  created_at = now;
}

module _ (server : Server) (up : IsUp server) where
  with_account : User → Cluster → Cluster
  with_account u c = record c {
    tables = record c.tables { users = c.tables.users ++ u ∷ [] };
    trips = suc c.trips;
  }

  -- An INSERT that meets none of the three keys.
  insert_answered :
      (username email hash : String) (c : Cluster)
      → fits_columns (new_user username email hash) ≡ true
      → has_user (server.new_id c.trips) c.tables.users ≡ false
      → any (λ v. str_eq v.username username) c.tables.users ≡ false
      → any (λ v. str_eq v.email email) c.tables.users ≡ false
      → let u = account (server.new_id c.trips) (server.now c.trips) username email hash in
        create server (new_user username email hash) c ≡ (ok u, with_account u c)
  unfolding create with_account
  insert_answered username email hash c short id_free name_free email_free =
      let id = server.new_id c.trips in
      let now = server.now c.trips in
      let u = new_user username email hash in
      let stored = account id now username email hash in
      let inserted : insert_user id now u c.tables
          ≡ (ok (id, now), record c.tables { users = c.tables.users ++ stored ∷ [] }) =
        rw short (rw id_free (rw name_free (rw email_free refl))) in
      >>=-ok (exec server (insert_user id now u))
        (λ x. pure (record u { id = x.0; created_at = x.1 }))
        (exec_answered server (insert_user id now u) c up inserted)

  module _ (jwt : Jwt) (mgr : Manager) (bcrypt : Bcrypt) where
    login_answered :
        (now : Time) (username password : String) (u : User) (c : Cluster) {token : Bytes}
        → IsCurrent c
        → find (λ v. str_eq v.username username) c.tables.users ≡ some u
        → bcrypt.compare_hash u.password_hash password ≡ none
        → sign jwt mgr now u.id u.username ≡ ok token
        → (login server jwt mgr bcrypt now username password c).0 ≡ ok (u, token)
    unfolding login get_by_username query_one
    login_answered now username password u c same found fits signed =
        let answer : (get_by_username server username c).0 ≡ ok u =
          ap (λ x. x.0)
            (wrapping-ok "queryOne" (query server (select_by_username username)) (
              query_answered server (select_by_username username) c up same
              ∙ ap (λ o. (or_no_rows o, queried c)) found)) in
        rw answer (rw (fits, check_password) (rw signed refl))

-- An account that is registered can be logged in to. With a server that answers, a password that
-- bcrypt hashes, a signer that signs for the name, a name and an email that fit their columns and that
-- nobody has, and an id that is new, `Register` answers with the account and a token for it; and once
-- the replicas have caught up, `Login` with the same name and password answers with the same account
-- and a token for it.
pub login-register :
    (server : Server) (jwt : Jwt) (mgr : Manager) (bcrypt : Bcrypt) (salt : ℕ) (now later : Time)
    (username email password hash : String) (c : Cluster)
    → IsUp server
    → ((time : Time) (id : Uuid) → (token : Bytes) × (sign jwt mgr time id username ≡ ok token))
    → bcrypt.generate salt password ≡ ok hash
    → fits_columns (new_user username email hash) ≡ true
    → has_user (server.new_id c.trips) c.tables.users ≡ false
    → any (λ v. str_eq v.username username) c.tables.users ≡ false
    → any (λ v. str_eq v.email email) c.tables.users ≡ false
    → let u = account (server.new_id c.trips) (server.now c.trips) username email hash in
      (c' : Cluster) × (token : Bytes) × (token' : Bytes) × (register server jwt mgr bcrypt salt now
          username email password c
        ≡ (ok (u, token), c'))
      × (sign jwt mgr now u.id username ≡ ok token)
      × ((login server jwt mgr bcrypt later username password (caught_up c')).0 ≡ ok (u, token'))
      × (sign jwt mgr later u.id username ≡ ok token')
unfolding register with_account
login-register server jwt mgr bcrypt salt now later username email password hash c up signs hashed
      short id_free name_free email_free =
    let u = account (server.new_id c.trips) (server.now c.trips) username email hash in
    let c' = with_account server up u c in
    let made : create server (new_user username email hash) c ≡ (ok u, c') =
      insert_answered server up username email hash c short id_free name_free email_free in
    let (token, signed) = signs now u.id in
    let (token', signed') = signs later u.id in
    (
      c',
      token,
      token',
      rw (hashed, register)
          (>>=-ok (wrapping "create user" (create server (new_user username email hash)))
              (λ v. wrapping "sign token" (from_result (sign jwt mgr now v.id v.username)) >>= λ t.
                pure (v, t))
              (wrapping-ok "create user" (create server (new_user username email hash)) made)
            ∙ >>=-ok (wrapping "sign token" (from_result (sign jwt mgr now u.id username)))
                (λ t. pure (u, t))
                (wrapping-ok "sign token" (from_result (sign jwt mgr now u.id username))
                  (ap (λ r. (r, c')) signed))),
      signed,
      login_answered server up jwt mgr bcrypt later username password u (caught_up c') (λ i. refl)
          (find-append_new (λ v. str_eq v.username username) c.tables.users u name_free
            (eq_refl username))
          (bcrypt.compare-generate salt password hashed) signed',
      signed',
    )

-- What a password check comes to.
check_password_answers :
    (server : Server) (jwt : Jwt) (mgr : Manager) (bcrypt : Bcrypt) (now : Time) (password : String)
    (r : Result User)
    → let a = check_password server jwt mgr bcrypt now password r in
      ((e : Error) × (a ≡ err e))
      ⊎ ((u : User) × (token : Bytes) × (a ≡ ok (u, token))
          × (bcrypt.compare_hash u.password_hash password ≡ none)
          × (sign jwt mgr now u.id u.username ≡ ok token))
check_password_answers server jwt mgr bcrypt now password (err e) = inl (invalid_credentials, refl)
check_password_answers server jwt mgr bcrypt now password (ok u) =
    elim (Option-cases (bcrypt.compare_hash u.password_hash password)) [
      | inr (e, wrong) ↦ inl (invalid_credentials, rw (wrong, check_password) refl)
      | inl fits ↦ elim (Result-cases (sign jwt mgr now u.id u.username)) [
        | inr (e, failed) ↦
            inl (Error.wrap "sign token" e, rw (fits, check_password) (rw failed refl))
        | inl (token, signed) ↦
            inr (u, token, rw (fits, check_password) (rw signed refl), fits, signed)
      ]
    ]

-- A login with a body is answered 200 with an account whose hash fits the password and a token for it, or
-- with one and the same 401, whether the name is unknown, the password wrong or the database down.
pub login_answers :
    (server : Server) (jwt : Jwt) (mgr : Manager) (bcrypt : Bcrypt) (now : Time)
    (req : LoginRequest) (c : Cluster)
    → let r = (handle_login server jwt mgr bcrypt now (some req) c).0 in
      (r ≡ write_error 401 "invalid credentials")
      ⊎ ((u : User) × (token : Bytes) × (r ≡ write_json 200 (u, token))
          × (bcrypt.compare_hash u.password_hash req.password ≡ none)
          × (sign jwt mgr now u.id u.username ≡ ok token))
unfolding handle_login login
login_answers server jwt mgr bcrypt now req c =
    let respond : Result (User × Bytes) → Response (User × Bytes) =
      λ a. elim a [ err e ↦ write_error 401 "invalid credentials" | ok v ↦ write_json 200 v ] in
    let checked =
      check_password server jwt mgr bcrypt now req.password
        (get_by_username server req.username c).0 in
    let same : (handle_login server jwt mgr bcrypt now (some req) c).0 ≡ respond checked =
      elim (Result-cases checked) [
        | inl (v, h) ↦ ground (arith, h)
        | inr (e, h) ↦ ground (arith, h)
      ] in
    elim (check_password_answers server jwt mgr bcrypt now req.password
      (get_by_username server req.username c).0) [
        | inl (e, h) ↦ inl (same ∙ ap respond h)
        | inr (u, token, h, fits, signed) ↦ inr (u, token, same ∙ ap respond h, fits, signed)
      ]
