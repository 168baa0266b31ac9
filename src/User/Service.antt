-- ===== src/User/Service.antt =====
-- internal/user/service.go: the methods of `Service`. The library bcrypt is the interface `Bcrypt`.
use mini_twitter.Common.{
  ◌>>=◌, ◌>>◌, ℕ, String, ◌≡◌, Result, ok, err, Error, message, St, pure, fail, from_result,
  wrapping, Option, none, some, List, pos, ◌==◌, if◌then◌else◌,
}
use mini_twitter.Schema.{Uuid, Time, Bytes, User}
use mini_twitter.Postgres.{Server, Cluster}
use mini_twitter.Auth.{Jwt, Manager, sign}
use mini_twitter.User.Repository

-- GenerateFromPassword, with the salt that it draws, and CompareHashAndPassword, whose nil is `none`.
pub record Bcrypt : Type 0 where
  pub generate : ℕ → String → Result String
  pub compare_hash : String → String → Option Error
  -- A hash fits the password that it was made from.
  pub compare-generate :
      (salt : ℕ) (password : String) {hash : String}
      → generate salt password ≡ ok hash
      → compare_hash hash password ≡ none

-- &User{Username: username, Email: email, PasswordHash: string(hash)}
abbrev pub new_user : String → String → String → User
new_user username email hash = record {
  id = 0;
  username = username;
  email = email;
  password_hash = hash;
  display_name = "";
  bio = "";
  follower_count = pos 0;
  following_count = pos 0;
  created_at = 0;
}

abbrev pub invalid_credentials : Error
invalid_credentials = message "invalid credentials"

module _ (server : Server) where
  module _ (jwt : Jwt) (mgr : Manager) (bcrypt : Bcrypt) where
    unfoldable pub register : ℕ → Time → String → String → String → St Cluster (User × Bytes)
    register salt now username email password = elim (bcrypt.generate salt password) [
      | err e ↦ fail (Error.wrap "hash password" e)
      | ok hash ↦ (do
        u ← wrapping "create user" (Repository.create server (new_user username email hash))
        token ← wrapping "sign token" (from_result (sign jwt mgr now u.id u.username))
        pure (u, token))
    ]

    -- A wrong password and an unknown name give one error.
    abbrev pub check_password : Time → String → Result User → Result (User × Bytes)
    check_password now password (err e) = err invalid_credentials
    check_password now password (ok u) = elim (bcrypt.compare_hash u.password_hash password) [
      | some e ↦ err invalid_credentials
      | none ↦ elim (sign jwt mgr now u.id u.username) [
        | err e ↦ err (Error.wrap "sign token" e)
        | ok token ↦ ok (u, token)
      ]
    ]

    unfoldable pub login : Time → String → String → St Cluster (User × Bytes)
    login now username password c =
        let (r, c') = Repository.get_by_username server username c in
        (check_password now password r, c')

  unfoldable pub get_by_username : String → St Cluster User
  get_by_username name = Repository.get_by_username server name

  unfoldable pub get_by_id : Uuid → St Cluster User
  get_by_id id = Repository.get_by_id server id

  unfoldable pub update_me : Uuid → String → String → St Cluster User
  update_me id display_name bio = do
    u ← Repository.get_by_id server id
    Repository.update server (record u { display_name = display_name; bio = bio })
    pure (record u { display_name = display_name; bio = bio })

  unfoldable pub follow : Uuid → Uuid → St Cluster (Unit {0})
  follow follower followee =
      if follower == followee
      then fail (message "cannot follow yourself")
      else Repository.follow server follower followee

  unfoldable pub unfollow : Uuid → Uuid → St Cluster (Unit {0})
  unfollow follower followee = Repository.unfollow server follower followee

  unfoldable pub get_follower_ids : Uuid → ℕ → Option Uuid → St Cluster (List Uuid)
  get_follower_ids user limit after = Repository.get_follower_ids server user limit after

  unfoldable pub get_followee_ids : Uuid → St Cluster (List Uuid)
  get_followee_ids user = Repository.get_followee_ids server user
