-- ===== src/User/Handler.antt =====
-- internal/user/handler.go: what each endpoint answers. The body is what `json.NewDecoder` yields, and
-- the identity is what the middleware stored.
use text.Mathlib.Text.{◌==◌ as str_eq}
use mini_twitter.Common.{ℕ, String, ◌||◌, ok, err, Option, none, some, if◌then◌else◌}
use mini_twitter.Schema.{Time, Bytes, User}
use mini_twitter.Postgres.{Server, Cluster}
use mini_twitter.Http.{Response, write_json, write_error, write_err, no_content}
use mini_twitter.Cache.Redis.{Uuids}
use mini_twitter.Auth.{Jwt, Manager, Identity, user_id_from_ctx}
use mini_twitter.User.Service.{Bcrypt}
use mini_twitter.User.Service

pub record RegisterRequest : Type 0 where
  pub username : String
  pub email : String
  pub password : String

pub record LoginRequest : Type 0 where
  pub username : String
  pub password : String

pub record UpdateRequest : Type 0 where
  pub display_name : String
  pub bio : String

module _ (server : Server) where
  module _ (jwt : Jwt) (mgr : Manager) (bcrypt : Bcrypt) where
    unfoldable pub register :
        ℕ → Time → Option RegisterRequest → Cluster → Response (User × Bytes) × Cluster
    register salt now none c = (write_error 400 "invalid request body", c)
    register salt now (some req) c =
        if str_eq req.username "" || str_eq req.email "" || str_eq req.password ""
        then (write_error 400 "username, email, and password are required", c)
        else (let (r, c') =
              Service.register server jwt mgr bcrypt salt now req.username req.email req.password
                c in
            elim r [
              | err e ↦ (write_err 500 e, c')
              | ok user_and_token ↦ (write_json 201 user_and_token, c')
            ])

    unfoldable pub login : Time → Option LoginRequest → Cluster → Response (User × Bytes) × Cluster
    login now none c = (write_error 400 "invalid request body", c)
    login now (some req) c =
        let (r, c') = Service.login server jwt mgr bcrypt now req.username req.password c in
        elim r [
          | err e ↦ (write_error 401 "invalid credentials", c')
          | ok user_and_token ↦ (write_json 200 user_and_token, c')
        ]

  unfoldable pub get_user : String → Cluster → Response User × Cluster
  get_user username c =
      let (r, c') = Service.get_by_username server username c in
      elim r [ err e ↦ (write_error 404 "user not found", c') | ok u ↦ (write_json 200 u, c') ]

  unfoldable pub update_me :
      Option Identity → Option UpdateRequest → Cluster → Response User × Cluster
  update_me identity body c = elim (user_id_from_ctx identity) [
    | none ↦ (write_error 401 "unauthorized", c)
    | some user ↦ elim body [
      | none ↦ (write_error 400 "invalid request body", c)
      | some req ↦
          let (r, c') = Service.update_me server user req.display_name req.bio c in
          elim r [ err e ↦ (write_err 500 e, c') | ok u ↦ (write_json 200 u, c') ]
    ]
  ]

  module _ (uuids : Uuids) where
    unfoldable pub follow : Option Identity → Bytes → Cluster → Response (Unit {0}) × Cluster
    follow identity segment c = elim (user_id_from_ctx identity) [
      | none ↦ (write_error 401 "unauthorized", c)
      | some follower ↦ elim (uuids.parse segment) [
        | none ↦ (write_error 400 "invalid user id", c)
        | some followee ↦
            let (r, c') = Service.follow server follower followee c in
            elim r [ err e ↦ (write_err 400 e, c') | ok _ ↦ (no_content, c') ]
      ]
    ]

    unfoldable pub unfollow : Option Identity → Bytes → Cluster → Response (Unit {0}) × Cluster
    unfollow identity segment c = elim (user_id_from_ctx identity) [
      | none ↦ (write_error 401 "unauthorized", c)
      | some follower ↦ elim (uuids.parse segment) [
        | none ↦ (write_error 400 "invalid user id", c)
        | some followee ↦
            let (r, c') = Service.unfollow server follower followee c in
            elim r [ err e ↦ (write_err 500 e, c') | ok _ ↦ (no_content, c') ]
      ]
    ]
