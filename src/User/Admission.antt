-- ===== src/User/Admission.antt =====
-- Who may follow whom (`Follow` of internal/user/handler.go and service.go).
use mini_twitter.Common.{
  ◌≡◌, ◌≢◌, refl, ap, ◌∙◌, ◌⊎◌, inl, inr, Result, ok, err, Option, none, some, Option-cases,
  Bool-cases, message, ◌==◌, arith,
}
use mini_twitter.Schema.{Uuid, Bytes}
use mini_twitter.Postgres.{Server, Cluster}
use mini_twitter.Http.{Response, write_err, no_content}
use mini_twitter.Cache.Redis.{Uuids}
use mini_twitter.Auth.{Identity}
use mini_twitter.User.Repository
use mini_twitter.User.Service.{follow}
use mini_twitter.User.Handler.{follow as handle_follow}

-- How the follow endpoint answers what the service returns.
abbrev replied : Result (Unit {0}) × Cluster → Response (Unit {0}) × Cluster
replied (err e, c) = (write_err 400 e, c)
replied (ok u, c) = (no_content, c)

replied-state : (x : Result (Unit {0}) × Cluster) → (replied x).1 ≡ x.1
replied-state (err e, c) = refl
replied-state (ok u, c) = refl

handle_follow-replied :
    (server : Server) (uuids : Uuids) (i : Identity) (segment : Bytes) (followee : Uuid)
    (c : Cluster)
    → uuids.parse segment ≡ some followee
    → handle_follow server uuids (some i) segment c ≡ replied (follow server i.user_id followee c)
unfolding handle_follow
handle_follow-replied server uuids i segment followee c h =
    rw h (opened (follow server i.user_id followee c))
  where
    opened :
        (x : Result (Unit {0}) × Cluster)
        → (elim x.0 [ ok v ↦ (no_content, x.1) | err e ↦ (write_err 400 e, x.1) ]) ≡ replied x
    opened (ok v, c) = refl
    opened (err e, c) = refl

-- A follow request is passed on to the repository for the caller and another user whose id the path
-- holds, or it is refused with 401 or 400 and changes nothing; so nobody follows themselves.
pub follow_admits :
    (server : Server) (uuids : Uuids) (identity : Option Identity) (segment : Bytes) (c : Cluster)
    → let (r, c') = handle_follow server uuids identity segment c in
      ((i : Identity) × (followee : Uuid) × (identity ≡ some i)
        × (uuids.parse segment ≡ some followee)
        × (i.user_id ≢ followee)
        × (c' ≡ (Repository.follow server i.user_id followee c).1))
      ⊎ ((c' ≡ c) × ((r.status ≡ 401) ⊎ (r.status ≡ 400)))
unfolding handle_follow follow
follow_admits server uuids none segment c = inr (refl, inl refl)
follow_admits server uuids (some i) segment c = elim (Option-cases (uuids.parse segment)) [
  | inl bad ↦ inr (rw bad (refl, inr refl))
  | inr (followee, h) ↦ elim (Bool-cases (i.user_id == followee)) [
    | inl self ↦
        let refused : follow server i.user_id followee c
            ≡ (err (message "cannot follow yourself"), c) =
          rw self refl in
        let answer : handle_follow server uuids (some i) segment c
            ≡ (write_err 400 (message "cannot follow yourself"), c) =
          handle_follow-replied server uuids i segment followee c h ∙ ap replied refused in
        inr (ap (λ x. x.1) answer, inr (ap (λ x. x.0.status) answer))
    | inr other ↦
        let passed : follow server i.user_id followee c
            ≡ Repository.follow server i.user_id followee c =
          rw other refl in
        inl (
          i,
          followee,
          refl,
          h,
          (λ e. ground (arith, e)),
          (ap (λ x. x.1)
                (handle_follow-replied server uuids i segment followee c h ∙ ap replied passed)
              ∙ replied-state (Repository.follow server i.user_id followee c)),
        )
  ]
]
