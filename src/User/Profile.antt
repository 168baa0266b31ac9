-- ===== src/User/Profile.antt =====
-- Profiles (`UpdateMe` and `GetUser` of internal/user/handler.go, service.go and repository.go).
use text.Mathlib.Text.{◌==◌ as str_eq}
use mini_twitter.Common.{
  suc, ◌≡◌, ◌≢◌, refl, ap, ◌∙◌, inl, inr, String, Bool, true, some, List, [], ◌∷◌, ok, >>=-ok,
  wrapping-ok, Bool-cases, find, map, ◌==◌, arith, if◌then◌else◌, pure, ◌>>◌,
}
use mini_twitter.Schema.{Uuid, User}
use mini_twitter.Postgres.{Server, Cluster, query}
use mini_twitter.Postgres.Answered.{
  IsUp, IsCurrent, caught_up, queried, query_answered, exec_answered,
}
use mini_twitter.Http.{write_json}
use mini_twitter.Auth.{Identity}
use mini_twitter.User.Statements.{
  fits, at_user, select_by_username, select_by_id, or_no_rows, update_profile,
}
use mini_twitter.User.Repository.{get_by_id, query_one, update}
use mini_twitter.User.Repository
use mini_twitter.User.Service
use mini_twitter.User.Handler.{UpdateRequest, update_me, get_user}

-- A map that keeps what a search looks at keeps what the search finds.
find-map :
    {A : Type 0} (p : A → Bool) (f : A → A)
    → ((x : A) → p (f x) ≡ p x)
    → (xs : List A) {a : A} → find p xs ≡ some a
    → find p (map f xs) ≡ some (f a)
find-map p f keeps [] h = absurd cc
find-map p f keeps (x ∷ xs) h = elim (Bool-cases (p x)) [
  | inl hit ↦ rw (keeps x) (rw hit (ap (λ o. some (f o)) (some_same (rw hit at h))))
  | inr miss ↦ rw (keeps x) (rw miss (find-map p f keeps xs (rw miss at h)))
]
  where
    some_same : {A : Type 0} {a b : A} → some a ≡ some b → a ≡ b
    some_same e = cc

find-holds : {A : Type 0} (p : A → Bool) (xs : List A) {a : A} → find p xs ≡ some a → p a ≡ true
find-holds p [] h = absurd cc
find-holds p (x ∷ xs) h = elim (Bool-cases (p x)) [
  | inl hit ↦ ground (arith, h, hit)
  | inr miss ↦ find-holds p xs (rw miss at h)
]

-- A row after the edit.
abbrev pub edited : UpdateRequest → User → User
edited req u = record u { display_name = req.display_name; bio = req.bio }

module _ (server : Server) (up : IsUp server) where
  with_users : List User → Cluster → Cluster
  with_users us c = record c { tables = record c.tables { users = us }; trips = suc c.trips }

  by_username_answered :
      (name : String) (c : Cluster) {u : User}
      → IsCurrent c
      → find (λ v. str_eq v.username name) c.tables.users ≡ some u
      → Service.get_by_username server name c ≡ (ok u, queried c)
  unfolding Service.get_by_username Repository.get_by_username query_one
  by_username_answered name c same found =
      wrapping-ok "queryOne" (query server (select_by_username name)) (
        query_answered server (select_by_username name) c up same
        ∙ ap (λ o. (or_no_rows o, queried c)) found)

  -- A row that is found by its name is what the endpoint answers.
  get_user_answered :
      (name : String) (c : Cluster) {u : User}
      → IsCurrent c
      → find (λ v. str_eq v.username name) c.tables.users ≡ some u
      → (get_user server name c).0 ≡ write_json 200 u
  unfolding get_user
  get_user_answered name c same found = rw (by_username_answered name c same found, get_user) refl

  update_answered :
      (u : User) (c : Cluster)
      → fits 100 u.display_name ≡ true
      → update server u c ≡ (
        ok tt,
        with_users
            (at_user u.id
              (λ v. record v { display_name = u.display_name; bio = u.bio })
              c.tables.users)
            c,
      )
  unfolding update with_users
  update_answered u c short = exec_answered server (update_profile u) c up (rw short refl)

  profile_answered :
      (id : Uuid) (req : UpdateRequest) (u : User) (c : Cluster)
      → IsCurrent c
      → find (λ v. v.id == id) c.tables.users ≡ some u
      → fits 100 req.display_name ≡ true
      → Service.update_me server id req.display_name req.bio c
        ≡ (ok (edited req u), with_users (at_user u.id (edited req) c.tables.users) (queried c))
  unfolding Service.update_me get_by_id query_one
  profile_answered id req u c same found short =
      let read : get_by_id server id c ≡ (ok u, queried c) =
        wrapping-ok "queryOne" (query server (select_by_id id)) (
          query_answered server (select_by_id id) c up same
          ∙ ap (λ o. (or_no_rows o, queried c)) found) in
      >>=-ok (get_by_id server id) (λ v. update server (edited req v) >> pure (edited req v)) read
      ∙ >>=-ok (update server (edited req u)) (λ x. pure (edited req u))
          (update_answered (edited req u) (queried c) short)

  update_me_answered :
      (i : Identity) (req : UpdateRequest) (u : User) (c : Cluster)
      → IsCurrent c
      → find (λ v. v.id == i.user_id) c.tables.users ≡ some u
      → fits 100 req.display_name ≡ true
      → update_me server (some i) (some req) c ≡ (
        write_json 200 (edited req u),
        with_users (at_user u.id (edited req) c.tables.users) (queried c),
      )
  unfolding update_me
  update_me_answered i req u c same found short =
      let done = profile_answered i.user_id req u c same found short in
      rw (done, update_me) (ap (λ x. (write_json 200 (edited req u), x.1)) done)

  renamed :
      (name : String) (id : Uuid) (req : UpdateRequest) (us : List User) {v : User}
      → find (λ w. str_eq w.username name) us ≡ some v
      → find (λ w. str_eq w.username name) (at_user id (edited req) us)
        ≡ some (if v.id == id then edited req v else v)
  renamed name id req us found =
      find-map (λ w. str_eq w.username name) (λ w. if w.id == id then edited req w else w)
        (λ w. elim (Bool-cases (w.id == id)) [ inl h ↦ rw h refl | inr h ↦ rw h refl ]) us found

  -- A profile that is changed is read back. With a server that answers, replicas that have caught up, a
  -- caller and another user who both have a row, and a display name that fits its column,
  -- `UpdateMe` answers 200 with the caller's row under the new display name and biography, and once
  -- the replicas have caught up, `GetUser` answers the same row under the caller's name, and the
  -- other user's row as it was.
  pub get_user-update_me :
      (i : Identity) (req : UpdateRequest) (u v : User) (c : Cluster)
      → IsCurrent c
      → find (λ w. w.id == i.user_id) c.tables.users ≡ some u
      → find (λ w. str_eq w.username u.username) c.tables.users ≡ some u
      → find (λ w. str_eq w.username v.username) c.tables.users ≡ some v
      → v.id ≢ u.id
      → fits 100 req.display_name ≡ true
      → (c' : Cluster) × (update_me server (some i) (some req) c
          ≡ (write_json 200 (edited req u), c'))
        × ((get_user server u.username (caught_up c')).0 ≡ write_json 200 (edited req u))
        × ((get_user server v.username (caught_up c')).0 ≡ write_json 200 v)
  unfolding with_users
  get_user-update_me i req u v c same found named other_named apart short =
      let c' = with_users (at_user u.id (edited req) c.tables.users) (queried c) in
      (
        c',
        update_me_answered i req u c same found short,
        get_user_answered u.username (caught_up c') (λ i. refl)
            (renamed u.username u.id req c.tables.users named ∙ ground arith),
        get_user_answered v.username (caught_up c') (λ i. refl)
            (renamed v.username u.id req c.tables.users other_named ∙ ground (arith, apart)),
      )
