-- ===== src/Tests/Users.antt =====
-- Two users, without and with a follow between them.
use mini_twitter.Common.{
  map, ℕ, ◌≤◌, ◌≡◌, ◌≢◌, refl, ◌⊎◌, ◌&&◌, String, Bool, true, List, [], ◌∷◌, Option, none, some, ok,
  pos, count, arith, ◌==◌, if◌then◌else◌, Error,
}
use mini_twitter.Schema.{Uuid, User, Tables}
use mini_twitter.Postgres.{Server, Cluster, answered, lost}
use mini_twitter.Postgres.Answered.{caught_up}
use mini_twitter.Http.{write_error, write_json}
use mini_twitter.Auth.{Identity, sign}
use mini_twitter.User.Statements.{is_follow, has_user}
use mini_twitter.User.Repository.{follow, unfollow}
use mini_twitter.User.Repository
use mini_twitter.User.Follows.{followed, follows?, follow_atomic}
use mini_twitter.User.Counters.{IsConsistent}
use mini_twitter.User.Repeats.{overcounted, follow_again_miscounts}
use mini_twitter.User.Service.{register, login}
use mini_twitter.User.Service
use mini_twitter.User.Handler.{LoginRequest, UpdateRequest, update_me, get_user}
use mini_twitter.User.Handler
use mini_twitter.User.Accounts.{account, login-register, login_answers}
use mini_twitter.User.Admission.{follow_admits}
use mini_twitter.User.Graph.{
  Command, following, unfollowing, graph_of, effect, honest, perform_all, perform_all-effect,
}
use mini_twitter.User.Sequences.{AreNew, perform_all-IsConsistent}
use mini_twitter.User.Profile.{edited, get_user-update_me}
use mini_twitter.Tests.Instances.{live, live-IsUp, numbered, plain}
use mini_twitter.Tests.Tokens.{tokens, manager, signs_ada}

abbrev person : Uuid → String → ℕ → ℕ → User
person id name followers followees = record {
  id = id;
  username = name;
  email = name;
  password_hash = "pw";
  display_name = "";
  bio = "";
  follower_count = pos followers;
  following_count = pos followees;
  created_at = 0;
}

abbrev pub strangers : Tables
strangers = record {
  users = person 1 "bob" 0 0 ∷ person 2 "eve" 0 0 ∷ [];
  tweets = [];
  follows = [];
  likes = [];
  pending = [];
}

abbrev pub friends : Tables
friends = record {
  users = person 1 "bob" 0 1 ∷ person 2 "eve" 1 0 ∷ [];
  tweets = [];
  follows = record { follower_id = 1; followee_id = 2 } ∷ [];
  likes = [];
  pending = [];
}

abbrev pub cluster_of : Tables → Cluster
cluster_of t = record {
  db = record { healthy = true ∷ []; counter = 0 };
  tables = t;
  copy = λ i. t;
  trips = 0;
}

strangers-IsConsistent : IsConsistent strangers
strangers-IsConsistent = record {
  keyed = λ f g. omega arith;
  counted = ((refl, refl), ((refl, refl), tt));
}

pub friends-keyed : (f g : Uuid) → count (is_follow f g) friends.follows ≤ 1
friends-keyed f g = ground arith

friends-IsConsistent : IsConsistent friends
friends-IsConsistent = record {
  keyed = friends-keyed;
  counted = ((refl, refl), ((refl, refl), tt));
}

-- A server whose fourth answer, the one to COMMIT, is lost.
abbrev flaky : Server
flaky = record live { verdict = λ n. if n == 4 then lost (Error.external 0) else answered }

follow_atomic_example :
    (((follow flaky 1 2 (cluster_of strangers)).1.tables ≡ strangers)
      × ((follow flaky 1 2 (cluster_of strangers)).0 ≢ ok tt))
    ⊎ (((follow flaky 1 2 (cluster_of strangers)).1.tables ≡ followed 1 2 strangers)
        × ((follows? 1 2 strangers ≡ true)
            ⊎ (has_user 1 strangers.users && has_user 2 strangers.users ≡ true)))
follow_atomic_example = follow_atomic flaky 1 2 (cluster_of strangers)

follow_again_miscounts_example :
    ((follow live 1 2 (cluster_of friends)).0 ≡ ok tt)
    × ((follow live 1 2 (cluster_of friends)).1.tables.follows ≡ friends.follows)
    × ((follow live 1 2 (cluster_of friends)).1.tables.users ≡ map (overcounted 1 2) friends.users)
    × ¬ IsConsistent (follow live 1 2 (cluster_of friends)).1.tables
follow_again_miscounts_example =
    follow_again_miscounts live 1 2 (cluster_of friends) live-IsUp refl refl friends-IsConsistent

login-register_example :
    let c = cluster_of strangers in
    let u = account (live.new_id 0) (live.now 0) "ada" "ada@x" "pw" in
    (c' : Cluster) × (token : List ℕ) × (token' : List ℕ) × (register live tokens manager plain 5 10
        "ada" "ada@x" "pw" c
      ≡ (ok (u, token), c'))
    × (sign tokens manager 10 u.id "ada" ≡ ok token)
    × ((login live tokens manager plain 20 "ada" "pw" (caught_up c')).0 ≡ ok (u, token'))
    × (sign tokens manager 20 u.id "ada" ≡ ok token')
login-register_example =
    login-register live tokens manager plain 5 10 20 "ada" "ada@x" "pw" "pw" (cluster_of strangers)
      live-IsUp signs_ada refl refl refl refl refl

login_answers_example :
    let req : LoginRequest = record { username = "bob"; password = "pw" } in
    let r = (Handler.login live tokens manager plain 10 (some req) (cluster_of strangers)).0 in
    (r ≡ write_error 401 "invalid credentials")
    ⊎ ((u : User) × (token : List ℕ) × (r ≡ write_json 200 (u, token))
        × (plain.compare_hash u.password_hash "pw" ≡ none)
        × (sign tokens manager 10 u.id u.username ≡ ok token))
login_answers_example =
    login_answers live tokens manager plain 10 (record { username = "bob"; password = "pw" })
      (cluster_of strangers)

follow_admits_example :
    let caller : Option Identity = some (record { user_id = 1; username = "bob" }) in
    let (r, c') = Handler.follow live numbered caller (2 ∷ []) (cluster_of strangers) in
    ((i : Identity) × (followee : Uuid) × (caller ≡ some i)
      × (numbered.parse (2 ∷ []) ≡ some followee)
      × (i.user_id ≢ followee)
      × (c' ≡ (Repository.follow live i.user_id followee (cluster_of strangers)).1))
    ⊎ ((c' ≡ cluster_of strangers) × ((r.status ≡ 401) ⊎ (r.status ≡ 400)))
follow_admits_example =
    follow_admits live numbered (some (record { user_id = 1; username = "bob" })) (2 ∷ [])
      (cluster_of strangers)

abbrev there_and_back : List Command
there_and_back = following 1 2 ∷ unfollowing 1 2 ∷ following 2 1 ∷ []

perform_all-effect_example :
    let (rs, c') = perform_all flaky there_and_back (cluster_of strangers) in
    (marks : List Bool) × (honest rs marks ≡ true)
    × ((x y : Uuid)
        → graph_of c' x y ≡ effect there_and_back marks (graph_of (cluster_of strangers)) x y)
perform_all-effect_example = perform_all-effect flaky there_and_back (cluster_of strangers)

abbrev bob : Identity
bob = record { user_id = 1; username = "bob" }

abbrev renaming : UpdateRequest
renaming = record { display_name = "Bob"; bio = "reads" }

get_user-update_me_example :
    let u = person 1 "bob" 0 1 in
    let v = person 2 "eve" 1 0 in
    let c = cluster_of friends in
    (c' : Cluster) × (update_me live (some bob) (some renaming) c
      ≡ (write_json 200 (edited renaming u), c'))
    × ((get_user live "bob" (caught_up c')).0 ≡ write_json 200 (edited renaming u))
    × ((get_user live "eve" (caught_up c')).0 ≡ write_json 200 v)
get_user-update_me_example =
    get_user-update_me live live-IsUp bob renaming (person 1 "bob" 0 1) (person 2 "eve" 1 0)
      (cluster_of friends) (λ i. refl) refl refl refl (λ e. ground (arith, e)) refl

there_and_back-AreNew : AreNew live there_and_back (cluster_of strangers)
unfolding Service.follow Service.unfollow Repository.follow Repository.unfollow
there_and_back-AreNew = (refl, (refl, tt))

perform_all-IsConsistent_example :
    IsConsistent (perform_all live there_and_back (cluster_of strangers)).1.tables
perform_all-IsConsistent_example =
    perform_all-IsConsistent live there_and_back (cluster_of strangers) there_and_back-AreNew
      strangers-IsConsistent
