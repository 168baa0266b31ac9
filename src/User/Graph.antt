-- ===== src/User/Graph.antt =====
-- The graph of follows that `Follow` and `Unfollow` of internal/user/service.go keep, over any sequence of
-- calls and whatever becomes of the round trips: a set of pairs, where the table is a list of rows.
use mini_twitter.Common.{
  ◌≡◌, ◌≢◌, refl, sym, ap, ap₂, ◌∙◌, ◌⊎◌, inl, inr, Bool, true, false, ◌&&◌, ◌||◌, not, List, [],
  ◌∷◌, ◌++◌, Result, ok, err, any, select, count, arith, ◌==◌, if◌then◌else◌, Bool-cases,
  Result-cases, St,
}
use mini_twitter.Schema.{Uuid, Follow, Tables}
use mini_twitter.Postgres.{Server, Cluster}
use mini_twitter.User.Statements.{is_follow, has_user}
use mini_twitter.User.Repository
use mini_twitter.User.Service.{follow, unfollow}
use mini_twitter.User.Follows.{followed, follows?, follow_atomic, unfollow_atomic}

pub data Command : Type 0 where
  following : Uuid → Uuid → Command
  unfollowing : Uuid → Uuid → Command

-- Who follows whom.
abbrev pub Graph : Type 0
Graph = Uuid → Uuid → Bool

abbrev pub graph_of : Cluster → Graph
graph_of c f g = follows? f g c.tables

abbrev pub set_edge : Uuid → Uuid → Bool → Graph → Graph
set_edge f g b graph x y = if f == x && g == y then b else graph x y

-- What a command means, if it takes effect.
abbrev pub meaning : Command → Graph → Graph
meaning (following f g) graph = set_edge f g true graph
meaning (unfollowing f g) graph = set_edge f g false graph

-- A sequence of commands, of which those that are marked take effect.
abbrev pub effect : List Command → List Bool → Graph → Graph
effect [] marks graph = graph
effect (c ∷ cs) [] graph = graph
effect (c ∷ cs) (true ∷ marks) graph = effect cs marks (meaning c graph)
effect (c ∷ cs) (false ∷ marks) graph = effect cs marks graph

-- What is reported as done has taken effect; an error leaves it open.
abbrev pub honest : List (Result (Unit {0})) → List Bool → Bool
honest [] [] = true
honest (ok u ∷ rs) (b ∷ marks) = b && honest rs marks
honest (err e ∷ rs) (b ∷ marks) = honest rs marks
honest rs marks = false

module _ (server : Server) where
  abbrev pub perform : Command → St Cluster (Unit {0})
  perform (following f g) = follow server f g
  perform (unfollowing f g) = unfollow server f g

  -- The calls one after the other, whatever each reports.
  unfoldable pub perform_all : List Command → Cluster → List (Result (Unit {0})) × Cluster
  perform_all [] c = ([], c)
  perform_all (cmd ∷ cmds) c =
      let (r, c') = perform cmd c in let (rs, c'') = perform_all cmds c' in (r ∷ rs, c'')

any-insert :
    (p : Follow → Bool) (fs : List Follow) (x : Follow) → any p (fs ++ x ∷ []) ≡ (p x || any p fs)
any-insert p [] x = ground arith
any-insert p (f ∷ fs) x = ground (arith, any-insert p fs x)

follows-followed :
    (f g x y : Uuid) (t : Tables)
    → (follows? f g t ≡ true) ⊎ (has_user f t.users && has_user g t.users ≡ true)
    → follows? x y (followed f g t) ≡ set_edge f g true (λ a b. follows? a b t) x y
follows-followed f g x y t h = elim (Bool-cases (follows? f g t)) [
  | inl old ↦
      let rows : (followed f g t).follows ≡ t.follows = rw (old, followed) refl in
      ap (any (is_follow x y)) rows ∙ elim (Bool-cases (f == x && g == y)) [
        | inl hit ↦
            let same : (f ≡ x) × (g ≡ y) = (ground arith, ground arith) in
            rw hit (ap₂ (λ a b. any (is_follow a b) t.follows) (sym same.0) (sym same.1) ∙ old)
        | inr miss ↦ rw miss refl
      ]
  | inr fresh ↦ elim h [
    | inl old ↦ absurd cc
    | inr both ↦
        let row : Follow = record { follower_id = f; followee_id = g } in
        let rows : (followed f g t).follows ≡ t.follows ++ row ∷ [] =
          rw (fresh, both, followed) refl in
        ap (any (is_follow x y)) rows ∙ any-insert (is_follow x y) t.follows row ∙ ground arith
  ]
]

follows-unfollowed :
    (f g x y : Uuid) (fs : List Follow)
    → any (is_follow x y) (select (λ l. not (is_follow f g l)) fs)
      ≡ (if f == x && g == y then false else any (is_follow x y) fs)
follows-unfollowed f g x y [] = ground arith
follows-unfollowed f g x y (l ∷ fs) = ground (arith, follows-unfollowed f g x y fs)

none_counted : (p : Follow → Bool) (fs : List Follow) → count p fs ≡ 0 → any p fs ≡ false
none_counted p [] h = refl
none_counted p (f ∷ fs) h = ground (arith, none_counted p fs)

-- Removing an edge that is not there.
removed_nothing :
    (f g x y : Uuid) (fs : List Follow)
    → any (is_follow f g) fs ≡ false
    → any (is_follow x y) fs ≡ (if f == x && g == y then false else any (is_follow x y) fs)
removed_nothing f g x y fs h = elim (Bool-cases (f == x && g == y)) [
  | inl hit ↦
      let same : (f ≡ x) × (g ≡ y) = (ground arith, ground arith) in
      rw hit (ap₂ (λ a b. any (is_follow a b) fs) (sym same.0) (sym same.1) ∙ h)
  | inr miss ↦ rw miss refl
]

honest_more :
    (r : Result (Unit {0})) (b : Bool) (rs : List (Result (Unit {0}))) (marks : List Bool)
    → honest (r ∷ []) (b ∷ []) ≡ true
    → honest rs marks ≡ true
    → honest (r ∷ rs) (b ∷ marks) ≡ true
honest_more (ok u) b rs marks h k = ground arith
honest_more (err e) b rs marks h k = k

effect_one :
    (cmd : Command) (cmds : List Command) (b : Bool) (marks : List Bool) (graph : Graph)
    → effect cmds marks (effect (cmd ∷ []) (b ∷ []) graph) ≡ effect (cmd ∷ cmds) (b ∷ marks) graph
effect_one cmd cmds true marks graph = refl
effect_one cmd cmds false marks graph = refl

-- Whether one command took effect.
abbrev Took : Command → Result (Unit {0}) → Cluster → Cluster → Type 0
Took cmd r c c' =
    (b : Bool) × (honest (r ∷ []) (b ∷ []) ≡ true)
    × ((x y : Uuid) → graph_of c' x y ≡ effect (cmd ∷ []) (b ∷ []) (graph_of c) x y)

refused_honest : (r : Result (Unit {0})) → r ≢ ok tt → honest (r ∷ []) (false ∷ []) ≡ true
refused_honest (ok u) h = absurd (h refl)
refused_honest (err e) h = refl

done_honest : (r : Result (Unit {0})) → honest (r ∷ []) (true ∷ []) ≡ true
done_honest (ok u) = refl
done_honest (err e) = refl

module _ (server : Server) where
  follow-Took :
      (f g : Uuid) (c : Cluster)
      → Took (following f g) (Repository.follow server f g c).0 c (Repository.follow server f g c).1
  follow-Took f g c = elim (follow_atomic server f g c) [
    | inl (same, failed) ↦ (
      false,
      refused_honest (Repository.follow server f g c).0 failed,
      λ x y. ap (follows? x y) same,
    )
    | inr (now, could) ↦ (
      true,
      done_honest (Repository.follow server f g c).0,
      λ x y. ap (follows? x y) now ∙ follows-followed f g x y c.tables could,
    )
  ]

  unfollow-Took :
      (f g : Uuid) (c : Cluster)
      → Took
          (unfollowing f g)
          (Repository.unfollow server f g c).0
          c
          (Repository.unfollow server f g c).1
  unfollow-Took f g c = elim (unfollow_atomic server f g c) [
    | inr (now, some_row) ↦ (
      true,
      done_honest (Repository.unfollow server f g c).0,
      λ x y. ap (follows? x y) now ∙ follows-unfollowed f g x y c.tables.follows,
    )
    | inl (same, nothing) ↦ elim (Result-cases (Repository.unfollow server f g c).0) [
      | inr (e, failed) ↦ (false, rw failed refl, λ x y. ap (follows? x y) same)
      | inl (u, done) ↦ (
        true,
        done_honest (Repository.unfollow server f g c).0,
        λ x y.
            ap (follows? x y) same
            ∙ removed_nothing f g x y c.tables.follows
                (none_counted (is_follow f g) c.tables.follows (nothing done)),
      )
    ]
  ]

  perform-Took :
      (cmd : Command) (c : Cluster) → Took cmd (perform server cmd c).0 c (perform server cmd c).1
  unfolding follow unfollow
  perform-Took (unfollowing f g) c = unfollow-Took f g c
  perform-Took (following f g) c = elim (Bool-cases (f == g)) [
    | inl self ↦ rw self (false, refl, λ x y. refl)
    | inr other ↦ rw other (follow-Took f g c)
  ]

  -- Whatever becomes of the round trips: after any sequence of calls of `Follow` and `Unfollow`, there
  -- is a way to mark the calls that took effect, every call that reported success among them, such
  -- that who follows whom is what the marked calls, in their order, make of who followed whom
  -- before.
  pub perform_all-effect :
      (cmds : List Command) (c : Cluster)
      → let (rs, c') = perform_all server cmds c in
        (marks : List Bool) × (honest rs marks ≡ true)
        × ((x y : Uuid) → graph_of c' x y ≡ effect cmds marks (graph_of c) x y)
  unfolding perform_all
  perform_all-effect [] c = ([], refl, λ x y. refl)
  perform_all-effect (cmd ∷ cmds) c =
      let (b, told, one) = perform-Took cmd c in
      let (marks, honest_rest, rest) = perform_all-effect cmds (perform server cmd c).1 in
      (
        b ∷ marks,
        honest_more (perform server cmd c).0 b (perform_all server cmds (perform server cmd c).1).0
            marks told honest_rest,
        λ x y.
            rest x y
            ∙ (λ i. effect cmds marks (λ a z. one a z i) x y)
            ∙ ap (λ graph. graph x y) (effect_one cmd cmds b marks (graph_of c)),
      )
