-- ===== src/User/Sequences.antt =====
-- The counters of users (internal/user/repository.go) over any sequence of calls of `Follow` and
-- `Unfollow` of internal/user/service.go.
use mini_twitter.Common.{◌≡◌, inl, inr, false, List, [], ◌∷◌, Bool-cases, ◌==◌}
use mini_twitter.Schema.{Uuid}
use mini_twitter.Postgres.{Server, Cluster}
use mini_twitter.User.Service.{follow, unfollow}
use mini_twitter.User.Follows.{follows?}
use mini_twitter.User.Counters.{IsConsistent, follow-IsConsistent, unfollow-IsConsistent}
use mini_twitter.User.Graph.{Command, following, unfollowing, perform, perform_all}

module _ (server : Server) where
  -- No call of `Follow` in the sequence meets a follow that is there.
  abbrev pub AreNew : List Command → Cluster → Type 0
  AreNew [] c = Unit
  AreNew (following f g ∷ cmds) c =
      (follows? f g c.tables ≡ false) × AreNew cmds (perform server (following f g) c).1
  AreNew (unfollowing f g ∷ cmds) c = AreNew cmds (perform server (unfollowing f g) c).1

  served-IsConsistent :
      (f g : Uuid) (c : Cluster)
      → follows? f g c.tables ≡ false
      → IsConsistent c.tables
      → IsConsistent (follow server f g c).1.tables
  unfolding follow
  served-IsConsistent f g c fresh v = elim (Bool-cases (f == g)) [
    | inl self ↦ rw self v
    | inr other ↦ rw other (follow-IsConsistent server f g c fresh v)
  ]

  -- Whatever becomes of the round trips: a sequence of calls of `Follow` and `Unfollow`, of which no
  -- `Follow` meets a follow that is there, keeps the key of `follows` and, of every user, both
  -- counters equal to the numbers of rows.
  pub perform_all-IsConsistent :
      (cmds : List Command) (c : Cluster)
      → AreNew cmds c
      → IsConsistent c.tables
      → IsConsistent (perform_all server cmds c).1.tables
  unfolding perform_all unfollow
  perform_all-IsConsistent [] c new v = v
  perform_all-IsConsistent (following f g ∷ cmds) c new v =
      perform_all-IsConsistent cmds (perform server (following f g) c).1 new.1
        (served-IsConsistent f g c new.0 v)
  perform_all-IsConsistent (unfollowing f g ∷ cmds) c new v =
      perform_all-IsConsistent cmds (perform server (unfollowing f g) c).1 new
        (unfollow-IsConsistent server f g c v)
