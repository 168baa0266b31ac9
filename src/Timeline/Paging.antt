-- ===== src/Timeline/Paging.antt =====
-- A client that pages backward through a user's timeline (internal/timeline/service.go).
use mini_twitter.Common.{
  ℕ, suc, ◌+◌, ◌≤◌, ◌≡◌, sym, ap, ◌∙◌, subst, ok, List, ◌∷◌, ◌++◌, Option, some, pos, last, ◌==◌,
  arith,
}
use mini_twitter.Schema.{Uuid, Time, Tweet}
use mini_twitter.Postgres.{Server, Cluster}
use mini_twitter.Postgres.Answered.{IsUp, IsCurrent}
use mini_twitter.Timeline.Service.{clamp, get_user_timeline}
use mini_twitter.Timeline.Pages.{IsKeyed}
use mini_twitter.Timeline.Cursor.{IsTimed, page-next}
use mini_twitter.Timeline.Home.{Peer, over_network, page, user_timeline_page}

clamp_within : (n : ℕ) → suc n ≤ 100 → clamp (pos (suc n)) ≡ suc n
clamp_within n h = ground arith

ok_same : {A : Type 0} {a b : A} → ok a ≡ ok b → a ≡ b
ok_same e = cc

-- Paging by the time of the last tweet neither repeats nor skips a tweet: where a page of a user's
-- timeline is not empty, it and the page that is asked for with the time of its last tweet are together
-- the page of both sizes, up to 100. The server answers, the replicas have caught up, the tables are the
-- same at both calls, no two tweets have one id or one time, and the tweet service is reached over a
-- network that works.
pub user_timeline-next :
    (server : Server) (peer : Peer) (user : Uuid) (n m : ℕ) (before : Option Time) (c c' : Cluster)
    (x : Tweet) (ys : List Tweet)
    → IsUp server
    → IsCurrent c
    → IsCurrent c'
    → c'.tables ≡ c.tables
    → IsKeyed c.tables.tweets
    → IsTimed c.tables.tweets
    → suc n + suc m ≤ 100
    → (get_user_timeline server (over_network server peer) user (pos (suc n)) before c).0
      ≡ ok (x ∷ ys)
    → let cursor = some (last x ys).created_at in
      (zs : List Tweet) × ((get_user_timeline server
          (over_network server peer)
          user
          (pos (suc m))
          cursor
          c').0
        ≡ ok zs)
      × ((get_user_timeline server (over_network server peer) user (pos (suc n + suc m)) before c).0
          ≡ ok ((x ∷ ys) ++ zs))
user_timeline-next server peer user n m before c c' x ys up v v' same keyed timed small first =
    let author : Uuid → _ = λ a. a == user in
    let t = c.tables in
    let cursor = some (last x ys).created_at in
    let got : page author (suc n) before t ≡ x ∷ ys = ok_same (
      ap (λ k. ok (page author k before t)) (sym (clamp_within n (omega arith)))
      ∙ sym (user_timeline_page server peer user (pos (suc n)) before c up v keyed)
      ∙ first) in
    let sum : suc n + suc m ≡ suc (n + suc m) = omega arith in
    (
      page author (suc m) cursor t,
      user_timeline_page server peer user (pos (suc m)) cursor c' up v'
            (subst (λ u. IsKeyed u.tweets) (sym same) keyed)
          ∙ ap (λ k. ok (page author k cursor c'.tables)) (clamp_within m (omega arith))
          ∙ ap (λ u. ok (page author (suc m) cursor u)) same,
      user_timeline_page server peer user (pos (suc n + suc m)) before c up v keyed
          ∙ ap (λ k. ok (page author k before t))
              (ap (λ k. clamp (pos k)) sum ∙ clamp_within (n + suc m) (omega arith) ∙ sym sum)
          ∙ ap ok (
              sym (page-next author n (suc m) before t x ys timed got)
              ∙ ap (λ ws. ws ++ page author (suc m) cursor t) got),
    )
