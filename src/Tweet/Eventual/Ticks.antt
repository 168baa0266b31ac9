-- ===== src/Tweet/Eventual/Ticks.antt =====
-- Likes in eventual mode: what the flush of internal/tweet/likeaggregator.go makes of the books.
use mini_twitter.Common.{
  ◌≡◌, ◌≢◌, refl, sym, ap, ◌∙◌, subst, inl, inr, List, [], ◌∷◌, ok, Option, some, ℤ, pos, ◌+ℤ◌, All,
  if◌then◌else◌, Bool-cases, Option-cases, +ℤ_zero,
}
use mini_twitter.Schema.{Uuid, Time, Bytes, Tweet, Like}
use mini_twitter.Postgres.{Server}
use mini_twitter.Postgres.Answered.{IsUp}
use mini_twitter.Cache.Redis.{Redis, Uuids, value_of}
use mini_twitter.Tweet.Statements.{one_of}
use mini_twitter.Tweet.Service.{World}
use mini_twitter.Tweet.Aggregator.{flush}
use mini_twitter.Tweet.Aggregator.Steps.{key_of}
use mini_twitter.Tweet.Aggregator.Flush.{Distinct, gained, flush_gains}
use mini_twitter.Tweet.Eventual.{delta_in, IsCountedWith, IsBooked}

module _ (server : Server) (uuids : Uuids) (redis : Redis) (up : IsUp server)
    (answers : (k : Bytes) (s : redis.Store)
      → (o : Option ℤ) × ((redis.get_del k s).0 ≡ ok o)) where
  unflushed :
      (store : redis.Store) (id : Uuid)
      → delta_in uuids redis store id ≢ pos 0
      → redis.number_at (key_of uuids id) store ≡ some (delta_in uuids redis store id)
  unflushed store id nz = elim (Option-cases (redis.number_at (key_of uuids id) store)) [
    | inl missing ↦ absurd (nz (ap value_of missing))
    | inr (n, held) ↦ held ∙ ap some (sym (ap value_of held))
  ]

  All-unflushed :
      (store : redis.Store) (ids : List Uuid)
      → All (λ id. delta_in uuids redis store id ≢ pos 0) ids
      → All
          (λ id.
            (redis.number_at (key_of uuids id) store ≡ some (delta_in uuids redis store id))
            × (delta_in uuids redis store id ≢ pos 0))
          ids
  All-unflushed store [] h = tt
  All-unflushed store (id ∷ ids) h = ((unflushed store id h.0, h.0), All-unflushed store ids h.1)

  booked_gained :
      (ids : List Uuid) (old new : Uuid → ℤ) (ls : List Like) (ws : List Tweet)
      → ((id : Uuid) → new id ≡ (if one_of ids id then pos 0 else old id))
      → All (IsCountedWith old ls) ws
      → All (IsCountedWith new ls) (gained ids old ws)
  booked_gained ids old new ls [] h v = tt
  booked_gained ids old new ls (w ∷ ws) h v = elim (Bool-cases (one_of ids w.id)) [
    | inl hit ↦ rw hit (
      ap (λ n. w.like_count +ℤ old w.id +ℤ n) (h w.id ∙ rw hit refl)
          ∙ +ℤ_zero (w.like_count +ℤ old w.id)
          ∙ v.0,
      booked_gained ids old new ls ws h v.1,
    )
    | inr miss ↦ rw miss (
      ap (λ n. w.like_count +ℤ n) (h w.id ∙ rw miss refl) ∙ v.0,
      booked_gained ids old new ls ws h v.1,
    )
  ]

  pub flush-IsBooked :
      (now : Time) (ids : List Uuid) (w : World redis.Store)
      → Distinct ids
      → All (λ id. delta_in uuids redis w.store id ≢ pos 0) ids
      → IsBooked (delta_in uuids redis w.store) w.cluster.tables
      → let (c', store') = flush server uuids redis now ids (w.cluster, w.store) in
        IsBooked (delta_in uuids redis store') c'.tables
        × ((id : Uuid)
            → delta_in uuids redis store' id
              ≡ (if one_of ids id then pos 0 else delta_in uuids redis w.store id))
  unfolding flush
  flush-IsBooked now [] w d nz v = (v, λ id. refl)
  flush-IsBooked now (id ∷ ids) w d nz v =
      let old = delta_in uuids redis w.store in
      let flushed = flush server uuids redis now (id ∷ ids) (w.cluster, w.store) in
      let (tables, numbers) =
        flush_gains server uuids redis up answers now old id ids w.cluster w.store d
          (All-unflushed w.store (id ∷ ids) nz) in
      let deltas : (j : Uuid)
          → delta_in uuids redis flushed.1 j ≡ (if one_of (id ∷ ids) j then pos 0 else old j) =
        λ j. ap value_of (numbers j) ∙ elim (Bool-cases (one_of (id ∷ ids) j)) [
          | inl hit ↦ rw hit refl
          | inr miss ↦ rw miss refl
        ] in
      (
        subst (IsBooked (delta_in uuids redis flushed.1)) (sym tables) (record {
          like_keyed = v.like_keyed;
          booked =
              booked_gained (id ∷ ids) old (delta_in uuids redis flushed.1) w.cluster.tables.likes
                w.cluster.tables.tweets deltas v.booked;
        }),
        deltas,
      )
