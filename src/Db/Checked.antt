-- ===== src/Db/Checked.antt =====
-- `Reader` of pkg/db/postgres.go after a tick of the health checker.
use mini_twitter.Common.{
  ℕ, ◌+◌, ◌≤◌, ◌<◌, ◌≡◌, refl, sym, ◌∙◌, ◌⊎◌, inl, inr, true, false, ◌&&◌, Option, none, some,
  Error, length, get_or, ltb, ltb→lt, arith, Bool-cases, dec_lt,
}
use mini_twitter.Db.{Pool, primary, replica, Db, u64, reader}
use mini_twitter.Db.Reader.{reader_healthy, reader_primary, get_or-beyond}
use mini_twitter.Db.Health.{check_health, check_health_flags, check_health-length, answers}

answered_once : (r : Option Error) → answers r ≡ true → r ≡ none
answered_once none h = refl
answered_once (some e) h = absurd cc

pool_cases : (p : Pool) → (p ≡ primary) ⊎ ((k : ℕ) × (p ≡ replica k))
pool_cases primary = inl refl
pool_cases (replica k) = inr (k, refl)

check_health-counter :
    (ping : ℕ → Option Error) (d : Db) → (check_health ping d).0.counter ≡ d.counter
unfolding check_health
check_health-counter ping d = refl

-- After a round of the checker, and as long as the counter does not wrap during the scan, a read goes
-- to a replica that answered its ping, whatever the flags said before, or else to the primary, and
-- then no replica answered.
pub reader_checked :
    (ping : ℕ → Option Error) (d : Db)
    → d.counter + 1 + length d.healthy ≤ u64
    → let pool = (reader (check_health ping d).0).0 in
      ((k : ℕ) × (k < length d.healthy) × (pool ≡ replica k) × (ping k ≡ none))
      ⊎ ((pool ≡ primary) × ((k : ℕ) → ltb k (length d.healthy) && answers (ping k) ≡ false))
reader_checked ping d room =
    let d' = (check_health ping d).0 in
    let same : length d'.healthy ≡ length d.healthy = check_health-length ping d in
    elim (pool_cases (reader d').0) [
      | inl at_primary ↦ inr (
        at_primary,
        λ k. elim (Bool-cases (ltb k (length d.healthy))) [
          | inr beyond ↦ rw beyond refl
          | inl below ↦
              let flag : get_or d'.healthy k false ≡ false =
                (reader_primary d' (omega (arith, same, room, check_health-counter ping d))).0
                  at_primary k in
              rw below
                (sym (check_health_flags ping d k (ltb→lt k (length d.healthy) below)) ∙ flag)
        ],
      )
      | inr (k, at_replica) ↦
          let up : get_or d'.healthy k false ≡ true = reader_healthy d' k at_replica in
          elim (dec_lt k (length d.healthy)) [
            | yes below ↦ inl (
              k,
              below,
              at_replica,
              answered_once (ping k) (sym (check_health_flags ping d k below) ∙ up),
            )
            | no beyond ↦ absurd (cc (get_or-beyond d'.healthy k (omega (arith, same)), up))
          ]
    ]
