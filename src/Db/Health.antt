-- ===== src/Db/Health.antt =====
-- The background health checker of pkg/db/postgres.go: one round of its ticker.
use mini_twitter.Common.{
  ℕ, zero, suc, ◌+◌, ◌<◌, ◌≡◌, refl, Bool, true, false, Option, none, some, List, [], ◌∷◌, ◌++◌,
  Error, length, get_or, ap, ◌↔◌, if◌then◌else◌, not, arith,
}
use mini_twitter.Db.{Db}

-- What the checker logs, with the index of the replica.
pub data Event : Type 0 where
  marked_unhealthy marked_healthy : ℕ → Event

-- The body of the loop over the replicas, after the ping.
unfoldable pub check_replica : ℕ → Option Error → Bool → Bool × List Event
check_replica i (some err) was_healthy =
    if was_healthy then (false, marked_unhealthy i ∷ []) else (was_healthy, [])
check_replica i none was_healthy =
    if not was_healthy then (true, marked_healthy i ∷ []) else (was_healthy, [])

check_from : ℕ → (ℕ → Option Error) → List Bool → List Bool × List Event
check_from i ping [] = ([], [])
check_from i ping (h ∷ hs) =
    let (h', events) = check_replica i (ping i) h in
    let (hs', more) = check_from (i + 1) ping hs in (h' ∷ hs', events ++ more)

-- One tick: every replica is pinged in turn.
unfoldable pub check_health : (ℕ → Option Error) → Db → Db × List Event
unfolding check_from
check_health ping d =
    let (hs, events) = check_from 0 ping d.healthy in (record d { healthy = hs }, events)

abbrev pub answers : Option Error → Bool
answers none = true
answers (some e) = false

check_from_flags :
    (i : ℕ) (ping : ℕ → Option Error) (hs : List Bool) (k m : ℕ)
    → i + k ≡ m
    → k < length hs
    → get_or (check_from i ping hs).0 k false ≡ answers (ping m)
unfolding check_from check_replica
check_from_flags i ping [] k m e h = elim h [ ]
check_from_flags i ping (x ∷ hs) zero m e h =
    let e' : i ≡ m = omega arith in rw (← e') (ground arith)
check_from_flags i ping (x ∷ hs) (suc k) m e h =
    check_from_flags (i + 1) ping hs k m (omega arith) (omega arith)

-- After a round of the checker a replica's flag says whether it answered its ping, whatever the
-- flag said before.
pub check_health_flags :
    (ping : ℕ → Option Error) (d : Db) (k : ℕ)
    → k < length d.healthy
    → get_or (check_health ping d).0.healthy k false ≡ answers (ping k)
unfolding check_health
check_health_flags ping d k h = check_from_flags 0 ping d.healthy k k (omega arith) h

check_from-length :
    (i : ℕ) (ping : ℕ → Option Error) (hs : List Bool) → length (check_from i ping hs).0 ≡ length hs
unfolding check_from
check_from-length i ping [] = refl
check_from-length i ping (x ∷ hs) = ap suc (check_from-length (i + 1) ping hs)

pub check_health-length :
    (ping : ℕ → Option Error) (d : Db) → length (check_health ping d).0.healthy ≡ length d.healthy
unfolding check_health
check_health-length ping d = check_from-length 0 ping d.healthy

check_from_quiet :
    (i : ℕ) (ping : ℕ → Option Error) (hs : List Bool)
    → ((check_from i ping hs).1 ≡ []) ↔ ((check_from i ping hs).0 ≡ hs)
unfolding check_from check_replica
check_from_quiet i ping [] = (λ _. refl, λ _. refl)
check_from_quiet i ping (x ∷ hs) = (
  ground (arith, check_from_quiet (i + 1) ping hs),
  ground (arith, check_from_quiet (i + 1) ping hs),
)
