-- ===== src/Db.antt =====
-- pkg/db/postgres.go: the primary pool, the read replicas with their health flags, the choice of a
-- pool for each read, and the background health checker.
pub mod Reader
pub mod Health
pub mod Checked
pub mod Open
use mini_twitter.Common.{
  ℕ, zero, suc, ◌+◌, ◌%◌, ◌^◌, Bool, false, Option, none, some, List, length, get_or, ◌==◌,
  if◌then◌else◌,
}

-- A connection pool, by where it leads.
pub data Pool : Type 0 where
  primary : Pool
  replica : ℕ → Pool

-- One health flag for each replica, and the atomic counter of `Reader`, a uint64.
pub record Db : Type 0 where
  pub healthy : List Bool
  pub counter : ℕ

abbrev pub u64 : ℕ
u64 = 2 ^ 64

-- The loop of `Reader`: `left` rounds from round `i`; `start + i` wraps as a uint64 does.
pub scan : ℕ → ℕ → ℕ → ℕ → List Bool → Option ℕ
scan zero i start n healthy = none
scan (suc left) i start n healthy =
    let idx = ((start + i) % u64) % n in
    let rest = scan left (i + 1) start n healthy in
    if get_or healthy idx false then some idx else rest

abbrev pub chosen : Option ℕ → Pool
chosen (some idx) = replica idx
chosen none = primary

unfoldable pub reader : Db → Pool × Db
reader d =
    let n = length d.healthy in
    if n == 0
    then (primary, d)
    else (let start = (d.counter + 1) % u64 in
        (chosen (scan n 0 start n d.healthy), record d { counter = start }))
