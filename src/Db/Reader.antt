-- ===== src/Db/Reader.antt =====
-- What `Reader` of pkg/db/postgres.go promises: a healthy replica if there is one, else the primary.
use native.Mathlib.Nat.{add-zero, mod-add-mod, add-mod_right, mod-eq_of_lt, mod_self}
use mini_twitter.Common.{
  ℕ, zero, suc, ◌+◌, ◌-◌, ◌%◌, ◌≤◌, ◌<◌, ◌≡◌, refl, sym, ap, ◌∙◌, ◌≢◌, Bool, true, false, Option,
  none, some, List, [], ◌∷◌, arith, length, get_or, Bool-cases, Option-cases, subst, ◌↔◌, inl, inr,
  dec_lt, ℕ_discrete,
}
use mini_twitter.Db.{primary, replica, Db, u64, scan, chosen, reader}

scan_sound :
    (left i start n k : ℕ) (hs : List Bool)
    → scan left i start n hs ≡ some k
    → get_or hs k false ≡ true
unfolding scan
scan_sound zero i start n k hs e = cc
scan_sound (suc left) i start n k hs e =
    let idx = ((start + i) % u64) % n in
    let rest = scan left (i + 1) start n hs in ground (arith, scan_sound left (i + 1) start n k hs)

scan-none :
    (left i start n : ℕ) (hs : List Bool)
    → scan left i start n hs ≡ none
    → (j : ℕ) → i ≤ j
    → j < i + left
    → get_or hs (((start + j) % u64) % n) false ≡ false
unfolding scan
scan-none zero i start n hs e j lo hi = absurd (omega arith)
scan-none (suc left) i start n hs e j lo hi = elim (ℕ_discrete i j) [
  | yes same ↦ rw (← same) (ground arith)
  | no other ↦ scan-none left (i + 1) start n hs (ground arith) j (omega arith) (omega arith)
]

-- The index at which a scan that may wrap arrives in round `j`.
abbrev index_at : ℕ → ℕ → ℕ → ℕ
index_at start j n = ((start + j) % u64) % n

index_at_no_wrap : (start j n : ℕ) → start + j < u64 → index_at start j n ≡ (start + j) % n
index_at_no_wrap start j n h = ap (λ t. t % n) (mod-eq_of_lt h)

-- Every index below `n` is met in some round.
round_of : (start n j : ℕ) → j < n → (r : ℕ) × (r < n) × ((start + r) % n ≡ j)
round_of start n j h = elim (dec_lt j (start % n)) [
  | yes below ↦ (
    j + n - start % n,
    omega arith,
    sym (mod-add-mod start n (j + n - start % n))
        ∙ ap (λ t. t % n) (omega arith)
        ∙ add-mod_right j n
        ∙ mod-eq_of_lt h,
  )
  | no above ↦ (
    j - start % n,
    omega arith,
    sym (mod-add-mod start n (j - start % n)) ∙ ap (λ t. t % n) (omega arith) ∙ mod-eq_of_lt h,
  )
]

scan_complete :
    (start n : ℕ) (hs : List Bool)
    → start + n ≤ u64
    → scan n 0 start n hs ≡ none
    → (j : ℕ) → j < n
    → get_or hs j false ≡ false
scan_complete start n hs h e j lt =
    let (r, below, meets) = round_of start n j lt in
    let same : index_at start r n ≡ j = index_at_no_wrap start r n (omega arith) ∙ meets in
    subst (λ k. get_or hs k false ≡ false) same
      (scan-none n 0 start n hs e r (omega arith) (omega arith))

pub get_or-beyond : (hs : List Bool) (j : ℕ) → length hs ≤ j → get_or hs j false ≡ false
get_or-beyond [] j h = refl
get_or-beyond (x ∷ hs) zero h = absurd (omega arith)
get_or-beyond (x ∷ hs) (suc j) h = get_or-beyond hs j (omega arith)

-- The outcome of a whole scan, also where there is no replica.
abbrev scanned : Db → Option ℕ
scanned d = scan (length d.healthy) 0 ((d.counter + 1) % u64) (length d.healthy) d.healthy

reader_scans_at :
    (hs : List Bool) (c : ℕ)
    → (reader (record { healthy = hs; counter = c })).0
      ≡ chosen (scanned (record { healthy = hs; counter = c }))
unfolding reader scan
reader_scans_at [] c = refl
reader_scans_at (x ∷ hs) c = ground arith

pub reader_scans : (d : Db) → (reader d).0 ≡ chosen (scanned d)
reader_scans d = reader_scans_at d.healthy d.counter

-- A read goes to a replica only if that replica is marked healthy.
pub reader_healthy : (d : Db) (k : ℕ) → (reader d).0 ≡ replica k → get_or d.healthy k false ≡ true
reader_healthy d k e = ground (
  arith,
  reader_scans d,
  scan_sound (length d.healthy) 0 ((d.counter + 1) % u64) (length d.healthy) k d.healthy,
)

reader_primary_only :
    (d : Db)
    → d.counter + 1 + length d.healthy ≤ u64
    → (reader d).0 ≡ primary
    → (j : ℕ) → get_or d.healthy j false ≡ false
reader_primary_only d h e j = elim (dec_lt j (length d.healthy)) [
  | yes inside ↦
      scan_complete ((d.counter + 1) % u64) (length d.healthy) d.healthy (omega arith)
        (ground (arith, reader_scans d)) j inside
  | no outside ↦ get_or-beyond d.healthy j (omega arith)
]

-- As long as the counter does not wrap during the scan, a read goes to the primary exactly when no
-- replica is marked healthy.
pub reader_primary :
    (d : Db)
    → d.counter + 1 + length d.healthy ≤ u64
    → ((reader d).0 ≡ primary) ↔ ((j : ℕ) → get_or d.healthy j false ≡ false)
reader_primary d h = (reader_primary_only d h, all_down)
  where
    all_down : ((j : ℕ) → get_or d.healthy j false ≡ false) → (reader d).0 ≡ primary
    all_down down = elim (Option-cases (scanned d)) [
      | inl e ↦ reader_scans d ∙ ap chosen e
      | inr (k, e) ↦ absurd (cc (down k, reader_healthy d k (reader_scans d ∙ ap chosen e)))
    ]

scan_first :
    (left start n : ℕ) (hs : List Bool)
    → 0 < left
    → get_or hs ((start % u64) % n) false ≡ true
    → scan left 0 start n hs ≡ some ((start % u64) % n)
unfolding scan
scan_first zero start n hs h up = elim h [ ]
scan_first (suc left) start n hs h up = rw (add-zero start) (rw up refl)

-- The reads go round: the next read takes the replica numbered by the counter plus one, modulo the
-- number of replicas, if that replica is marked healthy, and the counter moves on by one.
pub reader_round_robin :
    (d : Db)
    → 0 < length d.healthy
    → d.counter + 1 < u64
    → get_or d.healthy ((d.counter + 1) % length d.healthy) false ≡ true
    → ((reader d).0 ≡ replica ((d.counter + 1) % length d.healthy))
      × ((reader d).1 ≡ record d { counter = d.counter + 1 })
reader_round_robin d h lt up = (first, moved)
  where
    small : ((d.counter + 1) % u64) % u64 ≡ d.counter + 1
    small = omega arith

    found : scanned d ≡ some (((d.counter + 1) % u64) % u64 % length d.healthy)
    found = scan_first (length d.healthy) _ _ d.healthy h (rw small up)

    first : (reader d).0 ≡ replica ((d.counter + 1) % length d.healthy)
    first = reader_scans d ∙ ap chosen found ∙ ap (λ t. replica (t % length d.healthy)) small

    moved : (reader d).1 ≡ record d { counter = d.counter + 1 }
    moved = unfold reader in ground arith

scan_visits :
    (left i start n k : ℕ) (hs : List Bool)
    → scan left i start n hs ≡ some k
    → (r : ℕ) × (i ≤ r) × (r < i + left) × (index_at start r n ≡ k)
unfolding scan
scan_visits zero i start n k hs e = cc
scan_visits (suc left) i start n k hs e = elim (Bool-cases (get_or hs (index_at start i n) false)) [
  | inl up ↦ (i, omega arith, omega arith, ground arith)
  | inr down ↦
      (let (r, lo, hi, at) = scan_visits left (i + 1) start n k hs (ground arith) in
        (r, omega (arith, lo), omega (arith, hi), at))
]

wrap_start : (n : ℕ) → 0 < n → (u64 - 1) % n ≡ n - 1 → u64 % n ≡ 0
wrap_start n h e =
    sym (mod-add-mod (u64 - 1) n 1)
    ∙ ap (λ t. (t + 1) % n) e
    ∙ ap (λ t. t % n) (omega arith)
    ∙ mod_self n

wrap_later : (n r : ℕ) → 0 < r → r < n → n < u64 → index_at (u64 - 1) r n ≡ r - 1
wrap_later n r h lt small =
    ap (λ t. t % n) {x = ((u64 - 1) + r) % u64} (omega arith) ∙ mod-eq_of_lt (omega arith)

-- From the last value before the wrap no round arrives at the last index.
wrap_skips : (n r : ℕ) → 0 < n → n < u64 → u64 % n ≢ 0 → r < n → index_at (u64 - 1) r n ≢ n - 1
wrap_skips n zero h small odd lt e = odd (wrap_start n h e)
wrap_skips n (suc r) h small odd lt e =
    omega (arith, wrap_later n (suc r) (omega arith) lt small, e)

-- Where the uint64 counter is about to wrap and the number of replicas does not divide 2^64, the
-- scan skips the last replica: if that is the only healthy one, the read goes to the primary.
pub reader_wrap_misses :
    (d : Db)
    → d.counter + 2 ≡ u64
    → 0 < length d.healthy
    → length d.healthy < u64
    → u64 % length d.healthy ≢ 0
    → get_or d.healthy (length d.healthy - 1) false ≡ true
    → ((j : ℕ) → get_or d.healthy j false ≡ true → j ≡ length d.healthy - 1)
    → (reader d).0 ≡ primary
reader_wrap_misses d c pos_n small odd up only = elim (Option-cases (scanned d)) [
  | inl e ↦ reader_scans d ∙ ap chosen e
  | inr (k, e) ↦
      let (r, lo, hi, at) =
        scan_visits (length d.healthy) 0 ((d.counter + 1) % u64) (length d.healthy) k d.healthy e in
      let last : k ≡ length d.healthy - 1 = only k (
        scan_sound (length d.healthy) 0 ((d.counter + 1) % u64) (length d.healthy) k d.healthy e) in
      absurd (
        wrap_skips (length d.healthy) r pos_n small odd (omega (arith, hi)) (
          ap (λ t. index_at t r (length d.healthy)) {y = (d.counter + 1) % u64} (omega arith)
          ∙ at
          ∙ last))
]
