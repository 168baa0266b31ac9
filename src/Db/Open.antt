-- ===== src/Db/Open.antt =====
-- `New` of pkg/db/postgres.go: which pools it opens.
use mini_twitter.Common.{
  ℕ, zero, suc, ◌+◌, ◌%◌, ◌<◌, ◌≡◌, refl, sym, ap, ◌∙◌, ◌⊎◌, inl, inr, Bool, true, false, List, [],
  ◌∷◌, Result, ok, err, wrap, Error, length, count, get_or, arith,
}
use mini_twitter.Db.{Db, Pool, primary, replica, reader}
use mini_twitter.Db.Reader.{reader_round_robin, reader_primary}

-- What comes of a URL: it cannot be parsed, the pool cannot be made, the ping has no answer, or it has.
pub data Probe : Type 0 where
  unparsed unconnected unanswered : Error → Probe
  reached : Probe

-- A replica that is not reached is skipped; the others start healthy.
abbrev pub open_replicas : List Probe → List Bool
open_replicas [] = []
open_replicas (reached ∷ ps) = true ∷ open_replicas ps
open_replicas (unparsed e ∷ ps) = open_replicas ps
open_replicas (unconnected e ∷ ps) = open_replicas ps
open_replicas (unanswered e ∷ ps) = open_replicas ps

abbrev pub open_db : Probe → List Probe → Result Db
open_db (unparsed e) replicas = err (wrap "parse primary config" e)
open_db (unconnected e) replicas = err (wrap "primary pool" e)
open_db (unanswered e) replicas = err (wrap "primary ping" e)
open_db reached replicas = ok (record { healthy = open_replicas replicas; counter = 0 })

-- `Close`: the pools that it closes, in order.
abbrev pub close_replicas : ℕ → List Bool → List Pool
close_replicas i [] = []
close_replicas i (h ∷ hs) = replica i ∷ close_replicas (suc i) hs

abbrev pub close_db : Db → List Pool
close_db d = primary ∷ close_replicas 0 d.healthy

abbrev pub is_reached : Probe → Bool
is_reached reached = true
is_reached p = false

length-open_replicas : (ps : List Probe) → length (open_replicas ps) ≡ count is_reached ps
length-open_replicas [] = refl
length-open_replicas (reached ∷ ps) = ap suc (length-open_replicas ps)
length-open_replicas (unparsed e ∷ ps) = length-open_replicas ps
length-open_replicas (unconnected e ∷ ps) = length-open_replicas ps
length-open_replicas (unanswered e ∷ ps) = length-open_replicas ps

open_replicas-healthy :
    (ps : List Probe) (k : ℕ)
    → k < length (open_replicas ps)
    → get_or (open_replicas ps) k false ≡ true
open_replicas-healthy [] k h = absurd (omega arith)
open_replicas-healthy (reached ∷ ps) zero h = refl
open_replicas-healthy (reached ∷ ps) (suc k) h = open_replicas-healthy ps k (omega arith)
open_replicas-healthy (unparsed e ∷ ps) k h = open_replicas-healthy ps k h
open_replicas-healthy (unconnected e ∷ ps) k h = open_replicas-healthy ps k h
open_replicas-healthy (unanswered e ∷ ps) k h = open_replicas-healthy ps k h

none_up : (xs : List Bool) → length xs ≡ 0 → (j : ℕ) → get_or xs j false ≡ false
none_up [] h j = refl
none_up (x ∷ xs) h j = absurd (omega (arith, h))

-- A primary that is not reached is an error, whatever the replicas are. Otherwise `New` succeeds with
-- one healthy replica for each one reached, and the first read goes to one of them, or to the primary
-- where there is none.
pub open_db-ready :
    (p : Probe) (ps : List Probe)
    → ((is_reached p ≡ false) × (e : Error) × (open_db p ps ≡ err e))
      ⊎ ((d : Db) × (open_db p ps ≡ ok d)
          × (length d.healthy ≡ count is_reached ps)
          × (((count is_reached ps ≡ 0) × ((reader d).0 ≡ primary))
              ⊎ ((k : ℕ) × (k < count is_reached ps) × ((reader d).0 ≡ replica k))))
open_db-ready (unparsed e) ps = inl (refl, wrap "parse primary config" e, refl)
open_db-ready (unconnected e) ps = inl (refl, wrap "primary pool" e, refl)
open_db-ready (unanswered e) ps = inl (refl, wrap "primary ping" e, refl)
open_db-ready reached ps =
    inr (d, refl, length-open_replicas ps, first (length (open_replicas ps)) refl)
  where
    d : Db
    d = record { healthy = open_replicas ps; counter = 0 }

    one : 0 + 1 ≡ 1
    one = omega arith

    first :
        (n : ℕ)
        → length (open_replicas ps) ≡ n
        → ((count is_reached ps ≡ 0) × ((reader d).0 ≡ primary))
          ⊎ ((k : ℕ) × (k < count is_reached ps) × ((reader d).0 ≡ replica k))
    first zero e = inl (
      sym (length-open_replicas ps) ∙ e,
      (reader_primary d (omega arith)).1 (none_up (open_replicas ps) e),
    )
    first (suc n) e =
        let next : 1 % length (open_replicas ps) < length (open_replicas ps) = omega arith in
        let (picked, moved) = reader_round_robin d (omega arith) (omega arith) (
          ap (λ i. get_or (open_replicas ps) (i % length (open_replicas ps)) false) one
          ∙ open_replicas-healthy ps (1 % length (open_replicas ps)) next) in
        inr ((0 + 1) % length (open_replicas ps), omega (arith, length-open_replicas ps), picked)
