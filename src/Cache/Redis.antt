-- ===== src/Cache/Redis.antt =====
-- Redis, which the program does not implement: the commands that it sends, and what Redis documents
-- of each. A client takes a `Redis` as a parameter.
use mini_twitter.Common.{
  ℕ, ◌+◌, ◌-◌, ◌≡◌, sym, ap, ◌∙◌, Option, none, some, List, [], ◌∷◌, ◌++◌, ok, St, ℤ, pos, ◌+ℤ◌,
  take, drop, bytes_eq, if◌then◌else◌,
}
use mini_twitter.Schema.{Uuid, Bytes}

-- google/uuid: the text of an id, and its parser.
pub record Uuids : Type 0 where
  pub show : Uuid → Bytes
  pub parse : Bytes → Option Uuid
  pub parse-show : (id : Uuid) → parse (show id) ≡ some id

pub show-injective : (uuids : Uuids) (a b : Uuid) → uuids.show a ≡ uuids.show b → a ≡ b
show-injective uuids a b e =
    let parsed : some a ≡ some b =
      sym (uuids.parse-show a) ∙ ap uuids.parse e ∙ uuids.parse-show b in
    cc

-- The commands that the program puts into a pipeline. The numbers of `ltrim` are not negative, and
-- `expire` is in seconds.
pub data Cmd : Type 0 where
  lpush : Bytes → Bytes → Cmd
  ltrim : Bytes → ℕ → ℕ → Cmd
  rpush : Bytes → List Bytes → Cmd
  expire : Bytes → ℕ → Cmd

-- What one command makes of the list under a key; a missing key is the empty list.
abbrev pub list_after : Cmd → Bytes → List Bytes → List Bytes
list_after (lpush key v) k xs = if bytes_eq key k then v ∷ xs else xs
list_after (ltrim key start stop) k xs =
    if bytes_eq key k then take (stop + 1 - start) (drop start xs) else xs
list_after (rpush key vs) k xs = if bytes_eq key k then xs ++ vs else xs
list_after (expire key seconds) k xs = xs

abbrev pub lists_after : List Cmd → Bytes → List Bytes → List Bytes
lists_after [] k xs = xs
lists_after (c ∷ cs) k xs = lists_after cs k (list_after c k xs)

-- INCR, DECR and GETDEL work on a counter, which is missing before its first use.
abbrev pub value_of : Option ℤ → ℤ
value_of none = pos 0
value_of (some n) = n

pub record Redis : Type 1 where
  pub Store : Type 0
  pub list_at : Bytes → Store → List Bytes
  pub number_at : Bytes → Store → Option ℤ
  pub pipeline : List Cmd → St Store (Unit {0})
  -- INCRBY key 1, and INCRBY key -1
  pub incr_by : Bytes → ℤ → St Store ℤ
  -- A pipeline of INCR key and EXPIRE key seconds, with the reply to the INCR.
  pub incr_expire : Bytes → ℕ → St Store ℤ
  pub get_del : Bytes → St Store (Option ℤ)
  -- LRANGE key 0 (limit - 1), for a limit of at least 1.
  pub lrange : Bytes → ℕ → St Store (List Bytes)
  -- A pipeline without an error has run every command.
  pub pipeline-list :
      (cs : List Cmd) (k : Bytes) (s : Store)
      → (pipeline cs s).0 ≡ ok tt
      → list_at k (pipeline cs s).1 ≡ lists_after cs k (list_at k s)
  pub incr_by-number :
      (key k : Bytes) (d : ℤ) (s : Store) {n : ℤ}
      → (incr_by key d s).0 ≡ ok n
      → (n ≡ value_of (number_at key s) +ℤ d)
        × (number_at k (incr_by key d s).1 ≡ (if bytes_eq key k then some n else number_at k s))
  pub incr_expire-number :
      (key k : Bytes) (seconds : ℕ) (s : Store) {n : ℤ}
      → (incr_expire key seconds s).0 ≡ ok n
      → (n ≡ value_of (number_at key s) +ℤ pos 1)
        × (number_at k (incr_expire key seconds s).1
            ≡ (if bytes_eq key k then some n else number_at k s))
  pub get_del-number :
      (key k : Bytes) (s : Store) {o : Option ℤ}
      → (get_del key s).0 ≡ ok o
      → (o ≡ number_at key s)
        × (number_at k (get_del key s).1 ≡ (if bytes_eq key k then none else number_at k s))
  pub lrange-list :
      (key : Bytes) (limit : ℕ) (s : Store) {xs : List Bytes}
      → (lrange key limit s).0 ≡ ok xs
      → xs ≡ take limit (list_at key s)
