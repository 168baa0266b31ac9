-- ===== src/Tests/Instances.antt =====
-- A Redis in memory, ids that are shown as one number, a server that answers, and a hash that keeps the
-- password.
use text.Mathlib.Text.{◌==◌ as str_eq}
use text.Mathlib.TextPositions.{eq_refl}
use mini_twitter.Common.{
  ℕ, ◌+◌, ◌≡◌, refl, sym, ap, subst, String, Option, none, some, List, [], ◌∷◌, ok, message, St, ℤ,
  pos, ◌+ℤ◌, take, bytes_eq, if◌then◌else◌,
}
use mini_twitter.Schema.{Uuid, Bytes}
use mini_twitter.Postgres.{Server, answered}
use mini_twitter.Postgres.Answered.{IsUp}
use mini_twitter.Cache.Redis.{Redis, Uuids, Cmd, lists_after, value_of}
use mini_twitter.User.Service.{Bcrypt}

pub record Memory : Type 0 where
  pub lists : Bytes → List Bytes
  pub numbers : Bytes → Option ℤ

abbrev pub no_data : Memory
no_data = record { lists = λ k. []; numbers = λ k. none }

abbrev pub with_number : Bytes → ℤ → Memory → Memory
with_number key n s = record s { numbers = λ k. if bytes_eq key k then some n else s.numbers k }

abbrev pub with_list : Bytes → List Bytes → Memory → Memory
with_list key xs s = record s { lists = λ k. if bytes_eq key k then xs else s.lists k }

pub ok_same : {A : Type 0} {a b : A} → ok a ≡ ok b → b ≡ a
ok_same e = cc

abbrev pub add_number : Bytes → ℤ → St Memory ℤ
add_number key d s =
    let n = value_of (s.numbers key) +ℤ d in
    (ok n, record s { numbers = λ k. if bytes_eq key k then some n else s.numbers k })

abbrev pub memory : Redis
memory = record {
  Store = Memory;
  list_at = λ k s. s.lists k;
  number_at = λ k s. s.numbers k;
  pipeline = λ cs s. (ok tt, record s { lists = λ k. lists_after cs k (s.lists k) });
  incr_by = add_number;
  incr_expire = λ key seconds. add_number key (pos 1);
  get_del = λ key s. (
    ok (s.numbers key),
    record s { numbers = λ k. if bytes_eq key k then none else s.numbers k },
  );
  lrange = λ key limit s. (ok (take limit (s.lists key)), s);
  pipeline-list = λ cs k s e. refl;
  incr_by-number = λ key k d s e.
      (ok_same e, ap (λ m. if bytes_eq key k then some m else s.numbers k) (sym (ok_same e)));
  incr_expire-number = λ key k seconds s e.
      (ok_same e, ap (λ m. if bytes_eq key k then some m else s.numbers k) (sym (ok_same e)));
  get_del-number = λ key k s e. (ok_same e, refl);
  lrange-list = λ key limit s e. ok_same e;
}

abbrev pub numbered : Uuids
numbered = record { show = show; parse = parse; parse-show = λ id. refl }
  where
    show : Uuid → Bytes
    show id = id ∷ []

    parse : Bytes → Option Uuid
    parse [] = none
    parse (id ∷ []) = some id
    parse (id ∷ x ∷ xs) = none

-- Ids and times that count the round trips.
abbrev pub live : Server
live = record { verdict = λ n. answered; new_id = λ n. 100 + n; now = λ n. 1000 + n }

pub live-IsUp : IsUp live
live-IsUp n = refl

pub fits :
    (password : String) {hash : String}
    → hash ≡ password
    → (if str_eq hash password then none else some (message "mismatch")) ≡ none
fits password e =
    subst (λ h. (if str_eq h password then none else some (message "mismatch")) ≡ none) (sym e)
      (rw (eq_refl password) refl)

abbrev pub plain : Bcrypt
plain = record {
  generate = λ salt password. ok password;
  compare_hash = λ hash password. if str_eq hash password then none else some (message "mismatch");
  compare-generate = λ salt password e. fits password (ok_same e);
}

pub pipeline_runs : (cs : List Cmd) (s : memory.Store) → (memory.pipeline cs s).0 ≡ ok tt
pipeline_runs cs s = refl

pub lrange_answers :
    (key : Bytes) (m : ℕ) (s : memory.Store)
    → (xs : List Bytes) × ((memory.lrange key m s).0 ≡ ok xs)
lrange_answers key m s = (take m (s.lists key), refl)

pub get_del_answers :
    (k : Bytes) (s : memory.Store) → (o : Option ℤ) × ((memory.get_del k s).0 ≡ ok o)
get_del_answers k s = (s.numbers k, refl)

pub incr_expire_answers :
    (k : Bytes) (seconds : ℕ) (s : memory.Store)
    → (m : ℤ) × ((memory.incr_expire k seconds s).0 ≡ ok m)
incr_expire_answers k seconds s = (value_of (s.numbers k) +ℤ pos 1, refl)
