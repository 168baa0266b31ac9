-- ===== src/Common/Outcome.antt =====
-- Go's `(value, error)` results, and code that changes a state and may return an error. What was
-- written before an error stays written, so the state comes back on both paths.
use Prim.Native.Nat.{ℕ}
use Prim.Native.String.{String}
use mathlib.Core.Path.{◌≡◌, refl, ap}
use mathlib.Core.Logic.{◌⊎◌, inl, inr}

-- `errors.New`, `fmt.Errorf("prefix: %w")`, pgx.ErrNoRows, and what a driver or a library reports.
pub data Error : Type 0 where
  message : String → Error
  wrap : String → Error → Error
  no_rows : Error
  violation : String → Error
  external : ℕ → Error

pub data Result {ℓ} (A : Type ℓ) : Type ℓ where
  ok : A → Result A
  err : Error → Result A

abbrev pub St : Type 0 → Type 0 → Type 0
St S A = S → Result A × S

module _ {S A : Type 0} where
  abbrev pub pure : A → St S A
  pure a s = (ok a, s)

  abbrev pub fail : Error → St S A
  fail e s = (err e, s)

  -- A call that does not touch the state.
  abbrev pub from_result : Result A → St S A
  from_result r s = (r, s)

  -- `if err != nil { return fmt.Errorf(prefix, err) }`
  abbrev pub wrapping : String → St S A → St S A
  wrapping prefix m s =
      let (r, s') = m s in elim r [ ok a ↦ (ok a, s') | err e ↦ (err (wrap prefix e), s') ]

  -- An error that is only logged.
  abbrev pub logging : St S A → St S (Unit {0})
  logging m s = let (r, s') = m s in (ok tt, s')

infixl 5 ◌>>=◌ ◌>>◌
abbrev pub ◌>>=◌ : {S A B : Type 0} → St S A → (A → St S B) → St S B
◌>>=◌ m f s = let (r, s') = m s in elim r [ ok a ↦ f a s' | err e ↦ (err e, s') ]

abbrev pub ◌>>◌ : {S A B : Type 0} → St S A → St S B → St S B
m >> k = m >>= λ _. k

pub Result-cases {ℓ} :
    {A : Type ℓ} (r : Result A) → ((a : A) × (r ≡ ok a)) ⊎ ((e : Error) × (r ≡ err e))
Result-cases (ok a) = inl (a, refl)
Result-cases (err e) = inr (e, refl)

pub >>=-ok :
    {S A B : Type 0} (m : St S A) (f : A → St S B) {s s' : S} {a : A}
    → m s ≡ (ok a, s')
    → (m >>= f) s ≡ f a s'
>>=-ok m f e = ap (λ x. elim x.0 [ ok b ↦ f b x.1 | err e' ↦ (err e', x.1) ]) e

pub wrapping-ok :
    {S A : Type 0} (prefix : String) (m : St S A) {s s' : S} {a : A}
    → m s ≡ (ok a, s')
    → wrapping prefix m s ≡ (ok a, s')
wrapping-ok prefix m e =
    ap (λ x. elim x.0 [ ok b ↦ (ok b, x.1) | err e' ↦ (err (wrap prefix e'), x.1) ]) e

-- What a computation ensures: of the state in any case, and of the value where there is one.
abbrev pub Holds : {A : Type 0} → (A → Type 0) → Result A → Type 0
Holds P (ok a) = P a
Holds P (err e) = Unit

abbrev pub Ensures : {S A : Type 0} → (S → Type 0) → (A → Type 0) → Result A × S → Type 0
Ensures I P x = I x.1 × Holds P x.0

pub >>=-Ensures :
    {S A B : Type 0} (I : S → Type 0) (P : A → Type 0) (Q : B → Type 0) (m : St S A)
    (f : A → St S B) (s : S)
    → Ensures I P (m s)
    → ((a : A) (t : S) → P a → I t → Ensures I Q (f a t))
    → Ensures I Q ((m >>= f) s)
>>=-Ensures {S} {A} {B} I P Q m f s h k = after (m s) h
  where
    after :
        (x : Result A × S)
        → Ensures I P x
        → Ensures I Q (elim x.0 [ ok b ↦ f b x.1 | err e' ↦ (err e', x.1) ])
    after (ok a, t) v = k a t v.1 v.0
    after (err e, t) v = (v.0, tt)

pub wrapping-Ensures :
    {S A : Type 0} (I : S → Type 0) (P : A → Type 0) (prefix : String) (m : St S A) (s : S)
    → Ensures I P (m s)
    → Ensures I P (wrapping prefix m s)
wrapping-Ensures {S} {A} I P prefix m s h = after (m s) h
  where
    after :
        (x : Result A × S)
        → Ensures I P x
        → Ensures I P (elim x.0 [ ok b ↦ (ok b, x.1) | err e' ↦ (err (wrap prefix e'), x.1) ])
    after (ok a, t) v = v
    after (err e, t) v = v
