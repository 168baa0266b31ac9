-- ===== src/Cache/Names.antt =====
-- No two uses of Redis share a key (pkg/cache/redis.go).
use mini_twitter.Common.{
  ℕ, zero, suc, ◌+◌, ◌/◌, ◌%◌, ◌≡◌, refl, ◌≢◌, [], ◌∷◌, ◌++◌, arith, codes, sym, subst, ◌∙◌, ap,
  All, ltb, ◌*◌, ◌-◌, ◌<◌, Bool-cases, inl, inr, append_injective,
}
use mini_twitter.Schema.{Bytes}
use mini_twitter.Cache.{timeline_key, like_count_key, rate_key, decimal, decimal_from}

pub timeline_key-injective : (a b : Bytes) → timeline_key a ≡ timeline_key b → a ≡ b
unfolding timeline_key
timeline_key-injective a b = append_injective (codes "timeline:") a b

-- The first byte tells the three kinds of key apart.
first : Bytes → ℕ
first [] = 0
first (b ∷ bs) = b

pub like_count_key-injective : (a b : Bytes) → like_count_key a ≡ like_count_key b → a ≡ b
unfolding like_count_key
like_count_key-injective a b = append_injective (codes "like_count:") a b

pub timeline_key-ne-like_count_key : (a b : Bytes) → timeline_key a ≢ like_count_key b
unfolding timeline_key like_count_key first
timeline_key-ne-like_count_key a b e = absurd (omega (arith, ap first e))

timeline_key-ne-rate_key : (a b : Bytes) (m : ℕ) → timeline_key a ≢ rate_key b m
unfolding timeline_key rate_key first
timeline_key-ne-rate_key a b m e = absurd (omega (arith, ap first e))

like_count_key-ne-rate_key : (a b : Bytes) (m : ℕ) → like_count_key a ≢ rate_key b m
unfolding like_count_key rate_key first
like_count_key-ne-rate_key a b m e = absurd (omega (arith, ap first e))

-- The number that a row of digits shows, after those already read.
undecimal : ℕ → Bytes → ℕ
undecimal acc [] = acc
undecimal acc (c ∷ cs) = undecimal (acc * 10 + (c - b'0')) cs

undecimal-decimal_from :
    (fuel n : ℕ) (rest : Bytes)
    → n < fuel
    → undecimal 0 (decimal_from fuel n rest) ≡ undecimal n rest
unfolding decimal_from undecimal
undecimal-decimal_from zero n rest h = elim h [ ]
undecimal-decimal_from (suc fuel) n rest h = elim (Bool-cases (ltb n 10)) [
  | inl small ↦ rw small (ap (λ t. undecimal t rest) (ground arith))
  | inr large ↦ rw large (
      undecimal-decimal_from fuel (n / 10) ((b'0' + n % 10) ∷ rest) (ground arith)
      ∙ ap (λ t. undecimal t rest) (omega arith))
]

undecimal-decimal : (n : ℕ) → undecimal 0 (decimal n) ≡ n
unfolding decimal undecimal
undecimal-decimal n = undecimal-decimal_from (suc n) n [] (omega arith)

abbrev IsColonFree : Bytes → Type 0
IsColonFree = All λ b. b ≢ b':'

decimal_from-IsColonFree :
    (fuel n : ℕ) (rest : Bytes) → IsColonFree rest → IsColonFree (decimal_from fuel n rest)
unfolding decimal_from
decimal_from-IsColonFree zero n rest h = h
decimal_from-IsColonFree (suc fuel) n rest h =
    let digit : IsColonFree ((b'0' + n % 10) ∷ rest) = (omega arith, h) in
    elim (Bool-cases (ltb n 10)) [
      | inl small ↦ rw small digit
      | inr large ↦ rw large (decimal_from-IsColonFree fuel (n / 10) ((b'0' + n % 10) ∷ rest) digit)
    ]

decimal-IsColonFree : (n : ℕ) → IsColonFree (decimal n)
unfolding decimal
decimal-IsColonFree n = decimal_from-IsColonFree (suc n) n [] tt

colon_inside : (a d : Bytes) → ¬ IsColonFree (a ++ b':' ∷ d)
colon_inside [] d h = h.0 refl
colon_inside (x ∷ a) d h = colon_inside a d h.1

tail_of : {a b : ℕ} {as_ bs : Bytes} → ◌≡◌ {A = Bytes} (a ∷ as_) (b ∷ bs) → as_ ≡ bs
tail_of e = cc

-- Two texts with nothing but colon-free bytes behind their last colons.
split_at_colon :
    (a a' d d' : Bytes)
    → IsColonFree d
    → IsColonFree d'
    → a ++ b':' ∷ d ≡ a' ++ b':' ∷ d'
    → (a ≡ a') × (d ≡ d')
split_at_colon [] [] d d' h h' e = (refl, tail_of e)
split_at_colon [] (x ∷ a') d d' h h' e =
    absurd (colon_inside a' d' (subst IsColonFree (tail_of e) h))
split_at_colon (x ∷ a) [] d d' h h' e =
    absurd (colon_inside a d (subst IsColonFree (sym (tail_of e)) h'))
split_at_colon (x ∷ a) (y ∷ a') d d' h h' e =
    let (p, q) = split_at_colon a a' d d' h h' (tail_of e) in (cc (p, e), q)

-- The counters of two callers, or of one caller in two minutes, never share a key, also where an
-- address has colons of its own.
pub rate_key-injective :
    (ip ip' : Bytes) (m m' : ℕ) → rate_key ip m ≡ rate_key ip' m' → (ip ≡ ip') × (m ≡ m')
unfolding rate_key
rate_key-injective ip ip' m m' e =
    let rest =
      append_injective (codes "rate:") (ip ++ (codes ":" ++ decimal m))
        (ip' ++ (codes ":" ++ decimal m')) e in
    let (same, digits) =
      split_at_colon ip ip' (decimal m) (decimal m') (decimal-IsColonFree m)
        (decimal-IsColonFree m') rest in
    (same, sym (undecimal-decimal m) ∙ ap (undecimal 0) digits ∙ undecimal-decimal m')

-- One uuid has one timeline key and one counter key, and no two keys of the three kinds are equal.
pub keys_apart :
    (a b : Bytes) (m : ℕ)
    → (timeline_key a ≡ timeline_key b → a ≡ b)
      × (like_count_key a ≡ like_count_key b → a ≡ b)
      × (timeline_key a ≢ like_count_key b)
      × (timeline_key a ≢ rate_key b m)
      × (like_count_key a ≢ rate_key b m)
keys_apart a b m = (
  timeline_key-injective a b,
  like_count_key-injective a b,
  timeline_key-ne-like_count_key a b,
  timeline_key-ne-rate_key a b m,
  like_count_key-ne-rate_key a b m,
)
