-- ===== src/Json/Integers.antt =====
-- What the text of a number denotes, and proofs on `inkling_json_number_u64` and
-- `inkling_json_number_i64` of src/io/inkling_json.c.
use inkling_in_c.Prelude.{
  ℕ, Bytes, ◌∷◌, All, some, ◌≤◌, ◌<◌, arith, length, ◌*◌, ◌≡◌, true, ◌+◌, ◌⊎◌, ltb, none, ◌-◌, inl,
  ◌/◌, [], false, Bool-cases, inr, ◌%◌, ◌^◌, refl, ◌==◌, ℤ, pos, negate, ==_iff, u64_max, Gives,
  Option, gives, Gives-unless, nothing, not, Gives-self, Gives-some,
}
use inkling_in_c.Json.Access.{read_digits, json_number_u64, negative_result, json_number_i64}
use inkling_in_c.Json.Text.{is_digit}
use inkling_in_c.Json.Value.{number, Value}

-- The number that decimal digits denote after `n`, without a bound.
abbrev pub decimal : ℕ → Bytes → ℕ
decimal n [] = n
decimal n (c ∷ cs) = decimal (n * 10 + (c - b'0')) cs

decimal-le : (n : ℕ) (cs : Bytes) → n ≤ decimal n cs
decimal-le n [] = omega arith
decimal-le n (c ∷ cs) = omega (arith, decimal-le (n * 10 + (c - b'0')) cs)

-- Digits only, of a number that is at most the limit.
abbrev pub Fits : ℕ → ℕ → Bytes → Type 0
Fits limit n cs = All (λ c. is_digit c ≡ true) cs × (decimal n cs ≤ limit)

-- A digit passes the test of the loop exactly when the longer number is at most the limit.
digit_passes :
    (limit n c : ℕ)
    → is_digit c ≡ true
    → 9 ≤ limit
    → ltb ((limit - (c - b'0')) / 10) n ≡ false
    → n * 10 + (c - b'0') ≤ limit
digit_passes limit n c d l h = ground arith

digit_stops :
    (limit n c : ℕ)
    → is_digit c ≡ true
    → 9 ≤ limit
    → ltb ((limit - (c - b'0')) / 10) n ≡ true
    → limit < n * 10 + (c - b'0')
digit_stops limit n c d l h = ground arith

-- The loop computes the number, or fails if there is none within the limit.
pub read_digits_exact :
    (limit n : ℕ) (cs : Bytes)
    → 9 ≤ limit
    → limit ≤ u64_max
    → n ≤ limit
    → (Fits limit n cs × (read_digits limit n cs ≡ some (decimal n cs)))
      ⊎ ((¬ Fits limit n cs) × (read_digits limit n cs ≡ none))
unfolding read_digits
read_digits_exact limit n [] l u h = inl ((tt, h), refl)
read_digits_exact limit n (c ∷ cs) l u h = elim (Bool-cases (is_digit c)) [
  | inr other ↦ inr (λ (digits, _). cc (digits.0), rw other)
  | inl digit ↦ elim (Bool-cases (ltb ((limit - (c - b'0')) / 10) n)) [
    | inl stop ↦
        let large = digit_stops limit n c digit l stop in
        inr (
          λ (_, small). absurd (omega (arith, decimal-le (n * 10 + (c - b'0')) cs)),
          rw (digit, stop),
        )
    | inr pass ↦
        let small = digit_passes limit n c digit l pass in
        let exact : (n * 10 + (c - b'0')) % 2 ^ 64 ≡ n * 10 + (c - b'0') = omega arith in
        elim (read_digits_exact limit (n * 10 + (c - b'0')) cs l u small) [
          | inl (fits, e) ↦ inl (((digit, fits.0), fits.1), rw (digit, pass, exact) e)
          | inr (not_fits, e) ↦
              inr (λ (digits, le). not_fits (digits.1, le), rw (digit, pass, exact) e)
        ]
  ]
]

-- The text of an unsigned integer that a `uint64_t` holds.
abbrev pub IsU64 : Bytes → Type 0
IsU64 w = (0 < length w) × Fits u64_max 0 w

-- `inkling_json_number_u64` gives the integer that the text of the number denotes when the text is
-- digits only and the integer is at most UINT64_MAX, and fails on the text of every other number.
pub json_number_u64_exact :
    (w : Bytes)
    → (IsU64 w × (json_number_u64 (some (number w)) ≡ some (decimal 0 w)))
      ⊎ ((¬ IsU64 w) × (json_number_u64 (some (number w)) ≡ none))
unfolding json_number_u64
json_number_u64_exact [] = inr (λ h. absurd (omega arith), refl)
json_number_u64_exact (c ∷ cs) = elim (Bool-cases (c == b'-')) [
  | inl minus ↦ inr (λ (_, (digits, _)). ground arith, rw minus)
  | inr plus ↦
      elim (read_digits_exact u64_max 0 (c ∷ cs) (omega arith) (omega arith) (omega arith)) [
        | inl (fits, e) ↦ inl ((omega arith, fits), rw plus e)
        | inr (not_fits, e) ↦ inr (λ (_, fits). not_fits fits, rw plus e)
      ]
]

-- The text denotes the integer `z`, and an `int64_t` holds it: digits, or a minus and digits.
pub data DenotesI64 : Bytes → ℤ → Type 0 where
  plain : {w : Bytes} → 0 < length w → Fits (2 ^ 63 - 1) 0 w → DenotesI64 w (pos (decimal 0 w))
  minus :
      {c : ℕ} {ds : Bytes}
      → c ≡ b'-'
      → 0 < length ds
      → Fits (2 ^ 63) 0 ds
      → DenotesI64 (c ∷ ds) (negate (decimal 0 ds))

negative_result-negate : (m : ℕ) → negative_result m ≡ negate m
negative_result-negate m = elim (Bool-cases (m == 2 ^ 63)) [
  | inl least ↦ rw (least, (==_iff m (2 ^ 63)).0 least)
  | inr other ↦ rw other
]

not_denoted_minus :
    (c : ℕ) (cs : Bytes) {z : ℤ}
    → (c == b'-') ≡ true
    → (0 < length cs → ¬ Fits (2 ^ 63) 0 cs)
    → ¬ DenotesI64 (c ∷ cs) z
not_denoted_minus c cs m no_fit (plain l (digits, _)) = ground arith
not_denoted_minus c cs m no_fit (minus e l fits) = no_fit l fits

not_denoted_plain :
    (c : ℕ) (cs : Bytes) {z : ℤ}
    → (c == b'-') ≡ false
    → ¬ Fits (2 ^ 63 - 1) 0 (c ∷ cs)
    → ¬ DenotesI64 (c ∷ cs) z
not_denoted_plain c cs p no_fit (plain l fits) = no_fit fits
not_denoted_plain c cs p no_fit (minus e l fits) = ground arith

not_denoted_empty : {z : ℤ} → ¬ DenotesI64 [] z
not_denoted_empty (plain l fits) = omega arith

-- `inkling_json_number_i64` gives the integer that the text of the number denotes, INT64_MIN
-- included, and fails exactly on the texts that denote none that an `int64_t` holds.
pub json_number_i64_exact :
    (w : Bytes)
    → ((z : ℤ) × DenotesI64 w z × (json_number_i64 (some (number w)) ≡ some z))
      ⊎ (((z : ℤ) → ¬ DenotesI64 w z) × (json_number_i64 (some (number w)) ≡ none))
unfolding json_number_i64
json_number_i64_exact [] = inr (λ z. not_denoted_empty, refl)
json_number_i64_exact (c ∷ []) = elim (Bool-cases (c == b'-')) [
  | inl is_minus ↦
      inr (λ z. not_denoted_minus c [] is_minus (λ l. absurd (omega arith)), rw is_minus)
  | inr other ↦
      elim (read_digits_exact (2 ^ 63 - 1) 0 (c ∷ []) (omega arith) (omega arith) (omega arith)) [
        | inl (fits, e) ↦ inl (_, plain (omega arith) fits, rw (other, e))
        | inr (no_fit, e) ↦ inr (λ z. not_denoted_plain c [] other no_fit, rw (other, e))
      ]
]
json_number_i64_exact (c ∷ d ∷ cs) = elim (Bool-cases (c == b'-')) [
  | inl is_minus ↦
      elim (read_digits_exact (2 ^ 63) 0 (d ∷ cs) (omega arith) (omega arith) (omega arith)) [
        | inl (fits, e) ↦ inl (
          _,
          minus ((==_iff c b'-').0 is_minus) (omega arith) fits,
          rw (is_minus, e, negative_result-negate),
        )
        | inr (no_fit, e) ↦
            inr (λ z. not_denoted_minus c (d ∷ cs) is_minus (λ l. no_fit), rw (is_minus, e))
      ]
  | inr other ↦
      elim (read_digits_exact (2 ^ 63 - 1) 0 (c ∷ d ∷ cs) (omega arith) (omega arith)
        (omega arith)) [
          | inl (fits, e) ↦ inl (_, plain (omega arith) fits, rw (other, e))
          | inr (no_fit, e) ↦ inr (λ z. not_denoted_plain c (d ∷ cs) other no_fit, rw (other, e))
        ]
]

read_digits-bounded :
    (limit n : ℕ) (w : Bytes)
    → limit < 2 ^ 64
    → n ≤ limit
    → 9 ≤ limit
    → Gives (λ m. m ≤ limit) (read_digits limit n w)
unfolding read_digits
read_digits-bounded limit n [] l m d = gives m
read_digits-bounded limit n (c ∷ cs) l m d = Gives-unless (not (is_digit c)) λ digit.
    Gives-unless (ltb ((limit - (c - b'0')) / 10) n)
      λ small. read_digits-bounded limit ((n * 10 + (c - b'0')) % 2 ^ 64) cs l (ground arith) d

-- `inkling_json_number_u64` gives a number that a `uint64_t` holds.
pub json_number_u64-bounded : (v : Option Value) → Gives (λ n. n < 2 ^ 64) (json_number_u64 v)
unfolding json_number_u64
json_number_u64-bounded (some (number [])) = nothing
json_number_u64-bounded (some (number (c ∷ cs))) = Gives-unless (c == b'-') λ _.
    Gives-self (read_digits u64_max 0 (c ∷ cs)) λ n e. omega (
      arith,
      Gives-some (read_digits-bounded u64_max 0 (c ∷ cs) (omega arith) (omega arith) (omega arith))
          e,
    )
json_number_u64-bounded _ = nothing
