-- ===== src/Alloc/Bounds.antt =====
-- Proofs on `inkling_size_add` and `inkling_size_mul` of src/core/inkling_alloc.c.
use native.Mathlib.Nat.{mod-eq_of_lt, div-lt_iff_lt-mul}
use inkling_in_c.Prelude.{sym, ◌∙◌}
use native.Mathlib.Decide.{dec_le}
use inkling_in_c.Prelude.{
  ℕ, zero, suc, ◌+◌, ◌*◌, ◌/◌, ◌^◌, ◌≤◌, ◌<◌, ◌≡◌, ◌⊎◌, inl, inr, none, some, arith, size_max,
}
use inkling_in_c.Alloc.{size_add, size_mul}

-- For operands in range, `inkling_size_add` gives the exact sum when it fits in a `size_t`, and
-- fails when it does not.
pub size_add_exact :
    (a b : ℕ)
    → a ≤ size_max
    → b ≤ size_max
    → ((a + b ≤ size_max) × (size_add a b ≡ some (a + b)))
      ⊎ ((size_max < a + b) × (size_add a b ≡ none))
unfolding size_add
size_add_exact a b ha hb = ground arith

mul-le-of_le_div : (a b m : ℕ) → 0 < b → a ≤ m / b → a * b ≤ m
mul-le-of_le_div a b m hb h = grind arith

lt-mul-of_lt_div : (a b m : ℕ) → 0 < b → m / b < a → m < a * b
lt-mul-of_lt_div a b m hb h = (div-lt_iff_lt-mul {k = b} {x = m} {y = a} hb).0 h

-- For operands in range, `inkling_size_mul` gives the exact product when it fits in a `size_t`, and
-- fails when it does not; a zero operand is never an overflow.
pub size_mul_exact :
    (a b : ℕ)
    → a ≤ size_max
    → b ≤ size_max
    → ((a * b ≤ size_max) × (size_mul a b ≡ some (a * b)))
      ⊎ ((size_max < a * b) × (size_mul a b ≡ none))
unfolding size_mul
size_mul_exact a zero ha hb = ground arith
size_mul_exact a (suc b) ha hb = elim (dec_le a (size_max / suc b)) [
  | yes h ↦ inl (
    mul-le-of_le_div a (suc b) size_max (omega arith) h,
    ground (
      arith,
      mul-le-of_le_div a (suc b) size_max (omega arith) h,
      mod-eq_of_lt {n = a * suc b} {m = 2 ^ 64},
    ),
  )
  | no h ↦ inr (lt-mul-of_lt_div a (suc b) size_max (omega arith) (omega arith), ground arith)
]

pub size_mul-exact :
    (a b : ℕ) → a ≤ size_max → b ≤ size_max → {n : ℕ} → size_mul a b ≡ some n → n ≡ a * b
size_mul-exact a b h k e = elim (size_mul_exact a b h k) [
  | inl (_, f) ↦ let same : some (a * b) ≡ some _ = sym f ∙ e in cc
  | inr (_, f) ↦ let never : none ≡ some _ = sym f ∙ e in cc
]

pub size_mul-le : (a b : ℕ) {n : ℕ} → size_mul a b ≡ some n → n ≤ size_max
unfolding size_mul
size_mul-le a b e = ground arith

pub size_mul-fits :
    (a b : ℕ) → a ≤ size_max → b ≤ size_max → a * b ≤ size_max → size_mul a b ≡ some (a * b)
size_mul-fits a b h k l = elim (size_mul_exact a b h k) [
  | inl (_, e) ↦ e
  | inr (large, _) ↦ absurd (omega arith)
]

pub size_add-fits : (a b : ℕ) → a + b ≤ size_max → size_add a b ≡ some (a + b)
unfolding size_add
size_add-fits a b l = ground arith
