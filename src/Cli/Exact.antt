-- ===== src/Cli/Exact.antt =====
-- Proofs on `parse_unsigned` of src/cli/inkling_run.c.
use inkling_in_c.Json.Integers.{Fits, decimal, read_digits_exact}
use inkling_in_c.Json.Access.{read_digits}
use inkling_in_c.Cli.{unsigned_digits, parse_unsigned}
use inkling_in_c.Prelude.{
  if◌then◌else◌, ℕ, Bytes, ◌≡◌, ◌≤◌, ◌∷◌, u64_max, ◌*◌, ◌<◌, ◌+◌, length, ◌-◌, some, ◌%◌, ◌⊎◌, ◌^◌,
  none, inr, [], arith, refl, inl, ◌∙◌, ltb, ap₂, ◌||◌, not, ◌/◌,
}
use inkling_in_c.Json.Text.{is_digit}

no_digit : (c : ℕ) → (ltb c b'0' || ltb b'9' c) ≡ not (is_digit c)
no_digit c = ground arith

-- The loop is that of the reader of JSON integers.
unsigned_digits-read_digits :
    (maximum value : ℕ) (cs : Bytes)
    → unsigned_digits maximum value cs ≡ read_digits maximum value cs
unfolding unsigned_digits read_digits
unsigned_digits-read_digits maximum value [] = refl
unsigned_digits-read_digits maximum value (c ∷ cs) =
    let same = unsigned_digits-read_digits maximum ((value * 10 + (c - b'0')) % 2 ^ 64) cs in
    ap₂ (λ b r. if b then none else if ltb ((maximum - (c - b'0')) / 10) value then none else r)
      (no_digit c) same

-- `parse_unsigned` gives the number that a text denotes when the text is digits only, at least one, and
-- the number is at most the maximum, and fails on every other text. The maximum is 9 at least.
pub parse_unsigned_exact :
    (text : Bytes) (maximum : ℕ)
    → 9 ≤ maximum
    → maximum ≤ u64_max
    → ((0 < length text)
        × Fits maximum 0 text
        × (parse_unsigned text maximum ≡ some (decimal 0 text)))
      ⊎ ((¬ ((0 < length text) × Fits maximum 0 text)) × (parse_unsigned text maximum ≡ none))
unfolding parse_unsigned
parse_unsigned_exact [] maximum l u = inr (λ (h, _). absurd (omega arith), refl)
parse_unsigned_exact (c ∷ cs) maximum l u =
    elim (read_digits_exact maximum 0 (c ∷ cs) l u (omega arith)) [
      | inl (fits, e) ↦ inl (omega arith, fits, unsigned_digits-read_digits maximum 0 (c ∷ cs) ∙ e)
      | inr (wrong, e) ↦
          inr (λ (_, fits). wrong fits, unsigned_digits-read_digits maximum 0 (c ∷ cs) ∙ e)
    ]
