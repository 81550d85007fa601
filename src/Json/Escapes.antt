-- ===== src/Json/Escapes.antt =====
-- Proofs on `parse_hex4` and the `\u` escapes of src/io/inkling_json.c.
use inkling_in_c.Prelude.{
  ltb, within, Bool-cases, Option-cases, length, length-drop, Bytes, ℕ, zero, suc, ◌+◌, ◌*◌, ◌≤◌,
  ◌<◌, ◌≡◌, inl, inr, some, [], ◌∷◌, ◌||◌, arith, true,
}
use inkling_in_c.Json.Text.{Parser, advance}
use inkling_in_c.Json.Utf8.{hex_digit}
use inkling_in_c.Json.Encoding.{IsScalar}
use inkling_in_c.Json.Strings.{
  hex4_from, parse_hex4, opens_unicode, low_surrogate, parse_code_point,
}
use inkling_in_c.Json.Ensures.{Ensures, holds, fails, Ensures-bind, Inside, Later, Ensures-mono}

hex_digit-lt : (c : ℕ) {d : ℕ} → hex_digit c ≡ some d → d < 16
unfolding hex_digit
hex_digit-lt c h = ground arith

-- The accumulator below `b`, `n` digits more.
abbrev ceiling : ℕ → ℕ → ℕ
ceiling zero b = b
ceiling (suc n) b = ceiling n (b * 16)

hex4_at-Ensures :
    {t : ℕ} (n acc b position : ℕ) (cs : Bytes)
    → acc < b
    → position + length cs ≤ t
    → n ≤ length cs
    → let p : Parser = record { position = position; rest = cs } in
      Ensures t (λ r. Later n p r.1 × (r.0 < ceiling n b)) (hex4_from n acc p)
unfolding hex4_from
hex4_at-Ensures zero acc b position cs h i l = holds (omega arith, h)
hex4_at-Ensures (suc n) acc b position [] h i l = absurd (omega arith)
hex4_at-Ensures (suc n) acc b position (c ∷ cs) h i l = elim (Option-cases (hex_digit c)) [
  | inl e ↦ rw (e, hex4_from) (fails (omega arith))
  | inr (d, e) ↦
      let d_lt : d < 16 = hex_digit-lt c e in
      rw (e, hex4_from)
        (Ensures-mono
          (hex4_at-Ensures n (acc * 16 + d) (b * 16) (position + 1) cs (omega arith) (omega arith)
            (omega arith))
          λ r x. (omega arith, x.1))
]

-- Four digits inside the text, and a number below 2 ^ 16.
parse_hex4-Ensures :
    {t : ℕ} (p : Parser)
    → Inside t p
    → Ensures t (λ r. Later 4 p r.1 × (r.0 < 0x10000)) (parse_hex4 p)
unfolding parse_hex4
parse_hex4-Ensures p i = elim (Bool-cases (ltb (length p.rest) 4)) [
  | inl short ↦ rw short (fails (omega arith))
  | inr enough ↦ rw enough (hex4_at-Ensures 4 0 1 p.position p.rest (omega arith) i (ground arith))
]

opens_unicode-length : (cs : Bytes) → opens_unicode cs ≡ true → 2 ≤ length cs
unfolding opens_unicode
opens_unicode-length [] h = cc
opens_unicode-length (a ∷ []) h = cc
opens_unicode-length (a ∷ b ∷ cs) h = omega arith

low_surrogate-Ensures :
    {t : ℕ} (high : ℕ) (p : Parser)
    → Inside t p
    → 0xd800 ≤ high
    → high ≤ 0xdbff
    → Ensures t (λ r. Later 6 p r.1 × IsScalar r.0) (low_surrogate high p)
unfolding low_surrogate
low_surrogate-Ensures high p i lo hi = elim (Bool-cases (opens_unicode p.rest)) [
  | inr missing ↦ rw missing (fails (omega arith))
  | inl there ↦
      let room = opens_unicode-length p.rest there in
      let q = advance 2 p in
      let behind : Later 2 p q = omega (arith, length-drop 2 p.rest) in
      rw there (
        Ensures-bind (parse_hex4-Ensures q (omega arith)) λ r x.
          elim (Bool-cases (ltb r.0 0xdc00 || ltb 0xdfff r.0)) [
            | inl bad ↦ rw bad (fails (omega arith))
            | inr good ↦ rw good (holds (omega arith, (ground arith, inr (ground arith))))
          ])
]

-- From a parser inside a text of `t` bytes, the reading of an escape's code point ends: in a
-- failure whose position is at most `t`, or in a Unicode scalar value, with the parser at least
-- four bytes further and still inside the text.
pub parse_code_point-Ensures :
    {t : ℕ} (p : Parser)
    → Inside t p
    → Ensures t (λ r. Later 4 p r.1 × IsScalar r.0) (parse_code_point p)
unfolding parse_code_point
parse_code_point-Ensures p i = Ensures-bind (parse_hex4-Ensures p i) λ (c, q) x.
    elim (Bool-cases (within 0xd800 0xdbff c)) [
      | inl high ↦ rw high (
          Ensures-mono (low_surrogate-Ensures c q (omega arith) (ground arith) (ground arith))
            λ r y. (omega arith, y.1))
      | inr other ↦ elim (Bool-cases (within 0xdc00 0xdfff c)) [
        | inl low ↦ rw (other, low) (fails (omega arith))
        | inr scalar ↦ rw (other, scalar) (holds (x.0, (omega arith, ground arith)))
      ]
    ]
