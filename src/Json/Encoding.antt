-- ===== src/Json/Encoding.antt =====
-- UTF-8, and proofs on `utf8_sequence_length` and `append_codepoint` of src/io/inkling_json.c.
use inkling_in_c.Prelude.{
  ltb, if◌then◌else◌, within, ltb→lt, Bool-cases, length, take, Bytes, ℕ, ◌+◌, ◌-◌, ◌*◌, ◌/◌, ◌%◌,
  ◌^◌, ◌≤◌, ◌<◌, ◌≡◌, refl, sym, subst, ◌∙◌, ◌≢◌, ◌⊎◌, inl, inr, true, some, [], ◌∷◌, ◌++◌,
  append_assoc, append-nil, arith,
}
use native.Mathlib.Decide.{dec_le}
use inkling_in_c.Json.Utf8.{
  encode, utf8_sequence_length, is_tail, length_two, length_three, length_four,
}

-- A Unicode scalar value: a code point that is no surrogate.
abbrev pub IsScalar : ℕ → Type 0
IsScalar c = (c ≤ 0x10ffff) × ((c < 0xd800) ⊎ (0xdfff < c))

-- `bs` is the encoding of a scalar value.
pub record IsCharacter (bs : Bytes) : Type 0 where
  pub scalar : ℕ
  pub is_scalar : IsScalar scalar
  pub encoded : encode scalar ≡ some bs

-- A sequence of encoded scalar values.
pub data IsUtf8 : Bytes → Type 0 where
  nil : IsUtf8 []
  char : {bs s : Bytes} → IsCharacter bs → IsUtf8 s → IsUtf8 (bs ++ s)

pub IsUtf8-append : {a b : Bytes} → IsUtf8 a → IsUtf8 b → IsUtf8 (a ++ b)
IsUtf8-append nil h = h
IsUtf8-append {b = b} (char {bs} {s} c t) h =
    subst IsUtf8 (sym (append_assoc bs s b)) (char c (IsUtf8-append t h))

pub IsUtf8-character : {bs : Bytes} → IsCharacter bs → IsUtf8 bs
IsUtf8-character {bs} c = subst IsUtf8 (append-nil bs) (char c nil)

pub IsUtf8-snoc : {a bs : Bytes} → IsUtf8 a → IsCharacter bs → IsUtf8 (a ++ bs)
IsUtf8-snoc h c = IsUtf8-append h (IsUtf8-character c)

pub ascii_IsCharacter : (c : ℕ) → c < 0x80 → IsCharacter (c ∷ [])
unfolding encode
ascii_IsCharacter c h = record {
  scalar = c;
  is_scalar = (omega arith, inl (omega arith));
  encoded = ground arith;
}

two_IsCharacter : (a b : ℕ) → 0xc2 ≤ a → a ≤ 0xdf → 0x80 ≤ b → b ≤ 0xbf → IsCharacter (a ∷ b ∷ [])
unfolding encode
two_IsCharacter a b h1 h2 h3 h4 = record {
  scalar = (a - 0xc0) * 64 + (b - 0x80);
  is_scalar = (omega arith, inl (omega arith));
  encoded = ground arith;
}

module _ (a b c : ℕ) where
  three_IsCharacter :
      0xe0 ≤ a
      → a ≤ 0xef
      → 0x80 ≤ b
      → b ≤ 0xbf
      → 0x80 ≤ c
      → c ≤ 0xbf
      → (a ≢ 0xe0) ⊎ (0xa0 ≤ b)
      → (a ≢ 0xed) ⊎ (b ≤ 0x9f)
      → IsCharacter (a ∷ b ∷ c ∷ [])
  unfolding encode
  three_IsCharacter h1 h2 h3 h4 h5 h6 low surrogate = record {
    scalar = (a - 0xe0) * 4096 + (b - 0x80) * 64 + (c - 0x80);
    is_scalar = (omega arith, omega arith);
    encoded = ground arith;
  }

  four_IsCharacter :
      (d : ℕ)
      → 0xf0 ≤ a
      → a ≤ 0xf4
      → 0x80 ≤ b
      → b ≤ 0xbf
      → 0x80 ≤ c
      → c ≤ 0xbf
      → 0x80 ≤ d
      → d ≤ 0xbf
      → (a ≢ 0xf0) ⊎ (0x90 ≤ b)
      → (a ≢ 0xf4) ⊎ (b ≤ 0x8f)
      → IsCharacter (a ∷ b ∷ c ∷ d ∷ [])
  unfolding encode
  four_IsCharacter d h1 h2 h3 h4 h5 h6 h7 h8 low high = record {
    scalar = (a - 0xf0) * 262144 + (b - 0x80) * 4096 + (c - 0x80) * 64 + (d - 0x80);
    is_scalar = (omega arith, omega arith);
    encoded = ground arith;
  }

-- `n` bytes of `bs` are there, and they are the encoding of a scalar value.
abbrev Accepts : ℕ → Bytes → Type 0
Accepts n bs = (n ≤ length bs) × IsCharacter (take n bs)

length_two-Accepts :
    (a : ℕ) (more : Bytes)
    → within 0xc2 0xdf a ≡ true
    → length_two more ≢ 0
    → Accepts (length_two more) (a ∷ more)
unfolding length_two
length_two-Accepts a [] w h = absurd (h refl)
length_two-Accepts a (b ∷ more) w h = elim (Bool-cases (is_tail b)) [
  | inl e ↦
      rw e (
        omega arith,
        two_IsCharacter a b (ground arith) (ground arith) (ground arith) (ground arith),
      )
  | inr e ↦ absurd (h (rw e))
]

length_three_eq :
    (a b c : ℕ) (more : Bytes)
    → length_three a (b ∷ c ∷ more) ≢ 0
    → (length_three a (b ∷ c ∷ more) ≡ 3)
      × (0x80 ≤ b)
      × (b ≤ 0xbf)
      × (0x80 ≤ c)
      × (c ≤ 0xbf)
      × ((a ≢ 0xe0) ⊎ (0xa0 ≤ b))
      × ((a ≢ 0xed) ⊎ (b ≤ 0x9f))
unfolding length_three
length_three_eq a b c more h = ground arith

length_three-Accepts :
    (a : ℕ) (more : Bytes)
    → within 0xe0 0xef a ≡ true
    → length_three a more ≢ 0
    → Accepts (length_three a more) (a ∷ more)
length_three-Accepts a [] w h = absurd (h (unfold length_three in refl))
length_three-Accepts a (b ∷ []) w h = absurd (h (unfold length_three in refl))
length_three-Accepts a (b ∷ c ∷ more) w h =
    let (e, h1, h2, h3, h4, h5, h6) = length_three_eq a b c more h in
    rw e (omega arith, three_IsCharacter a b c (ground arith) (ground arith) h1 h2 h3 h4 h5 h6)

length_four_eq :
    (a b c d : ℕ) (more : Bytes)
    → length_four a (b ∷ c ∷ d ∷ more) ≢ 0
    → (length_four a (b ∷ c ∷ d ∷ more) ≡ 4)
      × (0x80 ≤ b)
      × (b ≤ 0xbf)
      × (0x80 ≤ c)
      × (c ≤ 0xbf)
      × (0x80 ≤ d)
      × (d ≤ 0xbf)
      × ((a ≢ 0xf0) ⊎ (0x90 ≤ b))
      × ((a ≢ 0xf4) ⊎ (b ≤ 0x8f))
unfolding length_four
length_four_eq a b c d more h = ground arith

length_four-Accepts :
    (a : ℕ) (more : Bytes)
    → within 0xf0 0xf4 a ≡ true
    → length_four a more ≢ 0
    → Accepts (length_four a more) (a ∷ more)
length_four-Accepts a [] w h = absurd (h (unfold length_four in refl))
length_four-Accepts a (b ∷ []) w h = absurd (h (unfold length_four in refl))
length_four-Accepts a (b ∷ c ∷ []) w h = absurd (h (unfold length_four in refl))
length_four-Accepts a (b ∷ c ∷ d ∷ more) w h =
    let (e, h1, h2, h3, h4, h5, h6, h7, h8) = length_four_eq a b c d more h in
    rw e
      (omega arith, four_IsCharacter a b c d (ground arith) (ground arith) h1 h2 h3 h4 h5 h6 h7 h8)

sequence-Accepts :
    (a : ℕ) (more : Bytes) (n : ℕ)
    → (if ltb a 0x80
        then 1
        else if within 0xc2 0xdf a
        then length_two more
        else if within 0xe0 0xef a
        then length_three a more
        else if within 0xf0 0xf4 a
        then length_four a more
        else 0)
      ≡ n
    → n ≢ 0
    → Accepts n (a ∷ more)
sequence-Accepts a more n e h = elim (Bool-cases (ltb a 0x80)) [
  | inl w ↦ rw (← e, w) (omega arith, ascii_IsCharacter a (ltb→lt a 0x80 w))
  | inr x ↦ elim (Bool-cases (within 0xc2 0xdf a)) [
    | inl w ↦
        let n_eq : length_two more ≡ n = rw (x, w) at e in
        subst (λ k. Accepts k (a ∷ more)) n_eq (length_two-Accepts a more w (λ z. h (sym n_eq ∙ z)))
    | inr y ↦ elim (Bool-cases (within 0xe0 0xef a)) [
      | inl w ↦
          let n_eq : length_three a more ≡ n = rw (x, y, w) at e in
          subst (λ k. Accepts k (a ∷ more)) n_eq
            (length_three-Accepts a more w (λ z. h (sym n_eq ∙ z)))
      | inr u ↦ elim (Bool-cases (within 0xf0 0xf4 a)) [
        | inl w ↦
            let n_eq : length_four a more ≡ n = rw (x, y, u, w) at e in
            subst (λ k. Accepts k (a ∷ more)) n_eq
              (length_four-Accepts a more w (λ z. h (sym n_eq ∙ z)))
        | inr v ↦ absurd (h (sym (rw (x, y, u, v) at e)))
      ]
    ]
  ]
]

-- Where `utf8_sequence_length` gives a length other than 0, so many bytes are there, and they are
-- the encoding of a scalar value.
pub utf8_sequence_length-IsCharacter :
    (bs : Bytes)
    → utf8_sequence_length bs ≢ 0
    → (utf8_sequence_length bs ≤ length bs) × IsCharacter (take (utf8_sequence_length bs) bs)
unfolding utf8_sequence_length
utf8_sequence_length-IsCharacter [] h = absurd (h refl)
utf8_sequence_length-IsCharacter (a ∷ more) h = sequence-Accepts a more _ refl h

module _ (c : ℕ) (bs : Bytes) (e : encode c ≡ some bs) where
  encode_one : c ≤ 0x7f → bs ≡ c ∷ []
  unfolding encode
  encode_one h = ground arith

  encode_two : 0x7f < c → c ≤ 0x7ff → bs ≡ (0xc0 + c / 2 ^ 6) ∷ (0x80 + c % 64) ∷ []
  unfolding encode
  encode_two h k = ground arith

  encode_three :
      0x7ff < c
      → c ≤ 0xffff
      → bs ≡ (0xe0 + c / 2 ^ 12) ∷ (0x80 + c / 2 ^ 6 % 64) ∷ (0x80 + c % 64) ∷ []
  unfolding encode
  encode_three h k = ground arith

  encode_four :
      0xffff < c
      → c ≤ 0x10ffff
      → bs
        ≡ (0xf0 + c / 2 ^ 18)
          ∷ (0x80 + c / 2 ^ 12 % 64)
          ∷ (0x80 + c / 2 ^ 6 % 64)
          ∷ (0x80 + c % 64)
          ∷ []
  unfolding encode
  encode_four h k = ground arith

-- On a text that begins with the encoding of a scalar value, `utf8_sequence_length` gives the
-- length of that encoding, whatever follows.
pub utf8_sequence_length-encode :
    (c : ℕ) (bs rest : Bytes)
    → IsScalar c
    → encode c ≡ some bs
    → utf8_sequence_length (bs ++ rest) ≡ length bs
unfolding utf8_sequence_length
utf8_sequence_length-encode c bs rest h e = elim (dec_le c 0x7f) [
  | yes a ↦ rw (encode_one c bs e a) (ground arith)
  | no a ↦ elim (dec_le c 0x7ff) [
    | yes b ↦ rw (encode_two c bs e (omega arith) b) (ground arith)
    | no b ↦ elim (dec_le c 0xffff) [
      | yes d ↦ rw (encode_three c bs e (omega arith) d) (ground arith)
      | no d ↦ rw (encode_four c bs e (omega arith) (omega arith)) (ground arith)
    ]
  ]
]
