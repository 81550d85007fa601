-- ===== src/Json/Texts.antt =====
-- Proofs on `parse_string` of src/io/inkling_json.c.
pub use inkling_in_c.Json.Encoding.{IsUtf8}
use inkling_in_c.Json.Encoding.{
  IsScalar, IsCharacter, IsUtf8-snoc, utf8_sequence_length-IsCharacter, ascii_IsCharacter, nil,
}
use inkling_in_c.Json.Text.{Parser, at_byte, ok, Result, advance}
use inkling_in_c.Json.Strings.{
  simple_escape, Step, append_code_point, string_escape, string_sequence, string_step, closed, more,
  string_loop, parse_string,
}
use inkling_in_c.Json.Utf8.{encode, utf8_sequence_length}
use inkling_in_c.Json.Buffer.{Allocator, Buffer, append_bytes, empty_buffer}
use inkling_in_c.Prelude.{
  zero, ℕ, Bytes, Bool-cases, arith, ◌∷◌, ◌<◌, ◌≡◌, ◌+◌, ◌==◌, some, inl, Option-cases, inr, take,
  [], ltb, ltb→lt, length, suc, ◌≤◌,
}
use inkling_in_c.Json.Ensures.{
  Inside, Ensures, fails, Ensures-mono, Later, Ensures-bind, holds, advance-Later, at_byte-nonempty,
}
use inkling_in_c.Json.Capacity.{append_bytes-Ensures, reserve_buffer-Ensures}
use inkling_in_c.Json.Escapes.{parse_code_point-Ensures}

-- A round of the loop takes a byte at least, and keeps the buffer well formed.
abbrev Progress : Parser → Step → Type 0
Progress p (closed bytes q) = Later 1 p q × IsUtf8 bytes
Progress p (more b q) = Later 1 p q × IsUtf8 b.bytes

Progress-Later : (p q : Parser) (s : Step) → Later 0 p q → Progress q s → Progress p s
Progress-Later p q (closed bytes r) l h = (omega arith, h.1)
Progress-Later p q (more b r) l h = (omega arith, h.1)

simple_escape-ascii : (c : ℕ) {d : ℕ} → simple_escape c ≡ some d → d < 0x80
unfolding simple_escape
simple_escape-ascii c h = ground arith

encode-some : (c : ℕ) → IsScalar c → (bs : Bytes) × (encode c ≡ some bs)
unfolding encode
encode-some c h = elim (Option-cases (encode c)) [
  | inl e ↦ absurd (ground arith)
  | inr (bs, e) ↦ (bs, e)
]

-- The loop's postcondition at `p`.
abbrev Closes : ℕ → Parser → Result (Bytes × Parser) → Type 0
Closes t p = Ensures t (λ r. Later 0 p r.1 × IsUtf8 r.0)

module _ (granted : Allocator) {t : ℕ} where
  append_character-Ensures :
      (p : Parser) (buffer : Buffer) (bytes : Bytes)
      → Inside t p
      → IsUtf8 buffer.bytes
      → IsCharacter bytes
      → Ensures t (λ b. IsUtf8 b.bytes) (append_bytes granted p buffer bytes)
  append_character-Ensures p buffer bytes i h c =
      Ensures-mono (append_bytes-Ensures granted p buffer bytes i) λ b x. rw x.0 (IsUtf8-snoc h c)

  append_code_point-Ensures :
      (p : Parser) (buffer : Buffer) (c : ℕ)
      → Inside t p
      → IsUtf8 buffer.bytes
      → IsScalar c
      → Ensures t (λ b. IsUtf8 b.bytes) (append_code_point granted p buffer c)
  unfolding append_code_point
  append_code_point-Ensures p buffer c i h s =
      let (bs, e) = encode-some c s in
      rw (e, append_code_point)
        (append_character-Ensures p buffer bs i h
          (record { scalar = c; is_scalar = s; encoded = e }))

  string_escape-Ensures :
      (position : ℕ) (cs : Bytes) (buffer : Buffer)
      → let p : Parser = record { position = position; rest = cs } in
        Inside t p → IsUtf8 buffer.bytes → Ensures t (Progress p) (string_escape granted p buffer)
  unfolding string_escape
  string_escape-Ensures position [] buffer i h = fails (omega arith)
  string_escape-Ensures position (c ∷ cs) buffer i h =
      let q : Parser = record { position = position + 1; rest = cs } in
      elim (Bool-cases (c == b'u')) [
        | inl unicode ↦ rw unicode (
            Ensures-bind (parse_code_point-Ensures q (omega arith)) λ r x.
              Ensures-bind (append_code_point-Ensures r.1 buffer r.0 (omega arith) h x.1)
                λ b y. holds (omega arith, y))
        | inr simple ↦ rw simple (elim (Option-cases (simple_escape c)) [
          | inl e ↦ rw e (fails (omega arith))
          | inr (d, e) ↦ rw e (
              Ensures-bind
                (append_character-Ensures q buffer (d ∷ []) (omega arith) h
                  (ascii_IsCharacter d (simple_escape-ascii c e)))
                λ b y. holds (omega arith, y))
        ])
      ]

  string_sequence-Ensures :
      (p : Parser) (buffer : Buffer)
      → Inside t p
      → IsUtf8 buffer.bytes
      → Ensures t (Progress p) (string_sequence granted p buffer)
  unfolding string_sequence
  string_sequence-Ensures p buffer i h = elim (Bool-cases (utf8_sequence_length p.rest == 0)) [
    | inl bad ↦ rw bad (fails (omega arith))
    | inr good ↦
        let (room, char) = utf8_sequence_length-IsCharacter p.rest (ground arith) in
        rw good (
          Ensures-bind
            (append_character-Ensures p buffer (take (utf8_sequence_length p.rest) p.rest) i h char)
            λ b y. holds (ground (arith, advance-Later (utf8_sequence_length p.rest) p room), y))
  ]

  string_step-Ensures :
      (position c : ℕ) (cs : Bytes) (buffer : Buffer)
      → let p : Parser = record { position = position; rest = c ∷ cs } in
        Inside t p → IsUtf8 buffer.bytes → Ensures t (Progress p) (string_step granted p buffer c)
  unfolding string_step
  string_step-Ensures position c cs buffer i h =
      let q : Parser = record { position = position + 1; rest = cs } in
      elim (Bool-cases (c == b'"')) [
        | inl quote ↦ rw quote (
            Ensures-bind (reserve_buffer-Ensures granted q buffer 0 (omega arith))
              λ b y. holds (omega arith, rw y.0 h))
        | inr a ↦ elim (Bool-cases (c == b'\\')) [
          | inl slash ↦
              rw (a, slash)
                (Ensures-mono (string_escape-Ensures (position + 1) cs buffer (omega arith) h)
                  λ s x.
                    Progress-Later (record { position = position; rest = c ∷ cs }) q s (omega arith)
                      x)
          | inr b ↦ elim (Bool-cases (ltb c 0x20)) [
            | inl control ↦ rw (a, b, control) (fails (omega arith))
            | inr d ↦ elim (Bool-cases (ltb c 0x80)) [
              | inl ascii ↦
                  rw (a, b, d, ascii)
                    (Ensures-bind
                      (append_character-Ensures q buffer (c ∷ []) (omega arith) h
                        (ascii_IsCharacter c (ltb→lt c 0x80 ascii)))
                      λ b y. holds (omega arith, y))
              | inr e ↦ rw (a, b, d, e) (string_sequence-Ensures _ buffer i h)
            ]
          ]
        ]
      ]

  next-Closes :
      (f : ℕ) (p : Parser) (s : Step)
      → ((b : Buffer) (q : Parser)
          → Inside t q
          → IsUtf8 b.bytes
          → length q.rest < f
          → Closes t q (string_loop granted f q b))
      → Inside t p
      → length p.rest ≤ f
      → Progress p s
      → Closes t p
          (elim s [ closed bytes q ↦ ok (bytes, q) | more b q ↦ string_loop granted f q b ])
  next-Closes f p (closed bytes q) again i l x = holds (omega arith, x.1)
  next-Closes f p (more b q) again i l x =
      Ensures-mono (again b q (omega arith) x.1 (omega arith)) λ r y. (omega arith, y.1)

  string_loop-Closes :
      (f : ℕ) (b : Buffer) (position : ℕ) (cs : Bytes)
      → position + length cs ≤ t
      → IsUtf8 b.bytes
      → length cs < f
      → Closes t
          (record { position = position; rest = cs })
          (string_loop granted f (record { position = position; rest = cs }) b)
  unfolding string_loop
  string_loop-Closes zero b position cs i h l = absurd (omega arith)
  string_loop-Closes (suc f) b position [] i h l = fails (omega arith)
  string_loop-Closes (suc f) b position (c ∷ cs) i h l =
      let p : Parser = record { position = position; rest = c ∷ cs } in
      Ensures-bind (string_step-Ensures position c cs b i h) λ s x.
        next-Closes f p s (λ b' q j u m. string_loop-Closes f b' q.position q.rest j u m) i
          (omega arith) x

  -- From a parser that stands inside a text of `t` bytes, `parse_string` ends: in a failure whose
  -- position is at most `t`, or in a string that is well-formed UTF-8, with the parser at least
  -- one byte further and still inside the text.
  pub parse_string-Ensures :
      (p : Parser)
      → Inside t p
      → Ensures t (λ r. Later 1 p r.1 × IsUtf8 r.0) (parse_string granted p)
  unfolding parse_string
  parse_string-Ensures p i = elim (Bool-cases (at_byte (λ c. c == b'"') p)) [
    | inr none_there ↦ rw none_there (fails (omega arith))
    | inl quote ↦
        let room = at_byte-nonempty (λ c. c == b'"') p quote in
        let q = advance 1 p in
        let behind : Later 1 p q = advance-Later 1 p room in
        rw quote (
          Ensures-mono
            (string_loop-Closes (length p.rest) empty_buffer q.position q.rest (omega arith) nil
              (omega arith))
            λ r y. (omega arith, y.1))
  ]
