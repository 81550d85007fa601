-- ===== src/Json/Strings.antt =====
-- `parse_hex4` and `parse_string` of src/io/inkling_json.c.
use inkling_in_c.Prelude.{
  ltb, ◌==◌, if◌then◌else◌, within, length, take, Bytes, ℕ, zero, suc, ◌+◌, ◌-◌, ◌*◌, ◌^◌, Bool,
  false, not, ◌&&◌, ◌||◌, Option, none, some, [], ◌∷◌,
}
use inkling_in_c.Json.Text.{
  Result, ok, stuck, ◌>>=◌, Parser, advance, parser_fail, at_byte, incomplete_unicode,
  invalid_unicode, invalid_code_point, expected_string, incomplete_escape, no_low_surrogate,
  invalid_low_surrogate, unexpected_low_surrogate, invalid_escape, control_character, invalid_utf8,
  unterminated_string,
}
use inkling_in_c.Json.Utf8.{encode, hex_digit, utf8_sequence_length}
use inkling_in_c.Json.Buffer.{Allocator, Buffer, empty_buffer, reserve_buffer, append_bytes}

-- The loop of `parse_hex4`. The caller has seen that the digits are there, so the case of an empty
-- rest does not arise.
unfoldable pub hex4_from : ℕ → ℕ → Parser → Result (ℕ × Parser)
hex4_from zero acc p = ok (acc, p)
hex4_from (suc n) acc p = elim p.rest [
  | [] ↦ parser_fail p invalid_unicode
  | c ∷ _ ↦ elim (hex_digit c) [
    | none ↦ parser_fail p invalid_unicode
    | some digit ↦ hex4_from n (acc * 16 + digit) (advance 1 p)
  ]
]

unfoldable pub parse_hex4 : Parser → Result (ℕ × Parser)
unfolding hex4_from
parse_hex4 p = if ltb (length p.rest) 4 then parser_fail p incomplete_unicode else hex4_from 4 0 p

-- The one-byte escapes of the switch.
unfoldable pub simple_escape : ℕ → Option ℕ
simple_escape c =
    if c == b'"' || c == b'\\' || c == b'/'
    then some c
    else if c == b'b'
    then some 8
    else if c == b'f'
    then some 12
    else if c == b'n'
    then some 10
    else if c == b'r'
    then some 13
    else if c == b't'
    then some 9
    else none

-- Two bytes `\u` stand next.
unfoldable pub opens_unicode : Bytes → Bool
opens_unicode (a ∷ b ∷ _) = a == b'\\' && b == b'u'
opens_unicode _ = false

-- After a high surrogate: its low surrogate, and the code point of the pair.
unfoldable pub low_surrogate : ℕ → Parser → Result (ℕ × Parser)
low_surrogate high p = if not (opens_unicode p.rest) then parser_fail p no_low_surrogate else (do
  (low, q) ← parse_hex4 (advance 2 p)
  if ltb low 0xdc00 || ltb 0xdfff low
      then parser_fail q invalid_low_surrogate
      else ok (0x10000 + (high - 0xd800) * 2 ^ 10 + (low - 0xdc00), q))

-- The code point of an escape `\u....`, after the `u`.
unfoldable pub parse_code_point : Parser → Result (ℕ × Parser)
unfolding opens_unicode low_surrogate
parse_code_point p = do
  (code_point, q) ← parse_hex4 p
  if within 0xd800 0xdbff code_point
      then low_surrogate code_point q
      else if within 0xdc00 0xdfff code_point
      then parser_fail q unexpected_low_surrogate
      else ok (code_point, q)

-- One round of the loop of `parse_string`: the closing quote, or a longer buffer.
pub data Step : Type 0 where
  closed : Bytes → Parser → Step
  more : Buffer → Parser → Step

module _ (granted : Allocator) where
  -- `append_codepoint`
  unfoldable pub append_code_point : Parser → Buffer → ℕ → Result Buffer
  append_code_point p buffer code_point = elim (encode code_point) [
    | none ↦ parser_fail p invalid_code_point
    | some bytes ↦ append_bytes granted p buffer bytes
  ]

  -- An escape, after its backslash.
  unfoldable pub string_escape : Parser → Buffer → Result Step
  string_escape p buffer = elim p.rest [
    | [] ↦ parser_fail p incomplete_escape
    | c ∷ _ ↦
        if c == b'u'
        then (do
          (code_point, q) ← parse_code_point (advance 1 p)
          b ← append_code_point q buffer code_point
          ok (more b q))
        else elim (simple_escape c) [
          | none ↦ parser_fail (advance 1 p) invalid_escape
          | some decoded ↦ do
            b ← append_bytes granted (advance 1 p) buffer (decoded ∷ [])
            ok (more b (advance 1 p))
        ]
  ]

  -- A byte above 0x7f, at `p`, begins a sequence that is copied whole.
  unfoldable pub string_sequence : Parser → Buffer → Result Step
  string_sequence p buffer =
      let count = utf8_sequence_length p.rest in
      if count == 0
      then parser_fail p invalid_utf8
      else (do b ← append_bytes granted p buffer (take count p.rest); ok (more b (advance count p)))

  -- The body of the loop at the byte `c`, which is the first of the rest of `p`.
  unfoldable pub string_step : Parser → Buffer → ℕ → Result Step
  string_step p buffer c =
      if c == b'"'
      then (do b ← reserve_buffer granted (advance 1 p) buffer 0; ok (closed b.bytes (advance 1 p)))
      else if c == b'\\'
      then string_escape (advance 1 p) buffer
      else if ltb c 0x20
      then parser_fail (advance 1 p) control_character
      else if ltb c 0x80
      then (do b ← append_bytes granted (advance 1 p) buffer (c ∷ []); ok (more b (advance 1 p)))
      else string_sequence p buffer

  unfoldable pub string_loop : ℕ → Parser → Buffer → Result (Bytes × Parser)
  string_loop zero p buffer = stuck
  string_loop (suc f) p buffer = elim p.rest [
    | [] ↦ parser_fail p unterminated_string
    | c ∷ _ ↦ string_step p buffer c >>= λ s. elim s [
      | closed bytes q ↦ ok (bytes, q)
      | more b q ↦ string_loop f q b
    ]
  ]

  -- `parse_string`. A round takes at least a byte, so the rest bounds the rounds.
  unfoldable pub parse_string : Parser → Result (Bytes × Parser)
  parse_string p =
      if at_byte (λ c. c == b'"') p
      then string_loop (length p.rest) (advance 1 p) empty_buffer
      else parser_fail p expected_string
