-- ===== src/Json/Text.antt =====
-- The parser's position in the text, its errors, and the white space (`JsonParser`,
-- `parser_fail`, `skip_whitespace` of src/io/inkling_json.c).
use inkling_in_c.Prelude.{
  ◌==◌, if◌then◌else◌, within, drop, Bytes, ℕ, zero, suc, ◌+◌, Bool, false, ◌||◌, [], ◌∷◌,
}

-- The messages of `parser_fail`.
pub data Message : Type 0 where
  out_of_memory string_too_large invalid_code_point incomplete_unicode invalid_unicode : Message
  expected_string incomplete_escape no_low_surrogate invalid_low_surrogate : Message
  unexpected_low_surrogate invalid_escape control_character invalid_utf8 : Message
  unterminated_string array_too_large unterminated_array expected_comma_or_bracket : Message
  object_too_large duplicate_key expected_colon unterminated_object : Message
  expected_comma_or_brace incomplete_number leading_zero invalid_number number_too_large : Message
  fraction_no_digits exponent_no_digits invalid_literal nesting_limit : Message
  expected_value unexpected_character trailing_content text_is_null : Message

-- A failure carries `parser->position` at the time of the first `parser_fail`, which is the only
-- one that counts, since every caller gives up at once. `stuck` means that the fuel of a loop
-- ran out.
pub data Result {ℓ} (A : Type ℓ) : Type ℓ where
  ok : A → Result A
  fail : ℕ → Message → Result A
  stuck : Result A

infixl 5 ◌>>=◌
abbrev pub ◌>>=◌ {ℓ κ} : {A : Type ℓ} {B : Type κ} → Result A → (A → Result B) → Result B
ok a >>= f = f a
fail n m >>= f = fail n m
stuck >>= f = stuck

-- `position`, and the bytes of the text from there to its `length`.
pub record Parser : Type 0 where
  pub position : ℕ
  pub rest : Bytes

-- `position += n`, inside the text.
abbrev pub advance : ℕ → Parser → Parser
advance n p = record { position = p.position + n; rest = drop n p.rest }

-- `parser_fail`, at the current position.
abbrev pub parser_fail {ℓ} : {A : Type ℓ} → Parser → Message → Result A
parser_fail p m = fail p.position m

abbrev pub is_space : ℕ → Bool
is_space c = c == b' ' || c == b'\t' || c == b'\n' || c == b'\r'

unfoldable pub skip_from : ℕ → Bytes → Parser
skip_from n [] = record { position = n; rest = [] }
skip_from n (c ∷ cs) =
    let later = skip_from (n + 1) cs in
    if is_space c then later else record { position = n; rest = c ∷ cs }

-- `skip_whitespace`
unfoldable pub skip_whitespace : Parser → Parser
unfolding skip_from
skip_whitespace p = skip_from p.position p.rest

pub record Location : Type 0 where
  pub line : ℕ
  pub column : ℕ

-- The loop of `parser_fail` over the bytes before the position.
locate_from : Location → ℕ → Bytes → Location
locate_from at zero cs = at
locate_from at (suc n) [] = at
locate_from at (suc n) (c ∷ cs) =
    locate_from
      (if c == b'\n'
        then record { line = at.line + 1; column = 1 }
        else record at { column = at.column + 1 })
      n cs

-- The line and the column that `parser_fail` reports for a position of the text.
unfoldable pub locate : ℕ → Bytes → Location
unfolding locate_from
locate position text = locate_from (record { line = 1; column = 1 }) position text

abbrev head_is : (ℕ → Bool) → Bytes → Bool
head_is test [] = false
head_is test (c ∷ cs) = test c

-- `position < length && test(text[position])`
abbrev pub at_byte : (ℕ → Bool) → Parser → Bool
at_byte test p = head_is test p.rest

abbrev pub is_digit : ℕ → Bool
is_digit = within b'0' b'9'
