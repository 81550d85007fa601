-- ===== src/Json/Tests.antt =====
-- Runs of the JSON reader, and its theorems at concrete inputs.
use inkling_in_c.Prelude.{
  codes, bytes_eq, ◌≡◌, refl, true, some, [], ◌∷◌, Bytes, ◌++◌, ℤ, length, ◌≤◌, arith, ◌+◌, ◌⊎◌,
  inl, take, none, ap, get_or,
}
use inkling_in_c.Json.Text.{
  skip_whitespace, locate, unterminated_string, duplicate_key, trailing_content, leading_zero,
  Parser,
}
use inkling_in_c.Json.Value.{
  null, boolean, number, array, object, no_items, item, no_members, member, snoc_item, snoc_member,
  Members, count_items, count_members,
}
use inkling_in_c.Json.Buffer.{Allocator, reserve_buffer, append_bytes}
use inkling_in_c.Json.Utf8.{encode, hex_digit, utf8_sequence_length}
use inkling_in_c.Json.Strings.{
  parse_hex4, simple_escape, parse_code_point, append_code_point, string_escape, string_sequence,
  string_step, string_loop, parse_string,
}
use inkling_in_c.Json.Numbers.{
  new_value, skip_digits, number_sign, number_integer, number_fraction, number_exponent, number_end,
  parse_number,
}
use inkling_in_c.Json.Grow.{make_room, append_array_item, append_object_member}
use inkling_in_c.Json.Parse.{
  starts, object_has_key, parse_literal, array_loop, parse_array, parse_member, object_loop,
  parse_text, parse_object, parse_at, parse_value, parse_document, json_parse, parsed, failed,
  max_levels,
}
use inkling_in_c.Json.Ensures.{Ensures, Later}
use inkling_in_c.Json.Integers.{IsU64, DenotesI64, json_number_u64_exact, json_number_i64_exact}
use inkling_in_c.Json.Valid.{IsDictionary, next_key, IsValid, is_null, is_boolean, no_keys}
use inkling_in_c.Json.Access.{
  json_object_key_at, json_number_u64, json_object_get, json_number_i64, json_object_value_at,
}
use inkling_in_c.Json.Grammar.{IsNumber, Takes, parse_number-Ensures}
use inkling_in_c.Json.Encoding.{
  utf8_sequence_length-encode, IsUtf8, IsScalar, IsCharacter, IsUtf8-character, ascii_IsCharacter,
  utf8_sequence_length-IsCharacter,
}
use inkling_in_c.Json.Room.{IsRoomy, append_array_item-Ensures, append_object_member-Ensures}
use inkling_in_c.Json.Texts.{parse_string-Ensures}
use inkling_in_c.Json.Escapes.{parse_code_point-Ensures}
use inkling_in_c.Json.Capacity.{append_bytes-Ensures}
use inkling_in_c.Json.Lookup.{json_object_get-key_at}
use inkling_in_c.Json.Sound.{parse_document-Ensures}

abbrev plenty : Allocator
plenty p n = true

program : Unit {0}
unfolding skip_whitespace locate snoc_item snoc_member reserve_buffer append_bytes encode hex_digit
    utf8_sequence_length parse_hex4 simple_escape parse_code_point append_code_point string_escape
    string_sequence string_step string_loop parse_string new_value skip_digits number_sign
    number_integer number_fraction number_exponent number_end parse_number make_room
    append_array_item append_object_member starts object_has_key parse_literal array_loop
    parse_array parse_text parse_member object_loop parse_object parse_at parse_value parse_document
    json_parse bytes_eq
program = tt

parse_nested :
    json_parse plenty (some (codes " {\"a\": [1, -2.5e3, true], \"b\\u00e9\" : null}"))
    ≡ parsed (
        object (
          member
            (codes "a")
            (array (
              item
                (number (codes "1"))
                (item (number (codes "-2.5e3")) (item (boolean true) no_items))))
            (member (b'b' ∷ 0xc3 ∷ 0xa9 ∷ []) null no_members)))
unfolding program
parse_nested = refl

parse_errors :
    (json_parse plenty (some (codes "\n{\"a\":1,\"a\":2}"))
      ≡ failed 11 (record { line = 2; column = 11 }) duplicate_key)
    × (json_parse plenty (some (codes "[01]"))
        ≡ failed 2 (record { line = 1; column = 3 }) leading_zero)
    × (json_parse plenty (some (codes "\"abc"))
        ≡ failed 4 (record { line = 1; column = 5 }) unterminated_string)
    × (json_parse plenty (some (codes "1 2"))
        ≡ failed 2 (record { line = 1; column = 3 }) trailing_content)
unfolding program
parse_errors = (refl, refl, refl, refl)

abbrev sample : Bytes
sample = codes "[1]"

parse_document-Ensures_example :
    Ensures (length sample) (IsValid max_levels) (parse_document plenty sample)
parse_document-Ensures_example = parse_document-Ensures plenty sample

abbrev quoted : Parser
quoted = record { position = 1; rest = codes "\"a\\n\"]" }

parse_string-Ensures_example :
    Ensures 7 (λ r. Later 1 quoted r.1 × IsUtf8 r.0) (parse_string plenty quoted)
parse_string-Ensures_example = parse_string-Ensures plenty quoted (omega arith)

abbrev numeric : Parser
numeric = record { position = 0; rest = codes "-2.5e3," }

parse_number-Ensures_example :
    Ensures 7
      (λ r. (w : Bytes) × (r.0 ≡ number w) × IsNumber w × Takes w numeric r.1)
      (parse_number plenty numeric)
parse_number-Ensures_example = parse_number-Ensures plenty numeric (omega arith)

abbrev surrogates : Parser
surrogates = record { position = 2; rest = codes "d83d\\ude00" }

parse_code_point-Ensures_example :
    Ensures 12 (λ r. Later 4 surrogates r.1 × IsScalar r.0) (parse_code_point surrogates)
parse_code_point-Ensures_example = parse_code_point-Ensures surrogates (omega arith)

utf8_sequence_length-encode_example : utf8_sequence_length ((0xc3 ∷ 0xa9 ∷ []) ++ codes "x") ≡ 2
unfolding encode
utf8_sequence_length-encode_example =
    utf8_sequence_length-encode 0xe9 (0xc3 ∷ 0xa9 ∷ []) (codes "x") (omega arith, inl (omega arith))
      refl

utf8_sequence_length-IsCharacter_example :
    let bs : Bytes = 0xc3 ∷ 0xa9 ∷ codes "x" in
    (utf8_sequence_length bs ≤ length bs) × IsCharacter (take (utf8_sequence_length bs) bs)
unfolding utf8_sequence_length
utf8_sequence_length-IsCharacter_example =
    utf8_sequence_length-IsCharacter (0xc3 ∷ 0xa9 ∷ codes "x") (omega arith)

append_bytes-Ensures_example :
    Ensures 9
      (λ b. (b.bytes ≡ codes "ab") × (length b.bytes + 1 ≤ b.capacity))
      (append_bytes plenty numeric (record { bytes = codes "a"; capacity = 2 }) (codes "b"))
append_bytes-Ensures_example =
    append_bytes-Ensures plenty numeric (record { bytes = codes "a"; capacity = 2 }) (codes "b")
      (omega arith)

append_array_item-Ensures_example :
    Ensures 9
      (λ r. (r.0 ≡ snoc_item no_items null) × IsRoomy 8 (count_items r.0) r.1)
      (append_array_item plenty numeric no_items 0 null)
append_array_item-Ensures_example =
    append_array_item-Ensures plenty numeric no_items 0 null (omega arith)
      (omega arith, omega arith)

append_object_member-Ensures_example :
    Ensures 9
      (λ r. (r.0 ≡ snoc_member no_members (codes "k") null) × IsRoomy 24 (count_members r.0) r.1)
      (append_object_member plenty numeric no_members 0 (codes "k") null)
append_object_member-Ensures_example =
    append_object_member-Ensures plenty numeric no_members 0 (codes "k") null (omega arith)
      (omega arith, omega arith)

json_number_u64_exact_example :
    (IsU64 (codes "42") × (json_number_u64 (some (number (codes "42"))) ≡ some 42))
    ⊎ ((¬ IsU64 (codes "42")) × (json_number_u64 (some (number (codes "42"))) ≡ none))
json_number_u64_exact_example = json_number_u64_exact (codes "42")

json_number_i64_exact_example :
    ((z : ℤ) × DenotesI64 (codes "-9223372036854775808") z
      × (json_number_i64 (some (number (codes "-9223372036854775808"))) ≡ some z))
    ⊎ (((z : ℤ) → ¬ DenotesI64 (codes "-9223372036854775808") z)
        × (json_number_i64 (some (number (codes "-9223372036854775808"))) ≡ none))
json_number_i64_exact_example = json_number_i64_exact (codes "-9223372036854775808")

abbrev two_members : Members
two_members = member (codes "a") null (member (codes "b") (boolean true) no_members)

two_members-IsDictionary : IsDictionary 1 two_members
two_members-IsDictionary =
    next_key (IsUtf8-character (ascii_IsCharacter b'a' (omega arith)))
      (λ e. omega (arith, ap (λ (k : Bytes). get_or k 0 0) e), tt) is_null
      (next_key (IsUtf8-character (ascii_IsCharacter b'b' (omega arith))) tt is_boolean no_keys)

json_object_get-key_at_example :
    json_object_get (some (object two_members)) (codes "b")
    ≡ json_object_value_at (some (object two_members)) 1
unfolding json_object_key_at
json_object_get-key_at_example =
    json_object_get-key_at two_members 1 two_members-IsDictionary refl ((λ e. omega (arith, e)), tt)
