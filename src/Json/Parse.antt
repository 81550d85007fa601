-- ===== src/Json/Parse.antt =====
-- `parse_literal`, `parse_array`, `parse_object`, `parse_value` and `inkling_json_parse` of
-- src/io/inkling_json.c. A function that may call `parse_value` takes it as an argument, so the
-- recursion is on the levels of nesting that are left.
use inkling_in_c.Prelude.{
  ◌==◌, if◌then◌else◌, length, Bytes, bytes_eq, ℕ, zero, suc, Bool, true, false, not, ◌||◌, Option,
  none, some, [], ◌∷◌,
}
use inkling_in_c.Json.Text.{
  Result, ok, fail, stuck, Message, Parser, advance, parser_fail, skip_whitespace, at_byte,
  Location, locate, is_digit, unterminated_array, expected_comma_or_bracket, duplicate_key,
  expected_colon, unterminated_object, expected_comma_or_brace, invalid_literal, nesting_limit,
  expected_value, unexpected_character, trailing_content, text_is_null, ◌>>=◌,
}
use inkling_in_c.Json.Value.{
  Value, null, boolean, string, array, object, Items, no_items, Members, no_members, member,
}
use inkling_in_c.Json.Buffer.{Allocator}
use inkling_in_c.Json.Strings.{parse_string}
use inkling_in_c.Json.Numbers.{new_value, parse_number}
use inkling_in_c.Json.Grow.{append_array_item, append_object_member}

-- `memcmp` with the literal at the position; false if fewer bytes are left.
unfoldable pub starts : Bytes → Bytes → Bool
starts [] text = true
starts (x ∷ xs) [] = false
starts (x ∷ xs) (y ∷ ys) = if x == y then starts xs ys else false

-- `object_has_key`
unfoldable pub object_has_key : Members → Bytes → Bool
object_has_key no_members key = false
object_has_key (member k v ms) key = bytes_eq k key || object_has_key ms key

abbrev pub max_levels : ℕ
max_levels = 257

abbrev pub start : Bytes → Parser
start text = record { position = 0; rest = text }

module _ (granted : Allocator) where
  unfoldable pub parse_literal : Parser → Bytes → Value → Result (Value × Parser)
  parse_literal p literal v =
      if not (starts literal p.rest)
      then parser_fail p invalid_literal
      else (do _ ← new_value granted p; ok (v, advance (length literal) p))

  -- The string case of `parse_value`.
  unfoldable pub parse_text : Parser → Result (Value × Parser)
  parse_text p = do
    _ ← new_value granted p
    (bytes, q) ← parse_string granted p
    ok (string bytes, q)

  module _ (parse_inner : Parser → Result (Value × Parser)) where
    -- The loop of `parse_array`. A round takes at least a byte.
    unfoldable pub array_loop : ℕ → Parser → Items → ℕ → Result (Value × Parser)
    array_loop zero p _ capacity = stuck
    array_loop (suc f) p items capacity = do
      (v, q) ← parse_inner p
      (items', capacity') ← append_array_item granted q items capacity v
      let r = skip_whitespace q
      elim r.rest [
        | [] ↦ parser_fail r unterminated_array
        | c ∷ _ ↦
            let again = array_loop f (skip_whitespace (advance 1 r)) items' capacity' in
            if c == b']'
            then ok (array items', advance 1 r)
            else if c == b','
            then again
            else parser_fail (advance 1 r) expected_comma_or_bracket
      ]

    unfoldable pub parse_array : Parser → Result (Value × Parser)
    parse_array p = do
      _ ← new_value granted p
      let q = skip_whitespace (advance 1 p)
      if at_byte (λ c. c == b']') q
          then ok (array no_items, advance 1 q)
          else array_loop (suc (length q.rest)) q no_items 0

    -- A key, the colon behind it, and the value.
    unfoldable pub parse_member : Parser → Members → ℕ → Result ((Members × ℕ) × Parser)
    parse_member p members capacity = do
      (key, q) ← parse_string granted p
      if object_has_key members key
          then parser_fail q duplicate_key
          else if at_byte (λ c. c == b':') (skip_whitespace q)
          then (do
            (v, r) ← parse_inner (advance 1 (skip_whitespace q))
            grown ← append_object_member granted r members capacity key v
            ok (grown, r))
          else parser_fail (skip_whitespace q) expected_colon

    -- The loop of `parse_object`.
    unfoldable pub object_loop : ℕ → Parser → Members → ℕ → Result (Value × Parser)
    object_loop zero p _ capacity = stuck
    object_loop (suc f) p members capacity = do
      ((members', capacity'), q) ← parse_member p members capacity
      let r = skip_whitespace q
      elim r.rest [
        | [] ↦ parser_fail r unterminated_object
        | c ∷ _ ↦
            let again = object_loop f (skip_whitespace (advance 1 r)) members' capacity' in
            if c == b'}'
            then ok (object members', advance 1 r)
            else if c == b','
            then again
            else parser_fail (advance 1 r) expected_comma_or_brace
      ]

    unfoldable pub parse_object : Parser → Result (Value × Parser)
    parse_object p = do
      _ ← new_value granted p
      let q = skip_whitespace (advance 1 p)
      if at_byte (λ c. c == b'}') q
          then ok (object no_members, advance 1 q)
          else object_loop (suc (length q.rest)) q no_members 0

    -- `parse_value` at the byte `c`, behind its tests of depth and end.
    unfoldable pub parse_at : Parser → ℕ → Result (Value × Parser)
    parse_at p c =
        if c == b'{'
        then parse_object p
        else if c == b'['
        then parse_array p
        else if c == b'"'
        then parse_text p
        else if c == b't'
        then parse_literal p (b't' ∷ b'r' ∷ b'u' ∷ b'e' ∷ []) (boolean true)
        else if c == b'f'
        then parse_literal p (b'f' ∷ b'a' ∷ b'l' ∷ b's' ∷ b'e' ∷ []) (boolean false)
        else if c == b'n'
        then parse_literal p (b'n' ∷ b'u' ∷ b'l' ∷ b'l' ∷ []) null
        else if c == b'-' || is_digit c
        then parse_number granted p
        else parser_fail p unexpected_character

  -- `parse_value`, by the levels of nesting left: INKLING_JSON_MAX_DEPTH + 1 - depth.
  unfoldable pub parse_value : ℕ → Parser → Result (Value × Parser)
  parse_value zero p = parser_fail (skip_whitespace p) nesting_limit
  parse_value (suc levels) p =
      let q = skip_whitespace p in
      elim q.rest [ [] ↦ parser_fail q expected_value | c ∷ _ ↦ parse_at (parse_value levels) q c ]

  -- The parsing in `inkling_json_parse`: one value, then only white space.
  unfoldable pub parse_document : Bytes → Result Value
  parse_document text = do
    (root, p) ← parse_value max_levels (start text)
    if at_byte (λ c. true) (skip_whitespace p)
        then parser_fail (skip_whitespace p) trailing_content
        else ok root

-- What `inkling_json_parse` leaves: `document->root`, or the fields of `error`.
pub data Outcome : Type 0 where
  parsed : Value → Outcome
  failed : ℕ → Location → Message → Outcome
  diverged : Outcome

abbrev report : Bytes → Result Value → Outcome
report text (ok root) = parsed root
report text (fail n m) = failed n (locate n text) m
report text stuck = diverged

-- `inkling_json_parse`, with outputs that are not NULL; `none` is a NULL text.
unfoldable pub json_parse : Allocator → Option Bytes → Outcome
json_parse granted none = failed 0 (record { line = 1; column = 1 }) text_is_null
json_parse granted (some text) = report text (parse_document granted text)
