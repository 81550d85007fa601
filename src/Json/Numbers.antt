-- ===== src/Json/Numbers.antt =====
-- `parse_number` of src/io/inkling_json.c: the text of a number is kept, not its value.
use inkling_in_c.Prelude.{
  ◌==◌, if◌then◌else◌, within, take, Bytes, ℕ, ◌+◌, ◌-◌, true, ◌||◌, [], ◌∷◌, size_max,
}
use inkling_in_c.Json.Text.{
  Result, ok, ◌>>=◌, Message, Parser, advance, parser_fail, at_byte, is_digit, out_of_memory,
  incomplete_number, leading_zero, invalid_number, number_too_large, fraction_no_digits,
  exponent_no_digits,
}
use inkling_in_c.Json.Value.{Value, number}
use inkling_in_c.Json.Buffer.{Allocator}

-- sizeof(InklingJsonValue)
abbrev pub value_size : ℕ
value_size = 32

-- `new_value`
unfoldable pub new_value : Allocator → Parser → Result (Unit {0})
new_value granted p = if granted p.position value_size then ok tt else parser_fail p out_of_memory

unfoldable pub digits_from : ℕ → Bytes → Parser
digits_from n [] = record { position = n; rest = [] }
digits_from n (c ∷ cs) =
    let later = digits_from (n + 1) cs in
    if is_digit c then later else record { position = n; rest = c ∷ cs }

-- The loops that advance over digits.
unfoldable pub skip_digits : Parser → Parser
unfolding digits_from
skip_digits p = digits_from p.position p.rest

unfoldable pub number_sign : Parser → Result Parser
number_sign p =
    if at_byte (λ c. c == b'-') p
    then if at_byte (λ c. true) (advance 1 p)
      then ok (advance 1 p)
      else parser_fail (advance 1 p) incomplete_number
    else ok p

unfoldable pub number_integer : Parser → Result Parser
number_integer p =
    if at_byte (λ c. c == b'0') p
    then if at_byte is_digit (advance 1 p)
      then parser_fail (advance 1 p) leading_zero
      else ok (advance 1 p)
    else if at_byte (within b'1' b'9') p
    then ok (skip_digits (advance 1 p))
    else parser_fail p invalid_number

-- Digits, at least one.
unfoldable pub some_digits : Message → Parser → Result Parser
some_digits m p =
    let q = skip_digits p in if q.position == p.position then parser_fail q m else ok q

unfoldable pub number_fraction : Parser → Result Parser
unfolding some_digits
number_fraction p =
    if at_byte (λ c. c == b'.') p then some_digits fraction_no_digits (advance 1 p) else ok p

unfoldable pub number_exponent : Parser → Result Parser
unfolding some_digits
number_exponent p =
    if at_byte (λ c. c == b'e' || c == b'E') p
    then if at_byte (λ c. c == b'+' || c == b'-') (advance 1 p)
      then some_digits exponent_no_digits (advance 2 p)
      else some_digits exponent_no_digits (advance 1 p)
    else ok p

-- The scan of `parse_number`: the position behind the number.
unfoldable pub number_end : Parser → Result Parser
number_end p = do
  signed ← number_sign p
  whole ← number_integer signed
  decimal ← number_fraction whole
  number_exponent decimal

unfoldable pub parse_number : Allocator → Parser → Result (Value × Parser)
parse_number granted p = do
  q ← number_end p
  _ ← new_value granted q
  let count = q.position - p.position
  if count == size_max
      then parser_fail q number_too_large
      else if granted q.position (count + 1)
      then ok (number (take count p.rest), q)
      else parser_fail q out_of_memory
