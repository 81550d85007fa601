-- ===== src/Json/Access.antt =====
-- The getters of src/io/inkling_json.c. `none` is a NULL value, and the failure of a getter; the
-- output pointers are not NULL.
use mathlib.Core.Option
use inkling_in_c.Json.Value.{
  Value, null, boolean, number, string, array, object, Items, Members, count_items, count_members,
  item, member, no_items, no_members,
}
use inkling_in_c.Prelude.{
  Option, ℕ, Bytes, Bool, some, none, ℤ, ◌^◌, ◌∷◌, ◌-◌, if◌then◌else◌, bytes_eq, ◌*◌, ◌==◌, suc, [],
  negsuc, pos, ◌+◌, negate, ◌%◌, zero, not, ltb, ◌/◌, u64_max,
}
use inkling_in_c.Json.Text.{is_digit}

-- `InklingJsonType`
pub data JsonType : Type 0 where
  null_type boolean_type number_type string_type array_type object_type : JsonType

unfoldable pub json_type : Option Value → JsonType
json_type none = null_type
json_type (some null) = null_type
json_type (some (boolean b)) = boolean_type
json_type (some (number w)) = number_type
json_type (some (string s)) = string_type
json_type (some (array vs)) = array_type
json_type (some (object ms)) = object_type

unfoldable pub json_boolean : Option Value → Option Bool
json_boolean (some (boolean b)) = some b
json_boolean _ = none

unfoldable pub json_string : Option Value → Option Bytes
json_string (some (string s)) = some s
json_string _ = none

unfoldable pub json_number_text : Option Value → Option Bytes
json_number_text (some (number w)) = some w
json_number_text _ = none

-- The loop of `inkling_json_number_u64` and of `inkling_json_number_i64`: a byte that is no digit,
-- or a digit that would pass the limit, is a failure. The arithmetic wraps as `uint64_t` does.
unfoldable pub read_digits : ℕ → ℕ → Bytes → Option ℕ
read_digits limit n [] = some n
read_digits limit n (c ∷ cs) =
    let rest = read_digits limit ((n * 10 + (c - b'0')) % 2 ^ 64) cs in
    if not (is_digit c) then none else if ltb ((limit - (c - b'0')) / 10) n then none else rest

u64_of_text : Bytes → Option ℕ
u64_of_text [] = none
u64_of_text (c ∷ cs) = if c == b'-' then none else read_digits u64_max 0 (c ∷ cs)

unfoldable pub json_number_u64 : Option Value → Option ℕ
unfolding u64_of_text
json_number_u64 (some (number w)) = u64_of_text w
json_number_u64 _ = none

-- INT64_MIN for the largest magnitude, and the negation of any other.
abbrev pub negative_result : ℕ → ℤ
negative_result magnitude = if magnitude == 2 ^ 63 then negsuc (2 ^ 63 - 1) else negate magnitude

negative_digits : Bytes → Option ℤ
negative_digits [] = none
negative_digits (c ∷ cs) = Option.map negative_result (read_digits (2 ^ 63) 0 (c ∷ cs))

i64_of_text : Bytes → Option ℤ
unfolding negative_digits
i64_of_text [] = none
i64_of_text (c ∷ cs) =
    if c == b'-' then negative_digits cs else Option.map pos (read_digits (2 ^ 63 - 1) 0 (c ∷ cs))

unfoldable pub json_number_i64 : Option Value → Option ℤ
unfolding i64_of_text
json_number_i64 (some (number w)) = i64_of_text w
json_number_i64 _ = none

unfoldable pub json_array_size : Option Value → ℕ
json_array_size (some (array vs)) = count_items vs
json_array_size _ = 0

abbrev pub get_item? : Items → ℕ → Option Value
get_item? no_items i = none
get_item? (item v vs) zero = some v
get_item? (item v vs) (suc i) = get_item? vs i

unfoldable pub json_array_at : Option Value → ℕ → Option Value
json_array_at (some (array vs)) i = get_item? vs i
json_array_at _ i = none

unfoldable pub json_object_size : Option Value → ℕ
json_object_size (some (object ms)) = count_members ms
json_object_size _ = 0

-- The loop of `inkling_json_object_get`: the first member with the key.
unfoldable pub find_member : Members → Bytes → Option Value
find_member no_members key = none
find_member (member k v ms) key = if bytes_eq k key then some v else find_member ms key

-- The C string that starts at some bytes: `strlen` of them, up to the first NUL.
unfoldable pub c_string : Bytes → Bytes
c_string [] = []
c_string (c ∷ cs) = if c == 0 then [] else c ∷ c_string cs

-- `inkling_json_object_get`, on the bytes that `key` points to.
unfoldable pub json_object_get : Option Value → Bytes → Option Value
json_object_get (some (object ms)) key = find_member ms (c_string key)
json_object_get _ key = none

abbrev pub get_key? : Members → ℕ → Option Bytes
get_key? no_members i = none
get_key? (member k v ms) zero = some k
get_key? (member k v ms) (suc i) = get_key? ms i

abbrev pub get_value? : Members → ℕ → Option Value
get_value? no_members i = none
get_value? (member k v ms) zero = some v
get_value? (member k v ms) (suc i) = get_value? ms i

unfoldable pub json_object_key_at : Option Value → ℕ → Option Bytes
json_object_key_at (some (object ms)) i = get_key? ms i
json_object_key_at _ i = none

unfoldable pub json_object_value_at : Option Value → ℕ → Option Value
json_object_value_at (some (object ms)) i = get_value? ms i
json_object_value_at _ i = none
