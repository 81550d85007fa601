-- ===== src/Json/Grow.antt =====
-- The growing arrays of an array value and of an object (`append_array_item`,
-- `append_object_member` of src/io/inkling_json.c). The items are in the tree; what is kept here
-- is the capacity of the C array.
use inkling_in_c.Prelude.{ltb, ◌==◌, if◌then◌else◌, Bytes, ℕ, ◌*◌, ◌/◌, ◌%◌, ◌^◌, ◌||◌, size_max}
use inkling_in_c.Json.Text.{
  Result, ok, Message, Parser, parser_fail, out_of_memory, array_too_large, object_too_large, ◌>>=◌,
}
use inkling_in_c.Json.Value.{
  Value, Items, Members, count_items, count_members, snoc_item, snoc_member,
}
use inkling_in_c.Json.Buffer.{Allocator}

-- The next capacity: 8, then twice as many, wrapping as `size_t` does.
abbrev pub next_capacity : ℕ → ℕ
next_capacity capacity = if capacity == 0 then 8 else capacity * 2 % 2 ^ 64

module _ (granted : Allocator) where
  -- The capacity after making room for one more element of `width` bytes.
  unfoldable pub make_room : Parser → Message → ℕ → ℕ → ℕ → Result ℕ
  make_room p too_large width count capacity =
      if count == capacity
      then if ltb (next_capacity capacity) capacity
          || ltb (size_max / width) (next_capacity capacity)
        then parser_fail p too_large
        else if granted p.position (next_capacity capacity * width)
        then ok (next_capacity capacity)
        else parser_fail p out_of_memory
      else ok capacity

  -- `append_array_item`, with pointers of 8 bytes.
  unfoldable pub append_array_item : Parser → Items → ℕ → Value → Result (Items × ℕ)
  append_array_item p items capacity v = do
    c ← make_room p array_too_large 8 (count_items items) capacity
    ok (snoc_item items v, c)

  -- `append_object_member`, with members of 24 bytes.
  unfoldable pub append_object_member : Parser → Members → ℕ → Bytes → Value → Result (Members × ℕ)
  append_object_member p members capacity key v = do
    c ← make_room p object_too_large 24 (count_members members) capacity
    ok (snoc_member members key v, c)
