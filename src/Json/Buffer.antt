-- ===== src/Json/Buffer.antt =====
-- `JsonBuffer` of src/io/inkling_json.c: the growing buffer of a string. `granted p n` is the
-- allocator's answer to a request of `n` bytes made at position `p` of the text.
use inkling_in_c.Prelude.{
  ltb, leb, ◌==◌, if◌then◌else◌, length, Bytes, ℕ, zero, suc, ◌+◌, ◌-◌, ◌*◌, ◌/◌, Bool, [], ◌++◌,
  size_max,
}
use inkling_in_c.Json.Text.{
  Result, ok, stuck, ◌>>=◌, Parser, parser_fail, out_of_memory, string_too_large,
}

abbrev pub Allocator : Type 0
Allocator = ℕ → ℕ → Bool

-- `data[0 .. length)` and the bytes allocated; the terminating NUL is not stored.
pub record Buffer : Type 0 where
  pub bytes : Bytes
  pub capacity : ℕ

abbrev pub empty_buffer : Buffer
empty_buffer = record { bytes = []; capacity = 0 }

-- The doubling loop of `reserve_buffer`, on fuel.
unfoldable pub grow_capacity : ℕ → ℕ → ℕ → Result ℕ
grow_capacity zero capacity needed = stuck
grow_capacity (suc f) capacity needed =
    let doubled = grow_capacity f (capacity * 2) needed in
    if ltb capacity needed
    then if ltb (size_max / 2) capacity then ok needed else doubled
    else ok capacity

-- 16 doubled 60 times exceeds every `size_t`.
abbrev pub doublings : ℕ
doublings = 64

module _ (granted : Allocator) where
  unfoldable pub reserve_buffer : Parser → Buffer → ℕ → Result Buffer
  unfolding grow_capacity
  reserve_buffer p buffer additional =
      let length_now = length buffer.bytes in
      let needed = length_now + additional + 1 in
      if ltb (size_max - length_now - 1) additional
      then parser_fail p string_too_large
      else if leb needed buffer.capacity
      then ok buffer
      else (do
        capacity ←
            grow_capacity doublings (if buffer.capacity == 0 then 16 else buffer.capacity) needed
        if granted p.position capacity
            then ok (record buffer { capacity = capacity })
            else parser_fail p out_of_memory)

  unfoldable pub append_bytes : Parser → Buffer → Bytes → Result Buffer
  append_bytes p buffer more = do
    b ← reserve_buffer p buffer (length more)
    ok (record b { bytes = b.bytes ++ more })
