-- ===== src/Json/Room.antt =====
-- Proofs on the growing arrays of items and members (`append_array_item`, `append_object_member`
-- of src/io/inkling_json.c).
use inkling_in_c.Prelude.{
  ℕ, Bool, ◌≤◌, ◌*◌, ◌||◌, size_max, Bytes, ◌≡◌, ltb, false, arith, ◌+◌, ◌/◌, ◌<◌, Bool-cases, ◌==◌,
  refl, inr, inl,
}
use inkling_in_c.Json.Value.{
  snoc_item, snoc_member, Items, Members, Value, count_items, count_members, item, member, no_items,
  no_members,
}
use inkling_in_c.Json.Buffer.{Allocator}
use inkling_in_c.Json.Grow.{make_room, append_array_item, append_object_member, next_capacity}
use inkling_in_c.Json.Text.{Parser, Message, array_too_large, object_too_large}
use inkling_in_c.Json.Ensures.{Inside, Ensures, Ensures-bind, holds, fails}

-- `count` elements of `width` bytes stand in an allocation for `capacity` of them.
abbrev pub IsRoomy : ℕ → ℕ → ℕ → Type 0
IsRoomy width count capacity = (count ≤ capacity) × (capacity * width ≤ size_max)

count_items-snoc : (vs : Items) (v : Value) → count_items (snoc_item vs v) ≡ count_items vs + 1
unfolding snoc_item
count_items-snoc no_items v = omega arith
count_items-snoc (item w vs) v = omega (arith, count_items-snoc vs v)

count_members-snoc :
    (ms : Members) (k : Bytes) (v : Value)
    → count_members (snoc_member ms k v) ≡ count_members ms + 1
unfolding snoc_member
count_members-snoc no_members k v = omega arith
count_members-snoc (member j w ms) k v = omega (arith, count_members-snoc ms k v)

next_items :
    (c : ℕ)
    → c * 8 ≤ size_max
    → ltb (size_max / 8) (next_capacity c) ≡ false
    → (c < next_capacity c) × (next_capacity c * 8 ≤ size_max)
next_items c h e = ground arith

next_members :
    (c : ℕ)
    → c * 24 ≤ size_max
    → ltb (size_max / 24) (next_capacity c) ≡ false
    → (c < next_capacity c) × (next_capacity c * 24 ≤ size_max)
next_members c h e = ground arith

or_false : (a b : Bool) → (a || b) ≡ false → b ≡ false
or_false a b h = ground arith

module _ (granted : Allocator) {t : ℕ} where
  -- Room for one element more, if a doubling that is not too large gives it.
  make_room-Ensures :
      (p : Parser) (m : Message) (width count capacity : ℕ)
      → (ltb (size_max / width) (next_capacity capacity) ≡ false
          → (capacity < next_capacity capacity) × (next_capacity capacity * width ≤ size_max))
      → Inside t p
      → IsRoomy width count capacity
      → Ensures t (λ c. IsRoomy width (count + 1) c) (make_room granted p m width count capacity)
  unfolding make_room
  make_room-Ensures p m width count capacity next i h = elim (Bool-cases (count == capacity)) [
    | inr roomy ↦ rw roomy (holds (ground arith))
    | inl full ↦
        rw full
          (elim (Bool-cases (
            ltb (next_capacity capacity) capacity
            || ltb (size_max / width) (next_capacity capacity))) [
              | inl large ↦ rw large (fails (omega arith))
              | inr small ↦
                  let fits =
                    or_false (ltb (next_capacity capacity) capacity)
                      (ltb (size_max / width) (next_capacity capacity)) small in
                  rw small
                    (elim (Bool-cases (granted p.position (next_capacity capacity * width))) [
                      | inr refused ↦ rw refused (fails (omega arith))
                      | inl given ↦ rw given (holds (ground (arith, next fits), (next fits).1))
                    ])
            ])
  ]

  -- For an array that has room for its items, with pointers of 8 bytes, and a parser inside a text
  -- of `t` bytes, `append_array_item` ends: in a failure whose position is at most `t`, or in the
  -- array with the item at its end, which has room for its items and whose size in bytes a
  -- `size_t` holds.
  pub append_array_item-Ensures :
      (p : Parser) (items : Items) (capacity : ℕ) (v : Value)
      → Inside t p
      → IsRoomy 8 (count_items items) capacity
      → Ensures t
          (λ r. (r.0 ≡ snoc_item items v) × IsRoomy 8 (count_items r.0) r.1)
          (append_array_item granted p items capacity v)
  unfolding append_array_item
  append_array_item-Ensures p items capacity v i h =
      Ensures-bind
        (make_room-Ensures p array_too_large 8 (count_items items) capacity
          (next_items capacity h.1) i h)
        λ c x. holds (refl, rw (count_items-snoc items v) x)

  -- For an object that has room for its members, of 24 bytes each, and a parser inside a text of
  -- `t` bytes, `append_object_member` ends: in a failure whose position is at most `t`, or in the
  -- object with the member at its end, which has room for its members and whose size in bytes a
  -- `size_t` holds.
  pub append_object_member-Ensures :
      (p : Parser) (members : Members) (capacity : ℕ) (k : Bytes) (v : Value)
      → Inside t p
      → IsRoomy 24 (count_members members) capacity
      → Ensures t
          (λ r. (r.0 ≡ snoc_member members k v) × IsRoomy 24 (count_members r.0) r.1)
          (append_object_member granted p members capacity k v)
  unfolding append_object_member
  append_object_member-Ensures p members capacity k v i h =
      Ensures-bind
        (make_room-Ensures p object_too_large 24 (count_members members) capacity
          (next_members capacity h.1) i h)
        λ c x. holds (refl, rw (count_members-snoc members k v) x)
