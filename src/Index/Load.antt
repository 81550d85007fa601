-- ===== src/Index/Load.antt =====
-- `inkling_index_load` of src/io/inkling_index.c, from the parsed document on.
use inkling_in_c.Prelude.{
  ℕ, Bytes, List, Option, Bool, bind, none, [], some, false, not, ◌∷◌, replicate, if◌then◌else◌,
  suc, ◌*◌, length, bytes_eq, ltb, leb, codes, ◌==◌, size_max, ◌||◌, ◌&&◌, ◌^◌, get_or, ◌-◌, ◌/◌,
  ◌+◌, ◌++◌, zero, set,
}
use inkling_in_c.Index.Table.{Index, find_slot}
use inkling_in_c.Safetensors.Header.{Tensor, max_name_length, tensor_size}
use inkling_in_c.Json.Value.{Members, Value, member, object, no_members}
use inkling_in_c.Json.Access.{json_object_get, json_string, json_object_size, json_number_u64}
use inkling_in_c.Safetensors.Tensor.{unknown}

-- INKLING_INDEX_MAX_SHARD_LENGTH
abbrev pub max_shard_length : ℕ
max_shard_length = 64

-- `memchr` and `strchr`: the byte occurs.
has_byte : ℕ → Bytes → Bool
has_byte b [] = false
has_byte b (c ∷ cs) = c == b || has_byte b cs

-- The test of a name and of the file name of its shard.
unfoldable pub names_are_valid : Bytes → Bytes → Bool
unfolding has_byte
names_are_valid name shard =
    not (length name == 0)
    && ltb (length name) max_name_length
    && not (has_byte 0 name)
    && not (length shard == 0)
    && ltb (length shard) max_shard_length
    && not (has_byte 0 shard)
    && not (has_byte b'/' shard)
    && not (has_byte b'\\' shard)
    && not (bytes_eq shard (codes "."))
    && not (bytes_eq shard (codes ".."))

-- The loop that looks for an earlier entry of the same shard.
unfoldable pub known_shard : List Tensor → Bytes → Option ℕ
known_shard [] shard = none
known_shard (t ∷ ts) shard =
    if bytes_eq t.shard shard then some t.shard_id else known_shard ts shard

-- The shard's number, and how many shards there are then; `none` where they are too many.
unfoldable pub number_shard : Index → Bytes → Option (ℕ × ℕ)
number_shard index shard = elim (known_shard index.entries shard) [
  | some id ↦ some (id, index.num_shards)
  | none ↦
      if index.num_shards == 2 ^ 32 - 1 then none else some (index.num_shards, index.num_shards + 1)
]

abbrev pub new_entry : Bytes → Bytes → ℕ → Tensor
new_entry name shard id = record {
  name = name;
  shard = shard;
  dtype = unknown;
  shape = [];
  data_offset = 0;
  byte_length = 0;
  shard_id = id;
}

-- The body of the loop over the members of `weight_map`, once the names are valid.
unfoldable pub add_entry : Index → Bytes → Bytes → Option Index
add_entry index name shard = bind (number_shard index shard) λ (id, num_shards).
    let slot = find_slot index name in
    if slot == index.slot_count || not (get_or index.slots slot 0 == 0)
    then none
    else some (record index {
      entries = index.entries ++ new_entry name shard id ∷ [];
      slots = set index.slots slot (length index.entries + 1);
      num_shards = num_shards;
    })

unfoldable pub add_entries : Index → Members → Option Index
add_entries index no_members = some index
add_entries index (member name v ms) = bind (json_string (some v)) λ shard.
    if names_are_valid name shard
    then bind (add_entry index name shard) (λ next. add_entries next ms)
    else none

-- The loop that doubles `slot_count`, on fuel.
unfoldable pub double_slots : ℕ → ℕ → ℕ → Option ℕ
double_slots zero slots wanted = none
double_slots (suc f) slots wanted =
    let doubled = double_slots f (slots * 2) wanted in
    if ltb slots wanted then if ltb (size_max / 2) slots then none else doubled else some slots

abbrev pub empty_index : ℕ → ℕ → Index
empty_index total_size slot_count = record {
  entries = [];
  total_size = total_size;
  slots = replicate slot_count 0;
  slot_count = slot_count;
  num_shards = 0;
}

-- The members of an object; `none` for any other type.
unfoldable pub members_of : Option Value → Option Members
members_of (some (object ms)) = some ms
members_of _ = none

-- The tests on the number of members.
abbrev pub count_fits : ℕ → Bool
count_fits count =
    not (count == 0) && leb count (size_max / tensor_size) && leb count (size_max / 2)

-- What follows the tests: the allocations and the loop over the members.
unfoldable pub build_index : (ℕ → Bool) → Members → ℕ → ℕ → Option Index
build_index granted ms count total_size = bind (double_slots 64 2 (count * 2)) λ slot_count.
    if leb slot_count (size_max / 8) && granted (count * tensor_size) && granted (slot_count * 8)
    then add_entries (empty_index total_size slot_count) ms
    else none

-- `inkling_index_load`, where the file has been parsed into a document with this root. `granted` is
-- the allocator's answer to a request of so many bytes.
unfoldable pub load_index : (ℕ → Bool) → Value → Option Index
load_index granted root =
    let map = json_object_get (some root) (codes "weight_map") in
    let metadata = json_object_get (some root) (codes "metadata") in
    let count = json_object_size map in
    bind (members_of map) λ ms.
      if count_fits count
      then (bind (json_number_u64 (json_object_get metadata (codes "total_size")))
          (build_index granted ms count))
      else none
