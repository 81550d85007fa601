-- ===== src/Safetensors/Header.antt =====
-- `inkling_safetensors_parse_header` and `inkling_safetensors_find_tensor` of
-- src/io/inkling_safetensors.c.
use mathlib.Core.Option
use inkling_in_c.Prelude.{
  Bytes, ℕ, Bool, QSort, false, true, Option, List, not, ◌*◌, if◌then◌else◌, ◌∷◌, length, some,
  ◌==◌, [], leb, ◌||◌, ◌+◌, ◌&&◌, ltb, bytes_eq, none, take, ◌%◌, codes, size_max, ◌^◌, ◌-◌, bind,
  ◌/◌,
}
use inkling_in_c.Json.Value.{Members, Value, object, count_members, member, no_members}
use inkling_in_c.Json.Buffer.{Allocator}
use inkling_in_c.Safetensors.Tensor.{DataType, TensorInfo, parse_tensor}
use inkling_in_c.Json.Access.{json_string, json_object_get}
use inkling_in_c.Json.Parse.{parse_document}
use inkling_in_c.Json.Text.{ok, fail, stuck}

-- `InklingTensor`. A name or a shard is the bytes before its NUL.
pub record Tensor : Type 0 where
  pub name : Bytes
  pub shard : Bytes
  pub dtype : DataType
  pub shape : List ℕ
  pub data_offset : ℕ
  pub byte_length : ℕ
  pub shard_id : ℕ

-- INKLING_INDEX_MAX_NAME_LENGTH and SAFETENSORS_MAX_HEADER_SIZE
abbrev pub max_name_length : ℕ
max_name_length = 128

abbrev pub max_header_size : ℕ
max_header_size = 100 * 1024 * 1024

-- sizeof(InklingTensor)
abbrev pub tensor_size : ℕ
tensor_size = 288

-- `memchr(name, '\0', length) != NULL`
unfoldable pub has_nul : Bytes → Bool
has_nul [] = false
has_nul (c ∷ cs) = c == 0 || has_nul cs

-- The metadata may only hold strings.
all_strings : Members → Bool
all_strings no_members = true
all_strings (member k v ms) = elim (json_string (some v)) [ none ↦ false | some _ ↦ all_strings ms ]

unfoldable pub metadata_is_valid : Value → Bool
unfolding all_strings
metadata_is_valid (object ms) = all_strings ms
metadata_is_valid _ = false

-- A member of the header that is no metadata; `none` is a failure.
unfoldable pub read_entry : ℕ → Bytes → Value → Option Tensor
read_entry payload_size name value =
    if length name == 0 || not (ltb (length name) max_name_length) || has_nul name
    then none
    else bind (parse_tensor (some value)) λ info.
      let tensor : Tensor = record {
        name = name;
        shard = [];
        dtype = info.dtype;
        shape = info.shape;
        data_offset = info.data_start;
        byte_length = info.data_end - info.data_start;
        shard_id = 0;
      } in
      if ltb payload_size info.data_end then none else some tensor

-- The loop over the members of the header.
unfoldable pub read_members : ℕ → Members → Option (List Tensor)
unfolding metadata_is_valid
read_members payload_size no_members = some []
read_members payload_size (member name value ms) =
    let rest = read_members payload_size ms in
    if bytes_eq name (codes "__metadata__")
    then if metadata_is_valid value then rest else none
    else bind (read_entry payload_size name value)
        λ tensor. Option.map (λ tensors. tensor ∷ tensors) rest

-- `compare_offsets(a, b) <= 0`
unfoldable pub offsets_at_most : Tensor → Tensor → Bool
offsets_at_most a b =
    if a.data_offset == b.data_offset
    then leb a.byte_length b.byte_length
    else ltb a.data_offset b.data_offset

-- The last loop: each tensor begins where the one before it ends. The result is the last end.
unfoldable pub check_ranges : ℕ → List Tensor → Option ℕ
check_ranges end [] = some end
check_ranges end (t ∷ ts) =
    let rest = check_ranges ((t.data_offset + t.byte_length) % 2 ^ 64) ts in
    if t.data_offset == end then rest else none

-- Success, if the last end is the end of the payload.
unfoldable pub covers : ℕ → List Tensor → Bool
covers payload_size tensors = elim (check_ranges 0 tensors) [
  | none ↦ false
  | some end ↦ end == payload_size
]

abbrev pub opening_brace : Bytes → Bool
opening_brace [] = false
opening_brace (c ∷ cs) = c == b'{'

-- The guards on the arguments.
abbrev pub header_fits : Bytes → ℕ → ℕ → Bool
header_fits json header_size shard_size =
    not (header_size == 0)
    && leb header_size max_header_size
    && ltb header_size size_max
    && leb 8 shard_size
    && leb header_size (shard_size - 8)
    && opening_brace json

-- The answers of the allocator: to the JSON reader, and to the array of tensors.
pub record Memory : Type 0 where
  pub reader : Allocator
  pub array : ℕ → Bool

-- The tests on the number of members, and the allocation for them.
abbrev pub no_room : Memory → ℕ → Bool
no_room memory members =
    ltb (size_max / tensor_size) members
    || not (members == 0) && not (memory.array (members * tensor_size))

module _ (memory : Memory) (qsort : QSort offsets_at_most) where
  -- What follows the parsing of the document.
  unfoldable pub read_root : ℕ → Value → Option (List Tensor)
  unfolding covers
  read_root payload_size (object ms) =
      if no_room memory (count_members ms)
      then none
      else bind (read_members payload_size ms) λ tensors.
        if covers payload_size (qsort.sort tensors) then some (qsort.sort tensors) else none
  read_root payload_size _ = none

  -- `inkling_safetensors_parse_header`, with outputs that are not NULL. `json` is the memory from
  -- the pointer on, and holds `header_size` bytes at least.
  unfoldable pub parse_header : Option Bytes → ℕ → ℕ → Option (List Tensor)
  parse_header none header_size shard_size = none
  parse_header (some json) header_size shard_size =
      if header_fits json header_size shard_size
      then elim (parse_document memory.reader (take header_size json)) [
        | ok root ↦ read_root (shard_size - 8 - header_size) root
        | fail _ _ ↦ none
        | stuck ↦ none
      ]
      else none

-- `inkling_safetensors_find_tensor`, on a text that ends at its NUL.
unfoldable pub find_header_tensor : Allocator → Option Bytes → Bytes → Option TensorInfo
find_header_tensor granted none name = none
find_header_tensor granted (some json) name = elim (parse_document granted json) [
  | ok root ↦ parse_tensor (json_object_get (some root) name)
  | fail _ _ ↦ none
  | stuck ↦ none
]
