-- ===== src/Index/Bind.antt =====
-- `bind_tensors` and `inkling_index_bind_header` of src/io/inkling_index.c.
use inkling_in_c.Prelude.{
  List, Bytes, get_or, ◌∷◌, QSort, ℕ, Bool, Option, [], true, ◌-◌, bind, if◌then◌else◌, bytes_eq,
  get_elem?, ◌==◌, ◌+◌, ◌||◌, not, length, none, false, some, ◌&&◌, set,
}
use inkling_in_c.Index.Table.{Index, find_slot, find_tensor}
use inkling_in_c.Safetensors.Header.{Tensor, Memory, offsets_at_most, parse_header}

-- How many entries the shard has.
unfoldable pub count_shard : List Tensor → Bytes → ℕ
count_shard [] shard = 0
count_shard (t ∷ ts) shard = (if bytes_eq t.shard shard then 1 else 0) + count_shard ts shard

-- The loop of tests, before any entry changes.
unfoldable pub all_belong : Index → Bytes → List Tensor → Bool
all_belong index shard [] = true
all_belong index shard (t ∷ ts) = elim (find_tensor index t.name) [
  | none ↦ false
  | some entry ↦ bytes_eq entry.shard shard && all_belong index shard ts
]

-- What is copied from a tensor of the header into its entry.
abbrev pub with_metadata : Tensor → Tensor → Tensor
with_metadata entry t = record entry {
  dtype = t.dtype;
  shape = t.shape;
  data_offset = t.data_offset;
  byte_length = t.byte_length;
}

-- The write through the slot of the tensor's name.
unfoldable pub publish : Index → Tensor → Index
publish index t =
    let place = get_or index.slots (find_slot index t.name) 0 - 1 in
    elim (get_elem? index.entries place) [
      | none ↦ index
      | some entry ↦ record index { entries = set index.entries place (with_metadata entry t) }
    ]

unfoldable pub publish_all : Index → List Tensor → Index
publish_all index [] = index
publish_all index (t ∷ ts) = publish_all (publish index t) ts

unfoldable pub bind_tensors : Index → Bytes → List Tensor → Option Index
bind_tensors index shard tensors =
    let expected = count_shard index.entries shard in
    if expected == 0 || not (length tensors == expected) || not (all_belong index shard tensors)
    then none
    else some (publish_all index tensors)

-- `inkling_index_bind_header`, with an index and a shard that are not NULL.
unfoldable pub bind_header :
    Memory → QSort offsets_at_most → Index → Bytes → Option Bytes → ℕ → ℕ → Option Index
bind_header memory qsort index shard json header_size shard_size =
    bind (parse_header memory qsort json header_size shard_size) (bind_tensors index shard)
