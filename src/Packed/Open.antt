-- ===== src/Packed/Open.antt =====
-- `inkling_packed_open` of src/model/inkling_packed.c. The result is the table of ranges that the model
-- then holds; `none` is a failure, which leaves the model as it was.
use inkling_in_c.Safetensors.Tensor.{DataType, f32, bf16, i64, f8_e4m3, u8, unknown}
use mathlib.Core.Option
use inkling_in_c.Packed.File.{positional_read, hash_range}
use inkling_in_c.Packed.Identity.{
  File, header_limit, source_revision, source_identity, string_equal, header_identity, trunk_name,
}
use inkling_in_c.Packed.Table.{PackedRange, ranges_at_most, no_overlap}
use inkling_in_c.Prelude.{
  Bytes, List, Option, ℕ, Bool, ◌∷◌, ◌&&◌, bind, some, QSort, ◌+◌, if◌then◌else◌, ◌==◌, [], ◌*◌,
  bytes_eq, none, not, length, ◌%◌, codes, leb, ◌||◌, ◌^◌, false, ◌-◌, ltb, size_max, true,
}
use inkling_in_c.Safetensors.Tensor.{DataType, type_is_array, type_is_object}
use inkling_in_c.Safetensors.Header.{Tensor, Memory, offsets_at_most, parse_header}
use inkling_in_c.Index.Table.{Index, find_tensor}
use inkling_in_c.Json.Text.{Result, ok, fail, stuck}
use inkling_in_c.Json.Value.{Value}
use inkling_in_c.Json.Access.{
  json_type, json_array_size, json_object_get, json_object_size, json_array_at, json_number_u64,
  json_string,
}
use inkling_in_c.Alloc.{alloc_array}
use inkling_in_c.Json.Parse.{parse_document}
use inkling_in_c.Packed.Sha.{sha_start, sha_finish}

-- The loop that puts the header's size together.
unfoldable pub little_number : Bytes → ℕ
little_number [] = 0
little_number (c ∷ cs) = c + 256 * little_number cs

-- The number of entries of the index that belong to the trunk.
unfoldable pub count_trunk : List Tensor → ℕ
count_trunk [] = 0
count_trunk (t ∷ ts) = (if trunk_name t.name then 1 else 0) + count_trunk ts

unfoldable pub dtype_eq : DataType → DataType → Bool
dtype_eq f32 f32 = true
dtype_eq bf16 bf16 = true
dtype_eq i64 i64 = true
dtype_eq f8_e4m3 f8_e4m3 = true
dtype_eq u8 u8 = true
dtype_eq unknown unknown = true
dtype_eq _ _ = false

-- A tensor of the packed file against its original in the index.
abbrev pub same_tensor : Tensor → Tensor → Bool
same_tensor tensor original =
    trunk_name tensor.name
    && dtype_eq tensor.dtype original.dtype
    && tensor.byte_length == original.byte_length
    && bytes_eq tensor.shape original.shape

unfoldable pub number_is : Option ℕ → ℕ → Bool
number_is none n = false
number_is (some m) n = m == n

-- The array of three that names the source: the shard, the start and the size.
unfoldable pub same_source : Option Value → Tensor → Bool
unfolding number_is
same_source source original =
    type_is_array (json_type source)
    && json_array_size source == 3
    && string_equal (json_array_at source 0) original.shard
    && number_is (json_number_u64 (json_array_at source 1)) original.data_offset
    && number_is (json_number_u64 (json_array_at source 2)) original.byte_length

-- One round of the loop over the tensors.
unfoldable pub packed_range : Index → Value → ℕ → Tensor → Option PackedRange
packed_range index sources header_size tensor = bind (find_tensor index tensor.name) λ original.
    if same_tensor tensor original
      && same_source (json_object_get (some sources) tensor.name) original
    then some (record {
      source = record {
        shard = original.shard_id;
        start = original.data_offset;
        bytes = original.byte_length;
      };
      destination = (8 + header_size + tensor.data_offset) % 2 ^ 64;
    })
    else none

unfoldable pub packed_ranges : Index → Value → ℕ → List Tensor → Option (List PackedRange)
packed_ranges index sources header_size [] = some []
packed_ranges index sources header_size (t ∷ ts) =
    bind (packed_range index sources header_size t)
      λ r. Option.map (λ rs. r ∷ rs) (packed_ranges index sources header_size ts)

unfoldable pub document_root : Result Value → Option Value
document_root (ok root) = some root
document_root (fail _ _) = none
document_root stuck = none

-- The size of the header, from the first eight bytes.
abbrev pub header_size_fits : ℕ → ℕ → Bool
header_size_fits header_size file_size =
    not (header_size == 0)
    && leb header_size header_limit
    && leb header_size (file_size - 8)
    && ltb header_size size_max

module _ (memory : Memory) (granted : ℕ → Bool) (sort_tensors : QSort offsets_at_most)
    (sort_ranges : QSort ranges_at_most) (files : Bytes → Option File) (fuel : ℕ)
    (index : Index) where
  -- The table: the mapping, the allocation, the ranges, their order, and the test on neighbours.
  unfoldable pub open_table : Value → ℕ → List Tensor → Option (List PackedRange)
  open_table sources header_size tensors =
      if not (type_is_object (json_type (some sources)))
        || not (json_object_size (some sources) == length tensors)
        || not (count_trunk index.entries == length tensors)
        || not (alloc_array granted (length tensors) 32).0
      then none
      else bind (packed_ranges index sources header_size tensors) λ ranges.
        let sorted = sort_ranges.sort ranges in if no_overlap sorted then some sorted else none

  -- The tests on the metadata that need no read of the payload.
  unfoldable pub metadata_is_trunk : Bytes → Bytes → Option Value → Bool
  metadata_is_trunk directory header metadata =
      json_object_size metadata == 6
      && header_identity header metadata
      && string_equal (json_object_get metadata (codes "schema")) (codes "inkling-trunk-v1")
      && string_equal (json_object_get metadata (codes "checkpoint_revision")) source_revision
      && (elim (source_identity granted files fuel directory) [
        | none ↦ false
        | some identity ↦ string_equal (json_object_get metadata (codes "source_sha256")) identity
      ])

  -- What follows the reading of the header.
  unfoldable pub open_header : Bytes → File → ℕ → ℕ → Bytes → ℕ → Option (List PackedRange)
  open_header directory file file_size header_size header time =
      bind (parse_header memory sort_tensors (some header) header_size file_size) λ tensors.
        bind (document_root (parse_document memory.reader header)) λ root.
          let metadata = json_object_get (some root) (codes "__metadata__") in
          if length tensors == 0 || not (metadata_is_trunk directory header metadata)
          then none
          else bind
              (hash_range file.pread fuel time sha_start (8 + header_size)
                (file_size - 8 - header_size))
              λ (hash, t).
                if string_equal (json_object_get metadata (codes "payload_sha256"))
                  (sha_finish hash)
                then (bind (json_string (json_object_get metadata (codes "source_ranges")))
                    λ mapping.
                      bind (document_root (parse_document memory.reader mapping))
                        λ sources. open_table sources header_size tensors)
                else none

  -- `inkling_packed_open`, on a file that was opened, or `none`.
  unfoldable pub packed_open : Bytes → Option File → Option (List PackedRange)
  packed_open directory none = none
  packed_open directory (some file) = bind file.regular_size λ file_size.
      if not (granted 24) || ltb file_size 8
      then none
      else bind (positional_read file.pread fuel 0 0 8) λ (prefix, t).
        let header_size = little_number prefix in
        if header_size_fits header_size file_size && granted (header_size + 1)
        then (bind (positional_read file.pread fuel t 8 header_size)
            λ (header, u). open_header directory file file_size header_size header u)
        else none
