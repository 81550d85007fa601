-- ===== src/Safetensors/Tensor.antt =====
-- One tensor of a header: `InklingDataType`, `InklingTensorInfo`, `dtype_size`,
-- `tensor_size_is_valid` and `parse_tensor` of src/io/inkling_safetensors.c.
use mathlib.Core.Option
use inkling_in_c.Prelude.{
  List, ℕ, Bool, Option, some, false, Bytes, if◌then◌else◌, ◌∷◌, leb, bytes_eq, [], true, ◌==◌,
  u64_max, codes, ◌*◌, ◌||◌, suc, ltb, ◌%◌, ◌/◌, ◌&&◌, none, length, not, ◌^◌, ◌-◌, ◌+◌, zero, bind,
}
use inkling_in_c.Json.Access.{
  JsonType, json_type, json_string, array_type, json_object_get, json_number_u64, json_array_size,
  json_array_at, object_type, json_object_size,
}
use inkling_in_c.Json.Value.{Value}

pub data DataType : Type 0 where
  unknown f32 bf16 i64 f8_e4m3 u8 : DataType

-- `shape` is the array's first `rank` items; `rank` is its length.
pub record TensorInfo : Type 0 where
  pub dtype : DataType
  pub shape : List ℕ
  pub data_start : ℕ
  pub data_end : ℕ

abbrev pub max_rank : ℕ
max_rank = 8

unfoldable pub dtype_size : DataType → ℕ
dtype_size f32 = 4
dtype_size bf16 = 2
dtype_size i64 = 8
dtype_size f8_e4m3 = 1
dtype_size u8 = 1
dtype_size unknown = 0

-- The loop of `tensor_size_is_valid` over the dimensions; `none` is its early return.
unfoldable pub count_elements : ℕ → List ℕ → Option ℕ
count_elements n [] = some n
count_elements n (size ∷ sizes) =
    let rest = count_elements (n * size % 2 ^ 64) sizes in
    if not (size == 0) && ltb (u64_max / size) n then none else rest

size_matches : ℕ → ℕ → Option ℕ → Bool
size_matches width bytes none = false
size_matches width bytes (some elements) =
    leb elements (u64_max / width) && elements * width % 2 ^ 64 == bytes

unfoldable pub tensor_size_is_valid : TensorInfo → Bool
unfolding size_matches
tensor_size_is_valid t =
    let width = dtype_size t.dtype in
    if width == 0 || ltb max_rank (length t.shape) || ltb t.data_end t.data_start
    then false
    else size_matches width (t.data_end - t.data_start) (count_elements 1 t.shape)

unfoldable pub type_is_object : JsonType → Bool
type_is_object object_type = true
type_is_object _ = false

unfoldable pub type_is_array : JsonType → Bool
type_is_array array_type = true
type_is_array _ = false

-- The table of `parse_tensor`; `unknown` where no name fits, or the value is no string.
unfoldable pub dtype_of_name : Option Bytes → DataType
dtype_of_name none = unknown
dtype_of_name (some name) =
    if bytes_eq name (codes "F32")
    then f32
    else if bytes_eq name (codes "BF16")
    then bf16
    else if bytes_eq name (codes "I64")
    then i64
    else if bytes_eq name (codes "F8_E4M3")
    then f8_e4m3
    else if bytes_eq name (codes "U8")
    then u8
    else unknown

-- The loop over the dimensions, with `rank` rounds left.
unfoldable pub read_shape : Option Value → ℕ → ℕ → Option (List ℕ)
read_shape shape dimension zero = some []
read_shape shape dimension (suc n) =
    bind (json_number_u64 (json_array_at shape dimension))
      λ size. Option.map (λ sizes. size ∷ sizes) (read_shape shape (dimension + 1) n)

-- `data_offsets`: an array of two integers.
unfoldable pub read_offsets : Option Value → Option (ℕ × ℕ)
read_offsets offsets =
    if type_is_array (json_type offsets) && json_array_size offsets == 2
    then bind (json_number_u64 (json_array_at offsets 0)) (λ data_start.
      Option.map (λ data_end. (data_start, data_end)) (json_number_u64 (json_array_at offsets 1)))
    else none

unfoldable pub is_known : DataType → Bool
is_known unknown = false
is_known _ = true

-- The tensor that `parse_tensor` fills in; `none` is its failure.
unfoldable pub parse_tensor : Option Value → Option TensorInfo
unfolding is_known
parse_tensor value =
    let dtype = dtype_of_name (json_string (json_object_get value (codes "dtype"))) in
    let shape = json_object_get value (codes "shape") in
    let rank = json_array_size shape in
    if not (type_is_object (json_type value)) || not (json_object_size value == 3)
    then none
    else if not (is_known dtype) || not (type_is_array (json_type shape)) || ltb max_rank rank
    then none
    else bind (read_shape shape 0 rank) λ sizes.
      bind (read_offsets (json_object_get value (codes "data_offsets"))) λ (data_start, data_end).
        let tensor : TensorInfo = record {
          dtype = dtype;
          shape = sizes;
          data_start = data_start;
          data_end = data_end;
        } in
        if tensor_size_is_valid tensor then some tensor else none
