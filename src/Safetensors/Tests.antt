-- ===== src/Safetensors/Tests.antt =====
-- Runs of the header reader, and its theorems at concrete inputs, with an insertion sort for `qsort`.
use inkling_in_c.Safetensors.Tensor.{
  TensorInfo, f32, count_elements, tensor_size_is_valid, dtype_size, u8, type_is_object,
  type_is_array, dtype_of_name, read_shape, read_offsets, is_known, parse_tensor,
}
use inkling_in_c.Safetensors.Header.{
  Tensor, offsets_at_most, Memory, parse_header, has_nul, metadata_is_valid, read_entry,
  read_members, check_ranges, covers, read_root,
}
use inkling_in_c.Safetensors.Sizes.{
  IsSized, tensor_size_is_valid-IsSized, tensor_size_is_valid_complete,
}
use inkling_in_c.Prelude.{
  ◌≡◌, ◌∷◌, refl, false, [], true, arith, QSort, Bytes, Gives, codes, some, length, ◌+◌, bytes_eq,
  insertion_qsort, insert, insertion_sort,
}
use inkling_in_c.Safetensors.Cover.{IsShard, parse_header-IsShard}
use inkling_in_c.Json.Text.{skip_whitespace, locate}
use inkling_in_c.Json.Value.{snoc_item, snoc_member}
use inkling_in_c.Json.Buffer.{reserve_buffer, append_bytes}
use inkling_in_c.Json.Utf8.{encode, hex_digit, utf8_sequence_length}
use inkling_in_c.Json.Strings.{
  parse_hex4, simple_escape, parse_code_point, append_code_point, string_escape, string_sequence,
  string_step, string_loop, parse_string,
}
use inkling_in_c.Json.Numbers.{
  new_value, skip_digits, number_sign, number_integer, number_fraction, number_exponent, number_end,
  parse_number,
}
use inkling_in_c.Json.Grow.{make_room, append_array_item, append_object_member}
use inkling_in_c.Json.Parse.{
  starts, object_has_key, parse_literal, array_loop, parse_array, parse_text, parse_member,
  object_loop, parse_object, parse_at, parse_value, parse_document,
}
use inkling_in_c.Json.Access.{
  json_type, json_string, json_array_size, json_array_at, json_object_size, c_string, find_member,
  json_object_get, json_number_u64, read_digits,
}

offsets_at_most-total : (t u : Tensor) → offsets_at_most t u ≡ false → offsets_at_most u t ≡ true
unfolding offsets_at_most
offsets_at_most-total t u e = ground arith

abbrev qsort : QSort offsets_at_most
qsort = insertion_qsort offsets_at_most offsets_at_most-total

abbrev memory : Memory
memory = record { reader = λ p n. true; array = λ n. true }

abbrev header : Bytes
header =
    codes
      "{\"b\":{\"dtype\":\"U8\",\"shape\":[2],\"data_offsets\":[4,6]},\"a\":{\"dtype\":\"F32\",\"shape\":[],\"data_offsets\":[0,4]}}"

program : Unit {0}
unfolding skip_whitespace locate snoc_item snoc_member reserve_buffer append_bytes encode hex_digit
    utf8_sequence_length parse_hex4 simple_escape parse_code_point append_code_point string_escape
    string_sequence string_step string_loop parse_string new_value skip_digits number_sign
    number_integer number_fraction number_exponent number_end parse_number make_room
    append_array_item append_object_member starts object_has_key parse_literal array_loop
    parse_array parse_text parse_member object_loop parse_object parse_at parse_value parse_document
    bytes_eq json_type json_string json_array_size json_array_at json_object_size c_string
    find_member json_object_get json_number_u64 read_digits dtype_size count_elements
    tensor_size_is_valid type_is_object type_is_array dtype_of_name read_shape read_offsets is_known
    parse_tensor has_nul metadata_is_valid read_entry read_members offsets_at_most check_ranges
    covers read_root parse_header insert insertion_sort
program = tt

-- The header names "b" first; the tensors come in the order of their ranges.
parse_header_runs :
    parse_header memory qsort (some header) (length header) (length header + 14)
    ≡ some (
        record {
          name = codes "a";
          shard = [];
          dtype = f32;
          shape = [];
          data_offset = 0;
          byte_length = 4;
          shard_id = 0;
        }
        ∷ record {
          name = codes "b";
          shard = [];
          dtype = u8;
          shape = 2 ∷ [];
          data_offset = 4;
          byte_length = 2;
          shard_id = 0;
        }
        ∷ [])
unfolding program
parse_header_runs = refl

parse_header-IsShard_example :
    Gives (IsShard 6) (parse_header memory qsort (some header) (length header) (length header + 14))
parse_header-IsShard_example =
    parse_header-IsShard memory qsort (some header) (length header) (length header + 14)
      (omega arith)

abbrev small_shape : TensorInfo
small_shape = record { dtype = f32; shape = 2 ∷ 3 ∷ []; data_start = 8; data_end = 32 }

small_shape-IsSized : IsSized small_shape
unfolding tensor_size_is_valid count_elements dtype_size
small_shape-IsSized = tensor_size_is_valid-IsSized small_shape refl

tensor_size_is_valid-IsSized_example : IsSized small_shape
unfolding tensor_size_is_valid count_elements dtype_size
tensor_size_is_valid-IsSized_example = tensor_size_is_valid-IsSized small_shape refl

tensor_size_is_valid_complete_example : tensor_size_is_valid small_shape ≡ true
tensor_size_is_valid_complete_example =
    tensor_size_is_valid_complete small_shape (omega arith, (omega arith, tt)) (omega arith)
      small_shape-IsSized
