-- ===== src/Packed/Tests.antt =====
-- Runs of the packed trunk, and its theorems at concrete inputs.
use inkling_in_c.Safetensors.Tensor.{
  u8, dtype_size, count_elements, tensor_size_is_valid, type_is_object, type_is_array,
  dtype_of_name, read_shape, read_offsets, is_known, parse_tensor,
}
use inkling_in_c.Safetensors.Header.{
  Tensor, Memory, offsets_at_most, has_nul, metadata_is_valid, read_entry, read_members,
  check_ranges, covers, read_root, parse_header, find_header_tensor,
}
use inkling_in_c.Index.Table.{
  Index, name_hash, entry_is, probe, find_slot, find_place, find_tensor, find_shard,
}
use inkling_in_c.Cache.{Range}
use inkling_in_c.Json.Text.{skip_from, skip_whitespace, locate}
use inkling_in_c.Packed.Sha.{
  sha_finish, sha_update, sha_start, rotate, block_words, next_word, extend_words, sha_round,
  sha_rounds, sha_block, copy, flush, update_loop, big_endian, suffix, hex_digit_of, hex_bytes,
  hex_words, Sha256,
}
use inkling_in_c.Prelude.{
  Bytes, ℕ, codes, ◌≡◌, true, Option, Gives, ◌∷◌, ◌<◌, some, false, List, replicate, length, [],
  arith, insertion_qsort, ◌++◌, ◌≤◌, take, ◌⊎◌, Gives-some, suc, refl, min, subst, ap, inl, ◌+◌,
  zero, drop, take-length-take, length-take_le, ◌-◌, length-drop, inr, bytes_eq, insert,
  insertion_sort, AllPairs,
}
use inkling_in_c.Packed.Identity.{
  File, little_endian, hash_file, hash_sources, source_identity, string_equal, starts_with, strstr,
  header_digest, header_identity, has_text, trunk_name,
}
use inkling_in_c.Packed.Table.{
  ranges_at_most, PackedRange, packed_read, served, no_overlap, search_loop, served_or, read_from,
  read_candidate,
}
use inkling_in_c.Packed.Opened.{IsOpened, packed_open-IsOpened, packed_read-served}
use inkling_in_c.Packed.File.{
  Pread, positional_read, interrupted, got, read_loop, hash_loop, hash_range,
}
use inkling_in_c.Packed.Reads.{Serves, slice, positional_read_complete}
use mathlib.Core.Option
use inkling_in_c.Packed.Hashed.{hash_range-sha256}
use inkling_in_c.Packed.Standard.{sha256}
use inkling_in_c.Packed.Digest.{sha_finish-sha256}
use inkling_in_c.Packed.Open.{
  packed_open, little_number, count_trunk, dtype_eq, number_is, same_source, packed_range,
  packed_ranges, document_root, open_table, metadata_is_trunk, open_header,
}
use inkling_in_c.Json.Value.{snoc_item, snoc_member}
use inkling_in_c.Json.Buffer.{grow_capacity, reserve_buffer, append_bytes}
use inkling_in_c.Json.Utf8.{
  encode, hex_digit, length_two, length_three, length_four, utf8_sequence_length,
}
use inkling_in_c.Json.Strings.{
  hex4_from, parse_hex4, simple_escape, opens_unicode, low_surrogate, parse_code_point,
  append_code_point, string_escape, string_sequence, string_step, string_loop, parse_string,
}
use inkling_in_c.Json.Numbers.{
  new_value, digits_from, skip_digits, number_sign, number_integer, some_digits, number_fraction,
  number_exponent, number_end, parse_number,
}
use inkling_in_c.Json.Grow.{make_room, append_array_item, append_object_member}
use inkling_in_c.Json.Parse.{
  starts, object_has_key, parse_literal, parse_text, array_loop, parse_array, parse_member,
  object_loop, parse_object, parse_at, parse_value, parse_document, json_parse,
}
use inkling_in_c.Json.Access.{
  json_type, json_boolean, json_string, json_number_text, read_digits, json_number_u64,
  json_number_i64, json_array_size, json_array_at, json_object_size, c_string, find_member,
  json_object_get, json_object_key_at, json_object_value_at,
}
use inkling_in_c.Alloc.{alloc_array, size_mul, size_add}
use inkling_in_c.Packed.Search.{read_found, packed_read-find}
use inkling_in_c.Packed.Ranges.{find_range, InOrder}

program : Unit {0}
unfolding skip_from skip_whitespace locate snoc_item snoc_member grow_capacity reserve_buffer
    append_bytes encode hex_digit length_two length_three length_four utf8_sequence_length hex4_from
    parse_hex4 simple_escape opens_unicode low_surrogate parse_code_point append_code_point
    string_escape string_sequence string_step string_loop parse_string new_value digits_from
    skip_digits number_sign number_integer some_digits number_fraction number_exponent number_end
    parse_number make_room append_array_item append_object_member starts object_has_key
    parse_literal parse_text array_loop parse_array parse_member object_loop parse_object parse_at
    parse_value parse_document json_parse json_type json_boolean json_string json_number_text
    read_digits json_number_u64 json_number_i64 json_array_size json_array_at json_object_size
    find_member json_object_get json_object_key_at json_object_value_at dtype_size count_elements
    tensor_size_is_valid type_is_object type_is_array dtype_of_name read_shape read_offsets is_known
    parse_tensor has_nul metadata_is_valid read_entry read_members offsets_at_most check_ranges
    covers read_root parse_header find_header_tensor name_hash entry_is probe find_slot find_place
    find_tensor find_shard rotate block_words next_word extend_words sha_round sha_rounds sha_block
    copy flush update_loop sha_update big_endian suffix hex_digit_of hex_bytes hex_words sha_finish
    read_loop positional_read hash_loop little_endian hash_file hash_sources source_identity
    string_equal starts_with strstr c_string header_digest header_identity has_text trunk_name
    ranges_at_most no_overlap search_loop served_or read_from read_candidate packed_read
    little_number count_trunk dtype_eq number_is same_source packed_range packed_ranges
    document_root open_table metadata_is_trunk open_header packed_open bytes_eq insert
    insertion_sort alloc_array size_mul size_add
program = tt

sha_finish_runs :
    sha_finish (sha_update sha_start (codes "abc"))
    ≡ codes "ba7816bf8f01cfea414140de5dae2223b00361a396177a9cb410ff61f20015ad"
unfolding program
sha_finish_runs = refl

sha_finish-sha256_example : sha_finish (sha_update sha_start (codes "abc")) ≡ sha256 (codes "abc")
sha_finish-sha256_example = sha_finish-sha256 (codes "abc")

abbrev header : Bytes
header =
    codes
      "{\"__metadata__\":{\"schema\":\"inkling-trunk-v1\",\"checkpoint_revision\":\"b6a99534467840620d411e4cd4ad5819b2610d9c\",\"source_sha256\":\"d7165618095fc8d94fdf4a20879b28817b27669ce2a4105f602f7d8123aeaf65\",\"payload_sha256\":\"8f434346648f6b96df89dda901c5176b10a6d83961dd3c1ac88b59b2dc327aa4\",\"header_sha256\":\"08a30497e6656ab3fd6496928b5d36087db37502410f64fa20daf94d71a0d029\",\"source_ranges\":\"{\\\"model.llm.a\\\":[\\\"s\\\",100,2]}\"},\"model.llm.a\":{\"dtype\":\"U8\",\"shape\":[2],\"data_offsets\":[0,2]}}"

-- The size of the header in eight bytes, the header, and two bytes of payload.
abbrev contents : Bytes
contents = 217 ∷ 1 ∷ replicate 6 0 ++ header ++ codes "hi"

-- The first call is interrupted; any other gives 300 bytes at most.
halting : Bytes → Pread
halting bytes zero offset n = interrupted
halting bytes (suc time) offset n = got (take (min n 300) (drop offset bytes))

got_injective : {a b : Bytes} → got a ≡ got b → a ≡ b
got_injective e = cc

halting_exact :
    (bytes : Bytes) (time offset n : ℕ) (piece : Bytes)
    → halting bytes time offset n ≡ got piece
    → piece ≡ slice bytes offset (length piece)
unfolding halting
halting_exact bytes zero offset n piece e = cc
halting_exact bytes (suc time) offset n piece e =
    subst (λ p. p ≡ slice bytes offset (length p)) (got_injective e)
      (take-length-take (min n 300) (drop offset bytes))

halting_bounded :
    (bytes : Bytes) (time offset n : ℕ) (piece : Bytes)
    → halting bytes time offset n ≡ got piece
    → length piece ≤ n
unfolding halting
halting_bounded bytes zero offset n piece e = cc
halting_bounded bytes (suc time) offset n piece e =
    omega (arith, ap length (got_injective e), length-take_le (min n 300) (drop offset bytes))

take_some :
    (n : ℕ) (xs : Bytes) → 0 < n → 0 < length xs → (c : ℕ) × (cs : Bytes) × (take n xs ≡ c ∷ cs)
take_some zero xs h l = absurd (omega arith)
take_some (suc n) [] h l = absurd (omega arith)
take_some (suc n) (x ∷ xs) h l = (x, take n xs, refl)

halting_answers :
    (bytes : Bytes) (time offset n : ℕ)
    → offset < length bytes
    → 0 < n
    → ((halting bytes time offset n ≡ interrupted) × (time < 1))
      ⊎ ((c : ℕ) × (cs : Bytes) × (halting bytes time offset n ≡ got (c ∷ cs)))
unfolding halting
halting_answers bytes zero offset n l h = inl (refl, omega arith)
halting_answers bytes (suc time) offset n l h =
    let (c, cs, e) =
      take_some (min n 300) (drop offset bytes) (omega arith)
        (omega (arith, length-drop offset bytes)) in
    inr (c, cs, ap got e)

halting-Serves : (bytes : Bytes) → Serves bytes 1 (halting bytes)
halting-Serves bytes = record {
  exact = halting_exact bytes;
  bounded = halting_bounded bytes;
  answers = halting_answers bytes;
}

abbrev file : File
file = record { regular_size = some 483; pread = halting contents }

-- Each of the three files of the checkpoint holds two braces.
files : Bytes → Option File
files path = some (record { regular_size = some 2; pread = halting (codes "{}") })

abbrev index : Index
index = record {
  entries =
      record {
        name = codes "model.llm.a";
        shard = codes "s";
        dtype = u8;
        shape = 2 ∷ [];
        data_offset = 100;
        byte_length = 2;
        shard_id = 0;
      }
      ∷ [];
  total_size = 2;
  slots = 1 ∷ [];
  slot_count = 1;
  num_shards = 1;
}

ranges_at_most-total : (a b : PackedRange) → ranges_at_most a b ≡ false → ranges_at_most b a ≡ true
unfolding ranges_at_most
ranges_at_most-total a b e = ground arith

offsets_at_most-total : (t u : Tensor) → offsets_at_most t u ≡ false → offsets_at_most u t ≡ true
unfolding offsets_at_most
offsets_at_most-total t u e = ground arith

abbrev memory : Memory
memory = record { reader = λ p n. true; array = λ n. true }

abbrev opened : Option (List PackedRange)
opened =
    packed_open memory (λ n. true) (insertion_qsort offsets_at_most offsets_at_most-total)
      (insertion_qsort ranges_at_most ranges_at_most-total) files 1000 index (codes "dir")
      (some file)

abbrev entry : PackedRange
entry = record { source = record { shard = 0; start = 100; bytes = 2 }; destination = 481 }

packed_open_runs : opened ≡ some (entry ∷ [])
unfolding program halting files
packed_open_runs = refl

packed_open-IsOpened_example :
    Gives (λ ranges. AllPairs InOrder ranges × IsOpened 483 ranges) opened
packed_open-IsOpened_example =
    packed_open-IsOpened memory (λ n. true) (insertion_qsort offsets_at_most offsets_at_most-total)
      (insertion_qsort ranges_at_most ranges_at_most-total) files 1000 index (codes "dir") file 483
      refl (omega arith)

entry-IsOpened : IsOpened 483 (entry ∷ [])
entry-IsOpened =
    let left =
      Gives-some
        (packed_open-IsOpened memory (λ n. true)
          (insertion_qsort offsets_at_most offsets_at_most-total)
          (insertion_qsort ranges_at_most ranges_at_most-total) files 1000 index (codes "dir") file
          483 refl (omega arith))
        packed_open_runs in
    left.1

abbrev range : Range
range = record { shard = 0; start = 90; bytes = 20 }

packed_read-find_example :
    packed_read (halting contents) 9 0 (some (entry ∷ [])) range 11 1
    ≡ read_found (halting contents) 9 0 101 1 (find_range (entry ∷ []) 0 101)
packed_read-find_example =
    packed_read-find (halting contents) 9 0 (entry ∷ []) range 11 1 entry-IsOpened.table

positional_read_complete_example :
    (t : ℕ) × (positional_read (halting contents) 3 0 481 2 ≡ some (slice contents 481 2, t))
positional_read_complete_example =
    positional_read_complete (halting-Serves contents) (omega arith) 3 0 481 2 (omega arith)
      (omega arith)

hash_range-sha256_example :
    Option.map
      (λ (r : Sha256 × ℕ). sha_finish r.0)
      (hash_range (halting contents) 9 0 sha_start 481 2)
    ≡ some (sha256 (slice contents 481 2))
hash_range-sha256_example =
    hash_range-sha256 (halting-Serves contents) (omega arith) 9 0 481 2 (omega arith) (omega arith)

found : find_range (entry ∷ []) 0 101 ≡ some entry
unfolding find_range
found = refl

packed_read-served_example :
    (t : ℕ) × (packed_read (halting contents) 9 0 (some (entry ∷ [])) range 11 1
      ≡ served (slice contents (481 + (101 - 100)) 1) t)
packed_read-served_example =
    packed_read-served (halting-Serves contents) (omega arith) (entry ∷ []) range 11 1 9 0 entry
      entry-IsOpened found (omega arith) (omega arith) (omega arith)
