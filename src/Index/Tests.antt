-- ===== src/Index/Tests.antt =====
-- Runs of the index, and its theorems at a concrete `weight_map`.
use mathlib.Core.Option
use inkling_in_c.Index.Table.{Index, name_hash, entry_is, probe, find_slot, find_place, find_tensor}
use inkling_in_c.Index.Load.{
  names_are_valid, known_shard, number_shard, new_entry, add_entry, add_entries, double_slots,
  members_of, build_index, load_index,
}
use inkling_in_c.Index.Bind.{
  count_shard, all_belong, publish, publish_all, bind_tensors, with_metadata,
}
use inkling_in_c.Index.Placed.{search_entries}
use inkling_in_c.Index.Loaded.{load_index-find_tensor}
use inkling_in_c.Safetensors.Header.{Tensor}
use inkling_in_c.Safetensors.Tensor.{f32}
use inkling_in_c.Json.Value.{Value, member, no_members, object, string, number}
use inkling_in_c.Json.Access.{
  c_string, find_member, json_object_get, json_string, json_object_size, json_number_u64,
  read_digits,
}
use inkling_in_c.Prelude.{refl, codes, bytes_eq, true, ◌∷◌, ◌≡◌, [], some}
use inkling_in_c.Index.Numbered.{IsNumbered, load_index-IsNumbered}

abbrev weight_map : Value
weight_map =
    object (
      member (codes "a") (string (codes "s1"))
        (member (codes "b") (string (codes "s2")) no_members))

abbrev document : Value
document = object (
    member (codes "metadata")
      (object (member (codes "total_size") (number (codes "12")) no_members))
      (member (codes "weight_map") weight_map no_members))

-- `name_hash` of "a" ends in 0x8c and of "b" in 0xa5, in a table of four slots.
abbrev loaded : Index
loaded = record {
  entries = new_entry (codes "a") (codes "s1") 0 ∷ new_entry (codes "b") (codes "s2") 1 ∷ [];
  total_size = 12;
  slots = 1 ∷ 2 ∷ 0 ∷ 0 ∷ [];
  slot_count = 4;
  num_shards = 2;
}

program : Unit {0}
unfolding name_hash entry_is probe find_slot find_place find_tensor names_are_valid known_shard
    number_shard add_entry add_entries double_slots members_of build_index load_index count_shard
    all_belong publish publish_all bind_tensors c_string find_member json_object_get json_string
    json_object_size json_number_u64 read_digits bytes_eq search_entries
program = tt

load_runs : load_index (λ n. true) document ≡ some loaded
unfolding program
load_runs = refl

load_index-find_tensor_example :
    Option.map (λ (t : Tensor). t.shard) (find_tensor loaded (codes "b"))
    ≡ json_string
        (json_object_get (json_object_get (some document) (codes "weight_map")) (codes "b"))
unfolding c_string
load_index-find_tensor_example = load_index-find_tensor (λ n. true) document load_runs (codes "b")

abbrev header_tensor : Tensor
header_tensor = record {
  name = codes "a";
  shard = [];
  dtype = f32;
  shape = [];
  data_offset = 0;
  byte_length = 4;
  shard_id = 0;
}

abbrev bound : Index
bound = record loaded {
  entries =
      with_metadata (new_entry (codes "a") (codes "s1") 0) header_tensor
      ∷ new_entry (codes "b") (codes "s2") 1
      ∷ [];
}

load_index-IsNumbered_example : IsNumbered loaded
load_index-IsNumbered_example = load_index-IsNumbered (λ n. true) document load_runs
