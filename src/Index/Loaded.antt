-- ===== src/Index/Loaded.antt =====
-- What `inkling_index_load` of src/io/inkling_index.c builds from a `weight_map`.
use mathlib.Core.Option
use inkling_in_c.Index.Table.{Index, find_slot, find_tensor}
use inkling_in_c.Index.Load.{
  add_entry, add_entries, empty_index, build_index, load_index, members_of, new_entry, number_shard,
  names_are_valid, double_slots, count_fits,
}
use inkling_in_c.Index.Probe.{IsTable, find_slot-le}
use inkling_in_c.Index.Placed.{
  IsPlaced, insert_at-IsPlaced, search_entries, find_tensor-search_entries,
}
use inkling_in_c.Safetensors.Header.{Tensor, tensor_size}
use inkling_in_c.Json.Value.{
  Members, Value, member, no_members, object, boolean, number, string, array, null,
}
use inkling_in_c.Json.Access.{
  json_string, json_object_get, find_member, json_object_size, json_number_u64, c_string,
}
use inkling_in_c.Prelude.{
  Gives, gives, nothing, Gives-some, Gives-unless, Gives-when, Gives-self, Gives-bind, Option, List,
  Bytes, ℕ, ◌≡◌, ◌<◌, ◌++◌, some, length-replicate, ◌∷◌, suc, if◌then◌else◌, none, ◌*◌,
  get_or-replicate, [], bytes_eq, arith, ◌==◌, Gives-if, Bool-cases, ◌||◌, ltb, not, inl, size_max,
  get_or, inr, ◌/◌, zero, false, ◌∙◌, refl, sym, ap, Bool, leb, codes, ◌&&◌,
}

-- The first of two results.
abbrev or_else {ℓ} : {A : Type ℓ} → Option A → Option A → Option A
or_else (some a) p = some a
or_else none p = p

abbrev shard_in : List Tensor → Bytes → Option Bytes
shard_in ts name = Option.map (λ t. t.shard) (search_entries ts name)

abbrev shard_of_member : Members → Bytes → Option Bytes
shard_of_member ms name = json_string (find_member ms name)

-- An index that is placed, and whose entries give each name the shard that `shards` gives it.
record IsCatalogue (shards : Bytes → Option Bytes) (index : Index) : Type 0 where
  is_placed : IsPlaced index
  agrees : (name : Bytes) → shard_in index.entries name ≡ shards name

double_slots-positive :
    (f slots wanted : ℕ) → 0 < slots → Gives (λ n. 0 < n) (double_slots f slots wanted)
unfolding double_slots
double_slots-positive zero slots wanted p = nothing
double_slots-positive (suc f) slots wanted p =
    let rest = double_slots-positive f (slots * 2) wanted (omega arith) in
    Gives-if (ltb slots wanted) (λ _. Gives-unless (ltb (size_max / 2) slots) (λ _. rest))
      (λ _. gives p)

empty_index-IsPlaced :
    (total_size slot_count : ℕ) → 0 < slot_count → IsPlaced (empty_index total_size slot_count)
empty_index-IsPlaced total_size slot_count p = record {
  table = record {
    width = length-replicate slot_count 0;
    positive = p;
    bounded = λ s. rw (get_or-replicate {A = ℕ} slot_count s 0) (omega arith);
  };
  placed = λ i t e. cc;
}

search_entries-snoc :
    (ts : List Tensor) (t : Tensor) (name : Bytes)
    → shard_in (ts ++ t ∷ []) name
      ≡ or_else (shard_in ts name) (if bytes_eq t.name name then some t.shard else none)
unfolding search_entries
search_entries-snoc [] t name = ground arith
search_entries-snoc (u ∷ ts) t name = elim (Bool-cases (bytes_eq u.name name)) [
  | inl same ↦ rw same refl
  | inr other ↦ rw other (search_entries-snoc ts t name)
]

module _ (index : Index) (name : Bytes) where
  free_slot :
      (find_slot index name == index.slot_count
          || not (get_or index.slots (find_slot index name) 0 == 0))
        ≡ false
      → get_or index.slots (find_slot index name) 0 ≡ 0
  free_slot fine = ground arith

  inside_table :
      IsTable index
      → (find_slot index name == index.slot_count
          || not (get_or index.slots (find_slot index name) 0 == 0))
        ≡ false
      → find_slot index name < index.slot_count
  inside_table is fine = ground (arith, find_slot-le index name is.positive)

-- A new entry at the end gives its name its shard, unless the name had one.
add_entry-grows :
    (index : Index) (name shard : Bytes)
    → IsPlaced index
    → Gives
        (λ next.
          IsPlaced next
          × ((key : Bytes)
              → shard_in next.entries key
                ≡ or_else
                    (shard_in index.entries key)
                    (if bytes_eq name key then some shard else none)))
        (add_entry index name shard)
unfolding add_entry
add_entry-grows index name shard is = Gives-bind (number_shard index shard) λ (id, k) e.
    let slot = find_slot index name in
    Gives-unless (slot == index.slot_count || not (get_or index.slots slot 0 == 0)) λ fine. gives (
      insert_at-IsPlaced index is (new_entry name shard id) k (free_slot index name fine)
          (inside_table index name is.table fine),
      search_entries-snoc index.entries (new_entry name shard id),
    )

or_else-none {ℓ} : {A : Type ℓ} (o : Option A) → or_else o none ≡ o
or_else-none (some a) = refl
or_else-none none = refl

or_else_assoc {ℓ} :
    {A : Type ℓ} (o p q : Option A) → or_else (or_else o p) q ≡ or_else o (or_else p q)
or_else_assoc (some a) p q = refl
or_else_assoc none p q = refl

shard_of_member-member :
    (name : Bytes) (v : Value) (ms : Members) (shard : Bytes)
    → json_string (some v) ≡ some shard
    → (key : Bytes)
    → or_else (if bytes_eq name key then some shard else none) (shard_of_member ms key)
      ≡ shard_of_member (member name v ms) key
unfolding find_member
shard_of_member-member name v ms shard is_string key = elim (Bool-cases (bytes_eq name key)) [
  | inl same ↦ rw same (sym is_string)
  | inr other ↦ rw other refl
]

one_more :
    (ts us : List Tensor) (name : Bytes) (v : Value) (ms : Members) (shard : Bytes)
    → json_string (some v) ≡ some shard
    → (key : Bytes)
    → shard_in us key ≡ or_else (shard_in ts key) (if bytes_eq name key then some shard else none)
    → or_else (shard_in us key) (shard_of_member ms key)
      ≡ or_else (shard_in ts key) (shard_of_member (member name v ms) key)
one_more ts us name v ms shard is_string key e =
    ap (λ o. or_else o (shard_of_member ms key)) e
    ∙ or_else_assoc (shard_in ts key) _ (shard_of_member ms key)
    ∙ ap (or_else (shard_in ts key)) (shard_of_member-member name v ms shard is_string key)

add_entries-IsCatalogue :
    (index : Index) (ms : Members)
    → IsPlaced index
    → Gives
        (IsCatalogue λ name. or_else (shard_in index.entries name) (shard_of_member ms name))
        (add_entries index ms)
unfolding add_entries json_string find_member
add_entries-IsCatalogue index no_members is =
    gives (record {
      is_placed = is;
      agrees = λ name. (sym (or_else-none (shard_in index.entries name)));
    })
add_entries-IsCatalogue index (member name v ms) is =
    Gives-bind (json_string (some v)) λ shard is_string.
      Gives-when (names_are_valid name shard) λ _.
        Gives-bind (add_entry index name shard) λ next step.
          let grown = Gives-some (add_entry-grows index name shard is) step in
          Gives-self (add_entries next ms) λ last done.
            let rest = Gives-some (add_entries-IsCatalogue next ms grown.0) done in
            record {
              is_placed = rest.is_placed;
              agrees = λ key.
                  rest.agrees key
                  ∙ one_more index.entries next.entries name v ms shard is_string key (grown.1 key);
            }

build_index-IsCatalogue :
    (granted : ℕ → Bool) (ms : Members) (count total_size : ℕ)
    → Gives (IsCatalogue (shard_of_member ms)) (build_index granted ms count total_size)
unfolding build_index search_entries
build_index-IsCatalogue granted ms count total_size =
    Gives-bind (double_slots 64 2 (count * 2)) λ slot_count e.
      Gives-when
        (leb slot_count (size_max / 8) && granted (count * tensor_size) && granted (slot_count * 8))
        λ _.
          let positive = Gives-some (double_slots-positive 64 2 (count * 2) (omega arith)) e in
          add_entries-IsCatalogue (empty_index total_size slot_count) ms
            (empty_index-IsPlaced total_size slot_count positive)

members_of-json_object_get :
    (o : Option Value) {ms : Members} (name : Bytes)
    → members_of o ≡ some ms
    → json_object_get o name ≡ find_member ms (c_string name)
unfolding members_of json_object_get
members_of-json_object_get (some (object ns)) name e =
    let same : ns ≡ _ = cc in ap (λ ms. find_member ms (c_string name)) same
members_of-json_object_get (some null) name e = cc
members_of-json_object_get (some (boolean b)) name e = cc
members_of-json_object_get (some (number w)) name e = cc
members_of-json_object_get (some (string w)) name e = cc
members_of-json_object_get (some (array vs)) name e = cc
members_of-json_object_get none name e = cc

load_index-IsCatalogue :
    (granted : ℕ → Bool) (root : Value)
    → Gives
        (λ index.
          IsPlaced index
          × ((name : Bytes)
              → shard_in index.entries (c_string name)
                ≡ json_string
                    (json_object_get (json_object_get (some root) (codes "weight_map")) name)))
        (load_index granted root)
unfolding load_index
load_index-IsCatalogue granted root =
    let map = json_object_get (some root) (codes "weight_map") in
    let metadata = json_object_get (some root) (codes "metadata") in
    Gives-bind (members_of map) λ ms is_map. Gives-when (count_fits (json_object_size map)) λ _.
      Gives-bind (json_number_u64 (json_object_get metadata (codes "total_size"))) λ total _.
        Gives-self (build_index granted ms (json_object_size map) total) λ index done.
          let built =
            Gives-some (build_index-IsCatalogue granted ms (json_object_size map) total) done in
          (
            built.is_placed,
            λ name.
                built.agrees (c_string name)
                ∙ ap json_string (sym (members_of-json_object_get map name is_map)),
          )

pub load_index-IsPlaced :
    (granted : ℕ → Bool) (root : Value) {index : Index}
    → load_index granted root ≡ some index
    → IsPlaced index
load_index-IsPlaced granted root e =
    let catalogue = Gives-some (load_index-IsCatalogue granted root) e in catalogue.0

-- Whatever index a document gives, a lookup of a C string in it finds an entry exactly where
-- `weight_map` maps the string to a string, and the entry's shard is that one.
pub load_index-find_tensor :
    (granted : ℕ → Bool) (root : Value) {index : Index}
    → load_index granted root ≡ some index
    → (name : Bytes)
    → Option.map (λ t. t.shard) (find_tensor index (c_string name))
      ≡ json_string (json_object_get (json_object_get (some root) (codes "weight_map")) name)
load_index-find_tensor granted root {index} e name =
    let catalogue = Gives-some (load_index-IsCatalogue granted root) e in
    ap (Option.map (λ t. t.shard)) (find_tensor-search_entries index catalogue.0 (c_string name))
    ∙ catalogue.1 name
