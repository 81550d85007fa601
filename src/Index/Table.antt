-- ===== src/Index/Table.antt =====
-- `InklingIndex`, `name_hash`, `find_slot`, `inkling_index_find_tensor` and
-- `inkling_index_find_shard` of src/io/inkling_index.c.
use Prim.Native.Nat.{bit_and, bit_xor}
use inkling_in_c.Prelude.{
  List, ℕ, Bytes, ◌∷◌, Option, suc, Bool, get_or, bind, if◌then◌else◌, get_elem?, leb, ◌==◌, none,
  length, false, some, ◌||◌, bytes_eq, ◌*◌, ◌+◌, ◌-◌, ◌%◌, zero, ◌^◌, [],
}
use inkling_in_c.Safetensors.Header.{Tensor}

-- A slot holds the place of an entry plus 1, or 0. `entries` is the array up to the entries that are
-- filled in, and `count` is its length.
pub record Index : Type 0 where
  pub entries : List Tensor
  pub total_size : ℕ
  pub slots : List ℕ
  pub slot_count : ℕ
  pub num_shards : ℕ

-- The loop of `name_hash` (FNV-1a), over the bytes before the NUL.
hash_from : ℕ → Bytes → ℕ
hash_from hash [] = hash
hash_from hash (c ∷ cs) = hash_from (bit_xor hash c * 1099511628211 % 2 ^ 64) cs

unfoldable pub name_hash : Bytes → ℕ
unfolding hash_from
name_hash name = hash_from 14695981039346656037 name

-- `strcmp(index->entries[i].name, name) == 0`
unfoldable pub entry_is : List Tensor → ℕ → Bytes → Bool
entry_is entries i name = elim (get_elem? entries i) [
  | none ↦ false
  | some t ↦ bytes_eq t.name name
]

-- The loop of `find_slot`, with so many probes left.
unfoldable pub probe : Index → Bytes → ℕ → ℕ → ℕ
probe index name zero slot = index.slot_count
probe index name (suc n) slot =
    let entry = get_or index.slots slot 0 in
    let rest = probe index name n (bit_and (slot + 1) (index.slot_count - 1)) in
    if entry == 0 then slot else if entry_is index.entries (entry - 1) name then slot else rest

unfoldable pub find_slot : Index → Bytes → ℕ
find_slot index name =
    probe index name index.slot_count (bit_and (name_hash name) (index.slot_count - 1))

-- The place of the entry in the array; `none` is the result NULL.
unfoldable pub find_place : Index → Bytes → Option ℕ
find_place index name =
    if index.slot_count == 0
    then none
    else let slot = find_slot index name in
      let entry = get_or index.slots slot 0 in
      if slot == index.slot_count || entry == 0 then none else some (entry - 1)

-- `inkling_index_find_tensor`, with arguments that are not NULL.
unfoldable pub find_tensor : Index → Bytes → Option Tensor
find_tensor index name = bind (find_place index name) (get_elem? index.entries)

-- `inkling_index_find_shard`, with an output that is not NULL.
unfoldable pub find_shard : Index → Bytes → ℕ → Option Bytes
find_shard index name output_size =
    bind (find_tensor index name)
      λ t. if leb output_size (length t.shard) then none else some t.shard
