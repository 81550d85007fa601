-- ===== src/Index/Numbered.antt =====
-- The numbers that `inkling_index_load` of src/io/inkling_index.c gives to the shards.
use inkling_in_c.Index.Table.{Index, find_slot}
use inkling_in_c.Index.Load.{
  known_shard, number_shard, new_entry, add_entry, add_entries, empty_index, build_index,
  load_index, members_of, names_are_valid, count_fits, double_slots,
}
use inkling_in_c.Safetensors.Header.{Tensor, tensor_size}
use inkling_in_c.Json.Value.{Members, Value, member, no_members}
use inkling_in_c.Json.Access.{json_string, json_object_get, json_object_size, json_number_u64}
use inkling_in_c.Prelude.{
  get_elem?, ℕ, Bytes, List, ◌≡◌, ◌≤◌, bytes_eq, Gives, some, ◌<◌, false, none, Option-cases, ◌↔◌,
  ◌∷◌, ◌≢◌, inr, Bool-cases, bytes_eq_iff, gives, ap, arith, inl, suc, subst, [], ◌∙◌, refl, zero,
  sym, Gives-unless, ◌==◌, ◌^◌, ◌-◌, Gives-bind, Bool, Gives-some, Gives-when, codes, ◌||◌, ◌*◌,
  not, leb, get_or, size_max, snoc-cases, ◌/◌, ◌&&◌,
}

-- Each entry's number is below the count of shards, and two entries have one number exactly where they
-- have one shard.
pub record IsNumbered (index : Index) : Type 0 where
  pub counted :
      (i : ℕ) (t : Tensor) → get_elem? index.entries i ≡ some t → t.shard_id < index.num_shards
  pub exact :
      (i j : ℕ) (t u : Tensor)
      → get_elem? index.entries i ≡ some t
      → get_elem? index.entries j ≡ some u
      → (t.shard ≡ u.shard) ↔ (t.shard_id ≡ u.shard_id)

-- What a number for a shard is, with the count after it.
record IsNumber (index : Index) (shard : Bytes) (id count : ℕ) : Type 0 where
  grows : index.num_shards ≤ count
  is_below : id < count
  agrees :
      (i : ℕ) (t : Tensor)
      → get_elem? index.entries i ≡ some t
      → (t.shard ≡ shard) ↔ (t.shard_id ≡ id)

known_shard-at :
    (ts : List Tensor) (shard : Bytes) {id : ℕ}
    → known_shard ts shard ≡ some id
    → (i : ℕ) × (t : Tensor) × (get_elem? ts i ≡ some t) × (t.shard ≡ shard) × (t.shard_id ≡ id)
unfolding known_shard
known_shard-at [] shard e = cc
known_shard-at (t ∷ ts) shard {id} e = elim (Bool-cases (bytes_eq t.shard shard)) [
  | inl same ↦
      let here = rw (same, known_shard) at e in
      let number : t.shard_id ≡ id = cc in (0, t, refl, (bytes_eq_iff t.shard shard).0 same, number)
  | inr other ↦
      let (i, u, at_i, same, number) = known_shard-at ts shard (rw (other, known_shard) at e) in
      (suc i, u, at_i, same, number)
]

absent_from :
    (ts : List Tensor) (u : Tensor) (shard : Bytes) (i : ℕ) (t : Tensor)
    → bytes_eq u.shard shard ≡ false
    → ((j : ℕ) (v : Tensor) → get_elem? ts j ≡ some v → v.shard ≢ shard)
    → get_elem? (u ∷ ts) i ≡ some t
    → t.shard ≢ shard
absent_from ts u shard zero t other rest e h =
    let same : u ≡ t = cc in
    let same_shard : u.shard ≡ shard = ap (λ (x : Tensor). x.shard) same ∙ h in
    ground (arith, (bytes_eq_iff u.shard shard).1 same_shard, other)
absent_from ts u shard (suc i) t other rest e h = rest i t e h

known_shard-absent :
    (ts : List Tensor) (shard : Bytes)
    → known_shard ts shard ≡ none
    → (i : ℕ) (t : Tensor) → get_elem? ts i ≡ some t
    → t.shard ≢ shard
unfolding known_shard
known_shard-absent [] shard e i t at_i = cc
known_shard-absent (u ∷ ts) shard e i t at_i = elim (Bool-cases (bytes_eq u.shard shard)) [
  | inl same ↦ let never = rw (same, known_shard) at e in cc
  | inr other ↦
      absent_from ts u shard i t other (known_shard-absent ts shard (rw (other, known_shard) at e))
        at_i
]

number_shard-IsNumber :
    (index : Index) (shard : Bytes)
    → IsNumbered index
    → Gives (λ (id, count). IsNumber index shard id count) (number_shard index shard)
unfolding number_shard
number_shard-IsNumber index shard is = elim (Option-cases (known_shard index.entries shard)) [
  | inr (id, e) ↦
      let (j, u, at_j, same, number) = known_shard-at index.entries shard e in
      rw (e, number_shard)
        (gives (record {
          grows = omega arith;
          is_below = subst (λ n. n < index.num_shards) number (is.counted j u at_j);
          agrees = λ i t at_i.
              let (there, back) = is.exact i j t u at_i at_j in
              ((λ h. there (h ∙ sym same) ∙ number), (λ h. back (h ∙ sym number) ∙ same));
        }))
  | inl e ↦
      rw (e, number_shard)
        (Gives-unless (index.num_shards == 2 ^ 32 - 1) λ _. gives (record {
          grows = omega arith;
          is_below = omega arith;
          agrees = λ i t at_i. (
            (λ h. absurd (known_shard-absent index.entries shard e i t at_i h)),
            (λ h. absurd (omega (arith, is.counted i t at_i, h))),
          );
        }))
]

add_entry-IsNumbered :
    (index : Index) (name shard : Bytes)
    → IsNumbered index
    → Gives IsNumbered (add_entry index name shard)
unfolding add_entry
add_entry-IsNumbered index name shard is = Gives-bind (number_shard index shard) λ (id, count) e.
    let slot = find_slot index name in
    let number = Gives-some (number_shard-IsNumber index shard is) e in
    let added = new_entry name shard id in
    Gives-unless (slot == index.slot_count || not (get_or index.slots slot 0 == 0)) λ _.
      gives (record {
        counted = λ i t at_i. elim (snoc-cases index.entries added i at_i) [
          | inl (_, old) ↦ omega (arith, is.counted i t old, number.grows)
          | inr (_, same) ↦ subst (λ (x : Tensor). x.shard_id < count) same number.is_below
        ];
        exact = λ i j t u at_i at_j. elim (snoc-cases index.entries added i at_i) [
          | inl (_, old) ↦ elim (snoc-cases index.entries added j at_j) [
            | inl (_, old') ↦ is.exact i j t u old old'
            | inr (_, same') ↦
                subst (λ (x : Tensor). (t.shard ≡ x.shard) ↔ (t.shard_id ≡ x.shard_id)) same'
                  (number.agrees i t old)
          ]
          | inr (_, same) ↦ elim (snoc-cases index.entries added j at_j) [
            | inl (_, old') ↦
                let (there, back) = number.agrees j u old' in
                subst (λ (x : Tensor). (x.shard ≡ u.shard) ↔ (x.shard_id ≡ u.shard_id)) same
                  ((λ h. sym (there (sym h))), (λ h. sym (back (sym h))))
            | inr (_, same') ↦
                let equal : t ≡ u = sym same ∙ same' in
                (
                  (λ h. ap (λ (x : Tensor). x.shard_id) equal),
                  (λ h. ap (λ (x : Tensor). x.shard) equal),
                )
          ]
        ];
      })

add_entries-IsNumbered :
    (index : Index) (ms : Members) → IsNumbered index → Gives IsNumbered (add_entries index ms)
unfolding add_entries
add_entries-IsNumbered index no_members is = gives is
add_entries-IsNumbered index (member name v ms) is = Gives-bind (json_string (some v)) λ shard _.
    Gives-when (names_are_valid name shard) λ _. Gives-bind (add_entry index name shard) λ next e.
      add_entries-IsNumbered next ms (Gives-some (add_entry-IsNumbered index name shard is) e)

load_index-Gives : (granted : ℕ → Bool) (root : Value) → Gives IsNumbered (load_index granted root)
unfolding load_index build_index
load_index-Gives granted root =
    let map = json_object_get (some root) (codes "weight_map") in
    let metadata = json_object_get (some root) (codes "metadata") in
    let count = json_object_size map in
    Gives-bind (members_of map) λ ms _. Gives-when (count_fits count) λ _.
      Gives-bind (json_number_u64 (json_object_get metadata (codes "total_size"))) λ total _.
        Gives-bind (double_slots 64 2 (count * 2)) λ slot_count _.
          Gives-when
            (leb slot_count (size_max / 8)
              && granted (count * tensor_size)
              && granted (slot_count * 8))
            λ _.
              add_entries-IsNumbered (empty_index total slot_count) ms
                (record { counted = λ i t e. cc; exact = λ i j t u e f. cc })

-- In whatever index a document gives, each entry's shard number is below the count of shards, and two
-- entries have one number exactly where they have one shard.
pub load_index-IsNumbered :
    (granted : ℕ → Bool) (root : Value) {index : Index}
    → load_index granted root ≡ some index
    → IsNumbered index
load_index-IsNumbered granted root e = Gives-some (load_index-Gives granted root) e
