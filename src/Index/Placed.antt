-- ===== src/Index/Placed.antt =====
-- The hash table of src/io/inkling_index.c as a catalogue: the invariant of its slots, and the
-- search of the array as the specification of a lookup.
use inkling_in_c.Index.Table.{Index, entry_is, find_slot, find_place, find_tensor}
use inkling_in_c.Index.Probe.{
  IsTable, insert_at, probe_kept, probe_new, kept_slot, find_slot-EndsAt, new_slot,
}
use inkling_in_c.Safetensors.Header.{Tensor}
use inkling_in_c.Prelude.{
  ℕ, List, Bytes, get_elem?, get_or, Option, inr, ◌≡◌, some, ◌<◌, none, ◌∷◌, zero, suc, ◌≢◌, subst,
  refl, sym, ◌-◌, length-set, snoc-cases, ◌⊎◌, Bool-cases, arith, if◌then◌else◌, length, bytes_eq,
  false, get_or_beyond, inl, ◌+◌, bytes_eq_iff, [], ◌∙◌, length-append, get_or-set,
}

pub record IsPlaced (index : Index) : Type 0 where
  pub table : IsTable index
  pub placed :
      (i : ℕ) (t : Tensor)
      → get_elem? index.entries i ≡ some t
      → get_or index.slots (find_slot index t.name) 0 ≡ suc i

module _ (index : Index) (is : IsPlaced index) (t : Tensor) (k : ℕ)
    (free : get_or index.slots (find_slot index t.name) 0 ≡ 0)
    (inside : find_slot index t.name < index.slot_count) where
  abbrev next_index : Index
  next_index = insert_at index (find_slot index t.name) t k

  next_index-IsTable : IsTable next_index
  next_index-IsTable = record {
    width =
        length-set index.slots (find_slot index t.name) (length index.entries + 1) ∙ is.table.width;
    positive = is.table.positive;
    bounded = λ s. ground (
      arith,
      is.table.bounded s,
      length-append index.entries (t ∷ []),
      get_or-set index.slots (find_slot index t.name) s (length index.entries + 1) 0,
    );
  }

  find_slot_kept :
      (name : Bytes)
      → get_or index.slots (find_slot index name) 0 ≢ 0
      → find_slot next_index name ≡ find_slot index name
  unfolding find_slot
  find_slot_kept name full =
      probe_kept index is.table (find_slot index t.name) t k inside free name index.slot_count _
        full

  find_slot_new : find_slot next_index t.name ≡ find_slot index t.name
  unfolding find_slot
  find_slot_new =
      probe_new index is.table (find_slot index t.name) t k inside free index.slot_count _ refl

  insert_at-placed :
      (i : ℕ) (u : Tensor)
      → get_elem? next_index.entries i ≡ some u
      → get_or next_index.slots (find_slot next_index u.name) 0 ≡ suc i
  insert_at-placed i u at_i = elim (snoc-cases index.entries t i at_i) [
    | inl (_, old) ↦
        let here = is.placed i u old in
        let full : get_or index.slots (find_slot index u.name) 0 ≢ 0 =
          λ e. omega (arith, here, e) in
        rw (find_slot_kept u.name full) (
          kept_slot index is.table (find_slot index t.name) t k inside free (find_slot index u.name)
            full
          ∙ here)
    | inr (last, same) ↦
        let one_more : length index.entries + 1 ≡ suc i = omega (arith, last) in
        rw (sym same, find_slot_new)
          (new_slot index is.table (find_slot index t.name) t k inside free ∙ one_more)
  ]

  pub insert_at-IsPlaced : IsPlaced next_index
  insert_at-IsPlaced = record { table = next_index-IsTable; placed = insert_at-placed }

-- The specification of a lookup: the first entry of the name.
unfoldable pub search_entries : List Tensor → Bytes → Option Tensor
search_entries [] name = none
search_entries (t ∷ ts) name = if bytes_eq t.name name then some t else search_entries ts name

-- What a search of the array comes to.
abbrev SearchesAs : List Tensor → Bytes → Type 0
SearchesAs ts name =
    ((i : ℕ) × (t : Tensor) × (get_elem? ts i ≡ some t)
      × (t.name ≡ name)
      × (search_entries ts name ≡ some t))
    ⊎ (((i : ℕ) → entry_is ts i name ≡ false) × (search_entries ts name ≡ none))

no_entry_here :
    (ts : List Tensor) (t : Tensor) (name : Bytes)
    → bytes_eq t.name name ≡ false
    → ((i : ℕ) → entry_is ts i name ≡ false)
    → (i : ℕ) → entry_is (t ∷ ts) i name ≡ false
unfolding entry_is
no_entry_here ts t name other rest zero = other
no_entry_here ts t name other rest (suc i) = rest i

search_entries-cases : (ts : List Tensor) (name : Bytes) → SearchesAs ts name
unfolding search_entries entry_is
search_entries-cases [] name = inr ((λ i. refl), refl)
search_entries-cases (t ∷ ts) name = elim (Bool-cases (bytes_eq t.name name)) [
  | inl same ↦ inl (0, t, refl, (bytes_eq_iff t.name name).0 same, rw same refl)
  | inr other ↦ elim (search_entries-cases ts name) [
    | inl (i, u, at_i, e, found) ↦ inl (suc i, u, at_i, e, rw other found)
    | inr (no_entry, missing) ↦ inr (no_entry_here ts t name other no_entry, rw other missing)
  ]
]

module _ (index : Index) (is : IsPlaced index) (name : Bytes) where
  find_place-none : get_or index.slots (find_slot index name) 0 ≡ 0 → find_place index name ≡ none
  unfolding find_place
  find_place-none e = ground arith

  pub find_place-some :
      (i : ℕ) → get_or index.slots (find_slot index name) 0 ≡ suc i → find_place index name ≡ some i
  unfolding find_place
  find_place-some i e =
      ground (
        arith,
        is.table.positive,
        is.table.width,
        get_or_beyond index.slots (find_slot index name) 0,
      )

  stops_empty :
      ((i : ℕ) → entry_is index.entries i name ≡ false)
      → get_or index.slots (find_slot index name) 0 ≡ 0
  stops_empty no_entry = elim (find_slot-EndsAt index name) [
    | inl beyond ↦
        get_or_beyond index.slots (find_slot index name) 0 (omega (arith, beyond, is.table.width))
    | inr (inl empty) ↦ empty
    | inr (inr same) ↦
        let other = no_entry (get_or index.slots (find_slot index name) 0 - 1) in ground arith
  ]

  -- In an index whose slots place each entry at the slot that the probe for its name finds,
  -- `inkling_index_find_tensor` gives what a search of the array for the name gives: the first
  -- entry of the name, or nothing where no entry has it.
  pub find_tensor-search_entries : find_tensor index name ≡ search_entries index.entries name
  unfolding find_tensor
  find_tensor-search_entries = elim (search_entries-cases index.entries name) [
    | inl (i, t, at_i, same, found) ↦
        rw
          (find_place-some i (
            subst (λ n. get_or index.slots (find_slot index n) 0 ≡ suc i) same
              (is.placed i t at_i)))
          (at_i ∙ sym found)
    | inr (no_entry, missing) ↦ rw (find_place-none (stops_empty no_entry)) (sym missing)
  ]

  pub find_tensor-place :
      {t : Tensor}
      → find_tensor index name ≡ some t
      → (i : ℕ) × (get_elem? index.entries i ≡ some t)
        × (t.name ≡ name)
        × (get_or index.slots (find_slot index name) 0 ≡ suc i)
  find_tensor-place {t} e = elim (search_entries-cases index.entries name) [
    | inl (i, u, at_i, same, found) ↦
        let is_u : u ≡ t = cc (e, found, find_tensor-search_entries) in
        let slot =
          subst (λ n. get_or index.slots (find_slot index n) 0 ≡ suc i) same (is.placed i u at_i) in
        (i, rw (sym is_u) at_i, rw (sym is_u) same, slot)
    | inr (_, missing) ↦
        let none_is : none ≡ some t = sym missing ∙ sym find_tensor-search_entries ∙ e in cc
  ]

  pub find_place-cases :
      ((i : ℕ) × (t : Tensor) × (get_elem? index.entries i ≡ some t)
        × (t.name ≡ name)
        × (find_place index name ≡ some i))
      ⊎ (find_place index name ≡ none)
  find_place-cases = elim (search_entries-cases index.entries name) [
    | inl (i, t, at_i, same, found) ↦
        let slot =
          subst (λ n. get_or index.slots (find_slot index n) 0 ≡ suc i) same (is.placed i t at_i) in
        inl (i, t, at_i, same, find_place-some i slot)
    | inr (no_entry, missing) ↦ inr (find_place-none (stops_empty no_entry))
  ]
