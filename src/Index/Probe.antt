-- ===== src/Index/Probe.antt =====
-- Proofs on the probing of `find_slot` of src/io/inkling_index.c, and on the write of a new entry
-- to a slot.
use Prim.Native.Nat.{bit_and, bit_and-bitwise, digits, min}
use inkling_in_c.Prelude.{
  ℕ, ◌≤◌, zero, ◌<◌, arith, ◌-◌, suc, ◌/◌, length, Bytes, List, ◌≡◌, ◌++◌, get_or, ◌+◌, ◌⊎◌, inl,
  get_elem?-append, ◌∷◌, ◌≢◌, true, Bool-cases, [], get_or-set, get_elem?-snoc, set, ◌==◌, inr,
  bytes_eq_iff, ==_iff, refl, subst, sym, ◌∙◌, ==_false,
}
use inkling_in_c.Index.Table.{Index, entry_is, probe, find_slot, name_hash}
use inkling_in_c.Safetensors.Header.{Tensor}

and_digits-le : (n a b : ℕ) → digits (λ c. zero) min n a b ≤ b
and_digits-le zero zero b = omega arith
and_digits-le zero (suc a) b = omega arith
and_digits-le (suc n) zero b = omega arith
and_digits-le (suc n) (suc a) b = omega (arith, and_digits-le n (suc a / 2) (b / 2))

-- A masked number is a slot.
pub masked-lt : (a m : ℕ) → 0 < m → bit_and a (m - 1) < m
masked-lt a m h = omega (arith, bit_and-bitwise a (m - 1), and_digits-le a a (m - 1))

-- The table has its width, and each slot names an entry or none.
pub record IsTable (index : Index) : Type 0 where
  pub width : length index.slots ≡ index.slot_count
  pub positive : 0 < index.slot_count
  pub bounded : (s : ℕ) → get_or index.slots s 0 ≤ length index.entries

module _ (index : Index) (name : Bytes) where
  probe-le :
      (n slot : ℕ)
      → 0 < index.slot_count
      → slot < index.slot_count
      → probe index name n slot ≤ index.slot_count
  unfolding probe
  probe-le zero slot p h = omega arith
  probe-le (suc n) slot p h = ground (
    arith,
    probe-le n (bit_and (slot + 1) (index.slot_count - 1)) p
        (masked-lt (slot + 1) index.slot_count p),
  )

  pub find_slot-le : 0 < index.slot_count → find_slot index name ≤ index.slot_count
  unfolding find_slot
  find_slot-le p = probe-le index.slot_count _ p (masked-lt (name_hash name) index.slot_count p)

  -- Where a probe ends: beyond the table, at an empty slot, or at an entry of the name.
  abbrev EndsAt : ℕ → Type 0
  EndsAt slot =
      (slot ≡ index.slot_count)
      ⊎ ((get_or index.slots slot 0 ≡ 0)
          ⊎ (entry_is index.entries (get_or index.slots slot 0 - 1) name ≡ true))

  probe-EndsAt : (n slot : ℕ) → EndsAt (probe index name n slot)
  unfolding probe
  probe-EndsAt zero slot = inl refl
  probe-EndsAt (suc n) slot = elim (Bool-cases (get_or index.slots slot 0 == 0)) [
    | inl empty ↦ rw empty (inr (inl ((==_iff (get_or index.slots slot 0) 0).0 empty)))
    | inr full ↦ elim (Bool-cases (entry_is index.entries (get_or index.slots slot 0 - 1) name)) [
      | inl same ↦ rw (full, same) (inr (inr same))
      | inr other ↦ rw (full, other) (probe-EndsAt n (bit_and (slot + 1) (index.slot_count - 1)))
    ]
  ]

  pub find_slot-EndsAt : EndsAt (find_slot index name)
  unfolding find_slot
  find_slot-EndsAt = probe-EndsAt index.slot_count _

entry_is-append :
    (ts us : List Tensor) (i : ℕ) (name : Bytes)
    → i < length ts
    → entry_is (ts ++ us) i name ≡ entry_is ts i name
unfolding entry_is
entry_is-append ts us i name h = rw (get_elem?-append ts us i h, entry_is) refl

entry_is-snoc :
    (ts : List Tensor) (t : Tensor) (i : ℕ)
    → i ≡ length ts
    → entry_is (ts ++ t ∷ []) i t.name ≡ true
unfolding entry_is
entry_is-snoc ts t i e = rw (e, get_elem?-snoc ts t, entry_is) ((bytes_eq_iff t.name t.name).1 refl)

-- A new entry `t` is written to the empty slot `s`, and there are `k` shards then.
abbrev pub insert_at : Index → ℕ → Tensor → ℕ → Index
insert_at index s t k = record index {
  entries = index.entries ++ t ∷ [];
  slots = set index.slots s (length index.entries + 1);
  num_shards = k;
}

module _ (index : Index) (table : IsTable index) (s : ℕ) (t : Tensor) (k : ℕ)
    (inside : s < index.slot_count) (free : get_or index.slots s 0 ≡ 0) where
  abbrev next_index : Index
  next_index = insert_at index s t k

  pub kept_slot :
      (i : ℕ) → get_or index.slots i 0 ≢ 0 → get_or next_index.slots i 0 ≡ get_or index.slots i 0
  kept_slot i full =
      ground (arith, table.width, get_or-set index.slots s i (length index.entries + 1) 0)

  pub new_slot : get_or next_index.slots s 0 ≡ length index.entries + 1
  new_slot = ground (arith, table.width, get_or-set index.slots s s (length index.entries + 1) 0)

  kept_entry :
      (i : ℕ) (name : Bytes)
      → get_or index.slots i 0 ≢ 0
      → entry_is next_index.entries (get_or index.slots i 0 - 1) name
        ≡ entry_is index.entries (get_or index.slots i 0 - 1) name
  kept_entry i name full =
      entry_is-append index.entries (t ∷ []) (get_or index.slots i 0 - 1) name
        (omega (arith, table.bounded i))

  -- A probe that found an entry finds it still.
  pub probe_kept :
      (name : Bytes) (n slot : ℕ)
      → get_or index.slots (probe index name n slot) 0 ≢ 0
      → probe next_index name n slot ≡ probe index name n slot
  unfolding probe
  probe_kept name zero slot found = refl
  probe_kept name (suc n) slot found =
      let again = bit_and (slot + 1) (index.slot_count - 1) in
      elim (Bool-cases (get_or index.slots slot 0 == 0)) [
        | inl empty ↦
            absurd ((rw (empty, probe) at found) ((==_iff (get_or index.slots slot 0) 0).0 empty))
        | inr full ↦
            let taken = ==_false full in
            elim (Bool-cases (entry_is index.entries (get_or index.slots slot 0 - 1) name)) [
              | inl same ↦ rw (kept_slot slot taken, full, kept_entry slot name taken, same) refl
              | inr other ↦
                  rw (kept_slot slot taken, full, kept_entry slot name taken, other)
                    (probe_kept name n again (rw (full, other, probe) at found))
            ]
      ]

  same_here : entry_is next_index.entries (get_or next_index.slots s 0 - 1) t.name ≡ true
  same_here =
      entry_is-snoc index.entries t (get_or next_index.slots s 0 - 1) (omega (arith, new_slot))

  found_here : (n : ℕ) → probe next_index t.name (suc n) s ≡ s
  unfolding probe
  found_here n = elim (Bool-cases (get_or next_index.slots s 0 == 0)) [
    | inl empty ↦ rw empty refl
    | inr full ↦ rw (full, same_here) refl
  ]

  -- A probe for the new name that ended at the free slot ends there still.
  pub probe_new : (n slot : ℕ) → probe index t.name n slot ≡ s → probe next_index t.name n slot ≡ s
  unfolding probe
  probe_new zero slot ends = ends
  probe_new (suc n) slot ends =
      let again = bit_and (slot + 1) (index.slot_count - 1) in
      elim (Bool-cases (get_or index.slots slot 0 == 0)) [
        | inl empty ↦
            subst (λ x. probe next_index t.name (suc n) x ≡ x) (sym (rw (empty, probe) at ends))
              (found_here n)
            ∙ rw (empty, probe) at ends
        | inr full ↦
            let taken = ==_false full in
            elim (Bool-cases (entry_is index.entries (get_or index.slots slot 0 - 1) t.name)) [
              | inl same ↦ absurd (
                  taken (
                    subst (λ x. get_or index.slots x 0 ≡ 0) (sym (rw (full, same, probe) at ends))
                      free))
              | inr other ↦
                  rw (kept_slot slot taken, full, kept_entry slot t.name taken, other)
                    (probe_new n again (rw (full, other, probe) at ends))
            ]
      ]
