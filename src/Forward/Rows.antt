-- ===== src/Forward/Rows.antt =====
-- Proofs on the rows of keys and values of a layer in src/model/inkling_forward.c.
use native.Mathlib.Nat.{mod-lt, mod-add-mod, mod-eq_of_lt, mod-eq-sub-mod}
use inkling_in_c.Forward.Window.{
  LayerState, window_start, store_row, store_rows, key_row, value_row,
}
use inkling_in_c.Prelude.{
  ℕ, List, ◌<◌, length, ◌+◌, ◌≡◌, ◌++◌, ◌%◌, get_elem?, ◌∷◌, subst, ◌≢◌, some, [], sym, arith, ◌-◌,
  ◌≤◌, length-set, append-nil, ◌∙◌, ap, length-append, Bool-cases, append_assoc, ltb, inl, ltb→lt,
  inr, snoc-cases, get_elem?-set_ne, set, get_elem?-set_self, refl,
}

-- Two positions less than the capacity apart stand in different slots.
slots-differ : (s d c : ℕ) → 0 < d → d < c → (s + d) % c ≢ s % c
slots-differ s d c p l e =
    let r = s % c in
    let low : r < c = mod-lt s (omega arith) in
    let shifted : (r + d) % c ≡ r = mod-add-mod s c d ∙ e in
    elim (Bool-cases (ltb (r + d) c)) [
      | inl h ↦ omega (arith, shifted, mod-eq_of_lt {n = r + d} {m = c} (ltb→lt (r + d) c h))
      | inr h ↦
          let high : c ≤ r + d = ground arith in
          omega (
            arith,
            shifted,
            mod-eq-sub-mod {n = r + d} {m = c} high,
            mod-eq_of_lt {n = r + d - c} {m = c} (omega (arith, low, high)),
          )
    ]

slots_apart : (s n c : ℕ) → s < n → n < s + c → n % c ≢ s % c
slots_apart s n c l h e =
    let same : s + (n - s) ≡ n = omega arith in
    slots-differ s (n - s) c (omega arith) (omega arith) (ap (λ k. k % c) same ∙ e)

attended_last :
    (position s capacity : ℕ) → window_start position capacity ≤ s → position + 1 ≤ s + capacity
unfolding window_start
attended_last position s capacity h = ground arith

module _ {R : Type 0} where
  -- The slots hold the last rows of those that were stored, each in the slot of its position.
  record Holds (state : LayerState R) (rows : List (R × R)) : Type 0 where
    room : 0 < state.capacity
    keys_fit : length state.keys ≡ state.capacity
    values_fit : length state.values ≡ state.capacity
    stands :
        (s : ℕ) (row : R × R)
        → get_elem? rows s ≡ some row
        → length rows ≤ s + state.capacity
        → (key_row state s ≡ some row.0) × (value_row state s ≡ some row.1)

  store_row-Holds :
      (state : LayerState R) (rows : List (R × R)) (key value : R)
      → Holds state rows
      → Holds (store_row state (length rows) key value) (rows ++ (key, value) ∷ [])
  unfolding store_row key_row value_row
  store_row-Holds state rows key value h =
      let slot = length rows % state.capacity in
      let inside : slot < state.capacity = mod-lt (length rows) h.room in
      let longer : length (rows ++ (key, value) ∷ []) ≡ length rows + 1 =
        length-append rows ((key, value) ∷ []) in
      record {
        room = h.room;
        keys_fit = length-set state.keys (length rows % state.capacity) key ∙ h.keys_fit;
        values_fit = length-set state.values (length rows % state.capacity) value ∙ h.values_fit;
        stands = λ s row e l. elim (snoc-cases rows (key, value) s e) [
          | inl (earlier, old) ↦
              let apart =
                slots_apart s (length rows) state.capacity earlier (omega (arith, longer)) in
              let (k, v) = h.stands s row old (omega (arith, longer)) in
              (
                get_elem?-set_ne state.keys key apart ∙ k,
                get_elem?-set_ne state.values value apart ∙ v,
              )
          | inr (here, same) ↦ (
            ap (λ n. get_elem? (set state.keys slot key) (n % state.capacity)) here
                ∙ get_elem?-set_self state.keys slot key (omega (arith, h.keys_fit))
                ∙ ap (λ r. some r.0) same,
            ap (λ n. get_elem? (set state.values slot value) (n % state.capacity)) here
                ∙ get_elem?-set_self state.values slot value (omega (arith, h.values_fit))
                ∙ ap (λ r. some r.1) same,
          )
        ];
      }

  store_rows-Holds :
      (state : LayerState R) (stored rows : List (R × R))
      → Holds state stored
      → Holds (store_rows state (length stored) rows) (stored ++ rows)
  unfolding store_rows
  store_rows-Holds state stored [] h = subst (Holds state) (sym (append-nil stored)) h
  store_rows-Holds state stored (row ∷ rows) h =
      let more = stored ++ row ∷ [] in
      let longer : length more ≡ length stored + 1 = length-append stored (row ∷ []) in
      let next = store_row state (length stored) row.0 row.1 in
      subst (λ n. Holds (store_rows next n rows) (stored ++ row ∷ rows)) longer
        (subst (Holds (store_rows next (length more) rows)) (append_assoc stored (row ∷ []) rows)
          (store_rows-Holds next more rows (store_row-Holds state stored row.0 row.1 h)))

  store_rows-capacity :
      (state : LayerState R) (position : ℕ) (rows : List (R × R))
      → (store_rows state position rows).capacity ≡ state.capacity
  unfolding store_rows store_row
  store_rows-capacity state position [] = refl
  store_rows-capacity state position (row ∷ rows) =
      store_rows-capacity (store_row state position row.0 row.1) (position + 1) rows

  -- After the tokens of a sequence from its start on, the slot of each position that the last of them
  -- attends to holds the rows that were stored for this position, although the slots are reused: no row
  -- that is read is one of an older position or of an older sequence.
  pub store_rows-key_row :
      (state : LayerState R) (rows : List (R × R)) (position s : ℕ) (row : R × R)
      → 0 < state.capacity
      → length state.keys ≡ state.capacity
      → length state.values ≡ state.capacity
      → length rows ≡ position + 1
      → window_start position state.capacity ≤ s
      → get_elem? rows s ≡ some row
      → (key_row (store_rows state 0 rows) s ≡ some row.0)
        × (value_row (store_rows state 0 rows) s ≡ some row.1)
  store_rows-key_row state rows position s row room k v l start e =
      let fresh : Holds state [] = record {
        room = room;
        keys_fit = k;
        values_fit = v;
        stands = λ s row e l. cc;
      } in
      let held = store_rows-Holds state [] rows fresh in
      held.stands s row e (
        omega (
          arith,
          l,
          attended_last position s state.capacity start,
          store_rows-capacity state 0 rows,
        ))
