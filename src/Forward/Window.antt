-- ===== src/Forward/Window.antt =====
-- The rows of keys and values of a layer in src/model/inkling_forward.c: the capacity of
-- `sequence_create`, and the rows that `token_attention` writes and reads.
use inkling_in_c.Prelude.{
  ℕ, List, ◌%◌, Option, if◌then◌else◌, not, ltb, set, get_elem?, ◌+◌, ◌==◌, ◌&&◌, ◌-◌, ◌∷◌, [],
}

-- `InklingLayerState`, a row for each slot. The histories of the convolutions are left out.
pub record LayerState (R : Type 0) : Type 0 where
  pub capacity : ℕ
  pub keys : List R
  pub values : List R

-- `state->capacity` in `sequence_create`
unfoldable pub state_capacity : ℕ → ℕ → ℕ
state_capacity window capacity =
    if not (window == 0) && ltb window capacity then window else capacity

-- The first position that a token attends to.
unfoldable pub window_start : ℕ → ℕ → ℕ
window_start position capacity = if ltb capacity (position + 1) then position + 1 - capacity else 0

module _ {R : Type 0} where
  -- The two copies into the slot of a position.
  unfoldable pub store_row : LayerState R → ℕ → R → R → LayerState R
  store_row state position key value =
      let slot = position % state.capacity in
      record state { keys = set state.keys slot key; values = set state.values slot value }

  -- The rows that stand for a position.
  unfoldable pub key_row : LayerState R → ℕ → Option R
  key_row state s = get_elem? state.keys (s % state.capacity)

  unfoldable pub value_row : LayerState R → ℕ → Option R
  value_row state s = get_elem? state.values (s % state.capacity)

  -- The tokens of a sequence from a position on, one after the other.
  unfoldable pub store_rows : LayerState R → ℕ → List (R × R) → LayerState R
  store_rows state position [] = state
  store_rows state position (row ∷ rows) =
      store_rows (store_row state position row.0 row.1) (position + 1) rows
