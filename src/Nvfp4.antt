-- ===== src/Nvfp4.antt =====
-- src/core/inkling_nvfp4.c: where the blocks of a packed NVFP4 tensor stand, and its scales.
pub mod Inside
mod Tests
use inkling_in_c.Prelude.{
  ℕ, Bool, Option, not, ◌&&◌, leb, if◌then◌else◌, ◌%◌, bind, ◌-◌, ◌==◌, size_max, ◌/◌, ltb, some,
  none,
}
use inkling_in_c.Alloc.{size_add, size_mul}

-- The three dimensions of a tensor: experts, rows and columns.
pub record Shape : Type 0 where
  pub experts : ℕ
  pub rows : ℕ
  pub columns : ℕ

-- `InklingNvfp4Layout`
pub record Layout : Type 0 where
  pub experts : ℕ
  pub rows : ℕ
  pub columns : ℕ
  pub packed_bytes : ℕ
  pub scale_bytes : ℕ
  pub scale2_bytes : ℕ

-- `InklingNvfp4Offsets`
pub record Offsets : Type 0 where
  pub packed : ℕ
  pub scale : ℕ
  pub scale2 : ℕ

-- The tests of the loop on one axis, with the divisors of the packed and of the scale dimension.
abbrev pub axis_fits : ℕ → ℕ → ℕ → ℕ → ℕ → Bool
axis_fits packing block original packed scale =
    not (original == 0)
    && leb original size_max
    && packed == original / packing
    && scale == original / block

abbrev pub shapes_fit : Shape → Shape → Shape → ℕ → Bool
shapes_fit original packed scales scale2_count =
    axis_fits 1 1 original.experts packed.experts scales.experts
    && axis_fits 1 1 original.rows packed.rows scales.rows
    && axis_fits 2 16 original.columns packed.columns scales.columns
    && original.columns % 16 == 0
    && scale2_count == original.experts

-- `inkling_nvfp4_layout`, with pointers that are not NULL.
unfoldable pub nvfp4_layout : Shape → Shape → Shape → ℕ → Option Layout
nvfp4_layout original packed scales scale2_count =
    if shapes_fit original packed scales scale2_count
    then (bind (size_mul original.experts original.rows) λ total_rows.
        bind (size_mul total_rows (original.columns / 2)) λ packed_bytes.
          bind (size_mul original.experts 4) λ scale2_bytes. some (record {
            experts = original.experts;
            rows = original.rows;
            columns = original.columns;
            packed_bytes = packed_bytes;
            scale_bytes = packed_bytes / 8;
            scale2_bytes = scale2_bytes;
          }))
    else none

-- The coordinates lie inside the layout.
abbrev pub is_inside : Layout → ℕ → ℕ → ℕ → Bool
is_inside layout expert row block =
    not (layout.columns == 0)
    && layout.columns % 16 == 0
    && ltb expert layout.experts
    && ltb row layout.rows
    && ltb block (layout.columns / 16)

-- The last tests, of the offsets against the sizes.
abbrev pub offsets_fit : Layout → Offsets → Bool
offsets_fit layout at =
    leb 8 layout.packed_bytes
    && leb at.packed (layout.packed_bytes - 8)
    && ltb at.scale layout.scale_bytes
    && leb 4 layout.scale2_bytes
    && leb at.scale2 (layout.scale2_bytes - 4)

-- `inkling_nvfp4_offsets`, with pointers that are not NULL.
unfoldable pub nvfp4_offsets : Layout → ℕ → ℕ → ℕ → Option Offsets
nvfp4_offsets layout expert row block =
    if is_inside layout expert row block
    then (bind (size_mul expert layout.rows) λ first_row.
        bind (size_add first_row row) λ linear_row.
          bind (size_mul linear_row (layout.columns / 16)) λ first_block.
            bind (size_add first_block block) λ scale. bind (size_mul scale 8) λ packed.
              bind (size_mul expert 4) λ scale2.
                let at : Offsets = record { packed = packed; scale = scale; scale2 = scale2 } in
                if offsets_fit layout at then some at else none)
    else none
