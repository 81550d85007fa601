-- ===== src/Nvfp4/Tests.antt =====
-- A layout, and its theorem at concrete coordinates.
use inkling_in_c.Alloc.{size_add, size_mul}
use inkling_in_c.Nvfp4.{Shape, Layout, Offsets, nvfp4_layout, nvfp4_offsets}
use inkling_in_c.Nvfp4.Inside.{nvfp4_offsets-inside, IsBlock, nvfp4_offsets-distinct}
use inkling_in_c.Prelude.{refl, ◌≡◌, some, ◌*◌, ◌+◌, ◌/◌, ◌<◌, ◌≤◌, arith, ℕ}

abbrev shape : Shape
shape = record { experts = 2; rows = 3; columns = 32 }

abbrev packed_shape : Shape
packed_shape = record { experts = 2; rows = 3; columns = 16 }

abbrev scale_shape : Shape
scale_shape = record { experts = 2; rows = 3; columns = 2 }

abbrev small_layout : Layout
small_layout = record {
  experts = 2;
  rows = 3;
  columns = 32;
  packed_bytes = 96;
  scale_bytes = 12;
  scale2_bytes = 8;
}

layout_runs : nvfp4_layout shape packed_shape scale_shape 2 ≡ some small_layout
unfolding nvfp4_layout size_mul
layout_runs = refl

offsets_run :
    nvfp4_offsets small_layout 1 2 1 ≡ some (record { packed = 88; scale = 11; scale2 = 4 })
unfolding nvfp4_offsets size_mul size_add
offsets_run = refl

nvfp4_offsets-inside_example :
    (at : Offsets) × (nvfp4_offsets small_layout 1 2 1 ≡ some at)
    × (at.scale ≡ (1 * 3 + 2) * (32 / 16) + 1)
    × (at.packed ≡ 8 * at.scale)
    × (at.scale2 ≡ 4 * 1)
    × (at.scale < 12)
    × (at.packed + 8 ≤ 96)
    × (at.scale2 + 4 ≤ 8)
nvfp4_offsets-inside_example =
    nvfp4_offsets-inside shape packed_shape scale_shape 2 layout_runs 1 2 1 (omega arith)
      (omega arith) (omega arith)

last-IsBlock : IsBlock small_layout 1 2 1
last-IsBlock = record {
  expert_inside = omega arith;
  row_inside = omega arith;
  block_inside = omega arith;
}

nvfp4_offsets-distinct_example : (◌≡◌ {A = ℕ} 1 1) × (◌≡◌ {A = ℕ} 2 2) × (◌≡◌ {A = ℕ} 1 1)
nvfp4_offsets-distinct_example =
    nvfp4_offsets-distinct shape packed_shape scale_shape 2 layout_runs 1 2 1 1 2 1 last-IsBlock
      last-IsBlock refl
