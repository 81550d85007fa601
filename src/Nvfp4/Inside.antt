-- ===== src/Nvfp4/Inside.antt =====
-- Proofs on `inkling_nvfp4_layout` and `inkling_nvfp4_offsets` of src/core/inkling_nvfp4.c.
use native.Mathlib.Nat.{mul-le-mul_right, mul-le-mul_left}
use inkling_in_c.Prelude.{
  ℕ, ◌≤◌, Gives, ◌<◌, ◌*◌, size_max, Gives-when, ◌+◌, ◌≡◌, ◌%◌, Gives-bind, arith, ◌/◌, suc, gives,
  ◌∙◌, ap, refl, some, true, Gives-some, ◌⊎◌, sym, inl, inr,
}
use inkling_in_c.Alloc.Bounds.{size_mul-exact, size_mul-le, size_mul-fits, size_add-fits}
use inkling_in_c.Nvfp4.{
  Shape, Layout, nvfp4_layout, shapes_fit, size_mul, Offsets, is_inside, offsets_fit, nvfp4_offsets,
}
use inkling_in_c.Alloc.{size_mul}

-- What the sizes of an accepted layout are.
record IsLayout (layout : Layout) : Type 0 where
  experts_bounded : layout.experts ≤ size_max
  rows_bounded : layout.rows ≤ size_max
  some_columns : 0 < layout.columns
  whole_blocks : layout.columns % 16 ≡ 0
  columns_bounded : layout.columns ≤ size_max
  packed_size : layout.packed_bytes ≡ layout.experts * layout.rows * (layout.columns / 2)
  packed_bounded : layout.packed_bytes ≤ size_max
  scale_size : layout.scale_bytes ≡ layout.packed_bytes / 8
  scale2_size : layout.scale2_bytes ≡ layout.experts * 4
  scale2_bounded : layout.scale2_bytes ≤ size_max

nvfp4_layout-IsLayout :
    (original packed scales : Shape) (scale2_count : ℕ)
    → Gives IsLayout (nvfp4_layout original packed scales scale2_count)
unfolding nvfp4_layout
nvfp4_layout-IsLayout original packed scales scale2_count =
    Gives-when (shapes_fit original packed scales scale2_count) λ fit.
      Gives-bind (size_mul original.experts original.rows) λ total a.
        Gives-bind (size_mul total (original.columns / 2)) λ packed_bytes b.
          Gives-bind (size_mul original.experts 4) λ scale2_bytes c.
            let experts_bounded : original.experts ≤ size_max = ground arith in
            let rows_bounded : original.rows ≤ size_max = ground arith in
            let columns_bounded : original.columns ≤ size_max = ground arith in
            let total_is =
              size_mul-exact original.experts original.rows experts_bounded rows_bounded a in
            let packed_is =
              size_mul-exact total (original.columns / 2)
                (size_mul-le original.experts original.rows a) (omega arith) b in
            gives (record {
              experts_bounded = experts_bounded;
              rows_bounded = rows_bounded;
              some_columns = ground arith;
              whole_blocks = ground arith;
              columns_bounded = columns_bounded;
              packed_size = packed_is ∙ ap (λ t. t * (original.columns / 2)) total_is;
              packed_bounded = size_mul-le total (original.columns / 2) b;
              scale_size = refl;
              scale2_size = size_mul-exact original.experts 4 experts_bounded (omega arith) c;
              scale2_bounded = size_mul-le original.experts 4 c;
            })

-- A place in a row of a table, counted through the rows, lies inside the table.
mixed-lt : (a m b n : ℕ) → a < m → b < n → a * n + b < m * n
mixed-lt a m b n h k = omega (arith, mul-le-mul_right {m = suc a} {n = m} n h, k)

eight_blocks : (p k : ℕ) → p * (8 * k) ≡ 8 * (p * k)
eight_blocks p k = grind arith

module _ (layout : Layout) (is : IsLayout layout) (expert row block : ℕ)
    (expert_inside : expert < layout.experts) (row_inside : row < layout.rows)
    (block_inside : block < layout.columns / 16) where
  abbrev blocks : ℕ
  blocks = layout.columns / 16

  abbrev linear : ℕ
  linear = expert * layout.rows + row

  abbrev place : ℕ
  place = linear * blocks + block

  linear-lt : linear < layout.experts * layout.rows
  linear-lt = mixed-lt expert layout.experts row layout.rows expert_inside row_inside

  place-lt : place < layout.experts * layout.rows * blocks
  place-lt = mixed-lt linear (layout.experts * layout.rows) block blocks linear-lt block_inside

  packed_blocks : layout.packed_bytes ≡ 8 * (layout.experts * layout.rows * blocks)
  packed_blocks =
      let half : layout.columns / 2 ≡ 8 * blocks = omega (arith, is.whole_blocks) in
      is.packed_size
      ∙ ap (λ h. layout.experts * layout.rows * h) half
      ∙ eight_blocks (layout.experts * layout.rows) blocks

  linear-le-place : linear ≤ linear * blocks
  linear-le-place =
      omega (arith, mul-le-mul_left {m = 1} {n = blocks} linear (omega (arith, block_inside)))

  abbrev found : Offsets
  found = record { packed = place * 8; scale = place; scale2 = expert * 4 }

  is_inside-true : is_inside layout expert row block ≡ true
  is_inside-true =
      ground (arith, is.some_columns, is.whole_blocks, expert_inside, row_inside, block_inside)

  offsets_fit-true : offsets_fit layout found ≡ true
  offsets_fit-true =
      ground (arith, packed_blocks, place-lt, is.scale_size, is.scale2_size, expert_inside)

  nvfp4_offsets-found : nvfp4_offsets layout expert row block ≡ some found
  unfolding nvfp4_offsets
  nvfp4_offsets-found =
      let small : place * 8 + 8 ≤ size_max =
        omega (arith, packed_blocks, place-lt, is.packed_bounded) in
      let a =
        size_mul-fits expert layout.rows (omega (arith, expert_inside, is.experts_bounded))
          is.rows_bounded (omega (arith, small, linear-le-place)) in
      let b = size_add-fits (expert * layout.rows) row (omega (arith, small, linear-le-place)) in
      let c =
        size_mul-fits linear blocks (omega (arith, small, linear-le-place))
          (omega (arith, is.columns_bounded)) (omega (arith, small)) in
      let d = size_add-fits (linear * blocks) block (omega (arith, small)) in
      let e = size_mul-fits place 8 (omega (arith, small)) (omega arith) (omega (arith, small)) in
      let f =
        size_mul-fits expert 4 (omega (arith, expert_inside, is.experts_bounded)) (omega arith)
          (omega (arith, expert_inside, is.scale2_size, is.scale2_bounded)) in
      rw (is_inside-true, a, b, c, d, e, f, offsets_fit-true) refl

-- In a layout that `inkling_nvfp4_layout` gives, every block of every row of every expert has its
-- offsets, in the order of the checkpoint: its scale is the one at its place, counted through the rows;
-- its 8 packed bytes, its scale and the 4 bytes of its expert's second scale lie inside their tensors.
pub nvfp4_offsets-inside :
    (original packed scales : Shape) (scale2_count : ℕ) {layout : Layout}
    → nvfp4_layout original packed scales scale2_count ≡ some layout
    → (expert row block : ℕ) → expert < layout.experts
    → row < layout.rows
    → block < layout.columns / 16
    → (at : Offsets) × (nvfp4_offsets layout expert row block ≡ some at)
      × (at.scale ≡ (expert * layout.rows + row) * (layout.columns / 16) + block)
      × (at.packed ≡ 8 * at.scale)
      × (at.scale2 ≡ 4 * expert)
      × (at.scale < layout.scale_bytes)
      × (at.packed + 8 ≤ layout.packed_bytes)
      × (at.scale2 + 4 ≤ layout.scale2_bytes)
nvfp4_offsets-inside original packed scales scale2_count {layout} e expert row block a b c =
    let is = Gives-some (nvfp4_layout-IsLayout original packed scales scale2_count) e in
    let room = packed_blocks layout is expert row block a b c in
    let l = place-lt layout is expert row block a b c in
    (
      found layout is expert row block a b c,
      nvfp4_offsets-found layout is expert row block a b c,
      refl,
      omega arith,
      omega arith,
      omega (arith, room, l, is.scale_size),
      omega (arith, room, l),
      omega (arith, a, is.scale2_size),
    )

mixed-eq : (a b a' b' n : ℕ) → b < n → b' < n → a * n + b ≡ a' * n + b' → (a ≡ a') × (b ≡ b')
mixed-eq a b a' b' n h k e = elim (ltb-cases a a') [
  | inl below ↦ absurd (omega (arith, mul-le-mul_right {m = suc a} {n = a'} n below, e, h, k))
  | inr (inl same) ↦ (same, omega (arith, ap (λ x. x * n) same, e))
  | inr (inr above) ↦ absurd (omega (arith, mul-le-mul_right {m = suc a'} {n = a} n above, e, h, k))
]
  where
    ltb-cases : (a b : ℕ) → (a < b) ⊎ ((a ≡ b) ⊎ (b < a))
    ltb-cases a b = ground arith

-- A block of a layout: its coordinates lie inside.
pub record IsBlock (layout : Layout) (expert row block : ℕ) : Type 0 where
  pub expert_inside : expert < layout.experts
  pub row_inside : row < layout.rows
  pub block_inside : block < layout.columns / 16

some_offsets-eq : {a b : Offsets} → some a ≡ some b → a.scale ≡ b.scale
some_offsets-eq {a} {b} e = let same : a ≡ b = cc in ap (λ (x : Offsets). x.scale) same

-- In a layout that `inkling_nvfp4_layout` gives, two blocks with the same offsets are one block.
pub nvfp4_offsets-distinct :
    (original packed scales : Shape) (scale2_count : ℕ) {layout : Layout}
    → nvfp4_layout original packed scales scale2_count ≡ some layout
    → (expert row block expert' row' block' : ℕ) → IsBlock layout expert row block
    → IsBlock layout expert' row' block'
    → nvfp4_offsets layout expert row block ≡ nvfp4_offsets layout expert' row' block'
    → (expert ≡ expert') × (row ≡ row') × (block ≡ block')
nvfp4_offsets-distinct original packed scales scale2_count {layout} e expert row block expert' row'
      block' h k same =
    let is = Gives-some (nvfp4_layout-IsLayout original packed scales scale2_count) e in
    let here =
      nvfp4_offsets-found layout is expert row block h.expert_inside h.row_inside h.block_inside in
    let there =
      nvfp4_offsets-found layout is expert' row' block' k.expert_inside k.row_inside
        k.block_inside in
    let scale = some_offsets-eq (sym here ∙ same ∙ there) in
    let (rows_same, blocks_same) =
      mixed-eq (expert * layout.rows + row) block (expert' * layout.rows + row') block'
        (layout.columns / 16) h.block_inside k.block_inside scale in
    let (experts_same, row_same) =
      mixed-eq expert row expert' row' layout.rows h.row_inside k.row_inside rows_same in
    (experts_same, row_same, blocks_same)
