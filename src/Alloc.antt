-- ===== src/Alloc.antt =====
-- src/core/inkling_alloc.c: checked size arithmetic and array allocation. An output that goes
-- through a pointer is the result of the function; `none` is the return value 0.
pub mod Bounds
mod Tests
use inkling_in_c.Prelude.{
  ℕ, ◌+◌, ◌-◌, ◌*◌, ◌/◌, ◌%◌, ◌^◌, Bool, true, false, ◌&&◌, ◌||◌, not, Option, none, some, ltb,
  ◌==◌, if◌then◌else◌, size_max, ptrdiff_max,
}

-- `inkling_size_add`, with an output pointer that is not NULL.
unfoldable pub size_add : ℕ → ℕ → Option ℕ
size_add a b = if ltb (size_max - a) b then none else some ((a + b) % 2 ^ 64)

-- `inkling_size_mul`, with an output pointer that is not NULL.
unfoldable pub size_mul : ℕ → ℕ → Option ℕ
size_mul a b = if not (b == 0) && ltb (size_max / b) a then none else some ((a * b) % 2 ^ 64)

-- What `inkling_alloc_array` leaves in `*out`: NULL, or a block of so many bytes.
pub data Block : Type 0 where
  null : Block
  block : ℕ → Block

-- `inkling_alloc_array`. `granted` is the answer of `malloc` to a request of so many bytes.
-- The result is the return value with what `*out` then holds.
unfoldable pub alloc_array : (ℕ → Bool) → ℕ → ℕ → Bool × Block
alloc_array granted count element_size =
    if element_size == 0 || ltb size_max count
    then (false, null)
    else elim (size_mul count element_size) [
      | none ↦ (false, null)
      | some bytes ↦
          if ltb ptrdiff_max bytes
          then (false, null)
          else if bytes == 0
          then (true, null)
          else if granted bytes
          then (true, block bytes)
          else (false, null)
    ]
