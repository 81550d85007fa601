-- ===== src/Alloc/Tests.antt =====
-- Runs of the checked arithmetic, and its theorems at concrete inputs.
use inkling_in_c.Alloc.{alloc_array, size_add, size_mul, null, block}
use inkling_in_c.Prelude.{refl}
use inkling_in_c.Alloc.Bounds.{size_add_exact, size_mul_exact}
use inkling_in_c.Prelude.{
  true, size_max, ◌^◌, ◌≡◌, ◌+◌, ◌*◌, false, ◌≤◌, some, ◌⊎◌, ◌<◌, none, arith,
}

alloc_array_runs :
    (alloc_array (λ n. true) 3 8 ≡ (true, block 24))
    × (alloc_array (λ n. true) 0 8 ≡ (true, null))
    × (alloc_array (λ n. true) (2 ^ 62) 8 ≡ (false, null))
unfolding alloc_array size_mul
alloc_array_runs = (refl, refl, refl)

size_add_exact_example :
    ((size_max + 1 ≤ size_max) × (size_add size_max 1 ≡ some (size_max + 1)))
    ⊎ ((size_max < size_max + 1) × (size_add size_max 1 ≡ none))
size_add_exact_example = size_add_exact size_max 1 (omega arith) (omega arith)

size_mul_exact_example :
    ((2 ^ 40 * 2 ^ 30 ≤ size_max) × (size_mul (2 ^ 40) (2 ^ 30) ≡ some (2 ^ 40 * 2 ^ 30)))
    ⊎ ((size_max < 2 ^ 40 * 2 ^ 30) × (size_mul (2 ^ 40) (2 ^ 30) ≡ none))
size_mul_exact_example = size_mul_exact (2 ^ 40) (2 ^ 30) (omega arith) (omega arith)
