-- ===== src/Kernels/Tests.antt =====
-- Runs of the selection and of the convolution, and their theorems at concrete inputs, with natural
-- numbers for `float`.
use inkling_in_c.Kernels.Topk.{topk, topk_loop, topk_step, place, insert_at, fits, any_nan}
use inkling_in_c.Kernels.Largest.{topk-IsLargest, IsLargest, IsTotal, below}
use inkling_in_c.Prelude.{
  ℕ, arith, List, ◌≡◌, Gives, Bool, ◌∷◌, some, get_or, leb, false, [], refl, Option, true, ◌+◌, ◌*◌,
}
use inkling_in_c.Kernels.Convolution.{
  Kernel, History, conv4, sizes_fit, conv_rows, conv_row, tap, finite_rows, finite_row,
  finite_kernels, finite_histories,
}
use inkling_in_c.Kernels.Windows.{conv4-IsFiltered, IsFiltered}
use inkling_in_c.Alloc.{size_mul}

abbrev at_least : ℕ → ℕ → Bool
at_least a b = leb b a

abbrev is_nan : ℕ → Bool
is_nan a = false

at_least-IsTotal : IsTotal is_nan at_least 0
at_least-IsTotal = record {
  number = refl;
  total = λ a b _ _ e. ground arith;
  transitive = λ a b c _ _ _ e f. ground arith;
}

abbrev values : List ℕ
values = 4 ∷ 9 ∷ 4 ∷ 7 ∷ 9 ∷ []

topk_runs : topk is_nan at_least 0 values 4 4 ≡ some (1 ∷ 4 ∷ 3 ∷ 0 ∷ [])
unfolding topk topk_loop topk_step place insert_at fits any_nan
topk_runs = refl

topk-IsLargest_example :
    Gives
      (IsLargest (below at_least (λ j. get_or values j 0)) 4 5)
      (topk is_nan at_least 0 values 4 4)
topk-IsLargest_example = topk-IsLargest is_nan at_least 0 at_least-IsTotal values 4 4

abbrev kernel : Kernel ℕ
kernel = record { first = 1; second = 2; third = 3; fourth = 4 }

abbrev zeros : History ℕ
zeros = record { oldest = 0; middle = 0; newest = 0 }

abbrev convolve : List (History ℕ) → List (List ℕ) → Option (List (History ℕ) × List (List ℕ))
convolve hs rows = conv4 (λ a. true) (λ a b. a + b) (λ a b. a * b) 0 (kernel ∷ []) hs rows

program : Unit {0}
unfolding conv4 conv_rows conv_row tap finite_rows finite_row finite_kernels finite_histories
    sizes_fit fits size_mul
program = tt

abbrev filtered : Option (List (History ℕ) × List (List ℕ))
filtered = convolve (zeros ∷ []) ((2 ∷ []) ∷ (5 ∷ []) ∷ [])

conv4_runs :
    filtered ≡ some (record { oldest = 0; middle = 2; newest = 5 } ∷ [], (10 ∷ []) ∷ (31 ∷ []) ∷ [])
unfolding program
conv4_runs = refl

conv4-IsFiltered_example :
    Gives
      (λ (left, outs).
        IsFiltered
          (λ a. true)
          (λ a b. a + b)
          (λ a b. a * b)
          0
          kernel
          zeros
          (2 ∷ 5 ∷ [])
          0
          left
          outs)
      filtered
conv4-IsFiltered_example =
    conv4-IsFiltered (λ a. true) (λ a b. a + b) (λ a b. a * b) 0 (kernel ∷ []) (zeros ∷ [])
      ((2 ∷ []) ∷ (5 ∷ []) ∷ []) 0 refl refl (omega arith, (omega arith, tt))
