-- ===== src/Kernels/Convolution.antt =====
-- `inkling_conv4` of src/core/inkling_math.c. The values of a token stand as one row, with a value for
-- each channel. The arithmetic on `float` is a parameter.
use mathlib.Core.Option
use inkling_in_c.Alloc.{size_mul}
use inkling_in_c.Kernels.Topk.{fits}
use inkling_in_c.Prelude.{
  Bool, List, ℕ, Option, true, none, some, ◌∷◌, false, if◌then◌else◌, [], bind, ◌&&◌, length,
}

-- The three values of a channel that came before, the oldest first, and the four weights of a channel.
pub record History (F : Type 0) : Type 0 where
  pub oldest : F
  pub middle : F
  pub newest : F

pub record Kernel (F : Type 0) : Type 0 where
  pub first : F
  pub second : F
  pub third : F
  pub fourth : F

-- The guards on the sizes: `x` and `out` hold a row of `channels` values for each token, and fit.
unfoldable pub sizes_fit : ℕ → ℕ → Bool
sizes_fit tokens channels = elim (size_mul tokens channels) [
  | none ↦ false
  | some count ↦ elim (size_mul channels 4) [
    | none ↦ false
    | some kernel_count ↦ elim (size_mul channels 3) [
      | none ↦ false
      | some history_count ↦ fits count 4 && fits kernel_count 4
    ]
  ]
]

module _ {F : Type 0} (is_finite : F → Bool) where
  -- `finite_vector` on rows
  unfoldable pub finite_row : List F → Bool
  finite_row [] = true
  finite_row (x ∷ xs) = if is_finite x then finite_row xs else false

  unfoldable pub finite_rows : List (List F) → Bool
  finite_rows [] = true
  finite_rows (row ∷ rows) = finite_row row && finite_rows rows

  unfoldable pub finite_kernels : List (Kernel F) → Bool
  finite_kernels [] = true
  finite_kernels (k ∷ ks) =
      (is_finite k.first && is_finite k.second && is_finite k.third && is_finite k.fourth)
      && finite_kernels ks

  unfoldable pub finite_histories : List (History F) → Bool
  finite_histories [] = true
  finite_histories (h ∷ hs) =
      (is_finite h.oldest && is_finite h.middle && is_finite h.newest) && finite_histories hs

module _ {F : Type 0} (is_finite : F → Bool) (add multiply : F → F → F) (nought : F) where
  -- The sum of a channel: the taps in their order, the current value, and the residual.
  unfoldable pub tap : Kernel F → History F → F → F
  tap k h current =
      add
        (add
          (add (add (add nought (multiply h.oldest k.first)) (multiply h.middle k.second))
            (multiply h.newest k.third))
          (multiply current k.fourth))
        current

  -- The loop over the channels of one token: the histories that are left, and the outputs. The list of
  -- histories has one for each channel; `none` is the early return.
  unfoldable pub conv_row :
      List (Kernel F) → List (History F) → List F → Option (List (History F) × List F)
  unfolding tap
  conv_row (k ∷ ks) (h ∷ hs) (x ∷ xs) =
      let rest = conv_row ks hs xs in
      let sum = tap k h x in
      if is_finite sum
      then Option.map
          (λ (left, outs).
            (record { oldest = h.middle; middle = h.newest; newest = x } ∷ left, sum ∷ outs))
          rest
      else none
  conv_row _ hs _ = some (hs, [])

  -- The loop over the tokens.
  unfoldable pub conv_rows :
      List (Kernel F) → List (History F) → List (List F) → Option (List (History F) × List (List F))
  conv_rows ks hs [] = some (hs, [])
  conv_rows ks hs (row ∷ rows) =
      bind (conv_row ks hs row)
        λ (left, out). Option.map (λ (after, outs). (after, out ∷ outs)) (conv_rows ks left rows)

  -- `inkling_conv4`, with pointers that are not NULL and buffers of the sizes that are asked for. A
  -- failure may leave histories and outputs that are written in part; the callers discard them.
  unfoldable pub conv4 :
      List (Kernel F) → List (History F) → List (List F) → Option (List (History F) × List (List F))
  conv4 ks hs rows =
      if sizes_fit (length rows) (length ks)
        && finite_rows is_finite rows
        && finite_kernels is_finite ks
        && finite_histories is_finite hs
      then conv_rows ks hs rows
      else none
