-- ===== src/Kernels/Topk.antt =====
-- `inkling_topk` of src/core/inkling_math.c. Numbers of type `float` are a parameter; `at_least a b` is
-- the test `a >= b`, and `is_nan` the macro `isnan`.
use inkling_in_c.Prelude.{
  ℕ, Bool, ltb, List, ◌&&◌, ◌∷◌, false, Option, if◌then◌else◌, suc, leb, ◌+◌, true, not, ◌==◌, zero,
  [], ptrdiff_max, take, length, ◌/◌, ◌||◌, none, some, get_or,
}

-- `fits`
unfoldable pub fits : ℕ → ℕ → Bool
fits count width = ltb 0 count && leb count (ptrdiff_max / width)

-- The shift of the entries from a place on, and the new entry there.
unfoldable pub insert_at : ℕ → ℕ → List ℕ → List ℕ
insert_at zero i indices = i ∷ indices
insert_at (suc p) i [] = i ∷ []
insert_at (suc p) i (j ∷ js) = j ∷ insert_at p i js

module _ {F : Type 0} (at_least : F → F → Bool) (value : ℕ → F) where
  -- The loop that looks for the place: it passes the entries of at least the value.
  unfoldable pub place : ℕ → List ℕ → ℕ
  place i [] = 0
  place i (j ∷ js) = let rest = place i js in if at_least (value j) (value i) then suc rest else 0

  -- One round of the loop over the values: the entries in use, of which there are at most `k`.
  unfoldable pub topk_step : ℕ → ℕ → List ℕ → List ℕ
  unfolding place insert_at
  topk_step k i indices =
      let position = place i indices in
      if position == k then indices else take k (insert_at position i indices)

  -- The loop, with `n` values left from the index `i` on.
  unfoldable pub topk_loop : ℕ → ℕ → ℕ → List ℕ → List ℕ
  topk_loop k zero i indices = indices
  topk_loop k (suc n) i indices = topk_loop k n (i + 1) (topk_step k i indices)

unfoldable pub any_nan : {F : Type 0} → (F → Bool) → List F → Bool
any_nan is_nan [] = false
any_nan is_nan (x ∷ xs) = if is_nan x then true else any_nan is_nan xs

module _ {F : Type 0} (is_nan : F → Bool) (at_least : F → F → Bool) (nought : F) where
  -- `inkling_topk`, with pointers that are not NULL: the first `k` entries of `indices`.
  unfoldable pub topk : List F → ℕ → ℕ → Option (List ℕ)
  topk xs k indices_count =
      if not (fits (length xs) 4)
        || not (fits k 8)
        || ltb (length xs) k
        || ltb indices_count k
        || any_nan is_nan xs
      then none
      else some (topk_loop at_least (λ j. get_or xs j nought) k (length xs) 0 [])
