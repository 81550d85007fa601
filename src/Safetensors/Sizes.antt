-- ===== src/Safetensors/Sizes.antt =====
-- Proofs on `tensor_size_is_valid` of src/io/inkling_safetensors.c.
use native.Mathlib.Nat.{le-div_iff_mul-le}
use inkling_in_c.Prelude.{
  List, ℕ, ◌∷◌, ◌<◌, ◌≤◌, u64_max, ◌*◌, ◌/◌, length, arith, ◌≡◌, [], some, ◌+◌, suc, Bool-cases,
  ltb, inl, inr, zero, All, ◌%◌, true, ◌^◌, none, false, Option-cases, ◌==◌, ◌∙◌, ap, sym, ◌-◌, ◌≢◌,
}
use inkling_in_c.Safetensors.Tensor.{
  TensorInfo, count_elements, dtype_size, max_rank, tensor_size_is_valid,
}

-- The number of elements of a shape, without a bound.
abbrev pub elements : List ℕ → ℕ
elements [] = 1
elements (d ∷ ds) = d * elements ds

-- What the test guarantees of a tensor.
pub record IsSized (t : TensorInfo) : Type 0 where
  pub width_positive : 0 < dtype_size t.dtype
  pub rank_bounded : length t.shape ≤ max_rank
  pub start-le-end : t.data_start ≤ t.data_end
  pub bytes_eq : t.data_start + elements t.shape * dtype_size t.dtype ≡ t.data_end

mul-le-of_le_div : (a b m : ℕ) → 0 < b → a ≤ m / b → a * b ≤ m
mul-le-of_le_div a b m hb h = grind arith

count_elements_exact :
    (n : ℕ) (ds : List ℕ) {e : ℕ}
    → n ≤ u64_max
    → count_elements n ds ≡ some e
    → (e ≡ n * elements ds) × (e ≤ u64_max)
unfolding count_elements
count_elements_exact n [] l h = ground arith
count_elements_exact n (zero ∷ ds) {e} l h =
    let nothing : n * 0 % 2 ^ 64 ≡ 0 = omega arith in
    let h' : count_elements 0 ds ≡ some e = rw nothing at h in
    let ih = count_elements_exact 0 ds (omega arith) h' in omega arith
count_elements_exact n (suc d ∷ ds) {e} l h = elim (Bool-cases (ltb (u64_max / suc d) n)) [
  | inl large ↦
      let nonzero : (suc d == 0) ≡ false = ground arith in
      let stop : none ≡ some e = rw (nonzero, large) at h in absurd (cc)
  | inr small ↦
      let fits : n * suc d ≤ u64_max =
        mul-le-of_le_div n (suc d) u64_max (omega arith) (ground arith) in
      let exact : n * suc d % 2 ^ 64 ≡ n * suc d = omega arith in
      let nonzero : (suc d == 0) ≡ false = ground arith in
      let h' : count_elements (n * suc d) ds ≡ some e = rw (nonzero, small, exact) at h in
      let ih = count_elements_exact (n * suc d) ds fits h' in omega arith
]

le-mul_positive : (a b : ℕ) → 0 < b → a ≤ a * b
le-mul_positive a zero h = absurd (omega arith)
le-mul_positive a (suc b) h = omega arith

not_less : (n d m : ℕ) → n * d ≤ m → 0 < d → ltb (m / d) n ≡ false
not_less n d m h p =
    let bound : n ≤ m / d = (le-div_iff_mul-le {k = d} {x = n} {y = m} p).1 h in ground arith

elements_positive : (ds : List ℕ) → All (λ d. 0 < d) ds → 0 < elements ds
elements_positive [] h = omega arith
elements_positive (d ∷ ds) h = let ih = elements_positive ds h.1 in let first = h.0 in grind arith

-- A shape with no empty dimension is counted, unless the count passes the largest `uint64_t`.
count_elements_complete :
    (n : ℕ) (ds : List ℕ)
    → All (λ d. 0 < d) ds
    → n * elements ds ≤ u64_max
    → count_elements n ds ≡ some (n * elements ds)
unfolding count_elements
count_elements_complete n [] h l = ground arith
count_elements_complete n (zero ∷ ds) h l = absurd (omega (arith, h.0))
count_elements_complete n (suc d ∷ ds) h l =
    let some_left = elements_positive ds h.1 in
    let step : n * suc d ≤ n * suc d * elements ds =
      le-mul_positive (n * suc d) (elements ds) some_left in
    let fits : n * suc d ≤ u64_max = omega arith in
    let exact : n * suc d % 2 ^ 64 ≡ n * suc d = omega arith in
    let small : ltb (u64_max / suc d) n ≡ false = not_less n (suc d) u64_max fits (omega arith) in
    let nonzero : (suc d == 0) ≡ false = ground arith in
    rw (nonzero, small, exact)
      (count_elements_complete (n * suc d) ds h.1 (omega arith) ∙ ap some (omega arith))

-- What the tests say, once the elements are counted.
abbrev Passes : TensorInfo → ℕ → Type 0
Passes t n =
    (0 < dtype_size t.dtype)
    × (length t.shape ≤ max_rank)
    × (t.data_start ≤ t.data_end)
    × (n ≤ u64_max / dtype_size t.dtype)
    × (n * dtype_size t.dtype % 2 ^ 64 ≡ t.data_end - t.data_start)

valid-Passes :
    (t : TensorInfo) {n : ℕ}
    → count_elements 1 t.shape ≡ some n
    → tensor_size_is_valid t ≡ true
    → Passes t n
unfolding tensor_size_is_valid
valid-Passes t {n} e h = ground arith

valid-counted : (t : TensorInfo) → count_elements 1 t.shape ≡ none → tensor_size_is_valid t ≢ true
unfolding tensor_size_is_valid
valid-counted t e h = ground arith

-- `tensor_size_is_valid` passes only a tensor of a known type and of rank 8 at most, whose byte
-- range has exactly the bytes that its shape and its type take: no product has wrapped.
pub tensor_size_is_valid-IsSized : (t : TensorInfo) → tensor_size_is_valid t ≡ true → IsSized t
tensor_size_is_valid-IsSized t h = elim (Option-cases (count_elements 1 t.shape)) [
  | inl e ↦ absurd (valid-counted t e h)
  | inr (n, e) ↦
      let (width, rank, order, small, bytes) = valid-Passes t e h in
      let (counted, _) = count_elements_exact 1 t.shape (omega arith) e in
      let same : n ≡ elements t.shape = omega arith in
      let fits = mul-le-of_le_div n (dtype_size t.dtype) u64_max width small in
      let exact : n * dtype_size t.dtype % 2 ^ 64 ≡ n * dtype_size t.dtype = omega arith in
      let products : elements t.shape * dtype_size t.dtype ≡ n * dtype_size t.dtype =
        ap (λ k. k * dtype_size t.dtype) (sym same) in
      record {
        width_positive = width;
        rank_bounded = rank;
        start-le-end = order;
        bytes_eq = omega arith;
      }
]

-- `tensor_size_is_valid` passes every tensor of a known type, of rank 8 at most, with no empty
-- dimension, whose byte range ends within a `uint64_t` and has exactly the bytes of its shape and
-- type.
pub tensor_size_is_valid_complete :
    (t : TensorInfo)
    → All (λ d. 0 < d) t.shape
    → t.data_end ≤ u64_max
    → IsSized t
    → tensor_size_is_valid t ≡ true
unfolding tensor_size_is_valid
tensor_size_is_valid_complete t some_left l h =
    let n = elements t.shape in
    let width = dtype_size t.dtype in
    let more = le-mul_positive n width h.width_positive in
    let bytes = h.bytes_eq in
    let counted = count_elements_complete 1 t.shape some_left (omega arith) in
    let counted' : count_elements 1 t.shape ≡ some n = counted ∙ ap some (omega arith) in
    let small : n ≤ u64_max / width =
      (le-div_iff_mul-le {k = width} {x = n} {y = u64_max} h.width_positive).1 (omega arith) in
    let exact : n * width % 2 ^ 64 ≡ n * width = omega arith in rw (counted', exact) (ground arith)
