-- ===== src/Kernels/Windows.antt =====
-- Proofs on `inkling_conv4` of src/core/inkling_math.c: each channel as a convolution of its own.
use inkling_in_c.Kernels.Convolution.{
  History, Kernel, conv_row, conv_rows, conv4, finite_rows, finite_kernels, finite_histories,
  sizes_fit, tap,
}
use inkling_in_c.Prelude.{
  ℕ, Bool, List, ◌∷◌, get_elem?, [], get_or, ◌≡◌, some, Gives, Gives-when, Gives-map, ap₂,
  some_injective, suc, Gives-some, zero, drop, ◌<◌, All, length, arith, gives, ◌&&◌, Gives-bind,
  refl,
}

module _ {F : Type 0} (is_finite : F → Bool) (add multiply : F → F → F) (nought : F) where
  -- The values of a channel, one for each token.
  abbrev pub column : ℕ → List (List F) → List F
  column c [] = []
  column c (row ∷ rows) = get_or row c nought ∷ column c rows

  -- A channel with the values of its history before its own.
  abbrev pub line : History F → List F → List F
  line h xs = h.oldest ∷ h.middle ∷ h.newest ∷ xs

  -- The convolution of a line: for each four neighbours their sum under the weights, and the last of
  -- them once more.
  abbrev pub windows : Kernel F → List F → List F
  windows k (p ∷ q ∷ r ∷ x ∷ xs) =
      add
        (add
          (add (add (add nought (multiply p k.first)) (multiply q k.second)) (multiply r k.third))
          (multiply x k.fourth))
        x
      ∷ windows k (q ∷ r ∷ x ∷ xs)
  windows k _ = []

  abbrev shifted : History F → F → History F
  shifted h x = record { oldest = h.middle; middle = h.newest; newest = x }

  -- What a token does to a channel.
  record IsShifted (k : Kernel F) (h : History F) (x : F) (c : ℕ) (left : List (History F))
      (out : List F) : Type 0 where
    kept : get_elem? left c ≡ some (shifted h x)
    written : get_elem? out c ≡ some (tap is_finite add multiply nought k h x)

  conv_row-IsShifted :
      (ks : List (Kernel F)) (hs : List (History F)) (xs : List F) (c : ℕ) {k : Kernel F}
      {h : History F} {x : F}
      → get_elem? ks c ≡ some k
      → get_elem? hs c ≡ some h
      → get_elem? xs c ≡ some x
      → Gives
          (λ (left, out). IsShifted k h x c left out)
          (conv_row is_finite add multiply nought ks hs xs)
  unfolding conv_row
  conv_row-IsShifted [] hs xs c e f g = cc
  conv_row-IsShifted (l ∷ ks) [] xs c e f g = cc
  conv_row-IsShifted (l ∷ ks) (i ∷ hs) [] c e f g = cc
  conv_row-IsShifted (l ∷ ks) (i ∷ hs) (y ∷ xs) zero e f g =
      Gives-when (is_finite (tap is_finite add multiply nought l i y)) λ _.
        Gives-map (conv_row is_finite add multiply nought ks hs xs) _ λ r _. record {
          kept = ap₂ (λ a b. some (shifted a b)) (some_injective f) (some_injective g);
          written = cc;
        }
  conv_row-IsShifted (l ∷ ks) (i ∷ hs) (y ∷ xs) (suc c) e f g =
      Gives-when (is_finite (tap is_finite add multiply nought l i y)) λ _.
        Gives-map (conv_row is_finite add multiply nought ks hs xs) _ λ r d.
          let rest = Gives-some (conv_row-IsShifted ks hs xs c e f g) d in
          record { kept = rest.kept; written = rest.written }

  -- A channel of the outputs is the convolution of its line, and the history that is left is the end of
  -- the line.
  pub record IsFiltered (k : Kernel F) (h : History F) (xs : List F) (c : ℕ)
      (left : List (History F)) (outs : List (List F)) : Type 0 where
    pub written : column c outs ≡ windows k (line h xs)
    pub last : History F
    pub kept : get_elem? left c ≡ some last
    pub at_end : line last [] ≡ drop (length xs) (line h xs)

  get_elem?-get_or :
      (xs : List F) (c : ℕ) → c < length xs → get_elem? xs c ≡ some (get_or xs c nought)
  get_elem?-get_or [] c l = absurd (omega arith)
  get_elem?-get_or (x ∷ xs) zero l = refl
  get_elem?-get_or (x ∷ xs) (suc c) l = get_elem?-get_or xs c (omega arith)

  get_or-some : (xs : List F) (c : ℕ) {x : F} → get_elem? xs c ≡ some x → get_or xs c nought ≡ x
  get_or-some [] c e = cc
  get_or-some (x ∷ xs) zero e = some_injective e
  get_or-some (x ∷ xs) (suc c) e = get_or-some xs c e

  conv_rows-IsFiltered :
      (ks : List (Kernel F)) (hs : List (History F)) (rows : List (List F)) (c : ℕ) {k : Kernel F}
      {h : History F}
      → get_elem? ks c ≡ some k
      → get_elem? hs c ≡ some h
      → All (λ row. c < length row) rows
      → Gives
          (λ (left, outs). IsFiltered k h (column c rows) c left outs)
          (conv_rows is_finite add multiply nought ks hs rows)
  unfolding conv_rows tap
  conv_rows-IsFiltered ks hs [] c {k} {h} e f w =
      gives (record { written = refl; last = h; kept = f; at_end = refl })
  conv_rows-IsFiltered ks hs (row ∷ rows) c {k} {h} e f w =
      Gives-bind (conv_row is_finite add multiply nought ks hs row) λ (left, out) d.
        let x = get_or row c nought in
        let one = Gives-some (conv_row-IsShifted ks hs row c e f (get_elem?-get_or row c w.0)) d in
        Gives-map (conv_rows is_finite add multiply nought ks left rows) _ λ r g.
          let rest = Gives-some (conv_rows-IsFiltered ks left rows c e one.kept w.1) g in
          record {
            written = ap₂ (λ y ys. y ∷ ys) (get_or-some out c one.written) rest.written;
            last = rest.last;
            kept = rest.kept;
            at_end = rest.at_end;
          }

  -- When the convolution of some tokens succeeds, then for each channel that has a kernel, a history and
  -- a value in each token: its outputs are the sums under its weights of each four neighbours in the
  -- line of its history and its values, each with the last of the four once more; and the history that
  -- is left for it is the last three of that line.
  pub conv4-IsFiltered :
      (ks : List (Kernel F)) (hs : List (History F)) (rows : List (List F)) (c : ℕ) {k : Kernel F}
      {h : History F}
      → get_elem? ks c ≡ some k
      → get_elem? hs c ≡ some h
      → All (λ row. c < length row) rows
      → Gives
          (λ (left, outs). IsFiltered k h (column c rows) c left outs)
          (conv4 is_finite add multiply nought ks hs rows)
  unfolding conv4
  conv4-IsFiltered ks hs rows c e f w =
      Gives-when
        (sizes_fit (length rows) (length ks)
          && finite_rows is_finite rows
          && finite_kernels is_finite ks
          && finite_histories is_finite hs)
        λ _. conv_rows-IsFiltered ks hs rows c e f w
