-- ===== src/Prelude/Insertion.antt =====
-- An insertion sort, which shows that `QSort` can hold of a comparison that is total.
use mathlib.Core.List.{Permᴰ}
use mathlib.Core.List.Permᴰ
use mathlib.Core.Path.{◌≡◌, refl}
use mathlib.Core.Logic.{inl, inr}
use mathlib.Core.Bool.{Bool, true, false}
use mathlib.Core.List.{List, [], ◌∷◌}
use inkling_in_c.Prelude.Tests.{if◌then◌else◌, Bool-cases}
use inkling_in_c.Prelude.Sorting.{Ascends, QSort}

module _ {ℓ} {A : Type ℓ} (at_most : A → A → Bool)
    (total : (a b : A) → at_most a b ≡ false → at_most b a ≡ true) where
  unfoldable pub insert : A → List A → List A
  insert t [] = t ∷ []
  insert t (u ∷ us) = let rest = insert t us in if at_most t u then t ∷ u ∷ us else u ∷ rest

  unfoldable pub insertion_sort : List A → List A
  insertion_sort [] = []
  insertion_sort (t ∷ ts) = insert t (insertion_sort ts)

  insert-perm : (t : A) (ts : List A) → Permᴰ (insert t ts) (t ∷ ts)
  unfolding insert
  insert-perm t [] = Permᴰ.cons refl Permᴰ.nil
  insert-perm t (u ∷ us) = elim (Bool-cases (at_most t u)) [
    | inl e ↦ rw e (Permᴰ.refl (t ∷ u ∷ us))
    | inr e ↦ rw e (Permᴰ.trans (Permᴰ.cons refl (insert-perm t us)) (Permᴰ.swap refl refl))
  ]

  insert-Ascends : (t : A) (ts : List A) → Ascends at_most ts → Ascends at_most (insert t ts)
  unfolding insert
  insert-Ascends t [] h = tt
  insert-Ascends t (u ∷ []) h = elim (Bool-cases (at_most t u)) [
    | inl e ↦ rw e (e, tt)
    | inr e ↦ rw e (total t u e, tt)
  ]
  insert-Ascends t (u ∷ v ∷ vs) h = elim (Bool-cases (at_most t u)) [
    | inl e ↦ rw e (e, h)
    | inr e ↦ rw e (elim (Bool-cases (at_most t v)) [
      | inl f ↦ rw f (total t u e, (f, h.1))
      | inr f ↦ let rest = insert-Ascends t (v ∷ vs) h.1 in rw f (h.0, (rw (f, insert) at rest))
    ])
  ]

  pub insertion_sort-perm : (ts : List A) → Permᴰ (insertion_sort ts) ts
  unfolding insertion_sort
  insertion_sort-perm [] = Permᴰ.nil
  insertion_sort-perm (t ∷ ts) =
      Permᴰ.trans (insert-perm t (insertion_sort ts)) (Permᴰ.cons refl (insertion_sort-perm ts))

  pub insertion_sort-Ascends : (ts : List A) → Ascends at_most (insertion_sort ts)
  unfolding insertion_sort
  insertion_sort-Ascends [] = tt
  insertion_sort-Ascends (t ∷ ts) = insert-Ascends t (insertion_sort ts) (insertion_sort-Ascends ts)

  abbrev pub insertion_qsort : QSort at_most
  insertion_qsort = record {
    sort = insertion_sort;
    permutes = insertion_sort-perm;
    ascends = insertion_sort-Ascends;
  }
