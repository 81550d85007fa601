-- ===== src/Kernels/Largest.antt =====
-- Proofs on `inkling_topk` of src/core/inkling_math.c.
use inkling_in_c.Kernels.Topk.{insert_at, place, topk_step, topk_loop, topk, fits, any_nan}
use inkling_in_c.Kernels.Ranked.{
  IsWeakOrder, IsIn, Before, insert_ranked, length-insert_ranked, IsIn-insert_new, IsIn-insert_old,
  take-covers, AllPairs-take, AllPairs-insert, take-insert_All, All-insert, All-take,
}
use inkling_in_c.Prelude.{
  ℕ, Bool, List, not, length, ◌≡◌, ◌≤◌, ◌+◌, min, ◌∷◌, arith, take, AllPairs, Bool-cases, suc,
  subst, All, ◌<◌, sym, inl, ◌==◌, ◌⊎◌, ap, All-map, inr, ==_iff, [], zero, ◌∙◌, refl,
  length-take-min, false, Gives, ==_false, true, get_or, Gives-unless, ◌||◌, ltb, unless_false,
  not-true, gives, not-false,
}

-- The first `k` indices below `n` by value: in that order, and each other index comes behind all.
pub record IsLargest (smaller : ℕ → ℕ → Bool) (k n : ℕ) (indices : List ℕ) : Type 0 where
  pub count : length indices ≡ min k n
  pub ranked : AllPairs (Before smaller) indices
  pub inside : All (λ j. j < n) indices
  pub covers :
      (j : ℕ)
      → j < n
      → IsIn j indices ⊎ ((length indices ≡ k) × All (λ a. Before smaller a j) indices)

module _ {F : Type 0} (at_least : F → F → Bool) (value : ℕ → F) where
  abbrev pub below : ℕ → ℕ → Bool
  below a b = not (at_least (value a) (value b))

  insert_at-place :
      (i : ℕ) (js : List ℕ) → insert_at (place at_least value i js) i js ≡ insert_ranked below i js
  unfolding insert_at place insert_ranked
  insert_at-place i [] = refl
  insert_at-place i (j ∷ js) = elim (Bool-cases (at_least (value j) (value i))) [
    | inl e ↦ rw e (ap (λ l. j ∷ l) (insert_at-place i js))
    | inr e ↦ rw e
  ]

  place-le : (i : ℕ) (js : List ℕ) → place at_least value i js ≤ length js
  unfolding place
  place-le i [] = omega arith
  place-le i (j ∷ js) = elim (Bool-cases (at_least (value j) (value i))) [
    | inl e ↦ rw e (omega (arith, place-le i js))
    | inr e ↦ rw e (omega arith)
  ]

  -- An index behind all entries would be the last.
  place_last :
      (i : ℕ) (js : List ℕ)
      → place at_least value i js ≡ length js
      → take (length js) (insert_ranked below i js) ≡ js
  unfolding place insert_ranked
  place_last i [] e = refl
  place_last i (j ∷ js) e = elim (Bool-cases (at_least (value j) (value i))) [
    | inl h ↦
        rw h (ap (λ l. j ∷ l) (place_last i js (let shorter = rw h at e in omega (arith, shorter))))
    | inr h ↦ let wrong = rw h at e in absurd (omega (arith, wrong))
  ]

  topk_step-insert :
      (k i : ℕ) (js : List ℕ)
      → length js ≤ k
      → topk_step at_least value k i js ≡ take k (insert_ranked below i js)
  unfolding topk_step
  topk_step-insert k i js l = elim (Bool-cases (place at_least value i js == k)) [
    | inr e ↦ rw (e, topk_step) (ap (take k) (insert_at-place i js))
    | inl e ↦
        let here : place at_least value i js ≡ k = (==_iff (place at_least value i js) k).0 e in
        let full : k ≡ length js = omega (arith, here, place-le i js) in
        rw (e, topk_step)
          (sym (ap (λ n. take n (insert_ranked below i js)) full ∙ place_last i js (here ∙ full)))
  ]

  module _ (order : IsWeakOrder below) where
    topk_step-IsLargest :
        (k i : ℕ) (js : List ℕ)
        → IsLargest below k i js
        → IsLargest below k (i + 1) (take k (insert_ranked below i js))
    topk_step-IsLargest k i js h =
        let all = insert_ranked below i js in
        let ranked = AllPairs-insert below order i js h.inside h.ranked in
        let size : length all ≡ suc (length js) = length-insert_ranked below i js in
        let cut : length (take k all) ≡ min k (i + 1) =
          omega (arith, h.count, size, length-take-min k all) in
        record {
          count = cut;
          ranked = AllPairs-take below k all ranked;
          inside =
              All-take below (λ j. j < i + 1) k all
                (All-insert below (λ j. j < i + 1) i js (omega arith)
                  (All-map (λ j. j < i) (λ j. j < i + 1) (λ j l. omega arith) js h.inside));
          covers = λ j l.
              let from_all : IsIn j all
                  → IsIn j (take k all)
                    ⊎ ((length (take k all) ≡ k) × All (λ a. Before below a j) (take k all)) =
                λ there. elim (take-covers below k j all ranked there) [
                  | inl found ↦ inl found
                  | inr (room, behind) ↦ inr (omega (arith, length-take-min k all), behind)
                ] in
              elim (Bool-cases (j == i)) [
                | inl e ↦
                    from_all (
                      subst (λ m. IsIn m all) (sym ((==_iff j i).0 e)) (IsIn-insert_new below i js))
                | inr e ↦ elim (h.covers j (omega (arith, ==_false e))) [
                  | inl there ↦ from_all (IsIn-insert_old below i j js there)
                  | inr (full, behind) ↦ inr (
                    omega (arith, size, length-take-min k all),
                    take-insert_All below order k i j js (omega arith) behind,
                  )
                ]
              ];
        }

    topk_loop-IsLargest :
        (k n i : ℕ) (js : List ℕ)
        → IsLargest below k i js
        → IsLargest below k (i + n) (topk_loop at_least value k n i js)
    unfolding topk_loop
    topk_loop-IsLargest k zero i js h =
        let same : i ≡ i + 0 = omega arith in subst (λ m. IsLargest below k m js) same h
    topk_loop-IsLargest k (suc n) i js h =
        let fits : length js ≤ k = omega (arith, h.count) in
        let same : i + 1 + n ≡ i + suc n = omega arith in
        subst
          (λ m.
            IsLargest below k m
              (topk_loop at_least value k n (i + 1) (topk_step at_least value k i js)))
          same
          (topk_loop-IsLargest k n (i + 1) (topk_step at_least value k i js) (
            subst (IsLargest below k (i + 1)) (sym (topk_step-insert k i js fits))
              (topk_step-IsLargest k i js h)))

module _ {F : Type 0} (is_nan : F → Bool) (at_least : F → F → Bool) (nought : F) where
  -- `>=` on the numbers that are no NaN.
  pub record IsTotal : Type 0 where
    pub number : is_nan nought ≡ false
    pub total :
        (a b : F) → is_nan a ≡ false → is_nan b ≡ false → at_least a b ≡ false → at_least b a ≡ true
    pub transitive :
        (a b c : F)
        → is_nan a ≡ false
        → is_nan b ≡ false
        → is_nan c ≡ false
        → at_least a b ≡ true
        → at_least b c ≡ true
        → at_least a c ≡ true

  number_at :
      IsTotal
      → (xs : List F) (j : ℕ) → any_nan is_nan xs ≡ false
      → is_nan (get_or xs j nought) ≡ false
  unfolding any_nan
  number_at t [] j h = t.number
  number_at t (x ∷ xs) zero h = (unless_false (is_nan x) (any_nan is_nan xs) h).0
  number_at t (x ∷ xs) (suc j) h =
      number_at t xs j (unless_false (is_nan x) (any_nan is_nan xs) h).1

  values_order :
      IsTotal
      → (xs : List F) → any_nan is_nan xs ≡ false
      → IsWeakOrder (below at_least (λ j. get_or xs j nought))
  values_order t xs h = record {
    asymmetric =
        λ a b e. ap not (t.total _ _ (number_at t xs a h) (number_at t xs b h) (not-true _ e));
    negative = λ a b c e f. ap not (
        t.transitive _ _ _ (number_at t xs a h) (number_at t xs b h) (number_at t xs c h)
          (not-false _ e) (not-false _ f));
  }

  -- `inkling_topk`, when it succeeds, gives the `k` indices of the largest values: they differ, lie in
  -- the array and come in the order of their values, the largest first; of equal values the one with the
  -- smaller index comes first, also where only one of them is among the `k`.
  pub topk-IsLargest :
      IsTotal
      → (xs : List F) (k indices_count : ℕ)
      → Gives
          (IsLargest (below at_least (λ j. get_or xs j nought)) k (length xs))
          (topk is_nan at_least nought xs k indices_count)
  unfolding topk
  topk-IsLargest t xs k indices_count =
      Gives-unless
        (not (fits (length xs) 4)
          || not (fits k 8)
          || ltb (length xs) k
          || ltb indices_count k
          || any_nan is_nan xs)
        λ guard.
          let order = values_order t xs (ground arith) in
          let same : 0 + length xs ≡ length xs = omega arith in
          let value : ℕ → F = λ j. get_or xs j nought in
          let none_yet : IsLargest (below at_least value) k 0 [] = record {
            count = omega arith;
            ranked = tt;
            inside = tt;
            covers = λ j l. absurd (omega arith);
          } in
          gives (
            subst
              (λ n.
                IsLargest (below at_least value) k n (topk_loop at_least value k (length xs) 0 []))
              same (topk_loop-IsLargest at_least value order k (length xs) 0 [] none_yet))
