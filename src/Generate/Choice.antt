-- ===== src/Generate/Choice.antt =====
-- Proofs on `inkling_sample` of src/model/inkling_generate.c.
use inkling_in_c.Generate.{Floats}
use inkling_in_c.Generate.Sample.{find_best}
use inkling_in_c.Prelude.{
  ◌≡◌, List, true, ℕ, false, get_elem?, ◌++◌, length, some, ◌∷◌, Gives, ◌<◌, All, [],
  get_elem?-append, All-get, gives, get_elem?-lt, get_elem?-snoc, subst, ◌∙◌, All-snoc, sym,
  snoc-cases, append-nil, Gives-when, inl, Bool-cases, inr, arith, ◌+◌, append_assoc, length-append,
  some_injective, suc, zero, refl,
}

-- The order of the finite numbers, and what the source relies on of 0 and 1.
pub record IsOrdered {F : Type 0} (ops : Floats F) : Type 0 where
  pub nought_finite : ops.is_finite ops.nought ≡ true
  pub one_finite : ops.is_finite ops.one ≡ true
  pub nought_one : ops.less ops.nought ops.one ≡ true
  pub irreflexive : (a : F) → ops.less a a ≡ false
  pub asymmetric : (a b : F) → ops.less a b ≡ true → ops.less b a ≡ false
  pub behind :
      (a b c : F)
      → ops.is_finite a ≡ true
      → ops.is_finite b ≡ true
      → ops.is_finite c ≡ true
      → ops.less a b ≡ true
      → ops.less a c ≡ false
      → ops.less c b ≡ true

module _ {F : Type 0} (ops : Floats F) where
  -- The first of the largest logits: no logit is larger, and those before it are smaller.
  pub record IsBest (logits : List F) (id : ℕ) : Type 0 where
    pub top : F
    pub stands : get_elem? logits id ≡ some top
    pub largest : (j : ℕ) (y : F) → get_elem? logits j ≡ some y → ops.less top y ≡ false
    pub first : (j : ℕ) (y : F) → j < id → get_elem? logits j ≡ some y → ops.less y top ≡ true

  -- The best of the logits seen so far.
  record Best (before : List F) (best : ℕ) (top : F) : Type 0 where
    stands : get_elem? before best ≡ some top
    finite : ops.is_finite top ≡ true
    all_finite : All (λ y. ops.is_finite y ≡ true) before
    largest : (j : ℕ) (y : F) → get_elem? before j ≡ some y → ops.less top y ≡ false
    first : (j : ℕ) (y : F) → j < best → get_elem? before j ≡ some y → ops.less y top ≡ true

  Best-keep :
      (before : List F) (best : ℕ) (top x : F)
      → Best before best top
      → ops.is_finite x ≡ true
      → ops.less top x ≡ false
      → Best (before ++ x ∷ []) best top
  Best-keep before best top x b f h = record {
    stands = get_elem?-append before (x ∷ []) best (get_elem?-lt before best b.stands) ∙ b.stands;
    finite = b.finite;
    all_finite = All-snoc (λ y. ops.is_finite y ≡ true) before x b.all_finite f;
    largest = λ j y e. elim (snoc-cases before x j e) [
      | inl (l, old) ↦ b.largest j y old
      | inr (l, same) ↦ subst (λ z. ops.less top z ≡ false) same h
    ];
    first = λ j y l e. elim (snoc-cases before x j e) [
      | inl (_, old) ↦ b.first j y l old
      | inr (m, same) ↦ absurd (omega (arith, get_elem?-lt before best b.stands))
    ];
  }

  Best-new :
      IsOrdered ops
      → (before : List F) (best : ℕ) (top x : F) → Best before best top
      → ops.is_finite x ≡ true
      → ops.less top x ≡ true
      → Best (before ++ x ∷ []) (length before) x
  Best-new laws before best top x b f h =
      let smaller : (j : ℕ) (y : F) → get_elem? before j ≡ some y → ops.less y x ≡ true = λ j y e.
        laws.behind top x y b.finite f
          (All-get (λ z. ops.is_finite z ≡ true) before b.all_finite j e) h (b.largest j y e) in
      record {
        stands = get_elem?-snoc before x;
        finite = f;
        all_finite = All-snoc (λ y. ops.is_finite y ≡ true) before x b.all_finite f;
        largest = λ j y e. elim (snoc-cases before x j e) [
          | inl (l, old) ↦ laws.asymmetric y x (smaller j y old)
          | inr (l, same) ↦ subst (λ z. ops.less x z ≡ false) same (laws.irreflexive x)
        ];
        first = λ j y l e. elim (snoc-cases before x j e) [
          | inl (_, old) ↦ smaller j y old
          | inr (m, same) ↦ absurd (omega arith)
        ];
      }

  find_best-IsBest :
      IsOrdered ops
      → (before : List F) (i best : ℕ) (top : F) (xs : List F) → i ≡ length before
      → Best before best top
      → Gives (IsBest (before ++ xs)) (find_best ops i best top xs)
  unfolding find_best
  find_best-IsBest laws before i best top [] e b = gives (
      subst (λ l. IsBest l best) (sym (append-nil before))
        (record { top = top; stands = b.stands; largest = b.largest; first = b.first }))
  find_best-IsBest laws before i best top (x ∷ xs) e b = Gives-when (ops.is_finite x) λ f.
      elim (Bool-cases (ops.less top x)) [
        | inl h ↦ rw h (
            subst (λ l. Gives (IsBest l) (find_best ops (i + 1) i x xs))
              (append_assoc before (x ∷ []) xs)
              (find_best-IsBest laws (before ++ x ∷ []) (i + 1) i x xs
                (omega (arith, length-append before (x ∷ [])))
                (subst (λ k. Best (before ++ x ∷ []) k x) (sym e)
                  (Best-new laws before best top x b f h))))
        | inr h ↦ rw h (
            subst (λ l. Gives (IsBest l) (find_best ops (i + 1) best top xs))
              (append_assoc before (x ∷ []) xs)
              (find_best-IsBest laws (before ++ x ∷ []) (i + 1) best top xs
                (omega (arith, length-append before (x ∷ []))) (Best-keep before best top x b f h)))
      ]

  pub first-IsBest :
      IsOrdered ops → (x : F) (xs : List F) → Gives (IsBest (x ∷ xs)) (find_best ops 0 0 x (x ∷ xs))
  unfolding find_best
  first-IsBest laws x xs = Gives-when (ops.is_finite x) λ f.
      let alone : Best (x ∷ []) 0 x = record {
        stands = refl;
        finite = f;
        all_finite = (f, tt);
        largest = λ j y e. only j y e;
        first = λ j y l e. absurd (omega arith);
      } in
      rw (laws.irreflexive x) (find_best-IsBest laws (x ∷ []) 1 0 x xs refl alone)
    where
      only : (j : ℕ) (y : F) → get_elem? (x ∷ []) j ≡ some y → ops.less x y ≡ false
      only zero y e = subst (λ z. ops.less x z ≡ false) (some_injective e) (laws.irreflexive x)
      only (suc j) y e = cc
