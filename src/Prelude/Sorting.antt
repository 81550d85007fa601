-- ===== src/Prelude/Sorting.antt =====
-- What the program relies on in the C library's `qsort`, for a comparison by `at_most`.
use Prim.Native.Nat.{ℕ, zero, suc, ◌<◌}
use native.Mathlib.Omega.{arith}
use mathlib.Core.Option.{some}
use mathlib.Core.Path.{◌≡◌, refl, sym, ap, subst, subst₂, ◌∙◌}
use mathlib.Core.Bool.{Bool, true}
use mathlib.Core.List.{List, [], ◌∷◌, ◌++◌, Permᴰ}
use inkling_in_c.Prelude.Lists.{All, length, get_elem?}
use inkling_in_c.Prelude.Partial.{some_injective}

module _ {ℓ} {A : Type ℓ} where
  -- Each item is at most the next.
  abbrev pub Ascends : (A → A → Bool) → List A → Type 0
  Ascends at_most [] = Unit {0}
  Ascends at_most (x ∷ []) = Unit {0}
  Ascends at_most (x ∷ y ∷ ys) = (at_most x y ≡ true) × Ascends at_most (y ∷ ys)

  -- `qsort` leaves the items in some order, and in one that ascends.
  pub record QSort (at_most : A → A → Bool) : Type ℓ where
    pub sort : List A → List A
    pub permutes : (xs : List A) → Permᴰ (sort xs) xs
    pub ascends : (xs : List A) → Ascends at_most (sort xs)

  pub All-perm {κ} : (P : A → Type κ) {xs ys : List A} → Permᴰ xs ys → All P ys → All P xs
  All-perm P Permᴰ.nil h = tt
  All-perm P (Permᴰ.cons e p) h = (subst P (sym e) h.0, All-perm P p h.1)
  All-perm P (Permᴰ.swap e f) h = (subst P (sym e) h.1.0, (subst P (sym f) h.0, h.1.1))
  All-perm P (Permᴰ.trans p q) h = All-perm P p (All-perm P q h)

  pub length-perm : {xs ys : List A} → Permᴰ xs ys → length xs ≡ length ys
  length-perm Permᴰ.nil = refl
  length-perm (Permᴰ.cons e p) = ap suc (length-perm p)
  length-perm (Permᴰ.swap e f) = refl
  length-perm (Permᴰ.trans p q) = length-perm p ∙ length-perm q

  -- A relation holds between each item and all those behind it.
  abbrev pub AllPairs {κ} : (A → A → Type κ) → List A → Type κ
  AllPairs R [] = Unit
  AllPairs R (x ∷ xs) = All (R x) xs × AllPairs R xs

  pub AllPairs-perm {κ} :
      (R : A → A → Type κ)
      → ((a b : A) → R a b → R b a)
      → {xs ys : List A} → Permᴰ xs ys
      → AllPairs R ys
      → AllPairs R xs
  AllPairs-perm R symm Permᴰ.nil h = tt
  AllPairs-perm R symm (Permᴰ.cons {a = a} {l₁ = l} e p) h =
      (subst (λ x. All (R x) l) (sym e) (All-perm (R _) p h.0), AllPairs-perm R symm p h.1)
  AllPairs-perm R symm (Permᴰ.swap {a = a} {b = b} {l = l} e f) h = (
    (subst₂ R (sym e) (sym f) (symm _ _ h.0.0), subst (λ x. All (R x) l) (sym e) h.1.0),
    (subst (λ x. All (R x) l) (sym f) h.0.1, h.1.1),
  )
  AllPairs-perm R symm (Permᴰ.trans p q) h = AllPairs-perm R symm p (AllPairs-perm R symm q h)

  pub All-map {κ μ} :
      (P : A → Type κ) (Q : A → Type μ)
      → ((a : A) → P a → Q a)
      → (xs : List A) → All P xs
      → All Q xs
  All-map P Q f [] h = tt
  All-map P Q f (x ∷ xs) h = (f x h.0, All-map P Q f xs h.1)

  pub All-snoc {κ} : (P : A → Type κ) (xs : List A) (a : A) → All P xs → P a → All P (xs ++ a ∷ [])
  All-snoc P [] a h p = (p, tt)
  All-snoc P (x ∷ xs) a h p = (h.0, All-snoc P xs a h.1 p)

  pub All-get {κ} :
      (P : A → Type κ) (xs : List A) → All P xs → (i : ℕ) {a : A} → get_elem? xs i ≡ some a → P a
  All-get P [] h i e = cc
  All-get P (x ∷ xs) h zero e = subst P (some_injective e) h.0
  All-get P (x ∷ xs) h (suc i) e = All-get P xs h.1 i e

  -- Of two items of such a list, the first is related to the second.
  pub AllPairs-get {κ} :
      (R : A → A → Type κ) (xs : List A)
      → AllPairs R xs
      → (i j : ℕ) {a b : A} → i < j
      → get_elem? xs i ≡ some a
      → get_elem? xs j ≡ some b
      → R a b
  AllPairs-get R [] h i j l e f = cc
  AllPairs-get R (x ∷ xs) h i zero l e f = absurd (omega arith)
  AllPairs-get R (x ∷ xs) h zero (suc j) {b = b} l e f =
      subst (λ z. R z b) (some_injective e) (All-get (R x) xs h.0 j f)
  AllPairs-get R (x ∷ xs) h (suc i) (suc j) l e f = AllPairs-get R xs h.1 i j (omega arith) e f

  module _ (at_most : A → A → Bool)
      (trans : (a b c : A) → at_most a b ≡ true → at_most b c ≡ true → at_most a c ≡ true) where
    pub Ascends-All :
        (x : A) (xs : List A) → Ascends at_most (x ∷ xs) → All (λ y. at_most x y ≡ true) xs
    Ascends-All x [] h = tt
    Ascends-All x (y ∷ ys) h = (
      h.0,
      All-map (λ z. at_most y z ≡ true) (λ z. at_most x z ≡ true) (λ z. trans x y z h.0) ys
          (Ascends-All y ys h.1),
    )

    -- In a list that ascends, an item is at most each item behind it.
    pub Ascends-get :
        (xs : List A)
        → Ascends at_most xs
        → (i j : ℕ) (a b : A) → i < j
        → get_elem? xs i ≡ some a
        → get_elem? xs j ≡ some b
        → at_most a b ≡ true
    Ascends-get [] h i j a b l e f = cc
    Ascends-get (x ∷ xs) h i zero a b l e f = absurd (omega arith)
    Ascends-get (x ∷ xs) h zero (suc j) a b l e f =
        subst (λ z. at_most z b ≡ true) (some_injective e)
          (All-get (λ z. at_most x z ≡ true) xs (Ascends-All x xs h) j f)
    Ascends-get (x ∷ []) h (suc i) (suc j) a b l e f = cc
    Ascends-get (x ∷ y ∷ ys) h (suc i) (suc j) a b l e f =
        Ascends-get (y ∷ ys) h.1 i j a b (omega arith) e f
