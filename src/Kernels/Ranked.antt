-- ===== src/Kernels/Ranked.antt =====
-- Proofs on lists of indices in the order in which `inkling_topk` of src/core/inkling_math.c keeps them.
use inkling_in_c.Prelude.{
  ℕ, Bool, List, ◌≡◌, get_elem?, ◌∷◌, All, length, AllPairs, Bool-cases, ◌≤◌, true, some, false,
  suc, take, ◌<◌, if◌then◌else◌, inl, ◌⊎◌, All-map, arith, inr, [], zero, ap, All-get, refl,
}

-- An order by value: `smaller a b` is whether the value at `a` is below the value at `b`.
pub record IsWeakOrder (smaller : ℕ → ℕ → Bool) : Type 0 where
  pub asymmetric : (a b : ℕ) → smaller a b ≡ true → smaller b a ≡ false
  pub negative : (a b c : ℕ) → smaller a b ≡ false → smaller b c ≡ false → smaller a c ≡ false

abbrev pub IsIn : ℕ → List ℕ → Type 0
IsIn j js = (p : ℕ) × (get_elem? js p ≡ some j)

module _ (smaller : ℕ → ℕ → Bool) where
  -- The value at `a` is larger than that at `b`, or they are equal and `a` comes first.
  abbrev pub Before : ℕ → ℕ → Type 0
  Before a b = (smaller a b ≡ false) × ((smaller b a ≡ true) ⊎ (a < b))

  unfoldable pub insert_ranked : ℕ → List ℕ → List ℕ
  insert_ranked i [] = i ∷ []
  insert_ranked i (j ∷ js) =
      let rest = insert_ranked i js in if smaller j i then i ∷ j ∷ js else j ∷ rest

  pub All-insert :
      (P : ℕ → Type 0) (i : ℕ) (js : List ℕ) → P i → All P js → All P (insert_ranked i js)
  unfolding insert_ranked
  All-insert P i [] p h = (p, tt)
  All-insert P i (j ∷ js) p h = elim (Bool-cases (smaller j i)) [
    | inl e ↦ rw e (p, h)
    | inr e ↦ rw e (h.0, All-insert P i js p h.1)
  ]

  pub length-insert_ranked : (i : ℕ) (js : List ℕ) → length (insert_ranked i js) ≡ suc (length js)
  unfolding insert_ranked
  length-insert_ranked i [] = refl
  length-insert_ranked i (j ∷ js) = elim (Bool-cases (smaller j i)) [
    | inl e ↦ rw e
    | inr e ↦ rw e (ap suc (length-insert_ranked i js))
  ]

  pub IsIn-insert_new : (i : ℕ) (js : List ℕ) → IsIn i (insert_ranked i js)
  unfolding insert_ranked
  IsIn-insert_new i [] = (0, refl)
  IsIn-insert_new i (j ∷ js) = elim (Bool-cases (smaller j i)) [
    | inl e ↦ rw e (0, refl)
    | inr e ↦ let (p, at) = IsIn-insert_new i js in rw e (suc p, at)
  ]

  pub IsIn-insert_old : (i k : ℕ) (js : List ℕ) → IsIn k js → IsIn k (insert_ranked i js)
  unfolding insert_ranked
  IsIn-insert_old i k [] (p, at) = cc
  IsIn-insert_old i k (j ∷ js) (zero, at) = elim (Bool-cases (smaller j i)) [
    | inl e ↦ rw e (1, at)
    | inr e ↦ rw e (0, at)
  ]
  IsIn-insert_old i k (j ∷ js) (suc p, at) =
      let (q, there) = IsIn-insert_old i k js (p, at) in
      elim (Bool-cases (smaller j i)) [
        | inl e ↦ rw e (suc (suc p), at)
        | inr e ↦ rw e (suc q, there)
      ]

  -- An index of a ranked list stands among its first `k`, or these come before it.
  pub take-covers :
      (k j : ℕ) (js : List ℕ)
      → AllPairs Before js
      → IsIn j js
      → IsIn j (take k js) ⊎ ((k ≤ length js) × All (λ a. Before a j) (take k js))
  take-covers zero j js h i = inr (omega arith, tt)
  take-covers (suc k) j [] h (p, at) = cc
  take-covers (suc k) j (a ∷ js) h (zero, at) = inl (0, at)
  take-covers (suc k) j (a ∷ js) h (suc p, at) = elim (take-covers k j js h.1 (p, at)) [
    | inl (q, there) ↦ inl (suc q, there)
    | inr (l, all) ↦ inr (omega arith, (All-get (Before a) js h.0 p at, all))
  ]

  pub All-take : (P : ℕ → Type 0) (k : ℕ) (js : List ℕ) → All P js → All P (take k js)
  All-take P zero js h = tt
  All-take P (suc k) [] h = tt
  All-take P (suc k) (j ∷ js) h = (h.0, All-take P k js h.1)

  pub AllPairs-take : (k : ℕ) (js : List ℕ) → AllPairs Before js → AllPairs Before (take k js)
  AllPairs-take zero js h = tt
  AllPairs-take (suc k) [] h = tt
  AllPairs-take (suc k) (j ∷ js) h = (All-take (Before j) k js h.0, AllPairs-take k js h.1)

  module _ (order : IsWeakOrder smaller) where
    Before_trans : (a b c : ℕ) → Before a b → Before b c → Before a c
    Before_trans a b c (m, p) (n, q) = (
      order.negative a b c m n,
      elim (Bool-cases (smaller c a)) [
        | inl e ↦ inl e
        | inr e ↦ inr (elim p [
          | inl x ↦ let wrong = order.negative b c a n e in cc
          | inr x ↦ elim q [
            | inl y ↦ let wrong = order.negative c a b e m in cc
            | inr y ↦ omega arith
          ]
        ])
      ],
    )

    insert-Before : (i j : ℕ) → smaller j i ≡ true → Before i j
    insert-Before i j e = (order.asymmetric j i e, inl e)

    pub AllPairs-insert :
        (i : ℕ) (js : List ℕ)
        → All (λ j. j < i) js
        → AllPairs Before js
        → AllPairs Before (insert_ranked i js)
    unfolding insert_ranked
    AllPairs-insert i [] l h = (tt, tt)
    AllPairs-insert i (j ∷ js) l h = elim (Bool-cases (smaller j i)) [
      | inl e ↦
          let first = insert-Before i j e in
          rw e ((first, All-map (Before j) (Before i) (λ c. Before_trans i j c first) js h.0), h)
      | inr e ↦ rw e (All-insert (Before j) i js (e, inr l.0) h.0, AllPairs-insert i js l.1 h.1)
    ]

    -- What comes behind the first `k` still does when another index is inserted.
    pub take-insert_All :
        (k i j : ℕ) (js : List ℕ)
        → k ≤ length js
        → All (λ a. Before a j) js
        → All (λ a. Before a j) (take k (insert_ranked i js))
    unfolding insert_ranked
    take-insert_All zero i j js l h = tt
    take-insert_All (suc k) i j [] l h = absurd (omega arith)
    take-insert_All (suc k) i j (a ∷ js) l h = elim (Bool-cases (smaller a i)) [
      | inl e ↦
          rw e
            (Before_trans i a j (insert-Before i a e) h.0, All-take (λ b. Before b j) k (a ∷ js) h)
      | inr e ↦ rw e (h.0, take-insert_All k i j js (omega arith) h.1)
    ]
