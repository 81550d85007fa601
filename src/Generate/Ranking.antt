-- ===== src/Generate/Ranking.antt =====
-- Proofs on `rank_candidate` of src/model/inkling_generate.c: the order of the sorted candidates.
use inkling_in_c.Generate.{Floats, Candidate}
use inkling_in_c.Generate.Sample.{ranks_first, candidates_from, find_best}
use inkling_in_c.Generate.Choice.{IsOrdered}
use inkling_in_c.Prelude.{
  ℕ, ◌≡◌, List, true, All, some, ◌⊎◌, Bool-cases, false, ◌∷◌, Ascends, ◌≤◌, AllPairs, ◌+◌, inl, inr,
  [], arith,
}

module _ {F : Type 0} (ops : Floats F) where
  -- A candidate before another: with a larger logit, or with an equal one and the lower token.
  abbrev pub Outranks : Candidate F → Candidate F → Type 0
  Outranks a b =
      (ops.less b.logit a.logit ≡ true)
      ⊎ ((ops.less a.logit b.logit ≡ false) × (ops.less b.logit a.logit ≡ false) × (a.id ≤ b.id))

  abbrev IsFinite : Candidate F → Type 0
  IsFinite c = ops.is_finite c.logit ≡ true

  ranks_first-Outranks : (a b : Candidate F) → ranks_first ops a b ≡ true → Outranks a b
  unfolding ranks_first
  ranks_first-Outranks a b h = elim (Bool-cases (ops.less b.logit a.logit)) [
    | inl e ↦ inl e
    | inr e ↦ elim (Bool-cases (ops.less a.logit b.logit)) [
      | inl f ↦ absurd (ground arith)
      | inr f ↦ inr (f, e, ground arith)
    ]
  ]

  module _ (laws : IsOrdered ops) where
    -- Of three numbers, the first behind or equal to the second, and the third before the second.
    below_trans :
        (x y z : F)
        → ops.is_finite x ≡ true
        → ops.is_finite y ≡ true
        → ops.is_finite z ≡ true
        → ops.less x y ≡ true
        → ops.less z y ≡ false
        → ops.less x z ≡ true
    below_trans x y z f g h l k = elim (Bool-cases (ops.less x z)) [
      | inl e ↦ e
      | inr e ↦ let wrong = laws.behind x y z f g h l e in cc
    ]

    between_false :
        (x y z : F)
        → ops.is_finite x ≡ true
        → ops.is_finite y ≡ true
        → ops.is_finite z ≡ true
        → ops.less x y ≡ false
        → ops.less y z ≡ false
        → ops.less x z ≡ false
    between_false x y z f g h l k = elim (Bool-cases (ops.less x z)) [
      | inr e ↦ e
      | inl e ↦ let wrong = laws.behind x z y f h g e l in cc
    ]

    Outranks-trans :
        (a b c : Candidate F)
        → IsFinite a
        → IsFinite b
        → IsFinite c
        → Outranks a b
        → Outranks b c
        → Outranks a c
    Outranks-trans a b c f g h (inl l) (inl m) =
        inl (below_trans c.logit b.logit a.logit h g f m (laws.asymmetric b.logit a.logit l))
    Outranks-trans a b c f g h (inl l) (inr (m, n, p)) =
        inl (laws.behind b.logit a.logit c.logit g f h l m)
    Outranks-trans a b c f g h (inr (l, m, p)) (inl n) =
        inl (below_trans c.logit b.logit a.logit h g f n l)
    Outranks-trans a b c f g h (inr (l, m, p)) (inr (n, q, r)) = inr (
      between_false a.logit b.logit c.logit f g h l n,
      between_false c.logit b.logit a.logit h g f q m,
      omega (arith, p, r),
    )

    Outranks-All :
        (a b : Candidate F) (cs : List (Candidate F))
        → IsFinite a
        → IsFinite b
        → All IsFinite cs
        → Outranks a b
        → All (Outranks b) cs
        → All (Outranks a) cs
    Outranks-All a b [] f g h l k = tt
    Outranks-All a b (c ∷ cs) f g h l k =
        (Outranks-trans a b c f g h.0 l k.0, Outranks-All a b cs f g h.1 l k.1)

    -- Candidates that ascend, with finite logits, are in order, each with each.
    pub Ascends-Outranks :
        (cs : List (Candidate F))
        → All IsFinite cs
        → Ascends (ranks_first ops) cs
        → AllPairs Outranks cs
    Ascends-Outranks [] h s = tt
    Ascends-Outranks (a ∷ []) h s = (tt, tt)
    Ascends-Outranks (a ∷ b ∷ cs) h s =
        let rest = Ascends-Outranks (b ∷ cs) h.1 s.1 in
        let first = ranks_first-Outranks a b s.0 in
        ((first, Outranks-All a b cs h.0 h.1.0 h.1.1 first rest.0), rest)

  pub find_best-finite :
      (i best : ℕ) (top : F) (xs : List F) {r : ℕ}
      → find_best ops i best top xs ≡ some r
      → All (λ y. ops.is_finite y ≡ true) xs
  unfolding find_best
  find_best-finite i best top [] e = tt
  find_best-finite i best top (x ∷ xs) e = elim (Bool-cases (ops.is_finite x)) [
    | inl f ↦ (f, find_best-finite (i + 1) _ _ xs (rw (f, find_best) at e))
    | inr f ↦ let wrong = rw (f, find_best) at e in cc
  ]

  pub candidates_from-IsFinite :
      (i : ℕ) (xs : List F)
      → All (λ y. ops.is_finite y ≡ true) xs
      → All IsFinite (candidates_from ops i xs)
  unfolding candidates_from
  candidates_from-IsFinite i [] h = tt
  candidates_from-IsFinite i (x ∷ xs) h = (h.0, candidates_from-IsFinite (i + 1) xs h.1)
