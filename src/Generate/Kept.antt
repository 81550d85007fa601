-- ===== src/Generate/Kept.antt =====
-- Proofs on the choice of a candidate in src/model/inkling_generate.c.
use inkling_in_c.Generate.{Floats, Options, Candidate}
use inkling_in_c.Generate.Sample.{
  is_zero, mass_of, candidates_from, ranks_first, weigh, retain, nucleus, pick, draw, sample,
  sample_fits, next_state, find_best,
}
use inkling_in_c.Generate.Choice.{IsOrdered, IsBest, first-IsBest}
use mathlib.Core.List.{Permᴰ}
use inkling_in_c.Prelude.{
  ℕ, List, QSort, All, ◌∷◌, Gives, Bool-cases, ◌<◌, take, ◌≡◌, get_elem?, nothing, arith, some,
  length, true, inr, inl, suc, [], Gives-if, Option-cases, gives, All-map, ◌++◌, ◌⊎◌, Gives-when,
  zero, not, Gives-some, append_assoc, false, Gives-bind, refl, Gives-map, ap, ◌∙◌, All-perm, sym,
  get_elem?-append, All-get, length-append, get_elem?-snoc, subst, ◌+◌, AllPairs,
}
use inkling_in_c.Generate.Ranking.{
  Ascends-Outranks, Outranks, candidates_from-IsFinite, find_best-finite,
}

module _ {F : Type 0} (ops : Floats F) where
  -- What every choice from the candidates keeps of their tokens.
  module _ (P : ℕ → Type 0) where
    abbrev pub Each : List (Candidate F) → Type 0
    Each = All (λ c. P c.id)

    weigh-Each :
        (temperature top total : F) (cs : List (Candidate F))
        → Each cs
        → Each (weigh ops temperature top total cs).0
    unfolding weigh
    weigh-Each temperature top total [] h = tt
    weigh-Each temperature top total (c ∷ cs) h = (
      h.0,
      weigh-Each temperature top (ops.add total (mass_of ops temperature top c.logit)) cs h.1,
    )

    retain-Each :
        (threshold cumulative : F) (cs : List (Candidate F))
        → Each cs
        → Gives (λ kept. Each kept.0) (retain ops threshold cumulative cs)
    unfolding retain
    retain-Each threshold cumulative [] h = nothing
    retain-Each threshold cumulative (c ∷ cs) h =
        Gives-if (not (ops.less (ops.add cumulative c.mass) threshold)) (λ _. gives (h.0, tt))
          λ _.
            Gives-map (retain ops threshold (ops.add cumulative c.mass) cs) _ λ kept e.
              (h.0, Gives-some (retain-Each threshold (ops.add cumulative c.mass) cs h.1) e)

    nucleus-Each :
        (o : Options F) (cs : List (Candidate F)) (total : F)
        → Each cs
        → Each (nucleus ops o (cs, total)).0
    unfolding nucleus
    nucleus-Each o cs total h = elim (Bool-cases (ops.less o.top_p ops.one)) [
      | inr e ↦ rw (e, nucleus) h
      | inl e ↦ elim (Option-cases (retain ops (ops.multiply o.top_p total) ops.nought cs)) [
        | inl f ↦ rw (e, nucleus, f) h
        | inr (kept, f) ↦
            rw (e, nucleus, f)
              (Gives-some (retain-Each (ops.multiply o.top_p total) ops.nought cs h) f)
      ]
    ]

    pick-Each :
        (target cumulative : F) (last : ℕ) (cs : List (Candidate F))
        → P last
        → Each cs
        → P (pick ops target cumulative last cs)
    unfolding pick
    pick-Each target cumulative last [] p h = p
    pick-Each target cumulative last (c ∷ cs) p h = elim (Bool-cases (is_zero ops c.mass)) [
      | inl e ↦ rw e (pick-Each target cumulative last cs p h.1)
      | inr e ↦ elim (Bool-cases (ops.less target (ops.add cumulative c.mass))) [
        | inl f ↦ rw (e, f) h.0
        | inr f ↦ rw (e, f) (pick-Each target (ops.add cumulative c.mass) c.id cs h.0 h.1)
      ]
    ]

    first-Each :
        (n : ℕ) (c : Candidate F) (cs : List (Candidate F))
        → 0 < n
        → Each (take n (c ∷ cs))
        → P c.id
    first-Each zero c cs l h = absurd (omega arith)
    first-Each (suc n) c cs l h = h.0

    pub draw-Each :
        (o : Options F) (state : ℕ) (cs : List (Candidate F))
        → Each (take o.top_k cs)
        → 0 < o.top_k
        → Gives P (draw ops o state cs)
    unfolding draw
    draw-Each o state [] h l = nothing
    draw-Each o state (c ∷ cs) h l = gives (
        pick-Each _ _ c.id _ (first-Each o.top_k c cs l h) (
          nucleus-Each o _ _
            (weigh-Each o.temperature c.logit ops.nought (take o.top_k (c ∷ cs)) h)))

  -- A token whose candidate stands among the first `top_k` of the candidates by their logits.
  pub record IsRanked (cs : List (Candidate F)) (top_k id : ℕ) : Type 0 where
    pub rank : ℕ
    pub candidate : Candidate F
    pub high : rank < top_k
    pub stands : get_elem? cs rank ≡ some candidate
    pub named : candidate.id ≡ id

  take-IsRanked : (cs : List (Candidate F)) (n : ℕ) → Each (IsRanked cs n) (take n cs)
  take-IsRanked cs zero = tt
  take-IsRanked [] (suc n) = tt
  take-IsRanked (c ∷ cs) (suc n) = (
    record { rank = 0; candidate = c; high = omega arith; stands = refl; named = refl },
    All-map (λ d. IsRanked cs n d.id) (λ d. IsRanked (c ∷ cs) (suc n) d.id)
        (λ d r. record {
          rank = suc r.rank;
          candidate = r.candidate;
          high = omega (arith, r.high);
          stands = r.stands;
          named = r.named;
        })
        (take n cs) (take-IsRanked cs n),
  )

  -- A candidate carries the logit of its token.
  candidates_from-logit :
      (before xs : List F) (i : ℕ)
      → i ≡ length before
      → All (λ c. get_elem? (before ++ xs) c.id ≡ some c.logit) (candidates_from ops i xs)
  unfolding candidates_from
  candidates_from-logit before [] i e = tt
  candidates_from-logit before (x ∷ xs) i e =
      let all : List F = before ++ x ∷ xs in
      let same : (before ++ x ∷ []) ++ xs ≡ all = append_assoc before (x ∷ []) xs in
      (
        ap (get_elem? all) e
            ∙ ap (λ l. get_elem? l (length before)) (sym same)
            ∙ get_elem?-append (before ++ x ∷ []) xs (length before)
                (omega (arith, length-append before (x ∷ [])))
            ∙ get_elem?-snoc before x,
        subst (λ l. All (λ c. get_elem? l c.id ≡ some c.logit) (candidates_from ops (i + 1) xs))
            same
            (candidates_from-logit (before ++ x ∷ []) xs (i + 1)
              (omega (arith, length-append before (x ∷ [])))),
      )

  module _ (qsort : QSort (ranks_first ops)) where
    -- What a call of the sampler that succeeds gives.
    pub record IsDrawn (logits : List F) (o : Options F) (state id next : ℕ) : Type 0 where
      pub ranking : List (Candidate F)
      pub all : Permᴰ ranking (candidates_from ops 0 logits)
      pub ordered : AllPairs (Outranks ops) ranking
      pub ranked : IsRanked ranking o.top_k id
      pub logit : get_elem? logits id ≡ some ranked.candidate.logit
      pub advanced : next ≡ next_state state

    abbrev pub IsSampled : List F → Options F → ℕ → ℕ × ℕ → Type 0
    IsSampled logits o state (id, next) =
        ((is_zero ops o.temperature ≡ true) × IsBest ops logits id × (next ≡ state))
        ⊎ ((is_zero ops o.temperature ≡ false) × IsDrawn logits o state id next)

    -- At temperature 0 the sampler gives the first of the largest logits and leaves its state. Else it
    -- advances its state by one step, and gives a token that stands among the first `top_k` of a ranking
    -- of all the logits, in which each that stands before another is larger, or equal and of a lower
    -- token.
    pub sample-IsSampled :
        IsOrdered ops
        → (logits : List F) (o : Options F) (state : ℕ)
        → Gives (IsSampled logits o state) (sample ops qsort logits o state)
    unfolding sample
    sample-IsSampled laws [] o state = nothing
    sample-IsSampled laws (x ∷ xs) o state =
        let sorted = qsort.sort (candidates_from ops 0 (x ∷ xs)) in
        Gives-when (sample_fits ops (length (x ∷ xs)) o) λ fits.
          Gives-bind (find_best ops 0 0 x (x ∷ xs)) λ best e.
            Gives-if (is_zero ops o.temperature)
              (λ z. gives (inl (z, Gives-some (first-IsBest ops laws x xs) e, refl)))
              λ z. Gives-map (draw ops o state sorted) _ λ id f.
                let ranked =
                  Gives-some
                    (draw-Each (IsRanked sorted o.top_k) o state sorted
                      (take-IsRanked sorted o.top_k) (ground arith))
                    f in
                let logits =
                  All-perm _ (qsort.permutes (candidates_from ops 0 (x ∷ xs)))
                    (candidates_from-logit [] (x ∷ xs) 0 refl) in
                inr (
                  z,
                  record {
                    ranking = sorted;
                    all = qsort.permutes (candidates_from ops 0 (x ∷ xs));
                    ordered =
                        Ascends-Outranks ops laws sorted
                          (All-perm _ (qsort.permutes (candidates_from ops 0 (x ∷ xs))) (
                            candidates_from-IsFinite ops 0 (x ∷ xs)
                              (find_best-finite ops 0 0 x (x ∷ xs) e)))
                          (qsort.ascends (candidates_from ops 0 (x ∷ xs)));
                    ranked = ranked;
                    logit =
                        ap (get_elem? (x ∷ xs)) (sym ranked.named)
                        ∙ All-get _ sorted logits ranked.rank ranked.stands;
                    advanced = refl;
                  },
                )
