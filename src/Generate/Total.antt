-- ===== src/Generate/Total.antt =====
-- Proofs that `inkling_sample` of src/model/inkling_generate.c succeeds.
use inkling_in_c.Generate.{Floats, Options, Candidate, u32_max}
use inkling_in_c.Generate.Sample.{
  is_zero, generate_options, options_are_valid, ranks_first, sample, sample_fits, find_best, draw,
  candidates_from, next_state,
}
use inkling_in_c.Generate.Choice.{IsOrdered}
use inkling_in_c.Generate.Loop.{in_vocabulary, last_token}
use inkling_in_c.Prelude.{
  ◌≡◌, ℕ, List, QSort, true, Gives, All, length, ◌<◌, Gives-unless, some, ◌∷◌, ◌+◌, ap, arith, ◌==◌,
  ◌||◌, suc, Bool-cases, [], ltb, inl, refl, inr, not, length-perm, Gives-if, gives, Bool, ◌≤◌,
  false, ◌&&◌, leb, Gives-some, get_elem?-lt, unless_true,
}
use inkling_in_c.Generate.Kept.{sample-IsSampled}

fits_width :
    (valid : Bool) (width k : ℕ)
    → valid ≡ true
    → 0 < width
    → width ≤ u32_max
    → 0 < k
    → k ≤ width
    → (not (width == 0) && leb width u32_max && valid && not (k == 0) && leb k width) ≡ true
fits_width valid width k v h l p q = ground arith

pub admitted : (a b c : Bool) → a ≡ true → b ≡ false → c ≡ true → (not a || b || not c) ≡ false
admitted a b c h k l = ground arith

guard_passed :
    (valid : Bool) (width : ℕ)
    → (width == 0 || ltb u32_max width || not valid) ≡ false
    → (valid ≡ true) × (0 < width) × (width ≤ u32_max)
guard_passed valid width h = ground arith

pub last_token-known :
    (size : ℕ) (ids : List ℕ)
    → 0 < length ids
    → in_vocabulary size ids ≡ true
    → last_token ids < size
unfolding last_token in_vocabulary
last_token-known size [] l h = absurd (omega arith)
last_token-known size (t ∷ []) l h = ground arith
last_token-known size (t ∷ u ∷ ts) l h =
    last_token-known size (u ∷ ts) (omega arith) (unless_true (leb size t) _ h).1

module _ {F : Type 0} (ops : Floats F) where
  zero_options-valid :
      IsOrdered ops
      → (o : Options F)
      → options_are_valid ops (record o { temperature = ops.nought; top_k = 1; top_p = ops.one })
        ≡ true
  zero_options-valid laws o = rw (
    laws.nought_finite,
    laws.one_finite,
    laws.nought_one,
    laws.irreflexive ops.nought,
    laws.irreflexive ops.one,
  )

  -- The options that take effect fit the sampler.
  pub generate_options-fits :
      IsOrdered ops
      → (o : Options F) (width : ℕ)
      → Gives (λ e. sample_fits ops width e ≡ true) (generate_options ops o width)
  unfolding generate_options
  generate_options-fits laws o width =
      Gives-unless (width == 0 || ltb u32_max width || not (options_are_valid ops o)) λ guard.
        let (valid, some_width, small) = guard_passed (options_are_valid ops o) width guard in
        Gives-if (is_zero ops o.temperature)
          (λ z. gives (
            fits_width _ width 1 (zero_options-valid laws o) some_width small (omega arith)
              (omega arith)))
          λ z.
            Gives-if (o.top_k == 0 || ltb width o.top_k)
              (λ all. gives (
                fits_width (options_are_valid ops o) width width valid some_width small some_width
                  (omega arith)))
              λ some_k. gives (
                fits_width (options_are_valid ops o) width o.top_k valid some_width small
                  (ground arith) (ground arith))

  find_best_complete :
      (xs : List F) (i best : ℕ) (top : F)
      → All (λ y. ops.is_finite y ≡ true) xs
      → (r : ℕ) × (find_best ops i best top xs ≡ some r)
  unfolding find_best
  find_best_complete [] i best top h = (best, refl)
  find_best_complete (x ∷ xs) i best top h = rw h.0 (find_best_complete xs (i + 1) _ _ h.1)

  length-candidates_from : (i : ℕ) (xs : List F) → length (candidates_from ops i xs) ≡ length xs
  unfolding candidates_from
  length-candidates_from i [] = refl
  length-candidates_from i (x ∷ xs) = ap suc (length-candidates_from (i + 1) xs)

  draw_complete :
      (o : Options F) (state : ℕ) (cs : List (Candidate F))
      → 0 < length cs
      → (id : ℕ) × (draw ops o state cs ≡ some id)
  unfolding draw
  draw_complete o state [] h = absurd (omega arith)
  draw_complete o state (c ∷ cs) h = (_, refl)

  module _ (qsort : QSort (ranks_first ops)) where
    -- On finite logits of the width, the sampler gives a token.
    pub sample_complete :
        (logits : List F) (o : Options F) (state : ℕ)
        → All (λ y. ops.is_finite y ≡ true) logits
        → sample_fits ops (length logits) o ≡ true
        → (r : ℕ × ℕ) × (sample ops qsort logits o state ≡ some r)
    unfolding sample
    sample_complete [] o state h fits = absurd (ground arith)
    sample_complete (x ∷ xs) o state h fits =
        let (best, found) = find_best_complete (x ∷ xs) 0 0 x h in
        elim (Bool-cases (is_zero ops o.temperature)) [
          | inl z ↦ ((best, state), rw (fits, found, z))
          | inr z ↦
              let sorted = qsort.sort (candidates_from ops 0 (x ∷ xs)) in
              let (id, drawn) = draw_complete o state sorted (
                omega (
                  arith,
                  length-perm (qsort.permutes (candidates_from ops 0 (x ∷ xs))),
                  length-candidates_from 0 (x ∷ xs),
                )) in
              ((id, next_state state), rw (fits, found, z, drawn))
        ]

    -- What the sampler gives is a token of the logits.
    pub sample-within :
        IsOrdered ops
        → (logits : List F) (o : Options F) (state : ℕ) {token next : ℕ}
        → sample ops qsort logits o state ≡ some (token, next)
        → token < length logits
    sample-within laws logits o state {token} e =
        elim (Gives-some (sample-IsSampled ops qsort laws logits o state) e) [
          | inl (_, best, _) ↦ get_elem?-lt logits token best.stands
          | inr (_, drawn) ↦ get_elem?-lt logits token drawn.logit
        ]
