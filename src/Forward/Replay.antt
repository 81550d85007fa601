-- ===== src/Forward/Replay.antt =====
-- Proofs on `inkling_prefill` and `inkling_decode` of src/model/inkling_forward.c.
use mathlib.Core.Option
use inkling_in_c.Forward.Sequence.{
  Sequence, Runner, Kernels, Buffers, forward_id, forward_ids, prefill, decode, or_failure,
  context_reset, prefill_fits, decode_fits, has_sequence, forward_on, restart, sequence_failure,
  ReadStats,
}
use inkling_in_c.Prelude.{
  ℕ, List, ◌≡◌, Option, true, some, ◌+◌, none, [], inl, inr, ap, subst, sym, refl, ◌∙◌, ◌∷◌, ◌++◌,
  length, arith, ◌<◌, Bool-cases, ◌&&◌, both, length-append,
}
use inkling_in_c.Generate.Loop.{in_vocabulary}
use inkling_in_c.Forward.Steps.{
  unanswered, IsAt, Leaves, forward_ids-snoc, forward_ids-IsAt, but_reads,
}
use inkling_in_c.Generate.Vocabulary.{in_vocabulary-snoc}

module _ {M H F : Type 0} (kernels : Kernels M H F) where
  or_failure-answered :
      (x : Runner M × Option (List F)) {after : Runner M} {logits : List F}
      → or_failure kernels x ≡ (after, some logits)
      → x ≡ (after, some logits)
  unfolding or_failure
  or_failure-answered (r, none) e = absurd (unanswered kernels e)
  or_failure-answered (r, some l) e = e

  or_failure-but_reads :
      (x : Runner M × Option (List F))
      → but_reads kernels (or_failure kernels x)
        ≡ but_reads kernels (or_failure kernels (but_reads kernels x))
  unfolding or_failure sequence_failure
  or_failure-but_reads (r, none) = refl
  or_failure-but_reads (r, some logits) = refl

  or_failure-reads :
      (x y : Runner M × Option (List F))
      → but_reads kernels x ≡ but_reads kernels y
      → but_reads kernels (or_failure kernels x) ≡ but_reads kernels (or_failure kernels y)
  or_failure-reads x y e =
      or_failure-but_reads x
      ∙ ap (λ z. but_reads kernels (or_failure kernels z)) e
      ∙ sym (or_failure-but_reads y)

  reset-IsAt :
      (r : Runner M) (o : Option (Sequence M))
      → let fresh = record r { sequence = Option.map (restart kernels) o } in
        has_sequence fresh ≡ true → IsAt fresh 0 fresh
  reset-IsAt r none h = cc
  reset-IsAt r (some s) h = record {
    sequence = restart kernels s;
    processed = r.tokens_processed;
    reads = r.reads;
    same = refl;
    valid = refl;
    at_position = refl;
  }

  decode-admitted :
      (r : Runner M) (s : Sequence M) (processed : ℕ) (reads : ReadStats) (b : Buffers) (n last : ℕ)
      → prefill_fits r b n ≡ true
      → s.valid ≡ true
      → s.position < n
      → last < r.vocab_size
      → decode_fits
          (record r { sequence = some s; tokens_processed = processed; reads = reads })
          b
          last
          s
        ≡ true
  unfolding prefill_fits decode_fits
  decode-admitted r s processed reads b n last h v p l = ground arith

  prefill-answered :
      (r : Runner M) (b : Buffers) (ids : List ℕ) {after : Runner M} {logits : List F}
      → prefill kernels r b ids ≡ (after, some logits)
      → (prefill_fits (context_reset kernels r) b (length ids) ≡ true)
        × (in_vocabulary r.vocab_size ids ≡ true)
        × (forward_ids kernels (context_reset kernels r) ids ≡ (after, some logits))
  unfolding prefill
  prefill-answered r b ids e =
      let fresh = context_reset kernels r in
      elim (Bool-cases (prefill_fits fresh b (length ids) && in_vocabulary r.vocab_size ids)) [
        | inl g ↦
            let (fits, known) = both _ _ g in
            (
              fits,
              known,
              or_failure-answered (forward_ids kernels fresh ids) (rw (g, prefill) at e),
            )
        | inr g ↦ absurd (unanswered kernels (rw (g, prefill) at e))
      ]

  prefill_fits-has_sequence :
      (r : Runner M) (b : Buffers) (n : ℕ) → prefill_fits r b n ≡ true → has_sequence r ≡ true
  unfolding prefill_fits
  prefill_fits-has_sequence r b n h = ground arith

  -- The context after a prefill that succeeds: a valid sequence as far as the prompt is long.
  prefill-IsAt :
      (r after : Runner M) (b : Buffers) (id : ℕ) (ids : List ℕ) (logits : List F)
      → prefill kernels r b (id ∷ ids) ≡ (after, some logits)
      → IsAt (context_reset kernels r) (length (id ∷ ids)) after
  unfolding context_reset Leaves
  prefill-IsAt r after b id ids logits e =
      let fresh = context_reset kernels r in
      let (fits, known, run) = prefill-answered r b (id ∷ ids) e in
      let here : IsAt fresh 0 fresh =
        reset-IsAt r r.sequence (prefill_fits-has_sequence fresh b (length (id ∷ ids)) fits) in
      let same : 0 + length (id ∷ ids) ≡ length (id ∷ ids) = omega arith in
      subst (λ n. IsAt fresh n after) same
        (subst (Leaves kernels (λ after _. IsAt fresh (0 + length (id ∷ ids)) after)) run
          (forward_ids-IsAt kernels fresh fresh 0 id ids here))

  pub prefill_admitted :
      (r : Runner M) (b : Buffers) (ids : List ℕ)
      → prefill_fits (context_reset kernels r) b (length ids) ≡ true
      → in_vocabulary r.vocab_size ids ≡ true
      → prefill kernels r b ids
        ≡ or_failure kernels (forward_ids kernels (context_reset kernels r) ids)
  unfolding prefill
  prefill_admitted r b ids h k = rw (h, prefill, k)

  -- If a prefill of a prompt succeeds, then to decode one more token of the vocabulary, with buffers and
  -- a capacity that fit the longer prompt, does what a prefill of the longer prompt does from the start:
  -- it fails or succeeds alike, gives the same logits, and leaves the same sequence and the same count of
  -- tokens. Only the statistics of reads and of the cache may differ.
  pub decode-prefill :
      (r after : Runner M) (b b' : Buffers) (id : ℕ) (ids : List ℕ) (last : ℕ) (logits : List F)
      → prefill kernels r b (id ∷ ids) ≡ (after, some logits)
      → prefill_fits (context_reset kernels r) b' (length (id ∷ ids ++ last ∷ [])) ≡ true
      → last < r.vocab_size
      → but_reads kernels (decode kernels after b' last)
        ≡ but_reads kernels (prefill kernels r b' (id ∷ ids ++ last ∷ []))
  unfolding prefill context_reset decode forward_on
  decode-prefill r after b b' id ids last logits e fits l =
      let fresh = context_reset kernels r in
      let (first_fits, known, run) = prefill-answered r b (id ∷ ids) e in
      let at = prefill-IsAt r after b id ids logits e in
      let longer : length (id ∷ ids ++ last ∷ []) ≡ length (id ∷ ids) + 1 =
        omega (arith, length-append ids (last ∷ [])) in
      let admitted =
        decode-admitted fresh at.sequence at.processed at.reads b' (length (id ∷ ids ++ last ∷ []))
          last fits at.valid (omega (arith, longer, at.at_position)) l in
      let decoded : decode kernels after b' last
          ≡ or_failure kernels (forward_id kernels after last true) =
        subst (λ x. decode kernels x b' last ≡ or_failure kernels (forward_id kernels x last true))
          (sym at.same) (rw (admitted, decode)) in
      ap (but_reads kernels) decoded
      ∙ or_failure-reads (forward_id kernels after last true)
          (forward_ids kernels fresh (id ∷ ids ++ last ∷ []))
          (sym (forward_ids-snoc kernels fresh id ids last run))
      ∙ ap (but_reads kernels) (
          sym (
            prefill_admitted r b' (id ∷ ids ++ last ∷ []) fits
              (in_vocabulary-snoc r.vocab_size (id ∷ ids) last known l)))
