-- ===== src/Forward/Failure.antt =====
-- Proofs on the failures of `inkling_prefill` and `inkling_decode` of src/model/inkling_forward.c.
use mathlib.Core.Option
use inkling_in_c.Forward.Sequence.{
  Sequence, Runner, Kernels, Buffers, forward_ids, token_forward, prefill, decode, decode_on,
  or_failure, context_reset, sequence_failure, invalidate, prefill_fits, decode_fits,
  context_position,
}
use inkling_in_c.Prelude.{
  ◌≡◌, Option, List, ℕ, none, Bool-cases, some, length, inl, refl, ◌&&◌, true, inr, false, arith,
}
use inkling_in_c.Generate.Loop.{in_vocabulary}

module _ {M H F : Type 0} (kernels : Kernels M H F) where
  -- A context that is at position 0 and decodes nothing.
  pub record IsDown (r : Runner M) : Type 0 where
    pub at_start : context_position r ≡ 0
    pub refuses : (b : Buffers) (id : ℕ) → (decode kernels r b id).1 ≡ none

  -- What a call leaves when it fails.
  unfoldable pub FailsDown : Runner M × Option (List F) → Type 0
  FailsDown (r, none) = IsDown r
  FailsDown (r, some logits) = Unit

  invalid-refused :
      (r : Runner M) (o : Option (Sequence M)) (b : Buffers) (id : ℕ)
      → (decode_on kernels r b id (Option.map invalidate o)).1 ≡ none
  unfolding decode_on decode_fits
  invalid-refused r none b id = refl
  invalid-refused r (some s) b id =
      let refused : decode_fits r b id (invalidate s) ≡ false = ground arith in
      rw (refused, decode_on)

  invalid-position :
      (r : Runner M) (o : Option (Sequence M))
      → context_position (record r { sequence = Option.map invalidate o }) ≡ 0
  unfolding context_position
  invalid-position r none = refl
  invalid-position r (some s) = refl

  sequence_failure-IsDown : (r : Runner M) → IsDown (sequence_failure r)
  unfolding sequence_failure decode
  sequence_failure-IsDown r = record {
    at_start = invalid-position r r.sequence;
    refuses = λ b id.
        invalid-refused (record r { sequence = Option.map invalidate r.sequence }) r.sequence b id;
  }

  or_failure-FailsDown : (x : Runner M × Option (List F)) → FailsDown (or_failure kernels x)
  unfolding or_failure FailsDown
  or_failure-FailsDown (r, none) = sequence_failure-IsDown r
  or_failure-FailsDown (r, some logits) = tt

  prefill-FailsDown :
      (r : Runner M) (b : Buffers) (ids : List ℕ) → FailsDown (prefill kernels r b ids)
  unfolding prefill FailsDown
  prefill-FailsDown r b ids =
      let fresh = context_reset kernels r in
      elim (Bool-cases (prefill_fits fresh b (length ids) && in_vocabulary r.vocab_size ids)) [
        | inl e ↦ rw (e, prefill) (or_failure-FailsDown (forward_ids kernels fresh ids))
        | inr e ↦ rw (e, prefill) (sequence_failure-IsDown fresh)
      ]

  decode_on-FailsDown :
      (r : Runner M) (b : Buffers) (id : ℕ) (o : Option (Sequence M))
      → FailsDown (decode_on kernels r b id o)
  unfolding decode_on FailsDown
  decode_on-FailsDown r b id none = sequence_failure-IsDown r
  decode_on-FailsDown r b id (some s) = elim (Bool-cases (decode_fits r b id s)) [
    | inl e ↦ rw (e, decode_on) (or_failure-FailsDown (token_forward kernels r s id true))
    | inr e ↦ rw (e, decode_on) (sequence_failure-IsDown r)
  ]

  -- Whatever the reason is for which a prefill or a decode fails, it leaves a context that reports the
  -- position 0 and refuses every token to decode.
  pub failed-IsDown :
      (r : Runner M) (b : Buffers) (ids : List ℕ) (id : ℕ)
      → FailsDown (prefill kernels r b ids) × FailsDown (decode kernels r b id)
  unfolding decode
  failed-IsDown r b ids id = (prefill-FailsDown r b ids, decode_on-FailsDown r b id r.sequence)
