-- ===== src/Generate/Incremental.antt =====
-- The generation loop of src/model/inkling_generate.c on the incremental context of
-- src/model/inkling_forward.c.
use inkling_in_c.Forward.Sequence.{
  Sequence, Runner, ReadStats, Kernels, Buffers, prefill, decode, prefill_fits, decode_fits,
  context_reset,
}
use inkling_in_c.Forward.Steps.{IsAt}
use inkling_in_c.Forward.Answering.{IsLike, IsAnsweredAt, prefill-IsAnsweredAt, decode-IsAnsweredAt}
use inkling_in_c.Generate.{Floats}
use inkling_in_c.Generate.Sample.{ranks_first}
use inkling_in_c.Generate.Loop.{Session, usable_length, in_vocabulary}
use inkling_in_c.Generate.Complete.{Answers, IsAnswered}
use inkling_in_c.Prelude.{
  ℕ, true, ◌<◌, QSort, none, ◌≤◌, List, ◌≡◌, some, length, All, Option, subst, ap, sym, refl, arith,
  ◌∙◌, ◌+◌,
}

-- The calls that `inkling_generate` makes on an incremental context; `base` is the context as it was
-- created, and `inkling_forward_last` is not called.
abbrev pub session_of :
    {M H F : Type 0} → Kernels M H F → Runner M → Buffers → ℕ → Session (Runner M) F
session_of kernels base b eos = record {
  is_complete = base.complete;
  width = base.unpadded_vocab_size;
  max_length = base.model_max_length;
  capacity = base.capacity;
  vocab_size = base.vocab_size;
  eos_token_id = eos;
  incremental = true;
  prefill = λ r ids. prefill kernels r b ids;
  decode = λ r id. decode kernels r b id;
  forward_last = λ r ids. (r, none);
}

-- The guards of the two calls pass for every number of tokens and every position with room.
pub record IsPrepared {M : Type 0} (base : Runner M) (b : Buffers) : Type 0 where
  pub prefill_passes :
      (s : Sequence M) (processed : ℕ) (reads : ReadStats) (n : ℕ)
      → 0 < n
      → n ≤ usable_length base.model_max_length base.capacity
      → prefill_fits
          (record base { sequence = some s; tokens_processed = processed; reads = reads })
          b
          n
        ≡ true
  pub decode_passes :
      (s : Sequence M) (processed : ℕ) (reads : ReadStats) (id : ℕ)
      → s.valid ≡ true
      → s.position < usable_length base.model_max_length base.capacity
      → id < base.vocab_size
      → decode_fits
          (record base { sequence = some s; tokens_processed = processed; reads = reads })
          b
          id
          s
        ≡ true

module _ {M H F : Type 0} (ops : Floats F) (qsort : QSort (ranks_first ops))
    (kernels : Kernels M H F) (base : Runner M) (b : Buffers) (eos : ℕ) where
  abbrev IsGood : List F → Type 0
  IsGood logits =
      (length logits ≡ base.unpadded_vocab_size) × All (λ y. ops.is_finite y ≡ true) logits

  module _
      (layers_answer : (m : M) (position id : ℕ)
        → (h : H) × ((kernels.layers m position id).1 ≡ some h))
      (head_answers : (h : H) → (logits : List F) × (kernels.head h ≡ some logits) × IsGood logits)
      (prepared : IsPrepared base b) where
    answered :
        (n : ℕ) (result : Runner M × Option (List F))
        → IsAnsweredAt kernels IsGood layers_answer head_answers base n result
        → IsAnswered ops qsort (session_of kernels base b eos) (IsAt base n) result
    answered n result ((logits, e, good), at) = record {
      logits = logits;
      answered = e;
      wide = (good refl).0;
      finite = (good refl).1;
      after = at;
    }

    reset_fits :
        (r : Runner M) (n : ℕ)
        → IsLike base r
        → 0 < n
        → n ≤ usable_length base.model_max_length base.capacity
        → prefill_fits (context_reset kernels r) b n ≡ true
    unfolding context_reset
    reset_fits r n like p l =
        subst (λ x. prefill_fits (context_reset kernels x) b n ≡ true) (sym like.same)
          (prepared.prefill_passes _ _ _ n p l)

    at_fits :
        (r : Runner M) (n id : ℕ) (at : IsAt base n r)
        → n < usable_length base.model_max_length base.capacity
        → id < base.vocab_size
        → decode_fits r b id at.sequence ≡ true
    at_fits r n id at l k =
        subst (λ x. decode_fits x b id at.sequence ≡ true) (sym at.same)
          (prepared.decode_passes at.sequence _ _ id at.valid (omega (arith, at.at_position, l)) k)

    -- A context whose layers and logits never fail is a model that answers.
    pub session_of-Answers :
        Answers ops qsort (session_of kernels base b eos) (IsLike base) (λ r n. IsAt base n r)
    session_of-Answers = record {
      after_prefill = λ _ r ids like admitted. answered (length ids) (prefill kernels r b ids) (
          prefill-IsAnsweredAt kernels IsGood layers_answer head_answers base r b ids like
            admitted.some_ids (reset_fits r (length ids) like admitted.some_ids admitted.room)
            (ap (λ (x : Runner M). in_vocabulary x.vocab_size ids) like.same ∙ admitted.known));
      after_decode = λ _ r n token at room known. answered (n + 1) (decode kernels r b token) (
          decode-IsAnsweredAt kernels IsGood layers_answer head_answers base r b n token at
            (at_fits r n token at room known));
      after_forward = λ never _ _ _ _. cc;
    }
