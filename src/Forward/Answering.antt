-- ===== src/Forward/Answering.antt =====
-- Proofs that `inkling_prefill` and `inkling_decode` of src/model/inkling_forward.c succeed where the
-- layers and the projection to the logits do.
use inkling_in_c.Forward.Sequence.{
  Sequence, Runner, ReadStats, Kernels, Buffers, prefill, decode, decode_on, decode_fits,
  or_failure, context_reset, prefill_fits, forward_on, forward_id, forward_ids, token_forward,
  finish_token, with_logits, chain, restart,
}
use inkling_in_c.Forward.Steps.{IsAt, Leaves, forward_id-IsAt, forward_ids-IsAt}
use inkling_in_c.Forward.Replay.{prefill_admitted}
use inkling_in_c.Generate.Loop.{in_vocabulary}
use inkling_in_c.Prelude.{
  ℕ, ◌≡◌, List, some, Bool, Option, true, subst, ◌<◌, ap, sym, false, ◌∷◌, length, ◌+◌, none, [],
  arith, ◌∙◌, refl,
}

-- A context that differs from another in its sequence and its statistics only.
pub record IsLike {M : Type 0} (base r : Runner M) : Type 0 where
  pub sequence : Sequence M
  pub processed : ℕ
  pub reads : ReadStats
  pub same :
      r ≡ record base { sequence = some sequence; tokens_processed = processed; reads = reads }

module _ {M H F : Type 0} (kernels : Kernels M H F) (P : List F → Type 0)
    (layers_answer : (m : M) (position id : ℕ)
      → (h : H) × ((kernels.layers m position id).1 ≡ some h))
    (head_answers : (h : H) → (logits : List F) × (kernels.head h ≡ some logits) × P logits) where
  -- A result with logits, and with good ones if they are wanted.
  abbrev pub HasLogits : Bool → Runner M × Option (List F) → Type 0
  HasLogits wanted result =
      (logits : List F) × (result.1 ≡ some logits) × (wanted ≡ true → P logits)

  finish_token-HasLogits :
      (r : Runner M) (s : Sequence M) (m : M) (wanted : Bool) (h : H)
      → HasLogits wanted (finish_token kernels r s m wanted (some h))
  unfolding finish_token with_logits
  finish_token-HasLogits r s m true h =
      let (logits, e, p) = head_answers h in
      (
        logits,
        ap (λ o. (with_logits kernels (record r { reads = kernels.head_reads r.reads h }) s m o).1)
            e,
        λ _. p,
      )
  finish_token-HasLogits r s m false h = ([], refl, λ e. cc)

  token_forward-HasLogits :
      (r : Runner M) (s : Sequence M) (id : ℕ) (wanted : Bool)
      → HasLogits wanted (token_forward kernels r s id wanted)
  unfolding token_forward
  token_forward-HasLogits r s id wanted =
      let (h, e) = layers_answer s.layers s.position id in
      let m = (kernels.layers s.layers s.position id).0 in
      let read : Runner M = record r {
        reads = kernels.layers_reads r.reads s.layers s.position id;
      } in
      subst (λ o. HasLogits wanted (finish_token kernels read s m wanted o)) (sym e)
        (finish_token-HasLogits read s m wanted h)

  forward_id-HasLogits :
      (base left : Runner M) (n id : ℕ) (wanted : Bool)
      → IsAt base n left
      → HasLogits wanted (forward_id kernels left id wanted)
  unfolding forward_on
  forward_id-HasLogits base left n id wanted at =
      subst (λ l. HasLogits wanted (forward_id kernels l id wanted)) (sym at.same)
        (token_forward-HasLogits
          (record base {
            sequence = some at.sequence;
            tokens_processed = at.processed;
            reads = at.reads;
          })
          at.sequence id wanted)

  chain-HasLogits :
      (Q : Runner M → List F → Type 0) (step : Runner M × Option (List F))
      (next : Runner M → Runner M × Option (List F))
      → Leaves kernels Q step
      → HasLogits false step
      → ((r : Runner M) (logits : List F) → Q r logits → HasLogits true (next r))
      → HasLogits true (chain kernels step next)
  unfolding chain Leaves
  chain-HasLogits Q (r, none) next h (l, e, _) k = cc
  chain-HasLogits Q (r, some logits) next h _ k = k r logits h

  forward_ids-HasLogits :
      (base left : Runner M) (n id : ℕ) (ids : List ℕ)
      → IsAt base n left
      → HasLogits true (forward_ids kernels left (id ∷ ids))
  unfolding forward_ids
  forward_ids-HasLogits base left n id [] at = forward_id-HasLogits base left n id true at
  forward_ids-HasLogits base left n id (next ∷ ids) at =
      chain-HasLogits (λ after _. IsAt base (n + 1) after) (forward_id kernels left id false)
        (λ l. forward_ids kernels l (next ∷ ids)) (forward_id-IsAt kernels base left n id false at)
        (forward_id-HasLogits base left n id false at)
        λ middle _ h. forward_ids-HasLogits base middle (n + 1) next ids h

  -- A call that has good logits, and leaves the context at a position.
  abbrev pub IsAnsweredAt : Runner M → ℕ → Runner M × Option (List F) → Type 0
  IsAnsweredAt base n result = HasLogits true result × IsAt base n result.0

  or_failure-IsAnsweredAt :
      (base : Runner M) (n : ℕ) (result : Runner M × Option (List F))
      → Leaves kernels (λ after _. IsAt base n after) result
      → HasLogits true result
      → IsAnsweredAt base n (or_failure kernels result)
  unfolding or_failure Leaves
  or_failure-IsAnsweredAt base n (r, none) h (l, e, _) = cc
  or_failure-IsAnsweredAt base n (r, some logits) h k = (k, h)

  reset-IsAt : (base r : Runner M) → IsLike base r → IsAt base 0 (context_reset kernels r)
  unfolding context_reset
  reset-IsAt base r like =
      subst (λ l. IsAt base 0 (context_reset kernels l)) (sym like.same)
        (record {
          sequence = restart kernels like.sequence;
          processed = like.processed;
          reads = like.reads;
          same = refl;
          valid = refl;
          at_position = refl;
        })

  pub prefill-IsAnsweredAt :
      (base r : Runner M) (b : Buffers) (ids : List ℕ)
      → IsLike base r
      → 0 < length ids
      → prefill_fits (context_reset kernels r) b (length ids) ≡ true
      → in_vocabulary r.vocab_size ids ≡ true
      → IsAnsweredAt base (length ids) (prefill kernels r b ids)
  prefill-IsAnsweredAt base r b [] like some_ids fits known = absurd (omega arith)
  prefill-IsAnsweredAt base r b (id ∷ ids) like some_ids fits known =
      let fresh = context_reset kernels r in
      let at = reset-IsAt base r like in
      let same : 0 + length (id ∷ ids) ≡ length (id ∷ ids) = omega arith in
      subst (IsAnsweredAt base (length (id ∷ ids)))
        (sym (prefill_admitted kernels r b (id ∷ ids) fits known))
        (or_failure-IsAnsweredAt base (length (id ∷ ids)) (forward_ids kernels fresh (id ∷ ids))
          (subst
            (λ n.
              Leaves kernels (λ after _. IsAt base n after) (forward_ids kernels fresh (id ∷ ids)))
            same (forward_ids-IsAt kernels base fresh 0 id ids at))
          (forward_ids-HasLogits base fresh 0 id ids at))

  pub decode-IsAnsweredAt :
      (base r : Runner M) (b : Buffers) (n id : ℕ) (at : IsAt base n r)
      → decode_fits r b id at.sequence ≡ true
      → IsAnsweredAt base (n + 1) (decode kernels r b id)
  unfolding decode decode_on forward_on
  decode-IsAnsweredAt base r b n id at fits =
      let shape : r.sequence ≡ some at.sequence = ap (λ (x : Runner M). x.sequence) at.same in
      let run : decode kernels r b id ≡ or_failure kernels (forward_id kernels r id true) =
        ap (decode_on kernels r b id) shape
        ∙ (rw (fits, decode_on))
        ∙ ap (λ o. or_failure kernels (forward_on kernels r o id true)) (sym shape) in
      subst (IsAnsweredAt base (n + 1)) (sym run) (
        or_failure-IsAnsweredAt base (n + 1) (forward_id kernels r id true)
          (forward_id-IsAt kernels base r n id true at) (forward_id-HasLogits base r n id true at))
