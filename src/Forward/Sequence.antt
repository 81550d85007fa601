-- ===== src/Forward/Sequence.antt =====
-- The sequence of an incremental context in src/model/inkling_forward.c: `inkling_context_reset`,
-- `token_forward`, `sequence_failure`, `inkling_context_position`, `inkling_prefill` and
-- `inkling_decode`.
use mathlib.Core.Option
use inkling_in_c.Alloc.{size_mul}
use inkling_in_c.Cache.{increment}
use inkling_in_c.Generate.Loop.{in_vocabulary}
use inkling_in_c.Prelude.{
  ℕ, false, Option, Bool, true, List, ◌&&◌, some, if◌then◌else◌, none, leb, not, [], ◌∷◌, length,
  ltb, ◌+◌, ◌==◌, ◌-◌,
}

-- `InklingSequence`; `layers` is what the layers keep between the tokens.
pub record Sequence (M : Type 0) : Type 0 where
  pub position : ℕ
  pub valid : Bool
  pub layers : M

-- The part of `InklingRuntimeStats` that the reads of weights and the cache of experts change.
pub record ReadStats : Type 0 where
  pub bytes_read : ℕ
  pub read_calls : ℕ
  pub cache_hits : ℕ
  pub cache_misses : ℕ
  pub cache_evictions : ℕ
  pub cache_bytes : ℕ
  pub cache_peak_bytes : ℕ

-- The part of `InklingContext` and of its model that the sequence uses; `tokens_processed` and `reads`
-- are its statistics.
pub record Runner (M : Type 0) : Type 0 where
  pub capacity : ℕ
  pub incremental : Bool
  pub complete : Bool
  pub model_max_length : ℕ
  pub vocab_size : ℕ
  pub unpadded_vocab_size : ℕ
  pub sequence : Option (Sequence M)
  pub tokens_processed : ℕ
  pub reads : ReadStats

-- What is computed on floating-point numbers: the histories set to 0; the embedding of a token and the
-- layers at a position, which change what the layers keep, and give the hidden values if they succeed;
-- and the logits of hidden values. Both read weights, and give the statistics of the reads behind them.
pub record Kernels (M H F : Type 0) : Type 0 where
  pub clear : M → M
  pub layers : M → ℕ → ℕ → M × Option H
  pub layers_reads : ReadStats → M → ℕ → ℕ → ReadStats
  pub head : H → Option (List F)
  pub head_reads : ReadStats → H → ReadStats

-- `overlap`
unfoldable pub overlap : ℕ → ℕ → ℕ → ℕ → Bool
overlap a a_bytes b b_bytes = if leb a b then ltb (b - a) a_bytes else ltb (a - b) b_bytes

-- The buffers of a call: their addresses, and how many logits fit.
pub record Buffers : Type 0 where
  pub ids_at : ℕ
  pub logits_at : ℕ
  pub logits_count : ℕ

module _ {M : Type 0} where
  abbrev pub invalidate : Sequence M → Sequence M
  invalidate s = record s { valid = false; position = 0 }

  -- `sequence_failure`
  unfoldable pub sequence_failure : Runner M → Runner M
  sequence_failure r = record r { sequence = Option.map invalidate r.sequence }

  position_of : Option (Sequence M) → ℕ
  position_of none = 0
  position_of (some s) = if s.valid then s.position else 0

  -- `inkling_context_position`
  unfoldable pub context_position : Runner M → ℕ
  unfolding position_of
  context_position r = position_of r.sequence

  abbrev pub has_sequence : Runner M → Bool
  has_sequence r = elim r.sequence [ none ↦ false | some _ ↦ true ]

  -- The guards of `inkling_prefill`, with a context that is not NULL.
  unfoldable pub prefill_fits : Runner M → Buffers → ℕ → Bool
  prefill_fits r b tokens =
      r.incremental
      && has_sequence r
      && r.complete
      && not (b.ids_at == 0)
      && not (b.logits_at == 0)
      && not (tokens == 0)
      && leb tokens r.capacity
      && leb tokens r.model_max_length
      && leb r.unpadded_vocab_size b.logits_count
      && (elim (size_mul r.unpadded_vocab_size 4) [
        | none ↦ false
        | some bytes ↦ elim (size_mul tokens 4) [
          | none ↦ false
          | some id_bytes ↦ not (overlap b.ids_at id_bytes b.logits_at bytes)
        ]
      ])

  -- The guards of `inkling_decode` on the sequence.
  unfoldable pub decode_fits : Runner M → Buffers → ℕ → Sequence M → Bool
  decode_fits r b id s =
      r.incremental
      && s.valid
      && r.complete
      && not (b.logits_at == 0)
      && leb r.unpadded_vocab_size b.logits_count
      && ltb id r.vocab_size
      && ltb s.position r.capacity
      && ltb s.position r.model_max_length

module _ {M H F : Type 0} (kernels : Kernels M H F) where
  abbrev pub restart : Sequence M → Sequence M
  restart s = record { position = 0; valid = true; layers = kernels.clear s.layers }

  -- `inkling_context_reset`
  unfoldable pub context_reset : Runner M → Runner M
  context_reset r = record r { sequence = Option.map restart r.sequence }

  -- The last part of `token_forward`: the logits, if there are any, and the next position.
  unfoldable pub with_logits :
      Runner M → Sequence M → M → Option (List F) → Runner M × Option (List F)
  with_logits r s m none = (record r { sequence = some (record s { layers = m }) }, none)
  with_logits r s m (some logits) = (
    record r {
      sequence = some (record s { layers = m; position = s.position + 1 });
      tokens_processed = increment r.tokens_processed 1;
    },
    some logits,
  )

  unfoldable pub finish_token :
      Runner M → Sequence M → M → Bool → Option H → Runner M × Option (List F)
  unfolding with_logits
  finish_token r s m wanted none = (record r { sequence = some (record s { layers = m }) }, none)
  finish_token r s m wanted (some h) =
      with_logits (record r { reads = if wanted then kernels.head_reads r.reads h else r.reads }) s
        m (if wanted then kernels.head h else some [])

  -- `token_forward`; `wanted` is whether `logits` is not NULL.
  unfoldable pub token_forward : Runner M → Sequence M → ℕ → Bool → Runner M × Option (List F)
  unfolding finish_token
  token_forward r s id wanted =
      let (m, hidden) = kernels.layers s.layers s.position id in
      finish_token (record r { reads = kernels.layers_reads r.reads s.layers s.position id }) s m
        wanted hidden

  -- `token_forward` on the sequence of the context; a context without one is refused before.
  unfoldable pub forward_on : Runner M → Option (Sequence M) → ℕ → Bool → Runner M × Option (List F)
  unfolding token_forward
  forward_on r none id wanted = (r, none)
  forward_on r (some s) id wanted = token_forward r s id wanted

  abbrev pub forward_id : Runner M → ℕ → Bool → Runner M × Option (List F)
  forward_id r id wanted = forward_on r r.sequence id wanted

  -- What follows a step that may fail.
  unfoldable pub chain :
      Runner M × Option (List F)
      → (Runner M → Runner M × Option (List F))
      → Runner M × Option (List F)
  chain (r, none) next = (r, none)
  chain (r, some _) next = next r

  -- The loop of `inkling_prefill`; the logits of the last token are wanted.
  unfoldable pub forward_ids : Runner M → List ℕ → Runner M × Option (List F)
  unfolding chain
  forward_ids r [] = (r, some [])
  forward_ids r (id ∷ []) = forward_id r id true
  forward_ids r (id ∷ next ∷ ids) =
      chain (forward_id r id false) (λ left. forward_ids left (next ∷ ids))

  -- A failure of the computation invalidates the sequence.
  unfoldable pub or_failure : Runner M × Option (List F) → Runner M × Option (List F)
  or_failure (r, none) = (sequence_failure r, none)
  or_failure (r, some logits) = (r, some logits)

  -- `inkling_prefill`
  unfoldable pub prefill : Runner M → Buffers → List ℕ → Runner M × Option (List F)
  unfolding or_failure
  prefill r b ids =
      let fresh = context_reset r in
      if prefill_fits fresh b (length ids) && in_vocabulary r.vocab_size ids
      then or_failure (forward_ids fresh ids)
      else (sequence_failure fresh, none)

  unfoldable pub decode_on :
      Runner M → Buffers → ℕ → Option (Sequence M) → Runner M × Option (List F)
  unfolding or_failure
  decode_on r b id none = (sequence_failure r, none)
  decode_on r b id (some s) =
      if decode_fits r b id s
      then or_failure (token_forward r s id true)
      else (sequence_failure r, none)

  -- `inkling_decode`
  unfoldable pub decode : Runner M → Buffers → ℕ → Runner M × Option (List F)
  unfolding decode_on
  decode r b id = decode_on r b id r.sequence
