-- ===== src/Generate/Loop.antt =====
-- `valid_range`, `overlaps` and `inkling_generate` of src/model/inkling_generate.c. A pointer is its
-- address; NULL is 0.
use mathlib.Core.Option
use inkling_in_c.Generate.{Floats, Options}
use inkling_in_c.Generate.Sample.{ranks_first, generate_options, sample}
use inkling_in_c.Alloc.{size_mul, size_add}
use inkling_in_c.Prelude.{
  ℕ, Bool, List, QSort, Option, ◌∷◌, true, length, if◌then◌else◌, none, bind, false, leb, ltb, some,
  ◌++◌, not, ◌==◌, [], ptrdiff_max, ◌||◌, ◌&&◌, ◌-◌, drop, suc, u64_max, zero,
}

-- `InklingStopReason`
pub data StopReason : Type 0 where
  stop_length stop_context stop_eos : StopReason

-- `valid_range`: the size of the range.
unfoldable pub valid_range : ℕ → ℕ → ℕ → Option ℕ
valid_range pointer count element = bind (size_mul count element) λ bytes.
    if leb bytes ptrdiff_max && (bytes == 0 || not (pointer == 0) && leb pointer (u64_max - bytes))
    then some bytes
    else none

unfoldable pub overlaps : ℕ → ℕ → ℕ → ℕ → Bool
overlaps a a_bytes b b_bytes =
    if a_bytes == 0 || b_bytes == 0
    then false
    else if leb a b
    then ltb (b - a) a_bytes
    else ltb (a - b) b_bytes

-- The addresses of the buffers.
pub record Buffers : Type 0 where
  pub prompt_at : ℕ
  pub output_at : ℕ
  pub options_at : ℕ
  pub result_at : ℕ

-- The first guards of `inkling_generate` on the buffers.
unfoldable pub buffers_fit : Buffers → ℕ → ℕ → Bool
buffers_fit b prompt_count output_capacity = elim (valid_range b.prompt_at prompt_count 4) [
  | none ↦ false
  | some prompt_bytes ↦ elim (valid_range b.output_at output_capacity 4) [
    | none ↦ false
    | some output_bytes ↦ elim (valid_range b.options_at 1 40) [
      | none ↦ false
      | some options_bytes ↦ elim (valid_range b.result_at 1 56) [
        | none ↦ false
        | some result_bytes ↦
            not (overlaps b.output_at output_bytes b.prompt_at prompt_bytes)
            && not (overlaps b.output_at output_bytes b.options_at options_bytes)
            && not (overlaps b.output_at output_bytes b.result_at result_bytes)
            && not (overlaps b.result_at result_bytes b.prompt_at prompt_bytes)
            && not (overlaps b.result_at result_bytes b.options_at options_bytes)
      ]
    ]
  ]
]

-- What the loop uses of the context and of its model: each call gives the context that it leaves, and
-- the logits, if it succeeds.
pub record Session (S F : Type 0) : Type 0 where
  pub is_complete : Bool
  pub width : ℕ
  pub max_length : ℕ
  pub capacity : ℕ
  pub vocab_size : ℕ
  pub eos_token_id : ℕ
  pub incremental : Bool
  pub prefill : S → List ℕ → S × Option (List F)
  pub decode : S → ℕ → S × Option (List F)
  pub forward_last : S → List ℕ → S × Option (List F)

-- `InklingGenerateResult`, with the output behind the tokens that were generated.
pub record Generated (F : Type 0) : Type 0 where
  pub generated_count : ℕ
  pub stop_reason : StopReason
  pub effective : Options F
  pub output : List ℕ

unfoldable pub last_token : List ℕ → ℕ
last_token [] = 0
last_token (t ∷ []) = t
last_token (t ∷ u ∷ ts) = last_token (u ∷ ts)

-- The loop over the prompt.
unfoldable pub in_vocabulary : ℕ → List ℕ → Bool
in_vocabulary vocab_size [] = true
in_vocabulary vocab_size (t ∷ ts) = if leb vocab_size t then false else in_vocabulary vocab_size ts

abbrev pub usable_length : ℕ → ℕ → ℕ
usable_length max_length capacity = if ltb capacity max_length then capacity else max_length

-- The number of tokens that the caller's buffer must hold.
abbrev pub required_tokens : ℕ → ℕ → ℕ → ℕ
required_tokens usable prompt_count max_new_tokens =
    if ltb max_new_tokens (usable - prompt_count) then max_new_tokens else usable - prompt_count

module _ {S F : Type 0} (ops : Floats F) (qsort : QSort (ranks_first ops))
    (session : Session S F) where
  -- The call of the model for the next token.
  unfoldable pub next_logits : S → List ℕ → List ℕ → S × Option (List F)
  next_logits s prompt tokens =
      if session.incremental
      then if length tokens == 0
        then session.prefill s prompt
        else session.decode s (last_token (prompt ++ tokens))
      else session.forward_last s (prompt ++ tokens)

  -- The loop, with `n` tokens left to the required number.
  unfoldable pub generate_loop :
      ℕ → Options F → Options F → S → ℕ → List ℕ → List ℕ → S × Option (List ℕ × StopReason)
  unfolding next_logits
  generate_loop zero options effective s state prompt tokens = (s, some (tokens, stop_context))
  generate_loop (suc n) options effective s state prompt tokens =
      let (left, logits) = next_logits s prompt tokens in
      elim (bind logits λ l. sample ops qsort l effective state) [
        | none ↦ (left, none)
        | some (token, next) ↦
            let more = tokens ++ token ∷ [] in
            let rest = generate_loop n options effective left next prompt more in
            if token == session.eos_token_id
            then (left, some (more, stop_eos))
            else if length more == options.max_new_tokens
            then (left, some (more, stop_length))
            else rest
      ]

  -- The result, from the tokens and the reason.
  unfoldable pub publish_tokens : Options F → List ℕ → List ℕ × StopReason → Generated F
  publish_tokens effective output (tokens, reason) = record {
    generated_count = length tokens;
    stop_reason = reason;
    effective = effective;
    output = tokens ++ drop (length tokens) output;
  }

  -- The guards behind those on the buffers; the options that take effect.
  unfoldable pub generate_fits : List ℕ → Options F → List ℕ → Option (Options F)
  generate_fits prompt options output =
      let usable = usable_length session.max_length session.capacity in
      bind (generate_options ops options session.width) λ effective.
        bind (size_add (length prompt) options.max_new_tokens) λ total.
          if ltb usable (length prompt)
            || ltb (length output) (required_tokens usable (length prompt) options.max_new_tokens)
            || not (in_vocabulary session.vocab_size prompt)
          then none
          else some effective

  -- `inkling_generate`. `prepared` is the answer of `prepare`; `output` is what the buffer holds before
  -- the call. A failure leaves the output and the result as they were.
  unfoldable pub generate :
      Bool → Buffers → S → List ℕ → Options F → List ℕ → S × Option (Generated F)
  unfolding publish_tokens
  generate prepared buffers s prompt options output =
      if not session.is_complete
        || length prompt == 0
        || not (buffers_fit buffers (length prompt) (length output))
      then (s, none)
      else elim (generate_fits prompt options output) [
        | none ↦ (s, none)
        | some effective ↦
            let usable = usable_length session.max_length session.capacity in
            let required = required_tokens usable (length prompt) options.max_new_tokens in
            let first = if options.max_new_tokens == 0 then stop_length else stop_context in
            if required == 0
            then (s, some (publish_tokens effective output ([], first)))
            else if not prepared
            then (s, none)
            else (let (left, run) =
                  generate_loop required options effective s options.seed prompt [] in
                (left, Option.map (publish_tokens effective output) run))
      ]
