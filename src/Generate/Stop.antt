-- ===== src/Generate/Stop.antt =====
-- Proofs on the loop of `inkling_generate` in src/model/inkling_generate.c.
use inkling_in_c.Generate.{Floats, Options}
use inkling_in_c.Generate.Sample.{ranks_first, sample, generate_options}
use inkling_in_c.Generate.Loop.{
  StopReason, stop_length, stop_context, stop_eos, Session, Generated, next_logits, generate_loop,
  generate, usable_length, required_tokens, publish_tokens, generate_fits, buffers_fit, Buffers,
  in_vocabulary,
}
use inkling_in_c.Prelude.{
  ℕ, QSort, List, All, length, ◌≢◌, ◌≤◌, ◌++◌, ◌∷◌, ◌+◌, [], ◌≡◌, ◌<◌, Gives, suc, Option-cases,
  bind, inl, nothing, inr, arith, Bool, gives, drop, length-append, Bool-cases, ◌==◌, ==_iff, subst,
  sym, ==_false, zero, Gives-bind, not, if◌then◌else◌, refl, ◌||◌, Gives-some, Gives-unless, ltb,
  Gives-map, All-snoc, false,
}
use inkling_in_c.Alloc.{size_add}

-- Why the generation of these tokens ended, where at most `required` tokens fit and `limit` were asked.
pub data Stopped (eos limit required : ℕ) : List ℕ → StopReason → Type 0 where
  at_eos :
      (ts : List ℕ) → All (λ t. t ≢ eos) ts → Stopped eos limit required (ts ++ eos ∷ []) stop_eos
  at_length :
      (ts : List ℕ)
      → All (λ t. t ≢ eos) ts
      → length ts ≡ limit
      → Stopped eos limit required ts stop_length
  at_context :
      (ts : List ℕ)
      → All (λ t. t ≢ eos) ts
      → length ts ≡ required
      → required < limit
      → Stopped eos limit required ts stop_context

-- What a run that succeeds leaves.
pub record IsRun (eos limit required : ℕ) (tokens : List ℕ) (reason : StopReason) : Type 0 where
  pub bounded : length tokens ≤ required
  pub stopped : Stopped eos limit required tokens reason

module _ {S F : Type 0} (ops : Floats F) (qsort : QSort (ranks_first ops))
    (session : Session S F) where
  generate_loop-IsRun :
      (n : ℕ) (options effective : Options F) (s : S) (state : ℕ) (prompt tokens : List ℕ)
      (required : ℕ)
      → All (λ t. t ≢ session.eos_token_id) tokens
      → length tokens + n ≡ required
      → length tokens < options.max_new_tokens
      → required ≤ options.max_new_tokens
      → Gives
          (λ r. IsRun session.eos_token_id options.max_new_tokens required r.0 r.1)
          (generate_loop ops qsort session n options effective s state prompt tokens).1
  unfolding generate_loop
  generate_loop-IsRun zero options effective s state prompt tokens required h l m r =
      let full : length tokens ≡ required = omega arith in
      gives (record { bounded = omega arith; stopped = at_context tokens h full (omega arith) })
  generate_loop-IsRun (suc n) options effective s state prompt tokens required h l m r =
      let (left, logits) = next_logits ops qsort session s prompt tokens in
      elim (Option-cases (bind logits λ l. sample ops qsort l effective state)) [
        | inl e ↦ rw (e, generate_loop) nothing
        | inr ((token, next), e) ↦
            rw (e, generate_loop)
              (let more = tokens ++ token ∷ [] in
                let longer : length more ≡ length tokens + 1 = length-append tokens (token ∷ []) in
                elim (Bool-cases (token == session.eos_token_id)) [
                  | inl f ↦
                      let same : token ≡ session.eos_token_id =
                        (==_iff token session.eos_token_id).0 f in
                      rw f (
                        gives (record {
                          bounded = omega (arith, longer);
                          stopped =
                              subst
                                (λ t.
                                  Stopped session.eos_token_id options.max_new_tokens required
                                    (tokens ++ t ∷ []) stop_eos)
                                (sym same) (at_eos tokens h);
                        }))
                  | inr f ↦
                      let no_eos =
                        All-snoc (λ t. t ≢ session.eos_token_id) tokens token h (==_false f) in
                      elim (Bool-cases (length more == options.max_new_tokens)) [
                        | inl g ↦
                            let full : length more ≡ options.max_new_tokens =
                              (==_iff (length more) options.max_new_tokens).0 g in
                            rw (f, g)
                              (gives (record {
                                bounded = omega (arith, longer);
                                stopped = at_length more no_eos full;
                              }))
                        | inr g ↦
                            rw (f, g)
                              (generate_loop-IsRun n options effective left next prompt more
                                required no_eos (omega (arith, longer))
                                (omega (arith, longer, ==_false g)) r)
                      ]
                ])
      ]

  abbrev pub required_of : List ℕ → Options F → ℕ
  required_of prompt options =
      required_tokens (usable_length session.max_length session.capacity) (length prompt)
        options.max_new_tokens

  required-lt :
      (prompt : List ℕ) (options : Options F)
      → (required_of prompt options == 0) ≡ false
      → 0 < options.max_new_tokens
  required-lt prompt options g = ground arith

  required-le :
      (prompt : List ℕ) (options : Options F) → required_of prompt options ≤ options.max_new_tokens
  required-le prompt options = ground arith

  -- What `inkling_generate` leaves when it succeeds.
  pub record IsGeneration (prompt : List ℕ) (options : Options F) (output : List ℕ)
      (g : Generated F) : Type 0 where
    pub tokens : List ℕ
    pub run :
        IsRun session.eos_token_id options.max_new_tokens
          (required_of prompt options)
          tokens
          g.stop_reason
    pub counted : g.generated_count ≡ length tokens
    pub written : g.output ≡ tokens ++ drop (length tokens) output
    pub fits : required_of prompt options ≤ length output

  publish-IsGeneration :
      (prompt : List ℕ) (options effective : Options F) (output : List ℕ)
      → required_of prompt options ≤ length output
      → (run : List ℕ × StopReason)
      → IsRun session.eos_token_id options.max_new_tokens (required_of prompt options) run.0 run.1
      → IsGeneration prompt options output (publish_tokens ops qsort session effective output run)
  unfolding publish_tokens
  publish-IsGeneration prompt options effective output fits (tokens, reason) run = record {
    tokens = tokens;
    run = run;
    counted = refl;
    written = refl;
    fits = fits;
  }

  generate_fits-room :
      (prompt : List ℕ) (options : Options F) (output : List ℕ)
      → Gives
          (λ e. required_of prompt options ≤ length output)
          (generate_fits ops qsort session prompt options output)
  unfolding generate_fits
  generate_fits-room prompt options output =
      Gives-bind (generate_options ops options session.width) λ effective _.
        Gives-bind (size_add (length prompt) options.max_new_tokens) λ total _.
          Gives-unless
            (ltb (usable_length session.max_length session.capacity) (length prompt)
              || ltb (length output) (required_of prompt options)
              || not (in_vocabulary session.vocab_size prompt))
            λ room. gives (ground arith)

  nothing_run :
      (prompt : List ℕ) (options : Options F)
      → required_of prompt options ≡ 0
      → IsRun session.eos_token_id options.max_new_tokens
          (required_of prompt options)
          []
          (if options.max_new_tokens == 0 then stop_length else stop_context)
  nothing_run prompt options e = elim (Bool-cases (options.max_new_tokens == 0)) [
    | inl f ↦ rw f (record {
      bounded = omega arith;
      stopped = at_length [] tt (sym ((==_iff options.max_new_tokens 0).0 f));
    })
    | inr f ↦ rw f (record {
      bounded = omega arith;
      stopped = at_context [] tt (sym e) (omega (arith, e, ==_false f));
    })
  ]

  -- A run of `inkling_generate` that succeeds writes tokens to the front of the output and nothing
  -- behind them, as many as its result counts, no more than the request, the context behind the prompt
  -- and the buffer hold. The reason tells what happened: the last token is EOS and no token before it;
  -- or there are as many tokens as requested, and no EOS; or the context is full before the request.
  pub generate-IsGeneration :
      (prepared : Bool) (buffers : Buffers) (s : S) (prompt : List ℕ) (options : Options F)
      (output : List ℕ)
      → Gives
          (IsGeneration prompt options output)
          (generate ops qsort session prepared buffers s prompt options output).1
  unfolding generate
  generate-IsGeneration prepared buffers s prompt options output =
      let required = required_of prompt options in
      elim (Bool-cases (
        not session.is_complete
        || length prompt == 0
        || not (buffers_fit buffers (length prompt) (length output)))) [
          | inl e ↦ rw (e, generate) nothing
          | inr e ↦ elim (Option-cases (generate_fits ops qsort session prompt options output)) [
            | inl f ↦ rw (e, generate, f) nothing
            | inr (effective, f) ↦
                let room = Gives-some (generate_fits-room prompt options output) f in
                elim (Bool-cases (required == 0)) [
                  | inl g ↦
                      rw (e, generate, f, g)
                        (gives (
                          publish-IsGeneration prompt options effective output room _
                            (nothing_run prompt options ((==_iff required 0).0 g))))
                  | inr g ↦ elim (Bool-cases prepared) [
                    | inr p ↦ rw (e, generate, f, g, p) nothing
                    | inl p ↦
                        rw (e, generate, f, g, p)
                          (Gives-map
                            (generate_loop ops qsort session required options effective s
                              options.seed prompt []).1
                            (publish_tokens ops qsort session effective output)
                            λ run h. publish-IsGeneration prompt options effective output room run (
                              Gives-some
                                (generate_loop-IsRun required options effective s options.seed
                                  prompt [] required tt (omega arith) (required-lt prompt options g)
                                  (required-le prompt options))
                                h))
                  ]
                ]
          ]
        ]
