-- ===== src/Generate/Complete.antt =====
-- Proofs that `inkling_generate` of src/model/inkling_generate.c succeeds.
use inkling_in_c.Generate.{Floats, Options}
use inkling_in_c.Generate.Sample.{generate_options, ranks_first, sample_fits}
use inkling_in_c.Generate.Choice.{IsOrdered}
use inkling_in_c.Generate.Loop.{
  Session, next_logits, generate_loop, generate, generate_fits, buffers_fit, Buffers,
  required_tokens, usable_length, StopReason, stop_eos, Generated, stop_length, stop_context,
  publish_tokens, in_vocabulary, last_token,
}
use inkling_in_c.Prelude.{
  ◌≡◌, ℕ, List, QSort, true, Gives, All, length, ◌<◌, Gives-unless, some, ◌∷◌, ◌+◌, ap, arith, ◌==◌,
  ◌||◌, suc, Bool-cases, [], ltb, inl, refl, inr, not, gives, subst, ◌≤◌, false, sym, ◌++◌, zero,
  Gives-bind, if◌then◌else◌, Gives-some, Option, List-cases, append_assoc, append-nil, ◌∙◌,
  length-append,
}
use inkling_in_c.Alloc.{size_add}
use inkling_in_c.Generate.Vocabulary.{in_vocabulary-snoc}
use inkling_in_c.Generate.Total.{
  generate_options-fits, sample_complete, sample-within, admitted, last_token-known,
}

module _ {F : Type 0} (ops : Floats F) where
  module _ (qsort : QSort (ranks_first ops)) where
    module _ {S : Type 0} (session : Session S F) where
      abbrev usable : ℕ
      usable = usable_length session.max_length session.capacity

      -- A call that gives finite logits of the width, and leaves a context as described.
      pub record IsAnswered (After : S → Type 0) (result : S × Option (List F)) : Type 0 where
        pub logits : List F
        pub answered : result.1 ≡ some logits
        pub wide : length logits ≡ session.width
        pub finite : All (λ y. ops.is_finite y ≡ true) logits
        pub after : After result.0

      -- Tokens that the model takes: at least one, no more than the context holds, of the vocabulary.
      pub record IsAdmitted (ids : List ℕ) : Type 0 where
        pub some_ids : 0 < length ids
        pub room : length ids ≤ usable
        pub known : in_vocabulary session.vocab_size ids ≡ true

      -- A model that answers in its live contexts: a prefill of tokens that it takes, the decoding of one
      -- more token in a context that is ready at a position with room, and a pass over tokens that it
      -- takes.
      pub record Answers (Live : S → Type 0) (Ready : S → ℕ → Type 0) : Type 0 where
        pub after_prefill :
            session.incremental ≡ true
            → (s : S) (ids : List ℕ) → Live s
            → IsAdmitted ids
            → IsAnswered (λ t. Ready t (length ids)) (session.prefill s ids)
        pub after_decode :
            session.incremental ≡ true
            → (s : S) (n token : ℕ) → Ready s n
            → n < usable
            → token < session.vocab_size
            → IsAnswered (λ t. Ready t (n + 1)) (session.decode s token)
        pub after_forward :
            session.incremental ≡ false
            → (s : S) (ids : List ℕ) → Live s
            → IsAdmitted ids
            → IsAnswered Live (session.forward_last s ids)

      module _ (Live : S → Type 0) (Ready : S → ℕ → Type 0) (answers : Answers Live Ready)
          (laws : IsOrdered ops) where
        -- The state of a context between two tokens.
        record Stage (s : S) (prompt tokens : List ℕ) : Type 0 where
          passing : session.incremental ≡ false → Live s
          starting : length tokens ≡ 0 → Live s
          going :
              session.incremental ≡ true
              → 0 < length tokens
              → (n : ℕ) × (n + 1 ≡ length (prompt ++ tokens)) × Ready s n

        -- What a call for the next token leaves.
        record IsCalled (prompt tokens : List ℕ) (left : S) : Type 0 where
          passed : session.incremental ≡ false → Live left
          ready : session.incremental ≡ true → Ready left (length (prompt ++ tokens))

        next_logits_complete :
            (s : S) (prompt tokens : List ℕ)
            → IsAdmitted (prompt ++ tokens)
            → Stage s prompt tokens
            → IsAnswered (IsCalled prompt tokens) (next_logits ops qsort session s prompt tokens)
        unfolding next_logits
        next_logits_complete s prompt tokens admitted stage =
            elim (Bool-cases session.incremental) [
              | inr e ↦
                  let a = answers.after_forward e s (prompt ++ tokens) (stage.passing e) admitted in
                  rw (e, next_logits)
                    (record {
                      logits = a.logits;
                      answered = a.answered;
                      wide = a.wide;
                      finite = a.finite;
                      after = record { passed = λ _. a.after; ready = λ f. cc };
                    })
              | inl e ↦ elim (List-cases tokens) [
                | inl empty ↦
                    let same : prompt ++ tokens ≡ prompt =
                      ap (λ l. prompt ++ l) empty ∙ append-nil prompt in
                    let a =
                      answers.after_prefill e s prompt (stage.starting (ap length empty))
                        (subst IsAdmitted same admitted) in
                    let first : (length tokens == 0) ≡ true = ground (arith, ap length empty) in
                    rw (e, first, next_logits)
                      (record {
                        logits = a.logits;
                        answered = a.answered;
                        wide = a.wide;
                        finite = a.finite;
                        after = record {
                          passed = λ f. cc;
                          ready = λ _.
                              subst (λ l. Ready (session.prefill s prompt).0 (length l)) (sym same)
                                a.after;
                        };
                      })
                | inr (token, rest, some_tokens) ↦
                    let later : (length tokens == 0) ≡ false =
                      ground (arith, ap length some_tokens) in
                    let (n, at, ready) = stage.going e (omega (arith, ap length some_tokens)) in
                    let last = last_token (prompt ++ tokens) in
                    let a =
                      answers.after_decode e s n last ready (omega (arith, at, admitted.room)) (
                        last_token-known session.vocab_size (prompt ++ tokens) admitted.some_ids
                          admitted.known) in
                    rw (e, later, next_logits)
                      (record {
                        logits = a.logits;
                        answered = a.answered;
                        wide = a.wide;
                        finite = a.finite;
                        after = record {
                          passed = λ f. cc;
                          ready = λ _. subst (Ready (session.decode s last).0) at a.after;
                        };
                      })
              ]
            ]

        -- One more token of the vocabulary is admitted where there is room.
        IsAdmitted-snoc :
            (prompt tokens : List ℕ) (token : ℕ)
            → IsAdmitted (prompt ++ tokens)
            → token < session.vocab_size
            → length (prompt ++ tokens) < usable
            → IsAdmitted (prompt ++ (tokens ++ token ∷ []))
        IsAdmitted-snoc prompt tokens token a known room =
            let same = append_assoc prompt tokens (token ∷ []) in
            subst IsAdmitted same (record {
              some_ids = omega (arith, length-append (prompt ++ tokens) (token ∷ []));
              room = omega (arith, room, length-append (prompt ++ tokens) (token ∷ []));
              known = in_vocabulary-snoc session.vocab_size (prompt ++ tokens) token a.known known;
            })

        generate_loop_complete :
            session.width ≤ session.vocab_size
            → (n : ℕ) (options effective : Options F) (s : S) (state : ℕ) (prompt tokens : List ℕ)
            → sample_fits ops session.width effective ≡ true
            → IsAdmitted (prompt ++ tokens)
            → Stage s prompt tokens
            → length (prompt ++ tokens) + n ≤ usable
            → (r : List ℕ × StopReason) × ((generate_loop ops qsort session n options effective s
                  state prompt tokens).1
                ≡ some r)
        unfolding generate_loop
        generate_loop_complete narrow zero options effective s state prompt tokens fits a stage
              room =
            (_, refl)
        generate_loop_complete narrow (suc n) options effective s state prompt tokens fits a stage
              room =
            let called = next_logits_complete s prompt tokens a stage in
            let left = (next_logits ops qsort session s prompt tokens).0 in
            let ((token, next), drawn) =
              sample_complete ops qsort called.logits effective state called.finite
                (subst (λ w. sample_fits ops w effective ≡ true) (sym called.wide) fits) in
            let within = sample-within ops qsort laws called.logits effective state drawn in
            let more = tokens ++ token ∷ [] in
            elim (Bool-cases (token == session.eos_token_id)) [
              | inl e ↦ ((more, stop_eos), rw (called.answered, generate_loop, drawn, e))
              | inr e ↦ elim (Bool-cases (length more == options.max_new_tokens)) [
                | inl f ↦ ((more, stop_length), rw (called.answered, generate_loop, drawn, e, f))
                | inr f ↦
                    let longer : length (prompt ++ more) ≡ length (prompt ++ tokens) + 1 = omega (
                      arith,
                      ap length (append_assoc prompt tokens (token ∷ [])),
                      length-append (prompt ++ tokens) (token ∷ []),
                    ) in
                    let (r, rest) =
                      generate_loop_complete narrow n options effective left next prompt more fits
                        (IsAdmitted-snoc prompt tokens token a
                          (omega (arith, within, called.wide, narrow)) (omega (arith, room)))
                        (record {
                          passing = called.after.passed;
                          starting =
                              λ z. absurd (omega (arith, z, length-append tokens (token ∷ [])));
                          going =
                              λ i _. (length (prompt ++ tokens), sym longer, called.after.ready i);
                        })
                        (omega (arith, longer, room)) in
                    (r, rw (called.answered, generate_loop, drawn, e, f) rest)
              ]
            ]

      generate_fits-fits :
          IsOrdered ops
          → (prompt : List ℕ) (options : Options F) (output : List ℕ)
          → Gives
              (λ e. sample_fits ops session.width e ≡ true)
              (generate_fits ops qsort session prompt options output)
      unfolding generate_fits
      generate_fits-fits laws prompt options output =
          Gives-bind (generate_options ops options session.width) λ effective e.
            Gives-bind (size_add (length prompt) options.max_new_tokens) λ total _.
              Gives-unless
                (ltb (usable_length session.max_length session.capacity) (length prompt)
                  || ltb (length output) (
                      required_tokens (usable_length session.max_length session.capacity)
                        (length prompt) options.max_new_tokens)
                  || not (in_vocabulary session.vocab_size prompt))
                λ _. gives (Gives-some (generate_options-fits ops laws options session.width) e)

      generate_fits-admits :
          (prompt : List ℕ) (options : Options F) (output : List ℕ) {effective : Options F}
          → generate_fits ops qsort session prompt options output ≡ some effective
          → (length prompt ≤ usable) × (in_vocabulary session.vocab_size prompt ≡ true)
      unfolding generate_fits
      generate_fits-admits prompt options output e =
          Gives-some
            {P = λ _. (length prompt ≤ usable) × (in_vocabulary session.vocab_size prompt ≡ true)}
            (Gives-bind (generate_options ops options session.width) λ effective _.
              Gives-bind (size_add (length prompt) options.max_new_tokens) λ total _.
                Gives-unless
                  (ltb usable (length prompt)
                    || ltb (length output)
                        (required_tokens usable (length prompt) options.max_new_tokens)
                    || not (in_vocabulary session.vocab_size prompt))
                  λ h. gives (ground arith, ground arith))
            e

      -- If the model answers the calls that it takes in a live context (a prefill of tokens of the
      -- vocabulary that fit the context, and the decoding of one more where there is room) with finite
      -- logits, no more of them than the vocabulary has tokens, and the numbers are ordered as `double`
      -- is, then a call of `inkling_generate` on a live context whose arguments pass the guards, and whose
      -- buffers are prepared, ends with a result.
      pub generate_complete :
          (Live : S → Type 0) (Ready : S → ℕ → Type 0)
          → Answers Live Ready
          → IsOrdered ops
          → session.width ≤ session.vocab_size
          → (buffers : Buffers) (s : S) (prompt : List ℕ) (options effective : Options F)
            (output : List ℕ)
          → Live s
          → session.is_complete ≡ true
          → 0 < length prompt
          → buffers_fit buffers (length prompt) (length output) ≡ true
          → generate_fits ops qsort session prompt options output ≡ some effective
          → (g : Generated F) × ((generate ops qsort session true buffers s prompt options output).1
              ≡ some g)
      unfolding generate
      generate_complete Live Ready answers laws narrow buffers s prompt options effective output
            live complete some_prompt fit fits =
          let required =
            required_tokens (usable_length session.max_length session.capacity) (length prompt)
              options.max_new_tokens in
          let first = if options.max_new_tokens == 0 then stop_length else stop_context in
          let prompted : (length prompt == 0) ≡ false = ground arith in
          let guard =
            admitted session.is_complete (length prompt == 0)
              (buffers_fit buffers (length prompt) (length output)) complete prompted fit in
          let valid = Gives-some (generate_fits-fits laws prompt options output) fits in
          let (room, known) = generate_fits-admits prompt options output fits in
          let same = append-nil prompt in
          let alone : IsAdmitted prompt = record {
            some_ids = some_prompt;
            room = room;
            known = known;
          } in
          let (r, run) =
            generate_loop_complete Live Ready answers laws narrow required options effective s
              options.seed prompt [] valid (subst IsAdmitted (sym same) alone)
              (record {
                passing = λ _. live;
                starting = λ _. live;
                going = λ _ l. absurd (omega arith);
              })
              (ground (arith, ap length same)) in
          elim (Bool-cases (required == 0)) [
            | inl z ↦ (
              publish_tokens ops qsort session effective output ([], first),
              rw (guard, generate, fits, z),
            )
            | inr z ↦ (
              publish_tokens ops qsort session effective output r,
              rw (guard, generate, fits, z, run),
            )
          ]
