-- ===== src/Generate/Tests.antt =====
-- Runs of the sampler and of the generation loop, and their theorems at concrete inputs, with natural
-- numbers for `double`.
use inkling_in_c.Generate.{Floats, Options, Candidate}
use inkling_in_c.Generate.Sample.{
  ranks_first, sample, find_best, candidates_from, weigh, retain, nucleus, mix, pick, draw, mass_of,
  generate_options,
}
use inkling_in_c.Generate.Loop.{
  Session, generate, Buffers, generate_loop, generate_fits, buffers_fit, next_logits, last_token,
  in_vocabulary, overlaps, valid_range, publish_tokens, stop_eos, Generated,
}
use inkling_in_c.Generate.Stop.{generate-IsGeneration, IsGeneration}
use inkling_in_c.Generate.Kept.{sample-IsSampled, IsSampled}
use inkling_in_c.Generate.Choice.{IsOrdered}
use inkling_in_c.Generate.Complete.{generate_complete, Answers}
use inkling_in_c.Generate.Incremental.{session_of, session_of-Answers, IsPrepared}
use inkling_in_c.Forward.Answering.{IsLike}
use inkling_in_c.Forward.Steps.{IsAt}
use inkling_in_c.Forward.Sequence as Calls
use inkling_in_c.Forward.Sequence.{
  Sequence, Runner, ReadStats, Kernels, prefill_fits, decode_fits, overlap,
}
use inkling_in_c.Alloc.{size_mul, size_add}
use inkling_in_c.Prelude.{
  ℕ, arith, QSort, insert, Option, ◌≡◌, Gives, true, false, insertion_qsort, List, insertion_sort,
  some, ◌∷◌, refl, ltb, set, [], All, ◌+◌, replicate, ◌-◌, ◌%◌, ◌*◌, ◌/◌, length, length-set, ◌++◌,
}

abbrev ops : Floats ℕ
ops = record {
  is_finite = λ a. true;
  less = ltb;
  nought = 0;
  one = 1;
  largest = 1000;
  negate_float = λ a. 0;
  add = λ a b. a + b;
  subtract = λ a b. a - b;
  multiply = λ a b. a * b;
  divide = λ a b. a / b;
  exponential = λ a. a + 1;
  unit = λ w. w % 4;
}

ops-IsOrdered : IsOrdered ops
ops-IsOrdered = record {
  nought_finite = refl;
  one_finite = refl;
  nought_one = refl;
  irreflexive = λ a. ground arith;
  asymmetric = λ a b h. ground arith;
  behind = λ a b c _ _ _ h k. ground arith;
}

ranks_first-total : (a b : Candidate ℕ) → ranks_first ops a b ≡ false → ranks_first ops b a ≡ true
unfolding ranks_first
ranks_first-total a b e = ground arith

abbrev qsort : QSort (ranks_first ops)
qsort = insertion_qsort (ranks_first ops) ranks_first-total

abbrev greedy : Options ℕ
greedy = record { max_new_tokens = 5; temperature = 0; top_k = 0; top_p = 1; seed = 7 }

abbrev warm : Options ℕ
warm = record { max_new_tokens = 5; temperature = 1; top_k = 2; top_p = 1; seed = 7 }

-- A model whose next token is one more than the last; 6 is EOS.
logits_after : ℕ → List ℕ
logits_after token = set (replicate 8 1) ((token + 1) % 8) 5

abbrev session : Session (Unit {0}) ℕ
session = record {
  is_complete = true;
  width = 8;
  max_length = 10;
  capacity = 9;
  vocab_size = 8;
  eos_token_id = 6;
  incremental = true;
  prefill = λ s prompt. (s, some (logits_after (last_token prompt)));
  decode = λ s token. (s, some (logits_after token));
  forward_last = λ s prefix. (s, some (logits_after (last_token prefix)));
}

abbrev buffers : Buffers
buffers = record { prompt_at = 100; output_at = 200; options_at = 300; result_at = 400 }

program : Unit {0}
unfolding ranks_first sample find_best candidates_from weigh retain nucleus mix pick draw mass_of
    generate_options generate generate_loop generate_fits buffers_fit next_logits last_token
    in_vocabulary overlaps valid_range publish_tokens size_mul size_add logits_after insert
    insertion_sort
program = tt

abbrev run : Unit {0} × Option (Generated ℕ)
run = generate ops qsort session true buffers tt (3 ∷ []) greedy (9 ∷ 9 ∷ 9 ∷ 9 ∷ 9 ∷ 9 ∷ [])

generate_runs : run ≡ (
  tt,
  some (record {
    generated_count = 3;
    stop_reason = stop_eos;
    effective = record greedy { top_k = 1 };
    output = 4 ∷ 5 ∷ 6 ∷ 9 ∷ 9 ∷ 9 ∷ [];
  }),
)
unfolding program
generate_runs = refl

generate-IsGeneration_example :
    Gives (IsGeneration ops qsort session (3 ∷ []) greedy (9 ∷ 9 ∷ 9 ∷ 9 ∷ 9 ∷ 9 ∷ [])) run.1
generate-IsGeneration_example =
    generate-IsGeneration ops qsort session true buffers tt (3 ∷ []) greedy
      (9 ∷ 9 ∷ 9 ∷ 9 ∷ 9 ∷ 9 ∷ [])

sample-IsSampled_example :
    Gives (IsSampled ops qsort (4 ∷ 9 ∷ 6 ∷ []) warm 7) (sample ops qsort (4 ∷ 9 ∷ 6 ∷ []) warm 7)
sample-IsSampled_example = sample-IsSampled ops qsort ops-IsOrdered (4 ∷ 9 ∷ 6 ∷ []) warm 7

all_finite : (xs : List ℕ) → All (λ y. ops.is_finite y ≡ true) xs
all_finite [] = tt
all_finite (x ∷ xs) = (refl, all_finite xs)

logits_after-length : (token : ℕ) → length (logits_after token) ≡ 8
unfolding logits_after
logits_after-length token = length-set (replicate 8 1) ((token + 1) % 8) 5

-- Layers that keep the tokens, and give the last one.
abbrev kernels : Kernels (List ℕ) ℕ ℕ
kernels = record {
  clear = λ m. [];
  layers = λ m position id. (m ++ id ∷ [], some id);
  layers_reads = λ reads m position id. record reads { read_calls = reads.read_calls + 1 };
  head = λ h. some (logits_after h);
  head_reads = λ reads h. record reads { read_calls = reads.read_calls + 1 };
}

abbrev empty_sequence : Sequence (List ℕ)
empty_sequence = record { position = 0; valid = false; layers = [] }

abbrev no_reads : ReadStats
no_reads = record {
  bytes_read = 0;
  read_calls = 0;
  cache_hits = 0;
  cache_misses = 0;
  cache_evictions = 0;
  cache_bytes = 0;
  cache_peak_bytes = 0;
}

abbrev base : Runner (List ℕ)
base = record {
  capacity = 9;
  incremental = true;
  complete = true;
  model_max_length = 10;
  vocab_size = 8;
  unpadded_vocab_size = 8;
  sequence = some empty_sequence;
  tokens_processed = 0;
  reads = no_reads;
}

abbrev call_buffers : Calls.Buffers
call_buffers = record { ids_at = 100; logits_at = 1000; logits_count = 8 }

base-IsPrepared : IsPrepared base call_buffers
unfolding prefill_fits decode_fits overlap size_mul
base-IsPrepared = record {
  prefill_passes = λ s processed reads n p l. ground arith;
  decode_passes = λ s processed reads id v l k. ground arith;
}

base-IsLike : IsLike base base
base-IsLike = record { sequence = empty_sequence; processed = 0; reads = no_reads; same = refl }

abbrev incremental : Session (Runner (List ℕ)) ℕ
incremental = session_of kernels base call_buffers 6

incremental-Answers : Answers ops qsort incremental (IsLike base) (λ r n. IsAt base n r)
incremental-Answers =
    session_of-Answers ops qsort kernels base call_buffers 6 (λ m position id. (id, refl))
      (λ h. (logits_after h, refl, (logits_after-length h, all_finite (logits_after h))))
      base-IsPrepared

generate_complete_example :
    (g : Generated ℕ) × ((generate ops qsort incremental true buffers base
        (3 ∷ [])
        greedy
        (9 ∷ 9 ∷ 9 ∷ 9 ∷ 9 ∷ 9 ∷ [])).1
      ≡ some g)
unfolding buffers_fit generate_fits overlaps valid_range generate_options size_mul size_add
    in_vocabulary
generate_complete_example =
    generate_complete ops qsort incremental (IsLike base) (λ r n. IsAt base n r) incremental-Answers
      ops-IsOrdered (omega arith) buffers base (3 ∷ []) greedy (record greedy { top_k = 1 })
      (9 ∷ 9 ∷ 9 ∷ 9 ∷ 9 ∷ 9 ∷ []) base-IsLike refl (omega arith) refl refl
