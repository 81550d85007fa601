-- ===== src/Forward/Tests.antt =====
-- Runs of the sequence and of the rows of a layer, and their theorems at concrete inputs. The layers keep
-- the tokens they were given, and the logits are the number of these.
use inkling_in_c.Forward.Sequence.{
  Runner, Kernels, Buffers, prefill, decode, prefill_fits, context_reset, forward_ids, forward_on,
  token_forward, finish_token, with_logits, chain, or_failure, sequence_failure, overlap,
  decode_fits, decode_on, ReadStats,
}
use inkling_in_c.Forward.Replay.{decode-prefill}
use inkling_in_c.Forward.Failure.{failed-IsDown, FailsDown}
use inkling_in_c.Forward.Rows.{store_rows-key_row}
use inkling_in_c.Forward.Window.{LayerState, store_rows, key_row, value_row, window_start}
use inkling_in_c.Generate.Loop.{in_vocabulary}
use inkling_in_c.Alloc.{size_mul}
use inkling_in_c.Prelude.{
  List, ◌∷◌, ◌≡◌, ℕ, ◌≤◌, [], true, some, arith, ◌++◌, false, refl, length, ◌+◌,
}
use inkling_in_c.Forward.Steps.{but_reads}

abbrev counted : ReadStats → ℕ → ReadStats
counted reads bytes = record reads {
  read_calls = reads.read_calls + 1;
  bytes_read = reads.bytes_read + bytes;
}

abbrev unread : ReadStats
unread = record {
  bytes_read = 0;
  read_calls = 0;
  cache_hits = 0;
  cache_misses = 0;
  cache_evictions = 0;
  cache_bytes = 0;
  cache_peak_bytes = 0;
}

abbrev kernels : Kernels (List ℕ) ℕ ℕ
kernels = record {
  clear = λ m. [];
  layers = λ m position id. (m ++ id ∷ [], some (length m + id));
  layers_reads = λ reads m position id. counted reads 4;
  head = λ h. some (h ∷ []);
  head_reads = λ reads h. counted reads 16;
}

abbrev runner : Runner (List ℕ)
runner = record {
  capacity = 4;
  incremental = true;
  complete = true;
  model_max_length = 8;
  vocab_size = 10;
  unpadded_vocab_size = 1;
  sequence = some (record { position = 2; valid = false; layers = 9 ∷ [] });
  tokens_processed = 5;
  reads = unread;
}

abbrev buffers : Buffers
buffers = record { ids_at = 100; logits_at = 200; logits_count = 1 }

abbrev after : Runner (List ℕ)
after = record runner {
  sequence = some (record { position = 2; valid = true; layers = 3 ∷ 4 ∷ [] });
  tokens_processed = 7;
  reads = record unread { read_calls = 3; bytes_read = 24 };
}

program : Unit {0}
unfolding prefill decode prefill_fits context_reset forward_ids forward_on token_forward
    finish_token with_logits chain or_failure sequence_failure overlap decode_fits decode_on
    in_vocabulary size_mul
program = tt

prefill_runs : prefill kernels runner buffers (3 ∷ 4 ∷ []) ≡ (after, some (5 ∷ []))
unfolding program
prefill_runs = refl

fits : prefill_fits (context_reset kernels runner) buffers 3 ≡ true
unfolding program
fits = refl

decode-prefill_example :
    but_reads kernels (decode kernels after buffers 7)
    ≡ but_reads kernels (prefill kernels runner buffers (3 ∷ 4 ∷ 7 ∷ []))
decode-prefill_example =
    decode-prefill kernels runner after buffers buffers 3 (4 ∷ []) 7 (5 ∷ []) prefill_runs fits
      (omega arith)

failed-IsDown_example :
    FailsDown kernels (prefill kernels runner buffers (3 ∷ 11 ∷ []))
    × FailsDown kernels (decode kernels runner buffers 3)
failed-IsDown_example = failed-IsDown kernels runner buffers (3 ∷ 11 ∷ []) 3

abbrev state : LayerState ℕ
state = record { capacity = 2; keys = 9 ∷ 9 ∷ []; values = 9 ∷ 9 ∷ [] }

abbrev rows : List (ℕ × ℕ)
rows = (1, 11) ∷ (2, 12) ∷ (3, 13) ∷ []

starts : window_start 2 2 ≤ 1
unfolding window_start
starts = omega arith

store_rows-key_row_example :
    (key_row (store_rows state 0 rows) 1 ≡ some 2)
    × (value_row (store_rows state 0 rows) 1 ≡ some 12)
store_rows-key_row_example =
    store_rows-key_row state rows 2 1 (2, 12) (omega arith) refl refl refl starts refl
