-- ===== src/Cache/Tests.antt =====
-- Runs of the cache of expert weights, and its theorems at concrete inputs.
use inkling_in_c.Alloc.{size_mul, size_add}
use inkling_in_c.Cache.Resident.{IsSound, IsEvicted, evict-IsEvicted}
use inkling_in_c.Cache.Transparent.{IsAnswer, cached_expert-IsSound}
use inkling_in_c.Cache.{
  Matrix, Reader, Context, Answer, present, cached_expert, evict, is_routed, find_entry,
  cache_event, find_layer, tell, count_miss, sizes_of, fill, split_tail, drop_tail, load_expert,
  context_read, store, promote,
}
use inkling_in_c.Prelude.{
  refl, ℕ, some, false, ◌≡◌, arith, true, replicate, ◌∷◌, Bool, ◌+◌, [], ◌%◌,
}

-- Each matrix takes 16 bytes of data and 2 of scales for an expert, so that an entry takes 66 bytes.
abbrev matrices : ℕ → Matrix
matrices m = record {
  rows = 2;
  columns = 16;
  is_nvfp4 = true;
  data_range = record { shard = m; start = 0; bytes = 1000 };
  scale_range = record { shard = m; start = 1000; bytes = 100 };
}

abbrev read : Reader
read range relative bytes = some (replicate bytes ((range.shard + range.start + relative) % 256))

-- Room for one entry, and none for two.
abbrev empty_cache : Context
empty_cache = record {
  layers = record { original_id = 5; dense = false; w13 = 0; down = 1 } ∷ [];
  entries = [];
  capacity = 100;
  stats = record {
    bytes_read = 0;
    read_calls = 0;
    cache_hits = 0;
    cache_misses = 0;
    cache_evictions = 0;
    tokens_processed = 0;
    cache_bytes = 0;
    cache_peak_bytes = 0;
    cache_capacity = 100;
  };
  traced = true;
  events = [];
}

abbrev all_granted : ℕ → Bool
all_granted n = true

abbrev first_call : Context × Answer
first_call = cached_expert matrices read all_granted empty_cache 0 3

abbrev second_call : Context × Answer
second_call = cached_expert matrices read all_granted first_call.0 1 3

program : Unit {0}
unfolding size_mul size_add cached_expert is_routed find_entry cache_event find_layer tell
    count_miss sizes_of fill evict split_tail drop_tail load_expert context_read store promote
program = tt

cached_expert_runs :
    (first_call.1 ≡ present (replicate 16 48) (replicate 2 238))
    × (second_call.0.stats.cache_evictions ≡ 1)
    × (second_call.0.stats.cache_bytes ≡ 66)
unfolding program
cached_expert_runs = (refl, refl, refl)

empty_cache-IsSound : IsSound matrices read empty_cache
empty_cache-IsSound = record { used = refl; bounded = omega arith; differ = tt; loaded = tt }

cached_expert-IsSound_example :
    IsSound matrices read (cached_expert matrices read all_granted empty_cache 0 3).0
    × IsAnswer matrices read 0 3 (cached_expert matrices read all_granted empty_cache 0 3).1
cached_expert-IsSound_example =
    cached_expert-IsSound matrices read all_granted empty_cache 0 3 (omega arith)
      empty_cache-IsSound

one_entry-IsSound : IsSound matrices read first_call.0
one_entry-IsSound =
    (cached_expert-IsSound matrices read all_granted empty_cache 0 3 (omega arith)
      empty_cache-IsSound).0

evict-IsEvicted_example :
    (next : Context) × (evict 2 first_call.0 66 ≡ some next)
    × IsEvicted matrices read first_call.0 66 next
unfolding program
evict-IsEvicted_example =
    evict-IsEvicted matrices read 2 first_call.0 66 one_entry-IsSound (omega arith) (omega arith)
