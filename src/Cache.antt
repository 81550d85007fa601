-- ===== src/Cache.antt =====
-- src/model/inkling_project.c: the cache of expert weights, and the reads that the context counts. A
-- pointer to a matrix is a number; `matrices` is what stands at it, which never changes.
pub mod Resident
pub mod Transparent
mod Tests
use inkling_in_c.Prelude.{
  Bytes, ℕ, List, Option, ◌+◌, Bool, none, ◌-◌, bind, ◌∷◌, if◌then◌else◌, ltb, not, false, some,
  ◌/◌, ◌==◌, suc, u64_max, ◌++◌, ◌&&◌, [], ◌||◌, zero, ptrdiff_max, length, true, leb, ◌^◌,
}
use inkling_in_c.Alloc.{size_add, size_mul}

-- `InklingRange`
pub record Range : Type 0 where
  pub shard : ℕ
  pub start : ℕ
  pub bytes : ℕ

-- `InklingMatrix`, without what the cache does not read.
pub record Matrix : Type 0 where
  pub rows : ℕ
  pub columns : ℕ
  pub is_nvfp4 : Bool
  pub data_range : Range
  pub scale_range : Range

-- `InklingLayer`, with the pointers to its routed matrices.
pub record Layer : Type 0 where
  pub original_id : ℕ
  pub dense : Bool
  pub w13 : ℕ
  pub down : ℕ

-- `InklingRuntimeStats`
pub record Stats : Type 0 where
  pub bytes_read : ℕ
  pub read_calls : ℕ
  pub cache_hits : ℕ
  pub cache_misses : ℕ
  pub cache_evictions : ℕ
  pub tokens_processed : ℕ
  pub cache_bytes : ℕ
  pub cache_peak_bytes : ℕ
  pub cache_capacity : ℕ

pub data EventKind : Type 0 where
  hit miss bypass evicted : EventKind

-- `InklingCacheEvent`
pub record Event : Type 0 where
  pub kind : EventKind
  pub layer : ℕ
  pub expert : ℕ
  pub projection : ℕ
  pub bytes : ℕ
  pub resident_bytes : ℕ

-- `struct InklingExpertCache`: the payload is the data, then the scales.
pub record Entry : Type 0 where
  pub matrix : ℕ
  pub expert : ℕ
  pub charge : ℕ
  pub data_payload : Bytes
  pub scale_payload : Bytes

-- The part of `InklingContext` that the cache uses. `entries` is the list from the newest entry on;
-- `events` are the calls of `cache_trace`, if it is set.
pub record Context : Type 0 where
  pub layers : List Layer
  pub entries : List Entry
  pub capacity : ℕ
  pub stats : Stats
  pub traced : Bool
  pub events : List Event

-- `increment`
abbrev pub increment : ℕ → ℕ → ℕ
increment counter amount = if ltb (u64_max - counter) amount then u64_max else counter + amount

-- `inkling_context_reset_stats`
unfoldable pub reset_stats : Context → Context
reset_stats context = record context {
  stats = record {
    bytes_read = 0;
    read_calls = 0;
    cache_hits = 0;
    cache_misses = 0;
    cache_evictions = 0;
    tokens_processed = 0;
    cache_bytes = context.stats.cache_bytes;
    cache_peak_bytes = context.stats.cache_bytes;
    cache_capacity = context.capacity;
  };
}

-- The layer of a matrix, and which of its two matrices it is.
unfoldable pub find_layer : List Layer → ℕ → Option (ℕ × ℕ)
find_layer [] matrix = none
find_layer (layer ∷ layers) matrix =
    let rest = find_layer layers matrix in
    if matrix == layer.w13
    then some (layer.original_id, 0)
    else if matrix == layer.down
    then some (layer.original_id, 1)
    else rest

-- The call of the trace, if it is set and the matrix stands in a layer.
unfoldable pub tell : Bool → Option (ℕ × ℕ) → Context → ℕ → EventKind → ℕ → Context
tell false found context expert kind bytes = context
tell true none context expert kind bytes = context
tell true (some (layer, projection)) context expert kind bytes = record context {
  events =
      context.events
      ++ record {
        kind = kind;
        layer = layer;
        expert = expert;
        projection = projection;
        bytes = bytes;
        resident_bytes = context.stats.cache_bytes;
      }
        ∷ [];
}

unfoldable pub cache_event : Context → ℕ → ℕ → EventKind → ℕ → Context
unfolding tell
cache_event context matrix expert kind bytes =
    tell context.traced (find_layer context.layers matrix) context expert kind bytes

-- The loop of `routed_matrix`.
unfoldable pub is_routed : List Layer → ℕ → Bool
is_routed [] matrix = false
is_routed (layer ∷ layers) matrix =
    (not layer.dense && (matrix == layer.w13 || matrix == layer.down)) || is_routed layers matrix

-- The search of the list: the entry, and the others in their order.
unfoldable pub find_entry : List Entry → ℕ → ℕ → Option (Entry × List Entry)
find_entry [] matrix expert = none
find_entry (entry ∷ entries) matrix expert =
    let rest = find_entry entries matrix expert in
    if entry.matrix == matrix && entry.expert == expert
    then some (entry, entries)
    else elim rest [ none ↦ none | some (found, others) ↦ some (found, entry ∷ others) ]

-- The last entry, and those before it.
unfoldable pub split_tail : List Entry → Option (List Entry × Entry)
split_tail [] = none
split_tail (entry ∷ entries) = elim (split_tail entries) [
  | none ↦ some ([], entry)
  | some (before, tail) ↦ some (entry ∷ before, tail)
]

-- The tail leaves the cache.
unfoldable pub drop_tail : Context → List Entry → Entry → Context
drop_tail context before tail =
    let shorter : Context = record context {
      entries = before;
      stats = record context.stats { cache_bytes = context.stats.cache_bytes - tail.charge };
    } in
    let told = cache_event shorter tail.matrix tail.expert evicted tail.charge in
    record told {
      stats = record told.stats { cache_evictions = increment told.stats.cache_evictions 1 };
    }

-- `a - b` of type `size_t`
abbrev pub size_sub : ℕ → ℕ → ℕ
size_sub a b = if leb b a then a - b else a + 2 ^ 64 - b

-- The loop that evicts, on fuel; `none` is the use of a tail that is not there.
unfoldable pub evict : ℕ → Context → ℕ → Option Context
evict zero context charge = none
evict (suc f) context charge =
    if ltb (size_sub context.capacity charge) context.stats.cache_bytes
    then elim (split_tail context.entries) [
      | none ↦ none
      | some (before, tail) ↦ evict f (drop_tail context before tail) charge
    ]
    else some context

-- What `cached_expert` returns: 0, or 1 with null pointers, or 1 with the data and the scales.
pub data Answer : Type 0 where
  refused absent stuck : Answer
  present : Bytes → Bytes → Answer

-- `inkling_model_read`, for so many bytes from an offset of a range on.
abbrev pub Reader : Type 0
Reader = Range → ℕ → ℕ → Option Bytes

-- `inkling_context_read`
unfoldable pub context_read : Reader → Context → Range → ℕ → ℕ → Context × Option Bytes
context_read read context range relative bytes =
    let called : Context = record context {
      stats = record context.stats { read_calls = increment context.stats.read_calls 1 };
    } in
    elim (read range relative bytes) [
      | none ↦ (called, none)
      | some got ↦ (
        record called {
          stats = record called.stats { bytes_read = increment called.stats.bytes_read bytes };
        },
        some got,
      )
    ]

-- The sizes of an expert's data and scales, and the charge of its entry; sizeof(struct
-- InklingExpertCache) is 48.
unfoldable pub sizes_of : Matrix → Option (ℕ × ℕ × ℕ)
sizes_of matrix = bind (size_mul matrix.rows (matrix.columns / 2)) λ data_bytes.
    bind (size_mul matrix.rows (matrix.columns / 16)) λ scale_bytes.
      bind (size_add data_bytes scale_bytes) λ payload_bytes.
        bind (size_add 48 payload_bytes) λ charge. some (data_bytes, scale_bytes, charge)

-- The new entry comes first.
unfoldable pub store : Context → Entry → Context
store context entry =
    let bytes = context.stats.cache_bytes + entry.charge in
    record context {
      entries = entry ∷ context.entries;
      stats = record context.stats {
        cache_bytes = bytes;
        cache_peak_bytes =
            if ltb context.stats.cache_peak_bytes bytes
            then bytes
            else context.stats.cache_peak_bytes;
      };
    }

unfoldable pub count_miss : Context → Context
count_miss context = record context {
  stats = record context.stats { cache_misses = increment context.stats.cache_misses 1 };
}

-- A hit: the entry comes first.
unfoldable pub promote : Context → Entry → List Entry → Context
promote context entry others = record context {
  entries = entry ∷ others;
  stats = record context.stats { cache_hits = increment context.stats.cache_hits 1 };
}

module _ (matrices : ℕ → Matrix) (read : Reader) (granted : ℕ → Bool) where
  -- The two reads into the new entry, and its place in the list.
  unfoldable pub load_expert : Context → ℕ → ℕ → ℕ → ℕ → ℕ → Context × Answer
  load_expert context matrix expert data_bytes scale_bytes charge =
      elim (size_mul expert data_bytes) [
        | none ↦ (context, refused)
        | some data_offset ↦ elim (size_mul expert scale_bytes) [
          | none ↦ (context, refused)
          | some scale_offset ↦
              let first =
                context_read read context (matrices matrix).data_range data_offset data_bytes in
              elim first.1 [
                | none ↦ (first.0, refused)
                | some payload ↦
                    let second =
                      context_read read first.0 (matrices matrix).scale_range scale_offset
                        scale_bytes in
                    elim second.1 [
                      | none ↦ (second.0, refused)
                      | some scales ↦ (
                        store second.0 (record {
                          matrix = matrix;
                          expert = expert;
                          charge = charge;
                          data_payload = payload;
                          scale_payload = scales;
                        }),
                        present payload scales,
                      )
                    ]
              ]
        ]
      ]

  -- After a miss, with the sizes known.
  unfoldable pub fill : Context → ℕ → ℕ → ℕ × ℕ × ℕ → Context × Answer
  fill context matrix expert (data_bytes, scale_bytes, charge) =
      if ltb context.capacity charge || ltb ptrdiff_max charge
      then (cache_event context matrix expert bypass charge, absent)
      else elim (evict (suc (length context.entries)) context charge) [
        | none ↦ (context, stuck)
        | some roomy ↦
            if granted charge
            then load_expert roomy matrix expert data_bytes scale_bytes charge
            else (cache_event roomy matrix expert bypass charge, absent)
      ]

  -- `cached_expert`
  unfoldable pub cached_expert : Context → ℕ → ℕ → Context × Answer
  cached_expert context matrix expert =
      if not ((matrices matrix).is_nvfp4 && is_routed context.layers matrix)
      then (context, absent)
      else elim (find_entry context.entries matrix expert) [
        | some (entry, others) ↦ (
          cache_event (promote context entry others) matrix expert hit entry.charge,
          present entry.data_payload entry.scale_payload,
        )
        | none ↦
            let missed = cache_event (count_miss context) matrix expert miss 0 in
            elim (sizes_of (matrices matrix)) [
              | none ↦ (missed, refused)
              | some sizes ↦ fill missed matrix expert sizes
            ]
      ]
