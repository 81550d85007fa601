-- ===== src/Cache/Transparent.antt =====
-- Proofs on `cached_expert` of src/model/inkling_project.c and the answers that it gives.
use mathlib.Core.Path.{subst₂}
use inkling_in_c.Prelude.{
  Bytes, ℕ, Gives, ◌≤◌, ◌≡◌, Bool, size_max, some, Option-cases, ◌∙◌, List, arith, Gives-bind, ap,
  AllPairs-perm, ◌-◌, inl, ◌/◌, sym, All, inr, subst, All-perm, refl, gives, AllPairs, ◌+◌,
  Gives-some, Bool-cases, ltb, ◌||◌, ptrdiff_max, suc, length, not, ◌&&◌,
}
use inkling_in_c.Cache.Resident.{
  IsPayload, IsSound, IsLoaded, Differ, IsFound, cache_event-IsSound, find_entry-IsFound,
  find_entry-Differ, All-before, evict-IsEvicted, total_charge, cache_event-same,
}
use inkling_in_c.Cache.{
  Matrix, Reader, Entry, Context, Answer, Range, cache_event, find_entry, context_read, sizes_of,
  store, load_expert, fill, cached_expert, count_miss, promote, bypass, size_mul, present, refused,
  absent, stuck, is_routed, hit, miss,
}
use inkling_in_c.Alloc.{size_mul, size_add}
use inkling_in_c.Alloc.Bounds.{size_mul-le, size_mul-exact}

-- What an answer promises: pointers that are not NULL point to the expert's data and scales, and the
-- list is never found empty where an entry must leave it.
abbrev pub IsAnswer : (ℕ → Matrix) → Reader → ℕ → ℕ → Answer → Type 0
IsAnswer matrices read matrix expert refused = Unit
IsAnswer matrices read matrix expert absent = Unit
IsAnswer matrices read matrix expert stuck = ⊥
IsAnswer matrices read matrix expert (present weights scales) =
    IsPayload matrices read matrix expert weights scales

sizes_of-Gives :
    (m : Matrix)
    → Gives
        (λ (data_bytes, scale_bytes, charge). (data_bytes ≤ size_max) × (scale_bytes ≤ size_max))
        (sizes_of m)
unfolding sizes_of
sizes_of-Gives m = Gives-bind (size_mul m.rows (m.columns / 2)) λ data_bytes a.
    Gives-bind (size_mul m.rows (m.columns / 16)) λ scale_bytes b.
      Gives-bind (size_add data_bytes scale_bytes) λ payload_bytes _.
        Gives-bind (size_add 48 payload_bytes) λ charge _.
          gives (size_mul-le m.rows (m.columns / 2) a, size_mul-le m.rows (m.columns / 16) b)

module _ (matrices : ℕ → Matrix) (read : Reader) (granted : ℕ → Bool) where
  -- The context is sound, and the answer keeps its promise.
  abbrev Keeps : ℕ → ℕ → Context × Answer → Type 0
  Keeps matrix expert r = IsSound matrices read r.0 × IsAnswer matrices read matrix expert r.1

  -- A read counts, and keeps the rest.
  context_read-same :
      (context : Context) (range : Range) (relative bytes : ℕ)
      → let r = context_read read context range relative bytes in
        (r.1 ≡ read range relative bytes)
        × (r.0.entries ≡ context.entries)
        × (r.0.capacity ≡ context.capacity)
        × (r.0.stats.cache_bytes ≡ context.stats.cache_bytes)
  unfolding context_read
  context_read-same context range relative bytes = elim (Option-cases (read range relative bytes)) [
    | inl e ↦ rw (e, context_read) (refl, refl, refl, refl)
    | inr (got, e) ↦ rw (e, context_read) (refl, refl, refl, refl)
  ]

  moved :
      (context next : Context)
      → next.entries ≡ context.entries
      → next.capacity ≡ context.capacity
      → next.stats.cache_bytes ≡ context.stats.cache_bytes
      → IsSound matrices read context
      → IsSound matrices read next
  moved context next list size used is = record {
    used = used ∙ is.used ∙ ap total_charge (sym list);
    bounded = omega (arith, used, size, is.bounded);
    differ = subst (AllPairs Differ) (sym list) is.differ;
    loaded = subst (All (IsLoaded matrices read)) (sym list) is.loaded;
  }

  promote-IsSound :
      (context : Context) (matrix expert : ℕ) (entry : Entry) (others : List Entry)
      → IsSound matrices read context
      → IsFound matrices read context.entries matrix expert entry others
      → IsSound matrices read (promote context entry others)
  unfolding promote
  promote-IsSound context matrix expert entry others is found = record {
    used = is.used ∙ found.same_charge;
    bounded = is.bounded;
    differ = AllPairs-perm Differ (λ a b ne e. ne (sym e.0, sym e.1)) found.permutes is.differ;
    loaded = All-perm (IsLoaded matrices read) found.permutes is.loaded;
  }

  store-IsSound :
      (context : Context) (entry : Entry)
      → IsSound matrices read context
      → context.stats.cache_bytes + entry.charge ≤ context.capacity
      → All (Differ entry) context.entries
      → IsLoaded matrices read entry
      → IsSound matrices read (store context entry)
  unfolding store
  store-IsSound context entry is fits alone loaded = record {
    used = omega (arith, is.used);
    bounded = fits;
    differ = (alone, is.differ);
    loaded = (loaded, is.loaded);
  }

  counted :
      (context : Context)
      → IsSound matrices read context
      → IsSound matrices read (count_miss context)
  unfolding count_miss
  counted context is = is

  count_miss-same : (context : Context) → (count_miss context).entries ≡ context.entries
  unfolding count_miss
  count_miss-same context = refl

  load_expert-Keeps :
      (context : Context) (matrix expert data_bytes scale_bytes charge : ℕ)
      → expert ≤ size_max
      → sizes_of (matrices matrix) ≡ some (data_bytes, scale_bytes, charge)
      → IsSound matrices read context
      → charge ≤ context.capacity
      → context.stats.cache_bytes ≤ context.capacity - charge
      → All (λ entry. ¬ ((matrix ≡ entry.matrix) × (expert ≡ entry.expert))) context.entries
      → Keeps matrix expert
          (load_expert matrices read granted context matrix expert data_bytes scale_bytes charge)
  unfolding load_expert
  load_expert-Keeps context matrix expert data_bytes scale_bytes charge small sizes is fits room
        differ =
      elim (Option-cases (size_mul expert data_bytes)) [
        | inl e ↦ rw (e, load_expert) (is, tt)
        | inr (data_offset, e) ↦ elim (Option-cases (size_mul expert scale_bytes)) [
          | inl f ↦ rw (e, f, load_expert) (is, tt)
          | inr (scale_offset, f) ↦
              let first =
                context_read read context (matrices matrix).data_range data_offset data_bytes in
              let (got, list, size, used) =
                context_read-same context (matrices matrix).data_range data_offset data_bytes in
              let is_first = moved context first.0 list size used is in
              elim (Option-cases first.1) [
                | inl g ↦ rw (e, f, g, load_expert) (is_first, tt)
                | inr (weights, g) ↦
                    let second =
                      context_read read first.0 (matrices matrix).scale_range scale_offset
                        scale_bytes in
                    let (got', list', size', used') =
                      context_read-same first.0 (matrices matrix).scale_range scale_offset
                        scale_bytes in
                    let is_second = moved first.0 second.0 list' size' used' is_first in
                    elim (Option-cases second.1) [
                      | inl h ↦ rw (e, f, g, h, load_expert) (is_second, tt)
                      | inr (scales, h) ↦
                          let loaded =
                            payload data_offset scale_offset e f (sym got ∙ g) (sym got' ∙ h) in
                          let entry : Entry = record {
                            matrix = matrix;
                            expert = expert;
                            charge = charge;
                            data_payload = weights;
                            scale_payload = scales;
                          } in
                          let alone = subst (All (Differ entry)) (sym list ∙ sym list') differ in
                          let within_capacity : second.0.stats.cache_bytes + charge
                              ≤ second.0.capacity =
                            omega (arith, used', used, size', size, fits, room) in
                          rw (e, f, g, h, load_expert)
                            (
                              store-IsSound second.0 entry is_second within_capacity alone loaded,
                              loaded,
                            )
                    ]
              ]
        ]
      ]
    where
      payload :
          (data_offset scale_offset : ℕ) {weights scales : Bytes}
          → size_mul expert data_bytes ≡ some data_offset
          → size_mul expert scale_bytes ≡ some scale_offset
          → read (matrices matrix).data_range data_offset data_bytes ≡ some weights
          → read (matrices matrix).scale_range scale_offset scale_bytes ≡ some scales
          → IsPayload matrices read matrix expert weights scales
      payload data_offset scale_offset {weights} {scales} e f g h =
          let (data_small, scale_small) = Gives-some (sizes_of-Gives (matrices matrix)) sizes in
          record {
            data_bytes = data_bytes;
            scale_bytes = scale_bytes;
            charge = charge;
            sizes = sizes;
            weights_read =
                subst (λ n. read (matrices matrix).data_range n data_bytes ≡ some weights)
                  (size_mul-exact expert data_bytes small data_small e) g;
            scales_read =
                subst (λ n. read (matrices matrix).scale_range n scale_bytes ≡ some scales)
                  (size_mul-exact expert scale_bytes small scale_small f) h;
          }

  fill-Keeps :
      (context : Context) (matrix expert : ℕ) (sizes : ℕ × ℕ × ℕ)
      → expert ≤ size_max
      → sizes_of (matrices matrix) ≡ some sizes
      → IsSound matrices read context
      → All (λ entry. ¬ ((matrix ≡ entry.matrix) × (expert ≡ entry.expert))) context.entries
      → Keeps matrix expert (fill matrices read granted context matrix expert sizes)
  unfolding fill
  fill-Keeps context matrix expert (data_bytes, scale_bytes, charge) small sizes is differ =
      elim (Bool-cases (ltb context.capacity charge || ltb ptrdiff_max charge)) [
        | inl large ↦
            rw large (cache_event-IsSound matrices read context matrix expert bypass charge is, tt)
        | inr fits ↦
            let (roomy, run, evicted) =
              evict-IsEvicted matrices read (suc (length context.entries)) context charge is
                (ground arith) (omega arith) in
            let differ' =
              All-before matrices read
                (λ entry. ¬ ((matrix ≡ entry.matrix) × (expert ≡ entry.expert))) roomy.entries
                evicted.gone
                (subst (All (λ entry. ¬ ((matrix ≡ entry.matrix) × (expert ≡ entry.expert))))
                  evicted.oldest differ) in
            elim (Bool-cases (granted charge)) [
              | inl given ↦
                  rw (fits, run, given, fill)
                    (load_expert-Keeps roomy matrix expert data_bytes scale_bytes charge small sizes
                      evicted.sound (ground (arith, evicted.same_capacity))
                      (omega (arith, evicted.room, evicted.same_capacity)) differ')
              | inr refusal ↦
                  rw (fits, run, refusal, fill)
                    (
                      cache_event-IsSound matrices read roomy matrix expert bypass charge
                          evicted.sound,
                      tt,
                    )
            ]
      ]

  -- On a sound cache, `cached_expert` leaves a sound cache on every path, failures included, and the
  -- eviction never runs into the end of the list. When it hands out pointers, they point to the data and
  -- the scales that the model's files hold for the expert, of a number that a `size_t` holds.
  pub cached_expert-IsSound :
      (context : Context) (matrix expert : ℕ)
      → expert ≤ size_max
      → IsSound matrices read context
      → IsSound matrices read (cached_expert matrices read granted context matrix expert).0
        × IsAnswer matrices read matrix expert
            (cached_expert matrices read granted context matrix expert).1
  unfolding cached_expert
  cached_expert-IsSound context matrix expert small is =
      elim (Bool-cases (not ((matrices matrix).is_nvfp4 && is_routed context.layers matrix))) [
        | inl other ↦ rw other (is, tt)
        | inr routed ↦ elim (Option-cases (find_entry context.entries matrix expert)) [
          | inr ((entry, others), e) ↦
              let found =
                Gives-some (find_entry-IsFound matrices read context.entries matrix expert) e in
              let loaded = All-perm (IsLoaded matrices read) found.permutes is.loaded in
              rw (routed, e, cached_expert)
                (
                  cache_event-IsSound matrices read (promote context entry others) matrix expert hit
                      entry.charge (promote-IsSound context matrix expert entry others is found),
                  subst₂ (λ m x. IsPayload matrices read m x entry.data_payload entry.scale_payload)
                      found.is_matrix found.is_expert loaded.0,
                )
          | inl e ↦
              let missed = cache_event (count_miss context) matrix expert miss 0 in
              let is_missed =
                cache_event-IsSound matrices read (count_miss context) matrix expert miss 0
                  (counted context is) in
              let list : missed.entries ≡ context.entries =
                cache_event-same matrices read (count_miss context) matrix expert miss 0
                ∙ count_miss-same context in
              let differ =
                subst (All λ entry. ¬ ((matrix ≡ entry.matrix) × (expert ≡ entry.expert)))
                  (sym list) (find_entry-Differ matrices read context.entries matrix expert e) in
              elim (Option-cases (sizes_of (matrices matrix))) [
                | inl f ↦ rw (routed, e, f, cached_expert) (is_missed, tt)
                | inr (sizes, f) ↦
                    rw (routed, e, f, cached_expert)
                      (fill-Keeps missed matrix expert sizes small f is_missed differ)
              ]
        ]
      ]
