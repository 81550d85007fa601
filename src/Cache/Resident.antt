-- ===== src/Cache/Resident.antt =====
-- The invariant of the cache of src/model/inkling_project.c, and proofs on its list of entries.
use inkling_in_c.Prelude.{
  ◌==◌, Bytes, List, ℕ, ◌≡◌, ◌∷◌, some, ◌≤◌, ◌+◌, ◌*◌, AllPairs, Bool-cases, All, inr, [], inl,
  Option-cases, Gives, none, ◌++◌, Bool, nothing, arith, Option, refl, false, true, ap, ◌-◌, length,
  ◌<◌, suc, zero, ◌&&◌, ltb, gives, sym, Gives-some, append-nil, List-cases, ◌∙◌, subst,
  length-append, append_assoc,
}
use mathlib.Core.List.{Permᴰ}
use mathlib.Core.List.Permᴰ
use inkling_in_c.Cache.{
  Matrix, Reader, Entry, Context, cache_event, find_entry, split_tail, drop_tail, evict, sizes_of,
  EventKind, find_layer, tell, evicted, size_sub,
}

-- What the entries are charged together.
abbrev pub total_charge : List Entry → ℕ
total_charge [] = 0
total_charge (entry ∷ entries) = entry.charge + total_charge entries

-- The data and the scales that the model's files hold for an expert of a matrix.
pub record IsPayload (matrices : ℕ → Matrix) (read : Reader) (matrix expert : ℕ)
    (weights scales : Bytes) : Type 0 where
  pub data_bytes : ℕ
  pub scale_bytes : ℕ
  pub charge : ℕ
  pub sizes : sizes_of (matrices matrix) ≡ some (data_bytes, scale_bytes, charge)
  pub weights_read :
      read (matrices matrix).data_range (expert * data_bytes) data_bytes ≡ some weights
  pub scales_read :
      read (matrices matrix).scale_range (expert * scale_bytes) scale_bytes ≡ some scales

abbrev pub Differ : Entry → Entry → Type 0
Differ a b = ¬ ((a.matrix ≡ b.matrix) × (a.expert ≡ b.expert))

module _ (matrices : ℕ → Matrix) (read : Reader) where
  abbrev pub IsLoaded : Entry → Type 0
  IsLoaded entry =
      IsPayload matrices read entry.matrix entry.expert entry.data_payload entry.scale_payload

  -- The counted bytes are those of the entries and within the capacity, no expert of a matrix has two
  -- entries, and each entry holds what the model's files hold.
  pub record IsCache (capacity bytes : ℕ) (entries : List Entry) : Type 0 where
    pub used : bytes ≡ total_charge entries
    pub bounded : bytes ≤ capacity
    pub differ : AllPairs Differ entries
    pub loaded : All IsLoaded entries

  abbrev pub IsSound : Context → Type 0
  IsSound context = IsCache context.capacity context.stats.cache_bytes context.entries

  tell-IsSound :
      (b : Bool) (o : Option (ℕ × ℕ)) (context : Context) (expert : ℕ) (kind : EventKind)
      (bytes : ℕ)
      → IsSound context
      → IsSound (tell b o context expert kind bytes)
  unfolding tell
  tell-IsSound false o context expert kind bytes is = is
  tell-IsSound true none context expert kind bytes is = is
  tell-IsSound true (some _) context expert kind bytes is = is

  pub cache_event-IsSound :
      (context : Context) (matrix expert : ℕ) (kind : EventKind) (bytes : ℕ)
      → IsSound context
      → IsSound (cache_event context matrix expert kind bytes)
  unfolding cache_event
  cache_event-IsSound context matrix expert kind bytes is =
      tell-IsSound context.traced (find_layer context.layers matrix) context expert kind bytes is

  -- What a search finds, and that the others keep what held of all.
  pub record IsFound (entries : List Entry) (matrix expert : ℕ) (entry : Entry)
      (others : List Entry) : Type 0 where
    pub is_matrix : entry.matrix ≡ matrix
    pub is_expert : entry.expert ≡ expert
    pub same_charge : total_charge entries ≡ entry.charge + total_charge others
    pub permutes : Permᴰ (entry ∷ others) entries

  pub find_entry-IsFound :
      (entries : List Entry) (matrix expert : ℕ)
      → Gives
          (λ (entry, others). IsFound entries matrix expert entry others)
          (find_entry entries matrix expert)
  unfolding find_entry
  find_entry-IsFound [] matrix expert = nothing
  find_entry-IsFound (entry ∷ entries) matrix expert =
      elim (Bool-cases (entry.matrix == matrix && entry.expert == expert)) [
        | inl same ↦ rw same (
            gives (record {
              is_matrix = ground arith;
              is_expert = ground arith;
              same_charge = refl;
              permutes = Permᴰ.refl (entry ∷ entries);
            }))
        | inr other ↦ elim (Option-cases (find_entry entries matrix expert)) [
          | inl e ↦ rw (other, e, find_entry) nothing
          | inr ((found, others), e) ↦
              let rest = Gives-some (find_entry-IsFound entries matrix expert) e in
              rw (other, e, find_entry)
                (gives (record {
                  is_matrix = rest.is_matrix;
                  is_expert = rest.is_expert;
                  same_charge = omega (arith, rest.same_charge);
                  permutes = Permᴰ.trans (Permᴰ.swap refl refl) (Permᴰ.cons refl rest.permutes);
                }))
        ]
      ]

  pub find_entry-Differ :
      (entries : List Entry) (matrix expert : ℕ)
      → find_entry entries matrix expert ≡ none
      → All (λ entry. ¬ ((matrix ≡ entry.matrix) × (expert ≡ entry.expert))) entries
  unfolding find_entry
  find_entry-Differ [] matrix expert e = tt
  find_entry-Differ (entry ∷ entries) matrix expert e =
      elim (Bool-cases (entry.matrix == matrix && entry.expert == expert)) [
        | inl same ↦ let never = rw (same, find_entry) at e in cc
        | inr other ↦ elim (Option-cases (find_entry entries matrix expert)) [
          | inl rest ↦ ((λ (a, b). ground arith), find_entry-Differ entries matrix expert rest)
          | inr (_, found) ↦ let never = rw (other, found, find_entry) at e in cc
        ]
      ]

  total_charge-append : (a b : List Entry) → total_charge (a ++ b) ≡ total_charge a + total_charge b
  total_charge-append [] b = omega arith
  total_charge-append (entry ∷ a) b = omega (arith, total_charge-append a b)

  split_tail-some :
      (entry : Entry) (entries : List Entry)
      → (before : List Entry) × (tail : Entry) × (split_tail (entry ∷ entries)
          ≡ some (before, tail))
        × (entry ∷ entries ≡ before ++ tail ∷ [])
  unfolding split_tail
  split_tail-some entry [] = ([], entry, refl, refl)
  split_tail-some entry (next ∷ entries) =
      let (before, tail, e, same) = split_tail-some next entries in
      (entry ∷ before, tail, rw (e, split_tail) refl, ap (λ l. entry ∷ l) same)

  pub All-before : (P : Entry → Type 0) (a b : List Entry) → All P (a ++ b) → All P a
  All-before P [] b h = tt
  All-before P (entry ∷ a) b h = (h.0, All-before P a b h.1)

  AllPairs-before :
      (R : Entry → Entry → Type 0) (a b : List Entry) → AllPairs R (a ++ b) → AllPairs R a
  AllPairs-before R [] b h = tt
  AllPairs-before R (entry ∷ a) b h = (All-before (R entry) a b h.0, AllPairs-before R a b h.1)

  IsCache-before :
      {capacity bytes : ℕ} (before : List Entry) (tail : Entry)
      → IsCache capacity bytes (before ++ tail ∷ [])
      → IsCache capacity (bytes - tail.charge) before
  IsCache-before before tail is = record {
    used = omega (arith, is.used, total_charge-append before (tail ∷ []));
    bounded = omega (arith, is.bounded);
    differ = AllPairs-before Differ before (tail ∷ []) is.differ;
    loaded = All-before IsLoaded before (tail ∷ []) is.loaded;
  }

  -- An eviction: the oldest entries are gone, and the charge fits.
  pub record IsEvicted (context : Context) (charge : ℕ) (next : Context) : Type 0 where
    pub sound : IsSound next
    pub same_capacity : next.capacity ≡ context.capacity
    pub room : next.stats.cache_bytes + charge ≤ context.capacity
    pub gone : List Entry
    pub oldest : context.entries ≡ next.entries ++ gone

  tell-same :
      (b : Bool) (o : Option (ℕ × ℕ)) (context : Context) (expert : ℕ) (kind : EventKind)
      (bytes : ℕ)
      → ((tell b o context expert kind bytes).entries ≡ context.entries)
        × ((tell b o context expert kind bytes).capacity ≡ context.capacity)
  unfolding tell
  tell-same false o context expert kind bytes = (refl, refl)
  tell-same true none context expert kind bytes = (refl, refl)
  tell-same true (some _) context expert kind bytes = (refl, refl)

  pub cache_event-same :
      (context : Context) (matrix expert : ℕ) (kind : EventKind) (bytes : ℕ)
      → (cache_event context matrix expert kind bytes).entries ≡ context.entries
  unfolding cache_event
  cache_event-same context matrix expert kind bytes =
      let (same, _) =
        tell-same context.traced (find_layer context.layers matrix) context expert kind bytes in
      same

  drop_tail-same :
      (context : Context) (before : List Entry) (tail : Entry)
      → ((drop_tail context before tail).entries ≡ before)
        × ((drop_tail context before tail).capacity ≡ context.capacity)
  unfolding drop_tail cache_event
  drop_tail-same context before tail = tell-same context.traced _ _ tail.expert evicted tail.charge

  drop_tail-IsSound :
      (context : Context) (before : List Entry) (tail : Entry)
      → IsCache context.capacity context.stats.cache_bytes (before ++ tail ∷ [])
      → IsSound (drop_tail context before tail)
  unfolding drop_tail cache_event
  drop_tail-IsSound context before tail is =
      tell-IsSound context.traced _ _ tail.expert evicted tail.charge
        (IsCache-before before tail is)

  -- On a sound cache, for a charge of at most the capacity and with fuel above the number of entries, the
  -- eviction ends: in a sound cache whose entries are the newest of those before, in their order, and
  -- whose bytes and the charge together are at most the capacity.
  pub evict-IsEvicted :
      (n : ℕ) (context : Context) (charge : ℕ)
      → IsSound context
      → charge ≤ context.capacity
      → length context.entries < n
      → (next : Context) × (evict n context charge ≡ some next) × IsEvicted context charge next
  unfolding evict
  evict-IsEvicted zero context charge is small l = absurd (omega arith)
  evict-IsEvicted (suc n) context charge is small l =
      elim (Bool-cases (ltb (size_sub context.capacity charge) context.stats.cache_bytes)) [
        | inr fits ↦ (
          context,
          rw fits refl,
          record {
            sound = is;
            same_capacity = refl;
            room = ground arith;
            gone = [];
            oldest = sym (append-nil context.entries);
          },
        )
        | inl over ↦ elim (List-cases context.entries) [
          | inl empty ↦ absurd (ground (arith, is.used, ap total_charge empty))
          | inr (entry, entries, e) ↦
              let (before, tail, split, same) = split_tail-some entry entries in
              let shape : context.entries ≡ before ++ tail ∷ [] = e ∙ same in
              let smaller = drop_tail context before tail in
              let (fewer, as_large) = drop_tail-same context before tail in
              let is_smaller =
                drop_tail-IsSound context before tail
                  (subst (IsCache context.capacity context.stats.cache_bytes) shape is) in
              let shorter : length smaller.entries < n =
                omega
                  (arith, l, ap length fewer, ap length shape, length-append before (tail ∷ [])) in
              let (next, run, rest) =
                evict-IsEvicted n smaller charge is_smaller (omega (arith, small, as_large))
                  shorter in
              (
                next,
                rw (over, ap split_tail e ∙ split, evict) run,
                record {
                  sound = rest.sound;
                  same_capacity = rest.same_capacity ∙ as_large;
                  room = omega (arith, rest.room, as_large);
                  gone = rest.gone ++ tail ∷ [];
                  oldest =
                      shape
                      ∙ ap (λ l. l ++ tail ∷ []) (sym fewer ∙ rest.oldest)
                      ∙ append_assoc next.entries rest.gone (tail ∷ []);
                },
              )
        ]
      ]
