-- ===== src/Safetensors/Cover.antt =====
-- Proofs on `inkling_safetensors_parse_header` of src/io/inkling_safetensors.c, with what a
-- catalogue of a whole payload is.
use inkling_in_c.Prelude.{
  ℕ, List, Option, Bytes, AllPairs, All, ◌<◌, ◌≡◌, length, ◌∷◌, some, ◌≢◌, Option-cases, ◌+◌, true,
  inl, [], false, inr, ◌≤◌, ◌*◌, Gives, gives, Gives-unless, Gives-bind, Gives-when, Gives-some,
  ◌==◌, ◌||◌, not, codes, ltb, arith, refl, Gives-self, u64_max, QSort, sym, Gives-if, ==_iff,
  subst, bytes_eq, ◌∙◌, ◌%◌, ◌^◌, ◌-◌, Gives-map, nothing, none, take, All-perm, AllPairs-perm,
}
use inkling_in_c.Safetensors.Tensor.{
  type_is_object, type_is_array, parse_tensor, tensor_size_is_valid, dtype_size, max_rank,
  dtype_of_name, is_known, read_shape, read_offsets,
}
use inkling_in_c.Safetensors.Header.{
  read_entry, Tensor, max_name_length, has_nul, read_members, check_ranges, covers, Memory, no_room,
  offsets_at_most, read_root, parse_header, metadata_is_valid, header_fits,
}
use inkling_in_c.Json.Value.{
  Value, Members, member, object, no_members, count_members, boolean, number, string, array, null,
}
use inkling_in_c.Safetensors.Sizes.{tensor_size_is_valid-IsSized, elements}
use inkling_in_c.Json.Access.{
  json_string, json_object_get, json_type, json_object_size, json_array_size,
}
use inkling_in_c.Json.Valid.{IsFresh, IsDictionary, next_key, IsValid, is_object}
use inkling_in_c.Json.Text.{Result, ok, fail, stuck}
use inkling_in_c.Json.Ensures.{Ensures, holds}
use inkling_in_c.Json.Parse.{max_levels, parse_document}
use inkling_in_c.Json.Sound.{parse_document-Ensures}

-- What holds of each tensor of an accepted header.
pub record IsEntry (payload_size : ℕ) (t : Tensor) : Type 0 where
  pub named : 0 < length t.name
  pub name_fits : length t.name < max_name_length
  pub no_nul : has_nul t.name ≡ false
  pub known : 0 < dtype_size t.dtype
  pub rank_bounded : length t.shape ≤ max_rank
  pub bytes_eq : t.byte_length ≡ elements t.shape * dtype_size t.dtype
  pub inside : t.data_offset + t.byte_length ≤ payload_size

-- The ranges follow one another from `from` to `to`.
abbrev pub Tiles : ℕ → ℕ → List Tensor → Type 0
Tiles from to [] = from ≡ to
Tiles from to (t ∷ ts) = (t.data_offset ≡ from) × Tiles (from + t.byte_length) to ts

abbrev pub NamesDiffer : List Tensor → Type 0
NamesDiffer = AllPairs (λ t u. t.name ≢ u.name)

-- The catalogue of a shard with so many bytes of payload.
pub record IsShard (payload_size : ℕ) (ts : List Tensor) : Type 0 where
  pub entries : All (IsEntry payload_size) ts
  pub tiles : Tiles 0 payload_size ts
  pub names : NamesDiffer ts

parse_tensor-valid :
    (v : Option Value) → Gives (λ t. tensor_size_is_valid t ≡ true) (parse_tensor v)
unfolding parse_tensor
parse_tensor-valid v =
    let dtype = dtype_of_name (json_string (json_object_get v (codes "dtype"))) in
    let shape = json_object_get v (codes "shape") in
    Gives-unless (not (type_is_object (json_type v)) || not (json_object_size v == 3)) λ _.
      Gives-unless
        (not (is_known dtype)
          || not (type_is_array (json_type shape))
          || ltb max_rank (json_array_size shape))
        λ _. Gives-bind (read_shape shape 0 (json_array_size shape)) λ sizes _.
          Gives-bind (read_offsets (json_object_get v (codes "data_offsets")))
            λ offsets _. Gives-self _ λ t e. ground arith

read_entry-IsEntry :
    (payload_size : ℕ) (name : Bytes) (v : Value)
    → Gives (λ t. IsEntry payload_size t × (t.name ≡ name)) (read_entry payload_size name v)
unfolding read_entry
read_entry-IsEntry payload_size name v =
    Gives-unless (length name == 0 || not (ltb (length name) max_name_length) || has_nul name)
      λ fine. Gives-bind (parse_tensor (some v)) λ info e.
        let sized =
          tensor_size_is_valid-IsSized info (Gives-some (parse_tensor-valid (some v)) e) in
        Gives-unless (ltb payload_size info.data_end) λ inside. gives (ground arith, refl)

-- What the members of a header give: entries, whose names are keys of the header.
pub record Reads (n payload_size : ℕ) (ms : Members) (ts : List Tensor) : Type 0 where
  pub entries : All (IsEntry payload_size) ts
  pub absent : (k : Bytes) → IsFresh k ms → All (λ t. k ≢ t.name) ts
  pub names : IsDictionary n ms → NamesDiffer ts

IsDictionary-tail :
    {n : ℕ} {k : Bytes} {v : Value} {ms : Members}
    → IsDictionary n (member k v ms)
    → IsFresh k ms × IsDictionary n ms
IsDictionary-tail (next_key u f x d) = (f, d)

Reads-skip :
    {n payload_size : ℕ} (k : Bytes) (v : Value) {ms : Members} {ts : List Tensor}
    → Reads n payload_size ms ts
    → Reads n payload_size (member k v ms) ts
Reads-skip k v r = record {
  entries = r.entries;
  absent = λ j f. r.absent j f.1;
  names = λ d. r.names (IsDictionary-tail d).1;
}

Reads-add :
    {n payload_size : ℕ} (k : Bytes) (v : Value) {ms : Members} {ts : List Tensor} {t : Tensor}
    → IsEntry payload_size t
    → t.name ≡ k
    → Reads n payload_size ms ts
    → Reads n payload_size (member k v ms) (t ∷ ts)
Reads-add k v {ts = ts} h e r = record {
  entries = (h, r.entries);
  absent = λ j f. (λ same. f.0 (sym (same ∙ e)), r.absent j f.1);
  names = λ d. (
    subst (λ j. All (λ u. j ≢ u.name) ts) (sym e) (r.absent k (IsDictionary-tail d).0),
    r.names (IsDictionary-tail d).1,
  );
}

read_members-Reads :
    {n : ℕ} (payload_size : ℕ) (ms : Members)
    → Gives (Reads n payload_size ms) (read_members payload_size ms)
unfolding read_members
read_members-Reads payload_size no_members =
    gives (record { entries = tt; absent = λ k f. tt; names = λ d. tt })
read_members-Reads payload_size (member name v ms) =
    Gives-if (bytes_eq name (codes "__metadata__"))
      (λ _. Gives-when (metadata_is_valid v) λ _.
        Gives-self (read_members payload_size ms)
          λ ts e. Reads-skip name v (Gives-some (read_members-Reads payload_size ms) e))
      (λ _. Gives-bind (read_entry payload_size name v) λ t e.
        let (h, named) = Gives-some (read_entry-IsEntry payload_size name v) e in
        Gives-map (read_members payload_size ms) (λ ts. t ∷ ts)
          λ ts f. Reads-add name v h named (Gives-some (read_members-Reads payload_size ms) f))

check_ranges-Tiles :
    (from : ℕ) (ts : List Tensor) {payload_size : ℕ}
    → payload_size ≤ u64_max
    → All (IsEntry payload_size) ts
    → Gives (λ to. Tiles from to ts) (check_ranges from ts)
unfolding check_ranges
check_ranges-Tiles from [] l h = gives refl
check_ranges-Tiles from (t ∷ ts) l h = Gives-when (t.data_offset == from) λ same.
    Gives-self _ λ to e.
      let here = (==_iff t.data_offset from).0 same in
      let inside = h.0.inside in
      let exact : (t.data_offset + t.byte_length) % 2 ^ 64 ≡ from + t.byte_length = omega arith in
      (
        here,
        subst (λ k. Tiles k to ts) exact
            (Gives-some (check_ranges-Tiles ((t.data_offset + t.byte_length) % 2 ^ 64) ts l h.1) e),
      )

covers-Tiles :
    (payload_size : ℕ) (ts : List Tensor)
    → payload_size ≤ u64_max
    → All (IsEntry payload_size) ts
    → covers payload_size ts ≡ true
    → Tiles 0 payload_size ts
unfolding covers
covers-Tiles payload_size ts l h c = elim (Option-cases (check_ranges 0 ts)) [
  | inl e ↦ absurd (let stop : false ≡ true = rw (e, covers) at c in cc)
  | inr (end, e) ↦
      let last : (end == payload_size) ≡ true = rw (e, covers) at c in
      subst (λ k. Tiles 0 k ts) ((==_iff end payload_size).0 last)
        (Gives-some (check_ranges-Tiles 0 ts l h) e)
]

module _ (memory : Memory) (qsort : QSort offsets_at_most) where
  read_root-IsShard :
      {n : ℕ} (payload_size : ℕ) (root : Value)
      → payload_size ≤ u64_max
      → IsValid n root
      → Gives (IsShard payload_size) (read_root memory qsort payload_size root)
  unfolding read_root
  read_root-IsShard payload_size (object ms) l (is_object d) =
      Gives-unless (no_room memory (count_members ms)) λ _.
        Gives-bind (read_members payload_size ms) λ ts e.
          let r = Gives-some (read_members-Reads payload_size ms) e in
          let entries = All-perm (IsEntry payload_size) (qsort.permutes ts) r.entries in
          Gives-when (covers payload_size (qsort.sort ts)) λ covered. gives (record {
            entries = entries;
            tiles = covers-Tiles payload_size (qsort.sort ts) l entries covered;
            names =
                AllPairs-perm (λ t u. t.name ≢ u.name) (λ t u ne e'. ne (sym e'))
                  (qsort.permutes ts) (r.names d);
          })
  read_root-IsShard payload_size null l h = nothing
  read_root-IsShard payload_size (boolean b) l h = nothing
  read_root-IsShard payload_size (number w) l h = nothing
  read_root-IsShard payload_size (string s) l h = nothing
  read_root-IsShard payload_size (array vs) l h = nothing

  -- On a shard whose size a `uint64_t` holds, an accepted header gives tensors whose ranges cover
  -- the payload from its first byte to its last without gap or overlap, each with a range of exactly
  -- the bytes of its shape and type, and with a name of its own that is not empty and fits its array.
  pub parse_header-IsShard :
      (json : Option Bytes) (header_size shard_size : ℕ)
      → shard_size ≤ u64_max
      → Gives
          (IsShard (shard_size - 8 - header_size))
          (parse_header memory qsort json header_size shard_size)
  unfolding parse_header
  parse_header-IsShard none header_size shard_size l = nothing
  parse_header-IsShard (some json) header_size shard_size l =
      Gives-when (header_fits json header_size shard_size) λ fits.
        root_cases (parse_document memory.reader (take header_size json))
          (parse_document-Ensures memory.reader (take header_size json))
    where
      root_cases :
          {t : ℕ} (r : Result Value)
          → Ensures t (IsValid max_levels) r
          → Gives (IsShard (shard_size - 8 - header_size)) (elim r [
            | ok root ↦ read_root memory qsort (shard_size - 8 - header_size) root
            | fail _ _ ↦ none
            | stuck ↦ none
          ])
      root_cases (ok root) (holds h) = read_root-IsShard _ root (omega arith) h
      root_cases (fail _ _) h = nothing
      root_cases stuck h = elim h [ ]
