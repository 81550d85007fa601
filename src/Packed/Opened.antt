-- ===== src/Packed/Opened.antt =====
-- Proofs on `inkling_packed_open` of src/model/inkling_packed.c: the table that it leaves, and the reads
-- through it.
use inkling_in_c.Packed.Open.{
  packed_range, packed_ranges, open_table, open_header, packed_open, same_source, same_tensor,
  header_size_fits, document_root, metadata_is_trunk, little_number, number_is,
}
use inkling_in_c.Packed.Table.{
  PackedRange, ranges_at_most, no_overlap, read_from, packed_read, served, holds, served_or,
}
use inkling_in_c.Prelude.{
  ℕ, Option, ◌+◌, List, Bool, ◌≤◌, All, QSort, ◌≡◌, true, ◌-◌, Bytes, ◌<◌, Gives, ◌^◌, Gives-unless,
  Gives-bind, gives, ◌∷◌, Gives-when, Gives-map, All-perm, Gives-some, All-map, [], both, ==_iff,
  ptrdiff_max, some, ap, ◌&&◌, not, arith, ◌||◌, none, ltb, codes, length, ◌==◌, false, All-get,
  ◌%◌, ◌∙◌, AllPairs, Gives-imply,
}
use inkling_in_c.Index.Table.{Index, find_tensor}
use inkling_in_c.Safetensors.Header.{Memory, Tensor, offsets_at_most, parse_header}
use inkling_in_c.Json.Value.{Value}
use inkling_in_c.Safetensors.Cover.{IsEntry, parse_header-IsShard}
use inkling_in_c.Packed.Identity.{File, string_equal}
use inkling_in_c.Json.Access.{json_array_at, json_object_get, json_string}
use inkling_in_c.Json.Integers.{json_number_u64-bounded}
use inkling_in_c.Json.Parse.{parse_document}
use inkling_in_c.Packed.File.{hash_range, positional_read, Pread}
use inkling_in_c.Packed.Sha.{sha_start, sha_finish}
use inkling_in_c.Packed.Reads.{Serves, slice, positional_read_complete}
use inkling_in_c.Cache.{Range}
use inkling_in_c.Packed.Search.{read_found, packed_read-find}
use inkling_in_c.Packed.Ranges.{find_range, IsTable, find_range-get, InOrder, IsTable-InOrder}

-- The bytes of a range lie in the packed file.
abbrev pub IsInside : ℕ → PackedRange → Type 0
IsInside file_size r = r.destination + r.source.bytes ≤ file_size

-- A table that may be read: as the search needs it, with ranges that lie in the packed file.
pub record IsOpened (file_size : ℕ) (ranges : List PackedRange) : Type 0 where
  pub table : IsTable ranges
  pub inside : All (IsInside file_size) ranges

number_is-eq : (o : Option ℕ) (n : ℕ) → number_is o n ≡ true → o ≡ some n
unfolding number_is
number_is-eq none n h = cc
number_is-eq (some m) n h = ap some ((==_iff m n).0 h)

same_source-start :
    (source : Option Value) (original : Tensor)
    → same_source source original ≡ true
    → original.data_offset < 2 ^ 64
unfolding same_source
same_source-start source original h =
    let numbers = both _ _ (both _ _ h).0 in
    Gives-some (json_number_u64-bounded (json_array_at source 1))
      (number_is-eq _ original.data_offset numbers.1)

same_tensor-length :
    (t original : Tensor) → same_tensor t original ≡ true → t.byte_length ≡ original.byte_length
same_tensor-length t original h =
    (==_iff t.byte_length original.byte_length).0 (both _ _ (both _ _ h).0).1

packed_range-IsInside :
    (index : Index) (sources : Value) (file_size header_size : ℕ) (t : Tensor)
    → IsEntry (file_size - 8 - header_size) t
    → 8 + header_size ≤ file_size
    → Gives
        (λ r. IsInside file_size r × (r.source.start < 2 ^ 64))
        (packed_range index sources header_size t)
unfolding packed_range
packed_range-IsInside index sources file_size header_size t h l =
    Gives-bind (find_tensor index t.name) λ original e.
      let source = json_object_get (some sources) t.name in
      Gives-when (same_tensor t original && same_source source original) λ same.
        let (tensors, places) = both (same_tensor t original) (same_source source original) same in
        gives (
          omega (arith, h.inside, same_tensor-length t original tensors),
          same_source-start source original places,
        )

packed_ranges-IsInside :
    (index : Index) (sources : Value) (file_size header_size : ℕ) (ts : List Tensor)
    → All (IsEntry (file_size - 8 - header_size)) ts
    → 8 + header_size ≤ file_size
    → Gives
        (All (λ r. IsInside file_size r × (r.source.start < 2 ^ 64)))
        (packed_ranges index sources header_size ts)
unfolding packed_ranges
packed_ranges-IsInside index sources file_size header_size [] h l = gives tt
packed_ranges-IsInside index sources file_size header_size (t ∷ ts) h l =
    Gives-bind (packed_range index sources header_size t) λ r e.
      Gives-map (packed_ranges index sources header_size ts) (λ rs. r ∷ rs)
        λ rs f. (
          Gives-some (packed_range-IsInside index sources file_size header_size t h.0 l) e,
          Gives-some (packed_ranges-IsInside index sources file_size header_size ts h.1 l) f,
        )

module _ (memory : Memory) (granted : ℕ → Bool) (sort_tensors : QSort offsets_at_most)
    (sort_ranges : QSort ranges_at_most) (files : Bytes → Option File) (fuel : ℕ)
    (index : Index) where
  open_table-IsOpened :
      (sources : Value) (file_size header_size : ℕ) (ts : List Tensor)
      → All (IsEntry (file_size - 8 - header_size)) ts
      → 8 + header_size ≤ file_size
      → Gives (IsOpened file_size) (
          open_table memory granted sort_tensors sort_ranges files fuel index sources header_size
            ts)
  unfolding open_table
  open_table-IsOpened sources file_size header_size ts h l = Gives-unless _ λ _.
      Gives-bind (packed_ranges index sources header_size ts) λ ranges e.
        Gives-when (no_overlap (sort_ranges.sort ranges)) λ apart.
          let each =
            All-perm _ (sort_ranges.permutes ranges)
              (Gives-some (packed_ranges-IsInside index sources file_size header_size ts h l) e) in
          gives (record {
            table = record {
              sorted = sort_ranges.ascends ranges;
              apart = apart;
              small = All-map _ (λ r. r.source.start < 2 ^ 64) (λ r p. p.1) _ each;
            };
            inside = All-map _ (IsInside file_size) (λ r p. p.0) _ each;
          })

  open_header-IsOpened :
      (directory : Bytes) (file : File) (file_size header_size : ℕ) (header : Bytes) (time : ℕ)
      → file_size ≤ ptrdiff_max
      → 8 + header_size ≤ file_size
      → Gives (IsOpened file_size) (
          open_header memory granted sort_tensors sort_ranges files fuel index directory file
            file_size header_size header time)
  unfolding open_header
  open_header-IsOpened directory file file_size header_size header time small l =
      Gives-bind (parse_header memory sort_tensors (some header) header_size file_size) λ ts e.
        let shard =
          Gives-some
            (parse_header-IsShard memory sort_tensors (some header) header_size file_size
              (omega arith))
            e in
        Gives-bind (document_root (parse_document memory.reader header)) λ root _.
          let metadata = json_object_get (some root) (codes "__metadata__") in
          Gives-unless
            (length ts == 0
              || not (
                  metadata_is_trunk memory granted sort_tensors sort_ranges files fuel index
                    directory header metadata))
            λ _.
              Gives-bind
                (hash_range file.pread fuel time sha_start (8 + header_size)
                  (file_size - 8 - header_size))
                λ (hash, t) _.
                  Gives-when
                    (string_equal (json_object_get metadata (codes "payload_sha256"))
                      (sha_finish hash))
                    λ _.
                      Gives-bind (json_string (json_object_get metadata (codes "source_ranges")))
                        λ mapping _.
                          Gives-bind (document_root (parse_document memory.reader mapping))
                            λ sources _.
                              open_table-IsOpened sources file_size header_size ts shard.entries l

  packed_open-table :
      (directory : Bytes) (file : File) (file_size : ℕ)
      → file.regular_size ≡ some file_size
      → file_size ≤ ptrdiff_max
      → Gives (IsOpened file_size) (
          packed_open memory granted sort_tensors sort_ranges files fuel index directory
            (some file))
  unfolding packed_open open_header
  packed_open-table directory file file_size e l = rw e (
      Gives-unless (not (granted 24) || ltb file_size 8) λ _.
        Gives-bind (positional_read file.pread fuel 0 0 8) λ (prefix, t) _.
          let header_size = little_number prefix in
          Gives-when (header_size_fits header_size file_size && granted (header_size + 1)) λ fits.
            Gives-bind (positional_read file.pread fuel t 8 header_size) λ (header, u) _.
              open_header-IsOpened directory file file_size header_size header u l (ground arith))

  -- Of any two ranges of a table that `inkling_packed_open` leaves, the first stands in a lower shard, or
  -- ends in the same shard before the second begins; each stands in the packed file from its first byte
  -- to its last; and the table is one that the search can read.
  pub packed_open-IsOpened :
      (directory : Bytes) (file : File) (file_size : ℕ)
      → file.regular_size ≡ some file_size
      → file_size ≤ ptrdiff_max
      → Gives
          (λ ranges. AllPairs InOrder ranges × IsOpened file_size ranges)
          (packed_open memory granted sort_tensors sort_ranges files fuel index directory
            (some file))
  packed_open-IsOpened directory file file_size e l =
      Gives-imply (λ ranges opened. (IsTable-InOrder ranges opened.table, opened))
        (packed_open-table directory file file_size e l)

within_file :
    (contents : Bytes) (entry : PackedRange) (shard start bytes : ℕ)
    → holds shard start entry.source ≡ true
    → IsInside (length contents) entry
    → start + bytes ≤ entry.source.start + entry.source.bytes
    → entry.destination + (start - entry.source.start) + bytes ≤ length contents
within_file contents entry shard start bytes h inside ends = ground arith

read_from_entry :
    (pread : Pread) (fuel time : ℕ) (entry : PackedRange) (start bytes : ℕ)
    → entry.source.start ≤ start
    → entry.destination + (start - entry.source.start) < 2 ^ 64
    → start + bytes ≤ entry.source.start + entry.source.bytes
    → read_from pread fuel time start bytes entry
      ≡ served_or
          (positional_read pread fuel time (entry.destination + (start - entry.source.start)) bytes)
unfolding read_from served_or
read_from_entry pread fuel time entry start bytes behind small ends =
    let fits : ltb (entry.source.bytes - (start - entry.source.start)) bytes ≡ false =
      ground arith in
    let same : (entry.destination + (start - entry.source.start)) % 2 ^ 64
        ≡ entry.destination + (start - entry.source.start) =
      omega arith in
    rw fits (ap (λ o. served_or (positional_read pread fuel time o bytes)) same)

-- A read through a table that may be read, of a range of the model whose first byte an entry of the
-- table holds, gives the bytes of the packed file that stand at the same distance from the entry's
-- destination, if the read ends in that entry: the bytes lie in the file, and no read fails.
pub packed_read-served :
    {contents : Bytes} {settled : ℕ} {pread : Pread} (file : Serves contents settled pread)
    → length contents ≤ ptrdiff_max
    → (ranges : List PackedRange) (range : Range) (relative bytes fuel time : ℕ)
      (entry : PackedRange)
    → IsOpened (length contents) ranges
    → find_range ranges range.shard (range.start + relative) ≡ some entry
    → range.start + relative < 2 ^ 64
    → range.start + relative + bytes ≤ entry.source.start + entry.source.bytes
    → bytes + settled ≤ fuel
    → (t : ℕ) × (packed_read pread fuel time (some ranges) range relative bytes
        ≡ served
            (slice contents
              (entry.destination + (range.start + relative - entry.source.start))
              bytes)
            t)
unfolding read_found served_or
packed_read-served {contents} {settled} {pread} file small ranges range relative bytes fuel time
      entry opened found l ends enough =
    let start = range.start + relative in
    let (i, at_i, h) = find_range-get ranges range.shard start entry found in
    let inside : IsInside (length contents) entry =
      All-get (IsInside (length contents)) ranges opened.inside i at_i in
    let same : start % 2 ^ 64 ≡ start = omega arith in
    let searched = packed_read-find pread fuel time ranges range relative bytes opened.table in
    let (t, read) =
      positional_read_complete file small fuel time
        (entry.destination + (start - entry.source.start)) bytes
        (within_file contents entry range.shard start bytes h inside ends) (omega arith) in
    (
      t,
      searched
          ∙ ap (λ s. read_found pread fuel time s bytes (find_range ranges range.shard s)) same
          ∙ ap (read_found pread fuel time start bytes) found
          ∙ read_from_entry pread fuel time entry start bytes (ground arith) (omega (arith, inside))
              ends
          ∙ ap served_or read,
    )
