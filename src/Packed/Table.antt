-- ===== src/Packed/Table.antt =====
-- The table of the packed trunk in src/model/inkling_packed.c: `PackedRange`, `compare_ranges`, the
-- test of `inkling_packed_open` on neighbours, and `inkling_packed_read`.
use inkling_in_c.Cache.{Range}
use inkling_in_c.Packed.File.{Pread, positional_read}
use inkling_in_c.Prelude.{
  ℕ, Bool, List, Bytes, Option, ltb, not, ◌-◌, if◌then◌else◌, ◌==◌, suc, some, leb, ◌&&◌, ◌||◌, ◌+◌,
  none, ◌^◌, ◌%◌, length, get_elem?, false, ◌∷◌, true, ◌/◌, zero,
}

pub record PackedRange : Type 0 where
  pub source : Range
  pub destination : ℕ

-- `compare_ranges(a, b) <= 0`
unfoldable pub ranges_at_most : PackedRange → PackedRange → Bool
ranges_at_most a b =
    if a.source.shard == b.source.shard
    then leb a.source.start b.source.start
    else ltb a.source.shard b.source.shard

abbrev pub meets : Range → Range → Bool
meets a b = a.shard == b.shard && ltb ((b.start + 2 ^ 64 - a.start) % 2 ^ 64) a.bytes

-- The loop over the neighbours of the sorted table.
unfoldable pub no_overlap : List PackedRange → Bool
no_overlap (a ∷ b ∷ ranges) = if meets a.source b.source then false else no_overlap (b ∷ ranges)
no_overlap _ = true

-- The test of the binary search.
abbrev pub precedes : ℕ → ℕ → Range → Bool
precedes shard start candidate =
    ltb candidate.shard shard || candidate.shard == shard && leb candidate.start start

-- The binary search, with fuel: the number of candidates is enough.
unfoldable pub search_loop : ℕ → List PackedRange → ℕ → ℕ → ℕ → ℕ → ℕ
search_loop zero ranges shard start low high = low
search_loop (suc fuel) ranges shard start low high = elim (ltb low high) [
  | false ↦ low
  | true ↦
      let middle = low + (high - low) / 2 in
      elim (get_elem? ranges middle) [
        | none ↦ low
        | some candidate ↦ elim (precedes shard start candidate.source) [
          | true ↦ search_loop fuel ranges shard start (middle + 1) high
          | false ↦ search_loop fuel ranges shard start low middle
        ]
      ]
]

-- `*handled` is 0 where the read passes on; `refused` is the failure.
pub data Served : Type 0 where
  passed refused : Served
  served : Bytes → ℕ → Served

-- The test that the entry holds the byte.
abbrev pub holds : ℕ → ℕ → Range → Bool
holds shard start entry =
    not
      (not (entry.shard == shard) || ltb start entry.start || leb entry.bytes (start - entry.start))

unfoldable pub served_or : Option (Bytes × ℕ) → Served
served_or none = refused
served_or (some (bytes, time)) = served bytes time

module _ (pread : Pread) (fuel time : ℕ) where
  -- What follows the test that the entry holds the byte.
  unfoldable pub read_from : ℕ → ℕ → PackedRange → Served
  unfolding served_or
  read_from start bytes entry =
      let inside = start - entry.source.start in
      if ltb (entry.source.bytes - inside) bytes
      then refused
      else served_or (positional_read pread fuel time ((entry.destination + inside) % 2 ^ 64) bytes)

  unfoldable pub read_candidate : ℕ → ℕ → ℕ → Option PackedRange → Served
  read_candidate shard start bytes none = passed
  read_candidate shard start bytes (some entry) =
      if holds shard start entry.source then read_from start bytes entry else passed

  -- `inkling_packed_read`; the table is `none` where the model has no packed trunk.
  unfoldable pub packed_read : Option (List PackedRange) → Range → ℕ → ℕ → Served
  packed_read none range relative bytes = passed
  packed_read (some ranges) range relative bytes =
      let start = (range.start + relative) % 2 ^ 64 in
      let low = search_loop (length ranges) ranges range.shard start 0 (length ranges) in
      if low == 0
      then passed
      else read_candidate range.shard start bytes (get_elem? ranges (low - 1))
