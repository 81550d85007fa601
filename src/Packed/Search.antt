-- ===== src/Packed/Search.antt =====
-- Proofs on `inkling_packed_read` of src/model/inkling_packed.c, against a search through the whole
-- table.
use inkling_in_c.Cache.{Range}
use inkling_in_c.Packed.Table.{
  PackedRange, ranges_at_most, precedes, search_loop, holds, read_from, read_candidate, packed_read,
  Served, passed,
}
use inkling_in_c.Prelude.{
  List, ◌≡◌, ℕ, ◌<◌, Option, ◌+◌, true, ◌^◌, none, ◌≤◌, All, arith, false, if◌then◌else◌, some,
  length, get_elem?, Bool-cases, ◌-◌, ◌==◌, inr, suc, ltb, inl, subst, ◌/◌, some_injective, ltb→lt,
  sym, Option-cases, ◌∙◌, get_elem?-none, ap, zero, ==_iff, ==_false, All-get, AllPairs-get, ◌%◌,
  get_elem?-lt,
}
use inkling_in_c.Packed.File.{Pread}
use inkling_in_c.Packed.Ranges.{
  precedes_mono, IsTable, holds-precedes, find_range, not-Apart, Ascends-at_most, Apart,
  find_range-none, IsTable-Apart, find_range-get,
}

module _ (shard start : ℕ) where
  -- The number of entries that precede a byte.
  record Splits (ranges : List PackedRange) (n : ℕ) : Type 0 where
    fits : n ≤ length ranges
    below :
        (i : ℕ) (a : PackedRange)
        → i < n
        → get_elem? ranges i ≡ some a
        → precedes shard start a.source ≡ true
    above :
        (i : ℕ) (a : PackedRange)
        → n ≤ i
        → get_elem? ranges i ≡ some a
        → precedes shard start a.source ≡ false

  record Window (ranges : List PackedRange) (low high : ℕ) : Type 0 where
    ordered : low ≤ high
    fits : high ≤ length ranges
    below :
        (i : ℕ) (a : PackedRange)
        → i < low
        → get_elem? ranges i ≡ some a
        → precedes shard start a.source ≡ true
    above :
        (i : ℕ) (a : PackedRange)
        → high ≤ i
        → get_elem? ranges i ≡ some a
        → precedes shard start a.source ≡ false

  module _ (ranges : List PackedRange)
      (sorted : (i j : ℕ) (a b : PackedRange)
        → i < j
        → get_elem? ranges i ≡ some a
        → get_elem? ranges j ≡ some b
        → ranges_at_most a b ≡ true) where
    below_middle :
        (m : ℕ) (c : PackedRange)
        → get_elem? ranges m ≡ some c
        → precedes shard start c.source ≡ true
        → (i : ℕ) (a : PackedRange) → i < m + 1
        → get_elem? ranges i ≡ some a
        → precedes shard start a.source ≡ true
    below_middle m c at_m p i a l at_i = elim (Bool-cases (i == m)) [
      | inl e ↦
          subst (λ x. precedes shard start x.source ≡ true)
            (some_injective (sym at_m ∙ ap (get_elem? ranges) (sym ((==_iff i m).0 e)) ∙ at_i)) p
      | inr e ↦
          precedes_mono shard start a c (sorted i m a c (omega (arith, ==_false e)) at_i at_m) p
    ]

    above_middle :
        (m : ℕ) (c : PackedRange)
        → get_elem? ranges m ≡ some c
        → precedes shard start c.source ≡ false
        → (i : ℕ) (a : PackedRange) → m ≤ i
        → get_elem? ranges i ≡ some a
        → precedes shard start a.source ≡ false
    above_middle m c at_m p i a l at_i = elim (Bool-cases (precedes shard start a.source)) [
      | inr e ↦ e
      | inl e ↦ elim (Bool-cases (i == m)) [
        | inl f ↦
            subst (λ x. precedes shard start x.source ≡ false)
              (some_injective (sym at_m ∙ ap (get_elem? ranges) (sym ((==_iff i m).0 f)) ∙ at_i)) p
        | inr f ↦
            let q =
              precedes_mono shard start c a (sorted m i c a (omega (arith, ==_false f)) at_m at_i)
                e in
            cc
      ]
    ]

    search_loop-Splits :
        (fuel low high : ℕ)
        → Window ranges low high
        → high - low ≤ fuel
        → Splits ranges (search_loop fuel ranges shard start low high)
    unfolding search_loop
    search_loop-Splits zero low high w l = record {
      fits = omega (arith, w.ordered, w.fits);
      below = w.below;
      above = λ i a p. w.above i a (omega (arith, w.ordered));
    }
    search_loop-Splits (suc fuel) low high w l = elim (Bool-cases (ltb low high)) [
      | inr e ↦
          rw (e, search_loop)
            (record {
              fits = omega (arith, w.ordered, w.fits);
              below = w.below;
              above = λ i a p. w.above i a (ground arith);
            })
      | inl e ↦
          rw (e, search_loop)
            (let middle = low + (high - low) / 2 in
              let p : low < high = ltb→lt low high e in
              elim (Option-cases (get_elem? ranges middle)) [
                | inl f ↦ absurd (get_elem?-none ranges middle (omega (arith, w.fits)) f)
                | inr (c, f) ↦ rw f (elim (Bool-cases (precedes shard start c.source)) [
                  | inl g ↦ rw g (
                      search_loop-Splits fuel (middle + 1) high
                        (record {
                          ordered = omega arith;
                          fits = w.fits;
                          below = below_middle middle c f g;
                          above = w.above;
                        })
                        (omega arith))
                  | inr g ↦ rw g (
                      search_loop-Splits fuel low middle
                        (record {
                          ordered = omega arith;
                          fits = omega (arith, w.fits);
                          below = w.below;
                          above = above_middle middle c f g;
                        })
                        (omega arith))
                ])
              ])
    ]

module _ (pread : Pread) (fuel time : ℕ) where
  unfoldable pub read_found : ℕ → ℕ → Option PackedRange → Served
  read_found start bytes none = passed
  read_found start bytes (some entry) = read_from pread fuel time start bytes entry

  none-passed :
      (ranges : List PackedRange) (shard start bytes n : ℕ)
      → All (λ a. holds shard start a.source ≡ false) ranges
      → (if n == 0
          then passed
          else read_candidate pread fuel time shard start bytes (get_elem? ranges (n - 1)))
        ≡ passed
  unfolding read_candidate
  none-passed ranges shard start bytes n h = elim (Bool-cases (n == 0)) [
    | inl e ↦ rw e
    | inr e ↦ rw e (elim (Option-cases (get_elem? ranges (n - 1))) [
      | inl f ↦ rw (f, read_candidate)
      | inr (a, f) ↦
          let outside = All-get (λ a. holds shard start a.source ≡ false) ranges h (n - 1) f in
          rw (f, read_candidate, outside)
    ])
  ]

  module _ (ranges : List PackedRange) (table : IsTable ranges) (shard start bytes : ℕ) where
    last-reads :
        (n i : ℕ) (c : PackedRange)
        → Splits shard start ranges n
        → get_elem? ranges i ≡ some c
        → holds shard start c.source ≡ true
        → (if n == 0
            then passed
            else read_candidate pread fuel time shard start bytes (get_elem? ranges (n - 1)))
          ≡ read_from pread fuel time start bytes c
    unfolding read_candidate read_from
    last-reads n i c s at_i h =
        let before = holds-precedes shard start c.source h in
        elim (Bool-cases (ltb i n)) [
          | inr e ↦ let after = s.above i c (ground arith) at_i in cc
          | inl e ↦
              let some_left : (n == 0) ≡ false = ground arith in
              elim (Bool-cases (i == n - 1)) [
                | inl f ↦
                    let last : get_elem? ranges (n - 1) ≡ some c =
                      ap (get_elem? ranges) (sym ((==_iff i (n - 1)).0 f)) ∙ at_i in
                    rw (some_left, last, read_candidate, h)
                | inr f ↦ elim (Option-cases (get_elem? ranges (n - 1))) [
                  | inl g ↦
                      absurd (get_elem?-none ranges (n - 1) (omega (arith, s.fits, ltb→lt i n e)) g)
                  | inr (d, g) ↦
                      let l : i < n - 1 = omega (arith, ltb→lt i n e, ==_false f) in
                      absurd (
                        not-Apart shard start c d h (s.below (n - 1) d (omega (arith, l)) g)
                          (Ascends-at_most ranges table.sorted i (n - 1) c d l at_i g)
                          (AllPairs-get Apart ranges (IsTable-Apart ranges table) i (n - 1) l at_i
                            g))
                ]
              ]
        ]

  -- If the ranges of the table are sorted and none overlaps the next, then a read through the binary
  -- search does what a search through the whole table does: it is passed on where no range holds the
  -- first byte, and else it is served from the range that holds it.
  pub packed_read-find :
      (ranges : List PackedRange) (range : Range) (relative bytes : ℕ)
      → IsTable ranges
      → packed_read pread fuel time (some ranges) range relative bytes
        ≡ read_found
            ((range.start + relative) % 2 ^ 64)
            bytes
            (find_range ranges range.shard ((range.start + relative) % 2 ^ 64))
  unfolding packed_read read_found
  packed_read-find ranges range relative bytes table =
      let start = (range.start + relative) % 2 ^ 64 in
      let n = search_loop (length ranges) ranges range.shard start 0 (length ranges) in
      let whole : Window range.shard start ranges 0 (length ranges) = record {
        ordered = omega arith;
        fits = omega arith;
        below = λ i a l e. absurd (omega arith);
        above = λ i a l e. absurd (omega (arith, get_elem?-lt ranges i e));
      } in
      let s : Splits range.shard start ranges n =
        search_loop-Splits range.shard start ranges (Ascends-at_most ranges table.sorted)
          (length ranges) 0 (length ranges) whole (omega arith) in
      elim (Option-cases (find_range ranges range.shard start)) [
        | inl e ↦ rw e (
            none-passed ranges range.shard start bytes n
              (find_range-none ranges range.shard start e))
        | inr (c, e) ↦
            let (i, at_i, h) = find_range-get ranges range.shard start c e in
            rw e (last-reads ranges table range.shard start bytes n i c s at_i h)
      ]
