-- ===== src/Packed/Ranges.antt =====
-- Proofs on the table of ranges of src/model/inkling_packed.c: its order, and the entry that holds a
-- byte.
use inkling_in_c.Cache.{Range}
use inkling_in_c.Packed.Table.{PackedRange, ranges_at_most, no_overlap, precedes, holds, meets}
use inkling_in_c.Prelude.{
  List, ◌≡◌, ℕ, ◌<◌, Option, ◌+◌, Ascends, true, ◌^◌, none, ◌≤◌, All, arith, ◌∷◌, false,
  if◌then◌else◌, some, [], get_elem?, Bool-cases, inr, suc, inl, subst, some_injective, sym, ◌∙◌,
  ap, Ascends-get, AllPairs, unless_true, All-map, Ascends-All, ◌⊎◌, ◌==◌, ==_iff,
}

-- The first entry that holds a byte.
unfoldable pub find_range : List PackedRange → ℕ → ℕ → Option PackedRange
find_range [] shard start = none
find_range (entry ∷ ranges) shard start =
    if holds shard start entry.source then some entry else find_range ranges shard start

-- One range ends before the other begins, if both lie in one shard.
abbrev pub Apart : PackedRange → PackedRange → Type 0
Apart a b = a.source.shard ≡ b.source.shard → a.source.start + a.source.bytes ≤ b.source.start

-- A table as `inkling_packed_open` leaves it: sorted, and no neighbours that overlap.
pub record IsTable (ranges : List PackedRange) : Type 0 where
  pub sorted : Ascends ranges_at_most ranges
  pub apart : no_overlap ranges ≡ true
  pub small : All (λ r. r.source.start < 2 ^ 64) ranges

pub ranges_at_most_trans :
    (a b c : PackedRange)
    → ranges_at_most a b ≡ true
    → ranges_at_most b c ≡ true
    → ranges_at_most a c ≡ true
unfolding ranges_at_most
ranges_at_most_trans a b c h k = ground arith

pub precedes_mono :
    (shard start : ℕ) (a b : PackedRange)
    → ranges_at_most a b ≡ true
    → precedes shard start b.source ≡ true
    → precedes shard start a.source ≡ true
unfolding ranges_at_most
precedes_mono shard start a b h k = ground arith

pub Apart-step :
    (a b : PackedRange)
    → a.source.start < 2 ^ 64
    → b.source.start < 2 ^ 64
    → ranges_at_most a b ≡ true
    → meets a.source b.source ≡ false
    → Apart a b
unfolding ranges_at_most
Apart-step a b l m h k s = ground arith

pub Apart-at_most :
    (a b c : PackedRange)
    → Apart a b
    → ranges_at_most a b ≡ true
    → ranges_at_most b c ≡ true
    → Apart a c
unfolding ranges_at_most
Apart-at_most a b c h k l s = ground (arith, h)

pub Ascends-at_most :
    (ranges : List PackedRange)
    → Ascends ranges_at_most ranges
    → (i j : ℕ) (a b : PackedRange) → i < j
    → get_elem? ranges i ≡ some a
    → get_elem? ranges j ≡ some b
    → ranges_at_most a b ≡ true
Ascends-at_most ranges h = Ascends-get ranges_at_most ranges_at_most_trans ranges h

-- Any two ranges of the table that lie in one shard are apart.
pub IsTable-Apart : (ranges : List PackedRange) → IsTable ranges → AllPairs Apart ranges
unfolding no_overlap
IsTable-Apart [] t = tt
IsTable-Apart (a ∷ []) t = (tt, tt)
IsTable-Apart (a ∷ b ∷ rest) t =
    let tail : IsTable (b ∷ rest) = record {
      sorted = t.sorted.1;
      apart = (unless_true (meets a.source b.source) _ t.apart).1;
      small = t.small.1;
    } in
    let pairs = IsTable-Apart (b ∷ rest) tail in
    let first : Apart a b =
      Apart-step a b t.small.0 t.small.1.0 t.sorted.0
        (unless_true (meets a.source b.source) _ t.apart).0 in
    (
      (
        first,
        All-map (λ c. ranges_at_most b c ≡ true) (Apart a)
            (λ c l. Apart-at_most a b c first t.sorted.0 l) rest
            (Ascends-All ranges_at_most ranges_at_most_trans b rest t.sorted.1),
      ),
      pairs,
    )

-- One range stands in a lower shard than the other, or ends in the same shard before the other begins.
abbrev pub InOrder : PackedRange → PackedRange → Type 0
InOrder a b =
    (a.source.shard < b.source.shard)
    ⊎ ((a.source.shard ≡ b.source.shard) × (a.source.start + a.source.bytes ≤ b.source.start))

ranges_at_most-InOrder : (a b : PackedRange) → ranges_at_most a b ≡ true → Apart a b → InOrder a b
unfolding ranges_at_most
ranges_at_most-InOrder a b l apart = elim (Bool-cases (a.source.shard == b.source.shard)) [
  | inl e ↦
      let same : a.source.shard ≡ b.source.shard = (==_iff a.source.shard b.source.shard).0 e in
      inr (same, apart same)
  | inr e ↦ inl (ground arith)
]

all-InOrder :
    (a : PackedRange) (ranges : List PackedRange)
    → All (λ b. ranges_at_most a b ≡ true) ranges
    → All (Apart a) ranges
    → All (InOrder a) ranges
all-InOrder a [] l h = tt
all-InOrder a (b ∷ ranges) l h = (ranges_at_most-InOrder a b l.0 h.0, all-InOrder a ranges l.1 h.1)

pairs-InOrder :
    (ranges : List PackedRange)
    → Ascends ranges_at_most ranges
    → AllPairs Apart ranges
    → AllPairs InOrder ranges
pairs-InOrder [] s h = tt
pairs-InOrder (a ∷ []) s h = (tt, tt)
pairs-InOrder (a ∷ b ∷ ranges) s h = (
  all-InOrder a (b ∷ ranges) (Ascends-All ranges_at_most ranges_at_most_trans a (b ∷ ranges) s) h.0,
  pairs-InOrder (b ∷ ranges) s.1 h.1,
)

pub IsTable-InOrder : (ranges : List PackedRange) → IsTable ranges → AllPairs InOrder ranges
IsTable-InOrder ranges t = pairs-InOrder ranges t.sorted (IsTable-Apart ranges t)

pub find_range-get :
    (ranges : List PackedRange) (shard start : ℕ) (c : PackedRange)
    → find_range ranges shard start ≡ some c
    → (i : ℕ) × (get_elem? ranges i ≡ some c) × (holds shard start c.source ≡ true)
unfolding find_range
find_range-get [] shard start c e = cc
find_range-get (a ∷ ranges) shard start c e = elim (Bool-cases (holds shard start a.source)) [
  | inl h ↦
      let same : a ≡ c = some_injective (sym (rw h) ∙ e) in
      (0, ap some same, subst (λ x. holds shard start x.source ≡ true) same h)
  | inr h ↦
      let (i, at_i, k) = find_range-get ranges shard start c (sym (rw h) ∙ e) in (suc i, at_i, k)
]

pub find_range-none :
    (ranges : List PackedRange) (shard start : ℕ)
    → find_range ranges shard start ≡ none
    → All (λ a. holds shard start a.source ≡ false) ranges
unfolding find_range
find_range-none [] shard start e = tt
find_range-none (b ∷ ranges) shard start e = elim (Bool-cases (holds shard start b.source)) [
  | inl h ↦ let wrong : some b ≡ none = sym (rw h) ∙ e in cc
  | inr h ↦ (h, find_range-none ranges shard start (sym (rw h) ∙ e))
]

-- Two entries that cover one byte, one of them the last that precedes it, are not apart.
pub not-Apart :
    (shard start : ℕ) (c e : PackedRange)
    → holds shard start c.source ≡ true
    → precedes shard start e.source ≡ true
    → ranges_at_most c e ≡ true
    → ¬ Apart c e
unfolding ranges_at_most
not-Apart shard start c e h p l a = ground (arith, a)

pub holds-precedes :
    (shard start : ℕ) (c : Range) → holds shard start c ≡ true → precedes shard start c ≡ true
holds-precedes shard start c h = ground arith
