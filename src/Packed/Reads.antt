-- ===== src/Packed/Reads.antt =====
-- Proofs on `positional_read` and `hash_range` of src/model/inkling_packed.c, over short reads and
-- interrupted calls.
use mathlib.Core.Option
use inkling_in_c.Packed.Sha.{Sha256, sha_update}
use inkling_in_c.Packed.File.{
  Pread, got, interrupted, read_loop, positional_read, hash_loop, hash_range, buffer_size,
}
use inkling_in_c.Prelude.{
  Bytes, ℕ, take, ◌≡◌, ◌++◌, length, drop, ◌≤◌, ◌+◌, ◌<◌, ptrdiff_max, ◌⊎◌, Option, ◌-◌, ◌∷◌, some,
  suc, arith, Bool-cases, ltb, inl, ltb→lt, inr, min, ◌*◌, zero, refl, ◌∙◌, ap, ◌||◌, sym,
  drop-drop, take-add, ◌^◌,
}
use inkling_in_c.Packed.Streaming.{
  sha_update-used, sha_update-append, sha_update_nothing, sha_update-bytes,
}

abbrev pub slice : Bytes → ℕ → ℕ → Bytes
slice contents offset bytes = take bytes (drop offset contents)

-- What `pread` does on a file that holds `contents`: it gives bytes of the file from the offset on, no
-- more than asked, and one at least before the end; only calls before `settled` are interrupted.
pub record Serves (contents : Bytes) (settled : ℕ) (pread : Pread) : Type 0 where
  pub exact :
      (time offset n : ℕ) (piece : Bytes)
      → pread time offset n ≡ got piece
      → piece ≡ slice contents offset (length piece)
  pub bounded :
      (time offset n : ℕ) (piece : Bytes) → pread time offset n ≡ got piece → length piece ≤ n
  pub answers :
      (time offset n : ℕ)
      → offset < length contents
      → 0 < n
      → ((pread time offset n ≡ interrupted) × (time < settled))
        ⊎ ((c : ℕ) × (cs : Bytes) × (pread time offset n ≡ got (c ∷ cs)))

slice-add :
    (contents : Bytes) (offset a b : ℕ)
    → slice contents offset a ++ slice contents (offset + a) b ≡ slice contents offset (a + b)
slice-add contents offset a b =
    ap (λ l. slice contents offset a ++ take b l) (sym (drop-drop offset a contents))
    ∙ take-add a b (drop offset contents)

module _ {contents : Bytes} {settled : ℕ} {pread : Pread} (file : Serves contents settled pread)
    (small : length contents ≤ ptrdiff_max) where
  abbrev pub Read : (offset bytes : ℕ) → Option (Bytes × ℕ) → Type 0
  Read offset bytes o = (t : ℕ) × (o ≡ some (slice contents offset bytes, t))

  read_loop_complete :
      (fuel time offset bytes : ℕ)
      → offset + bytes ≤ length contents
      → bytes + (settled - time) ≤ fuel
      → Read offset bytes (read_loop pread fuel time offset bytes)
  unfolding read_loop
  read_loop_complete fuel time offset zero h l = (time, refl)
  read_loop_complete zero time offset (suc b) h l = absurd (omega arith)
  read_loop_complete (suc fuel) time offset (suc b) h l =
      elim (Bool-cases (ltb ptrdiff_max offset)) [
        | inl e ↦ absurd (omega (arith, ltb→lt ptrdiff_max offset e))
        | inr e ↦
            rw e
              (elim (file.answers time offset (min (suc b) (1024 * 1024)) (omega arith)
                (omega arith)) [
                  | inl (e, s) ↦
                      rw e (read_loop_complete fuel (time + 1) offset (suc b) h (omega arith))
                  | inr (c, cs, e) ↦ rw e (
                      let n = length (c ∷ cs) in
                      let at_most : n ≤ min (suc b) (1024 * 1024) =
                        file.bounded time offset _ (c ∷ cs) e in
                      let whole : n + (suc b - n) ≡ suc b = omega arith in
                      let (t, rest) =
                        read_loop_complete fuel (time + 1) (offset + n) (suc b - n) (omega arith)
                          (omega arith) in
                      (
                        t,
                        ap (Option.map (λ (rest, t). (c ∷ cs ++ rest, t))) rest
                            ∙ ap (λ l. some (l, t))
                                (ap (λ l. l ++ slice contents (offset + n) (suc b - n))
                                    (file.exact time offset _ (c ∷ cs) e)
                                  ∙ slice-add contents offset n (suc b - n)
                                  ∙ ap (slice contents offset) whole),
                      ))
                ])
      ]

  -- In a file of at most INT64_MAX bytes whose calls of `pread` are no longer interrupted from some
  -- call on, `positional_read` of bytes that lie in the file ends and gives exactly these bytes,
  -- however the calls split them: a round for each byte and for each interrupted call is enough.
  pub positional_read_complete :
      (fuel time offset bytes : ℕ)
      → offset + bytes ≤ length contents
      → bytes + (settled - time) ≤ fuel
      → (t : ℕ) × (positional_read pread fuel time offset bytes
          ≡ some (slice contents offset bytes, t))
  unfolding positional_read
  positional_read_complete fuel time offset bytes h l =
      elim (Bool-cases (ltb ptrdiff_max offset || ltb (ptrdiff_max - offset) bytes)) [
        | inl e ↦ absurd (ground arith)
        | inr e ↦ rw e (read_loop_complete fuel time offset bytes h l)
      ]

  hash_loop_complete :
      (fuel time : ℕ) (hash : Sha256) (start bytes n : ℕ)
      → hash.used < 64
      → hash.bytes < 2 ^ 64
      → start + bytes ≤ length contents
      → bytes ≤ n
      → bytes + settled ≤ fuel
      → (t : ℕ) × (hash_loop pread fuel time hash start bytes n
          ≡ some (sha_update hash (slice contents start bytes), t))
  unfolding hash_loop
  hash_loop_complete fuel time hash start zero n u w h k l =
      (time, ap (λ x. some (x, time)) (sym (sha_update_nothing hash w)))
  hash_loop_complete fuel time hash start (suc b) zero u w h k l = absurd (omega arith)
  hash_loop_complete fuel time hash start (suc b) (suc n) u w h k l =
      let size = min (suc b) buffer_size in
      let whole : size + (suc b - size) ≡ suc b = omega arith in
      let (t, read) = positional_read_complete fuel time start size (omega arith) (omega arith) in
      let next = sha_update hash (slice contents start size) in
      let (t', rest) =
        hash_loop_complete fuel t next (start + size) (suc b - size) n (sha_update-used hash _ u)
          (sha_update-bytes hash _ u) (omega arith) (omega arith) (omega arith) in
      rw read (
        t',
        rest
            ∙ ap (λ h. some (h, t'))
                (sha_update-append hash (slice contents start size)
                    (slice contents (start + size) (suc b - size)) u
                  ∙ ap (sha_update hash) (
                      slice-add contents start size (suc b - size)
                      ∙ ap (slice contents start) whole)),
      )

  -- In such a file `hash_range` ends and updates the hash with exactly the bytes of the range, although
  -- it reads them through a buffer of 64 KiB.
  pub hash_range_complete :
      (fuel time : ℕ) (hash : Sha256) (start bytes : ℕ)
      → hash.used < 64
      → hash.bytes < 2 ^ 64
      → start + bytes ≤ length contents
      → bytes + settled ≤ fuel
      → (t : ℕ) × (hash_range pread fuel time hash start bytes
          ≡ some (sha_update hash (slice contents start bytes), t))
  hash_range_complete fuel time hash start bytes u w h l =
      hash_loop_complete fuel time hash start bytes bytes u w h (omega arith) l
