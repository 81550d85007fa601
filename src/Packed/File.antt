-- ===== src/Packed/File.antt =====
-- `positional_read` and `hash_range` of src/model/inkling_packed.c. `pread` is a parameter: what its
-- call number `time` answers for an offset and a size.
use mathlib.Core.Option
use inkling_in_c.Packed.Sha.{Sha256, sha_update}
use inkling_in_c.Prelude.{
  Bytes, ℕ, Option, some, if◌then◌else◌, [], ltb, suc, none, ptrdiff_max, min, ◌||◌, ◌*◌, ◌-◌, bind,
  ◌+◌, ◌∷◌, zero, ◌++◌, length,
}

pub data ReadResult : Type 0 where
  interrupted failed : ReadResult
  got : Bytes → ReadResult

-- `time`, the offset and the size
abbrev pub Pread : Type 0
Pread = ℕ → ℕ → ℕ → ReadResult

-- `continue` for EINTR, failure for any other error and at the end of the file.
unfoldable pub read_loop : Pread → ℕ → ℕ → ℕ → ℕ → Option (Bytes × ℕ)
read_loop pread fuel time offset zero = some ([], time)
read_loop pread zero time offset (suc b) = none
read_loop pread (suc fuel) time offset (suc b) =
    if ltb ptrdiff_max offset then none else elim (pread time offset (min (suc b) (1024 * 1024))) [
      | interrupted ↦ read_loop pread fuel (time + 1) offset (suc b)
      | failed ↦ none
      | got [] ↦ none
      | got (c ∷ cs) ↦
          Option.map (λ (rest, t). (c ∷ cs ++ rest, t))
            (read_loop pread fuel (time + 1) (offset + length (c ∷ cs)) (suc b - length (c ∷ cs)))
    ]

-- The bytes that `positional_read` stores, and the number of the next call of `pread`. `none` is a
-- failure; on `fuel` see `positional_read_complete`.
unfoldable pub positional_read : Pread → ℕ → ℕ → ℕ → ℕ → Option (Bytes × ℕ)
positional_read pread fuel time offset bytes =
    if ltb ptrdiff_max offset || ltb (ptrdiff_max - offset) bytes
    then none
    else read_loop pread fuel time offset bytes

-- sizeof(buffer)
abbrev pub buffer_size : ℕ
buffer_size = 65536

-- `hash_range`: a round takes a byte at least, so that `bytes` rounds are enough.
unfoldable pub hash_loop : Pread → ℕ → ℕ → Sha256 → ℕ → ℕ → ℕ → Option (Sha256 × ℕ)
hash_loop pread fuel time hash start zero n = some (hash, time)
hash_loop pread fuel time hash start (suc b) zero = none
hash_loop pread fuel time hash start (suc b) (suc n) =
    let size = min (suc b) buffer_size in
    bind (positional_read pread fuel time start size)
      λ (piece, t). hash_loop pread fuel t (sha_update hash piece) (start + size) (suc b - size) n

abbrev pub hash_range : Pread → ℕ → ℕ → Sha256 → ℕ → ℕ → Option (Sha256 × ℕ)
hash_range pread fuel time hash start bytes = hash_loop pread fuel time hash start bytes bytes
