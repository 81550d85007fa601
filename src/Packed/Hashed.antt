-- ===== src/Packed/Hashed.antt =====
-- Proofs on the digest of a range of a file in src/model/inkling_packed.c: `hash_range` between
-- `sha_start` and `sha_finish`.
use mathlib.Core.Option
use inkling_in_c.Packed.Sha.{sha_start, sha_finish}
use inkling_in_c.Packed.File.{Pread, hash_range}
use inkling_in_c.Packed.Reads.{Serves, slice, hash_range_complete}
use inkling_in_c.Packed.Standard.{sha256}
use inkling_in_c.Packed.Digest.{sha_finish-sha256}
use inkling_in_c.Prelude.{ℕ, Bytes, length, ◌≤◌, ptrdiff_max, ◌+◌, ◌≡◌, some, arith, ap, ◌∙◌}

-- In a file that serves its contents, through short reads and interrupted calls, the hash of a range of
-- the file ends, and its digest is SHA-256 of exactly the bytes of the range, as FIPS 180-4 defines it.
pub hash_range-sha256 :
    {contents : Bytes} {settled : ℕ} {pread : Pread} (file : Serves contents settled pread)
    → length contents ≤ ptrdiff_max
    → (fuel time start bytes : ℕ) → start + bytes ≤ length contents
    → bytes + settled ≤ fuel
    → Option.map (λ r. sha_finish r.0) (hash_range pread fuel time sha_start start bytes)
      ≡ some (sha256 (slice contents start bytes))
hash_range-sha256 {contents} file small fuel time start bytes inside enough =
    let (t, run) =
      hash_range_complete file small fuel time sha_start start bytes (omega arith) (omega arith)
        inside enough in
    ap (Option.map (λ r. sha_finish r.0)) run
    ∙ ap some (sha_finish-sha256 (slice contents start bytes))
