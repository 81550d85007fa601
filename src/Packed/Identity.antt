-- ===== src/Packed/Identity.antt =====
-- The identities that src/model/inkling_packed.c compares: `source_identity`, `string_equal`,
-- `header_identity` and `trunk_name`. The files of the checkpoint are a parameter.
use mathlib.Core.Option
use inkling_in_c.Packed.Sha.{Sha256, sha_start, sha_update, sha_finish}
use inkling_in_c.Packed.File.{Pread, hash_range}
use inkling_in_c.Json.Value.{Value}
use inkling_in_c.Prelude.{
  Option, ℕ, Bytes, List, ◌*◌, codes, [], Bool, ◌∷◌, take, if◌then◌else◌, bind, some, true,
  replicate, ◌&&◌, suc, ◌==◌, none, ◌%◌, ltb, false, drop, not, ◌/◌, length, bytes_eq, ◌+◌, ◌++◌,
  ◌||◌, zero, ◌-◌, get_or,
}
use inkling_in_c.Json.Access.{json_string, json_object_get, c_string}
use inkling_in_c.Alloc.{size_add}

-- A file that was opened: its size, if it is regular, and its reads.
pub record File : Type 0 where
  pub regular_size : Option ℕ
  pub pread : Pread

-- PACKED_HEADER_LIMIT and SOURCE_REVISION
abbrev pub header_limit : ℕ
header_limit = 100 * 1024 * 1024

abbrev pub source_revision : Bytes
source_revision = codes "b6a99534467840620d411e4cd4ad5819b2610d9c"

-- A number of `n` bytes, its lowest byte first.
unfoldable pub little_endian : ℕ → ℕ → Bytes
little_endian zero x = []
little_endian (suc n) x = x % 256 ∷ little_endian n (x / 256)

abbrev pub source_names : List Bytes
source_names =
    codes "config.json" ∷ codes "model.safetensors.index.json" ∷ codes "hf_quant_config.json" ∷ []

module _ (granted : ℕ → Bool) (files : Bytes → Option File) (fuel : ℕ) where
  -- One file: its name with the NUL, its size and its bytes.
  unfoldable pub hash_file : Sha256 → Bytes → File → Option Sha256
  hash_file hash name file = bind file.regular_size λ bytes.
      if ltb header_limit bytes
      then none
      else Option.map (λ (h, t). h)
          (hash_range file.pread fuel 0
            (sha_update (sha_update hash (name ++ 0 ∷ [])) (little_endian 8 bytes)) 0 bytes)

  -- The loop over the names; a file that does not open is `none`.
  unfoldable pub hash_sources : Bytes → Sha256 → List Bytes → Option Sha256
  hash_sources directory hash [] = some hash
  hash_sources directory hash (name ∷ names) =
      bind (size_add (length directory) (length name + 2)) λ total.
        if granted total
        then (bind (files (directory ++ b'/' ∷ name))
            λ file. bind (hash_file hash name file) λ next. hash_sources directory next names)
        else none

  unfoldable pub source_identity : Bytes → Option Bytes
  source_identity directory =
      bind (hash_sources directory sha_start source_names) λ hash. some (sha_finish hash)

-- `string_equal`
unfoldable pub string_equal : Option Value → Bytes → Bool
string_equal value expected = elim (json_string value) [
  | none ↦ false
  | some text ↦ bytes_eq text expected
]

unfoldable pub starts_with : Bytes → Bytes → Bool
starts_with [] text = true
starts_with (c ∷ cs) [] = false
starts_with (c ∷ cs) (d ∷ ds) = if c == d then starts_with cs ds else false

-- `strstr`: where the first occurrence begins.
unfoldable pub strstr : Bytes → Bytes → Option ℕ
strstr [] needle = if starts_with needle [] then some 0 else none
strstr (c ∷ cs) needle =
    let rest = strstr cs needle in
    if starts_with needle (c ∷ cs) then some 0 else Option.map (λ n. suc n) rest

abbrev pub digest_field : Bytes
digest_field = codes "\"header_sha256\":\""

-- The digest of the header, with zeros in place of the digest that stands in it.
unfoldable pub header_digest : Bytes → ℕ → Bytes
header_digest header offset = sha_finish (
    sha_update (sha_update (sha_update sha_start (take offset header)) (replicate 64 b'0'))
      (drop (offset + 64) header))

unfoldable pub header_identity : Bytes → Option Value → Bool
header_identity header metadata = elim (strstr (c_string header) digest_field) [
  | none ↦ false
  | some place ↦
      let offset = place + length digest_field in
      elim (strstr (c_string (drop (place + 1) header)) digest_field) [
        | some _ ↦ false
        | none ↦
            if ltb (length header) offset
              || ltb (length header - offset) 65
              || not (get_or header (offset + 64) 0 == b'"')
            then false
            else string_equal (json_object_get metadata (codes "header_sha256"))
                (header_digest header offset)
      ]
]

unfoldable pub has_text : Bytes → Bytes → Bool
has_text text needle = elim (strstr text needle) [ none ↦ false | some _ ↦ true ]

-- `trunk_name`
unfoldable pub trunk_name : Bytes → Bool
unfolding has_text
trunk_name name =
    starts_with (codes "model.llm.") name && not (has_text name (codes ".mlp.experts."))
