-- ===== src/Packed/Sha.antt =====
-- SHA-256 in src/model/inkling_packed.c: `sha_block`, `sha_start`, `sha_update` and `sha_finish`. A
-- byte and a 32-bit word are numbers.
use Prim.Native.Nat.{bit_and, bit_or, bit_xor}
use inkling_in_c.Prelude.{
  ℕ, Bytes, List, ◌+◌, ◌/◌, ◌^◌, ◌∷◌, length, [], if◌then◌else◌, suc, ◌%◌, ◌*◌, get_or, ◌++◌, ◌-◌,
  replicate, set, min, ltb, ◌==◌, drop, take, zero,
}

-- `Sha256`
pub record Sha256 : Type 0 where
  pub state : List ℕ
  pub bytes : ℕ
  pub block : Bytes
  pub used : ℕ

abbrev pub add32 : ℕ → ℕ → ℕ
add32 a b = (a + b) % 2 ^ 32

unfoldable pub rotate : ℕ → ℕ → ℕ
rotate x n = bit_or (x / 2 ^ n) (x * 2 ^ (32 - n) % 2 ^ 32)

abbrev pub round_constants : List ℕ
round_constants =
    0x428a2f98 ∷ 0x71374491 ∷ 0xb5c0fbcf ∷ 0xe9b5dba5 ∷ 0x3956c25b ∷ 0x59f111f1 ∷ 0x923f82a4
    ∷ 0xab1c5ed5 ∷ 0xd807aa98 ∷ 0x12835b01 ∷ 0x243185be ∷ 0x550c7dc3 ∷ 0x72be5d74 ∷ 0x80deb1fe
    ∷ 0x9bdc06a7 ∷ 0xc19bf174 ∷ 0xe49b69c1 ∷ 0xefbe4786 ∷ 0x0fc19dc6 ∷ 0x240ca1cc ∷ 0x2de92c6f
    ∷ 0x4a7484aa ∷ 0x5cb0a9dc ∷ 0x76f988da ∷ 0x983e5152 ∷ 0xa831c66d ∷ 0xb00327c8 ∷ 0xbf597fc7
    ∷ 0xc6e00bf3 ∷ 0xd5a79147 ∷ 0x06ca6351 ∷ 0x14292967 ∷ 0x27b70a85 ∷ 0x2e1b2138 ∷ 0x4d2c6dfc
    ∷ 0x53380d13 ∷ 0x650a7354 ∷ 0x766a0abb ∷ 0x81c2c92e ∷ 0x92722c85 ∷ 0xa2bfe8a1 ∷ 0xa81a664b
    ∷ 0xc24b8b70 ∷ 0xc76c51a3 ∷ 0xd192e819 ∷ 0xd6990624 ∷ 0xf40e3585 ∷ 0x106aa070 ∷ 0x19a4c116
    ∷ 0x1e376c08 ∷ 0x2748774c ∷ 0x34b0bcb5 ∷ 0x391c0cb3 ∷ 0x4ed8aa4a ∷ 0x5b9cca4f ∷ 0x682e6ff3
    ∷ 0x748f82ee ∷ 0x78a5636f ∷ 0x84c87814 ∷ 0x8cc70208 ∷ 0x90befffa ∷ 0xa4506ceb ∷ 0xbef9a3f7
    ∷ 0xc67178f2 ∷ []

-- The first loop: sixteen words from the bytes of the block, with `n` words left.
unfoldable pub block_words : ℕ → Bytes → List ℕ
block_words zero block = []
block_words (suc n) block =
    (get_or block 0 0 * 2 ^ 24
      + get_or block 1 0 * 2 ^ 16
      + get_or block 2 0 * 2 ^ 8
      + get_or block 3 0)
    ∷ block_words n (drop 4 block)

-- The word after `words`.
unfoldable pub next_word : List ℕ → ℕ
unfolding rotate
next_word words =
    let i = length words in
    let a = get_or words (i - 15) 0 in
    let b = get_or words (i - 2) 0 in
    add32
      (add32
        (add32 (get_or words (i - 16) 0) (bit_xor (bit_xor (rotate a 7) (rotate a 18)) (a / 2 ^ 3)))
        (get_or words (i - 7) 0))
      (bit_xor (bit_xor (rotate b 17) (rotate b 19)) (b / 2 ^ 10))

-- The second loop, with `n` words left.
unfoldable pub extend_words : ℕ → List ℕ → List ℕ
extend_words zero words = words
extend_words (suc n) words = extend_words n (words ++ next_word words ∷ [])

-- The local variables a to h.
pub record Registers : Type 0 where
  pub a : ℕ
  pub b : ℕ
  pub c : ℕ
  pub d : ℕ
  pub e : ℕ
  pub f : ℕ
  pub g : ℕ
  pub h : ℕ

-- One round of the last loop.
unfoldable pub sha_round : Registers → ℕ → ℕ → Registers
unfolding rotate
sha_round r constant word =
    let first =
      add32
        (add32
          (add32 (add32 r.h (bit_xor (bit_xor (rotate r.e 6) (rotate r.e 11)) (rotate r.e 25)))
            (bit_xor (bit_and r.e r.f) (bit_and (2 ^ 32 - 1 - r.e) r.g)))
          constant)
        word in
    let second =
      add32 (bit_xor (bit_xor (rotate r.a 2) (rotate r.a 13)) (rotate r.a 22))
        (bit_xor (bit_xor (bit_and r.a r.b) (bit_and r.a r.c)) (bit_and r.b r.c)) in
    record {
      a = add32 first second;
      b = r.a;
      c = r.b;
      d = r.c;
      e = add32 r.d first;
      f = r.e;
      g = r.f;
      h = r.g;
    }

unfoldable pub sha_rounds : Registers → List ℕ → List ℕ → Registers
sha_rounds r (constant ∷ constants) (word ∷ words) =
    sha_rounds (sha_round r constant word) constants words
sha_rounds r _ _ = r

-- `sha_block`, on the eight words of the state.
unfoldable pub sha_block : List ℕ → Bytes → List ℕ
sha_block (a ∷ b ∷ c ∷ d ∷ e ∷ f ∷ g ∷ h ∷ []) block =
    let r =
      sha_rounds (record { a = a; b = b; c = c; d = d; e = e; f = f; g = g; h = h }) round_constants
        (extend_words 48 (block_words 16 block)) in
    add32 a r.a
    ∷ add32 b r.b
    ∷ add32 c r.c
    ∷ add32 d r.d
    ∷ add32 e r.e
    ∷ add32 f r.f
    ∷ add32 g r.g
    ∷ add32 h r.h
    ∷ []
sha_block state block = state

-- `sha_start`
abbrev pub sha_start : Sha256
sha_start = record {
  state =
      0x6a09e667 ∷ 0xbb67ae85 ∷ 0x3c6ef372 ∷ 0xa54ff53a ∷ 0x510e527f ∷ 0x9b05688c ∷ 0x1f83d9ab
      ∷ 0x5be0cd19 ∷ [];
  bytes = 0;
  block = replicate 64 0;
  used = 0;
}

-- `memcpy` of the input to `at` in the block.
unfoldable pub copy : Bytes → ℕ → Bytes → Bytes
copy block at [] = block
copy block at (c ∷ cs) = copy (set block at c) (at + 1) cs

-- A full block is hashed, and begins again.
unfoldable pub flush : Sha256 → Sha256
flush hash =
    if hash.used == 64
    then record hash { state = sha_block hash.state hash.block; used = 0 }
    else hash

-- The loop of `sha_update`, with fuel.
unfoldable pub update_loop : ℕ → Sha256 → Bytes → Sha256
update_loop fuel hash [] = hash
update_loop zero hash input = hash
update_loop (suc fuel) hash (c ∷ cs) =
    let n = min (64 - hash.used) (length (c ∷ cs)) in
    update_loop fuel
      (flush
        (record hash { block = copy hash.block hash.used (take n (c ∷ cs)); used = hash.used + n }))
      (drop n (c ∷ cs))

-- `sha_update`: a round takes a byte at least, so that the length is fuel enough.
unfoldable pub sha_update : Sha256 → Bytes → Sha256
sha_update hash input =
    update_loop (length input) (record hash { bytes = (hash.bytes + length input) % 2 ^ 64 }) input

-- The last bytes of the suffix: a number of `n` bytes, its highest byte first.
unfoldable pub big_endian : ℕ → ℕ → Bytes
big_endian zero bits = []
big_endian (suc n) bits = bits / 2 ^ (8 * n) % 256 ∷ big_endian n bits

-- The suffix of `sha_finish`: 0x80, the zeros, and the length in bits.
unfoldable pub suffix : Sha256 → Bytes
suffix hash =
    let padding = if ltb hash.used 56 then 56 - hash.used else 120 - hash.used in
    128 ∷ replicate (padding - 1) 0 ++ big_endian 8 (hash.bytes * 8 % 2 ^ 64)

unfoldable pub hex_digit_of : ℕ → ℕ
hex_digit_of n = if ltb n 10 then b'0' + n else b'a' + (n - 10)

-- The digits of the words: four bytes of each, two digits of each byte.
unfoldable pub hex_bytes : Bytes → Bytes
hex_bytes [] = []
hex_bytes (c ∷ cs) = hex_digit_of (c / 16) ∷ hex_digit_of (c % 16) ∷ hex_bytes cs

unfoldable pub hex_words : List ℕ → Bytes
hex_words [] = []
hex_words (w ∷ ws) = hex_bytes (big_endian 4 w) ++ hex_words ws

-- `sha_finish`, without the final NUL.
unfoldable pub sha_finish : Sha256 → Bytes
sha_finish hash = hex_words (sha_update hash (suffix hash)).state
