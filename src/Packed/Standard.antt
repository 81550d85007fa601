-- ===== src/Packed/Standard.antt =====
-- SHA-256 as FIPS 180-4 defines it, for the proofs on the digests of src/model/inkling_packed.c.
use Prim.Native.Nat.{bit_and, bit_or, bit_xor}
use inkling_in_c.Packed.Sha.{Registers}
use inkling_in_c.Prelude.{
  ℕ, ◌+◌, ◌/◌, ◌^◌, ◌*◌, List, Bytes, suc, ◌%◌, ◌-◌, ◌∷◌, take, length, ◌++◌, [], if◌then◌else◌,
  leb, get_or, drop, replicate, zero, codes,
}

-- The sum of words, and the functions of section 4.1.2.
abbrev plus : ℕ → ℕ → ℕ
plus x y = (x + y) % 2 ^ 32

abbrev rotr : ℕ → ℕ → ℕ
rotr n x = bit_or (x / 2 ^ n) (x * 2 ^ (32 - n) % 2 ^ 32)

abbrev choose : ℕ → ℕ → ℕ → ℕ
choose x y z = bit_xor (bit_and x y) (bit_and (2 ^ 32 - 1 - x) z)

abbrev majority : ℕ → ℕ → ℕ → ℕ
majority x y z = bit_xor (bit_xor (bit_and x y) (bit_and x z)) (bit_and y z)

abbrev upper_0 : ℕ → ℕ
upper_0 x = bit_xor (bit_xor (rotr 2 x) (rotr 13 x)) (rotr 22 x)

abbrev upper_1 : ℕ → ℕ
upper_1 x = bit_xor (bit_xor (rotr 6 x) (rotr 11 x)) (rotr 25 x)

abbrev lower_0 : ℕ → ℕ
lower_0 x = bit_xor (bit_xor (rotr 7 x) (rotr 18 x)) (x / 2 ^ 3)

abbrev lower_1 : ℕ → ℕ
lower_1 x = bit_xor (bit_xor (rotr 17 x) (rotr 19 x)) (x / 2 ^ 10)

-- The largest number below `2 ^ n` more than `found` whose power is at most the target.
abbrev root : (ℕ → ℕ) → ℕ → ℕ → ℕ → ℕ
root power target zero found = found
root power target (suc n) found =
    root power target n (if leb (power (found + 2 ^ n)) target then found + 2 ^ n else found)

-- The first 32 bits of the fractional parts of the square root and of the cube root of a prime.
abbrev square_root_bits : ℕ → ℕ
square_root_bits p = root (λ x. x * x) (p * 2 ^ 64) 36 0 % 2 ^ 32

abbrev cube_root_bits : ℕ → ℕ
cube_root_bits p = root (λ x. x * x * x) (p * 2 ^ 96) 36 0 % 2 ^ 32

abbrev primes : List ℕ
primes =
    2 ∷ 3 ∷ 5 ∷ 7 ∷ 11 ∷ 13 ∷ 17 ∷ 19 ∷ 23 ∷ 29 ∷ 31 ∷ 37 ∷ 41 ∷ 43 ∷ 47 ∷ 53 ∷ 59 ∷ 61 ∷ 67 ∷ 71
    ∷ 73 ∷ 79 ∷ 83 ∷ 89 ∷ 97 ∷ 101 ∷ 103 ∷ 107 ∷ 109 ∷ 113 ∷ 127 ∷ 131 ∷ 137 ∷ 139 ∷ 149 ∷ 151 ∷ 157
    ∷ 163 ∷ 167 ∷ 173 ∷ 179 ∷ 181 ∷ 191 ∷ 193 ∷ 197 ∷ 199 ∷ 211 ∷ 223 ∷ 227 ∷ 229 ∷ 233 ∷ 239 ∷ 241
    ∷ 251 ∷ 257 ∷ 263 ∷ 269 ∷ 271 ∷ 277 ∷ 281 ∷ 283 ∷ 293 ∷ 307 ∷ 311 ∷ []

abbrev map_each : (ℕ → ℕ) → List ℕ → List ℕ
map_each f [] = []
map_each f (x ∷ xs) = f x ∷ map_each f xs

-- Sections 4.2.2 and 5.3.3.
unfoldable pub constants : List ℕ
constants = map_each cube_root_bits primes

unfoldable pub initial : List ℕ
initial = map_each square_root_bits (take 8 primes)

-- The words of a block, and the message schedule with `n` more words.
abbrev pub words_of : Bytes → List ℕ
words_of (a ∷ b ∷ c ∷ d ∷ block) = (a * 2 ^ 24 + b * 2 ^ 16 + c * 2 ^ 8 + d) ∷ words_of block
words_of _ = []

abbrev pub scheduled : List ℕ → ℕ
scheduled words =
    let t = length words in
    plus
      (plus (plus (lower_1 (get_or words (t - 2) 0)) (get_or words (t - 7) 0))
        (lower_0 (get_or words (t - 15) 0)))
      (get_or words (t - 16) 0)

abbrev pub schedule : ℕ → List ℕ → List ℕ
schedule zero words = words
schedule (suc n) words = schedule n (words ++ scheduled words ∷ [])

-- The step of section 6.2.2.
abbrev pub working_step : Registers → ℕ → ℕ → Registers
working_step r k w =
    let t1 = plus (plus (plus (plus r.h (upper_1 r.e)) (choose r.e r.f r.g)) k) w in
    let t2 = plus (upper_0 r.a) (majority r.a r.b r.c) in
    record { h = r.g; g = r.f; f = r.e; e = plus r.d t1; d = r.c; c = r.b; b = r.a; a = plus t1 t2 }

abbrev pub working : Registers → List ℕ → List ℕ → Registers
working r (k ∷ ks) (w ∷ ws) = working (working_step r k w) ks ws
working r _ _ = r

abbrev pub next_hash : List ℕ → Bytes → List ℕ
next_hash (a ∷ b ∷ c ∷ d ∷ e ∷ f ∷ g ∷ h ∷ []) block =
    let r =
      working (record { a = a; b = b; c = c; d = d; e = e; f = f; g = g; h = h }) constants
        (schedule 48 (words_of block)) in
    plus a r.a
    ∷ plus b r.b
    ∷ plus c r.c
    ∷ plus d r.d
    ∷ plus e r.e
    ∷ plus f r.f
    ∷ plus g r.g
    ∷ plus h r.h
    ∷ []
next_hash hash block = hash

-- The hash of `n` blocks of a message, one after the other.
unfoldable pub hash_blocks : ℕ → List ℕ → Bytes → List ℕ
hash_blocks zero hash message = hash
hash_blocks (suc n) hash message =
    hash_blocks n (next_hash hash (take 64 message)) (drop 64 message)

-- The length of a message as a 64-bit number.
abbrev pub octets : ℕ → Bytes
octets l =
    l / 2 ^ 56 % 256
    ∷ l / 2 ^ 48 % 256
    ∷ l / 2 ^ 40 % 256
    ∷ l / 2 ^ 32 % 256
    ∷ l / 2 ^ 24 % 256
    ∷ l / 2 ^ 16 % 256
    ∷ l / 2 ^ 8 % 256
    ∷ l % 256
    ∷ []

-- Section 5.1.1: the message, a bit 1, the least number of zeros, and its length in bits.
abbrev pub padded : Bytes → Bytes
padded message =
    message ++ (128 ∷ replicate ((119 - length message % 64) % 64) 0 ++ octets (length message * 8))

-- The hexadecimal digits of words.
abbrev pub digits_of : ℕ → ℕ → Bytes
digits_of zero w = []
digits_of (suc n) w = get_or (codes "0123456789abcdef") (w / 16 ^ n % 16) 0 ∷ digits_of n w

abbrev pub print_hash : List ℕ → Bytes
print_hash [] = []
print_hash (w ∷ ws) = digits_of 8 w ++ print_hash ws

abbrev pub sha256 : Bytes → Bytes
sha256 message = print_hash (hash_blocks (length (padded message) / 64) initial (padded message))
