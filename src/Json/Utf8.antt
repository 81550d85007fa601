-- ===== src/Json/Utf8.antt =====
-- The characters of a JSON string: `append_codepoint`, `hex_digit` and `utf8_sequence_length` of
-- src/io/inkling_json.c. Bytes are numbers below 256.
use inkling_in_c.Prelude.{
  ltb, leb, ◌==◌, if◌then◌else◌, within, Bytes, ℕ, ◌+◌, ◌-◌, ◌/◌, ◌%◌, ◌^◌, Bool, not, ◌&&◌, ◌||◌,
  Option, none, some, [], ◌∷◌,
}

-- The bytes that `append_codepoint` writes; `none` is its failure. `0xc0 | (c >> 6)` and the like
-- are sums, since the two sides share no bit; `x & 0x3f` is `x % 64`.
unfoldable pub encode : ℕ → Option Bytes
encode c =
    if leb c 0x7f
    then some (c ∷ [])
    else if leb c 0x7ff
    then some ((0xc0 + c / 2 ^ 6) ∷ (0x80 + c % 64) ∷ [])
    else if leb c 0xffff
    then some ((0xe0 + c / 2 ^ 12) ∷ (0x80 + c / 2 ^ 6 % 64) ∷ (0x80 + c % 64) ∷ [])
    else if leb c 0x10ffff
    then some (
        (0xf0 + c / 2 ^ 18)
        ∷ (0x80 + c / 2 ^ 12 % 64)
        ∷ (0x80 + c / 2 ^ 6 % 64)
        ∷ (0x80 + c % 64)
        ∷ [])
    else none

-- `hex_digit`
unfoldable pub hex_digit : ℕ → Option ℕ
hex_digit c =
    if within b'0' b'9' c
    then some (c - b'0')
    else if within b'a' b'f' c
    then some (c - b'a' + 10)
    else if within b'A' b'F' c
    then some (c - b'A' + 10)
    else none

abbrev pub is_tail : ℕ → Bool
is_tail = within 0x80 0xbf

-- The branch of `utf8_sequence_length` for a first byte from 0xc2 to 0xdf.
unfoldable pub length_two : Bytes → ℕ
length_two (b₁ ∷ _) = if is_tail b₁ then 2 else 0
length_two [] = 0

-- From 0xe0 to 0xef: no overlong form, no surrogate.
unfoldable pub length_three : ℕ → Bytes → ℕ
length_three first (b₁ ∷ b₂ ∷ _) =
    if not (is_tail b₁) || not (is_tail b₂)
    then 0
    else if (first == 0xe0 && ltb b₁ 0xa0) || (first == 0xed && ltb 0x9f b₁)
    then 0
    else 3
length_three first _ = 0

-- From 0xf0 to 0xf4: no overlong form, nothing above U+10FFFF.
unfoldable pub length_four : ℕ → Bytes → ℕ
length_four first (b₁ ∷ b₂ ∷ b₃ ∷ _) =
    if not (is_tail b₁) || not (is_tail b₂) || not (is_tail b₃)
    then 0
    else if (first == 0xf0 && ltb b₁ 0x90) || (first == 0xf4 && ltb 0x8f b₁)
    then 0
    else 4
length_four first _ = 0

-- `utf8_sequence_length` on the bytes that remain; 0 is a malformed sequence.
unfoldable pub utf8_sequence_length : Bytes → ℕ
unfolding length_two length_three length_four
utf8_sequence_length [] = 0
utf8_sequence_length (first ∷ more) =
    if ltb first 0x80
    then 1
    else if within 0xc2 0xdf first
    then length_two more
    else if within 0xe0 0xef first
    then length_three first more
    else if within 0xf0 0xf4 first
    then length_four first more
    else 0
