-- ===== src/Packed/Compression.antt =====
-- Proofs on `sha_block` of src/model/inkling_packed.c against the compression of FIPS 180-4.
use inkling_in_c.Packed.Sha.{
  round_constants, sha_start, block_words, next_word, extend_words, sha_round, sha_rounds,
  sha_block, big_endian, hex_digit_of, hex_bytes, hex_words, Registers, rotate, add32,
}
use inkling_in_c.Packed.Standard.{
  constants, initial, words_of, scheduled, schedule, working, working_step, next_hash, digits_of,
  print_hash, octets,
}
use inkling_in_c.Prelude.{
  ℕ, ◌≡◌, Bytes, List, length, arith, ◌∷◌, suc, refl, ◌*◌, ap, ◌^◌, ◌++◌, ◌∙◌, ◌+◌, [], zero, ap₂,
  codes, Bool, true, ◌<◌, ◌%◌, sym, get_or, ◌/◌, ◌==◌, ◌&&◌, subst, ==_iff, both,
}

pub constants-round_constants : constants ≡ round_constants
unfolding constants
constants-round_constants = refl

pub initial-sha_start : initial ≡ sha_start.state
unfolding initial
initial-sha_start = refl

block_words-words_of :
    (n : ℕ) (block : Bytes) → length block ≡ 4 * n → block_words n block ≡ words_of block
unfolding block_words
block_words-words_of zero [] l = refl
block_words-words_of zero (a ∷ block) l = absurd (omega arith)
block_words-words_of (suc n) (a ∷ b ∷ c ∷ d ∷ block) l =
    ap (λ ws. (a * 2 ^ 24 + b * 2 ^ 16 + c * 2 ^ 8 + d) ∷ ws)
      (block_words-words_of n block (omega arith))
block_words-words_of (suc n) [] l = absurd (omega arith)
block_words-words_of (suc n) (a ∷ []) l = absurd (omega arith)
block_words-words_of (suc n) (a ∷ b ∷ []) l = absurd (omega arith)
block_words-words_of (suc n) (a ∷ b ∷ c ∷ []) l = absurd (omega arith)

reordered : (p q r s : ℕ) → add32 (add32 (add32 p q) r) s ≡ add32 (add32 (add32 s r) q) p
reordered p q r s = omega arith

next_word-scheduled : (words : List ℕ) → next_word words ≡ scheduled words
unfolding next_word rotate
next_word-scheduled words = reordered _ _ _ _

extend_words-schedule : (n : ℕ) (words : List ℕ) → extend_words n words ≡ schedule n words
unfolding extend_words
extend_words-schedule zero words = refl
extend_words-schedule (suc n) words =
    ap (λ w. extend_words n (words ++ w ∷ [])) (next_word-scheduled words)
    ∙ extend_words-schedule n (words ++ scheduled words ∷ [])

sha_round-working_step : (r : Registers) (k w : ℕ) → sha_round r k w ≡ working_step r k w
unfolding sha_round rotate
sha_round-working_step r k w = refl

sha_rounds-working : (r : Registers) (ks ws : List ℕ) → sha_rounds r ks ws ≡ working r ks ws
unfolding sha_rounds
sha_rounds-working r [] ws = refl
sha_rounds-working r (k ∷ ks) [] = refl
sha_rounds-working r (k ∷ ks) (w ∷ ws) =
    ap (λ s. sha_rounds s ks ws) (sha_round-working_step r k w)
    ∙ sha_rounds-working (working_step r k w) ks ws

-- On a block of 64 bytes.
pub sha_block-next_hash :
    (state : List ℕ) (block : Bytes)
    → length block ≡ 64
    → sha_block state block ≡ next_hash state block
unfolding sha_block
sha_block-next_hash (a ∷ b ∷ c ∷ d ∷ e ∷ f ∷ g ∷ h ∷ []) block l =
    let r : Registers = record { a = a; b = b; c = c; d = d; e = e; f = f; g = g; h = h } in
    ap
      (λ (s : Registers).
        add32 a s.a
        ∷ add32 b s.b
        ∷ add32 c s.c
        ∷ add32 d s.d
        ∷ add32 e s.e
        ∷ add32 f s.f
        ∷ add32 g s.g
        ∷ add32 h s.h
        ∷ [])
      (sha_rounds-working r round_constants (extend_words 48 (block_words 16 block))
        ∙ ap₂ (working r) (sym constants-round_constants) (
            extend_words-schedule 48 (block_words 16 block)
            ∙ ap (schedule 48) (block_words-words_of 16 block l)))
sha_block-next_hash [] block l = refl
sha_block-next_hash (a ∷ []) block l = refl
sha_block-next_hash (a ∷ b ∷ []) block l = refl
sha_block-next_hash (a ∷ b ∷ c ∷ []) block l = refl
sha_block-next_hash (a ∷ b ∷ c ∷ d ∷ []) block l = refl
sha_block-next_hash (a ∷ b ∷ c ∷ d ∷ e ∷ []) block l = refl
sha_block-next_hash (a ∷ b ∷ c ∷ d ∷ e ∷ f ∷ []) block l = refl
sha_block-next_hash (a ∷ b ∷ c ∷ d ∷ e ∷ f ∷ g ∷ []) block l = refl
sha_block-next_hash (a ∷ b ∷ c ∷ d ∷ e ∷ f ∷ g ∷ h ∷ i ∷ state) block l = refl

abbrev digits : Bytes
digits = codes "0123456789abcdef"

abbrev all_digits : ℕ → ℕ → Bool
all_digits zero m = true
all_digits (suc n) m = hex_digit_of m == get_or digits m 0 && all_digits n (m + 1)

all_digits-at :
    (n m i : ℕ) → all_digits n m ≡ true → i < n → hex_digit_of (m + i) ≡ get_or digits (m + i) 0
all_digits-at zero m i h l = absurd (omega arith)
all_digits-at (suc n) m zero h l =
    let same : m + zero ≡ m = omega arith in
    subst (λ k. hex_digit_of k ≡ get_or digits k 0) (sym same) ((==_iff _ _).0 (both _ _ h).0)
all_digits-at (suc n) m (suc i) h l =
    let same : m + 1 + i ≡ m + suc i = omega arith in
    subst (λ k. hex_digit_of k ≡ get_or digits k 0) same
      (all_digits-at n (m + 1) i (both _ _ h).1 (omega arith))

all_digits_hold : all_digits 16 0 ≡ true
unfolding hex_digit_of
all_digits_hold = refl

hex_digit_of-digits : (x n : ℕ) → x ≡ n → n < 16 → hex_digit_of x ≡ get_or digits n 0
hex_digit_of-digits x n e l =
    let same : 0 + n ≡ n = omega arith in
    ap hex_digit_of e
    ∙ subst (λ k. hex_digit_of k ≡ get_or digits k 0) same (all_digits-at 16 0 n all_digits_hold l)

hex_bytes-digits_of : (w : ℕ) → hex_bytes (big_endian 4 w) ≡ digits_of 8 w
unfolding hex_bytes big_endian
hex_bytes-digits_of w =
    ap₂ (λ a l. a ∷ l) (hex_digit_of-digits _ _ (omega arith) (omega arith))
      (ap₂ (λ a l. a ∷ l) (hex_digit_of-digits _ _ (omega arith) (omega arith))
        (ap₂ (λ a l. a ∷ l) (hex_digit_of-digits _ _ (omega arith) (omega arith))
          (ap₂ (λ a l. a ∷ l) (hex_digit_of-digits _ _ (omega arith) (omega arith))
            (ap₂ (λ a l. a ∷ l) (hex_digit_of-digits _ _ (omega arith) (omega arith))
              (ap₂ (λ a l. a ∷ l) (hex_digit_of-digits _ _ (omega arith) (omega arith))
                (ap₂ (λ a l. a ∷ l) (hex_digit_of-digits _ _ (omega arith) (omega arith))
                  (ap (λ a. a ∷ []) (hex_digit_of-digits _ _ (omega arith) (omega arith)))))))))

pub hex_words-print_hash : (ws : List ℕ) → hex_words ws ≡ print_hash ws
unfolding hex_words
hex_words-print_hash [] = refl
hex_words-print_hash (w ∷ ws) =
    ap₂ (λ a b. a ++ b) (hex_bytes-digits_of w) (hex_words-print_hash ws)

pub big_endian-octets : (l : ℕ) → big_endian 8 (l % 2 ^ 64) ≡ octets l
unfolding big_endian
big_endian-octets l =
    let a : l % 2 ^ 64 / 2 ^ 56 % 256 ≡ l / 2 ^ 56 % 256 = omega arith in
    let b : l % 2 ^ 64 / 2 ^ 48 % 256 ≡ l / 2 ^ 48 % 256 = omega arith in
    let c : l % 2 ^ 64 / 2 ^ 40 % 256 ≡ l / 2 ^ 40 % 256 = omega arith in
    let d : l % 2 ^ 64 / 2 ^ 32 % 256 ≡ l / 2 ^ 32 % 256 = omega arith in
    let e : l % 2 ^ 64 / 2 ^ 24 % 256 ≡ l / 2 ^ 24 % 256 = omega arith in
    let f : l % 2 ^ 64 / 2 ^ 16 % 256 ≡ l / 2 ^ 16 % 256 = omega arith in
    let g : l % 2 ^ 64 / 2 ^ 8 % 256 ≡ l / 2 ^ 8 % 256 = omega arith in
    let h : l % 2 ^ 64 / 2 ^ 0 % 256 ≡ l % 256 = omega arith in rw (a, b, c, d, e, f, g, h)
